-- ===== src/Agent/Plugins/Unifi.antt =====
-- gateway-agent/src/router-integrations/unifi/index.js. `fetch` and JSON are parameters: a reply's text
-- is read as what the plugin looks up in it, and a text that is no JSON has none of it.
pub mod Verdicts
pub mod Calls
pub mod Methods
use guardtime.Base.{
  ℕ, ◌==◌, string_eq, option_eq, Bool, true, false, not, ◌&&◌, ◌||◌, String, ◌<>◌, Option, none,
  some, List, [], ◌∷◌, find, show, to_lower, after, truthy, or_null, ◌or_else◌, json_text,
  json_object, json_list, if◌then◌else◌,
}
use guardtime.Base.Dict
use guardtime.Base.Result.{Result, ok, err}
use guardtime.Agent.Host.{Host}
use guardtime.Agent.Plugins.{PluginResult, says, Context, Call, Plugin}

-- What the plugin reads of an element of a reply's `data`.
pub record Item : Type 0 where
  pub id : Option String
  pub mac : Option String
  pub blocked : Bool
  pub src_address : Option String
  pub name : Option String
  pub name1 : Option String

-- What it reads of a reply: `meta.msg`, and the elements of `data`, if that is an array.
pub record Data : Type 0 where
  pub msg : Option String
  pub items : List Item

pub record Reply : Type 0 where
  pub ok : Bool
  pub status : ℕ
  pub set_cookie : Option String
  pub csrf_token : Option String
  pub updated_csrf_token : Option String
  pub text : Result String

pub record Request : Type 0 where
  pub method : String
  pub url : String
  pub headers : List (String × String)
  pub body : Option String

pub record Web (S : Type 0) : Type 0 where
  pub fetch : Request → S → Result Reply × S
  pub parse : String → Data
  -- `raw.split(';')[0]`
  pub first_part : String → String

pub record Session : Type 0 where
  pub unifi_os : Bool
  pub cookie : String
  pub csrf_token : Option String

abbrev pub or_text : Option String → String → String
or_text none fallback = fallback
or_text (some s) fallback = if s == "" then fallback else s

abbrev pub base_path : Context → (unifi_os : Bool) → String
base_path ctx unifi_os =
    if unifi_os
    then "/proxy/network/api/s/" <> or_text ctx.site "default"
    else "/api/s/" <> or_text ctx.site "default"

-- A port of 0 is left out.
abbrev port_text : Option ℕ → String
unfolding show
port_text none = ""
port_text (some n) = if show n == "0" then "" else ":" <> show n

abbrev pub origin_url : Context → String
unfolding show
origin_url ctx = "https://" <> ctx.ip_address <> port_text ctx.port

abbrev pub with_token : Option String → List (String × String)
with_token none = []
with_token (some token) = if token == "" then [] else ("X-CSRF-Token", token) ∷ []

module _ {S : Type 0} where
  infixl 5 ◌>>=◌
  abbrev pub ◌>>=◌ : {A B : Type 0} → Call S A → (A → Call S B) → Call S B
  ◌>>=◌ m f s = let (r, s1) = m s in elim r [ ok a ↦ f a s1 | err e ↦ (err e, s1) ]

  abbrev pub give : {A : Type 0} → A → Call S A
  give a s = (ok a, s)

  abbrev pub fail : {A : Type 0} → String → Call S A
  fail message s = (err message, s)

  -- `.catch(() => fallback)`
  abbrev pub recover : {A : Type 0} → A → Call S A → Call S A
  recover fallback m s =
      let (r, s1) = m s in elim r [ ok a ↦ (ok a, s1) | err _ ↦ (ok fallback, s1) ]

  -- The `try` of a method, whose error becomes the message of a failure.
  abbrev pub attempt : (word : String) → Call S PluginResult → Call S PluginResult
  attempt word m s =
      let (r, s1) = m s in
      elim r [
        | ok result ↦ (ok result, s1)
        | err e ↦ (ok (says false (word <> " failed: " <> e)), s1)
      ]

abbrev pub no_data : Data
no_data = record { msg = none; items = [] }

abbrev pub first_item : Data → Option Item
first_item d = elim d.items [ [] ↦ none | item ∷ _ ↦ some item ]

abbrev pub has_mac : (mac_address : String) → Item → Bool
unfolding to_lower
has_mac mac_address item = to_lower (or_text item.mac "") == to_lower mac_address

abbrev is_own_rule : (ip_address : String) → Item → Bool
unfolding after
is_own_rule ip_address item =
    (elim item.src_address [ none ↦ false | some a ↦ a == ip_address ])
    && (elim (after "guardtime:" (or_text item.name "")) [ none ↦ false | some _ ↦ true ])

-- What the read-back says of the client, where one that is not listed counts as done.
abbrev pub verdict : (wanted : Bool) → Option Item → Bool
verdict wanted none = true
verdict wanted (some client) = if wanted then client.blocked else not client.blocked

module _ {S : Type 0} (W : Web S) (ctx : Context) where
  abbrev session_of : (unifi_os : Bool) → Reply → Call S Session
  unfolding show
  session_of unifi_os r =
      if not r.ok
      then fail ("unifi login failed (status " <> show r.status <> ")")
      else elim (or_null r.set_cookie) [
        | none ↦ fail "unifi login did not return a session cookie"
        | some raw ↦
            if W.first_part raw == ""
            then fail "unifi login did not return a session cookie"
            else give (record {
              unifi_os = unifi_os;
              cookie = W.first_part raw;
              csrf_token = r.csrf_token or_else or_null r.updated_csrf_token;
            })
      ]

  unfoldable pub attempt_login : (unifi_os : Bool) → Call S Session
  unfolding show json_text json_object
  attempt_login unifi_os =
      W.fetch (record {
        method = "POST";
        url = origin_url ctx <> (if unifi_os then "/api/auth/login" else "/api/login");
        headers = ("Content-Type", "application/json") ∷ [];
        body = some (
            json_object (
              ("username", json_text (or_text ctx.username ""))
              ∷ ("password", json_text (or_text ctx.password ""))
              ∷ []));
      })
      >>= λ (r : Reply). session_of unifi_os r

  abbrev fall_back : Result Session × S → Result Session × S
  unfolding attempt_login
  fall_back (ok session, s) = (ok session, s)
  fall_back (err _, s) = attempt_login false s

  -- The controllers of the current hardware are tried first, unless the context says otherwise.
  unfoldable pub login : Call S Session
  unfolding attempt_login
  login s =
      if (elim ctx.unifi_os [ none ↦ false | some b ↦ not b ])
      then attempt_login false s
      else fall_back (attempt_login true s)

  abbrev answered : (method path text : String) → Reply → Call S Data
  unfolding show
  answered method path text r =
      let data' = if text == "" then no_data else W.parse text in
      if r.ok
      then give data'
      else fail (
          "unifi "
          <> method
          <> " "
          <> path
          <> " failed: "
          <> or_text data'.msg (or_text (some text) ("HTTP " <> show r.status)))

  unfoldable pub api_request :
      Session → (method path : String) → (body : Option String) → Call S Data
  unfolding show
  api_request session method path body =
      W.fetch (record {
        method = method;
        url = origin_url ctx <> base_path ctx session.unifi_os <> path;
        headers =
            ("Content-Type", "application/json")
            ∷ ("Cookie", session.cookie)
            ∷ with_token session.csrf_token;
        body = body;
      })
      >>= λ (r : Reply). elim r.text [ err e ↦ fail e | ok text ↦ answered method path text r ]

  unfoldable pub stamgr_command : Session → (cmd mac_address : String) → Call S Data
  unfolding api_request json_text json_object to_lower
  stamgr_command session cmd mac_address =
      api_request session "POST" "/cmd/stamgr" (
        some
          (json_object (("cmd", json_text cmd) ∷ ("mac", json_text (to_lower mac_address)) ∷ [])))

  unfoldable pub find_client : Session → (mac_address : String) → Call S (Option Item)
  unfolding api_request find to_lower
  find_client session mac_address =
      recover no_data (api_request session "GET" "/stat/sta" none) >>= λ (d : Data).
      give (find (has_mac mac_address) d.items)

  unfoldable pub find_firewall_rule : Session → (ip_address : String) → Call S (Option Item)
  unfolding api_request find after
  find_firewall_rule session ip_address =
      recover no_data (api_request session "GET" "/rest/firewallrule" none) >>= λ (d : Data).
      give (find (is_own_rule ip_address) d.items)
