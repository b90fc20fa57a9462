-- ===== src/Agent/Backend.antt =====
-- gateway-agent/src/backend-client.js: `BackendClient`. `fetch` with its abort after five seconds, the
-- hashes, and JSON are parameters; the values that a call sends are taken as JSON texts.
pub mod Requests
use guardtime.Base.{
  ℕ, zero, suc, ◌==◌, string_eq, option_eq, nat_eq, Bool, true, false, ◌&&◌, ◌||◌, String, ◌<>◌,
  Option, none, some, List, [], ◌∷◌, ◌++◌, contains, leb, show, json_text, json_object, ◌or_else◌,
  truthy, if◌then◌else◌,
}
use guardtime.Agent.Host.{Host}

-- The error that a call throws.
pub record Failure : Type 0 where
  pub name : String
  pub code : Option String
  pub message : String

pub data Answer (A : Type 0) : Type 0 where
  answered : A → Answer A
  threw : Failure → Answer A

-- What `fetch` gives: a response with its status and what reading its text gives, or an error.
pub data Reply : Type 0 where
  responded : (status : ℕ) → (text : Answer String) → Reply
  unreachable : Failure → Reply

pub record Request : Type 0 where
  pub url : String
  pub method : String
  pub headers : List (String × String)
  pub body : Option String

pub record Options : Type 0 where
  pub method : String
  pub body : Option String

pub record Client : Type 0 where
  pub backend_url : String
  pub gateway_token : String

pub record Http (H : Host) : Type 1 where
  pub Json : Type 0
  pub fetch : Request → H.State → Reply × H.State
  pub wait : (ms : ℕ) → H.State → H.State
  pub sha256 : String → String
  pub hmac_sha256 : (key text : String) → String
  pub version : String
  pub parse : String → Answer Json
  pub empty : Json
  -- `payload.message`
  pub message : Json → Option String

abbrev body_text : Option String → String
body_text none = ""
body_text (some body) = body

-- Whether the reply has one of the statuses that are tried again.
abbrev pub is_transient : ℕ → Bool
unfolding nat_eq
is_transient status = contains (502 ∷ 503 ∷ 504 ∷ []) status

abbrev is_retried : Failure → Bool
is_retried f = f.name == "AbortError" || (f.code == some "ECONNRESET" || f.code == some "ETIMEDOUT")

abbrev text_retried : Answer String → Bool
text_retried (answered _) = false
text_retried (threw f) = is_retried f

abbrev pub try_again : Reply → Bool
unfolding nat_eq
try_again (responded status text) = is_transient status || text_retried text
try_again (unreachable f) = is_retried f

module _ {H : Host} (N : Http H) where
  unfoldable pub sign_request :
      Client → (method path : String) → (body : Option String) → (now : ℕ) → String × String
  unfolding show
  sign_request this method path body now =
      let timestamp = show now in
      let body_hash = N.sha256 (body_text body) in
      let signed = method <> "\n" <> path <> "\n" <> timestamp <> "\n" <> body_hash in
      (timestamp, N.hmac_sha256 this.gateway_token signed)

  unfoldable pub request_of : Client → (path : String) → Options → (now : ℕ) → Request
  unfolding sign_request
  request_of this path options now =
      let (timestamp, signature) = sign_request this options.method path options.body now in
      record {
        url = this.backend_url <> path;
        method = options.method;
        headers =
            ("content-type", "application/json")
            ∷ ("x-gateway-token", this.gateway_token)
            ∷ ("x-gateway-timestamp", timestamp)
            ∷ ("x-gateway-signature", signature)
            ∷ ("x-gateway-agent-version", N.version)
            ∷ [];
        body = options.body;
      }

  abbrev refused : (status : ℕ) → (text : String) → N.Json → Answer N.Json
  unfolding show
  refused status text payload = threw (record {
    name = "Error";
    code = none;
    message = "backend " <> show status <> ": " <> body_text (N.message payload or_else some text);
  })

  abbrev checked : (status : ℕ) → (text : String) → Answer N.Json → Answer N.Json
  unfolding show
  checked status text (threw f) = threw f
  checked status text (answered payload) =
      if leb 200 status && leb status 299 then answered payload else refused status text payload

  -- What a reply that is not tried again gives.
  abbrev pub outcome : Reply → Answer N.Json
  unfolding show
  outcome (unreachable f) = threw f
  outcome (responded status (threw f)) = threw f
  outcome (responded status (answered text)) =
      checked status text (if text == "" then answered N.empty else N.parse text)

  -- `request`, with `left` further attempts.
  unfoldable pub send :
      Client → (path : String) → Options → (left : ℕ) → H.State → Answer N.Json × H.State
  unfolding request_of show nat_eq
  send this path options zero s =
      let (reply, s1) = N.fetch (request_of this path options (H.now s)) s in (outcome reply, s1)
  send this path options (suc left) s =
      let (reply, s1) = N.fetch (request_of this path options (H.now s)) s in
      let again = send this path options left (N.wait 300 s1) in
      if try_again reply then again else (outcome reply, s1)

  unfoldable pub request : Client → (path : String) → Options → H.State → Answer N.Json × H.State
  unfolding send
  request this path options s = send this path options 1 s

  abbrev get : Client → (path : String) → H.State → Answer N.Json × H.State
  unfolding request
  get this path s = request this path (record { method = "GET"; body = none }) s

  abbrev post : Client → (path body : String) → H.State → Answer N.Json × H.State
  unfolding request
  post this path body s = request this path (record { method = "POST"; body = some body }) s

  unfoldable pub get_policies : Client → H.State → Answer N.Json × H.State
  unfolding request
  get_policies this s = get this "/gateway/policies" s

  unfoldable pub report_discovery : Client → (devices : String) → H.State → Answer N.Json × H.State
  unfolding request json_object
  report_discovery this devices s =
      post this "/gateway/discovery" (json_object (("devices", devices) ∷ [])) s

  unfoldable pub report_vpn_detections :
      Client → (detections : String) → H.State → Answer N.Json × H.State
  unfolding request json_object
  report_vpn_detections this detections s =
      post this "/gateway/vpn-detections" (json_object (("detections", detections) ∷ [])) s

  unfoldable pub report_doh_detections :
      Client → (detections : String) → H.State → Answer N.Json × H.State
  unfolding request json_object
  report_doh_detections this detections s =
      post this "/gateway/doh-detections" (json_object (("detections", detections) ∷ [])) s

  unfoldable pub report_router_detection :
      Client → (detection : String) → H.State → Answer N.Json × H.State
  unfolding request
  report_router_detection this detection s = post this "/gateway/router/detection" detection s

  unfoldable pub get_router_commands : Client → H.State → Answer N.Json × H.State
  unfolding request
  get_router_commands this s = get this "/gateway/router-commands" s

  abbrev truth : Bool → String
  truth b = if b then "true" else "false"

  unfoldable pub ack_router_command :
      Client
      → (command_id : String) → (success : Bool) → (result_data : String) → H.State
      → Answer N.Json × H.State
  unfolding request json_object json_text
  ack_router_command this command_id success result_data s =
      post this "/gateway/router-commands/ack"
        (json_object (
          ("commandId", json_text command_id)
          ∷ ("success", truth success)
          ∷ ("resultData", result_data)
          ∷ []))
        s
