-- ===== src/Isp/Server.antt =====
-- isp-adapter/src/server.js: the routes of the HTTP server. A request comes with its address taken apart and its body parsed; sockets are left out.
pub mod Access
use guardtime.Base.{
  ℕ, ◌==◌, string_eq, option_eq, Bool, true, false, not, ◌&&◌, ◌||◌, String, ◌<>◌, Option, none,
  some, List, [], ◌∷◌, truthy, after, includes, if◌then◌else◌,
}
use guardtime.Base.Result.{Result, ok, err}
use guardtime.Isp.Settings.{Settings}
use guardtime.Isp.Store.{
  Session, Lease, Resolved, BngState, PolicyRecord, Store, Method, TenantSummary, list_tenants,
  ◌>>=◌, pure, throw, required,
}
use guardtime.Isp.Services.{
  LeaseData, SessionData, Input, or_string, upsert_lease, upsert_session, stop_session, resolve,
}
use guardtime.Isp.Policy.{Payload, apply, get_policy, get_state}

-- The fields that the handlers read of a body.
pub record Body : Type 0 where
  pub tenant_id : Option String
  pub subscriber_id : Option String
  pub mac_address : Option String
  pub ip_address : Option String
  pub hostname : Option String
  pub circuit_id : Option String
  pub expires_at : Option String
  pub assigned_ip : Option String
  pub public_ip : Option String
  pub cgnat_port_start : Option ℕ
  pub cgnat_port_end : Option ℕ
  pub bng_id : Option String
  pub access_circuit_id : Option String
  pub started_at : Option String
  pub active : Option Bool
  pub action : Option String
  pub reason : Option String

-- `none` is a body that is no JSON.
pub record Request : Type 0 where
  pub method : String
  pub pathname : String
  pub tenant_header : Option String
  pub tenant_query : Option String
  pub token : Option String
  pub body : Option Body

pub data Content : Type 0 where
  health : Content
  tenants : List TenantSummary → Content
  session : Session → Content
  stopped : Option Session → Content
  lease : Lease → Content
  policy : PolicyRecord → Content
  subscriber : Resolved → Option PolicyRecord → List BngState → Content
  failed : (message : String) → Content

pub record Reply : Type 0 where
  pub status : ℕ
  pub content : Content

abbrev pub reply : ℕ → Content → Reply
reply status content = record { status = status; content = content }

abbrev or_else_text : Option String → String → String
or_else_text none fallback = fallback
or_else_text (some s) fallback = if s == "" then fallback else s

-- `getTenantId`
unfoldable pub get_tenant_id : Settings → Request → String
get_tenant_id c r = or_else_text r.tenant_header (or_else_text r.tenant_query c.default_tenant_id)

abbrev pub session_data : Body → SessionData
session_data b = record {
  subscriber_id = b.subscriber_id;
  assigned_ip = b.assigned_ip;
  public_ip = b.public_ip;
  cgnat_port_start = b.cgnat_port_start;
  cgnat_port_end = b.cgnat_port_end;
  bng_id = b.bng_id;
  access_circuit_id = b.access_circuit_id;
  started_at = b.started_at;
  active = b.active;
}

abbrev pub lease_data : Body → LeaseData
lease_data b = record {
  mac_address = b.mac_address;
  subscriber_id = b.subscriber_id;
  ip_address = b.ip_address;
  hostname = b.hostname;
  circuit_id = b.circuit_id;
  expires_at = b.expires_at;
}

abbrev pub input_of : Body → Input
input_of b = record {
  subscriber_id = b.subscriber_id;
  mac_address = b.mac_address;
  assigned_ip = b.assigned_ip;
  bng_id = b.bng_id;
}

abbrev text_of : Option String → String
text_of none = ""
text_of (some s) = s

abbrev pub payload_of : Body → Payload
payload_of b = record { input = input_of b; action = text_of b.action; reason = b.reason }

abbrev answer_with {ℓ} : {A : Type ℓ} → (A → Content) → Result A × Store → Reply × Store
answer_with f (ok a, s) = (reply 200 (f a), s)
answer_with f (err message, s) = (reply 400 (failed message), s)

-- The group of `/^\/isp\/subscribers\/([^/]+)$/`.
unfoldable pub subscriber_segment : (pathname : String) → Option String
unfolding after includes
subscriber_segment pathname = elim (after "/isp/subscribers/" pathname) [
  | none ↦ none
  | some segment ↦
      if segment == "" then none else if includes "/" segment then none else some segment
]

-- `authenticate`
unfoldable pub is_admitted : Settings → Request → Bool
is_admitted c r = c.adapter_token == "" || r.token == some c.adapter_token

abbrev pub not_found : Reply
not_found = reply 404 (failed "not found")

abbrev pub rejected : Reply
rejected = reply 401 (failed "invalid isp adapter token")

abbrev pub is_post : (path : String) → Request → Bool
is_post path r = r.method == "POST" && r.pathname == path

-- `decode` is `decodeURIComponent`, where `none` is its error.
module _ (c : Settings) (decode : String → Option String) (now : String) where
  -- `authenticate(req)`, and the rest of the handler.
  abbrev guarded : Request → (Store → Reply × Store) → Store → Reply × Store
  guarded r handler s = if is_admitted c r then handler s else (rejected, s)

  -- `readJson`, and the tenant of the body.
  abbrev with_body : Request → (String → Body → Store → Reply × Store) → Store → Reply × Store
  with_body r handler s = elim r.body [
    | none ↦ (reply 400 (failed "invalid JSON body"), s)
    | some b ↦ handler (or_else_text b.tenant_id (get_tenant_id c r)) b s
  ]

  abbrev stop_for : String → Body → Method (Option Session)
  stop_for tid b =
      required b.subscriber_id "subscriberId" >>= λ (id : String). stop_session now tid id

  abbrev describe : String → String → Method (Resolved × Option PolicyRecord × List BngState)
  describe tid id =
      resolve now tid
        (record { subscriber_id = some id; mac_address = none; assigned_ip = none; bng_id = none })
      >>= λ (r : Resolved). get_policy tid id >>= λ (p : Option PolicyRecord).
          get_state tid id >>= λ (states : List BngState). pure (r, p, states)

  abbrev described : Resolved × Option PolicyRecord × List BngState → Content
  described (r, p, states) = subscriber r p states

  abbrev pub look_up : Request → (segment : String) → Store → Reply × Store
  look_up r segment s = elim (decode segment) [
    | none ↦ (reply 400 (failed "URI malformed"), s)
    | some id ↦ answer_with described (describe (get_tenant_id c r) id s)
  ]

  -- The routes with a body, in order.
  unfoldable pub route_post : Request → Store → Reply × Store
  unfolding upsert_session stop_session upsert_lease apply
  route_post r s =
      if is_post "/isp/radius/session" r
      then guarded r
          (with_body r (λ tid b s1.
            answer_with session (upsert_session now c.default_bng_id tid (session_data b) s1)))
          s
      else if is_post "/isp/radius/stop" r
      then guarded r (with_body r (λ tid b s1. answer_with stopped (stop_for tid b s1))) s
      else if is_post "/isp/dhcp/lease" r
      then guarded r
          (with_body r (λ tid b s1. answer_with lease (upsert_lease now tid (lease_data b) s1))) s
      else if is_post "/isp/policy/apply" r
      then guarded r
          (with_body r
            (λ tid b s1. answer_with policy (apply now c.default_bng_id tid (payload_of b) s1)))
          s
      else (not_found, s)

  unfoldable pub route_get : Request → Store → Reply × Store
  unfolding list_tenants subscriber_segment
  route_get r s =
      if r.pathname == "/health"
      then (reply 200 health, s)
      else if r.pathname == "/isp/tenants"
      then guarded r (λ s1. (reply 200 (tenants (list_tenants s1)), s1)) s
      else elim (subscriber_segment r.pathname) [
        | none ↦ (not_found, s)
        | some segment ↦ guarded r (look_up r segment) s
      ]

  -- `route`, with what the server answers to an error.
  unfoldable pub route : Request → Store → Reply × Store
  unfolding route_get route_post
  route r s = if r.method == "GET" then route_get r s else route_post r s
