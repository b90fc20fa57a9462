-- ===== src/Isp/Services.antt =====
-- isp-adapter/src/dhcp.service.js, radius.service.js and subscriber-resolver.js. The time is an
-- argument, and a request's body gives its fields as options.
use guardtime.Base.{
  ℕ, String, Bool, true, false, Option, none, some, List, [], ◌∷◌, ◌==◌, string_eq, to_lower,
  truthy, or_null, ◌or_else◌, if◌then◌else◌,
}
use guardtime.Base.Dict
use guardtime.Isp.Store.{
  Session, Lease, Subscriber, Cgnat, Resolved, Tenant, Method, ◌>>=◌, ◌>>◌, pure, throw, get_tenant,
  update_tenant, required,
}

pub record LeaseData : Type 0 where
  pub mac_address : Option String
  pub subscriber_id : Option String
  pub ip_address : Option String
  pub hostname : Option String
  pub circuit_id : Option String
  pub expires_at : Option String

pub record SessionData : Type 0 where
  pub subscriber_id : Option String
  pub assigned_ip : Option String
  pub public_ip : Option String
  pub cgnat_port_start : Option ℕ
  pub cgnat_port_end : Option ℕ
  pub bng_id : Option String
  pub access_circuit_id : Option String
  pub started_at : Option String
  pub active : Option Bool

abbrev pub new_subscriber : (now id : String) → Subscriber
new_subscriber now id = record {
  subscriber_id = id;
  active_session = none;
  devices = [];
  updated_at = now;
}

-- `x || fallback`, where the fallback is a string.
abbrev pub or_string : Option String → String → String
or_string none fallback = fallback
or_string (some s) fallback = if s == "" then fallback else s

-- What `ensureSubscriber` returns.
abbrev pub subscriber_of : (now id : String) → Tenant → Subscriber
subscriber_of now id t = elim (Dict.lookup id t.subscribers) [
  | none ↦ new_subscriber now id
  | some s ↦ s
]

-- `ensureSubscriber`, and an assignment to a part of the subscriber that it returns.
unfoldable pub with_subscriber : (now id : String) → (Subscriber → Subscriber) → Tenant → Tenant
with_subscriber now id f t = record t {
  subscribers = Dict.insert id (f (subscriber_of now id t)) t.subscribers;
}

-- `subscriber.devices.set(mac, lease)`
abbrev pub add_device : (now : String) → Lease → Subscriber → Subscriber
add_device now lease s = record s {
  devices = Dict.insert lease.mac_address lease s.devices;
  updated_at = now;
}

abbrev pub store_lease : (now : String) → Lease → Tenant → Tenant
store_lease now lease t =
    with_subscriber now lease.subscriber_id (add_device now lease)
      (record t { dhcp_leases_by_mac = Dict.insert lease.mac_address lease t.dhcp_leases_by_mac })

unfoldable pub upsert_lease : (now tenant_id : String) → LeaseData → Method Lease
unfolding to_lower
upsert_lease now tid d = do
  get_tenant tid
  mac ← required d.mac_address "macAddress"
  id ← required d.subscriber_id "subscriberId"
  ip ← required d.ip_address "ipAddress"
  let lease : Lease = record {
    subscriber_id = id;
    mac_address = to_lower mac;
    ip_address = ip;
    hostname = or_null d.hostname;
    circuit_id = or_null d.circuit_id;
    expires_at = or_null d.expires_at;
    updated_at = now;
  }
  update_tenant tid (store_lease now lease)
  pure lease

unfoldable pub list_by_subscriber : (tenant_id subscriber_id : String) → Method (List Lease)
list_by_subscriber tid id = do
  t ← get_tenant tid
  pure (elim (Dict.lookup id t.subscribers) [ none ↦ [] | some s ↦ Dict.values s.devices ])

unfoldable pub find_by_mac : (tenant_id mac : String) → Method (Option Lease)
unfolding to_lower
find_by_mac tid mac = do t ← get_tenant tid; pure (Dict.lookup (to_lower mac) t.dhcp_leases_by_mac)

-- `subscriber.activeSession = session`
abbrev pub set_session : Option Session → Subscriber → Subscriber
set_session session s = record s { active_session = session }

abbrev pub store_session : (now : String) → Session → Tenant → Tenant
store_session now session t =
    with_subscriber now session.subscriber_id (set_session (some session))
      (record t { radius_sessions = Dict.insert session.subscriber_id session t.radius_sessions })

unfoldable pub upsert_session :
    (now default_bng_id tenant_id : String) → SessionData → Method Session
upsert_session now default_bng_id tid d = do
  get_tenant tid
  id ← required d.subscriber_id "subscriberId"
  ip ← required d.assigned_ip "assignedIp"
  let session : Session = record {
    subscriber_id = id;
    assigned_ip = ip;
    public_ip = or_null d.public_ip;
    cgnat_port_start = d.cgnat_port_start;
    cgnat_port_end = d.cgnat_port_end;
    bng_id = or_string d.bng_id default_bng_id;
    access_circuit_id = or_null d.access_circuit_id;
    started_at = or_string d.started_at now;
    updated_at = now;
    active = elim d.active [ none ↦ true | some b ↦ b ];
    stopped_at = none;
  }
  update_tenant tid (store_session now session)
  pure session

abbrev pub drop_session : (now id : String) → Tenant → Tenant
drop_session now id t =
    with_subscriber now id (set_session none)
      (record t { radius_sessions = Dict.erase id t.radius_sessions })

unfoldable pub stop_session : (now tenant_id subscriber_id : String) → Method (Option Session)
stop_session now tid id = do
  t ← get_tenant tid
  elim (Dict.lookup id t.radius_sessions) [
    | none ↦ pure none
    | some session ↦ do
      update_tenant tid (drop_session now id)
      pure (some (record session { active = false; stopped_at = some now }))
  ]

unfoldable pub get_session : (tenant_id subscriber_id : String) → Method (Option Session)
get_session tid id = do t ← get_tenant tid; pure (Dict.lookup id t.radius_sessions)

-- The fields of a payload that the resolver reads.
pub record Input : Type 0 where
  pub subscriber_id : Option String
  pub mac_address : Option String
  pub assigned_ip : Option String
  pub bng_id : Option String

unfoldable pub resolve_subscriber_id_from_device :
    (tenant_id : String) → (mac_address : Option String) → Method (Option String)
resolve_subscriber_id_from_device tid none = pure none
resolve_subscriber_id_from_device tid (some mac) = if mac == "" then pure none else do
  lease ← find_by_mac tid mac
  pure (elim lease [ none ↦ none | some l ↦ or_null (some l.subscriber_id) ])

abbrev first_ip : List Lease → Option String
first_ip [] = none
first_ip (l ∷ _) = some l.ip_address

abbrev session_ip : Option Session → Option String
session_ip none = none
session_ip (some s) = some s.assigned_ip

abbrev session_public_ip : Option Session → Option String
session_public_ip none = none
session_public_ip (some s) = s.public_ip

abbrev session_bng : Option Session → Option String
session_bng none = none
session_bng (some s) = some s.bng_id

abbrev cgnat_of : Option Session → Option Cgnat
cgnat_of none = none
cgnat_of (some s) = elim s.public_ip [
  | none ↦ none
  | some ip ↦
      if ip == ""
      then none
      else some
          (record { public_ip = ip; port_start = s.cgnat_port_start; port_end = s.cgnat_port_end })
]

-- The object that `resolve` returns.
abbrev pub resolved_of :
    (tenant_id subscriber_id : String) → Input → Option Session → List Lease → Resolved
resolved_of tid id input session devices = record {
  tenant_id = tid;
  subscriber_id = id;
  radius_session = session;
  devices = devices;
  enforcement_ip =
      session_ip session or_else (input.assigned_ip or_else or_null (first_ip devices));
  public_ip = or_null (session_public_ip session);
  cgnat = cgnat_of session;
  bng_id = session_bng session or_else or_null input.bng_id;
}

unfoldable pub resolve : (now tenant_id : String) → Input → Method Resolved
resolve now tid input = do
  get_tenant tid
  from_device ←
      (if truthy input.subscriber_id
        then pure none
        else resolve_subscriber_id_from_device tid input.mac_address)
  id ← (elim (input.subscriber_id or_else from_device) [
    | none ↦ throw "subscriberId is required or must be resolvable from macAddress"
    | some id ↦ pure id
  ])
  update_tenant tid (with_subscriber now id (λ s. s))
  session ← get_session tid id
  devices ← list_by_subscriber tid id
  pure (resolved_of tid id input session devices)
