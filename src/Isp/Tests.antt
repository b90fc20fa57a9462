-- ===== src/Isp/Tests.antt =====
-- Runs of the service, and the theorems at concrete data.
mod Server
use guardtime.Base.{
  String, ◌≡◌, ◌≢◌, refl, true, false, Option, none, some, [], string_eq, to_lower, filter,
}
use guardtime.Base.Dict
use guardtime.Base.Result.{Result, ok, err}
use guardtime.Isp.Store.{
  Lease, Session, Store, PolicyRecord, ◌>>=◌, pure, throw, required, get_tenant, tenant_of,
  update_tenant,
}
use guardtime.Isp.Services.{
  LeaseData, SessionData, upsert_lease, upsert_session, stop_session, find_by_mac, get_session,
  list_by_subscriber, resolve, resolve_subscriber_id_from_device, with_subscriber,
}
use guardtime.Isp.Policy.{
  Payload, apply, apply_policy, get_policy, normalize_action, build_vendor_commands,
  qos_profile_for,
}
use guardtime.Isp.Isolation.{OthersKept, services-isolated}
use guardtime.Isp.Invariant.{AllCoherent, listed, services-coherent}
use guardtime.Isp.Effects.{Enforced, find_by_mac-upsert_lease, stop_session-stops, apply-Enforced}
use guardtime.Isp.Failure.{apply-failure}
use guardtime.Isp.Lease.{moved_lease_stays_listed}

-- The methods, with all that they call.
machine : Unit {0}
unfolding ◌>>=◌ pure throw required get_tenant tenant_of update_tenant with_subscriber upsert_lease
    upsert_session stop_session find_by_mac get_session list_by_subscriber resolve
    resolve_subscriber_id_from_device apply apply_policy get_policy normalize_action
    build_vendor_commands qos_profile_for to_lower filter string_eq Dict.lookup Dict.insert
    Dict.erase
machine = tt

abbrev lease_of : (id : String) → LeaseData
lease_of id = record {
  mac_address = some "AA:BB";
  subscriber_id = some id;
  ip_address = some "100.64.0.5";
  hostname = none;
  circuit_id = none;
  expires_at = none;
}

abbrev first_lease : Lease
first_lease = record {
  subscriber_id = "anna";
  mac_address = "aa:bb";
  ip_address = "100.64.0.5";
  hostname = none;
  circuit_id = none;
  expires_at = none;
  updated_at = "t0";
}

abbrev second_lease : Lease
second_lease = record first_lease { subscriber_id = "ben" }

abbrev empty_store : Store
empty_store = []

leased : Store
unfolding machine
leased = (upsert_lease "t0" "isp" (lease_of "anna") empty_store).1

moved : Store
unfolding machine leased
moved = (upsert_lease "t0" "isp" (lease_of "ben") leased).1

first_stored : upsert_lease "t0" "isp" (lease_of "anna") empty_store ≡ (ok first_lease, leased)
unfolding machine leased
first_stored = refl

second_stored : upsert_lease "t0" "isp" (lease_of "ben") leased ≡ (ok second_lease, moved)
unfolding machine moved
second_stored = refl

lowered : ◌≡◌ {A = String} (to_lower "Aa:bB") "aa:bb"
unfolding to_lower
lowered = refl

find_by_mac-upsert_lease_example : (find_by_mac "isp" "Aa:bB" leased).0 ≡ ok (some first_lease)
find_by_mac-upsert_lease_example =
    find_by_mac-upsert_lease "t0" "isp" "Aa:bB" (lease_of "anna") first_lease empty_store leased
      first_stored lowered

two_subscribers : ◌≢◌ {A = String} "anna" "ben"
two_subscribers h = cc h

moved_lease_stays_listed_example :
    (Dict.lookup "aa:bb" (tenant_of "isp" moved).dhcp_leases_by_mac ≡ some second_lease)
    × (listed "aa:bb" (Dict.lookup "anna" (tenant_of "isp" moved).subscribers) ≡ some first_lease)
moved_lease_stays_listed_example =
    moved_lease_stays_listed "t0" "t0" "isp" (lease_of "anna") (lease_of "ben") first_lease
      second_lease empty_store leased moved first_stored second_stored refl two_subscribers

abbrev request : (action : String) → Payload
request action = record {
  input = record {
    subscriber_id = some "anna";
    mac_address = none;
    assigned_ip = none;
    bng_id = none;
  };
  action = action;
  reason = none;
}

applied : Result PolicyRecord × Store
unfolding machine moved
applied = apply "t1" "bng-1" "isp" (request "BLOCK") moved

abbrev enforced_address : Result PolicyRecord → Option String
enforced_address (err _) = none
enforced_address (ok p) = p.bng_state.enforcement_ip

-- Blocking the first subscriber blocks the address that is leased to the second.
blocks_the_moved_address : enforced_address applied.0 ≡ some "100.64.0.5"
unfolding applied
blocks_the_moved_address = refl

abbrev blank : PolicyRecord
blank = record {
  tenant_id = "";
  subscriber_id = "";
  action = "";
  reason = none;
  device_scope = none;
  applied_at = "";
  resolved = record {
    tenant_id = "";
    subscriber_id = "";
    radius_session = none;
    devices = [];
    enforcement_ip = none;
    public_ip = none;
    cgnat = none;
    bng_id = none;
  };
  bng_state = record {
    tenant_id = "";
    subscriber_id = "";
    bng_id = "";
    action = "";
    enforcement_ip = none;
    public_ip = none;
    cgnat = none;
    qos_profile = "";
    blackhole = false;
    dns_policy = "";
    reason = none;
    applied_at = "";
    vendor_commands = [];
  };
}

abbrev session_data : SessionData
session_data = record {
  subscriber_id = some "anna";
  assigned_ip = some "100.64.0.9";
  public_ip = some "203.0.113.1";
  cgnat_port_start = some 1024;
  cgnat_port_end = some 2047;
  bng_id = none;
  access_circuit_id = none;
  started_at = none;
  active = none;
}

abbrev session : Session
session = record {
  subscriber_id = "anna";
  assigned_ip = "100.64.0.9";
  public_ip = some "203.0.113.1";
  cgnat_port_start = some 1024;
  cgnat_port_end = some 2047;
  bng_id = "bng-1";
  access_circuit_id = none;
  started_at = "t0";
  updated_at = "t0";
  active = true;
  stopped_at = none;
}

online : Store
unfolding machine moved
online = (upsert_session "t0" "bng-1" "isp" session_data moved).1

session_stored : upsert_session "t0" "bng-1" "isp" session_data moved ≡ (ok session, online)
unfolding machine online
session_stored = refl

block_policy : PolicyRecord
unfolding applied
block_policy = elim applied.0 as (λ _. PolicyRecord) [ ok p ↦ p | err _ ↦ blank ]

block_applied : apply "t1" "bng-1" "isp" (request "BLOCK") moved ≡ (ok block_policy, applied.1)
unfolding machine block_policy
block_applied = refl

apply-Enforced_example : Enforced "bng-1" "isp" block_policy applied.1
apply-Enforced_example =
    apply-Enforced "t1" "bng-1" "isp" (request "BLOCK") block_policy moved applied.1 block_applied

stop_session-stops_example :
    (o : Option Session) × (s' : Store) × (stop_session "t1" "isp" "anna" online ≡ (ok o, s'))
    × ((get_session "isp" "anna" s').0 ≡ ok none)
stop_session-stops_example = stop_session-stops "t1" "isp" "anna" online

refused_store : Store
unfolding machine online
refused_store = (apply "t1" "bng-1" "isp" (request "NUKE") online).1

refused :
    apply "t1" "bng-1" "isp" (request "NUKE") online
    ≡ (err "action must be BLOCK, ALLOW, or THROTTLE", refused_store)
unfolding machine refused_store
refused = refl

apply-failure_example :
    ((tenant_of "isp" refused_store).policies ≡ (tenant_of "isp" online).policies)
    × ((tenant_of "isp" refused_store).bng_state ≡ (tenant_of "isp" online).bng_state)
apply-failure_example =
    apply-failure "t1" "bng-1" "isp" (request "NUKE") "action must be BLOCK, ALLOW, or THROTTLE"
      online refused_store refused

services-isolated_example :
    ((d : LeaseData) → OthersKept "isp" online (upsert_lease "t1" "isp" d online).1)
    × (((d : SessionData) → OthersKept "isp" online (upsert_session "t1" "bng-1" "isp" d online).1)
        × (((id : String) → OthersKept "isp" online (stop_session "t1" "isp" id online).1)
            × ((p : Payload) → OthersKept "isp" online (apply "t1" "bng-1" "isp" p online).1)))
services-isolated_example = services-isolated "t1" "bng-1" "isp" online

empty_store-AllCoherent : AllCoherent empty_store
unfolding Dict.lookup
empty_store-AllCoherent tid t e = absurd (cc e)

leased-AllCoherent : AllCoherent leased
unfolding leased
leased-AllCoherent =
    (services-coherent "t0" "bng-1" "isp" empty_store empty_store-AllCoherent).0 (lease_of "anna")

services-coherent_example :
    ((d : LeaseData) → AllCoherent (upsert_lease "t1" "isp" d leased).1)
    × (((d : SessionData) → AllCoherent (upsert_session "t1" "bng-1" "isp" d leased).1)
        × (((id : String) → AllCoherent (stop_session "t1" "isp" id leased).1)
            × ((p : Payload) → AllCoherent (apply "t1" "bng-1" "isp" p leased).1)))
services-coherent_example = services-coherent "t1" "bng-1" "isp" leased leased-AllCoherent
