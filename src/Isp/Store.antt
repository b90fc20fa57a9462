-- ===== src/Isp/Store.antt =====
-- isp-adapter/src/tenant-store.js: the tenants and what each holds. A session that a policy holds
-- is a copy of the session here.
pub mod Laws
use guardtime.Base.{
  ℕ, String, ◌<>◌, Bool, true, false, not, Option, none, some, List, [], ◌∷◌, map, ◌==◌, string_eq,
  length, truthy, if◌then◌else◌,
}
use guardtime.Base.Dict
use guardtime.Base.Dict.{Dict}
use guardtime.Base.Result.{Result, ok, err}

pub record Session : Type 0 where
  pub subscriber_id : String
  pub assigned_ip : String
  pub public_ip : Option String
  pub cgnat_port_start : Option ℕ
  pub cgnat_port_end : Option ℕ
  pub bng_id : String
  pub access_circuit_id : Option String
  pub started_at : String
  pub updated_at : String
  pub active : Bool
  pub stopped_at : Option String

pub record Lease : Type 0 where
  pub subscriber_id : String
  pub mac_address : String
  pub ip_address : String
  pub hostname : Option String
  pub circuit_id : Option String
  pub expires_at : Option String
  pub updated_at : String

pub record Subscriber : Type 0 where
  pub subscriber_id : String
  pub active_session : Option Session
  pub devices : Dict String Lease
  pub updated_at : String

pub record Cgnat : Type 0 where
  pub public_ip : String
  pub port_start : Option ℕ
  pub port_end : Option ℕ

pub record Resolved : Type 0 where
  pub tenant_id : String
  pub subscriber_id : String
  pub radius_session : Option Session
  pub devices : List Lease
  pub enforcement_ip : Option String
  pub public_ip : Option String
  pub cgnat : Option Cgnat
  pub bng_id : Option String

pub record BngState : Type 0 where
  pub tenant_id : String
  pub subscriber_id : String
  pub bng_id : String
  pub action : String
  pub enforcement_ip : Option String
  pub public_ip : Option String
  pub cgnat : Option Cgnat
  pub qos_profile : String
  pub blackhole : Bool
  pub dns_policy : String
  pub reason : Option String
  pub applied_at : String
  pub vendor_commands : List String

pub record PolicyRecord : Type 0 where
  pub tenant_id : String
  pub subscriber_id : String
  pub action : String
  pub reason : Option String
  pub device_scope : Option String
  pub applied_at : String
  pub resolved : Resolved
  pub bng_state : BngState

pub record Tenant : Type 0 where
  pub tenant_id : String
  pub subscribers : Dict String Subscriber
  pub radius_sessions : Dict String Session
  pub dhcp_leases_by_mac : Dict String Lease
  pub policies : Dict String PolicyRecord
  pub bng_state : Dict String BngState

abbrev pub Store : Type 0
Store = Dict String Tenant

abbrev pub new_tenant : String → Tenant
new_tenant tid = record {
  tenant_id = tid;
  subscribers = [];
  radius_sessions = [];
  dhcp_leases_by_mac = [];
  policies = [];
  bng_state = [];
}

-- What `getTenant` returns.
unfoldable pub tenant_of : String → Store → Tenant
tenant_of tid store = elim (Dict.lookup tid store) [ none ↦ new_tenant tid | some t ↦ t ]

-- A method that may throw; what it wrote before it threw stays.
abbrev pub Method : Type 0 → Type 0
Method A = Store → Result A × Store

infixl 5 ◌>>=◌ ◌>>◌
unfoldable pub ◌>>=◌ : {A B : Type 0} → Method A → (A → Method B) → Method B
◌>>=◌ m f s = let (r, s') = m s in elim r [ ok a ↦ f a s' | err e ↦ (err e, s') ]

abbrev pub ◌>>◌ : {A B : Type 0} → Method A → Method B → Method B
m >> k = m >>= λ _. k

unfoldable pub pure : {A : Type 0} → A → Method A
pure a s = (ok a, s)

unfoldable pub throw : {A : Type 0} → String → Method A
throw message s = (err message, s)

-- `getTenant`, which puts a new tenant into the store when there is none.
unfoldable pub get_tenant : String → Method Tenant
get_tenant tid store = elim (Dict.lookup tid store) [
  | none ↦ (ok (new_tenant tid), Dict.insert tid (new_tenant tid) store)
  | some t ↦ (ok t, store)
]

-- An assignment to a part of the tenant that `getTenant` returned.
unfoldable pub update_tenant : String → (Tenant → Tenant) → Method (Unit {0})
unfolding tenant_of
update_tenant tid f store = (ok tt, Dict.insert tid (f (tenant_of tid store)) store)

pub record TenantSummary : Type 0 where
  pub tenant_id : String
  pub subscriber_count : ℕ
  pub active_radius_sessions : ℕ
  pub dhcp_leases : ℕ
  pub policies : ℕ

unfoldable pub list_tenants : Store → List TenantSummary
list_tenants store =
    map
      (λ t. record {
        tenant_id = t.tenant_id;
        subscriber_count = length t.subscribers;
        active_radius_sessions = length t.radius_sessions;
        dhcp_leases = length t.dhcp_leases_by_mac;
        policies = length t.policies;
      })
      (Dict.values store)

-- `required(value, field)`
unfoldable pub required : Option String → (field : String) → Method String
required none field = throw (field <> " is required")
required (some s) field = if s == "" then throw (field <> " is required") else pure s
