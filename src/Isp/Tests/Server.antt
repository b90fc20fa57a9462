-- ===== src/Isp/Tests/Server.antt =====
-- Runs of the HTTP server, and its theorem at a concrete request.
use guardtime.Base.{◌≡◌, refl, String, string_eq, option_eq, true, Option, none, some, [], ◌∷◌}
use guardtime.Base.Dict
use guardtime.Isp.Store.{Store}
use guardtime.Isp.Settings.{Settings}
use guardtime.Isp.Server.{Request, Body, Reply, route, is_admitted, reply, health, lease}
use guardtime.Isp.Server.Access.{IsBlind, route-denied}

abbrev guarded : Settings
guarded = record {
  port = none;
  adapter_token = "secret";
  default_tenant_id = "isp";
  default_bng_id = "bng-01";
  simulation_mode = true;
}

abbrev lease_body : Body
lease_body = record {
  tenant_id = none;
  subscriber_id = some "sub-1";
  mac_address = some "AA:BB:CC:DD:EE:FF";
  ip_address = some "100.64.0.5";
  hostname = none;
  circuit_id = none;
  expires_at = none;
  assigned_ip = none;
  public_ip = none;
  cgnat_port_start = none;
  cgnat_port_end = none;
  bng_id = none;
  access_circuit_id = none;
  started_at = none;
  active = none;
  action = none;
  reason = none;
}

abbrev request : (token : Option String) → Request
request token = record {
  method = "POST";
  pathname = "/isp/dhcp/lease";
  tenant_header = some "isp-a";
  tenant_query = none;
  token = token;
  body = some lease_body;
}

abbrev decode : String → Option String
decode segment = some segment

-- With the token the lease is stored for the tenant of the header.
admitted : Dict.keys (route guarded decode "now" (request (some "secret")) []).1 ≡ "isp-a" ∷ []
unfolding route string_eq is_admitted option_eq guardtime.Isp.Store.◌>>=◌
    guardtime.Isp.Store.get_tenant Dict.lookup guardtime.Isp.Store.required guardtime.Isp.Store.pure
    guardtime.Isp.Store.update_tenant Dict.insert guardtime.Isp.Server.get_tenant_id
admitted = refl

route-denied_example :
    IsBlind (route guarded decode "now" (request (some "guess")) []).0
    × ((route guarded decode "now" (request (some "guess")) []).1 ≡ [])
unfolding is_admitted string_eq option_eq
route-denied_example = route-denied guarded decode "now" (request (some "guess")) [] refl
