-- ===== src/Isp/Policy.antt =====
-- isp-adapter/src/bng-controller.js and policy-engine.js.
use guardtime.Base.{
  String, ◌<>◌, Option, none, some, List, [], ◌∷◌, ◌==◌, filter, contains, string_eq, to_lower,
  or_null, if◌then◌else◌,
}
use guardtime.Base.Dict
use guardtime.Isp.Store.{
  Resolved, BngState, PolicyRecord, Tenant, Method, ◌>>=◌, ◌>>◌, pure, throw, get_tenant,
  update_tenant,
}
use guardtime.Isp.Services.{Input, or_string, resolve}

pub record Payload : Type 0 where
  pub input : Input
  pub open input use *
  -- The empty string where the body has no `action`; neither is a word that is accepted.
  pub action : String
  pub reason : Option String

abbrev pub actions : List String
actions = "BLOCK" ∷ "ALLOW" ∷ "THROTTLE" ∷ []

-- `normalizeAction`
unfoldable pub normalize_action : String → Method String
normalize_action action =
    if contains actions action
    then pure action
    else throw "action must be BLOCK, ALLOW, or THROTTLE"

unfoldable pub build_vendor_commands : (ip subscriber_id action : String) → List String
build_vendor_commands ip id action =
    if action == "BLOCK"
    then ("ip route add blackhole " <> ip <> "/32")
      ∷ ("radius CoA: subscriber=" <> id <> " Filter-Id=guardtime-block")
      ∷ ("dns-policy set subscriber=" <> id <> " action=BLOCK")
      ∷ []
    else if action == "THROTTLE"
    then ("radius CoA: subscriber=" <> id <> " QoS-Profile=guardtime-1kbit")
      ∷ ("bng qos set subscriber=" <> id <> " rate=1kbit")
      ∷ ("dns-policy set subscriber=" <> id <> " action=THROTTLE")
      ∷ []
    else ("ip route del blackhole " <> ip <> "/32 || true")
      ∷ ("radius CoA: subscriber=" <> id <> " Filter-Id=default")
      ∷ ("bng qos clear subscriber=" <> id)
      ∷ ("dns-policy set subscriber=" <> id <> " action=ALLOW")
      ∷ []

unfoldable pub qos_profile_for : String → String
qos_profile_for action =
    if action == "THROTTLE"
    then "guardtime-1kbit"
    else if action == "BLOCK"
    then "guardtime-blackhole"
    else "default"

-- The gateway that enforces, and the key of its state.
abbrev pub bng_of : (default_bng_id : String) → Resolved → String
bng_of default_bng_id r = or_string r.bng_id default_bng_id

abbrev pub bng_key : (default_bng_id : String) → Resolved → String
bng_key default_bng_id r = bng_of default_bng_id r <> ":" <> r.subscriber_id

abbrev pub bng_state_of :
    (now default_bng_id ip action : String) → (reason : Option String) → Resolved → BngState
bng_state_of now default_bng_id ip action reason r = record {
  tenant_id = r.tenant_id;
  subscriber_id = r.subscriber_id;
  bng_id = bng_of default_bng_id r;
  action = action;
  enforcement_ip = some ip;
  public_ip = r.public_ip;
  cgnat = r.cgnat;
  qos_profile = qos_profile_for action;
  blackhole = action == "BLOCK";
  dns_policy = action;
  reason = or_null reason;
  applied_at = now;
  vendor_commands = build_vendor_commands ip r.subscriber_id action;
}

abbrev pub put_bng_state : String → BngState → Tenant → Tenant
put_bng_state key state t = record t { bng_state = Dict.insert key state t.bng_state }

-- `BngController.applyPolicy`
unfoldable pub apply_policy :
    (now default_bng_id : String)
    → Resolved
    → (action : String) → (reason : Option String) → Method BngState
apply_policy now default_bng_id r requested reason = do
  ip ← (elim (or_null r.enforcement_ip) [
    | none ↦ throw ("No enforceable IP for subscriber " <> r.subscriber_id)
    | some ip ↦ pure ip
  ])
  get_tenant r.tenant_id
  action ← normalize_action requested
  let state = bng_state_of now default_bng_id ip action reason r
  update_tenant r.tenant_id (put_bng_state (bng_key default_bng_id r) state)
  pure state

-- `BngController.getState`
unfoldable pub get_state : (tenant_id subscriber_id : String) → Method (List BngState)
unfolding filter
get_state tid id = do
  t ← get_tenant tid
  pure (filter (λ (s : BngState). s.subscriber_id == id) (Dict.values t.bng_state))

abbrev pub put_policy : PolicyRecord → Tenant → Tenant
put_policy policy t = record t { policies = Dict.insert policy.subscriber_id policy t.policies }

abbrev pub policy_of : (tenant_id : String) → Payload → Resolved → BngState → PolicyRecord
policy_of tid payload r state = record {
  tenant_id = tid;
  subscriber_id = r.subscriber_id;
  action = payload.action;
  reason = or_null payload.reason;
  device_scope = elim (or_null payload.mac_address) [
    | none ↦ none
    | some mac ↦ some (to_lower mac)
  ];
  applied_at = state.applied_at;
  resolved = r;
  bng_state = state;
}

-- `PolicyEngine.apply`
unfoldable pub apply : (now default_bng_id tenant_id : String) → Payload → Method PolicyRecord
apply now default_bng_id tid payload = do
  r ← resolve now tid payload.input
  state ← apply_policy now default_bng_id r payload.action payload.reason
  get_tenant tid
  update_tenant tid (put_policy (policy_of tid payload r state))
  pure (policy_of tid payload r state)

-- `PolicyEngine.getPolicy`
unfoldable pub get_policy : (tenant_id subscriber_id : String) → Method (Option PolicyRecord)
get_policy tid id = do t ← get_tenant tid; pure (Dict.lookup id t.policies)
