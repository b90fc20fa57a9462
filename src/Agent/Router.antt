-- ===== src/Agent/Router.antt =====
-- gateway-agent/src/router-command-executor.js: `RouterCommandExecutor`. The plugin of the router,
-- the health check, the detection of the router and the backend are the interface `Services`. A
-- command's payload is the object that `JSON.parse` makes of its text, or none where there is no
-- text or it cannot be parsed.
pub mod Sessions
pub mod Strategies
pub mod Acks
use guardtime.Base.{
  ℕ, ◌-◌, String, ◌<>◌, ◌==◌, string_eq, Bool, true, false, not, ◌&&◌, Option, none, some, List, [],
  ◌∷◌, ◌++◌, truthy, ◌or_else◌, if◌then◌else◌, ltb,
}
use guardtime.Base.Result.{Result, ok, err}

-- The argument of a plugin's method.
pub record RouterTarget : Type 0 where
  pub device_id : Option String
  pub mac_address : Option String
  pub ip_address : Option String
  pub dns_server : Option String

pub record Payload : Type 0 where
  pub device_id : Option String
  pub mac_address : Option String
  pub ip_address : Option String
  pub dns_server : Option String
  pub strategies : List String

abbrev pub empty_payload : Payload
empty_payload = record {
  device_id = none;
  mac_address = none;
  ip_address = none;
  dns_server = none;
  strategies = [];
}

pub record Command : Type 0 where
  pub id : String
  pub type : String
  pub device_id : Option String
  pub payload : Option Payload

-- What a plugin's method returns.
pub record Answer : Type 0 where
  pub success : Bool
  pub message : Option String

pub record Attempt : Type 0 where
  pub strategy : String
  pub answer : Answer
  pub rolled_back : Option Bool

pub record CommandResult : Type 0 where
  pub success : Bool
  pub message : Option String
  pub strategy_used : Option String
  pub attempts : List Attempt

abbrev pub plain : Answer → CommandResult
plain a = record { success = a.success; message = a.message; strategy_used = none; attempts = [] }

-- The outside of the executor. A plugin's method is `none` where the plugin has no function of the
-- name; every call may throw.
pub record Services : Type 1 where
  pub State : Type 0
  pub Plugin : Type 0
  pub load_plugin : (plugin_id : String) → State → Result Plugin × State
  pub method : Plugin → (name : String) → Option (RouterTarget → State → Result Answer × State)
  -- Whether the health check answered.
  pub check_connectivity : State → Bool × State
  -- `discoverRouter`, then the report, whose failure is only logged.
  pub detect_and_report : State → Result (Unit {0}) × State
  pub ack_router_command :
      (id : String) → (success : Bool) → CommandResult → State → Result (Unit {0}) × State
  pub get_router_commands : State → Result (List Command × Option String) × State
  -- `Date.now()`
  pub now : State → ℕ

-- STRATEGY_METHOD, STRATEGY_INVERSE_METHOD (which UNBLOCK_STRATEGY_METHOD equals) and
-- COMMAND_METHOD.
abbrev find_entry : String → List (String × String) → Option String
find_entry key [] = none
find_entry key ((k, v) ∷ rest) = if key == k then some v else find_entry key rest

unfoldable pub strategy_method : String → Option String
strategy_method s = find_entry s (
    ("DISCONNECT_CLIENT", "disconnectClient")
    ∷ ("PAUSE_DEVICE", "pauseDevice")
    ∷ ("APPLY_FIREWALL_RULE", "applyFirewallRule")
    ∷ ("BLOCK_MAC", "blockMAC")
    ∷ ("CHANGE_DNS", "changeDNS")
    ∷ [])

unfoldable pub inverse_method : String → Option String
inverse_method s = find_entry s (
    ("PAUSE_DEVICE", "resumeDevice")
    ∷ ("APPLY_FIREWALL_RULE", "removeFirewallRule")
    ∷ ("BLOCK_MAC", "unblockMAC")
    ∷ [])

unfoldable pub command_method : String → Option String
command_method s = find_entry s (
    ("TEST_CONNECTION", "testConnection")
    ∷ ("CHANGE_DNS", "changeDNS")
    ∷ ("PAUSE_DEVICE", "pauseDevice")
    ∷ ("RESUME_DEVICE", "resumeDevice")
    ∷ ("DISCONNECT_CLIENT", "disconnectClient")
    ∷ ("APPLY_FIREWALL_RULE", "applyFirewallRule")
    ∷ ("REMOVE_FIREWALL_RULE", "removeFirewallRule")
    ∷ ("BLOCK_MAC", "blockMAC")
    ∷ ("UNBLOCK_MAC", "unblockMAC")
    ∷ [])

unfoldable pub build_target : (device_id : Option String) → Payload → RouterTarget
build_target id p = record {
  device_id = id;
  mac_address = p.mac_address;
  ip_address = p.ip_address;
  dns_server = p.dns_server;
}

abbrev pub failure : CommandResult
failure = record { success = false; message = none; strategy_used = none; attempts = [] }

abbrev pub used : String → Attempt → CommandResult
used s a = record { success = true; message = none; strategy_used = some s; attempts = a ∷ [] }

-- `attempts.push(…)` before the rest of the loop.
abbrev pub push : {S : Type 0} → Attempt → Result CommandResult × S → Result CommandResult × S
push a (ok r, s) = (ok (record r { attempts = a ∷ r.attempts }), s)
push a (err e, s) = (err e, s)

module _ (V : Services) (plugin : V.Plugin) (target : RouterTarget) where
  unfoldable pub execute_single_action : (name : String) → V.State → Result Answer × V.State
  execute_single_action name s = elim (V.method plugin name) [
    | none ↦
        (ok (record { success = false; message = some ("plugin has no " <> name <> " method") }), s)
    | some f ↦ f target s
  ]

  -- `runMultiStrategyAction`, for one map of methods.
  unfoldable pub run_multi_strategy_action :
      (method_of : String → Option String) → List String → V.State → Result CommandResult × V.State
  unfolding execute_single_action
  run_multi_strategy_action method_of [] s = (ok failure, s)
  run_multi_strategy_action method_of (strategy ∷ rest) s = elim (method_of strategy) [
    | none ↦ run_multi_strategy_action method_of rest s
    | some name ↦
        let (r, s1) = execute_single_action name s in
        elim r [
          | err e ↦ (err e, s1)
          | ok a ↦
              let attempt : Attempt = record {
                strategy = strategy;
                answer = a;
                rolled_back = none;
              } in
              let next = push attempt (run_multi_strategy_action method_of rest s1) in
              if a.success then (ok (used strategy attempt), s1) else next
        ]
  ]

  -- The inverse of a strategy, whose errors count as failures; whether it succeeded.
  unfoldable pub roll_back : (strategy : String) → V.State → Bool × V.State
  unfolding execute_single_action inverse_method
  roll_back strategy s = elim (inverse_method strategy) [
    | none ↦ (false, s)
    | some name ↦
        let (r, s1) = execute_single_action name s in
        (elim r [ ok a ↦ a.success | err _ ↦ false ], s1)
  ]

  unfoldable pub run_end_gaming_session : List String → V.State → Result CommandResult × V.State
  unfolding execute_single_action strategy_method roll_back
  run_end_gaming_session [] s = (ok failure, s)
  run_end_gaming_session (strategy ∷ rest) s = elim (strategy_method strategy) [
    | none ↦ run_end_gaming_session rest s
    | some name ↦
        let (r, s1) = execute_single_action name s in
        elim r [
          | err e ↦ (err e, s1)
          | ok a ↦
              let attempt : Attempt = record {
                strategy = strategy;
                answer = a;
                rolled_back = none;
              } in
              let failed = push attempt (run_end_gaming_session rest s1) in
              let (online, s2) = V.check_connectivity s1 in
              let (undone, s3) = roll_back strategy s2 in
              let offline =
                push (record attempt { rolled_back = some undone })
                  (run_end_gaming_session rest s3) in
              if a.success
              then (if online then (ok (used strategy attempt), s2) else offline)
              else failed
        ]
  ]

abbrev pub says : String → CommandResult
says message = record {
  success = false;
  message = some message;
  strategy_used = none;
  attempts = [];
}

abbrev strategies_of : Option Payload → List String
strategies_of none = []
strategies_of (some p) = p.strategies

abbrev payload_of : Option Payload → Payload
payload_of none = empty_payload
payload_of (some p) = p

abbrev as_result : {S : Type 0} → Result Answer × S → Result CommandResult × S
as_result (ok a, s) = (ok (plain a), s)
as_result (err e, s) = (err e, s)

abbrev detected : {S : Type 0} → Result (Unit {0}) × S → Result CommandResult × S
detected (ok _, s) =
    (ok (record { success = true; message = none; strategy_used = none; attempts = [] }), s)
detected (err e, s) = (err e, s)

module _ (V : Services) where
  -- The part of `executeCommand` that has a plugin.
  unfoldable pub execute_with_plugin : Command → V.Plugin → V.State → Result CommandResult × V.State
  unfolding run_end_gaming_session run_multi_strategy_action command_method strategy_method
      inverse_method build_target execute_single_action
  execute_with_plugin c plugin s =
      let target = build_target c.device_id (payload_of c.payload) in
      let strategies = strategies_of c.payload in
      if c.type == "END_GAMING_SESSION"
      then run_end_gaming_session V plugin target strategies s
      else if c.type == "BLOCK_DEVICE"
      then run_multi_strategy_action V plugin target strategy_method strategies s
      else if c.type == "UNBLOCK_DEVICE"
      then run_multi_strategy_action V plugin target inverse_method strategies s
      else elim (command_method c.type) [
        | none ↦ (ok (says ("unsupported command type: " <> c.type)), s)
        | some name ↦ as_result (execute_single_action V plugin target name s)
      ]

  -- `executeCommand`; the connection is given by its plugin's id.
  unfoldable pub execute_command :
      Command → (plugin_id : Option String) → V.State → Result CommandResult × V.State
  unfolding execute_with_plugin
  execute_command c plugin_id s =
      let id : String = elim plugin_id [ none ↦ "" | some id ↦ id ] in
      let (loaded, s1) = V.load_plugin id s in
      if c.type == "DETECT"
      then detected (V.detect_and_report s)
      else if id == ""
      then (ok (says "no router detected / no plugin configured for this gateway"), s)
      else elim loaded [ err e ↦ (err e, s1) | ok plugin ↦ execute_with_plugin c plugin s1 ]

  -- The state, with the acknowledgements that were tried so far, in order.
  pub record World : Type 0 where
    pub state : V.State
    pub acks : List (String × Bool)

  unfoldable pub ack :
      (id : String) → (success : Bool) → CommandResult → World → Result (Unit {0}) × World
  ack id success result w =
      let (r, s) = V.ack_router_command id success result w.state in
      (r, record { state = s; acks = w.acks ++ (id, success) ∷ [] })

  -- The body of the loop of `sync`.
  unfoldable pub run_one : (plugin_id : Option String) → Command → World → World
  unfolding execute_command ack
  run_one plugin_id c w =
      let (r, s1) = execute_command c plugin_id w.state in
      let w1 : World = record w { state = s1 } in
      elim r [
        | err e ↦ (ack c.id false (says e) w1).1
        | ok result ↦
            let (sent, w2) = ack c.id result.success result w1 in
            elim sent [ ok _ ↦ w2 | err e ↦ (ack c.id false (says e) w2).1 ]
      ]

  unfoldable pub run_all : (plugin_id : Option String) → List Command → World → World
  unfolding run_one
  run_all plugin_id [] w = w
  run_all plugin_id (c ∷ cs) w = run_all plugin_id cs (run_one plugin_id c w)

  unfoldable pub sync : World → Result (Unit {0}) × World
  unfolding run_all
  sync w =
      let (r, s1) = V.get_router_commands w.state in
      let w1 : World = record w { state = s1 } in
      elim r [
        | err e ↦ (err e, w1)
        | ok (commands, plugin_id) ↦ (ok tt, run_all plugin_id commands w1)
      ]

  -- `maybeRunDetection`, with the time of the last detection.
  unfoldable pub maybe_run_detection :
      (enabled : Bool)
      → (interval_ms : ℕ) → (last_detection_at : ℕ) → V.State
      → Result (Unit {0}) × ℕ × V.State
  maybe_run_detection enabled interval_ms last s =
      let now = V.now s in
      let (r, s1) = V.detect_and_report s in
      if not enabled
      then (ok tt, last, s)
      else if ltb (now - last) interval_ms
      then (ok tt, last, s)
      else (r, now, s1)
