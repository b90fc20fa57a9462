-- ===== src/Agent/Qos/Throttling/Cycles.antt =====
-- The throttle filters that an interface holds after a cycle of the QoS controller.
use guardtime.Base.{◌<◌, String, ◌≡◌, false, List, [], filter, ◌⊎◌}
use guardtime.Agent.Host.{Host, World, ok}
use guardtime.Agent.Config.{Config}
use guardtime.Agent.Target.{Target}
use guardtime.Agent.Qos.{all_interfaces, sync_throttling, Shaping}
use guardtime.Agent.Qos.Throttling.{held_filters, is_for, throttle_spec}
use guardtime.Agent.Qos.Throttling.Clearing.{Refused}
use guardtime.Agent.Qos.Throttling.Limits.{drops}

-- What an interface holds of a protocol after a cycle.
pub data Held {H : Host} (c : Config) (i p : String) (targets : List Target) (s s' : Shaping H)
    : Type 0 where
  off : (c.enable_qos ≡ false) ⊎ (c.qos_interfaces ≡ []) → s' ≡ s → Held c i p targets s s'
  exact :
      held_filters c.tc_bin i p s'.world.applied ≡ filter (is_for i p) (throttle_spec c targets)
      → Held c i p targets s s'
  unshaped :
      (w : World H)
      → sync_throttling c targets s.world ≡ (ok tt, w)
      → drops c.tc_bin i w.applied < drops c.tc_bin i s'.world.applied
      → held_filters c.tc_bin i p s'.world.applied ≡ []
      → Held c i p targets s s'
  uncleared : Refused c i p (all_interfaces c) s.world → Held c i p targets s s'
