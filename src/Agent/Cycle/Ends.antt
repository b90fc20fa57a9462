-- ===== src/Agent/Cycle/Ends.antt =====
-- How a cycle ends.
use guardtime.Base.{ℕ, String, ◌≡◌, Bool, nat_eq, List}
use guardtime.Agent.Host.{Host, Result, ok, err}
use guardtime.Agent.Config.{Config}
use guardtime.Agent.Target.{Target}
use guardtime.Agent.Doh.{Observations}
use guardtime.Agent.Firewall.Signature.{Signature}
use guardtime.Agent.Firewall.Iptables.{Iptables}
use guardtime.Agent.Qos
use guardtime.Agent.Qos.Resolve.{Cache}
use guardtime.Agent.Cycle.{Outside, Agent, Firewall, Policies}
use guardtime.Agent.Cycle.Steps.{
  rotate, targets_of, kill, sync_firewall, count_quic, shape, finish_cycle, look_around, with_state,
}

-- What the resolver, the DoH detector and the router's executor remember.
abbrev pub later_parts : {H : Host} → Agent H → Cache × Observations × List (String × Bool) × ℕ
later_parts a = (a.cache, a.observations, a.acks, a.last_detection_at)

module _ {H : Host} (c : Config) (O : Outside H) (env_path : String) where
  -- The agent and the targets when enforcing starts, for the policies that were answered.
  abbrev pub rotated : Agent H → Policies → H.State → Agent H
  rotated a policies s =
      rotate c O env_path policies.rotated_token
        (with_state c O env_path (look_around c O env_path a).1 s)

  abbrev pub found : Agent H → Policies → List Target
  found a policies =
      let (enriched, a1) = look_around c O env_path a in
      targets_of c O env_path a1.guard enriched policies.devices

  abbrev pub ask : Agent H → Result Policies × H.State
  ask a = let a1 = (look_around c O env_path a).1 in O.get_policies a1.backend_token a1.world.state

  abbrev pub fire : Agent H → Policies → H.State → Result (Unit {0}) × Agent H
  fire a policies s =
      sync_firewall c O env_path (found a policies)
        (kill c O env_path (found a policies) (rotated a policies s))

  -- Where a cycle ends, with its result and the agent that it leaves.
  pub data Cycle (a : Agent H) : Result (Unit {0}) × Agent H → Type 0 where
    unanswered :
        (e : String) (s : H.State)
        → ask a ≡ (err e, s)
        → later_parts (with_state c O env_path (look_around c O env_path a).1 s) ≡ later_parts a
        → Cycle a (err e, with_state c O env_path (look_around c O env_path a).1 s)
    unfired :
        (policies : Policies) (s : H.State) (e : String) (a' : Agent H)
        → ask a ≡ (ok policies, s)
        → fire a policies s ≡ (err e, a')
        → later_parts a' ≡ later_parts a
        → Cycle a (err e, a')
    unshaped :
        (policies : Policies) (s : H.State) (e : String) (a1 a' : Agent H)
        → ask a ≡ (ok policies, s)
        → fire a policies s ≡ (ok tt, a1)
        → shape c O env_path (found a policies) (count_quic c O env_path (found a policies) a1)
          ≡ (err e, a')
        → later_parts a' ≡ later_parts a
        → Cycle a (err e, a')
    finished :
        (policies : Policies) (s : H.State) (a1 a2 : Agent H)
        → ask a ≡ (ok policies, s)
        → fire a policies s ≡ (ok tt, a1)
        → shape c O env_path (found a policies) (count_quic c O env_path (found a policies) a1)
          ≡ (ok tt, a2)
        → Cycle a (ok tt, finish_cycle c O env_path (found a policies) a2)
