-- ===== src/Agent/Firewall/Iptables/Blocked.antt =====
-- The rules by which a blocked device is dropped, after a pass of `syncFamily`.
use guardtime.Base.{String, ◌<>◌, ◌≡◌, ◌≢◌, sym, subst, ◌∈◌, Bool, true, false, some, List, [], ◌∷◌}
use guardtime.Agent.Host.{Host, World, ok}
use guardtime.Agent.Config.{Config}
use guardtime.Agent.Target.{Target, block}
use guardtime.Agent.Firewall.Signature.{Policy}
use guardtime.Agent.Firewall.Iptables.{binary_of, Iptables, remembered, pass_signature, sync_family}
use guardtime.Agent.Firewall.Iptables.Rules.{chain_spec, chain_of}
use guardtime.Agent.Firewall.Iptables.Chain.{sync_family-chain}
use guardtime.Agent.Firewall.Iptables.Enforcement.{blocked_by_address, blocked_by_mac}

-- The rules that should drop a device: by its address of the pass's family, and by its MAC address
-- in the passes of both.
pub data Drops (t : Target) : (ipv6 : Bool) → List String → Type 0 where
  by_ipv4 :
      (a : String)
      → t.ip_address ≡ some a
      → a ≢ ""
      → Drops t false (
          "-A"
          ∷ "GUARDTIME_BLOCK"
          ∷ "-s"
          ∷ a
          ∷ "-m"
          ∷ "comment"
          ∷ "--comment"
          ∷ ("guardtime:" <> t.device_id <> ":ip")
          ∷ "-j"
          ∷ "DROP"
          ∷ [])
  by_ipv6 :
      (a : String)
      → t.ipv6_address ≡ some a
      → a ≢ ""
      → Drops t true (
          "-A"
          ∷ "GUARDTIME_BLOCK"
          ∷ "-s"
          ∷ a
          ∷ "-m"
          ∷ "comment"
          ∷ "--comment"
          ∷ ("guardtime:" <> t.device_id <> ":ip")
          ∷ "-j"
          ∷ "DROP"
          ∷ [])
  by_mac :
      {ipv6 : Bool} (mac : String)
      → t.mac_address ≡ some mac
      → mac ≢ ""
      → Drops t ipv6 (
          "-A"
          ∷ "GUARDTIME_BLOCK"
          ∷ "-m"
          ∷ "mac"
          ∷ "--mac-source"
          ∷ mac
          ∷ "-m"
          ∷ "comment"
          ∷ "--comment"
          ∷ ("guardtime:" <> t.device_id <> ":mac")
          ∷ "-j"
          ∷ "DROP"
          ∷ [])

drops-chain_spec :
    (ipv6 : Bool) (p : Policy) (t : Target) (rule : List String)
    → t ∈ p.targets
    → t.action ≡ block
    → Drops t ipv6 rule
    → rule ∈ chain_spec ipv6 p
drops-chain_spec ipv6 p t _ listed b (by_ipv4 a e h) = blocked_by_address false p t listed a b e h
drops-chain_spec ipv6 p t _ listed b (by_ipv6 a e h) = blocked_by_address true p t listed a b e h
drops-chain_spec ipv6 p t _ listed b (by_mac mac e h) = blocked_by_mac ipv6 p t listed mac b e h

-- After a pass that was not skipped and that succeeded, the filter chain holds, for every blocked
-- target of the policy, a rule that drops what comes from its address of the pass's family, and one
-- that drops what comes from its MAC address, each where the target has that address and it is not
-- empty. The commands must be run (no dry run).
pub sync_family-drops :
    {H : Host} (c : Config) (ipv6 : Bool) (p : Policy) (this : Iptables) (w : World H)
    (this' : Iptables) (w' : World H) (t : Target) (rule : List String)
    → c.dry_run ≡ false
    → remembered this ipv6 ≢ some (pass_signature ipv6 p)
    → sync_family c ipv6 p this w ≡ (ok tt, this', w')
    → t ∈ p.targets
    → t.action ≡ block
    → Drops t ipv6 rule
    → rule ∈ chain_of (binary_of c ipv6) w'.applied
sync_family-drops c ipv6 p this w this' w' t rule live fresh h listed b d =
    subst (λ rules. rule ∈ rules) (sym (sync_family-chain c ipv6 live p this w this' w' fresh h).0)
      (drops-chain_spec ipv6 p t rule listed b d)
