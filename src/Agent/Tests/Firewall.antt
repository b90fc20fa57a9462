-- ===== src/Agent/Tests/Firewall.antt =====
-- Runs of the iptables controller, and its theorems at concrete data.
use mathlib.Core.List.{Perm, flat_map}
use guardtime.Base.{
  String, ◌<>◌, ◌≡◌, ◌≢◌, ◌↔◌, refl, ap, true, false, some, [], ◌∷◌, string_eq, option_eq, ◌∈◌, inl,
  inr,
}
use guardtime.Agent.Host.{World, Result, ok, run_command, exec_file, for_each}
use guardtime.Agent.Guard.Defs.{filter_targets}
use guardtime.Agent.Guard.Laws.{IsManagement, filter_targets_exact}
use guardtime.Agent.Firewall.Signature.{Policy, build_signature, signature_eq}
use guardtime.Agent.Firewall.Iptables.{
  Iptables, sync_family, rebuild, snapshot_ruleset, restore_ruleset, pass_signature, remembered,
  append, ip_rule,
}
use guardtime.Agent.Firewall.Iptables.Rules.{chain_spec, chain_of}
use guardtime.Agent.Firewall.Iptables.Chain.{sync_family-chain}
use guardtime.Agent.Firewall.Iptables.Skips.{sync_family_skip}
use guardtime.Agent.Firewall.Iptables.Blocked.{by_ipv4, sync_family-drops}
use guardtime.Agent.Firewall.Iptables.Enforcement.{
  management_never_dropped, management_ipv6_dropped,
}
use guardtime.Agent.Tests.Machines.{
  willing, fresh_world, settings, phone, gateway, guard, policy, empty_cache, stubborn, ruled_world,
}

first_pass : Result (Unit {0}) × Iptables × World willing
unfolding sync_family rebuild snapshot_ruleset restore_ruleset run_command exec_file for_each
    signature_eq string_eq option_eq
first_pass = sync_family settings false policy empty_cache fresh_world

first_pass_ok : first_pass.0 ≡ ok tt
unfolding first_pass
first_pass_ok = refl

-- A pass on a machine that obeys installs the rules of the blocked phone.
first_pass_rules : chain_of "iptables" first_pass.2.applied ≡ chain_spec false policy
unfolding first_pass string_eq flat_map
first_pass_rules = refl

first_pass_ended :
    sync_family settings false policy empty_cache fresh_world ≡ (ok tt, first_pass.1, first_pass.2)
unfolding first_pass
first_pass_ended = ap (λ r. (r, first_pass.1, first_pass.2)) first_pass_ok

not_remembered : remembered empty_cache false ≢ some (pass_signature false policy)
not_remembered h = cc h

sync_family-chain_example :
    (chain_of "iptables" first_pass.2.applied ≡ chain_spec false policy)
    × (remembered first_pass.1 false ≡ some (pass_signature false policy))
unfolding string_eq
sync_family-chain_example =
    sync_family-chain settings false refl policy empty_cache fresh_world first_pass.1 first_pass.2
      not_remembered first_pass_ended

-- The same targets in the other order have the same signature.
abbrev shuffled : Policy
shuffled = record policy { targets = gateway ∷ phone ∷ [] }

shuffled_known : remembered first_pass.1 false ≡ some (pass_signature false shuffled)
unfolding first_pass build_signature
shuffled_known = refl

sync_family_skip_example :
    Perm (chain_of "iptables" first_pass.2.applied) (chain_spec false shuffled)
unfolding string_eq
sync_family_skip_example =
    sync_family_skip settings false refl policy shuffled empty_cache fresh_world first_pass.1
      first_pass.2 not_remembered first_pass_ended shuffled_known

failed_pass : Result (Unit {0}) × Iptables × World stubborn
unfolding first_pass
failed_pass = sync_family settings false policy empty_cache ruled_world

abbrev reason : String
reason = "iptables -I FORWARD 1 -j GUARDTIME_BLOCK failed: no such table"

-- The rules are back.
put_back : failed_pass.2.state.rules ≡ "*filter"
unfolding failed_pass string_eq guardtime.Base.Dict.lookup guardtime.Base.Dict.insert
    guardtime.Base.show
put_back = refl

phone_ne : ◌≢◌ {A = String} "10.0.0.7" ""
phone_ne h = cc h

sync_family-drops_example :
    ("-A"
      ∷ "GUARDTIME_BLOCK"
      ∷ "-s"
      ∷ "10.0.0.7"
      ∷ "-m"
      ∷ "comment"
      ∷ "--comment"
      ∷ ("guardtime:" <> "phone" <> ":ip")
      ∷ "-j"
      ∷ "DROP"
      ∷ [])
    ∈ chain_of "iptables" first_pass.2.applied
unfolding string_eq
sync_family-drops_example =
    sync_family-drops settings false policy empty_cache fresh_world first_pass.1 first_pass.2 phone
      _ refl not_remembered first_pass_ended (inl refl) refl (by_ipv4 "10.0.0.7" refl phone_ne)

all_pass : policy.targets ≡ filter_targets guard (phone ∷ gateway ∷ [])
unfolding filter_targets string_eq
all_pass = refl

lan_ne : ◌≢◌ {A = String} "10.0.0.2" ""
lan_ne h = cc h

ula_ne : ◌≢◌ {A = String} "fd00::1" ""
ula_ne h = cc h

management_never_dropped_example :
    ¬ (append ("-s" ∷ "10.0.0.2" ∷ "-j" ∷ "DROP" ∷ []) ∈ chain_spec false policy)
management_never_dropped_example =
    management_never_dropped guard policy (phone ∷ gateway ∷ []) "10.0.0.2" ("-j" ∷ "DROP" ∷ [])
      all_pass lan_ne (inl (inl refl))

management_ipv6_dropped_example : ip_rule "gateway" "fd00::1" ∈ chain_spec true policy
management_ipv6_dropped_example =
    management_ipv6_dropped guard policy (phone ∷ gateway ∷ []) gateway "fd00::1" all_pass
      (inr (inl refl)) refl refl refl ula_ne (inl (inr (inl refl)))

filter_targets_exact_example : (gateway ∈ filter_targets guard policy.targets) ↔ (
    (gateway ∈ policy.targets)
    × ((ip : String) → ip ≢ "" → gateway.ip_address ≡ some ip → ¬ IsManagement guard ip))
filter_targets_exact_example = filter_targets_exact guard gateway policy.targets
