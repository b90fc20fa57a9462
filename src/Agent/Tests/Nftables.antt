-- ===== src/Agent/Tests/Nftables.antt =====
-- Runs of the nftables controller, and its theorems at concrete data.
use guardtime.Base.{
  ◌≡◌, ◌≢◌, refl, ap, true, false, Bool, ◌&&◌, ◌==◌, String, List, [], ◌∷◌, Option, none, some,
  string_eq, option_eq, ◌⊎◌, if◌then◌else◌,
}
use guardtime.Agent.Config.{Config}
use guardtime.Agent.Host.{Host, exited, failed, World, Result, ok, run_command, exec_file, for_each}
use guardtime.Agent.Firewall.Signature.{Policy, Signature, build_signature, signature_eq}
use guardtime.Agent.Firewall.Nftables.{sync, rebuild, snapshot_ruleset}
use guardtime.Agent.Firewall.Nftables.Rules.{chain_spec, chain_of}
use guardtime.Agent.Firewall.Nftables.Redirect.{
  sync-chain, sync_retries_redirect, RedirectMade, RedirectFailed,
}
use guardtime.Agent.Tests.Machines.{willing, fresh_world, settings, policy}

nft_pass : Result (Unit {0}) × Option Signature × World willing
unfolding sync rebuild snapshot_ruleset run_command exec_file for_each signature_eq string_eq
    option_eq
nft_pass = sync settings policy none fresh_world

nft_pass_ok : nft_pass.0 ≡ ok tt
unfolding nft_pass
nft_pass_ok = refl

nft_pass_ended : sync settings policy none fresh_world ≡ (ok tt, nft_pass.1, nft_pass.2)
unfolding nft_pass
nft_pass_ended = ap (λ r. (r, nft_pass.1, nft_pass.2)) nft_pass_ok

nothing_known : ◌≢◌ {A = Option Signature} none (some (build_signature policy false))
nothing_known h = cc h

sync-chain_example : chain_of "nft" nft_pass.2.applied ≡ chain_spec settings policy
sync-chain_example =
    sync-chain settings policy none refl fresh_world nft_pass.1 nft_pass.2 nothing_known
      nft_pass_ended

-- A machine on which the chain of the IPv6 redirect cannot be flushed, and a policy that wants it.
abbrev is_v6_flush : List String → Bool
is_v6_flush (verb ∷ _ ∷ family ∷ _) = verb == "flush" && family == "ip6"
is_v6_flush _ = false

abbrev no_v6 : Host
no_v6 = record willing {
  exec =
      λ _ args s. (if is_v6_flush args then failed none none "no such chain" else exited "" "", s);
}

abbrev dual : Config
dual = record settings { enable_ipv6 = true }

abbrev redirecting : Policy
redirecting = record policy { enable_dns_redirect = true; dns_redirect_ipv6 = "fd00::53" }

abbrev no_v6_world : World no_v6
no_v6_world = record { state = tt; applied = [] }

half_pass : Result (Unit {0}) × Option Signature × World no_v6
unfolding sync rebuild snapshot_ruleset run_command exec_file for_each signature_eq string_eq
    option_eq
half_pass = sync dual redirecting none no_v6_world

-- The pass succeeds and remembers nothing.
half_pass_ended : sync dual redirecting none no_v6_world ≡ (ok tt, none, half_pass.2)
unfolding half_pass
half_pass_ended =
    ap (λ (r : Result (Unit {0}) × Option Signature). (r.0, r.1, half_pass.2)) half_done
  where
    half_done :
        ◌≡◌ {A = Result (Unit {0}) × Option Signature} (half_pass.0, half_pass.1) (ok tt, none)
    half_done = refl

redirect_unknown : ◌≢◌ {A = Option Signature} none (some (build_signature redirecting true))
redirect_unknown h = cc h

sync_retries_redirect_example :
    (a : Unit {0}) × (w2 : World no_v6) × (rebuild dual redirecting
        (snapshot_ruleset dual no_v6_world).1
      ≡ (ok a, w2))
    × (((none ≡ some (build_signature redirecting true)) × RedirectMade dual redirecting none w2)
        ⊎ ((◌≡◌ {A = Option Signature} none none) × RedirectFailed dual redirecting none w2))
sync_retries_redirect_example =
    sync_retries_redirect dual redirecting none no_v6_world none half_pass.2 redirect_unknown
      half_pass_ended
