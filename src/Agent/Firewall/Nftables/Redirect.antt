-- ===== src/Agent/Firewall/Nftables/Redirect.antt =====
-- A whole pass, with the IPv6 redirect that may fail on its own.
use guardtime.Base.{
  String, ◌≡◌, ◌≢◌, refl, sym, ap, ◌∙◌, inl, inr, ◌⊎◌, Bool, true, false, List, arith, Option, some,
  ◌==◌, string_eq, option_eq, Bool-cases,
}
use guardtime.Base.Result.{Result-cases}
use guardtime.Agent.Host.{Host, World, ok, err, Result, ◌>>◌, done, run_command, exec_file}
use guardtime.Agent.Host.Laws.{Keeps, Keeps->>=, Keeps->>}
use guardtime.Agent.Config.{Config}
use guardtime.Agent.Firewall.Signature.{Policy, Signature, signature_eq, build_signature}
use guardtime.Agent.Firewall.Nftables.{
  nat_table_v6, add_nat_table, add_nat_chain, flush_nat_chain, nat_rule, run, try_run, redirect_dns,
  ensure_dns_redirect_v6, rebuild, snapshot_ruleset, restore_ruleset, v6_resolver_ip,
  wants_v6_redirect, finish, sync,
}
use guardtime.Agent.Firewall.Nftables.Rules.{chain_spec, chain_of}
use guardtime.Agent.Firewall.Nftables.Chain.{view, IsAside, rebuild-chain}

module _ {H : Host} (c : Config) where
  run_command-aside :
      (ignore : Bool) (args : List String)
      → IsAside args
      → Keeps (view c) (run_command {H = H} c.dry_run c.nft_bin ignore args)
  unfolding run_command exec_file
  run_command-aside ignore args aside w = ground (arith, aside (view c w.applied))

  Keeps-run : (args : List String) → IsAside args → Keeps (view c) (run {H = H} c args)
  unfolding run
  Keeps-run args aside =
      Keeps->>= (view c) (run_command c.dry_run c.nft_bin false args) (λ _. done)
        (run_command-aside false args aside) (λ _ w. refl)

  Keeps-try_run : (args : List String) → IsAside args → Keeps (view c) (try_run {H = H} c args)
  unfolding try_run
  Keeps-try_run args aside = run_command-aside true args aside

  Keeps-ensure_dns_redirect_v6 :
      (ip : String) → Keeps (view c) (ensure_dns_redirect_v6 {H = H} c ip)
  unfolding ensure_dns_redirect_v6 redirect_dns string_eq
  Keeps-ensure_dns_redirect_v6 ip =
      let add_udp = nat_rule "ip6" nat_table_v6 "udp" ip in
      let add_tcp = nat_rule "ip6" nat_table_v6 "tcp" ip in
      let flush = flush_nat_chain "ip6" nat_table_v6 in
      let new_chain = add_nat_chain "ip6" nat_table_v6 in
      let new_table = add_nat_table "ip6" nat_table_v6 in
      Keeps->> (view c) (try_run c new_table)
        (try_run c new_chain >> (run c flush >> (run c add_udp >> run c add_tcp)))
        (Keeps-try_run new_table (λ rules. refl))
        (Keeps->> (view c) (try_run c new_chain) (run c flush >> (run c add_udp >> run c add_tcp))
          (Keeps-try_run new_chain (λ rules. refl))
          (Keeps->> (view c) (run c flush) (run c add_udp >> run c add_tcp)
            (Keeps-run flush (λ rules. refl))
            (Keeps->> (view c) (run c add_udp) (run c add_tcp) (Keeps-run add_udp (λ rules. refl))
              (Keeps-run add_tcp (λ rules. refl)))))

module _ {H : Host} (c : Config) (p : Policy) (last : Option Signature) where
  -- How the redirect of IPv6 goes, from the machine that the `try` block left: it is not wanted or
  -- it is made, or it fails.
  abbrev pub RedirectMade : World H → Type 0
  RedirectMade w2 =
      (wants_v6_redirect c p ≡ false)
      ⊎ ((b : Unit {0}) × ((ensure_dns_redirect_v6 c (v6_resolver_ip c p) w2).0 ≡ ok b))

  abbrev pub RedirectFailed : World H → Type 0
  RedirectFailed w2 =
      (wants_v6_redirect c p ≡ true)
      × ((m : String) × ((ensure_dns_redirect_v6 c (v6_resolver_ip c p) w2).0 ≡ err m))

  -- What a pass comes to whose `try` block ended so.
  pub data Pass (r : Result (Unit {0}) × World H) (snapshot : Option String)
      (x : Result (Unit {0}) × Option Signature × World H) : Type 0 where
    renewed :
        (a : Unit {0}) (w2 w' : World H)
        → r ≡ (ok a, w2)
        → RedirectMade w2
        → x ≡ (ok tt, some (build_signature p c.enable_ipv6), w')
        → view c w'.applied ≡ view c w2.applied
        → Pass r snapshot x
    redirect_failed :
        (a : Unit {0}) (w2 w' : World H)
        → r ≡ (ok a, w2)
        → RedirectFailed w2
        → x ≡ (ok tt, last, w')
        → view c w'.applied ≡ view c w2.applied
        → Pass r snapshot x
    rolled_back :
        (e : String) (w2 : World H)
        → r ≡ (err e, w2)
        → x ≡ (err e, last, restore_ruleset c snapshot w2)
        → Pass r snapshot x

  finish-Pass :
      (r : Result (Unit {0}) × World H) (snapshot : Option String)
      → Pass r snapshot (finish c p last snapshot r)
  unfolding finish
  finish-Pass (err m, w2) snapshot = rolled_back m w2 refl refl
  finish-Pass (ok a, w2) snapshot =
      let v6 = ensure_dns_redirect_v6 c (v6_resolver_ip c p) w2 in
      let kept = Keeps-ensure_dns_redirect_v6 c (v6_resolver_ip c p) w2 in
      elim (Bool-cases (wants_v6_redirect c p)) [
        | inl wants ↦ elim (Result-cases v6.0) [
          | inl (b, good) ↦ renewed a w2 v6.1 refl (inr (b, good)) (rw (wants, good) refl) kept
          | inr (m, bad) ↦
              redirect_failed a w2 v6.1 refl (wants, (m, bad)) (rw (wants, bad) refl) kept
        ]
        | inr spares ↦ renewed a w2 w2 refl (inl spares) (rw spares refl) refl
      ]

  sync-finish :
      (w : World H)
      → last ≢ some (build_signature p c.enable_ipv6)
      → sync c p last w
        ≡ finish c p last (snapshot_ruleset c w).0 (rebuild c p (snapshot_ruleset c w).1)
  unfolding sync
  sync-finish w fresh = elim (Bool-cases (last == some (build_signature p c.enable_ipv6))) [
    | inl same ↦ absurd (fresh (ground arith))
    | inr other ↦ rw other refl
  ]

  -- A pass that was not skipped and that succeeded leaves in the chain exactly the rules of the
  -- policy, in the order of the targets and then those against encrypted DNS, whatever the chain
  -- held before, and whether the redirect of IPv6 was made or not. The commands must be run (no dry
  -- run).
  pub sync-chain :
      c.dry_run ≡ false
      → (w : World H) (last' : Option Signature) (w' : World H)
      → last ≢ some (build_signature p c.enable_ipv6)
      → sync c p last w ≡ (ok tt, last', w')
      → chain_of c.nft_bin w'.applied ≡ chain_spec c p
  sync-chain live w last' w' fresh h =
      let (snapshot, w1) = snapshot_ruleset c w in
      let whole = sym h ∙ sync-finish w fresh in
      elim (finish-Pass (rebuild c p w1) snapshot) [
        | renewed a w2 v done' _ e same ↦
            ap (λ x. view c x.2.applied) (whole ∙ e) ∙ (same ∙ rebuild-chain c live p w1 a w2 done')
        | redirect_failed a w2 v done' _ e same ↦
            ap (λ x. view c x.2.applied) (whole ∙ e) ∙ (same ∙ rebuild-chain c live p w1 a w2 done')
        | rolled_back m w2 _ e ↦ absurd (cc (whole, e))
      ]

  -- A pass that was not skipped and that succeeded remembers the policy if the redirect of IPv6 was
  -- made or is not wanted; if that redirect failed it remembers what it did before, so the next
  -- pass is not skipped and tries again.
  pub sync_retries_redirect :
      (w : World H) (last' : Option Signature) (w' : World H)
      → last ≢ some (build_signature p c.enable_ipv6)
      → sync c p last w ≡ (ok tt, last', w')
      → (a : Unit {0}) × (w2 : World H) × (rebuild c p (snapshot_ruleset c w).1 ≡ (ok a, w2))
        × (((last' ≡ some (build_signature p c.enable_ipv6)) × RedirectMade w2)
            ⊎ ((last' ≡ last) × RedirectFailed w2))
  sync_retries_redirect w last' w' fresh h =
      let (snapshot, w1) = snapshot_ruleset c w in
      let whole = sym h ∙ sync-finish w fresh in
      elim (finish-Pass (rebuild c p w1) snapshot) [
        | renewed a w2 v done' made e same ↦ (a, w2, done', inl (ap (λ x. x.1) (whole ∙ e), made))
        | redirect_failed a w2 v done' bad e same ↦
            (a, w2, done', inr (ap (λ x. x.1) (whole ∙ e), bad))
        | rolled_back m w2 _ e ↦ absurd (cc (whole, e))
      ]
