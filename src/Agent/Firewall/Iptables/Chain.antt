-- ===== src/Agent/Firewall/Iptables/Chain.antt =====
-- The filter chain through the steps of a pass.
use mathlib.Core.List.{append-nil}
use guardtime.Base.{
  String, ◌≡◌, ◌≢◌, refl, sym, ap, ◌∙◌, inl, inr, Bool, false, not, ◌&&◌, ◌||◌, List, [], ◌∷◌, ◌++◌,
  arith, Option, none, some, ◌==◌, string_eq, option_eq,
}
use guardtime.Agent.Host.{Host, World, Command, ok, Action, ◌>>◌, done, when, for_each, run_command}
use guardtime.Agent.Host.Laws.{
  >>=-eq-ok, run_command-eq-ok, run_command-applied, Adds, Adds-done, Adds->>=, Adds->>, Adds-when,
  Adds-when_nil, Adds-if_nil, Adds-if, Adds-for_each_nil, Adds-for_each,
}
use guardtime.Agent.Config.{Config}
use guardtime.Agent.Target.{Target}
use guardtime.Agent.Patterns.Doh.{dot_ports}
use guardtime.Agent.Patterns.Vpn.{vpn_port_signatures, vpn_ip_ranges}
use guardtime.Agent.Firewall.Signature.{Policy, signature_eq}
use guardtime.Agent.Firewall.Iptables.{
  filter_chain, is_block, binary_of, address_of, with_address, append, ip_rule, mac_rule,
  vpn_port_rule, vpn_range_rule, quic_rule, run, try_run, ensure_rule, ensure_filter_chain,
  flush_filter_chain, add_block_rules, add_vpn_block_rules, add_quic_block_rule,
  ensure_doh_dot_block, ensure_dns_redirect, apply_target, rebuild, Iptables, snapshot_ruleset,
  remembered, sync_family, pass_signature,
}
use guardtime.Agent.Firewall.Iptables.Passes.{
  skipped, renewed, rolled_back, sync_family-Pass, remembered-remember,
}
use guardtime.Agent.Firewall.Iptables.Rules.{
  block_rules, vpn_rules, quic_rules, effect, chain_of, chain_spec, target_rules,
}

abbrev view : Config → (ipv6 : Bool) → List Command → List (List String)
view c ipv6 = chain_of (binary_of c ipv6)

-- A command on another chain.
abbrev IsAside : List String → Type 0
IsAside args = (rules : List (List String)) → effect args rules ≡ rules

module _ {H : Host} (c : Config) (ipv6 : Bool) (live : c.dry_run ≡ false) where
  run-applied :
      (args : List String) (w : World H) (a : Unit {0}) (w' : World H)
      → run c ipv6 args w ≡ (ok a, w')
      → w'.applied ≡ record { binary = binary_of c ipv6; args = args } ∷ w.applied
  unfolding run
  run-applied args w a w' h =
      let (r, w1, first, rest) =
        >>=-eq-ok (run_command c.dry_run (binary_of c ipv6) false args) (λ _. done) w h in
      cc (run_command-eq-ok c.dry_run live (binary_of c ipv6) args w first)

  run-chain :
      (args : List String) (w : World H) (a : Unit {0}) (w' : World H)
      → run c ipv6 args w ≡ (ok a, w')
      → view c ipv6 w'.applied ≡ effect args (view c ipv6 w.applied)
  run-chain args w a w' h = rw (run-applied args w a w' h) (ground arith)

  -- A rule is appended.
  Adds-append :
      (rest : List String)
      → Adds (view c ipv6) (run {H = H} c ipv6 (append rest)) (append rest ∷ [])
  unfolding string_eq
  Adds-append rest w a w' h = run-chain (append rest) w a w' h

  Adds-run_aside :
      (args : List String) → IsAside args → Adds (view c ipv6) (run {H = H} c ipv6 args) []
  Adds-run_aside args aside w a w' h = run-chain args w a w' h ∙ aside _ ∙ sym (append-nil _)

  Adds-try_run :
      (args : List String) → IsAside args → Adds (view c ipv6) (try_run {H = H} c ipv6 args) []
  unfolding try_run
  Adds-try_run args aside w r w' h =
      elim (run_command-applied c.dry_run live (binary_of c ipv6) args w h) [
        | inl same ↦ ap (view c ipv6) same ∙ sym (append-nil _)
        | inr more ↦
            rw more
              (ground (arith, aside (view c ipv6 w.applied), append-nil (view c ipv6 w.applied)))
      ]

  Adds-ensure_rule :
      (check add : List String)
      → IsAside check
      → IsAside add
      → Adds (view c ipv6) (ensure_rule {H = H} c ipv6 check add) []
  unfolding ensure_rule
  Adds-ensure_rule check add p q =
      Adds->>= (view c ipv6) (try_run c ipv6 check) (λ x. when (not x.ok) (run c ipv6 add)) [] []
        (Adds-try_run check p)
        (λ x. Adds-when_nil (view c ipv6) (not x.ok) (run c ipv6 add) (Adds-run_aside add q))

  Adds-with_address :
      (o : Option String) (m : String → Action H (Unit {0})) (rs : String → List (List String))
      → ((a : String) → Adds (view c ipv6) (m a) (rs a))
      → Adds (view c ipv6) (with_address o done m) (with_address o [] rs)
  Adds-with_address none m rs h w a w' e = Adds-done (view c ipv6) w a w' e
  Adds-with_address (some s) m rs h w a w' e =
      Adds-if (view c ipv6) (s == "") done (m s) [] (rs s) (Adds-done (view c ipv6)) (h s) w a w' e

  Adds-add_block_rules :
      (t : Target) → Adds (view c ipv6) (add_block_rules {H = H} c ipv6 t) (block_rules ipv6 t)
  unfolding add_block_rules
  Adds-add_block_rules t =
      Adds->> (view c ipv6)
        (with_address (address_of ipv6 t) done (λ a. run c ipv6 (ip_rule t.device_id a)))
        (with_address t.mac_address done (λ m. run c ipv6 (mac_rule t.device_id m)))
        (with_address (address_of ipv6 t) [] (λ a. ip_rule t.device_id a ∷ []))
        (with_address t.mac_address [] (λ m. mac_rule t.device_id m ∷ []))
        (Adds-with_address (address_of ipv6 t) _ _ (λ a. Adds-append _))
        (Adds-with_address t.mac_address _ _ (λ m. Adds-append _))

  Adds-add_vpn_block_rules :
      (t : Target) → Adds (view c ipv6) (add_vpn_block_rules {H = H} c ipv6 t) (vpn_rules ipv6 t)
  unfolding add_vpn_block_rules
  Adds-add_vpn_block_rules t = Adds-with_address (address_of ipv6 t) _ _ λ a.
      Adds->> (view c ipv6) (for_each vpn_port_signatures _) _ _ _
        (Adds-for_each (view c ipv6) (λ sig. run c ipv6 (vpn_port_rule t.device_id a sig))
          (λ sig. vpn_port_rule t.device_id a sig ∷ []) (λ sig. Adds-append _) vpn_port_signatures)
        (Adds-if (view c ipv6) (not ipv6) _ done _ []
          (Adds-for_each (view c ipv6) (λ r. run c ipv6 (vpn_range_rule t.device_id a r))
            (λ r. vpn_range_rule t.device_id a r ∷ []) (λ r. Adds-append _) vpn_ip_ranges)
          (Adds-done (view c ipv6)))

  Adds-add_quic_block_rule :
      (t : Target) → Adds (view c ipv6) (add_quic_block_rule {H = H} c ipv6 t) (quic_rules ipv6 t)
  unfolding add_quic_block_rule
  Adds-add_quic_block_rule t =
      Adds-with_address (address_of ipv6 t) (λ a. run c ipv6 (quic_rule t.device_id a))
        (λ a. quic_rule t.device_id a ∷ []) (λ a. Adds-append _)

  Adds-apply_target :
      (p : Policy) (t : Target)
      → Adds
          (view c ipv6)
          (apply_target {H = H} c ipv6 p t)
          (target_rules ipv6 p.enable_quic_block_global t)
  unfolding apply_target
  Adds-apply_target p t =
      Adds->> (view c ipv6) (when (is_block t.action) _) _ _ _
        (Adds-when (view c ipv6) (is_block t.action) _ _ (Adds-add_block_rules t))
        (Adds->> (view c ipv6) (when t.vpn_block _) _ _ _
          (Adds-when (view c ipv6) t.vpn_block _ _ (Adds-add_vpn_block_rules t))
          (Adds-when (view c ipv6) (p.enable_quic_block_global || t.quic_block) _ _
            (Adds-add_quic_block_rule t)))

  Adds-ensure_filter_chain : Adds (view c ipv6) (ensure_filter_chain {H = H} c ipv6) []
  unfolding ensure_filter_chain string_eq
  Adds-ensure_filter_chain =
      Adds->>= (view c ipv6) (try_run c ipv6 _) _ [] [] (Adds-try_run _ (λ rules. refl))
        (λ _. Adds-ensure_rule _ _ (λ rules. refl) (λ rules. refl))

  Adds-ensure_doh_dot_block : Adds (view c ipv6) (ensure_doh_dot_block {H = H} c ipv6) []
  unfolding ensure_doh_dot_block string_eq
  Adds-ensure_doh_dot_block =
      Adds->>= (view c ipv6) (try_run c ipv6 _) _ [] [] (Adds-try_run _ (λ rules. refl)) λ _.
        Adds->> (view c ipv6) (run c ipv6 _) _ [] [] (Adds-run_aside _ (λ rules. refl)) (
          Adds->> (view c ipv6) (ensure_rule c ipv6 _ _) _ [] []
            (Adds-ensure_rule _ _ (λ rules. refl) (λ rules. refl))
            (Adds->> (view c ipv6) (for_each dot_ports _) _ [] []
              (Adds-for_each_nil (view c ipv6) _
                (λ port.
                  Adds->> (view c ipv6) (run c ipv6 _) _ [] [] (Adds-run_aside _ (λ rules. refl))
                    (Adds-run_aside _ (λ rules. refl)))
                dot_ports)
              (Adds-when_nil (view c ipv6) (not ipv6) _
                (Adds-for_each_nil (view c ipv6) _ (λ p. Adds-run_aside _ (λ rules. refl)) _))))

  Adds-ensure_dns_redirect :
      (ip : String) → Adds (view c ipv6) (ensure_dns_redirect {H = H} c ipv6 ip) []
  unfolding ensure_dns_redirect string_eq
  Adds-ensure_dns_redirect ip =
      Adds-if_nil (view c ipv6) (ipv6 && ip == "") done _ (Adds-done (view c ipv6)) (
        Adds->>= (view c ipv6) (try_run c ipv6 _) _ [] [] (Adds-try_run _ (λ rules. refl)) λ _.
          Adds->> (view c ipv6) (run c ipv6 _) _ [] [] (Adds-run_aside _ (λ rules. refl)) (
            Adds->> (view c ipv6) (ensure_rule c ipv6 _ _) _ [] []
              (Adds-ensure_rule _ _ (λ rules. refl) (λ rules. refl))
              (Adds->> (view c ipv6) (ensure_rule c ipv6 _ _) _ [] []
                (Adds-ensure_rule _ _ (λ rules. refl) (λ rules. refl))
                (Adds->> (view c ipv6) (run c ipv6 _) _ [] [] (Adds-run_aside _ (λ rules. refl))
                  (Adds-run_aside _ (λ rules. refl))))))

  -- What `rebuild` does after the flush.
  abbrev fill : Policy → Action H (Unit {0})
  fill p =
      for_each p.targets (apply_target c ipv6 p)
      >> (when p.enable_doh_block (ensure_doh_dot_block c ipv6)
          >> when p.enable_dns_redirect (ensure_dns_redirect c ipv6 p.dns_redirect_ip))

  Adds-fill : (p : Policy) → Adds (view c ipv6) (fill p) (chain_spec ipv6 p ++ [])
  Adds-fill p =
      Adds->> (view c ipv6) (for_each p.targets _) _ (chain_spec ipv6 p) []
        (Adds-for_each (view c ipv6) (apply_target c ipv6 p)
          (target_rules ipv6 p.enable_quic_block_global) (Adds-apply_target p) p.targets)
        (Adds->> (view c ipv6) (when p.enable_doh_block _) _ [] []
          (Adds-when_nil (view c ipv6) p.enable_doh_block _ Adds-ensure_doh_dot_block)
          (Adds-when_nil (view c ipv6) p.enable_dns_redirect _
            (Adds-ensure_dns_redirect p.dns_redirect_ip)))

  flushed :
      (w : World H) (a : Unit {0}) (w' : World H)
      → flush_filter_chain c ipv6 w ≡ (ok a, w')
      → view c ipv6 w'.applied ≡ []
  unfolding flush_filter_chain string_eq
  flushed w a w' h = run-chain ("-F" ∷ filter_chain ∷ []) w a w' h

  rebuild-chain :
      (p : Policy) (w : World H) (a : Unit {0}) (w' : World H)
      → rebuild c ipv6 p w ≡ (ok a, w')
      → view c ipv6 w'.applied ≡ chain_spec ipv6 p
  unfolding rebuild
  rebuild-chain p w a w' h =
      let (_, w1, _, h1) =
        >>=-eq-ok (ensure_filter_chain c ipv6) (λ _. flush_filter_chain c ipv6 >> fill p) w h in
      let (u, w2, flush, h2) = >>=-eq-ok (flush_filter_chain c ipv6) (λ _. fill p) w1 h1 in
      Adds-fill p w2 a w' h2 ∙ rw (flushed w1 u w2 flush) (append-nil (chain_spec ipv6 p))

  -- A pass that was not skipped and that succeeded leaves in the filter chain exactly the rules of
  -- the policy, in the order of the targets, whatever the chain held before, and remembers the
  -- policy's signature. The commands must be run (no dry run).
  pub sync_family-chain :
      (p : Policy) (this : Iptables) (w : World H) (this' : Iptables) (w' : World H)
      → remembered this ipv6 ≢ some (pass_signature ipv6 p)
      → sync_family c ipv6 p this w ≡ (ok tt, this', w')
      → (chain_of (binary_of c ipv6) w'.applied ≡ chain_spec ipv6 p)
        × (remembered this' ipv6 ≡ some (pass_signature ipv6 p))
  sync_family-chain p this w this' w' fresh h = elim (sync_family-Pass c ipv6 p this w) [
    | skipped same e ↦ absurd (fresh same)
    | rolled_back _ _ _ _ e ↦ absurd (cc (h, e))
    | renewed _ a w2 filled e ↦ (
      ap (λ x. chain_of (binary_of c ipv6) x.2.applied) (sym h ∙ e)
          ∙ rebuild-chain p (snapshot_ruleset c ipv6 w).1 a w2 filled,
      ap (λ x. remembered x.1 ipv6) (sym h ∙ e)
          ∙ remembered-remember this ipv6 (pass_signature ipv6 p),
    )
  ]
