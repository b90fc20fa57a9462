-- ===== src/Agent/Firewall/Nftables/Chain.antt =====
-- The chain through the steps of a pass.
use mathlib.Core.List.{append-nil, flat_map}
use guardtime.Base.{
  String, ◌≡◌, refl, sym, ap, ◌∙◌, inl, inr, false, ◌||◌, List, [], ◌∷◌, ◌++◌, arith, Option, none,
  some, ◌==◌, string_eq, option_eq, if◌then◌else◌, truthy, show, ◌<>◌,
}
use guardtime.Agent.Host.{Host, World, Command, ok, Action, ◌>>◌, done, when, for_each, run_command}
use guardtime.Agent.Host.Laws.{
  >>=-eq-ok, run_command-eq-ok, run_command-applied, Adds, Adds-done, Adds->>, Adds-when,
  Adds-when_nil, Adds-if, Adds-for_each,
}
use guardtime.Agent.Config.{Config}
use guardtime.Agent.Target.{Target}
use guardtime.Agent.Patterns.Doh.{dot_ports}
use guardtime.Agent.Patterns.Vpn.{PortSignature, vpn_port_signatures, vpn_ip_ranges}
use guardtime.Agent.Firewall.Signature.{Policy}
use guardtime.Agent.Firewall.Iptables.{is_block, with_address}
use guardtime.Agent.Firewall.Nftables.{
  table, forward_chain, add_rule, range_rule, dot_rule, doh_rule, vpn_comment, providers, run,
  try_run, ensure_table, flush_chain, add_block_rules, add_port_rules, add_vpn_block_rules,
  add_quic_block_rule, add_doh_dot_block_rules, redirect_dns, ensure_dns_redirect, apply_target,
  rebuild,
}
use guardtime.Agent.Firewall.Nftables.Rules.{
  one_for, block_rules, port_rules, vpn_rules, quic_rules, target_rules, doh_rules, chain_spec,
  effect, chain_of,
}

abbrev pub view : Config → List Command → List (List String)
view c = chain_of c.nft_bin

-- A command on another chain.
abbrev pub IsAside : List String → Type 0
IsAside args = (rules : List (List String)) → effect args rules ≡ rules

module _ {H : Host} (c : Config) (live : c.dry_run ≡ false) where
  run-chain :
      (args : List String) (w : World H) (a : Unit {0}) (w' : World H)
      → run c args w ≡ (ok a, w')
      → view c w'.applied ≡ effect args (view c w.applied)
  unfolding run
  run-chain args w a w' h =
      let (r, w1, first, rest) =
        >>=-eq-ok (run_command c.dry_run c.nft_bin false args) (λ _. done) w h in
      let applied : w'.applied ≡ record { binary = c.nft_bin; args = args } ∷ w.applied =
        cc (run_command-eq-ok c.dry_run live c.nft_bin args w first, rest) in
      rw applied (ground arith)

  Adds-add_rule :
      (rest : List String) → Adds (view c) (run {H = H} c (add_rule rest)) (add_rule rest ∷ [])
  unfolding string_eq
  Adds-add_rule rest w a w' h = run-chain (add_rule rest) w a w' h

  pub Adds-run_aside : (args : List String) → IsAside args → Adds (view c) (run {H = H} c args) []
  Adds-run_aside args aside w a w' h = run-chain args w a w' h ∙ aside _ ∙ sym (append-nil _)

  pub Adds-try_run : (args : List String) → IsAside args → Adds (view c) (try_run {H = H} c args) []
  unfolding try_run
  Adds-try_run args aside w r w' h = elim (run_command-applied c.dry_run live c.nft_bin args w h) [
    | inl same ↦ ap (view c) same ∙ sym (append-nil _)
    | inr more ↦ rw more (ground (arith, aside (view c w.applied), append-nil (view c w.applied)))
  ]

  Adds-with_address :
      (o : Option String) (m : String → Action H (Unit {0})) (rs : String → List (List String))
      → ((a : String) → Adds (view c) (m a) (rs a))
      → Adds (view c) (with_address o done m) (with_address o [] rs)
  Adds-with_address none m rs h w a w' e = Adds-done (view c) w a w' e
  Adds-with_address (some s) m rs h w a w' e =
      Adds-if (view c) (s == "") done (m s) [] (rs s) (Adds-done (view c)) (h s) w a w' e

  -- One rule for an address that is there.
  Adds-one_for :
      (o : Option String) (rest : String → List String)
      → Adds
          (view c)
          (with_address o done (λ a. run {H = H} c (add_rule (rest a))))
          (one_for o (λ a. add_rule (rest a)))
  Adds-one_for o rest = Adds-with_address o _ _ (λ a. Adds-add_rule (rest a))

  Adds-add_block_rules :
      (t : Target) → Adds (view c) (add_block_rules {H = H} c t) (block_rules c t)
  unfolding add_block_rules
  Adds-add_block_rules t =
      Adds->> (view c) (with_address t.ip_address done _) _ _ _ (Adds-one_for t.ip_address _) (
        Adds->> (view c) (when c.enable_ipv6 _) _ _ _
          (Adds-when (view c) c.enable_ipv6 _ _ (Adds-one_for t.ipv6_address _))
          (Adds-one_for t.mac_address _))

  Adds-add_port_rules :
      (t : Target) (sig : PortSignature)
      → Adds (view c) (add_port_rules {H = H} c t sig) (port_rules c t sig)
  unfolding add_port_rules
  Adds-add_port_rules t sig =
      Adds->> (view c) (with_address t.ip_address done _) _ _ _ (Adds-one_for t.ip_address _)
        (Adds-when (view c) c.enable_ipv6 _ _ (Adds-one_for t.ipv6_address _))

  Adds-add_vpn_block_rules :
      (t : Target) → Adds (view c) (add_vpn_block_rules {H = H} c t) (vpn_rules c t)
  unfolding add_vpn_block_rules
  Adds-add_vpn_block_rules t =
      Adds-if (view c) (truthy t.ip_address || truthy t.ipv6_address) _ done _ []
        (Adds->> (view c) (for_each vpn_port_signatures _) _ _ _
          (Adds-for_each (view c) (add_port_rules c t) (port_rules c t) (Adds-add_port_rules t)
            vpn_port_signatures)
          (Adds-with_address t.ip_address _ _ (λ a.
            Adds-for_each (view c) (λ r. run c (range_rule (vpn_comment t <> "-ip") a r))
              (λ r. range_rule (vpn_comment t <> "-ip") a r ∷ []) (λ r. Adds-add_rule _)
              vpn_ip_ranges)))
        (Adds-done (view c))

  Adds-add_quic_block_rule :
      (t : Target) → Adds (view c) (add_quic_block_rule {H = H} c t) (quic_rules c t)
  unfolding add_quic_block_rule
  Adds-add_quic_block_rule t =
      Adds->> (view c) (with_address t.ip_address done _) _ _ _ (Adds-one_for t.ip_address _)
        (Adds-when (view c) c.enable_ipv6 _ _ (Adds-one_for t.ipv6_address _))

  Adds-apply_target :
      (p : Policy) (t : Target)
      → Adds (view c) (apply_target {H = H} c p t) (target_rules c p.enable_quic_block_global t)
  unfolding apply_target
  Adds-apply_target p t =
      Adds->> (view c) (when (is_block t.action) _) _ _ _
        (Adds-when (view c) (is_block t.action) _ _ (Adds-add_block_rules t))
        (Adds->> (view c) (when t.vpn_block _) _ _ _
          (Adds-when (view c) t.vpn_block _ _ (Adds-add_vpn_block_rules t))
          (Adds-when (view c) (p.enable_quic_block_global || t.quic_block) _ _
            (Adds-add_quic_block_rule t)))

  Adds-add_doh_dot_block_rules : Adds (view c) (add_doh_dot_block_rules {H = H} c) (doh_rules c)
  unfolding add_doh_dot_block_rules
  Adds-add_doh_dot_block_rules =
      Adds->> (view c) (for_each dot_ports _) _ _ _
        (Adds-for_each (view c) _
          (λ port. dot_rule "tcp" (show port) ∷ dot_rule "udp" (show port) ∷ [])
          (λ port.
            Adds->> (view c) (run c (dot_rule "tcp" (show port))) _ _ _ (Adds-add_rule _)
              (Adds-add_rule _))
          dot_ports)
        (Adds-for_each (view c) (λ p. run c (doh_rule p)) (λ p. doh_rule p ∷ [])
          (λ p. Adds-add_rule _) (providers c))

  Adds-ensure_table : Adds (view c) (ensure_table {H = H} c) []
  unfolding ensure_table string_eq
  Adds-ensure_table =
      Adds->> (view c) (try_run c _) _ [] [] (Adds-try_run _ (λ rules. refl))
        (Adds-try_run _ (λ rules. refl))

  Adds-ensure_dns_redirect : (ip : String) → Adds (view c) (ensure_dns_redirect {H = H} c ip) []
  unfolding ensure_dns_redirect redirect_dns string_eq
  Adds-ensure_dns_redirect ip =
      Adds->> (view c) (try_run c _) _ [] [] (Adds-try_run _ (λ rules. refl)) (
        Adds->> (view c) (try_run c _) _ [] [] (Adds-try_run _ (λ rules. refl)) (
          Adds->> (view c) (run c _) _ [] [] (Adds-run_aside _ (λ rules. refl)) (
            Adds->> (view c) (run c _) _ [] [] (Adds-run_aside _ (λ rules. refl))
              (Adds-run_aside _ (λ rules. refl)))))

  -- What `rebuild` does after the flush.
  abbrev fill : Policy → Action H (Unit {0})
  fill p =
      for_each p.targets (apply_target c p)
      >> (when p.enable_doh_block (add_doh_dot_block_rules c)
          >> when p.enable_dns_redirect (ensure_dns_redirect c p.dns_redirect_ip))

  Adds-fill :
      (p : Policy)
      → Adds (view c) (fill p) (
          flat_map (target_rules c p.enable_quic_block_global) p.targets
          ++ ((if p.enable_doh_block then doh_rules c else []) ++ []))
  Adds-fill p =
      Adds->> (view c) (for_each p.targets _) _ _ _
        (Adds-for_each (view c) (apply_target c p) (target_rules c p.enable_quic_block_global)
          (Adds-apply_target p) p.targets)
        (Adds->> (view c) (when p.enable_doh_block _) _ _ []
          (Adds-when (view c) p.enable_doh_block _ _ Adds-add_doh_dot_block_rules)
          (Adds-when_nil (view c) p.enable_dns_redirect _
            (Adds-ensure_dns_redirect p.dns_redirect_ip)))

  flushed :
      (w : World H) (a : Unit {0}) (w' : World H)
      → flush_chain c w ≡ (ok a, w')
      → view c w'.applied ≡ []
  unfolding flush_chain string_eq
  flushed w a w' h = run-chain ("flush" ∷ "chain" ∷ "inet" ∷ table ∷ forward_chain ∷ []) w a w' h

  pub rebuild-chain :
      (p : Policy) (w : World H) (a : Unit {0}) (w' : World H)
      → rebuild c p w ≡ (ok a, w')
      → view c w'.applied ≡ chain_spec c p
  unfolding rebuild
  rebuild-chain p w a w' h =
      let (_, w1, _, h1) = >>=-eq-ok (ensure_table c) (λ _. flush_chain c >> fill p) w h in
      let (u, w2, flush, h2) = >>=-eq-ok (flush_chain c) (λ _. fill p) w1 h1 in
      Adds-fill p w2 a w' h2
      ∙ rw (flushed w1 u w2 flush) (
          ap (λ l. flat_map (target_rules c p.enable_quic_block_global) p.targets ++ l)
            (append-nil _))
