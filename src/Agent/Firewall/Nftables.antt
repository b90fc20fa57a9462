-- ===== src/Agent/Firewall/Nftables.antt =====
-- gateway-agent/src/nftables-controller.js: the methods of `NftablesController`. A rule is the
-- argument list of the command that adds it.
pub mod Rules
pub mod Chain
pub mod Redirect
use guardtime.Base.{
  String, ◌<>◌, Bool, true, false, not, ◌&&◌, ◌||◌, Option, none, some, List, [], ◌∷◌, ◌++◌, map,
  ◌==◌, string_eq, option_eq, if◌then◌else◌, show, truthy, slice,
}
use guardtime.Agent.Host.{
  Host, World, Result, ok, err, Action, ◌>>=◌, ◌>>◌, done, when, for_each, exec_file, run_command,
  RunResult, exited, failed,
}
use guardtime.Agent.Config.{Config}
use guardtime.Agent.Target.{Target}
use guardtime.Agent.Patterns.Vpn.{PortSignature, IpRange, vpn_port_signatures, vpn_ip_ranges}
use guardtime.Agent.Patterns.Doh.{DohProvider, dot_ports, doh_provider_ips}
use guardtime.Agent.Firewall.Signature.{Policy, Signature, signature_eq, build_signature}
use guardtime.Agent.Firewall.Iptables.{is_block, with_address}

abbrev pub table : String
table = "guardtime"

abbrev pub forward_chain : String
forward_chain = "block"

abbrev pub nat_table : String
nat_table = "guardtime_nat"

abbrev pub nat_chain : String
nat_chain = "dns_redirect"

abbrev pub nat_table_v6 : String
nat_table_v6 = "guardtime_nat6"

-- The rules, in the order of the source's array literals.
abbrev pub add_rule : List String → List String
add_rule rest = "add" ∷ "rule" ∷ "inet" ∷ table ∷ forward_chain ∷ rest

abbrev drop_with : (comment : String) → List String
drop_with comment = "counter" ∷ "drop" ∷ "comment" ∷ ("\"" <> comment <> "\"") ∷ []

abbrev pub saddr_rule : (family comment : String) → (address : String) → List String
saddr_rule family comment address = add_rule (family ∷ "saddr" ∷ address ∷ drop_with comment)

abbrev pub port_rule : (family comment : String) → PortSignature → (address : String) → List String
port_rule family comment sig address =
    add_rule
      (family ∷ "saddr" ∷ address ∷ sig.protocol ∷ "dport" ∷ show sig.port ∷ drop_with comment)

abbrev pub range_rule : (comment : String) → (address : String) → IpRange → List String
range_rule comment address range =
    add_rule ("ip" ∷ "saddr" ∷ address ∷ "ip" ∷ "daddr" ∷ range.cidr ∷ drop_with comment)

abbrev pub quic_rule : (family comment : String) → (address : String) → List String
quic_rule family comment address =
    add_rule (family ∷ "saddr" ∷ address ∷ "udp" ∷ "dport" ∷ "443" ∷ drop_with comment)

abbrev pub dot_rule : (protocol port : String) → List String
dot_rule protocol port =
    add_rule (protocol ∷ "dport" ∷ port ∷ drop_with ("guardtime-dot-" <> protocol))

abbrev pub doh_rule : DohProvider → List String
doh_rule p =
    add_rule
      ("ip" ∷ "daddr" ∷ p.ip ∷ "tcp" ∷ "dport" ∷ "443" ∷ drop_with ("guardtime-doh-" <> p.name))

abbrev pub block_comment : Target → String
block_comment t = slice 63 ("guardtime-" <> t.device_id)

abbrev pub vpn_comment : Target → String
vpn_comment t = slice 50 ("guardtime-vpn-" <> t.device_id)

abbrev pub quic_comment : Target → String
quic_comment t = slice 63 ("guardtime-quic-" <> t.device_id)

abbrev pub port_comment : Target → PortSignature → String
port_comment t sig = vpn_comment t <> "-port-" <> show sig.port

abbrev pub add_nat_table : (family nat : String) → List String
add_nat_table family nat = "add" ∷ "table" ∷ family ∷ nat ∷ []

abbrev pub add_nat_chain : (family nat : String) → List String
add_nat_chain family nat =
    "add" ∷ "chain" ∷ family ∷ nat ∷ nat_chain ∷ "{" ∷ "type" ∷ "nat" ∷ "hook" ∷ "prerouting"
    ∷ "priority" ∷ "-100" ∷ ";" ∷ "}" ∷ []

abbrev pub flush_nat_chain : (family nat : String) → List String
flush_nat_chain family nat = "flush" ∷ "chain" ∷ family ∷ nat ∷ nat_chain ∷ []

abbrev pub nat_rule : (family nat protocol ip : String) → List String
nat_rule family nat protocol ip =
    "add" ∷ "rule" ∷ family ∷ nat ∷ nat_chain ∷ protocol ∷ "dport" ∷ "53" ∷ "dnat" ∷ "to" ∷ ip ∷ []

-- The providers whose addresses are dropped.
abbrev pub providers : Config → List DohProvider
providers c =
    doh_provider_ips
    ++ map (λ ip. record { name = "operator-reputation-list"; ip = ip }) c.doh_reputation_ips

abbrev pub v6_resolver_ip : Config → Policy → String
v6_resolver_ip c p = if p.dns_redirect_ipv6 == "" then c.dns_redirect_ipv6 else p.dns_redirect_ipv6

abbrev pub wants_v6_redirect : Config → Policy → Bool
wants_v6_redirect c p = c.enable_ipv6 && (p.enable_dns_redirect && not (v6_resolver_ip c p == ""))

module _ {H : Host} (c : Config) where
  unfoldable pub run : List String → Action H (Unit {0})
  run args = do run_command c.dry_run c.nft_bin false args; done

  unfoldable pub try_run : List String → Action H RunResult
  try_run args = run_command c.dry_run c.nft_bin true args

  unfoldable pub ensure_table : Action H RunResult
  unfolding try_run
  ensure_table = do
    try_run ("add" ∷ "table" ∷ "inet" ∷ table ∷ [])
    try_run (
        "add" ∷ "chain" ∷ "inet" ∷ table ∷ forward_chain ∷ "{" ∷ "type" ∷ "filter" ∷ "hook"
        ∷ "forward" ∷ "priority" ∷ "0" ∷ ";" ∷ "policy" ∷ "accept" ∷ ";" ∷ "}" ∷ [])

  unfoldable pub flush_chain : Action H (Unit {0})
  unfolding run
  flush_chain = run ("flush" ∷ "chain" ∷ "inet" ∷ table ∷ forward_chain ∷ [])

  unfoldable pub add_block_rules : Target → Action H (Unit {0})
  unfolding run
  add_block_rules t = do
    with_address t.ip_address done (λ a. run (saddr_rule "ip" (block_comment t <> "-ip") a))
    when c.enable_ipv6 (
        with_address t.ipv6_address done
          (λ a. run (saddr_rule "ip6" (block_comment t <> "-ip6") a)))
    with_address t.mac_address done
        (λ mac. run (saddr_rule "ether" (block_comment t <> "-mac") mac))

  -- The body of the loop over the port signatures.
  unfoldable pub add_port_rules : Target → PortSignature → Action H (Unit {0})
  unfolding run
  add_port_rules t sig = do
    with_address t.ip_address done (λ a. run (port_rule "ip" (port_comment t sig) sig a))
    when c.enable_ipv6 (
        with_address t.ipv6_address done
          (λ a. run (port_rule "ip6" (port_comment t sig <> "-v6") sig a)))

  unfoldable pub add_vpn_block_rules : Target → Action H (Unit {0})
  unfolding run add_port_rules for_each
  add_vpn_block_rules t =
      if truthy t.ip_address || truthy t.ipv6_address
      then (do
        for_each vpn_port_signatures (add_port_rules t)
        with_address t.ip_address done
            λ a. for_each vpn_ip_ranges (λ r. run (range_rule (vpn_comment t <> "-ip") a r)))
      else done

  unfoldable pub add_quic_block_rule : Target → Action H (Unit {0})
  unfolding run
  add_quic_block_rule t = do
    with_address t.ip_address done (λ a. run (quic_rule "ip" (quic_comment t) a))
    when c.enable_ipv6
        (with_address t.ipv6_address done (λ a. run (quic_rule "ip6" (quic_comment t <> "-v6") a)))

  unfoldable pub add_doh_dot_block_rules : Action H (Unit {0})
  unfolding run for_each
  add_doh_dot_block_rules = do
    for_each dot_ports λ port. do run (dot_rule "tcp" (show port)); run (dot_rule "udp" (show port))
    for_each (providers c) (λ p. run (doh_rule p))

  -- `ensureDnsRedirect` and `ensureDnsRedirectV6`, which differ in the family and the table.
  unfoldable pub redirect_dns : (family nat : String) → (ip : String) → Action H (Unit {0})
  unfolding run try_run
  redirect_dns family nat ip = do
    try_run (add_nat_table family nat)
    try_run (add_nat_chain family nat)
    run (flush_nat_chain family nat)
    run (nat_rule family nat "udp" ip)
    run (nat_rule family nat "tcp" ip)

  unfoldable pub ensure_dns_redirect : (ip : String) → Action H (Unit {0})
  unfolding redirect_dns
  ensure_dns_redirect ip = redirect_dns "ip" nat_table ip

  unfoldable pub ensure_dns_redirect_v6 : (ip : String) → Action H (Unit {0})
  unfolding redirect_dns
  ensure_dns_redirect_v6 ip = redirect_dns "ip6" nat_table_v6 ip

  unfoldable pub snapshot_ruleset : World H → Option String × World H
  unfolding exec_file
  snapshot_ruleset w =
      let (outcome, w') = exec_file c.nft_bin ("list" ∷ "ruleset" ∷ []) w in
      elim outcome [ exited out errors ↦ (some out, w') | failed out errors m ↦ (none, w') ]

  -- The `finally` removes the file on both ways out; the caller only logs an error.
  unfoldable pub restore_ruleset : Option String → World H → World H
  unfolding exec_file
  restore_ruleset none w = w
  restore_ruleset (some text) w =
      let file = H.tmpdir <> "/guardtime-nft-rollback-" <> show (H.now w.state) <> ".nft" in
      let (failure, s) = H.write_file file text w.state in
      let w1 : World H = record w { state = s } in
      elim failure [
        | some message ↦ w1
        | none ↦
            let (_, w2) = exec_file c.nft_bin ("-f" ∷ file ∷ []) w1 in
            record w2 { state = H.unlink file w2.state }
      ]

  -- The body of the loop over the targets.
  unfoldable pub apply_target : Policy → Target → Action H (Unit {0})
  unfolding add_block_rules add_vpn_block_rules add_quic_block_rule
  apply_target p t = do
    when (is_block t.action) (add_block_rules t)
    when t.vpn_block (add_vpn_block_rules t)
    when (p.enable_quic_block_global || t.quic_block) (add_quic_block_rule t)

  -- The `try` block of `sync`.
  unfoldable pub rebuild : Policy → Action H (Unit {0})
  unfolding ensure_table flush_chain for_each apply_target add_doh_dot_block_rules
      ensure_dns_redirect
  rebuild p = do
    ensure_table
    flush_chain
    for_each p.targets (apply_target p)
    when p.enable_doh_block add_doh_dot_block_rules
    when p.enable_dns_redirect (ensure_dns_redirect p.dns_redirect_ip)

  -- What `sync` does after the `try` block.
  unfoldable pub finish :
      Policy
      → (last : Option Signature) → (snapshot : Option String) → Result (Unit {0}) × World H
      → Result (Unit {0}) × Option Signature × World H
  unfolding restore_ruleset ensure_dns_redirect_v6
  finish p last snapshot (err e, w) = (err e, last, restore_ruleset snapshot w)
  finish p last snapshot (ok _, w) =
      let signature = build_signature p c.enable_ipv6 in
      let (v6, w') = ensure_dns_redirect_v6 (v6_resolver_ip c p) w in
      if wants_v6_redirect c p
      then elim v6 [ ok _ ↦ (ok tt, some signature, w') | err _ ↦ (ok tt, last, w') ]
      else (ok tt, some signature, w)

  -- `sync`; what it remembers is `_lastSyncSignature`.
  unfoldable pub sync :
      Policy → Option Signature → World H → Result (Unit {0}) × Option Signature × World H
  unfolding rebuild snapshot_ruleset finish
  sync p last w =
      let (snapshot, w1) = snapshot_ruleset w in
      if last == some (build_signature p c.enable_ipv6)
      then (ok tt, last, w)
      else finish p last snapshot (rebuild p w1)
