-- ===== src/Agent/Firewall/Iptables.antt =====
-- gateway-agent/src/iptables-controller.js: the methods of `IptablesController`. A rule is the
-- argument list of the command that installs it.
pub mod Rules
pub mod Passes
pub mod Chain
pub mod Rollback
pub mod Skips
pub mod Enforcement
pub mod Blocked
use guardtime.Base.{
  String, ◌<>◌, Bool, true, false, not, ◌&&◌, ◌||◌, Option, none, some, List, [], ◌∷◌, ◌++◌, map,
  ◌==◌, string_eq, option_eq, if◌then◌else◌, show,
}
use guardtime.Agent.Host.{
  Host, World, Result, ok, err, Action, ◌>>=◌, ◌>>◌, done, when, for_each, exec_file, run_command,
  RunResult, exited, failed,
}
use guardtime.Agent.Config.{Config}
use guardtime.Agent.Target.{Target, PolicyAction, block}
use guardtime.Agent.Patterns.Vpn.{PortSignature, IpRange, vpn_port_signatures, vpn_ip_ranges}
use guardtime.Agent.Patterns.Doh.{dot_ports, doh_provider_ips}
use guardtime.Agent.Firewall.Signature.{Policy, Signature, signature_eq, build_signature}

abbrev pub filter_chain : String
filter_chain = "GUARDTIME_BLOCK"

abbrev pub dns_chain : String
dns_chain = "GUARDTIME_DNS"

abbrev pub doh_chain : String
doh_chain = "GUARDTIME_DOH"

-- `x || 'fallback'` on settings, which are strings.
abbrev or_text : String → String → String
or_text x fallback = if x == "" then fallback else x

abbrev pub is_block : PolicyAction → Bool
is_block block = true
is_block _ = false

-- The address that a pass is about.
abbrev pub address_of : (ipv6 : Bool) → Target → Option String
address_of ipv6 t = if ipv6 then t.ipv6_address else t.ip_address

-- `if (!address) return;`
abbrev pub with_address {ℓ} : {A : Type ℓ} → Option String → A → (String → A) → A
with_address none otherwise use_it = otherwise
with_address (some a) otherwise use_it = if a == "" then otherwise else use_it a

abbrev pub binary_of : Config → (ipv6 : Bool) → String
binary_of c ipv6 = if ipv6 then or_text c.ip6tables_bin "ip6tables" else c.iptables_bin

abbrev pub save_binary : Config → (ipv6 : Bool) → String
save_binary c ipv6 =
    if ipv6
    then or_text c.ip6tables_save_bin "ip6tables-save"
    else or_text c.iptables_save_bin "iptables-save"

abbrev pub restore_binary : Config → (ipv6 : Bool) → String
restore_binary c ipv6 =
    if ipv6
    then or_text c.ip6tables_restore_bin "ip6tables-restore"
    else or_text c.iptables_restore_bin "iptables-restore"

-- The argument lists of the rules, in the order of the source's array literals.
abbrev pub append : List String → List String
append rest = "-A" ∷ filter_chain ∷ rest

abbrev pub ip_rule : String → String → List String
ip_rule id address = append (
    "-s"
    ∷ address
    ∷ "-m"
    ∷ "comment"
    ∷ "--comment"
    ∷ ("guardtime:" <> id <> ":ip")
    ∷ "-j"
    ∷ "DROP"
    ∷ [])

abbrev pub mac_rule : String → String → List String
mac_rule id mac = append (
    "-m"
    ∷ "mac"
    ∷ "--mac-source"
    ∷ mac
    ∷ "-m"
    ∷ "comment"
    ∷ "--comment"
    ∷ ("guardtime:" <> id <> ":mac")
    ∷ "-j"
    ∷ "DROP"
    ∷ [])

abbrev pub vpn_port_rule : String → String → PortSignature → List String
vpn_port_rule id address sig = append (
    "-s"
    ∷ address
    ∷ "-p"
    ∷ sig.protocol
    ∷ "--dport"
    ∷ show sig.port
    ∷ "-m"
    ∷ "comment"
    ∷ "--comment"
    ∷ ("guardtime-vpn:" <> id <> ":port:" <> show sig.port)
    ∷ "-j"
    ∷ "DROP"
    ∷ [])

abbrev pub vpn_range_rule : String → String → IpRange → List String
vpn_range_rule id address range = append (
    "-s"
    ∷ address
    ∷ "-d"
    ∷ range.cidr
    ∷ "-m"
    ∷ "comment"
    ∷ "--comment"
    ∷ ("guardtime-vpn:" <> id <> ":ip")
    ∷ "-j"
    ∷ "DROP"
    ∷ [])

abbrev pub quic_rule : String → String → List String
quic_rule id address = append (
    "-s"
    ∷ address
    ∷ "-p"
    ∷ "udp"
    ∷ "--dport"
    ∷ "443"
    ∷ "-m"
    ∷ "comment"
    ∷ "--comment"
    ∷ ("guardtime-quic:" <> id)
    ∷ "-j"
    ∷ "DROP"
    ∷ [])

abbrev nat_jump : (flag : List String) → (protocol : String) → List String
nat_jump flag protocol =
    "-t" ∷ "nat" ∷ (flag ++ ("-p" ∷ protocol ∷ "--dport" ∷ "53" ∷ "-j" ∷ dns_chain ∷ []))

abbrev dnat_rule : (ipv6 : Bool) (ip protocol : String) → List String
dnat_rule ipv6 ip protocol =
    "-t"
    ∷ "nat"
    ∷ "-A"
    ∷ dns_chain
    ∷ "-p"
    ∷ protocol
    ∷ "--dport"
    ∷ "53"
    ∷ "-j"
    ∷ "DNAT"
    ∷ "--to-destination"
    ∷ (if ipv6 then "[" <> ip <> "]:53" else ip <> ":53")
    ∷ []

module _ {H : Host} (c : Config) (ipv6 : Bool) where
  -- `run(args, { ipv6 })`
  unfoldable pub run : List String → Action H (Unit {0})
  run args = do run_command c.dry_run (binary_of c ipv6) false args; done

  -- `run(args, { ipv6, ignoreFailure: true })`
  unfoldable pub try_run : List String → Action H RunResult
  try_run args = run_command c.dry_run (binary_of c ipv6) true args

  -- `ensureRule` and `ensureNatRule`, which are the same.
  unfoldable pub ensure_rule : (check_args add_args : List String) → Action H (Unit {0})
  unfolding run try_run
  ensure_rule check_args add_args = do
    exists ← try_run check_args
    when (not exists.ok) (run add_args)

  unfoldable pub ensure_filter_chain : Action H (Unit {0})
  unfolding ensure_rule
  ensure_filter_chain = do
    try_run ("-N" ∷ filter_chain ∷ [])
    ensure_rule ("-C" ∷ "FORWARD" ∷ "-j" ∷ filter_chain ∷ [])
        ("-I" ∷ "FORWARD" ∷ "1" ∷ "-j" ∷ filter_chain ∷ [])

  unfoldable pub flush_filter_chain : Action H (Unit {0})
  unfolding run
  flush_filter_chain = run ("-F" ∷ filter_chain ∷ [])

  unfoldable pub add_block_rules : Target → Action H (Unit {0})
  unfolding run
  add_block_rules t = do
    with_address (address_of ipv6 t) done (λ a. run (ip_rule t.device_id a))
    with_address t.mac_address done (λ mac. run (mac_rule t.device_id mac))

  unfoldable pub add_vpn_block_rules : Target → Action H (Unit {0})
  unfolding run for_each
  add_vpn_block_rules t = with_address (address_of ipv6 t) done λ a. do
    for_each vpn_port_signatures (λ sig. run (vpn_port_rule t.device_id a sig))
    when (not ipv6) (for_each vpn_ip_ranges (λ r. run (vpn_range_rule t.device_id a r)))

  unfoldable pub add_quic_block_rule : Target → Action H (Unit {0})
  unfolding run
  add_quic_block_rule t = with_address (address_of ipv6 t) done (λ a. run (quic_rule t.device_id a))

  unfoldable pub ensure_doh_dot_block : Action H (Unit {0})
  unfolding run ensure_rule for_each
  ensure_doh_dot_block = do
    try_run ("-t" ∷ "filter" ∷ "-N" ∷ doh_chain ∷ [])
    run ("-t" ∷ "filter" ∷ "-F" ∷ doh_chain ∷ [])
    ensure_rule ("-C" ∷ "FORWARD" ∷ "-j" ∷ doh_chain ∷ [])
        ("-I" ∷ "FORWARD" ∷ "1" ∷ "-j" ∷ doh_chain ∷ [])
    for_each dot_ports λ port. do
      run ("-A" ∷ doh_chain ∷ "-p" ∷ "tcp" ∷ "--dport" ∷ show port ∷ "-j" ∷ "DROP" ∷ [])
      run ("-A" ∷ doh_chain ∷ "-p" ∷ "udp" ∷ "--dport" ∷ show port ∷ "-j" ∷ "DROP" ∷ [])
    when (not ipv6) (
        for_each
          (doh_provider_ips
            ++ map (λ ip. record { name = "operator-reputation-list"; ip = ip })
                c.doh_reputation_ips)
          λ p. run (
            "-A"
            ∷ doh_chain
            ∷ "-d"
            ∷ p.ip
            ∷ "-p"
            ∷ "tcp"
            ∷ "--dport"
            ∷ "443"
            ∷ "-m"
            ∷ "comment"
            ∷ "--comment"
            ∷ ("guardtime-doh:" <> p.name)
            ∷ "-j"
            ∷ "DROP"
            ∷ []))

  unfoldable pub ensure_dns_redirect : (dns_redirect_ip : String) → Action H (Unit {0})
  unfolding run ensure_rule
  ensure_dns_redirect ip = if ipv6 && ip == "" then done else do
    try_run ("-t" ∷ "nat" ∷ "-N" ∷ dns_chain ∷ [])
    run ("-t" ∷ "nat" ∷ "-F" ∷ dns_chain ∷ [])
    ensure_rule (nat_jump ("-C" ∷ "PREROUTING" ∷ []) "udp")
        (nat_jump ("-I" ∷ "PREROUTING" ∷ "1" ∷ []) "udp")
    ensure_rule (nat_jump ("-C" ∷ "PREROUTING" ∷ []) "tcp")
        (nat_jump ("-I" ∷ "PREROUTING" ∷ "1" ∷ []) "tcp")
    run (dnat_rule ipv6 ip "udp")
    run (dnat_rule ipv6 ip "tcp")

  -- `null` if the snapshot could not be taken.
  unfoldable pub snapshot_ruleset : World H → Option String × World H
  unfolding exec_file
  snapshot_ruleset w =
      let (outcome, w') = exec_file (save_binary c ipv6) [] w in
      elim outcome [ exited out errors ↦ (some out, w') | failed out errors m ↦ (none, w') ]

  -- The path of the file that a rollback restores from.
  abbrev pub rollback_file : World H → String
  rollback_file w =
      H.tmpdir
      <> "/guardtime-iptables-rollback-"
      <> (if ipv6 then "v6-" else "")
      <> show (H.now w.state)
      <> ".rules"

  -- The `finally` removes the file on both ways out; the caller only logs an error.
  unfoldable pub restore_ruleset : Option String → World H → World H
  unfolding exec_file
  restore_ruleset none w = w
  restore_ruleset (some text) w =
      let file = rollback_file w in
      let (failure, s) = H.write_file file text w.state in
      let w1 : World H = record w { state = s } in
      elim failure [
        | some message ↦ w1
        | none ↦
            let (_, w2) = exec_file (restore_binary c ipv6) (file ∷ []) w1 in
            record w2 { state = H.unlink file w2.state }
      ]

  -- The body of the loop over the targets.
  unfoldable pub apply_target : Policy → Target → Action H (Unit {0})
  unfolding add_block_rules add_vpn_block_rules add_quic_block_rule
  apply_target p t = do
    when (is_block t.action) (add_block_rules t)
    when t.vpn_block (add_vpn_block_rules t)
    when (p.enable_quic_block_global || t.quic_block) (add_quic_block_rule t)

  -- The `try` block of `syncFamily`, but for the assignment that ends it.
  unfoldable pub rebuild : Policy → Action H (Unit {0})
  unfolding ensure_filter_chain flush_filter_chain for_each apply_target ensure_doh_dot_block
      ensure_dns_redirect
  rebuild p = do
    ensure_filter_chain
    flush_filter_chain
    for_each p.targets (apply_target p)
    when p.enable_doh_block ensure_doh_dot_block
    when p.enable_dns_redirect (ensure_dns_redirect p.dns_redirect_ip)

-- `_lastSyncSignatures`, a Map from the `ipv6` flag.
pub record Iptables : Type 0 where
  pub v4 : Option Signature
  pub v6 : Option Signature

abbrev pub remembered : Iptables → (ipv6 : Bool) → Option Signature
remembered this ipv6 = if ipv6 then this.v6 else this.v4

abbrev pub remember : Iptables → (ipv6 : Bool) → Signature → Iptables
remember this true signature = record this { v6 = some signature }
remember this false signature = record this { v4 = some signature }

-- The arguments of the second pass of `sync`.
abbrev pub v6_policy : Config → Policy → Policy
v6_policy c p =
    let ip = or_text p.dns_redirect_ipv6 c.dns_redirect_ipv6 in
    record p { dns_redirect_ip = ip; enable_dns_redirect = p.enable_dns_redirect && not (ip == "") }

-- The signature that a pass builds: it is given no `dnsRedirectIpv6`.
abbrev pub pass_signature : (ipv6 : Bool) → Policy → Signature
pass_signature ipv6 p = build_signature (record p { dns_redirect_ipv6 = "" }) ipv6

module _ {H : Host} (c : Config) where
  -- `syncFamily`. Its `dnsRedirectIp` is the policy's `dns_redirect_ip`; it has no
  -- `dnsRedirectIpv6`, which the signature then holds as null.
  unfoldable pub sync_family :
      (ipv6 : Bool) → Policy → Iptables → World H → Result (Unit {0}) × Iptables × World H
  sync_family ipv6 p this w =
      let signature = pass_signature ipv6 p in
      if remembered this ipv6 == some signature
      then (ok tt, this, w)
      else let (snapshot, w1) = snapshot_ruleset c ipv6 w in
        let (result, w2) = rebuild c ipv6 p w1 in
        elim result [
          | ok _ ↦ (ok tt, remember this ipv6 signature, w2)
          | err e ↦ (err e, this, restore_ruleset c ipv6 snapshot w2)
        ]

  unfoldable pub sync : Policy → Iptables → World H → Result (Unit {0}) × Iptables × World H
  sync p this w =
      let (result, this1, w1) = sync_family false p this w in
      elim result [
        | err e ↦ (err e, this1, w1)
        | ok _ ↦
            let (_, this2, w2) = sync_family true (v6_policy c p) this1 w1 in
            if c.enable_ipv6 then (ok tt, this2, w2) else (ok tt, this1, w1)
      ]
