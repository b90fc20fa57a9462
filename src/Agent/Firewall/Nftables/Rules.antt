-- ===== src/Agent/Firewall/Nftables/Rules.antt =====
-- What the chain should hold for a policy, written as one list without commands, and what it holds
-- after the commands that have succeeded, by the documented effect of `flush chain` and `add rule`.
use mathlib.Core.List.{flat_map}
use guardtime.Base.{
  String, ◌<>◌, Bool, ◌&&◌, ◌||◌, Option, List, [], ◌∷◌, ◌++◌, ◌==◌, string_eq, if◌then◌else◌, show,
  truthy,
}
use guardtime.Agent.Host.{Command}
use guardtime.Agent.Config.{Config}
use guardtime.Agent.Target.{Target}
use guardtime.Agent.Patterns.Vpn.{PortSignature, vpn_port_signatures, vpn_ip_ranges}
use guardtime.Agent.Patterns.Doh.{dot_ports}
use guardtime.Agent.Firewall.Signature.{Policy}
use guardtime.Agent.Firewall.Iptables.{is_block, with_address}
use guardtime.Agent.Firewall.Nftables.{
  table, forward_chain, saddr_rule, port_rule, range_rule, quic_rule, dot_rule, doh_rule,
  block_comment, vpn_comment, quic_comment, port_comment, providers,
}

abbrev pub one_for : Option String → (String → List String) → List (List String)
one_for o rule = with_address o [] (λ a. rule a ∷ [])

abbrev pub block_rules : Config → Target → List (List String)
block_rules c t =
    one_for t.ip_address (λ a. saddr_rule "ip" (block_comment t <> "-ip") a)
    ++ ((if c.enable_ipv6
          then one_for t.ipv6_address (λ a. saddr_rule "ip6" (block_comment t <> "-ip6") a)
          else [])
        ++ one_for t.mac_address (λ mac. saddr_rule "ether" (block_comment t <> "-mac") mac))

abbrev pub port_rules : Config → Target → PortSignature → List (List String)
port_rules c t sig =
    one_for t.ip_address (λ a. port_rule "ip" (port_comment t sig) sig a)
    ++ (if c.enable_ipv6
        then one_for t.ipv6_address (λ a. port_rule "ip6" (port_comment t sig <> "-v6") sig a)
        else [])

abbrev pub vpn_rules : Config → Target → List (List String)
vpn_rules c t =
    if truthy t.ip_address || truthy t.ipv6_address
    then flat_map (port_rules c t) vpn_port_signatures
      ++ with_address t.ip_address []
          (λ a. flat_map (λ r. range_rule (vpn_comment t <> "-ip") a r ∷ []) vpn_ip_ranges)
    else []

abbrev pub quic_rules : Config → Target → List (List String)
quic_rules c t =
    one_for t.ip_address (λ a. quic_rule "ip" (quic_comment t) a)
    ++ (if c.enable_ipv6
        then one_for t.ipv6_address (λ a. quic_rule "ip6" (quic_comment t <> "-v6") a)
        else [])

abbrev pub target_rules : Config → (quic_global : Bool) → Target → List (List String)
target_rules c quic_global t =
    (if is_block t.action then block_rules c t else [])
    ++ ((if t.vpn_block then vpn_rules c t else [])
        ++ (if quic_global || t.quic_block then quic_rules c t else []))

abbrev pub doh_rules : Config → List (List String)
doh_rules c =
    flat_map (λ port. dot_rule "tcp" (show port) ∷ dot_rule "udp" (show port) ∷ []) dot_ports
    ++ flat_map (λ p. doh_rule p ∷ []) (providers c)

abbrev pub chain_spec : Config → Policy → List (List String)
chain_spec c p =
    flat_map (target_rules c p.enable_quic_block_global) p.targets
    ++ (if p.enable_doh_block then doh_rules c else [])

abbrev pub effect : List String → List (List String) → List (List String)
effect (verb ∷ object ∷ family ∷ tab ∷ chain ∷ rest) rules =
    if family == "inet" && (tab == table && chain == forward_chain)
    then if verb == "flush"
      then []
      else if object == "rule"
      then rules ++ (verb ∷ object ∷ family ∷ tab ∷ chain ∷ rest) ∷ []
      else rules
    else rules
effect _ rules = rules

abbrev pub chain_of : (binary : String) → List Command → List (List String)
chain_of binary [] = []
chain_of binary (cmd ∷ older) =
    let rules = chain_of binary older in
    if cmd.binary == binary then effect cmd.args rules else rules
