-- ===== src/Agent/Firewall/Iptables/Rules.antt =====
-- What the filter chain should hold for a policy, written as one list without commands, and what
-- it holds after the commands that have succeeded, by the documented effect of `-F` and `-A`.
use mathlib.Core.List.{flat_map}
use guardtime.Base.{String, Bool, not, ◌||◌, List, [], ◌∷◌, ◌++◌, ◌==◌, string_eq, if◌then◌else◌}
use guardtime.Agent.Host.{Command}
use guardtime.Agent.Target.{Target}
use guardtime.Agent.Patterns.Vpn.{vpn_port_signatures, vpn_ip_ranges}
use guardtime.Agent.Firewall.Signature.{Policy}
use guardtime.Agent.Firewall.Iptables.{
  filter_chain, is_block, address_of, with_address, ip_rule, mac_rule, vpn_port_rule,
  vpn_range_rule, quic_rule,
}

-- The rules of one target, each as the arguments that append it.
abbrev pub block_rules : (ipv6 : Bool) → Target → List (List String)
block_rules ipv6 t =
    with_address (address_of ipv6 t) [] (λ a. ip_rule t.device_id a ∷ [])
    ++ with_address t.mac_address [] (λ mac. mac_rule t.device_id mac ∷ [])

abbrev pub vpn_rules : (ipv6 : Bool) → Target → List (List String)
vpn_rules ipv6 t = with_address (address_of ipv6 t) [] λ a.
    flat_map (λ sig. vpn_port_rule t.device_id a sig ∷ []) vpn_port_signatures
    ++ (if not ipv6 then flat_map (λ r. vpn_range_rule t.device_id a r ∷ []) vpn_ip_ranges else [])

abbrev pub quic_rules : (ipv6 : Bool) → Target → List (List String)
quic_rules ipv6 t = with_address (address_of ipv6 t) [] (λ a. quic_rule t.device_id a ∷ [])

abbrev pub target_rules : (ipv6 quic_global : Bool) → Target → List (List String)
target_rules ipv6 quic_global t =
    (if is_block t.action then block_rules ipv6 t else [])
    ++ ((if t.vpn_block then vpn_rules ipv6 t else [])
        ++ (if quic_global || t.quic_block then quic_rules ipv6 t else []))

abbrev pub chain_spec : (ipv6 : Bool) → Policy → List (List String)
chain_spec ipv6 p = flat_map (target_rules ipv6 p.enable_quic_block_global) p.targets

-- `-F chain` empties the chain and `-A chain rule` appends to it. Jumps into the chain, checks and
-- the commands on other chains leave it alone.
abbrev pub effect : List String → List (List String) → List (List String)
effect (flag ∷ chain ∷ rest) rules =
    if chain == filter_chain
    then if flag == "-F"
      then []
      else if flag == "-A"
      then rules ++ (flag ∷ chain ∷ rest) ∷ []
      else rules
    else rules
effect _ rules = rules

abbrev pub chain_of : (binary : String) → List Command → List (List String)
chain_of binary [] = []
chain_of binary (cmd ∷ older) =
    let rules = chain_of binary older in
    if cmd.binary == binary then effect cmd.args rules else rules
