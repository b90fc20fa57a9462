-- ===== src/Agent/Vpn.antt =====
-- gateway-agent/src/vpn-detector.js: `computeConfidence` and `detectFlowAnomaly`, and the lookups of
-- vpn-patterns.js and doh-dot-patterns.js by port, address, domain and resolver. The confidence is
-- computed exactly, where the source computes with floating-point numbers.
pub mod Confidence
pub mod Anomaly
pub mod Detector
use guardtime.Base.{
  ℕ, zero, suc, ◌+◌, ◌-◌, ◌*◌, ◌/◌, ◌^◌, ℤ, pos, int_eq, option_eq, String, ◌<>◌, ◌==◌, string_eq,
  nat_eq, Bool, true, false, not, ◌&&◌, ◌||◌, Option, none, some, List, [], ◌∷◌, ◌++◌, map, find,
  length, contains, show, leb, to_lower, if◌then◌else◌, ends_with, strip_dot,
}
use guardtime.Base.Dict
use guardtime.Base.Dict.{Dict}
use guardtime.Agent.Cidr.{ip_in_cidr}
use guardtime.Agent.Conntrack.{Flow, Port, show_port}
use guardtime.Agent.Patterns.Vpn.{
  DnsPattern, PortSignature, IpRange, vpn_dns_patterns, vpn_port_signatures,
  vpn_detection_only_port_signatures, vpn_ip_ranges,
}
use guardtime.Agent.Patterns.Doh.{DohProvider, doh_provider_ips, doh_sni_patterns}

-- `{ provider, weight }`
pub record Match : Type 0 where
  pub provider : String
  pub weight : ℕ

abbrev pub port_match : Option PortSignature → Option Match
port_match none = none
port_match (some s) = some (record { provider = s.provider; weight = s.weight })

abbrev pub range_match : Option IpRange → Option Match
range_match none = none
range_match (some r) = some (record { provider = r.provider; weight = r.weight })

abbrev pub pattern_match : Option DnsPattern → Option Match
pattern_match none = none
pattern_match (some p) = some (record { provider = p.provider; weight = p.weight })

abbrev pub signature_is : String → Port → PortSignature → Bool
signature_is protocol port s = s.protocol == protocol && some (pos s.port) == port

unfoldable pub match_signature : String → Port → List PortSignature → Option Match
match_signature protocol port sigs = port_match (find (signature_is protocol port) sigs)

unfoldable pub match_vpn_port : (protocol : String) → (port : Port) → Option Match
unfolding match_signature
match_vpn_port protocol port = match_signature protocol port vpn_port_signatures

unfoldable pub match_vpn_port_detection_only : (protocol : String) → (port : Port) → Option Match
unfolding match_signature
match_vpn_port_detection_only protocol port =
    match_signature protocol port vpn_detection_only_port_signatures

-- Whether the name is the suffix or a name below it.
unfoldable pub is_under : (normalized suffix : String) → Bool
unfolding ends_with
is_under normalized suffix = normalized == suffix || ends_with normalized ("." <> suffix)

unfoldable pub normalize_domain : String → String
unfolding to_lower strip_dot
normalize_domain domain = strip_dot (to_lower domain)

unfoldable pub match_vpn_domain : (domain : String) → Option Match
match_vpn_domain domain =
    if domain == ""
    then none
    else pattern_match
        (find (λ (p : DnsPattern). is_under (normalize_domain domain) p.suffix) vpn_dns_patterns)

unfoldable pub match_doh_sni : (hostname : String) → (extra_domains : List String) → Option String
unfolding find is_under normalize_domain doh_sni_patterns
match_doh_sni hostname extra =
    if hostname == ""
    then none
    else find (is_under (normalize_domain hostname)) (doh_sni_patterns ++ extra)

unfoldable pub match_doh_ip : (ip : String) → (extra_ips : List String) → Option String
unfolding find doh_provider_ips
match_doh_ip ip extra =
    if ip == "" then none else elim (find (λ (p : DohProvider). p.ip == ip) doh_provider_ips) [
      | some p ↦ some p.name
      | none ↦ if contains extra ip then some "operator-reputation-list" else none
    ]

unfoldable pub match_vpn_ip : (ip_address : String) → Option Match
match_vpn_ip ip_address =
    if ip_address == ""
    then none
    else range_match (find (λ (r : IpRange). ip_in_cidr ip_address r.cidr) vpn_ip_ranges)

abbrev pub common_ports : List Port
common_ports =
    some (pos 53)
    ∷ some (pos 67)
    ∷ some (pos 68)
    ∷ some (pos 123)
    ∷ some (pos 443)
    ∷ some (pos 5353)
    ∷ []

-- `peersByPort`, a Map of Sets.
abbrev peers_at : Port → Dict Port (List String) → List String
peers_at port d = elim (Dict.lookup port d) [ none ↦ [] | some peers ↦ peers ]

abbrev add_peer : String → List String → List String
add_peer dst peers = if contains peers dst then peers else peers ++ dst ∷ []

unfoldable pub peers_by_port : List Flow → Dict Port (List String) → Dict Port (List String)
peers_by_port [] d = d
peers_by_port (f ∷ fs) d = peers_by_port fs (
    if contains common_ports f.dport
    then d
    else Dict.insert f.dport (add_peer f.dst (peers_at f.dport d)) d)

abbrev first_busy : Dict Port (List String) → Option (Port × ℕ)
first_busy [] = none
first_busy ((port, peers) ∷ d) =
    if leb 3 (length peers) then some (port, length peers) else first_busy d

-- The port and the number of its peers, of which the source makes a text; the weight is 25.
unfoldable pub detect_flow_anomaly : List Flow → Option (Port × ℕ)
unfolding peers_by_port
detect_flow_anomaly flows = first_busy (peers_by_port flows [])

-- `missProbability` times 100 to the power of the number of signals.
unfoldable pub miss : List ℕ → ℕ
miss [] = 1
miss (w ∷ ws) = (100 - w) * miss ws

unfoldable pub scale : List ℕ → ℕ
scale [] = 1
scale (w ∷ ws) = 100 * scale ws

-- `Math.round` of a fraction that is not negative.
abbrev pub round : (numerator denominator : ℕ) → ℕ
round a b = (2 * a + b) / (2 * b)

-- The weights are at most 100.
unfoldable pub compute_confidence : (weights : List ℕ) → ℕ
unfolding miss scale
compute_confidence [] = 0
compute_confidence (w ∷ ws) = round (100 * (scale (w ∷ ws) - miss (w ∷ ws))) (scale (w ∷ ws))
