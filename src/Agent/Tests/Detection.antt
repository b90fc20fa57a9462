-- ===== src/Agent/Tests/Detection.antt =====
-- Runs of the discovery and of the VPN detector, and their theorems at concrete data.
use guardtime.Base.{
  ℕ, String, string_eq, nat_eq, int_eq, option_eq, pos, find, ◌*◌, ◌≤◌, ◌<◌, length, contains,
  false, inl, inr, arith, ◌≡◌, refl, ◌↔◌, none, some, List, [], ◌∷◌,
}
use guardtime.Base.Dict
use guardtime.Agent.Discovery.{Device, merge_into}
use guardtime.Agent.Discovery.Laws.{lookup-merge_by_mac}
use guardtime.Agent.Conntrack.{Flow, Port}
use guardtime.Agent.Patterns.Vpn.{vpn_dns_patterns}
use guardtime.Agent.Vpn.{
  compute_confidence, miss, scale, common_ports, detect_flow_anomaly, peers_by_port,
  match_vpn_domain, is_under, normalize_domain,
}
use guardtime.Agent.Vpn.Anomaly.{peers_on, detect_flow_anomaly_sound, detect_flow_anomaly_complete}
use guardtime.Agent.Vpn.Confidence.{confidence-bounds, confidence_saturates}

abbrev entries : List Device
entries =
    record { mac_address = "aa:01"; ip_address = some "192.168.1.5"; ipv6_address = none }
    ∷ record { mac_address = "aa:02"; ip_address = some "192.168.1.6"; ipv6_address = none }
    ∷ record {
      mac_address = "aa:01";
      ip_address = some "192.168.1.9";
      ipv6_address = some "2001:db8::5";
    }
    ∷ []

lookup-merge_by_mac_example :
    Dict.lookup "aa:01" (merge_into [] entries)
    ≡ some (record {
      mac_address = "aa:01";
      ip_address = some "192.168.1.5";
      ipv6_address = some "2001:db8::5";
    })
unfolding string_eq
lookup-merge_by_mac_example = lookup-merge_by_mac "aa:01" entries

confidence-bounds_example :
    (85 ≤ compute_confidence (25 ∷ 85 ∷ [])) × (compute_confidence (25 ∷ 85 ∷ []) ≤ 100)
confidence-bounds_example = confidence-bounds (25 ∷ 85 ∷ []) 85 (inr (inl refl)) (omega arith)

-- Two signals of 25 and 85 give 89, and three strong ones give 100.
corroborated : compute_confidence (25 ∷ 85 ∷ []) ≡ 89
unfolding compute_confidence miss scale
corroborated = refl

three_strong : compute_confidence (85 ∷ 90 ∷ 70 ∷ []) ≡ 100
unfolding compute_confidence miss scale
three_strong = refl

confidence_saturates_example :
    (compute_confidence (85 ∷ 90 ∷ 70 ∷ []) ≡ 100)
    ↔ (200 * miss (85 ∷ 90 ∷ 70 ∷ []) ≤ scale (85 ∷ 90 ∷ 70 ∷ []))
confidence_saturates_example = confidence_saturates 85 (90 ∷ 70 ∷ [])

abbrev port : ℕ → Port
port n = some (pos n)

abbrev flow : String → ℕ → Flow
flow dst n = record { src = "192.168.1.5"; dst = dst; sport = port 40000; dport = port n }

abbrev scattered : List Flow
scattered =
    flow "198.51.100.1" 51820
    ∷ flow "198.51.100.2" 443
    ∷ flow "198.51.100.2" 51820
    ∷ flow "198.51.100.1" 51820
    ∷ flow "198.51.100.3" 51820
    ∷ []

abbrev browsing : List Flow
browsing = flow "198.51.100.1" 443 ∷ flow "198.51.100.2" 443 ∷ flow "198.51.100.3" 443 ∷ []

-- Three peers on a port are an anomaly, unless the port is a common one.
three_peers : detect_flow_anomaly scattered ≡ some (port 51820, 3)
unfolding detect_flow_anomaly peers_by_port nat_eq int_eq option_eq Dict.insert Dict.lookup
    string_eq
three_peers = refl

common_port : detect_flow_anomaly browsing ≡ none
unfolding detect_flow_anomaly peers_by_port nat_eq int_eq option_eq
common_port = refl

detect_flow_anomaly_sound_example :
    (contains common_ports (port 51820) ≡ false)
    × (length (peers_on (port 51820) scattered) ≡ 3)
    × (3 ≤ 3)
detect_flow_anomaly_sound_example = detect_flow_anomaly_sound scattered (port 51820) 3 three_peers

detect_flow_anomaly_complete_example : length (peers_on (port 51820) browsing) < 3
detect_flow_anomaly_complete_example =
    detect_flow_anomaly_complete browsing (port 51820) common_port (ground arith)

below_suffix :
    match_vpn_domain "Us1.NordVPN.com." ≡ some (record { provider = "NordVPN"; weight = 85 })
unfolding match_vpn_domain is_under normalize_domain find vpn_dns_patterns
below_suffix = refl
