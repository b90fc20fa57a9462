-- ===== src/Agent/Vpn/Detector/Reports.antt =====
-- What the VPN detector reports.
use guardtime.Base.{
  ℕ, String, ◌≡◌, ◌≤◌, ◌==◌, refl, ap, string_eq, option_eq, int_eq, Bool, true, false, not, ◌&&◌,
  Option, none, some, List, [], ◌∷◌, ◌++◌, find, All, All-append, All-mem, find-All, ◌∈◌, contains,
  arith, inl, inr, Bool-cases, if◌then◌else◌,
}
use guardtime.Agent.Host.{Host, World}
use guardtime.Agent.Config.{Config}
use guardtime.Agent.Target.{Target}
use guardtime.Agent.Metrics.{Metrics}
use guardtime.Agent.Sniffers.{Python, no_options, capture_dns_queries, capture_fingerprints}
use guardtime.Agent.Cidr.{ip_in_cidr}
use guardtime.Agent.Conntrack.{Flow, Port, show_port, list_udp_connections, list_tcp_connections}
use guardtime.Agent.Vpn.{
  Match, port_match, range_match, pattern_match, signature_is, is_under, normalize_domain,
  match_signature, match_vpn_ip, match_vpn_port, match_vpn_port_detection_only, match_vpn_domain,
  detect_flow_anomaly, compute_confidence,
}
use guardtime.Agent.Patterns.Vpn.{
  PortSignature, IpRange, DnsPattern, vpn_port_signatures, vpn_detection_only_port_signatures,
  vpn_ip_ranges, vpn_dns_patterns,
}
use guardtime.Agent.Vpn.Confidence.{confidence-bounds}
use guardtime.Agent.Vpn.Detector.{
  Detection, detection, with_ip, detected, of_udp_flow, of_tcp_flow, of_domain, of_anomaly,
  of_fingerprint, collect, detections_of, flows_or_none, detect_for_target, rows, confidences, Row,
  report_target, sync,
}

-- A detection's confidence is a percentage.
abbrev IsPercent : Detection → Type 0
IsPercent d = d.confidence ≤ 100

abbrev Weighs : Option Match → Type 0
Weighs none = Unit {0}
Weighs (some m) = m.weight ≤ 100

ports_weigh : All (λ (s : PortSignature). s.weight ≤ 100) vpn_port_signatures
unfolding vpn_port_signatures
ports_weigh = omega arith

low_ports_weigh : All (λ (s : PortSignature). s.weight ≤ 100) vpn_detection_only_port_signatures
unfolding vpn_detection_only_port_signatures
low_ports_weigh = omega arith

ranges_weigh : All (λ (r : IpRange). r.weight ≤ 100) vpn_ip_ranges
unfolding vpn_ip_ranges
ranges_weigh = omega arith

domains_weigh : All (λ (p : DnsPattern). p.weight ≤ 100) vpn_dns_patterns
unfolding vpn_dns_patterns
domains_weigh = omega arith

port_match-Weighs :
    (o : Option PortSignature)
    → ((x : PortSignature) → o ≡ some x → x.weight ≤ 100)
    → Weighs (port_match o)
port_match-Weighs none h = tt
port_match-Weighs (some x) h = h x refl

range_match-Weighs :
    (o : Option IpRange) → ((x : IpRange) → o ≡ some x → x.weight ≤ 100) → Weighs (range_match o)
range_match-Weighs none h = tt
range_match-Weighs (some x) h = h x refl

pattern_match-Weighs :
    (o : Option DnsPattern)
    → ((x : DnsPattern) → o ≡ some x → x.weight ≤ 100)
    → Weighs (pattern_match o)
pattern_match-Weighs none h = tt
pattern_match-Weighs (some x) h = h x refl

signature-Weighs :
    (sigs : List PortSignature) (protocol : String) (port : Port)
    → All (λ (s : PortSignature). s.weight ≤ 100) sigs
    → Weighs (match_signature protocol port sigs)
unfolding match_signature
signature-Weighs sigs protocol port h =
    port_match-Weighs (find (signature_is protocol port) sigs) (λ s e.
      find-All (λ (x : PortSignature). x.weight ≤ 100) (signature_is protocol port) sigs s h e)

if-Weighs : (b : Bool) (o : Option Match) → Weighs o → Weighs (if b then none else o)
if-Weighs true o h = tt
if-Weighs false o h = h

ip-Weighs : (ip : String) → Weighs (match_vpn_ip ip)
unfolding match_vpn_ip
ip-Weighs ip = if-Weighs (ip == "") _ (
    range_match-Weighs (find (λ (r : IpRange). ip_in_cidr ip r.cidr) vpn_ip_ranges)
      (λ r e. find-All (λ (x : IpRange). x.weight ≤ 100) _ vpn_ip_ranges r ranges_weigh e))

domain-Weighs : (domain : String) → Weighs (match_vpn_domain domain)
unfolding match_vpn_domain
domain-Weighs domain =
    let test = λ (p : DnsPattern). is_under (normalize_domain domain) p.suffix in
    if-Weighs (domain == "") _ (
      pattern_match-Weighs (find test vpn_dns_patterns) (λ p e.
        find-All (λ (x : DnsPattern). x.weight ≤ 100) test vpn_dns_patterns p domains_weigh e))

port-Weighs : (protocol : String) (port : Port) → Weighs (match_vpn_port protocol port)
unfolding match_vpn_port
port-Weighs protocol port = signature-Weighs vpn_port_signatures protocol port ports_weigh

low_port-Weighs :
    (protocol : String) (port : Port) → Weighs (match_vpn_port_detection_only protocol port)
unfolding match_vpn_port_detection_only
low_port-Weighs protocol port =
    signature-Weighs vpn_detection_only_port_signatures protocol port low_ports_weigh

detected-IsPercent :
    (method detail : String) (o : Option Match)
    → Weighs o
    → All IsPercent (detected method detail o)
detected-IsPercent method detail none h = tt
detected-IsPercent method detail (some m) h = (h, tt)

udp-IsPercent : (f : Flow) → All IsPercent (of_udp_flow f)
unfolding of_udp_flow
udp-IsPercent f =
    All-append IsPercent _ _ (detected-IsPercent _ _ (match_vpn_ip f.dst) (ip-Weighs f.dst))
      (detected-IsPercent _ _ (match_vpn_port "udp" f.dport) (port-Weighs "udp" f.dport))

tcp-IsPercent : (f : Flow) → All IsPercent (of_tcp_flow f)
unfolding of_tcp_flow
tcp-IsPercent f = go (match_vpn_port "tcp" f.dport) (port-Weighs "tcp" f.dport)
  where
    go :
        (o : Option Match)
        → Weighs o
        → All IsPercent (elim o as (λ _. List Detection) [
          | some m ↦ detected "port-signature" (show_port f.dport) (some m)
          | none ↦
              detected "port-signature-low-confidence"
                (show_port f.dport)
                (match_vpn_port_detection_only "tcp" f.dport)
        ])
    go (some m) h = (h, tt)
    go none h =
        detected-IsPercent _ _ (match_vpn_port_detection_only "tcp" f.dport)
          (low_port-Weighs "tcp" f.dport)

domain-IsPercent : (domain : String) → All IsPercent (of_domain domain)
unfolding of_domain
domain-IsPercent domain = detected-IsPercent _ _ (match_vpn_domain domain) (domain-Weighs domain)

anomaly-IsPercent : (o : Option (Port × ℕ)) → All IsPercent (of_anomaly o)
unfolding of_anomaly
anomaly-IsPercent none = tt
anomaly-IsPercent (some (port, peers)) = omega arith

fingerprint-IsPercent : (c : Config) (hash : String) → All IsPercent (of_fingerprint c hash)
unfolding of_fingerprint
fingerprint-IsPercent c hash = go (contains c.tls_vpn_ja3_hashes hash && not (hash == ""))
  where
    go :
        (b : Bool)
        → All IsPercent
            (if b then detection "tls-ja3-signature" "unknown-vpn-or-proxy" hash 90 ∷ [] else [])
    go true = omega arith
    go false = tt

collect-All :
    {A : Type 0} (f : A → List Detection)
    → ((x : A) → All IsPercent (f x))
    → (xs : List A) → All IsPercent (collect f xs)
collect-All f h [] = tt
collect-All f h (x ∷ xs) = All-append IsPercent (f x) (collect f xs) (h x) (collect-All f h xs)

detections_of-IsPercent :
    (c : Config) (udp tcp : List Flow) (queries hashes : List String)
    → All IsPercent (detections_of c udp tcp queries hashes)
unfolding detections_of
detections_of-IsPercent c udp tcp queries hashes =
    let d1 = collect of_udp_flow udp in
    let d2 = of_anomaly (detect_flow_anomaly udp) in
    let d3 = collect of_tcp_flow tcp in
    let d4 = collect of_domain queries in
    let d5 = collect (of_fingerprint c) hashes in
    All-append IsPercent d1 (d2 ++ (d3 ++ (d4 ++ d5))) (collect-All of_udp_flow udp-IsPercent udp) (
      All-append IsPercent d2 (d3 ++ (d4 ++ d5)) (anomaly-IsPercent (detect_flow_anomaly udp)) (
        All-append IsPercent d3 (d4 ++ d5) (collect-All of_tcp_flow tcp-IsPercent tcp) (
          All-append IsPercent d4 d5 (collect-All of_domain domain-IsPercent queries)
            (collect-All (of_fingerprint c) (fingerprint-IsPercent c) hashes))))

-- A row's confidence is at most that of its device, which is a percentage.
abbrev pub IsWeighed : Row → Type 0
IsWeighed r = (r.detection.confidence ≤ r.overall_confidence) × (r.overall_confidence ≤ 100)

mem-confidences : (d : Detection) (ds : List Detection) → d ∈ ds → d.confidence ∈ confidences ds
mem-confidences d [] m = elim m [ ]
mem-confidences d (x ∷ xs) (inl e) = inl (ap (λ (y : Detection). y.confidence) e)
mem-confidences d (x ∷ xs) (inr m) = inr (mem-confidences d xs m)

rows-All :
    (device_id : String) (overall : ℕ) (ds : List Detection)
    → ((d : Detection) → d ∈ ds → (d.confidence ≤ overall) × (overall ≤ 100))
    → All IsWeighed (rows device_id overall ds)
rows-All device_id overall [] h = tt
rows-All device_id overall (d ∷ ds) h =
    (h d (inl refl), rows-All device_id overall ds (λ x m. h x (inr m)))

module _ {H : Host} (c : Config) (P : Python H) (with_tls : Bool) where
  detect_for_target-IsPercent :
      (ip : String) (w : World H) → All IsPercent (detect_for_target c P with_tls ip w).0
  unfolding detect_for_target
  detect_for_target-IsPercent ip w =
      let (udp, w1) = list_udp_connections c ip w in
      let (tcp, w2) = list_tcp_connections c ip w1 in
      let (queries, w3) = capture_dns_queries c P ip no_options w2 in
      detections_of-IsPercent c (flows_or_none udp) (flows_or_none tcp) queries
        (if with_tls then capture_fingerprints c P ip w3 else ([], w3)).0

  report_target-All :
      (device_id ip : String) (m : Metrics) (w : World H)
      → All IsWeighed (report_target c P with_tls device_id ip (m, w)).0
  unfolding report_target
  report_target-All device_id ip m w =
      let ds = (detect_for_target c P with_tls ip w).0 in
      let percent = detect_for_target-IsPercent ip w in
      rows-All device_id (compute_confidence (confidences ds)) ds (λ d at.
        confidence-bounds (confidences ds) d.confidence (mem-confidences d ds at)
          (All-mem IsPercent d ds percent at))

  with_ip-All :
      (o : Option String) (m : Metrics) (w : World H) (f : String → List Row × Metrics × World H)
      → ((ip : String) → All IsWeighed (f ip).0)
      → All IsWeighed (with_ip o ([], m, w) f).0
  with_ip-All none m w f h = tt
  with_ip-All (some ip) m w f h = elim (Bool-cases (ip == "")) [
    | inl e ↦ rw e tt
    | inr e ↦ rw e (h ip)
  ]

  -- Every row that is reported carries a confidence that is at most the overall confidence of its
  -- device, and the overall confidence is at most 100, whatever the connections, the domains and
  -- the fingerprints.
  pub sync-IsWeighed :
      (ts : List Target) (m : Metrics) (w : World H) → All IsWeighed (sync c P with_tls ts (m, w)).0
  unfolding sync
  sync-IsWeighed [] m w = tt
  sync-IsWeighed (t ∷ ts) m w =
      let here' = λ (ip : String). report_target c P with_tls t.device_id ip (m, w) in
      let (found, m1, w1) = with_ip t.ip_address ([], m, w) here' in
      All-append IsWeighed found (sync c P with_tls ts (m1, w1)).0
        (with_ip-All t.ip_address m w here' (λ ip. report_target-All t.device_id ip m w))
        (sync-IsWeighed ts m1 w1)
