-- ===== src/Agent/Vpn/Detector.antt =====
-- gateway-agent/src/vpn-detector.js: `VpnDetector`, and `detectForTarget` of
-- tls-fingerprint-detector.js.
pub mod Reports
use guardtime.Base.{
  ℕ, String, ◌<>◌, ◌==◌, string_eq, Bool, true, false, not, ◌&&◌, Option, none, some, List, [], ◌∷◌,
  ◌++◌, map, contains, show, if◌then◌else◌,
}
use guardtime.Agent.Host.{Host, World, Result, ok, err}
use guardtime.Agent.Config.{Config}
use guardtime.Agent.Target.{Target}
use guardtime.Agent.Metrics.{Metrics, inc}
use guardtime.Agent.Conntrack.{Flow, Port, show_port, list_udp_connections, list_tcp_connections}
use guardtime.Agent.Sniffers.{Python, no_options, capture_dns_queries, capture_fingerprints}
use guardtime.Agent.Vpn.{
  Match, match_vpn_ip, match_vpn_port, match_vpn_port_detection_only, match_vpn_domain,
  detect_flow_anomaly, compute_confidence,
}

-- A detection. Only the one of `detectFlowAnomaly` keeps its `weight` beside the confidence.
pub record Detection : Type 0 where
  pub method : String
  pub provider : String
  pub detail : String
  pub confidence : ℕ
  pub weight : Option ℕ

abbrev pub detection : (method provider detail : String) → (confidence : ℕ) → Detection
detection method provider detail confidence = record {
  method = method;
  provider = provider;
  detail = detail;
  confidence = confidence;
  weight = none;
}

-- `if (match) detections.push(…)`
abbrev pub detected : (method detail : String) → Option Match → List Detection
detected method detail none = []
detected method detail (some m) = detection method m.provider detail m.weight ∷ []

unfoldable pub of_udp_flow : Flow → List Detection
unfolding match_vpn_ip match_vpn_port
of_udp_flow f =
    detected "ip-range" f.dst (match_vpn_ip f.dst)
    ++ detected "port-signature" (show_port f.dport) (match_vpn_port "udp" f.dport)

unfoldable pub of_tcp_flow : Flow → List Detection
unfolding match_vpn_port match_vpn_port_detection_only
of_tcp_flow f = elim (match_vpn_port "tcp" f.dport) [
  | some m ↦ detected "port-signature" (show_port f.dport) (some m)
  | none ↦
      detected "port-signature-low-confidence" (show_port f.dport)
        (match_vpn_port_detection_only "tcp" f.dport)
]

unfoldable pub of_domain : String → List Detection
unfolding match_vpn_domain
of_domain domain = detected "dns-pattern" domain (match_vpn_domain domain)

unfoldable pub of_anomaly : Option (Port × ℕ) → List Detection
unfolding show
of_anomaly none = []
of_anomaly (some (port, peers)) =
    record {
      method = "flow-heuristic";
      provider = "unknown (multi-peer UDP pattern)";
      detail = "port " <> show_port port <> ", " <> show peers <> " distinct peers";
      confidence = 25;
      weight = some 25;
    }
    ∷ []

-- `matchKnownSignature`, and the loop of `detectForTarget`; the detector gives each its confidence.
unfoldable pub of_fingerprint : Config → (hash : String) → List Detection
of_fingerprint c hash =
    if contains c.tls_vpn_ja3_hashes hash && not (hash == "")
    then detection "tls-ja3-signature" "unknown-vpn-or-proxy" hash 90 ∷ []
    else []

abbrev pub collect {ℓ} : {A : Type ℓ} → (A → List Detection) → List A → List Detection
collect f [] = []
collect f (x ∷ xs) = f x ++ collect f xs

abbrev pub flows_or_none : Result (List Flow) → List Flow
flows_or_none (ok flows) = flows
flows_or_none (err _) = []

-- The detections, in the order in which they are pushed.
unfoldable pub detections_of :
    Config → (udp_flows tcp_flows : List Flow) → (queries hashes : List String) → List Detection
unfolding of_udp_flow of_tcp_flow of_domain of_anomaly of_fingerprint detect_flow_anomaly
detections_of c udp_flows tcp_flows queries hashes =
    collect of_udp_flow udp_flows
    ++ (of_anomaly (detect_flow_anomaly udp_flows)
        ++ (collect of_tcp_flow tcp_flows
            ++ (collect of_domain queries ++ collect (of_fingerprint c) hashes)))

-- A detection for a device, with the confidence of all of its detections together.
pub record Row : Type 0 where
  pub device_id : String
  pub detection : Detection
  pub overall_confidence : ℕ

abbrev pub rows : (device_id : String) → (overall : ℕ) → List Detection → List Row
rows device_id overall ds =
    map (λ d. record { device_id = device_id; detection = d; overall_confidence = overall }) ds

unfoldable pub count_each {ℓ} : {A : Type ℓ} → (name : String) → List A → Metrics → Metrics
unfolding inc
count_each name [] m = m
count_each name (d ∷ ds) m = count_each name ds (inc name 1 m)

abbrev pub confidences : List Detection → List ℕ
confidences ds = map (λ (d : Detection). d.confidence) ds

-- `if (!target.ipAddress) continue;`
abbrev pub with_ip {ℓ} : {A : Type ℓ} → Option String → A → (String → A) → A
with_ip none otherwise use_it = otherwise
with_ip (some ip) otherwise use_it = if ip == "" then otherwise else use_it ip

-- `with_tls` says whether the detector was given a fingerprint detector.
module _ {H : Host} (c : Config) (P : Python H) (with_tls : Bool) where
  unfoldable pub detect_for_target : (ip_address : String) → World H → List Detection × World H
  unfolding list_udp_connections list_tcp_connections capture_dns_queries capture_fingerprints
      detections_of
  detect_for_target ip_address w =
      let (udp, w1) = list_udp_connections c ip_address w in
      let udp_flows = flows_or_none udp in
      let (tcp, w2) = list_tcp_connections c ip_address w1 in
      let (queries, w3) = capture_dns_queries c P ip_address no_options w2 in
      let (hashes, w4) = if with_tls then capture_fingerprints c P ip_address w3 else ([], w3) in
      (detections_of c udp_flows (flows_or_none tcp) queries hashes, w4)

  -- The body of the loop of `sync`, for a target that has an address.
  unfoldable pub report_target :
      (device_id ip_address : String) → Metrics × World H → List Row × Metrics × World H
  unfolding detect_for_target count_each compute_confidence
  report_target device_id ip_address (m, w) =
      let (ds, w1) = detect_for_target ip_address w in
      (
        rows device_id (compute_confidence (confidences ds)) ds,
        count_each "vpnDetector.detections" ds m,
        w1,
      )

  unfoldable pub sync : List Target → Metrics × World H → List Row × Metrics × World H
  unfolding report_target
  sync [] (m, w) = ([], m, w)
  sync (t ∷ ts) (m, w) =
      let (found, m1, w1) =
        with_ip t.ip_address ([], m, w) (λ ip. report_target t.device_id ip (m, w)) in
      let (rest, m2, w2) = sync ts (m1, w1) in (found ++ rest, m2, w2)
