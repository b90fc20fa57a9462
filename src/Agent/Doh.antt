-- ===== src/Agent/Doh.antt =====
-- gateway-agent/src/doh-detector.js: `DohDetector`. The mean and the variation of the intervals are
-- compared exactly, where the source computes with floating-point numbers.
pub mod Histories
use guardtime.Base.{
  ℕ, zero, suc, ◌+◌, ◌-◌, ◌*◌, ◌/◌, ℤ, pos, int_eq, option_eq, nat_eq, String, ◌<>◌, ◌==◌,
  string_eq, Bool, true, false, not, ◌&&◌, ◌||◌, Option, none, some, List, [], ◌∷◌, ◌++◌, map,
  length, contains, ltb, leb, show, if◌then◌else◌,
}
use guardtime.Base.Dict
use guardtime.Base.Dict.{Dict}
use guardtime.Agent.Host.{Host, World, Result, ok, err}
use guardtime.Agent.Config.{Config}
use guardtime.Agent.Target.{Target}
use guardtime.Agent.Metrics.{Metrics, inc}
use guardtime.Agent.Patterns.Doh.{dot_ports}
use guardtime.Agent.Conntrack.{Flow, Port, show_port, list_tcp_connections}
use guardtime.Agent.Sniffers.{Python, SniffOptions, capture_dns_queries}
use guardtime.Agent.Vpn.{match_doh_ip, match_doh_sni}
use guardtime.Agent.Vpn.Detector.{Detection, detection, flows_or_none, with_ip, count_each}

-- `_observations`: the times at which a device was seen with a destination, the oldest first.
abbrev pub Observations : Type 0
Observations = Dict String (List ℕ)

abbrev pub observation_key : (device_id dst : String) → String
observation_key device_id dst = device_id <> "|" <> dst

abbrev pub history : String → Observations → List ℕ
history key obs = elim (Dict.lookup key obs) [ none ↦ [] | some times ↦ times ]

-- The loop that shifts until at most 8 are left.
unfoldable pub trim_history : List ℕ → List ℕ
trim_history [] = []
trim_history (t ∷ ts) =
    let rest = trim_history ts in if ltb 8 (length (t ∷ ts)) then rest else t ∷ ts

unfoldable pub record_observation :
    (now : ℕ) → (device_id dst : String) → Observations → Observations
unfolding trim_history
record_observation now device_id dst obs =
    let key = observation_key device_id dst in
    Dict.insert key (trim_history (history key obs ++ now ∷ [])) obs

abbrev last_or : ℕ → List ℕ → ℕ
last_or t [] = t
last_or t (u ∷ us) = last_or u us

-- The distance of two numbers.
abbrev apart : ℕ → ℕ → ℕ
apart a b = if ltb a b then b - a else a - b

-- The sum of `(n * interval - total) ^ 2`, where `total` is `last - first`.
unfoldable pub spread : (n first last : ℕ) → List ℕ → ℕ
spread n first last [] = 0
spread n first last (t ∷ []) = 0
spread n first last (t ∷ u ∷ us) =
    let d = apart (n * u + first) (n * t + last) in d * d + spread n first last (u ∷ us)

-- Whether the times of a history are at regular intervals: `n` intervals of mean `total / n`, of at
-- least 2 and at most 120 seconds, and a coefficient of variation of at most 0.2.
unfoldable pub is_regular : (first : ℕ) → (later : List ℕ) → Bool
unfolding spread
is_regular first later =
    let n = length later in
    let last = last_or first later in
    let total = last - first in
    leb (first + 2000 * n) last
    && (leb last (first + 120000 * n)
        && leb (25 * spread n first last (first ∷ later)) (n * (total * total)))

-- `Math.round(mean / 1000)`
abbrev mean_seconds : (first : ℕ) → (later : List ℕ) → ℕ
mean_seconds first later =
    (2 * (last_or first later - first) + 1000 * length later) / (2000 * length later)

unfoldable pub behavioral : (dst : String) → List ℕ → Option Detection
unfolding is_regular show
behavioral dst [] = none
behavioral dst (first ∷ later) =
    if ltb (length later) 3 || not (is_regular first later)
    then none
    else some (
        detection "behavioral-interval" "unknown (regular-interval TLS/443)"
          ("dst " <> dst <> ", ~" <> show (mean_seconds first later) <> "s interval") 20)

unfoldable pub detect_behavioral_interval :
    (device_id dst : String) → Observations → Option Detection
unfolding behavioral
detect_behavioral_interval device_id dst obs =
    behavioral dst (history (observation_key device_id dst) obs)

abbrev pub is_dot : Port → Bool
is_dot port = contains (map (λ (p : ℕ). some (pos p)) dot_ports) port

abbrev pub is_https : Port → Bool
is_https port = port == some (pos 443)

-- What the first loop builds: the detections, the destinations that are matched, the observations.
pub record Scan : Type 0 where
  pub detections : List Detection
  pub matched : List String
  pub observations : Observations

abbrev push : Detection → Scan → Scan
push d s = record s { detections = s.detections ++ d ∷ [] }

abbrev mark : String → Scan → Scan
mark dst s = record s { matched = s.matched ++ dst ∷ [] }

abbrev pub matched_ip : (dst : String) → (provider : Option String) → Scan → Scan
matched_ip dst none s = s
matched_ip dst (some provider) s = mark dst (push (detection "conntrack-doh-ip" provider dst 90) s)

abbrev pub matched_behavior : (dst : String) → Option Detection → Scan → Scan
matched_behavior dst none s = s
matched_behavior dst (some d) s = mark dst (push d s)

-- The body of the first loop.
unfoldable pub scan_flow : Config → (now : ℕ) → (device_id : String) → Flow → Scan → Scan
unfolding record_observation match_doh_ip
scan_flow c now device_id f s =
    if is_dot f.dport
    then push (detection "conntrack-port-853" "DoT" (show_port f.dport) 95) s
    else if not (is_https f.dport)
    then s
    else let s1 : Scan = record s {
      observations = record_observation now device_id f.dst s.observations;
    } in
      matched_ip f.dst (match_doh_ip f.dst c.doh_reputation_ips) s1

unfoldable pub scan_flows : Config → (now : ℕ) → (device_id : String) → List Flow → Scan → Scan
unfolding scan_flow
scan_flows c now device_id [] s = s
scan_flows c now device_id (f ∷ fs) s =
    scan_flows c now device_id fs (scan_flow c now device_id f s)

-- The second loop, and its body.
unfoldable pub behavior_step : (device_id : String) → Flow → Scan → Scan
unfolding detect_behavioral_interval
behavior_step device_id f s =
    if not (is_https f.dport) || contains s.matched f.dst
    then s
    else matched_behavior f.dst (detect_behavioral_interval device_id f.dst s.observations) s

unfoldable pub scan_behavior : (device_id : String) → List Flow → Scan → Scan
unfolding behavior_step
scan_behavior device_id [] s = s
scan_behavior device_id (f ∷ fs) s = scan_behavior device_id fs (behavior_step device_id f s)

unfoldable pub of_query : Config → (domain : String) → List Detection
unfolding match_doh_sni
of_query c domain = elim (match_doh_sni domain c.doh_reputation_domains) [
  | none ↦ []
  | some provider ↦ detection "dns-sni-pattern" provider domain 80 ∷ []
]

abbrev of_queries : Config → List String → List Detection
unfolding of_query
of_queries c [] = []
of_queries c (q ∷ qs) = of_query c q ++ of_queries c qs

-- A detection for a device.
pub record DohRow : Type 0 where
  pub device_id : String
  pub detection : Detection

-- The detector's observations, the metrics and the machine.
pub record DohState (H : Host) : Type 0 where
  pub observations : Observations
  pub metrics : Metrics
  pub world : World H

-- `with_sniff` says whether the detector was given a DNS sniffer.
module _ {H : Host} (c : Config) (P : Python H) (with_sniff : Bool) where
  unfoldable pub detect_for_target :
      (device_id ip_address : String) → DohState H → List Detection × DohState H
  unfolding list_tcp_connections scan_flows scan_behavior capture_dns_queries of_query
  detect_for_target device_id ip_address s =
      let (listed, w1) = list_tcp_connections c ip_address s.world in
      let flows = flows_or_none listed in
      let scan = scan_behavior device_id flows (
        scan_flows c (H.now w1.state) device_id flows
          (record { detections = []; matched = []; observations = s.observations })) in
      let options : SniffOptions = record {
        enabled = some c.enable_doh_dns_sniff;
        sniff_ms = some c.doh_dns_sniff_ms;
      } in
      let (queries, w2) =
        if with_sniff then capture_dns_queries c P ip_address options w1 else ([], w1) in
      (
        scan.detections ++ of_queries c queries,
        record s { observations = scan.observations; world = w2 },
      )

  unfoldable pub report_target :
      (device_id ip_address : String) → DohState H → List DohRow × DohState H
  unfolding detect_for_target count_each
  report_target device_id ip_address s =
      let (ds, s1) = detect_for_target device_id ip_address s in
      (
        map (λ d. record { device_id = device_id; detection = d }) ds,
        record s1 { metrics = count_each "dohDetector.detections" ds s1.metrics },
      )

  unfoldable pub sync : List Target → DohState H → List DohRow × DohState H
  unfolding report_target
  sync [] s = ([], s)
  sync (t ∷ ts) s =
      let (found, s1) = with_ip t.ip_address ([], s) (λ ip. report_target t.device_id ip s) in
      let (rest, s2) = sync ts s1 in (found ++ rest, s2)
