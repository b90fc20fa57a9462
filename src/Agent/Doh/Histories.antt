-- ===== src/Agent/Doh/Histories.antt =====
-- The histories that the DoH detector keeps.
use guardtime.Base.{
  ℕ, ◌≤◌, ◌≢◌, String, ◌==◌, string_eq, Bool, not, ◌||◌, Option, none, some, List, [], ◌∷◌, ◌++◌,
  length, contains, arith, inl, inr, Bool-cases,
}
use guardtime.Base.Dict
use guardtime.Base.Dict.{Dict, lookup-insert}
use guardtime.Agent.Host.{Host}
use guardtime.Agent.Config.{Config}
use guardtime.Agent.Target.{Target}
use guardtime.Agent.Sniffers.{Python}
use guardtime.Agent.Conntrack.{Flow, list_tcp_connections}
use guardtime.Agent.Vpn.{match_doh_ip}
use guardtime.Agent.Vpn.Detector.{Detection, with_ip, flows_or_none}
use guardtime.Agent.Doh.{
  Observations, observation_key, is_dot, is_https, behavior_step, matched_ip, matched_behavior,
  detect_behavioral_interval, history, trim_history, record_observation, Scan, scan_flow,
  scan_flows, scan_behavior, DohState, DohRow, detect_for_target, report_target, sync,
}

length-trim_history : (ts : List ℕ) → length (trim_history ts) ≤ 8
unfolding trim_history
length-trim_history [] = omega arith
length-trim_history (t ∷ ts) = ground (arith, length-trim_history ts)

-- No history has more than 8 times.
abbrev pub IsBounded : Observations → Type 0
IsBounded obs = (key : String) → length (history key obs) ≤ 8

record_observation-IsBounded :
    (now : ℕ) (device_id dst : String) (obs : Observations)
    → IsBounded obs
    → IsBounded (record_observation now device_id dst obs)
unfolding record_observation
record_observation-IsBounded now device_id dst obs h key =
    let k = observation_key device_id dst in
    let times = trim_history (history k obs ++ now ∷ []) in
    ground
      (arith, lookup-insert key k times obs, h key, length-trim_history (history k obs ++ now ∷ []))

-- A history that there is.
abbrev pub IsKnown : String → Observations → Type 0
IsKnown key obs = Dict.lookup key obs ≢ none

record_observation-IsKnown :
    (now : ℕ) (device_id dst key : String) (obs : Observations)
    → IsKnown key obs
    → IsKnown key (record_observation now device_id dst obs)
unfolding record_observation
record_observation-IsKnown now device_id dst key obs h =
    let k = observation_key device_id dst in
    ground (arith, lookup-insert key k (trim_history (history k obs ++ now ∷ [])) obs)

-- What a property of the observations needs, to hold through the cycles.
module _ (Q : Observations → Type 0)
    (recorded : (now : ℕ) (device_id dst : String) (obs : Observations)
      → Q obs
      → Q (record_observation now device_id dst obs)) where
  matched_ip-keeps :
      (dst : String) (o : Option String) (s : Scan)
      → Q s.observations
      → Q (matched_ip dst o s).observations
  matched_ip-keeps dst none s h = h
  matched_ip-keeps dst (some p) s h = h

  matched_behavior-keeps :
      (dst : String) (o : Option Detection) (s : Scan)
      → Q s.observations
      → Q (matched_behavior dst o s).observations
  matched_behavior-keeps dst none s h = h
  matched_behavior-keeps dst (some d) s h = h

  scan_flow-keeps :
      (c : Config) (now : ℕ) (device_id : String) (f : Flow) (s : Scan)
      → Q s.observations
      → Q (scan_flow c now device_id f s).observations
  unfolding scan_flow
  scan_flow-keeps c now device_id f s h = elim (Bool-cases (is_dot f.dport)) [
    | inl dot ↦ rw dot h
    | inr other ↦ rw other (elim (Bool-cases (is_https f.dport)) [
      | inl https ↦ rw https (
          matched_ip-keeps f.dst (match_doh_ip f.dst c.doh_reputation_ips)
            (record s { observations = record_observation now device_id f.dst s.observations })
            (recorded now device_id f.dst s.observations h))
      | inr no_https ↦ rw no_https h
    ])
  ]

  scan_flows-keeps :
      (c : Config) (now : ℕ) (device_id : String) (fs : List Flow) (s : Scan)
      → Q s.observations
      → Q (scan_flows c now device_id fs s).observations
  unfolding scan_flows
  scan_flows-keeps c now device_id [] s h = h
  scan_flows-keeps c now device_id (f ∷ fs) s h =
      scan_flows-keeps c now device_id fs (scan_flow c now device_id f s)
        (scan_flow-keeps c now device_id f s h)

  behavior_step-keeps :
      (device_id : String) (f : Flow) (s : Scan)
      → Q s.observations
      → Q (behavior_step device_id f s).observations
  unfolding behavior_step
  behavior_step-keeps device_id f s h =
      elim (Bool-cases (not (is_https f.dport) || contains s.matched f.dst)) [
        | inl skip ↦ rw skip h
        | inr look ↦ rw look (
            matched_behavior-keeps f.dst (detect_behavioral_interval device_id f.dst s.observations)
              s h)
      ]

  scan_behavior-keeps :
      (device_id : String) (fs : List Flow) (s : Scan)
      → Q s.observations
      → Q (scan_behavior device_id fs s).observations
  unfolding scan_behavior
  scan_behavior-keeps device_id [] s h = h
  scan_behavior-keeps device_id (f ∷ fs) s h =
      scan_behavior-keeps device_id fs (behavior_step device_id f s)
        (behavior_step-keeps device_id f s h)

  module _ {H : Host} (c : Config) (P : Python H) (with_sniff : Bool) where
    detect_for_target-keeps :
        (device_id ip : String) (s : DohState H)
        → Q s.observations
        → Q (detect_for_target c P with_sniff device_id ip s).1.observations
    unfolding detect_for_target
    detect_for_target-keeps device_id ip s h =
        let (listed, w1) = list_tcp_connections c ip s.world in
        let flows = flows_or_none listed in
        let start : Scan = record {
          detections = [];
          matched = [];
          observations = s.observations;
        } in
        let now = H.now w1.state in
        scan_behavior-keeps device_id flows (scan_flows c now device_id flows start)
          (scan_flows-keeps c now device_id flows start h)

    report_target-keeps :
        (device_id ip : String) (s : DohState H)
        → Q s.observations
        → Q (report_target c P with_sniff device_id ip s).1.observations
    unfolding report_target
    report_target-keeps device_id ip s h = detect_for_target-keeps device_id ip s h

    with_ip-keeps :
        (o : Option String) (s : DohState H) (f : String → List DohRow × DohState H)
        → Q s.observations
        → ((ip : String) → Q (f ip).1.observations)
        → Q (with_ip o ([], s) f).1.observations
    with_ip-keeps none s f h k = h
    with_ip-keeps (some ip) s f h k = elim (Bool-cases (ip == "")) [
      | inl e ↦ rw e h
      | inr e ↦ rw e (k ip)
    ]

    sync-keeps :
        (ts : List Target) (s : DohState H)
        → Q s.observations
        → Q (sync c P with_sniff ts s).1.observations
    unfolding sync
    sync-keeps [] s h = h
    sync-keeps (t ∷ ts) s h =
        let one = λ (ip : String). report_target c P with_sniff t.device_id ip s in
        let (found, s1) = with_ip t.ip_address ([], s) one in
        sync-keeps ts s1
          (with_ip-keeps t.ip_address s one h (λ ip. report_target-keeps t.device_id ip s h))

module _ {H : Host} (c : Config) (P : Python H) (with_sniff : Bool) where
  -- A cycle keeps each history at 8 times or fewer.
  pub sync-IsBounded :
      (ts : List Target) (s : DohState H)
      → IsBounded s.observations
      → IsBounded (sync c P with_sniff ts s).1.observations
  sync-IsBounded ts s h = sync-keeps IsBounded record_observation-IsBounded c P with_sniff ts s h

  -- A history that is known stays known through every cycle, whichever targets the cycle has: the
  -- detector forgets no pair of a device and a destination.
  pub sync-IsKnown :
      (key : String) (ts : List Target) (s : DohState H)
      → IsKnown key s.observations
      → IsKnown key (sync c P with_sniff ts s).1.observations
  sync-IsKnown key ts s h =
      sync-keeps (IsKnown key)
        (λ now device_id dst obs k. record_observation-IsKnown now device_id dst key obs k) c P
        with_sniff ts s h
