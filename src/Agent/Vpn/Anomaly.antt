-- ===== src/Agent/Vpn/Anomaly.antt =====
-- What `detectFlowAnomaly` reports.
use guardtime.Base.{
  int_eq, option_eq, ℕ, String, ◌≤◌, ◌<◌, ◌≡◌, refl, sym, subst, ap, ◌∙◌, ◌==◌, string_eq, nat_eq,
  Bool, true, false, none, some, List, [], ◌∷◌, length, contains, leb, arith, Bool-cases, inl, inr,
  if◌then◌else◌,
}
use guardtime.Base.Dict
use guardtime.Base.Dict.{Dict, lookup-insert}
use guardtime.Agent.Conntrack.{Flow, Port}
use guardtime.Agent.Vpn.{
  common_ports, peers_at, add_peer, peers_by_port, first_busy, detect_flow_anomaly,
}

-- The peers on a port, each once, after those that are known.
abbrev gather : (port : Port) → List Flow → List String → List String
gather port [] known = known
gather port (f ∷ fs) known =
    gather port fs (if port == f.dport then add_peer f.dst known else known)

-- The peers of the flows on a port, each once.
abbrev pub peers_on : (port : Port) → List Flow → List String
peers_on port fs = gather port fs []

abbrev step : (common : Bool) → Flow → Dict Port (List String) → Dict Port (List String)
step common f d = if common then d else Dict.insert f.dport (add_peer f.dst (peers_at f.dport d)) d

peers_at-insert :
    (p q : Port) (ps : List String) (d : Dict Port (List String))
    → peers_at p (Dict.insert q ps d) ≡ (if p == q then ps else peers_at p d)
peers_at-insert p q ps d = ground (arith, lookup-insert p q ps d)

peers_at-step :
    (c : Bool) (p : Port) (f : Flow) (d : Dict Port (List String))
    → ((p ≡ f.dport) → c ≡ false)
    → peers_at p (step c f d)
      ≡ (if p == f.dport then add_peer f.dst (peers_at p d) else peers_at p d)
peers_at-step true p f d h = ground arith
peers_at-step false p f d h =
    peers_at-insert p f.dport (add_peer f.dst (peers_at f.dport d)) d ∙ ground arith

peers_at-common :
    (c : Bool) (p : Port) (f : Flow) (d : Dict Port (List String))
    → ((p ≡ f.dport) → c ≡ true)
    → peers_at p (step c f d) ≡ peers_at p d
peers_at-common true p f d h = refl
peers_at-common false p f d h =
    peers_at-insert p f.dport (add_peer f.dst (peers_at f.dport d)) d ∙ ground arith

common_of :
    (p q : Port) (b : Bool) → contains common_ports p ≡ b → (p ≡ q) → contains common_ports q ≡ b
common_of p q b h e = ap (contains common_ports) (sym e) ∙ h

peers_at-flows :
    (p : Port) (fs : List Flow) (d : Dict Port (List String))
    → contains common_ports p ≡ false
    → peers_at p (peers_by_port fs d) ≡ gather p fs (peers_at p d)
unfolding peers_by_port
peers_at-flows p [] d h = refl
peers_at-flows p (f ∷ fs) d h =
    let c = contains common_ports f.dport in
    peers_at-flows p fs (step c f d) h
    ∙ ap (gather p fs) (peers_at-step c p f d (common_of p f.dport false h))

peers_at-flows_common :
    (p : Port) (fs : List Flow) (d : Dict Port (List String))
    → contains common_ports p ≡ true
    → peers_at p (peers_by_port fs d) ≡ peers_at p d
unfolding peers_by_port
peers_at-flows_common p [] d h = refl
peers_at-flows_common p (f ∷ fs) d h =
    let c = contains common_ports f.dport in
    peers_at-flows_common p fs (step c f d) h ∙ peers_at-common c p f d (common_of p f.dport true h)

-- No port stands twice.
abbrev Apart : Dict Port (List String) → Type 0
Apart [] = Unit
Apart ((p, _) ∷ d) = (Dict.lookup p d ≡ none) × Apart d

Apart-insert :
    (p : Port) (ps : List String) (d : Dict Port (List String))
    → Apart d
    → Apart (Dict.insert p ps d)
unfolding Dict.insert Dict.lookup
Apart-insert p ps [] h = (refl, tt)
Apart-insert p ps ((q, qs) ∷ d) h = elim (Bool-cases (p == q)) [
  | inl same ↦ rw same (ground arith)
  | inr other ↦ rw other (lookup-insert q p ps d ∙ ground arith, Apart-insert p ps d h.1)
]

Apart-step : (c : Bool) (f : Flow) (d : Dict Port (List String)) → Apart d → Apart (step c f d)
Apart-step true f d h = h
Apart-step false f d h = Apart-insert f.dport (add_peer f.dst (peers_at f.dport d)) d h

Apart-flows : (fs : List Flow) (d : Dict Port (List String)) → Apart d → Apart (peers_by_port fs d)
unfolding peers_by_port
Apart-flows [] d h = h
Apart-flows (f ∷ fs) d h =
    let c = contains common_ports f.dport in Apart-flows fs (step c f d) (Apart-step c f d h)

peers_at-cons :
    (p q : Port) (ps : List String) (d : Dict Port (List String))
    → peers_at p ((q, ps) ∷ d) ≡ (if p == q then ps else peers_at p d)
unfolding Dict.lookup
peers_at-cons p q ps d = ground arith

length-none :
    (p q : Port) (d : Dict Port (List String))
    → (p ≡ q)
    → Dict.lookup q d ≡ none
    → length (peers_at p d) ≡ 0
length-none p q d e h = ap (λ (r : Port). length (peers_at r d)) e ∙ ground arith

busy-lookup :
    (d : Dict Port (List String)) (p : Port) (n : ℕ)
    → Apart d
    → first_busy d ≡ some (p, n)
    → (length (peers_at p d) ≡ n) × (3 ≤ n)
unfolding Dict.lookup
busy-lookup [] p n a h = cc h
busy-lookup ((q, qs) ∷ d) p n a h = elim (Bool-cases (leb 3 (length qs))) [
  | inl busy ↦
      let head : ◌≡◌ {A = Port × ℕ} (q, length qs) (p, n) = ground arith in
      let shown = peers_at-cons p q qs d in ground (arith, shown)
  | inr idle ↦
      let later : first_busy d ≡ some (p, n) = ground arith in
      let rest = busy-lookup d p n a.1 later in
      let shown = peers_at-cons p q qs d in
      let absent = λ (e : p ≡ q). length-none p q d e a.0 in ground (arith, shown, absent, rest)
]

idle-lookup :
    (d : Dict Port (List String)) (p : Port) → first_busy d ≡ none → length (peers_at p d) < 3
unfolding Dict.lookup
idle-lookup [] p h = omega arith
idle-lookup ((q, qs) ∷ d) p h =
    let rest = idle-lookup d p (ground arith) in ground (arith, rest, peers_at-cons p q qs d)

-- A reported port is not one of the common ports, the number that is reported is that of the
-- distinct peers of the flows on it, and it is at least 3.
pub detect_flow_anomaly_sound :
    (fs : List Flow) (p : Port) (n : ℕ)
    → detect_flow_anomaly fs ≡ some (p, n)
    → (contains common_ports p ≡ false) × (length (peers_on p fs) ≡ n) × (3 ≤ n)
unfolding detect_flow_anomaly Dict.lookup
detect_flow_anomaly_sound fs p n h =
    let found = busy-lookup (peers_by_port fs []) p n (Apart-flows fs [] tt) h in
    elim (Bool-cases (contains common_ports p)) [
      | inl common ↦
          let absent : length (peers_at p (peers_by_port fs [])) ≡ 0 =
            ap (λ (ps : List String). length ps) (peers_at-flows_common p fs [] common) in
          let positive = found.1 in absurd (omega (arith, absent, found.0, positive))
      | inr other ↦ (
        other,
        ap (λ (ps : List String). length ps) (sym (peers_at-flows p fs [] other)) ∙ found.0,
        found.1,
      )
    ]

-- Where nothing is reported, each port that is not a common one has fewer than 3 distinct peers.
pub detect_flow_anomaly_complete :
    (fs : List Flow) (p : Port)
    → detect_flow_anomaly fs ≡ none
    → contains common_ports p ≡ false
    → length (peers_on p fs) < 3
unfolding detect_flow_anomaly Dict.lookup
detect_flow_anomaly_complete fs p h other =
    subst (λ (ps : List String). length ps < 3) (peers_at-flows p fs [] other)
      (idle-lookup (peers_by_port fs []) p h)
