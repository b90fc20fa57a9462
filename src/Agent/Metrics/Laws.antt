-- ===== src/Agent/Metrics/Laws.antt =====
-- The counters and the totals over sequences of counts and reports.
use guardtime.Base.{
  ℕ, ◌+◌, ◌≤◌, String, ◌≡◌, refl, List, [], ◌∷◌, ◌==◌, string_eq, if◌then◌else◌, arith,
}
use guardtime.Base.Dict
use guardtime.Base.Dict.{Dict, lookup-insert}
use guardtime.Agent.Metrics.{Metrics, count, add_to, inc, flush, new_metrics}

-- What the agent does with its counters.
pub data Event : Type 0 where
  counted : (name : String) → (by : ℕ) → Event
  flushed : Event

-- The metrics after the events, and the sum of what the flushes returned for a name.
abbrev pub replay : (name : String) → List Event → Metrics × ℕ → Metrics × ℕ
replay name [] s = s
replay name (counted n by ∷ es) (m, reported) = replay name es (inc n by m, reported)
replay name (flushed ∷ es) (m, reported) =
    let (snapshot, m') = flush m in replay name es (m', reported + count name snapshot)

count-add_to :
    (name n : String) (by : ℕ) (d : Dict String ℕ)
    → count name (add_to n by d) ≡ (if name == n then count name d + by else count name d)
unfolding count add_to
count-add_to name n by d = ground (arith, lookup-insert name n (count n d + by) d)

-- The total of a name, less what it was, is what was reported since and what is not reported yet.
Balanced : (name : String) → ℕ → Metrics × ℕ → Type 0
Balanced name base (m, reported) = count name m.totals ≡ base + (reported + count name m.counters)

replay-Balanced :
    (name : String) (base : ℕ) (es : List Event) (s : Metrics × ℕ)
    → Balanced name base s
    → Balanced name base (replay name es s)
unfolding Balanced inc flush count Dict.lookup
replay-Balanced name base [] s h = h
replay-Balanced name base (counted n by ∷ es) (m, reported) h =
    replay-Balanced name base es (inc n by m, reported)
      (ground (arith, count-add_to name n by m.counters, count-add_to name n by m.totals))
replay-Balanced name base (flushed ∷ es) (m, reported) h =
    replay-Balanced name base es _ (ground arith)

-- From an agent that has just started, after any sequence of counts and flushes, the total of a
-- name is the sum of what the flushes have returned for it and of what the next flush returns: no
-- count is lost and none is reported twice.
pub total_reported :
    (name : String) (es : List Event)
    → (let (m, reported) = replay name es (new_metrics, 0) in
        count name m.totals ≡ reported + count name (flush m).0)
unfolding flush Balanced count Dict.lookup
total_reported name es = ground (arith, replay-Balanced name 0 es (new_metrics, 0) refl)

inc-monotone :
    (name n : String) (by : ℕ) (m : Metrics) → count name m.totals ≤ count name (inc n by m).totals
unfolding inc
inc-monotone name n by m = ground (arith, count-add_to name n by m.totals)

-- The total of a name never decreases.
pub replay-monotone :
    (name : String) (es : List Event) (m : Metrics) (reported : ℕ)
    → count name m.totals ≤ count name (replay name es (m, reported)).0.totals
unfolding flush
replay-monotone name [] m reported = ground arith
replay-monotone name (counted n by ∷ es) m reported =
    ground (arith, inc-monotone name n by m, replay-monotone name es (inc n by m) reported)
replay-monotone name (flushed ∷ es) m reported = replay-monotone name es _ _
