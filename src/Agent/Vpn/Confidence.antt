-- ===== src/Agent/Vpn/Confidence.antt =====
-- The bounds of the confidence.
use native.Mathlib.Nat.{add-mul, le-div_iff_mul-le, div-lt_iff_lt-mul, mul-le-mul, mul_left_comm}
use guardtime.Base.{
  ℕ, ◌+◌, ◌-◌, ◌*◌, ◌≤◌, ◌≡◌, ap, sym, subst, ◌∙◌, ◌↔◌, ◌∈◌, inl, inr, List, [], ◌∷◌, arith,
}
use guardtime.Agent.Vpn.{miss, scale, round, compute_confidence}

scale-pos : (ws : List ℕ) → 1 ≤ scale ws
unfolding scale
scale-pos [] = omega arith
scale-pos (w ∷ ws) = omega (arith, scale-pos ws)

miss-le-scale : (ws : List ℕ) → miss ws ≤ scale ws
unfolding miss scale
miss-le-scale [] = omega arith
miss-le-scale (w ∷ ws) = mul-le-mul (omega arith) (miss-le-scale ws)

round-le : (a b : ℕ) → 1 ≤ b → a ≤ 100 * b → round a b ≤ 100
round-le a b h k =
    let below =
      (div-lt_iff_lt-mul {k = 2 * b} {x = 2 * a + b} {y = 101} (omega arith)).1 (omega arith) in
    omega arith

le-round_iff : (n a b : ℕ) → 1 ≤ b → (n ≤ round a b) ↔ (n * (2 * b) ≤ 2 * a + b)
le-round_iff n a b h = le-div_iff_mul-le {k = 2 * b} {x = n} {y = 2 * a + b} (omega arith)

scaled : (ws : List ℕ) → 100 * miss ws ≤ 100 * scale ws
scaled ws = omega (arith, miss-le-scale ws)

-- A signal takes its share off what the others leave.
miss-mem : (ws : List ℕ) (w : ℕ) → w ∈ ws → 100 * miss ws ≤ (100 - w) * scale ws
unfolding miss scale
miss-mem [] w m = elim m [ ]
miss-mem (v ∷ ws) w (inl e) = rw e (
    rw (mul_left_comm 100 (100 - v) (miss ws))
      (mul-le-mul {n₁ = 100 - v} {n₂ = 100 - v} (omega arith) (scaled ws)))
miss-mem (v ∷ ws) w (inr m) =
    rw (mul_left_comm 100 (100 - v) (miss ws), mul_left_comm (100 - w) 100 (scale ws))
      (mul-le-mul {n₁ = 100 - v} {n₂ = 100} (omega arith) (miss-mem ws w m))

abbrev hit : List ℕ → ℕ
unfolding miss scale
hit ws = 100 * (scale ws - miss ws)

split-scale : (w s : ℕ) → w ≤ 100 → (100 - w) * s + w * s ≡ 100 * s
split-scale w s h = sym (add-mul (100 - w) w s) ∙ ap (λ (x : ℕ). x * s) (omega arith)

weight-le-hit :
    (ws : List ℕ) (w : ℕ) → w ∈ ws → w ≤ 100 → w * (2 * scale ws) ≤ 2 * hit ws + scale ws
unfolding miss scale
weight-le-hit ws w m h =
    rw (mul_left_comm w 2 (scale ws))
      (omega (arith, split-scale w (scale ws) h, miss-mem ws w m, miss-le-scale ws))

full-low : (s m : ℕ) → 1 ≤ s → m ≤ s → round (100 * (s - m)) s ≡ 100 → 200 * m ≤ s
full-low s m h k e =
    let lower : 100 * (2 * s) ≤ 2 * (100 * (s - m)) + s =
      (le-round_iff 100 (100 * (s - m)) s h).0 (subst (λ (x : ℕ). 100 ≤ x) (sym e) (omega arith)) in
    omega arith

full-high : (s m : ℕ) → 1 ≤ s → m ≤ s → 200 * m ≤ s → round (100 * (s - m)) s ≡ 100
full-high s m h k l =
    let upper : round (100 * (s - m)) s ≤ 100 = round-le (100 * (s - m)) s h (omega arith) in
    let lower : 100 ≤ round (100 * (s - m)) s =
      (le-round_iff 100 (100 * (s - m)) s h).1 (omega arith) in
    omega arith

full_iff : (s m : ℕ) → 1 ≤ s → m ≤ s → (round (100 * (s - m)) s ≡ 100) ↔ (200 * m ≤ s)
full_iff s m h k = (λ e. full-low s m h k e, λ l. full-high s m h k l)

confidence-le-100 : (ws : List ℕ) → compute_confidence ws ≤ 100
unfolding compute_confidence
confidence-le-100 [] = omega arith
confidence-le-100 (v ∷ vs) =
    round-le (hit (v ∷ vs)) (scale (v ∷ vs)) (scale-pos (v ∷ vs)) (omega arith)

-- The confidence is at least the weight of each signal that is a percentage, and at most 100.
pub confidence-bounds :
    (ws : List ℕ) (w : ℕ)
    → w ∈ ws
    → w ≤ 100
    → (w ≤ compute_confidence ws) × (compute_confidence ws ≤ 100)
unfolding compute_confidence
confidence-bounds [] w m h = elim m [ ]
confidence-bounds (v ∷ vs) w m h =
    let ws = v ∷ vs in
    (
      (le-round_iff w (hit ws) (scale ws) (scale-pos ws)).1 (weight-le-hit ws w m h),
      confidence-le-100 ws,
    )

-- The confidence is 100 exactly where there is a signal and the signals together miss at most one
-- case in two hundred.
pub confidence_saturates :
    (w : ℕ) (ws : List ℕ)
    → (compute_confidence (w ∷ ws) ≡ 100) ↔ (200 * miss (w ∷ ws) ≤ scale (w ∷ ws))
unfolding compute_confidence
confidence_saturates w ws =
    full_iff (scale (w ∷ ws)) (miss (w ∷ ws)) (scale-pos (w ∷ ws)) (miss-le-scale (w ∷ ws))
