-- ===== src/Agent/Retry.antt =====
-- gateway-agent/src/retry.js: `retry`, over any state that the attempts, the callback and the
-- pauses change.
use guardtime.Base.{
  ℕ, Bool, true, false, suc, zero, ◌+◌, ◌-◌, subst, ◌⊎◌, ◌*◌, ◌<◌, ◌≤◌, String, ◌≡◌, refl, inl, inr,
  arith, if◌then◌else◌, ltb,
}
use guardtime.Base.Result.{Result, ok, err}

module _ {S A : Type 0} (fn : S → Result A × S)
    (on_retry : (message : String) (attempt : ℕ) → S → S) (sleep : (ms : ℕ) → S → S)
    (attempts delay_ms : ℕ) where
  -- The loop from an attempt on, of which `left` are left.
  unfoldable pub attempt_loop : (left attempt : ℕ) → (last : String) → S → Result A × S
  attempt_loop zero attempt last s = (err last, s)
  attempt_loop (suc left) attempt last s =
      let (r, s1) = fn s in
      elim r [
        | ok a ↦ (ok a, s1)
        | err e ↦ attempt_loop left (suc attempt) e (
            if ltb attempt attempts then sleep (delay_ms * attempt) (on_retry e attempt s1) else s1)
      ]

  -- With no attempts at all the last error is undefined; it is the empty string here.
  unfoldable pub retry : S → Result A × S
  unfolding attempt_loop
  retry = attempt_loop attempts 1 ""

  -- The runs that the loop is meant to have, from an attempt on.
  pub data Attempts (x : Result A × S) : (attempt : ℕ) → S → Type 0 where
    succeeded :
        {attempt : ℕ} {s : S} (a : A) (s1 : S)
        → fn s ≡ (ok a, s1)
        → x ≡ (ok a, s1)
        → Attempts x attempt s
    gave_up :
        {attempt : ℕ} {s : S} (e : String) (s1 : S)
        → fn s ≡ (err e, s1)
        → attempt ≡ attempts
        → x ≡ (err e, s1)
        → Attempts x attempt s
    again :
        {attempt : ℕ} {s : S} (e : String) (s1 : S)
        → fn s ≡ (err e, s1)
        → attempt < attempts
        → Attempts x (suc attempt) (sleep (delay_ms * attempt) (on_retry e attempt s1))
        → Attempts x attempt s

  pub Result-cases :
      (s : S)
      → ((a : A) × (s1 : S) × (fn s ≡ (ok a, s1)))
        ⊎ ((e : String) × (s1 : S) × (fn s ≡ (err e, s1)))
  Result-cases s = go (fn s)
    where
      go :
          (x : Result A × S)
          → ((a : A) × (s1 : S) × (x ≡ (ok a, s1))) ⊎ ((e : String) × (s1 : S) × (x ≡ (err e, s1)))
      go (ok a, s1) = inl (a, s1, refl)
      go (err e, s1) = inr (e, s1, refl)

  attempt_loop-failed :
      (left attempt : ℕ) (last : String) (s : S) (m : String) (s1 : S)
      → fn s ≡ (err m, s1)
      → attempt < attempts
      → attempt_loop left (suc attempt) m (sleep (delay_ms * attempt) (on_retry m attempt s1))
        ≡ attempt_loop (suc left) attempt last s
  unfolding attempt_loop
  attempt_loop-failed left attempt last s m s1 e h = ground arith

  attempt_loop-Attempts :
      (left attempt : ℕ) (last : String) (s : S)
      → attempt + left ≡ attempts
      → Attempts (attempt_loop (suc left) attempt last s) attempt s
  unfolding attempt_loop
  attempt_loop-Attempts zero attempt last s h = elim (Result-cases s) [
    | inl (a, s1, e) ↦ succeeded a s1 e (ground arith)
    | inr (m, s1, e) ↦ gave_up m s1 e (omega arith) (ground arith)
  ]
  attempt_loop-Attempts (suc left) attempt last s h = elim (Result-cases s) [
    | inl (a, s1, e) ↦ succeeded a s1 e (ground arith)
    | inr (m, s1, e) ↦ again m s1 e (omega arith) (
        subst (λ x. Attempts x (suc attempt) (sleep (delay_ms * attempt) (on_retry m attempt s1)))
          (attempt_loop-failed (suc left) attempt last s m s1 e (omega arith))
          (attempt_loop-Attempts left (suc attempt) m
            (sleep (delay_ms * attempt) (on_retry m attempt s1)) (omega arith)))
  ]

  -- With at least one attempt, `retry` makes its first attempt at once, stops at the first attempt
  -- that succeeds, pauses for a time that grows with the attempt's number after each failure but
  -- the last, and throws the error of the last attempt if all have failed.
  pub retry-Attempts : 1 ≤ attempts → (s : S) → Attempts (retry s) 1 s
  unfolding retry
  retry-Attempts h s =
      let same : suc (attempts - 1) ≡ attempts = omega arith in
      subst (λ n. Attempts (attempt_loop n 1 "" s) 1 s) same
        (attempt_loop-Attempts (attempts - 1) 1 "" s (omega arith))

  -- What every attempt, callback and pause keeps, `retry` keeps.
  attempt_loop-keeps :
      (P : S → Type 0)
      → ((s : S) → P s → P (fn s).1)
      → ((e : String) (i : ℕ) (s : S) → P s → P (on_retry e i s))
      → ((ms : ℕ) (s : S) → P s → P (sleep ms s))
      → (left attempt : ℕ) (last : String) (s : S) → P s
      → P (attempt_loop left attempt last s).1
  unfolding attempt_loop
  attempt_loop-keeps P f g h zero attempt last s p = p
  attempt_loop-keeps P f g h (suc left) attempt last s p =
      go (fn s) (f s p) (λ e s1 q. attempt_loop-keeps P f g h left (suc attempt) e s1 q)
    where
      paused :
          (e : String) (s1 : S) (b : Bool)
          → P s1
          → P (if b then sleep (delay_ms * attempt) (on_retry e attempt s1) else s1)
      paused e s1 true q = h (delay_ms * attempt) (on_retry e attempt s1) (g e attempt s1 q)
      paused e s1 false q = q

      go :
          (x : Result A × S)
          → P x.1
          → ((e : String) (s1 : S) → P s1 → P (attempt_loop left (suc attempt) e s1).1)
          → P (
              (let (r, s1) = x in
                let y : Result A × S = elim r [
                  | ok a ↦ (ok a, s1)
                  | err e ↦ attempt_loop left (suc attempt) e (
                      if ltb attempt attempts
                      then sleep (delay_ms * attempt) (on_retry e attempt s1)
                      else s1)
                ] in
                y).1)
      go (ok a, s1) q rest = q
      go (err e, s1) q rest = rest e _ (paused e s1 (ltb attempt attempts) q)

  pub retry-keeps :
      (P : S → Type 0)
      → ((s : S) → P s → P (fn s).1)
      → ((e : String) (i : ℕ) (s : S) → P s → P (on_retry e i s))
      → ((ms : ℕ) (s : S) → P s → P (sleep ms s))
      → (s : S) → P s
      → P (retry s).1
  unfolding retry
  retry-keeps P f g h s p = attempt_loop-keeps P f g h attempts 1 "" s p

  attempt_loop-ok :
      (left attempt : ℕ) (last : String) (s : S) (a : A) (s1 : S)
      → fn s ≡ (ok a, s1)
      → attempt_loop (suc left) attempt last s ≡ (ok a, s1)
  unfolding attempt_loop
  attempt_loop-ok left attempt last s a s1 e = ground arith

  -- An attempt that succeeds is the only one.
  pub retry-ok : (s : S) (a : A) (s1 : S) → 1 ≤ attempts → fn s ≡ (ok a, s1) → retry s ≡ (ok a, s1)
  unfolding retry
  retry-ok s a s1 h e =
      let same : suc (attempts - 1) ≡ attempts = omega arith in
      subst (λ n. attempt_loop n 1 "" s ≡ (ok a, s1)) same
        (attempt_loop-ok (attempts - 1) 1 "" s a s1 e)
