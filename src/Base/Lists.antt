-- ===== src/Base/Lists.antt =====
-- Lists measured by native numbers, filters by a Boolean test, and predicates by recursion.
use Prim.Native.Nat.{ℕ, suc, ◌+◌, ◌≤◌}
use mathlib.Core.Path.{◌≡◌, refl, sym, subst}
use mathlib.Core.Logic.{◌↔◌, ◌⊎◌, inl, inr}
use mathlib.Core.Bool.{Bool, true, false, cond, ◌||◌}
use mathlib.Core.Option.{Option, none, some, some-injective}
use mathlib.Core.List.{List, [], ◌∷◌, ◌++◌}
use native.Mathlib.Omega.{arith}

module _ {ℓ} {A : Type ℓ} where
  abbrev pub length : List A → ℕ
  length [] = 0
  length (x ∷ xs) = suc (length xs)

  abbrev pub any : (A → Bool) → List A → Bool
  any p [] = false
  any p (x ∷ xs) = p x || any p xs

  -- `xs.filter(p)`
  unfoldable pub filter : (A → Bool) → List A → List A
  filter p [] = []
  filter p (x ∷ xs) = let rest = filter p xs in cond (p x) (x ∷ rest) rest

  -- `xs.find(p)`
  unfoldable pub find : (A → Bool) → List A → Option A
  find p [] = none
  find p (x ∷ xs) = let rest = find p xs in cond (p x) (some x) rest

  pub length-filter-le : (p : A → Bool) (xs : List A) → length (filter p xs) ≤ length xs
  unfolding filter
  length-filter-le p [] = omega arith
  length-filter-le p (x ∷ xs) = ground (arith, length-filter-le p xs)

  pub length-append : (xs ys : List A) → length (xs ++ ys) ≡ length xs + length ys
  length-append [] ys = omega arith
  length-append (x ∷ xs) ys = omega (arith, length-append xs ys)

-- No list element: the type without a value, at every level.
pub data Nowhere {ℓ} : Type ℓ where

module _ {ℓ} {A : Type ℓ} where
  -- `x` stands in the list.
  infix 50 ◌∈◌
  abbrev pub ◌∈◌ : A → List A → Type ℓ
  x ∈ [] = Nowhere
  x ∈ (y ∷ ys) = (x ≡ y) ⊎ (x ∈ ys)

  pub mem-append : (x : A) (xs ys : List A) → (x ∈ (xs ++ ys)) ↔ ((x ∈ xs) ⊎ (x ∈ ys))
  mem-append x [] ys = (inr, λ h. elim h [ inl n ↦ elim n [ ] | inr m ↦ m ])
  mem-append x (y ∷ xs) ys = ground (arith, mem-append x xs ys)

  pub mem-filter :
      (p : A → Bool) (x : A) (xs : List A) → (x ∈ filter p xs) ↔ ((x ∈ xs) × (p x ≡ true))
  unfolding filter
  mem-filter p x [] = (λ h. elim h [ ], λ h. h.0)
  mem-filter p x (y ∷ xs) = ground (arith, mem-filter p x xs)

module _ {ℓ κ} {A : Type ℓ} (P : A → Type κ) where
  abbrev pub All : List A → Type κ
  All [] = Unit
  All (x ∷ xs) = P x × All xs

  pub All-append : (xs ys : List A) → All xs → All ys → All (xs ++ ys)
  All-append [] ys h k = k
  All-append (x ∷ xs) ys h k = (h.0, All-append xs ys h.1 k)

  pub All-mem : (x : A) (xs : List A) → All xs → x ∈ xs → P x
  All-mem x [] h m = elim m [ ]
  All-mem x (y ∷ ys) h (inl e) = subst P (sym e) h.0
  All-mem x (y ∷ ys) h (inr m) = All-mem x ys h.1 m

  pub All-of_mem : (xs : List A) → ((x : A) → x ∈ xs → P x) → All xs
  All-of_mem [] h = tt
  All-of_mem (x ∷ xs) h = (h x (inl refl), All-of_mem xs (λ y m. h y (inr m)))

  -- What is found has what all have.
  pub find-All : (p : A → Bool) (xs : List A) (x : A) → All xs → find p xs ≡ some x → P x
  unfolding find
  find-All p [] x h e = absurd (cc e)
  find-All p (y ∷ ys) x h e = go (p y) e (find-All p ys x h.1)
    where
      go : (b : Bool) → cond b (some y) (find p ys) ≡ some x → (find p ys ≡ some x → P x) → P x
      go true k rest = subst P (some-injective y x k) h.0
      go false k rest = rest k
