-- ===== src/Base/Bits.antt =====
-- `&` with a mask of high bits, as a quotient.
use Prim.Native.Nat.{
  ℕ, zero, suc, ◌+◌, ◌-◌, ◌*◌, ◌/◌, ◌%◌, ◌^◌, ◌≤◌, ◌<◌, min, bit_and, digits, bit_and-bitwise,
}
use mathlib.Core.Path.{◌≡◌, refl, sym, ap, ◌∙◌}
use native.Mathlib.Nat.{mul-add, one-le-pow, div-lt_iff_lt-mul, two-pow-succ, div-div-eq-div-mul}
use native.Mathlib.Omega.{arith}

-- The digits of `a & b`, with fuel.
abbrev lower : ℕ → ℕ → ℕ → ℕ
lower fuel a b = digits (λ _. zero) min fuel a b

lower-zero : (f b : ℕ) → lower f 0 b ≡ 0
lower-zero zero b = refl
lower-zero (suc f) b = refl

-- Any two amounts of fuel from the number on give the same.
lower_fuel : (f g a b : ℕ) → a ≤ f → a ≤ g → lower f a b ≡ lower g a b
lower_fuel f g zero b p q = lower-zero f b ∙ sym (lower-zero g b)
lower_fuel zero g (suc a) b p q = absurd (omega arith)
lower_fuel (suc f) zero (suc a) b p q = absurd (omega arith)
lower_fuel (suc f) (suc g) (suc a) b p q =
    let halves = lower_fuel f g (suc a / 2) (b / 2) (omega arith) (omega arith) in
    ap (λ (n : ℕ). n * 2 + min (suc a % 2) (b % 2)) halves

bit_and-lower : (f a b : ℕ) → a ≤ f → bit_and a b ≡ lower f a b
bit_and-lower f a b h = (λ i. bit_and-bitwise a b i) ∙ lower_fuel a f a b (omega arith) h

zero-bit_and : (b : ℕ) → bit_and 0 b ≡ 0
zero-bit_and b = bit_and-lower 0 0 b (omega arith)

pub bit_and-halves : (a b : ℕ) → bit_and a b ≡ 2 * bit_and (a / 2) (b / 2) + min (a % 2) (b % 2)
bit_and-halves zero b = omega (arith, zero-bit_and b, zero-bit_and (b / 2))
bit_and-halves (suc a) b =
    let whole = bit_and-lower (suc a) (suc a) b (omega arith) in
    let half = bit_and-lower a (suc a / 2) (b / 2) (omega arith) in omega (arith, whole, half)

-- Low zeros of the mask shift both numbers.
bit_and-shift : (k a m : ℕ) → bit_and a (m * 2 ^ k) ≡ bit_and (a / 2 ^ k) m * 2 ^ k
bit_and-shift zero a m =
    let mask : m * 2 ^ 0 ≡ m = omega arith in
    let number : a / 2 ^ 0 ≡ a = omega arith in
    ap (bit_and a) mask ∙ (ap (λ (x : ℕ). bit_and x m) (sym number) ∙ omega arith)
bit_and-shift (suc k) a m =
    let halves = bit_and-halves a (m * 2 ^ suc k) in
    let again = bit_and-shift k (a / 2) m in
    let double = two-pow-succ k in
    let twice : m * 2 ^ suc k ≡ 2 * (m * 2 ^ k) =
      omega (arith, ap (λ (t : ℕ). m * t) double, mul-add m (2 ^ k) (2 ^ k)) in
    let half : m * 2 ^ suc k / 2 ≡ m * 2 ^ k = omega (arith, twice) in
    let quotient : a / 2 / 2 ^ k ≡ a / 2 ^ suc k =
      div-div-eq-div-mul a 2 (2 ^ k) ∙ ap (λ (t : ℕ). a / t) (omega (arith, double)) in
    let first = ap (bit_and (a / 2)) half in
    let last = ap (λ (t : ℕ). bit_and t m * 2 ^ k) quotient in
    let spread = mul-add (bit_and (a / 2 ^ suc k) m) (2 ^ k) (2 ^ k) in
    let whole = ap (λ (t : ℕ). bit_and (a / 2 ^ suc k) m * t) double in
    omega (arith, halves, again, twice, first, last, spread, whole)

bit_and-zero : (f a : ℕ) → a ≤ f → bit_and a 0 ≡ 0
bit_and-zero f zero h = zero-bit_and 0
bit_and-zero zero (suc a) h = absurd (omega arith)
bit_and-zero (suc f) (suc a) h =
    omega (arith, bit_and-halves (suc a) 0, bit_and-zero f (suc a / 2) (omega arith))

bit_and-ones : (k a : ℕ) → a < 2 ^ k → bit_and a (2 ^ k - 1) ≡ a
bit_and-ones zero a h = omega (arith, bit_and-zero a a (omega arith))
bit_and-ones (suc k) a h =
    let double = two-pow-succ k in
    let halves = bit_and-halves a (2 ^ suc k - 1) in
    let half : (2 ^ suc k - 1) / 2 ≡ 2 ^ k - 1 = omega (arith, double) in
    let again = bit_and-ones k (a / 2) (omega (arith, double)) in
    let same = ap (bit_and (a / 2)) half in omega (arith, double, halves, again, same)

-- A mask of the `p` highest of `p + k` bits leaves the multiple of `2 ^ k` below the number.
pub bit_and-high :
    (p k a : ℕ) → a < 2 ^ p * 2 ^ k → bit_and a ((2 ^ p - 1) * 2 ^ k) ≡ a / 2 ^ k * 2 ^ k
bit_and-high p k a h =
    bit_and-shift k a (2 ^ p - 1)
    ∙ ap (λ (t : ℕ). t * 2 ^ k)
        (bit_and-ones p (a / 2 ^ k)
          ((div-lt_iff_lt-mul {k = 2 ^ k} (one-le-pow k 2 (omega arith))).1 h))
