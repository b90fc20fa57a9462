-- ===== src/Agent/Cidr/Prefix.antt =====
-- cidr.js: membership in a range and the prefix of the range.
use Prim.Native.Nat.{bit_and}
use native.Mathlib.Nat.{one-le-pow, mul-div_cancel}
use guardtime.Base.{
  ◌+◌, if◌then◌else◌, false, zero, suc, ◌&&◌, ◌||◌, ◌==◌, ℕ, ◌-◌, ◌*◌, ◌/◌, ◌^◌, ◌≤◌, ◌<◌, ◌≡◌, ◌↔◌,
  refl, sym, ap, ◌∙◌, String, Bool, true, nat_eq, Option, none, some, List, [], ◌∷◌, arith,
  bit_and-high, split_on,
}
use guardtime.Agent.Cidr.{octet, join_octets, of_parts, ip_to_int, in_range, mask}

-- Whether a test passes at the next `fuel` numbers.
passes_from : (test : ℕ → Bool) → (start fuel : ℕ) → Bool
passes_from test start zero = true
passes_from test start (suc fuel) =
    let later = passes_from test (suc start) fuel in if test start then later else false

passes_at :
    (test : ℕ → Bool) (start fuel x : ℕ)
    → passes_from test start fuel ≡ true
    → start ≤ x
    → x < start + fuel
    → test x ≡ true
unfolding passes_from
passes_at test start zero x h low high = absurd (omega (arith, low, high))
passes_at test start (suc fuel) x h low high = ground (arith, passes_at test (suc start) fuel x)

-- The mask is that many high bits.
is_high : ℕ → Bool
unfolding nat_eq
is_high p = mask p == (2 ^ p - 1) * 2 ^ (32 - p) && 2 ^ p * 2 ^ (32 - p) == 2 ^ 32

high_table : passes_from is_high 0 33 ≡ true
unfolding passes_from is_high nat_eq
high_table = refl

mask-high :
    (p : ℕ) → p ≤ 32 → (mask p ≡ (2 ^ p - 1) * 2 ^ (32 - p)) × (2 ^ p * 2 ^ (32 - p) ≡ 2 ^ 32)
unfolding is_high
mask-high p h =
    let checked : is_high p ≡ true =
      passes_at is_high 0 33 p high_table (omega arith) (omega arith) in
    ground arith

bit_and-mask :
    (p a : ℕ) → p ≤ 32 → a < 2 ^ 32 → bit_and a (mask p) ≡ a / 2 ^ (32 - p) * 2 ^ (32 - p)
bit_and-mask p a h k =
    let high = mask-high p h in
    ap (bit_and a) high.0 ∙ bit_and-high p (32 - p) a (omega (arith, high.1))

times_cancel : (n x y : ℕ) → 1 ≤ n → x * n ≡ y * n → x ≡ y
times_cancel n x y h e = sym (mul-div_cancel x h) ∙ (ap (λ (t : ℕ). t / n) e ∙ mul-div_cancel y h)

octet-lt : (part : String) (n : ℕ) → octet part ≡ some n → n < 256
unfolding octet
octet-lt part n h = ground arith

join_octets-lt :
    (a b c d : Option ℕ) (n : ℕ)
    → ((k : ℕ) → a ≡ some k → k < 256)
    → ((k : ℕ) → b ≡ some k → k < 256)
    → ((k : ℕ) → c ≡ some k → k < 256)
    → ((k : ℕ) → d ≡ some k → k < 256)
    → join_octets a b c d ≡ some n
    → n < 2 ^ 32
join_octets-lt (some a) (some b) (some c) (some d) n ha hb hc hd h =
    ground (arith, ha a refl, hb b refl, hc c refl, hd d refl)
join_octets-lt none b c d n ha hb hc hd h = absurd (cc h)
join_octets-lt (some a) none c d n ha hb hc hd h = absurd (cc h)
join_octets-lt (some a) (some b) none d n ha hb hc hd h = absurd (cc h)
join_octets-lt (some a) (some b) (some c) none n ha hb hc hd h = absurd (cc h)

of_parts-lt : (parts : List String) (n : ℕ) → of_parts parts ≡ some n → n < 2 ^ 32
of_parts-lt [] n h = absurd (cc h)
of_parts-lt (a ∷ []) n h = absurd (cc h)
of_parts-lt (a ∷ b ∷ []) n h = absurd (cc h)
of_parts-lt (a ∷ b ∷ c ∷ []) n h = absurd (cc h)
of_parts-lt (a ∷ b ∷ c ∷ d ∷ []) n h =
    join_octets-lt (octet a) (octet b) (octet c) (octet d) n (octet-lt a) (octet-lt b) (octet-lt c)
      (octet-lt d) h
of_parts-lt (a ∷ b ∷ c ∷ d ∷ e ∷ es) n h = absurd (cc h)

ip_to_int-lt : (ip : String) (n : ℕ) → ip_to_int ip ≡ some n → n < 2 ^ 32
unfolding ip_to_int
ip_to_int-lt ip n h = of_parts-lt (split_on b'.' ip) n h

same_multiple_iff :
    (p n x y qa qb : ℕ)
    → 1 ≤ n
    → x ≡ qa * n
    → y ≡ qb * n
    → ((p ≡ 0) → qa ≡ qb)
    → ((p == 0 || x == y) ≡ true) ↔ (qa ≡ qb)
unfolding nat_eq
same_multiple_iff p n x y qa qb h ex ey ez =
    let cancel = λ (e : qa * n ≡ qb * n). times_cancel n qa qb h e in
    let multiply = λ (e : qa ≡ qb). ap (λ (t : ℕ). t * n) e in ground (arith, cancel, multiply, ez)

-- No prefix leaves no bit of a 32-bit number.
no_prefix : (p a : ℕ) → p ≡ 0 → a < 2 ^ 32 → a / 2 ^ (32 - p) ≡ 0
no_prefix p a e h = ap (λ (q : ℕ). a / 2 ^ (32 - q)) e ∙ omega arith

-- Two addresses agree under a mask, bit by bit, exactly where they agree once the bits below the
-- prefix are dropped: the test of the code is the arithmetic definition of a range.
pub in_range-prefix_iff :
    (p : ℕ) (ip range : String) (a b : ℕ)
    → p ≤ 32
    → ip_to_int ip ≡ some a
    → ip_to_int range ≡ some b
    → (in_range p (ip_to_int ip) (ip_to_int range) ≡ true) ↔ (a / 2 ^ (32 - p) ≡ b / 2 ^ (32 - p))
unfolding nat_eq
in_range-prefix_iff p ip range a b h ea eb =
    let below_a = ip_to_int-lt ip a ea in
    let below_b = ip_to_int-lt range b eb in
    let masked_a = bit_and-mask p a h below_a in
    let masked_b = bit_and-mask p b h below_b in
    rw (ea, eb)
      (same_multiple_iff p (2 ^ (32 - p)) _ _ _ _ (one-le-pow (32 - p) 2 (omega arith)) masked_a
        masked_b (λ e. no_prefix p a e below_a ∙ sym (no_prefix p b e below_b)))
