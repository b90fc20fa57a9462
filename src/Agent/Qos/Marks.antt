-- ===== src/Agent/Qos/Marks.antt =====
-- gateway-agent/src/mark-allocator.js, and the class ids that qos-controller.js makes with it.
use Prim.Native.Nat.{bit_xor}
use Prim.Native.Char.{code}
use Prim.Native.String.{[] as empty, ◌∷◌ as ◌⋯◌, char_at}
use text.Mathlib.TextLemmas.{nil-append, cons-append}
use guardtime.Base.{
  ℕ, zero, suc, ◌+◌, ◌-◌, ◌*◌, ◌/◌, ◌%◌, ◌^◌, ◌≤◌, ◌≡◌, ◌≢◌, refl, ap, sym, subst, ◌∙◌, String,
  ◌<>◌, ◌==◌, string_eq, nat_eq, Option, none, some, List, [], ◌∷◌, ltb, show_hex, digits, arith,
  if◌then◌else◌, Bool-cases, inl, inr,
}

-- The UTF-16 units of a character, which `charCodeAt` gives.
abbrev units : ℕ → List ℕ
units c =
    if ltb c 0x10000
    then c ∷ []
    else (0xd800 + (c - 0x10000) / 0x400) ∷ (0xdc00 + (c - 0x10000) % 0x400) ∷ []

-- One round of FNV-1a on 32-bit patterns: `hash ^= unit`, and `Math.imul(hash, 16777619)`.
abbrev round : (hash unit : ℕ) → ℕ
round hash unit = bit_xor hash unit * 16777619 % 2 ^ 32

abbrev rounds : ℕ → List ℕ → ℕ
rounds hash [] = hash
rounds hash (u ∷ us) = rounds (round hash u) us

abbrev hash_from : ℕ → String → ℕ
hash_from hash empty = hash
hash_from hash (c ⋯ key) = hash_from (rounds hash (units (code c))) key

-- `Math.abs` of the 32-bit number with this pattern.
abbrev magnitude : ℕ → ℕ
magnitude pattern' = if ltb pattern' (2 ^ 31) then pattern' else 2 ^ 32 - pattern'

-- The hash starts as a number that is not negative; each round makes it a signed 32-bit number.
unfoldable pub key_hash : String → ℕ
key_hash empty = 2166136261
key_hash (c ⋯ key) = magnitude (hash_from 2166136261 (c ⋯ key))

unfoldable pub stable_id : (min max : ℕ) → (key : String) → ℕ
unfolding key_hash
stable_id min max key = min + key_hash key % (max - min + 1)

abbrev class_key : (device_id : String) → (category : Option String) → (direction : String) → String
class_key device_id none direction = device_id <> ":" <> direction
class_key device_id (some category) direction =
    if category == ""
    then device_id <> ":" <> direction
    else device_id <> ":" <> category <> ":" <> direction

unfoldable pub bandwidth_class_id :
    (device_id : String) → (category : Option String) → (direction : String) → String
unfolding stable_id show_hex
bandwidth_class_id device_id category direction =
    "1:" <> show_hex (stable_id 0x100 0x7fff (class_key device_id category direction))

-- An id lies in its range.
pub stable_id-bounds :
    (min max : ℕ) (key : String)
    → min ≤ max
    → (min ≤ stable_id min max key) × (stable_id min max key ≤ max)
unfolding stable_id
stable_id-bounds min max key h = grind arith

abbrev text_length : String → ℕ
text_length empty = 0
text_length (c ⋯ s) = suc (text_length s)

digit_of : ℕ → String → String
digit_of n acc = char_at "0123456789abcdef" (n % 16) ⋯ acc

digits-step :
    (f n : ℕ) (acc : String)
    → 1 ≤ n
    → digits 16 (suc f) n acc ≡ digits 16 f (n / 16) (digit_of n acc)
unfolding digits digit_of nat_eq
digits-step f n acc h = ground arith

length-digit_of : (n : ℕ) (acc : String) → text_length (digit_of n acc) ≡ suc (text_length acc)
unfolding digit_of
length-digit_of n acc = refl

length-digits : (f n : ℕ) (acc : String) → text_length acc ≤ text_length (digits 16 f n acc)
unfolding digits nat_eq
length-digits zero n acc = omega arith
length-digits (suc f) n acc = elim (Bool-cases (n == 0)) [
  | inl stop ↦ rw stop (omega arith)
  | inr go ↦
      let longer = length-digits f (n / 16) (char_at "0123456789abcdef" (n % 16) ⋯ acc) in
      rw go (omega (arith, longer))
]

length-digits_three : (f n : ℕ) → 256 ≤ n → 3 ≤ text_length (digits 16 (suc (suc (suc f))) n "")
length-digits_three f n h =
    rw
      (
        digits-step (suc (suc f)) n "" (omega arith),
        digits-step (suc f) (n / 16) (digit_of n "") (omega arith),
        digits-step f (n / 16 / 16) (digit_of (n / 16) (digit_of n "")) (omega arith),
      )
      (omega (
        arith,
        length-digits f (n / 16 / 16 / 16)
            (digit_of (n / 16 / 16) (digit_of (n / 16) (digit_of n ""))),
        length-digit_of (n / 16 / 16) (digit_of (n / 16) (digit_of n "")),
        length-digit_of (n / 16) (digit_of n ""),
        length-digit_of n "",
      ))

length-show_hex : (n : ℕ) → 256 ≤ n → 3 ≤ text_length (show_hex n)
unfolding show_hex nat_eq
length-show_hex n h =
    let shown : show_hex n ≡ digits 16 (suc n) n "" = ground arith in
    let fuel : suc n ≡ suc (suc (suc (n - 2))) = omega arith in
    subst (λ (t : String). 3 ≤ text_length t) (sym (shown ∙ ap (λ (k : ℕ). digits 16 k n "") fuel))
      (length-digits_three (n - 2) n h)

length-append : (s t : String) → text_length (s <> t) ≡ text_length s + text_length t
length-append empty t = ap text_length (nil-append t) ∙ omega arith
length-append (c ⋯ s) t = ap text_length (cons-append c s t) ∙ omega (arith, length-append s t)

-- The class of a bandwidth limit is none of the three classes that the controller reserves.
pub bandwidth_class_id-reserved :
    (device_id : String) (category : Option String) (direction reserved : String)
    → text_length reserved ≤ 4
    → bandwidth_class_id device_id category direction ≢ reserved
unfolding bandwidth_class_id
bandwidth_class_id-reserved device_id category direction reserved h e =
    let id = stable_id 0x100 0x7fff (class_key device_id category direction) in
    let range =
      stable_id-bounds 0x100 0x7fff (class_key device_id category direction) (omega arith) in
    let long = length-show_hex id range.0 in
    absurd (omega (arith, long, length-append "1:" (show_hex id), ap text_length e))
