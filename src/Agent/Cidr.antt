-- ===== src/Agent/Cidr.antt =====
-- gateway-agent/src/cidr.js. A part of an address that is not decimal digits is taken for no number;
-- `Number` also reads signs, fractions, exponents and other bases, which no address has.
pub mod Prefix
use Prim.Native.Nat.{bit_and}
use Prim.Native.Char.{code}
use Prim.Native.String.{[] as empty, ◌∷◌ as ◌⋯◌}
use guardtime.Base.{
  ℕ, ◌+◌, ◌-◌, ◌*◌, ◌%◌, ◌^◌, String, ◌==◌, nat_eq, Bool, true, false, ◌&&◌, ◌||◌, Option, none,
  some, List, [], ◌∷◌, ℤ, pos, negsuc, is_digit, read_digits, parse_int, split_on, trim, leb,
  if◌then◌else◌,
}

abbrev all_digits : String → Bool
all_digits empty = true
all_digits (c ⋯ s) = is_digit (code c) && all_digits s

-- `Number(part)`, if it is an integer from 0 to 255.
unfoldable pub octet : String → Option ℕ
unfolding trim read_digits
octet part =
    let digits = trim part in
    let n = read_digits 0 digits in if all_digits digits && leb n 255 then some n else none

abbrev pub join_octets : Option ℕ → Option ℕ → Option ℕ → Option ℕ → Option ℕ
join_octets (some a) (some b) (some c) (some d) = some (a * 2 ^ 24 + b * 2 ^ 16 + c * 2 ^ 8 + d)
join_octets _ _ _ _ = none

abbrev pub of_parts : List String → Option ℕ
of_parts (a ∷ b ∷ c ∷ d ∷ []) = join_octets (octet a) (octet b) (octet c) (octet d)
of_parts _ = none

unfoldable pub ip_to_int : String → Option ℕ
unfolding split_on octet
ip_to_int ip_address = of_parts (split_on b'.' ip_address)

-- `(0xffffffff << (32 - prefix)) >>> 0`
abbrev pub mask : (prefix : ℕ) → ℕ
mask prefix = 0xffffffff * 2 ^ (32 - prefix) % 2 ^ 32

abbrev pub in_range : (prefix : ℕ) → (ip range : Option ℕ) → Bool
unfolding nat_eq
in_range prefix (some ip) (some range) =
    prefix == 0 || bit_and ip (mask prefix) == bit_and range (mask prefix)
in_range prefix _ _ = false

abbrev first_two : List String → String × Option String
first_two [] = ("", none)
first_two (a ∷ []) = (a, none)
first_two (a ∷ b ∷ _) = (a, some b)

-- The prefix, if it is from 0 to 32.
abbrev prefix_of : Option String → Option ℕ
unfolding parse_int
prefix_of none = none
prefix_of (some text) = elim (parse_int text) [
  | none ↦ none
  | some (pos n) ↦ if leb n 32 then some n else none
  | some (negsuc n) ↦ none
]

unfoldable pub ip_in_cidr : (ip_address cidr : String) → Bool
unfolding ip_to_int split_on parse_int nat_eq
ip_in_cidr ip_address cidr =
    let (range_ip, prefix_text) = first_two (split_on b'/' cidr) in
    elim (prefix_of prefix_text) [
      | none ↦ false
      | some prefix ↦ in_range prefix (ip_to_int ip_address) (ip_to_int range_ip)
    ]
