-- ===== src/Base/Int.antt =====
-- The integers that `parseInt` gives. `negsuc n` is -(n + 1).
use Prim.Native.Nat.{ℕ, zero, suc, ◌+◌, ◌-◌, ◌*◌}
use Prim.Native.Char.{code}
use Prim.Native.String.{String, [], ◌∷◌, ◌++◌ as ◌<>◌}
use mathlib.Core.Bool.{Bool, ◌&&◌}
use mathlib.Core.Option.{Option, none, some}
use guardtime.Base.Equality.{Eq, ◌==◌, nat_eq, if◌then◌else◌}
use guardtime.Base.Numbers.{leb}
use guardtime.Base.Text.{skip_blanks, show}
use native.Mathlib.Decide.{ℕ_discrete}

pub data ℤ : Type 0 where
  pos : ℕ → ℤ
  negsuc : ℕ → ℤ

abbrev negate : ℕ → ℤ
negate zero = pos zero
negate (suc n) = negsuc n

abbrev pub is_digit : ℕ → Bool
is_digit c = leb b'0' c && leb c b'9'

-- The digits at the start, onto what has been read.
unfoldable pub read_digits : ℕ → String → ℕ
read_digits acc [] = acc
read_digits acc (c ∷ s) =
    let rest = read_digits (10 * acc + (code c - b'0')) s in if is_digit (code c) then rest else acc

unsigned : String → Option ℕ
unfolding read_digits
unsigned [] = none
unsigned (c ∷ s) = if is_digit (code c) then some (read_digits 0 (c ∷ s)) else none

signed : String → Option ℤ
unfolding unsigned nat_eq
signed [] = none
signed (c ∷ s) =
    if code c == b'-'
    then elim (unsigned s) [ none ↦ none | some n ↦ some (negate n) ]
    else elim (unsigned (if code c == b'+' then s else c ∷ s)) [
      | none ↦ none
      | some n ↦ some (pos n)
    ]

-- `Number.parseInt(s, 10)`, where `none` is NaN.
unfoldable pub parse_int : String → Option ℤ
unfolding signed skip_blanks
parse_int s = signed (skip_blanks s)

ℤ_discrete : Discrete ℤ
ℤ_discrete = hlevel (ℕ_discrete)

instance unfoldable pub int_eq : Eq ℤ
unfolding ℤ_discrete
int_eq = record { dec = ℤ_discrete }

-- `String(n)`
unfoldable pub show_int : ℤ → String
unfolding show
show_int (pos n) = show n
show_int (negsuc n) = "-" <> show (suc n)
