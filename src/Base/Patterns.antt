-- ===== src/Base/Patterns.antt =====
-- The regular expressions that find addresses in the output of tools, on ASCII.
use Prim.Native.Nat.{ℕ, zero, suc}
use Prim.Native.Char.{code}
use Prim.Native.String
use Prim.Native.String.{String, [] as empty, ◌∷◌ as ◌⋯◌}
use mathlib.Core.Bool.{Bool, true, false, not, ◌&&◌, ◌||◌}
use mathlib.Core.Option.{Option, none, some}
use guardtime.Base.Equality.{◌==◌, nat_eq, if◌then◌else◌}
use guardtime.Base.Numbers.{leb}
use guardtime.Base.Text.{is_blank, skip_blanks}
use guardtime.Base.Int.{is_digit}
use guardtime.Base.Lines.{after}

-- The characters of `\w`.
unfoldable pub is_word : ℕ → Bool
unfolding nat_eq
is_word c = is_digit c || (leb b'a' c && leb c b'z') || (leb b'A' c && leb c b'Z') || c == b'_'

-- A piece at the start of a text, and what follows it.
abbrev pub Piece : Type 0
Piece = Option (String × String)

-- The digits at the start, and the rest.
unfoldable pub digit_run : String → String × String
digit_run empty = (empty, empty)
digit_run (c ⋯ s) =
    let (run, rest) = digit_run s in if is_digit (code c) then (c ⋯ run, rest) else (empty, c ⋯ s)

abbrev pub one_to_three : String → Bool
one_to_three (a ⋯ empty) = true
one_to_three (a ⋯ b ⋯ empty) = true
one_to_three (a ⋯ b ⋯ c ⋯ empty) = true
one_to_three _ = false

-- `\d{1,3}`, where no digit follows.
unfoldable pub digits_at : String → Piece
unfolding digit_run
digits_at s = let (run, rest) = digit_run s in if one_to_three run then some (run, rest) else none

abbrev pub is_hex : ℕ → Bool
is_hex c = is_digit c || (leb b'a' c && leb c b'f') || (leb b'A' c && leb c b'F')

-- `[0-9a-f]{2}`, in either case.
unfoldable pub hex_pair_at : String → Piece
hex_pair_at (c ⋯ d ⋯ s) =
    if is_hex (code c) && is_hex (code d) then some (c ⋯ d ⋯ empty, s) else none
hex_pair_at _ = none

abbrev joined : (before separator : String) → Piece → Piece
joined before separator none = none
joined before separator (some (piece, rest)) =
    some (String.◌++◌ before (String.◌++◌ separator piece), rest)

-- A piece, and `more` times the separator with a piece.
unfoldable pub separated :
    (piece_at : String → Piece) → (separator : String) → (more : ℕ) → String → Piece
unfolding after
separated piece_at separator zero s = piece_at s
separated piece_at separator (suc more) s = elim (piece_at s) [
  | none ↦ none
  | some (piece, rest) ↦ elim (after separator rest) [
    | none ↦ none
    | some next ↦ joined piece separator (separated piece_at separator more next)
  ]
]

-- Whether no character of a word stands at the start.
abbrev pub ends_word : String → Bool
unfolding is_word
ends_word empty = true
ends_word (c ⋯ s) = not (is_word (code c))

abbrev pub whole_word : Piece → Option String
unfolding is_word
whole_word none = none
whole_word (some (piece, rest)) = if ends_word rest then some piece else none

-- `(?:\d{1,3}\.){3}\d{1,3}\b` at the start.
unfoldable pub ipv4_at : String → Option String
unfolding digits_at separated is_word
ipv4_at s = whole_word (separated digits_at "." 3 s)

-- The first match of a pattern that starts with `\b` and a character of a word. `inside` is whether
-- such a character stands before the text.
unfoldable pub first_word_match :
    (at_start : String → Option String) → (inside : Bool) → String → Option String
unfolding is_word
first_word_match at_start inside empty = none
first_word_match at_start inside (c ⋯ s) = elim (if inside then none else at_start (c ⋯ s)) [
  | some found ↦ some found
  | none ↦ first_word_match at_start (is_word (code c)) s
]

-- The first match of `\b(?:\d{1,3}\.){3}\d{1,3}\b`.
unfoldable pub find_ipv4 : String → Option String
unfolding ipv4_at first_word_match
find_ipv4 s = first_word_match ipv4_at false s

-- `\s+`, and what follows.
abbrev pub after_blanks : Option String → Option String
unfolding is_blank skip_blanks
after_blanks none = none
after_blanks (some empty) = none
after_blanks (some (c ⋯ s)) = if is_blank (code c) then some (skip_blanks s) else none

abbrev pub ipv4_of : Option String → Option String
unfolding ipv4_at
ipv4_of none = none
ipv4_of (some s) = ipv4_at s

-- `src\s+(\d{1,3}(?:\.\d{1,3}){3})\b` at the start.
unfoldable pub source_at : String → Option String
unfolding after is_blank skip_blanks ipv4_at
source_at s = ipv4_of (after_blanks (after "src" s))

-- The group of the first match of `\bsrc\s+(\d{1,3}(?:\.\d{1,3}){3})\b`.
unfoldable pub find_source : String → Option String
unfolding source_at first_word_match
find_source s = first_word_match source_at false s

-- The first match of `(?:[0-9a-f]{2}:){5}[0-9a-f]{2}`, in either case.
unfoldable pub find_mac : String → Option String
unfolding separated hex_pair_at
find_mac empty = none
find_mac (c ⋯ s) = elim (separated hex_pair_at ":" 5 (c ⋯ s)) [
  | some (mac, rest) ↦ some mac
  | none ↦ find_mac s
]
