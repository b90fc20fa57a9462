-- ===== src/Base/Lines.antt =====
-- Texts in pieces: lines, fields and settings.
use Prim.Native.Nat.{ℕ}
use Prim.Native.Char.{Char, code}
use Prim.Native.String.{String, [] as empty, ◌∷◌ as ◌⋯◌}
use mathlib.Core.Bool.{Bool, true, false, ◌&&◌}
use mathlib.Core.Option.{Option, none, some}
use mathlib.Core.List.{List, [], ◌∷◌}
use guardtime.Base.Equality.{◌==◌, nat_eq, if◌then◌else◌}
use guardtime.Base.Text.{is_blank}

starts_line : String → Bool
unfolding nat_eq
starts_line empty = false
starts_line (c ⋯ s) = code c == 10

unfoldable pub onto_first : Char → List String → List String
onto_first c [] = (c ⋯ empty) ∷ []
onto_first c (l ∷ ls) = (c ⋯ l) ∷ ls

-- `text.split(/\r?\n/)`
unfoldable pub split_lines : String → List String
unfolding starts_line onto_first nat_eq
split_lines empty = "" ∷ []
split_lines (c ⋯ s) =
    let rest = split_lines s in
    if code c == 10
    then "" ∷ rest
    else if code c == 13 && starts_line s
    then rest
    else onto_first c rest

-- `text.split(separator)`, where the separator is one character.
unfoldable pub split_on : (separator : ℕ) → String → List String
unfolding onto_first nat_eq
split_on separator empty = "" ∷ []
split_on separator (c ⋯ s) =
    let rest = split_on separator s in if code c == separator then "" ∷ rest else onto_first c rest

-- `trimmed.split(/\s+/)` on a text that has no blanks at its ends and is not empty.
starts_blank : String → Bool
unfolding is_blank
starts_blank empty = false
starts_blank (c ⋯ s) = is_blank (code c)

unfoldable pub fields : String → List String
unfolding starts_blank onto_first is_blank
fields empty = "" ∷ []
fields (c ⋯ s) =
    let rest = fields s in
    if is_blank (code c) then (if starts_blank s then rest else "" ∷ rest) else onto_first c rest

-- `line.startsWith('#')`
unfoldable pub is_comment : String → Bool
unfolding nat_eq
is_comment empty = false
is_comment (c ⋯ s) = code c == b'#'

-- What stands before and after the first `=`, if there is one.
unfoldable pub cut_sign : String → Option (String × String)
unfolding nat_eq
cut_sign empty = none
cut_sign (c ⋯ s) =
    let rest = cut_sign s in
    if code c == b'='
    then some ("", s)
    else elim rest [ none ↦ none | some (k, v) ↦ some (c ⋯ k, v) ]

-- What follows a word at the start of a text.
unfoldable pub after : (word : String) → String → Option String
unfolding nat_eq
after empty s = some s
after (c ⋯ word) empty = none
after (c ⋯ word) (d ⋯ s) = let rest = after word s in if code c == code d then rest else none

-- `text.includes(word)`
unfoldable pub includes : (word : String) → String → Bool
unfolding after
includes word empty = elim (after word empty) [ none ↦ false | some _ ↦ true ]
includes word (c ⋯ s) = elim (after word (c ⋯ s)) [ none ↦ includes word s | some _ ↦ true ]

-- The characters up to the first blank.
unfoldable pub until_blank : String → String
unfolding is_blank
until_blank empty = empty
until_blank (c ⋯ s) = let rest = until_blank s in if is_blank (code c) then empty else c ⋯ rest
