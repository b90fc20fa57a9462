-- ===== src/Base/Json.antt =====
-- `JSON.stringify` of a text, a number and of lists and objects.
use Prim.Native.Nat.{ℕ, ◌/◌, ◌%◌}
use Prim.Native.Char.{Char, code}
use Prim.Native.String.{String, [] as empty, ◌∷◌ as ◌⋯◌, ◌++◌ as ◌<>◌, char_at}
use mathlib.Core.Option.{Option, none, some}
use mathlib.Core.List.{List, map}
use guardtime.Base.Equality.{◌==◌, nat_eq, if◌then◌else◌}
use guardtime.Base.Numbers.{ltb}
use guardtime.Base.Text.{join}
use guardtime.Base.Int.{ℤ, show_int}

hex_digit : ℕ → String
hex_digit n = char_at "0123456789abcdef" (n % 16) ⋯ empty

-- A character inside the quotes. Lone surrogates do not occur in a text here.
escape : Char → String
unfolding nat_eq hex_digit
escape c =
    let n = code c in
    if n == 34
    then "\\\""
    else if n == 92
    then "\\\\"
    else if n == 8
    then "\\b"
    else if n == 9
    then "\\t"
    else if n == 10
    then "\\n"
    else if n == 12
    then "\\f"
    else if n == 13
    then "\\r"
    else if ltb n 32
    then "\\u00" <> hex_digit (n / 16) <> hex_digit n
    else c ⋯ empty

escaped : String → String
escaped empty = ""
escaped (c ⋯ s) = escape c <> escaped s

unfoldable pub json_text : String → String
unfolding escaped escape
json_text s = "\"" <> escaped s <> "\""

-- NaN is written as null.
unfoldable pub json_int : Option ℤ → String
unfolding show_int
json_int none = "null"
json_int (some n) = show_int n

unfoldable pub json_list : List String → String
unfolding join
json_list items = "[" <> join "," items <> "]"

field : String × String → String
unfolding json_text
field (key, value) = json_text key <> ":" <> value

-- The fields in the order in which they were set.
unfoldable pub json_object : List (String × String) → String
unfolding join field
json_object fields' = "{" <> join "," (map field fields') <> "}"
