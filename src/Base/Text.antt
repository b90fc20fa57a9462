-- ===== src/Base/Text.antt =====
-- JavaScript's text functions that the code uses, over the native strings.
use Prim.Native.Nat.{ℕ, zero, suc, ◌-◌, ◌/◌, ◌%◌}
use Prim.Native.Char.{code}
use Prim.Native.String
use Prim.Native.String.{String, [], ◌∷◌, char_at}
use mathlib.Core.Bool.{Bool, ◌||◌, ◌&&◌}
use mathlib.Core.List.{List}
use guardtime.Base.Equality.{◌==◌, nat_eq, string_eq, if◌then◌else◌}
use guardtime.Base.Numbers.{leb}

-- The digits of a number in a base up to 16, most significant first. The fuel is one more than
-- the number, which is more than it has digits.
unfoldable pub digits : ℕ → ℕ → ℕ → String → String
digits base zero n acc = acc
digits base (suc f) n acc =
    let rest = digits base f (n / base) (char_at "0123456789abcdef" (n % base) ∷ acc) in
    if n == 0 then acc else rest

-- `String(n)`
unfoldable pub show : ℕ → String
unfolding digits nat_eq
show n = if n == 0 then "0" else digits 10 (suc n) n ""

-- `n.toString(16)`
unfoldable pub show_hex : ℕ → String
unfolding digits nat_eq
show_hex n = if n == 0 then "0" else digits 16 (suc n) n ""

-- `parts.join(separator)`
unfoldable pub join : String → List String → String
join separator List.[] = ""
join separator (List.◌∷◌ s List.[]) = s
join separator (List.◌∷◌ s rest) = String.◌++◌ s (String.◌++◌ separator (join separator rest))

-- The blanks that `trim` and `\s` know, among the ASCII codes.
unfoldable pub is_blank : ℕ → Bool
unfolding nat_eq
is_blank c = c == 32 || (leb 9 c && leb c 13)

unfoldable pub skip_blanks : String → String
unfolding is_blank
skip_blanks [] = []
skip_blanks (c ∷ s) = let rest = skip_blanks s in if is_blank (code c) then rest else c ∷ s

reverse_onto : String → String → String
reverse_onto [] acc = acc
reverse_onto (c ∷ s) acc = reverse_onto s (c ∷ acc)

-- `s.trim()`
unfoldable pub trim : String → String
unfolding skip_blanks reverse_onto is_blank
trim s = reverse_onto (skip_blanks (reverse_onto (skip_blanks s) "")) ""

-- `s.toLowerCase()` on ASCII; other characters are left alone.
unfoldable pub to_lower : String → String
to_lower [] = []
to_lower (c ∷ s) =
    (if leb b'A' (code c) && leb (code c) b'Z'
      then char_at "abcdefghijklmnopqrstuvwxyz" (code c - b'A')
      else c)
    ∷ to_lower s

-- `text.slice(0, n)`
unfoldable pub slice : ℕ → String → String
slice zero s = []
slice (suc n) [] = []
slice (suc n) (c ∷ s) = c ∷ slice n s

-- `s.endsWith(end)`
unfoldable pub ends_with : String → String → Bool
unfolding string_eq
ends_with [] end' = [] == end'
ends_with (c ∷ s) end' = (c ∷ s) == end' || ends_with s end'

-- `s.replace(/\.$/, '')`
unfoldable pub strip_dot : String → String
unfolding string_eq
strip_dot [] = []
strip_dot (c ∷ s) = let rest = strip_dot s in if (c ∷ s) == "." then [] else c ∷ rest

-- `s.replace(/\/$/, '')`
unfoldable pub strip_slash : String → String
unfolding string_eq
strip_slash [] = []
strip_slash (c ∷ s) = let rest = strip_slash s in if (c ∷ s) == "/" then [] else c ∷ rest

-- `s.replace(/^"|"$/g, '')`
strip_end_quote : String → String
unfolding string_eq
strip_end_quote [] = []
strip_end_quote (c ∷ s) = let rest = strip_end_quote s in if (c ∷ s) == "\"" then [] else c ∷ rest

unfoldable pub strip_quotes : String → String
unfolding strip_end_quote nat_eq
strip_quotes [] = []
strip_quotes (c ∷ s) = if code c == 34 then strip_end_quote s else strip_end_quote (c ∷ s)
