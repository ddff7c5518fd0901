-- ===== src/Base/Text.antt =====
-- `str.strip()` of Python, as far as the program uses it: whether anything is left.
use Prim.Native.Nat.{ℕ}
use Prim.Native.Char.{code}
use Prim.Native.String.{String, ◌++◌}
use mathlib.Core.Bool.{Bool, true, false, ◌&&◌, ◌||◌}
use chamneul.Base.Tests.{leb, nat_eq}

-- `str.isspace` by code point.
abbrev pub is_space : ℕ → Bool
is_space c =
    (leb 9 c && leb c 13)
    || (leb 28 c && leb c 32)
    || nat_eq c 0x85
    || nat_eq c 0xa0
    || nat_eq c 0x1680
    || (leb 0x2000 c && leb c 0x200a)
    || nat_eq c 0x2028
    || nat_eq c 0x2029
    || nat_eq c 0x202f
    || nat_eq c 0x205f
    || nat_eq c 0x3000

-- `not s.strip()`
unfoldable pub is_blank : String → Bool
is_blank String.[] = true
is_blank (String.◌∷◌ c s) = is_space (code c) && is_blank s

-- The text of an f-string, piece by piece.
unfoldable pub text_append : String → String → String
text_append s t = s ++ t

-- `if s`: a text that is not empty.
abbrev pub is_filled : String → Bool
is_filled String.[] = false
is_filled (String.◌∷◌ _ _) = true
