-- ===== src/Accounts/Nicknames.antt =====
-- `_derive_nickname_base` of accounts/services.py, and the candidates of `_create_with_nickname`.
use Prim.Native.Char.{code}
use chamneul.Base.{
  ℕ, zero, suc, String, Bool, true, false, List, [], ◌∷◌, leb, nat_eq, if◌then◌else◌, is_space,
  text_append,
}

-- `str.lstrip()`
abbrev pub strip_left : String → String
strip_left String.[] = ""
strip_left (String.◌∷◌ c s) = if is_space (code c) then strip_left s else String.◌∷◌ c s

-- Each run of spaces becomes one space, and a last run is dropped. The flag tells that spaces were
-- read and not yet written.
abbrev pub squeeze : Bool → String → String
squeeze pending String.[] = ""
squeeze true (String.◌∷◌ c s) =
    if is_space (code c) then squeeze true s else String.◌∷◌ " " (String.◌∷◌ c (squeeze false s))
squeeze false (String.◌∷◌ c s) =
    if is_space (code c) then squeeze true s else String.◌∷◌ c (squeeze false s)

abbrev pub text_length : String → ℕ
text_length String.[] = 0
text_length (String.◌∷◌ _ s) = suc (text_length s)

-- `s[:n]`
abbrev pub text_take : ℕ → String → String
text_take zero s = ""
text_take (suc n) String.[] = ""
text_take (suc n) (String.◌∷◌ c s) = String.◌∷◌ c (text_take n s)

-- `re.sub(r"\s+", " ", candidate.strip())[:15]`
unfoldable pub cleaned : String → String
cleaned candidate = text_take 15 (squeeze false (strip_left candidate))

-- `email.split("@")[0]`
abbrev pub local_part : String → String
local_part String.[] = ""
local_part (String.◌∷◌ c s) = if nat_eq (code c) b'@' then "" else String.◌∷◌ c (local_part s)

-- The first candidate of at least two characters. `user` is one, so that the loop always returns.
unfoldable pub derive_nickname_base : String → String → String
derive_nickname_base name email =
    if leb 2 (text_length (cleaned name))
    then cleaned name
    else if leb 2 (text_length (cleaned (local_part email)))
    then cleaned (local_part email)
    else "user"

-- What is drawn: five suffixes of four digits, and eight hexadecimal digits of a uuid7.
pub record Draws : Type 0 where
  pub suffix : ℕ → String
  pub hex : String

unfoldable pub nickname_candidates : Draws → String → List String
nickname_candidates draws base =
    let with_suffix : ℕ → String = λ i. text_append base (text_append "_" (draws.suffix i)) in
    base
    ∷ with_suffix 0
    ∷ with_suffix 1
    ∷ with_suffix 2
    ∷ with_suffix 3
    ∷ with_suffix 4
    ∷ text_append "user_" draws.hex
    ∷ []
