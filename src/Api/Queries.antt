-- ===== src/Api/Queries.antt =====
-- What the list views ask of the database beyond the services: lookups on texts and dates, and the
-- join of rows with their concern.
use chamneul.Base.{
  ℕ, String, Bool, true, Option, none, some, List, [], ◌∷◌, if◌then◌else◌, find?, is_filled, leb,
}
use chamneul.Models.Concerns.{Concern}
use chamneul.Common.Exec.{Exec, Result, ok, err, raise}
use chamneul.Concerns.{concern_pk}

-- `str.lower`, and of the database `icontains` and `date` (the day of an instant, days being numbers).
pub record Lookups : Type 0 where
  pub lower : String → String
  pub icontains : String → String → Bool
  pub date : ℕ → ℕ

abbrev pub has_keyword : Lookups → Option String → String → Bool
has_keyword t none s = true
has_keyword t (some k) s = if is_filled k then t.icontains s k else true

-- `created_at__date__gte` and `created_at__date__lte`, where the bound is given.
abbrev pub is_since : Lookups → Option ℕ → ℕ → Bool
is_since t none at = true
is_since t (some day) at = leb day (t.date at)

abbrev pub is_until : Lookups → Option ℕ → ℕ → Bool
is_until t none at = true
is_until t (some day) at = leb (t.date at) day

-- Rows joined with their concern, which a foreign key that is not null points to.
abbrev pub join_concern :
    {A : Type 0} → A → Option Concern → List (A × Concern) → List (A × Concern)
join_concern a none rest = rest
join_concern a (some c) rest = (a, c) ∷ rest

unfoldable pub with_concern : {A : Type 0} → (A → ℕ) → List A → List Concern → List (A × Concern)
with_concern column [] concerns = []
with_concern column (a ∷ rows) concerns =
    join_concern a (find? (concern_pk (column a)) concerns) (with_concern column rows concerns)

-- The list handlers that validate their query do so first.
abbrev pub with_query : {A Q : Type 0} → Result Q → (Q → Exec A) → Exec A
with_query (ok q) m = m q
with_query (err e) m = raise e
