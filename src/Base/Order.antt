-- ===== src/Base/Order.antt =====
-- `order_by("-column")` and `order_by("column")`: rows by a number, equal ones in the order of the
-- table.
use Prim.Native.Nat.{ℕ, ◌≤◌}
use mathlib.Core.Path.{◌≡◌, refl}
use mathlib.Core.Logic.{inl, inr}
use mathlib.Core.Bool.{Bool}
use mathlib.Core.List.{List, [], ◌∷◌}
use native.Mathlib.Omega.{arith}
use chamneul.Base.Tests.{leb, if◌then◌else◌, Bool-cases}
use chamneul.Base.Lists.{count, All}
use chamneul.Base.Rows.{All-imp}

module _ {ℓ} {A : Type ℓ} (before : A → A → Bool) where
  unfoldable pub insert : A → List A → List A
  insert a [] = a ∷ []
  insert a (b ∷ xs) = if before a b then a ∷ b ∷ xs else b ∷ insert a xs

  unfoldable pub order_by : List A → List A
  unfolding insert
  order_by [] = []
  order_by (a ∷ xs) = insert a (order_by xs)

  count-insert : (p : A → Bool) (a : A) (xs : List A) → count p (insert a xs) ≡ count p (a ∷ xs)
  unfolding insert
  count-insert p a [] = refl
  count-insert p a (b ∷ xs) = ground (arith, count-insert p a xs)

  -- Ordering neither drops nor doubles a row.
  pub count-order_by : (p : A → Bool) (xs : List A) → count p (order_by xs) ≡ count p xs
  unfolding order_by
  count-order_by p [] = refl
  count-order_by p (a ∷ xs) = ground (arith, count-insert p a (order_by xs), count-order_by p xs)

  insert-All : (P : A → Type 0) (a : A) (xs : List A) → P a → All P xs → All P (insert a xs)
  unfolding insert
  insert-All P a [] p h = (p, tt)
  insert-All P a (b ∷ xs) p h = elim (Bool-cases (before a b)) [
    | inl first ↦ rw first (p, h)
    | inr later ↦ rw later (h.0, insert-All P a xs p h.1)
  ]

  pub order_by-All : (P : A → Type 0) (xs : List A) → All P xs → All P (order_by xs)
  unfolding order_by
  order_by-All P [] h = tt
  order_by-All P (a ∷ xs) h = insert-All P a (order_by xs) h.0 (order_by-All P xs h.1)

module _ {ℓ} {A : Type ℓ} (key : A → ℕ) where
  abbrev pub is_not_older : A → A → Bool
  is_not_older a b = leb (key b) (key a)

  -- `order_by("-key")`
  unfoldable pub newest_first : List A → List A
  newest_first = order_by is_not_older

  -- `order_by("key")`
  unfoldable pub oldest_first : List A → List A
  oldest_first = order_by (λ a b. leb (key a) (key b))

  abbrev pub IsDescending : List A → Type 0
  IsDescending [] = Unit
  IsDescending (a ∷ xs) = All (λ b. key b ≤ key a) xs × IsDescending xs

  insert-IsDescending :
      (a : A) (xs : List A) → IsDescending xs → IsDescending (insert is_not_older a xs)
  unfolding insert
  insert-IsDescending a [] h = (tt, tt)
  insert-IsDescending a (b ∷ xs) h = elim (Bool-cases (leb (key b) (key a))) [
    | inl first ↦ rw first (
      (
        ground arith,
        All-imp (λ c. key c ≤ key b) (λ c. key c ≤ key a) xs h.0 (λ c q. ground arith),
      ),
      h,
    )
    | inr later ↦ rw later (
      insert-All is_not_older (λ c. key c ≤ key b) a xs (ground arith) h.0,
      insert-IsDescending a xs h.1,
    )
  ]

  pub newest_first-IsDescending : (xs : List A) → IsDescending (newest_first xs)
  unfolding newest_first order_by
  newest_first-IsDescending [] = tt
  newest_first-IsDescending (a ∷ xs) =
      insert-IsDescending a (order_by is_not_older xs) (newest_first-IsDescending xs)
