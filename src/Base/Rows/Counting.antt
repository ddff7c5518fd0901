-- ===== src/Base/Rows/Counting.antt =====
-- How the reads of a table see its writes: an appended row, and an update in place.
use mathlib.Core.Bool.{Bool, true, false, ◌||◌, ◌&&◌, not}
use mathlib.Core.Path.{◌≡◌, refl, sym, subst}
use mathlib.Core.Logic.{inl, inr}
use mathlib.Core.Option.{Option, none, some}
use mathlib.Core.Option
use mathlib.Core.List.{List, [], ◌∷◌, ◌++◌}
use Prim.Native.Nat.{ℕ, ◌+◌, ◌≤◌}
use native.Mathlib.Omega.{arith}
use chamneul.Base.Tests.{if◌then◌else◌, nat_eq, nat_eq_iff, Bool-cases, Option-cases}
use chamneul.Base.Lists.{length, any, filter, find?, count, update}

module _ {ℓ} {A : Type ℓ} where
  pub any-append : (p : A → Bool) (xs ys : List A) → any p (xs ++ ys) ≡ (any p xs || any p ys)
  any-append p [] ys = refl
  any-append p (x ∷ xs) ys = ground (arith, any-append p xs ys)

  pub count-append : (p : A → Bool) (xs ys : List A) → count p (xs ++ ys) ≡ count p xs + count p ys
  count-append p [] ys = omega arith
  count-append p (x ∷ xs) ys = ground (arith, count-append p xs ys)

  find?-count :
      (p q : A → Bool) (xs : List A) (a : A)
      → ((x : A) → p x ≡ true → q x ≡ true)
      → find? p xs ≡ some a
      → 1 ≤ count q xs
  find?-count p q [] a h e = cc
  find?-count p q (x ∷ xs) a h e = ground (arith, find?-count p q xs a h, h x)

  pub any-count : (p : A → Bool) (xs : List A) → count p xs ≡ 0 → any p xs ≡ false
  any-count p [] h = refl
  any-count p (x ∷ xs) h = ground (arith, any-count p xs)

  pub any-imp :
      (p q : A → Bool) (xs : List A)
      → ((x : A) → p x ≡ true → q x ≡ true)
      → any q xs ≡ false
      → any p xs ≡ false
  any-imp p q [] h e = refl
  any-imp p q (x ∷ xs) h e = ground (arith, any-imp p q xs h, h x)

  pub any-update :
      (p q : A → Bool) (f : A → A) (xs : List A)
      → ((x : A) → p (f x) ≡ p x)
      → any p (update q f xs) ≡ any p xs
  any-update p q f [] h = refl
  any-update p q f (x ∷ xs) h = ground (arith, any-update p q f xs h, h x)

  pub count-update :
      (p q : A → Bool) (f : A → A) (xs : List A)
      → ((x : A) → p (f x) ≡ p x)
      → count p (update q f xs) ≡ count p xs
  count-update p q f [] h = refl
  count-update p q f (x ∷ xs) h = ground (arith, count-update p q f xs h, h x)

  -- An update that makes no row pass the test adds nothing to its count.
  pub count-update_le :
      (p q : A → Bool) (f : A → A) (xs : List A)
      → ((x : A) → p (f x) ≡ true → p x ≡ true)
      → count p (update q f xs) ≤ count p xs
  count-update_le p q f [] h = omega arith
  count-update_le p q f (x ∷ xs) h = ground (arith, count-update_le p q f xs h, h x)

  pub any-update_le :
      (p q : A → Bool) (f : A → A) (xs : List A)
      → ((x : A) → p (f x) ≡ true → p x ≡ true)
      → any p (update q f xs) ≡ true
      → any p xs ≡ true
  any-update_le p q f [] h t = t
  any-update_le p q f (x ∷ xs) h t = ground (arith, any-update_le p q f xs h, h x)

  any-update_none :
      (p q : A → Bool) (f : A → A) (xs : List A) → count q xs ≡ 0 → any p (update q f xs) ≡ any p xs
  any-update_none p q f [] h = refl
  any-update_none p q f (x ∷ xs) h = ground (arith, any-update_none p q f xs)

  -- A test that reads the same on the one updated row reads the same on the table.
  pub any-update_found :
      (p q : A → Bool) (f : A → A) (xs : List A) (a : A)
      → count q xs ≤ 1
      → find? q xs ≡ some a
      → p (f a) ≡ p a
      → any p (update q f xs) ≡ any p xs
  any-update_found p q f [] a u e h = refl
  any-update_found p q f (x ∷ xs) a u e h = elim (Bool-cases (q x)) [
    | inl hit ↦
        let same : x ≡ a = ground arith in
        let here : p (f x) ≡ p x = subst (λ z. p (f z) ≡ p z) (sym same) h in
        rw hit (rw here (rw (any-update_none p q f xs (ground arith))))
    | inr miss ↦ ground (arith, any-update_found p q f xs a)
  ]

  -- A search that asks for more than a unique key finds the row of the key.
  pub find?-narrow :
      (p q : A → Bool) (xs : List A) (a : A)
      → ((x : A) → p x ≡ true → q x ≡ true)
      → find? p xs ≡ some a
      → count q xs ≤ 1
      → find? q xs ≡ some a
  find?-narrow p q [] a h e u = e
  find?-narrow p q (x ∷ xs) a h e u = elim (Option-cases (find? p xs)) [
    | inl nothing ↦ ground (arith, h x)
    | inr (y, f) ↦ ground (arith, find?-narrow p q xs a h, find?-count p q xs y h f, h x)
  ]

  pub count-cong : (p q : A → Bool) (xs : List A) → ((x : A) → p x ≡ q x) → count p xs ≡ count q xs
  count-cong p q [] h = refl
  count-cong p q (x ∷ xs) h = ground (arith, count-cong p q xs h, h x)

  pub length-filter : (p : A → Bool) (xs : List A) → length (filter p xs) ≡ count p xs
  length-filter p [] = refl
  length-filter p (x ∷ xs) = ground (arith, length-filter p xs)

  -- What the filter drops is none of the rows that are looked for.
  pub any-filter :
      (p q : A → Bool) (xs : List A)
      → ((x : A) → p x ≡ true → q x ≡ true)
      → any p (filter q xs) ≡ any p xs
  any-filter p q [] h = refl
  any-filter p q (x ∷ xs) h = ground (arith, any-filter p q xs h, h x)

  pub count-filter :
      (p q : A → Bool) (xs : List A)
      → ((x : A) → p x ≡ true → q x ≡ true)
      → count p (filter q xs) ≡ count p xs
  count-filter p q [] h = refl
  count-filter p q (x ∷ xs) h = ground (arith, count-filter p q xs h, h x)

  pub count-filter_le : (p q : A → Bool) (xs : List A) → count p (filter q xs) ≤ count p xs
  count-filter_le p q [] = omega arith
  count-filter_le p q (x ∷ xs) = ground (arith, count-filter_le p q xs)

  pub any-filter_le :
      (p q : A → Bool) (xs : List A) → any p xs ≡ false → any p (filter q xs) ≡ false
  any-filter_le p q [] h = refl
  any-filter_le p q (x ∷ xs) h = ground (arith, any-filter_le p q xs)

  -- Dropping the rows of `q` takes away at most as many rows of `p` as `q` has.
  pub count-filter-not :
      (p q : A → Bool) (xs : List A)
      → count p xs ≤ count p (filter (λ x. not (q x)) xs) + count q xs
  count-filter-not p q [] = omega arith
  count-filter-not p q (x ∷ xs) = ground (arith, count-filter-not p q xs)

  pub find?-update_any :
      (p q : A → Bool) (f : A → A) (xs : List A)
      → ((x : A) → p (f x) ≡ p x)
      → find? p (update q f xs) ≡ Option.map (λ x. if q x then f x else x) (find? p xs)
  find?-update_any p q f [] h = refl
  find?-update_any p q f (x ∷ xs) h = ground (arith, find?-update_any p q f xs h, h x)

  count-update_none :
      (p q : A → Bool) (f : A → A) (xs : List A)
      → count q xs ≡ 0
      → count p (update q f xs) ≡ count p xs
  count-update_none p q f [] h = refl
  count-update_none p q f (x ∷ xs) h = ground (arith, count-update_none p q f xs)

  -- The count changes by the one row that is rewritten.
  pub count-update_found :
      (p q : A → Bool) (f : A → A) (xs : List A) (a : A)
      → count q xs ≤ 1
      → find? q xs ≡ some a
      → count p (update q f xs) + (if p a then 1 else 0) ≡ count p xs + (if p (f a) then 1 else 0)
  count-update_found p q f [] a u e = cc
  count-update_found p q f (x ∷ xs) a u e = elim (Bool-cases (q x)) [
    | inl hit ↦
        let same : a ≡ x = ground arith in
        rw (hit, same) (ground (arith, count-update_none p q f xs))
    | inr miss ↦ ground (arith, count-update_found p q f xs a)
  ]

  pub count-filter_and :
      (p q : A → Bool) (xs : List A) → count p (filter q xs) ≡ count (λ x. q x && p x) xs
  count-filter_and p q [] = refl
  count-filter_and p q (x ∷ xs) = ground (arith, count-filter_and p q xs)

  pub find?-update :
      (p : A → Bool) (f : A → A) (xs : List A)
      → ((x : A) → p (f x) ≡ p x)
      → find? p (update p f xs) ≡ Option.map f (find? p xs)
  find?-update p f [] h = refl
  find?-update p f (x ∷ xs) h = ground (arith, find?-update p f xs h, h x)

  pub find?-sound : (p : A → Bool) (xs : List A) (x : A) → find? p xs ≡ some x → p x ≡ true
  find?-sound p [] x h = cc
  find?-sound p (y ∷ xs) x h = ground (arith, find?-sound p xs x)

  -- A row that was found by a key is found by the key that it has.
  pub found_by_key :
      (key : A → ℕ) (k : ℕ) (a : A) (xs : List A)
      → find? (λ x. nat_eq (key x) k) xs ≡ some a
      → find? (λ x. nat_eq (key x) (key a)) xs ≡ some a
  found_by_key key k a xs e =
      let same : key a ≡ k =
        (nat_eq_iff (key a) k).0 (find?-sound (λ x. nat_eq (key x) k) xs a e) in
      subst (λ i. find? (λ x. nat_eq (key x) i) xs ≡ some a) (sym same) e

  pub any-zero : (p : A → Bool) (xs : List A) → any p xs ≡ false → count p xs ≡ 0
  any-zero p [] h = refl
  any-zero p (x ∷ xs) h = ground (arith, any-zero p xs)

  pub any_of_find? : (p : A → Bool) (xs : List A) (x : A) → find? p xs ≡ some x → any p xs ≡ true
  any_of_find? p [] x h = cc
  any_of_find? p (y ∷ xs) x h = ground (arith, any_of_find? p xs x)
