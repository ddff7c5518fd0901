-- ===== src/Base/Views.antt =====
-- Lemmas on the querysets that the list endpoints return: filtered rows, the newest first.
use chamneul.Base.{
  ℕ, ◌≤◌, ◌≡◌, refl, Bool, true, false, none, some, List, [], ◌∷◌, ◌++◌, ◌&&◌, arith, any, filter,
  find?, count, All, Bool-cases, inl, inr,
}
use chamneul.Base.Rows.{any-zero, any-count}
use chamneul.Base.Order.{newest_first, count-order_by, is_not_older}

module _ {ℓ} {A : Type ℓ} where
  any-filter_none :
      (key p : A → Bool) (xs : List A) → count key xs ≡ 0 → any key (filter p xs) ≡ false
  any-filter_none key p [] u = refl
  any-filter_none key p (x ∷ xs) u = ground (arith, any-filter_none key p xs)

  -- Under a key that one row has, a list keeps the row exactly if the row passes.
  pub any-filter_found :
      (key p : A → Bool) (xs : List A) (a : A)
      → count key xs ≤ 1
      → find? key xs ≡ some a
      → any key (filter p xs) ≡ p a
  any-filter_found key p [] a u e = cc
  any-filter_found key p (x ∷ xs) a u e = elim (Bool-cases (key x)) [
    | inl here ↦ ground (arith, any-filter_none key p xs)
    | inr not_here ↦ ground (arith, any-filter_found key p xs a)
  ]

  pub any-find?-none :
      (key : A → Bool) (p : A → Bool) (xs : List A)
      → find? key xs ≡ none
      → any key (filter p xs) ≡ false
  any-find?-none key p [] e = refl
  any-find?-none key p (x ∷ xs) e = ground (arith, any-find?-none key p xs)

  any-and_none :
      (key p : A → Bool) (xs : List A) → count key xs ≡ 0 → any (λ x. key x && p x) xs ≡ false
  any-and_none key p [] u = refl
  any-and_none key p (x ∷ xs) u = ground (arith, any-and_none key p xs)

  pub any-and_found :
      (key p : A → Bool) (xs : List A) (a : A)
      → count key xs ≤ 1
      → find? key xs ≡ some a
      → any (λ x. key x && p x) xs ≡ p a
  any-and_found key p [] a u e = cc
  any-and_found key p (x ∷ xs) a u e = elim (Bool-cases (key x)) [
    | inl here ↦ ground (arith, any-and_none key p xs)
    | inr not_here ↦ ground (arith, any-and_found key p xs a)
  ]

  pub any-filter_and :
      (p q : A → Bool) (xs : List A) → any p (filter q xs) ≡ any (λ x. q x && p x) xs
  any-filter_and p q [] = refl
  any-filter_and p q (x ∷ xs) = ground (arith, any-filter_and p q xs)

  pub any-cong : (p q : A → Bool) (xs : List A) → ((x : A) → p x ≡ q x) → any p xs ≡ any q xs
  any-cong p q [] h = refl
  any-cong p q (x ∷ xs) h = ground (arith, any-cong p q xs h, h x)

  any-same_count : (p : A → Bool) (xs ys : List A) → count p xs ≡ count p ys → any p xs ≡ any p ys
  any-same_count p xs ys h = elim (Bool-cases (any p xs)) [
    | inl kept ↦ elim (Bool-cases (any p ys)) [
      | inl too ↦ cc
      | inr lost ↦ ground (arith, any-zero p ys, any-count p xs)
    ]
    | inr lost ↦ ground (arith, any-zero p xs, any-count p ys)
  ]

  pub any-newest_first :
      (at : A → ℕ) (p : A → Bool) (xs : List A) → any p (newest_first at xs) ≡ any p xs
  unfolding newest_first
  any-newest_first at p xs =
      any-same_count p (newest_first at xs) xs (count-order_by (is_not_older at) p xs)

  pub All-filter : (p : A → Bool) (xs : List A) → All (λ x. p x ≡ true) (filter p xs)
  All-filter p [] = tt
  All-filter p (x ∷ xs) = elim (Bool-cases (p x)) [
    | inl kept ↦ rw kept (kept, All-filter p xs)
    | inr lost ↦ rw lost (All-filter p xs)
  ]

  pub any-and_of_find? :
      (key p : A → Bool) (xs : List A) (a : A)
      → find? key xs ≡ some a
      → p a ≡ true
      → any (λ x. key x && p x) xs ≡ true
  any-and_of_find? key p [] a e h = cc
  any-and_of_find? key p (x ∷ xs) a e h = ground (arith, any-and_of_find? key p xs a)

  pub find?-append_new :
      (p : A → Bool) (xs : List A) (a : A)
      → any p xs ≡ false
      → p a ≡ true
      → find? p (xs ++ a ∷ []) ≡ some a
  find?-append_new p [] a e h = ground arith
  find?-append_new p (x ∷ xs) a e h = ground (arith, find?-append_new p xs a)
