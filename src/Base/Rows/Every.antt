-- ===== src/Base/Rows/Every.antt =====
-- Lemmas on a property of every row, under the rewriting of some of them.
use mathlib.Core.Bool.{Bool, true, false}
use mathlib.Core.Path.{◌≡◌, sym, subst}
use mathlib.Core.Logic.{inl, inr}
use mathlib.Core.Option.{some}
use mathlib.Core.List.{List, [], ◌∷◌, ◌++◌}
use Prim.Native.Nat.{◌≤◌}
use native.Mathlib.Omega.{arith}
use chamneul.Base.Tests.{Bool-cases}
use chamneul.Base.Lists.{find?, count, update, All}

module _ {ℓ κ} {A : Type ℓ} where
  pub All-append : (P : A → Type κ) (xs ys : List A) → All P xs → All P ys → All P (xs ++ ys)
  All-append P [] ys hx hy = hy
  All-append P (x ∷ xs) ys hx hy = (hx.0, All-append P xs ys hx.1 hy)

  pub All-find? :
      (P : A → Type κ) (p : A → Bool) (xs : List A) (x : A) → All P xs → find? p xs ≡ some x → P x
  All-find? P p [] x h e = cc
  All-find? P p (y ∷ xs) x h e = ground (arith, All-find? P p xs x h.1)

  All-update_none :
      (P Q : A → Type κ) (p : A → Bool) (f : A → A) (xs : List A)
      → All P xs
      → count p xs ≡ 0
      → ((x : A) → p x ≡ false → P x → Q x)
      → All Q (update p f xs)
  All-update_none P Q p f [] h absent others = tt
  All-update_none P Q p f (y ∷ xs) h absent others = elim (Bool-cases (p y)) [
    | inl hit ↦ absurd (ground arith)
    | inr miss ↦ rw miss (others y miss h.0, All-update_none P Q p f xs h.1 (ground arith) others)
  ]

  -- The row with the key is rewritten, and it is the row that was read: keys are unique.
  pub All-update_found :
      (P Q : A → Type κ) (p : A → Bool) (f : A → A) (xs : List A) (c : A)
      → All P xs
      → count p xs ≤ 1
      → find? p xs ≡ some c
      → ((x : A) → p x ≡ false → P x → Q x)
      → (P c → Q (f c))
      → All Q (update p f xs)
  All-update_found P Q p f [] c h u e others own = cc
  All-update_found P Q p f (y ∷ xs) c h u e others own = elim (Bool-cases (p y)) [
    | inl hit ↦
        let same : y ≡ c = ground arith in
        rw hit (
          subst (λ z. Q (f z)) (sym same) (own (subst P same h.0)),
          All-update_none P Q p f xs h.1 (ground arith) others,
        )
    | inr miss ↦ rw miss (
      others y miss h.0,
      All-update_found P Q p f xs c h.1 (ground arith) (ground arith) others own,
    )
  ]

  pub All-update :
      (P Q : A → Type κ) (p : A → Bool) (f : A → A) (xs : List A)
      → All P xs
      → ((x : A) → p x ≡ false → P x → Q x)
      → ((x : A) → p x ≡ true → P x → Q (f x))
      → All Q (update p f xs)
  All-update P Q p f [] h others own = tt
  All-update P Q p f (y ∷ xs) h others own = elim (Bool-cases (p y)) [
    | inl hit ↦ rw hit (own y hit h.0, All-update P Q p f xs h.1 others own)
    | inr miss ↦ rw miss (others y miss h.0, All-update P Q p f xs h.1 others own)
  ]

  All-rest :
      (P Q : A → Type κ) (p : A → Bool) (xs : List A)
      → All P xs
      → count p xs ≡ 0
      → ((x : A) → p x ≡ false → P x → Q x)
      → All Q xs
  All-rest P Q p [] h absent others = tt
  All-rest P Q p (y ∷ xs) h absent others = elim (Bool-cases (p y)) [
    | inl hit ↦ absurd (ground arith)
    | inr miss ↦ (others y miss h.0, All-rest P Q p xs h.1 (ground arith) others)
  ]

  pub All-imp : (P Q : A → Type κ) (xs : List A) → All P xs → ((x : A) → P x → Q x) → All Q xs
  All-imp P Q [] h f = tt
  All-imp P Q (x ∷ xs) h f = (f x h.0, All-imp P Q xs h.1 f)

  -- The same where the row is left as it was read.
  pub All-found :
      (P Q : A → Type κ) (p : A → Bool) (xs : List A) (c : A)
      → All P xs
      → count p xs ≤ 1
      → find? p xs ≡ some c
      → ((x : A) → p x ≡ false → P x → Q x)
      → (P c → Q c)
      → All Q xs
  All-found P Q p [] c h u e others own = cc
  All-found P Q p (y ∷ xs) c h u e others own = elim (Bool-cases (p y)) [
    | inl hit ↦
        let same : y ≡ c = ground arith in
        (subst Q (sym same) (own (subst P same h.0)), All-rest P Q p xs h.1 (ground arith) others)
    | inr miss ↦
        (others y miss h.0, All-found P Q p xs c h.1 (ground arith) (ground arith) others own)
  ]
