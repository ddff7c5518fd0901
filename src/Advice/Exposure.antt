-- ===== src/Advice/Exposure.antt =====
-- `list_received_advices` and `get_visible_advice` of advice/services.py.
use chamneul.Base.{
  ℕ, ◌≤◌, ◌≡◌, refl, Bool, true, false, none, some, List, [], ◌∷◌, ◌&&◌, nat_eq, arith, any, filter,
  find?, count, map, Option-cases, Bool-cases, inl, inr, ◌∙◌,
}
use chamneul.Base.Order.{newest_first}
use chamneul.Base.Views.{any-filter_found, any-find?-none, any-and_found, any-newest_first}
use chamneul.Models.{Db}
use chamneul.Models.Accounts.{User}
use chamneul.Models.Concerns.{Concern}
use chamneul.Models.Advice.{Advice, advice_status_Eq}
use chamneul.Common.Exec.{Result, ok, answer}
use chamneul.Concerns.{concern_pk, is_alive}
use chamneul.Advice.{advice_pk}
use chamneul.Advice.Reading.{
  Viewer, is_admin_user, is_open_to_owner, get_visible_advice, is_received, list_received_advices,
}

-- An answer of #27 that shows the owner's shape.
abbrev pub shows_owner : Result (Advice × Viewer) → Bool
shows_owner (ok (a, Viewer.owner)) = true
shows_owner _ = false

-- A row of #26 with this id.
abbrev pub is_row : ℕ → Advice × Bool → Bool
is_row k r = advice_pk k r.0

any-map :
    (k : ℕ) (f : Advice → Bool) (xs : List Advice)
    → any (is_row k) (map (λ a. (a, f a)) xs) ≡ any (advice_pk k) xs
any-map k f [] = refl
any-map k f (x ∷ xs) = ground (arith, any-map k f xs)

module _ (user : User) (k : ℕ) (db : Db) where
  listed :
      any (is_row k) (list_received_advices user.id db)
      ≡ any (advice_pk k) (filter (is_received user.id db) db.advices)
  unfolding list_received_advices
  listed =
      any-map k (λ a. any (λ f. nat_eq f.advice a.id) db.feedbacks)
        (newest_first (λ (a : Advice). a.created_at) (filter (is_received user.id db) db.advices))
      ∙ any-newest_first (λ (a : Advice). a.created_at) (advice_pk k)
          (filter (is_received user.id db) db.advices)

  received_is_open :
      (a : Advice) (c : Concern)
      → count (concern_pk a.concern) db.concerns ≤ 1
      → find? (concern_pk a.concern) db.concerns ≡ some c
      → is_received user.id db a ≡ is_open_to_owner user.id a c
  received_is_open a c u e = ground (
    arith,
    any-and_found (concern_pk a.concern) (λ (x : Concern). nat_eq x.author user.id && is_alive x)
        db.concerns c u e,
  )

  no_concern :
      (p : Concern → Bool) (xs : List Concern) (i : ℕ)
      → find? (concern_pk i) xs ≡ none
      → any (λ x. concern_pk i x && p x) xs ≡ false
  no_concern p [] i e = refl
  no_concern p (x ∷ xs) i e = ground (arith, no_concern p xs i)

-- For a user who is no admin and did not write the advice, the list #26 has a row of that id
-- exactly if the detail #27 answers in the owner's shape, where the ids of advices and of concerns
-- are unique.
pub list_received_advices-get_visible_advice :
    (user : User) (k : ℕ) (db : Db)
    → ((i : ℕ) → count (advice_pk i) db.advices ≤ 1)
    → ((i : ℕ) → count (concern_pk i) db.concerns ≤ 1)
    → is_admin_user user db ≡ false
    → any (λ a. advice_pk k a && nat_eq a.advisor user.id) db.advices ≡ false
    → any (is_row k) (list_received_advices user.id db)
      ≡ shows_owner (answer (get_visible_advice k user db))
unfolding get_visible_advice
list_received_advices-get_visible_advice user k db ua uc no_admin no_author =
    elim (Option-cases (find? (advice_pk k) db.advices)) [
      | inl missing ↦ ground (
        arith,
        listed user k db,
        any-find?-none (advice_pk k) (is_received user.id db) db.advices missing,
      )
      | inr (a, e) ↦
          let not_mine : nat_eq a.advisor user.id ≡ false = ground (
            arith,
            any-and_found (advice_pk k) (λ (x : Advice). nat_eq x.advisor user.id) db.advices a
                (ua k) e,
          ) in
          let here =
            any-filter_found (advice_pk k) (is_received user.id db) db.advices a (ua k) e in
          elim (Option-cases (find? (concern_pk a.concern) db.concerns)) [
            | inl lost ↦ ground (
              arith,
              listed user k db,
              no_concern user k db (λ x. nat_eq x.author user.id && is_alive x) db.concerns
                  a.concern lost,
            )
            | inr (c, f) ↦ elim (Bool-cases (is_open_to_owner user.id a c)) [
              | inl open_ ↦
                  ground (arith, listed user k db, received_is_open user k db a c (uc a.concern) f)
              | inr shut ↦
                  ground (arith, listed user k db, received_is_open user k db a c (uc a.concern) f)
            ]
          ]
    ]
