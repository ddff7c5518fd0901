-- ===== src/Advice/Reviewing.antt =====
-- `list_advices_for_admin_review` and `review_advice` of advice/services.py.
use chamneul.Base.{
  ℕ, ◌≤◌, String, ◌≡◌, refl, Bool, true, false, none, some, List, [], ◌∷◌, ◌&&◌, ◌==◌, arith, any,
  filter, find?, count, Option-cases, inl, inr, ◌∙◌,
}
use chamneul.Base.Order.{newest_first}
use chamneul.Base.Views.{any-and_found, any-newest_first, any-filter_and, any-cong}
use chamneul.Models.{Db, Env}
use chamneul.Models.Concerns.{Concern}
use chamneul.Models.Advice.{Advice, AdviceStatus, advice_status_Eq}
use chamneul.Common.Exec.{Result, ok, err, answer}
use chamneul.Concerns.{concern_pk, is_alive}
use chamneul.Advice.{advice_pk, Decision, review_advice}
use chamneul.Advice.Effects.{review_advice_written}
use chamneul.Advice.Reading.{list_advices_for_admin_review}

abbrev pub is_in_pipeline : Db → Advice → Bool
is_in_pipeline db a = a.is_submitted && any (λ c. concern_pk a.concern c && is_alive c) db.concerns

abbrev pub is_reviewed_ok : Result (Advice × Concern) → Bool
is_reviewed_ok (ok _) = true
is_reviewed_ok (err _) = false

any-and_none_found :
    (i : ℕ) (xs : List Concern)
    → find? (concern_pk i) xs ≡ none
    → any (λ c. concern_pk i c && is_alive c) xs ≡ false
any-and_none_found i [] h = refl
any-and_none_found i (x ∷ xs) h = ground (arith, any-and_none_found i xs)

queued_row :
    (k : ℕ) (db : Db) (a : Advice)
    → count (advice_pk k) db.advices ≤ 1
    → find? (advice_pk k) db.advices ≡ some a
    → any (advice_pk k) (list_advices_for_admin_review none db)
      ≡ (a.status == AdviceStatus.pending && is_in_pipeline db a)
unfolding list_advices_for_admin_review
queued_row k db a u e =
    let at = λ (x : Advice). x.created_at in
    let is_pending_row : Advice → Bool = λ x. x.status == AdviceStatus.pending in
    any-filter_and (advice_pk k) is_pending_row
      (newest_first at (filter (is_in_pipeline db) db.advices))
    ∙ any-newest_first at (λ x. is_pending_row x && advice_pk k x)
        (filter (is_in_pipeline db) db.advices)
    ∙ any-filter_and (λ x. is_pending_row x && advice_pk k x) (is_in_pipeline db) db.advices
    ∙ any-cong (λ x. is_in_pipeline db x && (is_pending_row x && advice_pk k x))
        (λ x. advice_pk k x && (is_pending_row x && is_in_pipeline db x)) db.advices
        (λ x. ground arith)
    ∙ any-and_found (advice_pk k) (λ x. is_pending_row x && is_in_pipeline db x) db.advices a u e

-- An advice whose row stands in the queue #32, read with no filter, can be approved: #33 answers
-- the approval that gives the version of the row, where the ids of concerns are unique and so is
-- that of the advice.
pub list_advices_for_admin_review-review_advice :
    (env : Env) (k actor : ℕ) (reason : String) (a : Advice) (db : Db)
    → count (advice_pk k) db.advices ≤ 1
    → ((i : ℕ) → count (concern_pk i) db.concerns ≤ 1)
    → find? (advice_pk k) db.advices ≡ some a
    → any (advice_pk k) (list_advices_for_admin_review none db) ≡ true
    → is_reviewed_ok (answer (review_advice env k actor Decision.approved reason a.version db))
      ≡ true
list_advices_for_admin_review-review_advice env k actor reason a db ua uc e shown =
    let row = queued_row k db a ua e in
    elim (Option-cases (find? (concern_pk a.concern) db.concerns)) [
      | inl lost ↦ absurd (ground (arith, any-and_none_found a.concern db.concerns lost))
      | inr (c, f) ↦
          let alive : is_alive c ≡ true =
            ground (
              arith,
              any-and_found (concern_pk a.concern) is_alive db.concerns c (uc a.concern) f,
            ) in
          let granted =
            review_advice_written env k actor Decision.approved reason a.version db a c e
              (ground arith) f alive in
          rw granted refl
    ]
