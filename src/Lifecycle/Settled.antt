-- ===== src/Lifecycle/Settled.antt =====
-- No run of concerns/services.py, advice/services.py and concerns/admin.py takes back an answer.
use chamneul.Base.{
  ℕ, ◌≤◌, ◌≡◌, refl, ◌∙◌, Bool, true, false, none, some, List, [], ◌∷◌, ◌++◌, ◌&&◌, not, ◌==◌,
  arith, any, find?, count, update, Bool-cases, inl, inr,
}
use chamneul.Base.Rows.{any-append, any-update, found_by_key}
use chamneul.Base.Runs.{Run}
use chamneul.Models.{Db}
use chamneul.Models.Concerns.{Concern, ConcernStatus, concern_status_Eq}
use chamneul.Concerns.{
  concern_pk, assignment_pk, apply_patch, create_concern, is_alive, is_active_on,
}
use chamneul.Concerns.Bulk.{
  is_closable, close, close_selected, soft_delete_selected, restore_selected,
}
use chamneul.Concerns.Queue.{AreTracked}
use chamneul.Concerns.Assigning.{assign_advisor_cases, unassign_advisor_cases, deactivate}
use chamneul.Advice.{is_rejected}
use chamneul.Advice.Effects.{review_advice_cases}
use chamneul.Lifecycle.{
  Step, Reach, Reach-AreTracked, update_own_concern_cases, withdraw, delete_concern_cases,
  answer_concern,
}

any-append_kept {ℓ} :
    {A : Type ℓ} (p : A → Bool) (xs ys : List A) → any p xs ≡ true → any p (xs ++ ys) ≡ true
any-append_kept p xs ys h = ground (arith, any-append p xs ys)

module _ {ℓ} {A : Type ℓ} (p q : A → Bool) (f : A → A) where
  any-update_kept :
      (xs : List A)
      → ((x : A) → q x ≡ true → p x ≡ true → p (f x) ≡ true)
      → any p xs ≡ true
      → any p (update q f xs) ≡ true
  any-update_kept [] h e = cc
  any-update_kept (x ∷ xs) h e = ground (arith, any-update_kept xs h, h x)

  any-update_absent :
      (xs : List A) → count q xs ≡ 0 → any p xs ≡ true → any p (update q f xs) ≡ true
  any-update_absent [] u e = cc
  any-update_absent (x ∷ xs) u e = ground (arith, any-update_absent xs)

  -- The one row that is rewritten is not one that the test looks for.
  any-update_other :
      (xs : List A) (c : A)
      → count q xs ≤ 1
      → find? q xs ≡ some c
      → p c ≡ false
      → any p xs ≡ true
      → any p (update q f xs) ≡ true
  any-update_other [] c u e n h = cc
  any-update_other (x ∷ xs) c u e n h = elim (Bool-cases (q x)) [
    | inl hit ↦ ground (arith, any-update_absent xs)
    | inr miss ↦ ground (arith, any-update_other xs c)
  ]

-- The statuses from which none leads back: ANSWERED and what follows it, and CLOSED.
pub data Milestone : Type 0 where
  answered closed : Milestone

abbrev pub has_reached : Milestone → ConcernStatus → Bool
has_reached m ConcernStatus.submitted = false
has_reached m ConcernStatus.assigned = false
has_reached Milestone.answered ConcernStatus.answered = true
has_reached Milestone.closed ConcernStatus.answered = false
has_reached m ConcernStatus.closed = true

-- A concern of that id has such a status.
abbrev pub is_at : (ConcernStatus → Bool) → ℕ → Concern → Bool
is_at p k c = concern_pk k c && p c.status

module _ (p : ConcernStatus → Bool) (k : ℕ) (not_submitted : p ConcernStatus.submitted ≡ false)
    (not_assigned : p ConcernStatus.assigned ≡ false) (final : p ConcernStatus.closed ≡ true) where
  -- A concern that was found at another status may be rewritten.
  other_rewritten :
      (i : ℕ) (c : Concern) (f : Concern → Concern) (db : Db)
      → AreTracked db
      → find? (concern_pk i) db.concerns ≡ some c
      → p c.status ≡ false
      → any (is_at p k) db.concerns ≡ true
      → any (is_at p k) (update (concern_pk c.id) f db.concerns) ≡ true
  other_rewritten i c f db t e n h =
      any-update_other (is_at p k) (concern_pk c.id) f db.concerns c (t.concern_keys c.id)
        (found_by_key (λ (x : Concern). x.id) i c db.concerns e) (ground arith) h

  -- One call keeps a concern at the status.
  step_stays :
      {db db' : Db}
      → Step db db'
      → AreTracked db
      → any (is_at p k) db.concerns ≡ true
      → any (is_at p k) db'.concerns ≡ true
  unfolding create_concern close_selected soft_delete_selected restore_selected
  step_stays {db} (Step.created env author d new) t h = any-append_kept (is_at p k) db.concerns _ h
  step_stays {db} (Step.edited env user i patch) t h =
      elim (update_own_concern_cases env user i patch db) [
        | inl same ↦ rw same h
        | inr (c, wrote) ↦ rw wrote (
            any-update (is_at p k) (concern_pk c.id) (apply_patch env.now patch) db.concerns
              (λ x. refl)
            ∙ h)
      ]
  step_stays {db} (Step.withdrawn env user i) t h = elim (delete_concern_cases env user i db) [
    | inl same ↦ rw same h
    | inr (c, wrote) ↦
        rw wrote
          (any-update (is_at p k) (concern_pk c.id) (withdraw env) db.concerns (λ x. refl) ∙ h)
  ]
  step_stays {db} (Step.assigned env i actor d new) t h =
      elim (assign_advisor_cases env i actor d db) [
        | inl same ↦ rw same h
        | inr (c, e, g, wrote) ↦ elim (Bool-cases (c.status == ConcernStatus.submitted)) [
          | inl fresh ↦ rw (wrote, fresh) (other_rewritten i c _ db t e (ground arith) h)
          | inr kept ↦ rw (wrote, kept) h
        ]
      ]
  step_stays {db} (Step.unassigned env i j) t h = elim (unassign_advisor_cases env i j db) [
    | inl same ↦ rw same h
    | inr (c, a, e, f, g, wrote) ↦
        elim (Bool-cases (
          not
            (any (is_active_on c.id) (update (assignment_pk a.id) (deactivate env) db.assignments))
          && c.status == ConcernStatus.assigned)) [
            | inl back ↦ rw (wrote, back) (other_rewritten i c _ db t e (ground arith) h)
            | inr kept ↦ rw (wrote, kept) h
          ]
  ]
  step_stays {db} (Step.reviewed env i actor d reason expected) t h =
      elim (review_advice_cases env i actor d reason expected db) [
        | inl (e, same) ↦ rw same h
        | inr (a, c, e, g, f, wrote) ↦
            elim (Bool-cases (not (is_rejected d) && c.status == ConcernStatus.assigned)) [
              | inl first ↦
                  rw (wrote, first)
                    (other_rewritten a.concern c answer_concern db t f (ground arith) h)
              | inr other ↦ rw (wrote, other) h
            ]
      ]
  step_stays {db} (Step.closed env queryset) t h =
      any-update_kept (is_at p k) (λ c. queryset c && is_closable c) (close env) db.concerns
        (λ x picked at. ground arith) h
  step_stays {db} (Step.removed env queryset) t h =
      any-update (is_at p k) (λ c. queryset c && is_alive c) (withdraw env) db.concerns (λ x. refl)
      ∙ h
  step_stays {db} (Step.restored queryset) t h =
      any-update (is_at p k) (λ c. queryset c && not (is_alive c))
        (λ c. record c { deleted_at = none }) db.concerns (λ x. refl)
      ∙ h

  Reach-stays :
      {start db : Db}
      → Reach start db
      → AreTracked start
      → any (is_at p k) start.concerns ≡ true
      → any (is_at p k) db.concerns ≡ true
  Reach-stays Run.here t h = h
  Reach-stays (Run.later r s) t h = step_stays s (Reach-AreTracked r t) (Reach-stays r t h)

-- Where concerns and assignments are tracked at its start, no run of #16, #47, #19, #24, #25, #33
-- and the three bulk actions of the admin page takes a concern back that is ANSWERED or CLOSED: one
-- of that id still has one of the two statuses at the end, and one that was CLOSED is still CLOSED.
pub Reach-settled :
    {start db : Db} (m : Milestone) (k : ℕ)
    → Reach start db
    → AreTracked start
    → any (is_at (has_reached m) k) start.concerns ≡ true
    → any (is_at (has_reached m) k) db.concerns ≡ true
Reach-settled Milestone.answered k r t h =
    Reach-stays (has_reached Milestone.answered) k refl refl refl r t h
Reach-settled Milestone.closed k r t h =
    Reach-stays (has_reached Milestone.closed) k refl refl refl r t h
