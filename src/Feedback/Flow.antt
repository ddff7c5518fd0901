-- ===== src/Feedback/Flow.antt =====
-- `create_feedback` and `transition_feedback` of advice/services.py.
use chamneul.Base.{
  ℕ, ◌+◌, ◌≤◌, String, ◌≡◌, refl, ap, Bool, true, false, Option, none, some, [], ◌∷◌, ◌++◌, ◌&&◌,
  not, ◌==◌, nat_eq, arith, inl, inr, if◌then◌else◌, any, find?, count, update, Bool-cases,
  Option-cases,
}
use chamneul.Base.Rows.{count-append, any-zero, find?-sound, find?-update_any}
use chamneul.Models.{Db, Env}
use chamneul.Models.Concerns.{Concern}
use chamneul.Models.Advice.{
  Advice, AdviceStatus, Feedback, FeedbackStatus, advice_status_Eq, feedback_status_Eq,
}
use chamneul.Common.Exec.{Result, ok, err, answer, after}
use chamneul.Concerns.{concern_pk, is_alive}
use chamneul.Advice.{advice_pk}
use chamneul.Feedback.{
  feedback_pk, FeedbackCreate, new_feedback, is_about, create_feedback, is_allowed, moved,
  move_feedback, transition_feedback,
}

-- The owner of a live concern may answer an advice that was approved, once.
abbrev pub may_answer : ℕ → Advice → Concern → Db → Bool
may_answer author a c db =
    nat_eq c.author author
    && is_alive c
    && a.status == AdviceStatus.approved
    && not (any (is_about a.id) db.feedbacks)

abbrev pub is_answered : {A : Type 0} → Result A → Bool
is_answered (ok _) = true
is_answered (err _) = false

module _ (env : Env) (k author : ℕ) (d : FeedbackCreate) (db : Db) where
  -- For an advice and a concern that are there, #34 answers exactly when its author owns the
  -- concern, the concern is alive, the advice is APPROVED and has no feedback yet; then it appends
  -- the new row, and otherwise it leaves the database as it was.
  pub create_feedback_exactly :
      (a : Advice) (c : Concern)
      → find? (advice_pk k) db.advices ≡ some a
      → find? (concern_pk a.concern) db.concerns ≡ some c
      → (is_answered (answer (create_feedback env k author d db)) ≡ may_answer author a c db)
        × (after (create_feedback env k author d db) ≡ (
            if may_answer author a c db
            then record db { feedbacks = db.feedbacks ++ new_feedback env a.id author d ∷ [] }
            else db))
  unfolding create_feedback
  create_feedback_exactly a c e f = elim (Bool-cases (may_answer author a c db)) [
    | inl g ↦ (ground arith, ground arith)
    | inr g ↦ (ground arith, ground arith)
  ]

  -- An advice that has at most one feedback has at most one after any call of #34.
  create_feedback_unique :
      (j : ℕ)
      → count (is_about j) db.feedbacks ≤ 1
      → count (is_about j) (after (create_feedback env k author d db)).feedbacks ≤ 1
  unfolding create_feedback
  create_feedback_unique j u = elim (Option-cases (find? (advice_pk k) db.advices)) [
    | inl missing ↦ ground arith
    | inr (a, e) ↦ ground (
      arith,
      any-zero (is_about j) db.feedbacks,
      count-append (is_about j) db.feedbacks (new_feedback env a.id author d ∷ []),
    )
  ]

module _ (env : Env) (k actor : ℕ) (to : FeedbackStatus) (memo : Option String) (db : Db)
    (f : Feedback) (e : find? (feedback_pk k) db.feedbacks ≡ some f) where
  abbrev pub moved_db : Db
  moved_db = record db {
    feedbacks = update (feedback_pk f.id) (moved env actor to memo) db.feedbacks;
  }

  pub transition_feedback_granted :
      is_allowed f.status to ≡ true
      → transition_feedback env k actor to memo db ≡ (ok (moved env actor to memo f), moved_db)
  unfolding transition_feedback
  transition_feedback_granted g = ground arith

  pub transition_feedback_refused :
      is_allowed f.status to ≡ false → after (transition_feedback env k actor to memo db) ≡ db
  unfolding transition_feedback
  transition_feedback_refused g = ground arith

  pub moved_row : find? (feedback_pk k) moved_db.feedbacks ≡ some (moved env actor to memo f)
  moved_row = ground (
    arith,
    find?-update_any (feedback_pk k) (feedback_pk f.id) (moved env actor to memo) db.feedbacks
        (λ x. refl),
    find?-sound (feedback_pk k) db.feedbacks f e,
  )

-- How far a feedback has come.
abbrev pub rank : FeedbackStatus → ℕ
rank FeedbackStatus.submitted = 0
rank FeedbackStatus.reviewed = 1
rank FeedbackStatus.archived = 2

abbrev pub rank_of : Option Feedback → ℕ
rank_of none = 0
rank_of (some f) = rank f.status

-- #38, run on its own, leaves the feedback that it is asked to move where it is or moves it forward
-- by one step of SUBMITTED, REVIEWED, ARCHIVED, whatever status is asked for.
pub transition_feedback_forward :
    (env : Env) (k actor : ℕ) (to : FeedbackStatus) (memo : Option String) (db : Db) (f : Feedback)
    → find? (feedback_pk k) db.feedbacks ≡ some f
    → (g : Feedback) × (find?
          (feedback_pk k)
          (after (transition_feedback env k actor to memo db)).feedbacks
        ≡ some g)
      × (rank f.status ≤ rank g.status)
      × (rank g.status ≤ rank f.status + 1)
transition_feedback_forward env k actor to memo db f e =
    elim (Bool-cases (is_allowed f.status to)) [
      | inl g ↦ (
        moved env actor to memo f,
        rw (transition_feedback_granted env k actor to memo db f e g)
            (moved_row env k actor to memo db f e),
        ground arith,
        ground arith,
      )
      | inr g ↦ (
        f,
        rw (transition_feedback_refused env k actor to memo db f e g) e,
        omega arith,
        omega arith,
      )
    ]

-- The write behind the read, on whatever the table has become.
stale_row :
    (env : Env) (k actor : ℕ) (db : Db) (f g : Feedback)
    → f.status ≡ FeedbackStatus.submitted
    → nat_eq f.id k ≡ true
    → find? (feedback_pk k) db.feedbacks ≡ some g
    → rank_of (
        find?
          (feedback_pk k)
          (after (move_feedback env actor FeedbackStatus.reviewed none f db)).feedbacks)
      ≡ 1
unfolding move_feedback
stale_row env k actor db f g s key e = ground (
  arith,
  find?-update_any (feedback_pk k) (feedback_pk f.id) (moved env actor FeedbackStatus.reviewed none)
      db.feedbacks (λ x. refl),
  find?-sound (feedback_pk k) db.feedbacks g e,
)

module _ (first second : Env) (k a b : ℕ) (db : Db) (f : Feedback)
    (e : find? (feedback_pk k) db.feedbacks ≡ some f)
    (s : f.status ≡ FeedbackStatus.submitted) where
  abbrev f1 : Feedback
  f1 = moved first a FeedbackStatus.reviewed none f

  abbrev d1 : Db
  d1 = moved_db first k a FeedbackStatus.reviewed none db f e

  e1 : find? (feedback_pk k) d1.feedbacks ≡ some f1
  e1 = moved_row first k a FeedbackStatus.reviewed none db f e

  abbrev d2 : Db
  d2 = moved_db second k b FeedbackStatus.archived none d1 f1 e1

  -- Two requests, each on its own, review and archive the feedback.
  archived-db :
      after (
        transition_feedback second k b FeedbackStatus.archived none
          (after (transition_feedback first k a FeedbackStatus.reviewed none db)))
      ≡ d2
  archived-db =
      rw (transition_feedback_granted first k a FeedbackStatus.reviewed none db f e (ground arith))
        (ap after
          (transition_feedback_granted second k b FeedbackStatus.archived none d1 f1 e1 refl))

  archived_row :
      find? (feedback_pk k) d2.feedbacks ≡ some (moved second b FeedbackStatus.archived none f1)
  archived_row = moved_row second k b FeedbackStatus.archived none d1 f1 e1

-- #38 takes no lock: a request that read a feedback while it was SUBMITTED, and writes after two
-- other requests have reviewed and archived it, moves it from ARCHIVED back to REVIEWED.
pub move_feedback_stale :
    (env first second : Env) (k actor a b : ℕ) (db : Db) (f : Feedback)
    → find? (feedback_pk k) db.feedbacks ≡ some f
    → f.status ≡ FeedbackStatus.submitted
    → let archived = after (
        transition_feedback second k b FeedbackStatus.archived none
          (after (transition_feedback first k a FeedbackStatus.reviewed none db))) in
      (rank_of (find? (feedback_pk k) archived.feedbacks) ≡ 2)
      × (rank_of (
            find?
              (feedback_pk k)
              (after (move_feedback env actor FeedbackStatus.reviewed none f archived)).feedbacks)
          ≡ 1)
move_feedback_stale env first second k actor a b db f e s =
    rw (archived-db first second k a b db f e s) (
      ap rank_of (archived_row first second k a b db f e s),
      stale_row env k actor (d2 first second k a b db f e s) f
          (moved second b FeedbackStatus.archived none (f1 first second k a b db f e s)) s
          (find?-sound (feedback_pk k) db.feedbacks f e) (archived_row first second k a b db f e s),
    )
