-- ===== src/Feedback.antt =====
-- The feedback part of advice/services.py.
pub mod Flow
use chamneul.Base.{
  ℕ, String, Bool, true, false, Option, none, some, List, [], ◌∷◌, ◌++◌, ◌&&◌, ◌||◌, not, ◌==◌,
  nat_eq, leb, if◌then◌else◌, any, filter, find?, count, update, is_some, get_or, text_append,
}
use chamneul.Base.Order.{newest_first}
use chamneul.Models.{Db, Env}
use chamneul.Models.Concerns.{Concern}
use chamneul.Models.Advice.{
  Advice, AdviceStatus, Feedback, FeedbackStatus, advice_status_Eq, feedback_status_Eq,
}
use chamneul.Common.Errors.{
  Error, Constraint, conflict, integrity_error, permission_denied, does_not_exist,
}
use chamneul.Common.Exec.{
  Exec, Result, ok, err, pure, raise, gets, or_raise, get_or_404, catch_integrity, ◌>>=◌, ◌>>◌,
  raise_if, modify,
}
use chamneul.Concerns.{concern_pk}
use chamneul.Advice.{advice_pk}

abbrev pub feedback_pk : ℕ → Feedback → Bool
feedback_pk k f = nat_eq f.id k

-- The validated fields of #34; the serializer keeps the score between 1 and 5.
pub record FeedbackCreate : Type 0 where
  pub score : ℕ
  pub content : Option String

abbrev pub new_feedback : Env → ℕ → ℕ → FeedbackCreate → Feedback
new_feedback env advice_id author d = record {
  id = env.uuid 0;
  advice = advice_id;
  author = author;
  score = d.score;
  content = get_or d.content "";
  status = FeedbackStatus.submitted;
  memo = "";
  reviewed_at = none;
  reviewed_by = none;
  created_at = env.now;
}

-- The one-to-one column.
abbrev pub is_about : ℕ → Feedback → Bool
is_about advice f = nat_eq f.advice advice

unfoldable pub insert_feedback : Feedback → Exec Feedback
insert_feedback f db =
    if any (is_about f.advice) db.feedbacks
    then (err (integrity_error Constraint.feedback_advice), db)
    else (ok f, record db { feedbacks = db.feedbacks ++ f ∷ [] })

-- `advice.concern` goes through the base manager: soft-deleted concerns are found too.
unfoldable pub create_feedback : Env → ℕ → ℕ → FeedbackCreate → Exec Feedback
unfolding insert_feedback
create_feedback env advice_id author d = do
  advice ← get_or_404 "Advice" (λ db. find? (advice_pk advice_id) db.advices)
  concern ← or_raise (← gets (λ db. find? (concern_pk advice.concern) db.concerns)) does_not_exist
  raise_if (not (nat_eq concern.author author)) (permission_denied "본인 고민에 달린 조언에만 피드백할 수 있습니다.")
  raise_if (is_some concern.deleted_at) (permission_denied "삭제된 고민의 조언에는 피드백할 수 없습니다.")
  raise_if (not (advice.status == AdviceStatus.approved))
      (permission_denied "승인된 조언에만 피드백할 수 있습니다.")
  catch_integrity (insert_feedback (new_feedback env advice.id author d))
      (conflict "이미 이 조언에 피드백을 작성했습니다." none)

-- `_ALLOWED_FEEDBACK_TRANSITIONS`
abbrev pub is_allowed : FeedbackStatus → FeedbackStatus → Bool
is_allowed FeedbackStatus.submitted FeedbackStatus.reviewed = true
is_allowed FeedbackStatus.reviewed FeedbackStatus.archived = true
is_allowed _ _ = false

-- The stored value of a status, as an f-string shows it.
unfoldable pub feedback_status_value : FeedbackStatus → String
feedback_status_value FeedbackStatus.submitted = "SUBMITTED"
feedback_status_value FeedbackStatus.reviewed = "REVIEWED"
feedback_status_value FeedbackStatus.archived = "ARCHIVED"

unfoldable pub no_transition : FeedbackStatus → FeedbackStatus → String
no_transition from to =
    text_append (feedback_status_value from)
      (text_append " 상태에서 " (text_append (feedback_status_value to) "로 전이할 수 없습니다."))

-- The assignments to the instance; the columns that they name are the ones that are saved.
abbrev pub moved : Env → ℕ → FeedbackStatus → Option String → Feedback → Feedback
moved env actor to memo f = record f {
  status = to;
  reviewed_by = if to == FeedbackStatus.reviewed then some actor else f.reviewed_by;
  reviewed_at = if to == FeedbackStatus.reviewed then some env.now else f.reviewed_at;
  memo = get_or memo f.memo;
}

unfoldable pub get_feedback : ℕ → Exec Feedback
get_feedback k = get_or_404 "Feedback" (λ db. find? (feedback_pk k) db.feedbacks)

-- What `transition_feedback` does behind the read, with the instance that it read.
unfoldable pub move_feedback : Env → ℕ → FeedbackStatus → Option String → Feedback → Exec Feedback
move_feedback env actor to memo feedback = do
  raise_if (not (is_allowed feedback.status to)) (conflict (no_transition feedback.status to) none)
  modify (λ db. record db {
    feedbacks = update (feedback_pk feedback.id) (moved env actor to memo) db.feedbacks;
  })
  pure (moved env actor to memo feedback)

unfoldable pub transition_feedback : Env → ℕ → ℕ → FeedbackStatus → Option String → Exec Feedback
unfolding get_feedback move_feedback
transition_feedback env k actor to memo = do
  feedback ← get_feedback k
  move_feedback env actor to memo feedback

abbrev pub passes : {A : Type 0} → (A → Feedback → Bool) → Option A → Feedback → Bool
passes test none f = true
passes test (some a) f = test a f

-- `list_feedbacks_for_admin`, whose filters are the keys that were sent.
unfoldable pub list_feedbacks_for_admin :
    Option FeedbackStatus → Option ℕ → Option ℕ → Db → List Feedback
list_feedbacks_for_admin status score_min score_max db =
    filter (passes (λ m f. leb f.score m) score_max) (
      filter (passes (λ m f. leb m f.score) score_min) (
        filter (passes (λ s f. f.status == s) status)
          (newest_first (λ (f : Feedback). f.created_at) db.feedbacks)))

-- `list_feedbacks_written_by`
unfoldable pub list_feedbacks_written_by : ℕ → Db → List Feedback
list_feedbacks_written_by author db =
    newest_first (λ (f : Feedback). f.created_at)
      (filter (λ f. nat_eq f.author author) db.feedbacks)
