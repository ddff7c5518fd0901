-- ===== src/Advice.antt =====
-- The operations of advice/services.py that change an advice: writing, editing, withdrawing and
-- reviewing it.
pub mod Effects
pub mod Decisions
pub mod History
pub mod Reading
pub mod Exposure
pub mod Reviewing
use chamneul.Base.{
  ℕ, ◌+◌, String, Bool, true, false, Option, none, some, List, [], ◌∷◌, ◌++◌, ◌&&◌, ◌||◌, not, ◌==◌,
  nat_eq, string_Eq, bool_Eq, if◌then◌else◌, any, filter, find?, count, update, is_some, get_or,
  is_blank, text_append,
}
use chamneul.Models.{Db, Env}
use chamneul.Models.Concerns.{Concern, Assignment, ConcernStatus, concern_status_Eq}
use chamneul.Models.Advice.{Advice, AdviceHistory, AdviceStatus, advice_status_Eq}
use chamneul.Models.Notifications.{Notification, NotificationType, TargetUrl}
use chamneul.Common.Errors.{
  Error, Constraint, conflict, unprocessable_entity, integrity_error, permission_denied,
  precondition_failed, does_not_exist,
}
use chamneul.Common.Exec.{
  Exec, Result, ok, err, pure, raise, gets, or_raise, get_or_404, atomic, catch_integrity, ◌>>=◌,
  ◌>>◌, raise_if, when, modify,
}
use chamneul.Notifications.{create_notification}
use chamneul.Concerns.{concern_pk, is_alive, is_active_pair, set_status}

abbrev pub advice_pk : ℕ → Advice → Bool
advice_pk k a = nat_eq a.id k

-- `_REVIEWABLE_STATUSES` and `_EDITABLE_STATUSES`
abbrev pub is_pending : AdviceStatus → Bool
is_pending AdviceStatus.pending = true
is_pending AdviceStatus.reviewing = true
is_pending AdviceStatus.approved = false
is_pending AdviceStatus.rejected = false
is_pending AdviceStatus.deleted = false

-- `_DELETABLE_STATUSES`
abbrev pub is_deletable : AdviceStatus → Bool
is_deletable s = is_pending s || s == AdviceStatus.rejected

-- The validated fields of #28.
pub record AdviceCreate : Type 0 where
  pub directional_guidance : String
  pub reflective_questions : Option String
  pub considerations : Option String
  pub out_of_scope_flag : Option Bool
  pub submit : Bool

-- The rows that the partial unique index holds for a concern and an advisor.
abbrev pub is_live_pair : ℕ → ℕ → Advice → Bool
is_live_pair concern advisor a =
    nat_eq a.concern concern && nat_eq a.advisor advisor && not (a.status == AdviceStatus.deleted)

unfoldable pub insert_advice : Advice → Exec Advice
insert_advice a db =
    if not (a.status == AdviceStatus.deleted) && any (is_live_pair a.concern a.advisor) db.advices
    then (err (integrity_error Constraint.advice_active), db)
    else (ok a, record db { advices = db.advices ++ a ∷ [] })

abbrev pub new_advice : Env → ℕ → ℕ → AdviceCreate → Advice
new_advice env concern_id advisor d = record {
  id = env.uuid 0;
  concern = concern_id;
  advisor = advisor;
  directional_guidance = d.directional_guidance;
  reflective_questions = get_or d.reflective_questions "";
  considerations = get_or d.considerations "";
  out_of_scope_flag = get_or d.out_of_scope_flag false;
  is_submitted = d.submit;
  status = AdviceStatus.pending;
  version = 1;
  created_at = env.now;
  updated_at = env.now;
  reviewed_at = none;
  reviewed_by = none;
  reject_reason = "";
}

unfoldable pub create_advice : Env → ℕ → ℕ → AdviceCreate → Exec Advice
unfolding insert_advice
create_advice env concern_id advisor d = do
  concern ←
      get_or_404 "Concern" (λ db. find? (λ c. is_alive c && concern_pk concern_id c) db.concerns)
  is_assigned ← gets (λ db. any (is_active_pair concern.id advisor) db.assignments)
  raise_if (not is_assigned) (permission_denied "배정되지 않은 고민입니다.")
  catch_integrity (insert_advice (new_advice env concern.id advisor d))
      (conflict "이미 이 고민에 작성한 조언이 있습니다." none)

unfoldable pub lock_own_advice : ℕ → ℕ → (AdviceStatus → Bool) → Exec Advice
lock_own_advice advice_id actor allowed = do
  advice ← get_or_404 "Advice" (λ db. find? (advice_pk advice_id) db.advices)
  raise_if (not (nat_eq advice.advisor actor)) (permission_denied "작성자만 수정할 수 있습니다.")
  raise_if (not (allowed advice.status)) (conflict "현재 상태에서는 변경할 수 없습니다." none)
  pure advice

-- The fields of #29 that were sent.
pub record AdvicePatch : Type 0 where
  pub directional_guidance : Option String
  pub reflective_questions : Option String
  pub considerations : Option String
  pub out_of_scope_flag : Option Bool
  pub is_submitted : Option Bool

abbrev pub changes_text : Option String → String → Bool
changes_text none old = false
changes_text (some new) old = not (old == new)

abbrev pub changes_flag : Option Bool → Bool → Bool
changes_flag none old = false
changes_flag (some new) old = not (old == new)

-- `any(... for field in _BODY_FIELDS)`
unfoldable pub body_changed : AdvicePatch → Advice → Bool
body_changed p a =
    changes_text p.directional_guidance a.directional_guidance
    || changes_text p.reflective_questions a.reflective_questions
    || changes_text p.considerations a.considerations
    || changes_flag p.out_of_scope_flag a.out_of_scope_flag

abbrev pub snapshot : Env → ℕ → Advice → AdviceHistory
snapshot env actor a = record {
  id = env.uuid 0;
  advice = a.id;
  version = a.version;
  directional_guidance = a.directional_guidance;
  reflective_questions = a.reflective_questions;
  considerations = a.considerations;
  out_of_scope_flag = a.out_of_scope_flag;
  edited_by = actor;
  edited_at = env.now;
}

-- The rows of the unique constraint on advice and version.
abbrev pub is_version : ℕ → ℕ → AdviceHistory → Bool
is_version advice version h = nat_eq h.advice advice && nat_eq h.version version

unfoldable pub insert_history : AdviceHistory → Exec (Unit {0})
insert_history h db =
    if any (is_version h.advice h.version) db.advice_histories
    then (err (integrity_error Constraint.history_version), db)
    else (ok tt, record db { advice_histories = db.advice_histories ++ h ∷ [] })

-- The columns that #29 saves, as they stand on the locked instance.
abbrev pub edited : Env → AdvicePatch → Bool → Advice → Advice
edited env p changed a = record a {
  directional_guidance = get_or p.directional_guidance a.directional_guidance;
  reflective_questions = get_or p.reflective_questions a.reflective_questions;
  considerations = get_or p.considerations a.considerations;
  out_of_scope_flag = get_or p.out_of_scope_flag a.out_of_scope_flag;
  version = if changed then a.version + 1 else a.version;
  is_submitted = get_or p.is_submitted a.is_submitted;
  updated_at = env.now;
}

unfoldable pub update_advice : Env → ℕ → ℕ → AdvicePatch → Exec Advice
unfolding lock_own_advice insert_history
update_advice env advice_id actor p = atomic do
  advice ← lock_own_advice advice_id actor is_pending
  when (body_changed p advice) (insert_history (snapshot env actor advice))
  modify (λ db. record db {
    advices = update (advice_pk advice.id) (edited env p (body_changed p advice)) db.advices;
  })
  pure (edited env p (body_changed p advice) advice)

unfoldable pub delete_advice : ℕ → ℕ → Exec (Unit {0})
unfolding lock_own_advice
delete_advice advice_id actor = atomic do
  advice ← lock_own_advice advice_id actor is_deletable
  modify (λ db. record db {
    advices =
        update (advice_pk advice.id) (λ a. record a { status = AdviceStatus.deleted }) db.advices;
  })

-- `DECISION_APPROVED` and `DECISION_REJECTED`
pub data Decision : Type 0 where
  approved rejected : Decision

abbrev pub is_rejected : Decision → Bool
is_rejected Decision.approved = false
is_rejected Decision.rejected = true

abbrev pub decided_status : Decision → AdviceStatus
decided_status Decision.approved = AdviceStatus.approved
decided_status Decision.rejected = AdviceStatus.rejected

-- `advice.save()` writes every column of the locked instance.
abbrev pub reviewed : Env → ℕ → Decision → String → Advice → Advice
reviewed env actor d reason a = record a {
  reviewed_by = some actor;
  reviewed_at = some env.now;
  status = decided_status d;
  reject_reason = if is_rejected d then reason else a.reject_reason;
  updated_at = env.now;
}

abbrev pub review_notice : Env → ℕ → Decision → String → Advice → Concern → Notification
review_notice env actor d reason a c = record {
  id = env.uuid 0;
  recipient = if is_rejected d then a.advisor else c.author;
  kind =
      if is_rejected d then NotificationType.advice_rejected else NotificationType.advice_approved;
  title = if is_rejected d then "조언이 반려되었습니다" else "조언이 승인되었습니다";
  message = if is_rejected d then reason else "회원님의 고민에 새로운 조언이 도착했습니다.";
  target_url = TargetUrl.advice a.id;
  actor_user = some actor;
  payload = ("advice_id", a.id) ∷ ("concern_id", c.id) ∷ [];
  is_read = false;
  read_at = none;
  created_at = env.now;
}

abbrev pub after_review : Decision → ConcernStatus → ConcernStatus
after_review Decision.approved ConcernStatus.assigned = ConcernStatus.answered
after_review _ s = s

-- The stored value of a status, as an f-string shows it.
unfoldable pub advice_status_value : AdviceStatus → String
advice_status_value AdviceStatus.pending = "PENDING"
advice_status_value AdviceStatus.reviewing = "REVIEWING"
advice_status_value AdviceStatus.approved = "APPROVED"
advice_status_value AdviceStatus.rejected = "REJECTED"
advice_status_value AdviceStatus.deleted = "DELETED"

unfoldable pub review_advice : Env → ℕ → ℕ → Decision → String → ℕ → Exec (Advice × Concern)
unfolding set_status create_notification
review_advice env advice_id actor d reason expected_version = atomic do
  advice ← get_or_404 "Advice" (λ db. find? (advice_pk advice_id) db.advices)
  raise_if (not advice.is_submitted) (conflict "제출되지 않은 초안은 리뷰할 수 없습니다." none)
  raise_if (not (is_pending advice.status))
      (conflict (text_append (advice_status_value advice.status) " 상태의 조언은 리뷰할 수 없습니다.") none)
  raise_if (not (nat_eq advice.version expected_version)) precondition_failed
  raise_if (is_rejected d && is_blank reason) (unprocessable_entity "반려 시 사유는 필수입니다.")
  concern ← or_raise (← gets (λ db. find? (concern_pk advice.concern) db.concerns)) does_not_exist
  raise_if (is_some concern.deleted_at) (conflict "삭제된 고민의 조언은 리뷰할 수 없습니다." none)
  modify (λ db. record db {
    advices = update (advice_pk advice.id) (reviewed env actor d reason) db.advices;
  })
  when (not (is_rejected d) && concern.status == ConcernStatus.assigned)
      (set_status concern.id ConcernStatus.answered)
  create_notification (review_notice env actor d reason advice concern)
  pure (
    reviewed env actor d reason advice,
    record concern { status = after_review d concern.status },
  )
