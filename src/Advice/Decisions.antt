-- ===== src/Advice/Decisions.antt =====
-- What a decision of #33 writes (review_advice of advice/services.py), described decision by decision.
use chamneul.Base.{
  ℕ, String, ◌≡◌, refl, sym, ap, true, false, none, some, List, [], ◌∷◌, ◌++◌, ◌&&◌, not, ◌==◌,
  if◌then◌else◌, find?, update,
}
use chamneul.Models.{Db, Env}
use chamneul.Models.Concerns.{Concern, ConcernStatus, concern_status_Eq}
use chamneul.Models.Advice.{Advice, AdviceStatus}
use chamneul.Models.Notifications.{Notification, NotificationType, TargetUrl}
use chamneul.Common.Exec.{ok}
use chamneul.Concerns.{concern_pk, is_alive}
use chamneul.Advice.{
  advice_pk, Decision, is_rejected, reviewed, review_notice, after_review, review_advice,
}
use chamneul.Advice.Effects.{is_reviewable, review_advice_written}

-- The advice after the decision.
abbrev pub decided_row : Env → ℕ → Decision → String → Advice → Advice
decided_row env actor Decision.approved reason a = record a {
  status = AdviceStatus.approved;
  reviewed_by = some actor;
  reviewed_at = some env.now;
  updated_at = env.now;
}
decided_row env actor Decision.rejected reason a = record a {
  status = AdviceStatus.rejected;
  reject_reason = reason;
  reviewed_by = some actor;
  reviewed_at = some env.now;
  updated_at = env.now;
}

-- The concern after the decision: only an approval moves it, and only from ASSIGNED.
abbrev pub moved_status : Decision → ConcernStatus → ConcernStatus
moved_status Decision.rejected s = s
moved_status Decision.approved ConcernStatus.submitted = ConcernStatus.submitted
moved_status Decision.approved ConcernStatus.assigned = ConcernStatus.answered
moved_status Decision.approved ConcernStatus.answered = ConcernStatus.answered
moved_status Decision.approved ConcernStatus.closed = ConcernStatus.closed

abbrev pub moved_rows : Decision → ℕ → ConcernStatus → List Concern → List Concern
moved_rows Decision.approved k ConcernStatus.assigned rows =
    update (concern_pk k) (λ r. record r { status = ConcernStatus.answered }) rows
moved_rows _ _ _ rows = rows

-- An approval tells the owner of the concern, a rejection the advisor, with the reason.
abbrev pub told : Env → ℕ → Decision → String → Advice → Concern → Notification
told env actor Decision.approved reason a c = record {
  id = env.uuid 0;
  recipient = c.author;
  kind = NotificationType.advice_approved;
  title = "조언이 승인되었습니다";
  message = "회원님의 고민에 새로운 조언이 도착했습니다.";
  target_url = TargetUrl.advice a.id;
  actor_user = some actor;
  payload = ("advice_id", a.id) ∷ ("concern_id", c.id) ∷ [];
  is_read = false;
  read_at = none;
  created_at = env.now;
}
told env actor Decision.rejected reason a c = record {
  id = env.uuid 0;
  recipient = a.advisor;
  kind = NotificationType.advice_rejected;
  title = "조언이 반려되었습니다";
  message = reason;
  target_url = TargetUrl.advice a.id;
  actor_user = some actor;
  payload = ("advice_id", a.id) ∷ ("concern_id", c.id) ∷ [];
  is_read = false;
  read_at = none;
  created_at = env.now;
}

moved_rows_lem :
    (d : Decision) (k : ℕ) (s : ConcernStatus) (rows : List Concern)
    → (if not (is_rejected d) && s == ConcernStatus.assigned
        then update (concern_pk k) (λ r. record r { status = ConcernStatus.answered }) rows
        else rows)
      ≡ moved_rows d k s rows
moved_rows_lem Decision.approved k ConcernStatus.submitted rows = refl
moved_rows_lem Decision.approved k ConcernStatus.assigned rows = refl
moved_rows_lem Decision.approved k ConcernStatus.answered rows = refl
moved_rows_lem Decision.approved k ConcernStatus.closed rows = refl
moved_rows_lem Decision.rejected k s rows = refl

moved_status_lem : (d : Decision) (s : ConcernStatus) → after_review d s ≡ moved_status d s
moved_status_lem Decision.approved ConcernStatus.submitted = refl
moved_status_lem Decision.approved ConcernStatus.assigned = refl
moved_status_lem Decision.approved ConcernStatus.answered = refl
moved_status_lem Decision.approved ConcernStatus.closed = refl
moved_status_lem Decision.rejected s = refl

decided_row_lem :
    (env : Env) (actor : ℕ) (d : Decision) (reason : String)
    → reviewed env actor d reason ≡ decided_row env actor d reason
decided_row_lem env actor Decision.approved reason = refl
decided_row_lem env actor Decision.rejected reason = refl

told_lem :
    (env : Env) (actor : ℕ) (d : Decision) (reason : String) (a : Advice) (c : Concern)
    → review_notice env actor d reason a c ≡ told env actor d reason a c
told_lem env actor Decision.approved reason a c = refl
told_lem env actor Decision.rejected reason a c = refl

-- Where the advice is submitted, open and of the expected version, a rejection has a reason, and
-- the concern is there and alive, #33 makes the advice APPROVED, or REJECTED with the reason, with
-- the reviewer and the time; an approval moves the concern from ASSIGNED to ANSWERED and no other
-- status, a rejection none; and it appends one notification, ADVICE_APPROVED to the owner of the
-- concern or ADVICE_REJECTED, with the reason, to the advisor.
pub review_advice_granted :
    (env : Env) (k actor : ℕ) (d : Decision) (reason : String) (expected : ℕ) (db : Db) (a : Advice)
    (c : Concern)
    → find? (advice_pk k) db.advices ≡ some a
    → is_reviewable d reason expected a ≡ true
    → find? (concern_pk a.concern) db.concerns ≡ some c
    → is_alive c ≡ true
    → review_advice env k actor d reason expected db ≡ (
      ok (decided_row env actor d reason a, record c { status = moved_status d c.status }),
      record db {
        advices = update (advice_pk a.id) (decided_row env actor d reason) db.advices;
        concerns = moved_rows d c.id c.status db.concerns;
        notifications = db.notifications ++ told env actor d reason a c ∷ [];
      },
    )
review_advice_granted env k actor d reason expected db a c e g f alive =
    simp
      (
        sym (ap (λ (row : Advice → Advice). row a) (decided_row_lem env actor d reason)),
        sym (decided_row_lem env actor d reason),
        sym (told_lem env actor d reason a c),
        sym (moved_status_lem d c.status),
        sym (moved_rows_lem d c.id c.status db.concerns),
      )
      (review_advice_written env k actor d reason expected db a c e g f alive)
