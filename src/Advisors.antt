-- ===== src/Advisors.antt =====
-- advisors/services.py.
pub mod Review
pub mod Names
use chamneul.Base.{
  ℕ, String, Bool, true, false, Option, none, some, List, [], ◌∷◌, ◌++◌, ◌&&◌, ◌||◌, not, ◌==◌,
  nat_eq, string_Eq, if◌then◌else◌, any, filter, find?, count, update, is_some, get_or, is_blank,
  text_append,
}
use chamneul.Models.{Db, Env}
use chamneul.Models.Taxonomy.{ConcernType}
use chamneul.Models.Accounts.{Role, UserRole, RoleGrant, RoleGrantAction}
use chamneul.Models.Advisors.{
  AdvisorApplication, AdvisorApplicationStatus, DomainCategory, ExperienceBand, CurrentStatus,
  IntendedLane, advisor_application_status_Eq,
}
use chamneul.Models.Notifications.{Notification, NotificationType, TargetUrl}
use chamneul.Common.Errors.{
  Error, Constraint, conflict, unprocessable_entity, integrity_error, validation_error,
}
use chamneul.Common.Exec.{
  Exec, Result, ok, err, pure, raise, gets, get_or_404, atomic, catch_integrity, ◌>>=◌, ◌>>◌,
  raise_if, when, modify,
}
use chamneul.Accounts.Roles.{holds, has_role, create_user_role, create_role_grant, audit_row}
use chamneul.Notifications.{create_notification}

abbrev pub application_pk : ℕ → AdvisorApplication → Bool
application_pk k a = nat_eq a.id k

-- `_ACTIVE_STATUSES`
abbrev pub is_active_status : AdvisorApplicationStatus → Bool
is_active_status AdvisorApplicationStatus.pending = true
is_active_status AdvisorApplicationStatus.reviewing = true
is_active_status AdvisorApplicationStatus.approved = true
is_active_status AdvisorApplicationStatus.rejected = false
is_active_status AdvisorApplicationStatus.withdrawn = false

-- `_ALLOWED_TRANSITIONS`
abbrev pub is_allowed : AdvisorApplicationStatus → AdvisorApplicationStatus → Bool
is_allowed AdvisorApplicationStatus.pending AdvisorApplicationStatus.reviewing = true
is_allowed AdvisorApplicationStatus.reviewing AdvisorApplicationStatus.approved = true
is_allowed AdvisorApplicationStatus.reviewing AdvisorApplicationStatus.rejected = true
is_allowed _ _ = false

-- The validated fields of #11.
pub record ApplicationCreate : Type 0 where
  pub display_name : String
  pub domain_category : DomainCategory
  pub experience_band : ExperienceBand
  pub current_status : CurrentStatus
  pub intended_lane : IntendedLane
  pub career_narrative : String
  pub advisable_concern_types : List ConcernType
  pub sample_advice_response : String

-- The rows that the partial unique index of `display_name` holds.
abbrev pub takes_name : String → AdvisorApplication → Bool
takes_name name a = a.display_name == name && is_active_status a.status

unfoldable pub insert_application : AdvisorApplication → Exec AdvisorApplication
insert_application a db =
    if is_active_status a.status && any (takes_name a.display_name) db.applications
    then (err (integrity_error Constraint.application_display_name), db)
    else (ok a, record db { applications = db.applications ++ a ∷ [] })

-- The rows of the applicant that stand in the way of another one. An approved row does only while
-- the role is held.
abbrev pub is_blocking : Bool → ℕ → AdvisorApplication → Bool
is_blocking is_advisor applicant a =
    nat_eq a.applicant applicant
    && is_active_status a.status
    && (is_advisor || not (a.status == AdvisorApplicationStatus.approved))

abbrev pub new_application : Env → ℕ → ApplicationCreate → AdvisorApplication
new_application env applicant d = record {
  id = env.uuid 0;
  applicant = applicant;
  display_name = d.display_name;
  domain_category = d.domain_category;
  experience_band = d.experience_band;
  current_status = d.current_status;
  intended_lane = d.intended_lane;
  career_narrative = d.career_narrative;
  advisable_concern_types = d.advisable_concern_types;
  sample_advice_response = d.sample_advice_response;
  status = AdvisorApplicationStatus.pending;
  submitted_at = env.now;
  reviewed_at = none;
  reviewed_by = none;
  reject_reason = "";
}

unfoldable pub create_application : Env → ℕ → ApplicationCreate → Exec AdvisorApplication
unfolding insert_application
create_application env applicant d = do
  is_advisor ← gets (has_role applicant Role.advisor)
  blocked ← gets (λ db. any (is_blocking is_advisor applicant) db.applications)
  raise_if blocked (conflict "이미 진행 중인 조언가 신청이 있습니다." none)
  catch_integrity (insert_application (new_application env applicant d))
      (conflict "이미 사용 중인 활동명입니다." none)

abbrev pub decided :
    Env → AdvisorApplicationStatus → ℕ → String → AdvisorApplication → AdvisorApplication
decided env target actor reason a = record a {
  status = target;
  reviewed_by = some actor;
  reviewed_at = some env.now;
  reject_reason = if target == AdvisorApplicationStatus.rejected then reason else a.reject_reason;
}

-- `UserRole.objects.get_or_create`
unfoldable pub get_or_create_role : Env → ℕ → Exec (Unit {0})
unfolding create_user_role
get_or_create_role env applicant = do
  held ← gets (has_role applicant Role.advisor)
  when (not held) (
      create_user_role
        (record { id = env.uuid 0; user = applicant; role = Role.advisor; created_at = env.now }))

abbrev pub approval_notice : Env → ℕ → ℕ → ℕ → Notification
approval_notice env application_id applicant actor = record {
  id = env.uuid 2;
  recipient = applicant;
  kind = NotificationType.advisor_application_approved;
  title = "조언가 신청이 승인되었습니다";
  message = "조언가 역할이 부여되었습니다. 역할 전환 후 활동할 수 있어요.";
  target_url = TargetUrl.my_application;
  actor_user = some actor;
  payload = ("application_id", application_id) ∷ [];
  is_read = false;
  read_at = none;
  created_at = env.now;
}

abbrev pub rejection_notice : Env → ℕ → ℕ → ℕ → String → Notification
rejection_notice env application_id applicant actor reason = record {
  id = env.uuid 2;
  recipient = applicant;
  kind = NotificationType.advisor_application_rejected;
  title = "조언가 신청이 반려되었습니다";
  message = reason;
  target_url = TargetUrl.my_application;
  actor_user = some actor;
  payload = ("application_id", application_id) ∷ [];
  is_read = false;
  read_at = none;
  created_at = env.now;
}

-- The effects behind the save: those of an approval, or in every other case the notice of a
-- rejection.
unfoldable pub decision_effects :
    Env → AdvisorApplicationStatus → ℕ → String → AdvisorApplication → Exec (Unit {0})
unfolding get_or_create_role create_role_grant create_notification
decision_effects env target actor reason a =
    if target == AdvisorApplicationStatus.approved
    then (do
      get_or_create_role env a.applicant
      create_role_grant (
          audit_row env (env.uuid 1) Role.advisor RoleGrantAction.grant actor
            "advisor application approved" a.applicant)
      create_notification (approval_notice env a.id a.applicant actor))
    else create_notification (rejection_notice env a.id a.applicant actor reason)

-- The stored value of a status, as an f-string shows it.
unfoldable pub application_status_value : AdvisorApplicationStatus → String
application_status_value AdvisorApplicationStatus.pending = "PENDING"
application_status_value AdvisorApplicationStatus.reviewing = "REVIEWING"
application_status_value AdvisorApplicationStatus.approved = "APPROVED"
application_status_value AdvisorApplicationStatus.rejected = "REJECTED"
application_status_value AdvisorApplicationStatus.withdrawn = "WITHDRAWN"

unfoldable pub no_transition : AdvisorApplicationStatus → AdvisorApplicationStatus → String
no_transition from to =
    text_append (application_status_value from)
      (text_append " 상태에서 " (text_append (application_status_value to) "로 전이할 수 없습니다."))

unfoldable pub review_application :
    Env → ℕ → ℕ → AdvisorApplicationStatus → String → Exec AdvisorApplication
unfolding decision_effects
review_application env application_id actor target reason = atomic do
  application ←
      get_or_404 "AdvisorApplication" (λ db. find? (application_pk application_id) db.applications)
  raise_if (not (is_allowed application.status target))
      (conflict (no_transition application.status target) none)
  raise_if (target == AdvisorApplicationStatus.rejected && is_blank reason)
      (unprocessable_entity "반려 시 사유는 필수입니다.")
  modify (λ db. record db {
    applications =
        update (application_pk application.id) (decided env target actor reason) db.applications;
  })
  decision_effects env target actor reason application
  pure (decided env target actor reason application)
