-- ===== src/Concerns.antt =====
-- concerns/services.py: the operations that change a concern or its assignments. The checks on the
-- shape of a request stand in the serializers; the arguments here are validated data.
pub mod Assigning
pub mod Queue
pub mod Editing
pub mod Reading
pub mod Admin
pub mod Access
pub mod Bulk
use chamneul.Base.{
  ℕ, suc, String, Bool, true, false, Option, none, some, List, [], ◌∷◌, ◌++◌, ◌&&◌, ◌||◌, not, ◌==◌,
  nat_eq, if◌then◌else◌, any, filter, find?, count, update, is_some, get_or,
}
use chamneul.Models.{Db, Env}
use chamneul.Models.Taxonomy.{ConcernType}
use chamneul.Models.Accounts.{Role}
use chamneul.Accounts.Roles.{holds}
use chamneul.Notifications.{create_notification}
use chamneul.Models.Concerns.{
  Concern, Assignment, ConcernStatus, PreferredAdvisorLane, TriageDecision, AssignmentPriority,
  Json, JsonItems, JsonFields, concern_status_Eq,
}
use chamneul.Models.Notifications.{Notification, NotificationType, TargetUrl}
use chamneul.Common.Errors.{
  Error, Constraint, conflict, unprocessable_entity, integrity_error, not_found, validation_error,
}
use chamneul.Common.Exec.{
  Exec, Result, ok, err, pure, raise, gets, or_raise, get_or_404, atomic, catch_integrity, ◌>>=◌,
  ◌>>◌, raise_if, when, modify,
}

-- `pk=...`
abbrev pub concern_pk : ℕ → Concern → Bool
concern_pk k c = nat_eq c.id k

abbrev pub assignment_pk : ℕ → Assignment → Bool
assignment_pk k a = nat_eq a.id k

-- `ConcernManager.get_queryset`: rows that are not soft-deleted.
abbrev pub is_alive : Concern → Bool
is_alive c = not (is_some c.deleted_at)

-- The validated fields of #16. Those with a default in the model may be absent.
pub record ConcernCreate : Type 0 where
  pub concern_summary : String
  pub concern_type : ConcernType
  pub concern_type_secondary : Option (List ConcernType)
  pub preferred_advisor_lane : Option PreferredAdvisorLane
  pub decision_context : Option String
  pub display_alias : Option String
  pub is_anonymous : Option Bool

unfoldable pub create_concern : Env → ℕ → ConcernCreate → Exec Concern
create_concern env author d db =
    let concern : Concern = record {
      id = env.uuid 0;
      author = author;
      concern_summary = d.concern_summary;
      concern_type = d.concern_type;
      concern_type_secondary = get_or d.concern_type_secondary [];
      preferred_advisor_lane = get_or d.preferred_advisor_lane PreferredAdvisorLane.no_preference;
      decision_context = get_or d.decision_context "";
      display_alias = get_or d.display_alias "";
      is_anonymous = get_or d.is_anonymous true;
      status = ConcernStatus.submitted;
      deleted_at = none;
      created_at = env.now;
      updated_at = env.now;
    } in
    (ok concern, record db { concerns = db.concerns ++ concern ∷ [] })

unfoldable pub get_own_concern : ℕ → ℕ → Exec Concern
get_own_concern user concern_id =
    get_or_404 "Concern"
      λ db. find? (λ c. is_alive c && nat_eq c.author user && concern_pk concern_id c) db.concerns

unfoldable pub get_own_concern_including_deleted : ℕ → ℕ → Exec Concern
get_own_concern_including_deleted user concern_id =
    get_or_404 "Concern"
      λ db. find? (λ c. nat_eq c.author user && concern_pk concern_id c) db.concerns

-- The fields of #47 that were sent.
pub record ConcernPatch : Type 0 where
  pub concern_summary : Option String
  pub concern_type : Option ConcernType
  pub concern_type_secondary : Option (List ConcernType)
  pub preferred_advisor_lane : Option PreferredAdvisorLane
  pub decision_context : Option String
  pub display_alias : Option String
  pub is_anonymous : Option Bool

-- `setattr` for each sent field, and the `auto_now` column, which is among the saved fields.
abbrev pub apply_patch : ℕ → ConcernPatch → Concern → Concern
apply_patch now p c = record c {
  concern_summary = get_or p.concern_summary c.concern_summary;
  concern_type = get_or p.concern_type c.concern_type;
  concern_type_secondary = get_or p.concern_type_secondary c.concern_type_secondary;
  preferred_advisor_lane = get_or p.preferred_advisor_lane c.preferred_advisor_lane;
  decision_context = get_or p.decision_context c.decision_context;
  display_alias = get_or p.display_alias c.display_alias;
  is_anonymous = get_or p.is_anonymous c.is_anonymous;
  updated_at = now;
}

unfoldable pub update_own_concern : Env → ℕ → ℕ → ConcernPatch → Exec Concern
unfolding get_own_concern
update_own_concern env user concern_id p = atomic do
  concern ← get_own_concern user concern_id
  ever_assigned ← gets (λ db. any (λ a. nat_eq a.concern concern.id) db.assignments)
  raise_if (not (concern.status == ConcernStatus.submitted) || ever_assigned)
      (conflict "조언가에게 배정된 적이 있는 고민은 고칠 수 없습니다." (some "NOT_EDITABLE"))
  modify (λ db. record db {
    concerns = update (concern_pk concern.id) (apply_patch env.now p) db.concerns;
  })
  pure (apply_patch env.now p concern)

-- It is handed the instance that the view fetched, and tests that copy.
unfoldable pub soft_delete_concern : Env → Concern → Exec (Unit {0})
soft_delete_concern env concern = do
  raise_if (is_some concern.deleted_at) (conflict "이미 삭제된 고민입니다." none)
  modify (λ db. record db {
    concerns =
        update (concern_pk concern.id) (λ c. record c { deleted_at = some env.now }) db.concerns;
  })

-- The handler of #19.
unfoldable pub delete_concern : Env → ℕ → ℕ → Exec (Unit {0})
unfolding get_own_concern_including_deleted soft_delete_concern
delete_concern env user concern_id = do
  concern ← get_own_concern_including_deleted user concern_id
  soft_delete_concern env concern

pub record AssignmentCreate : Type 0 where
  pub advisor_user_id : ℕ
  pub triage_decision : TriageDecision
  pub match_rationale : Option Json
  pub priority : AssignmentPriority

-- `validated_data.get("match_rationale") or {}`: a value that is falsy in Python gives the empty
-- object.
abbrev pub or_empty : Json → Json
or_empty (Json.boolean true) = Json.boolean true
or_empty (Json.number (suc n)) = Json.number (suc n)
or_empty (Json.text (String.◌∷◌ c s)) = Json.text (String.◌∷◌ c s)
or_empty (Json.array (JsonItems.cons x xs)) = Json.array (JsonItems.cons x xs)
or_empty (Json.object (JsonFields.field k v r)) = Json.object (JsonFields.field k v r)
or_empty _ = Json.object JsonFields.end

unfoldable pub rationale : Option Json → Json
rationale none = Json.object JsonFields.end
rationale (some j) = or_empty j

-- A row that the partial unique index of `Assignment` counts for this concern and advisor.
abbrev pub is_active_pair : ℕ → ℕ → Assignment → Bool
is_active_pair concern advisor a =
    nat_eq a.concern concern && nat_eq a.advisor advisor && a.is_active

-- `Assignment.objects.create`, which the index may refuse.
unfoldable pub create_assignment : Assignment → Exec Assignment
create_assignment a db =
    if a.is_active && any (is_active_pair a.concern a.advisor) db.assignments
    then (err (integrity_error Constraint.assignment_active), db)
    else (ok a, record db { assignments = db.assignments ++ a ∷ [] })

unfoldable pub set_status : ℕ → ConcernStatus → Exec (Unit {0})
set_status concern_id s = modify λ db. record db {
  concerns = update (concern_pk concern_id) (λ c. record c { status = s }) db.concerns;
}

abbrev pub new_assignment : Env → ℕ → ℕ → AssignmentCreate → Assignment
new_assignment env concern_id actor d = record {
  id = env.uuid 0;
  concern = concern_id;
  advisor = d.advisor_user_id;
  assigned_by = actor;
  triage_decision = d.triage_decision;
  match_rationale = rationale d.match_rationale;
  priority = d.priority;
  is_active = true;
  assigned_at = env.now;
  deactivated_at = none;
}

abbrev pub assignment_notice : Env → ℕ → ℕ → ℕ → ℕ → Notification
assignment_notice env concern_id assignment_id advisor actor = record {
  id = env.uuid 1;
  recipient = advisor;
  kind = NotificationType.assignment_created;
  title = "새로운 고민이 배정되었습니다";
  message = "배정된 고민의 내용은 배정 상세에서 확인할 수 있습니다.";
  target_url = TargetUrl.assigned_concern concern_id;
  actor_user = some actor;
  payload = ("concern_id", concern_id) ∷ ("assignment_id", assignment_id) ∷ [];
  is_read = false;
  read_at = none;
  created_at = env.now;
}

-- The status of the concern after the call, as #24 answers it.
abbrev pub after_assign : ConcernStatus → ConcernStatus
after_assign ConcernStatus.submitted = ConcernStatus.assigned
after_assign s = s

unfoldable pub assign_advisor : Env → ℕ → ℕ → AssignmentCreate → Exec (Assignment × Concern)
unfolding create_assignment set_status create_notification
assign_advisor env concern_id actor d = do
  is_advisor ← gets (λ db. any (holds d.advisor_user_id Role.advisor) db.user_roles)
  raise_if (not is_advisor) (unprocessable_entity "조언가 역할을 보유한 사용자가 아닙니다.")
  atomic do
    concern ← get_or_404 "Concern" (λ db. find? (concern_pk concern_id) db.concerns)
    raise_if (is_some concern.deleted_at) (conflict "삭제된 고민에는 배정할 수 없습니다." none)
    raise_if (concern.status == ConcernStatus.closed) (conflict "종료된 고민에는 배정할 수 없습니다." none)
    assignment ←
        catch_integrity (create_assignment (new_assignment env concern.id actor d))
          (conflict "이미 배정된 조언가입니다." none)
    when (concern.status == ConcernStatus.submitted) (set_status concern.id ConcernStatus.assigned)
    create_notification (assignment_notice env concern.id assignment.id d.advisor_user_id actor)
    pure (assignment, record concern { status = after_assign concern.status })

-- A row that keeps its concern in somebody's queue.
abbrev pub is_active_on : ℕ → Assignment → Bool
is_active_on concern a = nat_eq a.concern concern && a.is_active

unfoldable pub unassign_advisor : Env → ℕ → ℕ → Exec (Unit {0})
unfolding set_status
unassign_advisor env concern_id assignment_id = atomic do
  concern ← get_or_404 "Concern" (λ db. find? (concern_pk concern_id) db.concerns)
  assignment ← get_or_404 "Assignment" (λ db.
      find? (λ a. assignment_pk assignment_id a && nat_eq a.concern concern.id) db.assignments)
  raise_if (not assignment.is_active) (conflict "이미 해제된 배정입니다." none)
  modify (λ db. record db {
    assignments =
        update (assignment_pk assignment.id)
          (λ a. record a { is_active = false; deactivated_at = some env.now }) db.assignments;
  })
  still_assigned ← gets (λ db. any (is_active_on concern.id) db.assignments)
  when (not still_assigned && concern.status == ConcernStatus.assigned)
      (set_status concern.id ConcernStatus.submitted)
