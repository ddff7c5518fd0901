-- ===== src/Api/Requests.antt =====
-- The requests of signed-in users as one type: the routes of accounts/urls.py, advisors/urls.py,
-- concerns/urls.py, advice/urls.py and notifications/urls.py, by number, with what each reads.
use chamneul.Base.{ℕ, String, Bool, Option, is_some}
use chamneul.Models.{Db, Env}
use chamneul.Models.Accounts.{User, ActiveRole}
use chamneul.Models.Advice.{AdviceStatus}
use chamneul.Common.Exec.{Exec, Result, ok, err}
use chamneul.Common.Requests.{Reply, Gate}
use chamneul.Common.Pagination.{Paginator, Paging}
use chamneul.Accounts.Roles.{is_active_advisor, is_admin}
use chamneul.Accounts.Saving.{ProfilePatch}
use chamneul.Concerns.{ConcernCreate, ConcernPatch, AssignmentCreate}
use chamneul.Advice.{AdviceCreate, AdvicePatch}
use chamneul.Feedback.{FeedbackCreate}
use chamneul.Advisors.{ApplicationCreate}
use chamneul.Api.Queries.{Lookups}
use chamneul.Api.Concerns.{
  get_concerns, post_concern, get_concern, patch_concern, delete_concern_view,
}
use chamneul.Api.Assigned.{
  ConcernQuery, get_assigned_concerns, get_assigned_concern_view, get_admin_concerns,
  get_admin_concern, post_assignment, delete_assignment,
}
use chamneul.Api.Advice.{AdviceWrittenQuery, ReceivedAdviceQuery, AdviceReview}
use chamneul.Api.AdviceViews.{
  post_advice, get_advices_written, get_advice, patch_advice, delete_advice_view, get_admin_advices,
  patch_review, get_received_advices,
}
use chamneul.Api.Feedback.{
  AdminFeedbackQuery, FeedbackTransition, post_feedback, get_my_feedbacks, get_admin_feedbacks,
  get_admin_feedback, patch_feedback,
}
use chamneul.Api.Advisors.{
  ApplicationReview, post_application, get_my_application, get_admin_applications,
  get_admin_application, patch_application,
}
use chamneul.Api.Notifications.{NotificationQuery, get_notifications, get_notification, patch_read}
use chamneul.Api.Users.{
  RoleGrantRequest, GrantChoice, get_me, patch_me, get_my_roles, patch_active_role, post_user_role,
  delete_user_role,
}

-- What the framework gives to every handler.
pub record Server : Type 1 where
  pub gate : Gate
  pub paginator : Paginator
  pub lookups : Lookups

-- A request: the path, the query, and what its serializer makes of the body. The segment of #43 is one
-- that resolves.
pub data Request : Type 0 where
  me my_roles : Request
  update_me : Result ProfilePatch → Request
  switch_role : Result ActiveRole → Request
  grant : ℕ → Result RoleGrantRequest → Request
  revoke : ℕ → GrantChoice → Option String → Request
  apply : Result ApplicationCreate → Request
  my_application : Request
  applications : Paging → Option String → Request
  application : ℕ → Request
  review_application : ℕ → Result ApplicationReview → Request
  create_concern : Result ConcernCreate → Request
  concerns : Paging → Option String → Request
  concern : ℕ → Request
  update_concern : ℕ → Result ConcernPatch → Request
  delete_concern : ℕ → Request
  assigned_concerns : Paging → Option String → Request
  assigned_concern : ℕ → Request
  all_concerns : Paging → ConcernQuery → Request
  any_concern : ℕ → Request
  assign : ℕ → Result AssignmentCreate → Request
  unassign : ℕ → ℕ → Request
  received_advices : Paging → Result ReceivedAdviceQuery → Request
  advice : ℕ → Request
  write_advice : ℕ → Result AdviceCreate → Request
  update_advice : ℕ → Result AdvicePatch → Request
  delete_advice : ℕ → Request
  written_advices : Paging → Result AdviceWrittenQuery → Request
  advices : Paging → Result (Option AdviceStatus) → Request
  review_advice : ℕ → Result AdviceReview → Request
  rate : ℕ → Result FeedbackCreate → Request
  my_feedbacks : Paging → Request
  feedbacks : Paging → Result AdminFeedbackQuery → Request
  feedback : ℕ → Request
  move_feedback : ℕ → Result FeedbackTransition → Request
  notifications : Paging → Result NotificationQuery → Request
  notification read_notification : ℕ → Request

abbrev pub segment : GrantChoice → String
segment GrantChoice.advisor = "ADVISOR"
segment GrantChoice.admin = "ADMIN"

-- The status of a response, without its body.
abbrev pub only_status : {A : Type 0} → Result (Reply A) × Db → Result ℕ × Db
only_status (ok r, db) = (ok r.status, db)
only_status (err e, db) = (err e, db)

-- The handler of a request.
abbrev pub serve : Server → Env → Request → Option User → Exec ℕ
serve s env Request.me u db = only_status (get_me s.gate u db)
serve s env Request.my_roles u db = only_status (get_my_roles s.gate u db)
serve s env (Request.update_me p) u db = only_status (patch_me s.gate env p u db)
serve s env (Request.switch_role r) u db = only_status (patch_active_role s.gate env r u db)
serve s env (Request.grant k r) u db = only_status (post_user_role s.gate env k r u db)
serve s env (Request.revoke k c r) u db =
    only_status (delete_user_role s.gate env k (segment c) r u db)
serve s env (Request.apply d) u db = only_status (post_application s.gate env d u db)
serve s env Request.my_application u db = only_status (get_my_application s.gate u db)
serve s env (Request.applications q f) u db =
    only_status (get_admin_applications s.gate s.paginator q f u db)
serve s env (Request.application k) u db = only_status (get_admin_application s.gate k u db)
serve s env (Request.review_application k d) u db =
    only_status (patch_application s.gate env k d u db)
serve s env (Request.create_concern d) u db = only_status (post_concern s.gate env d u db)
serve s env (Request.concerns q f) u db = only_status (get_concerns s.gate s.paginator q f u db)
serve s env (Request.concern k) u db = only_status (get_concern s.gate k u db)
serve s env (Request.update_concern k d) u db = only_status (patch_concern s.gate env k d u db)
serve s env (Request.delete_concern k) u db = only_status (delete_concern_view s.gate env k u db)
serve s env (Request.assigned_concerns q f) u db =
    only_status (get_assigned_concerns s.gate s.paginator q f u db)
serve s env (Request.assigned_concern k) u db =
    only_status (get_assigned_concern_view s.gate k u db)
serve s env (Request.all_concerns q f) u db =
    only_status (get_admin_concerns s.gate s.lookups s.paginator q f u db)
serve s env (Request.any_concern k) u db = only_status (get_admin_concern s.gate k u db)
serve s env (Request.assign k d) u db = only_status (post_assignment s.gate env k d u db)
serve s env (Request.unassign k j) u db = only_status (delete_assignment s.gate env k j u db)
serve s env (Request.received_advices q f) u db =
    only_status (get_received_advices s.gate s.lookups s.paginator q f u db)
serve s env (Request.advice k) u db = only_status (get_advice s.gate k u db)
serve s env (Request.write_advice k d) u db = only_status (post_advice s.gate env k d u db)
serve s env (Request.update_advice k d) u db = only_status (patch_advice s.gate env k d u db)
serve s env (Request.delete_advice k) u db = only_status (delete_advice_view s.gate k u db)
serve s env (Request.written_advices q f) u db =
    only_status (get_advices_written s.gate s.lookups s.paginator q f u db)
serve s env (Request.advices q f) u db = only_status (get_admin_advices s.gate s.paginator q f u db)
serve s env (Request.review_advice k d) u db = only_status (patch_review s.gate env k d u db)
serve s env (Request.rate k d) u db = only_status (post_feedback s.gate env k d u db)
serve s env (Request.my_feedbacks q) u db = only_status (get_my_feedbacks s.gate s.paginator q u db)
serve s env (Request.feedbacks q f) u db =
    only_status (get_admin_feedbacks s.gate s.paginator q f u db)
serve s env (Request.feedback k) u db = only_status (get_admin_feedback s.gate k u db)
serve s env (Request.move_feedback k d) u db = only_status (patch_feedback s.gate env k d u db)
serve s env (Request.notifications q f) u db =
    only_status (get_notifications s.gate s.paginator q f u db)
serve s env (Request.notification k) u db = only_status (get_notification s.gate k u db)
serve s env (Request.read_notification k) u db = only_status (patch_read s.gate env k u db)

-- Who may make a request, by the permission matrix: any signed-in user, an advisor in that role, or
-- an admin.
pub data Level : Type 0 where
  signed_in advisor admin : Level

abbrev pub permits : Level → Option User → Db → Bool
permits Level.signed_in u db = is_some u
permits Level.advisor u db = is_active_advisor u
permits Level.admin u db = is_admin u db

abbrev pub required : Request → Level
required (Request.grant _ _) = Level.admin
required (Request.revoke _ _ _) = Level.admin
required (Request.applications _ _) = Level.admin
required (Request.application _) = Level.admin
required (Request.review_application _ _) = Level.admin
required (Request.all_concerns _ _) = Level.admin
required (Request.any_concern _) = Level.admin
required (Request.assign _ _) = Level.admin
required (Request.unassign _ _) = Level.admin
required (Request.advices _ _) = Level.admin
required (Request.review_advice _ _) = Level.admin
required (Request.feedbacks _ _) = Level.admin
required (Request.feedback _) = Level.admin
required (Request.move_feedback _ _) = Level.admin
required (Request.assigned_concerns _ _) = Level.advisor
required (Request.assigned_concern _) = Level.advisor
required (Request.write_advice _ _) = Level.advisor
required (Request.update_advice _ _) = Level.advisor
required (Request.delete_advice _) = Level.advisor
required (Request.written_advices _ _) = Level.advisor
required _ = Level.signed_in
