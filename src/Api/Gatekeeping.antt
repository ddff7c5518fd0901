-- ===== src/Api/Gatekeeping.antt =====
-- The gate of the API: who is refused, and what a refusal writes (the permission classes of all views,
-- with common/permissions.py and common/exceptions.py).
use chamneul.Base.{ℕ, ◌≡◌, refl, false, Option, none, some, List, arith}
use chamneul.Models.{Db, Env}
use chamneul.Models.Accounts.{User, active_role_Eq}
use chamneul.Common.Errors.{Error}
use chamneul.Common.Exec.{Exec, Result, err}
use chamneul.Common.Envelope.{ErrorHandling, ErrorResponse, api_exception_handler}
use chamneul.Common.Answers.{api_exception_handler_lem}
use chamneul.Common.Requests.{
  Reply, Permission, all_grant, grants, dispatch, dispatch_denied, dispatch_anonymous,
}
use chamneul.Api.Permissions.{authenticated, advisors_only, admins_only}
use chamneul.Api.Requests.{Server, Request, only_status, serve, Level, permits, required}
use chamneul.Api.Concerns.{
  get_concerns, post_concern, get_concern, patch_concern, delete_concern_view,
}
use chamneul.Api.Assigned.{
  get_assigned_concerns, get_assigned_concern_view, get_admin_concerns, get_admin_concern,
  post_assignment, delete_assignment,
}
use chamneul.Api.AdviceViews.{
  post_advice, get_advices_written, get_advice, patch_advice, delete_advice_view, get_admin_advices,
  patch_review, get_received_advices,
}
use chamneul.Api.Feedback.{
  post_feedback, get_my_feedbacks, get_admin_feedbacks, get_admin_feedback, patch_feedback,
}
use chamneul.Api.Advisors.{
  post_application, get_my_application, get_admin_applications, get_admin_application,
  patch_application,
}
use chamneul.Api.Notifications.{get_notifications, get_notification, patch_read}
use chamneul.Api.Users.{
  GrantChoice, get_me, patch_me, get_my_roles, patch_active_role, post_user_role, delete_user_role,
  grantable_role,
}

-- 401 for an anonymous request, 403 for a user.
abbrev pub refusal_status : Option User → ℕ
refusal_status none = 401
refusal_status (some u) = 403

-- The call raised an error that is answered with that status, and wrote nothing.
abbrev pub HasRefused : ErrorHandling → ℕ → Db → Result ℕ × Db → Type 0
HasRefused f s db r =
    (e : Error) × (x : ErrorResponse) × (r ≡ (err e, db))
    × (api_exception_handler f e ≡ some x)
    × (x.status ≡ s)

module _ (s : Server) (f : ErrorHandling) {A : Type 0} (ps : List Permission)
    (handler : User → Exec (Reply A)) (db : Db) where
  gate_refused :
      (u : Option User)
      → all_grant (grants u db ps) ≡ false
      → HasRefused f (refusal_status u) db (only_status (dispatch s.gate ps u handler db))
  gate_refused none h =
      let (d, e) = dispatch_anonymous s.gate ps handler db h in
      (
        Error.authentication_failed d,
        _,
        rw e refl,
        api_exception_handler_lem f (Error.authentication_failed d),
        refl,
      )
  gate_refused (some u) h =
      let (d, e) = dispatch_denied s.gate ps handler db u h in
      (
        Error.permission_denied d,
        _,
        rw e refl,
        api_exception_handler_lem f (Error.permission_denied d),
        refl,
      )

module _ (s : Server) (f : ErrorHandling) {A : Type 0} (handler : User → Exec (Reply A))
    (db : Db) where
  signed_in_refused :
      (u : Option User)
      → permits Level.signed_in u db ≡ false
      → HasRefused f
          (refusal_status u)
          db
          (only_status (dispatch s.gate (authenticated s.gate) u handler db))
  signed_in_refused none h =
      gate_refused s f (authenticated s.gate) handler db none (ground (arith, s.gate.on_anonymous))
  signed_in_refused (some u) h = absurd (ground arith)

  advisor_refused :
      (u : Option User)
      → permits Level.advisor u db ≡ false
      → HasRefused f
          (refusal_status u)
          db
          (only_status (dispatch s.gate (advisors_only s.gate) u handler db))
  advisor_refused none h =
      gate_refused s f (advisors_only s.gate) handler db none (ground (arith, s.gate.on_anonymous))
  advisor_refused (some u) h =
      gate_refused s f (advisors_only s.gate) handler db (some u) (ground (arith, s.gate.on_user u))

  admin_refused :
      (u : Option User)
      → permits Level.admin u db ≡ false
      → HasRefused f (refusal_status u) db (only_status (dispatch s.gate admins_only u handler db))
  admin_refused u h = gate_refused s f admins_only handler db u (ground arith)

-- A request of the API whose user does not meet its level raises an error that the handler of
-- exceptions answers with 401, where nobody is signed in, or with 403, and writes nothing. The
-- levels are: #13 to #15, #22 to #25, #32, #33, #36 to #38, #42 and #43 want an admin, #20, #21 and
-- #28 to #31 a user in the role ADVISOR, and #7 to #12, #16 to #19, #26, #27, #34, #35, #39 to #41
-- and #47 a user. #43 is taken for the segments that match its route.
pub serve_refused :
    (s : Server) (f : ErrorHandling) (env : Env) (req : Request) (u : Option User) (db : Db)
    → permits (required req) u db ≡ false
    → HasRefused f (refusal_status u) db (serve s env req u db)
unfolding get_me get_my_roles patch_me patch_active_role post_user_role delete_user_role
    post_application get_my_application get_admin_applications get_admin_application
    patch_application post_concern get_concerns get_concern patch_concern delete_concern_view
    get_assigned_concerns get_assigned_concern_view get_admin_concerns get_admin_concern
    post_assignment delete_assignment get_received_advices get_advice post_advice patch_advice
    delete_advice_view get_advices_written get_admin_advices patch_review post_feedback
    get_my_feedbacks get_admin_feedbacks get_admin_feedback patch_feedback get_notifications
    get_notification patch_read grantable_role
serve_refused s f env Request.me u db h = signed_in_refused s f _ db u h
serve_refused s f env Request.my_roles u db h = signed_in_refused s f _ db u h
serve_refused s f env (Request.update_me p) u db h = signed_in_refused s f _ db u h
serve_refused s f env (Request.switch_role r) u db h = signed_in_refused s f _ db u h
serve_refused s f env (Request.grant k r) u db h = admin_refused s f _ db u h
serve_refused s f env (Request.revoke k GrantChoice.advisor r) u db h = admin_refused s f _ db u h
serve_refused s f env (Request.revoke k GrantChoice.admin r) u db h = admin_refused s f _ db u h
serve_refused s f env (Request.apply d) u db h = signed_in_refused s f _ db u h
serve_refused s f env Request.my_application u db h = signed_in_refused s f _ db u h
serve_refused s f env (Request.applications q filters) u db h = admin_refused s f _ db u h
serve_refused s f env (Request.application k) u db h = admin_refused s f _ db u h
serve_refused s f env (Request.review_application k d) u db h = admin_refused s f _ db u h
serve_refused s f env (Request.create_concern d) u db h = signed_in_refused s f _ db u h
serve_refused s f env (Request.concerns q filters) u db h = signed_in_refused s f _ db u h
serve_refused s f env (Request.concern k) u db h = signed_in_refused s f _ db u h
serve_refused s f env (Request.update_concern k d) u db h = signed_in_refused s f _ db u h
serve_refused s f env (Request.delete_concern k) u db h = signed_in_refused s f _ db u h
serve_refused s f env (Request.assigned_concerns q filters) u db h = advisor_refused s f _ db u h
serve_refused s f env (Request.assigned_concern k) u db h = advisor_refused s f _ db u h
serve_refused s f env (Request.all_concerns q filters) u db h = admin_refused s f _ db u h
serve_refused s f env (Request.any_concern k) u db h = admin_refused s f _ db u h
serve_refused s f env (Request.assign k d) u db h = admin_refused s f _ db u h
serve_refused s f env (Request.unassign k j) u db h = admin_refused s f _ db u h
serve_refused s f env (Request.received_advices q filters) u db h = signed_in_refused s f _ db u h
serve_refused s f env (Request.advice k) u db h = signed_in_refused s f _ db u h
serve_refused s f env (Request.write_advice k d) u db h = advisor_refused s f _ db u h
serve_refused s f env (Request.update_advice k d) u db h = advisor_refused s f _ db u h
serve_refused s f env (Request.delete_advice k) u db h = advisor_refused s f _ db u h
serve_refused s f env (Request.written_advices q filters) u db h = advisor_refused s f _ db u h
serve_refused s f env (Request.advices q filters) u db h = admin_refused s f _ db u h
serve_refused s f env (Request.review_advice k d) u db h = admin_refused s f _ db u h
serve_refused s f env (Request.rate k d) u db h = signed_in_refused s f _ db u h
serve_refused s f env (Request.my_feedbacks q) u db h = signed_in_refused s f _ db u h
serve_refused s f env (Request.feedbacks q filters) u db h = admin_refused s f _ db u h
serve_refused s f env (Request.feedback k) u db h = admin_refused s f _ db u h
serve_refused s f env (Request.move_feedback k d) u db h = admin_refused s f _ db u h
serve_refused s f env (Request.notifications q filters) u db h = signed_in_refused s f _ db u h
serve_refused s f env (Request.notification k) u db h = signed_in_refused s f _ db u h
serve_refused s f env (Request.read_notification k) u db h = signed_in_refused s f _ db u h
