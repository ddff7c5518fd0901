-- ===== src/Api/Reads.antt =====
-- The handlers of the GET requests of the API.
use chamneul.Base.{ℕ, ◌≡◌, refl, ◌∙◌, Bool, true, false, Option, List, arith}
use chamneul.Models.{Db, Env}
use chamneul.Models.Accounts.{User}
use chamneul.Models.Concerns.{Concern, Assignment}
use chamneul.Models.Advice.{Advice}
use chamneul.Common.Exec.{Exec, Result, ok, err, after}
use chamneul.Common.Requests.{Reply, Permission, dispatch}
use chamneul.Concerns.{get_own_concern}
use chamneul.Concerns.Reading.{
  get_assigned_concern, assigned_concern_detail_view_data, requester_display_name,
}
use chamneul.Concerns.Admin.{get_concern_for_admin}
use chamneul.Advice.Reading.{get_visible_advice}
use chamneul.Feedback.{get_feedback}
use chamneul.Notifications.{get_my_notification}
use chamneul.Api.Reading.{IsReading, reading, dispatch_reads}
use chamneul.Api.Requests.{Server, Request, only_status, serve}
use chamneul.Api.Concerns.{get_concerns, get_concern}
use chamneul.Api.Assigned.{
  get_assigned_concerns, get_assigned_concern_view, get_admin_concerns, get_admin_concern,
}
use chamneul.Api.Advice.{advisor_display_name}
use chamneul.Api.AdviceViews.{
  get_advices_written, get_advice, get_admin_advices, get_received_advices,
}
use chamneul.Api.Feedback.{get_my_feedbacks, get_admin_feedbacks, get_admin_feedback}
use chamneul.Api.Advisors.{get_my_application, get_admin_applications, get_admin_application}
use chamneul.Api.Notifications.{get_notifications, get_notification}
use chamneul.Api.Users.{get_me, get_my_roles}

-- The reads of the services that the views call.
get_visible_advice_reads : (k : ℕ) (u : User) → IsReading (get_visible_advice k u)
unfolding get_visible_advice
get_visible_advice_reads k u = search reading depth 9

requester_display_name_reads : (c : Concern) → IsReading (requester_display_name c)
unfolding requester_display_name
requester_display_name_reads c = search reading depth 9

get_assigned_concern_reads : (advisor k : ℕ) → IsReading (get_assigned_concern advisor k)
unfolding get_assigned_concern
get_assigned_concern_reads advisor k = search reading depth 9

assigned_detail_reads :
    (c : Concern) (a : Assignment) (advisor : ℕ)
    → IsReading (assigned_concern_detail_view_data c a advisor)
unfolding assigned_concern_detail_view_data
assigned_detail_reads c a advisor = search (reading, requester_display_name_reads) depth 9

advisor_display_name_reads : (a : Advice) → IsReading (advisor_display_name a)
unfolding advisor_display_name
advisor_display_name_reads a = search reading depth 9

after-only_status : {A : Type 0} (r : Result (Reply A) × Db) → after (only_status r) ≡ after r
after-only_status (ok r, db) = refl
after-only_status (err e, db) = refl

view_reads :
    {A : Type 0} (s : Server) (ps : List Permission) (handler : User → Exec (Reply A))
    (u : Option User) (db : Db)
    → ((user : User) → IsReading (handler user))
    → after (only_status (dispatch s.gate ps u handler db)) ≡ db
view_reads s ps handler u db reads =
    after-only_status (dispatch s.gate ps u handler db)
    ∙ (dispatch_reads s.gate ps handler reads u).keeps db

-- The requests that are GET.
abbrev pub is_get : Request → Bool
is_get Request.me = true
is_get Request.my_roles = true
is_get Request.my_application = true
is_get (Request.applications _ _) = true
is_get (Request.application _) = true
is_get (Request.concerns _ _) = true
is_get (Request.concern _) = true
is_get (Request.assigned_concerns _ _) = true
is_get (Request.assigned_concern _) = true
is_get (Request.all_concerns _ _) = true
is_get (Request.any_concern _) = true
is_get (Request.received_advices _ _) = true
is_get (Request.advice _) = true
is_get (Request.written_advices _ _) = true
is_get (Request.advices _ _) = true
is_get (Request.my_feedbacks _) = true
is_get (Request.feedbacks _ _) = true
is_get (Request.feedback _) = true
is_get (Request.notifications _ _) = true
is_get (Request.notification _) = true
is_get _ = false

-- Their handlers write nothing.
pub serve_reads :
    (s : Server) (env : Env) (req : Request) (u : Option User) (db : Db)
    → is_get req ≡ true
    → after (serve s env req u db) ≡ db
unfolding get_me get_my_roles get_my_application get_admin_applications get_admin_application
    get_concerns get_concern get_assigned_concerns get_assigned_concern_view get_admin_concerns
    get_admin_concern get_received_advices get_advice get_advices_written get_admin_advices
    get_my_feedbacks get_admin_feedbacks get_admin_feedback get_notifications get_notification
    get_own_concern get_concern_for_admin get_feedback get_my_notification
serve_reads s env Request.me u db h = view_reads s _ _ u db (λ user. search reading depth 9)
serve_reads s env Request.my_roles u db h = view_reads s _ _ u db (λ user. search reading depth 9)
serve_reads s env Request.my_application u db h =
    view_reads s _ _ u db (λ user. search reading depth 9)
serve_reads s env (Request.applications q filters) u db h =
    view_reads s _ _ u db (λ user. search reading depth 9)
serve_reads s env (Request.application k) u db h =
    view_reads s _ _ u db (λ user. search reading depth 9)
serve_reads s env (Request.concerns q filters) u db h =
    view_reads s _ _ u db (λ user. search reading depth 9)
serve_reads s env (Request.concern k) u db h =
    view_reads s _ _ u db (λ user. search reading depth 9)
serve_reads s env (Request.assigned_concerns q filters) u db h =
    view_reads s _ _ u db (λ user. search reading depth 9)
serve_reads s env (Request.assigned_concern k) u db h =
    view_reads s _ _ u db
      (λ user. search (reading, get_assigned_concern_reads, assigned_detail_reads) depth 9)
serve_reads s env (Request.all_concerns q filters) u db h =
    view_reads s _ _ u db (λ user. search reading depth 9)
serve_reads s env (Request.any_concern k) u db h =
    view_reads s _ _ u db (λ user. search reading depth 9)
serve_reads s env (Request.received_advices q filters) u db h =
    view_reads s _ _ u db (λ user. search reading depth 9)
serve_reads s env (Request.advice k) u db h =
    view_reads s _ _ u db
      (λ user. search (reading, get_visible_advice_reads, advisor_display_name_reads) depth 9)
serve_reads s env (Request.written_advices q filters) u db h =
    view_reads s _ _ u db (λ user. search reading depth 9)
serve_reads s env (Request.advices q filters) u db h =
    view_reads s _ _ u db (λ user. search reading depth 9)
serve_reads s env (Request.my_feedbacks q) u db h =
    view_reads s _ _ u db (λ user. search reading depth 9)
serve_reads s env (Request.feedbacks q filters) u db h =
    view_reads s _ _ u db (λ user. search reading depth 9)
serve_reads s env (Request.feedback k) u db h =
    view_reads s _ _ u db (λ user. search reading depth 9)
serve_reads s env (Request.notifications q filters) u db h =
    view_reads s _ _ u db (λ user. search reading depth 9)
serve_reads s env (Request.notification k) u db h =
    view_reads s _ _ u db (λ user. search reading depth 9)
serve_reads s env (Request.update_me _) u db h = absurd (ground arith)
serve_reads s env (Request.switch_role _) u db h = absurd (ground arith)
serve_reads s env (Request.grant _ _) u db h = absurd (ground arith)
serve_reads s env (Request.revoke _ _ _) u db h = absurd (ground arith)
serve_reads s env (Request.apply _) u db h = absurd (ground arith)
serve_reads s env (Request.review_application _ _) u db h = absurd (ground arith)
serve_reads s env (Request.create_concern _) u db h = absurd (ground arith)
serve_reads s env (Request.update_concern _ _) u db h = absurd (ground arith)
serve_reads s env (Request.delete_concern _) u db h = absurd (ground arith)
serve_reads s env (Request.assign _ _) u db h = absurd (ground arith)
serve_reads s env (Request.unassign _ _) u db h = absurd (ground arith)
serve_reads s env (Request.write_advice _ _) u db h = absurd (ground arith)
serve_reads s env (Request.update_advice _ _) u db h = absurd (ground arith)
serve_reads s env (Request.delete_advice _) u db h = absurd (ground arith)
serve_reads s env (Request.review_advice _ _) u db h = absurd (ground arith)
serve_reads s env (Request.rate _ _) u db h = absurd (ground arith)
serve_reads s env (Request.move_feedback _ _) u db h = absurd (ground arith)
serve_reads s env (Request.read_notification _) u db h = absurd (ground arith)
