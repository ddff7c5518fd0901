-- ===== src/Api/Refines.antt =====
-- The API as an implementation of Lifecycle: what a request does to concerns and assignments is a run of
-- at most one step of it.
use chamneul.Base.{ℕ, String, ◌≡◌, refl, ◌∙◌, true, Option, none, some, List}
use chamneul.Base.Runs.{Run}
use chamneul.Models.{Db, Env}
use chamneul.Models.Accounts.{User}
use chamneul.Models.Concerns.{Concern, Assignment}
use chamneul.Models.Advice.{Advice}
use chamneul.Common.Errors.{Error}
use chamneul.Common.Exec.{Exec, Result, ok, err, raise, lift, ◌>>=◌, ◌>>◌, after}
use chamneul.Common.Requests.{Reply, Permission, Gate, grants, run_as, admitted, dispatch}
use chamneul.Concerns.{
  ConcernCreate, ConcernPatch, AssignmentCreate, create_concern, update_own_concern, delete_concern,
  assign_advisor, unassign_advisor,
}
use chamneul.Concerns.Queue.{IsNewAssignment}
use chamneul.Advice.{Decision, review_advice}
use chamneul.Lifecycle.{IsNewConcern, Step, Reach}
use chamneul.Api.Aside.{AreKept, IsAside, aside}
use chamneul.Api.Writers.{
  set_active_role-IsAside, grant_role-IsAside, revoke_role-IsAside, update_profile-IsAside,
  create_application-IsAside, review_application-IsAside, create_advice-IsAside,
  update_advice-IsAside, delete_advice-IsAside, create_feedback-IsAside,
  transition_feedback-IsAside, mark_read-IsAside,
}
use chamneul.Api.Requests.{Server, Request, only_status, serve}
use chamneul.Api.Reads.{is_get, serve_reads}
use chamneul.Api.Concerns.{post_concern, patch_concern, delete_concern_view}
use chamneul.Api.Assigned.{post_assignment, delete_assignment}
use chamneul.Api.AdviceViews.{post_advice, patch_advice, delete_advice_view, patch_review}
use chamneul.Api.Feedback.{post_feedback, patch_feedback}
use chamneul.Api.Advisors.{post_application, patch_application}
use chamneul.Api.Notifications.{patch_read}
use chamneul.Api.Users.{
  GrantChoice, patch_me, patch_active_role, post_user_role, delete_user_role, grantable_role,
}

-- The id that the request draws for a row is that of no concern and of no assignment.
abbrev pub IsFresh : Env → Db → Type 0
IsFresh env db = IsNewConcern (env.uuid 0) db × IsNewAssignment (env.uuid 0) db

-- Some run leads to the concerns and assignments of the second database.
abbrev pub IsRun : Db → Db → Type 0
IsRun db db' = (end : Db) × Reach db end × AreKept end db'

record Runs {A : Type 0} (env : Env) (m : Exec A) : Type 0 where
  runs : (db : Db) → IsFresh env db → IsRun db (after (m db))

stays : (db : Db) → IsRun db db
stays db = (db, Run.here, (refl, refl))

module _ {A : Type 0} (env : Env) where
  aside-Runs : (m : Exec A) → IsAside m → Runs env m
  aside-Runs m h = record { runs = λ db fresh. (db, Run.here, h.keeps db) }

  lift-Runs :
      {B : Type 0} (r : Result B) (k : B → Exec A)
      → ((b : B) → Runs env (k b))
      → Runs env (lift r >>= k)
  lift-Runs (ok b) k h = record { runs = λ db fresh. (h b).runs db fresh }
  lift-Runs (err e) k h = record { runs = λ db fresh. stays db }

  -- A step, and what the handler makes of its answer.
  then-IsRun :
      {B : Type 0} (k : B → Exec A) (db : Db) (r : Result B × Db)
      → IsRun db r.1
      → ((b : B) → IsAside (k b))
      → IsRun db (after {A = A} (elim r.0 [ ok b ↦ k b r.1 | err e ↦ raise e r.1 ]))
  then-IsRun k db (ok b, db') (end, run, same) q =
      (end, run, (((q b).keeps db').0 ∙ same.0, ((q b).keeps db').1 ∙ same.1))
  then-IsRun k db (err e, db') h q = h

  step-Runs :
      {B : Type 0} (m : Exec B) (k : B → Exec A)
      → ((db : Db) → IsFresh env db → Step db (after (m db)))
      → ((b : B) → IsAside (k b))
      → Runs env (m >>= k)
  step-Runs m k s q = record {
    runs = λ db fresh.
        then-IsRun k db (m db) (after (m db), Run.later Run.here (s db fresh), (refl, refl)) q;
  }

module _ {A : Type 0} (env : Env) (g : Gate) (ps : List Permission)
    (handler : User → Exec (Reply A)) (h : (user : User) → Runs env (handler user)) where
  admitted-Runs :
      (o : Option Error) (u : Option User) (db : Db)
      → IsFresh env db
      → IsRun db (after (admitted o (run_as u handler) db))
  admitted-Runs none none db fresh = stays db
  admitted-Runs none (some u) db fresh = (h u).runs db fresh
  admitted-Runs (some e) u db fresh = stays db

  only_status-IsRun :
      (db : Db) (r : Result (Reply A) × Db) → IsRun db r.1 → IsRun db (after (only_status r))
  only_status-IsRun db (ok r, db') run = run
  only_status-IsRun db (err e, db') run = run

  view-Runs :
      (u : Option User) (db : Db)
      → IsFresh env db
      → IsRun db (after (only_status (dispatch g ps u handler db)))
  unfolding dispatch
  view-Runs u db fresh =
      only_status-IsRun db _ (admitted-Runs (g.check_permissions u (grants u db ps)) u db fresh)

module _ {A : Type 0} (env : Env) where
  created-Runs :
      (author : ℕ) (d : ConcernCreate) (k : Concern → Exec A)
      → ((c : Concern) → IsAside (k c))
      → Runs env (create_concern env author d >>= k)
  created-Runs author d k q = step-Runs env _ k (λ db f. Step.created env author d f.0) q

  edited-Runs :
      (user i : ℕ) (p : ConcernPatch) (k : Concern → Exec A)
      → ((c : Concern) → IsAside (k c))
      → Runs env (update_own_concern env user i p >>= k)
  edited-Runs user i p k q = step-Runs env _ k (λ db f. Step.edited env user i p) q

  withdrawn-Runs : (user i : ℕ) (k : Exec A) → IsAside k → Runs env (delete_concern env user i >> k)
  withdrawn-Runs user i k q = step-Runs env _ _ (λ db f. Step.withdrawn env user i) (λ x. q)

  assigned-Runs :
      (i actor : ℕ) (d : AssignmentCreate) (k : (Assignment × Concern) → Exec A)
      → ((c : Assignment × Concern) → IsAside (k c))
      → Runs env (assign_advisor env i actor d >>= k)
  assigned-Runs i actor d k q = step-Runs env _ k (λ db f. Step.assigned env i actor d f.1) q

  unassigned-Runs : (i j : ℕ) (k : Exec A) → IsAside k → Runs env (unassign_advisor env i j >> k)
  unassigned-Runs i j k q = step-Runs env _ _ (λ db f. Step.unassigned env i j) (λ x. q)

  reviewed-Runs :
      (i actor : ℕ) (d : Decision) (reason : String) (expected : ℕ)
      (k : (Advice × Concern) → Exec A)
      → ((c : Advice × Concern) → IsAside (k c))
      → Runs env (review_advice env i actor d reason expected >>= k)
  reviewed-Runs i actor d reason expected k q =
      step-Runs env _ k (λ db f. Step.reviewed env i actor d reason expected) q

-- What a reading request leaves.
read_runs :
    (s : Server) (env : Env) (req : Request) (u : Option User) (db : Db)
    → is_get req ≡ true
    → IsRun db (after (serve s env req u db))
read_runs s env req u db h = rw (serve_reads s env req u db h) (stays db)

-- Whatever a request of the API does, of #7 to #43 and #47 and by whomever, the concerns and the
-- assignments that it leaves are those of a run of Lifecycle that starts from the same database,
-- where the id that it draws first is that of no concern and of no assignment, and is named by no
-- active assignment.
pub serve_refines :
    (s : Server) (env : Env) (req : Request) (u : Option User) (db : Db)
    → IsFresh env db
    → IsRun db (after (serve s env req u db))
unfolding patch_me patch_active_role post_user_role delete_user_role post_application
    patch_application post_concern patch_concern delete_concern_view post_assignment
    delete_assignment post_advice patch_advice delete_advice_view patch_review post_feedback
    patch_feedback patch_read grantable_role
serve_refines s env Request.me u db fresh = read_runs s env Request.me u db refl
serve_refines s env Request.my_roles u db fresh = read_runs s env Request.my_roles u db refl
serve_refines s env (Request.update_me p) u db fresh =
    view-Runs env s.gate _ _ (λ user. search (aside-Runs, aside, update_profile-IsAside) depth 9) u
      db fresh
serve_refines s env (Request.switch_role r) u db fresh =
    view-Runs env s.gate _ _ (λ user. search (aside-Runs, aside, set_active_role-IsAside) depth 9) u
      db fresh
serve_refines s env (Request.grant k r) u db fresh =
    view-Runs env s.gate _ _ (λ user. search (aside-Runs, aside, grant_role-IsAside) depth 9) u db
      fresh
serve_refines s env (Request.revoke k GrantChoice.advisor r) u db fresh =
    view-Runs env s.gate _ _ (λ user. search (aside-Runs, aside, revoke_role-IsAside) depth 9) u db
      fresh
serve_refines s env (Request.revoke k GrantChoice.admin r) u db fresh =
    view-Runs env s.gate _ _ (λ user. search (aside-Runs, aside, revoke_role-IsAside) depth 9) u db
      fresh
serve_refines s env (Request.apply d) u db fresh =
    view-Runs env s.gate _ _
      (λ user. search (aside-Runs, aside, create_application-IsAside) depth 9) u db fresh
serve_refines s env Request.my_application u db fresh =
    read_runs s env Request.my_application u db refl
serve_refines s env (Request.applications q filters) u db fresh =
    read_runs s env (Request.applications q filters) u db refl
serve_refines s env (Request.application k) u db fresh =
    read_runs s env (Request.application k) u db refl
serve_refines s env (Request.review_application k d) u db fresh =
    view-Runs env s.gate _ _
      (λ user. search (aside-Runs, aside, review_application-IsAside) depth 9) u db fresh
serve_refines s env (Request.create_concern d) u db fresh =
    view-Runs env s.gate _ _ (λ user. search (lift-Runs, created-Runs, aside) depth 9) u db fresh
serve_refines s env (Request.concerns q filters) u db fresh =
    read_runs s env (Request.concerns q filters) u db refl
serve_refines s env (Request.concern k) u db fresh = read_runs s env (Request.concern k) u db refl
serve_refines s env (Request.update_concern k d) u db fresh =
    view-Runs env s.gate _ _ (λ user. search (lift-Runs, edited-Runs, aside) depth 9) u db fresh
serve_refines s env (Request.delete_concern k) u db fresh =
    view-Runs env s.gate _ _ (λ user. search (withdrawn-Runs, aside) depth 9) u db fresh
serve_refines s env (Request.assigned_concerns q filters) u db fresh =
    read_runs s env (Request.assigned_concerns q filters) u db refl
serve_refines s env (Request.assigned_concern k) u db fresh =
    read_runs s env (Request.assigned_concern k) u db refl
serve_refines s env (Request.all_concerns q filters) u db fresh =
    read_runs s env (Request.all_concerns q filters) u db refl
serve_refines s env (Request.any_concern k) u db fresh =
    read_runs s env (Request.any_concern k) u db refl
serve_refines s env (Request.assign k d) u db fresh =
    view-Runs env s.gate _ _ (λ user. search (lift-Runs, assigned-Runs, aside) depth 9) u db fresh
serve_refines s env (Request.unassign k j) u db fresh =
    view-Runs env s.gate _ _ (λ user. search (unassigned-Runs, aside) depth 9) u db fresh
serve_refines s env (Request.received_advices q filters) u db fresh =
    read_runs s env (Request.received_advices q filters) u db refl
serve_refines s env (Request.advice k) u db fresh = read_runs s env (Request.advice k) u db refl
serve_refines s env (Request.write_advice k d) u db fresh =
    view-Runs env s.gate _ _ (λ user. search (aside-Runs, aside, create_advice-IsAside) depth 9) u
      db fresh
serve_refines s env (Request.update_advice k d) u db fresh =
    view-Runs env s.gate _ _ (λ user. search (aside-Runs, aside, update_advice-IsAside) depth 9) u
      db fresh
serve_refines s env (Request.delete_advice k) u db fresh =
    view-Runs env s.gate _ _ (λ user. search (aside-Runs, aside, delete_advice-IsAside) depth 9) u
      db fresh
serve_refines s env (Request.written_advices q filters) u db fresh =
    read_runs s env (Request.written_advices q filters) u db refl
serve_refines s env (Request.advices q filters) u db fresh =
    read_runs s env (Request.advices q filters) u db refl
serve_refines s env (Request.review_advice k d) u db fresh =
    view-Runs env s.gate _ _ (λ user. search (lift-Runs, reviewed-Runs, aside) depth 9) u db fresh
serve_refines s env (Request.rate k d) u db fresh =
    view-Runs env s.gate _ _ (λ user. search (aside-Runs, aside, create_feedback-IsAside) depth 9) u
      db fresh
serve_refines s env (Request.my_feedbacks q) u db fresh =
    read_runs s env (Request.my_feedbacks q) u db refl
serve_refines s env (Request.feedbacks q filters) u db fresh =
    read_runs s env (Request.feedbacks q filters) u db refl
serve_refines s env (Request.feedback k) u db fresh = read_runs s env (Request.feedback k) u db refl
serve_refines s env (Request.move_feedback k d) u db fresh =
    view-Runs env s.gate _ _
      (λ user. search (aside-Runs, aside, transition_feedback-IsAside) depth 9) u db fresh
serve_refines s env (Request.notifications q filters) u db fresh =
    read_runs s env (Request.notifications q filters) u db refl
serve_refines s env (Request.notification k) u db fresh =
    read_runs s env (Request.notification k) u db refl
serve_refines s env (Request.read_notification k) u db fresh =
    view-Runs env s.gate _ _ (λ user. search (aside-Runs, aside, mark_read-IsAside) depth 9) u db
      fresh
