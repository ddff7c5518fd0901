-- ===== src/Tests/Api.antt =====
-- The theorems of Api and Common, applied.
use chamneul.Base.{
  ◌+◌, update, nat_eq, if◌then◌else◌, String, ◌≡◌, refl, true, false, none, some, List, [], ◌∷◌,
  ◌++◌, ◌==◌, string_Eq, any, arith, ◌&&◌,
}
use chamneul.Base.Runs.{Run}
use chamneul.Models.{Db}
use chamneul.Models.Accounts.{User}
use chamneul.Models.Concerns.{Concern, ConcernStatus, concern_status_Eq}
use chamneul.Common.Exec.{ok, answer, after}
use chamneul.Common.Requests.{Reply, replies}
use chamneul.Common.Pagination.{Paging, Listing, paginated}
use chamneul.Common.Pages.{IsListing, paginated_bounds}
use chamneul.Concerns.{is_alive}
use chamneul.Concerns.Bulk.{ℤ, close_selected, close_selected_negative}
use chamneul.Concerns.Queue.{AreTracked}
use chamneul.Lifecycle.{Step}
use chamneul.Lifecycle.Settled.{Milestone, has_reached, is_at, Reach-settled}
use chamneul.Accounts.Roles.{is_admin}
use chamneul.Accounts.Nicknames.{Draws}
use chamneul.Api.Requests.{Request, serve}
use chamneul.Api.Gatekeeping.{HasRefused, serve_refused}
use chamneul.Api.Refines.{IsRun, serve_refines}
use chamneul.Models.Advisors.{IntendedLane}
use chamneul.Api.Advisors.{get_my_application}
use chamneul.Api.Hidden.{get_my_application_lane, with_lanes, get_assigned_concern_view_anonymous}
use chamneul.Api.Assigned.{get_assigned_concern_view}
use chamneul.Api.SessionViews.{Callback, get_google_callback, post_signup}
use chamneul.Api.Callback.{IsEntry, HasEntered, get_google_callback-IsEntry}
use chamneul.Api.Signup.{new_card, body, new_row, post_signup_lem}
use chamneul.Tests.Samples.{env, asker, advisor, taken_concern, concern, assignment_create, db}
use chamneul.Api.Renewal.{has_failed, process_request, process_get_renews}
use chamneul.Tests.Framework.{
  session_middleware, error_handling, gate, paginator, server, auth, google,
}

no_admin : is_admin (some asker) db ≡ false
unfolding is_admin
no_admin = refl

serve_refused_example :
    HasRefused error_handling 403 db
      (serve server env (Request.assign 11 (ok assignment_create)) (some asker) db)
serve_refused_example =
    serve_refused server error_handling env (Request.assign 11 (ok assignment_create)) (some asker)
      db no_admin

abbrev first_admin : User
first_admin = record asker { id = 3; nickname = "first" }

serve_refines_example :
    IsRun db
      (after (serve server env (Request.assign 11 (ok assignment_create)) (some first_admin) db))
serve_refines_example =
    serve_refines server env (Request.assign 11 (ok assignment_create)) (some first_admin) db
      ((ground arith, ground arith), ground arith)

abbrev first_page : Paging
first_page = record { page = none; size = none }

abbrev listing : Reply (Listing Concern)
listing = replies 200 (record {
  items = db.concerns;
  page_info = record { page = 1; size = 20; total = 2; total_pages = 1 };
})

listed : paginated paginator first_page (λ (xs : List Concern). xs) db.concerns ≡ ok listing
unfolding paginated chamneul.Common.Pagination.get_paginated_response
listed = refl

paginated_bounds_example : IsListing (λ (xs : List Concern). xs) db.concerns listing
paginated_bounds_example =
    paginated_bounds paginator first_page (λ (xs : List Concern). xs) (λ xs. refl) db.concerns
      listing listed

get_assigned_concern_view_anonymous_example :
    answer (get_assigned_concern_view gate 10 (some advisor) (record db { users = [] }))
    ≡ answer (get_assigned_concern_view gate 10 (some advisor) db)
get_assigned_concern_view_anonymous_example =
    get_assigned_concern_view_anonymous gate (some advisor) db 10 taken_concern [] refl refl

abbrev answered_db : Db
answered_db = record db {
  concerns = concern 10 ConcernStatus.answered ∷ concern 11 ConcernStatus.submitted ∷ [];
}

answered_db-AreTracked : AreTracked answered_db
answered_db-AreTracked = record {
  concern_keys = λ k. ground arith;
  assignment_keys = λ k. ground arith;
  unique_active = λ c a. ground arith;
  queued = ground arith;
}

Reach-settled_example :
    any
      (is_at (has_reached Milestone.answered) 10)
      (after (close_selected env (λ c. true) answered_db)).concerns
    ≡ true
Reach-settled_example =
    Reach-settled Milestone.answered 10 (Run.later Run.here (Step.closed env (λ c. true)))
      answered_db-AreTracked refl

close_selected_negative_example :
    answer (close_selected env (λ c. c.status == ConcernStatus.answered && is_alive c) answered_db)
    ≡ ok (record { updated = 1; skipped = ℤ.negsuc 0 })
close_selected_negative_example =
    close_selected_negative env (λ c. c.status == ConcernStatus.answered && is_alive c) answered_db
      (λ c h. ground arith) (omega arith)

abbrev draws : Draws
draws = record { suffix = λ i. "0007"; hex = "0190abcd" }

abbrev callback : String → Callback
callback state = record {
  error = none;
  state = some state;
  cookie_state = some "state";
  code = some "code";
}

get_google_callback-IsEntry_example :
    IsEntry
      (HasEntered auth google env 0 draws none (callback "state") db)
      db
      (get_google_callback auth google env 0 draws none (callback "state") db)
get_google_callback-IsEntry_example =
    get_google_callback-IsEntry auth google env 0 draws none (callback "state") db

abbrev newcomer : User
newcomer = new_row auth env 0 none "new" "newcomer" "password" db

post_signup_lem_example :
    post_signup auth env 0 none (body auth env 0 none "new" "newcomer" "password" db) db ≡ (
      ok (
          replies 201 (record {
            card = new_card auth env 0 none "new" "newcomer" "password" db;
            created_at = 100;
          })),
      auth.login none newcomer (record db { users = db.users ++ newcomer ∷ [] }),
    )
post_signup_lem_example =
    post_signup_lem auth env 0 none "new" "newcomer" "password" db refl refl refl

process_get_renews_example :
    after (
      process_request server session_middleware env
        (some 71)
        (Request.assigned_concern 10)
        (some advisor)
        db)
    ≡ (if has_failed (answer (serve server env (Request.assigned_concern 10) (some advisor) db))
        then db
        else record db {
          sessions =
              update
                (λ s. nat_eq s.session_key 71)
                (λ s. record s { expire_date = 100 + 1209600 })
                db.sessions;
        })
process_get_renews_example =
    process_get_renews server session_middleware env 71 (Request.assigned_concern 10) (some advisor)
      db refl

get_my_application_lane_example :
    answer (get_my_application gate (some asker) (with_lanes (λ k. IntendedLane.expert) db))
    ≡ answer (get_my_application gate (some asker) db)
get_my_application_lane_example =
    get_my_application_lane gate (some asker) db (λ k. IntendedLane.expert)
