-- ===== src/Tests/Concerns.antt =====
-- The theorems of Concerns and Lifecycle, applied.
use chamneul.Base.{◌≡◌, refl, true, none, some, any, All}
use chamneul.Base.Runs.{Run}
use chamneul.Models.{Db}
use chamneul.Models.Concerns.{ConcernStatus, concern_status_Eq}
use chamneul.Common.Exec.{ok, err, answer, after, no_match}
use chamneul.Concerns.{
  ConcernPatch, assign_advisor, unassign_advisor, new_assignment, update_own_concern,
  delete_concern, get_own_concern,
}
use chamneul.Concerns.Queue.{AreTracked}
use chamneul.Concerns.Editing.{no_edit_after_assignment, get_own_concern-delete}
use chamneul.Concerns.Reading.{get_assigned_concern, approved_advices_view_data}
use chamneul.Concerns.Access.{
  is_shown_as, approved_advices_view_data_approved, assign_advisor-get_assigned_concern,
}
use chamneul.Lifecycle.{Step, Reach, Reach-AreTracked}
use chamneul.Tests.Samples.{
  env, later_env, last_env, db, db-AreTracked, assignment_create, fresh_concern, taken_concern,
}

abbrev patch : ConcernPatch
patch = record {
  concern_summary = some "퇴사";
  concern_type = none;
  concern_type_secondary = none;
  preferred_advisor_lane = none;
  decision_context = none;
  display_alias = none;
  is_anonymous = none;
}

-- The concern 11 is given to the advisor, and taken back.
abbrev given : Db
given = after (assign_advisor env 11 3 assignment_create db)

abbrev taken_back : Db
taken_back = after (unassign_advisor later_env 11 1000 given)

run : Reach db taken_back
run =
    Run.later (Run.later Run.here (Step.assigned env 11 3 assignment_create refl))
      (Step.unassigned later_env 11 1000)

Reach-AreTracked_example : AreTracked taken_back
Reach-AreTracked_example = Reach-AreTracked run db-AreTracked

given_answer :
    answer (assign_advisor env 11 3 assignment_create db)
    ≡ ok (
      new_assignment env 11 3 assignment_create,
      record fresh_concern { status = ConcernStatus.assigned },
    )
unfolding assign_advisor
given_answer = refl

no_edit_after_assignment_example :
    after (update_own_concern last_env 1 11 patch taken_back) ≡ taken_back
no_edit_after_assignment_example =
    no_edit_after_assignment env later_env last_env 11 1000 3 1 assignment_create patch db
      (
        new_assignment env 11 3 assignment_create,
        record fresh_concern { status = ConcernStatus.assigned },
      )
      given_answer

withdrawn : answer (delete_concern env 1 11 db) ≡ ok tt
unfolding delete_concern
withdrawn = refl

approved_advices_view_data_approved_example :
    All
      (λ v. any (is_shown_as 10 v) db.advices ≡ true)
      (approved_advices_view_data taken_concern db)
approved_advices_view_data_approved_example = approved_advices_view_data_approved taken_concern db

assign_advisor-get_assigned_concern_example :
    answer (get_assigned_concern 2 11 given)
    ≡ ok (
      record fresh_concern { status = ConcernStatus.assigned },
      new_assignment env 11 3 assignment_create,
    )
assign_advisor-get_assigned_concern_example =
    assign_advisor-get_assigned_concern env 11 3 assignment_create fresh_concern db refl refl

get_own_concern-delete_example :
    answer (get_own_concern 1 11 (after (delete_concern env 1 11 db))) ≡ err (no_match "Concern")
get_own_concern-delete_example = get_own_concern-delete env 1 11 db withdrawn
