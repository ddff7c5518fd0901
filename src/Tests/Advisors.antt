-- ===== src/Tests/Advisors.antt =====
-- The theorems of Advisors, applied.
use chamneul.Base.{◌≡◌, refl, [], ◌∷◌, ◌++◌}
use chamneul.Models.Advisors.{AdvisorApplication, AdvisorApplicationStatus}
use chamneul.Common.Exec.{ok, answer, after}
use chamneul.Advisors.{create_application, review_application, decided, rejection_notice}
use chamneul.Advisors.Review.{review_application_once, review_application_starts_with_rejection}
use chamneul.Advisors.Names.{AreDistinct}
use chamneul.Base.Runs.{Run}
use chamneul.Lifecycle.Applications.{ApplicationStep, Run-AreDistinct}
use chamneul.Tests.Samples.{
  env, later_env, db, db-AreDistinct, application, reviewing_application, application_create,
}

abbrev pub approved_row : AdvisorApplication
approved_row = decided env AdvisorApplicationStatus.approved 3 "" reviewing_application

decided_answer :
    answer (review_application env 51 3 AdvisorApplicationStatus.approved "" db) ≡ ok approved_row
unfolding review_application
decided_answer = refl

review_application_once_example :
    after (
      review_application later_env 51 4 AdvisorApplicationStatus.rejected "이유"
        (after (review_application env 51 3 AdvisorApplicationStatus.approved "" db)))
    ≡ after (review_application env 51 3 AdvisorApplicationStatus.approved "" db)
review_application_once_example =
    review_application_once env later_env 51 3 4 AdvisorApplicationStatus.approved
      AdvisorApplicationStatus.rejected "" "이유" db approved_row refl decided_answer

review_application_starts_with_rejection_example :
    (after (review_application env 50 3 AdvisorApplicationStatus.reviewing "" db)).notifications
    ≡ db.notifications ++ rejection_notice env 50 1 3 "" ∷ []
review_application_starts_with_rejection_example =
    review_application_starts_with_rejection env 50 3 "" db application refl refl

Run-AreDistinct_example :
    AreDistinct
      (after (
        review_application later_env 51 4 AdvisorApplicationStatus.approved ""
          (after (create_application env 2 application_create db)))).applications
Run-AreDistinct_example =
    Run-AreDistinct
      (Run.later (Run.later Run.here (ApplicationStep.applied env 2 application_create refl))
        (ApplicationStep.reviewed later_env 51 4 AdvisorApplicationStatus.approved ""))
      db-AreDistinct
