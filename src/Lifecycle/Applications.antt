-- ===== src/Lifecycle/Applications.antt =====
-- The runs of the operations that write applications: #11 and #15 of advisors/services.py.
use chamneul.Base.{ℕ, String, ◌≡◌, false, any}
use chamneul.Base.Runs.{Run, Run-kept}
use chamneul.Models.{Db, Env}
use chamneul.Models.Advisors.{AdvisorApplicationStatus}
use chamneul.Common.Exec.{after}
use chamneul.Advisors.{ApplicationCreate, application_pk, create_application, review_application}
use chamneul.Advisors.Names.{
  AreDistinct, create_application-AreDistinct, review_application-AreDistinct,
}

-- One call; a refused call is a step too.
pub data ApplicationStep : Db → Db → Type 0 where
  applied :
      (env : Env) (applicant : ℕ) (d : ApplicationCreate) {db : Db}
      → any (application_pk (env.uuid 0)) db.applications ≡ false
      → ApplicationStep db (after (create_application env applicant d db))
  reviewed :
      (env : Env) (k actor : ℕ) (target : AdvisorApplicationStatus) (reason : String) {db : Db}
      → ApplicationStep db (after (review_application env k actor target reason db))

step-AreDistinct :
    {db db' : Db}
    → ApplicationStep db db'
    → AreDistinct db.applications
    → AreDistinct db'.applications
step-AreDistinct {db} (ApplicationStep.applied env applicant d new) t =
    create_application-AreDistinct env applicant d db new t
step-AreDistinct {db} (ApplicationStep.reviewed env k actor target reason) t =
    review_application-AreDistinct env k actor target reason db t

-- Every run of #11 and #15, refused calls included, where the new ids of #11 are those of no
-- application, keeps the applications distinct. AreDistinct: ids are unique, at most one PENDING,
-- REVIEWING or APPROVED application uses a display name, and an applicant has at most one that is
-- PENDING or REVIEWING.
pub Run-AreDistinct :
    {start db : Db}
    → Run ApplicationStep start db
    → AreDistinct start.applications
    → AreDistinct db.applications
Run-AreDistinct r t =
    Run-kept ApplicationStep (λ (db : Db). AreDistinct db.applications)
      (λ a b s t. step-AreDistinct s t) r t
