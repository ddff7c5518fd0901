-- ===== src/Lifecycle/Roles.antt =====
-- The runs of the operations that grant, revoke and wear roles: #10, #42 and #43 of
-- accounts/services.py, and #15 of advisors/services.py.
use chamneul.Base.{ℕ, String}
use chamneul.Base.Runs.{Run, Run-kept}
use chamneul.Models.{Db, Env}
use chamneul.Models.Accounts.{Role, ActiveRole}
use chamneul.Models.Advisors.{AdvisorApplicationStatus}
use chamneul.Common.Exec.{after}
use chamneul.Accounts.Roles.{set_active_role, grant_role, revoke_role}
use chamneul.Accounts.Roles.Worn.{
  RolesHold, grant_role-RolesHold, revoke_role-RolesHold, set_active_role-RolesHold,
}
use chamneul.Advisors.{review_application}
use chamneul.Advisors.Names.{review_application-RolesHold}

-- One call; a refused call is a step too.
pub data RoleStep : Db → Db → Type 0 where
  switched :
      (env : Env) (user : ℕ) (target : ActiveRole) {db : Db}
      → RoleStep db (after (set_active_role env user target db))
  granted :
      (env : Env) (user : ℕ) (role : Role) (actor : ℕ) (reason : String) {db : Db}
      → RoleStep db (after (grant_role env user role actor reason db))
  revoked :
      (env : Env) (user : ℕ) (role : Role) (actor : ℕ) (reason : String) {db : Db}
      → RoleStep db (after (revoke_role env user role actor reason db))
  reviewed :
      (env : Env) (k actor : ℕ) (target : AdvisorApplicationStatus) (reason : String) {db : Db}
      → RoleStep db (after (review_application env k actor target reason db))

step-RolesHold : {db db' : Db} → RoleStep db db' → RolesHold db → RolesHold db'
step-RolesHold {db} (RoleStep.switched env user target) w =
    set_active_role-RolesHold env user target db w
step-RolesHold {db} (RoleStep.granted env user role actor reason) w =
    grant_role-RolesHold env user actor role reason db w
step-RolesHold {db} (RoleStep.revoked env user role actor reason) w =
    revoke_role-RolesHold env user role actor reason db w
step-RolesHold {db} (RoleStep.reviewed env k actor target reason) w =
    review_application-RolesHold env k actor target reason db w

-- Every run of #10, #15, #42 and #43 (a data type of runs, refused calls included) leads from a
-- database in which the roles are well kept to one in which they are. RolesHold: ids of users are
-- unique, a user has at most one row of a role, USER has no row, and a user whose active role is
-- ADVISOR has an ADVISOR row.
pub Run-RolesHold : {start db : Db} → Run RoleStep start db → RolesHold start → RolesHold db
Run-RolesHold r w = Run-kept RoleStep RolesHold (λ a b s t. step-RolesHold s t) r w
