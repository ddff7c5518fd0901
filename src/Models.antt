-- ===== src/Models.antt =====
-- The tables of the database, one list of rows for each model.
pub mod Taxonomy
pub mod Accounts
pub mod Advisors
pub mod Concerns
pub mod Advice
pub mod Notifications
use chamneul.Base.{ℕ, List}
use Accounts.{User, UserRole, RoleGrant, GoogleIdentity, Session}
use Advisors.{AdvisorApplication}
use Concerns.{Concern, Assignment}
use Advice.{Advice as AdviceRow, AdviceHistory, Feedback}
use Notifications.{Notification}

pub record Db : Type 0 where
  pub users : List User
  pub user_roles : List UserRole
  pub role_grants : List RoleGrant
  pub google_identities : List GoogleIdentity
  pub sessions : List Session
  pub applications : List AdvisorApplication
  pub concerns : List Concern
  pub assignments : List Assignment
  pub advices : List AdviceRow
  pub advice_histories : List AdviceHistory
  pub feedbacks : List Feedback
  pub notifications : List Notification

-- What a request draws from outside: the time, and its `uuid7()` values in order.
pub record Env : Type 0 where
  pub now : ℕ
  pub uuid : ℕ → ℕ
