-- ===== src/Advice/Reading.antt =====
-- The reads of advice/services.py: the lists #26, #31 and #32, and the detail #27.
use chamneul.Base.{
  ℕ, Bool, Option, List, ◌&&◌, ◌||◌, get_or, ◌==◌, nat_eq, if◌then◌else◌, any, filter, find?, map,
}
use chamneul.Base.Order.{newest_first}
use chamneul.Models.{Db}
use chamneul.Models.Accounts.{User, Role}
use chamneul.Models.Concerns.{Concern}
use chamneul.Models.Advice.{Advice, AdviceStatus, advice_status_Eq}
use chamneul.Common.Errors.{permission_denied}
use chamneul.Common.Exec.{Exec, pure, raise, gets, get_or_404, ◌>>=◌}
use chamneul.Accounts.Roles.{has_role}
use chamneul.Concerns.{concern_pk, is_alive}
use chamneul.Advice.{advice_pk}

unfoldable pub list_advices_written_by : ℕ → Db → List Advice
list_advices_written_by advisor db =
    newest_first (λ (a : Advice). a.created_at) (filter (λ a. nat_eq a.advisor advisor) db.advices)

-- `VIEWER_AUTHOR`, `VIEWER_OWNER` and `VIEWER_ADMIN`
pub data Viewer : Type 0 where
  author owner admin : Viewer

-- `_is_admin`
abbrev pub is_admin_user : User → Db → Bool
is_admin_user user db = user.is_superuser || has_role user.id Role.admin db

-- The three conditions of the owner's branch.
abbrev pub is_open_to_owner : ℕ → Advice → Concern → Bool
is_open_to_owner user a c = nat_eq c.author user && a.status == AdviceStatus.approved && is_alive c

-- `select_related("concern")` is an inner join through the unfiltered manager.
unfoldable pub get_visible_advice : ℕ → User → Exec (Advice × Viewer)
get_visible_advice advice_id user = do
  advice ← get_or_404 "Advice" (λ db. find? (advice_pk advice_id) db.advices)
  concern ← get_or_404 "Advice" (λ db. find? (concern_pk advice.concern) db.concerns)
  admin_user ← gets (is_admin_user user)
  if nat_eq advice.advisor user.id
      then pure (advice, Viewer.author)
      else if admin_user
      then pure (advice, Viewer.admin)
      else if is_open_to_owner user.id advice concern
      then pure (advice, Viewer.owner)
      else raise (permission_denied "조회 권한이 없습니다.")

-- The rows of #32. With no filter, or an empty one, it shows those that are pending.
unfoldable pub list_advices_for_admin_review : Option AdviceStatus → Db → List Advice
list_advices_for_admin_review status_filter db =
    filter (λ a. a.status == get_or status_filter AdviceStatus.pending)
      (newest_first (λ (a : Advice). a.created_at)
        (filter (λ a. a.is_submitted && any (λ c. concern_pk a.concern c && is_alive c) db.concerns)
          db.advices))

-- The filter of #26 over the join.
abbrev pub is_received : ℕ → Db → Advice → Bool
is_received user db a =
    any (λ c. concern_pk a.concern c && (nat_eq c.author user && is_alive c)) db.concerns
    && a.status == AdviceStatus.approved

-- Each row of #26 carries `is_feedback_submitted`.
unfoldable pub list_received_advices : ℕ → Db → List (Advice × Bool)
list_received_advices user db =
    map (λ a. (a, any (λ f. nat_eq f.advice a.id) db.feedbacks))
      (newest_first (λ (a : Advice). a.created_at) (filter (is_received user db) db.advices))
