-- ===== src/Api/Assigned.antt =====
-- The assigned concerns of the advisor and the concerns of the admin: #20 to #25 of
-- concerns/views.py, with their serializers.
use chamneul.Base.{
  ℕ, String, Bool, Option, List, [], ◌∷◌, ◌==◌, string_Eq, any, filter, map, is_some, get_or,
}
use chamneul.Models.{Env}
use chamneul.Models.Taxonomy.{ConcernType}
use chamneul.Models.Accounts.{User}
use chamneul.Models.Advice.{AdviceStatus}
use chamneul.Models.Concerns.{Concern, Assignment, ConcernStatus, AssignmentPriority}
use chamneul.Common.Exec.{Exec, Result, pure, gets, lift, ◌>>=◌, ◌>>◌}
use chamneul.Common.Requests.{Reply, replies, Gate, dispatch}
use chamneul.Common.Pagination.{Paginator, Paging, Listing, list_view}
use chamneul.Concerns.{AssignmentCreate, assign_advisor, unassign_advisor}
use chamneul.Concerns.Reading.{
  AssignedConcernDetail, list_assigned_concerns, get_assigned_concern,
  assigned_concern_detail_view_data,
}
use chamneul.Concerns.Admin.{
  AdminConcernDetail, list_concerns_for_admin, get_concern_for_admin,
  admin_concern_detail_view_data,
}
use chamneul.Api.Permissions.{advisors_only, admins_only}
use chamneul.Api.Concerns.{has_status}
use chamneul.Api.Queries.{Lookups, has_keyword, with_concern}

pub record AssignedConcernRow : Type 0 where
  pub concern_id : ℕ
  pub concern_summary : String
  pub concern_type : ConcernType
  pub assigned_at : ℕ
  pub assignment_id : ℕ
  pub advice_status : Option AdviceStatus

unfoldable pub assigned_concern_row :
    (Assignment × Option AdviceStatus) × Concern → AssignedConcernRow
assigned_concern_row ((r, status), c) = record {
  concern_id = r.concern;
  concern_summary = c.concern_summary;
  concern_type = c.concern_type;
  assigned_at = r.assigned_at;
  assignment_id = r.id;
  advice_status = status;
}

pub record AdminConcernRow : Type 0 where
  pub concern_id : ℕ
  pub author_user_id : ℕ
  pub concern_summary : String
  pub concern_type : ConcernType
  pub status : ConcernStatus
  pub is_deleted : Bool
  pub created_at : ℕ
  pub assignment_count : ℕ

unfoldable pub admin_concern_row : Concern × ℕ → AdminConcernRow
admin_concern_row (c, n) = record {
  concern_id = c.id;
  author_user_id = c.author;
  concern_summary = c.concern_summary;
  concern_type = c.concern_type;
  status = c.status;
  is_deleted = is_some c.deleted_at;
  created_at = c.created_at;
  assignment_count = n;
}

pub record AssignmentCreateResult : Type 0 where
  pub assignment_id : ℕ
  pub concern_id : ℕ
  pub advisor_user_id : ℕ
  pub assigned_by : ℕ
  pub assigned_at : ℕ
  pub priority : AssignmentPriority
  pub concern_status : ConcernStatus

-- The serializer of #24, with the status in its context.
unfoldable pub assignment_create_result : ConcernStatus → Assignment → AssignmentCreateResult
assignment_create_result status a = record {
  assignment_id = a.id;
  concern_id = a.concern;
  advisor_user_id = a.advisor;
  assigned_by = a.assigned_by;
  assigned_at = a.assigned_at;
  priority = a.priority;
  concern_status = status;
}

-- What #22 reads of the query, the texts as they are sent.
pub record ConcernQuery : Type 0 where
  pub include_deleted : Option String
  pub status : Option String
  pub keyword : Option String

-- `_TRUE_VALUES`
abbrev pub true_values : List String
true_values = "true" ∷ "1" ∷ "yes" ∷ "on" ∷ []

unfoldable pub wants_deleted : Lookups → Option String → Bool
wants_deleted t q = any (λ v. t.lower (get_or q "") == v) true_values

module _ (g : Gate) where
  -- #20
  unfoldable pub get_assigned_concerns :
      Paginator → Paging → Option String → Option User → Exec (Reply (Listing AssignedConcernRow))
  get_assigned_concerns pg q status_filter u = dispatch g (advisors_only g) u λ user.
      list_view pg q (λ db. map assigned_concern_row)
        λ db.
          filter (λ r. has_status status_filter r.1.status)
            (with_concern (λ r. r.0.concern) (list_assigned_concerns user.id db) db.concerns)

  -- #21
  unfoldable pub get_assigned_concern_view : ℕ → Option User → Exec (Reply AssignedConcernDetail)
  get_assigned_concern_view concern_id u = dispatch g (advisors_only g) u λ user. do
    row ← get_assigned_concern user.id concern_id
    data_ ← assigned_concern_detail_view_data row.0 row.1 user.id
    pure (replies 200 data_)

  -- #22
  unfoldable pub get_admin_concerns :
      Lookups
      → Paginator
      → Paging
      → ConcernQuery
      → Option User
      → Exec (Reply (Listing AdminConcernRow))
  get_admin_concerns t pg q query u = dispatch g admins_only u λ user.
      list_view pg q (λ db. map admin_concern_row)
        λ db.
          filter (λ r. has_keyword t query.keyword r.0.concern_summary)
            (filter (λ r. has_status query.status r.0.status)
              (list_concerns_for_admin (wants_deleted t query.include_deleted) db))

  -- #23
  unfoldable pub get_admin_concern : ℕ → Option User → Exec (Reply AdminConcernDetail)
  get_admin_concern concern_id u = dispatch g admins_only u λ user. do
    concern ← get_concern_for_admin concern_id
    data_ ← gets (admin_concern_detail_view_data concern)
    pure (replies 200 data_)

  -- #24
  unfoldable pub post_assignment :
      Env → ℕ → Result AssignmentCreate → Option User → Exec (Reply AssignmentCreateResult)
  post_assignment env concern_id serializer u = dispatch g admins_only u λ user. do
    data_ ← lift serializer
    made ← assign_advisor env concern_id user.id data_
    pure (replies 201 (assignment_create_result made.1.status made.0))

  -- #25
  unfoldable pub delete_assignment : Env → ℕ → ℕ → Option User → Exec (Reply (Unit {0}))
  delete_assignment env concern_id assignment_id u =
      dispatch g admins_only u
        λ user. do unassign_advisor env concern_id assignment_id; pure (replies 204 tt)
