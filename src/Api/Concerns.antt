-- ===== src/Api/Concerns.antt =====
-- concerns/views.py and concerns/serializers.py. What `is_valid` makes of a request body is an
-- argument: the validated data, or the error that it raises.
use chamneul.Base.{
  ℕ, String, Bool, true, Option, none, some, List, ◌==◌, string_Eq, if◌then◌else◌, filter, map,
  is_filled,
}
use chamneul.Models.{Db, Env}
use chamneul.Models.Taxonomy.{ConcernType}
use chamneul.Models.Accounts.{User}
use chamneul.Models.Concerns.{Concern, ConcernStatus, PreferredAdvisorLane}
use chamneul.Common.Exec.{Exec, Result, pure, gets, lift, ◌>>=◌, ◌>>◌}
use chamneul.Common.Requests.{Reply, replies, Gate, dispatch}
use chamneul.Common.Pagination.{Paginator, Paging, Listing, list_view}
use chamneul.Api.Permissions.{authenticated}
use chamneul.Concerns.{
  ConcernCreate, ConcernPatch, create_concern, get_own_concern, update_own_concern, delete_concern,
}
use chamneul.Concerns.Reading.{ApprovedAdvice, list_my_concerns, approved_advices_view_data}

unfoldable pub concern_status_value : ConcernStatus → String
concern_status_value ConcernStatus.submitted = "SUBMITTED"
concern_status_value ConcernStatus.assigned = "ASSIGNED"
concern_status_value ConcernStatus.answered = "ANSWERED"
concern_status_value ConcernStatus.closed = "CLOSED"

-- `if status_filter: queryset.filter(status=status_filter)`: the parameter is any text.
abbrev pub has_status : Option String → ConcernStatus → Bool
has_status none s = true
has_status (some q) s = if is_filled q then concern_status_value s == q else true

pub record ConcernCreateResult : Type 0 where
  pub concern_id : ℕ
  pub status : ConcernStatus
  pub message : String

pub record ConcernListRow : Type 0 where
  pub concern_id : ℕ
  pub concern_summary : String
  pub concern_type : ConcernType
  pub status : ConcernStatus
  pub has_approved_advice : Bool
  pub created_at : ℕ

unfoldable pub concern_list_row : Concern × Bool → ConcernListRow
concern_list_row (c, approved) = record {
  concern_id = c.id;
  concern_summary = c.concern_summary;
  concern_type = c.concern_type;
  status = c.status;
  has_approved_advice = approved;
  created_at = c.created_at;
}

pub record ConcernDetail : Type 0 where
  pub concern_id : ℕ
  pub concern_summary : String
  pub concern_type : ConcernType
  pub concern_type_secondary : List ConcernType
  pub preferred_advisor_lane : PreferredAdvisorLane
  pub decision_context : String
  pub is_anonymous : Bool
  pub status : ConcernStatus
  pub created_at : ℕ
  pub approved_advices : List ApprovedAdvice

unfoldable pub concern_detail : Concern → Db → ConcernDetail
concern_detail c db = record {
  concern_id = c.id;
  concern_summary = c.concern_summary;
  concern_type = c.concern_type;
  concern_type_secondary = c.concern_type_secondary;
  preferred_advisor_lane = c.preferred_advisor_lane;
  decision_context = c.decision_context;
  is_anonymous = c.is_anonymous;
  status = c.status;
  created_at = c.created_at;
  approved_advices = approved_advices_view_data c db;
}

module _ (g : Gate) where
  -- #17
  unfoldable pub get_concerns :
      Paginator → Paging → Option String → Option User → Exec (Reply (Listing ConcernListRow))
  get_concerns pg q status_filter u = dispatch g (authenticated g) u λ user.
      list_view pg q (λ db. map concern_list_row)
        λ db. filter (λ r. has_status status_filter r.0.status) (list_my_concerns user.id db)

  -- #16
  unfoldable pub post_concern :
      Env → Result ConcernCreate → Option User → Exec (Reply ConcernCreateResult)
  post_concern env serializer u = dispatch g (authenticated g) u λ user. do
    data_ ← lift serializer
    concern ← create_concern env user.id data_
    pure (
        replies 201
          (record { concern_id = concern.id; status = concern.status; message = "고민이 등록되었습니다." }))

  -- #18
  unfoldable pub get_concern : ℕ → Option User → Exec (Reply ConcernDetail)
  get_concern concern_id u = dispatch g (authenticated g) u λ user. do
    concern ← get_own_concern user.id concern_id
    body ← gets (concern_detail concern)
    pure (replies 200 body)

  -- #47
  unfoldable pub patch_concern :
      Env → ℕ → Result ConcernPatch → Option User → Exec (Reply ConcernDetail)
  patch_concern env concern_id serializer u = dispatch g (authenticated g) u λ user. do
    data_ ← lift serializer
    concern ← update_own_concern env user.id concern_id data_
    body ← gets (concern_detail concern)
    pure (replies 200 body)

  -- #19
  unfoldable pub delete_concern_view : Env → ℕ → Option User → Exec (Reply (Unit {0}))
  delete_concern_view env concern_id u =
      dispatch g (authenticated g) u
        λ user. do delete_concern env user.id concern_id; pure (replies 204 tt)
