-- ===== src/Api/Advisors.antt =====
-- advisors/views.py and advisors/serializers.py.
use chamneul.Base.{
  ℕ, String, Bool, true, Option, none, some, List, [], ◌∷◌, ◌==◌, string_Eq, nat_eq, if◌then◌else◌,
  filter, find?, map, is_filled,
}
use chamneul.Base.Order.{newest_first}
use chamneul.Models.{Env}
use chamneul.Models.Taxonomy.{ConcernType}
use chamneul.Models.Accounts.{User}
use chamneul.Models.Advisors.{
  AdvisorApplication, AdvisorApplicationStatus, DomainCategory, ExperienceBand, CurrentStatus,
  IntendedLane,
}
use chamneul.Common.Errors.{validation_error}
use chamneul.Common.Exec.{Exec, Result, ok, err, pure, gets, lift, get_or_404, ◌>>=◌}
use chamneul.Common.Requests.{Reply, replies, Gate, dispatch}
use chamneul.Common.Pagination.{Paginator, Paging, Listing, list_view}
use chamneul.Accounts.Roles.{latest, user_pk}
use chamneul.Concerns.Reading.{joined}
use chamneul.Advisors.{
  ApplicationCreate, application_pk, application_status_value, create_application,
  review_application,
}
use chamneul.Api.Permissions.{authenticated, admins_only}

pub record ApplicationCreateResult : Type 0 where
  pub application_id : ℕ
  pub status : AdvisorApplicationStatus
  pub submitted_at : ℕ

-- What the applicant sees (#12): no `intended_lane`.
pub record ApplicationMe : Type 0 where
  pub application_id : ℕ
  pub display_name : String
  pub status : AdvisorApplicationStatus
  pub submitted_at : ℕ
  pub reviewed_at : Option ℕ
  pub reject_reason : String

unfoldable pub application_me : AdvisorApplication → ApplicationMe
application_me a = record {
  application_id = a.id;
  display_name = a.display_name;
  status = a.status;
  submitted_at = a.submitted_at;
  reviewed_at = a.reviewed_at;
  reject_reason = a.reject_reason;
}

-- The two bodies of #12: a row, or a text with the status 404.
pub data MyApplication : Type 0 where
  found : ApplicationMe → MyApplication
  detail : String → MyApplication

unfoldable pub my_application : Option AdvisorApplication → Reply MyApplication
unfolding application_me
my_application none = replies 404 (MyApplication.detail "신청 이력이 없습니다.")
my_application (some a) = replies 200 (MyApplication.found (application_me a))

pub record ApplicationRow : Type 0 where
  pub application_id : ℕ
  pub applicant_user_id : ℕ
  pub display_name : String
  pub status : AdvisorApplicationStatus
  pub submitted_at : ℕ

unfoldable pub application_row : AdvisorApplication × User → ApplicationRow
application_row (a, u) = record {
  application_id = a.id;
  applicant_user_id = a.applicant;
  display_name = a.display_name;
  status = a.status;
  submitted_at = a.submitted_at;
}

pub record ApplicationDetail : Type 0 where
  pub application_id : ℕ
  pub applicant_user_id : ℕ
  pub display_name : String
  pub domain_category : DomainCategory
  pub experience_band : ExperienceBand
  pub current_status : CurrentStatus
  pub intended_lane : IntendedLane
  pub career_narrative : String
  pub advisable_concern_types : List ConcernType
  pub sample_advice_response : String
  pub status : AdvisorApplicationStatus
  pub submitted_at : ℕ
  pub reviewed_at : Option ℕ
  pub reviewed_by : Option ℕ
  pub reject_reason : String

unfoldable pub application_detail : AdvisorApplication → ApplicationDetail
application_detail a = record {
  application_id = a.id;
  applicant_user_id = a.applicant;
  display_name = a.display_name;
  domain_category = a.domain_category;
  experience_band = a.experience_band;
  current_status = a.current_status;
  intended_lane = a.intended_lane;
  career_narrative = a.career_narrative;
  advisable_concern_types = a.advisable_concern_types;
  sample_advice_response = a.sample_advice_response;
  status = a.status;
  submitted_at = a.submitted_at;
  reviewed_at = a.reviewed_at;
  reviewed_by = a.reviewed_by;
  reject_reason = a.reject_reason;
}

-- `validate_advisable_concern_types`, on what the fields have made of the body.
unfoldable pub validated_application : Result ApplicationCreate → Result ApplicationCreate
validated_application (err e) = err e
validated_application (ok d) = elim d.advisable_concern_types [
  | [] ↦ err (validation_error "advisable_concern_types" "최소 1개 이상 선택해야 합니다.")
  | ◌∷◌ _ _ ↦ ok d
]

-- The choices of `status` in #15, and the validated body.
pub data ReviewTarget : Type 0 where
  reviewing approved rejected : ReviewTarget

unfoldable pub target_status : ReviewTarget → AdvisorApplicationStatus
target_status ReviewTarget.reviewing = AdvisorApplicationStatus.reviewing
target_status ReviewTarget.approved = AdvisorApplicationStatus.approved
target_status ReviewTarget.rejected = AdvisorApplicationStatus.rejected

pub record ApplicationReview : Type 0 where
  pub status : ReviewTarget
  pub reject_reason : String

pub record ApplicationReviewResult : Type 0 where
  pub application_id : ℕ
  pub status : AdvisorApplicationStatus
  pub reviewed_at : Option ℕ
  pub reviewed_by : Option ℕ

-- `?status`: any text, compared if it is not empty.
abbrev pub has_application_status : Option String → AdvisorApplication → Bool
has_application_status none a = true
has_application_status (some q) a =
    if is_filled q then application_status_value a.status == q else true

module _ (g : Gate) where
  -- #11
  unfoldable pub post_application :
      Env → Result ApplicationCreate → Option User → Exec (Reply ApplicationCreateResult)
  unfolding validated_application
  post_application env fields u = dispatch g (authenticated g) u λ user. do
    data_ ← lift (validated_application fields)
    a ← create_application env user.id data_
    pure (
        replies 201
          (record { application_id = a.id; status = a.status; submitted_at = a.submitted_at }))

  -- #12
  unfoldable pub get_my_application : Option User → Exec (Reply MyApplication)
  unfolding my_application
  get_my_application u = dispatch g (authenticated g) u λ user. do
    application ← gets (λ db. latest (filter (λ a. nat_eq a.applicant user.id) db.applications))
    pure (my_application application)

  -- #13
  unfoldable pub get_admin_applications :
      Paginator → Paging → Option String → Option User → Exec (Reply (Listing ApplicationRow))
  get_admin_applications pg q status_filter u = dispatch g admins_only u λ user.
      list_view pg q (λ db. map application_row)
        λ db.
          filter (λ r. has_application_status status_filter r.0)
            (joined (λ (a : AdvisorApplication). a.applicant)
              (newest_first (λ (a : AdvisorApplication). a.submitted_at) db.applications) db.users)

  -- #14
  unfoldable pub get_admin_application : ℕ → Option User → Exec (Reply ApplicationDetail)
  get_admin_application application_id u = dispatch g admins_only u λ user. do
    application ←
        get_or_404 "AdvisorApplication"
          (λ db. find? (application_pk application_id) db.applications)
    applicant ←
        get_or_404 "AdvisorApplication" (λ db. find? (user_pk application.applicant) db.users)
    pure (replies 200 (application_detail application))

  -- #15
  unfoldable pub patch_application :
      Env → ℕ → Result ApplicationReview → Option User → Exec (Reply ApplicationReviewResult)
  unfolding target_status
  patch_application env application_id serializer u = dispatch g admins_only u λ user. do
    data_ ← lift serializer
    a ←
        review_application env application_id user.id (target_status data_.status)
          data_.reject_reason
    pure (
        replies 200 (record {
          application_id = a.id;
          status = a.status;
          reviewed_at = a.reviewed_at;
          reviewed_by = a.reviewed_by;
        }))
