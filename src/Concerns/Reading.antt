-- ===== src/Concerns/Reading.antt =====
-- The reads of concerns/services.py for users: the owner's list and view (#17, #18), the advisor's
-- queue and detail (#20, #21).
use chamneul.Base.{
  ℕ, String, Bool, Option, none, some, List, [], ◌∷◌, ◌&&◌, ◌==◌, not, nat_eq, if◌then◌else◌, any,
  filter, find?, map, get_or, is_filled,
}
use chamneul.Base.Order.{newest_first, oldest_first}
use chamneul.Models.{Db}
use chamneul.Models.Taxonomy.{ConcernType}
use chamneul.Models.Accounts.{User}
use chamneul.Models.Advisors.{AdvisorApplicationStatus, advisor_application_status_Eq}
use chamneul.Models.Advice.{Advice, AdviceStatus, advice_status_Eq}
use chamneul.Models.Concerns.{Concern, Assignment}
use chamneul.Common.Errors.{does_not_exist}
use chamneul.Common.Exec.{Exec, pure, gets, or_raise, get_or_404, ◌>>=◌}
use chamneul.Accounts.Roles.{latest, user_pk}
use chamneul.Concerns.{concern_pk, is_alive}

abbrev pub is_approved_on : ℕ → Advice → Bool
is_approved_on concern a = nat_eq a.concern concern && a.status == AdviceStatus.approved

-- Each row of #17 carries `has_approved_advice`.
unfoldable pub list_my_concerns : ℕ → Db → List (Concern × Bool)
list_my_concerns user db =
    map (λ c. (c, any (is_approved_on c.id) db.advices))
      (newest_first (λ (c : Concern). c.created_at)
        (filter (λ c. is_alive c && nat_eq c.author user) db.concerns))

-- The dictionary as its lookup: the display name of the advisor's latest approved application.
unfoldable pub display_names_by_advisor : List ℕ → Db → ℕ → Option String
display_names_by_advisor advisor_ids db advisor =
    elim (latest (
      filter
        (λ r.
          nat_eq r.applicant advisor
          && r.status == AdvisorApplicationStatus.approved
          && any (nat_eq r.applicant) advisor_ids)
        db.applications)) [ none ↦ none | some r ↦ some r.display_name ]

-- `select_related` on a column that is not null: an inner join with the users.
abbrev pub join_row : {A : Type 0} → A → Option User → List (A × User) → List (A × User)
join_row a none rest = rest
join_row a (some u) rest = (a, u) ∷ rest

unfoldable pub joined : {A : Type 0} → (A → ℕ) → List A → List User → List (A × User)
joined column [] users = []
joined column (a ∷ rows) users =
    join_row a (find? (user_pk (column a)) users) (joined column rows users)

pub record ApprovedAdvice : Type 0 where
  pub advice_id : ℕ
  pub advisor_display_name : String
  pub created_at : ℕ

unfoldable pub approved_advices_view_data : Concern → Db → List ApprovedAdvice
approved_advices_view_data concern db =
    let advices =
      joined (λ (a : Advice). a.advisor)
        (oldest_first (λ (a : Advice). a.created_at)
          (filter (is_approved_on concern.id) db.advices))
        db.users in
    let names = display_names_by_advisor (map (λ r. r.0.advisor) advices) db in
    map
      (λ r. record {
        advice_id = r.0.id;
        advisor_display_name = get_or (names r.0.advisor) r.1.nickname;
        created_at = r.0.created_at;
      })
      advices

abbrev pub is_kept_by : ℕ → ℕ → Advice → Bool
is_kept_by concern advisor a =
    nat_eq a.concern concern && nat_eq a.advisor advisor && not (a.status == AdviceStatus.deleted)

abbrev pub first : {A : Type 0} → List A → Option A
first [] = none
first (a ∷ _) = some a

-- The advisor's own advice on a concern: the first of those not deleted, the newest first.
unfoldable pub own_advice : ℕ → ℕ → Db → Option Advice
own_advice concern advisor db =
    first
      (newest_first (λ (a : Advice). a.created_at) (filter (is_kept_by concern advisor) db.advices))

abbrev pub status_of : Option Advice → Option AdviceStatus
status_of none = none
status_of (some a) = some a.status

-- Each row of #20 carries `advice_status`.
unfoldable pub list_assigned_concerns : ℕ → Db → List (Assignment × Option AdviceStatus)
unfolding own_advice
list_assigned_concerns advisor db =
    map (λ r. (r, status_of (own_advice r.concern advisor db)))
      (newest_first (λ (r : Assignment). r.assigned_at)
        (filter (λ r. nat_eq r.advisor advisor && r.is_active) db.assignments))

-- An active assignment of the concern to the advisor, whose concern is alive.
abbrev pub is_in_queue : ℕ → ℕ → Db → Assignment → Bool
is_in_queue advisor concern_id db r =
    nat_eq r.advisor advisor
    && r.is_active
    && nat_eq r.concern concern_id
    && any (λ c. concern_pk r.concern c && is_alive c) db.concerns

unfoldable pub get_assigned_concern : ℕ → ℕ → Exec (Concern × Assignment)
get_assigned_concern advisor concern_id = do
  assignment ←
      get_or_404 "Assignment" (λ db. find? (is_in_queue advisor concern_id db) db.assignments)
  concern ←
      or_raise (← gets (λ db. find? (concern_pk assignment.concern) db.concerns)) does_not_exist
  pure (concern, assignment)

unfoldable pub requester_display_name : Concern → Exec String
requester_display_name concern =
    if is_filled concern.display_alias
    then pure concern.display_alias
    else if concern.is_anonymous
    then pure "익명의 요청자"
    else do
      author ← or_raise (← gets (λ db. find? (user_pk concern.author) db.users)) does_not_exist
      pure author.nickname

pub record MyAdvice : Type 0 where
  pub advice_id : ℕ
  pub status : AdviceStatus
  pub version : ℕ
  pub is_submitted : Bool

unfoldable pub my_advice_view_data : Concern → ℕ → Db → Option MyAdvice
unfolding own_advice
my_advice_view_data concern advisor db = elim (own_advice concern.id advisor db) [
  | none ↦ none
  | some a ↦ some record {
    advice_id = a.id;
    status = a.status;
    version = a.version;
    is_submitted = a.is_submitted;
  }
]

pub record AssignedConcernDetail : Type 0 where
  pub concern_id : ℕ
  pub concern_summary : String
  pub concern_type : ConcernType
  pub concern_type_secondary : List ConcernType
  pub decision_context : String
  pub is_anonymous : Bool
  pub requester_display_name : String
  pub assigned_at : ℕ
  pub assignment_id : ℕ
  pub my_advice : Option MyAdvice

unfoldable pub assigned_concern_detail_view_data :
    Concern → Assignment → ℕ → Exec AssignedConcernDetail
unfolding requester_display_name my_advice_view_data
assigned_concern_detail_view_data concern assignment advisor = do
  name ← requester_display_name concern
  advice ← gets (my_advice_view_data concern advisor)
  pure record {
    concern_id = concern.id;
    concern_summary = concern.concern_summary;
    concern_type = concern.concern_type;
    concern_type_secondary = concern.concern_type_secondary;
    decision_context = concern.decision_context;
    is_anonymous = concern.is_anonymous;
    requester_display_name = name;
    assigned_at = assignment.assigned_at;
    assignment_id = assignment.id;
    my_advice = advice;
  }
