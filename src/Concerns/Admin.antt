-- ===== src/Concerns/Admin.antt =====
-- The admin's list and detail of concerns (#22, #23) of concerns/services.py.
use chamneul.Base.{
  ℕ, String, Bool, List, nat_eq, if◌then◌else◌, filter, find?, count, map, is_some, get_or,
}
use chamneul.Base.Order.{newest_first, oldest_first}
use chamneul.Models.{Db}
use chamneul.Models.Taxonomy.{ConcernType}
use chamneul.Models.Advice.{Advice, AdviceStatus}
use chamneul.Models.Concerns.{Concern, Assignment, ConcernStatus, PreferredAdvisorLane}
use chamneul.Common.Exec.{Exec, get_or_404}
use chamneul.Concerns.{concern_pk, is_alive, is_active_on}
use chamneul.Concerns.Reading.{display_names_by_advisor, joined}

-- Each row of #22 carries `assignment_count`, of the active ones.
unfoldable pub list_concerns_for_admin : Bool → Db → List (Concern × ℕ)
list_concerns_for_admin include_deleted db =
    map (λ c. (c, count (is_active_on c.id) db.assignments))
      (newest_first (λ (c : Concern). c.created_at)
        (if include_deleted then db.concerns else filter is_alive db.concerns))

unfoldable pub get_concern_for_admin : ℕ → Exec Concern
get_concern_for_admin concern_id =
    get_or_404 "Concern" λ db. find? (concern_pk concern_id) db.concerns

pub record AdminAssignment : Type 0 where
  pub assignment_id : ℕ
  pub advisor_user_id : ℕ
  pub advisor_display_name : String
  pub assigned_at : ℕ
  pub assigned_by : ℕ
  pub is_active : Bool

pub record AdminAdvice : Type 0 where
  pub advice_id : ℕ
  pub advisor_user_id : ℕ
  pub status : AdviceStatus
  pub version : ℕ
  pub created_at : ℕ

pub record AdminConcernDetail : Type 0 where
  pub concern_id : ℕ
  pub author_user_id : ℕ
  pub concern_summary : String
  pub concern_type : ConcernType
  pub concern_type_secondary : List ConcernType
  pub preferred_advisor_lane : PreferredAdvisorLane
  pub decision_context : String
  pub display_alias : String
  pub is_anonymous : Bool
  pub status : ConcernStatus
  pub is_deleted : Bool
  pub created_at : ℕ
  pub updated_at : ℕ
  pub assignments : List AdminAssignment
  pub advices : List AdminAdvice

unfoldable pub admin_concern_detail_view_data : Concern → Db → AdminConcernDetail
admin_concern_detail_view_data concern db =
    let assignments =
      joined (λ (r : Assignment). r.advisor)
        (newest_first (λ (r : Assignment). r.assigned_at)
          (filter (λ r. nat_eq r.concern concern.id) db.assignments))
        db.users in
    let advices =
      joined (λ (a : Advice). a.advisor)
        (oldest_first (λ (a : Advice). a.created_at)
          (filter (λ a. nat_eq a.concern concern.id) db.advices))
        db.users in
    let names = display_names_by_advisor (map (λ r. r.0.advisor) assignments) db in
    record {
      concern_id = concern.id;
      author_user_id = concern.author;
      concern_summary = concern.concern_summary;
      concern_type = concern.concern_type;
      concern_type_secondary = concern.concern_type_secondary;
      preferred_advisor_lane = concern.preferred_advisor_lane;
      decision_context = concern.decision_context;
      display_alias = concern.display_alias;
      is_anonymous = concern.is_anonymous;
      status = concern.status;
      is_deleted = is_some concern.deleted_at;
      created_at = concern.created_at;
      updated_at = concern.updated_at;
      assignments =
          map
            (λ r. record {
              assignment_id = r.0.id;
              advisor_user_id = r.0.advisor;
              advisor_display_name = get_or (names r.0.advisor) r.1.nickname;
              assigned_at = r.0.assigned_at;
              assigned_by = r.0.assigned_by;
              is_active = r.0.is_active;
            })
            assignments;
      advices =
          map
            (λ r. record {
              advice_id = r.0.id;
              advisor_user_id = r.0.advisor;
              status = r.0.status;
              version = r.0.version;
              created_at = r.0.created_at;
            })
            advices;
    }
