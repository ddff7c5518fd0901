-- ===== src/Api/Advice.antt =====
-- The serializers of advices (advice/serializers.py): the responses, and the validated queries.
use chamneul.Base.{ℕ, String, Bool, Option, List, [], ◌∷◌, find?, get_or, map}
use chamneul.Models.{Db}
use chamneul.Models.Accounts.{User}
use chamneul.Models.Advice.{Advice, AdviceStatus}
use chamneul.Models.Concerns.{Concern}
use chamneul.Common.Errors.{does_not_exist}
use chamneul.Common.Exec.{Exec, pure, gets, or_raise, ◌>>=◌}
use chamneul.Accounts.Roles.{user_pk}
use chamneul.Concerns.Reading.{display_names_by_advisor}
use chamneul.Advice.{Decision}
use chamneul.Advice.Reading.{Viewer}

pub record AdviceCreateResult : Type 0 where
  pub advice_id : ℕ
  pub concern_id : ℕ
  pub advisor_user_id : ℕ
  pub status : AdviceStatus
  pub version : ℕ
  pub created_at : ℕ

unfoldable pub advice_create_result : Advice → AdviceCreateResult
advice_create_result a = record {
  advice_id = a.id;
  concern_id = a.concern;
  advisor_user_id = a.advisor;
  status = a.status;
  version = a.version;
  created_at = a.created_at;
}

pub record AdviceWrittenRow : Type 0 where
  pub advice_id : ℕ
  pub concern_id : ℕ
  pub status : AdviceStatus
  pub version : ℕ
  pub is_submitted : Bool
  pub created_at : ℕ
  pub updated_at : ℕ

unfoldable pub advice_written_row : Advice → AdviceWrittenRow
advice_written_row a = record {
  advice_id = a.id;
  concern_id = a.concern;
  status = a.status;
  version = a.version;
  is_submitted = a.is_submitted;
  created_at = a.created_at;
  updated_at = a.updated_at;
}

-- The shape for the owner of the concern: no `reject_reason`.
pub record AdviceDetail : Type 0 where
  pub advice_id : ℕ
  pub concern_id : ℕ
  pub advisor_display_name : String
  pub directional_guidance : String
  pub reflective_questions : String
  pub considerations : String
  pub out_of_scope_flag : Bool
  pub status : AdviceStatus
  pub version : ℕ
  pub is_submitted : Bool
  pub created_at : ℕ
  pub updated_at : ℕ

-- `_AdvisorDisplayNameMixin.get_advisor_display_name`: the default of `get` is read first.
unfoldable pub advisor_display_name : Advice → Exec String
advisor_display_name a = do
  names ← gets (display_names_by_advisor (a.advisor ∷ []))
  advisor ← or_raise (← gets (λ db. find? (user_pk a.advisor) db.users)) does_not_exist
  pure (get_or (names a.advisor) advisor.nickname)

unfoldable pub advice_detail : Advice → String → AdviceDetail
advice_detail a name = record {
  advice_id = a.id;
  concern_id = a.concern;
  advisor_display_name = name;
  directional_guidance = a.directional_guidance;
  reflective_questions = a.reflective_questions;
  considerations = a.considerations;
  out_of_scope_flag = a.out_of_scope_flag;
  status = a.status;
  version = a.version;
  is_submitted = a.is_submitted;
  created_at = a.created_at;
  updated_at = a.updated_at;
}

-- The body of #27: `AdviceDetailSerializer`, or `AdviceDetailWithReasonSerializer`, which adds the
-- reason.
pub data AdviceBody : Type 0 where
  plain : AdviceDetail → AdviceBody
  with_reason : AdviceDetail → String → AdviceBody

unfoldable pub advice_body : Viewer → Advice → String → AdviceBody
unfolding advice_detail
advice_body Viewer.author a name = AdviceBody.with_reason (advice_detail a name) a.reject_reason
advice_body Viewer.admin a name = AdviceBody.with_reason (advice_detail a name) a.reject_reason
advice_body Viewer.owner a name = AdviceBody.plain (advice_detail a name)

pub record AdviceUpdateResult : Type 0 where
  pub advice_id : ℕ
  pub status : AdviceStatus
  pub version : ℕ
  pub updated_at : ℕ

pub record AdminAdviceRow : Type 0 where
  pub advice_id : ℕ
  pub concern_id : ℕ
  pub advisor_user_id : ℕ
  pub status : AdviceStatus
  pub version : ℕ
  pub created_at : ℕ
  pub updated_at : ℕ

unfoldable pub admin_advice_row : Advice → AdminAdviceRow
admin_advice_row a = record {
  advice_id = a.id;
  concern_id = a.concern;
  advisor_user_id = a.advisor;
  status = a.status;
  version = a.version;
  created_at = a.created_at;
  updated_at = a.updated_at;
}

-- The validated queries of #31 and #26, and the validated body of #33.
pub record AdviceWrittenQuery : Type 0 where
  pub concern_id : Option ℕ
  pub status : Option AdviceStatus
  pub from_date : Option ℕ
  pub to_date : Option ℕ

pub record ReceivedAdviceQuery : Type 0 where
  pub keyword : Option String
  pub from_date : Option ℕ
  pub to_date : Option ℕ

pub record AdviceReview : Type 0 where
  pub decision : Decision
  pub reason : String
  pub expected_version : ℕ

pub record ReceivedAdviceRow : Type 0 where
  pub advice_id : ℕ
  pub concern_id : ℕ
  pub concern_summary : String
  pub advisor_display_name : String
  pub created_at : ℕ
  pub is_feedback_submitted : Bool

-- A row of #26, joined with its concern and its advisor, and a row of the response under the names
-- that the view looked up for the page.
abbrev pub ReceivedRow : Type 0
ReceivedRow = ((Advice × Bool) × Concern) × User

unfoldable pub received_advice_row : (ℕ → Option String) → ReceivedRow → ReceivedAdviceRow
received_advice_row names (((a, rated), c), advisor) = record {
  advice_id = a.id;
  concern_id = a.concern;
  concern_summary = c.concern_summary;
  advisor_display_name = get_or (names a.advisor) advisor.nickname;
  created_at = a.created_at;
  is_feedback_submitted = rated;
}

unfoldable pub received_advice_rows : Db → List ReceivedRow → List ReceivedAdviceRow
received_advice_rows db page =
    let display_names = display_names_by_advisor (map (λ r. r.0.0.0.advisor) page) db in
    map (received_advice_row display_names) page
