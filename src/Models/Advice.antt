-- ===== src/Models/Advice.antt =====
-- advice/models.py
use chamneul.Base.{ℕ, String, ◌≡◌, Bool, true, Option, ◌↔◌, arith, nat_eq, Eq}

pub data AdviceStatus : Type 0 where
  pending reviewing approved rejected deleted : AdviceStatus

abbrev pub advice_status_tag : AdviceStatus → ℕ
advice_status_tag AdviceStatus.pending = 0
advice_status_tag AdviceStatus.reviewing = 1
advice_status_tag AdviceStatus.approved = 2
advice_status_tag AdviceStatus.rejected = 3
advice_status_tag AdviceStatus.deleted = 4

pub advice_status_beq_iff :
    (a b : AdviceStatus) → (nat_eq (advice_status_tag a) (advice_status_tag b) ≡ true) ↔ (a ≡ b)
advice_status_beq_iff a b = ground arith

instance abbrev pub advice_status_Eq : Eq AdviceStatus
advice_status_Eq = record {
  same = λ a b. nat_eq (advice_status_tag a) (advice_status_tag b);
  same_iff = advice_status_beq_iff;
}

pub data FeedbackStatus : Type 0 where
  submitted reviewed archived : FeedbackStatus

abbrev pub feedback_status_tag : FeedbackStatus → ℕ
feedback_status_tag FeedbackStatus.submitted = 0
feedback_status_tag FeedbackStatus.reviewed = 1
feedback_status_tag FeedbackStatus.archived = 2

pub feedback_status_beq_iff :
    (a b : FeedbackStatus)
    → (nat_eq (feedback_status_tag a) (feedback_status_tag b) ≡ true) ↔ (a ≡ b)
feedback_status_beq_iff a b = ground arith

instance abbrev pub feedback_status_Eq : Eq FeedbackStatus
feedback_status_Eq = record {
  same = λ a b. nat_eq (feedback_status_tag a) (feedback_status_tag b);
  same_iff = feedback_status_beq_iff;
}

pub record Advice : Type 0 where
  pub id : ℕ
  pub concern : ℕ
  pub advisor : ℕ
  pub directional_guidance : String
  pub reflective_questions : String
  pub considerations : String
  pub out_of_scope_flag : Bool
  pub is_submitted : Bool
  pub status : AdviceStatus
  pub version : ℕ
  pub created_at : ℕ
  pub updated_at : ℕ
  pub reviewed_at : Option ℕ
  pub reviewed_by : Option ℕ
  pub reject_reason : String

pub record AdviceHistory : Type 0 where
  pub id : ℕ
  pub advice : ℕ
  pub version : ℕ
  pub directional_guidance : String
  pub reflective_questions : String
  pub considerations : String
  pub out_of_scope_flag : Bool
  pub edited_by : ℕ
  pub edited_at : ℕ

pub record Feedback : Type 0 where
  pub id : ℕ
  pub advice : ℕ
  pub author : ℕ
  pub score : ℕ
  pub content : String
  pub status : FeedbackStatus
  pub memo : String
  pub reviewed_at : Option ℕ
  pub reviewed_by : Option ℕ
  pub created_at : ℕ
