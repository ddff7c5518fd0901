-- ===== src/Models/Concerns.antt =====
-- concerns/models.py
use chamneul.Base.{ℕ, String, ◌≡◌, Bool, true, Option, List, ◌↔◌, arith, nat_eq, Eq}
use chamneul.Models.Taxonomy.{ConcernType}

pub data ConcernStatus : Type 0 where
  submitted assigned answered closed : ConcernStatus

abbrev pub concern_status_tag : ConcernStatus → ℕ
concern_status_tag ConcernStatus.submitted = 0
concern_status_tag ConcernStatus.assigned = 1
concern_status_tag ConcernStatus.answered = 2
concern_status_tag ConcernStatus.closed = 3

pub concern_status_beq_iff :
    (a b : ConcernStatus) → (nat_eq (concern_status_tag a) (concern_status_tag b) ≡ true) ↔ (a ≡ b)
concern_status_beq_iff a b = ground arith

instance abbrev pub concern_status_Eq : Eq ConcernStatus
concern_status_Eq = record {
  same = λ a b. nat_eq (concern_status_tag a) (concern_status_tag b);
  same_iff = concern_status_beq_iff;
}

pub data PreferredAdvisorLane : Type 0 where
  expert senior no_preference : PreferredAdvisorLane

abbrev pub preferred_advisor_lane_tag : PreferredAdvisorLane → ℕ
preferred_advisor_lane_tag PreferredAdvisorLane.expert = 0
preferred_advisor_lane_tag PreferredAdvisorLane.senior = 1
preferred_advisor_lane_tag PreferredAdvisorLane.no_preference = 2

pub preferred_advisor_lane_beq_iff :
    (a b : PreferredAdvisorLane)
    → (nat_eq (preferred_advisor_lane_tag a) (preferred_advisor_lane_tag b) ≡ true) ↔ (a ≡ b)
preferred_advisor_lane_beq_iff a b = ground arith

instance abbrev pub preferred_advisor_lane_Eq : Eq PreferredAdvisorLane
preferred_advisor_lane_Eq = record {
  same = λ a b. nat_eq (preferred_advisor_lane_tag a) (preferred_advisor_lane_tag b);
  same_iff = preferred_advisor_lane_beq_iff;
}

pub data TriageDecision : Type 0 where
  suitable needs_more_info out_of_scope : TriageDecision

abbrev pub triage_decision_tag : TriageDecision → ℕ
triage_decision_tag TriageDecision.suitable = 0
triage_decision_tag TriageDecision.needs_more_info = 1
triage_decision_tag TriageDecision.out_of_scope = 2

pub triage_decision_beq_iff :
    (a b : TriageDecision)
    → (nat_eq (triage_decision_tag a) (triage_decision_tag b) ≡ true) ↔ (a ≡ b)
triage_decision_beq_iff a b = ground arith

instance abbrev pub triage_decision_Eq : Eq TriageDecision
triage_decision_Eq = record {
  same = λ a b. nat_eq (triage_decision_tag a) (triage_decision_tag b);
  same_iff = triage_decision_beq_iff;
}

pub data AssignmentPriority : Type 0 where
  low normal high : AssignmentPriority

abbrev pub assignment_priority_tag : AssignmentPriority → ℕ
assignment_priority_tag AssignmentPriority.low = 0
assignment_priority_tag AssignmentPriority.normal = 1
assignment_priority_tag AssignmentPriority.high = 2

pub assignment_priority_beq_iff :
    (a b : AssignmentPriority)
    → (nat_eq (assignment_priority_tag a) (assignment_priority_tag b) ≡ true) ↔ (a ≡ b)
assignment_priority_beq_iff a b = ground arith

instance abbrev pub assignment_priority_Eq : Eq AssignmentPriority
assignment_priority_Eq = record {
  same = λ a b. nat_eq (assignment_priority_tag a) (assignment_priority_tag b);
  same_iff = assignment_priority_beq_iff;
}

-- A JSON value. The numbers are naturals.
mutual
  pub data Json : Type 0 where
    null : Json
    boolean : Bool → Json
    number : ℕ → Json
    text : String → Json
    array : JsonItems → Json
    object : JsonFields → Json

  pub data JsonItems : Type 0 where
    nil : JsonItems
    cons : Json → JsonItems → JsonItems

  pub data JsonFields : Type 0 where
    end : JsonFields
    field : String → Json → JsonFields → JsonFields

pub record Concern : Type 0 where
  pub id : ℕ
  pub author : ℕ
  pub concern_summary : String
  pub concern_type : ConcernType
  pub concern_type_secondary : List ConcernType
  pub preferred_advisor_lane : PreferredAdvisorLane
  pub decision_context : String
  pub display_alias : String
  pub is_anonymous : Bool
  pub status : ConcernStatus
  pub deleted_at : Option ℕ
  pub created_at : ℕ
  pub updated_at : ℕ

pub record Assignment : Type 0 where
  pub id : ℕ
  pub concern : ℕ
  pub advisor : ℕ
  pub assigned_by : ℕ
  pub triage_decision : TriageDecision
  pub match_rationale : Json
  pub priority : AssignmentPriority
  pub is_active : Bool
  pub assigned_at : ℕ
  pub deactivated_at : Option ℕ
