-- ===== src/Models/Advisors.antt =====
-- advisors/models.py
use chamneul.Base.{ℕ, String, ◌≡◌, true, Option, List, ◌↔◌, arith, nat_eq, Eq}
use chamneul.Models.Taxonomy.{ConcernType}

pub data AdvisorApplicationStatus : Type 0 where
  pending reviewing approved rejected withdrawn : AdvisorApplicationStatus

abbrev pub advisor_application_status_tag : AdvisorApplicationStatus → ℕ
advisor_application_status_tag AdvisorApplicationStatus.pending = 0
advisor_application_status_tag AdvisorApplicationStatus.reviewing = 1
advisor_application_status_tag AdvisorApplicationStatus.approved = 2
advisor_application_status_tag AdvisorApplicationStatus.rejected = 3
advisor_application_status_tag AdvisorApplicationStatus.withdrawn = 4

pub advisor_application_status_beq_iff :
    (a b : AdvisorApplicationStatus)
    → (nat_eq (advisor_application_status_tag a) (advisor_application_status_tag b) ≡ true)
      ↔ (a ≡ b)
advisor_application_status_beq_iff a b = ground arith

instance abbrev pub advisor_application_status_Eq : Eq AdvisorApplicationStatus
advisor_application_status_Eq = record {
  same = λ a b. nat_eq (advisor_application_status_tag a) (advisor_application_status_tag b);
  same_iff = advisor_application_status_beq_iff;
}

pub data DomainCategory : Type 0 where
  planning_strategy hr_org marketing_pr finance_accounting it_data sales_trade merchandising rnd
        medical education etc :
      DomainCategory

abbrev pub domain_category_tag : DomainCategory → ℕ
domain_category_tag DomainCategory.planning_strategy = 0
domain_category_tag DomainCategory.hr_org = 1
domain_category_tag DomainCategory.marketing_pr = 2
domain_category_tag DomainCategory.finance_accounting = 3
domain_category_tag DomainCategory.it_data = 4
domain_category_tag DomainCategory.sales_trade = 5
domain_category_tag DomainCategory.merchandising = 6
domain_category_tag DomainCategory.rnd = 7
domain_category_tag DomainCategory.medical = 8
domain_category_tag DomainCategory.education = 9
domain_category_tag DomainCategory.etc = 10

pub domain_category_beq_iff :
    (a b : DomainCategory)
    → (nat_eq (domain_category_tag a) (domain_category_tag b) ≡ true) ↔ (a ≡ b)
domain_category_beq_iff a b = ground arith

instance abbrev pub domain_category_Eq : Eq DomainCategory
domain_category_Eq = record {
  same = λ a b. nat_eq (domain_category_tag a) (domain_category_tag b);
  same_iff = domain_category_beq_iff;
}

pub data ExperienceBand : Type 0 where
  band_5_7 band_8_12 band_13_plus : ExperienceBand

abbrev pub experience_band_tag : ExperienceBand → ℕ
experience_band_tag ExperienceBand.band_5_7 = 0
experience_band_tag ExperienceBand.band_8_12 = 1
experience_band_tag ExperienceBand.band_13_plus = 2

pub experience_band_beq_iff :
    (a b : ExperienceBand)
    → (nat_eq (experience_band_tag a) (experience_band_tag b) ≡ true) ↔ (a ≡ b)
experience_band_beq_iff a b = ground arith

instance abbrev pub experience_band_Eq : Eq ExperienceBand
experience_band_Eq = record {
  same = λ a b. nat_eq (experience_band_tag a) (experience_band_tag b);
  same_iff = experience_band_beq_iff;
}

pub data CurrentStatus : Type 0 where
  employed freelancer on_leave resting retired : CurrentStatus

abbrev pub current_status_tag : CurrentStatus → ℕ
current_status_tag CurrentStatus.employed = 0
current_status_tag CurrentStatus.freelancer = 1
current_status_tag CurrentStatus.on_leave = 2
current_status_tag CurrentStatus.resting = 3
current_status_tag CurrentStatus.retired = 4

pub current_status_beq_iff :
    (a b : CurrentStatus) → (nat_eq (current_status_tag a) (current_status_tag b) ≡ true) ↔ (a ≡ b)
current_status_beq_iff a b = ground arith

instance abbrev pub current_status_Eq : Eq CurrentStatus
current_status_Eq = record {
  same = λ a b. nat_eq (current_status_tag a) (current_status_tag b);
  same_iff = current_status_beq_iff;
}

pub data IntendedLane : Type 0 where
  expert senior : IntendedLane

abbrev pub intended_lane_tag : IntendedLane → ℕ
intended_lane_tag IntendedLane.expert = 0
intended_lane_tag IntendedLane.senior = 1

pub intended_lane_beq_iff :
    (a b : IntendedLane) → (nat_eq (intended_lane_tag a) (intended_lane_tag b) ≡ true) ↔ (a ≡ b)
intended_lane_beq_iff a b = ground arith

instance abbrev pub intended_lane_Eq : Eq IntendedLane
intended_lane_Eq = record {
  same = λ a b. nat_eq (intended_lane_tag a) (intended_lane_tag b);
  same_iff = intended_lane_beq_iff;
}

pub record AdvisorApplication : Type 0 where
  pub id : ℕ
  pub applicant : ℕ
  pub display_name : String
  pub domain_category : DomainCategory
  pub experience_band : ExperienceBand
  pub current_status : CurrentStatus
  pub intended_lane : IntendedLane
  pub career_narrative : String
  pub advisable_concern_types : List ConcernType
  pub sample_advice_response : String
  pub status : AdvisorApplicationStatus
  pub submitted_at : ℕ
  pub reviewed_at : Option ℕ
  pub reviewed_by : Option ℕ
  pub reject_reason : String
