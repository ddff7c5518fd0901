-- ===== src/Models/Taxonomy.antt =====
-- common/taxonomy.py
use chamneul.Base.{ℕ, ◌≡◌, true, ◌↔◌, arith, nat_eq, Eq}

pub data ConcernType : Type 0 where
  career_transition job_change burnout startup_failure leadership relationship life_direction
        major_life_decision education_choice relocation finance_major_decision :
      ConcernType

abbrev pub concern_type_tag : ConcernType → ℕ
concern_type_tag ConcernType.career_transition = 0
concern_type_tag ConcernType.job_change = 1
concern_type_tag ConcernType.burnout = 2
concern_type_tag ConcernType.startup_failure = 3
concern_type_tag ConcernType.leadership = 4
concern_type_tag ConcernType.relationship = 5
concern_type_tag ConcernType.life_direction = 6
concern_type_tag ConcernType.major_life_decision = 7
concern_type_tag ConcernType.education_choice = 8
concern_type_tag ConcernType.relocation = 9
concern_type_tag ConcernType.finance_major_decision = 10

pub concern_type_beq_iff :
    (a b : ConcernType) → (nat_eq (concern_type_tag a) (concern_type_tag b) ≡ true) ↔ (a ≡ b)
concern_type_beq_iff a b = ground arith

instance abbrev pub concern_type_Eq : Eq ConcernType
concern_type_Eq = record {
  same = λ a b. nat_eq (concern_type_tag a) (concern_type_tag b);
  same_iff = concern_type_beq_iff;
}
