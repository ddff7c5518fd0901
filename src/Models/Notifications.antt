-- ===== src/Models/Notifications.antt =====
-- notifications/models.py
use chamneul.Base.{ℕ, String, ◌≡◌, Bool, true, Option, List, ◌↔◌, arith, nat_eq, Eq}

pub data NotificationType : Type 0 where
  advice_approved advice_rejected advisor_application_approved advisor_application_rejected
        assignment_created :
      NotificationType

abbrev pub notification_type_tag : NotificationType → ℕ
notification_type_tag NotificationType.advice_approved = 0
notification_type_tag NotificationType.advice_rejected = 1
notification_type_tag NotificationType.advisor_application_approved = 2
notification_type_tag NotificationType.advisor_application_rejected = 3
notification_type_tag NotificationType.assignment_created = 4

pub notification_type_beq_iff :
    (a b : NotificationType)
    → (nat_eq (notification_type_tag a) (notification_type_tag b) ≡ true) ↔ (a ≡ b)
notification_type_beq_iff a b = ground arith

instance abbrev pub notification_type_Eq : Eq NotificationType
notification_type_Eq = record {
  same = λ a b. nat_eq (notification_type_tag a) (notification_type_tag b);
  same_iff = notification_type_beq_iff;
}

-- The relative paths that the services put into `target_url`, by their template.
pub data TargetUrl : Type 0 where
  assigned_concern : ℕ → TargetUrl
  advice : ℕ → TargetUrl
  my_application : TargetUrl

pub record Notification : Type 0 where
  pub id : ℕ
  pub recipient : ℕ
  pub kind : NotificationType
  pub title : String
  pub message : String
  pub target_url : TargetUrl
  pub actor_user : Option ℕ
  pub payload : List (String × ℕ)
  pub is_read : Bool
  pub read_at : Option ℕ
  pub created_at : ℕ
