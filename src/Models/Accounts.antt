-- ===== src/Models/Accounts.antt =====
-- accounts/models.py: the rows of the tables, and the session table of the framework. Columns of
-- type UUID and instants are natural numbers; a password column holds the stored hash.
use chamneul.Base.{ℕ, String, ◌≡◌, Bool, true, Option, ◌↔◌, arith, nat_eq, Eq}

pub data ActiveRole : Type 0 where
  user advisor : ActiveRole

abbrev pub active_role_tag : ActiveRole → ℕ
active_role_tag ActiveRole.user = 0
active_role_tag ActiveRole.advisor = 1

pub active_role_beq_iff :
    (a b : ActiveRole) → (nat_eq (active_role_tag a) (active_role_tag b) ≡ true) ↔ (a ≡ b)
active_role_beq_iff a b = ground arith

instance abbrev pub active_role_Eq : Eq ActiveRole
active_role_Eq = record {
  same = λ a b. nat_eq (active_role_tag a) (active_role_tag b);
  same_iff = active_role_beq_iff;
}

pub data Role : Type 0 where
  user advisor admin : Role

abbrev pub role_tag : Role → ℕ
role_tag Role.user = 0
role_tag Role.advisor = 1
role_tag Role.admin = 2

pub role_beq_iff : (a b : Role) → (nat_eq (role_tag a) (role_tag b) ≡ true) ↔ (a ≡ b)
role_beq_iff a b = ground arith

instance abbrev pub role_Eq : Eq Role
role_Eq = record { same = λ a b. nat_eq (role_tag a) (role_tag b); same_iff = role_beq_iff }

pub data RoleGrantAction : Type 0 where
  grant revoke : RoleGrantAction

abbrev pub role_grant_action_tag : RoleGrantAction → ℕ
role_grant_action_tag RoleGrantAction.grant = 0
role_grant_action_tag RoleGrantAction.revoke = 1

pub role_grant_action_beq_iff :
    (a b : RoleGrantAction)
    → (nat_eq (role_grant_action_tag a) (role_grant_action_tag b) ≡ true) ↔ (a ≡ b)
role_grant_action_beq_iff a b = ground arith

instance abbrev pub role_grant_action_Eq : Eq RoleGrantAction
role_grant_action_Eq = record {
  same = λ a b. nat_eq (role_grant_action_tag a) (role_grant_action_tag b);
  same_iff = role_grant_action_beq_iff;
}

pub record User : Type 0 where
  pub id : ℕ
  pub email : String
  pub nickname : String
  pub active_role : ActiveRole
  pub is_active : Bool
  pub is_staff : Bool
  pub is_superuser : Bool
  pub password : String
  pub last_login : Option ℕ
  pub job : String
  pub interest : String
  pub profile_image_url : String
  pub created_at : ℕ
  pub updated_at : ℕ

pub record UserRole : Type 0 where
  pub id : ℕ
  pub user : ℕ
  pub role : Role
  pub created_at : ℕ

pub record RoleGrant : Type 0 where
  pub id : ℕ
  pub user : ℕ
  pub role : Role
  pub action : RoleGrantAction
  pub acted_by : ℕ
  pub acted_at : ℕ
  pub reason : String

pub record GoogleIdentity : Type 0 where
  pub id : ℕ
  pub user : ℕ
  pub google_sub : String
  pub email : String
  pub created_at : ℕ

-- A row of the framework's session table: its key, the user id in its decoded content, and
-- the time of its expiry, which the framework moves on at every request (SESSION_SAVE_EVERY_REQUEST).
pub record Session : Type 0 where
  pub session_key : ℕ
  pub auth_user : Option ℕ
  pub expire_date : ℕ
