-- ===== src/Accounts/Roles/Effects.antt =====
-- `grant_role`, `revoke_role` and `set_active_role` of accounts/services.py, case by case.
use chamneul.Base.{
  ℕ, String, ◌≡◌, refl, Bool, true, false, some, [], ◌∷◌, ◌++◌, ◌&&◌, not, ◌==◌, nat_eq, leb, arith,
  ◌⊎◌, inl, inr, if◌then◌else◌, any, filter, find?, update, length, Bool-cases, Option-cases,
}
use chamneul.Models.{Db, Env}
use chamneul.Models.Accounts.{User, Role, ActiveRole, RoleGrantAction, role_Eq, active_role_Eq}
use chamneul.Common.Errors.{Error, conflict}
use chamneul.Common.Exec.{ok, err, after}
use chamneul.Accounts.Roles.{
  user_pk, holds, is_grantable, has_role, held_roles, worn, set_active_role, grant_role,
  revoke_role, admin_roles, guard_admin, audit_row,
}

abbrev pub granted_db : Env → User → Role → ℕ → String → Db → Db
granted_db env u role actor reason db = record db {
  user_roles =
      db.user_roles
      ++ record { id = env.uuid 0; user = u.id; role = role; created_at = env.now } ∷ [];
  role_grants =
      db.role_grants
      ++ audit_row env (env.uuid 1) role RoleGrantAction.grant actor reason u.id ∷ [];
}

module _ (env : Env) (k : ℕ) (role : Role) (actor : ℕ) (reason : String) (db : Db) where
  pub grant_role_cases :
      (after (grant_role env k role actor reason db) ≡ db)
      ⊎ ((u : User) × (find? (user_pk k) db.users ≡ some u)
          × (is_grantable role ≡ true)
          × (has_role u.id role db ≡ false)
          × (after (grant_role env k role actor reason db) ≡ granted_db env u role actor reason db))
  unfolding grant_role
  grant_role_cases = elim (Option-cases (find? (user_pk k) db.users)) [
    | inl missing ↦ inl (ground arith)
    | inr (u, e) ↦ elim (Bool-cases (is_grantable role && not (has_role u.id role db))) [
      | inl g ↦ inr (u, e, ground arith, ground arith, ground arith)
      | inr g ↦ inl (ground arith)
    ]
  ]

-- What the three refusals of the ADMIN guard leave.
abbrev pub passes_guard : ℕ → ℕ → Db → Bool
passes_guard target actor db =
    not (nat_eq target actor)
    && any (λ r. nat_eq r.user target) (admin_roles db)
    && not (leb (length (admin_roles db)) 1)

pub guard_admin_passes :
    (target actor : ℕ) (db : Db)
    → passes_guard target actor db ≡ true
    → guard_admin target actor db ≡ (ok tt, db)
unfolding guard_admin
guard_admin_passes target actor db g = ground arith

-- The first refusal that applies.
abbrev pub refusal : ℕ → ℕ → Db → Error
refusal target actor db =
    if nat_eq target actor
    then conflict "자기 자신의 ADMIN 역할은 회수할 수 없습니다." (some "SELF_REVOKE")
    else if any (λ r. nat_eq r.user target) (admin_roles db)
    then conflict "마지막 관리자는 회수할 수 없습니다." (some "LAST_ADMIN")
    else conflict "보유하지 않은 역할입니다." (some "NOT_HELD")

pub guard_admin_stops :
    (target actor : ℕ) (db : Db)
    → passes_guard target actor db ≡ false
    → guard_admin target actor db ≡ (err (refusal target actor db), db)
unfolding guard_admin
guard_admin_stops target actor db g = ground arith

module _ (env : Env) (k actor : ℕ) (reason : String) (db : Db) where
  abbrev pub dropped : Role → User → Db
  dropped role u = record db {
    user_roles = filter (λ r. not (holds u.id role r)) db.user_roles;
    role_grants =
        db.role_grants
        ++ audit_row env (env.uuid 0) role RoleGrantAction.revoke actor reason u.id ∷ [];
  }

  abbrev pub undressed : User → Db → Db
  undressed u d = record d {
    users =
        if u.active_role == ActiveRole.advisor
        then update (user_pk u.id)
            (λ u. record u { active_role = ActiveRole.user; updated_at = env.now }) d.users
        else d.users;
  }

  pub revoke_advisor_cases :
      (after (revoke_role env k Role.advisor actor reason db) ≡ db)
      ⊎ ((u : User) × (find? (user_pk k) db.users ≡ some u)
          × (has_role u.id Role.advisor db ≡ true)
          × (after (revoke_role env k Role.advisor actor reason db)
              ≡ undressed u (dropped Role.advisor u)))
  unfolding revoke_role
  revoke_advisor_cases = elim (Option-cases (find? (user_pk k) db.users)) [
    | inl missing ↦ inl (ground arith)
    | inr (u, e) ↦ elim (Bool-cases (has_role u.id Role.advisor db)) [
      | inl g ↦ inr (u, e, g, ground arith)
      | inr g ↦ inl (ground arith)
    ]
  ]

  pub revoke_admin_cases :
      (after (revoke_role env k Role.admin actor reason db) ≡ db)
      ⊎ ((u : User) × (find? (user_pk k) db.users ≡ some u)
          × (has_role u.id Role.admin db ≡ true)
          × (passes_guard u.id actor db ≡ true)
          × (after (revoke_role env k Role.admin actor reason db) ≡ dropped Role.admin u))
  unfolding revoke_role
  revoke_admin_cases = elim (Option-cases (find? (user_pk k) db.users)) [
    | inl missing ↦ inl (ground arith)
    | inr (u, e) ↦ elim (Bool-cases (passes_guard u.id actor db)) [
      | inr g ↦ inl (ground (arith, guard_admin_stops u.id actor db g))
      | inl g ↦ elim (Bool-cases (has_role u.id Role.admin db)) [
        | inl h ↦ inr (u, e, h, g, ground (arith, guard_admin_passes u.id actor db g))
        | inr h ↦ inl (ground (arith, guard_admin_passes u.id actor db g))
      ]
    ]
  ]

-- USER cannot be revoked.
pub revoke_user_refused :
    (env : Env) (k actor : ℕ) (reason : String) (db : Db)
    → after (revoke_role env k Role.user actor reason db) ≡ db
unfolding revoke_role
revoke_user_refused env k actor reason db = refl

abbrev pub switched_db : Env → ActiveRole → User → Db → Db
switched_db env target u db = record db {
  users =
      update (user_pk u.id) (λ r. record r { active_role = target; updated_at = env.now }) db.users;
}

switch_held :
    (target : ActiveRole) (k : ℕ) (db : Db)
    → target ≡ ActiveRole.advisor
    → any (λ r. r == worn target) (held_roles k db) ≡ true
    → has_role k Role.advisor db ≡ true
unfolding held_roles
switch_held target k db t g = ground arith

-- A switch writes the role that is worn, only to a role that is held.
pub set_active_role_cases :
    (env : Env) (k : ℕ) (target : ActiveRole) (db : Db)
    → (after (set_active_role env k target db) ≡ db)
      ⊎ ((u : User) × (find? (user_pk k) db.users ≡ some u)
          × (target ≡ ActiveRole.advisor → has_role u.id Role.advisor db ≡ true)
          × (after (set_active_role env k target db) ≡ switched_db env target u db))
unfolding set_active_role
set_active_role_cases env k target db = elim (Option-cases (find? (user_pk k) db.users)) [
  | inl missing ↦ inl (ground arith)
  | inr (u, e) ↦ elim (Bool-cases (any (λ r. r == worn target) (held_roles u.id db))) [
    | inl g ↦ inr (u, e, (λ t. switch_held target u.id db t g), ground arith)
    | inr g ↦ inl (ground arith)
  ]
]
