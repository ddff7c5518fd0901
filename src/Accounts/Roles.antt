-- ===== src/Accounts/Roles.antt =====
-- The roles of accounts/services.py: `held_roles`, `advisor_status`, `set_active_role`, `grant_role`
-- and `revoke_role`; common/permissions.py.
pub mod Effects
pub mod Worn
pub mod Admins
use chamneul.Base.{
  ℕ, ◌+◌, ◌≤◌, String, ◌≡◌, Bool, true, false, Option, none, some, List, [], ◌∷◌, ◌++◌, ◌&&◌, ◌||◌,
  not, ◌==◌, nat_eq, leb, if◌then◌else◌, any, filter, find?, count, update, length, is_some, get_or,
}
use chamneul.Models.{Db, Env}
use chamneul.Models.Accounts.{
  User, UserRole, RoleGrant, Role, ActiveRole, RoleGrantAction, role_Eq, active_role_Eq,
}
use chamneul.Models.Advisors.{AdvisorApplication, AdvisorApplicationStatus}
use chamneul.Common.Errors.{
  Error, Constraint, conflict, permission_denied, integrity_error, does_not_exist, validation_text,
}
use chamneul.Common.Exec.{
  Exec, Result, ok, err, pure, raise, gets, or_raise, get_or_404, atomic, ◌>>=◌, ◌>>◌, raise_if,
  when, modify,
}

abbrev pub user_pk : ℕ → User → Bool
user_pk k u = nat_eq u.id k

abbrev pub holds : ℕ → Role → UserRole → Bool
holds user role r = nat_eq r.user user && r.role == role

-- `role in _GRANTABLE_ROLES`
abbrev pub is_grantable : Role → Bool
is_grantable Role.user = false
is_grantable Role.advisor = true
is_grantable Role.admin = true

abbrev pub has_role : ℕ → Role → Db → Bool
has_role user role db = any (holds user role) db.user_roles

unfoldable pub held_roles : ℕ → Db → List Role
held_roles user db =
    Role.user ∷ (if has_role user Role.advisor db then Role.advisor ∷ [] else [])
    ++ (if has_role user Role.admin db then Role.admin ∷ [] else [])

-- The choices of `ActiveRole` among the names of roles.
abbrev pub worn : ActiveRole → Role
worn ActiveRole.user = Role.user
worn ActiveRole.advisor = Role.advisor

unfoldable pub set_active_role : Env → ℕ → ActiveRole → Exec (Unit {0})
unfolding held_roles
set_active_role env user target = atomic do
  locked ← or_raise (← gets (λ db. find? (user_pk user) db.users)) does_not_exist
  held ← gets (λ db. any (λ r. r == worn target) (held_roles locked.id db))
  raise_if (not held) (permission_denied "보유하지 않은 역할로는 전환할 수 없습니다.")
  modify (λ db. record db {
    users =
        update (user_pk locked.id) (λ u. record u { active_role = target; updated_at = env.now })
          db.users;
  })

-- `UserRole.objects.create`, under the unique constraint on user and role.
unfoldable pub create_user_role : UserRole → Exec (Unit {0})
create_user_role r db =
    if any (holds r.user r.role) db.user_roles
    then (err (integrity_error Constraint.userrole_user_role), db)
    else (ok tt, record db { user_roles = db.user_roles ++ r ∷ [] })

abbrev pub audit_row : Env → ℕ → Role → RoleGrantAction → ℕ → String → ℕ → RoleGrant
audit_row env id role action actor reason user = record {
  id = id;
  user = user;
  role = role;
  action = action;
  acted_by = actor;
  acted_at = env.now;
  reason = reason;
}

unfoldable pub create_role_grant : RoleGrant → Exec (Unit {0})
create_role_grant g = modify λ db. record db { role_grants = db.role_grants ++ g ∷ [] }

unfoldable pub grant_role : Env → ℕ → Role → ℕ → String → Exec (User × RoleGrant)
unfolding create_user_role create_role_grant
grant_role env target_user_id role actor reason = do
  raise_if (not (is_grantable role)) (validation_text "role" "부여할 수 없는 역할입니다.")
  atomic do
    target ← get_or_404 "User" (λ db. find? (user_pk target_user_id) db.users)
    already ← gets (has_role target.id role)
    raise_if already (conflict "이미 보유한 역할입니다." (some "ALREADY_HELD"))
    create_user_role
        (record { id = env.uuid 0; user = target.id; role = role; created_at = env.now })
    let grant = audit_row env (env.uuid 1) role RoleGrantAction.grant actor reason target.id
    create_role_grant grant
    pure (target, grant)

-- `user__is_active=True`: the join of a role row with its user.
abbrev pub is_live_user : List User → ℕ → Bool
is_live_user users k = any (λ u. nat_eq u.id k && u.is_active) users

abbrev pub is_live_admin : List User → UserRole → Bool
is_live_admin users r = r.role == Role.admin && is_live_user users r.user

-- The rows that the guard locks. It only looks for the target and counts, so that they come in
-- the order of their keys plays no part.
unfoldable pub admin_roles : Db → List UserRole
admin_roles db = filter (is_live_admin db.users) db.user_roles

unfoldable pub guard_admin : ℕ → ℕ → Exec (Unit {0})
guard_admin target actor = do
  raise_if (nat_eq target actor) (conflict "자기 자신의 ADMIN 역할은 회수할 수 없습니다." (some "SELF_REVOKE"))
  rows ← gets admin_roles
  raise_if (not (any (λ r. nat_eq r.user target) rows))
      (conflict "보유하지 않은 역할입니다." (some "NOT_HELD"))
  raise_if (leb (length rows) 1) (conflict "마지막 관리자는 회수할 수 없습니다." (some "LAST_ADMIN"))

unfoldable pub revoke_role : Env → ℕ → Role → ℕ → String → Exec User
unfolding create_role_grant
revoke_role env target_user_id role actor reason = do
  raise_if (not (is_grantable role)) (validation_text "role" "회수할 수 없는 역할입니다.")
  atomic do
    target ← get_or_404 "User" (λ db. find? (user_pk target_user_id) db.users)
    when (role == Role.admin) (guard_admin target.id actor)
    deleted ← gets (has_role target.id role)
    modify
        (λ db. record db { user_roles = filter (λ r. not (holds target.id role r)) db.user_roles })
    raise_if (not deleted) (conflict "보유하지 않은 역할입니다." (some "NOT_HELD"))
    create_role_grant
        (audit_row env (env.uuid 0) role RoleGrantAction.revoke actor reason target.id)
    let undressed = role == Role.advisor && target.active_role == ActiveRole.advisor
    when undressed (
        modify λ db. record db {
          users =
              update (user_pk target.id)
                (λ u. record u { active_role = ActiveRole.user; updated_at = env.now }) db.users;
        })
    pure (
        if undressed
        then record target { active_role = ActiveRole.user; updated_at = env.now }
        else target)

-- The latest of the rows by submission, the first of those that are equal.
abbrev pub latest : List AdvisorApplication → Option AdvisorApplication
latest [] = none
latest (a ∷ rows) = elim (latest rows) [
  | none ↦ some a
  | some b ↦ if leb b.submitted_at a.submitted_at then some a else some b
]

-- The answer of `advisor_status`; `none` stands for "NONE".
abbrev pub shown_status : AdvisorApplicationStatus → Option AdvisorApplicationStatus
shown_status AdvisorApplicationStatus.withdrawn = none
shown_status s = some s

unfoldable pub advisor_status : ℕ → Db → Option AdvisorApplicationStatus
advisor_status user db = elim (latest (filter (λ a. nat_eq a.applicant user) db.applications)) [
  | none ↦ none
  | some a ↦ shown_status a.status
]

-- common/permissions.py. The user is none for an anonymous request.
unfoldable pub is_active_advisor : Option User → Bool
is_active_advisor none = false
is_active_advisor (some u) = u.active_role == ActiveRole.advisor

unfoldable pub is_admin : Option User → Db → Bool
is_admin none db = false
is_admin (some u) db = u.is_superuser || has_role u.id Role.admin db
