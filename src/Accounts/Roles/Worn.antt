-- ===== src/Accounts/Roles/Worn.antt =====
-- The rows of roles and the active role of a user, under the operations of accounts/services.py.
use chamneul.Base.{
  ℕ, ◌≤◌, String, ◌≡◌, refl, ◌∙◌, true, false, some, List, [], ◌∷◌, ◌++◌, not, ◌==◌, arith, inl,
  inr, any, filter, find?, count, All, Bool-cases,
}
use chamneul.Base.Rows.{
  count-append, count-update, any-append, All-update_found, All-found, All-imp, any-zero,
  any-filter, count-filter_le, any-filter_le, found_by_key,
}
use chamneul.Models.{Db, Env}
use chamneul.Models.Accounts.{User, UserRole, Role, ActiveRole, role_Eq, active_role_Eq}
use chamneul.Common.Exec.{after}
use chamneul.Accounts.Roles.{user_pk, holds, has_role, set_active_role, grant_role, revoke_role}
use chamneul.Accounts.Roles.Effects.{
  dropped, undressed, switched_db, grant_role_cases, revoke_advisor_cases, revoke_admin_cases,
  revoke_user_refused, set_active_role_cases,
}

-- Who wears ADVISOR holds it.
abbrev pub IsWorn : List UserRole → User → Type 0
IsWorn rows u = u.active_role ≡ ActiveRole.advisor → any (holds u.id Role.advisor) rows ≡ true

pub record AreWorn (users : List User) (user_roles : List UserRole) : Type 0 where
  pub user_keys : (k : ℕ) → count (user_pk k) users ≤ 1
  pub role_unique : (u : ℕ) (r : Role) → count (holds u r) user_roles ≤ 1
  pub user_unstored : any (λ r. r.role == Role.user) user_roles ≡ false
  pub worn : All (IsWorn user_roles) users

abbrev pub RolesHold : Db → Type 0
RolesHold db = AreWorn db.users db.user_roles

-- A new row of a role that is not held keeps it.
pub AreWorn-append :
    (users : List User) (rows : List UserRole) (row : UserRole)
    → AreWorn users rows
    → (row.role == Role.user) ≡ false
    → any (holds row.user row.role) rows ≡ false
    → AreWorn users (rows ++ row ∷ [])
AreWorn-append users rows row w stored new = record {
  user_keys = w.user_keys;
  role_unique = λ x r. ground (
    arith,
    w.role_unique x r,
    count-append (holds x r) rows (row ∷ []),
    any-zero (holds x r) rows,
  );
  user_unstored =
      ground (
        arith,
        w.user_unstored,
        any-append (λ (r : UserRole). r.role == Role.user) rows (row ∷ []),
      );
  worn =
      All-imp (IsWorn rows) (IsWorn (rows ++ row ∷ [])) users w.worn
        (λ x h s. ground (arith, h s, any-append (holds x.id Role.advisor) rows (row ∷ [])));
}

module _ (env : Env) (k actor : ℕ) (role : Role) (reason : String) (db : Db)
    (w : RolesHold db) where
  -- #42 keeps the roles well kept, whatever role it is asked to grant to whatever user.
  pub grant_role-RolesHold : RolesHold (after (grant_role env k role actor reason db))
  grant_role-RolesHold = elim (grant_role_cases env k role actor reason db) [
    | inl same ↦ rw same w
    | inr (u, e, g, new, wrote) ↦ rw wrote (
        AreWorn-append db.users db.user_roles
          (record { id = env.uuid 0; user = u.id; role = role; created_at = env.now }) w
          (ground arith) new)
  ]

module _ (env : Env) (k actor : ℕ) (reason : String) (db : Db) (w : RolesHold db) (u : User)
    (e : find? (user_pk k) db.users ≡ some u) where
  abbrev rows : Role → List UserRole
  rows role = filter (λ r. not (holds u.id role r)) db.user_roles

  admin-AreWorn : RolesHold (dropped env k actor reason db Role.admin u)
  admin-AreWorn = record {
    user_keys = w.user_keys;
    role_unique = λ x r. omega (
      arith,
      w.role_unique x r,
      count-filter_le (holds x r) (λ r. not (holds u.id Role.admin r)) db.user_roles,
    );
    user_unstored =
        any-filter_le (λ r. r.role == Role.user) (λ r. not (holds u.id Role.admin r)) db.user_roles
          w.user_unstored;
    worn = All-imp (IsWorn db.user_roles) (IsWorn (rows Role.admin)) db.users w.worn (λ x h s.
        any-filter (holds x.id Role.advisor) (λ r. not (holds u.id Role.admin r)) db.user_roles
          (λ r q. ground arith)
        ∙ h s);
  }

  found : find? (user_pk u.id) db.users ≡ some u
  found = found_by_key (λ (x : User). x.id) k u db.users e

  -- The role rows of other users are not touched.
  elsewhere :
      (x : User) → user_pk u.id x ≡ false → IsWorn db.user_roles x → IsWorn (rows Role.advisor) x
  elsewhere x ne h s =
      any-filter (holds x.id Role.advisor) (λ r. not (holds u.id Role.advisor r)) db.user_roles
        (λ r q. ground arith)
      ∙ h s

  advisor-worn :
      All
        (IsWorn (rows Role.advisor))
        (undressed env k actor reason db u (dropped env k actor reason db Role.advisor u)).users
  advisor-worn = elim (Bool-cases (u.active_role == ActiveRole.advisor)) [
    | inl dressed ↦ rw dressed (
        All-update_found (IsWorn db.user_roles) (IsWorn (rows Role.advisor)) (user_pk u.id)
          (λ r. record r { active_role = ActiveRole.user; updated_at = env.now }) db.users u w.worn
          (w.user_keys u.id) found elsewhere (λ h s. cc))
    | inr plain ↦ rw plain (
        All-found (IsWorn db.user_roles) (IsWorn (rows Role.advisor)) (user_pk u.id) db.users u
          w.worn (w.user_keys u.id) found elsewhere (λ h s. ground arith))
  ]

  advisor-AreWorn :
      RolesHold (undressed env k actor reason db u (dropped env k actor reason db Role.advisor u))
  advisor-AreWorn = record {
    user_keys = λ i. ground (
      arith,
      w.user_keys i,
      count-update (user_pk i) (user_pk u.id)
          (λ (r : User). record r { active_role = ActiveRole.user; updated_at = env.now }) db.users
          (λ x. refl),
    );
    role_unique = λ x r. omega (
      arith,
      w.role_unique x r,
      count-filter_le (holds x r) (λ r. not (holds u.id Role.advisor r)) db.user_roles,
    );
    user_unstored =
        any-filter_le (λ r. r.role == Role.user) (λ r. not (holds u.id Role.advisor r))
          db.user_roles w.user_unstored;
    worn = advisor-worn;
  }

  switched-AreWorn :
      (target : ActiveRole)
      → (target ≡ ActiveRole.advisor → has_role u.id Role.advisor db ≡ true)
      → RolesHold (switched_db env target u db)
  switched-AreWorn target held = record {
    user_keys = λ i. ground (
      arith,
      w.user_keys i,
      count-update (user_pk i) (user_pk u.id)
          (λ (r : User). record r { active_role = target; updated_at = env.now }) db.users
          (λ x. refl),
    );
    role_unique = w.role_unique;
    user_unstored = w.user_unstored;
    worn =
        All-update_found (IsWorn db.user_roles) (IsWorn db.user_roles) (user_pk u.id)
          (λ r. record r { active_role = target; updated_at = env.now }) db.users u w.worn
          (w.user_keys u.id) found (λ x ne h. h) (λ h. held);
  }

-- #43 keeps the roles well kept, whatever it is asked to revoke. RolesHold: ids of users are
-- unique, a user has at most one row of a role, USER has no row, and a user whose active role is
-- ADVISOR has an ADVISOR row.
pub revoke_role-RolesHold :
    (env : Env) (k : ℕ) (role : Role) (actor : ℕ) (reason : String) (db : Db)
    → RolesHold db
    → RolesHold (after (revoke_role env k role actor reason db))
revoke_role-RolesHold env k Role.user actor reason db w =
    rw (revoke_user_refused env k actor reason db) w
revoke_role-RolesHold env k Role.advisor actor reason db w =
    elim (revoke_advisor_cases env k actor reason db) [
      | inl same ↦ rw same w
      | inr (u, e, g, wrote) ↦ rw wrote (advisor-AreWorn env k actor reason db w u e)
    ]
revoke_role-RolesHold env k Role.admin actor reason db w =
    elim (revoke_admin_cases env k actor reason db) [
      | inl same ↦ rw same w
      | inr (u, e, g, h, wrote) ↦ rw wrote (admin-AreWorn env k actor reason db w u e)
    ]

-- #10 keeps the roles well kept, whatever active role the user asks for.
pub set_active_role-RolesHold :
    (env : Env) (k : ℕ) (target : ActiveRole) (db : Db)
    → RolesHold db
    → RolesHold (after (set_active_role env k target db))
set_active_role-RolesHold env k target db w = elim (set_active_role_cases env k target db) [
  | inl same ↦ rw same w
  | inr (u, e, held, wrote) ↦ rw wrote (switched-AreWorn env k 0 "" db w u e target held)
]
