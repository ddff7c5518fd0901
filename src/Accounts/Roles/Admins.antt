-- ===== src/Accounts/Roles/Admins.antt =====
-- `revoke_role` of accounts/services.py and the ADMIN rows of active accounts.
use chamneul.Base.{
  ℕ, ◌≤◌, String, ◌≡◌, ◌≢◌, refl, sym, ◌∙◌, subst, true, false, some, List, [], ◌∷◌, ◌&&◌, not,
  nat_eq, nat_eq_iff, arith, inl, inr, any, filter, find?, count, Bool-cases,
}
use chamneul.Base.Rows.{any-update, count-filter, count-filter-not, count-cong, length-filter}
use chamneul.Models.{Db, Env}
use chamneul.Models.Accounts.{User, UserRole, Role, ActiveRole, role_Eq, active_role_Eq}
use chamneul.Common.Errors.{conflict}
use chamneul.Common.Exec.{err, after}
use chamneul.Accounts.Roles.{
  user_pk, holds, has_role, is_live_user, is_live_admin, admin_roles, revoke_role,
}
use chamneul.Accounts.Roles.Effects.{
  dropped, undressed, revoke_advisor_cases, revoke_admin_cases, revoke_user_refused, passes_guard,
  guard_admin_stops,
}
use chamneul.Accounts.Roles.Worn.{RolesHold}

-- The rows of ADMIN whose user is active.
abbrev pub live_admins : Db → ℕ
live_admins db = count (is_live_admin db.users) db.user_roles

module _ (env : Env) (k actor : ℕ) (reason : String) (db : Db) (w : RolesHold db) where
  admin-remains :
      (u : User)
      → passes_guard u.id actor db ≡ true
      → 1 ≤ live_admins (dropped env k actor reason db Role.admin u)
  unfolding admin_roles
  admin-remains u g = ground (
    arith,
    length-filter (is_live_admin db.users) db.user_roles,
    count-filter-not (is_live_admin db.users) (holds u.id Role.admin) db.user_roles,
    w.role_unique u.id Role.admin,
  )

  same_users :
      (u : User) (x : ℕ)
      → is_live_user (undressed env k actor reason db u db).users x ≡ is_live_user db.users x
  same_users u x = ground (
    arith,
    any-update (λ (v : User). nat_eq v.id x && v.is_active) (user_pk u.id)
        (λ (r : User). record r { active_role = ActiveRole.user; updated_at = env.now }) db.users
        (λ v. refl),
  )

  advisor-remains :
      (u : User)
      → live_admins
          (undressed env k actor reason db u (dropped env k actor reason db Role.advisor u))
        ≡ live_admins db
  advisor-remains u =
      count-cong (is_live_admin (undressed env k actor reason db u db).users)
        (is_live_admin db.users) (filter (λ r. not (holds u.id Role.advisor r)) db.user_roles)
        (λ r. ground (arith, same_users u r.user))
      ∙ count-filter (is_live_admin db.users) (λ r. not (holds u.id Role.advisor r)) db.user_roles
          (λ r h. ground arith)

-- Where the roles are well kept (RolesHold) and at least one ADMIN row belongs to an active
-- account, at least one still does after #43 (revoke_role), whatever role of whatever user it is
-- asked to revoke.
pub revoke_role_leaves_admin :
    (env : Env) (k : ℕ) (role : Role) (actor : ℕ) (reason : String) (db : Db)
    → RolesHold db
    → 1 ≤ live_admins db
    → 1 ≤ live_admins (after (revoke_role env k role actor reason db))
revoke_role_leaves_admin env k Role.user actor reason db w h =
    rw (revoke_user_refused env k actor reason db) h
revoke_role_leaves_admin env k Role.advisor actor reason db w h =
    elim (revoke_advisor_cases env k actor reason db) [
      | inl same ↦ rw same h
      | inr (u, e, g, wrote) ↦ rw wrote (rw (advisor-remains env k actor reason db w u) h)
    ]
revoke_role_leaves_admin env k Role.admin actor reason db w h =
    elim (revoke_admin_cases env k actor reason db) [
      | inl same ↦ rw same h
      | inr (u, e, g, passed, wrote) ↦ rw wrote (admin-remains env k actor reason db w u passed)
    ]

not_listed :
    (users : List User) (rows : List UserRole) (k : ℕ)
    → is_live_user users k ≡ false
    → any (λ r. nat_eq r.user k) (filter (is_live_admin users) rows) ≡ false
not_listed users [] k h = refl
not_listed users (r ∷ rows) k h = elim (Bool-cases (nat_eq r.user k)) [
  | inl hit ↦
      let user_is : r.user ≡ k = (nat_eq_iff r.user k).0 hit in
      let gone : is_live_user users r.user ≡ false =
        subst (λ i. is_live_user users i ≡ false) (sym user_is) h in
      ground (arith, not_listed users rows k h)
  | inr miss ↦ ground (arith, not_listed users rows k h)
]

-- #43 answers NOT_HELD, and writes nothing, when it is asked by somebody else to revoke the ADMIN
-- of a user whose account is not active and who has an ADMIN row.
pub revoke_inactive_admin :
    (env : Env) (k actor : ℕ) (reason : String) (db : Db) (u : User)
    → find? (user_pk k) db.users ≡ some u
    → has_role u.id Role.admin db ≡ true
    → is_live_user db.users u.id ≡ false
    → u.id ≢ actor
    → revoke_role env k Role.admin actor reason db
      ≡ (err (conflict "보유하지 않은 역할입니다." (some "NOT_HELD")), db)
unfolding revoke_role admin_roles
revoke_inactive_admin env k actor reason db u e held dead other =
    ground (arith, guard_admin_stops u.id actor db, not_listed db.users db.user_roles u.id dead)
