-- ===== src/Accounts/Saving.antt =====
-- `User.save` of accounts/models.py, and `update_profile` of accounts/services.py. All columns of an
-- instance are loaded: deferred ones do not occur in the program.
pub mod Stale
pub mod Profile
use chamneul.Base.{
  ℕ, String, Bool, true, false, Option, none, some, List, [], ◌∷◌, ◌++◌, ◌&&◌, ◌||◌, not, ◌==◌,
  nat_eq, Eq, string_Eq, bool_Eq, nat_Eq, if◌then◌else◌, any, find?, count, update, is_some, get_or,
}
use chamneul.Models.{Db, Env}
use chamneul.Models.Accounts.{User, ActiveRole, active_role_Eq}
use chamneul.Common.Errors.{Error, Constraint, conflict, integrity_error, does_not_exist}
use chamneul.Common.Exec.{
  Exec, Result, ok, err, pure, gets, or_raise, atomic, catch_integrity, ◌>>=◌, ◌>>◌,
}
use chamneul.Accounts.Roles.{user_pk}

-- `STALE_WRITE_GUARDED`: the values of these columns.
pub record Guarded : Type 0 where
  pub password : String
  pub last_login : Option ℕ
  pub email : String
  pub is_active : Bool
  pub is_staff : Bool
  pub is_superuser : Bool
  pub active_role : ActiveRole

abbrev pub guarded : User → Guarded
guarded u = record {
  password = u.password;
  last_login = u.last_login;
  email = u.email;
  is_active = u.is_active;
  is_staff = u.is_staff;
  is_superuser = u.is_superuser;
  active_role = u.active_role;
}

-- A loaded instance: its columns, and `_guarded_baseline`.
pub record Instance : Type 0 where
  pub user : User
  pub baseline : Guarded

-- `from_db`
abbrev pub from_db : User → Instance
from_db row = record { user = row; baseline = guarded row }

abbrev pub same_instant : Option ℕ → Option ℕ → Bool
same_instant none none = true
same_instant (some a) (some b) = nat_eq a b
same_instant _ _ = false

-- A guarded column is among `update_fields` if the instance has changed it.
abbrev pub written {ℓ} : {A : Type ℓ} → Bool → A → A → A
written untouched row new = if untouched then row else new

-- The row behind a `save()` of the instance with no `update_fields`.
unfoldable pub save : Env → Instance → User → User
save env i row = record (i.user) {
  id = row.id;
  password = written (i.user.password == i.baseline.password) row.password i.user.password;
  last_login =
      written (same_instant i.user.last_login i.baseline.last_login) row.last_login
        i.user.last_login;
  email = written (i.user.email == i.baseline.email) row.email i.user.email;
  is_active = written (i.user.is_active == i.baseline.is_active) row.is_active i.user.is_active;
  is_staff = written (i.user.is_staff == i.baseline.is_staff) row.is_staff i.user.is_staff;
  is_superuser =
      written (i.user.is_superuser == i.baseline.is_superuser) row.is_superuser i.user.is_superuser;
  active_role =
      written (i.user.active_role == i.baseline.active_role) row.active_role i.user.active_role;
  updated_at = env.now;
}

-- The fields of #8 that were sent.
pub record ProfilePatch : Type 0 where
  pub nickname : Option String
  pub job : Option String
  pub interest : Option String
  pub profile_image_url : Option String

abbrev pub apply_profile : ℕ → ProfilePatch → User → User
apply_profile now p u = record u {
  nickname = get_or p.nickname u.nickname;
  job = get_or p.job u.job;
  interest = get_or p.interest u.interest;
  profile_image_url = get_or p.profile_image_url u.profile_image_url;
  updated_at = now;
}

-- The rows that the unique column holds against a change of row `k`.
abbrev pub has_nickname : String → User → Bool
has_nickname s u = u.nickname == s

abbrev pub takes_nickname : ℕ → String → User → Bool
takes_nickname k s u = not (nat_eq u.id k) && has_nickname s u

-- `locked.save(update_fields=[*validated_data, "updated_at"])`
unfoldable pub save_profile : Env → ProfilePatch → User → Exec User
save_profile env p u db =
    if any (takes_nickname u.id (apply_profile env.now p u).nickname) db.users
    then (err (integrity_error Constraint.user_nickname), db)
    else (
      ok (apply_profile env.now p u),
      record db { users = update (user_pk u.id) (apply_profile env.now p) db.users },
    )

unfoldable pub update_profile : Env → ℕ → ProfilePatch → Exec User
unfolding save_profile
update_profile env user p = atomic do
  locked ← or_raise (← gets (λ db. find? (user_pk user) db.users)) does_not_exist
  catch_integrity (atomic (save_profile env p locked)) (conflict "이미 사용 중인 닉네임입니다." none)
