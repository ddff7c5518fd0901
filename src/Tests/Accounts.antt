-- ===== src/Tests/Accounts.antt =====
-- The theorems of Accounts, applied.
use chamneul.Base.{
  [], ◌∷◌, ◌≤◌, ◌≡◌, refl, subst, true, false, none, some, ◌==◌, string_Eq, any, arith,
}
use chamneul.Models.Accounts.{User, Role, ActiveRole}
use chamneul.Common.Errors.{conflict, validation_error}
use chamneul.Common.Exec.{ok, err, answer, after}
use chamneul.Accounts.Roles.{revoke_role, set_active_role}
use chamneul.Accounts.Roles.Admins.{live_admins, revoke_role_leaves_admin, revoke_inactive_admin}
use chamneul.Accounts.Roles.Worn.{RolesHold}
use chamneul.Accounts.Saving.{guarded, save}
use chamneul.Accounts.Saving.Stale.{save_guards}
use chamneul.Accounts.Passwords.{
  Framework, belongs_to, confirm_password_reset, with_password, invalid_reset_link,
}
use chamneul.Accounts.Passwords.Once.{
  IsBoundToPassword, confirm_password_reset_ends_sessions, confirm_password_reset_once,
}
use chamneul.Base.{find?}
use chamneul.Models.{Db}
use chamneul.Accounts.Roles.{user_pk}
use chamneul.Accounts.Saving.{ProfilePatch, update_profile}
use chamneul.Accounts.Saving.Profile.{guarded_of, update_profile-guarded}
use chamneul.Base.Runs.{Run}
use chamneul.Lifecycle.Roles.{RoleStep, Run-RolesHold}
use chamneul.Tests.Samples.{advisor, env, later_env, asker, dormant, db, db-RolesHold}

revoke_role_leaves_admin_example : 1 ≤ live_admins (after (revoke_role env 3 Role.admin 4 "" db))
revoke_role_leaves_admin_example =
    revoke_role_leaves_admin env 3 Role.admin 4 "" db db-RolesHold (omega arith)

revoke_inactive_admin_example :
    revoke_role env 5 Role.admin 3 "" db ≡ (err (conflict "보유하지 않은 역할입니다." (some "NOT_HELD")), db)
revoke_inactive_admin_example =
    revoke_inactive_admin env 5 3 "" db dormant refl refl refl (ground arith)

-- The row was given a password after the instance was loaded.
abbrev stored : User
stored = record asker { password = "renewed" }

abbrev renamed : User
renamed = record asker { nickname = "renamed" }

save_guards_example :
    (guarded (save env (record { user = renamed; baseline = guarded asker }) stored)
      ≡ guarded stored)
    × ((save env (record { user = renamed; baseline = guarded asker }) stored).nickname
        ≡ renamed.nickname)
save_guards_example = save_guards env asker stored renamed refl

-- Passwords in the clear, and the password itself as the token.
abbrev pub framework : Framework
framework = record {
  normalize_email = λ email. email;
  lower = λ email. email;
  decoded_uid = λ uid. some 1;
  has_usable_password = λ hash. true;
  unusable_password = λ salt. "!";
  make_password = λ salt raw. raw;
  make_token = λ now u. u.password;
  check_token = λ now u token. u.password == token;
  validate_password = λ raw u. none;
}

framework-IsBoundToPassword : IsBoundToPassword framework
framework-IsBoundToPassword = record {
  spent = λ now later u v token good same other.
      subst (λ t. (v.password == t) ≡ false) ((string_Eq.same_iff u.password token).0 good) other;
}

reset_answers :
    answer (confirm_password_reset framework env 0 "uid" "hash" "fresh" db)
    ≡ ok (with_password framework env 0 "fresh" asker)
unfolding confirm_password_reset
reset_answers = refl

confirm_password_reset_ends_sessions_example :
    any
      (belongs_to 1)
      (after (confirm_password_reset framework env 0 "uid" "hash" "fresh" db)).sessions
    ≡ false
confirm_password_reset_ends_sessions_example =
    confirm_password_reset_ends_sessions framework env 0 "uid" "hash" "fresh" db
      (with_password framework env 0 "fresh" asker) reset_answers

confirm_password_reset_once_example :
    confirm_password_reset framework later_env 1 "uid" "hash" "other"
      (after (confirm_password_reset framework env 0 "uid" "hash" "fresh" db))
    ≡ (
      err (validation_error "token" invalid_reset_link),
      after (confirm_password_reset framework env 0 "uid" "hash" "fresh" db),
    )
confirm_password_reset_once_example =
    confirm_password_reset_once framework env later_env 0 1 "uid" "hash" "fresh" "other" db
      (with_password framework env 0 "fresh" asker) framework-IsBoundToPassword refl reset_answers

abbrev two_users : Db
two_users = record db { users = asker ∷ advisor ∷ [] }

abbrev profile_patch : ProfilePatch
profile_patch = record {
  nickname = some "renamed";
  job = none;
  interest = some "등산";
  profile_image_url = none;
}

update_profile-guarded_example :
    guarded_of (find? (user_pk 1) (after (update_profile env 1 profile_patch two_users)).users)
    ≡ guarded_of (find? (user_pk 1) two_users.users)
update_profile-guarded_example = update_profile-guarded env 1 1 profile_patch two_users

Run-RolesHold_example : RolesHold (
    after (
      revoke_role later_env 2 Role.advisor 3 "" (after (set_active_role env 2 ActiveRole.user db))))
Run-RolesHold_example =
    Run-RolesHold
      (Run.later (Run.later Run.here (RoleStep.switched env 2 ActiveRole.user))
        (RoleStep.revoked later_env 2 Role.advisor 3 ""))
      db-RolesHold
