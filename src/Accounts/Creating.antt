-- ===== src/Accounts/Creating.antt =====
-- The users that accounts/managers.py creates: `create_user` with a password, and `create_superuser`.
use chamneul.Base.{ℕ, String, Bool, true, false, Option, none, some, ◌==◌, string_Eq, not, get_or}
use chamneul.Models.{Env}
use chamneul.Models.Accounts.{User, UserRole, Role, ActiveRole}
use chamneul.Common.Errors.{value_error}
use chamneul.Common.Exec.{Exec, pure, raise_if, atomic, ◌>>=◌, ◌>>◌}
use chamneul.Accounts.Roles.{create_user_role}
use chamneul.Accounts.Passwords.{Framework, canonical_email}
use chamneul.Accounts.Linking.{insert_user}

module _ (fw : Framework) where
  -- `set_password`: no password gives an unusable one.
  abbrev pub stored_password : ℕ → Option String → String
  stored_password salt none = fw.unusable_password salt
  stored_password salt (some raw) = fw.make_password salt raw

  abbrev pub account : Env → ℕ → String → String → Option String → Bool → Bool → User
  account env salt email nickname password is_staff is_superuser = record {
    id = env.uuid 0;
    email = canonical_email fw email;
    nickname = nickname;
    active_role = ActiveRole.user;
    is_active = true;
    is_staff = is_staff;
    is_superuser = is_superuser;
    password = stored_password salt password;
    last_login = none;
    job = "";
    interest = "";
    profile_image_url = "";
    created_at = env.now;
    updated_at = env.now;
  }

  -- `_create_user`
  unfoldable pub create_account :
      Env → ℕ → String → String → Option String → Bool → Bool → Exec User
  unfolding insert_user
  create_account env salt email nickname password is_staff is_superuser = do
    raise_if (email == "") (value_error "email is required")
    raise_if (nickname == "") (value_error "nickname is required")
    insert_user (account env salt email nickname password is_staff is_superuser)

  -- `create_user` as the sign-up calls it.
  unfoldable pub create_user_with_password : Env → ℕ → String → String → String → Exec User
  unfolding create_account
  create_user_with_password env salt email nickname password =
      create_account env salt email nickname (some password) false false

  abbrev pub admin_row : Env → ℕ → UserRole
  admin_row env user = record {
    id = env.uuid 1;
    user = user;
    role = Role.admin;
    created_at = env.now;
  }

  -- The flags are the extra fields that the caller names, if it names them.
  unfoldable pub create_superuser :
      Env → ℕ → String → String → Option String → Option Bool → Option Bool → Exec User
  unfolding create_account create_user_role
  create_superuser env salt email nickname password is_staff is_superuser = do
    raise_if (not (get_or is_staff true)) (value_error "superuser must have is_staff=True")
    raise_if (not (get_or is_superuser true)) (value_error "superuser must have is_superuser=True")
    atomic do
      user ← create_account env salt email nickname password true true
      create_user_role (admin_row env user.id)
      pure user
