-- ===== src/Accounts/Passwords.antt =====
-- The password reset of accounts/services.py (#45, #46). The hasher, the token generator and the
-- validators of the framework are a parameter.
pub mod Once
use chamneul.Base.{
  ℕ, String, Bool, true, false, Option, none, some, List, [], ◌∷◌, ◌++◌, ◌&&◌, ◌||◌, ◌==◌, not,
  nat_eq, string_Eq, if◌then◌else◌, any, filter, find?, update, is_some, get_or, map,
}
use chamneul.Models.{Db, Env}
use chamneul.Models.Accounts.{User, GoogleIdentity, Session}
use chamneul.Common.Errors.{validation_error}
use chamneul.Common.Exec.{Exec, pure, gets, or_raise, raise_if, modify, atomic, ◌>>=◌, ◌>>◌}
use chamneul.Accounts.Roles.{user_pk}

-- What the service uses of the framework. A salt and the time are drawn by each call.
pub record Framework : Type 0 where
  -- `BaseUserManager.normalize_email` and `str.lower`
  pub normalize_email : String → String
  pub lower : String → String
  -- the id in `uidb64`, where it decodes to one
  pub decoded_uid : String → Option ℕ
  pub has_usable_password : String → Bool
  -- `make_password`: salt and raw password
  pub make_password : ℕ → String → String
  -- `make_password(None)`, by salt
  pub unusable_password : ℕ → String
  -- `default_token_generator`: time and user
  pub make_token : ℕ → User → String
  pub check_token : ℕ → User → String → Bool
  -- `validate_password`: the message of a failure
  pub validate_password : String → User → Option String

module _ (fw : Framework) where
  unfoldable pub reset_allowed : User → Db → Bool
  reset_allowed user db =
      fw.has_usable_password user.password
      || any (λ (g : GoogleIdentity). nat_eq g.user user.id) db.google_identities

  -- `UserManager.canonical_email`
  abbrev pub canonical_email : String → String
  canonical_email email = fw.lower (fw.normalize_email email)

  -- The mail that #45 sends: its recipient and its token, if it sends one.
  unfoldable pub request_password_reset : Env → String → Db → Option (User × String)
  unfolding reset_allowed
  request_password_reset env email db =
      elim (find? (λ (u : User). u.email == canonical_email email && u.is_active) db.users) [
        | none ↦ none
        | some user ↦
            if reset_allowed user db then some (user, fw.make_token env.now user) else none
      ]

abbrev pub belongs_to : ℕ → Session → Bool
belongs_to user s = elim s.auth_user [ none ↦ false | some k ↦ nat_eq k user ]

-- The keys of the sessions whose content names the user.
abbrev pub stale_keys : ℕ → List Session → List ℕ
stale_keys user rows = map (λ s. s.session_key) (filter (belongs_to user) rows)

unfoldable pub purge_sessions_of : ℕ → Exec (Unit {0})
purge_sessions_of user = modify λ db. record db {
  sessions =
      filter (λ s. not (any (nat_eq s.session_key) (stale_keys user db.sessions))) db.sessions;
}

abbrev pub invalid_reset_link : String
invalid_reset_link = "링크가 만료됐거나 올바르지 않습니다. 비밀번호 재설정을 다시 요청해 주세요."

module _ (fw : Framework) where
  -- The user of the link, if it may be used: every other case has one answer.
  unfoldable pub user_of_link : Env → String → String → Db → Option User
  unfolding reset_allowed
  user_of_link env uidb64 token db = elim (fw.decoded_uid uidb64) [
    | none ↦ none
    | some k ↦ elim (find? (λ (u : User). user_pk k u && u.is_active) db.users) [
      | none ↦ none
      | some u ↦ if reset_allowed fw u db && fw.check_token env.now u token then some u else none
    ]
  ]

  abbrev pub with_password : Env → ℕ → String → User → User
  with_password env salt raw u = record u {
    password = fw.make_password salt raw;
    updated_at = env.now;
  }

  unfoldable pub confirm_password_reset : Env → ℕ → String → String → String → Exec User
  unfolding user_of_link purge_sessions_of
  confirm_password_reset env salt uidb64 token new_password = atomic do
    user ←
        or_raise (← gets (user_of_link env uidb64 token))
          (validation_error "token" invalid_reset_link)
    refused ← gets (λ db. fw.validate_password new_password user)
    raise_if (is_some refused) (validation_error "new_password" (get_or refused ""))
    modify (λ db. record db {
      users = update (user_pk user.id) (with_password env salt new_password) db.users;
    })
    purge_sessions_of user.id
    pure (with_password env salt new_password user)
