-- ===== src/Api/Signup.antt =====
-- The sign-up #2 of accounts/views.py, case by case.
use chamneul.Base.{
  true, false, none, ℕ, String, ◌≡◌, Option, [], ◌∷◌, ◌++◌, ◌==◌, string_Eq, if◌then◌else◌, arith,
  any,
}
use chamneul.Models.{Db, Env}
use chamneul.Models.Accounts.{User, ActiveRole}
use chamneul.Common.Exec.{ok, err}
use chamneul.Common.Requests.{replies}
use chamneul.Accounts.Passwords.{canonical_email}
use chamneul.Accounts.Creating.{create_user_with_password}
use chamneul.Api.Sessions.{
  UserCard, Auth, Field, SignupBody, signup_data, email_taken, nickname_taken, user_card,
}
use chamneul.Api.SessionViews.{post_signup}

module _ (auth : Auth) (env : Env) (salt : ℕ) (key : Option ℕ) (email nickname password : String)
    (db : Db) where
  -- The new row: a plain active account in the role USER.
  abbrev pub new_row : User
  new_row = record {
    id = env.uuid 0;
    email = canonical_email auth.framework email;
    nickname = nickname;
    active_role = ActiveRole.user;
    is_active = true;
    is_staff = false;
    is_superuser = false;
    password = auth.framework.make_password salt password;
    last_login = none;
    job = "";
    interest = "";
    profile_image_url = "";
    created_at = env.now;
    updated_at = env.now;
  }

  -- What the answer tells of it.
  abbrev pub new_card : UserCard
  new_card = record {
    user_id = env.uuid 0;
    email = canonical_email auth.framework email;
    nickname = nickname;
    active_role = ActiveRole.user;
  }

  abbrev pub body : SignupBody
  body = record {
    email = Field.valid email;
    nickname = Field.valid nickname;
    password = Field.valid password;
  }

  -- #2, for an address and a nickname that are not empty and a password that the validators accept,
  -- answers 409 EMAIL_TAKEN if a user has the canonical form of the address, else 409
  -- NICKNAME_TAKEN if a user has the nickname, and writes nothing in either case; else it answers
  -- 201 with the id, the canonical address, the nickname and the role of a new user, which it
  -- appends and logs in: active, neither staff nor superuser, in the role USER, with the hash of
  -- the password.
  pub post_signup_lem :
      (email == "") ≡ false
      → (nickname == "") ≡ false
      → auth.validate_new_password password ≡ none
      → post_signup auth env salt key body db ≡ (
          if any (λ (u : User). u.email == canonical_email auth.framework email) db.users
          then (err email_taken, db)
          else if any (λ (u : User). u.nickname == nickname) db.users
          then (err nickname_taken, db)
          else (
            ok (replies 201 (record { card = new_card; created_at = env.now })),
            auth.login key new_row (record db { users = db.users ++ new_row ∷ [] }),
          ))
  unfolding post_signup signup_data create_user_with_password user_card
  post_signup_lem e n p = ground arith
