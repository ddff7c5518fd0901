-- ===== src/Api/Sessions.antt =====
-- The serializers of accounts/serializers.py that the handlers of sessions use. The authentication of
-- the framework is a parameter.
use chamneul.Base.{
  update, ℕ, String, ◌≡◌, true, Option, none, some, ◌==◌, not, string_Eq, nat_eq, if◌then◌else◌,
  any, filter,
}
use chamneul.Accounts.Roles.{user_pk}
use chamneul.Models.{Db}
use chamneul.Models.Accounts.{User, ActiveRole, Session}
use chamneul.Common.Errors.{Error, Constraint}
use chamneul.Common.Exec.{Exec, Result, ok, err, lift, modify, ◌>>=◌}
use chamneul.Accounts.Passwords.{Framework, canonical_email, belongs_to}

-- What the views use of the framework's authentication: `authenticate` by address and password,
-- `login` and `logout` under the session key of the request, and the validators for a new user's
-- password.
pub record Auth : Type 0 where
  pub framework : Framework
  pub validate_new_password : String → Option String
  pub authenticate : String → String → Db → Option User
  pub login : Option ℕ → User → Db → Db
  pub logout : Option ℕ → Db → Db
  -- an account that is not active is not authenticated
  pub on_authenticated :
      (email password : String) (db : Db) (u : User)
      → authenticate email password db ≡ some u
      → (u.is_active ≡ true) × (u.email ≡ email)
  -- a login leaves a session of the user, and writes to the sessions and the users alone
  pub on_login :
      (key : Option ℕ) (u : User) (db : Db) → any (belongs_to u.id) (login key u db).sessions ≡ true
  pub on_login_else :
      (key : Option ℕ) (u : User) (db : Db)
      → record (login key u db) { users = db.users; sessions = db.sessions } ≡ db
  -- of the users, it writes the time of the last login of that one
  pub on_login_users :
      (key : Option ℕ) (u : User) (db : Db)
      → (at : Option ℕ) × ((login key u db).users
          ≡ update (user_pk u.id) (λ (r : User). record r { last_login = at }) db.users)
  -- a logout removes the session of the request
  pub on_logout :
      (k : ℕ) (db : Db)
      → logout (some k) db ≡ record db {
        sessions = filter (λ (s : Session). not (nat_eq s.session_key k)) db.sessions;
      }

-- A field of a body, as the framework has read it: its value, or the message of its failure.
pub data Field : Type 0 where
  valid : String → Field
  faulty : String → Field

pub record SignupBody : Type 0 where
  pub email : Field
  pub nickname : Field
  pub password : Field

pub record SignupData : Type 0 where
  pub email : String
  pub nickname : String
  pub password : String

abbrev pub email_taken : Error
email_taken = Error.conflict "이미 가입된 이메일입니다." (some "EMAIL_TAKEN")

abbrev pub nickname_taken : Error
nickname_taken = Error.conflict "이미 사용 중인 닉네임입니다." (some "NICKNAME_TAKEN")

-- `_signup_conflict`, by the name of the constraint.
unfoldable pub signup_conflict : Error → Error
signup_conflict (Error.integrity_error Constraint.user_nickname) = nickname_taken
signup_conflict (Error.integrity_error Constraint.user_email) = email_taken
signup_conflict (Error.integrity_error _) = Error.conflict "이미 가입된 이메일 또는 닉네임입니다." none
signup_conflict e = e

module _ (auth : Auth) where
  -- `validate_email`, `validate_nickname` and `validate_password` of the sign-up. A conflict is raised
  -- at once, a faulty field after all fields are read.
  abbrev pub validate_email : Field → Db → Result Field
  validate_email (Field.faulty m) db = ok (Field.faulty m)
  validate_email (Field.valid value) db =
      if any (λ (u : User). u.email == canonical_email auth.framework value) db.users
      then err email_taken
      else ok (Field.valid value)

  abbrev pub validate_nickname : Field → Db → Result Field
  validate_nickname (Field.faulty m) db = ok (Field.faulty m)
  validate_nickname (Field.valid value) db =
      if any (λ (u : User). u.nickname == value) db.users
      then err nickname_taken
      else ok (Field.valid value)

  abbrev pub checked_password : Option String → String → Field
  checked_password none value = Field.valid value
  checked_password (some m) value = Field.faulty m

  abbrev pub validate_password : Field → Field
  validate_password (Field.faulty m) = Field.faulty m
  validate_password (Field.valid value) = checked_password (auth.validate_new_password value) value

  -- The first of the faulty fields, or the data.
  abbrev pub collected : Field → Field → Field → Result SignupData
  collected (Field.faulty m) _ _ = err (Error.validation_error "email" m)
  collected (Field.valid e) (Field.faulty m) _ = err (Error.validation_error "nickname" m)
  collected (Field.valid e) (Field.valid n) (Field.faulty m) =
      err (Error.validation_error "password" m)
  collected (Field.valid e) (Field.valid n) (Field.valid p) =
      ok (record { email = e; nickname = n; password = p })

  unfoldable pub signup_data : SignupBody → Exec SignupData
  signup_data body = do
    email ← λ db. (validate_email body.email db, db)
    nickname ← λ db. (validate_nickname body.nickname db, db)
    lift (collected email nickname (validate_password body.password))

  abbrev pub login_as : Option ℕ → User → Exec (Unit {0})
  login_as key u = modify (auth.login key u)

  abbrev pub logout_of : Option ℕ → Exec (Unit {0})
  logout_of key = modify (auth.logout key)

-- `UserCardSerializer` and `SignupResultSerializer`
pub record UserCard : Type 0 where
  pub user_id : ℕ
  pub email : String
  pub nickname : String
  pub active_role : ActiveRole

unfoldable pub user_card : User → UserCard
user_card u = record {
  user_id = u.id;
  email = u.email;
  nickname = u.nickname;
  active_role = u.active_role;
}

pub record SignupResult : Type 0 where
  pub card : UserCard
  pub created_at : ℕ
