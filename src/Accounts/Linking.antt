-- ===== src/Accounts/Linking.antt =====
-- The Google accounts of accounts/services.py (#6): linking, and the creation of a user with a
-- nickname that is free; `create_user` of accounts/managers.py.
pub mod Takeover
pub mod Careful
pub mod Linked
use chamneul.Base.{
  ℕ, suc, ◌+◌, String, Bool, true, false, Option, none, some, List, [], ◌∷◌, ◌++◌, ◌||◌, ◌==◌,
  string_Eq, not, nat_eq, if◌then◌else◌, any, find?, update, is_some,
}
use chamneul.Models.{Db, Env}
use chamneul.Models.Accounts.{User, ActiveRole, GoogleIdentity}
use chamneul.Common.Errors.{
  Constraint, Error, conflict, integrity_error, value_error, does_not_exist,
}
use chamneul.Common.Exec.{
  Exec, Result, ok, err, pure, raise, gets, or_raise, raise_if, modify, atomic, ◌>>=◌, ◌>>◌,
}
use chamneul.Accounts.Roles.{user_pk}
use chamneul.Accounts.Passwords.{Framework, canonical_email, purge_sessions_of}
use chamneul.Accounts.Nicknames.{Draws, derive_nickname_base, nickname_candidates}

-- The insertion of a user, under the unique columns.
unfoldable pub insert_user : User → Exec User
insert_user u db =
    if any (λ (r : User). r.email == u.email) db.users
    then (err (integrity_error Constraint.user_email), db)
    else if any (λ (r : User). r.nickname == u.nickname) db.users
    then (err (integrity_error Constraint.user_nickname), db)
    else (ok u, record db { users = db.users ++ u ∷ [] })

-- The insertion of a link: one for each Google account, and one for each user.
unfoldable pub insert_identity : GoogleIdentity → Exec GoogleIdentity
insert_identity g db =
    if any (λ (r : GoogleIdentity). r.google_sub == g.google_sub) db.google_identities
    then (err (integrity_error Constraint.google_sub), db)
    else if any (λ (r : GoogleIdentity). nat_eq r.user g.user) db.google_identities
    then (err (integrity_error Constraint.google_user), db)
    else (ok g, record db { google_identities = db.google_identities ++ g ∷ [] })

abbrev pub identity : Env → ℕ → ℕ → String → String → GoogleIdentity
identity env id user google_sub email = record {
  id = id;
  user = user;
  google_sub = google_sub;
  email = email;
  created_at = env.now;
}

module _ (fw : Framework) where
  abbrev pub new_user : Env → ℕ → ℕ → String → String → User
  new_user env id salt email nickname = record {
    id = id;
    email = canonical_email fw email;
    nickname = nickname;
    active_role = ActiveRole.user;
    is_active = true;
    is_staff = false;
    is_superuser = false;
    password = fw.unusable_password salt;
    last_login = none;
    job = "";
    interest = "";
    profile_image_url = "";
    created_at = env.now;
    updated_at = env.now;
  }

  -- `create_user` with `password=None`.
  unfoldable pub create_user : Env → ℕ → ℕ → String → String → Exec User
  unfolding insert_user
  create_user env id salt email nickname = do
    raise_if (email == "") (value_error "email is required")
    raise_if (nickname == "") (value_error "nickname is required")
    insert_user (new_user env id salt email nickname)

  -- One turn of the loop: a user and a link, or neither. The turn draws the ids `id` and `id + 1`.
  unfoldable pub create_linked : Env → ℕ → ℕ → String → String → String → Exec User
  unfolding create_user insert_identity
  create_linked env salt id email google_sub nickname = atomic do
    user ← create_user env (env.uuid id) salt email nickname
    insert_identity (identity env (env.uuid (id + 1)) user.id google_sub email)
    pure user

  abbrev pub retry : Result User × Db → (Error → Exec User) → Db → Result User × Db
  retry (ok u, db') next db = (ok u, db')
  retry (err (integrity_error c), _) next db = next (integrity_error c) db
  retry (err e, db') next db = (err e, db')

  -- The loop over the candidates, with the last error.
  unfoldable pub first_free : Env → ℕ → ℕ → String → String → List String → Error → Exec User
  unfolding create_linked
  first_free env salt id email google_sub [] last_error = raise last_error
  first_free env salt id email google_sub (nickname ∷ rest) last_error = λ db.
      retry (create_linked env salt id email google_sub nickname db)
        (first_free env salt (id + 2) email google_sub rest) db

  unfoldable pub create_with_nickname : Env → ℕ → Draws → String → String → String → Exec User
  unfolding first_free nickname_candidates
  create_with_nickname env salt draws email google_sub base =
      first_free env salt 0 email google_sub (nickname_candidates draws base) does_not_exist

  -- `set_unusable_password()` and the time, the two columns that are saved.
  abbrev pub without_password : Env → ℕ → User → User
  without_password env salt u = record u {
    password = fw.unusable_password salt;
    updated_at = env.now;
  }

  -- The link to an account that is there and active.
  unfoldable pub link_existing : Env → ℕ → String → String → User → Exec User
  unfolding insert_identity purge_sessions_of
  link_existing env salt google_sub email existing = do
    linked ←
        gets (λ db. any (λ (g : GoogleIdentity). nat_eq g.user existing.id) db.google_identities)
    raise_if linked (conflict "이 계정은 이미 다른 Google 계정과 연결되어 있습니다." none)
    insert_identity (identity env (env.uuid 0) existing.id google_sub email)
    modify (λ db. record db {
      users = update (user_pk existing.id) (without_password env salt) db.users;
    })
    purge_sessions_of existing.id
    pure (without_password env salt existing)

  abbrev pub by_email : Env → ℕ → Draws → String → String → String → Option User → Exec User
  by_email env salt draws google_sub email name none =
      create_with_nickname env salt draws email google_sub (derive_nickname_base name email)
  by_email env salt draws google_sub email name (some existing) =
      if existing.is_active
      then atomic (link_existing env salt google_sub email existing)
      else pure existing

  abbrev pub has_email : String → User → Bool
  has_email email u = u.email == email

  -- `select_related("user")`: the user of the link.
  abbrev pub by_identity : Option GoogleIdentity → Exec User → Exec User
  by_identity none otherwise = otherwise
  by_identity (some g) otherwise = do
    user ← gets (λ db. find? (user_pk g.user) db.users)
    or_raise user does_not_exist

  unfoldable pub link_or_create_google_user : Env → ℕ → Draws → String → String → String → Exec User
  unfolding link_existing create_with_nickname
  link_or_create_google_user env salt draws google_sub email name = do
    known ←
        gets (λ db. find? (λ (g : GoogleIdentity). g.google_sub == google_sub) db.google_identities)
    existing ← gets (λ db. find? (has_email (canonical_email fw email)) db.users)
    by_identity known (by_email env salt draws google_sub (canonical_email fw email) name existing)
