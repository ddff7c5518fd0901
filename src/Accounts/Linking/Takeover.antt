-- ===== src/Accounts/Linking/Takeover.antt =====
-- `link_or_create_google_user` of accounts/services.py.
use chamneul.Base.{
  ℕ, ◌+◌, String, ◌≡◌, refl, Bool, true, false, none, some, List, [], ◌∷◌, ◌++◌, ◌==◌, ◌&&◌,
  string_Eq, not, nat_eq, arith, any, find?, update, Bool-cases, inl, inr,
}
use chamneul.Models.{Db, Env}
use chamneul.Models.Accounts.{User, GoogleIdentity}
use chamneul.Common.Errors.{Constraint, Error, integrity_error}
use chamneul.Common.Exec.{Result, ok, err, answer, after}
use chamneul.Accounts.Roles.{user_pk}
use chamneul.Accounts.Passwords.{Framework, canonical_email, belongs_to}
use chamneul.Accounts.Passwords.Once.{kept_sessions, kept_sessions-belongs_to}
use chamneul.Accounts.Nicknames.{Draws}
use chamneul.Accounts.Linking.{
  create_linked, first_free, new_user, identity, without_password, has_email,
  link_or_create_google_user,
}

abbrev pub is_linked_sub : String → GoogleIdentity → Bool
is_linked_sub google_sub g = g.google_sub == google_sub

abbrev pub is_linked_user : ℕ → GoogleIdentity → Bool
is_linked_user user g = nat_eq g.user user

abbrev pub keeps_password : Framework → ℕ → ℕ → User → Bool
keeps_password fw salt k u = user_pk k u && not (u.password == fw.unusable_password salt)

none-any : {A : Type 0} (p : A → Bool) (xs : List A) → find? p xs ≡ none → any p xs ≡ false
none-any p [] h = refl
none-any p (x ∷ xs) h = ground (arith, none-any p xs)

replaced :
    (fw : Framework) (env : Env) (salt k : ℕ) (users : List User)
    → any (keeps_password fw salt k) (update (user_pk k) (without_password fw env salt) users)
      ≡ false
replaced fw env salt k [] = refl
replaced fw env salt k (u ∷ users) = elim (Bool-cases (user_pk k u)) [
  | inl hit ↦ ground (
    arith,
    replaced fw env salt k users,
    (string_Eq.same_iff (fw.unusable_password salt) (fw.unusable_password salt)).1 refl,
  )
  | inr miss ↦ ground (arith, replaced fw env salt k users)
]

module _ (fw : Framework) (env : Env) (salt : ℕ) (draws : Draws) (google_sub email name : String)
    (db : Db) where
  abbrev pub linked_db : User → Db
  linked_db u = record db {
    google_identities =
        db.google_identities
        ++ identity env (env.uuid 0) u.id google_sub (canonical_email fw email) ∷ [];
    users = update (user_pk u.id) (without_password fw env salt) db.users;
    sessions = kept_sessions u.id db;
  }

  link_granted :
      (u : User)
      → find? (is_linked_sub google_sub) db.google_identities ≡ none
      → find? (has_email fw (canonical_email fw email)) db.users ≡ some u
      → u.is_active ≡ true
      → any (is_linked_user u.id) db.google_identities ≡ false
      → any (is_linked_sub google_sub) db.google_identities ≡ false
      → link_or_create_google_user fw env salt draws google_sub email name db
        ≡ (ok (without_password fw env salt u), linked_db u)
  unfolding link_or_create_google_user
  link_granted u unknown e active free new = ground arith

  link_denied :
      (u v : User)
      → find? (is_linked_sub google_sub) db.google_identities ≡ none
      → find? (has_email fw (canonical_email fw email)) db.users ≡ some u
      → u.is_active ≡ true
      → any (is_linked_user u.id) db.google_identities ≡ true
      → answer (link_or_create_google_user fw env salt draws google_sub email name db) ≡ ok v
      → ⊥
  unfolding link_or_create_google_user
  link_denied u v unknown e active taken h = ground arith

  -- When #6 answers for a Google account that is not linked yet and whose canonical address is that
  -- of an active user, no session of that user is left, and the stored password of that user is an
  -- unusable one.
  pub link_or_create_google_user_ends_access :
      (u v : User)
      → find? (is_linked_sub google_sub) db.google_identities ≡ none
      → find? (has_email fw (canonical_email fw email)) db.users ≡ some u
      → u.is_active ≡ true
      → answer (link_or_create_google_user fw env salt draws google_sub email name db) ≡ ok v
      → (any
            (belongs_to u.id)
            (after (link_or_create_google_user fw env salt draws google_sub email name db)).sessions
          ≡ false)
        × (any
              (keeps_password fw salt u.id)
              (after (link_or_create_google_user fw env salt draws google_sub email name db)).users
            ≡ false)
  link_or_create_google_user_ends_access u v unknown e active h =
      elim (Bool-cases (any (is_linked_user u.id) db.google_identities)) [
        | inl taken ↦ absurd (link_denied u v unknown e active taken h)
        | inr free ↦
            rw
              (link_granted u unknown e active free
                (none-any (is_linked_sub google_sub) db.google_identities unknown))
              (kept_sessions-belongs_to u.id db, replaced fw env salt u.id db.users)
      ]

-- A nickname that no user has.
abbrev pub is_free : Db → String → Bool
is_free db nickname = not (any (λ (r : User). r.nickname == nickname) db.users)

abbrev pub is_ok : {A : Type 0} → Result A → Bool
is_ok (ok _) = true
is_ok (err _) = false

module _ (fw : Framework) (env : Env) (salt : ℕ) (email google_sub : String) (db : Db)
    (filled : (email == "") ≡ false)
    (new_email : any (λ (r : User). r.email == canonical_email fw email) db.users ≡ false)
    (new_sub : any (is_linked_sub google_sub) db.google_identities ≡ false)
    (new_ids : (i : ℕ) → any (is_linked_user (env.uuid i)) db.google_identities ≡ false) where
  taken_turn :
      (id : ℕ) (nickname : String)
      → (nickname == "") ≡ false
      → is_free db nickname ≡ false
      → create_linked fw env salt id email google_sub nickname db
        ≡ (err (integrity_error Constraint.user_nickname), db)
  unfolding create_linked
  taken_turn id nickname n taken = ground arith

  free_turn :
      (id : ℕ) (nickname : String)
      → (nickname == "") ≡ false
      → is_free db nickname ≡ true
      → answer (create_linked fw env salt id email google_sub nickname db)
        ≡ ok (new_user fw env (env.uuid id) salt email nickname)
  unfolding create_linked
  free_turn id nickname n free = ground (arith, new_ids id)

  -- The loop of #6 over the candidates for a nickname, none of them empty, answers if one of them
  -- is free, where the address is not empty, no user has it, the Google account is not linked, and
  -- the ids that are drawn are those of no linked user.
  pub first_free_answers :
      (id : ℕ) (candidates : List String) (last_error : Error)
      → any (λ n. n == "") candidates ≡ false
      → any (is_free db) candidates ≡ true
      → is_ok (answer (first_free fw env salt id email google_sub candidates last_error db)) ≡ true
  unfolding first_free
  first_free_answers id [] last_error n h = cc
  first_free_answers id (nickname ∷ rest) last_error n h = elim (Bool-cases (is_free db nickname)) [
    | inl free ↦ ground (arith, free_turn id nickname (ground arith) free)
    | inr taken ↦ rw (taken_turn id nickname (ground arith) taken) (
        first_free_answers (id + 2) rest (integrity_error Constraint.user_nickname) (ground arith)
          (ground arith))
  ]
