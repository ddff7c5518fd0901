-- ===== src/Accounts/Passwords/Once.antt =====
-- The use of a reset link, `confirm_password_reset` of accounts/services.py.
use chamneul.Base.{
  ℕ, String, ◌≡◌, refl, sym, subst, Bool, true, false, none, some, List, [], ◌∷◌, ◌&&◌, not, nat_eq,
  nat_eq_refl, arith, any, filter, find?, update, All, ◌==◌, string_Eq, Option-cases, Bool-cases,
  inl, inr, ◌⊎◌, ◌∙◌,
}
use chamneul.Base.Rows.{All-imp, find?-update_any}
use chamneul.Models.{Db, Env}
use chamneul.Models.Accounts.{User, Session}
use chamneul.Common.Errors.{validation_error}
use chamneul.Common.Exec.{ok, err, answer, after}
use chamneul.Accounts.Roles.{user_pk}
use chamneul.Accounts.Passwords.{
  Framework, reset_allowed, belongs_to, stale_keys, invalid_reset_link, user_of_link, with_password,
  confirm_password_reset,
}

abbrev pub is_open_link : ℕ → User → Bool
is_open_link k u = user_pk k u && u.is_active

-- The sessions that are not named by a stale key.
abbrev pub kept_sessions : ℕ → Db → List Session
kept_sessions user db =
    filter (λ s. not (any (nat_eq s.session_key) (stale_keys user db.sessions))) db.sessions

abbrev pub reset_db : Framework → Env → ℕ → String → User → Db → Db
reset_db fw env salt raw u db = record db {
  users = update (user_pk u.id) (with_password fw env salt raw) db.users;
  sessions = kept_sessions u.id db;
}

module _ (fw : Framework) (env : Env) (salt : ℕ) (uid token raw : String) (db : Db) where
  confirm_cases :
      ((answer (confirm_password_reset fw env salt uid token raw db)
          ≡ err (validation_error "token" invalid_reset_link))
        × (after (confirm_password_reset fw env salt uid token raw db) ≡ db))
      ⊎ ((u : User) × (user_of_link fw env uid token db ≡ some u)
          × (((fw.validate_password raw u ≡ none)
                × (confirm_password_reset fw env salt uid token raw db
                    ≡ (ok (with_password fw env salt raw u), reset_db fw env salt raw u db)))
              ⊎ ((m : String) × (confirm_password_reset fw env salt uid token raw db
                    ≡ (err (validation_error "new_password" m), db)))))
  unfolding confirm_password_reset
  confirm_cases = elim (Option-cases (user_of_link fw env uid token db)) [
    | inl bad ↦ inl (ground arith, ground arith)
    | inr (u, e) ↦ elim (Option-cases (fw.validate_password raw u)) [
      | inl fine ↦ inr (u, e, inl (fine, ground arith))
      | inr (m, weak) ↦ inr (u, e, inr (m, ground arith))
    ]
  ]

abbrev IsStaleIn : ℕ → List ℕ → Session → Type 0
IsStaleIn user keys s = belongs_to user s ≡ true → any (nat_eq s.session_key) keys ≡ true

longer :
    (user k : ℕ) (keys : List ℕ) (rows : List Session)
    → All (IsStaleIn user keys) rows
    → All (IsStaleIn user (k ∷ keys)) rows
longer user k keys rows h =
    All-imp (IsStaleIn user keys) (IsStaleIn user (k ∷ keys)) rows h (λ s g b. ground (arith, g b))

every_key : (user : ℕ) (rows : List Session) → All (IsStaleIn user (stale_keys user rows)) rows
every_key user [] = tt
every_key user (s ∷ rows) = elim (Bool-cases (belongs_to user s)) [
  | inl mine ↦
      let keys : stale_keys user (s ∷ rows) ≡ s.session_key ∷ stale_keys user rows = rw mine refl in
      subst (λ ks. All (IsStaleIn user ks) (s ∷ rows)) (sym keys)
        (
          (λ b. ground (arith, nat_eq_refl s.session_key)),
          longer user s.session_key (stale_keys user rows) rows (every_key user rows),
        )
  | inr other ↦
      let keys : stale_keys user (s ∷ rows) ≡ stale_keys user rows = rw other refl in
      subst (λ ks. All (IsStaleIn user ks) (s ∷ rows)) (sym keys)
        ((λ b. ground arith), every_key user rows)
]

none_left :
    (user : ℕ) (keys : List ℕ) (rows : List Session)
    → All (IsStaleIn user keys) rows
    → any (belongs_to user) (filter (λ s. not (any (nat_eq s.session_key) keys)) rows) ≡ false
none_left user keys [] h = refl
none_left user keys (s ∷ rows) h = elim (Bool-cases (belongs_to user s)) [
  | inl mine ↦ ground (arith, none_left user keys rows h.1, h.0 mine)
  | inr other ↦ ground (arith, none_left user keys rows h.1)
]

pub kept_sessions-belongs_to :
    (user : ℕ) (db : Db) → any (belongs_to user) (kept_sessions user db) ≡ false
kept_sessions-belongs_to user db =
    none_left user (stale_keys user db.sessions) db.sessions (every_key user db.sessions)

-- When #46 answers, no session of the user that it answers is left.
pub confirm_password_reset_ends_sessions :
    (fw : Framework) (env : Env) (salt : ℕ) (uid token raw : String) (db : Db) (u : User)
    → answer (confirm_password_reset fw env salt uid token raw db) ≡ ok u
    → any (belongs_to u.id) (after (confirm_password_reset fw env salt uid token raw db)).sessions
      ≡ false
confirm_password_reset_ends_sessions fw env salt uid token raw db u h =
    elim (confirm_cases fw env salt uid token raw db) [
      | inl (bad, same) ↦ absurd (ground arith)
      | inr (v, e, inr (m, weak)) ↦ absurd (ground arith)
      | inr (v, e, inl (fine, done)) ↦
          let key : u.id ≡ v.id = ground arith in
          rw (done, key)
            (none_left v.id (stale_keys v.id db.sessions) db.sessions (every_key v.id db.sessions))
    ]

-- What the token generator documents: a token that checks for a user does not check once the
-- password hash of that user is another one.
pub record IsBoundToPassword (fw : Framework) : Type 0 where
  pub spent :
      (now later : ℕ) (u v : User) (token : String)
      → fw.check_token now u token ≡ true
      → nat_eq v.id u.id ≡ true
      → (v.password == u.password) ≡ false
      → fw.check_token later v token ≡ false

-- The user of a good link, with what made it good.
link_cases :
    (fw : Framework) (env : Env) (uid token : String) (db : Db) (u : User)
    → user_of_link fw env uid token db ≡ some u
    → (k : ℕ) × (fw.decoded_uid uid ≡ some k)
      × (find? (is_open_link k) db.users ≡ some u)
      × (fw.check_token env.now u token ≡ true)
unfolding user_of_link
link_cases fw env uid token db u e = elim (Option-cases (fw.decoded_uid uid)) [
  | inl none_ ↦ absurd (ground arith)
  | inr (k, d) ↦ elim (Option-cases (find? (is_open_link k) db.users)) [
    | inl missing ↦ absurd (ground arith)
    | inr (v, f) ↦ elim (Bool-cases (reset_allowed fw v db && fw.check_token env.now v token)) [
      | inl good ↦ (k, d, ground arith, ground arith)
      | inr bad ↦ absurd (ground arith)
    ]
  ]
]

refused_link :
    (fw : Framework) (env : Env) (uid token : String) (db : Db) (k : ℕ) (v : User)
    → fw.decoded_uid uid ≡ some k
    → find? (is_open_link k) db.users ≡ some v
    → fw.check_token env.now v token ≡ false
    → user_of_link fw env uid token db ≡ none
unfolding user_of_link
refused_link fw env uid token db k v d f bad = ground arith

refused_reset :
    (fw : Framework) (env : Env) (salt : ℕ) (uid token raw : String) (db : Db)
    → user_of_link fw env uid token db ≡ none
    → confirm_password_reset fw env salt uid token raw db
      ≡ (err (validation_error "token" invalid_reset_link), db)
unfolding confirm_password_reset
refused_reset fw env salt uid token raw db e = ground arith

not_any :
    (p q : User → Bool) (xs : List User) (u : User)
    → find? q xs ≡ some u
    → any p xs ≡ false
    → p u ≡ false
not_any p q [] u e h = cc
not_any p q (x ∷ xs) u e h = ground (arith, not_any p q xs u)

spent_link :
    (fw : Framework) (first second : Env) (salt : ℕ) (uid token raw : String) (db : Db) (u : User)
    → IsBoundToPassword fw
    → user_of_link fw first uid token db ≡ some u
    → (fw.make_password salt raw == u.password) ≡ false
    → user_of_link fw second uid token (reset_db fw first salt raw u db) ≡ none
spent_link fw first second salt uid token raw db u law e fresh =
    let (k, d, f, good) = link_cases fw first uid token db u e in
    let moved =
      find?-update_any (is_open_link k) (user_pk u.id) (with_password fw first salt raw) db.users
        (λ x. refl) in
    refused_link fw second uid token (reset_db fw first salt raw u db) k
      (with_password fw first salt raw u) d (moved ∙ rw f (rw (nat_eq_refl u.id) refl))
      (law.spent first.now second.now u (with_password fw first salt raw u) token good
        (nat_eq_refl u.id) fresh)

-- The hash that #46 stores, salted anew, is nobody's yet.
abbrev pub is_new_hash : Framework → ℕ → String → Db → Bool
is_new_hash fw salt raw db =
    not (any (λ (u : User). fw.make_password salt raw == u.password) db.users)

-- A reset link works once: when #46 has answered for it, a second use of the same link, at any time
-- and with any new password, is refused with the error of a bad link and writes nothing, if a token
-- that checks for a user no longer checks once the password hash of that user is another one, and
-- if the hash that was stored first was nobody's before.
pub confirm_password_reset_once :
    (fw : Framework) (first second : Env) (salt salt' : ℕ) (uid token raw raw' : String) (db : Db)
    (u : User)
    → IsBoundToPassword fw
    → is_new_hash fw salt raw db ≡ true
    → answer (confirm_password_reset fw first salt uid token raw db) ≡ ok u
    → confirm_password_reset fw second salt' uid token raw'
        (after (confirm_password_reset fw first salt uid token raw db))
      ≡ (
        err (validation_error "token" invalid_reset_link),
        after (confirm_password_reset fw first salt uid token raw db),
      )
confirm_password_reset_once fw first second salt salt' uid token raw raw' db u law new h =
    elim (confirm_cases fw first salt uid token raw db) [
      | inl (bad, same) ↦ absurd (ground arith)
      | inr (v, e, inr (m, weak)) ↦ absurd (ground arith)
      | inr (v, e, inl (fine, done)) ↦
          let (k, d, f, good) = link_cases fw first uid token db v e in
          let other =
            not_any (λ (x : User). fw.make_password salt raw == x.password) (is_open_link k)
              db.users v f (ground arith) in
          rw done (
            refused_reset fw second salt' uid token raw' _
              (spent_link fw first second salt uid token raw db v law e other))
    ]
