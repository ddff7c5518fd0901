-- ===== src/Accounts/Linking/Careful.antt =====
-- The Google link of accounts/services.py where it raises, or answers a user that is not active.
use chamneul.Base.{
  ℕ, ◌+◌, String, ◌≡◌, refl, Bool, true, false, Option, none, some, List, [], ◌∷◌, ◌==◌, string_Eq,
  if◌then◌else◌, arith, ◌⊎◌, find?, Option-cases, Bool-cases, inl, inr,
}
use chamneul.Models.{Db, Env}
use chamneul.Models.Accounts.{User, GoogleIdentity}
use chamneul.Common.Errors.{Error, does_not_exist}
use chamneul.Common.Exec.{Exec, Result, ok, err, answer, atomic, rolled_back}
use chamneul.Accounts.Roles.{user_pk}
use chamneul.Accounts.Passwords.{Framework, canonical_email}
use chamneul.Accounts.Nicknames.{Draws, nickname_candidates, derive_nickname_base}
use chamneul.Accounts.Linking.{
  create_linked, first_free, create_with_nickname, link_existing, by_email, by_identity, has_email,
  link_or_create_google_user, retry,
}

-- A call that writes nothing where it raises or answers a user that is not active.
abbrev pub IsCareful : Db → Result User × Db → Type 0
IsCareful db (ok u, db') = (u.is_active ≡ true) ⊎ (db' ≡ db)
IsCareful db (err e, db') = db' ≡ db

rolled_back-IsCareful :
    (db : Db) (r : Result User × Db)
    → ((u : User) → answer (rolled_back db r) ≡ ok u → u.is_active ≡ true)
    → IsCareful db (rolled_back db r)
rolled_back-IsCareful db (ok u, db') h = inl (h u refl)
rolled_back-IsCareful db (err e, db') h = refl

if-IsCareful :
    (b : Bool) (m n : Exec User) (db : Db)
    → (b ≡ true → IsCareful db (m db))
    → (b ≡ false → IsCareful db (n db))
    → IsCareful db ((if b then m else n) db)
if-IsCareful true m n db h k = h refl
if-IsCareful false m n db h k = k refl

-- The errors that let the loop over the nicknames go on.
abbrev pub is_integrity : Error → Bool
is_integrity (Error.integrity_error _) = true
is_integrity _ = false

module _ (fw : Framework) (env : Env) (salt : ℕ) (google_sub email : String) where
  pub retry_raised :
      (next : Error → Exec User) (db db' : Db) (e : Error)
      → retry fw (err e, db') next db ≡ (if is_integrity e then next e db else (err e, db'))
  retry_raised next db db' e = ground arith

  retry-IsCareful :
      (next : Error → Exec User) (db : Db) (r : Result User × Db)
      → IsCareful db r
      → ((e : Error) → IsCareful db (next e db))
      → IsCareful db (retry fw r next db)
  retry-IsCareful next db (ok u, db') h n = h
  retry-IsCareful next db (err e, db') h n =
      rw (retry_raised next db db' e)
        (elim (Bool-cases (is_integrity e)) [ inl again ↦ rw again (n e) | inr last ↦ rw last h ])

  created_active :
      (id : ℕ) (name : String) (db : Db) (u : User)
      → answer (create_linked fw env salt id email google_sub name db) ≡ ok u
      → u.is_active ≡ true
  unfolding create_linked
  created_active id name db u h = ground arith

  linked_active :
      (existing : User) (db : Db)
      → existing.is_active ≡ true
      → (u : User) → answer (atomic (link_existing fw env salt google_sub email existing) db) ≡ ok u
      → u.is_active ≡ true
  unfolding link_existing
  linked_active existing db active u h = ground arith

  created-IsCareful :
      (id : ℕ) (name : String) (db : Db)
      → IsCareful db (create_linked fw env salt id email google_sub name db)
  unfolding create_linked
  created-IsCareful id name db = rolled_back-IsCareful db _ (created_active id name db)

  first_free-IsCareful :
      (id : ℕ) (names : List String) (last_error : Error) (db : Db)
      → IsCareful db (first_free fw env salt id email google_sub names last_error db)
  unfolding first_free
  first_free-IsCareful id [] last_error db = refl
  first_free-IsCareful id (name ∷ rest) last_error db =
      retry-IsCareful _ db (create_linked fw env salt id email google_sub name db)
        (created-IsCareful id name db) (λ e. first_free-IsCareful (id + 2) rest e db)

  by_email-IsCareful :
      (draws : Draws) (name : String) (o : Option User) (db : Db)
      → IsCareful db (by_email fw env salt draws google_sub email name o db)
  unfolding create_with_nickname
  by_email-IsCareful draws name none db =
      first_free-IsCareful 0 (nickname_candidates draws (derive_nickname_base name email))
        does_not_exist db
  by_email-IsCareful draws name (some u) db =
      if-IsCareful u.is_active (atomic (link_existing fw env salt google_sub email u)) _ db
        (λ active. rolled_back-IsCareful db _ (linked_active u db active)) (λ inactive. inr refl)

  by_identity-IsCareful :
      (o : Option GoogleIdentity) (otherwise : Exec User) (db : Db)
      → IsCareful db (otherwise db)
      → IsCareful db (by_identity fw o otherwise db)
  by_identity-IsCareful none otherwise db h = h
  by_identity-IsCareful (some g) otherwise db h =
      elim (Option-cases (find? (user_pk g.user) db.users)) [
        | inl missing ↦ rw missing refl
        | inr (u, e) ↦ rw e (inr refl)
      ]

pub link_or_create-IsCareful :
    (fw : Framework) (env : Env) (salt : ℕ) (draws : Draws) (google_sub email name : String)
    (db : Db)
    → IsCareful db (link_or_create_google_user fw env salt draws google_sub email name db)
unfolding link_or_create_google_user
link_or_create-IsCareful fw env salt draws google_sub email name db =
    let address = canonical_email fw email in
    let existing = find? (has_email fw address) db.users in
    by_identity-IsCareful fw env salt google_sub address
      (find? (λ (g : GoogleIdentity). g.google_sub == google_sub) db.google_identities)
      (by_email fw env salt draws google_sub address name existing) db
      (by_email-IsCareful fw env salt google_sub address draws name existing db)
