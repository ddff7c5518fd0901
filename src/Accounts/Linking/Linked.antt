-- ===== src/Accounts/Linking/Linked.antt =====
-- The user whom the Google link of accounts/services.py answers, where it is active: a row of the
-- users, linked to the Google account.
use chamneul.Base.{
  ℕ, ◌+◌, String, ◌≡◌, refl, Bool, true, Option, none, some, List, [], ◌∷◌, ◌==◌, ◌&&◌, string_Eq,
  nat_eq, nat_eq_iff, if◌then◌else◌, arith, any, find?, Option-cases, Bool-cases, inl, inr,
}
use chamneul.Base.Rows.{any-append, any-update, find?-sound}
use chamneul.Models.{Db, Env}
use chamneul.Models.Accounts.{User, GoogleIdentity}
use chamneul.Common.Errors.{Error, does_not_exist}
use chamneul.Common.Exec.{Exec, Result, ok, err, answer, after, atomic, rolled_back}
use chamneul.Accounts.Roles.{user_pk}
use chamneul.Accounts.Passwords.{Framework, canonical_email}
use chamneul.Accounts.Nicknames.{Draws, nickname_candidates, derive_nickname_base}
use chamneul.Accounts.Linking.{
  create_linked, first_free, create_with_nickname, link_existing, by_email, by_identity, has_email,
  link_or_create_google_user, retry, new_user, identity, without_password,
}
use chamneul.Accounts.Linking.Careful.{is_integrity, retry_raised}

abbrev pub is_active_row : ℕ → User → Bool
is_active_row k u = user_pk k u && u.is_active

abbrev pub is_link : String → ℕ → GoogleIdentity → Bool
is_link google_sub k g = g.google_sub == google_sub && nat_eq g.user k

-- The row of that id is active, and linked to the Google account.
abbrev pub HasLink : String → ℕ → Db → Type 0
HasLink google_sub k db =
    (any (is_active_row k) db.users ≡ true)
    × (any (is_link google_sub k) db.google_identities ≡ true)

abbrev pub IsLinked : String → Result User × Db → Type 0
IsLinked google_sub (ok u, db) = u.is_active ≡ true → HasLink google_sub u.id db
IsLinked google_sub (err e, db) = Unit

any-found {ℓ} :
    {A : Type ℓ} (p q : A → Bool) (xs : List A) (x : A)
    → find? p xs ≡ some x
    → q x ≡ true
    → any q xs ≡ true
any-found p q [] x h t = cc
any-found p q (y ∷ xs) x h t = ground (arith, any-found p q xs x)

string_same : (s : String) → (s == s) ≡ true
string_same s = (string_Eq.same_iff s s).1 refl

module _ (fw : Framework) (env : Env) (salt : ℕ) (google_sub email : String) where
  rolled_back-IsLinked :
      (db : Db) (r : Result User × Db)
      → ((u : User)
          → answer (rolled_back db r) ≡ ok u
          → HasLink google_sub u.id (after (rolled_back db r)))
      → IsLinked google_sub (rolled_back db r)
  rolled_back-IsLinked db (ok u, db') h = λ active. h u refl
  rolled_back-IsLinked db (err e, db') h = tt

  retry-IsLinked :
      (next : Error → Exec User) (db : Db) (r : Result User × Db)
      → IsLinked google_sub r
      → ((e : Error) → IsLinked google_sub (next e db))
      → IsLinked google_sub (retry fw r next db)
  retry-IsLinked next db (ok u, db') h n = h
  retry-IsLinked next db (err e, db') h n =
      rw (retry_raised fw env salt google_sub email next db db' e)
        (elim (Bool-cases (is_integrity e)) [ inl again ↦ rw again (n e) | inr last ↦ rw last tt ])

  created_link :
      (id : ℕ) (name : String) (db : Db) (u : User)
      → answer (create_linked fw env salt id email google_sub name db) ≡ ok u
      → HasLink google_sub u.id (after (create_linked fw env salt id email google_sub name db))
  unfolding create_linked
  created_link id name db u h =
      let row = new_user fw env (env.uuid id) salt email name in
      let link = identity env (env.uuid (id + 1)) row.id google_sub email in
      (
        ground (arith, any-append (is_active_row row.id) db.users (row ∷ [])),
        ground (
          arith,
          string_same google_sub,
          any-append (is_link google_sub row.id) db.google_identities (link ∷ []),
        ),
      )

  linked_link :
      (existing : User) (db : Db)
      → any (is_active_row existing.id) db.users ≡ true
      → (u : User) → answer (atomic (link_existing fw env salt google_sub email existing) db) ≡ ok u
      → HasLink google_sub u.id
          (after (atomic (link_existing fw env salt google_sub email existing) db))
  unfolding link_existing
  linked_link existing db active u h =
      let link = identity env (env.uuid 0) existing.id google_sub email in
      (
        ground (
          arith,
          any-update (is_active_row existing.id) (user_pk existing.id)
              (without_password fw env salt) db.users (λ x. refl),
        ),
        ground (
          arith,
          string_same google_sub,
          any-append (is_link google_sub existing.id) db.google_identities (link ∷ []),
        ),
      )

  first_free-IsLinked :
      (id : ℕ) (names : List String) (last_error : Error) (db : Db)
      → IsLinked google_sub (first_free fw env salt id email google_sub names last_error db)
  unfolding first_free
  first_free-IsLinked id [] last_error db = tt
  first_free-IsLinked id (name ∷ rest) last_error db =
      retry-IsLinked _ db (create_linked fw env salt id email google_sub name db)
        (rolled_back-IsLinked db _ (created_link id name db))
        (λ e. first_free-IsLinked (id + 2) rest e db)

  if_active-IsLinked :
      (m : Exec User) (u : User) (db : Db)
      → (u.is_active ≡ true → IsLinked google_sub (m db))
      → IsLinked google_sub ((if u.is_active then m else λ (d : Db). (ok u, d)) db)
  if_active-IsLinked m u db h = elim (Bool-cases u.is_active) [
    | inl active ↦ rw active (h active)
    | inr inactive ↦ rw inactive (λ a. absurd (ground arith))
  ]

  by_email-IsLinked :
      (draws : Draws) (name : String) (o : Option User) (db : Db)
      → ((u : User) → o ≡ some u → u.is_active ≡ true → any (is_active_row u.id) db.users ≡ true)
      → IsLinked google_sub (by_email fw env salt draws google_sub email name o db)
  unfolding create_with_nickname
  by_email-IsLinked draws name none db h =
      first_free-IsLinked 0 (nickname_candidates draws (derive_nickname_base name email))
        does_not_exist db
  by_email-IsLinked draws name (some u) db h =
      if_active-IsLinked (atomic (link_existing fw env salt google_sub email u)) u db
        (λ active. rolled_back-IsLinked db _ (linked_link u db (h u refl active)))

  by_identity-IsLinked :
      (o : Option GoogleIdentity) (otherwise : Exec User) (db : Db)
      → ((g : GoogleIdentity)
          → o ≡ some g
          → any (is_link google_sub g.user) db.google_identities ≡ true)
      → IsLinked google_sub (otherwise db)
      → IsLinked google_sub (by_identity fw o otherwise db)
  by_identity-IsLinked none otherwise db h k = k
  by_identity-IsLinked (some g) otherwise db h k =
      elim (Option-cases (find? (user_pk g.user) db.users)) [
        | inl missing ↦ rw missing tt
        | inr (u, e) ↦
            let key = find?-sound (user_pk g.user) db.users u e in
            let same : u.id ≡ g.user = (nat_eq_iff u.id g.user).0 (ground arith) in
            rw e (λ active. (
              any-found (user_pk g.user) (is_active_row u.id) db.users u e (ground arith),
              rw same (h g refl),
            ))
      ]

pub link_or_create-IsLinked :
    (fw : Framework) (env : Env) (salt : ℕ) (draws : Draws) (google_sub email name : String)
    (db : Db)
    → IsLinked google_sub (link_or_create_google_user fw env salt draws google_sub email name db)
unfolding link_or_create_google_user
link_or_create-IsLinked fw env salt draws google_sub email name db =
    let address = canonical_email fw email in
    let existing = find? (has_email fw address) db.users in
    let known = find? (λ (g : GoogleIdentity). g.google_sub == google_sub) db.google_identities in
    by_identity-IsLinked fw env salt google_sub address known
      (by_email fw env salt draws google_sub address name existing) db
      (λ g e.
        any-found (λ (g : GoogleIdentity). g.google_sub == google_sub) (is_link google_sub g.user)
          db.google_identities g e
          (ground (
            arith,
            find?-sound (λ (g : GoogleIdentity). g.google_sub == google_sub) db.google_identities g
                e,
          )))
      (by_email-IsLinked fw env salt google_sub address draws name existing db (λ u e active.
        any-found (has_email fw address) (is_active_row u.id) db.users u e (ground arith)))
