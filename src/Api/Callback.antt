-- ===== src/Api/Callback.antt =====
-- Who gets a session from Google: #6 of accounts/views.py.
use chamneul.Base.{
  ℕ, String, ◌≡◌, refl, ap, ◌∙◌, Bool, true, false, Option, none, some, not, ◌==◌, string_Eq, arith,
  ◌⊎◌, any, get_or, Bool-cases, inl, inr,
}
use chamneul.Base.Rows.{any-update}
use chamneul.Models.{Db, Env}
use chamneul.Models.Accounts.{User}
use chamneul.Common.Errors.{Error}
use chamneul.Common.Exec.{Exec, Result, ok, err, raise, raise_if, lift, pure, ◌>>=◌, ◌>>◌}
use chamneul.Common.Requests.{Reply, replies}
use chamneul.Accounts.Linking.{link_or_create_google_user}
use chamneul.Accounts.Linking.Linked.{IsLinked, HasLink, is_active_row, link_or_create-IsLinked}
use chamneul.Accounts.Roles.{user_pk}
use chamneul.Accounts.Passwords.{belongs_to}
use chamneul.Accounts.Linking.Careful.{IsCareful, link_or_create-IsCareful}
use chamneul.Accounts.Nicknames.{Draws}
use chamneul.Api.Oauth.{
  Google, Claims, Outcome, verified, verified_answer, verify_id_token, exchange_code_for_id_token,
}
use chamneul.Api.Sessions.{Auth, login_as}
use chamneul.Api.SessionViews.{
  Callback, is_given, is_mismatched, callback_claims, claims_of, claims_or_error,
  get_google_callback,
}

-- A call that writes nothing where it raises, and leaves the database as stated where it answers.
abbrev pub IsEntry : {A : Type 0} → (Db → Type 0) → Db → Result A × Db → Type 0
IsEntry P db (ok a, db') = P db'
IsEntry P db (err e, db') = db' ≡ db

-- The same of a call, run on the database.
record Enters {A : Type 0} (P : Db → Type 0) (db : Db) (m : Exec A) : Type 0 where
  entry : IsEntry P db (m db)

module _ {A : Type 0} (P : Db → Type 0) (db : Db) where
  raise_if-Enters :
      (b : Bool) (e : Error) (m : Exec A)
      → (b ≡ false → Enters P db m)
      → Enters P db (raise_if b e >> m)
  raise_if-Enters true e m h = record { entry = refl }
  raise_if-Enters false e m h = record { entry = (h refl).entry }

  lift-Enters :
      {B : Type 0} (r : Result B) (k : B → Exec A)
      → ((b : B) → r ≡ ok b → Enters P db (k b))
      → Enters P db (lift r >>= k)
  lift-Enters (ok b) k h = record { entry = (h b refl).entry }
  lift-Enters (err e) k h = record { entry = refl }

module _ (auth : Auth) (key : Option ℕ) (google_sub : String) (P : Db → Type 0) (db : Db) where
  abbrev enter : Bool → User → Exec (Reply (Unit {0}))
  enter b u = raise_if b Error.google_auth_failed >> (login_as auth key u >> pure (replies 302 tt))

  gated-IsEntry :
      (b : Bool) (u : User) (db' : Db)
      → (b ≡ false → P (auth.login key u db'))
      → (b ≡ true → db' ≡ db)
      → IsEntry P db (enter b u db')
  gated-IsEntry true u db' h k = k refl
  gated-IsEntry false u db' h k = h refl

  entered-IsEntry :
      (r : Result User × Db)
      → IsCareful db r
      → IsLinked google_sub r
      → ((u : User) (db' : Db) → HasLink google_sub u.id db' → P (auth.login key u db'))
      → IsEntry {A = Reply (Unit {0})} P db
          (elim r.0 [ ok u ↦ enter (not u.is_active) u r.1 | err e ↦ raise e r.1 ])
  entered-IsEntry (ok u, db') c l opened =
      gated-IsEntry (not u.is_active) u db' (λ n. opened u db' (l (ground arith)))
        λ n. elim c [ inl active ↦ absurd (ground arith) | inr same ↦ same ]
  entered-IsEntry (err e, db') c l opened = c

  linked-Enters :
      (link : Exec User)
      → IsCareful db (link db)
      → IsLinked google_sub (link db)
      → ((u : User) (db' : Db) → HasLink google_sub u.id db' → P (auth.login key u db'))
      → Enters P db (link >>= λ u. enter (not u.is_active) u)
  linked-Enters link c l opened = record { entry = entered-IsEntry (link db) c l opened }

-- A login keeps which rows are active, and the links.
login-HasLink :
    (auth : Auth) (key : Option ℕ) (u : User) (google_sub : String) (db : Db)
    → HasLink google_sub u.id db
    → HasLink google_sub u.id (auth.login key u db)
login-HasLink auth key u google_sub db h =
    let (at, users) = auth.on_login_users key u db in
    let links : (auth.login key u db).google_identities ≡ db.google_identities =
      ap (λ (d : Db). d.google_identities) (auth.on_login_else key u db) in
    (
      rw users (
          any-update (is_active_row u.id) (user_pk u.id)
            (λ (r : User). record r { last_login = at }) db.users (λ x. refl)
          ∙ h.0),
      rw links h.1,
    )

-- What is to hold of the claims that open a session.
abbrev pub AreTrusted : Google → Claims → Type 0
AreTrusted google c =
    ((c.iss ≡ "accounts.google.com") ⊎ (c.iss ≡ "https://accounts.google.com"))
    × (c.aud ≡ google.client_id)
    × (google.lower c.email_verified ≡ "true")

string_same_iff : (s t : String) → (s == t) ≡ true → s ≡ t
string_same_iff s t h = (string_Eq.same_iff s t).0 h

verified-AreTrusted :
    (google : Google) (c d : Claims) → verified google c ≡ Outcome.got d → AreTrusted google d
verified-AreTrusted google c d h = elim (Bool-cases (c.iss == "accounts.google.com")) [
  | inl first ↦ (
    inl (ground (arith, string_same_iff c.iss "accounts.google.com" first)),
    ground (arith, string_same_iff c.aud google.client_id),
    ground (arith, string_same_iff (google.lower c.email_verified) "true"),
  )
  | inr other ↦ (
    inr (ground (arith, string_same_iff c.iss "https://accounts.google.com")),
    ground (arith, string_same_iff c.aud google.client_id),
    ground (arith, string_same_iff (google.lower c.email_verified) "true"),
  )
]

answer-AreTrusted :
    (google : Google) (o : Option Claims) (c : Claims)
    → verified_answer google o ≡ Outcome.got c
    → AreTrusted google c
answer-AreTrusted google none c h = absurd (ground arith)
answer-AreTrusted google (some d) c h = verified-AreTrusted google d c h

got_claims :
    (google : Google) (o : Outcome Claims) (c : Claims)
    → claims_or_error google o ≡ ok c
    → o ≡ Outcome.got c
got_claims google (Outcome.failed e) c h = absurd (ground arith)
got_claims google (Outcome.got d) c h = ground arith

token-AreTrusted :
    (google : Google) (o : Outcome String) (c : Claims)
    → claims_or_error google (claims_of google o) ≡ ok c
    → AreTrusted google c
unfolding verify_id_token
token-AreTrusted google (Outcome.failed e) c h = absurd (ground arith)
token-AreTrusted google (Outcome.got t) c h =
    answer-AreTrusted google (google.get_json t) c
      (got_claims google (verified_answer google (google.get_json t)) c h)

module _ (auth : Auth) (google : Google) (env : Env) (salt : ℕ) (draws : Draws) (key : Option ℕ)
    (request : Callback) (db : Db) where
  -- The state of the query is that of the cookie, the claims that Google gives for the code are to be
  -- trusted, and the account that they name is linked to an active row of the users, which has a
  -- session.
  abbrev pub HasEntered : Db → Type 0
  HasEntered db' =
      (claims : Claims) × (k : ℕ) × (is_given request.state ≡ true)
      × (get_or request.state "" ≡ get_or request.cookie_state "")
      × (callback_claims google (get_or request.code "") ≡ ok claims)
      × AreTrusted google claims
      × HasLink claims.sub k db'
      × (any (belongs_to k) db'.sessions ≡ true)

  matching :
      is_mismatched request ≡ false
      → (is_given request.state ≡ true) × (get_or request.state "" ≡ get_or request.cookie_state "")
  matching h = (
    ground arith,
    (string_Eq.same_iff (get_or request.state "") (get_or request.cookie_state "")).0
        (ground arith),
  )

  claims-AreTrusted :
      (claims : Claims)
      → callback_claims google (get_or request.code "") ≡ ok claims
      → AreTrusted google claims
  unfolding callback_claims
  claims-AreTrusted claims h =
      token-AreTrusted google (exchange_code_for_id_token google (get_or request.code "")) claims h

  claimed-Enters :
      (claims : Claims)
      → is_mismatched request ≡ false
      → callback_claims google (get_or request.code "") ≡ ok claims
      → Enters HasEntered db (
          link_or_create_google_user auth.framework env salt draws claims.sub claims.email
            (get_or claims.name "")
          >>= λ u. enter auth key claims.sub HasEntered db (not u.is_active) u)
  claimed-Enters claims state got =
      let link =
        link_or_create_google_user auth.framework env salt draws claims.sub claims.email
          (get_or claims.name "") in
      linked-Enters auth key claims.sub HasEntered db link
        (link_or_create-IsCareful auth.framework env salt draws claims.sub claims.email
          (get_or claims.name "") db)
        (link_or_create-IsLinked auth.framework env salt draws claims.sub claims.email
          (get_or claims.name "") db)
        (λ u db' h. (
          claims,
          u.id,
          (matching state).0,
          (matching state).1,
          got,
          claims-AreTrusted claims got,
          login-HasLink auth key u claims.sub db' h,
          auth.on_login key u db',
        ))

  callback-Enters :
      Enters HasEntered db (get_google_callback auth google env salt draws key request)
  unfolding get_google_callback
  callback-Enters = search (raise_if-Enters, lift-Enters, claimed-Enters) depth 9

  -- #6 either raises and has written nothing, or answers; then the state of the query is not empty
  -- and is that of the cookie, the claims that Google gives for the code have the issuer of Google,
  -- the client id of this program as audience and a verified address, and in the database that is
  -- left the Google account of these claims is linked to a user whose row is active, and who has a
  -- session.
  pub get_google_callback-IsEntry :
      IsEntry HasEntered db (get_google_callback auth google env salt draws key request db)
  get_google_callback-IsEntry = callback-Enters.entry
