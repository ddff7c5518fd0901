-- ===== src/Tests/Framework.antt =====
-- The parameters that stand for the framework, as plain functions.
use chamneul.Base.{
  false, true, ◌+◌, update, ℕ, zero, suc, ◌*◌, ◌-◌, ◌≤◌, ◌<◌, String, ◌≡◌, refl, ap, Bool, Option,
  none, some, List, [], ◌∷◌, ◌++◌, ◌==◌, ◌&&◌, string_Eq, nat_eq, leb, if◌then◌else◌, is_some,
  is_filled, find?, filter, not, length, arith, Bool-cases, inl, inr, any,
}
use chamneul.Base.Rows.{find?-sound, any-append}
use chamneul.Accounts.Roles.{user_pk}
use chamneul.Models.{Db}
use chamneul.Models.Accounts.{User, Session}
use chamneul.Common.Errors.{Error}
use chamneul.Common.Exec.{Result, ok, err}
use chamneul.Common.Envelope.{
  ResponseData, RawResponse, own_status, own_detail, ErrorHandling, is_unhandled,
}
use chamneul.Common.Requests.{Gate, all_grant}
use chamneul.Common.Pagination.{Page, page_of, Paginator}
use chamneul.Accounts.Passwords.{belongs_to}
use chamneul.Api.Queries.{Lookups}
use chamneul.Api.Oauth.{Google}
use chamneul.Api.Sessions.{Auth}
use chamneul.Api.Requests.{Server}
use chamneul.Api.Renewal.{SessionMiddleware, renewed}
use chamneul.Tests.Accounts.{framework}

abbrev owned : Error → Option ℕ → Option RawResponse
owned e none = none
owned e (some s) = some (record { status_code = s; content = ResponseData.detail (own_detail e) })

abbrev default_handler : String → Error → Option RawResponse
default_handler h (Error.validation_error f m) =
    some (record { status_code = 400; content = ResponseData.fields ((f, m ∷ []) ∷ []) })
default_handler h (Error.validation_text f m) =
    some (record { status_code = 400; content = ResponseData.texts ((f, m) ∷ []) })
default_handler h (Error.invalid d) =
    some (record { status_code = 400; content = ResponseData.messages (d ∷ []) })
default_handler h (Error.authentication_failed d) =
    some
      (record { status_code = if is_filled h then 401 else 403; content = ResponseData.detail d })
default_handler h (Error.permission_denied d) =
    some (record { status_code = 403; content = ResponseData.detail d })
default_handler h (Error.not_found d) =
    some (record { status_code = 404; content = ResponseData.detail d })
default_handler h e = owned e (own_status e)

pub default_handler_own :
    (h : String) (e : Error) (s : ℕ)
    → own_status e ≡ some s
    → default_handler h e
      ≡ some (record { status_code = s; content = ResponseData.detail (own_detail e) })
unfolding own_status own_detail
default_handler_own h (Error.validation_error f m) s e = absurd (ground arith)
default_handler_own h (Error.validation_text f m) s e = absurd (ground arith)
default_handler_own h (Error.invalid d) s e = absurd (ground arith)
default_handler_own h (Error.authentication_failed d) s e = absurd (ground arith)
default_handler_own h (Error.permission_denied d) s e = absurd (ground arith)
default_handler_own h (Error.not_found d) s e = absurd (ground arith)
default_handler_own h (Error.conflict d r) s e = ground arith
default_handler_own h Error.precondition_failed s e = ground arith
default_handler_own h (Error.unprocessable_entity d) s e = ground arith
default_handler_own h Error.google_auth_failed s e = ground arith
default_handler_own h Error.oauth_unconfigured s e = ground arith
default_handler_own h Error.bad_gateway s e = ground arith
default_handler_own h (Error.integrity_error c) s e = absurd (ground arith)
default_handler_own h Error.does_not_exist s e = absurd (ground arith)
default_handler_own h (Error.value_error m) s e = absurd (ground arith)

pub default_handler_unhandled :
    (h : String) (e : Error) → is_unhandled e ≡ true → default_handler h e ≡ none
unfolding own_status
default_handler_unhandled h (Error.integrity_error c) u = refl
default_handler_unhandled h Error.does_not_exist u = refl
default_handler_unhandled h (Error.value_error m) u = refl
default_handler_unhandled h (Error.validation_error f m) u = absurd (ground arith)
default_handler_unhandled h (Error.validation_text f m) u = absurd (ground arith)
default_handler_unhandled h (Error.invalid d) u = absurd (ground arith)
default_handler_unhandled h (Error.authentication_failed d) u = absurd (ground arith)
default_handler_unhandled h (Error.permission_denied d) u = absurd (ground arith)
default_handler_unhandled h (Error.not_found d) u = absurd (ground arith)
default_handler_unhandled h (Error.conflict d r) u = absurd (ground arith)
default_handler_unhandled h Error.precondition_failed u = absurd (ground arith)
default_handler_unhandled h (Error.unprocessable_entity d) u = absurd (ground arith)
default_handler_unhandled h Error.google_auth_failed u = absurd (ground arith)
default_handler_unhandled h Error.oauth_unconfigured u = absurd (ground arith)
default_handler_unhandled h Error.bad_gateway u = absurd (ground arith)

abbrev pub error_handling : ErrorHandling
error_handling = record {
  drf_default_handler = default_handler;
  on_validation = λ h f m. refl;
  on_text = λ h f m. refl;
  on_invalid = λ h d. refl;
  on_unauthenticated = λ h d. refl;
  on_denied = λ h d. refl;
  on_missing = λ h d. refl;
  on_own = default_handler_own;
  on_unhandled = default_handler_unhandled;
}

abbrev anonymous_text : String
anonymous_text = "자격 인증데이터가 제공되지 않았습니다."

abbrev denied_text : String
denied_text = "이 작업을 수행할 권한이 없습니다."

abbrev refusal : Option User → Error
refusal none = Error.authentication_failed anonymous_text
refusal (some u) = Error.permission_denied denied_text

abbrev pub gate : Gate
gate = record {
  is_authenticated = is_some;
  check_permissions = λ u gs. if all_grant gs then none else some (refusal u);
  on_user = λ u. refl;
  on_anonymous = refl;
  on_granted = λ u gs h. rw h refl;
  on_nobody = λ gs h. (anonymous_text, rw h refl);
  on_denied = λ u gs h. (denied_text, rw h refl);
}

abbrev pub lookups : Lookups
lookups = record { lower = λ s. s; icontains = λ s k. s == k; date = λ at. at }

-- How many pages are begun for rows of which the first ones fill the room of a page.
abbrev begun : ℕ → ℕ → ℕ → ℕ
begun size zero room = 0
begun size (suc n) zero = suc (begun size n (size - 1))
begun size (suc n) (suc room) = begun size n room

pub begun_enough : (size : ℕ) → 1 ≤ size → (n room : ℕ) → n ≤ room + begun size n room * size
begun_enough size s zero room = omega arith
begun_enough size s (suc n) zero =
    let rest = begun size n (size - 1) in
    let step : suc rest * size ≡ rest * size + size = omega arith in
    let next = begun_enough size s n (size - 1) in rw step (omega arith)
begun_enough size s (suc n) (suc room) = omega (arith, begun_enough size s n room)

abbrev at_least_one : ℕ → ℕ
at_least_one zero = 1
at_least_one (suc k) = suc k

pub enough_at_least_one : (n k size : ℕ) → n ≤ 0 + k * size → n ≤ at_least_one k * size
enough_at_least_one n zero size h = omega arith
enough_at_least_one n (suc k) size h = omega arith

-- Numbers of pages in strokes.
abbrev strokes : ℕ → String
strokes zero = ""
strokes (suc n) = String.◌∷◌ "1" (strokes n)

abbrev counted : String → ℕ
counted String.[] = 0
counted (String.◌∷◌ c s) = suc (counted s)

pub counted-strokes : (n : ℕ) → counted (strokes n) ≡ n
counted-strokes zero = refl
counted-strokes (suc n) = ap (λ k. suc k) (counted-strokes n)

abbrev asked_page : Option String → ℕ
asked_page none = 1
asked_page (some s) = counted s

abbrev pages_of : ℕ → ℕ → ℕ
pages_of n size = at_least_one (begun size n 0)

abbrev numbered : {A : Type 0} → ℕ → ℕ → List A → ℕ → Result (Page A)
numbered pages size xs zero = err (Error.not_found "Invalid page.")
numbered pages size xs (suc k) =
    if leb (suc k) pages
    then ok (page_of pages size xs k)
    else err (Error.not_found "Invalid page.")

pub numbered_lem :
    {A : Type 0} (pages size : ℕ) (xs : List A) (n : ℕ) (p : Page A)
    → numbered pages size xs n ≡ ok p
    → (k : ℕ) × (k < pages) × (p ≡ page_of pages size xs k)
numbered_lem pages size xs zero p h = absurd (ground arith)
numbered_lem pages size xs (suc k) p h = elim (Bool-cases (leb (suc k) pages)) [
  | inl there ↦ (k, ground arith, ground arith)
  | inr beyond ↦ absurd (ground arith)
]

pub numbered-strokes :
    {A : Type 0} (pages size : ℕ) (xs : List A) (k : ℕ)
    → k < pages
    → numbered pages size xs (counted (strokes (suc k))) ≡ ok (page_of pages size xs k)
numbered-strokes pages size xs k h = ground (arith, counted-strokes k)

-- A size that is sent is not looked at.
abbrev pub paginator : Paginator
paginator = record {
  get_page_size = λ cap default q. default;
  num_pages = pages_of;
  paginate_queryset = λ {A} xs size q. numbered (pages_of (length xs) size) size xs (asked_page q);
  decimal = strokes;
  size_in_range = λ cap default q some_row below. (some_row, below);
  pages_enough = λ n size s. enough_at_least_one n (begun size n 0) size (begun_enough size s n 0);
  on_number = λ {A} xs size k s h. numbered-strokes (pages_of (length xs) size) size xs k h;
  on_answer =
      λ {A} xs size q p s h. numbered_lem (pages_of (length xs) size) size xs (asked_page q) p h;
}

abbrev pub server : Server
server = record { gate = gate; paginator = paginator; lookups = lookups }

abbrev session_key_of : Option ℕ → ℕ
session_key_of none = 99
session_key_of (some k) = k

abbrev opened : Option ℕ → User → Db → Db
opened key u db = record db {
  users = update (user_pk u.id) (λ (r : User). record r { last_login = some 0 }) db.users;
  sessions =
      db.sessions
      ++ record { session_key = session_key_of key; auth_user = some u.id; expire_date = 500 } ∷ [];
}

pub opened_lem :
    (key : Option ℕ) (u : User) (db : Db) → any (belongs_to u.id) (opened key u db).sessions ≡ true
opened_lem key u db = ground (
  arith,
  any-append (belongs_to u.id) db.sessions
      (record { session_key = session_key_of key; auth_user = some u.id; expire_date = 500 } ∷ []),
)

abbrev closed : Option ℕ → Db → Db
closed none db = db
closed (some k) db = record db {
  sessions = filter (λ (s : Session). not (nat_eq s.session_key k)) db.sessions;
}

abbrev matches : String → String → User → Bool
matches email password u = u.is_active && (u.email == email && u.password == password)

pub matches_lem :
    (email password : String) (u : User)
    → matches email password u ≡ true
    → (u.is_active ≡ true) × (u.email ≡ email)
matches_lem email password u h = (ground arith, (string_Eq.same_iff u.email email).0 (ground arith))

abbrev pub auth : Auth
auth = record {
  framework = framework;
  validate_new_password = λ raw. none;
  authenticate = λ email password db. find? (matches email password) db.users;
  login = opened;
  logout = closed;
  on_authenticated = λ email password db u h.
      matches_lem email password u (find?-sound (matches email password) db.users u h);
  on_login = opened_lem;
  on_login_else = λ key u db. refl;
  on_login_users = λ key u db. (some 0, refl);
  on_logout = λ k db. refl;
}

-- The claims are those of the sample user.
abbrev pub google : Google
google = record {
  client_id = "id";
  client_secret = "secret";
  lower = λ s. s;
  post_json = λ code. some (some code);
  get_json = λ id_token. some (record {
    iss = "accounts.google.com";
    aud = "id";
    email_verified = "true";
    email = "asker";
    sub = "sub";
    name = none;
  });
}

abbrev processed : Bool → ℕ → ℕ → Bool → Option ℕ → Db → Db
processed every age now failed none db = db
processed every age now true (some k) db = db
processed false age now false (some k) db = db
processed true age now false (some k) db = record db {
  sessions = update (λ s. nat_eq s.session_key k) (renewed (now + age)) db.sessions;
}

pub processed_failed :
    (every : Bool) (age now : ℕ) (key : Option ℕ) (db : Db)
    → processed every age now true key db ≡ db
processed_failed every age now none db = refl
processed_failed every age now (some k) db = refl

abbrev pub session_middleware : SessionMiddleware
session_middleware = record {
  process_response = processed;
  on_saved = λ age now k db. refl;
  on_failed = processed_failed;
  on_no_session = λ every age now failed db. refl;
}
