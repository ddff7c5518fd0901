-- ===== src/Api/SessionViews.antt =====
-- The handlers of accounts/views.py that open and close sessions: #2, #3, #4, #6, #45 and #46.
use chamneul.Base.{
  ℕ, String, Bool, false, Option, none, some, ◌||◌, ◌==◌, not, string_Eq, nat_eq, is_filled, get_or,
}
use chamneul.Models.{Env}
use chamneul.Models.Accounts.{User}
use chamneul.Common.Errors.{Error}
use chamneul.Common.Exec.{
  Exec, Result, ok, err, pure, gets, lift, or_raise, raise_if, when, atomic, reraised, ◌>>=◌, ◌>>◌,
}
use chamneul.Common.Requests.{Reply, replies, Gate, dispatch}
use chamneul.Accounts.Passwords.{canonical_email, request_password_reset, confirm_password_reset}
use chamneul.Accounts.Nicknames.{Draws}
use chamneul.Accounts.Creating.{create_user_with_password}
use chamneul.Accounts.Linking.{link_or_create_google_user}
use chamneul.Api.Permissions.{authenticated}
use chamneul.Api.Oauth.{
  OauthError, Outcome, Claims, Google, exchange_code_for_id_token, verify_id_token,
}
use chamneul.Api.Sessions.{
  Auth, SignupBody, signup_data, signup_conflict, login_as, logout_of, UserCard, user_card,
  SignupResult,
}

-- The validated bodies of #3 and #46.
pub record LoginData : Type 0 where
  pub email : String
  pub password : String

pub record ResetConfirm : Type 0 where
  pub uid : String
  pub token : String
  pub new_password : String

-- What #6 reads of the request: the query and the cookie.
pub record Callback : Type 0 where
  pub error : Option String
  pub state : Option String
  pub cookie_state : Option String
  pub code : Option String

-- A parameter that is there and not empty.
abbrev pub is_given : Option String → Bool
is_given none = false
is_given (some s) = is_filled s

-- The two states are missing, empty or different.
abbrev pub is_mismatched : Callback → Bool
is_mismatched r =
    not (is_given r.state)
    || not (is_given r.cookie_state)
    || not (get_or r.state "" == get_or r.cookie_state "")

abbrev pub login_failed : Error
login_failed = Error.authentication_failed "이메일 또는 비밀번호가 올바르지 않습니다."

-- `except oauth.OAuth...Error`
unfoldable pub oauth_answer : OauthError → Error
oauth_answer OauthError.config = Error.oauth_unconfigured
oauth_answer OauthError.verify = Error.google_auth_failed
oauth_answer OauthError.upstream = Error.bad_gateway

module _ (google : Google) where
  abbrev pub claims_of : Outcome String → Outcome Claims
  claims_of (Outcome.failed e) = Outcome.failed e
  claims_of (Outcome.got t) = verify_id_token google t

  abbrev pub claims_or_error : Outcome Claims → Result Claims
  claims_or_error (Outcome.failed e) = err (oauth_answer e)
  claims_or_error (Outcome.got c) = ok c

  unfoldable pub callback_claims : String → Result Claims
  unfolding oauth_answer
  callback_claims code = claims_or_error (claims_of (exchange_code_for_id_token google code))

module _ (auth : Auth) where
  -- #2
  unfoldable pub post_signup : Env → ℕ → Option ℕ → SignupBody → Exec (Reply SignupResult)
  unfolding signup_data signup_conflict user_card
  post_signup env salt key body = do
    d ← signup_data auth body
    user ← λ db. reraised signup_conflict (
        atomic (create_user_with_password auth.framework env salt d.email d.nickname d.password) db)
    login_as auth key user
    pure (replies 201 (record { card = user_card user; created_at = user.created_at }))

  -- #3
  unfoldable pub post_login : Option ℕ → Result LoginData → Exec (Reply UserCard)
  unfolding user_card
  post_login key fields = do
    attrs ← lift fields
    found ← gets (auth.authenticate (canonical_email auth.framework attrs.email) attrs.password)
    user ← or_raise found login_failed
    login_as auth key user
    pure (replies 200 (user_card user))

  -- #4
  unfoldable pub post_logout : Gate → Option ℕ → Option User → Exec (Reply String)
  post_logout g key u =
      dispatch g (authenticated g) u λ user. do logout_of auth key; pure (replies 200 "로그아웃 되었습니다.")

  -- #45: the response, and the mail that is sent, if one is.
  unfoldable pub post_password_reset :
      Env → Result String → Exec (Reply String × Option (User × String))
  post_password_reset env serializer = do
    email ← lift serializer
    mail ← gets (request_password_reset auth.framework env email)
    pure (replies 200 "메일을 보냈습니다.", mail)

  abbrev pub is_same_user : Option User → ℕ → Bool
  is_same_user none k = false
  is_same_user (some u) k = nat_eq u.id k

  -- #46
  unfoldable pub post_password_reset_confirm :
      Env → ℕ → Option ℕ → Option User → Result ResetConfirm → Exec (Reply String)
  post_password_reset_confirm env salt key request_user serializer = do
    d ← lift serializer
    user ← confirm_password_reset auth.framework env salt d.uid d.token d.new_password
    when (is_same_user request_user user.id) (logout_of auth key)
    pure (replies 200 "비밀번호를 바꿨습니다.")

  -- #6
  unfoldable pub get_google_callback :
      Google → Env → ℕ → Draws → Option ℕ → Callback → Exec (Reply (Unit {0}))
  get_google_callback google env salt draws key request = do
    raise_if (is_given request.error) (Error.invalid "Google 로그인이 취소되었거나 실패했습니다.")
    raise_if (is_mismatched request) (Error.invalid "state 검증에 실패했습니다.")
    raise_if (not (is_given request.code)) (Error.invalid "인가 코드가 없습니다.")
    claims ← lift (callback_claims google (get_or request.code ""))
    user ←
        link_or_create_google_user auth.framework env salt draws claims.sub claims.email
          (get_or claims.name "")
    raise_if (not user.is_active) Error.google_auth_failed
    login_as auth key user
    pure (replies 302 tt)
