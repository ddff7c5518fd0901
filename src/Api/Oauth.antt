-- ===== src/Api/Oauth.antt =====
-- accounts/oauth.py: the exchange of a code for an id token, and what is checked of its claims. The two
-- HTTP calls are a parameter.
use chamneul.Base.{
  String, Bool, Option, none, some, ◌&&◌, ◌||◌, ◌==◌, not, string_Eq, if◌then◌else◌, is_filled,
}

-- `OAuthConfigError`, `OAuthUpstreamError`, `OAuthVerifyError`
pub data OauthError : Type 0 where
  config upstream verify : OauthError

pub data Outcome (A : Type 0) : Type 0 where
  got : A → Outcome A
  failed : OauthError → Outcome A

-- The claims that are read. A claim that is missing is the empty text, but for the name;
-- `email_verified` is `str(...)` of the claim.
pub record Claims : Type 0 where
  pub iss : String
  pub aud : String
  pub email_verified : String
  pub email : String
  pub sub : String
  pub name : Option String

-- The settings that are read, `str.lower`, and the two endpoints: by a code the id token of the answer,
-- and by an id token its claims; none where the call fails or its answer is no JSON.
pub record Google : Type 0 where
  pub client_id : String
  pub client_secret : String
  pub lower : String → String
  pub post_json : String → Option (Option String)
  pub get_json : String → Option Claims

module _ (google : Google) where
  unfoldable pub is_configured : Bool
  is_configured = is_filled google.client_id && is_filled google.client_secret

  abbrev pub id_token_of : Option (Option String) → Outcome String
  id_token_of none = Outcome.failed OauthError.upstream
  id_token_of (some none) = Outcome.failed OauthError.upstream
  id_token_of (some (some t)) =
      if is_filled t then Outcome.got t else Outcome.failed OauthError.upstream

  unfoldable pub exchange_code_for_id_token : String → Outcome String
  unfolding is_configured
  exchange_code_for_id_token code =
      if not is_configured
      then Outcome.failed OauthError.config
      else id_token_of (google.post_json code)

  abbrev pub verified : Claims → Outcome Claims
  verified c =
      if not (c.iss == "accounts.google.com" || c.iss == "https://accounts.google.com")
      then Outcome.failed OauthError.verify
      else if not (c.aud == google.client_id)
      then Outcome.failed OauthError.verify
      else if not (google.lower c.email_verified == "true")
      then Outcome.failed OauthError.verify
      else if not (is_filled c.email) || not (is_filled c.sub)
      then Outcome.failed OauthError.verify
      else Outcome.got c

  abbrev pub verified_answer : Option Claims → Outcome Claims
  verified_answer none = Outcome.failed OauthError.upstream
  verified_answer (some c) = verified c

  unfoldable pub verify_id_token : String → Outcome Claims
  verify_id_token id_token = verified_answer (google.get_json id_token)
