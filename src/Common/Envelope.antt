-- ===== src/Common/Envelope.antt =====
-- common/exceptions.py: the body of an error; common/authentication.py: the header that decides
-- between 401 and 403. The framework's own handler of exceptions is a parameter.
use chamneul.Base.{
  ℕ, String, ◌≡◌, Bool, true, false, Option, none, some, List, [], ◌∷◌, nat_eq, if◌then◌else◌,
  find?, is_filled,
}
use chamneul.Common.Errors.{Error}

-- `response.data` of the framework: the messages by field, a bare message by field, a list of messages, or a dict with "detail".
pub data ResponseData : Type 0 where
  fields : List (String × List String) → ResponseData
  texts : List (String × String) → ResponseData
  detail : String → ResponseData
  messages : List String → ResponseData

pub record RawResponse : Type 0 where
  pub status_code : ℕ
  pub content : ResponseData

-- `CsrfSessionAuthentication.authenticate_header`
unfoldable pub authenticate_header : String
authenticate_header = "Session"

-- `status_code` of the exceptions of this program, here and in accounts/views.py, and their `detail`.
unfoldable pub own_status : Error → Option ℕ
own_status (Error.conflict _ _) = some 409
own_status (Error.unprocessable_entity _) = some 422
own_status Error.precondition_failed = some 412
own_status Error.google_auth_failed = some 401
own_status Error.oauth_unconfigured = some 500
own_status Error.bad_gateway = some 502
own_status _ = none

unfoldable pub own_detail : Error → String
own_detail (Error.conflict d _) = d
own_detail (Error.unprocessable_entity d) = d
own_detail Error.precondition_failed = "리소스가 조회 이후 변경되었습니다. 다시 조회 후 시도하세요."
own_detail Error.google_auth_failed = "Google 인증 검증에 실패했습니다."
own_detail Error.oauth_unconfigured = "Google 로그인이 구성되지 않았습니다."
own_detail Error.bad_gateway = "Google 인증 서버와 통신하지 못했습니다."
own_detail _ = ""

abbrev pub is_unhandled : Error → Bool
is_unhandled (Error.integrity_error _) = true
is_unhandled Error.does_not_exist = true
is_unhandled (Error.value_error _) = true
is_unhandled _ = false

-- The default handler of the framework, called for a view whose authenticator has the given header:
-- an API exception becomes its status and its detail, 401 is lowered to 403 where the header is
-- empty, and any other exception is left alone.
pub record ErrorHandling : Type 0 where
  pub drf_default_handler : String → Error → Option RawResponse
  pub on_validation :
      (h f m : String)
      → drf_default_handler h (Error.validation_error f m)
        ≡ some (record { status_code = 400; content = fields ((f, m ∷ []) ∷ []) })
  pub on_text :
      (h f m : String)
      → drf_default_handler h (Error.validation_text f m)
        ≡ some (record { status_code = 400; content = texts ((f, m) ∷ []) })
  pub on_invalid :
      (h d : String)
      → drf_default_handler h (Error.invalid d)
        ≡ some (record { status_code = 400; content = messages (d ∷ []) })
  pub on_unauthenticated :
      (h d : String)
      → drf_default_handler h (Error.authentication_failed d)
        ≡ some (record { status_code = if is_filled h then 401 else 403; content = detail d })
  pub on_denied :
      (h d : String)
      → drf_default_handler h (Error.permission_denied d)
        ≡ some (record { status_code = 403; content = detail d })
  pub on_missing :
      (h d : String)
      → drf_default_handler h (Error.not_found d)
        ≡ some (record { status_code = 404; content = detail d })
  pub on_own :
      (h : String) (e : Error) (s : ℕ)
      → own_status e ≡ some s
      → drf_default_handler h e ≡ some (record { status_code = s; content = detail (own_detail e) })
  pub on_unhandled :
      (h : String) (e : Error) → is_unhandled e ≡ true → drf_default_handler h e ≡ none

-- The values of `_STATUS_TO_CODE`, and its default.
pub data ErrorCode : Type 0 where
  invalid_request unauthenticated forbidden not_found method_not_allowed conflict
        precondition_failed unprocessable_entity rate_limited internal_error bad_gateway error :
      ErrorCode

abbrev pub status_to_code : List (ℕ × ErrorCode)
status_to_code =
    (400, ErrorCode.invalid_request)
    ∷ (401, ErrorCode.unauthenticated)
    ∷ (403, ErrorCode.forbidden)
    ∷ (404, ErrorCode.not_found)
    ∷ (405, ErrorCode.method_not_allowed)
    ∷ (409, ErrorCode.conflict)
    ∷ (412, ErrorCode.precondition_failed)
    ∷ (422, ErrorCode.unprocessable_entity)
    ∷ (429, ErrorCode.rate_limited)
    ∷ (500, ErrorCode.internal_error)
    ∷ (502, ErrorCode.bad_gateway)
    ∷ []

abbrev pub code_or_error : Option (ℕ × ErrorCode) → ErrorCode
code_or_error none = ErrorCode.error
code_or_error (some r) = r.1

-- `_STATUS_TO_CODE.get(status, "ERROR")`
unfoldable pub code_of : ℕ → ErrorCode
code_of s = code_or_error (find? (λ r. nat_eq r.0 s) status_to_code)

-- `error.details`, where it is there: the data of a validation error, or the reason of a conflict.
pub data Details : Type 0 where
  from_data : ResponseData → Details
  reason : String → Details

pub record ErrorResponse : Type 0 where
  pub status : ℕ
  pub code : ErrorCode
  pub message : String
  pub details : Option Details

abbrev pub message_of : ResponseData → String
message_of (detail d) = d
message_of _ = "요청을 처리할 수 없습니다."

abbrev pub filled_reason : Option String → Option Details
filled_reason none = none
filled_reason (some r) = if is_filled r then some (reason r) else none

-- `getattr(exc, "reason", None)`, kept if it is truthy.
unfoldable pub reason_details : Error → Option Details
reason_details (Error.conflict _ r) = filled_reason r
reason_details _ = none

abbrev pub enveloped : Error → RawResponse → ErrorResponse
enveloped (Error.validation_error _ _) r = record {
  status = r.status_code;
  code = code_of r.status_code;
  message = "입력값을 확인해주세요.";
  details = some (from_data r.content);
}
enveloped (Error.validation_text _ _) r = record {
  status = r.status_code;
  code = code_of r.status_code;
  message = "입력값을 확인해주세요.";
  details = some (from_data r.content);
}
enveloped (Error.invalid _) r = record {
  status = r.status_code;
  code = code_of r.status_code;
  message = "입력값을 확인해주세요.";
  details = some (from_data r.content);
}
enveloped e r = record {
  status = r.status_code;
  code = code_of r.status_code;
  message = message_of r.content;
  details = reason_details e;
}

-- None is the 500 of the framework.
unfoldable pub api_exception_handler : ErrorHandling → Error → Option ErrorResponse
api_exception_handler f e = elim (f.drf_default_handler authenticate_header e) [
  | none ↦ none
  | some r ↦ some (enveloped e r)
]
