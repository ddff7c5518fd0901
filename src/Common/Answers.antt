-- ===== src/Common/Answers.antt =====
-- The answer of common/exceptions.py to each error of the services.
use chamneul.Base.{ℕ, String, ◌≡◌, Option, none, some, [], ◌∷◌, arith, refl}
use chamneul.Common.Errors.{Error}
use chamneul.Common.Envelope.{
  ResponseData, ErrorHandling, ErrorCode, Details, ErrorResponse, filled_reason,
  api_exception_handler, authenticate_header, own_status, own_detail, code_of, reason_details,
}

-- The table that the handler is to implement: status, code, message and details by error.
abbrev pub said : ℕ → ErrorCode → String → Option Details → Option ErrorResponse
said s c m d = some (record { status = s; code = c; message = m; details = d })

abbrev pub documented : Error → Option ErrorResponse
documented (Error.validation_error f m) =
    said 400 ErrorCode.invalid_request "입력값을 확인해주세요."
      (some (Details.from_data (ResponseData.fields ((f, m ∷ []) ∷ []))))
documented (Error.validation_text f m) =
    said 400 ErrorCode.invalid_request "입력값을 확인해주세요."
      (some (Details.from_data (ResponseData.texts ((f, m) ∷ []))))
documented (Error.invalid d) =
    said 400 ErrorCode.invalid_request "입력값을 확인해주세요."
      (some (Details.from_data (ResponseData.messages (d ∷ []))))
documented (Error.authentication_failed d) = said 401 ErrorCode.unauthenticated d none
documented (Error.permission_denied d) = said 403 ErrorCode.forbidden d none
documented (Error.not_found d) = said 404 ErrorCode.not_found d none
documented (Error.conflict d r) = said 409 ErrorCode.conflict d (filled_reason r)
documented Error.precondition_failed =
    said 412 ErrorCode.precondition_failed "리소스가 조회 이후 변경되었습니다. 다시 조회 후 시도하세요." none
documented (Error.unprocessable_entity d) = said 422 ErrorCode.unprocessable_entity d none
documented Error.google_auth_failed =
    said 401 ErrorCode.unauthenticated "Google 인증 검증에 실패했습니다." none
documented Error.oauth_unconfigured =
    said 500 ErrorCode.internal_error "Google 로그인이 구성되지 않았습니다." none
documented Error.bad_gateway = said 502 ErrorCode.bad_gateway "Google 인증 서버와 통신하지 못했습니다." none
documented (Error.integrity_error _) = none
documented Error.does_not_exist = none
documented (Error.value_error _) = none

pub api_exception_handler_lem :
    (f : ErrorHandling) (e : Error) → api_exception_handler f e ≡ documented e
unfolding api_exception_handler authenticate_header own_status own_detail code_of reason_details
api_exception_handler_lem f (Error.validation_error x m) =
    ground (arith, f.on_validation authenticate_header x m)
api_exception_handler_lem f (Error.validation_text x m) =
    ground (arith, f.on_text authenticate_header x m)
api_exception_handler_lem f (Error.invalid d) = ground (arith, f.on_invalid authenticate_header d)
api_exception_handler_lem f (Error.authentication_failed d) =
    ground (arith, f.on_unauthenticated authenticate_header d)
api_exception_handler_lem f (Error.permission_denied d) =
    ground (arith, f.on_denied authenticate_header d)
api_exception_handler_lem f (Error.not_found d) = ground (arith, f.on_missing authenticate_header d)
api_exception_handler_lem f (Error.conflict d r) =
    ground (arith, f.on_own authenticate_header (Error.conflict d r) 409 refl)
api_exception_handler_lem f Error.precondition_failed =
    ground (arith, f.on_own authenticate_header Error.precondition_failed 412 refl)
api_exception_handler_lem f (Error.unprocessable_entity d) =
    ground (arith, f.on_own authenticate_header (Error.unprocessable_entity d) 422 refl)
api_exception_handler_lem f Error.google_auth_failed =
    ground (arith, f.on_own authenticate_header Error.google_auth_failed 401 refl)
api_exception_handler_lem f Error.oauth_unconfigured =
    ground (arith, f.on_own authenticate_header Error.oauth_unconfigured 500 refl)
api_exception_handler_lem f Error.bad_gateway =
    ground (arith, f.on_own authenticate_header Error.bad_gateway 502 refl)
api_exception_handler_lem f (Error.integrity_error c) =
    ground (arith, f.on_unhandled authenticate_header (Error.integrity_error c) refl)
api_exception_handler_lem f Error.does_not_exist =
    ground (arith, f.on_unhandled authenticate_header Error.does_not_exist refl)
api_exception_handler_lem f (Error.value_error m) =
    ground (arith, f.on_unhandled authenticate_header (Error.value_error m) refl)
