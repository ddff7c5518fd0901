-- ===== src/Common/Errors.antt =====
-- common/exceptions.py, with the exceptions of accounts/views.py and those of the framework that the
-- code raises.
use chamneul.Base.{String, Option}

-- The name of a unique constraint or unique column.
pub data Constraint : Type 0 where
  userrole_user_role user_email user_nickname google_sub google_user : Constraint
  application_display_name assignment_active advice_active history_version : Constraint
  feedback_advice : Constraint

pub data Error : Type 0 where
  -- 400, with the offending field, and a list of one message or a bare one
  validation_error validation_text : String → String → Error
  -- 400, with a text and no field
  invalid : String → Error
  -- 401
  authentication_failed : String → Error
  -- 403
  permission_denied : String → Error
  -- 404, with the text of the `Http404`
  not_found : String → Error
  -- 409: detail and reason
  conflict : String → Option String → Error
  -- 412
  precondition_failed : Error
  -- 422
  unprocessable_entity : String → Error
  -- 401, 500 and 502 of accounts/views.py
  google_auth_failed : Error
  oauth_unconfigured : Error
  bad_gateway : Error
  -- an exception that is no APIException: the framework answers 500
  integrity_error : Constraint → Error
  does_not_exist : Error
  value_error : String → Error
