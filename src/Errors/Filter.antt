-- ===== src/Errors/Filter.antt =====
-- src/errors/exception.filter.ts: the answer to a request that ends with an exception. The exceptions
-- of the framework that are not the service's own are known by their status and their body.
use examples_service.Common.{ℕ, String, Option, none, some, ◌≡◌, refl}
use examples_service.Common.Text.{show_ℕ}
use examples_service.Js.{str, num, obj, Fields, end, field}
use examples_service.Errors.{
  ErrorCode, AppException, internal_server_error, pack_not_found, scenario_not_found,
  version_not_found, template_not_found, agent_not_found, invalid_scenario_ref, invalid_pack_data,
  validation_error, compilation_error, policy_not_found, policy_registration_failed,
  session_already_exists, invalid_config, auth_mint_failed, internal_error,
}

-- `exception`: one of the service, another one of the framework, whose body is a text or an object,
-- or anything else, with the message that an `Error` has.
pub data Exception : Type 0 where
  own : AppException → Exception
  http_text : ℕ → String → Exception
  http_body : ℕ → Fields → Exception
  other : Option String → Exception

pub record Response : Type 0 where
  pub status : ℕ
  pub json : Fields

unfoldable pub code_text : ErrorCode → String
code_text pack_not_found = "PACK_NOT_FOUND"
code_text scenario_not_found = "SCENARIO_NOT_FOUND"
code_text version_not_found = "VERSION_NOT_FOUND"
code_text template_not_found = "TEMPLATE_NOT_FOUND"
code_text agent_not_found = "AGENT_NOT_FOUND"
code_text invalid_scenario_ref = "INVALID_SCENARIO_REF"
code_text invalid_pack_data = "INVALID_PACK_DATA"
code_text validation_error = "VALIDATION_ERROR"
code_text compilation_error = "COMPILATION_ERROR"
code_text policy_not_found = "POLICY_NOT_FOUND"
code_text policy_registration_failed = "POLICY_REGISTRATION_FAILED"
code_text session_already_exists = "SESSION_ALREADY_EXISTS"
code_text invalid_config = "INVALID_CONFIG"
code_text auth_mint_failed = "AUTH_MINT_FAILED"
code_text internal_error = "INTERNAL_ERROR"

abbrev error_body : ℕ → ErrorCode → String → Fields → Fields
error_body status code message more =
    field "statusCode" (num (show_ℕ status))
      (field "errorCode" (str (code_text code)) (field "message" (str message) more))

abbrev metadata_field : Option Fields → Fields
metadata_field none = end
metadata_field (some metadata) = field "metadata" (obj metadata) end

-- The body that an `AppException` is made with.
unfoldable pub app_body : AppException → Fields
unfolding show_ℕ code_text
app_body e = error_body e.http_status e.error_code e.message (metadata_field e.metadata)

unfoldable pub catch : Exception → Response
unfolding show_ℕ code_text app_body
catch (own e) = record { status = e.http_status; json = app_body e }
catch (http_text status body) = record {
  status = status;
  json = error_body status internal_error body end;
}
catch (http_body status body) = record { status = status; json = body }
catch (other message) = record {
  status = internal_server_error;
  json = error_body internal_server_error internal_error "Internal server error" end;
}

-- The message of an error that is no exception of the framework does not reach the caller.
catch_other : (m n : Option String) → catch (other m) ≡ catch (other n)
unfolding catch
catch_other m n = refl
