-- ===== src/Errors.antt =====
-- src/errors/: the error codes and the exception that every component throws. A call that may
-- throw returns a `Result`.
pub mod Filter
use examples_service.Common.{ℕ, String, Option, none}
use examples_service.Js.{Fields}

pub data ErrorCode : Type 0 where
  pack_not_found scenario_not_found version_not_found template_not_found agent_not_found : ErrorCode
  invalid_scenario_ref invalid_pack_data validation_error compilation_error : ErrorCode
  policy_not_found policy_registration_failed session_already_exists : ErrorCode
  invalid_config auth_mint_failed internal_error : ErrorCode

pub record AppException : Type 0 where
  pub error_code : ErrorCode
  pub message : String
  pub http_status : ℕ
  pub metadata : Option Fields

abbrev pub bad_request : ℕ
bad_request = 400

abbrev pub not_found : ℕ
not_found = 404

abbrev pub internal_server_error : ℕ
internal_server_error = 500

abbrev pub bad_gateway : ℕ
bad_gateway = 502

-- An exception with no metadata.
abbrev pub app_exception : ErrorCode → String → ℕ → AppException
app_exception code message status = record {
  error_code = code;
  message = message;
  http_status = status;
  metadata = none;
}

pub data Result {ℓ} (A : Type ℓ) : Type ℓ where
  ok : A → Result A
  err : AppException → Result A

infixl 5 ◌>>=◌
abbrev pub ◌>>=◌ {κ μ} : {X : Type κ} {Y : Type μ} → Result X → (X → Result Y) → Result Y
err thrown >>= next = err thrown
ok value >>= next = next value
