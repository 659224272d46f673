-- ===== src/Status.antt =====
-- nimblenet/include/crossPlatformUtil.h: the status codes of the SDK and of its server.
use nimble_sdk.Prelude.Int.{ℤ, pos, minus_one}

abbrev pub success : ℤ
success = pos 200

abbrev pub auth_err : ℤ
auth_err = pos 401

abbrev pub json_parse_err : ℤ
json_parse_err = pos 5000

abbrev pub executor_load_model_err : ℤ
executor_load_model_err = pos 5001

abbrev pub terminal_error : ℤ
terminal_error = pos 5002

abbrev pub retryable_error : ℤ
retryable_error = minus_one
