-- ===== src/Error.antt =====
-- crates/core/src/error.rs: the errors of the store, and the classification of Redis errors.
use Prim.Native.String.{◌++◌}
use text.Mathlib.Text.{find?}
use responses_api_store.Common.{String, Bool, is_some, if◌then◌else◌}

-- What the program asks of a `redis::RedisError`.
pub record RedisError : Type 0 where
  pub is_timeout : Bool
  pub is_connection_refusal : Bool
  pub message : String

-- `str::contains`
abbrev pub contains : String → String → Bool
contains s t = is_some (find? s t)

unfoldable pub redis_error_kind : RedisError → String
redis_error_kind e =
    if e.is_timeout
    then "timeout"
    else if e.is_connection_refusal
    then "connection_refused"
    else if contains e.message "BUSY"
    then "busy"
    else "other"

pub data StoreError : Type 0 where
  not_found : String → StoreError
  invalid_argument : String → StoreError
  failed_precondition : String → StoreError
  unavailable : String → StoreError
  storage : RedisError → StoreError
  serialization : String → StoreError

-- The `#[error]` texts of the enum.
unfoldable pub to_string : StoreError → String
to_string (not_found s) = "response not found: " ++ s
to_string (invalid_argument s) = "invalid request: " ++ s
to_string (failed_precondition s) = "precondition failed: " ++ s
to_string (unavailable s) = "storage unavailable: " ++ s
to_string (storage e) = "storage error: " ++ e.message
to_string (serialization s) = "serialization error: " ++ s
