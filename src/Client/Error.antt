-- ===== src/Client/Error.antt =====
-- crates/client/src/error.rs: the errors of the client library.
use responses_api_store.Common.{String, Bool, true, false}
use responses_api_store.Server.Convert.{
  Code, Status, ok_code, cancelled_code, unknown_code, invalid_argument_code,
  deadline_exceeded_code, not_found_code, already_exists_code, permission_denied_code,
  resource_exhausted_code, failed_precondition_code, aborted_code, out_of_range_code,
  unimplemented_code, internal_code, unavailable_code, data_loss_code, unauthenticated_code,
}

-- A transport error is its text.
pub data ClientError : Type 0 where
  transport : String → ClientError
  rpc : Status → ClientError
  serialization : String → ClientError
  not_found : String → ClientError
  configuration : String → ClientError

abbrev pub is_failed_precondition_code : Code → Bool
is_failed_precondition_code ok_code = false
is_failed_precondition_code cancelled_code = false
is_failed_precondition_code unknown_code = false
is_failed_precondition_code invalid_argument_code = false
is_failed_precondition_code deadline_exceeded_code = false
is_failed_precondition_code not_found_code = false
is_failed_precondition_code already_exists_code = false
is_failed_precondition_code permission_denied_code = false
is_failed_precondition_code resource_exhausted_code = false
is_failed_precondition_code failed_precondition_code = true
is_failed_precondition_code aborted_code = false
is_failed_precondition_code out_of_range_code = false
is_failed_precondition_code unimplemented_code = false
is_failed_precondition_code internal_code = false
is_failed_precondition_code unavailable_code = false
is_failed_precondition_code data_loss_code = false
is_failed_precondition_code unauthenticated_code = false

abbrev pub is_not_found_code : Code → Bool
is_not_found_code ok_code = false
is_not_found_code cancelled_code = false
is_not_found_code unknown_code = false
is_not_found_code invalid_argument_code = false
is_not_found_code deadline_exceeded_code = false
is_not_found_code not_found_code = true
is_not_found_code already_exists_code = false
is_not_found_code permission_denied_code = false
is_not_found_code resource_exhausted_code = false
is_not_found_code failed_precondition_code = false
is_not_found_code aborted_code = false
is_not_found_code out_of_range_code = false
is_not_found_code unimplemented_code = false
is_not_found_code internal_code = false
is_not_found_code unavailable_code = false
is_not_found_code data_loss_code = false
is_not_found_code unauthenticated_code = false

unfoldable pub is_failed_precondition : ClientError → Bool
is_failed_precondition (rpc s) = is_failed_precondition_code s.code
is_failed_precondition (transport s) = false
is_failed_precondition (serialization s) = false
is_failed_precondition (not_found s) = false
is_failed_precondition (configuration s) = false

unfoldable pub is_not_found : ClientError → Bool
is_not_found (not_found id) = true
is_not_found (rpc s) = is_not_found_code s.code
is_not_found (transport s) = false
is_not_found (serialization s) = false
is_not_found (configuration s) = false
