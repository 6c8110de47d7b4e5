-- ===== src/Server/Convert.antt =====
-- crates/server/src/convert.rs: records as protocol messages, and store errors as gRPC statuses.
use Prim.Native.String.{◌++◌}
use responses_api_store.Common.{
  ℕ, String, Bool, Option, none, some, List, Result, ok, map_err, map_ok, collect, ◌>>=◌,
  if◌then◌else◌,
}
use responses_api_store.Common.Int.{ℤ}
use responses_api_store.Common.Text.{is_blank}
use responses_api_store.Error.{
  StoreError, contains, redis_error_kind, not_found, invalid_argument, failed_precondition,
  unavailable, storage, serialization,
}
use responses_api_store.Record.{StoredResponse, BackgroundJob}
use responses_api_store.Serde.{Json}

-- The codes of `tonic::Status`.
pub data Code : Type 0 where
  ok_code cancelled_code unknown_code invalid_argument_code deadline_exceeded_code not_found_code
        already_exists_code permission_denied_code resource_exhausted_code failed_precondition_code
        aborted_code out_of_range_code unimplemented_code internal_code unavailable_code
        data_loss_code unauthenticated_code :
      Code

pub record Status : Type 0 where
  pub code : Code
  pub message : String

abbrev pub status : Code → String → Status
status code message = record { code = code; message = message }

-- The messages `StoredResponse` and `BackgroundJob` of the protocol.
pub record ProtoStoredResponse : Type 0 where
  pub response_id : String
  pub upstream : String
  pub response_json : String
  pub input_json : List String
  pub pending_upstream_request_json : Option String
  pub upstream_authorization : Option String
  pub enqueued_at : Option ℤ

pub record ProtoBackgroundJob : Type 0 where
  pub stream_id : String
  pub response_id : String
  pub message : Option ProtoStoredResponse
  pub autoclaimed : Bool
  pub idle_ms : Option ℕ

unfoldable pub store_error_to_status : StoreError → Status
store_error_to_status (not_found id) =
    if contains id "consumer group"
    then status not_found_code id
    else status not_found_code ("response not found: " ++ id)
store_error_to_status (invalid_argument message) = status invalid_argument_code message
store_error_to_status (failed_precondition message) = status failed_precondition_code message
store_error_to_status (unavailable message) = status unavailable_code message
store_error_to_status (storage e) =
    status unavailable_code
      ("storage unavailable (" ++ (redis_error_kind e ++ ("): " ++ e.message)))
store_error_to_status (serialization message) = status internal_code message

-- Both log the error and return its status.
unfoldable pub map_store_error : StoreError → Status
unfolding store_error_to_status
map_store_error e = store_error_to_status e

unfoldable pub map_claim_store_error : StoreError → Status
unfolding store_error_to_status
map_claim_store_error e = store_error_to_status e

module _ (j : Json) where
  open j use {Value}

  abbrev pub parse_json : String → String → String → Result Status Value
  parse_json what response_id json =
      map_err (λ e. status invalid_argument_code (what ++ (response_id ++ (": " ++ e))))
        (j.from_str json)

  abbrev pub print_json : String → String → Value → Result Status String
  print_json what response_id value =
      map_err (λ e. status internal_code (what ++ (response_id ++ (": " ++ e)))) (j.to_string value)

  abbrev pub parse_pending : String → Option String → Result Status (Option Value)
  parse_pending response_id none = ok none
  parse_pending response_id (some value) =
      if is_blank value
      then ok none
      else map_ok some (parse_json "invalid pending_upstream_request_json for " response_id value)

  abbrev pub print_pending : String → Option Value → Result Status (Option String)
  print_pending response_id none = ok none
  print_pending response_id (some value) =
      map_ok some (print_json "failed to serialize pending_upstream_request for " response_id value)

  unfoldable pub proto_to_core : ProtoStoredResponse → Result Status (StoredResponse Value)
  proto_to_core m = do
    response ← parse_json "invalid response_json for " m.response_id m.response_json
    input ← collect (parse_json "invalid input_json entry for " m.response_id) m.input_json
    pending ← parse_pending m.response_id m.pending_upstream_request_json
    ok (record {
      upstream = m.upstream;
      response = response;
      input = input;
      pending_upstream_request = pending;
      upstream_authorization = m.upstream_authorization;
      enqueued_at = m.enqueued_at;
    })

  unfoldable pub core_to_proto : String → StoredResponse Value → Result Status ProtoStoredResponse
  core_to_proto response_id stored = do
    response ← print_json "failed to serialize response for " response_id stored.response
    input ← collect (print_json "failed to serialize input for " response_id) stored.input
    pending ← print_pending response_id stored.pending_upstream_request
    ok (record {
      response_id = response_id;
      upstream = stored.upstream;
      response_json = response;
      input_json = input;
      pending_upstream_request_json = pending;
      upstream_authorization = stored.upstream_authorization;
      enqueued_at = stored.enqueued_at;
    })

  unfoldable pub core_job_to_proto : BackgroundJob Value → Result Status ProtoBackgroundJob
  core_job_to_proto job = do
    message ← core_to_proto job.response_id job.stored
    ok (record {
      stream_id = job.stream_id;
      response_id = job.response_id;
      message = some message;
      autoclaimed = job.autoclaimed;
      idle_ms = job.idle_ms;
    })
