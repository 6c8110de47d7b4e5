-- ===== src/Client/Classes.antt =====
-- crates/server/src/convert.rs, crates/server/src/metrics.rs and crates/client/src/error.rs: an error
-- of the store keeps its class over gRPC, over HTTP and in the client.
use responses_api_store.Common.{ℕ, ◌≡◌, refl, eqb, Bool-cases, inl, inr}
use responses_api_store.Error.{
  StoreError, contains, not_found, invalid_argument, failed_precondition, unavailable, storage,
  serialization,
}
use responses_api_store.Server.Convert.{
  Code, ok_code, cancelled_code, unknown_code, invalid_argument_code, deadline_exceeded_code,
  not_found_code, already_exists_code, permission_denied_code, resource_exhausted_code,
  failed_precondition_code, aborted_code, out_of_range_code, unimplemented_code, internal_code,
  unavailable_code, data_loss_code, unauthenticated_code, store_error_to_status,
}
use responses_api_store.Server.Metrics.{from_store}
use responses_api_store.Client.Error.{rpc, is_not_found, is_failed_precondition}

-- The HTTP status that stands for a gRPC code; a failed precondition is a conflict here.
abbrev pub http_status : Code → ℕ
http_status ok_code = 200
http_status cancelled_code = 499
http_status unknown_code = 500
http_status invalid_argument_code = 400
http_status deadline_exceeded_code = 504
http_status not_found_code = 404
http_status already_exists_code = 409
http_status permission_denied_code = 403
http_status resource_exhausted_code = 429
http_status failed_precondition_code = 409
http_status aborted_code = 409
http_status out_of_range_code = 400
http_status unimplemented_code = 501
http_status internal_code = 500
http_status unavailable_code = 503
http_status data_loss_code = 500
http_status unauthenticated_code = 401

-- Every error of the store has the HTTP status that stands for its gRPC code, the client takes
-- its status for a missing response exactly if the HTTP status is 404, and for a failed
-- precondition exactly if it is 409.
pub classes_agree :
    (e : StoreError)
    → ((from_store e).status ≡ http_status (store_error_to_status e).code)
      × (is_not_found (rpc (store_error_to_status e)) ≡ eqb (from_store e).status 404)
      × (is_failed_precondition (rpc (store_error_to_status e)) ≡ eqb (from_store e).status 409)
unfolding from_store store_error_to_status is_not_found is_failed_precondition
classes_agree (not_found id) = elim (Bool-cases (contains id "consumer group")) [
  | inl group ↦ rw group (refl, refl, refl)
  | inr response ↦ rw response (refl, refl, refl)
]
classes_agree (invalid_argument s) = (refl, refl, refl)
classes_agree (failed_precondition s) = (refl, refl, refl)
classes_agree (unavailable s) = (refl, refl, refl)
classes_agree (storage e) = (refl, refl, refl)
classes_agree (serialization s) = (refl, refl, refl)
