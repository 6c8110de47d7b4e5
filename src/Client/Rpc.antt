-- ===== src/Client/Rpc.antt =====
-- The methods of the gRPC stub that the client library calls, `ResponsesApiStoreClient`, which is
-- generated from the protocol file: parameters of the model. A request's fields are the arguments.
use responses_api_store.Common.{ℕ, String, Bool, Option}
use responses_api_store.Common.Int.{ℤ}
use responses_api_store.Common.Exec.{Exec}
use responses_api_store.Queue.Stats.{BackgroundQueueStats}
use responses_api_store.Server.Convert.{Status, ProtoStoredResponse}
use responses_api_store.Server.Jobs.{ClaimRequest, ClaimResponse, HealthResponse}

-- The answer to ClaimBackgroundResponse, whose record may be missing.
pub record ClaimReply : Type 0 where
  pub message : Option ProtoStoredResponse
  pub upstream : String
  pub pending_upstream_request_json : String
  pub upstream_authorization : Option String

pub record Rpc (W : Type 0) : Type 0 where
  pub health : Exec W Status HealthResponse
  pub generate_response_id : Exec W Status String
  pub store_response : Option ProtoStoredResponse → ℕ → Exec W Status (Unit {0})
  pub get_response : String → Bool → Exec W Status (Option ProtoStoredResponse)
  pub update_response : Option ProtoStoredResponse → ℕ → Exec W Status (Unit {0})
  pub delete_response : String → Exec W Status (Unit {0})
  pub enqueue_background_job : Option ProtoStoredResponse → Exec W Status (Unit {0})
  pub claim_background_jobs : ClaimRequest → Exec W Status ClaimResponse
  -- the stream id and the group
  pub acknowledge_background_job : String → String → Exec W Status (Unit {0})
  pub ensure_consumer_group : String → String → Exec W Status Bool
  pub get_background_queue_stats : String → Exec W Status BackgroundQueueStats
  pub claim_background_response : String → Exec W Status ClaimReply
  pub complete_background_response : String → String → Exec W Status (Option ProtoStoredResponse)
  pub fail_background_response : String → String → Exec W Status (Option ProtoStoredResponse)
  pub reconcile_stale_response : String → ℤ → Exec W Status (Option ProtoStoredResponse × Bool)
