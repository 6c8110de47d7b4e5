-- ===== src/Client/Calls.antt =====
-- crates/client/src/lib.rs: the calls of `Client`, over the stub of its channel.
use responses_api_store.Common.{ℕ, String, Bool, Option, some, List, map, Result, ok, collect, bind}
use responses_api_store.Common.Int.{ℤ, pos}
use responses_api_store.Common.Exec.{Exec, pure, lift, map_error, ◌>>=◌}
use responses_api_store.Record.{StoredResponse, BackgroundJob, PendingBackgroundJob}
use responses_api_store.Serde.{Json}
use responses_api_store.Queue.Stats.{BackgroundQueueStats}
use responses_api_store.Server.Convert.{Status, ProtoBackgroundJob}
use responses_api_store.Server.Jobs.{ClaimRequest, HealthResponse}
use responses_api_store.Store.Prepare.{ClaimBackgroundPayload}
use responses_api_store.Store.Operations.{unwrap_or}
use responses_api_store.Client.Error.{ClientError, rpc}
use responses_api_store.Client.Convert.{to_proto_record, from_proto_record, serde}
use responses_api_store.Client.Rpc.{Rpc}

pub record ClaimBackgroundJobsResult (V : Type 0) : Type 0 where
  pub jobs : List (BackgroundJob V)
  pub pending_stream_ids : List String
  pub pending_jobs : List PendingBackgroundJob

module _ (j : Json) {W : Type 0} (stub : Rpc W) where
  open j use {Value}

  abbrev pub ClientM : Type 0 → Type 0
  ClientM A = Exec W ClientError A

  -- `?` on a call of the stub
  abbrev pub call : {A : Type 0} → Exec W Status A → ClientM A
  call m = map_error rpc m

  unfoldable pub health : ClientM HealthResponse
  health = call stub.health

  unfoldable pub generate_response_id : ClientM String
  generate_response_id = call stub.generate_response_id

  unfoldable pub store_response : String → StoredResponse Value → Option ℕ → ClientM (Unit {0})
  store_response response_id stored ttl_seconds = do
    m ← lift (to_proto_record j response_id stored)
    call (stub.store_response (some m) (unwrap_or ttl_seconds 0))

  unfoldable pub get_response : String → Bool → ClientM (StoredResponse Value)
  get_response response_id reconcile_stale = do
    m ← call (stub.get_response response_id reconcile_stale)
    lift (from_proto_record j m response_id)

  unfoldable pub update_response : String → StoredResponse Value → Option ℕ → ClientM (Unit {0})
  update_response response_id stored ttl_seconds = do
    m ← lift (to_proto_record j response_id stored)
    call (stub.update_response (some m) (unwrap_or ttl_seconds 0))

  unfoldable pub delete_response : String → ClientM (Unit {0})
  delete_response response_id = call (stub.delete_response response_id)

  unfoldable pub enqueue_background_job : String → StoredResponse Value → ClientM (Unit {0})
  enqueue_background_job response_id stored = do
    m ← lift (to_proto_record j response_id stored)
    call (stub.enqueue_background_job (some m))

  unfoldable pub job_of : ProtoBackgroundJob → Result ClientError (BackgroundJob Value)
  job_of job = bind (from_proto_record j job.message job.response_id) λ stored. ok (record {
    stream_id = job.stream_id;
    response_id = job.response_id;
    stored = stored;
    autoclaimed = job.autoclaimed;
    idle_ms = job.idle_ms;
  })

  abbrev pub pending_of : PendingBackgroundJob → PendingBackgroundJob
  pending_of job = record {
    stream_id = job.stream_id;
    response_id = job.response_id;
    autoclaimed = job.autoclaimed;
    idle_ms = job.idle_ms;
  }

  unfoldable pub claim_background_jobs : ClaimRequest → ClientM (ClaimBackgroundJobsResult Value)
  claim_background_jobs request = do
    reply ← call (stub.claim_background_jobs request)
    jobs ← lift (collect job_of reply.jobs)
    pure (record {
      jobs = jobs;
      pending_stream_ids = reply.pending_stream_ids;
      pending_jobs = map pending_of reply.pending_jobs;
    })

  unfoldable pub acknowledge_background_job : String → String → ClientM (Unit {0})
  acknowledge_background_job consumer_group stream_id =
      call (stub.acknowledge_background_job stream_id consumer_group)

  unfoldable pub ensure_consumer_group : String → String → ClientM Bool
  ensure_consumer_group consumer_group start_id =
      call (stub.ensure_consumer_group consumer_group start_id)

  unfoldable pub get_background_queue_stats : String → ClientM BackgroundQueueStats
  get_background_queue_stats consumer_group = do
    reply ← call (stub.get_background_queue_stats consumer_group)
    pure (record {
      pending = reply.pending;
      in_progress = reply.in_progress;
      workload = reply.workload;
    })

  unfoldable pub claim_background_response :
      String → ClientM (StoredResponse Value × ClaimBackgroundPayload Value)
  claim_background_response response_id = do
    reply ← call (stub.claim_background_response response_id)
    stored ← lift (from_proto_record j reply.message response_id)
    pending ← lift (serde j (j.from_str reply.pending_upstream_request_json))
    let payload : ClaimBackgroundPayload Value = record {
      upstream = reply.upstream;
      pending_upstream_request = pending;
      upstream_authorization = reply.upstream_authorization;
    }
    pure (stored, payload)

  unfoldable pub complete_background_response : String → Value → ClientM (StoredResponse Value)
  complete_background_response response_id completed_response = do
    response_json ← lift (serde j (j.to_string completed_response))
    m ← call (stub.complete_background_response response_id response_json)
    lift (from_proto_record j m response_id)

  unfoldable pub fail_background_response : String → String → ClientM (StoredResponse Value)
  fail_background_response response_id error_message = do
    m ← call (stub.fail_background_response response_id error_message)
    lift (from_proto_record j m response_id)

  unfoldable pub reconcile_stale_response :
      String → Option ℤ → ClientM (StoredResponse Value × Bool)
  reconcile_stale_response response_id stale_seconds = do
    reply ← call (stub.reconcile_stale_response response_id (unwrap_or stale_seconds (pos 0)))
    stored ← lift (from_proto_record j reply.0 response_id)
    pure (stored, reply.1)
