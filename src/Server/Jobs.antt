-- ===== src/Server/Jobs.antt =====
-- crates/server/src/service.rs: the handlers of the queue, and of the service itself.
use Prim.Native.String.{◌++◌}
use responses_api_store.Common.{
  collect, ℕ, String, Bool, true, false, ◌||◌, Option, List, ltb, if◌then◌else◌,
}
use responses_api_store.Common.Text.{is_blank}
use responses_api_store.Common.Exec.{
  pure, raise, lift, map_error, match_result, ignore, ◌>>=◌, ◌>>◌,
}
use responses_api_store.Record.{PendingBackgroundJob}
use responses_api_store.Serde.{Json}
use responses_api_store.Redis.{Redis}
use responses_api_store.Streams.{Streams}
use responses_api_store.Store.Transaction.{StoreM}
use responses_api_store.Store.Operations
use responses_api_store.Store.Capabilities.{Cell, load_redis_capabilities, redis_server_info}
use responses_api_store.Queue.Entries
use responses_api_store.Queue.Entries.{
  ClaimOptions, ClaimBatchResult, get_autoclaim_cursor, acknowledge,
}
use responses_api_store.Queue.Claim.{claim_jobs}
use responses_api_store.Queue.Cursor.{set_autoclaim_cursor}
use responses_api_store.Queue.Stats.{BackgroundQueueStats, stats}
use responses_api_store.Server.Convert.{
  ProtoBackgroundJob, map_claim_store_error, core_job_to_proto,
}
use responses_api_store.Server.Service.{ResponsesApiStoreService, Handler, call, require, required}

abbrev pub max_claim_count : ℕ
max_claim_count = 100

-- `request.count.max(1).min(MAX_CLAIM_COUNT)`
unfoldable pub claim_count : ℕ → ℕ
claim_count count =
    if ltb count 1 then 1 else if ltb max_claim_count count then max_claim_count else count

pub record ClaimRequest : Type 0 where
  pub consumer_group : String
  pub consumer_name : String
  pub count : ℕ
  pub block_ms : ℕ
  pub autoclaim_min_idle_ms : ℕ

-- The answer to ClaimBackgroundJobs. A pending job is passed on field by field.
pub record ClaimResponse : Type 0 where
  pub jobs : List ProtoBackgroundJob
  pub pending_stream_ids : List String
  pub pending_jobs : List PendingBackgroundJob

pub record HealthResponse : Type 0 where
  pub redis_ok : Bool
  pub version : String
  pub redis_version : String
  pub background_queue_lag_supported : Bool

abbrev pub options_of : ClaimRequest → ClaimOptions
options_of request = record {
  consumer_group = request.consumer_group;
  consumer_name = request.consumer_name;
  count = claim_count request.count;
  block_ms = request.block_ms;
  autoclaim_min_idle_ms = request.autoclaim_min_idle_ms;
}

-- `uuid` is a random UUID, printed without dashes; `package_version` is that of the build.
unfoldable pub generate_response_id : {W : Type 0} → (W → String × W) → W → String × W
generate_response_id uuid w = ("resp_" ++ (uuid w).0, (uuid w).1)

module _ (j : Json) (r : Redis) (s : Streams r.World) where
  open j use {Value}
  open r use {World}

  abbrev pub require_both : String → String → String → Handler j r s (Unit {0})
  require_both a b message = if is_blank a || is_blank b then raise (required message) else pure tt

  unfoldable pub claim_background_jobs :
      (String → Option ℕ) → ResponsesApiStoreService → ClaimRequest → Handler j r s ClaimResponse
  claim_background_jobs tonumber self request = do
    require_both request.consumer_group request.consumer_name
        "consumer_group and consumer_name are required"
    cursor ← call j r s (get_autoclaim_cursor j r s self.queue request.consumer_group)
    claimed ←
        map_error map_claim_store_error
          (claim_jobs j r s self.queue self.store (options_of request) cursor)
    ignore (set_autoclaim_cursor tonumber j r s self.queue request.consumer_group claimed.1)
    jobs ← lift (collect (core_job_to_proto j) claimed.0.jobs)
    pure (record {
      jobs = jobs;
      pending_stream_ids = claimed.0.pending_stream_ids;
      pending_jobs = claimed.0.pending_jobs;
    })

  unfoldable pub acknowledge_background_job :
      ResponsesApiStoreService → String → String → Handler j r s (Unit {0})
  acknowledge_background_job self stream_id consumer_group = do
    require_both stream_id consumer_group "stream_id and consumer_group are required"
    call j r s (acknowledge j r s self.queue consumer_group stream_id)

  unfoldable pub ensure_consumer_group :
      ResponsesApiStoreService → String → String → Handler j r s Bool
  ensure_consumer_group self consumer_group start_id = do
    require j r s consumer_group "consumer_group is required"
    call j r s (
        Entries.ensure_consumer_group j r s self.queue consumer_group
          (if is_blank start_id then "0-0" else start_id))

  abbrev pub exclusive_range : Cell World → StoreM j r Bool
  exclusive_range cell = do
    capabilities ← load_redis_capabilities j r s cell
    pure capabilities.exclusive_range_supported

  unfoldable pub get_background_queue_stats :
      Cell World → ℕ → ResponsesApiStoreService → String → Handler j r s BackgroundQueueStats
  get_background_queue_stats cell rounds self consumer_group = do
    require j r s consumer_group "consumer_group is required"
    call j r s (stats j r s rounds self.queue consumer_group (exclusive_range cell))

  -- `unwrap_or_default`
  abbrev pub server_info_or_default : Cell World → Handler j r s (String × Bool)
  server_info_or_default cell =
      match_result (redis_server_info j r s cell) pure (λ _. pure ("", false))

  abbrev pub health_of : String → Bool → String × Bool → HealthResponse
  health_of package_version redis_ok info = record {
    redis_ok = redis_ok;
    version = package_version;
    redis_version = info.0;
    background_queue_lag_supported = info.1;
  }

  unfoldable pub health : String → Cell World → Handler j r s HealthResponse
  health package_version cell =
      match_result (Operations.ping j r)
        (λ _. server_info_or_default cell >>= λ info. pure (health_of package_version true info))
        (λ _. pure (health_of package_version false ("", false)))
