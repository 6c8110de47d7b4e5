-- ===== src/Queue/Entries.antt =====
-- crates/core/src/queue.rs: enqueueing and acknowledging entries, and the jobs that entries stand for.
use Prim.Native.String.{◌++◌}
use responses_api_store.Common.{
  ℕ, zero, suc, String, Bool, true, false, ◌||◌, not, Option, none, some, List, [], ◌∷◌, panic,
  is_empty, ltb, eqb, if◌then◌else◌,
}
use mathlib.Core.List
use responses_api_store.Common.Exec.{pure, raise, lift, match_result, ignore, ◌>>=◌, ◌>>◌}
use responses_api_store.Error.{
  RedisError, StoreError, contains, not_found, invalid_argument, failed_precondition, unavailable,
  storage, serialization,
}
use responses_api_store.Record.{StoredResponse, BackgroundJob, PendingBackgroundJob}
use responses_api_store.Serde.{Json}
use responses_api_store.Redis.{Redis, shared}
use responses_api_store.Streams.{Streams, Entry}
use responses_api_store.Model.{autoclaim_cursor_key}
use responses_api_store.Store.Transaction.{ResponseStore, StoreM, redis, load}
use responses_api_store.Store.Operations.{unwrap_or}

-- The fields of `BackgroundQueue` that are no connection.
pub record BackgroundQueue : Type 0 where
  pub stream_key : String
  pub stream_maxlen : ℕ

pub record ClaimOptions : Type 0 where
  pub consumer_group : String
  pub consumer_name : String
  pub count : ℕ
  pub block_ms : ℕ
  pub autoclaim_min_idle_ms : ℕ

pub record ClaimBatchResult (V : Type 0) : Type 0 where
  pub jobs : List (BackgroundJob V)
  pub pending_stream_ids : List String
  pub pending_jobs : List PendingBackgroundJob

abbrev pub load_retry_attempts : ℕ
load_retry_attempts = 3

abbrev pub blocking_read_timeout_slack_ms : ℕ
blocking_read_timeout_slack_ms = 500

unfoldable pub is_busygroup : RedisError → Bool
is_busygroup e = contains e.message "BUSYGROUP"

unfoldable pub has_claimed_entries : {V : Type 0} → ClaimBatchResult V → Bool
has_claimed_entries result = not (is_empty result.jobs) || not (is_empty result.pending_jobs)

abbrev pub no_batch : {V : Type 0} → ClaimBatchResult V
no_batch = record { jobs = []; pending_stream_ids = []; pending_jobs = [] }

-- `result.jobs.extend(batch.jobs)`, and so for the two other lists
abbrev pub extend : {V : Type 0} → ClaimBatchResult V → ClaimBatchResult V → ClaimBatchResult V
extend a b = record {
  jobs = List.◌++◌ a.jobs b.jobs;
  pending_stream_ids = List.◌++◌ a.pending_stream_ids b.pending_stream_ids;
  pending_jobs = List.◌++◌ a.pending_jobs b.pending_jobs;
}

abbrev pub job :
    {V : Type 0} → Entry → String → Bool → Option ℕ → StoredResponse V → BackgroundJob V
job entry response_id autoclaimed idle_ms stored = record {
  stream_id = entry.id;
  response_id = response_id;
  stored = stored;
  autoclaimed = autoclaimed;
  idle_ms = idle_ms;
}

abbrev pub pending_job : Entry → String → Bool → Option ℕ → PendingBackgroundJob
pending_job entry response_id autoclaimed idle_ms = record {
  stream_id = entry.id;
  response_id = response_id;
  autoclaimed = autoclaimed;
  idle_ms = idle_ms;
}

-- What one entry adds to the batch.
abbrev pub one_job : {V : Type 0} → BackgroundJob V → ClaimBatchResult V
one_job a = record { jobs = a ∷ []; pending_stream_ids = []; pending_jobs = [] }

abbrev pub one_pending : {V : Type 0} → PendingBackgroundJob → ClaimBatchResult V
one_pending p = record { jobs = []; pending_stream_ids = p.stream_id ∷ []; pending_jobs = p ∷ [] }

module _ (j : Json) (r : Redis) (s : Streams r.World) where
  open j use {Value}
  open r use {World}

  unfoldable pub enqueue : BackgroundQueue → String → StoreM j r (Unit {0})
  enqueue self response_id =
      if ltb 0 self.stream_maxlen
      then redis j r (s.xadd_maxlen self.stream_key self.stream_maxlen response_id)
      else redis j r (s.xadd self.stream_key response_id)

  -- true if the group was created, false if it was there
  abbrev group_error : RedisError → StoreM j r Bool
  group_error e = if is_busygroup e then pure false else raise (storage e)

  unfoldable pub ensure_consumer_group : BackgroundQueue → String → String → StoreM j r Bool
  ensure_consumer_group self consumer_group start_id =
      match_result (s.xgroup_create_mkstream self.stream_key consumer_group start_id)
        (λ _. pure true) group_error

  unfoldable pub get_autoclaim_cursor : BackgroundQueue → String → StoreM j r String
  get_autoclaim_cursor self consumer_group = do
    cursor ← redis j r (r.get shared (autoclaim_cursor_key self.stream_key consumer_group))
    pure (unwrap_or cursor "0-0")

  unfoldable pub acknowledge : BackgroundQueue → String → String → StoreM j r (Unit {0})
  acknowledge self consumer_group stream_id = do
    acked ← redis j r (s.xack self.stream_key consumer_group stream_id)
    if eqb acked 0
        then raise (
            invalid_argument (
              "stream entry "
              ++ (stream_id ++ (" was not acknowledged for consumer group " ++ consumer_group))))
        else pure tt

  -- A transient failure is tried again; the last one is returned. Any other error ends the loop.
  abbrev pub retry_storage :
      {A : Type 0} → (Option RedisError → StoreM j r A) → StoreError → StoreM j r A
  retry_storage again (storage e) = again (some e)
  retry_storage again (not_found t) = raise (not_found t)
  retry_storage again (invalid_argument t) = raise (invalid_argument t)
  retry_storage again (failed_precondition t) = raise (failed_precondition t)
  retry_storage again (unavailable t) = raise (unavailable t)
  retry_storage again (serialization t) = raise (serialization t)

  -- `last_err.expect(…)`
  abbrev pub last_error : {A : Type 0} → Option RedisError → StoreM j r A
  last_error none = lift panic
  last_error (some e) = raise (storage e)

  unfoldable pub load_loop :
      ℕ → ResponseStore → String → Option RedisError → StoreM j r (Option (StoredResponse Value))
  load_loop zero store response_id last_err = last_error last_err
  load_loop (suc left) store response_id last_err =
      match_result (load j r store response_id) pure
        (retry_storage (load_loop left store response_id))

  unfoldable pub load_with_retries :
      ResponseStore → String → StoreM j r (Option (StoredResponse Value))
  load_with_retries store response_id = load_loop load_retry_attempts store response_id none

  -- `let _ = self.acknowledge(…)`, and the entry is skipped
  abbrev pub drop_entry : BackgroundQueue → String → Entry → StoreM j r (ClaimBatchResult Value)
  drop_entry self consumer_group entry = do
    ignore (acknowledge self consumer_group entry.id)
    pure no_batch

  abbrev pub loaded :
      BackgroundQueue
      → String
      → Entry
      → String
      → Bool
      → Option ℕ
      → Option (StoredResponse Value)
      → StoreM j r (ClaimBatchResult Value)
  loaded self consumer_group entry response_id autoclaimed idle_ms none =
      drop_entry self consumer_group entry
  loaded self consumer_group entry response_id autoclaimed idle_ms (some stored) =
      pure (one_job (job entry response_id autoclaimed idle_ms stored))

  abbrev pub load_failed :
      BackgroundQueue
      → String
      → Entry
      → String
      → Bool
      → Option ℕ
      → StoreError
      → StoreM j r (ClaimBatchResult Value)
  load_failed self consumer_group entry response_id autoclaimed idle_ms (serialization t) =
      drop_entry self consumer_group entry
  load_failed self consumer_group entry response_id autoclaimed idle_ms (storage e) =
      pure (one_pending (pending_job entry response_id autoclaimed idle_ms))
  load_failed self consumer_group entry response_id autoclaimed idle_ms (not_found t) =
      raise (not_found t)
  load_failed self consumer_group entry response_id autoclaimed idle_ms (invalid_argument t) =
      raise (invalid_argument t)
  load_failed self consumer_group entry response_id autoclaimed idle_ms (failed_precondition t) =
      raise (failed_precondition t)
  load_failed self consumer_group entry response_id autoclaimed idle_ms (unavailable t) =
      raise (unavailable t)

  -- One round of the loop of `jobs_from_stream_ids`.
  unfoldable pub hydrate :
      BackgroundQueue
      → ResponseStore
      → String
      → Entry
      → Bool
      → Option ℕ
      → Option String
      → StoreM j r (ClaimBatchResult Value)
  hydrate self store consumer_group entry autoclaimed idle_ms none = pure no_batch
  hydrate self store consumer_group entry autoclaimed idle_ms (some response_id) =
      match_result (load_with_retries store response_id)
        (loaded self consumer_group entry response_id autoclaimed idle_ms)
        (load_failed self consumer_group entry response_id autoclaimed idle_ms)

  unfoldable pub hydrate_all :
      BackgroundQueue
      → ResponseStore
      → String
      → Bool
      → Option ℕ
      → List Entry
      → StoreM j r (ClaimBatchResult Value)
  hydrate_all self store consumer_group autoclaimed idle_ms [] = pure no_batch
  hydrate_all self store consumer_group autoclaimed idle_ms (entry ∷ entries) = do
    first ← hydrate self store consumer_group entry autoclaimed idle_ms entry.response_id
    rest ← hydrate_all self store consumer_group autoclaimed idle_ms entries
    pure (extend first rest)

  unfoldable pub jobs_from_stream_ids :
      BackgroundQueue
      → ResponseStore
      → String
      → List Entry
      → Bool
      → Option ℕ
      → StoreM j r (ClaimBatchResult Value)
  jobs_from_stream_ids self store consumer_group entries autoclaimed autoclaim_min_idle_ms =
      let idle_ms = if autoclaimed then autoclaim_min_idle_ms else none in
      hydrate_all self store consumer_group autoclaimed idle_ms entries
