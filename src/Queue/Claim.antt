-- ===== src/Queue/Claim.antt =====
-- crates/core/src/queue.rs: claim_jobs, which fills a batch from idle and from new entries.
use responses_api_store.Common.{
  Result, ok, err, panic, ℕ, ◌+◌, ◌-◌, ◌%◌, ◌^◌, String, ◌==◌, true, false, ◌&&◌, none, some, List,
  [], ◌∷◌, length, ltb, eqb, if◌then◌else◌,
}
use responses_api_store.Common.Exec.{pure, raise, match_result, ◌>>=◌, ◌>>◌}
use responses_api_store.Error.{StoreError, RedisError}
use responses_api_store.Serde.{Json}
use responses_api_store.Redis.{Redis}
use responses_api_store.Streams.{Streams, Entry, ReadConnection, command, dedicated}
use responses_api_store.Store.Transaction.{ResponseStore, StoreM, redis}
use responses_api_store.Queue.Entries.{
  BackgroundQueue, ClaimOptions, ClaimBatchResult, jobs_from_stream_ids, has_claimed_entries,
  extend, no_batch, blocking_read_timeout_slack_ms,
}

-- The entries that were read from this stream.
unfoldable pub entries_of : String → List (String × List Entry) → List Entry
entries_of stream_key [] = []
entries_of stream_key ((k, entries) ∷ keys) =
    if k == stream_key then entries else entries_of stream_key keys

module _ (j : Json) (r : Redis) (s : Streams r.World) where
  open j use {Value}
  open r use {World}

  unfoldable pub read_group_with_connection :
      BackgroundQueue → ReadConnection → String → String → ℕ → ℕ → StoreM j r (List Entry)
  read_group_with_connection self connection consumer_group consumer_name count block_ms = do
    replies ← redis j r (
        s.xreadgroup connection self.stream_key consumer_group consumer_name count
          (if ltb 0 block_ms then some block_ms else none))
    pure (entries_of self.stream_key replies)

  -- A blocking read has a connection of its own, which waits a little longer than the server, for a
  -- `u64` of milliseconds.
  unfoldable pub read_group : BackgroundQueue → String → String → ℕ → ℕ → StoreM j r (List Entry)
  read_group self consumer_group consumer_name count block_ms =
      if eqb block_ms 0
      then read_group_with_connection self command consumer_group consumer_name count block_ms
      else (redis j r
            (s.connect_with_timeout ((block_ms + blocking_read_timeout_slack_ms) % 2 ^ 64))
          >> read_group_with_connection self dedicated consumer_group consumer_name count block_ms)

  -- The claim of idle entries: the batch and the new cursor.
  unfoldable pub claim_idle :
      BackgroundQueue
      → ResponseStore
      → ClaimOptions
      → String
      → StoreM j r (ClaimBatchResult Value × String)
  claim_idle self store options cursor = do
    claimed ← redis j r (
        s.xautoclaim self.stream_key options.consumer_group options.consumer_name
          options.autoclaim_min_idle_ms cursor options.count)
    batch ←
        jobs_from_stream_ids j r s self store options.consumer_group claimed.1 true
          (some options.autoclaim_min_idle_ms)
    pure (extend no_batch batch, claimed.0)

  unfoldable pub autoclaim_batch :
      BackgroundQueue
      → ResponseStore
      → ClaimOptions
      → String
      → StoreM j r (ClaimBatchResult Value × String)
  autoclaim_batch self store options cursor =
      if ltb 0 options.autoclaim_min_idle_ms && ltb 0 options.count
      then claim_idle self store options cursor
      else pure (no_batch, cursor)

  -- `Err(err) if has_claimed_entries(&result)`: what was claimed already is returned.
  abbrev pub keep_partial :
      ClaimBatchResult Value → StoreError → StoreM j r (ClaimBatchResult Value)
  keep_partial result e = if has_claimed_entries result then pure result else raise e

  unfoldable pub fill_batch :
      BackgroundQueue
      → ResponseStore
      → ClaimOptions
      → ClaimBatchResult Value
      → StoreM j r (ClaimBatchResult Value)
  fill_batch self store options result =
      let remaining = options.count - (length result.jobs + length result.pending_jobs) in
      if ltb 0 remaining
      then match_result
          (read_group self options.consumer_group options.consumer_name remaining
            (if has_claimed_entries result then 0 else options.block_ms))
          (λ ids.
            match_result
              (jobs_from_stream_ids j r s self store options.consumer_group ids false none)
              (λ batch. pure (extend result batch)) (keep_partial result))
          (keep_partial result)
      else pure result

  -- The batch, and the cursor that the caller goes on with. `cursor_after` below is the cursor that is
  -- left in the argument in every case.
  unfoldable pub claim_jobs :
      BackgroundQueue
      → ResponseStore
      → ClaimOptions
      → String
      → StoreM j r (ClaimBatchResult Value × String)
  claim_jobs self store options autoclaim_cursor = do
    claimed ← autoclaim_batch self store options autoclaim_cursor
    result ← fill_batch self store options claimed.0
    pure (result, claimed.1)

  -- What a reply to the claim of idle entries makes of the cursor.
  abbrev pub replied : String → Result RedisError (String × List Entry) → String
  replied autoclaim_cursor (ok claimed) = claimed.0
  replied autoclaim_cursor (err e) = autoclaim_cursor
  replied autoclaim_cursor panic = autoclaim_cursor

  -- What the argument `autoclaim_cursor` holds after `claim_jobs`, after an error, too: it is written as
  -- soon as idle entries are claimed.
  unfoldable pub cursor_after : BackgroundQueue → ClaimOptions → String → World → String
  cursor_after self options autoclaim_cursor w =
      if ltb 0 options.autoclaim_min_idle_ms && ltb 0 options.count
      then replied autoclaim_cursor
          (s.xautoclaim self.stream_key options.consumer_group options.consumer_name
            options.autoclaim_min_idle_ms autoclaim_cursor options.count w).0
      else autoclaim_cursor
