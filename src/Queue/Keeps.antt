-- ===== src/Queue/Keeps.antt =====
-- crates/core/src/queue.rs: the errors of claim_jobs, and what becomes of a batch that is begun.
use responses_api_store.Common.{
  ℕ, ◌+◌, ◌-◌, ◌%◌, ◌^◌, String, true, false, ◌&&◌, none, some, ◌≡◌, ◌≢◌, refl, ap, ok, err, panic,
  Result, ltb, eqb, Bool-cases, inl, inr, if◌then◌else◌, length,
}
use responses_api_store.Common.Exec.{handle_result, match_result}
use responses_api_store.Common.Exec.Calm.{
  NeverPanics, pure-NeverPanics, raise-NeverPanics, >>=-NeverPanics, match_result-NeverPanics,
}
use responses_api_store.Error.{StoreError}
use responses_api_store.Serde.{Json}
use responses_api_store.Redis.{Redis}
use responses_api_store.Streams.{Streams, ReadConnection, command, dedicated}
use responses_api_store.Store.Transaction.{ResponseStore, StoreM, redis}
use responses_api_store.Queue.Entries.{
  BackgroundQueue, ClaimOptions, ClaimBatchResult, extend, no_batch, has_claimed_entries,
  jobs_from_stream_ids, blocking_read_timeout_slack_ms,
}
use responses_api_store.Queue.Claim.{
  entries_of, read_group_with_connection, read_group, claim_idle, autoclaim_batch, keep_partial,
  fill_batch, claim_jobs,
}
use responses_api_store.Queue.Filled.{extend-no_batch}
use responses_api_store.Queue.Calm.{CalmLaws, redis-calm, if-calm, jobs_from_stream_ids-NeverPanics}

module _ (j : Json) (r : Redis) (s : Streams r.World) (laws : CalmLaws j r s) where
  open j use {Value}
  open r use {World}

  read_with-NeverPanics :
      (self : BackgroundQueue) (c : ReadConnection) (group name : String) (count block : ℕ)
      → NeverPanics (read_group_with_connection j r s self c group name count block)
  unfolding read_group_with_connection
  read_with-NeverPanics self c group name count block =
      let ms = if ltb 0 block then some block else none in
      >>=-NeverPanics (redis j r (s.xreadgroup c self.stream_key group name count ms)) _
        (redis-calm j r s laws (s.xreadgroup c self.stream_key group name count ms)
          (laws.xreadgroup c self.stream_key group name count ms))
        (λ replies. pure-NeverPanics (entries_of self.stream_key replies))

  read_group-NeverPanics :
      (self : BackgroundQueue) (group name : String) (count block : ℕ)
      → NeverPanics (read_group j r s self group name count block)
  unfolding read_group
  read_group-NeverPanics self group name count block =
      if-calm j r s laws (eqb block 0) _ _
        (read_with-NeverPanics self command group name count block)
        (>>=-NeverPanics
          (redis j r (s.connect_with_timeout ((block + blocking_read_timeout_slack_ms) % 2 ^ 64))) _
          (redis-calm j r s laws
            (s.connect_with_timeout ((block + blocking_read_timeout_slack_ms) % 2 ^ 64))
            (laws.connect_with_timeout ((block + blocking_read_timeout_slack_ms) % 2 ^ 64)))
          (λ _. read_with-NeverPanics self dedicated group name count block))

  autoclaim_batch-NeverPanics :
      (self : BackgroundQueue) (store : ResponseStore) (o : ClaimOptions) (cursor : String)
      → NeverPanics (autoclaim_batch j r s self store o cursor)
  unfolding autoclaim_batch claim_idle
  autoclaim_batch-NeverPanics self store o cursor =
      let run =
        s.xautoclaim self.stream_key o.consumer_group o.consumer_name o.autoclaim_min_idle_ms cursor
          o.count in
      if-calm j r s laws (ltb 0 o.autoclaim_min_idle_ms && ltb 0 o.count) _ _
        (>>=-NeverPanics (redis j r run) _
          (redis-calm j r s laws run (
            laws.xautoclaim self.stream_key o.consumer_group o.consumer_name o.autoclaim_min_idle_ms
              cursor o.count))
          λ claimed.
            >>=-NeverPanics
              (jobs_from_stream_ids j r s self store o.consumer_group claimed.1 true
                (some o.autoclaim_min_idle_ms))
              _
              (jobs_from_stream_ids-NeverPanics j r s laws self store o.consumer_group claimed.1
                true (some o.autoclaim_min_idle_ms))
              (λ batch. pure-NeverPanics _))
        (pure-NeverPanics (no_batch, cursor))

  keep_partial-NeverPanics :
      (b : ClaimBatchResult Value) (e : StoreError) → NeverPanics (keep_partial j r s b e)
  keep_partial-NeverPanics b e =
      if-calm j r s laws (has_claimed_entries b) _ _ (pure-NeverPanics b) (raise-NeverPanics e)

  fill_batch-NeverPanics :
      (self : BackgroundQueue) (store : ResponseStore) (o : ClaimOptions)
      (b : ClaimBatchResult Value)
      → NeverPanics (fill_batch j r s self store o b)
  unfolding fill_batch
  fill_batch-NeverPanics self store o b =
      let remaining = o.count - (length b.jobs + length b.pending_jobs) in
      let block = if has_claimed_entries b then 0 else o.block_ms in
      if-calm j r s laws (ltb 0 remaining) _ _
        (match_result-NeverPanics
          (read_group j r s self o.consumer_group o.consumer_name remaining block) _ _
          (read_group-NeverPanics self o.consumer_group o.consumer_name remaining block)
          (λ ids.
            match_result-NeverPanics
              (jobs_from_stream_ids j r s self store o.consumer_group ids false none) _ _
              (jobs_from_stream_ids-NeverPanics j r s laws self store o.consumer_group ids false
                none)
              (λ batch. pure-NeverPanics (extend b batch)) (keep_partial-NeverPanics b))
          (keep_partial-NeverPanics b))
        (pure-NeverPanics b)

  -- A claim of jobs ends in a batch or in an error, if the client libraries do not panic.
  pub claim_jobs-NeverPanics :
      (self : BackgroundQueue) (store : ResponseStore) (o : ClaimOptions) (cursor : String)
      → NeverPanics (claim_jobs j r s self store o cursor)
  unfolding claim_jobs
  claim_jobs-NeverPanics self store o cursor =
      >>=-NeverPanics (autoclaim_batch j r s self store o cursor) _
        (autoclaim_batch-NeverPanics self store o cursor)
        λ claimed.
          >>=-NeverPanics (fill_batch j r s self store o claimed.0) _
            (fill_batch-NeverPanics self store o claimed.0)
            (λ result. pure-NeverPanics (result, claimed.1))

  -- The effect returns a batch that begins with this one.
  abbrev Extends : ClaimBatchResult Value → StoreM j r (ClaimBatchResult Value) → Type 0
  Extends b m = (w : World) → (more : ClaimBatchResult Value) × ((m w).0 ≡ ok (extend b more))

  keep_partial-Extends :
      (b : ClaimBatchResult Value) (e : StoreError)
      → has_claimed_entries b ≡ true
      → Extends b (keep_partial j r s b e)
  keep_partial-Extends b e h w = rw h (no_batch, ap ok (extend-no_batch b))

  match-Extends :
      {A : Type 0} (b : ClaimBatchResult Value) (m : StoreM j r A)
      (f : A → StoreM j r (ClaimBatchResult Value))
      → has_claimed_entries b ≡ true
      → NeverPanics m
      → ((a : A) → Extends b (f a))
      → Extends b (match_result m f (keep_partial j r s b))
  match-Extends b m f h calm next w = from_result (m w).0 (calm w)
    where
      from_result :
          (x : Result StoreError _)
          → x ≢ panic
          → (more : ClaimBatchResult Value) × ((handle_result f (keep_partial j r s b) x (m w).1).0
              ≡ ok (extend b more))
      from_result (ok a) n = next a (m w).1
      from_result (err e) n = keep_partial-Extends b e h (m w).1
      from_result panic n = absurd (n refl)

  fill_batch-Extends :
      (self : BackgroundQueue) (store : ResponseStore) (o : ClaimOptions)
      (b : ClaimBatchResult Value)
      → has_claimed_entries b ≡ true
      → Extends b (fill_batch j r s self store o b)
  unfolding fill_batch
  fill_batch-Extends self store o b h w =
      let remaining = o.count - (length b.jobs + length b.pending_jobs) in
      let block = if has_claimed_entries b then 0 else o.block_ms in
      elim (Bool-cases (ltb 0 remaining)) [
        | inr f ↦ rw f (no_batch, ap ok (extend-no_batch b))
        | inl t ↦ rw t (
            match-Extends b (read_group j r s self o.consumer_group o.consumer_name remaining block)
              _ h (read_group-NeverPanics self o.consumer_group o.consumer_name remaining block)
              (λ ids.
                match-Extends b
                  (jobs_from_stream_ids j r s self store o.consumer_group ids false none) _ h
                  (jobs_from_stream_ids-NeverPanics j r s laws self store o.consumer_group ids false
                    none)
                  (λ batch v. (batch, refl)))
              w)
      ]

  -- Once idle entries were claimed, claim_jobs returns their jobs, whatever becomes of the new
  -- entries, and the cursor that came with them; if the client libraries do not panic.
  pub claim_jobs-Extends :
      (self : BackgroundQueue) (store : ResponseStore) (o : ClaimOptions) (cursor : String)
      (w : World) (claimed : ClaimBatchResult Value × String)
      → (autoclaim_batch j r s self store o cursor w).0 ≡ ok claimed
      → has_claimed_entries claimed.0 ≡ true
      → (more : ClaimBatchResult Value) × ((claim_jobs j r s self store o cursor w).0
          ≡ ok (extend claimed.0 more, claimed.1))
  unfolding claim_jobs
  claim_jobs-Extends self store o cursor w claimed e h =
      let (more, full) =
        fill_batch-Extends self store o claimed.0 h
          (autoclaim_batch j r s self store o cursor w).1 in
      (more, rw (e, full) refl)
