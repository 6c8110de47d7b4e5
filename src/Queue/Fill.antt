-- ===== src/Queue/Fill.antt =====
-- crates/core/src/queue.rs: what claim_jobs fills a batch with.
use responses_api_store.Common.{
  ℕ, ◌+◌, ◌-◌, ◌%◌, ◌^◌, ◌≤◌, String, ◌==◌, true, false, ◌&&◌, none, some, List, [], ◌∷◌, refl, inl,
  inr, arith, length, ltb, eqb, ok-injective, Bool-cases, All, if◌then◌else◌, map_err-ok,
}
use responses_api_store.Common.Exec.{pure, match_result, bind-ok, match_result-ok}
use responses_api_store.Error.{StoreError, storage}
use responses_api_store.Serde.{Json}
use responses_api_store.Redis.{Redis}
use responses_api_store.Streams.{Streams, Entry, ReadConnection, command, dedicated}
use responses_api_store.Streams.Replies.{ReplyLaws}
use responses_api_store.Store.Transaction.{ResponseStore, redis}
use responses_api_store.Queue.Entries.{
  BackgroundQueue, ClaimOptions, ClaimBatchResult, extend, has_claimed_entries,
  jobs_from_stream_ids, blocking_read_timeout_slack_ms,
}
use responses_api_store.Queue.Batch.{
  Hydrates, nothing, size, Hydrates-size, Returns, Loaded, jobs_from_stream_ids-Hydrates,
}
use responses_api_store.Queue.Filled.{
  HasRead, ReadFails, IsFilled, IsIdle, alone-IsFilled, size-extend,
}
use responses_api_store.Queue.Claim.{
  entries_of, read_group_with_connection, read_group, claim_idle, autoclaim_batch, keep_partial,
  fill_batch, claim_jobs,
}

entries_of-length :
    (k : String) (n : ℕ) (replies : List (String × List Entry))
    → All (λ reply. length reply.1 ≤ n) replies
    → length (entries_of k replies) ≤ n
unfolding entries_of
entries_of-length k n [] h = omega arith
entries_of-length k n ((l, es) ∷ replies) (h, hs) = elim (Bool-cases (l == k)) [
  | inl t ↦ rw t h
  | inr f ↦ rw f (entries_of-length k n replies hs)
]

module _ (j : Json) (r : Redis) (s : Streams r.World) (laws : ReplyLaws r.World s) where
  open j use {Value}
  open r use {World}

  read_with-length :
      (self : BackgroundQueue) (c : ReadConnection) (group name : String) (count block : ℕ)
      → Returns j r s
          (read_group_with_connection j r s self c group name count block)
          (HasRead j r s self group name count)
  unfolding read_group_with_connection
  read_with-length self c group name count block w es h =
      let block_ms = if ltb 0 block then some block else none in
      let (replies, m, same) =
        bind-ok (redis j r (s.xreadgroup c self.stream_key group name count block_ms)) _ w h in
      let answered = map_err-ok storage _ m in
      rw (← ok-injective (rw same at h)) (
        (w, c, block_ms, replies, answered, refl),
        entries_of-length self.stream_key count replies
            (laws.xreadgroup_count c self.stream_key group name count block_ms w answered),
      )

  read_group-length :
      (self : BackgroundQueue) (group name : String) (count block : ℕ)
      → Returns j r s
          (read_group j r s self group name count block)
          (HasRead j r s self group name count)
  unfolding read_group
  read_group-length self group name count block w es h = elim (Bool-cases (eqb block 0)) [
    | inl t ↦ read_with-length self command group name count block w es (rw t at h)
    | inr f ↦
        let h₁ = rw f at h in
        let (x, m, same) =
          bind-ok
            (redis j r (s.connect_with_timeout ((block + blocking_read_timeout_slack_ms) % 2 ^ 64)))
            _ w h₁ in
        read_with-length self dedicated group name count block _ es (rw same at h₁)
  ]

  claim_idle-IsIdle :
      (self : BackgroundQueue) (store : ResponseStore) (o : ClaimOptions) (cursor : String)
      → Returns j r s (claim_idle j r s self store o cursor) (IsIdle j r s self store o cursor)
  unfolding claim_idle
  claim_idle-IsIdle self store o cursor w b h =
      let command =
        s.xautoclaim self.stream_key o.consumer_group o.consumer_name o.autoclaim_min_idle_ms cursor
          o.count in
      let (claimed, m, same₁) = bind-ok (redis j r command) _ w h in
      let h₁ = rw same₁ at h in
      let (batch, n, same₂) =
        bind-ok
          (jobs_from_stream_ids j r s self store o.consumer_group claimed.1 true
            (some o.autoclaim_min_idle_ms))
          _ _ h₁ in
      rw (← ok-injective (rw same₂ at h₁)) (
        claimed.1,
        inr (w, claimed.0, map_err-ok storage _ m),
        jobs_from_stream_ids-Hydrates j r s self store o.consumer_group claimed.1 true
            (some o.autoclaim_min_idle_ms) _ batch n,
        laws.xautoclaim_count self.stream_key o.consumer_group o.consumer_name
            o.autoclaim_min_idle_ms cursor o.count w (map_err-ok storage _ m),
      )

  autoclaim_batch-IsIdle :
      (self : BackgroundQueue) (store : ResponseStore) (o : ClaimOptions) (cursor : String)
      → Returns j r s (autoclaim_batch j r s self store o cursor) (IsIdle j r s self store o cursor)
  unfolding autoclaim_batch
  autoclaim_batch-IsIdle self store o cursor w b h =
      elim (Bool-cases (ltb 0 o.autoclaim_min_idle_ms && ltb 0 o.count)) [
        | inl t ↦ claim_idle-IsIdle self store o cursor w b (rw t at h)
        | inr f ↦ rw (← ok-injective (rw f at h)) ([], inl (f, refl), nothing, omega arith)
      ]

  keep_partial-IsFilled :
      (self : BackgroundQueue) (store : ResponseStore) (o : ClaimOptions) (cursor : String)
      (b₁ : ClaimBatchResult Value × String) (e : StoreError)
      → IsIdle j r s self store o cursor b₁
      → ReadFails j r s self store o (o.count - size b₁.0)
      → Returns j r s (keep_partial j r s b₁.0 e) (IsFilled j r s self store o cursor)
  keep_partial-IsFilled self store o cursor b₁ e idle fails w b h =
      elim (Bool-cases (has_claimed_entries b₁.0)) [
        | inl t ↦
            rw (← ok-injective (rw t at h))
              (alone-IsFilled j r s self store o cursor b₁ idle (inr (refl, inr (t, fails))))
        | inr f ↦ absurd (ground (arith, rw f at h))
      ]

  -- The second half: the new entries, at most as many as remain.
  hydrated-IsFilled :
      (self : BackgroundQueue) (store : ResponseStore) (o : ClaimOptions) (cursor : String)
      (b : ClaimBatchResult Value × String) (new : List Entry)
      → IsIdle j r s self store o cursor b
      → HasRead j r s self o.consumer_group o.consumer_name (o.count - size b.0) new
      → Returns j r s
          (match_result
            (jobs_from_stream_ids j r s self store o.consumer_group new false none)
            (λ batch. pure (extend b.0 batch))
            (keep_partial j r s b.0))
          (IsFilled j r s self store o cursor)
  hydrated-IsFilled self store o cursor b new (old, claimed, h, le) (read, room) w c e =
      elim (match_result-ok (jobs_from_stream_ids j r s self store o.consumer_group new false none)
        (λ batch. pure (extend b.0 batch)) (keep_partial j r s b.0) w e) [
          | inl (batch, m, same) ↦
              let more : Hydrates (Loaded j r s store) false none new batch =
                jobs_from_stream_ids-Hydrates j r s self store o.consumer_group new false none w
                  batch m in
              rw (← ok-injective (rw same at e)) (
                old,
                new,
                b.0,
                batch,
                claimed,
                h,
                inl read,
                more,
                refl,
                omega (
                  arith,
                  size-extend b.0 batch,
                  (Hydrates-size h).0,
                  (Hydrates-size more).0,
                  le,
                  room,
                ),
              )
          | inr (x, m, same) ↦
              keep_partial-IsFilled self store o cursor b x (old, claimed, h, le)
                (inr (w, x, new, read, m)) _ c (rw same at e)
        ]

  fill_batch-IsFilled :
      (self : BackgroundQueue) (store : ResponseStore) (o : ClaimOptions) (cursor : String)
      (b : ClaimBatchResult Value × String)
      → IsIdle j r s self store o cursor b
      → Returns j r s (fill_batch j r s self store o b.0) (IsFilled j r s self store o cursor)
  unfolding fill_batch
  fill_batch-IsFilled self store o cursor b idle w c e =
      elim (Bool-cases (ltb 0 (o.count - size b.0))) [
        | inr f ↦
            rw (← ok-injective (rw f at e))
              (alone-IsFilled j r s self store o cursor b idle (inr (refl, inl f)))
        | inl t ↦
            let block = if has_claimed_entries b.0 then 0 else o.block_ms in
            let e₁ = rw t at e in
            elim (match_result-ok
              (read_group j r s self o.consumer_group o.consumer_name (o.count - size b.0) block) _
              _ w e₁) [
                | inl (new, m, same) ↦
                    hydrated-IsFilled self store o cursor b new idle
                      (read_group-length self o.consumer_group o.consumer_name (o.count - size b.0)
                        block w new m)
                      _ c (rw same at e₁)
                | inr (x, m, same) ↦
                    keep_partial-IsFilled self store o cursor b x idle (inl (w, block, x, m)) _ c
                      (rw same at e₁)
              ]
      ]

  -- A batch that claim_jobs returns is made of the entries that the server claimed as idle from
  -- the cursor on, and then of the entries that it read as new, both in their order: each entry
  -- gives a job with the record that was loaded for it, or a pending job if the server failed at
  -- its load, and nothing only if it names no response or its record is gone or cannot be read.
  -- Idle entries are left out only if no idle time or no count is given, and new ones only if
  -- there is no room for any, or if idle entries were claimed and the read of new ones or the
  -- loads for them failed. A job of an idle entry is marked with the idle time that was asked
  -- for, and the batch is not larger than the count that was asked for; if the server respects
  -- the counts.
  pub claim_jobs-IsFilled :
      (self : BackgroundQueue) (store : ResponseStore) (o : ClaimOptions) (cursor : String)
      → Returns j r s
          (claim_jobs j r s self store o cursor)
          (λ b. IsFilled j r s self store o cursor b.0)
  unfolding claim_jobs
  claim_jobs-IsFilled self store o cursor w b h =
      let (idle, m, same₁) = bind-ok (autoclaim_batch j r s self store o cursor) _ w h in
      let h₁ = rw same₁ at h in
      let (full, n, same₂) = bind-ok (fill_batch j r s self store o idle.0) _ _ h₁ in
      rw (← ok-injective (rw same₂ at h₁)) (
        fill_batch-IsFilled self store o cursor idle
          (autoclaim_batch-IsIdle self store o cursor w idle m) _ full n)
