-- ===== src/Queue/Filled.antt =====
-- crates/core/src/queue.rs: what a batch of claim_jobs should hold.
use mathlib.Core.List.{append-nil, map-append}
use responses_api_store.Common.{
  ℕ, ◌+◌, ◌-◌, ◌≤◌, String, true, false, ◌⊎◌, Option, ok, err, ◌&&◌, none, some, List, [], ◌≡◌,
  refl, sym, arith, length, length-append, ltb,
}
use responses_api_store.Error.{StoreError}
use responses_api_store.Serde.{Json}
use responses_api_store.Redis.{Redis}
use responses_api_store.Streams.{Streams, Entry, ReadConnection}
use responses_api_store.Store.Transaction.{ResponseStore}
use responses_api_store.Queue.Entries.{
  BackgroundQueue, ClaimOptions, ClaimBatchResult, extend, no_batch, has_claimed_entries,
  jobs_from_stream_ids,
}
use responses_api_store.Queue.Batch.{Hydrates, nothing, size, Hydrates-size, Loaded, IsCoherent}
use responses_api_store.Queue.Claim.{entries_of, read_group}

pub size-extend : {V : Type 0} (a b : ClaimBatchResult V) → size (extend a b) ≡ size a + size b
size-extend a b =
    omega (arith, length-append a.jobs b.jobs, length-append a.pending_jobs b.pending_jobs)

pub extend-no_batch : {V : Type 0} (b : ClaimBatchResult V) → b ≡ extend b no_batch
extend-no_batch b =
    rw (append-nil b.jobs, append-nil b.pending_stream_ids, append-nil b.pending_jobs) refl

module _ (j : Json) (r : Redis) (s : Streams r.World) where
  open j use {Value}
  open r use {World}

  -- The server answered a claim of idle entries with these, or it was not asked, since no idle time or
  -- no count was given.
  abbrev pub AreIdle : BackgroundQueue → ClaimOptions → String → List Entry → Type 0
  AreIdle self o cursor es =
      (((ltb 0 o.autoclaim_min_idle_ms && ltb 0 o.count) ≡ false) × (es ≡ []))
      ⊎ ((w : World) × (next : String) × ((s.xautoclaim self.stream_key o.consumer_group
              o.consumer_name o.autoclaim_min_idle_ms cursor o.count w).0
            ≡ ok (next, es)))

  -- The server answered a read of at most so many new entries with these.
  abbrev pub WereRead : BackgroundQueue → String → String → ℕ → List Entry → Type 0
  WereRead self group name count es =
      (w : World) × (c : ReadConnection) × (block_ms : Option ℕ) × (replies : List
        (String × List Entry))
      × ((s.xreadgroup c self.stream_key group name count block_ms w).0 ≡ ok replies)
      × (es ≡ entries_of self.stream_key replies)

  -- A read of at most so many new entries failed, or the loads for what it read did.
  abbrev pub ReadFails : BackgroundQueue → ResponseStore → ClaimOptions → ℕ → Type 0
  ReadFails self store o count =
      ((w : World) × (block_ms : ℕ) × (e : StoreError) × ((read_group j r s self o.consumer_group
            o.consumer_name count block_ms w).0
          ≡ err e))
      ⊎ ((w : World) × (e : StoreError) × (es : List Entry) × WereRead self o.consumer_group
            o.consumer_name count es
          × ((jobs_from_stream_ids j r s self store o.consumer_group es false none w).0 ≡ err e))

  -- The new entries for a batch that is begun: they were read, or there was no room for any, or the read
  -- or the loads failed after idle entries were claimed.
  abbrev pub AreNew :
      BackgroundQueue → ResponseStore → ClaimOptions → ClaimBatchResult Value → List Entry → Type 0
  AreNew self store o begun es =
      WereRead self o.consumer_group o.consumer_name (o.count - size begun) es
      ⊎ ((es ≡ [])
          × ((ltb 0 (o.count - size begun) ≡ false)
              ⊎ ((has_claimed_entries begun ≡ true)
                  × ReadFails self store o (o.count - size begun))))

  -- The jobs of idle entries, which were claimed, and then of new entries, which were read where there
  -- was room.
  abbrev pub IsFilled :
      BackgroundQueue → ResponseStore → ClaimOptions → String → ClaimBatchResult Value → Type 0
  IsFilled self store o cursor b =
      (old : List Entry) × (new : List Entry) × (b₁ : ClaimBatchResult Value)
      × (b₂ : ClaimBatchResult Value) × AreIdle self o cursor old
      × Hydrates (Loaded j r s store) true (some o.autoclaim_min_idle_ms) old b₁
      × AreNew self store o b₁ new
      × Hydrates (Loaded j r s store) false none new b₂
      × (b ≡ extend b₁ b₂)
      × (size b ≤ o.count)

  abbrev pub HasRead : BackgroundQueue → String → String → ℕ → List Entry → Type 0
  HasRead self group name count es = WereRead self group name count es × (length es ≤ count)

  -- The first half of a batch.
  abbrev pub IsIdle :
      BackgroundQueue
      → ResponseStore
      → ClaimOptions
      → String
      → ClaimBatchResult Value × String
      → Type 0
  IsIdle self store o cursor b =
      (old : List Entry) × AreIdle self o cursor old
      × Hydrates (Loaded j r s store) true (some o.autoclaim_min_idle_ms) old b.0
      × (length old ≤ o.count)

  pub alone-IsFilled :
      (self : BackgroundQueue) (store : ResponseStore) (o : ClaimOptions) (cursor : String)
      (b : ClaimBatchResult Value × String)
      → IsIdle self store o cursor b
      → AreNew self store o b.0 []
      → IsFilled self store o cursor b.0
  alone-IsFilled self store o cursor b (old, claimed, h, le) reason = (
    old,
    [],
    b.0,
    no_batch,
    claimed,
    h,
    reason,
    nothing,
    extend-no_batch b.0,
    omega (arith, (Hydrates-size h).0, le),
  )

  pub IsFilled-IsCoherent :
      (self : BackgroundQueue) (store : ResponseStore) (o : ClaimOptions) (cursor : String)
      (b : ClaimBatchResult Value)
      → IsFilled self store o cursor b
      → IsCoherent b
  IsFilled-IsCoherent self store o cursor b (old, new, b₁, b₂, idle, p, read, q, e, le) = rw e (
      rw ((Hydrates-size p).1, (Hydrates-size q).1)
        (sym (map-append _ b₁.pending_jobs b₂.pending_jobs)))
