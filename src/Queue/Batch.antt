-- ===== src/Queue/Batch.antt =====
-- crates/core/src/queue.rs: the batches that entries are turned into.
use responses_api_store.Common.{
  ℕ, ◌+◌, ◌≤◌, String, Bool, Option, none, some, List, [], ◌∷◌, map, ◌≡◌, refl, ap, ◌⊎◌, Result,
  err, inl, inr, ok, arith, length, ok-injective, if◌then◌else◌,
}
use responses_api_store.Common.Exec.{ignore, bind-ok, match_result-ok}
use responses_api_store.Error.{
  RedisError, StoreError, not_found, invalid_argument, failed_precondition, unavailable, storage,
  serialization,
}
use responses_api_store.Record.{StoredResponse}
use responses_api_store.Serde.{Json}
use responses_api_store.Redis.{Redis}
use responses_api_store.Streams.{Streams, Entry}
use responses_api_store.Store.Transaction.{ResponseStore, StoreM}
use responses_api_store.Queue.Entries.{
  BackgroundQueue, ClaimBatchResult, extend, no_batch, one_job, one_pending, job, pending_job,
  load_with_retries, loaded, load_failed, drop_entry, acknowledge, hydrate, hydrate_all,
  jobs_from_stream_ids,
}

-- What a load of a record under an id answers.
abbrev pub LoadAnswer : Type 0 → Type 0
LoadAnswer V = Result StoreError (Option (StoredResponse V))

-- Which answers loads gave.
module _ {V : Type 0} (Answers : String → LoadAnswer V → Type 0) (autoclaimed : Bool)
    (idle_ms : Option ℕ) where
  -- No record is kept under the id, or none that can be read.
  abbrev pub IsGone : String → Type 0
  IsGone id = Answers id (ok none) ⊎ ((t : String) × Answers id (err (serialization t)))

  -- A batch that some entries were turned into, in their order: each adds a job, if its record was
  -- loaded, or a job whose record is still to be loaded, if the server failed, or nothing, if it has no
  -- response id or its record is gone.
  pub data Hydrates : List Entry → ClaimBatchResult V → Type 0 where
    nothing : Hydrates [] no_batch
    nameless :
        {e : Entry} {es : List Entry} {b : ClaimBatchResult V}
        → e.response_id ≡ none
        → Hydrates es b
        → Hydrates (e ∷ es) b
    dropped :
        {e : Entry} {es : List Entry} {b : ClaimBatchResult V} {id : String}
        → e.response_id ≡ some id
        → IsGone id
        → Hydrates es b
        → Hydrates (e ∷ es) b
    hydrated :
        {e : Entry} {es : List Entry} {b : ClaimBatchResult V} {id : String}
        (stored : StoredResponse V)
        → e.response_id ≡ some id
        → Answers id (ok (some stored))
        → Hydrates es b
        → Hydrates (e ∷ es) (extend (one_job (job e id autoclaimed idle_ms stored)) b)
    deferred :
        {e : Entry} {es : List Entry} {b : ClaimBatchResult V} {id : String} {x : RedisError}
        → e.response_id ≡ some id
        → Answers id (err (storage x))
        → Hydrates es b
        → Hydrates (e ∷ es) (extend (one_pending (pending_job e id autoclaimed idle_ms)) b)

abbrev pub size : {V : Type 0} → ClaimBatchResult V → ℕ
size b = length b.jobs + length b.pending_jobs

-- The two lists of deferred entries agree.
abbrev pub IsCoherent : {V : Type 0} → ClaimBatchResult V → Type 0
IsCoherent b = b.pending_stream_ids ≡ map (λ p. p.stream_id) b.pending_jobs

pub Hydrates-size :
    {V : Type 0} {Answers : String → LoadAnswer V → Type 0} {a : Bool} {i : Option ℕ}
    {es : List Entry} {b : ClaimBatchResult V}
    → Hydrates Answers a i es b
    → (size b ≤ length es) × IsCoherent b
Hydrates-size nothing = (omega arith, refl)
Hydrates-size (nameless p h) = (omega (arith, (Hydrates-size h).0), (Hydrates-size h).1)
Hydrates-size (dropped p g h) = (omega (arith, (Hydrates-size h).0), (Hydrates-size h).1)
Hydrates-size (hydrated s e l h) = (omega (arith, (Hydrates-size h).0), (Hydrates-size h).1)
Hydrates-size (deferred {e} p l h) =
    (omega (arith, (Hydrates-size h).0), ap (λ ids. e.id ∷ ids) (Hydrates-size h).1)

module _ (j : Json) (r : Redis) (s : Streams r.World) where
  open j use {Value}
  open r use {World}

  -- Whenever the effect returns, this holds of its result.
  abbrev pub Returns : {A : Type 0} → StoreM j r A → (A → Type 0) → Type 0
  Returns {A} m P = (w : World) (a : A) → (m w).0 ≡ ok a → P a

  -- The load of a record, with its retries, gave this answer.
  abbrev pub Loaded : ResponseStore → String → LoadAnswer Value → Type 0
  Loaded store id x = (w : World) × ((load_with_retries j r s store id w).0 ≡ x)

  -- What one entry adds to a batch.
  abbrev One : ResponseStore → Bool → Option ℕ → Entry → ClaimBatchResult Value → Type 0
  One store a i e b =
      (es : List Entry) (c : ClaimBatchResult Value)
      → Hydrates (Loaded store) a i es c
      → Hydrates (Loaded store) a i (e ∷ es) (extend b c)

  drop_entry-One :
      (self : BackgroundQueue) (store : ResponseStore) (group : String) (e : Entry) (id : String)
      (a : Bool) (i : Option ℕ)
      → e.response_id ≡ some id
      → IsGone (Loaded store) a i id
      → Returns (drop_entry j r s self group e) (One store a i e)
  drop_entry-One self store group e id a i p gone w b h es c hc =
      let (x, m, same) = bind-ok (ignore (acknowledge j r s self group e.id)) _ w h in
      rw (← ok-injective (rw same at h)) (dropped p gone hc)

  loaded-One :
      (self : BackgroundQueue) (store : ResponseStore) (group : String) (e : Entry) (id : String)
      (a : Bool) (i : Option ℕ) (o : Option (StoredResponse Value))
      → e.response_id ≡ some id
      → Loaded store id (ok o)
      → Returns (loaded j r s self group e id a i o) (One store a i e)
  loaded-One self store group e id a i none p l w b h es c hc =
      drop_entry-One self store group e id a i p (inl l) w b h es c hc
  loaded-One self store group e id a i (some stored) p l w b h es c hc =
      rw (← ok-injective h) (hydrated stored p l hc)

  load_failed-One :
      (self : BackgroundQueue) (store : ResponseStore) (group : String) (e : Entry) (id : String)
      (a : Bool) (i : Option ℕ) (x : StoreError)
      → e.response_id ≡ some id
      → Loaded store id (err x)
      → Returns (load_failed j r s self group e id a i x) (One store a i e)
  load_failed-One self store group e id a i (serialization t) p l w b h es c hc =
      drop_entry-One self store group e id a i p (inr (t, l)) w b h es c hc
  load_failed-One self store group e id a i (storage x) p l w b h es c hc =
      rw (← ok-injective h) (deferred p l hc)
  load_failed-One self store group e id a i (not_found t) p l w b h es c hc = ground arith
  load_failed-One self store group e id a i (invalid_argument t) p l w b h es c hc = ground arith
  load_failed-One self store group e id a i (failed_precondition t) p l w b h es c hc = ground arith
  load_failed-One self store group e id a i (unavailable t) p l w b h es c hc = ground arith

  hydrate-One :
      (self : BackgroundQueue) (store : ResponseStore) (group : String) (e : Entry) (a : Bool)
      (i : Option ℕ) (o : Option String)
      → e.response_id ≡ o
      → Returns (hydrate j r s self store group e a i o) (One store a i e)
  unfolding hydrate
  hydrate-One self store group e a i none p w b h es c hc = rw (← ok-injective h) (nameless p hc)
  hydrate-One self store group e a i (some id) p w b h es c hc =
      elim (match_result-ok (load_with_retries j r s store id) (loaded j r s self group e id a i)
        (load_failed j r s self group e id a i) w h) [
          | inl (o, m, same) ↦
              loaded-One self store group e id a i o p (w, m) _ b (rw same at h) es c hc
          | inr (x, m, same) ↦
              load_failed-One self store group e id a i x p (w, m) _ b (rw same at h) es c hc
        ]

  hydrate_all-Hydrates :
      (self : BackgroundQueue) (store : ResponseStore) (group : String) (a : Bool) (i : Option ℕ)
      (es : List Entry)
      → Returns (hydrate_all j r s self store group a i es) (Hydrates (Loaded store) a i es)
  unfolding hydrate_all
  hydrate_all-Hydrates self store group a i [] w b h = rw (← ok-injective h) nothing
  hydrate_all-Hydrates self store group a i (e ∷ es) w b h =
      let (one, m, same₁) = bind-ok (hydrate j r s self store group e a i e.response_id) _ w h in
      let h₁ = rw same₁ at h in
      let (more, n, same₂) = bind-ok (hydrate_all j r s self store group a i es) _ _ h₁ in
      rw (← ok-injective (rw same₂ at h₁)) (
        hydrate-One self store group e a i e.response_id refl w one m es more
          (hydrate_all-Hydrates self store group a i es _ more n))

  -- A batch that is returned has the read entries in their order. A claimed job has the idle time that
  -- was asked for.
  pub jobs_from_stream_ids-Hydrates :
      (self : BackgroundQueue) (store : ResponseStore) (group : String) (es : List Entry) (a : Bool)
      (i : Option ℕ)
      → Returns
          (jobs_from_stream_ids j r s self store group es a i)
          (Hydrates (Loaded store) a (if a then i else none) es)
  unfolding jobs_from_stream_ids
  jobs_from_stream_ids-Hydrates self store group es a i =
      hydrate_all-Hydrates self store group a (if a then i else none) es
