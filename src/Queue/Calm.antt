-- ===== src/Queue/Calm.antt =====
-- crates/core/src/queue.rs: panics of the loads and of the conversion of entries to jobs.
use responses_api_store.Common.{
  ℕ, zero, suc, String, Bool, true, false, Option, none, some, List, [], ◌∷◌, ◌≢◌, refl, ok, err,
  panic, Result, map_err, map_ok, eqb, if◌then◌else◌,
}
use responses_api_store.Common.Exec.{Exec, pure, ignore}
use responses_api_store.Common.Exec.Calm.{
  NeverPanics, pure-NeverPanics, raise-NeverPanics, >>=-NeverPanics, map_error-NeverPanics,
  match_result-NeverPanics, ignore-NeverPanics,
}
use responses_api_store.Error.{
  RedisError, StoreError, not_found, invalid_argument, failed_precondition, unavailable, storage,
  serialization,
}
use responses_api_store.Record.{StoredResponse}
use responses_api_store.Serde.{Json}
use responses_api_store.Redis.{Redis, shared}
use responses_api_store.Streams.{Streams, Entry, ReadConnection}
use responses_api_store.Store.Transaction.{ResponseStore, StoreM, redis, load, key, parse_stored}
use responses_api_store.Queue.Entries.{
  BackgroundQueue, extend, no_batch, acknowledge, retry_storage, load_loop, load_with_retries,
  loaded, load_failed, drop_entry, hydrate, hydrate_all, jobs_from_stream_ids,
}

-- The client libraries report what goes wrong as an error.
pub record CalmLaws (j : Json) (r : Redis) (s : Streams r.World) : Type 0 where
  pub decode : (t : String) → j.decode t ≢ panic
  pub get : (k : String) → NeverPanics (r.get shared k)
  pub xack : (k group id : String) → NeverPanics (s.xack k group id)
  pub xautoclaim :
      (k group consumer : String) (idle : ℕ) (cursor : String) (count : ℕ)
      → NeverPanics (s.xautoclaim k group consumer idle cursor count)
  pub connect_with_timeout : (ms : ℕ) → NeverPanics (s.connect_with_timeout ms)
  pub xreadgroup :
      (c : ReadConnection) (k group consumer : String) (count : ℕ) (block : Option ℕ)
      → NeverPanics (s.xreadgroup c k group consumer count block)

module _ (j : Json) (r : Redis) (s : Streams r.World) (laws : CalmLaws j r s) where
  open j use {Value}
  open r use {World}

  pub redis-calm :
      {A : Type 0} (m : Exec World RedisError A) → NeverPanics m → NeverPanics (redis j r m)
  redis-calm m = map_error-NeverPanics storage m

  decoded-calm :
      (x : Result String (StoredResponse Value))
      → x ≢ panic
      → map_ok {E = StoreError} {A = StoredResponse Value} some (map_err serialization x) ≢ panic
  decoded-calm (ok a) n h = cc
  decoded-calm (err e) n h = cc
  decoded-calm panic n h = n refl

  parse_stored-calm : (o : Option String) → parse_stored j r o ≢ panic
  parse_stored-calm none h = cc
  parse_stored-calm (some t) h = decoded-calm (j.decode t) (laws.decode t) h

  load-NeverPanics : (store : ResponseStore) (id : String) → NeverPanics (load j r store id)
  unfolding load
  load-NeverPanics store id =
      >>=-NeverPanics (redis j r (r.get shared (key store id))) _
        (redis-calm (r.get shared (key store id)) (laws.get (key store id)))
        (λ o w. parse_stored-calm o)

  retry_storage-calm :
      {A : Type 0} (again : Option RedisError → StoreM j r A) (e : StoreError)
      → ((x : RedisError) → NeverPanics (again (some x)))
      → NeverPanics (retry_storage j r s again e)
  retry_storage-calm again (storage e) calm = calm e
  retry_storage-calm again (not_found t) calm = raise-NeverPanics (not_found t)
  retry_storage-calm again (invalid_argument t) calm = raise-NeverPanics (invalid_argument t)
  retry_storage-calm again (failed_precondition t) calm = raise-NeverPanics (failed_precondition t)
  retry_storage-calm again (unavailable t) calm = raise-NeverPanics (unavailable t)
  retry_storage-calm again (serialization t) calm = raise-NeverPanics (serialization t)

  pub if-calm :
      {A : Type 0} (b : Bool) (m n : StoreM j r A)
      → NeverPanics m
      → NeverPanics n
      → NeverPanics (if b then m else n)
  if-calm true m n hm hn = hm
  if-calm false m n hm hn = hn

  -- The rounds after a first error end in a record or an error.
  load_again-NeverPanics :
      (left : ℕ) (store : ResponseStore) (id : String) (e : RedisError)
      → NeverPanics (load_loop j r s left store id (some e))
  unfolding load_loop
  load_again-NeverPanics zero store id e = raise-NeverPanics (storage e)
  load_again-NeverPanics (suc left) store id e =
      match_result-NeverPanics (load j r store id) pure _ (load-NeverPanics store id)
        pure-NeverPanics
        (λ x.
          retry_storage-calm (load_loop j r s left store id) x
            (load_again-NeverPanics left store id))

  -- The last error is there when the rounds are over.
  pub load_with_retries-NeverPanics :
      (store : ResponseStore) (id : String) → NeverPanics (load_with_retries j r s store id)
  unfolding load_with_retries load_loop
  load_with_retries-NeverPanics store id =
      match_result-NeverPanics (load j r store id) pure _ (load-NeverPanics store id)
        pure-NeverPanics
        (λ x. retry_storage-calm (load_loop j r s 2 store id) x (load_again-NeverPanics 2 store id))

  acknowledge-NeverPanics :
      (self : BackgroundQueue) (group id : String) → NeverPanics (acknowledge j r s self group id)
  unfolding acknowledge
  acknowledge-NeverPanics self group id =
      >>=-NeverPanics (redis j r (s.xack self.stream_key group id)) _
        (redis-calm (s.xack self.stream_key group id) (laws.xack self.stream_key group id))
        (λ acked. if-calm (eqb acked 0) _ _ (raise-NeverPanics _) (pure-NeverPanics tt))

  drop_entry-NeverPanics :
      (self : BackgroundQueue) (group : String) (e : Entry)
      → NeverPanics (drop_entry j r s self group e)
  drop_entry-NeverPanics self group e =
      >>=-NeverPanics (ignore (acknowledge j r s self group e.id)) _
        (ignore-NeverPanics (acknowledge j r s self group e.id)
          (acknowledge-NeverPanics self group e.id))
        (λ _. pure-NeverPanics no_batch)

  loaded-NeverPanics :
      (self : BackgroundQueue) (group : String) (e : Entry) (id : String) (a : Bool) (i : Option ℕ)
      (o : Option (StoredResponse Value))
      → NeverPanics (loaded j r s self group e id a i o)
  loaded-NeverPanics self group e id a i none = drop_entry-NeverPanics self group e
  loaded-NeverPanics self group e id a i (some stored) = pure-NeverPanics _

  load_failed-NeverPanics :
      (self : BackgroundQueue) (group : String) (e : Entry) (id : String) (a : Bool) (i : Option ℕ)
      (x : StoreError)
      → NeverPanics (load_failed j r s self group e id a i x)
  load_failed-NeverPanics self group e id a i (serialization t) =
      drop_entry-NeverPanics self group e
  load_failed-NeverPanics self group e id a i (storage x) = pure-NeverPanics _
  load_failed-NeverPanics self group e id a i (not_found t) = raise-NeverPanics _
  load_failed-NeverPanics self group e id a i (invalid_argument t) = raise-NeverPanics _
  load_failed-NeverPanics self group e id a i (failed_precondition t) = raise-NeverPanics _
  load_failed-NeverPanics self group e id a i (unavailable t) = raise-NeverPanics _

  hydrate-NeverPanics :
      (self : BackgroundQueue) (store : ResponseStore) (group : String) (e : Entry) (a : Bool)
      (i : Option ℕ) (o : Option String)
      → NeverPanics (hydrate j r s self store group e a i o)
  unfolding hydrate
  hydrate-NeverPanics self store group e a i none = pure-NeverPanics no_batch
  hydrate-NeverPanics self store group e a i (some id) =
      match_result-NeverPanics (load_with_retries j r s store id) _ _
        (load_with_retries-NeverPanics store id) (loaded-NeverPanics self group e id a i)
        (load_failed-NeverPanics self group e id a i)

  hydrate_all-NeverPanics :
      (self : BackgroundQueue) (store : ResponseStore) (group : String) (a : Bool) (i : Option ℕ)
      (es : List Entry)
      → NeverPanics (hydrate_all j r s self store group a i es)
  unfolding hydrate_all
  hydrate_all-NeverPanics self store group a i [] = pure-NeverPanics no_batch
  hydrate_all-NeverPanics self store group a i (e ∷ es) =
      >>=-NeverPanics (hydrate j r s self store group e a i e.response_id) _
        (hydrate-NeverPanics self store group e a i e.response_id)
        λ first.
          >>=-NeverPanics (hydrate_all j r s self store group a i es) _
            (hydrate_all-NeverPanics self store group a i es)
            (λ more. pure-NeverPanics (extend first more))

  pub jobs_from_stream_ids-NeverPanics :
      (self : BackgroundQueue) (store : ResponseStore) (group : String) (es : List Entry) (a : Bool)
      (i : Option ℕ)
      → NeverPanics (jobs_from_stream_ids j r s self store group es a i)
  unfolding jobs_from_stream_ids
  jobs_from_stream_ids-NeverPanics self store group es a i =
      hydrate_all-NeverPanics self store group a (if a then i else none) es
