-- ===== src/Store/Atomic.antt =====
-- crates/core/src/store.rs: one attempt of a transition, among other clients.
use responses_api_store.Common.{if◌then◌else◌}
use responses_api_store.Store.Transaction.{transition_payload}
use responses_api_store.Common.Int.{ℤ}
use responses_api_store.Common.{three-ok, ok-injective}
use responses_api_store.Common.Exec.{lift}
use responses_api_store.Error.{RedisError}
use responses_api_store.Common.{
  ℕ, String, true, Option, none, some, List, ◌∷◌, ◌≡◌, ap, ◌∙◌, sym, inl, inr, Result, ok, arith,
  map_err-ok, Bool, map_err,
}
use responses_api_store.Common.Exec.{Exec, ◌>>◌, bind-ok, match_result-ok}
use responses_api_store.Error.{StoreError, not_found, storage, serialization}
use responses_api_store.Record.{StoredResponse}
use responses_api_store.Serde.{Json}
use responses_api_store.Redis.{Redis, transaction}
use responses_api_store.Redis.Watch.{WatchLaws}
use responses_api_store.Store.Prepare.{reconcile_write_ttl}
use responses_api_store.Store.Transaction.{
  ResponseStore, Values, Prepare, redis, abandon, write_back, transition_values, commit_values,
  transition_read, transition_attempt,
}

module _ (j : Json) (r : Redis) (watch : WatchLaws r) where
  open j use {Value}
  open r use {World}

  pub redis-ok :
      {A : Type 0} (m : Exec World RedisError A) (w : World) {a : A}
      → (redis j r m w).0 ≡ ok a
      → (m w).0 ≡ ok a
  redis-ok m w h = map_err-ok storage (m w).0 h

  -- A write-back that succeeds finds the key as it was when it was watched.
  pub write_back-commits :
      (k payload : String) (ttl : ℕ) (w : World)
      → (write_back j r k payload ttl w).0 ≡ ok true
      → watch.Watching w k
      → (u : Option String) × (before : List (Option String)) × watch.Unchanged w k u
        × (watch.history (write_back j r k payload ttl w).1 k ≡ some payload ∷ u ∷ before)
  unfolding write_back
  write_back-commits k payload ttl w h watching =
      let (a, m, e₁) = bind-ok (redis j r r.multi) _ w h in
      let w₁ : World = (r.multi w).1 in
      let m' : (r.multi w).0 ≡ ok tt = redis-ok r.multi w m in
      let h₁ : ((redis j r (r.set_ex transaction k payload ttl) >> redis j r r.exec) w₁).0
          ≡ ok true =
        rw e₁ at h in
      let (b, s, e₂) = bind-ok (redis j r (r.set_ex transaction k payload ttl)) _ w₁ h₁ in
      let w₂ : World = (r.set_ex transaction k payload ttl w₁).1 in
      let s' : (r.set_ex transaction k payload ttl w₁).0 ≡ ok tt =
        redis-ok (r.set_ex transaction k payload ttl) w₁ s in
      let h₂ : (redis j r r.exec w₂).0 ≡ ok true = rw e₂ at h₁ in
      let open₁ : watch.InMulti w₁ = watch.multi_opens w m' in
      let (u, before, unchanged, hist) =
        watch.exec_commits k payload ttl w₂ (redis-ok r.exec w₂ h₂)
          (watch.set_ex_keeps k payload ttl w₁ s' open₁ (watch.multi_keeps k w m' watching))
          (watch.set_ex_queues k payload ttl w₁ s' open₁) in
      (
        u,
        before,
        watch.multi_restores k w (watch.set_ex_restores k payload ttl w₁ open₁ unchanged),
        ap (λ (z : Result StoreError Bool × World). watch.history z.1 k) (e₁ ∙ e₂) ∙ hist,
      )

  -- What the values of an attempt rest on: the record that was read, while the watch is kept.
  record IsReadFrom {T : Type 0} (k raw id : String) (prepare : Prepare j r T) (v : Values j r T)
      (w u : World) : Type 0 where
    stored : StoredResponse Value
    decoded : j.decode raw ≡ ok stored
    prepared : prepare stored id ≡ ok (v.0, v.3)
    encoded : j.encode v.0 ≡ ok v.1
    watching : watch.Watching u k
    restores : (x : Option String) → watch.Unchanged u k x → watch.Unchanged w k x

  transition_payload-ok :
      {T : Type 0} (raw id : String) (prepare : Prepare j r T)
      {x : (StoredResponse Value × T) × String}
      → transition_payload j r raw id prepare ≡ ok x
      → (stored : StoredResponse Value) × (j.decode raw ≡ ok stored)
        × (prepare stored id ≡ ok x.0)
        × (j.encode x.0.0 ≡ ok x.1)
  unfolding transition_payload
  transition_payload-ok raw id prepare {x} h =
      let (stored, d, p, e) =
        three-ok (map_err serialization (j.decode raw)) (λ stored. prepare stored id)
          (λ change. map_err serialization (j.encode change.0)) h in
      (
        stored,
        map_err-ok serialization (j.decode raw) d,
        p,
        map_err-ok serialization (j.encode x.0.0) e,
      )

  ttl-IsReadFrom :
      {T : Type 0} (self : ResponseStore) (k raw id : String) (prepare : Prepare j r T) (w : World)
      (made : (StoredResponse Value × T) × String) (t : ℤ)
      → transition_payload j r raw id prepare ≡ ok made
      → (r.ttl k w).0 ≡ ok t
      → watch.Watching w k
      → IsReadFrom k raw id prepare
          (made.0.0, made.1, reconcile_write_ttl t self.default_ttl_seconds, made.0.1)
          w
          (r.ttl k w).1
  ttl-IsReadFrom self k raw id prepare w made t made_ok ttl_ok watching =
      let (stored, d, p, e) = transition_payload-ok raw id prepare made_ok in
      record {
        stored = stored;
        decoded = d;
        prepared = p;
        encoded = e;
        watching = watch.ttl_keeps k w ttl_ok watching;
        restores = λ x u. watch.ttl_restores k w u;
      }

  transition_values-ok :
      {T : Type 0} (self : ResponseStore) (k raw id : String) (prepare : Prepare j r T) (w : World)
      {v : Values j r T}
      → (transition_values j r self k raw id prepare w).0 ≡ ok v
      → watch.Watching w k
      → IsReadFrom k raw id prepare v w (transition_values j r self k raw id prepare w).1
  unfolding transition_values
  transition_values-ok self k raw id prepare w {v} h watching =
      let (made, m, e₁) = bind-ok (lift (transition_payload j r raw id prepare)) _ w h in
      let (t, m₂, e₂) = bind-ok (redis j r (r.ttl k)) _ w (rw e₁ at h) in
      rw (← ok-injective (ap (λ z. z.0) (sym (e₁ ∙ e₂)) ∙ h), e₁ ∙ e₂)
        (ttl-IsReadFrom self k raw id prepare w made t m (redis-ok (r.ttl k) w m₂) watching)

  -- The key held a record that the transition accepts, and the transition's result was written over
  -- it with nothing in between.
  pub record IsCommitted {T : Type 0} (k id : String) (prepare : Prepare j r T)
      (a : StoredResponse Value × T) (w : World) : Type 0 where
    pub stored : StoredResponse Value
    pub raw : String
    pub payload : String
    pub before : List (Option String)
    pub decoded : j.decode raw ≡ ok stored
    pub prepared : prepare stored id ≡ ok a
    pub encoded : j.encode a.0 ≡ ok payload
    pub written : watch.history w k ≡ some payload ∷ some raw ∷ before

  written-IsCommitted :
      {T : Type 0} {k raw id : String} {prepare : Prepare j r T} {v : Values j r T} {w u : World}
      → IsReadFrom k raw id prepare v w u
      → ((x : Option String) → watch.Unchanged w k x → x ≡ some raw)
      → (write_back j r k v.1 v.2 u).0 ≡ ok true
      → IsCommitted k id prepare (v.0, v.3) (write_back j r k v.1 v.2 u).1
  written-IsCommitted {k} {v} {u} h reads done =
      let (x, before, unchanged, hist) = write_back-commits k v.1 v.2 u done h.watching in
      record {
        stored = h.stored;
        raw = _;
        payload = v.1;
        before = before;
        decoded = h.decoded;
        prepared = h.prepared;
        encoded = h.encoded;
        written = rw (← reads x (h.restores x unchanged)) hist;
      }

  committed-cases :
      {T : Type 0} (b : Bool) (y : StoredResponse Value × T) {a : StoredResponse Value × T}
      → Path
          (Result StoreError (Option (StoredResponse Value × T)))
          (ok (if b then some y else none))
          (ok (some a))
      → (b ≡ true) × (y ≡ a)
  committed-cases b y h = ground arith

  commit_values-ok :
      {T : Type 0} {k raw id : String} {prepare : Prepare j r T} (v : Values j r T) {w : World}
      (u : World) {a : StoredResponse Value × T}
      → IsReadFrom k raw id prepare v w u
      → ((x : Option String) → watch.Unchanged w k x → x ≡ some raw)
      → (commit_values j r k v u).0 ≡ ok (some a)
      → IsCommitted k id prepare a (commit_values j r k v u).1
  unfolding commit_values
  commit_values-ok {k} v u h reads done =
      let (b, m, e) = bind-ok (write_back j r k v.1 v.2) _ u done in
      let (yes_b, same) = committed-cases b (v.0, v.3) (rw e at done) in
      rw (← same, e) (written-IsCommitted h reads (m ∙ ap ok yes_b))

  pub raise-ne-ok :
      {A : Type 0} (e : StoreError) (w : World) {a : A} → (abandon j r e w).0 ≡ ok a → ⊥
  raise-ne-ok e w h = ground arith

  transition_read-ok :
      {T : Type 0} (self : ResponseStore) (k id : String) (prepare : Prepare j r T)
      (o : Option String) (w : World) {a : StoredResponse Value × T}
      → watch.Watching w k
      → ((x : Option String) → watch.Unchanged w k x → x ≡ o)
      → (transition_read j r self k id prepare o w).0 ≡ ok (some a)
      → IsCommitted k id prepare a (transition_read j r self k id prepare o w).1
  unfolding transition_read
  transition_read-ok self k id prepare none w watching reads h =
      absurd (raise-ne-ok (not_found id) w h)
  transition_read-ok self k id prepare (some raw) w watching reads h =
      elim (match_result-ok (transition_values j r self k raw id prepare) (commit_values j r k)
        (abandon j r) w h) [
          | inl (v, m, e) ↦ rw e (
              commit_values-ok v _ (transition_values-ok self k raw id prepare w m watching) reads
                (rw e at h))
          | inr (x, m, e) ↦ absurd (raise-ne-ok x _ (rw e at h))
        ]

  pub transition_attempt-ok :
      {T : Type 0} (self : ResponseStore) (k id : String) (prepare : Prepare j r T) (w : World)
      {a : StoredResponse Value × T}
      → (transition_attempt j r self k id prepare w).0 ≡ ok (some a)
      → IsCommitted k id prepare a (transition_attempt j r self k id prepare w).1
  unfolding transition_attempt
  transition_attempt-ok self k id prepare w h =
      let (x, m, e₁) = bind-ok (redis j r (r.watch k)) _ w h in
      let (o, g, e₂) = bind-ok (redis j r (r.get transaction k)) _ (r.watch k w).1 (rw e₁ at h) in
      let got : (r.get transaction k (r.watch k w).1).0 ≡ ok o =
        redis-ok (r.get transaction k) (r.watch k w).1 g in
      rw (e₁ ∙ e₂) (
        transition_read-ok self k id prepare o (r.get transaction k (r.watch k w).1).1
          (watch.get_keeps k (r.watch k w).1 got
            (watch.watch_begins k w (redis-ok (r.watch k) w m)))
          (λ y unchanged. watch.get_reads k (r.watch k w).1 got unchanged) (rw (e₁ ∙ e₂) at h))
