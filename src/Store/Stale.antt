-- ===== src/Store/Stale.antt =====
-- crates/core/src/store.rs: what one attempt to reconcile a stale record writes, among other clients.
use responses_api_store.Common.{
  String, Bool, true, Option, none, some, List, ◌∷◌, ◌≡◌, sym, ap, ◌∙◌, ◌⊎◌, inl, inr, Result, ok,
  arith, Bool-cases, map_err-ok, if◌then◌else◌,
}
use responses_api_store.Common.Int.{ℤ}
use responses_api_store.Common.Exec.{
  pure, ◌>>=◌, ignore, ◌>>◌, bind-ok, match_result, match_result-ok,
}
use responses_api_store.Error.{StoreError, serialization}
use responses_api_store.Record.{StoredResponse}
use responses_api_store.Serde.{Json}
use responses_api_store.Redis.{Redis, Connection, transaction}
use responses_api_store.Redis.Watch.{WatchLaws}
use responses_api_store.Model.{should_reconcile_stale, is_stale_enqueued}
use responses_api_store.Store.Prepare.{reconcile_write_ttl, apply_stale_failure}
use responses_api_store.Store.Transaction.{
  ResponseStore, StoreM, redis, serde, abandon, write_back, reconcile_values,
}
use responses_api_store.Store.Atomic.{write_back-commits, redis-ok, raise-ne-ok}

module _ (j : Json) (r : Redis) (watch : WatchLaws r) (id : String) (now stale_seconds : ℤ) where
  open j use {Value}
  open r use {World}

  -- The key held a stale record in flight, and its failure was written over it with nothing in
  -- between.
  pub record IsFailed (k : String) (a : StoredResponse Value) (w : World) : Type 0 where
    pub stored : StoredResponse Value
    pub raw : String
    pub payload : String
    pub before : List (Option String)
    pub decoded : j.decode raw ≡ ok stored
    pub queued : should_reconcile_stale j stored ≡ true
    pub stale : is_stale_enqueued stored.enqueued_at now stale_seconds ≡ true
    pub failed : a ≡ apply_stale_failure j stored id
    pub encoded : j.encode a ≡ ok payload
    pub written : watch.history w k ≡ some payload ∷ some raw ∷ before

  -- The key held a text of this record when it was read.
  pub record IsRead (k : String) (a : StoredResponse Value) : Type 0 where
    pub connection : Connection
    pub before : World
    pub raw : String
    pub got : (r.get connection k before).0 ≡ ok (some raw)
    pub decoded : j.decode raw ≡ ok a

  abbrev pub IsReconciled : String → StoredResponse Value → World → Type 0
  IsReconciled k a w = IsFailed k a w ⊎ IsRead k a

  module _ (self : ResponseStore) (k : String) where
    some-ok :
        (b : Bool) (y : StoredResponse Value) {a : StoredResponse Value}
        → Path
            (Result StoreError (Option (StoredResponse Value)))
            (ok (if b then some y else none))
            (ok (some a))
        → (b ≡ true) × (y ≡ a)
    some-ok b y h = ground arith

    -- The write of a failure, after the time to live was read.
    abbrev write_failure :
        StoredResponse Value → String → ℤ → StoreM j r (Option (StoredResponse Value))
    write_failure updated payload t = do
      committed ← write_back j r k payload (reconcile_write_ttl t self.default_ttl_seconds)
      pure (if committed then some updated else none)

    write_failure-ok :
        (updated : StoredResponse Value) (payload : String) (t : ℤ) (w : World)
        {a : StoredResponse Value}
        → (write_failure updated payload t w).0 ≡ ok (some a)
        → watch.Watching w k
        → (updated ≡ a)
          × (u : Option String) × (before : List (Option String)) × watch.Unchanged w k u
          × (watch.history (write_failure updated payload t w).1 k ≡ some payload ∷ u ∷ before)
    write_failure-ok updated payload t w h watching =
        let (b, m, e) =
          bind-ok (write_back j r k payload (reconcile_write_ttl t self.default_ttl_seconds)) _ w
            h in
        let (yes_b, same) = some-ok b updated (rw e at h) in
        let (u, before, unchanged, hist) =
          write_back-commits j r watch k payload (reconcile_write_ttl t self.default_ttl_seconds) w
            (m ∙ ap ok yes_b) watching in
        (same, u, before, unchanged, ap (λ z. watch.history z.1 k) e ∙ hist)

    -- What an attempt returns as it is.
    abbrev let_go : StoredResponse Value → StoreM j r (Option (StoredResponse Value))
    let_go stored = do ignore r.unwatch; pure (some stored)

    let_go-ok :
        (stored : StoredResponse Value) (w : World) {a : StoredResponse Value}
        → (let_go stored w).0 ≡ ok (some a)
        → Path (Result String (StoredResponse Value)) (ok stored) (ok a)
    let_go-ok stored w h =
        let (x, m, same) = bind-ok (ignore r.unwatch) (λ _. pure (some stored)) w h in
        ap ok (some-ok true stored (rw same at h)).1

    got-IsRead :
        {raw : String} {a : StoredResponse Value} (v : World)
        → (r.get transaction k v).0 ≡ ok (some raw)
        → j.decode raw ≡ ok a
        → IsRead k a
    got-IsRead {raw} v got decoded = record {
      connection = transaction;
      before = v;
      raw = raw;
      got = got;
      decoded = decoded;
    }

    -- The part of an attempt that is for stale records.
    abbrev fail_values : StoredResponse Value → StoreM j r (Option (StoredResponse Value))
    fail_values stored =
        match_result (serde j r (j.encode (apply_stale_failure j stored id)))
          (λ payload.
            match_result (redis j r (r.ttl k))
              (write_failure (apply_stale_failure j stored id) payload) (abandon j r))
          (abandon j r)

    fail_values-ok :
        (raw : String) (stored : StoredResponse Value) (w : World) {a : StoredResponse Value}
        → j.decode raw ≡ ok stored
        → should_reconcile_stale j stored ≡ true
        → is_stale_enqueued stored.enqueued_at now stale_seconds ≡ true
        → watch.Watching w k
        → ((x : Option String) → watch.Unchanged w k x → x ≡ some raw)
        → (fail_values stored w).0 ≡ ok (some a)
        → IsFailed k a (fail_values stored w).1
    fail_values-ok raw stored w decoded queued stale watching reads h =
        let updated = apply_stale_failure j stored id in
        elim (match_result-ok (serde j r (j.encode updated))
          (λ payload.
            match_result (redis j r (r.ttl k)) (write_failure updated payload) (abandon j r))
          (abandon j r) w h) [
            | inr (e, m, same) ↦ absurd (raise-ne-ok j r watch e w (rw same at h))
            | inl (payload, m, same) ↦
                elim (match_result-ok (redis j r (r.ttl k)) (write_failure updated payload)
                  (abandon j r) w (rw same at h)) [
                    | inr (e, m₁, same₁) ↦
                        absurd (raise-ne-ok j r watch e _ (rw (same ∙ same₁) at h))
                    | inl (t, m₁, same₁) ↦
                        let got = redis-ok j r watch (r.ttl k) w m₁ in
                        let (is_a, u, before, unchanged, hist) =
                          write_failure-ok updated payload t (r.ttl k w).1 (rw (same ∙ same₁) at h)
                            (watch.ttl_keeps k w got watching) in
                        rw (same ∙ same₁) (record {
                          stored = stored;
                          raw = raw;
                          payload = payload;
                          before = before;
                          decoded = decoded;
                          queued = queued;
                          stale = stale;
                          failed = sym is_a;
                          encoded = rw (← is_a) (map_err-ok serialization (j.encode updated) m);
                          written = rw (← reads u (watch.ttl_restores k w unchanged)) hist;
                        })
                  ]
          ]

    pub reconcile_values-ok :
        (raw : String) (stored : StoredResponse Value) (w v : World) {a : StoredResponse Value}
        → (r.get transaction k v).0 ≡ ok (some raw)
        → j.decode raw ≡ ok stored
        → watch.Watching w k
        → ((x : Option String) → watch.Unchanged w k x → x ≡ some raw)
        → (reconcile_values j r self k id now stale_seconds stored w).0 ≡ ok (some a)
        → IsReconciled k a (reconcile_values j r self k id now stale_seconds stored w).1
    unfolding reconcile_values
    reconcile_values-ok raw stored w v got decoded watching reads h =
        elim (Bool-cases (should_reconcile_stale j stored)) [
          | inr never ↦ inr (got-IsRead v got (decoded ∙ let_go-ok stored w (rw never at h)))
          | inl queued ↦
              elim (Bool-cases (is_stale_enqueued stored.enqueued_at now stale_seconds)) [
                | inr fresh ↦
                    inr (got-IsRead v got (decoded ∙ let_go-ok stored w (rw (queued, fresh) at h)))
                | inl stale ↦ inl (
                    rw (queued, stale)
                      (fail_values-ok raw stored w decoded queued stale watching reads
                        (rw (queued, stale) at h)))
              ]
        ]
