-- ===== src/Store/Reconciled.antt =====
-- crates/core/src/store.rs: what the reconciliation of a stale record returns, among other clients.
use responses_api_store.Common.{
  ℕ, zero, suc, String, Option, none, some, ◌≡◌, ap, ◌∙◌, inl, inr, ok, arith, map_err-ok,
  ok-injective,
}
use responses_api_store.Common.Int.{ℤ}
use responses_api_store.Common.Exec.{◌>>=◌, bind-ok, match_result-ok}
use responses_api_store.Error.{not_found, serialization}
use responses_api_store.Record.{StoredResponse}
use responses_api_store.Serde.{Json}
use responses_api_store.Redis.{Redis, shared, transaction}
use responses_api_store.Redis.Watch.{WatchLaws}
use responses_api_store.Store.Transaction.{
  ResponseStore, key, redis, serde, abandon, load, or_not_found, reconcile_values, reconcile_read,
  reconcile_stale_transaction_attempt, reconcile_loop, reconcile_stale_atomic,
}
use responses_api_store.Store.Reads.{load-text}
use responses_api_store.Store.Retry.{Ensures, round-Ensures}
use responses_api_store.Store.Stale.{IsRead, IsReconciled, reconcile_values-ok}
use responses_api_store.Store.Atomic.{redis-ok, raise-ne-ok}

module _ (j : Json) (r : Redis) (watch : WatchLaws r) (id : String) (now stale_seconds : ℤ) where
  open j use {Value}
  open r use {World}

  module _ (self : ResponseStore) (k : String) where
    reconcile_read-ok :
        (o : Option String) (w v : World) {a : StoredResponse Value}
        → (r.get transaction k v).0 ≡ ok o
        → watch.Watching w k
        → ((x : Option String) → watch.Unchanged w k x → x ≡ o)
        → (reconcile_read j r self k id now stale_seconds o w).0 ≡ ok (some a)
        → IsReconciled j r watch id now stale_seconds k a
            (reconcile_read j r self k id now stale_seconds o w).1
    unfolding reconcile_read
    reconcile_read-ok none w v got watching reads h =
        absurd (raise-ne-ok j r watch (not_found id) w h)
    reconcile_read-ok (some raw) w v got watching reads h =
        elim (match_result-ok (serde j r (j.decode raw))
          (reconcile_values j r self k id now stale_seconds) (abandon j r) w h) [
            | inr (e, m, same) ↦ absurd (raise-ne-ok j r watch e w (rw same at h))
            | inl (stored, m, same) ↦ rw same (
                reconcile_values-ok j r watch id now stale_seconds self k raw stored w v got
                  (map_err-ok serialization (j.decode raw) m) watching reads (rw same at h))
          ]

    attempt-ok :
        (w : World) (a : StoredResponse Value)
        → (reconcile_stale_transaction_attempt j r self k id now stale_seconds w).0 ≡ ok (some a)
        → IsReconciled j r watch id now stale_seconds k a
            (reconcile_stale_transaction_attempt j r self k id now stale_seconds w).1
    unfolding reconcile_stale_transaction_attempt
    attempt-ok w a h =
        let (x, m, e₁) = bind-ok (redis j r (r.watch k)) _ w h in
        let w₁ : World = (r.watch k w).1 in
        let (o, g, e₂) = bind-ok (redis j r (r.get transaction k)) _ w₁ (rw e₁ at h) in
        let got : (r.get transaction k w₁).0 ≡ ok o =
          redis-ok j r watch (r.get transaction k) w₁ g in
        rw (e₁ ∙ e₂) (
          reconcile_read-ok o (r.get transaction k w₁).1 w₁ got
            (watch.get_keeps k w₁ got (watch.watch_begins k w (redis-ok j r watch (r.watch k) w m)))
            (λ y unchanged. watch.get_reads k w₁ got unchanged) (rw (e₁ ∙ e₂) at h))

  module _ (self : ResponseStore) where
    -- After the last conflict the record is read once more.
    reload-ok :
        (w : World) (a : StoredResponse Value)
        → ((load j r self id >>= or_not_found j r id) w).0 ≡ ok a
        → IsRead j r watch id now stale_seconds (key self id) a
    reload-ok w a h =
        let (o, m, same) = bind-ok (load j r self id) (or_not_found j r id) w h in
        loaded o (load j r self id w).1 m (rw same at h)
      where
        loaded :
            (o : Option (StoredResponse Value)) (u : World)
            → (load j r self id w).0 ≡ ok o
            → (or_not_found j r id o u).0 ≡ ok a
            → IsRead j r watch id now stale_seconds (key self id) a
        loaded none u m h = ground (arith, h)
        loaded (some b) u m h =
            let (raw, got, decoded) = load-text j r self id w b m in
            record {
              connection = shared;
              before = w;
              raw = raw;
              got = got;
              decoded = decoded ∙ ap ok (ok-injective h);
            }

    reconcile_loop-Ensures :
        (rounds : ℕ)
        → Ensures j r
            (IsReconciled j r watch id now stale_seconds (key self id))
            (reconcile_loop j r rounds self id now stale_seconds)
    unfolding reconcile_loop
    reconcile_loop-Ensures zero w a h = inr (reload-ok w a h)
    reconcile_loop-Ensures (suc left) w a h =
        round-Ensures j r (IsReconciled j r watch id now stale_seconds (key self id)) left
          (reconcile_stale_transaction_attempt j r self (key self id) id now stale_seconds)
          (reconcile_loop j r left self id now stale_seconds) (attempt-ok self (key self id))
          (reconcile_loop-Ensures left) w a h

    -- When the reconciliation of a stale record returns a record, either the key held a text of a
    -- record in flight that is queued and stale, the result is its failure, and the encoded
    -- failure was written directly over that text, whatever the other clients did; or the key
    -- held a text of the returned record when it was read; under the documented behaviour of
    -- WATCH, MULTI and EXEC.
    pub reconcile_stale_atomic-IsReconciled :
        (w : World) (a : StoredResponse Value)
        → (reconcile_stale_atomic j r self id now stale_seconds w).0 ≡ ok a
        → IsReconciled j r watch id now stale_seconds
            (key self id)
            a
            (reconcile_stale_atomic j r self id now stale_seconds w).1
    unfolding reconcile_stale_atomic
    reconcile_stale_atomic-IsReconciled = reconcile_loop-Ensures 16
