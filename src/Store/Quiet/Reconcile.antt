-- ===== src/Store/Quiet/Reconcile.antt =====
-- crates/core/src/store.rs: the reconciliation of a stale record, on a server that has no other
-- client.
use responses_api_store.Common.{
  ℕ, suc, String, Bool, true, false, not, ◌||◌, Option, some, ◌≡◌, refl, ap, ◌∙◌, Result, ok, inl,
  inr, Option-cases, Bool-cases,
}
use responses_api_store.Common.Int.{ℤ}
use responses_api_store.Common.Exec.{ignore-returns, bind-returns}
use responses_api_store.Error.{StoreError, not_found}
use responses_api_store.Record.{StoredResponse}
use responses_api_store.Serde.{Json, CodecLaws}
use responses_api_store.Redis.{Redis}
use responses_api_store.Redis.Quiet.{QuietLaws, IsTtl}
use responses_api_store.Model.{should_reconcile_stale, is_stale_enqueued}
use responses_api_store.Store.Prepare.{reconcile_write_ttl, apply_stale_failure}
use responses_api_store.Store.Transaction.{
  ResponseStore, key, reconcile_values, reconcile_read, reconcile_stale_transaction_attempt,
  discard_open_transaction, reconcile_loop, reconcile_stale_atomic,
}
use responses_api_store.Store.Spec.{Records, fail_stale}
use responses_api_store.Store.Quiet.{
  IsPlain, Same, Holds, Holds-Same, Holds-Wrote, Holds-some, Holds-none, Wrote, Wrote-after, Does,
}
use responses_api_store.Store.Quiet.Attempt.{
  watched_read, write_back-quiet, reconcile_write_ttl-IsTtl, discard-quiet, abandon-quiet,
}

module _ (j : Json) (r : Redis) (quiet : QuietLaws r) (codec : CodecLaws j)
    (self : ResponseStore) where
  open j use {Value}
  open r use {World}

  module _ (positive : IsTtl self.default_ttl_seconds) (id : String) (now stale_seconds : ℤ) where
    -- The test of an attempt.
    abbrev keeps : StoredResponse Value → Bool
    keeps stored =
        not (should_reconcile_stale j stored)
        || not (is_stale_enqueued stored.enqueued_at now stale_seconds)

    values-fresh :
        (stored : StoredResponse Value) (w : World)
        → quiet.IsIdle w
        → keeps stored ≡ true
        → ((reconcile_values j r self (key self id) id now stale_seconds stored w).0
            ≡ ok (some stored))
          × Same j r quiet w
              (reconcile_values j r self (key self id) id now stale_seconds stored w).1
    unfolding reconcile_values
    values-fresh stored w idle fresh =
        rw (fresh, ignore-returns {F = StoreError} r.unwatch w (quiet.unwatch_calm w))
          (refl, record { idle = quiet.unwatch_idle w idle; view = quiet.unwatch_view w })

    values-stale :
        (stored : StoredResponse Value) (s : String) (w : World)
        → quiet.IsIdle w
        → keeps stored ≡ false
        → j.encode (apply_stale_failure j stored id) ≡ ok s
        → ((reconcile_values j r self (key self id) id now stale_seconds stored w).0
            ≡ ok (some (apply_stale_failure j stored id)))
          × Wrote j r quiet
              (key self id)
              (some s)
              w
              (reconcile_values j r self (key self id) id now stale_seconds stored w).1
    unfolding reconcile_values
    values-stale stored s w idle stale encoded =
        let (t, got, bounded) = quiet.ttl_ok (key self id) w idle in
        let w₁ : World = (r.ttl (key self id) w).1 in
        let (done, wrote) =
          write_back-quiet j r quiet (key self id) s
            (reconcile_write_ttl t self.default_ttl_seconds) w₁
            (quiet.ttl_idle (key self id) w idle)
            (reconcile_write_ttl-IsTtl t self.default_ttl_seconds bounded positive) in
        rw (stale, encoded, got, done)
          (
            refl,
            Wrote-after j r quiet
                (record {
                  idle = quiet.ttl_idle (key self id) w idle;
                  view = quiet.ttl_view (key self id) w;
                })
                wrote,
          )

    failed-IsPlain :
        (stored : StoredResponse Value) → IsPlain j r quiet (apply_stale_failure j stored id)
    unfolding apply_stale_failure
    failed-IsPlain stored e = cc

    -- What is read is failed if it is stale, and returned as it is if not.
    read_some :
        (raw : String) (stored : StoredResponse Value) (w : World) (m : Records Value)
        → j.decode raw ≡ ok stored
        → IsPlain j r quiet stored
        → Holds j r quiet self w m
        → (a : StoredResponse Value) × ((reconcile_read j r self
              (key self id)
              id
              now
              stale_seconds
              (some raw)
              w).0
            ≡ ok (some a))
          × Path
              (Result StoreError (StoredResponse Value))
              (ok a)
              (fail_stale j id now stale_seconds (some stored) m).0
          × Holds j r quiet self
              (reconcile_read j r self (key self id) id now stale_seconds (some raw) w).1
              (fail_stale j id now stale_seconds (some stored) m).1
    unfolding reconcile_read
    read_some raw stored w m decoded plain h = elim (Bool-cases (keeps stored)) [
      | inl fresh ↦
          let (e, same) = values-fresh stored w h.idle fresh in
          (
            stored,
            rw (decoded, e) refl,
            rw fresh refl,
            rw (fresh, decoded) (Holds-Same j r quiet self same h),
          )
      | inr stale ↦
          let (s, encoded) = codec.encodes (apply_stale_failure j stored id) in
          let (e, wrote) = values-stale stored s w h.idle stale encoded in
          (
            apply_stale_failure j stored id,
            rw (decoded, e) refl,
            rw stale refl,
            rw (stale, decoded)
                (Holds-Wrote j r quiet self id (some s) (some (apply_stale_failure j stored id))
                  wrote
                  (
                    codec.decode-encode (apply_stale_failure j stored id) s (failed-IsPlain stored)
                        encoded,
                    failed-IsPlain stored,
                  )
                  h),
          )
    ]

    -- The first attempt ends the loop.
    reconcile_loop-Does :
        (left : ℕ) (w : World) (m : Records Value)
        → Holds j r quiet self w m
        → Does j r quiet self
            (reconcile_loop j r (suc left) self id now stale_seconds)
            w
            (fail_stale j id now stale_seconds (m id) m)
    unfolding reconcile_loop reconcile_stale_transaction_attempt reconcile_read
    reconcile_loop-Does left w m h =
        let (dropped, same) = discard-quiet j r quiet w h.idle in
        let w₁ : World = (r.discard w).1 in
        let h₁ : Holds j r quiet self w₁ m = Holds-Same j r quiet self same h in
        let (v, kept, steps) =
          watched_read j r quiet (key self id)
            (reconcile_read j r self (key self id) id now stale_seconds) w₁ h₁.idle in
        let first =
          bind-returns (discard_open_transaction j r)
            (λ _. reconcile_stale_transaction_attempt j r self (key self id) id now stale_seconds) w
            (ap (λ x. x.0) dropped)
          ∙ ap
              (λ x.
                reconcile_stale_transaction_attempt j r self (key self id) id now stale_seconds x.1)
              dropped
          ∙ steps in
        let h₂ : Holds j r quiet self v m = Holds-Same j r quiet self kept h₁ in
        elim (Option-cases (quiet.view w₁ (key self id))) [
          | inl missing ↦
              let (end, closed) =
                abandon-quiet j r quiet {A = Option (StoredResponse Value)} (not_found id) v
                  kept.idle in
              rw (first, missing, end, Holds-none j r quiet self id h₁ missing)
                (refl, Holds-Same j r quiet self closed h₂)
          | inr (raw, held) ↦
              let (stored, here, decoded, plain) = Holds-some j r quiet self id h₁ held in
              let (a, got, meant, left_over) = read_some raw stored v m decoded plain h₂ in
              rw (first, held, here, got) (meant, left_over)
        ]

  pub reconcile_stale_atomic-Does :
      (id : String) (now stale_seconds : ℤ) (w : World) (m : Records Value)
      → IsTtl self.default_ttl_seconds
      → Holds j r quiet self w m
      → Does j r quiet self
          (reconcile_stale_atomic j r self id now stale_seconds)
          w
          (fail_stale j id now stale_seconds (m id) m)
  unfolding reconcile_stale_atomic
  reconcile_stale_atomic-Does id now stale_seconds w m positive h =
      reconcile_loop-Does positive id now stale_seconds 15 w m h
