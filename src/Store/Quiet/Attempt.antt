-- ===== src/Store/Quiet/Attempt.antt =====
-- crates/core/src/store.rs: one attempt of a transition, on a server that has no other client.
use responses_api_store.Common.{
  ℕ, zero, suc, ◌≤◌, String, true, Option, none, some, ◌≡◌, refl, ap, ◌∙◌, Result, ok, err, panic,
  arith, map_err, bind,
}
use responses_api_store.Common.Int.{ℤ, pos, negsuc, pos_part}
use responses_api_store.Common.Exec.{ignore, ◌>>=◌, ◌>>◌, bind-returns, ignore-returns}
use responses_api_store.Error.{StoreError, not_found, storage, serialization}
use responses_api_store.Record.{StoredResponse}
use responses_api_store.Serde.{Json, CodecLaws}
use responses_api_store.Redis.{Redis, transaction}
use responses_api_store.Redis.Quiet.{QuietLaws, IsTtl, max_ttl}
use responses_api_store.Store.Prepare.{reconcile_write_ttl}
use responses_api_store.Store.Transaction.{
  ResponseStore, StoreM, Prepare, redis, abandon, write_back, transition_payload, transition_values,
  commit_values, transition_read, transition_attempt, discard_open_transaction,
}
use responses_api_store.Store.Quiet.{Same, Wrote, Same-trans, Wrote-after}

-- What is written back lives for a time that the server accepts.
pub reconcile_write_ttl-IsTtl :
    (t : ℤ) (n : ℕ) → pos_part t ≤ max_ttl → IsTtl n → IsTtl (reconcile_write_ttl t n)
unfolding reconcile_write_ttl
reconcile_write_ttl-IsTtl (pos zero) n b h = (omega arith, omega arith)
reconcile_write_ttl-IsTtl (pos (suc t)) n b h = (omega arith, b)
reconcile_write_ttl-IsTtl (negsuc t) n b h = h

module _ (j : Json) (r : Redis) (quiet : QuietLaws r) where
  open j use {Value}
  open r use {World}

  pub write_back-quiet :
      (k payload : String) (ttl : ℕ) (w : World)
      → quiet.IsIdle w
      → IsTtl ttl
      → ((write_back j r k payload ttl w).0 ≡ ok true)
        × Wrote j r quiet k (some payload) w (write_back j r k payload ttl w).1
  unfolding write_back
  write_back-quiet k payload ttl w idle positive =
      let w₁ : World = (r.multi w).1 in
      let w₂ : World = (r.set_ex transaction k payload ttl w₁).1 in
      let open₁ : quiet.IsOpen w₁ = quiet.multi_opens w idle in
      let queued : quiet.Queued w₂ k payload ttl = quiet.queue_queues k payload ttl w₁ open₁ in
      let steps =
        bind-returns (redis j r r.multi)
          (λ _. redis j r (r.set_ex transaction k payload ttl) >> redis j r r.exec) w
          (ap (map_err storage) (quiet.multi_ok w idle))
        ∙ bind-returns (redis j r (r.set_ex transaction k payload ttl)) (λ _. redis j r r.exec) w₁
            (ap (map_err storage) (quiet.queue_ok k payload ttl w₁ open₁)) in
      rw steps (
        ap (map_err storage) (quiet.exec_ok k payload ttl w₂ queued positive),
        record {
          idle = quiet.exec_idle k payload ttl w₂ queued positive;
          view = λ i.
              rw
                (
                  quiet.exec_view k payload ttl w₂ i queued positive,
                  quiet.queue_view k payload ttl w₁ i open₁,
                  quiet.multi_view w i,
                )
                refl;
        },
      )

  -- DISCARD and UNWATCH change nothing that is stored, whether they fail or not.
  pub discard-quiet :
      (w : World)
      → quiet.IsIdle w
      → (discard_open_transaction j r w ≡ (ok tt, (r.discard w).1))
        × Same j r quiet w (r.discard w).1
  discard-quiet w idle = (
    ignore-returns r.discard w (quiet.discard_calm w),
    record { idle = quiet.discard_idle w idle; view = quiet.discard_view w },
  )

  pub abandon-quiet :
      {A : Type 0} (e : StoreError) (w : World)
      → quiet.IsIdle w
      → (abandon j r {A = A} e w ≡ (err e, (r.unwatch w).1)) × Same j r quiet w (r.unwatch w).1
  abandon-quiet e w idle = (
    bind-returns (ignore r.unwatch) _ w
          (ap (λ x. x.0) (ignore-returns r.unwatch w (quiet.unwatch_calm w)))
        ∙ ap (λ x. (err e, x.1))
            (ignore-returns {F = StoreError} r.unwatch w (quiet.unwatch_calm w)),
    record { idle = quiet.unwatch_idle w idle; view = quiet.unwatch_view w },
  )

  -- WATCH and the read that follows it.
  pub watched_read :
      {A : Type 0} (k : String) (next : Option String → StoreM j r A) (w : World)
      → quiet.IsIdle w
      → (v : World) × Same j r quiet w v
        × ((redis j r (r.watch k) >> (redis j r (r.get transaction k) >>= next)) w
            ≡ next (quiet.view w k) v)
  watched_read k next w idle =
      let w₁ : World = (r.watch k w).1 in
      let idle₁ : quiet.IsIdle w₁ = quiet.watch_idle k w idle in
      (
        (r.get transaction k w₁).1,
        record {
          idle = quiet.get_idle transaction k w₁ idle₁;
          view = λ i. quiet.get_view transaction k w₁ i ∙ quiet.watch_view k w i;
        },
        rw (quiet.watch_ok k w idle, quiet.get_ok transaction k w₁ idle₁, quiet.watch_view k w k)
            refl,
      )

  -- What an attempt comes to, by the result of the transition.
  abbrev pub After :
      {T : Type 0}
      → String
      → World
      → Result StoreError (StoredResponse Value × T)
      → Result StoreError (Option (StoredResponse Value × T)) × World
      → Type 0
  After k w (ok a) (x, v) =
      (s : String) × (j.encode a.0 ≡ ok s) × (x ≡ ok (some a)) × Wrote j r quiet k (some s) w v
  After k w (err e) (x, v) = (x ≡ err e) × Same j r quiet w v
  After k w panic (x, v) = (x ≡ panic) × Same j r quiet w v

  After-Same :
      {T : Type 0} (k : String) {v w : World} (p : Result StoreError (StoredResponse Value × T))
      (x : Result StoreError (Option (StoredResponse Value × T)) × World)
      → Same j r quiet w v
      → After k v p x
      → After k w p x
  After-Same k (ok a) x same (s, encoded, e, wrote) =
      (s, encoded, e, Wrote-after j r quiet same wrote)
  After-Same k (err e) x same (q, kept) = (q, Same-trans j r quiet same kept)
  After-Same k panic x same (q, kept) = (q, Same-trans j r quiet same kept)

  payload_lem :
      {T : Type 0} (raw id : String) (prepare : Prepare j r T) (stored : StoredResponse Value)
      → j.decode raw ≡ ok stored
      → transition_payload j r raw id prepare
        ≡ bind (prepare stored id) (λ change.
          bind (map_err serialization (j.encode change.0)) λ payload. ok (change, payload))
  unfolding transition_payload
  payload_lem raw id prepare stored d = rw d refl

  module _ (codec : CodecLaws j) {T : Type 0} (self : ResponseStore) (k id : String)
      (prepare : Prepare j r T) (positive : IsTtl self.default_ttl_seconds) where
    read_After :
        (raw : String) (stored : StoredResponse Value) (w : World)
        (p : Result StoreError (StoredResponse Value × T))
        → quiet.IsIdle w
        → j.decode raw ≡ ok stored
        → prepare stored id ≡ p
        → After k w p (transition_read j r self k id prepare (some raw) w)
    unfolding transition_read transition_values commit_values
    read_After raw stored w (err e) idle d q =
        let payload : transition_payload j r raw id prepare ≡ err e =
          payload_lem raw id prepare stored d ∙ rw q refl in
        let (steps, same) = abandon-quiet {A = Option (StoredResponse Value × T)} e w idle in
        rw (payload, steps) (refl, same)
    read_After raw stored w panic idle d q =
        let payload : transition_payload j r raw id prepare ≡ panic =
          payload_lem raw id prepare stored d ∙ rw q refl in
        rw payload (refl, record { idle = idle; view = λ i. refl })
    read_After raw stored w (ok a) idle d q =
        let (s, encoded) = codec.encodes a.0 in
        let payload : transition_payload j r raw id prepare ≡ ok (a, s) =
          payload_lem raw id prepare stored d ∙ rw (q, encoded) refl in
        let (t, got, bounded) = quiet.ttl_ok k w idle in
        let w₁ : World = (r.ttl k w).1 in
        let (done, wrote) =
          write_back-quiet k s (reconcile_write_ttl t self.default_ttl_seconds) w₁
            (quiet.ttl_idle k w idle)
            (reconcile_write_ttl-IsTtl t self.default_ttl_seconds bounded positive) in
        rw (payload, got, done)
          (
            s,
            encoded,
            refl,
            Wrote-after j r quiet
                (record { idle = quiet.ttl_idle k w idle; view = quiet.ttl_view k w }) wrote,
          )

    pub attempt_After :
        (raw : String) (stored : StoredResponse Value) (w : World)
        → quiet.IsIdle w
        → quiet.view w k ≡ some raw
        → j.decode raw ≡ ok stored
        → After k w (prepare stored id) (transition_attempt j r self k id prepare w)
    unfolding transition_attempt
    attempt_After raw stored w idle held d =
        let (v, same, steps) = watched_read k (transition_read j r self k id prepare) w idle in
        rw (steps, held)
          (After-Same k (prepare stored id) (transition_read j r self k id prepare (some raw) v)
            same (read_After raw stored v (prepare stored id) same.idle d refl))

    pub attempt-missing :
        (w : World)
        → quiet.IsIdle w
        → quiet.view w k ≡ none
        → (v : World) × Same j r quiet w v
          × (transition_attempt j r self k id prepare w ≡ (err (not_found id), v))
    unfolding transition_attempt transition_read
    attempt-missing w idle held =
        let (v, same, steps) = watched_read k (transition_read j r self k id prepare) w idle in
        let (end, kept) = abandon-quiet (not_found id) v same.idle in
        ((r.unwatch v).1, Same-trans j r quiet same kept, steps ∙ rw held end)
