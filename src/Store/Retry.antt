-- ===== src/Store/Retry.antt =====
-- crates/core/src/store.rs: the two retry loops have one shape. What each attempt ensures, when it
-- returns a result, the loop ensures.
use responses_api_store.Common.{
  ℕ, zero, suc, Option, none, some, ◌≡◌, refl, ap, ◌∙◌, ok, arith, inl, inr, ok-injective,
}
use responses_api_store.Common.Exec.{◌>>◌, bind-ok, match_result, match_result-ok}
use responses_api_store.Error.{
  StoreError, not_found, invalid_argument, failed_precondition, unavailable, storage, serialization,
}
use responses_api_store.Serde.{Json}
use responses_api_store.Redis.{Redis}
use responses_api_store.Store.Transaction.{
  StoreM, discard_open_transaction, reset_transaction_connection, retry_unless_last, or_again,
  on_error,
}

module _ (j : Json) (r : Redis) {A : Type 0} (Good : A → r.World → Type 0) where
  open r use {World}

  -- Whenever the effect returns, its result is good in the world that it leaves.
  abbrev pub Ensures : StoreM j r A → Type 0
  Ensures m = (w : World) (a : A) → (m w).0 ≡ ok a → Good a (m w).1

  retry_unless_last-Ensures :
      (left : ℕ) (e : StoreError) (again : StoreM j r A)
      → Ensures again
      → Ensures (retry_unless_last j r left e again)
  retry_unless_last-Ensures zero e again ih w a h = ground arith
  retry_unless_last-Ensures (suc left) e again ih w a h = ih w a h

  on_error-Ensures :
      (left : ℕ) (again : StoreM j r A) (e : StoreError)
      → Ensures again
      → Ensures (on_error j r left again e)
  on_error-Ensures left again (storage e) ih w a h =
      let (x, m, same) = bind-ok (reset_transaction_connection j r) _ w h in
      rw same (retry_unless_last-Ensures left (storage e) again ih _ a (rw same at h))
  on_error-Ensures left again (not_found s) ih w a h = ground arith
  on_error-Ensures left again (invalid_argument s) ih w a h = ground arith
  on_error-Ensures left again (failed_precondition s) ih w a h = ground arith
  on_error-Ensures left again (unavailable s) ih w a h = ground arith
  on_error-Ensures left again (serialization s) ih w a h = ground arith

  or_again-Ensures :
      (again : StoreM j r A) (o : Option A) (w : World) (a : A)
      → Ensures again
      → ((b : A) → o ≡ some b → Good b w)
      → (or_again j r again o w).0 ≡ ok a
      → Good a (or_again j r again o w).1
  or_again-Ensures again none w a ih done h = ih w a h
  or_again-Ensures again (some b) w a ih done h = rw (← ok-injective h) (done b refl)

  -- One round of a loop, over the rounds that follow.
  pub round-Ensures :
      (left : ℕ) (attempt : StoreM j r (Option A)) (again : StoreM j r A)
      → ((w : World) (a : A) → (attempt w).0 ≡ ok (some a) → Good a (attempt w).1)
      → Ensures again
      → Ensures (
          match_result
            (discard_open_transaction j r >> attempt)
            (or_again j r again)
            (on_error j r left again))
  round-Ensures left attempt again good ih w a h =
      elim (match_result-ok (discard_open_transaction j r >> attempt) (or_again j r again)
        (on_error j r left again) w h) [
          | inl (o, m, same) ↦
              rw same (or_again-Ensures again o _ a ih (λ b e. attempted o b m e) (rw same at h))
          | inr (e, m, same) ↦ rw same (on_error-Ensures left again e ih _ a (rw same at h))
        ]
    where
      attempted :
          (o : Option A) (b : A)
          → ((discard_open_transaction j r >> attempt) w).0 ≡ ok o
          → o ≡ some b
          → Good b ((discard_open_transaction j r >> attempt) w).1
      attempted o b m e =
          let (x, d, same) = bind-ok (discard_open_transaction j r) (λ _. attempt) w m in
          rw same (good _ b ((rw same at m) ∙ ap ok e))
