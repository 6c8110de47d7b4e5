-- ===== src/Store/Quiet/Transition.antt =====
-- crates/core/src/store.rs: the retry loop of the background transitions, on a server that has no
-- other client. The first attempt decides.
use responses_api_store.Common.{
  ℕ, suc, String, Option, some, ◌≡◌, ◌≢◌, refl, ap, ◌∙◌, Result, ok, err, panic, inl, inr,
  Option-cases,
}
use responses_api_store.Common.Exec.{handle_result, bind-returns}
use responses_api_store.Error.{
  RedisError, StoreError, not_found, invalid_argument, failed_precondition, unavailable, storage,
  serialization,
}
use responses_api_store.Record.{StoredResponse}
use responses_api_store.Serde.{Json, CodecLaws}
use responses_api_store.Redis.{Redis}
use responses_api_store.Redis.Quiet.{QuietLaws, IsTtl}
use responses_api_store.Store.Transaction.{
  ResponseStore, key, StoreM, Prepare, transition_attempt, discard_open_transaction, or_again,
  on_error, transition_loop, transition_atomic,
}
use responses_api_store.Store.Spec.{Records, replaced, transition}
use responses_api_store.Store.Quiet.{
  IsPlain, Holds, Holds-Same, Holds-Wrote, Holds-some, Holds-none, Does,
}
use responses_api_store.Store.Quiet.Plain.{IsOrderly, keeps-ne-null}
use responses_api_store.Store.Quiet.Attempt.{After, discard-quiet, attempt_After, attempt-missing}

module _ (j : Json) (r : Redis) (quiet : QuietLaws r) (codec : CodecLaws j) where
  open j use {Value}
  open r use {World}

  module _ {T : Type 0} (self : ResponseStore) (id : String)
      (again : StoreM j r (StoredResponse Value × T)) (left : ℕ) where
    -- An attempt that has come to its end ends the loop.
    ends :
        (p : Result StoreError (StoredResponse Value × T))
        (x : Result StoreError (Option (StoredResponse Value × T)) × World) (w : World)
        (m : Records Value)
        → After j r quiet (key self id) w p x
        → ((e : RedisError) → p ≢ err (storage e))
        → ((a : StoredResponse Value × T) → p ≡ ok a → IsPlain j r quiet a.0)
        → Holds j r quiet self w m
        → ((handle_result (or_again j r again) (on_error j r left again) x.0 x.1).0
            ≡ (replaced j id p m).0)
          × Holds j r quiet self
              (handle_result (or_again j r again) (on_error j r left again) x.0 x.1).1
              (replaced j id p m).1
    ends (ok a) x w m (s, encoded, e, wrote) final plain h = rw e (
      refl,
      Holds-Wrote j r quiet self id (some s) (some a.0) wrote
          (codec.decode-encode a.0 s (plain a refl) encoded, plain a refl) h,
    )
    ends panic x w m (e, same) final plain h = rw e (refl, Holds-Same j r quiet self same h)
    ends (err (storage s)) x w m (e, same) final plain h = absurd (final s refl)
    ends (err (not_found s)) x w m (e, same) final plain h =
        rw e (refl, Holds-Same j r quiet self same h)
    ends (err (invalid_argument s)) x w m (e, same) final plain h =
        rw e (refl, Holds-Same j r quiet self same h)
    ends (err (failed_precondition s)) x w m (e, same) final plain h =
        rw e (refl, Holds-Same j r quiet self same h)
    ends (err (unavailable s)) x w m (e, same) final plain h =
        rw e (refl, Holds-Same j r quiet self same h)
    ends (err (serialization s)) x w m (e, same) final plain h =
        rw e (refl, Holds-Same j r quiet self same h)

  -- A transition does on the server what it should do to the map, in its first attempt.
  pub transition_loop-Does :
      {T : Type 0} (self : ResponseStore) (id : String) (prepare : Prepare j r T) (left : ℕ)
      (w : World) (m : Records Value)
      → IsTtl self.default_ttl_seconds
      → IsOrderly j prepare
      → Holds j r quiet self w m
      → Does j r quiet self
          (transition_loop j r (suc left) self id prepare)
          w
          (transition j id prepare (m id) m)
  unfolding transition_loop
  transition_loop-Does self id prepare left w m positive orderly h =
      let (dropped, same) = discard-quiet j r quiet w h.idle in
      let w₁ : World = (r.discard w).1 in
      let h₁ : Holds j r quiet self w₁ m = Holds-Same j r quiet self same h in
      let first =
        bind-returns (discard_open_transaction j r)
          (λ _. transition_attempt j r self (key self id) id prepare) w (ap (λ x. x.0) dropped)
        ∙ ap (λ x. transition_attempt j r self (key self id) id prepare x.1) dropped in
      elim (Option-cases (quiet.view w₁ (key self id))) [
        | inl missing ↦
            let (v, kept, e) =
              attempt-missing j r quiet codec self (key self id) id prepare positive w₁ h₁.idle
                missing in
            rw (first, e, Holds-none j r quiet self id h₁ missing)
              (refl, Holds-Same j r quiet self kept h₁)
        | inr (raw, held) ↦
            let (stored, here, decoded, plain) = Holds-some j r quiet self id h₁ held in
            rw (first, here)
              (ends self id (transition_loop j r left self id prepare) left (prepare stored id)
                (transition_attempt j r self (key self id) id prepare w₁) w₁ m
                (attempt_After j r quiet codec self (key self id) id prepare positive raw stored w₁
                  h₁.idle held decoded)
                (orderly.refuses stored id) (λ a q. keeps-ne-null j orderly stored id a q plain) h₁)
      ]

  pub transition_atomic-Does :
      {T : Type 0} (self : ResponseStore) (id : String) (prepare : Prepare j r T) (w : World)
      (m : Records Value)
      → IsTtl self.default_ttl_seconds
      → IsOrderly j prepare
      → Holds j r quiet self w m
      → Does j r quiet self
          (transition_atomic j r self id prepare)
          w
          (transition j id prepare (m id) m)
  unfolding transition_atomic
  transition_atomic-Does self id prepare w m positive orderly h =
      transition_loop-Does self id prepare 15 w m positive orderly h
