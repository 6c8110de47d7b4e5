-- ===== src/Store/Quiet/Plain.antt =====
-- crates/core/src/store.rs: what the transitions do to the pending request, and how they refuse.
use responses_api_store.Common.{
  String, none, some, ◌≡◌, ◌≢◌, sym, ◌∙◌, Result, ok, err, arith, inl, inr, ◌⊎◌,
}
use responses_api_store.Error.{RedisError, StoreError, storage}
use responses_api_store.Record.{StoredResponse}
use responses_api_store.Serde.{Json}
use responses_api_store.Store.Prepare.{
  ClaimBackgroundPayload, prepare_claim_background, prepare_complete_background,
  prepare_fail_background,
}

module _ (j : Json) where
  open j use {Value}

  -- A transition keeps the pending request or drops it, and never with a storage error.
  pub record IsOrderly {T : Type 0}
      (prepare : StoredResponse Value → String → Result StoreError (StoredResponse Value × T))
      : Type 0 where
    pub keeps :
        (stored : StoredResponse Value) (id : String) (a : StoredResponse Value × T)
        → prepare stored id ≡ ok a
        → (a.0.pending_upstream_request ≡ stored.pending_upstream_request)
          ⊎ (a.0.pending_upstream_request ≡ none)
    pub refuses :
        (stored : StoredResponse Value) (id : String) (e : RedisError)
        → prepare stored id ≢ err (storage e)

  claim_keeps :
      (stored : StoredResponse Value) (id : String)
      (a : StoredResponse Value × ClaimBackgroundPayload Value)
      → prepare_claim_background j stored id ≡ ok a
      → a.0.pending_upstream_request ≡ stored.pending_upstream_request
  unfolding prepare_claim_background
  claim_keeps stored id a h = ground (arith, h)

  claim_refuses :
      (stored : StoredResponse Value) (id : String) (e : RedisError)
      → prepare_claim_background j stored id ≢ err (storage e)
  unfolding prepare_claim_background
  claim_refuses stored id e h = ground (arith, h)

  pub claim-IsOrderly : IsOrderly (prepare_claim_background j)
  claim-IsOrderly = record {
    keeps = λ stored id a h. inl (claim_keeps stored id a h);
    refuses = claim_refuses;
  }

  complete_drops :
      (v : Value) (stored : StoredResponse Value) (id : String)
      (a : StoredResponse Value × Unit {0})
      → prepare_complete_background j stored id v ≡ ok a
      → a.0.pending_upstream_request ≡ none
  unfolding prepare_complete_background
  complete_drops v stored id a h = ground (arith, h)

  complete_refuses :
      (v : Value) (stored : StoredResponse Value) (id : String) (e : RedisError)
      → prepare_complete_background j stored id v ≢ err (storage e)
  unfolding prepare_complete_background
  complete_refuses v stored id e h = ground (arith, h)

  pub complete-IsOrderly :
      (v : Value) → IsOrderly (λ stored id. prepare_complete_background j stored id v)
  complete-IsOrderly v = record {
    keeps = λ stored id a h. inr (complete_drops v stored id a h);
    refuses = complete_refuses v;
  }

  fail_drops :
      (message : String) (stored : StoredResponse Value) (id : String)
      (a : StoredResponse Value × Unit {0})
      → prepare_fail_background j stored id message ≡ ok a
      → a.0.pending_upstream_request ≡ none
  unfolding prepare_fail_background
  fail_drops message stored id a h = ground (arith, h)

  fail_refuses :
      (message : String) (stored : StoredResponse Value) (id : String) (e : RedisError)
      → prepare_fail_background j stored id message ≢ err (storage e)
  unfolding prepare_fail_background
  fail_refuses message stored id e h = ground (arith, h)

  pub fail-IsOrderly :
      (message : String) → IsOrderly (λ stored id. prepare_fail_background j stored id message)
  fail-IsOrderly message = record {
    keeps = λ stored id a h. inr (fail_drops message stored id a h);
    refuses = fail_refuses message;
  }

  -- The result of an orderly transition of a record with no `null` for its request has none either.
  pub keeps-ne-null :
      {T : Type 0}
      {prepare : StoredResponse Value → String → Result StoreError (StoredResponse Value × T)}
      → IsOrderly prepare
      → (stored : StoredResponse Value) (id : String) (a : StoredResponse Value × T)
      → prepare stored id ≡ ok a
      → stored.pending_upstream_request ≢ some j.null
      → a.0.pending_upstream_request ≢ some j.null
  keeps-ne-null orderly stored id a h plain n = elim (orderly.keeps stored id a h) [
    | inl same ↦ plain (sym same ∙ n)
    | inr gone ↦ cc
  ]
