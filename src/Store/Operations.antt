-- ===== src/Store/Operations.antt =====
-- crates/core/src/store.rs: the methods of `ResponseStore`.
use responses_api_store.Common.{ℕ, String, Bool, not, Option, none, some, ok, eqb, if◌then◌else◌}
use responses_api_store.Common.Int.{ℤ}
use responses_api_store.Common.Exec.{pure, raise, ◌>>=◌}
use responses_api_store.Error.{not_found, invalid_argument}
use responses_api_store.Record.{StoredResponse}
use responses_api_store.Serde.{Json}
use responses_api_store.Redis.{Redis, shared}
use responses_api_store.Model.{
  unix_seconds_now, should_reconcile_stale, is_stale_enqueued, is_deleted_tombstone,
}
use responses_api_store.Store.Prepare.{
  ClaimBackgroundPayload, prepare_claim_background, prepare_complete_background,
  prepare_fail_background, tombstone,
}
use responses_api_store.Store.Transaction.{
  ResponseStore, key, StoreM, redis, serde, load, transition_atomic, reconcile_stale_atomic,
}

abbrev pub unwrap_or {ℓ} : {A : Type ℓ} → Option A → A → A
unwrap_or none a = a
unwrap_or (some b) a = b

module _ (j : Json) (r : Redis) where
  open j use {Value}
  open r use {World}

  unfoldable pub ping : StoreM j r (Unit {0})
  ping = redis j r r.ping

  unfoldable pub store :
      ResponseStore → String → StoredResponse Value → Option ℕ → StoreM j r (Unit {0})
  store self response_id response ttl_seconds =
      let ttl = unwrap_or ttl_seconds self.default_ttl_seconds in
      if eqb ttl 0 then raise (invalid_argument "ttl_seconds must be greater than 0") else do
        payload ← serde j r (j.encode response)
        redis j r (r.set_ex shared (key self response_id) payload ttl)

  abbrev pub now : StoreM j r ℤ
  now w = (ok (unix_seconds_now (r.clock w).0), (r.clock w).1)

  unfoldable pub reconcile_stale_response :
      ResponseStore → String → StoredResponse Value → ℤ → StoreM j r (StoredResponse Value)
  reconcile_stale_response self response_id stored stale_seconds =
      if not (should_reconcile_stale j stored) then pure stored else do
        seconds ← now
        if not (is_stale_enqueued stored.enqueued_at seconds stale_seconds)
            then pure stored
            else reconcile_stale_atomic j r self response_id seconds stale_seconds

  unfoldable pub get_found :
      ResponseStore
      → String
      → Bool
      → Option (StoredResponse Value)
      → StoreM j r (StoredResponse Value)
  get_found self response_id reconcile_stale none = raise (not_found response_id)
  get_found self response_id reconcile_stale (some stored) =
      if is_deleted_tombstone j stored
      then raise (not_found response_id)
      else if reconcile_stale
      then reconcile_stale_response self response_id stored self.stale_seconds
      else pure stored

  unfoldable pub get : ResponseStore → String → Bool → StoreM j r (StoredResponse Value)
  unfolding get_found
  get self response_id reconcile_stale = do
    found ← load j r self response_id
    get_found self response_id reconcile_stale found

  unfoldable pub update_found :
      ResponseStore
      → String
      → StoredResponse Value
      → Option ℕ
      → Option (StoredResponse Value)
      → StoreM j r (Unit {0})
  update_found self response_id response ttl_seconds none = raise (not_found response_id)
  update_found self response_id response ttl_seconds (some existing) =
      if is_deleted_tombstone j existing
      then raise (not_found response_id)
      else store self response_id response ttl_seconds

  unfoldable pub update :
      ResponseStore → String → StoredResponse Value → Option ℕ → StoreM j r (Unit {0})
  unfolding update_found
  update self response_id response ttl_seconds = do
    existing ← load j r self response_id
    update_found self response_id response ttl_seconds existing

  unfoldable pub delete : ResponseStore → String → StoreM j r (Unit {0})
  delete self response_id = redis j r (r.del (key self response_id))

  unfoldable pub claim_background_response :
      ResponseStore → String → StoreM j r (StoredResponse Value × ClaimBackgroundPayload Value)
  claim_background_response self response_id =
      transition_atomic j r self response_id (prepare_claim_background j)

  unfoldable pub complete_background_response :
      ResponseStore → String → Value → StoreM j r (StoredResponse Value)
  complete_background_response self response_id completed_response = do
    done ←
        transition_atomic j r self response_id
          (λ stored id. prepare_complete_background j stored id completed_response)
    pure done.0

  unfoldable pub fail_background_response :
      ResponseStore → String → String → StoreM j r (StoredResponse Value)
  fail_background_response self response_id error_message = do
    done ←
        transition_atomic j r self response_id
          (λ stored id. prepare_fail_background j stored id error_message)
    pure done.0

  unfoldable pub tombstone_deleted_background :
      ResponseStore → String → StoredResponse Value → StoreM j r (Unit {0})
  tombstone_deleted_background self response_id stored =
      store self response_id (tombstone j stored response_id) none
