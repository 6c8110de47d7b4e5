-- ===== src/Store/Transaction.antt =====
-- crates/core/src/store.rs: the optimistic transactions, WATCH, read, MULTI, SETEX, EXEC, and the
-- loops that retry them on the dedicated connection. A stored record is changed by no other code
-- than these and the plain writes of Store/Operations.antt.
use Prim.Native.String.{◌++◌}
use responses_api_store.Common.{bind}
use responses_api_store.Common.{
  ℕ, zero, suc, String, Bool, not, ◌||◌, Option, none, some, Result, ok, map_err, map_ok,
  if◌then◌else◌,
}
use responses_api_store.Common.Int.{ℤ}
use responses_api_store.Common.Exec.{
  Exec, pure, raise, lift, map_error, match_result, ignore, ◌>>=◌, ◌>>◌,
}
use responses_api_store.Error.{
  RedisError, StoreError, not_found, invalid_argument, failed_precondition, unavailable, storage,
  serialization,
}
use responses_api_store.Record.{StoredResponse}
use responses_api_store.Serde.{Json}
use responses_api_store.Redis.{Redis, shared, transaction}
use responses_api_store.Model.{response_store_key, should_reconcile_stale, is_stale_enqueued}
use responses_api_store.Store.Prepare.{reconcile_write_ttl, apply_stale_failure}

-- The fields of `ResponseStore` that are no connection.
pub record ResponseStore : Type 0 where
  pub key_prefix : String
  pub default_ttl_seconds : ℕ
  pub stale_seconds : ℤ

unfoldable pub key : ResponseStore → String → String
key self response_id = response_store_key self.key_prefix response_id

abbrev pub max_attempts : ℕ
max_attempts = 16

module _ (j : Json) (r : Redis) where
  open j use {Value}
  open r use {World}

  -- `async fn … -> Result<A>` of the core crate
  abbrev pub StoreM : Type 0 → Type 0
  StoreM A = Exec World StoreError A

  abbrev pub redis {ℓ} : {A : Type ℓ} → Exec World RedisError A → Exec World StoreError A
  redis command = map_error storage command

  abbrev pub serde {ℓ} : {A : Type ℓ} → Result String A → Exec World StoreError A
  serde result = lift (map_err serialization result)

  -- what `transition_attempt` needs of the record, read and computed under the watch
  abbrev pub Values : Type 0 → Type 0
  Values T = StoredResponse Value × String × ℕ × T

  abbrev pub Prepare : Type 0 → Type 0
  Prepare T = StoredResponse Value → String → Result StoreError (StoredResponse Value × T)

  -- `let _ = UNWATCH`, then the error
  abbrev pub abandon : {A : Type 0} → StoreError → StoreM A
  abandon e = do ignore r.unwatch; raise e

  -- MULTI, SETEX, EXEC; false if a watched key was changed
  unfoldable pub write_back : String → String → ℕ → StoreM Bool
  write_back k payload ttl = do
    redis r.multi
    redis (r.set_ex transaction k payload ttl)
    redis r.exec

  -- the part of the attempt that talks to nobody: parse, transition, print
  unfoldable pub transition_payload :
      {T : Type 0}
      → String
      → String
      → Prepare T
      → Result StoreError ((StoredResponse Value × T) × String)
  transition_payload raw response_id prepare = bind (map_err serialization (j.decode raw)) λ stored.
      bind (prepare stored response_id)
        λ change. bind (map_err serialization (j.encode change.0)) λ payload. ok (change, payload)

  unfoldable pub transition_values :
      {T : Type 0} → ResponseStore → String → String → String → Prepare T → StoreM (Values T)
  transition_values self k raw response_id prepare = do
    made ← lift (transition_payload raw response_id prepare)
    ttl ← redis (r.ttl k)
    pure (made.0.0, made.1, reconcile_write_ttl ttl self.default_ttl_seconds, made.0.1)

  unfoldable pub commit_values :
      {T : Type 0} → String → Values T → StoreM (Option (StoredResponse Value × T))
  commit_values k v = do
    committed ← write_back k v.1 v.2
    pure (if committed then some (v.0, v.3) else none)

  unfoldable pub transition_read :
      {T : Type 0}
      → ResponseStore
      → String
      → String
      → Prepare T
      → Option String
      → StoreM (Option (StoredResponse Value × T))
  transition_read self k response_id prepare none = abandon (not_found response_id)
  transition_read self k response_id prepare (some raw) =
      match_result (transition_values self k raw response_id prepare) (commit_values k) abandon

  unfoldable pub transition_attempt :
      {T : Type 0}
      → ResponseStore
      → String
      → String
      → Prepare T
      → StoreM (Option (StoredResponse Value × T))
  transition_attempt self k response_id prepare = do
    redis (r.watch k)
    raw ← redis (r.get transaction k)
    transition_read self k response_id prepare raw

  abbrev pub discard_open_transaction : StoreM (Unit {0})
  discard_open_transaction = ignore r.discard

  abbrev pub reset_transaction_connection : StoreM (Unit {0})
  reset_transaction_connection = redis r.reconnect

  -- A conflict ends the round; the last one ends the loop.
  abbrev pub or_again : {A : Type 0} → StoreM A → Option A → StoreM A
  or_again again none = again
  or_again again (some a) = pure a

  -- `if attempt + 1 == MAX_ATTEMPTS`, with the rounds that are left after this one
  abbrev pub retry_unless_last : {A : Type 0} → ℕ → StoreError → StoreM A → StoreM A
  retry_unless_last zero e again = raise e
  retry_unless_last (suc left) e again = again

  -- A storage error resets the connection; any other error ends the loop.
  abbrev pub on_error : {A : Type 0} → ℕ → StoreM A → StoreError → StoreM A
  on_error left again (storage e) = do
    reset_transaction_connection
    retry_unless_last left (storage e) again
  on_error left again (not_found s) = raise (not_found s)
  on_error left again (invalid_argument s) = raise (invalid_argument s)
  on_error left again (failed_precondition s) = raise (failed_precondition s)
  on_error left again (unavailable s) = raise (unavailable s)
  on_error left again (serialization s) = raise (serialization s)

  -- The loop of `transition_atomic`, with the rounds that are left.
  unfoldable pub transition_loop :
      {T : Type 0} → ℕ → ResponseStore → String → Prepare T → StoreM (StoredResponse Value × T)
  transition_loop zero self response_id prepare =
      raise (unavailable ("background transition conflict retries exhausted for " ++ response_id))
  transition_loop (suc left) self response_id prepare =
      match_result
        (discard_open_transaction
          >> transition_attempt self (key self response_id) response_id prepare)
        (or_again (transition_loop left self response_id prepare))
        (on_error left (transition_loop left self response_id prepare))

  unfoldable pub transition_atomic :
      {T : Type 0} → ResponseStore → String → Prepare T → StoreM (StoredResponse Value × T)
  transition_atomic self response_id prepare = transition_loop max_attempts self response_id prepare

  unfoldable pub reconcile_values :
      ResponseStore
      → String
      → String
      → ℤ
      → ℤ
      → StoredResponse Value
      → StoreM (Option (StoredResponse Value))
  reconcile_values self k response_id now stale_seconds stored =
      if not (should_reconcile_stale j stored)
        || not (is_stale_enqueued stored.enqueued_at now stale_seconds)
      then (do ignore r.unwatch; pure (some stored))
      else let updated = apply_stale_failure j stored response_id in
        match_result (serde (j.encode updated))
          (λ payload.
            match_result (redis (r.ttl k))
              (λ ttl. do
                committed ← write_back k payload (reconcile_write_ttl ttl self.default_ttl_seconds)
                pure (if committed then some updated else none))
              abandon)
          abandon

  unfoldable pub reconcile_read :
      ResponseStore
      → String
      → String
      → ℤ
      → ℤ
      → Option String
      → StoreM (Option (StoredResponse Value))
  reconcile_read self k response_id now stale_seconds none = abandon (not_found response_id)
  reconcile_read self k response_id now stale_seconds (some raw) =
      match_result (serde (j.decode raw)) (reconcile_values self k response_id now stale_seconds)
        abandon

  unfoldable pub reconcile_stale_transaction_attempt :
      ResponseStore → String → String → ℤ → ℤ → StoreM (Option (StoredResponse Value))
  reconcile_stale_transaction_attempt self k response_id now stale_seconds = do
    redis (r.watch k)
    raw ← redis (r.get transaction k)
    reconcile_read self k response_id now stale_seconds raw

  -- The text is read as a record, if there is one.
  abbrev pub parse_stored : Option String → Result StoreError (Option (StoredResponse Value))
  parse_stored none = ok none
  parse_stored (some s) = map_ok some (map_err serialization (j.decode s))

  unfoldable pub load : ResponseStore → String → StoreM (Option (StoredResponse Value))
  load self response_id = do
    response ← redis (r.get shared (key self response_id))
    lift (parse_stored response)

  abbrev pub or_not_found : {A : Type 0} → String → Option A → StoreM A
  or_not_found response_id none = raise (not_found response_id)
  or_not_found response_id (some a) = pure a

  -- The loop of `reconcile_stale_atomic`; after the last conflict the record is read again.
  unfoldable pub reconcile_loop : ℕ → ResponseStore → String → ℤ → ℤ → StoreM (StoredResponse Value)
  reconcile_loop zero self response_id now stale_seconds = do
    reloaded ← load self response_id
    or_not_found response_id reloaded
  reconcile_loop (suc left) self response_id now stale_seconds =
      match_result
        (discard_open_transaction
          >> reconcile_stale_transaction_attempt self (key self response_id) response_id now
              stale_seconds)
        (or_again (reconcile_loop left self response_id now stale_seconds))
        (on_error left (reconcile_loop left self response_id now stale_seconds))

  unfoldable pub reconcile_stale_atomic :
      ResponseStore → String → ℤ → ℤ → StoreM (StoredResponse Value)
  reconcile_stale_atomic self response_id now stale_seconds =
      reconcile_loop max_attempts self response_id now stale_seconds
