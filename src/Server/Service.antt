-- ===== src/Server/Service.antt =====
-- crates/server/src/service.rs: the handlers of the responses. A request's fields are the arguments.
use Prim.Native.String.{◌++◌}
use responses_api_store.Common.{
  ℕ, String, Bool, false, not, Option, none, some, Result, ok, err, eqb, if◌then◌else◌,
}
use responses_api_store.Common.Int.{ℤ, pos, leb_ℤ}
use responses_api_store.Common.Text.{is_blank}
use responses_api_store.Common.Exec.{Exec, pure, raise, lift, map_error, match_result, ◌>>=◌, ◌>>◌}
use responses_api_store.Record.{StoredResponse}
use responses_api_store.Serde.{Json}
use responses_api_store.Redis.{Redis}
use responses_api_store.Streams.{Streams}
use responses_api_store.Model.{is_in_flight_background}
use responses_api_store.Store.Transaction.{ResponseStore, StoreM}
use responses_api_store.Store.Operations
use responses_api_store.Store.Operations.{tombstone_deleted_background, now}
use responses_api_store.Queue.Entries.{BackgroundQueue, enqueue}
use responses_api_store.Server.Convert.{
  Status, status, invalid_argument_code, ProtoStoredResponse, map_store_error, proto_to_core,
  core_to_proto, parse_json, print_json,
}

pub record ResponsesApiStoreService : Type 0 where
  pub store : ResponseStore
  pub queue : BackgroundQueue
  pub default_stale_seconds : ℤ

unfoldable pub ttl_from_request : ℕ → Option ℕ
ttl_from_request ttl_seconds = if eqb ttl_seconds 0 then none else some ttl_seconds

abbrev pub required : String → Status
required message = status invalid_argument_code message

unfoldable pub require_record : Option ProtoStoredResponse → Result Status ProtoStoredResponse
require_record none = err (required "record.response_id is required")
require_record (some message) =
    if is_blank message.response_id
    then err (required "record.response_id is required")
    else ok message

-- The answer to ClaimBackgroundResponse.
pub record ClaimedResponse : Type 0 where
  pub message : ProtoStoredResponse
  pub upstream : String
  pub pending_upstream_request_json : String
  pub upstream_authorization : Option String

module _ (j : Json) (r : Redis) (s : Streams r.World) where
  open j use {Value}
  open r use {World}

  abbrev pub Handler : Type 0 → Type 0
  Handler A = Exec World Status A

  -- `.map_err(|err| map_store_error(…, err))`
  abbrev pub call : {A : Type 0} → StoreM j r A → Handler A
  call m = map_error map_store_error m

  abbrev pub require : String → String → Handler (Unit {0})
  require text message = if is_blank text then raise (required message) else pure tt

  unfoldable pub store_response :
      ResponsesApiStoreService → Option ProtoStoredResponse → ℕ → Handler (Unit {0})
  store_response self message ttl_seconds = do
    m ← lift (require_record message)
    core ← lift (proto_to_core j m)
    call (Operations.store j r self.store m.response_id core (ttl_from_request ttl_seconds))

  unfoldable pub get_response :
      ResponsesApiStoreService → String → Bool → Handler ProtoStoredResponse
  get_response self response_id reconcile_stale = do
    require response_id "response_id is required"
    stored ← call (Operations.get j r self.store response_id reconcile_stale)
    lift (core_to_proto j response_id stored)

  unfoldable pub update_response :
      ResponsesApiStoreService → Option ProtoStoredResponse → ℕ → Handler (Unit {0})
  update_response self message ttl_seconds = do
    m ← lift (require_record message)
    core ← lift (proto_to_core j m)
    call (Operations.update j r self.store m.response_id core (ttl_from_request ttl_seconds))

  abbrev pub hard_delete : ResponsesApiStoreService → String → Handler (Unit {0})
  hard_delete self response_id = call (Operations.delete j r self.store response_id)

  abbrev pub delete_stored :
      ResponsesApiStoreService → String → StoredResponse Value → Handler (Unit {0})
  delete_stored self response_id stored =
      if is_in_flight_background j stored
      then call (tombstone_deleted_background j r self.store response_id stored)
      else hard_delete self response_id

  -- Whatever error the read ends in, the key is deleted.
  unfoldable pub delete_response : ResponsesApiStoreService → String → Handler (Unit {0})
  delete_response self response_id = do
    require response_id "response_id is required"
    match_result (Operations.get j r self.store response_id false) (delete_stored self response_id)
        (λ _. hard_delete self response_id)

  unfoldable pub enqueue_background_job :
      ResponsesApiStoreService → Option ProtoStoredResponse → Handler (Unit {0})
  enqueue_background_job self message = do
    m ← lift (require_record message)
    core ← lift (proto_to_core j m)
    seconds ← call (now j r)
    call (
        Operations.store j r self.store m.response_id (record core { enqueued_at = some seconds })
          none)
    call (enqueue j r s self.queue m.response_id)

  unfoldable pub claim_background_response :
      ResponsesApiStoreService → String → Handler ClaimedResponse
  claim_background_response self response_id = do
    require response_id "response_id is required"
    claimed ← call (Operations.claim_background_response j r self.store response_id)
    pending ← lift (
        print_json j "failed to serialize pending_upstream_request for " response_id
          claimed.1.pending_upstream_request)
    message ← lift (core_to_proto j response_id claimed.0)
    pure (record {
      message = message;
      upstream = claimed.1.upstream;
      pending_upstream_request_json = pending;
      upstream_authorization = claimed.1.upstream_authorization;
    })

  abbrev pub require_object : String → Value → Handler (Unit {0})
  require_object response_id value =
      if j.is_object value
      then pure tt
      else raise (required ("response_json for " ++ (response_id ++ " must be a JSON object")))

  unfoldable pub complete_background_response :
      ResponsesApiStoreService → String → String → Handler ProtoStoredResponse
  complete_background_response self response_id response_json = do
    require response_id "response_id is required"
    require response_json "response_json is required"
    completed ← lift (parse_json j "invalid response_json for " response_id response_json)
    require_object response_id completed
    stored ← call (Operations.complete_background_response j r self.store response_id completed)
    lift (core_to_proto j response_id stored)

  unfoldable pub fail_background_response :
      ResponsesApiStoreService → String → String → Handler ProtoStoredResponse
  fail_background_response self response_id error_message = do
    require response_id "response_id is required"
    require error_message "error_message is required"
    stored ← call (Operations.fail_background_response j r self.store response_id error_message)
    lift (core_to_proto j response_id stored)

  abbrev pub stale_or_default : ResponsesApiStoreService → ℤ → ℤ
  stale_or_default self stale_seconds =
      if leb_ℤ stale_seconds (pos 0) then self.default_stale_seconds else stale_seconds

  -- `same` compares two records (`PartialEq`).
  unfoldable pub reconcile_stale_response :
      (StoredResponse Value → StoredResponse Value → Bool)
      → ResponsesApiStoreService
      → String
      → ℤ
      → Handler (ProtoStoredResponse × Bool)
  reconcile_stale_response same self response_id stale_seconds = do
    require response_id "response_id is required"
    existing ← call (Operations.get j r self.store response_id false)
    updated ← call (
        Operations.reconcile_stale_response j r self.store response_id existing
          (stale_or_default self stale_seconds))
    message ← lift (core_to_proto j response_id updated)
    pure (message, not (same existing updated))
