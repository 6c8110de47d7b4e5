-- ===== src/Store/Prepare.antt =====
-- crates/core/src/store.rs: the background transitions as functions of the stored record. Each is
-- run between WATCH and EXEC, and says what is written back, or why nothing is.
use Prim.Native.String.{◌++◌}
use responses_api_store.Common.{
  ℕ, zero, String, true, not, ◌&&◌, Option, none, List, [], ◌∷◌, Result, ok, err, expect, ◌>>=◌,
  if◌then◌else◌,
}
use responses_api_store.Common.Int.{ℤ, pos, negsuc}
use responses_api_store.Error.{StoreError, failed_precondition, invalid_argument}
use responses_api_store.Record.{StoredResponse}
use responses_api_store.Serde.{Json, object}
use responses_api_store.Model.{
  is_terminal_background_status, is_in_progress_background, is_claimable_background,
}

pub record ClaimBackgroundPayload (V : Type 0) : Type 0 where
  pub upstream : String
  pub pending_upstream_request : V
  pub upstream_authorization : Option String

-- `reconcile_write_ttl`: -1 stands for a key that does not expire.
unfoldable pub reconcile_write_ttl : ℤ → ℕ → ℕ
reconcile_write_ttl (pos zero) default_ttl_seconds = 1
reconcile_write_ttl (pos t) default_ttl_seconds = t
reconcile_write_ttl (negsuc _) default_ttl_seconds = default_ttl_seconds

abbrev pub in_response : String → String → String
in_response response_id what = "response " ++ (response_id ++ what)

module _ (j : Json) where
  open j use {Value}

  unfoldable pub prepare_claim_background :
      StoredResponse Value
      → String
      → Result StoreError (StoredResponse Value × ClaimBackgroundPayload Value)
  prepare_claim_background stored response_id =
      if is_terminal_background_status j stored
      then err (failed_precondition (in_response response_id " is in a terminal state"))
      else if is_in_progress_background j stored
      then err (failed_precondition (in_response response_id " is already in progress"))
      else if not (is_claimable_background j stored)
      then err (failed_precondition (in_response response_id " is not claimable"))
      else do
        pending ← expect stored.pending_upstream_request
        a ← expect (j.index_set stored.response "status" (j.text "in_progress"))
        b ← expect (j.index_set a "id" (j.text response_id))
        c ← expect (j.index_set b "background" (j.boolean true))
        ok (
          record stored { response = c },
          record {
            upstream = stored.upstream;
            pending_upstream_request = pending;
            upstream_authorization = stored.upstream_authorization;
          },
        )

  -- The record without what only a worker needs.
  abbrev pub without_request : StoredResponse Value → Value → StoredResponse Value
  without_request stored response = record stored {
    response = response;
    pending_upstream_request = none;
    upstream_authorization = none;
  }

  unfoldable pub prepare_complete_background :
      StoredResponse Value → String → Value → Result StoreError (StoredResponse Value × Unit {0})
  prepare_complete_background stored response_id completed_response =
      if not (j.is_object completed_response)
      then err (
          invalid_argument ("completed response for " ++ (response_id ++ " must be a JSON object")))
      else if is_terminal_background_status j stored
      then err (failed_precondition (in_response response_id " is in a terminal state"))
      else if not (is_in_progress_background j stored)
      then err (failed_precondition (in_response response_id " is not in progress"))
      else do
        a ← expect (j.index_set completed_response "id" (j.text response_id))
        b ← expect (j.index_set a "status" (j.text "completed"))
        c ← expect (j.index_set b "background" (j.boolean true))
        ok (without_request stored c, tt)

  abbrev pub failed_response : String → String → Value
  failed_response response_id message = object j (
      ("id", j.text response_id)
      ∷ ("object", j.text "response")
      ∷ ("status", j.text "failed")
      ∷ ("background", j.boolean true)
      ∷ ("error", object j (("message", j.text message) ∷ ("type", j.text "server_error") ∷ []))
      ∷ [])

  unfoldable pub prepare_fail_background :
      StoredResponse Value → String → String → Result StoreError (StoredResponse Value × Unit {0})
  prepare_fail_background stored response_id error_message =
      if is_terminal_background_status j stored
      then err (failed_precondition (in_response response_id " is in a terminal state"))
      else if not (is_claimable_background j stored) && not (is_in_progress_background j stored)
      then err (failed_precondition (in_response response_id " is not in progress"))
      else ok (without_request stored (failed_response response_id error_message), tt)

  unfoldable pub apply_stale_failure : StoredResponse Value → String → StoredResponse Value
  apply_stale_failure stored response_id =
      without_request stored (failed_response response_id "background response stale")

  -- The record that `tombstone_deleted_background` stores.
  unfoldable pub tombstone : StoredResponse Value → String → StoredResponse Value
  tombstone stored response_id = without_request stored (
      object j (
        ("id", j.text response_id)
        ∷ ("object", j.text "response")
        ∷ ("status", j.text "deleted")
        ∷ ("background", j.boolean true)
        ∷ ("deleted", j.boolean true)
        ∷ []))

  unfoldable pub build_stored_from_parts :
      String → Value → List Value → Option Value → Option String → Option ℤ → StoredResponse Value
  build_stored_from_parts upstream response input pending authorization enqueued_at = record {
    upstream = upstream;
    response = response;
    input = input;
    pending_upstream_request = pending;
    upstream_authorization = authorization;
    enqueued_at = enqueued_at;
  }
