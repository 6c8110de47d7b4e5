-- ===== src/Store/Built.antt =====
-- crates/core/src/model.rs and crates/core/src/store.rs together: a gateway builds the record of a
-- background request, and a worker claims it.
use text.Mathlib.TextPositions.{starts_with-append}
use responses_api_store.Common.{
  String, ◌==◌, true, false, Option, none, some, List, [], ◌∷◌, ◌≡◌, refl, ok, if◌then◌else◌,
}
use responses_api_store.Common.Int.{ℤ}
use responses_api_store.Record.{StoredResponse}
use responses_api_store.Serde.{Json, ObjectLaws}
use responses_api_store.Serde.Object.{get-insert_all}
use responses_api_store.Model.{
  stored_response_status, response_id_from_value, build_queued_response, build_upstream_request,
}
use responses_api_store.Model.Build.{
  IsQueuedFor, build_queued_response-IsQueuedFor, get-build_upstream_request,
}
use responses_api_store.Store.Prepare.{prepare_claim_background, build_stored_from_parts}
use responses_api_store.Store.Lifecycle.{claimed_response, prepare_claim_queued}
use responses_api_store.Server.Jobs.{generate_response_id}

module _ (j : Json) (laws : ObjectLaws j) {W : Type 0} (uuid : W → String × W) (w : W) where
  open j use {Value}

  -- The id that is made, and the record of a request under it.
  abbrev pub made_id : String
  made_id = (generate_response_id uuid w).0

  abbrev pub record_of :
      String → List Value → Option String → Option ℤ → Value → Value → StoredResponse Value
  record_of upstream input authorization enqueued_at request v =
      build_stored_from_parts j upstream v input (some (build_upstream_request j request))
        authorization enqueued_at

  read_back :
      (v : Value) (request : Value)
      → IsQueuedFor j laws made_id request v
      → response_id_from_value j v ≡ some made_id
  unfolding response_id_from_value generate_response_id
  read_back v request q = rw (q.named, starts_with-append "resp_" (uuid w).0) refl

  -- The record that a gateway builds for a background request names the id that was made for it
  -- and has the input of the request. It is claimed, and what the claim writes is the same
  -- record, with the status in_progress, that id and the background mark in its response and
  -- every other member of it as it was. The claim hands over the upstream, the authorization and
  -- the request for the upstream, which is the one of the caller, without its
  -- previous_response_id and background members and with store set to false; for a request that
  -- is an object.
  pub built_claimed :
      (upstream model : String) (input : List Value) (authorization : Option String)
      (enqueued_at : Option ℤ) (request : Value) (i : String)
      → j.is_object request ≡ true
      → (v c : Value) × (build_queued_response j made_id model request ≡ ok v)
        × (response_id_from_value j v ≡ some made_id)
        × (j.get v "input" ≡ j.get request "input")
        × (prepare_claim_background j
              (record_of upstream input authorization enqueued_at request v)
              made_id
            ≡ ok (
              record_of upstream input authorization enqueued_at request c,
              record {
                upstream = upstream;
                pending_upstream_request = build_upstream_request j request;
                upstream_authorization = authorization;
              },
            ))
        × (j.get c i ≡ (
            if "background" == i
            then some (j.boolean true)
            else if "id" == i
            then some (j.text made_id)
            else if "status" == i
            then some (j.text "in_progress")
            else j.get v i))
        × (j.get (build_upstream_request j request) i ≡ (
            if "store" == i
            then some (j.boolean false)
            else if "previous_response_id" == i
            then none
            else if "background" == i
            then none
            else j.get request i))
  unfolding build_stored_from_parts stored_response_status
  built_claimed upstream model input authorization enqueued_at request i is_object =
      let (v, made, q) = build_queued_response-IsQueuedFor j laws made_id model request in
      (
        v,
        claimed_response j v made_id,
        made,
        read_back v request q,
        q.input,
        prepare_claim_queued j laws (record_of upstream input authorization enqueued_at request v)
            made_id (build_upstream_request j request) q.queued refl,
        get-insert_all j laws v
            (("status", j.text "in_progress")
              ∷ ("id", j.text made_id)
              ∷ ("background", j.boolean true)
              ∷ [])
            i q.object,
        get-build_upstream_request j laws request i is_object,
      )
