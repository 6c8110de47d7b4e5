-- ===== src/Client/Quiet/Worker.antt =====
-- crates/client/src/lib.rs, crates/server/src/service.rs and crates/core/src/store.rs together: the
-- work of a background worker comes to its end.
use responses_api_store.Common.{String, true, false, some, ◌≡◌, refl, ok, inl, inr, eq_refl}
use responses_api_store.Common.Text.{is_blank}
use responses_api_store.Record.{StoredResponse}
use responses_api_store.Serde.{Json, ObjectLaws, CodecLaws, TextLaws, PrintLaws}
use responses_api_store.Redis.{Redis}
use responses_api_store.Redis.Quiet.{QuietLaws, IsTtl}
use responses_api_store.Streams.{Streams}
use responses_api_store.Model.{stored_response_status, is_deleted_tombstone}
use responses_api_store.Store.Prepare.{without_request, prepare_complete_background}
use responses_api_store.Store.Lifecycle.{
  claimed_response, completed_response, payload_of, prepare_claim_queued, prepare_complete_cases,
}
use responses_api_store.Store.Diagram.{status-claimed, status-completed}
use responses_api_store.Store.Spec.{Records, put}
use responses_api_store.Store.Quiet.{Holds}
use responses_api_store.Server.Service.{ResponsesApiStoreService}
use responses_api_store.Client.Calls.{
  claim_background_response, complete_background_response, get_response,
}
use responses_api_store.Client.Loopback.{Surroundings, loopback}
use responses_api_store.Client.Quiet.Responses.{get_response-Acts}
use responses_api_store.Client.Quiet.Background.{
  claim_background_response-Acts, complete_background_response-Acts,
}

module _ (j : Json) (id : String) where
  open j use {Value}

  -- The record that a claim makes, and the one that its completion makes.
  abbrev pub in_progress : StoredResponse Value → StoredResponse Value
  in_progress stored = record stored { response = claimed_response j stored.response id }

  abbrev pub finished : StoredResponse Value → Value → StoredResponse Value
  finished stored v = without_request j (in_progress stored) (completed_response j v id)

module _ (j : Json) (objects : ObjectLaws j) (id : String) where
  open j use {Value}

  completes :
      (stored : StoredResponse Value) (v : Value)
      → stored_response_status j stored ≡ some "queued"
      → j.is_object v ≡ true
      → prepare_complete_background j (in_progress j id stored) id v
        ≡ ok (finished j id stored v, tt)
  completes stored v queued object =
      let progress = status-claimed j objects stored id queued in
      elim (prepare_complete_cases j objects (in_progress j id stored) id v) [
        | inl (_, _, done) ↦ done
        | inr (inl (_, _, never, _)) ↦ absurd (never progress)
        | inr (inr (_, other, _)) ↦ cc
      ]

  not_deleted :
      (stored : StoredResponse Value) (v : Value)
      → j.is_object v ≡ true
      → is_deleted_tombstone j (finished j id stored v) ≡ false
  unfolding is_deleted_tombstone
  not_deleted stored v object =
      rw (status-completed j objects (in_progress j id stored) id v object) refl

  module _ (r : Redis) (quiet : QuietLaws r) (codec : CodecLaws j) (prints : PrintLaws j)
      (laws : TextLaws j) (s : Streams r.World) (around : Surroundings j r.World)
      (self : ResponsesApiStoreService) where
    open r use {World}

    -- On a Redis server that has no other client, answers every command and expires no key
    -- meanwhile, a claim by a client of a response that is queued and has a request succeeds and
    -- hands the request over, its completion with an object then succeeds, and a read after that
    -- returns the completed record; for an id that is not empty and a default time to live from 1
    -- to 9 * 10^15 seconds, if Redis, the codec and the JSON library else behave as documented.
    pub claimed_completed_read :
        (w : World) (m : Records Value) (stored : StoredResponse Value) (pending v : Value)
        → IsTtl self.store.default_ttl_seconds
        → is_blank id ≡ false
        → Holds j r quiet self.store w m
        → m id ≡ some stored
        → stored_response_status j stored ≡ some "queued"
        → stored.pending_upstream_request ≡ some pending
        → j.is_object v ≡ true
        → ((claim_background_response j (loopback j r s around self) id w).0
            ≡ ok (in_progress j id stored, payload_of j stored pending))
          × ((complete_background_response j
                (loopback j r s around self)
                id
                v
                (claim_background_response j (loopback j r s around self) id w).1).0
              ≡ ok (finished j id stored v))
          × ((get_response j
                (loopback j r s around self)
                id
                false
                (complete_background_response j
                  (loopback j r s around self)
                  id
                  v
                  (claim_background_response j (loopback j r s around self) id w).1).1).0
              ≡ ok (finished j id stored v))
    claimed_completed_read w m stored pending v positive full holds here queued has object =
        let stub = loopback j r s around self in
        let (claimed, h₁) =
          rw (full, here, prepare_claim_queued j objects stored id pending queued has) at
            (claim_background_response-Acts j r quiet codec prints laws s around self id w m
              positive holds) in
        let w₁ : World = (claim_background_response j stub id w).1 in
        let (done, h₂) =
          rw (full, object, eq_refl, completes stored v queued object) at
            (complete_background_response-Acts j r quiet codec prints laws s around self id v w₁
              (put id (in_progress j id stored) m) positive h₁) in
        let w₂ : World = (complete_background_response j stub id v w₁).1 in
        let (now, shows, read) =
          get_response-Acts j r quiet codec prints laws s around self id false w₂
            (put id (finished j id stored v) (put id (in_progress j id stored) m)) positive h₂ in
        (claimed, done, (rw (full, eq_refl, not_deleted stored v object) at read).0)
