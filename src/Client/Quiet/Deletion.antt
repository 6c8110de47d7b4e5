-- ===== src/Client/Quiet/Deletion.antt =====
-- crates/client/src/lib.rs over crates/server/src/service.rs: the call that deletes.
use responses_api_store.Common.{
  ◌≤◌, String, true, false, Option, none, some, ◌≡◌, refl, ok, err, inl, inr, Bool-cases,
}
use responses_api_store.Common.Int.{ℤ}
use responses_api_store.Common.Text.{is_blank}
use responses_api_store.Common.Exec.{map_error}
use responses_api_store.Record.{StoredResponse}
use responses_api_store.Serde.{Json, CodecLaws, TextLaws, PrintLaws}
use responses_api_store.Model.{is_deleted_tombstone, is_in_flight_background}
use responses_api_store.Redis.{Redis}
use responses_api_store.Redis.Quiet.{QuietLaws, IsTtl, max_ttl}
use responses_api_store.Streams.{Streams}
use responses_api_store.Store.Prepare.{tombstone}
use responses_api_store.Store.Operations
use responses_api_store.Store.Spec.{Records, write, read, erase}
use responses_api_store.Store.Quiet.{Holds, Does}
use responses_api_store.Store.Quiet.Methods.{store-Does, get-Does, delete-Does}
use responses_api_store.Store.Quiet.Refine.{tombstone-IsPlain}
use responses_api_store.Server.Service
use responses_api_store.Server.Service.{ResponsesApiStoreService}
use responses_api_store.Client.Error.{rpc}
use responses_api_store.Client.Calls
use responses_api_store.Client.Loopback.{Surroundings, loopback}
use responses_api_store.Client.Spec.{checked, removed}
use responses_api_store.Client.Quiet.{Acts, Acts-over}

module _ (j : Json) (r : Redis) (quiet : QuietLaws r) (codec : CodecLaws j) (prints : PrintLaws j)
    (laws : TextLaws j) (s : Streams r.World) (around : Surroundings j r.World)
    (self : ResponsesApiStoreService) where
  open j use {Value}
  open r use {World}

  -- The key is deleted, at the end of every branch but one.
  hard_delete-Acts :
      (id : String) (w : World) (m : Records Value)
      → Holds j r quiet self.store w m
      → Acts j r quiet self.store
          (map_error rpc (Service.hard_delete j r s self id))
          w
          (ok tt, erase id m)
  hard_delete-Acts id w m h =
      Acts-over j r quiet self.store (Operations.delete j r self.store id) w (ok tt, erase id m)
        (delete-Does j r quiet codec self.store id w m h)

  deleted-Acts :
      (id : String) (now : ℤ) (o : Option (StoredResponse Value)) (w : World) (m : Records Value)
      → is_blank id ≡ false
      → self.store.default_ttl_seconds ≤ max_ttl
      → Does j r quiet self.store
          (Operations.get j r self.store id false)
          w
          (read j self.store now id false o m)
      → Acts j r quiet self.store
          (Calls.delete_response j (loopback j r s around self) id)
          w
          (removed j self.store id o m)
  unfolding Calls.delete_response Service.delete_response Operations.tombstone_deleted_background
  deleted-Acts id now none w m full le (p, h) =
      rw (full, p) (hard_delete-Acts id (Operations.get j r self.store id false w).1 m h)
  deleted-Acts id now (some stored) w m full le d =
      elim (Bool-cases (is_deleted_tombstone j stored)) [
        | inl gone ↦
            let (p, h) = rw gone at d in
            rw (full, p, gone)
              (hard_delete-Acts id (Operations.get j r self.store id false w).1 m h)
        | inr alive ↦
            let (p, h) = rw alive at d in
            elim (Bool-cases (is_in_flight_background j stored)) [
              | inl flying ↦
                  rw (full, p, alive, flying)
                    (Acts-over j r quiet self.store
                      (Operations.store j r self.store id (tombstone j stored id) none)
                      (Operations.get j r self.store id false w).1
                      (write j self.store id (tombstone j stored id) none m)
                      (store-Does j r quiet codec self.store id (tombstone j stored id) none _ m
                        (tombstone-IsPlain j r quiet codec self.store stored id) le h))
              | inr landed ↦
                  rw (full, p, alive, landed)
                    (hard_delete-Acts id (Operations.get j r self.store id false w).1 m h)
            ]
      ]

  refused_delete :
      (id : String) (w : World) (m : Records Value)
      → is_blank id ≡ true
      → Holds j r quiet self.store w m
      → Acts j r quiet self.store
          (Calls.delete_response j (loopback j r s around self) id)
          w
          (err (rpc (Service.required "response_id is required")), m)
  unfolding Calls.delete_response Service.delete_response
  refused_delete id w m blank h = rw blank (refl, h)

  pub delete_response-Acts :
      (id : String) (w : World) (m : Records Value)
      → IsTtl self.store.default_ttl_seconds
      → Holds j r quiet self.store w m
      → Acts j r quiet self.store
          (Calls.delete_response j (loopback j r s around self) id)
          w
          (checked id "response_id is required" m (removed j self.store id (m id) m))
  delete_response-Acts id w m positive h =
      let (now, shows, does) = get-Does j r quiet codec self.store id false w m positive h in
      elim (Bool-cases (is_blank id)) [
        | inl blank ↦ rw blank (refused_delete id w m blank h)
        | inr full ↦ rw full (deleted-Acts id now (m id) w m full positive.1 does)
      ]
