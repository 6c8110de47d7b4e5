-- ===== src/Client/Quiet/Responses.antt =====
-- crates/client/src/lib.rs over crates/server/src/service.rs: the calls that store and read.
use responses_api_store.Common.{ℕ, ◌≤◌, String, Bool, Option, refl, inl, inr, Bool-cases}
use responses_api_store.Common.Int.{ℤ}
use responses_api_store.Common.Text.{is_blank}
use responses_api_store.Record.{StoredResponse}
use responses_api_store.Serde.{Json, CodecLaws, TextLaws, PrintLaws}
use responses_api_store.Redis.{Redis}
use responses_api_store.Redis.Quiet.{QuietLaws, IsTtl, max_ttl}
use responses_api_store.Streams.{Streams}
use responses_api_store.Store.Operations
use responses_api_store.Store.Operations.{unwrap_or}
use responses_api_store.Store.Spec.{Records, write, read, overwrite}
use responses_api_store.Store.Quiet.{IsReading, IsPlain, Holds}
use responses_api_store.Store.Quiet.Methods.{store-Does, get-Does, update-Does}
use responses_api_store.Server.Service
use responses_api_store.Server.Service.{ResponsesApiStoreService}
use responses_api_store.Client.Calls
use responses_api_store.Client.Loopback.{Surroundings, loopback}
use responses_api_store.Client.Spec.{over, checked, ttl_of}
use responses_api_store.Client.Sent.{sent}
use responses_api_store.Client.Quiet.{Acts, Acts-over, Acts-answered}

module _ (j : Json) (r : Redis) (quiet : QuietLaws r) (codec : CodecLaws j) (prints : PrintLaws j)
    (laws : TextLaws j) (s : Streams r.World) (around : Surroundings j r.World)
    (self : ResponsesApiStoreService) where
  open j use {Value}
  open r use {World}

  pub store_response-Acts :
      (id : String) (stored : StoredResponse Value) (ttl : Option ℕ) (w : World) (m : Records Value)
      → IsPlain j r quiet stored
      → unwrap_or (ttl_of ttl) self.store.default_ttl_seconds ≤ max_ttl
      → Holds j r quiet self.store w m
      → Acts j r quiet self.store
          (Calls.store_response j (loopback j r s around self) id stored ttl)
          w
          (checked id "record.response_id is required" m
            (over (write j self.store id stored (ttl_of ttl) m)))
  unfolding Calls.store_response Service.store_response Service.require_record
  store_response-Acts id stored ttl w m plain le h =
      let (message, out, same, reads, _, _) = sent j prints laws id stored in
      elim (Bool-cases (is_blank id)) [
        | inl blank ↦ rw (out, same, blank) (refl, h)
        | inr full ↦
            rw (out, same, full, reads, same)
              (Acts-over j r quiet self.store
                (Operations.store j r self.store id stored (ttl_of ttl)) w
                (write j self.store id stored (ttl_of ttl) m)
                (store-Does j r quiet codec self.store id stored (ttl_of ttl) w m plain le h))
      ]

  pub update_response-Acts :
      (id : String) (stored : StoredResponse Value) (ttl : Option ℕ) (w : World) (m : Records Value)
      → IsPlain j r quiet stored
      → unwrap_or (ttl_of ttl) self.store.default_ttl_seconds ≤ max_ttl
      → Holds j r quiet self.store w m
      → Acts j r quiet self.store
          (Calls.update_response j (loopback j r s around self) id stored ttl)
          w
          (checked id "record.response_id is required" m
            (over (overwrite j self.store id stored (ttl_of ttl) (m id) m)))
  unfolding Calls.update_response Service.update_response Service.require_record
  update_response-Acts id stored ttl w m plain le h =
      let (message, out, same, reads, _, _) = sent j prints laws id stored in
      elim (Bool-cases (is_blank id)) [
        | inl blank ↦ rw (out, same, blank) (refl, h)
        | inr full ↦
            rw (out, same, full, reads, same)
              (Acts-over j r quiet self.store
                (Operations.update j r self.store id stored (ttl_of ttl)) w
                (overwrite j self.store id stored (ttl_of ttl) (m id) m)
                (update-Does j r quiet codec self.store id stored (ttl_of ttl) w m plain le h))
      ]

  pub get_response-Acts :
      (id : String) (reconcile : Bool) (w : World) (m : Records Value)
      → IsTtl self.store.default_ttl_seconds
      → Holds j r quiet self.store w m
      → (now : ℤ) × IsReading j r quiet w now
        × Acts j r quiet self.store
            (Calls.get_response j (loopback j r s around self) id reconcile)
            w
            (checked id "response_id is required" m
              (over (read j self.store now id reconcile (m id) m)))
  unfolding Calls.get_response Service.get_response
  get_response-Acts id reconcile w m positive h =
      let (now, shows, does) = get-Does j r quiet codec self.store id reconcile w m positive h in
      (
        now,
        shows,
        elim (Bool-cases (is_blank id)) [
          | inl blank ↦ rw blank (refl, h)
          | inr full ↦ rw full (
              Acts-answered j r quiet self.store prints laws
                (Operations.get j r self.store id reconcile) id w
                (read j self.store now id reconcile (m id) m) does)
        ],
      )
