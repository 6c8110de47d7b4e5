-- ===== src/Client/Quiet.antt =====
-- crates/client/src/lib.rs over crates/server/src/service.rs: the calls of a client, through the
-- handlers and the store, on a Redis server that has no other client.
pub mod Responses
pub mod Background
pub mod Deletion
pub mod Refine
pub mod Worker
use responses_api_store.Common.{
  ℕ, ◌<◌, String, Bool, true, false, Option, none, some, ◌≡◌, ◌≢◌, refl, ap, Result, ok, err, panic,
  map_err, map_ok, inl, inr, Bool-cases, if◌then◌else◌,
}
use responses_api_store.Common.Int.{ℤ, pos}
use responses_api_store.Common.Text.{is_blank}
use responses_api_store.Common.Exec.{Exec, pure, lift, map_error, ◌>>=◌}
use responses_api_store.Record.{StoredResponse}
use responses_api_store.Serde.{Json, CodecLaws, TextLaws, PrintLaws}
use responses_api_store.Redis.{Redis}
use responses_api_store.Redis.Quiet.{QuietLaws}
use responses_api_store.Streams.{Streams}
use responses_api_store.Store.Transaction.{ResponseStore, StoreM}
use responses_api_store.Store.Operations
use responses_api_store.Store.Spec.{Reply, done, found, claimed, Records, Outcome}
use responses_api_store.Store.Quiet.{IsPlain, Holds, Does}
use responses_api_store.Server.Convert.{Status, map_store_error, core_to_proto}
use responses_api_store.Server.Service
use responses_api_store.Server.Service.{ResponsesApiStoreService}
use responses_api_store.Client.Error.{ClientError, rpc}
use responses_api_store.Client.Convert.{from_proto_record}
use responses_api_store.Client.Calls
use responses_api_store.Client.Loopback.{Surroundings, with_record, loopback}
use responses_api_store.Client.Spec.{Answer, over, checked, reply}
use responses_api_store.Client.Sent.{sent}

module _ (j : Json) (r : Redis) (quiet : QuietLaws r) (self : ResponseStore) where
  open j use {Value}
  open r use {World}

  -- A call returns what it should, and leaves what it should in the store.
  abbrev pub Acts : {A : Type 0} → Exec World ClientError A → World → Answer Value A → Type 0
  Acts e w o = ((e w).0 ≡ o.0) × Holds j r quiet self (e w).1 o.1

  -- An effect of the store, as it reaches the client.
  pub Acts-over :
      {A : Type 0} (e : StoreM j r A) (w : World) (o : Outcome Value A)
      → Does j r quiet self e w o
      → Acts (map_error rpc (map_error map_store_error e)) w (over o)
  Acts-over e w (ok a, m) (p, h) = rw p (refl, h)
  Acts-over e w (err x, m) (p, h) = rw p (refl, h)
  Acts-over e w (panic, m) (p, h) = rw p (refl, h)

  module _ (prints : PrintLaws j) (laws : TextLaws j) where
    -- A record that the store returns is answered and read.
    pub Acts-answered :
        (e : StoreM j r (StoredResponse Value)) (id : String) (w : World)
        (o : Outcome Value (StoredResponse Value))
        → Does j r quiet self e w o
        → Acts
            (map_error rpc (
                with_record
                  (map_error map_store_error e >>= λ stored. lift (core_to_proto j id stored)))
              >>= λ m. lift (from_proto_record j m id))
            w
            (over o)
    Acts-answered e id w (ok stored, m) (p, h) =
        let (message, _, _, _, answer, back) = sent j prints laws id stored in
        rw (p, answer, back) (refl, h)
    Acts-answered e id w (err x, m) (p, h) = rw p (refl, h)
    Acts-answered e id w (panic, m) (p, h) = rw p (refl, h)
