-- ===== src/Client/Quiet/Refine.antt =====
-- crates/client/src/lib.rs, crates/server/src/service.rs and crates/core/src/store.rs together: a
-- client sees a map of records, on a Redis server that has no other client.
use responses_api_store.Common.{◌≤◌, List, [], ◌∷◌, refl, Result, ok, err, panic, All}
use responses_api_store.Common.Int.{ℤ}
use responses_api_store.Common.Exec.{Exec, pure, ◌>>=◌, ◌>>◌}
use responses_api_store.Serde.{Json, CodecLaws, TextLaws, PrintLaws}
use responses_api_store.Redis.{Redis}
use responses_api_store.Redis.Quiet.{QuietLaws, IsTtl, max_ttl}
use responses_api_store.Streams.{Streams}
use responses_api_store.Model.{unix_seconds_now}
use responses_api_store.Store.Operations.{unwrap_or}
use responses_api_store.Store.Spec.{Reply, done, found, claimed, Records}
use responses_api_store.Store.Quiet.{IsReading, IsPlain, Holds}
use responses_api_store.Server.Service.{ResponsesApiStoreService}
use responses_api_store.Client.Error.{ClientError}
use responses_api_store.Client.Calls
use responses_api_store.Client.Rpc.{Rpc}
use responses_api_store.Client.Loopback.{Surroundings, loopback}
use responses_api_store.Client.Spec.{Call, Answer, reply, called, ttl_of}
use responses_api_store.Client.Quiet.{Acts}
use responses_api_store.Client.Quiet.Responses.{
  store_response-Acts, update_response-Acts, get_response-Acts,
}
use responses_api_store.Client.Quiet.Background.{
  claim_background_response-Acts, complete_background_response-Acts, fail_background_response-Acts,
}
use responses_api_store.Client.Quiet.Deletion.{delete_response-Acts}

module _ (j : Json) {W : Type 0} (stub : Rpc W) where
  open j use {Value}

  -- The call that is made, over a stub.
  unfoldable pub make : Call Value → Exec W ClientError (Reply Value)
  make (Call.store_response id stored ttl) = do Calls.store_response j stub id stored ttl; pure done
  make (Call.get_response id reconcile) = do
    stored ← Calls.get_response j stub id reconcile
    pure (found stored)
  make (Call.update_response id stored ttl) = do
    Calls.update_response j stub id stored ttl
    pure done
  make (Call.delete_response id) = do Calls.delete_response j stub id; pure done
  make (Call.claim_background_response id) = do
    both ← Calls.claim_background_response j stub id
    pure (claimed both.0 both.1)
  make (Call.complete_background_response id v) = do
    stored ← Calls.complete_background_response j stub id v
    pure (found stored)
  make (Call.fail_background_response id message) = do
    stored ← Calls.fail_background_response j stub id message
    pure (found stored)

  -- One call after another, whatever they end in.
  unfoldable pub make_all : List (Call Value) → W → List (Result ClientError (Reply Value)) × W
  make_all [] w = ([], w)
  make_all (c ∷ cs) w =
      let now = make c w in let later = make_all cs now.1 in (now.0 ∷ later.0, later.1)

-- The answers that a client should get, one call after another, each with a reading of the clock
-- while the keys hold what they hold when it begins, and what the map is then.
pub data Session (j : Json) (r : Redis) (quiet : QuietLaws r) (s : Streams r.World)
    (around : Surroundings j r.World) (self : ResponsesApiStoreService)
    : r.World
      → Records j.Value
      → List (Call j.Value)
      → List (Result ClientError (Reply j.Value))
      → Records j.Value
      → Type 0 where
  ended : {w : r.World} {m : Records j.Value} → Session j r quiet s around self w m [] [] m
  next :
      {w : r.World} {m n : Records j.Value} {calls : List (Call j.Value)}
      {answers : List (Result ClientError (Reply j.Value))} (c : Call j.Value) (now : ℤ)
      → IsReading j r quiet w now
      → Session j r quiet s around self
          (make j (loopback j r s around self) c w).1
          (called j self.store now c m).1
          calls
          answers
          n
      → Session j r quiet s around self w m
          (c ∷ calls)
          ((called j self.store now c m).0 ∷ answers)
          n

module _ (j : Json) (r : Redis) (quiet : QuietLaws r) (codec : CodecLaws j) (prints : PrintLaws j)
    (laws : TextLaws j) (s : Streams r.World) (around : Surroundings j r.World)
    (self : ResponsesApiStoreService) where
  open j use {Value}
  open r use {World}

  -- What a call sends has no `null` for its pending request, and a time to live that is not too long for
  -- the server.
  abbrev pub IsSendable : Call Value → Type 0
  IsSendable (Call.store_response id stored ttl) =
      IsPlain j r quiet stored × (unwrap_or (ttl_of ttl) self.store.default_ttl_seconds ≤ max_ttl)
  IsSendable (Call.update_response id stored ttl) =
      IsPlain j r quiet stored × (unwrap_or (ttl_of ttl) self.store.default_ttl_seconds ≤ max_ttl)
  IsSendable (Call.get_response id reconcile) = Unit
  IsSendable (Call.delete_response id) = Unit
  IsSendable (Call.claim_background_response id) = Unit
  IsSendable (Call.complete_background_response id v) = Unit
  IsSendable (Call.fail_background_response id message) = Unit

  Acts-reply :
      {A : Type 0} (f : A → Reply Value) (e : Exec World ClientError A) (w : World)
      (o : Answer Value A)
      → Acts j r quiet self.store e w o
      → Acts j r quiet self.store (e >>= λ a. pure (f a)) w (reply j f o)
  Acts-reply f e w (ok a, m) (p, h) = rw p (refl, h)
  Acts-reply f e w (err x, m) (p, h) = rw p (refl, h)
  Acts-reply f e w (panic, m) (p, h) = rw p (refl, h)

  abbrev stub : Rpc World
  stub = loopback j r s around self

  module _ (positive : IsTtl self.store.default_ttl_seconds) where
    make-Acts :
        (c : Call Value) (w : World) (m : Records Value)
        → IsSendable c
        → Holds j r quiet self.store w m
        → (now : ℤ) × IsReading j r quiet w now
          × Acts j r quiet self.store (make j stub c) w (called j self.store now c m)
    unfolding make
    make-Acts (Call.store_response id stored ttl) w m (plain, le) h = (
      unix_seconds_now (r.clock w).0,
      (w, record { idle = h.idle; view = λ i. refl }, refl),
      Acts-reply _ (Calls.store_response j stub id stored ttl) w _ (
          store_response-Acts j r quiet codec prints laws s around self id stored ttl w m plain le
            h),
    )
    make-Acts (Call.get_response id reconcile) w m plain h =
        let (now, shows, acts) =
          get_response-Acts j r quiet codec prints laws s around self id reconcile w m positive h in
        (now, shows, Acts-reply _ (Calls.get_response j stub id reconcile) w _ acts)
    make-Acts (Call.update_response id stored ttl) w m (plain, le) h = (
      unix_seconds_now (r.clock w).0,
      (w, record { idle = h.idle; view = λ i. refl }, refl),
      Acts-reply _ (Calls.update_response j stub id stored ttl) w _ (
          update_response-Acts j r quiet codec prints laws s around self id stored ttl w m plain le
            h),
    )
    make-Acts (Call.delete_response id) w m plain h = (
      unix_seconds_now (r.clock w).0,
      (w, record { idle = h.idle; view = λ i. refl }, refl),
      Acts-reply _ (Calls.delete_response j stub id) w _
          (delete_response-Acts j r quiet codec prints laws s around self id w m positive h),
    )
    make-Acts (Call.claim_background_response id) w m plain h = (
      unix_seconds_now (r.clock w).0,
      (w, record { idle = h.idle; view = λ i. refl }, refl),
      Acts-reply _ (Calls.claim_background_response j stub id) w _ (
          claim_background_response-Acts j r quiet codec prints laws s around self id w m positive
            h),
    )
    make-Acts (Call.complete_background_response id v) w m plain h = (
      unix_seconds_now (r.clock w).0,
      (w, record { idle = h.idle; view = λ i. refl }, refl),
      Acts-reply _ (Calls.complete_background_response j stub id v) w _ (
          complete_background_response-Acts j r quiet codec prints laws s around self id v w m
            positive h),
    )
    make-Acts (Call.fail_background_response id message) w m plain h = (
      unix_seconds_now (r.clock w).0,
      (w, record { idle = h.idle; view = λ i. refl }, refl),
      Acts-reply _ (Calls.fail_background_response j stub id message) w _ (
          fail_background_response-Acts j r quiet codec prints laws s around self id message w m
            positive h),
    )

    pub make_all-Session :
        (calls : List (Call Value)) (w : World) (m : Records Value)
        → All IsSendable calls
        → Holds j r quiet self.store w m
        → (n : Records Value) × Session j r quiet s around self w m calls
            (make_all j stub calls w).0
            n
          × Holds j r quiet self.store (make_all j stub calls w).1 n
    unfolding make_all
    make_all-Session [] w m plain h = (m, ended, h)
    make_all-Session (c ∷ calls) w m (plain, more) h =
        let (now, shows, (answered, h₁)) = make-Acts c w m plain h in
        let (n, session, h₂) =
          make_all-Session calls (make j stub c w).1 (called j self.store now c m).1 more h₁ in
        (n, rw answered (next c now shows session), h₂)
