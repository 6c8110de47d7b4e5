-- ===== src/Server/Enqueue.antt =====
-- crates/server/src/service.rs: the order of the effects of EnqueueBackgroundJob.
use responses_api_store.Common.{
  false, Option, none, some, ◌≡◌, sym, ap, ◌∙◌, ok, arith, inl, inr, Bool-cases, map_err-ok,
  ok-injective,
}
use responses_api_store.Common.Text.{is_blank}
use responses_api_store.Common.Exec.{lift, bind-ok, ◌>>◌}
use responses_api_store.Record.{StoredResponse}
use responses_api_store.Serde.{Json}
use responses_api_store.Redis.{Redis}
use responses_api_store.Streams.{Streams}
use responses_api_store.Model.{unix_seconds_now}
use responses_api_store.Store.Transaction.{StoreM}
use responses_api_store.Store.Operations.{store}
use responses_api_store.Queue.Entries.{enqueue}
use responses_api_store.Server.Convert.{ProtoStoredResponse, map_store_error, proto_to_core}
use responses_api_store.Server.Service.{
  ResponsesApiStoreService, require_record, call, enqueue_background_job,
}

returned :
    (a : ProtoStoredResponse) {m : ProtoStoredResponse}
    → require_record (some a) ≡ ok m
    → is_blank a.response_id ≡ false
    → a ≡ m
unfolding require_record
returned a h full = ok-injective (rw full at h)

require_record-ok :
    (o : Option ProtoStoredResponse) {m : ProtoStoredResponse}
    → require_record o ≡ ok m
    → (o ≡ some m) × (is_blank m.response_id ≡ false)
unfolding require_record
require_record-ok none h = ground (arith, h)
require_record-ok (some a) h = elim (Bool-cases (is_blank a.response_id)) [
  | inl blank ↦ absurd (ground (arith, rw blank at h))
  | inr full ↦ let same = returned a h full in (ap some same, rw (← same) full)
]

module _ (j : Json) (r : Redis) (s : Streams r.World) where
  open j use {Value}
  open r use {World}

  -- The record of the message was stored, with the time of the clock, and after that its id was added
  -- to the stream; nothing else was done.
  pub record IsEnqueued (self : ResponsesApiStoreService) (message : Option ProtoStoredResponse)
      (w u : World) : Type 0 where
    pub sent : ProtoStoredResponse
    pub core : StoredResponse Value
    pub given : message ≡ some sent
    pub named : is_blank sent.response_id ≡ false
    pub read : proto_to_core j sent ≡ ok core
    pub after_store : World
    pub stored :
        store j r self.store sent.response_id
          (record core { enqueued_at = some (unix_seconds_now (r.clock w).0) })
          none
          (r.clock w).1
        ≡ (ok tt, after_store)
    pub added : enqueue j r s self.queue sent.response_id after_store ≡ (ok tt, u)

  -- The two writes of the handler.
  abbrev written :
      ResponsesApiStoreService
      → ProtoStoredResponse
      → StoredResponse Value
      → World
      → StoreM j r (Unit {0})
  written self m core w =
      store j r self.store m.response_id
        (record core { enqueued_at = some (unix_seconds_now (r.clock w).0) }) none

  abbrev announced : ResponsesApiStoreService → ProtoStoredResponse → StoreM j r (Unit {0})
  announced self m = enqueue j r s self.queue m.response_id

  -- Two calls that both succeed.
  both_returned :
      (f g : StoreM j r (Unit {0})) (u : World)
      → ((call j r s f >> call j r s g) u).0 ≡ ok tt
      → (v : World) × (f u ≡ (ok tt, v)) × (g v ≡ (ok tt, ((call j r s f >> call j r s g) u).1))
  both_returned f g u h =
      let (a, m, same) = bind-ok (call j r s f) _ u h in
      let v : World = (f u).1 in
      (
        v,
        ap (λ x. (x, v)) (map_err-ok map_store_error (f u).0 m),
        rw same (ap (λ x. (x, (g v).1)) (map_err-ok map_store_error (g v).0 (rw same at h))),
      )

  -- If EnqueueBackgroundJob succeeds, then its message names a response id and is read as a
  -- record, that record was stored with the time of the clock, and after that write the id was
  -- added to the stream, in the state that the write left.
  pub enqueue_background_job-IsEnqueued :
      (self : ResponsesApiStoreService) (message : Option ProtoStoredResponse) (w : World)
      → (enqueue_background_job j r s self message w).0 ≡ ok tt
      → IsEnqueued self message w (enqueue_background_job j r s self message w).1
  unfolding enqueue_background_job
  enqueue_background_job-IsEnqueued self message w h =
      let (m, read, same) = bind-ok (lift (require_record message)) _ w h in
      let (core, converted, same₁) = bind-ok (lift (proto_to_core j m)) _ w (rw same at h) in
      let whole = same ∙ same₁ in
      let (given, named) = require_record-ok message read in
      let (v, stored, added) =
        both_returned (written self m core w) (announced self m) (r.clock w).1 (rw whole at h) in
      record {
        sent = m;
        core = core;
        given = given;
        named = named;
        read = converted;
        after_store = v;
        stored = stored;
        added = added ∙ ap (λ z. (ok tt, z.1)) (sym whole);
      }
