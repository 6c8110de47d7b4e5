-- ===== src/Client/Loopback.antt =====
-- A client and a server in one process: the stub hands each request to its handler in
-- crates/server/src/service.rs, and the answer back, with nothing lost on the way.
use responses_api_store.Common.{ℕ, String, Bool, Option, some, ok}
use responses_api_store.Common.Exec.{Exec, pure, ◌>>=◌}
use responses_api_store.Record.{StoredResponse}
use responses_api_store.Serde.{Json}
use responses_api_store.Redis.{Redis}
use responses_api_store.Streams.{Streams}
use responses_api_store.Store.Capabilities.{Cell}
use responses_api_store.Server.Convert.{Status, ProtoStoredResponse}
use responses_api_store.Server.Service
use responses_api_store.Server.Service.{ResponsesApiStoreService, ClaimedResponse}
use responses_api_store.Server.Jobs
use responses_api_store.Client.Rpc.{Rpc, ClaimReply}

-- What the handlers take besides a request: how Lua reads a number, a random UUID, the cell for the
-- capabilities, the rounds of the counting loops, the version, and the equality of records.
pub record Surroundings (j : Json) (W : Type 0) : Type 0 where
  pub tonumber : String → Option ℕ
  pub uuid : W → String × W
  pub cell : Cell W
  pub rounds : ℕ
  pub package_version : String
  pub same : StoredResponse j.Value → StoredResponse j.Value → Bool

abbrev pub reply_of : ClaimedResponse → ClaimReply
reply_of a = record {
  message = some a.message;
  upstream = a.upstream;
  pending_upstream_request_json = a.pending_upstream_request_json;
  upstream_authorization = a.upstream_authorization;
}

module _ {W : Type 0} where
  -- An answer always has its record.
  abbrev pub with_record :
      Exec W Status ProtoStoredResponse → Exec W Status (Option ProtoStoredResponse)
  with_record handler = do m ← handler; pure (some m)

module _ (j : Json) (r : Redis) (s : Streams r.World) (around : Surroundings j r.World) where
  open r use {World}

  abbrev pub loopback : ResponsesApiStoreService → Rpc World
  loopback self = record {
    health = Jobs.health j r s around.package_version around.cell;
    generate_response_id = λ w. let id = Jobs.generate_response_id around.uuid w in (ok id.0, id.1);
    store_response = Service.store_response j r s self;
    get_response = λ id reconcile. with_record (Service.get_response j r s self id reconcile);
    update_response = Service.update_response j r s self;
    delete_response = Service.delete_response j r s self;
    enqueue_background_job = Service.enqueue_background_job j r s self;
    claim_background_jobs = Jobs.claim_background_jobs j r s around.tonumber self;
    acknowledge_background_job = Jobs.acknowledge_background_job j r s self;
    ensure_consumer_group = Jobs.ensure_consumer_group j r s self;
    get_background_queue_stats =
        Jobs.get_background_queue_stats j r s around.cell around.rounds self;
    claim_background_response = λ id. do
      a ← Service.claim_background_response j r s self id
      pure (reply_of a);
    complete_background_response =
        λ id text. with_record (Service.complete_background_response j r s self id text);
    fail_background_response =
        λ id message. with_record (Service.fail_background_response j r s self id message);
    reconcile_stale_response = λ id seconds. do
      a ← Service.reconcile_stale_response j r s around.same self id seconds
      pure (some a.0, a.1);
  }
