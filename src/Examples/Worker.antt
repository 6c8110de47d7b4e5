-- ===== src/Examples/Worker.antt =====
-- A client, the handlers and the store in one process, over the server in memory.
use responses_api_store.Common.{true, false, none, some, List, [], ◌∷◌, ◌≡◌, refl, ok, arith}
use responses_api_store.Common.Int.{pos}
use responses_api_store.Common.Text.{parse_uint}
use responses_api_store.Queue.StreamId.{max_u64}
use responses_api_store.Serde.{ObjectLaws}
use responses_api_store.Store.Operations.{store}
use responses_api_store.Store.Lifecycle.{payload_of}
use responses_api_store.Store.Spec.{Records, put}
use responses_api_store.Store.Quiet.{Holds}
use responses_api_store.Store.Quiet.Methods.{store-Does}
use responses_api_store.Model.{stored_response_status}
use responses_api_store.Server.Service.{ResponsesApiStoreService, ttl_from_request}
use responses_api_store.Client.Calls
use responses_api_store.Client.Loopback.{Surroundings, loopback}
use responses_api_store.Client.Rpc.{Rpc}
use responses_api_store.Client.Spec.{
  Call, store_response, get_response, delete_response, claim_background_response,
  complete_background_response,
}
use responses_api_store.Client.Quiet.Refine.{Session, make_all, make_all-Session}
use responses_api_store.Client.Quiet.Worker.{in_progress, finished, claimed_completed_read}
use responses_api_store.Examples.Values.{Value, text, object, end, json-ObjectLaws, member}
use responses_api_store.Examples.Samples.{queued, config}
use responses_api_store.Examples.Memory.{Memory, memory, memory_quiet, empty}
use responses_api_store.Examples.Server.{server, queue}
use responses_api_store.Examples.Quiet.{no_records, empty-Holds, plain}
use responses_api_store.Examples.Codec.{
  stored_json, stored_json-CodecLaws, stored_json-TextLaws, stored_json-PrintLaws,
}

abbrev service : ResponsesApiStoreService
service = record { store = config; queue = queue; default_stale_seconds = pos 60 }

abbrev around : Surroundings stored_json Memory
around = record {
  tonumber = parse_uint max_u64;
  uuid = λ w. ("0123456789abcdef", w);
  cell = record { read = λ w. none; write = λ c w. w };
  rounds = 10;
  package_version = "0.1.0";
  same = λ a b. true;
}

abbrev calls : List (Call Value)
calls =
    store_response "resp_1" queued none
    ∷ claim_background_response "resp_1"
    ∷ complete_background_response "resp_1" (object end)
    ∷ get_response "resp_1" false
    ∷ delete_response "resp_1"
    ∷ get_response "" true
    ∷ []

make_all-Session_example :
    (n : Records Value) × Session stored_json memory memory_quiet server around service empty
      no_records calls
      (make_all stored_json (loopback stored_json memory server around service) calls empty).0
      n
    × Holds stored_json memory memory_quiet config
        (make_all stored_json (loopback stored_json memory server around service) calls empty).1
        n
unfolding ttl_from_request
make_all-Session_example =
    make_all-Session stored_json memory memory_quiet stored_json-CodecLaws stored_json-PrintLaws
      stored_json-TextLaws server around service (omega arith, omega arith) calls empty no_records
      ((plain, omega arith), (tt, (tt, (tt, (tt, (tt, tt)))))) empty-Holds

-- The world after the record was stored.
abbrev world : Memory
world = (store stored_json memory config "resp_1" queued none empty).1

world-Holds : Holds stored_json memory memory_quiet config world (put "resp_1" queued no_records)
world-Holds =
    (store-Does stored_json memory memory_quiet stored_json-CodecLaws config "resp_1" queued none
      empty no_records plain (omega arith) empty-Holds).1

objects : ObjectLaws stored_json
objects = json-ObjectLaws _ _ _ _

is_queued : stored_response_status stored_json queued ≡ some "queued"
unfolding stored_response_status member
is_queued = refl

abbrev stub : Rpc Memory
stub = loopback stored_json memory server around service

abbrev after_claim : Memory
after_claim = (Calls.claim_background_response stored_json stub "resp_1" world).1

abbrev after_completion : Memory
after_completion =
    (Calls.complete_background_response stored_json stub "resp_1" (object end) after_claim).1

claimed_completed_read_example :
    ((Calls.claim_background_response stored_json stub "resp_1" world).0
      ≡ ok (in_progress stored_json "resp_1" queued, payload_of stored_json queued (text "hello")))
    × ((Calls.complete_background_response stored_json stub "resp_1" (object end) after_claim).0
        ≡ ok (finished stored_json "resp_1" queued (object end)))
    × ((Calls.get_response stored_json stub "resp_1" false after_completion).0
        ≡ ok (finished stored_json "resp_1" queued (object end)))
claimed_completed_read_example =
    claimed_completed_read stored_json objects "resp_1" memory memory_quiet stored_json-CodecLaws
      stored_json-PrintLaws stored_json-TextLaws server around service world
      (put "resp_1" queued no_records) queued (text "hello") (object end) (omega arith, omega arith)
      refl world-Holds refl is_queued refl refl
