-- ===== src/Examples/Quiet.antt =====
-- A run of the store on the server in memory, with the codec of Examples/Codec.antt.
use responses_api_store.Common.{true, false, none, some, List, [], ◌∷◌, ◌≢◌, refl, arith}
use responses_api_store.Store.Spec.{Operation, Records, store, get, claim, fail, delete}
use responses_api_store.Store.Quiet.{Holds}
use responses_api_store.Store.Quiet.Refine.{Replay, run_all, run_all-Replay}
use responses_api_store.Examples.Values.{Value, null}
use responses_api_store.Examples.Samples.{queued, config}
use responses_api_store.Examples.Memory.{memory, memory_quiet, empty}
use responses_api_store.Examples.Codec.{stored_json, stored_json-CodecLaws}

abbrev operations : List (Operation Value)
operations =
    store "resp_1" queued none
    ∷ claim "resp_1"
    ∷ fail "resp_1" "lost"
    ∷ get "resp_1" true
    ∷ delete "resp_1"
    ∷ get "resp_1" false
    ∷ []

abbrev pub no_records : Records Value
no_records = λ id. none

pub plain : queued.pending_upstream_request ≢ some null
plain h = cc

pub empty-Holds : Holds stored_json memory memory_quiet config empty no_records
empty-Holds = record { idle = refl; stands = λ id. tt }

run_all-Replay_example :
    (n : Records Value) × Replay stored_json memory memory_quiet config empty no_records operations
      (run_all stored_json memory config operations empty).0
      n
    × Holds stored_json memory memory_quiet config
        (run_all stored_json memory config operations empty).1
        n
run_all-Replay_example =
    run_all-Replay stored_json memory memory_quiet stored_json-CodecLaws config
      (omega arith, omega arith) operations empty no_records
      ((plain, omega arith), (tt, (tt, (tt, (tt, (tt, tt)))))) empty-Holds
