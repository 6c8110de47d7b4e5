-- ===== src/Examples/Clients.antt =====
-- The client library, the probe and the start of the server, at sample values.
use responses_api_store.Common.{
  true, false, ℕ, String, ◌==◌, Option, none, some, ◌≡◌, refl, ◌⊎◌, ok, arith, ok_of, if◌then◌else◌,
}
use responses_api_store.Common.Text.Parts.{Avoids}
use responses_api_store.Redis.Opening.{Opening}
use responses_api_store.Config.{StoreConfig}
use responses_api_store.Server.Convert.{proto_to_core, core_to_proto}
use responses_api_store.Server.Start.{Host, main, start_service}
use responses_api_store.Server.Startup.{IsReady, main_cases}
use responses_api_store.Client.Convert.{to_proto_record, from_proto_record}
use responses_api_store.Client.Agree.{records_agree, to_proto_record-returns}
use responses_api_store.Common.Exec.{pure}
use responses_api_store.Error.{not_found}
use responses_api_store.Server.Convert.{store_error_to_status}
use responses_api_store.Server.Metrics.{from_store, serve}
use responses_api_store.Client.Error.{rpc, is_not_found, is_failed_precondition}
use responses_api_store.Server.Routes.{Answers, serve-Answers}
use responses_api_store.Client.Classes.{classes_agree}
use responses_api_store.Examples.Server.{server, queue}
use responses_api_store.Probe.{probe_endpoint_from_env}
use responses_api_store.Probe.Address.{probe_endpoint_from_env-any}
use responses_api_store.Examples.Memory.{Memory, memory, empty}
use responses_api_store.Examples.Samples.{sample, queued}
use responses_api_store.Examples.Protocol.{sample-TextLaws, message}

records_agree_example :
    (ok_of (to_proto_record sample "resp_1" queued) ≡ ok_of (core_to_proto sample "resp_1" queued))
    × (ok_of (from_proto_record sample (some (message "resp_1")) "resp_1")
        ≡ ok_of (proto_to_core sample (message "resp_1")))
records_agree_example = records_agree sample "resp_1" queued (message "resp_1")

sent : to_proto_record sample "resp_1" queued ≡ ok (message "resp_1")
unfolding to_proto_record
sent = refl

to_proto_record-returns_example :
    (proto_to_core sample (message "resp_1") ≡ ok queued)
    × ((message "resp_1").response_id ≡ "resp_1")
    × (core_to_proto sample "resp_1" queued ≡ ok (message "resp_1"))
    × (from_proto_record sample (some (message "resp_1")) "resp_1" ≡ ok queued)
to_proto_record-returns_example =
    to_proto_record-returns sample sample-TextLaws "resp_1" "resp_1" queued (message "resp_1") sent

abbrev listening : String → Option String
listening name = if name == "GRPC_LISTEN_ADDR" then some "0.0.0.0:50051" else none

no_dot : Avoids 46 "50051"
no_dot = omega arith

probe_endpoint_from_env-any_example : probe_endpoint_from_env listening ≡ "http://127.0.0.1:50051"
probe_endpoint_from_env-any_example = probe_endpoint_from_env-any listening "50051" no_dot refl

abbrev opening : Opening Memory
opening = record { Client = String; open_client = λ url. ok url; new_manager = λ url w. (ok tt, w) }

abbrev host : Host Memory
host = record {
  Address = String;
  Listener = String;
  parse_address = λ text. some text;
  bind = λ address w. (ok address, w);
  spawn_metrics = λ queue listener w. (ok tt, w);
  serve = λ service bytes address w. (ok tt, w);
}

abbrev lowered : String → String
lowered s = s

main_cases_example :
    ((main opening host lowered listening empty).1 ≡ empty)
    ⊎ ((config : StoreConfig) × (bytes : ℕ) × (address : String) × IsReady opening host lowered
          listening config bytes address
        × (main opening host lowered listening empty
            ≡ start_service opening host lowered listening config bytes address empty))
main_cases_example = main_cases opening host lowered listening empty

classes_agree_example :
    ((from_store (not_found "resp_1")).status ≡ 404)
    × (is_not_found (rpc (store_error_to_status (not_found "resp_1"))) ≡ true)
    × (is_failed_precondition (rpc (store_error_to_status (not_found "resp_1"))) ≡ false)
unfolding from_store store_error_to_status
classes_agree_example = classes_agree (not_found "resp_1")

serve-Answers_example :
    Answers sample memory server 10 queue
      (pure true)
      (some "workers")
      empty
      (serve sample memory server 10 queue
        (pure true)
        "/metrics/background-queue"
        (some "workers")
        empty)
      (serve sample memory server 10 queue (pure true) "/metrics" (some "workers") empty)
serve-Answers_example =
    serve-Answers sample memory server 10 queue (pure true) (some "workers") empty
