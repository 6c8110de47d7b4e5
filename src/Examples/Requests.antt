-- ===== src/Examples/Requests.antt =====
-- A background request: the record that is built for it, and the call that enqueues it.
use responses_api_store.Common.{
  ◌↔◌, arith, String, true, false, none, some, [], ◌≡◌, refl, ok, ◌==◌, if◌then◌else◌,
}
use responses_api_store.Common.Int.{ℤ, pos, negsuc, max_i64, ◌-ℤ◌, ◌≤ℤ◌}
use responses_api_store.Serde.{ObjectLaws}
use responses_api_store.Model.{
  is_stale_enqueued, response_id_from_value, build_queued_response, build_upstream_request,
}
use responses_api_store.Model.Age.{is_stale_enqueued_iff}
use responses_api_store.Store.Prepare.{prepare_claim_background}
use responses_api_store.Store.Built.{made_id, record_of, built_claimed}
use responses_api_store.Server.Service.{
  ResponsesApiStoreService, require_record, enqueue_background_job,
}
use responses_api_store.Server.Convert.{proto_to_core}
use responses_api_store.Store.Operations.{store}
use responses_api_store.Queue.Entries.{enqueue}
use responses_api_store.Server.Enqueue.{IsEnqueued, enqueue_background_job-IsEnqueued}
use responses_api_store.Examples.Values.{
  Value, text, boolean, object, field, end, json-ObjectLaws, member,
}
use responses_api_store.Examples.Samples.{sample, config}
use responses_api_store.Examples.Memory.{Memory, memory, empty}
use responses_api_store.Examples.Server.{server, queue}
use responses_api_store.Examples.Protocol.{message}

abbrev laws : ObjectLaws sample
laws = json-ObjectLaws _ _ _ _

abbrev service : ResponsesApiStoreService
service = record { store = config; queue = queue; default_stale_seconds = pos 60 }

abbrev uuid : Memory → String × Memory
uuid w = ("0123456789abcdef", w)

abbrev request : Value
request = object (field "input" (text "hello") (field "background" (boolean true) end))

built_claimed_example :
    (v c : Value) × (build_queued_response sample (made_id sample laws uuid empty) "model" request
      ≡ ok v)
    × (response_id_from_value sample v ≡ some (made_id sample laws uuid empty))
    × (sample.get v "input" ≡ sample.get request "input")
    × (prepare_claim_background sample
          (record_of sample laws uuid empty "http://model/v1" [] none none request v)
          (made_id sample laws uuid empty)
        ≡ ok (
          record_of sample laws uuid empty "http://model/v1" [] none none request c,
          record {
            upstream = "http://model/v1";
            pending_upstream_request = build_upstream_request sample request;
            upstream_authorization = none;
          },
        ))
    × (sample.get c "background" ≡ (
        if "background" == "background"
        then some (boolean true)
        else if "id" == "background"
        then some (text (made_id sample laws uuid empty))
        else if "status" == "background"
        then some (text "in_progress")
        else sample.get v "background"))
    × (sample.get (build_upstream_request sample request) "background" ≡ (
        if "store" == "background"
        then some (boolean false)
        else if "previous_response_id" == "background"
        then none
        else if "background" == "background"
        then none
        else sample.get request "background"))
built_claimed_example =
    built_claimed sample laws uuid empty "http://model/v1" "model" [] none none request "background"
      refl

enqueued :
    (enqueue_background_job sample memory server service (some (message "resp_1")) empty).0 ≡ ok tt
unfolding enqueue_background_job require_record proto_to_core store member enqueue
enqueued = refl

enqueue_background_job-IsEnqueued_example :
    IsEnqueued sample memory server service
      (some (message "resp_1"))
      empty
      (enqueue_background_job sample memory server service (some (message "resp_1")) empty).1
enqueue_background_job-IsEnqueued_example =
    enqueue_background_job-IsEnqueued sample memory server service (some (message "resp_1")) empty
      enqueued

-- A difference that 64 bits do not hold.
is_stale_enqueued_iff_example :
    (is_stale_enqueued (some (negsuc max_i64)) (pos 1) (pos 60) ≡ true)
    ↔ ((t : ℤ) × (some (negsuc max_i64) ≡ some t) × (pos 60 ≤ℤ pos 1 -ℤ t))
is_stale_enqueued_iff_example =
    is_stale_enqueued_iff (some (negsuc max_i64)) (pos 1) (pos 60) (omega arith) (omega arith)
