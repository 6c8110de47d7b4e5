-- ===== src/Examples/Protocol.antt =====
-- Records over the protocol, and a request for jobs, at sample values.
use responses_api_store.Common.{
  true, false, ◌+◌, ◌≤◌, String, Option, none, some, [], ◌∷◌, ◌≡◌, refl, ok, length, collect, map,
}
use responses_api_store.Common.Int.{pos}
use responses_api_store.Common.Text.{parse_uint}
use responses_api_store.Model.{autoclaim_cursor_key}
use responses_api_store.Store.Transaction.{key, load}
use responses_api_store.Model.{response_store_key}
use responses_api_store.Queue.StreamId.{max_u64}
use responses_api_store.Queue.Entries
use responses_api_store.Queue.Claim
use responses_api_store.Queue.Cursor
use responses_api_store.Server.Convert.{
  ProtoStoredResponse, proto_to_core, core_to_proto, core_job_to_proto,
}
use responses_api_store.Serde.{TextLaws}
use responses_api_store.Server.RoundTrip.{proto_to_core-core_to_proto}
use responses_api_store.Server.Service.{ResponsesApiStoreService}
use responses_api_store.Server.Jobs.{
  options_of, ClaimRequest, ClaimResponse, claim_count, claim_background_jobs,
}
use responses_api_store.Queue.Filled.{IsFilled}
use responses_api_store.Server.Limits.{claim_background_jobs-bounded}
use responses_api_store.Server.Metrics.{escape_prometheus_label_value}
use responses_api_store.Server.Label.{read_label, read_label-escape_prometheus_label_value}
use responses_api_store.Config.{
  StoreConfig, from_env, validate, parse_env_u64, parse_env_i64, parse_env_usize,
}
use responses_api_store.Config.Valid.{IsValid, from_env-IsValid}
use responses_api_store.Examples.Values.{Value, print-parse}
use responses_api_store.Examples.Memory.{Memory, memory, write, empty}
use responses_api_store.Examples.Samples.{sample, queued, config}
use responses_api_store.Examples.Server.{server, server-ReplyLaws, queue}

pub sample-TextLaws : TextLaws sample
sample-TextLaws = record {
  from_str-to_string = λ v s h. (print-parse v s h).0;
  to_string_not_empty = λ v s h. (print-parse v s h).1;
}

abbrev pub message : String → ProtoStoredResponse
message id = record {
  response_id = id;
  upstream = "http://model/v1";
  response_json = "{queued";
  input_json = [];
  pending_upstream_request_json = some "'hello";
  upstream_authorization = some "Bearer token";
  enqueued_at = some (pos 1_746_500_000);
}

printed : core_to_proto sample "resp_1" queued ≡ ok (message "resp_1")
unfolding core_to_proto
printed = refl

proto_to_core-core_to_proto_example :
    (proto_to_core sample (message "resp_1") ≡ ok queued)
    × ((message "resp_1").response_id ≡ "resp_1")
proto_to_core-core_to_proto_example =
    proto_to_core-core_to_proto sample sample-TextLaws "resp_1" queued (message "resp_1") printed

abbrev service : ResponsesApiStoreService
service = record { store = config; queue = queue; default_stale_seconds = pos 60 }

abbrev request : ClaimRequest
request = record {
  consumer_group = "workers";
  consumer_name = "w1";
  count = 2;
  block_ms = 0;
  autoclaim_min_idle_ms = 1000;
}

abbrev world : Memory
world = write "test:resp_1" (some "queued") (write "test:resp_2" (some "queued") empty)

abbrev answer : ClaimResponse
answer = record {
  jobs =
      record {
        stream_id = "1000-0";
        response_id = "resp_1";
        message = some (message "resp_1");
        autoclaimed = true;
        idle_ms = some 1000;
      }
      ∷ record {
        stream_id = "1000-1";
        response_id = "resp_2";
        message = some (message "resp_2");
        autoclaimed = false;
        idle_ms = none;
      }
      ∷ [];
  pending_stream_ids = [];
  pending_jobs = [];
}

answered :
    (claim_background_jobs sample memory server (parse_uint max_u64) service request world).0
    ≡ ok answer
unfolding claim_background_jobs claim_count Claim.claim_jobs Claim.autoclaim_batch Claim.claim_idle
    Claim.fill_batch Claim.read_group Claim.read_group_with_connection Claim.entries_of
    Entries.jobs_from_stream_ids Entries.hydrate_all Entries.hydrate Entries.load_with_retries
    Entries.load_loop Entries.has_claimed_entries Entries.get_autoclaim_cursor
    Cursor.set_autoclaim_cursor Cursor.autoclaim_cursor_script autoclaim_cursor_key load key
    response_store_key core_job_to_proto core_to_proto
answered = refl

claim_background_jobs-bounded_example :
    (length answer.jobs + length answer.pending_jobs ≤ claim_count 2)
    × (claim_count 2 ≤ 100)
    × ((cursor : String) × (batch : Entries.ClaimBatchResult Value) × IsFilled sample memory server
          queue config
          (options_of request)
          cursor
          batch
        × (collect (core_job_to_proto sample) batch.jobs ≡ ok answer.jobs)
        × (answer.pending_jobs ≡ batch.pending_jobs)
        × (answer.pending_stream_ids ≡ map (λ p. p.stream_id) answer.pending_jobs))
claim_background_jobs-bounded_example =
    claim_background_jobs-bounded sample memory server server-ReplyLaws (parse_uint max_u64) service
      request world answer answered

read_label-escape_prometheus_label_value_example :
    read_label (escape_prometheus_label_value "a\"b\\n") ≡ some "a\"b\\n"
read_label-escape_prometheus_label_value_example =
    read_label-escape_prometheus_label_value "a\"b\\n"

abbrev no_variables : String → Option String
no_variables name = none

abbrev defaults : StoreConfig
defaults = record {
  redis_url = "redis://valkey:6379";
  key_prefix = "responses-api-store:responses";
  ttl_seconds = 86400;
  stream_key = "responses-api-store:background";
  stale_seconds = pos 3600;
  stream_maxlen = 10000;
}

read_defaults : from_env no_variables ≡ ok defaults
unfolding from_env parse_env_u64 parse_env_i64 parse_env_usize validate
read_defaults = refl

from_env-IsValid_example : IsValid defaults
from_env-IsValid_example = from_env-IsValid no_variables defaults read_defaults
