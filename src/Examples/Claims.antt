-- ===== src/Examples/Claims.antt =====
-- A claim of jobs on the stream in memory.
use responses_api_store.Common.{◌≡◌, ◌≢◌, refl, ok, panic, true, false, some, none}
use responses_api_store.Model.{response_store_key}
use responses_api_store.Store.Transaction.{key, load}
use responses_api_store.Queue.Entries
use responses_api_store.Queue.Entries.{ClaimBatchResult, extend, has_claimed_entries, one_job, job}
use responses_api_store.Queue.Claim
use responses_api_store.Queue.Claim.{claim_jobs, autoclaim_batch}
use responses_api_store.Queue.Filled.{IsFilled}
use responses_api_store.Queue.Fill.{claim_jobs-IsFilled}
use responses_api_store.Queue.Keeps.{claim_jobs-NeverPanics, claim_jobs-Extends}
use responses_api_store.Examples.Values.{Value}
use responses_api_store.Examples.Memory.{Memory, memory, write, empty}
use responses_api_store.Examples.Samples.{sample, queued, config}
use responses_api_store.Examples.Server.{
  idle, fresh, server, server-ReplyLaws, server-CalmLaws, queue, options,
}

abbrev world : Memory
world = write "test:resp_1" (some "queued") (write "test:resp_2" (some "queued") empty)

abbrev first : ClaimBatchResult Value
first = one_job (job idle "resp_1" true (some 1000) queued)

abbrev second : ClaimBatchResult Value
second = one_job (job fresh "resp_2" false none queued)

idle_claimed :
    (autoclaim_batch sample memory server queue config options "0-0" world).0 ≡ ok (first, "0-0")
unfolding autoclaim_batch Claim.claim_idle Entries.jobs_from_stream_ids Entries.hydrate_all
    Entries.hydrate Entries.load_with_retries Entries.load_loop load key response_store_key
idle_claimed = refl

claimed :
    (claim_jobs sample memory server queue config options "0-0" world).0
    ≡ ok (extend first second, "0-0")
unfolding claim_jobs autoclaim_batch Claim.claim_idle Claim.fill_batch Claim.read_group
    Claim.read_group_with_connection Claim.entries_of Entries.jobs_from_stream_ids
    Entries.hydrate_all Entries.hydrate Entries.load_with_retries Entries.load_loop
    has_claimed_entries load key response_store_key
claimed = refl

claim_jobs-IsFilled_example :
    IsFilled sample memory server queue config options "0-0" (extend first second)
claim_jobs-IsFilled_example =
    claim_jobs-IsFilled sample memory server server-ReplyLaws queue config options "0-0" world
      (extend first second, "0-0") claimed

has_first : has_claimed_entries first ≡ true
unfolding has_claimed_entries
has_first = refl

claim_jobs-Extends_example :
    (more : ClaimBatchResult Value) × ((claim_jobs sample memory server queue config options "0-0"
        world).0
      ≡ ok (extend first more, "0-0"))
claim_jobs-Extends_example =
    claim_jobs-Extends sample memory server server-CalmLaws queue config options "0-0" world
      (first, "0-0") idle_claimed has_first

claim_jobs-NeverPanics_example :
    (claim_jobs sample memory server queue config options "0-0" world).0 ≢ panic
claim_jobs-NeverPanics_example =
    claim_jobs-NeverPanics sample memory server server-CalmLaws queue config options "0-0" world
