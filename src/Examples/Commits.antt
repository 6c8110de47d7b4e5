-- ===== src/Examples/Commits.antt =====
-- A claim on the server in memory.
use responses_api_store.Common.{◌≡◌, refl, ok, some}
use responses_api_store.Record.{StoredResponse}
use responses_api_store.Model.{
  stored_response_status, is_terminal_background_status, is_in_progress_background,
  is_claimable_background, response_store_key,
}
use responses_api_store.Common.Int.{ℤ, pos}
use responses_api_store.Model.{should_reconcile_stale, is_stale_enqueued}
use responses_api_store.Store.Prepare.{prepare_claim_background, apply_stale_failure}
use responses_api_store.Store.Stale.{IsReconciled}
use responses_api_store.Store.Reconciled.{reconcile_stale_atomic-IsReconciled}
use responses_api_store.Store.Lifecycle.{claimed_response, payload_of}
use responses_api_store.Store.Transaction
use responses_api_store.Store.Transaction.{key, transition_atomic, reconcile_stale_atomic}
use responses_api_store.Store.Atomic.{IsCommitted}
use responses_api_store.Store.Commit.{transition_atomic-Commits}
use responses_api_store.Examples.Values.{Value, text, put, member}
use responses_api_store.Examples.Samples.{sample, queued, config}
use responses_api_store.Examples.Memory.{Memory, memory, memory-WatchLaws, write, empty}

abbrev claimed : StoredResponse Value
claimed = record queued { response = claimed_response sample queued.response "resp_1" }

abbrev stored : Memory
stored = write "test:resp_1" (some "queued") empty

claim_returns :
    (transition_atomic sample memory config "resp_1" (prepare_claim_background sample) stored).0
    ≡ ok (claimed, payload_of sample queued (text "hello"))
unfolding transition_atomic Transaction.transition_loop Transaction.transition_attempt
    Transaction.transition_read Transaction.transition_values Transaction.transition_payload
    Transaction.commit_values Transaction.write_back key response_store_key prepare_claim_background
    is_terminal_background_status is_in_progress_background is_claimable_background
    stored_response_status put member
claim_returns = refl

transition_atomic-Commits_example :
    IsCommitted sample memory memory-WatchLaws
      (key config "resp_1")
      "resp_1"
      (prepare_claim_background sample)
      (claimed, payload_of sample queued (text "hello"))
      (transition_atomic sample memory config "resp_1" (prepare_claim_background sample) stored).1
transition_atomic-Commits_example =
    transition_atomic-Commits sample memory memory-WatchLaws config "resp_1"
      (prepare_claim_background sample) stored (claimed, payload_of sample queued (text "hello"))
      claim_returns

abbrev late : ℤ
late = pos 1_746_500_060

abbrev failed : StoredResponse Value
failed = apply_stale_failure sample queued "resp_1"

fails : (reconcile_stale_atomic sample memory config "resp_1" late (pos 60) stored).0 ≡ ok failed
unfolding reconcile_stale_atomic Transaction.reconcile_loop
    Transaction.reconcile_stale_transaction_attempt Transaction.reconcile_read
    Transaction.reconcile_values Transaction.write_back key response_store_key
    should_reconcile_stale is_stale_enqueued apply_stale_failure stored_response_status put member
fails = refl

reconcile_stale_atomic-IsReconciled_example :
    IsReconciled sample memory memory-WatchLaws "resp_1" late
      (pos 60)
      (key config "resp_1")
      failed
      (reconcile_stale_atomic sample memory config "resp_1" late (pos 60) stored).1
reconcile_stale_atomic-IsReconciled_example =
    reconcile_stale_atomic-IsReconciled sample memory memory-WatchLaws "resp_1" late (pos 60) config
      stored failed fails
