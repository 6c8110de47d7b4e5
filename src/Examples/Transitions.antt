-- ===== src/Examples/Transitions.antt =====
-- The background transitions at sample records.
use responses_api_store.Store.Prepare.{failed_response}
use responses_api_store.Model.Status.{IsTerminal}
use responses_api_store.Common.{
  ◌≡◌, ◌≢◌, refl, ◌⊎◌, ◌≤◌, ok, err, true, false, some, inl, inr, String,
}
use responses_api_store.Error.{failed_precondition, invalid_argument}
use responses_api_store.Record.{StoredResponse}
use responses_api_store.Serde.{ObjectLaws}
use responses_api_store.Model.{
  stored_response_status, is_terminal_background_status, is_in_progress_background,
  is_claimable_background,
}
use responses_api_store.Store.Prepare.{
  prepare_claim_background, prepare_complete_background, prepare_fail_background, without_request,
}
use responses_api_store.Store.Lifecycle.{
  prepare_claim_cases, prepare_complete_cases, prepare_fail_cases, claimed_response,
  completed_response, payload_of, IsClaimable,
}
use responses_api_store.Store.Diagram.{Step, claim, complete, Run, here, next, Edge, Step-Edge}
use responses_api_store.Store.Runs.{
  steps, claims, steps-le_two, claims-le_one, Run-terminal, Step-HasNoRequest, HasNoRequest,
}
use responses_api_store.Store.Stamps.{Changes, Step-Changes}
use responses_api_store.Examples.Values.{Value, text, object, end, json-ObjectLaws, put, member}
use responses_api_store.Examples.Samples.{sample, queued, cancelled}

abbrev laws : ObjectLaws sample
laws = json-ObjectLaws _ _ _ _

abbrev claimed : StoredResponse Value
claimed = record queued { response = claimed_response sample queued.response "resp_1" }

abbrev done : StoredResponse Value
done = without_request sample claimed (completed_response sample (object end) "resp_1")

first_claim : Step sample "resp_1" queued claimed
unfolding prepare_claim_background is_terminal_background_status is_in_progress_background
    is_claimable_background stored_response_status put member
first_claim = claim (payload_of sample queued (text "hello")) refl

completion : Step sample "resp_1" claimed done
unfolding prepare_complete_background is_terminal_background_status is_in_progress_background
    stored_response_status put member
completion = complete (object end) refl

whole_run : Run sample "resp_1" queued done
whole_run = next (next here first_claim) completion

prepare_claim_cases_example :
    ((pending : Value) × (stored_response_status sample queued ≡ some "queued")
      × (queued.pending_upstream_request ≡ some pending)
      × (prepare_claim_background sample queued "resp_1"
          ≡ ok (claimed, payload_of sample queued pending)))
    ⊎ ((m : String) × ¬ IsClaimable sample queued
        × (prepare_claim_background sample queued "resp_1" ≡ err (failed_precondition m)))
prepare_claim_cases_example = prepare_claim_cases sample laws queued "resp_1"

prepare_complete_cases_example :
    ((true ≡ true)
      × (stored_response_status sample claimed ≡ some "in_progress")
      × (prepare_complete_background sample claimed "resp_1" (object end) ≡ ok (done, tt)))
    ⊎ (((m : String) × (true ≡ true)
          × (stored_response_status sample claimed ≢ some "in_progress")
          × (prepare_complete_background sample claimed "resp_1" (object end)
              ≡ err (failed_precondition m)))
        ⊎ ((m : String) × (true ≡ false)
            × (prepare_complete_background sample claimed "resp_1" (object end)
                ≡ err (invalid_argument m))))
prepare_complete_cases_example = prepare_complete_cases sample laws claimed "resp_1" (object end)

prepare_fail_cases_example :
    ((IsClaimable sample cancelled ⊎ (stored_response_status sample cancelled ≡ some "in_progress"))
      × (prepare_fail_background sample cancelled "resp_1" "lost"
          ≡ ok (without_request sample cancelled (failed_response sample "resp_1" "lost"), tt)))
    ⊎ ((m : String) × ¬ (
          IsClaimable sample cancelled
          ⊎ (stored_response_status sample cancelled ≡ some "in_progress"))
        × (prepare_fail_background sample cancelled "resp_1" "lost" ≡ err (failed_precondition m)))
prepare_fail_cases_example = prepare_fail_cases sample laws cancelled "resp_1" "lost"

Step-Edge_example :
    Edge (stored_response_status sample queued) (stored_response_status sample claimed)
Step-Edge_example = Step-Edge sample laws first_claim

steps-le_two_example : steps whole_run ≤ 2
steps-le_two_example = steps-le_two sample laws whole_run

claims-le_one_example : claims whole_run ≤ 1
claims-le_one_example = claims-le_one sample laws whole_run

cancelled-IsTerminal : IsTerminal sample cancelled
unfolding stored_response_status member
cancelled-IsTerminal = inr (inl refl)

Run-terminal_example : cancelled ≡ cancelled
Run-terminal_example = Run-terminal sample laws {id = "resp_1"} cancelled-IsTerminal here

done-IsTerminal : IsTerminal sample done
unfolding stored_response_status put member
done-IsTerminal = inr (inr (inl refl))

Step-HasNoRequest_example : HasNoRequest sample laws done
Step-HasNoRequest_example = Step-HasNoRequest sample laws completion done-IsTerminal

Step-Changes_example : Changes sample "resp_1" claimed done
Step-Changes_example = Step-Changes sample laws completion
