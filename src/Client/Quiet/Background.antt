-- ===== src/Client/Quiet/Background.antt =====
-- crates/client/src/lib.rs over crates/server/src/service.rs: the calls of a worker.
use responses_api_store.Common.{String, false, ◌≡◌, refl, ok, err, panic, inl, inr, Bool-cases}
use responses_api_store.Common.Text.{is_blank}
use responses_api_store.Record.{StoredResponse}
use responses_api_store.Serde.{Json, CodecLaws, TextLaws, PrintLaws}
use responses_api_store.Redis.{Redis}
use responses_api_store.Redis.Quiet.{QuietLaws, IsTtl}
use responses_api_store.Streams.{Streams}
use responses_api_store.Store.Prepare.{
  ClaimBackgroundPayload, prepare_claim_background, prepare_complete_background,
  prepare_fail_background,
}
use responses_api_store.Store.Transaction.{transition_atomic}
use responses_api_store.Store.Operations
use responses_api_store.Store.Spec.{Records, Outcome, transition, answer}
use responses_api_store.Store.Quiet.{Holds, Does}
use responses_api_store.Store.Quiet.Plain.{claim-IsOrderly, complete-IsOrderly, fail-IsOrderly}
use responses_api_store.Store.Quiet.Transition.{transition_atomic-Does}
use responses_api_store.Store.Quiet.Refine.{Does-answer}
use responses_api_store.Server.Service
use responses_api_store.Server.Service.{ResponsesApiStoreService}
use responses_api_store.Client.Calls
use responses_api_store.Client.Loopback.{Surroundings, loopback}
use responses_api_store.Client.Spec.{over, checked, completed}
use responses_api_store.Client.Sent.{sent}
use responses_api_store.Client.Quiet.{Acts, Acts-answered}

module _ (j : Json) (r : Redis) (quiet : QuietLaws r) (codec : CodecLaws j) (prints : PrintLaws j)
    (laws : TextLaws j) (s : Streams r.World) (around : Surroundings j r.World)
    (self : ResponsesApiStoreService) where
  open j use {Value}
  open r use {World}

  -- What is claimed reaches the client, the request included.
  claimed-Acts :
      (id : String) (w : World)
      (o : Outcome Value (StoredResponse Value × ClaimBackgroundPayload Value))
      → is_blank id ≡ false
      → Does j r quiet self.store (Operations.claim_background_response j r self.store id) w o
      → Acts j r quiet self.store
          (Calls.claim_background_response j (loopback j r s around self) id)
          w
          (over o)
  unfolding Calls.claim_background_response Service.claim_background_response
  claimed-Acts id w (ok (stored, payload), m) full (p, h) =
      let (text, printed) = prints.prints payload.pending_upstream_request in
      let (message, _, _, _, answer, back) = sent j prints laws id stored in
      rw
        (
          full,
          p,
          printed,
          answer,
          back,
          laws.from_str-to_string payload.pending_upstream_request text printed,
        )
        (refl, h)
  claimed-Acts id w (err e, m) full (p, h) = rw (full, p) (refl, h)
  claimed-Acts id w (panic, m) full (p, h) = rw (full, p) (refl, h)

  pub claim_background_response-Acts :
      (id : String) (w : World) (m : Records Value)
      → IsTtl self.store.default_ttl_seconds
      → Holds j r quiet self.store w m
      → Acts j r quiet self.store
          (Calls.claim_background_response j (loopback j r s around self) id)
          w
          (checked id "response_id is required" m
            (over (transition j id (prepare_claim_background j) (m id) m)))
  unfolding Operations.claim_background_response
  claim_background_response-Acts id w m positive h = elim (Bool-cases (is_blank id)) [
    | inl blank ↦ rw blank (
        unfold Calls.claim_background_response Service.claim_background_response in
        rw blank (refl, h))
    | inr full ↦ rw full (
        claimed-Acts id w (transition j id (prepare_claim_background j) (m id) m) full (
          transition_atomic-Does j r quiet codec self.store id (prepare_claim_background j) w m
            positive (claim-IsOrderly j) h))
  ]

  pub fail_background_response-Acts :
      (id message : String) (w : World) (m : Records Value)
      → IsTtl self.store.default_ttl_seconds
      → Holds j r quiet self.store w m
      → Acts j r quiet self.store
          (Calls.fail_background_response j (loopback j r s around self) id message)
          w
          (checked id "response_id is required" m (
            checked message "error_message is required" m (
              over (
                answer j
                  (λ a. a.0)
                  (transition j id
                    (λ stored i. prepare_fail_background j stored i message)
                    (m id)
                    m)))))
  unfolding Calls.fail_background_response Service.fail_background_response
      Operations.fail_background_response
  fail_background_response-Acts id message w m positive h = elim (Bool-cases (is_blank id)) [
    | inl blank ↦ rw blank (refl, h)
    | inr full ↦ elim (Bool-cases (is_blank message)) [
      | inl silent ↦ rw (full, silent) (refl, h)
      | inr said ↦
          rw (full, said)
            (Acts-answered j r quiet self.store prints laws
              (Operations.fail_background_response j r self.store id message) id w
              (answer j (λ a. a.0)
                (transition j id (λ stored i. prepare_fail_background j stored i message) (m id) m))
              (Does-answer j r quiet codec self.store _
                (transition_atomic j r self.store id
                  (λ stored i. prepare_fail_background j stored i message))
                w _
                (transition_atomic-Does j r quiet codec self.store id
                  (λ stored i. prepare_fail_background j stored i message) w m positive
                  (fail-IsOrderly j message) h)))
    ]
  ]

  pub complete_background_response-Acts :
      (id : String) (v : Value) (w : World) (m : Records Value)
      → IsTtl self.store.default_ttl_seconds
      → Holds j r quiet self.store w m
      → Acts j r quiet self.store
          (Calls.complete_background_response j (loopback j r s around self) id v)
          w
          (checked id "response_id is required" m (completed j id v m))
  unfolding Calls.complete_background_response Service.complete_background_response
      Operations.complete_background_response
  complete_background_response-Acts id v w m positive h =
      let (text, printed) = prints.prints v in
      let full_text : is_blank text ≡ false = laws.to_string_not_empty v text printed in
      let parsed : j.from_str text ≡ ok v = laws.from_str-to_string v text printed in
      elim (Bool-cases (is_blank id)) [
        | inl blank ↦ rw (printed, blank) (refl, h)
        | inr full ↦ elim (Bool-cases (j.is_object v)) [
          | inr other ↦ rw (printed, full, full_text, parsed, other) (refl, h)
          | inl object ↦
              rw (printed, full, full_text, parsed, object)
                (Acts-answered j r quiet self.store prints laws
                  (Operations.complete_background_response j r self.store id v) id w
                  (answer j (λ a. a.0)
                    (transition j id (λ stored i. prepare_complete_background j stored i v) (m id)
                      m))
                  (Does-answer j r quiet codec self.store _
                    (transition_atomic j r self.store id
                      (λ stored i. prepare_complete_background j stored i v))
                    w _
                    (transition_atomic-Does j r quiet codec self.store id
                      (λ stored i. prepare_complete_background j stored i v) w m positive
                      (complete-IsOrderly j v) h)))
        ]
      ]
