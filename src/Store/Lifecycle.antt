-- ===== src/Store/Lifecycle.antt =====
-- crates/core/src/store.rs: what the background transitions do to a record, branch by branch.
use Prim.Native.String.{◌++◌}
use responses_api_store.Common.{
  String, true, false, none, some, [], ◌∷◌, ◌≡◌, ◌≢◌, ◌⊎◌, ◌↔◌, inl, inr, ok, err, arith,
  Bool-cases, Option-cases,
}
use responses_api_store.Error.{failed_precondition, invalid_argument}
use responses_api_store.Record.{StoredResponse}
use responses_api_store.Serde.{Json, ObjectLaws, insert_all, object}
use responses_api_store.Serde.Object.{index_set_three}
use responses_api_store.Model.{
  stored_response_status, is_terminal_background_status, is_in_progress_background,
  is_claimable_background,
}
use responses_api_store.Model.Status.{is_claimable_iff, is_in_progress_iff}
use responses_api_store.Store.Prepare.{
  ClaimBackgroundPayload, in_response, prepare_claim_background, without_request,
  prepare_complete_background, failed_response, prepare_fail_background,
}

module _ (j : Json) where
  open j use {Value}

  -- The object that a claim writes.
  abbrev pub claimed_response : Value → String → Value
  claimed_response v id =
      insert_all j v
        (("status", j.text "in_progress") ∷ ("id", j.text id) ∷ ("background", j.boolean true) ∷ [])

  abbrev pub completed_response : Value → String → Value
  completed_response v id =
      insert_all j v
        (("id", j.text id) ∷ ("status", j.text "completed") ∷ ("background", j.boolean true) ∷ [])

  abbrev pub payload_of : StoredResponse Value → Value → ClaimBackgroundPayload Value
  payload_of stored pending = record {
    upstream = stored.upstream;
    pending_upstream_request = pending;
    upstream_authorization = stored.upstream_authorization;
  }

  -- What a claim needs.
  abbrev pub IsClaimable : StoredResponse Value → Type 0
  IsClaimable stored =
      (stored_response_status j stored ≡ some "queued") × (stored.pending_upstream_request ≢ none)

module _ (j : Json) (laws : ObjectLaws j) where
  open j use {Value}

  pub is_object-stored :
      (stored : StoredResponse Value) (s : String)
      → stored_response_status j stored ≡ some s
      → j.is_object stored.response ≡ true
  unfolding stored_response_status
  is_object-stored stored s h = elim (Option-cases (j.get stored.response "status")) [
    | inl missing ↦ ground (arith, missing)
    | inr (v, found) ↦ laws.is_object_of_get stored.response "status" v found
  ]

  -- A claim of a queued record with a pending request succeeds.
  pub prepare_claim_queued :
      (stored : StoredResponse Value) (id : String) (pending : Value)
      → stored_response_status j stored ≡ some "queued"
      → stored.pending_upstream_request ≡ some pending
      → prepare_claim_background j stored id
        ≡ ok (
          record stored { response = claimed_response j stored.response id },
          payload_of j stored pending,
        )
  unfolding prepare_claim_background is_terminal_background_status is_in_progress_background
      is_claimable_background
  prepare_claim_queued stored id pending q p =
      rw (q, p)
        (index_set_three j laws stored.response "status" "id" "background" _ _ _ _
          (is_object-stored stored "queued" q))

  IsClaimable-iff :
      (stored : StoredResponse Value)
      → (is_claimable_background j stored ≡ true) ↔ IsClaimable j stored
  unfolding is_claimable_background
  IsClaimable-iff stored = ground (arith, is_claimable_iff j stored)

  refused_claim :
      (stored : StoredResponse Value) (id : String)
      → is_claimable_background j stored ≡ false
      → (m : String) × ¬ IsClaimable j stored
        × (prepare_claim_background j stored id ≡ err (failed_precondition m))
  unfolding prepare_claim_background
  refused_claim stored id refused =
      let never : ¬ IsClaimable j stored = λ c. ground (arith, (IsClaimable-iff stored).1 c) in
      elim (Bool-cases (is_terminal_background_status j stored)) [
        | inl t ↦ (in_response id " is in a terminal state", never, rw t)
        | inr f ↦ elim (Bool-cases (is_in_progress_background j stored)) [
          | inl t ↦ (in_response id " is already in progress", never, rw (f, t))
          | inr g ↦ (in_response id " is not claimable", never, rw (f, g, refused))
        ]
      ]

  -- A claim returns the claimed record and the payload if the record is queued and has a request;
  -- any other record is refused with a failed precondition, and it never panics; for a JSON
  -- library with the documented behaviour of objects.
  pub prepare_claim_cases :
      (stored : StoredResponse Value) (id : String)
      → ((pending : Value) × (stored_response_status j stored ≡ some "queued")
          × (stored.pending_upstream_request ≡ some pending)
          × (prepare_claim_background j stored id
              ≡ ok (
                record stored { response = claimed_response j stored.response id },
                payload_of j stored pending,
              )))
        ⊎ ((m : String) × ¬ IsClaimable j stored
            × (prepare_claim_background j stored id ≡ err (failed_precondition m)))
  prepare_claim_cases stored id = elim (Bool-cases (is_claimable_background j stored)) [
    | inl claimable ↦
        let (some_pending, q) = (is_claimable_iff j stored).0 claimable in
        elim (Option-cases stored.pending_upstream_request) [
          | inl missing ↦ ground (arith, missing)
          | inr (pending, p) ↦ inl (pending, q, p, prepare_claim_queued stored id pending q p)
        ]
    | inr refused ↦ inr (refused_claim stored id refused)
  ]

  in_progress-not-terminal :
      (stored : StoredResponse Value)
      → stored_response_status j stored ≡ some "in_progress"
      → is_terminal_background_status j stored ≡ false
  unfolding is_terminal_background_status
  in_progress-not-terminal stored q = rw q

  queued-not-terminal :
      (stored : StoredResponse Value)
      → stored_response_status j stored ≡ some "queued"
      → is_terminal_background_status j stored ≡ false
  unfolding is_terminal_background_status
  queued-not-terminal stored q = rw q

  neither :
      (stored : StoredResponse Value)
      → is_claimable_background j stored ≡ false
      → is_in_progress_background j stored ≡ false
      → ¬ (IsClaimable j stored ⊎ (stored_response_status j stored ≡ some "in_progress"))
  neither stored f g (inl c) = ground (arith, (IsClaimable-iff stored).1 c)
  neither stored f g (inr e) = ground (arith, (is_in_progress_iff j stored).1 e)

  -- A completion with an object succeeds exactly for a record in progress and drops the request
  -- and the authorization; any other record is refused, a value that is no object is an invalid
  -- argument, and it never panics; for a JSON library with the documented behaviour of objects.
  pub prepare_complete_cases :
      (stored : StoredResponse Value) (id : String) (v : Value)
      → ((j.is_object v ≡ true)
          × (stored_response_status j stored ≡ some "in_progress")
          × (prepare_complete_background j stored id v
              ≡ ok (without_request j stored (completed_response j v id), tt)))
        ⊎ (((m : String) × (j.is_object v ≡ true)
              × (stored_response_status j stored ≢ some "in_progress")
              × (prepare_complete_background j stored id v ≡ err (failed_precondition m)))
            ⊎ ((m : String) × (j.is_object v ≡ false)
                × (prepare_complete_background j stored id v ≡ err (invalid_argument m))))
  unfolding prepare_complete_background
  prepare_complete_cases stored id v = elim (Bool-cases (j.is_object v)) [
    | inr other ↦
        inr (inr ("completed response for " ++ (id ++ " must be a JSON object"), other, rw other))
    | inl object ↦ elim (Bool-cases (is_in_progress_background j stored)) [
      | inr g ↦
          let never : stored_response_status j stored ≢ some "in_progress" =
            λ e. ground (arith, (is_in_progress_iff j stored).1 e) in
          elim (Bool-cases (is_terminal_background_status j stored)) [
            | inl t ↦
                inr (inl (in_response id " is in a terminal state", object, never, rw (object, t)))
            | inr f ↦
                inr (inl (in_response id " is not in progress", object, never, rw (object, f, g)))
          ]
      | inl progress ↦
          let q : stored_response_status j stored ≡ some "in_progress" =
            (is_in_progress_iff j stored).0 progress in
          inl (
            object,
            q,
            rw (object, in_progress-not-terminal stored q, progress)
                (index_set_three j laws v "id" "status" "background" _ _ _ _ object),
          )
    ]
  ]

  -- A failure succeeds exactly for a record that is claimable or in progress and drops the
  -- request and the authorization; any other record is refused, and it never panics; for a JSON
  -- library with the documented behaviour of objects.
  pub prepare_fail_cases :
      (stored : StoredResponse Value) (id message : String)
      → ((IsClaimable j stored ⊎ (stored_response_status j stored ≡ some "in_progress"))
          × (prepare_fail_background j stored id message
              ≡ ok (without_request j stored (failed_response j id message), tt)))
        ⊎ ((m : String) × ¬ (
              IsClaimable j stored ⊎ (stored_response_status j stored ≡ some "in_progress"))
            × (prepare_fail_background j stored id message ≡ err (failed_precondition m)))
  unfolding prepare_fail_background
  prepare_fail_cases stored id message = elim (Bool-cases (is_in_progress_background j stored)) [
    | inl progress ↦
        let q : stored_response_status j stored ≡ some "in_progress" =
          (is_in_progress_iff j stored).0 progress in
        inl (inr q, rw (in_progress-not-terminal stored q, progress) (ground arith))
    | inr g ↦ elim (Bool-cases (is_claimable_background j stored)) [
      | inl claimable ↦
          let c : IsClaimable j stored = (IsClaimable-iff stored).0 claimable in
          inl (inl c, rw (queued-not-terminal stored c.0, claimable) (ground arith))
      | inr f ↦
          let never : ¬ (
              IsClaimable j stored ⊎ (stored_response_status j stored ≡ some "in_progress")) =
            neither stored f g in
          elim (Bool-cases (is_terminal_background_status j stored)) [
            | inl t ↦ inr (in_response id " is in a terminal state", never, rw t)
            | inr h ↦ inr (in_response id " is not in progress", never, rw (h, f, g))
          ]
    ]
  ]
