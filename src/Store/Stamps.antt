-- ===== src/Store/Stamps.antt =====
-- crates/core/src/store.rs: what each background transition stamps on a record and what it keeps.
use responses_api_store.Common.{String, true, some, ◌≡◌, refl, inl, inr, arith}
use responses_api_store.Record.{StoredResponse}
use responses_api_store.Serde.{Json, ObjectLaws}
use responses_api_store.Serde.Object.{get-insert_all, get-object}
use responses_api_store.Store.Prepare.{apply_stale_failure, without_request, failed_response}
use responses_api_store.Store.Lifecycle.{
  claimed_response, completed_response, prepare_claim_cases, prepare_complete_cases,
  prepare_fail_cases, is_object-stored,
}
use responses_api_store.Store.Diagram.{Step, claim, complete, fail, reconcile, same, claimed-same}

module _ (j : Json) where
  open j use {Value}

  -- The response object names its id and is marked as a background response.
  abbrev pub IsStamped : String → StoredResponse Value → Type 0
  IsStamped id u =
      (j.get u.response "id" ≡ some (j.text id))
      × (j.get u.response "background" ≡ some (j.boolean true))

  -- The request's origin, input and time are the same.
  abbrev pub Keeps : StoredResponse Value → StoredResponse Value → Type 0
  Keeps s u = (u.upstream ≡ s.upstream) × (u.input ≡ s.input) × (u.enqueued_at ≡ s.enqueued_at)

  abbrev pub Changes : String → StoredResponse Value → StoredResponse Value → Type 0
  Changes id s u = IsStamped id u × Keeps s u

module _ (j : Json) (laws : ObjectLaws j) where
  open j use {Value}

  claimed-Changes :
      (s : StoredResponse Value) (id : String)
      → j.is_object s.response ≡ true
      → Changes j id s (record s { response = claimed_response j s.response id })
  claimed-Changes s id h = (
    (
      rw (get-insert_all j laws s.response _ "id" h),
      rw (get-insert_all j laws s.response _ "background" h),
    ),
    (refl, refl, refl),
  )

  completed-Changes :
      (s : StoredResponse Value) (id : String) (v : Value)
      → j.is_object v ≡ true
      → Changes j id s (without_request j s (completed_response j v id))
  completed-Changes s id v h = (
    (rw (get-insert_all j laws v _ "id" h), rw (get-insert_all j laws v _ "background" h)),
    (refl, refl, refl),
  )

  failed-Changes :
      (s : StoredResponse Value) (id message : String)
      → Changes j id s (without_request j s (failed_response j id message))
  failed-Changes s id message =
      ((rw (get-object j laws _ "id"), rw (get-object j laws _ "background")), (refl, refl, refl))

  -- After every committed background transition the response names its id and is marked as a
  -- background response, and the record keeps its upstream, its input and the time when it was
  -- enqueued; for a JSON library with the documented behaviour of objects.
  pub Step-Changes : {id : String} {s u : StoredResponse Value} → Step j id s u → Changes j id s u
  unfolding apply_stale_failure
  Step-Changes {id} {s} {u} (claim p e) = elim (prepare_claim_cases j laws s id) [
    | inl (pending, q, has, r) ↦
        rw (claimed-same e r) (claimed-Changes s id (is_object-stored j laws s "queued" q))
    | inr (m, never, r) ↦ ground arith
  ]
  Step-Changes {id} {s} {u} (complete v e) = elim (prepare_complete_cases j laws s id v) [
    | inl (object, q, r) ↦ rw (same e r) (completed-Changes s id v object)
    | inr (inl (m, object, never, r)) ↦ ground arith
    | inr (inr (m, other, r)) ↦ ground arith
  ]
  Step-Changes {id} {s} {u} (fail message e) = elim (prepare_fail_cases j laws s id message) [
    | inl (c, r) ↦ rw (same e r) (failed-Changes s id message)
    | inr (m, never, r) ↦ ground arith
  ]
  Step-Changes {id} {s} {u} (reconcile stale e) =
      rw e (failed-Changes s id "background response stale")
