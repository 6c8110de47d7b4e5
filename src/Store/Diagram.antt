-- ===== src/Store/Diagram.antt =====
-- crates/core/src/store.rs: the background transitions as a step relation on records, and the
-- diagram of statuses that they follow.
use responses_api_store.Common.{
  String, true, Option, some, ◌≡◌, inl, inr, Result, ok, arith, ap, ◌∙◌,
}
use responses_api_store.Record.{StoredResponse}
use responses_api_store.Serde.{Json, ObjectLaws}
use responses_api_store.Serde.Object.{get-insert_all, get-object}
use responses_api_store.Model.{stored_response_status, should_reconcile_stale}
use responses_api_store.Model.Status.{has_status_iff}
use responses_api_store.Store.Prepare.{
  ClaimBackgroundPayload, prepare_claim_background, without_request, prepare_complete_background,
  failed_response, prepare_fail_background, apply_stale_failure,
}
use responses_api_store.Store.Lifecycle.{
  claimed_response, completed_response, prepare_claim_cases, prepare_complete_cases,
  prepare_fail_cases, is_object-stored,
}

-- One committed background transition of the record under an id.
pub data Step (j : Json) (id : String) (s u : StoredResponse j.Value) : Type 0 where
  claim :
      (p : ClaimBackgroundPayload j.Value)
      → prepare_claim_background j s id ≡ ok (u, p)
      → Step j id s u
  complete : (v : j.Value) → prepare_complete_background j s id v ≡ ok (u, tt) → Step j id s u
  fail : (message : String) → prepare_fail_background j s id message ≡ ok (u, tt) → Step j id s u
  reconcile : should_reconcile_stale j s ≡ true → u ≡ apply_stale_failure j s id → Step j id s u

pub data Run (j : Json) (id : String) (s : StoredResponse j.Value)
    : StoredResponse j.Value → Type 0 where
  here : Run j id s s
  next : {t u : StoredResponse j.Value} → Run j id s t → Step j id t u → Run j id s u

-- The diagram: queued → in_progress → completed or failed, and queued → failed.
pub data Edge (s u : Option String) : Type 0 where
  start : s ≡ some "queued" → u ≡ some "in_progress" → Edge s u
  finish : s ≡ some "in_progress" → u ≡ some "completed" → Edge s u
  abort : s ≡ some "in_progress" → u ≡ some "failed" → Edge s u
  reject : s ≡ some "queued" → u ≡ some "failed" → Edge s u

-- Two results of one computation are one.
pub same :
    {E A : Type 0} {m : Result E (A × Unit {0})} {a b : A} → m ≡ ok (a, tt) → m ≡ ok (b, tt) → a ≡ b
same p q = cc

pub claimed-same :
    {E A B : Type 0} {m : Result E (A × B)} {a b : A} {x y : B}
    → m ≡ ok (a, x)
    → m ≡ ok (b, y)
    → a ≡ b
claimed-same p q = cc

module _ (j : Json) (laws : ObjectLaws j) where
  open j use {Value}

  pub status-claimed :
      (stored : StoredResponse Value) (id : String)
      → stored_response_status j stored ≡ some "queued"
      → stored_response_status j
          (record stored { response = claimed_response j stored.response id })
        ≡ some "in_progress"
  unfolding stored_response_status
  status-claimed stored id q =
      rw
        (get-insert_all j laws stored.response _ "status"
          (is_object-stored j laws stored "queued" q))
        (laws.as_str_text "in_progress")

  pub status-completed :
      (stored : StoredResponse Value) (id : String) (v : Value)
      → j.is_object v ≡ true
      → stored_response_status j (without_request j stored (completed_response j v id))
        ≡ some "completed"
  unfolding stored_response_status
  status-completed stored id v h =
      rw (get-insert_all j laws v _ "status" h) (laws.as_str_text "completed")

  status-failed :
      (stored : StoredResponse Value) (id message : String)
      → stored_response_status j (without_request j stored (failed_response j id message))
        ≡ some "failed"
  unfolding stored_response_status
  status-failed stored id message = rw (get-object j laws _ "status") (laws.as_str_text "failed")

  stale-status :
      (stored : StoredResponse Value) (id : String)
      → stored_response_status j (apply_stale_failure j stored id) ≡ some "failed"
  unfolding apply_stale_failure
  stale-status stored id = status-failed stored id "background response stale"

  should_reconcile-queued :
      (stored : StoredResponse Value)
      → should_reconcile_stale j stored ≡ true
      → stored_response_status j stored ≡ some "queued"
  unfolding should_reconcile_stale
  should_reconcile-queued stored h = ground (arith, has_status_iff j stored "queued")

  -- Every committed background transition follows an edge of the status diagram: queued to
  -- in_progress, in_progress to completed or failed, queued to failed; for a JSON library with
  -- the documented behaviour of objects.
  pub Step-Edge :
      {id : String} {s u : StoredResponse Value}
      → Step j id s u
      → Edge (stored_response_status j s) (stored_response_status j u)
  Step-Edge {id} {s} (claim p e) = elim (prepare_claim_cases j laws s id) [
    | inl (pending, q, has, r) ↦
        start q (ap (stored_response_status j) (claimed-same e r) ∙ status-claimed s id q)
    | inr (m, never, r) ↦ ground arith
  ]
  Step-Edge {id} {s} {u} (complete v e) = elim (prepare_complete_cases j laws s id v) [
    | inl (object, q, r) ↦
        finish q (ap (stored_response_status j) (same e r) ∙ status-completed s id v object)
    | inr (inl (m, object, never, r)) ↦ ground arith
    | inr (inr (m, other, r)) ↦ ground arith
  ]
  Step-Edge {id} {s} (fail message e) = elim (prepare_fail_cases j laws s id message) [
    | inl (inl c, r) ↦
        reject c.0 (ap (stored_response_status j) (same e r) ∙ status-failed s id message)
    | inl (inr q, r) ↦
        abort q (ap (stored_response_status j) (same e r) ∙ status-failed s id message)
    | inr (m, never, r) ↦ ground arith
  ]
  Step-Edge {id} {s} (reconcile stale e) =
      reject (should_reconcile-queued s stale) (ap (stored_response_status j) e ∙ stale-status s id)
