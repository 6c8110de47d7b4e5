-- ===== src/Store/Runs.antt =====
-- crates/core/src/store.rs: runs of background transitions on one record.
use responses_api_store.Common.{
  ℕ, suc, ◌+◌, ◌≤◌, ◌<◌, String, ◌==◌, Option, none, some, ◌≡◌, refl, ◌⊎◌, inl, inr, arith, ap, ◌∙◌,
  if◌then◌else◌,
}
use responses_api_store.Record.{StoredResponse}
use responses_api_store.Serde.{Json, ObjectLaws}
use responses_api_store.Model.{stored_response_status}
use responses_api_store.Model.Status.{IsTerminal}
use responses_api_store.Store.Prepare.{apply_stale_failure, without_request, failed_response}
use responses_api_store.Store.Lifecycle.{
  completed_response, prepare_claim_cases, prepare_complete_cases, prepare_fail_cases,
}
use responses_api_store.Store.Diagram.{
  Step, claim, complete, fail, reconcile, Run, here, next, Edge, start, finish, abort, reject,
  Step-Edge, same, claimed-same, status-claimed,
}

-- How far a status is along the diagram.
abbrev rank : Option String → ℕ
rank none = 2
rank (some s) = if s == "queued" then 0 else if s == "in_progress" then 1 else 2

rank-Edge : {s u : Option String} → Edge s u → rank s < rank u
rank-Edge (start p q) = rw (p, q) (omega arith)
rank-Edge (finish p q) = rw (p, q) (omega arith)
rank-Edge (abort p q) = rw (p, q) (omega arith)
rank-Edge (reject p q) = rw (p, q) (omega arith)

rank-le : (s : Option String) → rank s ≤ 2
rank-le none = omega arith
rank-le (some s) = ground arith

unfoldable pub steps : {j : Json} {id : String} {s t : StoredResponse j.Value} → Run j id s t → ℕ
steps here = 0
steps (next r st) = suc (steps r)

abbrev is_claim : {j : Json} {id : String} {s t : StoredResponse j.Value} → Step j id s t → ℕ
is_claim (claim p e) = 1
is_claim (complete v e) = 0
is_claim (fail m e) = 0
is_claim (reconcile h e) = 0

is_claim-le :
    {j : Json} {id : String} {s t : StoredResponse j.Value} (st : Step j id s t) → is_claim st ≤ 1
is_claim-le (claim p e) = omega arith
is_claim-le (complete v e) = omega arith
is_claim-le (fail m e) = omega arith
is_claim-le (reconcile h e) = omega arith

unfoldable pub claims : {j : Json} {id : String} {s t : StoredResponse j.Value} → Run j id s t → ℕ
claims here = 0
claims (next r st) = is_claim st + claims r

module _ (j : Json) (laws : ObjectLaws j) where
  open j use {Value}

  abbrev rank_of : StoredResponse Value → ℕ
  rank_of s = rank (stored_response_status j s)

  steps-rank :
      {id : String} {s t : StoredResponse Value} (r : Run j id s t)
      → steps r + rank_of s ≤ rank_of t
  unfolding steps
  steps-rank here = omega arith
  steps-rank (next r st) = omega (arith, steps-rank r, rank-Edge (Step-Edge j laws st))

  -- At most two background transitions are committed to a record one after another, with no other
  -- write of the record in between; for a JSON library with the documented behaviour of objects.
  pub steps-le_two : {id : String} {s t : StoredResponse Value} (r : Run j id s t) → steps r ≤ 2
  steps-le_two {t = t} r = omega (arith, steps-rank r, rank-le (stored_response_status j t))

  claim-rank :
      {id : String} {s u : StoredResponse Value} (st : Step j id s u)
      → (rank_of s < 1) ⊎ (is_claim st ≡ 0)
  claim-rank {id} {s} (claim p e) = elim (prepare_claim_cases j laws s id) [
    | inl (pending, q, has, r) ↦ inl (rw q (omega arith))
    | inr (m, never, r) ↦ ground arith
  ]
  claim-rank (complete v e) = inr refl
  claim-rank (fail m e) = inr refl
  claim-rank (reconcile h e) = inr refl

  claims-rank :
      {id : String} {s t : StoredResponse Value} (r : Run j id s t)
      → (claims r ≤ 1) × (claims r ≤ rank_of t)
  unfolding claims
  claims-rank here = omega arith
  claims-rank (next r st) = elim (claim-rank st) [
    | inl first ↦ omega (arith, (claims-rank r).1, is_claim-le st, rank-Edge (Step-Edge j laws st))
    | inr other ↦
        omega (arith, (claims-rank r).0, (claims-rank r).1, rank-Edge (Step-Edge j laws st))
  ]

  -- In any run of committed claims, completions, failures and stale reconciliations of one
  -- record, there is at most one claim; for a JSON library with the documented behaviour of
  -- objects.
  pub claims-le_one : {id : String} {s t : StoredResponse Value} (r : Run j id s t) → claims r ≤ 1
  claims-le_one r = (claims-rank r).0

  terminal-rank : (s : StoredResponse Value) → IsTerminal j s → rank_of s ≡ 2
  terminal-rank s (inl e) = rw e
  terminal-rank s (inr (inl e)) = rw e
  terminal-rank s (inr (inr (inl e))) = rw e
  terminal-rank s (inr (inr (inr e))) = rw e

  -- A record with a terminal status stays as it is, whatever background transitions are tried on
  -- it; for a JSON library with the documented behaviour of objects.
  pub Run-terminal :
      {id : String} {s t : StoredResponse Value} → IsTerminal j s → Run j id s t → t ≡ s
  Run-terminal h here = refl
  Run-terminal {s} h (next {t} r st) =
      let e : t ≡ s = Run-terminal h r in
      absurd (
        omega (
          arith,
          rank-Edge (Step-Edge j laws st),
          ap rank_of e,
          terminal-rank s h,
          rank-le (stored_response_status j _),
        ))

  -- What a worker alone needs is gone.
  abbrev pub HasNoRequest : StoredResponse Value → Type 0
  HasNoRequest s = (s.pending_upstream_request ≡ none) × (s.upstream_authorization ≡ none)

  abbrev IsSettled : StoredResponse Value → Type 0
  IsSettled s = IsTerminal j s → HasNoRequest s

  in_progress-not-IsTerminal :
      (s : StoredResponse Value)
      → stored_response_status j s ≡ some "in_progress"
      → ¬ IsTerminal j s
  in_progress-not-IsTerminal s q h = absurd (omega (arith, terminal-rank s h, ap rank q))

  dropped :
      (s : StoredResponse Value) {u : StoredResponse Value} (v : Value)
      → u ≡ without_request j s v
      → IsSettled u
  dropped s v e h = (ap (λ r. r.pending_upstream_request) e, ap (λ r. r.upstream_authorization) e)

  Step-IsSettled : {id : String} {s u : StoredResponse Value} → Step j id s u → IsSettled u
  unfolding apply_stale_failure
  Step-IsSettled {id} {s} {u} (claim p e) = elim (prepare_claim_cases j laws s id) [
    | inl (pending, q, has, r) ↦ λ h. absurd (
        in_progress-not-IsTerminal u
          (ap (stored_response_status j) (claimed-same e r) ∙ status-claimed j laws s id q) h)
    | inr (m, never, r) ↦ ground arith
  ]
  Step-IsSettled {id} {s} (complete v e) = elim (prepare_complete_cases j laws s id v) [
    | inl (object, q, r) ↦ dropped s (completed_response j v id) (same e r)
    | inr (inl (m, object, never, r)) ↦ ground arith
    | inr (inr (m, other, r)) ↦ ground arith
  ]
  Step-IsSettled {id} {s} (fail message e) = elim (prepare_fail_cases j laws s id message) [
    | inl (c, r) ↦ dropped s (failed_response j id message) (same e r)
    | inr (m, never, r) ↦ ground arith
  ]
  Step-IsSettled {id} {s} (reconcile stale e) =
      dropped s (failed_response j id "background response stale") e

  -- After every committed background transition, a record with a terminal status has neither its
  -- request nor its authorization; for a JSON library with the documented behaviour of objects.
  pub Step-HasNoRequest :
      {id : String} {s u : StoredResponse Value} → Step j id s u → IsTerminal j u → HasNoRequest u
  Step-HasNoRequest st h = Step-IsSettled st h
