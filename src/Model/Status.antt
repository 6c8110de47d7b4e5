-- ===== src/Model/Status.antt =====
-- What the status tests of model.rs say of the status text.
use responses_api_store.Common.{
  String, true, Option, none, some, ◌≡◌, ◌⊎◌, ◌↔◌, is_some, arith, eq_iff, eq_refl,
}
use responses_api_store.Record.{StoredResponse}
use responses_api_store.Serde.{Json}
use responses_api_store.Model.{
  is_text, stored_response_status, has_status, is_terminal_background_status,
  is_claimable_background, is_in_progress_background,
}

is_text-eq : (o : Option String) (t : String) → is_text o t ≡ true → o ≡ some t
is_text-eq none t h = ground arith
is_text-eq (some s) t h = ground (arith, eq_iff s t)

is_text_self : (o : Option String) (t : String) → o ≡ some t → is_text o t ≡ true
is_text_self o t h = rw (h, eq_refl t)

module _ (j : Json) (stored : StoredResponse j.Value) where
  pub has_status_iff :
      (t : String) → (has_status j stored t ≡ true) ↔ (stored_response_status j stored ≡ some t)
  has_status_iff t = (is_text-eq _ t, is_text_self _ t)

  -- The terminal statuses.
  abbrev pub IsTerminal : Type 0
  IsTerminal =
      (stored_response_status j stored ≡ some "deleted")
      ⊎ ((stored_response_status j stored ≡ some "cancelled")
          ⊎ ((stored_response_status j stored ≡ some "completed")
              ⊎ (stored_response_status j stored ≡ some "failed")))

  pub is_terminal_iff : (is_terminal_background_status j stored ≡ true) ↔ IsTerminal
  unfolding is_terminal_background_status
  is_terminal_iff = ground (
    arith,
    has_status_iff "deleted",
    has_status_iff "cancelled",
    has_status_iff "completed",
    has_status_iff "failed",
  )

  pub is_claimable_iff : (is_claimable_background j stored ≡ true) ↔ (
      (is_some stored.pending_upstream_request ≡ true)
      × (stored_response_status j stored ≡ some "queued"))
  unfolding is_claimable_background
  is_claimable_iff = ground (arith, has_status_iff "queued")

  pub is_in_progress_iff :
      (is_in_progress_background j stored ≡ true)
      ↔ (stored_response_status j stored ≡ some "in_progress")
  unfolding is_in_progress_background
  is_in_progress_iff = has_status_iff "in_progress"
