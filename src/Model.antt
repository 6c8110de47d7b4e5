-- ===== src/Model.antt =====
-- crates/core/src/model.rs: keys, the status of a record, and the JSON that the program builds.
pub mod Status
pub mod Age
pub mod Build
use Prim.Native.String.{◌++◌}
use text.Mathlib.Text.{starts_with}
use responses_api_store.Common.{
  ℕ, ◌-◌, ◌^◌, String, ◌==◌, Bool, true, false, ◌&&◌, ◌||◌, Option, none, some, [], ◌∷◌, Result, ok,
  expect, ◌>>=◌, ltb, is_some, if◌then◌else◌,
}
use responses_api_store.Common.Int.{ℤ, pos, negsuc, saturating_sub, leb_ℤ}
use responses_api_store.Error.{StoreError}
use responses_api_store.Record.{StoredResponse}
use responses_api_store.Serde.{Json, object}

unfoldable pub response_store_key : String → String → String
response_store_key prefix response_id = prefix ++ (":" ++ response_id)

unfoldable pub autoclaim_cursor_key : String → String → String
autoclaim_cursor_key stream_key consumer_group =
    stream_key ++ (":meta:autoclaim:" ++ consumer_group)

-- `seconds as i64`, on 64 bits
abbrev pub as_i64 : ℕ → ℤ
as_i64 n = if ltb n (2 ^ 63) then pos n else negsuc (2 ^ 64 - 1 - n)

-- The clock's reading is `none` before the epoch.
unfoldable pub unix_seconds_now : Option ℕ → ℤ
unix_seconds_now none = pos 0
unix_seconds_now (some seconds) = as_i64 seconds

unfoldable pub is_stale_enqueued : Option ℤ → ℤ → ℤ → Bool
unfolding saturating_sub
is_stale_enqueued none now stale_seconds = false
is_stale_enqueued (some enqueued_at) now stale_seconds =
    leb_ℤ stale_seconds (saturating_sub now enqueued_at)

abbrev is_text : Option String → String → Bool
is_text none t = false
is_text (some s) t = s == t

module _ (j : Json) where
  open j use {Value}

  -- `.and_then(Value::as_str)`
  abbrev pub str_of : Option Value → Option String
  str_of none = none
  str_of (some v) = j.as_str v

  unfoldable pub stored_response_status : StoredResponse Value → Option String
  stored_response_status stored = str_of (j.get stored.response "status")

  -- `stored_response_status(stored) == Some(status)`
  abbrev pub has_status : StoredResponse Value → String → Bool
  has_status stored status = is_text (stored_response_status stored) status

  unfoldable pub is_deleted_tombstone : StoredResponse Value → Bool
  is_deleted_tombstone stored = has_status stored "deleted"

  unfoldable pub is_terminal_background_status : StoredResponse Value → Bool
  unfolding is_deleted_tombstone
  is_terminal_background_status stored =
      if is_deleted_tombstone stored
      then true
      else has_status stored "cancelled"
        || has_status stored "completed"
        || has_status stored "failed"

  unfoldable pub is_claimable_background : StoredResponse Value → Bool
  is_claimable_background stored =
      is_some stored.pending_upstream_request && has_status stored "queued"

  unfoldable pub is_in_progress_background : StoredResponse Value → Bool
  is_in_progress_background stored = has_status stored "in_progress"

  unfoldable pub is_in_flight_background : StoredResponse Value → Bool
  is_in_flight_background stored =
      is_some stored.pending_upstream_request
      || (has_status stored "queued" || has_status stored "in_progress")

  unfoldable pub should_reconcile_stale : StoredResponse Value → Bool
  unfolding is_in_flight_background
  should_reconcile_stale stored = is_in_flight_background stored && has_status stored "queued"

  -- `.filter(|id| id.starts_with("resp_"))`
  abbrev pub with_prefix : Option String → Option String
  with_prefix none = none
  with_prefix (some id) = if starts_with id "resp_" then some id else none

  abbrev pub id_of : Option Value → Option String
  id_of none = none
  id_of (some v) = with_prefix (str_of (j.get v "id"))

  abbrev pub or_else : Option String → Option String → Option String
  or_else none o = o
  or_else (some s) o = some s

  unfoldable pub response_id_from_value : Value → Option String
  response_id_from_value value =
      or_else (with_prefix (str_of (j.get value "id"))) (id_of (j.get value "response"))

  abbrev with_input : Value → Option Value → Result StoreError Value
  with_input response none = ok response
  with_input response (some input) = expect (j.index_set response "input" input)

  unfoldable pub build_queued_response : String → String → Value → Result StoreError Value
  build_queued_response response_id model request =
      with_input
        (object j (
          ("id", j.text response_id)
          ∷ ("object", j.text "response")
          ∷ ("status", j.text "queued")
          ∷ ("model", j.text model)
          ∷ ("background", j.boolean true)
          ∷ ("output", j.array [])
          ∷ []))
        (j.get request "input")

  unfoldable pub build_upstream_request : Value → Value
  build_upstream_request request =
      if j.is_object request
      then j.insert (j.remove (j.remove request "background") "previous_response_id") "store"
          (j.boolean false)
      else request

  unfoldable pub build_cancelled_response : StoredResponse Value → String → Result StoreError Value
  build_cancelled_response stored response_id = do
    a ← expect (j.index_set stored.response "id" (j.text response_id))
    b ← expect (j.index_set a "status" (j.text "cancelled"))
    expect (j.index_set b "background" (j.boolean true))
