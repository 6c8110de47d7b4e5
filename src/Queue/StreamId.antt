-- ===== src/Queue/StreamId.antt =====
-- crates/core/src/queue.rs: the texts of stream entry ids, `<milliseconds>-<sequence>`.
use Prim.Native.String.{◌++◌}
use responses_api_store.Common.{
  ℕ, ◌+◌, ◌-◌, ◌%◌, ◌^◌, String, ◌==◌, Bool, true, false, not, ◌&&◌, ◌||◌, Option, none, some, ltb,
  eqb, if◌then◌else◌,
}
use responses_api_store.Common.Text.{split_once, parse_uint, show}

abbrev pub max_u64 : ℕ
max_u64 = 2 ^ 64 - 1

abbrev pub both : Option ℕ → Option ℕ → Option (ℕ × ℕ)
both (some a) (some b) = some (a, b)
both (some a) none = none
both none b = none

abbrev pub parse_parts : Option (String × String) → Option (ℕ × ℕ)
parse_parts none = none
parse_parts (some (ms, seq)) = both (parse_uint max_u64 ms) (parse_uint max_u64 seq)

unfoldable pub parse_stream_id : String → Option (ℕ × ℕ)
parse_stream_id stream_id = parse_parts (split_once b'-' stream_id)

-- `seq + 1` is computed in `u64`, where a release build wraps around.
abbrev pub next_id : Option (ℕ × ℕ) → Option String
next_id none = none
next_id (some (ms, seq)) = some (show ms ++ ("-" ++ show ((seq + 1) % 2 ^ 64)))

unfoldable pub stream_id_after : String → Option String
stream_id_after stream_id = next_id (parse_stream_id stream_id)

abbrev pub or_else : Option String → String → String
or_else none s = s
or_else (some t) s = t

unfoldable pub stream_range_start_after : String → Bool → Bool → String
stream_range_start_after stream_id exclusive_range_supported after_delivered =
    if not after_delivered && (stream_id == "0-0" || stream_id == "-")
    then "-"
    else if exclusive_range_supported
    then "(" ++ stream_id
    else or_else (stream_id_after stream_id) stream_id

abbrev pub before : Option (ℕ × ℕ) → Option (ℕ × ℕ) → Bool
before (some (left_ms, left_seq)) (some (right_ms, right_seq)) =
    ltb left_ms right_ms || (eqb left_ms right_ms && ltb left_seq right_seq)
before (some l) none = false
before none r = false

unfoldable pub stream_id_less_than : String → String → Bool
stream_id_less_than left right = before (parse_stream_id left) (parse_stream_id right)

unfoldable pub is_tombstoned_pel_entry : String → Option String → Bool
is_tombstoned_pel_entry entry_id none = true
is_tombstoned_pel_entry entry_id (some min_stream_id) = stream_id_less_than entry_id min_stream_id
