-- ===== src/Queue/Cursor.antt =====
-- crates/core/src/queue.rs: the script that stores the autoclaim cursor of a consumer group, and the
-- method that runs it.
use responses_api_store.Common.{
  ℕ, String, ◌==◌, Bool, true, false, Option, none, some, ltb, eqb, if◌then◌else◌,
}
use responses_api_store.Common.Exec.{pure, ◌>>◌}
use responses_api_store.Common.Text.{split_once}
use responses_api_store.Serde.{Json}
use responses_api_store.Redis.{Redis}
use responses_api_store.Streams.{Streams}
use responses_api_store.Model.{autoclaim_cursor_key}
use responses_api_store.Store.Transaction.{StoreM, redis}
use responses_api_store.Queue.Entries.{BackgroundQueue}

-- Lua's `>`: it fails on nil.
abbrev pub greater : Option ℕ → Option ℕ → Option Bool
greater (some a) (some b) = some (ltb b a)
greater (some a) none = none
greater none b = none

-- Lua's `==`
abbrev pub equal : Option ℕ → Option ℕ → Bool
equal (some a) (some b) = eqb a b
equal none none = true
equal (some a) none = false
equal none (some b) = false

abbrev pub stays : Option String × ℕ
stays = (none, 0)

abbrev pub moves : String → Option String × ℕ
moves cursor = (some cursor, 1)

abbrev pub by_sequence : String → Option Bool → Option (Option String × ℕ)
by_sequence cursor none = none
by_sequence cursor (some true) = some (moves cursor)
by_sequence cursor (some false) = some stays

-- `a or (b and c)`, of which `c` is tried last
abbrev pub by_time : String → Option Bool → Bool → Option Bool → Option (Option String × ℕ)
by_time cursor none same sequence = none
by_time cursor (some true) same sequence = some (moves cursor)
by_time cursor (some false) true sequence = by_sequence cursor sequence
by_time cursor (some false) false sequence = some stays

-- `tonumber` is Lua's.
module _ (tonumber : String → Option ℕ) where
  abbrev pub split_parts : String → Option (String × String) → Option ℕ × Option ℕ
  split_parts id none = (tonumber id, some 0)
  split_parts id (some (ms, seq)) = (tonumber ms, tonumber seq)

  unfoldable pub split_id : String → Option ℕ × Option ℕ
  split_id id = split_parts id (split_once b'-' id)

  abbrev pub compare_cursor : String → Option String → Option (Option String × ℕ)
  compare_cursor new_cursor none = some (moves new_cursor)
  compare_cursor new_cursor (some old_cursor) =
      let new = split_id new_cursor in
      let old = split_id old_cursor in
      by_time new_cursor (greater new.0 old.0) (equal new.0 old.0) (greater new.1 old.1)

  unfoldable pub autoclaim_cursor_script : String → Option String → Option (Option String × ℕ)
  unfolding split_id
  autoclaim_cursor_script new_cursor old_cursor =
      if new_cursor == "0-0" then some (moves new_cursor) else compare_cursor new_cursor old_cursor

  unfoldable pub set_autoclaim_cursor :
      (j : Json) (r : Redis)
      → Streams r.World
      → BackgroundQueue
      → String
      → String
      → StoreM j r (Unit {0})
  set_autoclaim_cursor j r s self consumer_group cursor = do
    redis j r (
        s.script (autoclaim_cursor_key self.stream_key consumer_group)
          (autoclaim_cursor_script cursor))
    pure tt
