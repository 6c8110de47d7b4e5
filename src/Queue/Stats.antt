-- ===== src/Queue/Stats.antt =====
-- crates/core/src/queue.rs: the statistics of a consumer group, with the loops that count entries
-- page by page.
use Prim.Native.String.{◌++◌}
use responses_api_store.Common.{
  ℕ, zero, suc, ◌+◌, ◌%◌, ◌^◌, String, ◌==◌, Bool, true, false, ◌&&◌, not, Option, none, some, List,
  [], ◌∷◌, panic, length, is_empty, ltb, leb, is_some, if◌then◌else◌,
}
use responses_api_store.Common.Exec.{pure, raise, lift, match_result, ◌>>=◌, ◌>>◌}
use responses_api_store.Error.{RedisError, contains, not_found, storage}
use responses_api_store.Serde.{Json}
use responses_api_store.Redis.{Redis}
use responses_api_store.Streams.{Streams, GroupInfo}
use responses_api_store.Store.Transaction.{StoreM, redis}
use responses_api_store.Queue.StreamId.{max_u64, stream_range_start_after, is_tombstoned_pel_entry}
use responses_api_store.Queue.Entries.{BackgroundQueue, ensure_consumer_group}

pub record BackgroundQueueStats : Type 0 where
  pub pending : ℕ
  pub in_progress : ℕ
  pub workload : ℕ

abbrev pub no_stats : BackgroundQueueStats
no_stats = record { pending = 0; in_progress = 0; workload = 0 }

unfoldable pub is_missing_stream : RedisError → Bool
is_missing_stream e = contains e.message "no such key"

-- `saturating_add` on `u64`
unfoldable pub saturating_add : ℕ → ℕ → ℕ
saturating_add a b = if leb (a + b) max_u64 then a + b else max_u64

unfoldable pub find_group : List GroupInfo → String → Option GroupInfo
find_group [] consumer_group = none
find_group (group ∷ groups) consumer_group =
    if group.name == consumer_group then some group else find_group groups consumer_group

-- The last id of a page that begins with this one.
abbrev pub last_of : String → List String → String
last_of id [] = id
last_of id (next ∷ ids) = last_of next ids

-- How many entries of a page are still in the stream.
unfoldable pub count_live : Option String → List String → ℕ
count_live min_id [] = 0
count_live min_id (id ∷ ids) =
    (if is_tombstoned_pel_entry id min_id then 0 else 1) + count_live min_id ids

abbrev pub first_id : List String → Option String
first_id [] = none
first_id (id ∷ ids) = some id

abbrev pub pending_page_size : ℕ
pending_page_size = 1000

abbrev pub in_progress_page_size : ℕ
in_progress_page_size = 100

module _ (j : Json) (r : Redis) (s : Streams r.World) where
  open j use {Value}
  open r use {World}

  unfoldable pub stream_exists : BackgroundQueue → StoreM j r Bool
  stream_exists self = redis j r (s.exists self.stream_key)

  unfoldable pub load_stream_groups : BackgroundQueue → StoreM j r (List GroupInfo)
  load_stream_groups self =
      match_result (s.xinfo_groups self.stream_key) pure
        (λ e. if is_missing_stream e then pure [] else raise (storage e))

  -- Both loops read pages from `start` on, and go on after the last entry of a full page. A page's
  -- `weight` is added to the total, on 64 bits. The loop has no bound in the source: here it has
  -- `rounds`, and running out of them is a panic.
  abbrev pub after_page :
      (String → ℕ → StoreM j r ℕ) → (List String → ℕ) → ℕ → Bool → ℕ → List String → StoreM j r ℕ
  after_page again weight page_size exclusive_range_supported total [] = pure total
  after_page again weight page_size exclusive_range_supported total (id ∷ ids) =
      let sum = (total + weight (id ∷ ids)) % 2 ^ 64 in
      if ltb (length (id ∷ ids)) page_size
      then pure sum
      else again (stream_range_start_after (last_of id ids) exclusive_range_supported true) sum

  unfoldable pub count_pages :
      (String → StoreM j r (List String))
      → (List String → ℕ)
      → ℕ
      → Bool
      → ℕ
      → String
      → ℕ
      → StoreM j r ℕ
  count_pages read weight page_size exclusive_range_supported zero start total = lift panic
  count_pages read weight page_size exclusive_range_supported (suc rounds) start total = do
    ids ← read start
    after_page (count_pages read weight page_size exclusive_range_supported rounds) weight page_size
        exclusive_range_supported total ids

  abbrev pub read_range : BackgroundQueue → String → StoreM j r (List String)
  read_range self start = redis j r (s.xrange_count self.stream_key start "+" pending_page_size)

  unfoldable pub count_pending_fallback : ℕ → BackgroundQueue → String → Bool → StoreM j r ℕ
  count_pending_fallback rounds self last_delivered_id exclusive_range_supported =
      count_pages (read_range self) length pending_page_size exclusive_range_supported rounds
        (stream_range_start_after last_delivered_id exclusive_range_supported false) 0

  unfoldable pub get_stream_min_id : BackgroundQueue → StoreM j r (Option String)
  get_stream_min_id self = do
    ids ← redis j r (s.xrange_count self.stream_key "-" "+" 1)
    pure (first_id ids)

  abbrev pub read_pending : BackgroundQueue → String → String → StoreM j r (List String)
  read_pending self consumer_group start =
      redis j r (s.xpending_count self.stream_key consumer_group start "+" in_progress_page_size)

  unfoldable pub count_processable_in_progress : ℕ → BackgroundQueue → String → Bool → StoreM j r ℕ
  count_processable_in_progress rounds self consumer_group exclusive_range_supported = do
    min_id ← get_stream_min_id self
    count_pages (read_pending self consumer_group) (count_live min_id) in_progress_page_size
        exclusive_range_supported rounds "-" 0

  abbrev pub count_pending : ℕ → BackgroundQueue → GroupInfo → Bool → Option ℕ → StoreM j r ℕ
  count_pending rounds self group exclusive_range_supported (some lag) = pure lag
  count_pending rounds self group exclusive_range_supported none =
      count_pending_fallback rounds self group.last_delivered_id exclusive_range_supported

  unfoldable pub stats_from_group :
      ℕ → BackgroundQueue → String → GroupInfo → Bool → StoreM j r BackgroundQueueStats
  stats_from_group rounds self consumer_group group exclusive_range_supported = do
    pending ← count_pending rounds self group exclusive_range_supported group.lag
    in_progress ← count_processable_in_progress rounds self consumer_group exclusive_range_supported
    pure (record {
      pending = pending;
      in_progress = in_progress;
      workload = saturating_add pending in_progress;
    })

  -- Before the first worker came, the stream has entries and no group: the group is created.
  unfoldable pub groups_or_first :
      BackgroundQueue → String → List GroupInfo → StoreM j r (List GroupInfo)
  groups_or_first self consumer_group groups =
      if not (is_some (find_group groups consumer_group)) && is_empty groups
      then (ensure_consumer_group j r s self consumer_group "0-0" >> load_stream_groups self)
      else pure groups

  abbrev pub no_group : {A : Type 0} → BackgroundQueue → String → StoreM j r A
  no_group self consumer_group = raise (
      not_found
        ("consumer group " ++ (consumer_group ++ (" not found for stream " ++ self.stream_key))))

  -- `load_redis_capabilities`, as far as it is used, is an argument.
  abbrev pub stats_of :
      ℕ
      → BackgroundQueue
      → String
      → StoreM j r Bool
      → Option GroupInfo
      → StoreM j r BackgroundQueueStats
  stats_of rounds self consumer_group exclusive_range_supported none = no_group self consumer_group
  stats_of rounds self consumer_group exclusive_range_supported (some group) = do
    exclusive ← exclusive_range_supported
    stats_from_group rounds self consumer_group group exclusive

  abbrev pub stats_if :
      ℕ → BackgroundQueue → String → StoreM j r Bool → Bool → StoreM j r BackgroundQueueStats
  stats_if rounds self consumer_group exclusive_range_supported false = pure no_stats
  stats_if rounds self consumer_group exclusive_range_supported true = do
    info ← load_stream_groups self
    groups ← groups_or_first self consumer_group info
    stats_of rounds self consumer_group exclusive_range_supported (find_group groups consumer_group)

  unfoldable pub stats :
      ℕ → BackgroundQueue → String → StoreM j r Bool → StoreM j r BackgroundQueueStats
  stats rounds self consumer_group exclusive_range_supported = do
    exists ← stream_exists self
    stats_if rounds self consumer_group exclusive_range_supported exists
