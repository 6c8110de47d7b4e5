-- ===== src/Examples/Counts.antt =====
-- The counts, the cursor and the version at sample values.
use Prim.Native.String.{◌++◌}
use responses_api_store.Common.{
  ℕ, ◌%◌, ◌^◌, true, false, some, [], ◌∷◌, ◌≡◌, refl, ◌⊎◌, ◌↔◌, inl, inr, ok, arith,
}
use responses_api_store.Common.Text.{show, parse_uint}
use responses_api_store.Common.Text.Decimal.{parse_uint-show}
use responses_api_store.Queue.StreamId.{max_u64}
use responses_api_store.Queue.Order.{IsBefore}
use responses_api_store.Queue.Stats.{
  read_range, read_pending, pending_page_size, in_progress_page_size, count_pending_fallback,
  count_processable_in_progress,
}
use responses_api_store.Queue.Ordered.{IsOrdered, ids_of}
use responses_api_store.Queue.Sorted.{SortedLaws}
use responses_api_store.Examples.Stream.{
  Entries, range_from, kept, drop_until-end, range_from-exclusive, range_from-inclusive,
}
use responses_api_store.Common.Text.{split_once, digits}
use responses_api_store.Queue.StreamId.{parse_stream_id}
use responses_api_store.Queue.Counts.{
  count_pending_fallback-counts, LiveCount, count_processable_in_progress-counts,
}
use responses_api_store.Queue.Cursor.{autoclaim_cursor_script, moves, stays}
use responses_api_store.Queue.Forward.{print, IsExact, autoclaim_cursor_script-Forward}
use responses_api_store.Store.Capabilities.{redis_version_at_least}
use responses_api_store.Store.Version.{IsAtLeast, redis_version_at_least_iff}
use responses_api_store.Examples.Memory.{memory, empty}
use responses_api_store.Examples.Samples.{sample}
use responses_api_store.Examples.Server.{server, queue, in_stream, in_progress}

ids-IsOrdered : IsOrdered false in_stream
unfolding parse_stream_id split_once parse_uint digits
ids-IsOrdered = (
  refl,
  ground arith,
  inr (omega arith),
  (inr (refl, omega arith), tt),
  (refl, ground arith, inr (omega arith), tt, tt),
)

claimed-IsOrdered : IsOrdered false in_progress
unfolding parse_stream_id split_once parse_uint digits
claimed-IsOrdered = (
  refl,
  ground arith,
  inr (omega arith),
  (inl (omega arith), tt),
  (refl, ground arith, inr (omega arith), tt, tt),
)

range_from-all : (xs : Entries) → range_from xs "-" ≡ xs
unfolding parse_stream_id split_once parse_uint digits
range_from-all [] = refl
range_from-all (x ∷ xs) = refl

abbrev ids_laws :
    SortedLaws sample memory (read_range sample memory server queue) pending_page_size false
ids_laws = record {
  entries = in_stream;
  ordered = ids-IsOrdered;
  from = range_from in_stream;
  page = λ start w h. refl;
  is_end = λ start. drop_until-end (kept start) in_stream;
  all = range_from-all in_stream;
  exclusive = λ front back id a has p e h k. range_from-exclusive in_stream front back id a p e h k;
  inclusive = λ front back id a p e h k. range_from-inclusive in_stream front back id a p e h k;
}

abbrev claimed_laws :
    SortedLaws sample memory
      (read_pending sample memory server queue "workers")
      in_progress_page_size
      false
claimed_laws = record {
  entries = in_progress;
  ordered = claimed-IsOrdered;
  from = range_from in_progress;
  page = λ start w h. refl;
  is_end = λ start. drop_until-end (kept start) in_progress;
  all = range_from-all in_progress;
  exclusive =
      λ front back id a has p e h k. range_from-exclusive in_progress front back id a p e h k;
  inclusive = λ front back id a p e h k. range_from-inclusive in_progress front back id a p e h k;
}

delivered : parse_stream_id "1000-0" ≡ some (1000, 0)
unfolding parse_stream_id split_once parse_uint digits
delivered = refl

count_pending_fallback-counts_example :
    (count_pending_fallback sample memory server 3 queue "1000-0" false empty).0 ≡ ok (1 % 2 ^ 64)
count_pending_fallback-counts_example =
    count_pending_fallback-counts sample memory server queue false ids_laws 3
      (("1000-0", (1000, 0)) ∷ []) (("1000-1", (1000, 1)) ∷ []) "1000-0" (1000, 0) empty delivered
      (inr (omega arith)) (refl, ((λ h. ground (arith, h)), tt), (inr (refl, omega arith), tt))
      (omega arith)

first_page : (server.xrange_count "jobs" "-" "+" 1 empty).0 ≡ ok ("1000-0" ∷ [])
unfolding parse_stream_id split_once parse_uint digits
first_page = refl

count_processable_in_progress-counts_example :
    (n : ℕ) × LiveCount (some "1000-0") (ids_of in_progress) n
    × ((count_processable_in_progress sample memory server 3 queue "workers" false empty).0
        ≡ ok (n % 2 ^ 64))
count_processable_in_progress-counts_example =
    count_processable_in_progress-counts sample memory server queue false "workers" claimed_laws 3
      ("1000-0" ∷ []) empty first_page (omega arith)

tonumber-IsExact : IsExact (parse_uint max_u64)
tonumber-IsExact n h = parse_uint-show max_u64 n (omega arith) (omega arith)

abbrev sooner : ℕ × ℕ
sooner = (1000, 1)

abbrev later : ℕ × ℕ
later = (1000, 5)

autoclaim_cursor_script-Forward_example :
    ((IsBefore sooner later ⊎ (later ≡ (0, 0)))
      × (autoclaim_cursor_script (parse_uint max_u64) (print later) (some (print sooner))
          ≡ some (moves (print later))))
    ⊎ (¬ (IsBefore sooner later ⊎ (later ≡ (0, 0)))
        × (autoclaim_cursor_script (parse_uint max_u64) (print later) (some (print sooner))
            ≡ some stays))
autoclaim_cursor_script-Forward_example =
    autoclaim_cursor_script-Forward (parse_uint max_u64) tonumber-IsExact later sooner
      (omega arith, omega arith) (omega arith, omega arith)

redis_version_at_least_iff_example :
    (redis_version_at_least (show 6 ++ ("." ++ (show 2 ++ ("." ++ "14")))) 6 2 ≡ true)
    ↔ IsAtLeast (6, 2) (6, 2)
redis_version_at_least_iff_example =
    redis_version_at_least_iff 6 2 6 2 "14" (omega arith) (omega arith)
