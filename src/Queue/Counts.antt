-- ===== src/Queue/Counts.antt =====
-- crates/core/src/queue.rs: what the two counting loops count.
use responses_api_store.Common.{
  ℕ, zero, suc, ◌+◌, ◌%◌, ◌^◌, ◌<◌, String, Bool, Option, false, none, some, List, [], ◌∷◌, ◌≡◌,
  refl, ap, ◌∙◌, ok, arith, length, take, drop, true, ◌⊎◌, inl, inr, Bool-cases,
}
use responses_api_store.Serde.{Json}
use responses_api_store.Redis.{Redis}
use responses_api_store.Streams.{Streams}
use responses_api_store.Queue.StreamId.{
  stream_range_start_after, parse_stream_id, is_tombstoned_pel_entry, stream_id_less_than,
}
use responses_api_store.Queue.Order.{IsBefore, stream_id_less_than_iff}
use responses_api_store.Queue.Entries.{BackgroundQueue}
use responses_api_store.Queue.Stats.{
  count_live, first_id, pending_page_size, in_progress_page_size, read_range, read_pending,
  get_stream_min_id, count_pending_fallback, count_processable_in_progress,
}
use responses_api_store.Queue.Ordered.{HasNext, ids_of}
use responses_api_store.Queue.Sorted.{SortedLaws, IsSplit, sorted_pages, start-behind}
use responses_api_store.Queue.Pages.{IsWeight, count_pages-Counts}

length-split : (n : ℕ) (xs : List String) → length (take n xs) + length (drop n xs) ≡ length xs
length-split zero xs = omega arith
length-split (suc n) [] = omega arith
length-split (suc n) (x ∷ xs) = omega (arith, length-split n xs)

count_live-split :
    (min : Option String) (n : ℕ) (xs : List String)
    → count_live min (take n xs) + count_live min (drop n xs) ≡ count_live min xs
unfolding count_live
count_live-split min zero xs = omega arith
count_live-split min (suc n) [] = omega arith
count_live-split min (suc n) (x ∷ xs) = omega (arith, count_live-split min n xs)

count_live-IsWeight : (min : Option String) → IsWeight (count_live min)
unfolding count_live
count_live-IsWeight min = (refl, count_live-split min)

-- An entry is still in a stream that begins with `first`: it is not before it.
abbrev pub IsLive : Option String → String → Type 0
IsLive none id = ⊥
IsLive (some first) id = ¬ (
    (a : ℕ × ℕ) × (b : ℕ × ℕ) × (parse_stream_id id ≡ some a)
    × (parse_stream_id first ≡ some b)
    × IsBefore a b)

-- So many of the ids are live.
pub data LiveCount (first : Option String) : List String → ℕ → Type 0 where
  none_left : LiveCount first [] 0
  live :
      {id : String} {ids : List String} {n : ℕ}
      → IsLive first id
      → LiveCount first ids n
      → LiveCount first (id ∷ ids) (1 + n)
  trimmed :
      {id : String} {ids : List String} {n : ℕ}
      → ¬ IsLive first id
      → LiveCount first ids n
      → LiveCount first (id ∷ ids) n

tombstoned-cases :
    (id : String) (first : Option String)
    → ((is_tombstoned_pel_entry id first ≡ true) × ¬ IsLive first id)
      ⊎ ((is_tombstoned_pel_entry id first ≡ false) × IsLive first id)
unfolding is_tombstoned_pel_entry
tombstoned-cases id none = inl (refl, λ h. absurd h)
tombstoned-cases id (some m) = elim (Bool-cases (stream_id_less_than id m)) [
  | inl less ↦ inl (less, λ h. h ((stream_id_less_than_iff id m).0 less))
  | inr other ↦ inr (other, λ b. ground (arith, other, (stream_id_less_than_iff id m).1 b))
]

count_live-LiveCount :
    (first : Option String) (ids : List String) → LiveCount first ids (count_live first ids)
unfolding count_live
count_live-LiveCount first [] = none_left
count_live-LiveCount first (id ∷ ids) = elim (tombstoned-cases id first) [
  | inl (t, gone) ↦
      let none_more : 0 + count_live first ids ≡ count_live first ids = omega arith in
      rw (t, none_more) (trimmed gone (count_live-LiveCount first ids))
  | inr (f, here) ↦ rw f (live here (count_live-LiveCount first ids))
]

length-ids_of : (xs : List (String × (ℕ × ℕ))) → length (ids_of xs) ≡ length xs
length-ids_of [] = refl
length-ids_of (x ∷ xs) = omega (arith, length-ids_of xs)

module _ (j : Json) (r : Redis) (s : Streams r.World) (self : BackgroundQueue)
    (exclusive : Bool) where
  open r use {World}

  -- While the stream is not changed and the server answers, the count of the entries behind the
  -- last delivered one is exact, on 64 bits, and the loop ends within one round more than there
  -- are of them; for a last delivered id that parses, under the documented meaning of ranges, on
  -- a server with exclusive starts, or on one without them if neither the last delivered entry
  -- nor one in the stream has the greatest sequence number.
  pub count_pending_fallback-counts :
      (laws : SortedLaws j r (read_range j r s self) pending_page_size exclusive) (rounds : ℕ)
      (before after : List (String × (ℕ × ℕ))) (last_delivered_id : String) (a : ℕ × ℕ) (w : World)
      → parse_stream_id last_delivered_id ≡ some a
      → HasNext exclusive a
      → IsSplit j r (read_range j r s self) pending_page_size exclusive laws a before after
      → length after < rounds
      → (count_pending_fallback j r s rounds self last_delivered_id exclusive w).0
        ≡ ok (length after % 2 ^ 64)
  unfolding count_pending_fallback sorted_pages
  count_pending_fallback-counts laws rounds before after id a w p small split enough =
      let pages = sorted_pages j r (read_range j r s self) pending_page_size exclusive laws in
      let start = stream_range_start_after id exclusive false in
      let (behind, starts) =
        start-behind j r (read_range j r s self) pending_page_size exclusive laws before after id a
          false p small split in
      let left : ids_of (laws.from start) ≡ ids_of after = ap ids_of behind in
      let same_length : length (ids_of (laws.from start)) ≡ length after =
        ap length left ∙ length-ids_of after in
      count_pages-Counts j r s (read_range j r s self) length pending_page_size exclusive pages
        (refl, length-split) (omega arith) rounds start 0 w starts
        (omega (arith, same_length, enough)) (omega arith)
      ∙ ap ok (omega (arith, same_length))

  -- While nothing changes and the server answers, those of the claimed entries are counted that
  -- the stream still has, the ones that are not before its first entry, on 64 bits, and the loop
  -- ends within one round more than there are claimed entries; under the documented meaning of
  -- ranges, on a server with exclusive starts, or on one without them if no claimed entry has the
  -- greatest sequence number.
  pub count_processable_in_progress-counts :
      (consumer_group : String)
      (laws : SortedLaws j r
        (read_pending j r s self consumer_group)
        in_progress_page_size
        exclusive)
      (rounds : ℕ) (first : List String) (w : World)
      → (s.xrange_count self.stream_key "-" "+" 1 w).0 ≡ ok first
      → length laws.entries < rounds
      → (n : ℕ) × LiveCount (first_id first) (ids_of laws.entries) n
        × ((count_processable_in_progress j r s rounds self consumer_group exclusive w).0
            ≡ ok (n % 2 ^ 64))
  unfolding count_processable_in_progress get_stream_min_id sorted_pages
  count_processable_in_progress-counts consumer_group laws rounds first w e enough =
      let read = read_pending j r s self consumer_group in
      let live_ids = count_live (first_id first) in
      let whole : ids_of (laws.from "-") ≡ ids_of laws.entries = ap ids_of laws.all in
      let counted =
        count_pages-Counts j r s read live_ids in_progress_page_size exclusive
          (sorted_pages j r read in_progress_page_size exclusive laws)
          (count_live-IsWeight (first_id first)) (omega arith) rounds "-" 0
          (s.xrange_count self.stream_key "-" "+" 1 w).1 (inl refl)
          (omega (arith, ap length whole, length-ids_of laws.entries, enough)) (omega arith) in
      (
        live_ids (ids_of laws.entries),
        count_live-LiveCount (first_id first) (ids_of laws.entries),
        rw e (counted ∙ ap ok (omega (arith, ap live_ids whole))),
      )
