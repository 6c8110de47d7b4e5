-- ===== src/Queue/Sorted.antt =====
-- crates/core/src/queue.rs: the pages of an ordered stream, from the meaning of range starts.
use Prim.Native.String.{◌++◌}
use mathlib.Core.List
use mathlib.Core.List.{append_assoc}
use responses_api_store.Common.{
  ℕ, ◌+◌, ◌<◌, String, Bool, true, false, ◌⊎◌, some, List, [], ◌∷◌, ◌≡◌, refl, ap, ◌∙◌, sym, inl,
  inr, ok, arith, take, drop, All, All-map, All-snoc, take-drop, Bool-cases,
}
use responses_api_store.Serde.{Json}
use responses_api_store.Redis.{Redis}
use responses_api_store.Store.Transaction.{StoreM}
use responses_api_store.Queue.StreamId.{
  max_u64, parse_stream_id, stream_id_after, stream_range_start_after, or_else,
}
use responses_api_store.Queue.Order.{IsBefore, IsBefore-next, stream_id_after-parse}
use responses_api_store.Queue.Range.{starts_anywhere, starts_anywhere-origin, after_origin}
use responses_api_store.Queue.Stats.{last_of}
use responses_api_store.Queue.Ordered.{
  HasNext, IsOrdered, ids_of, last_entry, but_last, last-split, last_of-ids_of, IsOrdered-same,
  IsOrdered-end, earlier_entries, IsBefore-trans, IsBefore-irrefl, not_after_next, take-ids_of,
  drop-ids_of, last_text,
}
use responses_api_store.Queue.Pages.{PageLaws}

-- The start of a range that a server takes.
abbrev pub IsRangeStart : Bool → String → Type 0
IsRangeStart has_exclusive start =
    (start ≡ "-")
    ⊎ (((a : ℕ × ℕ) × (parse_stream_id start ≡ some a))
        ⊎ ((has_exclusive ≡ true)
            × ((id : String) × (a : ℕ × ℕ) × (parse_stream_id id ≡ some a) × (start ≡ "(" ++ id))))

-- What the documentation says of ranges of a stream that is not changed: from any start on it is an end
-- of the stream, behind an excluded id that end which begins after it, and from an id on that end
-- which has no earlier entry; from `-` on it is the whole stream.
-- A server that has no exclusive starts need not answer to one.
pub record SortedLaws (j : Json) (r : Redis) (read : String → StoreM j r (List String))
    (page_size : ℕ) (has_exclusive : Bool) : Type 0 where
  pub entries : List (String × (ℕ × ℕ))
  pub ordered : IsOrdered has_exclusive entries
  pub from : String → List (String × (ℕ × ℕ))
  pub page :
      (start : String) (w : r.World)
      → IsRangeStart has_exclusive start
      → (read start w).0 ≡ ok (take page_size (ids_of (from start)))
  pub is_end :
      (start : String)
      → (before : List (String × (ℕ × ℕ))) × (entries ≡ List.◌++◌ before (from start))
  pub all : from "-" ≡ entries
  pub exclusive :
      (before after : List (String × (ℕ × ℕ))) (id : String) (a : ℕ × ℕ)
      → has_exclusive ≡ true
      → parse_stream_id id ≡ some a
      → entries ≡ List.◌++◌ before after
      → All (λ x. ¬ IsBefore a x.1) before
      → All (λ x. IsBefore a x.1) after
      → from ("(" ++ id) ≡ after
  pub inclusive :
      (before after : List (String × (ℕ × ℕ))) (start : String) (a : ℕ × ℕ)
      → parse_stream_id start ≡ some a
      → entries ≡ List.◌++◌ before after
      → All (λ x. IsBefore x.1 a) before
      → All (λ x. ¬ IsBefore x.1 a) after
      → from start ≡ after

module _ (j : Json) (r : Redis) (read : String → StoreM j r (List String)) (page_size : ℕ)
    (exclusive : Bool) (laws : SortedLaws j r read page_size exclusive) where
  -- The end of the stream that begins behind an entry.
  abbrev pub IsSplit : ℕ × ℕ → List (String × (ℕ × ℕ)) → List (String × (ℕ × ℕ)) → Type 0
  IsSplit a before after =
      (laws.entries ≡ List.◌++◌ before after)
      × All (λ x. ¬ IsBefore a x.1) before
      × All (λ x. IsBefore a x.1) after

  nothing_before :
      (before after : List (String × (ℕ × ℕ))) → IsSplit (0, 0) before after → laws.entries ≡ after
  nothing_before [] after (e, h, k) = e
  nothing_before ((id, a) ∷ before) after (e, (n, h), k) =
      let whole : IsOrdered exclusive (List.◌++◌ ((id, a) ∷ before) after) =
        IsOrdered-same exclusive e laws.ordered in
      absurd (n (after_origin a whole.1))

  next_start :
      (before after : List (String × (ℕ × ℕ))) (id : String) (ms seq : ℕ)
      → parse_stream_id id ≡ some (ms, seq)
      → seq < max_u64
      → IsSplit (ms, seq) before after
      → (laws.from (or_else (stream_id_after id) id) ≡ after)
        × (parse_stream_id (or_else (stream_id_after id) id) ≡ some (ms, seq + 1))
  next_start before after id ms seq p small (e, h, k) =
      let (next, is_next, least, wraps) = stream_id_after-parse id ms seq p in
      rw is_next (
        laws.inclusive before after next (ms, seq + 1) (least small) e
            (All-map (λ x. ¬ IsBefore (ms, seq) x.1) (λ x. IsBefore x.1 (ms, seq + 1)) before
              (λ (i, (u, v)) n. not_after_next (u, v) ms seq n) h)
            (All-map (λ x. IsBefore (ms, seq) x.1) (λ x. ¬ IsBefore x.1 (ms, seq + 1)) after
              (λ (i, (u, v)) b. (IsBefore-next ms seq u v).0 b) k),
        least small,
      )

  is_small : (a : ℕ × ℕ) → exclusive ≡ false → HasNext exclusive a → a.1 < max_u64
  is_small a older (inl newer) = absurd (ground (arith, older, newer))
  is_small a older (inr small) = small

  -- Every kind of start behind an entry begins with the first one after it.
  pub start-behind :
      (before after : List (String × (ℕ × ℕ))) (id : String) (a : ℕ × ℕ) (delivered : Bool)
      → parse_stream_id id ≡ some a
      → HasNext exclusive a
      → IsSplit a before after
      → (laws.from (stream_range_start_after id exclusive delivered) ≡ after)
        × IsRangeStart exclusive (stream_range_start_after id exclusive delivered)
  unfolding stream_range_start_after
  start-behind before after id a delivered p has_next split =
      elim (Bool-cases (starts_anywhere id delivered)) [
        | inl anywhere ↦ rw anywhere (
            (
              laws.all
                  ∙ nothing_before before after
                      (rw (starts_anywhere-origin id delivered a p anywhere) at split),
              inl refl,
            ))
        | inr from_id ↦ elim (Bool-cases exclusive) [
          | inl newer ↦
              rw (from_id, newer)
                (
                  laws.exclusive before after id a newer p split.0 split.1 split.2,
                  inr (inr (refl, (id, a, p, refl))),
                )
          | inr older ↦
              let (rest, parsed) =
                next_start before after id a.0 a.1 p (is_small a older has_next) split in
              rw (from_id, older) (rest, inr (inl ((a.0, a.1 + 1), parsed)))
        ]
      ]

  after_entry :
      (before after : List (String × (ℕ × ℕ))) (id : String) (a : ℕ × ℕ)
      → laws.entries ≡ List.◌++◌ before ((id, a) ∷ after)
      → (laws.from (stream_range_start_after id exclusive true) ≡ after)
        × IsRangeStart exclusive (stream_range_start_after id exclusive true)
  after_entry before after id a e =
      let whole : IsOrdered exclusive (List.◌++◌ before ((id, a) ∷ after)) =
        IsOrdered-same exclusive e laws.ordered in
      let (p, z, small, later, h) = IsOrdered-end exclusive before ((id, a) ∷ after) whole in
      let moved : laws.entries ≡ List.◌++◌ (List.◌++◌ before ((id, a) ∷ [])) after =
        e ∙ sym (append_assoc before ((id, a) ∷ []) after) in
      let not_after =
        All-map (λ x. IsBefore x.1 a) (λ x. ¬ IsBefore a x.1) before
          (λ x b c. IsBefore-irrefl a (IsBefore-trans a x.1 a c b))
          (earlier_entries exclusive before after id a whole) in
      start-behind (List.◌++◌ before ((id, a) ∷ [])) after id a true p small (
        moved,
        All-snoc (λ x. ¬ IsBefore a x.1) before (id, a) not_after (IsBefore-irrefl a),
        later,
      )

  pub after_page :
      (start id : String) (ids : List String) (p : List (String × (ℕ × ℕ)))
      → take page_size (laws.from start) ≡ p
      → ids_of p ≡ id ∷ ids
      → (laws.from (stream_range_start_after (last_of id ids) exclusive true)
          ≡ drop page_size (laws.from start))
        × IsRangeStart exclusive (stream_range_start_after (last_of id ids) exclusive true)
  after_page start id ids [] e h = ground (arith, h)
  after_page start id ids (x ∷ xs) e h =
      let (before, end) = laws.is_end start in
      let others = drop page_size (laws.from start) in
      let last = last_entry x xs in
      let page : laws.from start ≡ List.◌++◌ (x ∷ xs) others =
        sym (take-drop page_size (laws.from start)) ∙ ap (λ ys. List.◌++◌ ys others) e in
      let split : laws.entries ≡ List.◌++◌ (List.◌++◌ before (but_last x xs)) (last ∷ others) =
        end
        ∙ (ap (λ ys. List.◌++◌ before ys) (page ∙ last-split x xs others)
            ∙ sym (append_assoc before (but_last x xs) (last ∷ others))) in
      let name : last_of id ids ≡ last.0 = sym (ap last_text h) ∙ last_of-ids_of x xs in
      rw name (after_entry (List.◌++◌ before (but_last x xs)) others last.0 last.1 split)

  -- The pages of an ordered stream follow each other, with either kind of start.
  unfoldable pub sorted_pages : PageLaws j r read page_size exclusive
  sorted_pages = record {
    IsStart = IsRangeStart exclusive;
    rest = λ start. ids_of (laws.from start);
    page = laws.page;
    next_page = λ start id ids starts e full.
        let (others, again) =
          after_page start id ids (take page_size (laws.from start)) refl
            (take-ids_of page_size (laws.from start) ∙ e) in
        (again, ap ids_of others ∙ drop-ids_of page_size (laws.from start));
  }
