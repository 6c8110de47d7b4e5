-- ===== src/Queue/Pages.antt =====
-- crates/core/src/queue.rs: the loops that count page by page, on a stream that is not changed.
use responses_api_store.Common.{
  ℕ, zero, suc, ◌+◌, ◌%◌, ◌^◌, ◌≤◌, ◌<◌, String, Bool, true, List, [], ◌∷◌, ◌≡◌, refl, ap, ◌∙◌, sym,
  inl, inr, ok, arith, length, ltb, Bool-cases, take, drop, take-short, length-take-le, length-drop,
}
use responses_api_store.Serde.{Json}
use responses_api_store.Redis.{Redis}
use responses_api_store.Streams.{Streams}
use responses_api_store.Store.Transaction.{StoreM}
use responses_api_store.Queue.StreamId.{stream_range_start_after}
use responses_api_store.Queue.Stats.{last_of, after_page, count_pages}

-- The ids that a range holds from each start on, read in pages of one size: while nothing is added or
-- removed, a page from a start that the server takes has the first of them, and the start after a full
-- page is one, too, and holds the others.
pub record PageLaws (j : Json) (r : Redis) (read : String → StoreM j r (List String))
    (page_size : ℕ) (exclusive : Bool) : Type 1 where
  pub IsStart : String → Type 0
  pub rest : String → List String
  pub page :
      (start : String) (w : r.World)
      → IsStart start
      → (read start w).0 ≡ ok (take page_size (rest start))
  pub next_page :
      (start id : String) (ids : List String)
      → IsStart start
      → take page_size (rest start) ≡ id ∷ ids
      → page_size ≤ length (id ∷ ids)
      → IsStart (stream_range_start_after (last_of id ids) exclusive true)
        × (rest (stream_range_start_after (last_of id ids) exclusive true)
            ≡ drop page_size (rest start))

-- A number that is summed up over a list.
abbrev pub IsWeight : (List String → ℕ) → Type 0
IsWeight weight =
    (weight [] ≡ 0)
    × ((n : ℕ) (xs : List String) → weight (take n xs) + weight (drop n xs) ≡ weight xs)

module _ (j : Json) (r : Redis) (s : Streams r.World) (read : String → StoreM j r (List String))
    (weight : List String → ℕ) (page_size : ℕ) (exclusive : Bool)
    (laws : PageLaws j r read page_size exclusive) (sums : IsWeight weight)
    (positive : 0 < page_size) where
  open r use {World}

  abbrev Counts : ℕ → Type 0
  Counts rounds =
      (start : String) (total : ℕ) (w : World)
      → laws.IsStart start
      → length (laws.rest start) < rounds
      → total < 2 ^ 64
      → (count_pages j r s read weight page_size exclusive rounds start total w).0
        ≡ ok ((total + weight (laws.rest start)) % 2 ^ 64)

  page-Counts :
      (rounds : ℕ) (start : String) (total : ℕ) (w : World) (ids : List String)
      → laws.IsStart start
      → take page_size (laws.rest start) ≡ ids
      → length (laws.rest start) < suc rounds
      → total < 2 ^ 64
      → Counts rounds
      → (after_page j r s
          (count_pages j r s read weight page_size exclusive rounds)
          weight
          page_size
          exclusive
          total
          ids
          w).0
        ≡ ok ((total + weight (laws.rest start)) % 2 ^ 64)
  page-Counts rounds start total w [] starts e h small ih =
      let all : [] ≡ laws.rest start =
        sym e ∙ take-short page_size (laws.rest start) (rw e (omega (arith, positive))) in
      rw (← all, sums.0) (ap ok (omega (arith, small)))
  page-Counts rounds start total w (id ∷ ids) starts e h small ih =
      elim (Bool-cases (ltb (length (id ∷ ids)) page_size)) [
        | inl last ↦
            let all : id ∷ ids ≡ laws.rest start =
              sym e ∙ take-short page_size (laws.rest start) (rw e (ground arith)) in
            rw (last, ← all) refl
        | inr full ↦
            let start' = stream_range_start_after (last_of id ids) exclusive true in
            let (again, others) = laws.next_page start id ids starts e (ground arith) in
            let some_left = length-take-le page_size (laws.rest start) in
            rw full (
              ih start' ((total + weight (id ∷ ids)) % 2 ^ 64) w again
                (rw others (
                  omega (
                    arith,
                    length-drop page_size (laws.rest start),
                    h,
                    positive,
                    rw e at some_left,
                  )))
                (omega arith)
              ∙ ap ok (
                  rw others (
                    let split = sums.1 page_size (laws.rest start) in
                    omega (arith, rw e at split))))
      ]

  -- The loop ends within one round more than there are entries, and adds the weight of them all.
  pub count_pages-Counts : (rounds : ℕ) → Counts rounds
  unfolding count_pages
  count_pages-Counts zero start total w starts h small = absurd (omega (arith, h))
  count_pages-Counts (suc rounds) start total w starts h small = rw (laws.page start w starts) (
      page-Counts rounds start total _ (take page_size (laws.rest start)) starts refl h small
        (count_pages-Counts rounds))
