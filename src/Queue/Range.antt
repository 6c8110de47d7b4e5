-- ===== src/Queue/Range.antt =====
-- crates/core/src/queue.rs: where a range query starts that is to go on after a known entry. Servers
-- before 6.2 have no exclusive starts, and the program then counts the id up.
use Prim.Native.String.{◌++◌}
use mathlib.Core.Option.{some-injective}
use responses_api_store.Common.{zero, suc}
use responses_api_store.Queue.Order.{IsBefore-next}
use responses_api_store.Queue.StreamId.{or_else}
use responses_api_store.Common.{
  ℕ, ◌+◌, ◌<◌, String, ◌==◌, Bool, true, not, ◌&&◌, ◌||◌, some, ◌≡◌, ◌≢◌, refl, ap, ◌∙◌, sym, ◌↔◌,
  inl, inr, arith, eq_iff, Bool-cases,
}
use responses_api_store.Common.Text.{split_once, parse_uint, digits}
use responses_api_store.Queue.StreamId.{
  max_u64, parse_stream_id, stream_id_after, stream_range_start_after,
}
use responses_api_store.Queue.Order.{IsBefore, stream_id_after-parse}

-- What the documentation of XRANGE and XPENDING says of the start of a range, with `Admits start x`
-- for "the range that begins at `start` holds the entry `x`".
pub record RangeLaws (Admits : String → ℕ × ℕ → Type 0) : Type 0 where
  pub all : (x : ℕ × ℕ) → Admits "-" x
  pub exclusive :
      (id : String) (a x : ℕ × ℕ)
      → parse_stream_id id ≡ some a
      → Admits ("(" ++ id) x ↔ IsBefore a x
  pub inclusive :
      (id : String) (a x : ℕ × ℕ) → parse_stream_id id ≡ some a → Admits id x ↔ ¬ IsBefore x a

abbrev pub starts_anywhere : String → Bool → Bool
starts_anywhere id after = not after && (id == "0-0" || id == "-")

-- The id for which the range starts anywhere is the origin.
pub starts_anywhere-origin :
    (id : String) (after : Bool) (a : ℕ × ℕ)
    → parse_stream_id id ≡ some a
    → starts_anywhere id after ≡ true
    → a ≡ (0, 0)
unfolding parse_stream_id split_once parse_uint digits
starts_anywhere-origin id after a p h = elim (Bool-cases (id == "0-0")) [
  | inl origin ↦
      let e : id ≡ "0-0" = (eq_iff _ _).0 origin in
      sym (some-injective (0, 0) a (sym (ap parse_stream_id e) ∙ p))
  | inr other ↦
      let e : id ≡ "-" = ground (arith, eq_iff id "-") in
      ground (arith, sym (ap parse_stream_id e) ∙ p)
]

pub after_origin : (x : ℕ × ℕ) → x ≢ (0, 0) → IsBefore (0, 0) x
after_origin (zero, zero) n = absurd (n refl)
after_origin (zero, suc v) n = inr (refl, omega arith)
after_origin (suc u, v) n = inl (omega arith)

module _ (Admits : String → ℕ × ℕ → Type 0) (laws : RangeLaws Admits) where
  next-admits :
      (id : String) (ms seq : ℕ) (x : ℕ × ℕ)
      → parse_stream_id id ≡ some (ms, seq)
      → seq < max_u64
      → Admits (or_else (stream_id_after id) id) x ↔ IsBefore (ms, seq) x
  next-admits id ms seq (u, v) p h =
      let (next, e, least, wraps) = stream_id_after-parse id ms seq p in
      let (to, from) = laws.inclusive next (ms, seq + 1) (u, v) (least h) in
      let (there, back) = IsBefore-next ms seq u v in
      rw e ((λ ad. back (to ad)), λ b. from (there b))

  -- A range that is to go on after a parsed id holds exactly the later entries, whether or not
  -- the server has exclusive starts, short of the greatest sequence number and apart from 0-0,
  -- the id of no entry; under the documented meaning of range starts.
  pub stream_range_start_after-Admits :
      (id : String) (exclusive after : Bool) (a x : ℕ × ℕ)
      → parse_stream_id id ≡ some a
      → a.1 < max_u64
      → x ≢ (0, 0)
      → Admits (stream_range_start_after id exclusive after) x ↔ IsBefore a x
  unfolding stream_range_start_after
  stream_range_start_after-Admits id exclusive after a x p h n =
      elim (Bool-cases (starts_anywhere id after)) [
        | inl anywhere ↦ rw anywhere (
          (λ _. rw (starts_anywhere-origin id after a p anywhere) (after_origin x n)),
          λ _. laws.all x,
        )
        | inr from_id ↦ elim (Bool-cases exclusive) [
          | inl newer ↦ rw (from_id, newer) (laws.exclusive id a x p)
          | inr older ↦ rw (from_id, older) (next-admits id a.0 a.1 x p h)
        ]
      ]
