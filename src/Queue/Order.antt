-- ===== src/Queue/Order.antt =====
-- crates/core/src/queue.rs: the order of stream ids, and the id that comes next.
use Prim.Native.Nat.{ℕ, ◌+◌, ◌%◌, ◌^◌, ◌≤◌, ◌<◌}
use Prim.Native.String.{String, ◌++◌}
use responses_api_store.Queue.StreamId.{both}
use responses_api_store.Common.Text.{at_most, unsigned}
use responses_api_store.Common.{
  true, Option, none, some, ◌≡◌, refl, ap, ◌∙◌, ◌⊎◌, ◌↔◌, inl, inr, arith, ltb, eqb, ltb→lt,
  Bool-cases,
}
use responses_api_store.Common.Text.{at_most, unsigned, split_once, parse_uint, show}
use responses_api_store.Common.Text.Decimal.{parse_uint-show}
use responses_api_store.Common.Text.Parts.{split_once-append, show-Avoids}
use responses_api_store.Queue.StreamId.{
  max_u64, parse_parts, parse_stream_id, stream_id_after, before, stream_id_less_than,
}

-- An id that is printed from two 64-bit numbers is parsed to them.
pub parse_stream_id-show :
    (ms seq : ℕ)
    → ms ≤ max_u64
    → seq ≤ max_u64
    → parse_stream_id (show ms ++ ("-" ++ show seq)) ≡ some (ms, seq)
unfolding parse_stream_id
parse_stream_id-show ms seq h k = rw (
  split_once-append b'-' "-" (show ms) (show seq) refl (show-Avoids b'-' ms (inl (omega arith))),
  parse_uint-show max_u64 ms h (omega arith),
  parse_uint-show max_u64 seq k (omega arith),
)

at_most-le : (max : ℕ) (o : Option ℕ) (n : ℕ) → at_most max o ≡ some n → n ≤ max
at_most-le max none n h = ground arith
at_most-le max (some m) n h = ground arith

pub parse_uint-le : (max : ℕ) (s : String) (n : ℕ) → parse_uint max s ≡ some n → n ≤ max
unfolding parse_uint
parse_uint-le max s n h = at_most-le max (unsigned s) n h

both-some :
    (x y : Option ℕ) {ms seq : ℕ} → both x y ≡ some (ms, seq) → (x ≡ some ms) × (y ≡ some seq)
both-some (some a) (some b) h = ground arith
both-some (some a) none h = ground arith
both-some none y h = ground arith

parse_parts-bounds :
    (o : Option (String × String)) {ms seq : ℕ}
    → parse_parts o ≡ some (ms, seq)
    → (ms ≤ max_u64) × (seq ≤ max_u64)
parse_parts-bounds none h = ground arith
parse_parts-bounds (some (a, b)) h =
    let (p, q) = both-some (parse_uint max_u64 a) (parse_uint max_u64 b) h in
    (parse_uint-le max_u64 a _ p, parse_uint-le max_u64 b _ q)

-- The numbers of a parsed id fit 64 bits.
pub parse_stream_id-bounds :
    (id : String) {ms seq : ℕ}
    → parse_stream_id id ≡ some (ms, seq)
    → (ms ≤ max_u64) × (seq ≤ max_u64)
unfolding parse_stream_id
parse_stream_id-bounds id h = parse_parts-bounds (split_once b'-' id) h

-- The order of entries: milliseconds first, then the sequence number.
abbrev pub IsBefore : ℕ × ℕ → ℕ × ℕ → Type 0
IsBefore (a, b) (c, d) = (a < c) ⊎ ((a ≡ c) × (b < d))

pub before-some : (a b : ℕ × ℕ) → (before (some a) (some b) ≡ true) ↔ IsBefore a b
before-some (a, b) (c, d) = (λ h. ground arith, λ h. ground arith)

before-true :
    (x y : Option (ℕ × ℕ))
    → before x y ≡ true
    → (a : ℕ × ℕ) × (b : ℕ × ℕ) × (x ≡ some a) × (y ≡ some b) × IsBefore a b
before-true (some a) (some b) h = (a, b, refl, refl, (before-some a b).0 h)
before-true (some l) none h = ground arith
before-true none y h = ground arith

-- One id is less than another exactly when both parse and the first entry is before the second.
pub stream_id_less_than_iff :
    (left right : String)
    → (stream_id_less_than left right ≡ true) ↔ (
        (a : ℕ × ℕ) × (b : ℕ × ℕ) × (parse_stream_id left ≡ some a)
        × (parse_stream_id right ≡ some b)
        × IsBefore a b)
unfolding stream_id_less_than
stream_id_less_than_iff left right = (
  before-true (parse_stream_id left) (parse_stream_id right),
  λ (a, b, p, q, l). rw (p, q) ((before-some a b).1 l),
)

-- The id that follows a parsed id, short of the greatest sequence number, parses to the least
-- entry after it; at the greatest sequence number it wraps around to the first entry of the
-- millisecond.
pub stream_id_after-parse :
    (id : String) (ms seq : ℕ)
    → parse_stream_id id ≡ some (ms, seq)
    → (next : String) × (stream_id_after id ≡ some next)
      × (seq < max_u64 → parse_stream_id next ≡ some (ms, seq + 1))
      × (seq ≡ max_u64 → parse_stream_id next ≡ some (ms, 0))
unfolding stream_id_after
stream_id_after-parse id ms seq p =
    let (h, k) = parse_stream_id-bounds id p in
    let printed = parse_stream_id-show ms ((seq + 1) % 2 ^ 64) h (omega arith) in
    (
      show ms ++ ("-" ++ show ((seq + 1) % 2 ^ 64)),
      rw p,
      λ lt. printed ∙ ap (λ (n : ℕ). some (ms, n)) (omega arith),
      λ eq. printed ∙ ap (λ (n : ℕ). some (ms, n)) (omega arith),
    )

-- No entry lies between an entry and the one with the next sequence number.
pub IsBefore-next : (ms seq u v : ℕ) → IsBefore (ms, seq) (u, v) ↔ ¬ IsBefore (u, v) (ms, seq + 1)
IsBefore-next ms seq u v = (there, back)
  where
    there : IsBefore (ms, seq) (u, v) → ¬ IsBefore (u, v) (ms, seq + 1)
    there (inl p) (inl q) = omega arith
    there (inl p) (inr q) = omega arith
    there (inr p) (inl q) = omega arith
    there (inr p) (inr q) = omega arith

    back : ¬ IsBefore (u, v) (ms, seq + 1) → IsBefore (ms, seq) (u, v)
    back h = elim (Bool-cases (ltb ms u)) [
      | inl less ↦ inl (ltb→lt ms u less)
      | inr other ↦ elim (Bool-cases (eqb ms u)) [
        | inr more ↦ absurd (h (inl (ground arith)))
        | inl same ↦ elim (Bool-cases (ltb seq v)) [
          | inl after ↦ inr (ground arith)
          | inr before ↦ absurd (h (inr (ground arith)))
        ]
      ]
    ]
