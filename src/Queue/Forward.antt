-- ===== src/Queue/Forward.antt =====
-- crates/core/src/queue.rs: the moves of the stored autoclaim cursor.
use Prim.Native.String.{◌++◌}
use mathlib.Core.Option.{some-injective}
use responses_api_store.Common.{
  ℕ, ◌^◌, ◌<◌, String, ◌==◌, true, false, Option, some, ◌≡◌, refl, ap, ◌∙◌, sym, ◌⊎◌, inl, inr,
  arith, ltb, ltb→lt, eqb, eq_iff, Bool-cases,
}
use responses_api_store.Common.Text.{show, split_once, parse_uint, digits}
use responses_api_store.Common.Text.Parts.{split_once-append, show-Avoids}
use responses_api_store.Queue.StreamId.{parse_stream_id}
use responses_api_store.Queue.Order.{IsBefore, parse_stream_id-show}
use responses_api_store.Queue.Cursor.{
  greater, equal, moves, stays, by_time, split_id, autoclaim_cursor_script,
}

abbrev pub print : ℕ × ℕ → String
print (ms, seq) = show ms ++ ("-" ++ show seq)

-- Lua reads a printed number back as far as its doubles are exact.
abbrev pub IsExact : (String → Option ℕ) → Type 0
IsExact tonumber = (n : ℕ) → n < 2 ^ 53 → tonumber (show n) ≡ some n

abbrev pub IsSmall : ℕ × ℕ → Type 0
IsSmall (ms, seq) = (ms < 2 ^ 53) × (seq < 2 ^ 53)

origin : (a : ℕ × ℕ) → IsSmall a → print a ≡ "0-0" → a ≡ (0, 0)
unfolding parse_stream_id split_once parse_uint digits
origin (ms, seq) (h, k) e =
    let zero_id : parse_stream_id "0-0" ≡ some (0, 0) = refl in
    some-injective (ms, seq) (0, 0)
      (sym (parse_stream_id-show ms seq (omega arith) (omega arith))
        ∙ (ap parse_stream_id e ∙ zero_id))

print-origin : print (0, 0) ≡ "0-0"
unfolding show
print-origin = refl

neither :
    (a b : ℕ × ℕ) → ¬ IsBefore a b → (print b == "0-0") ≡ false → ¬ (IsBefore a b ⊎ (b ≡ (0, 0)))
neither a b back other (inl h) = back h
neither a b back other (inr e) =
    let reset : (print b == "0-0") ≡ true =
      (eq_iff (print b) "0-0").1 (ap print e ∙ print-origin) in
    cc (reset, other)

module _ (tonumber : String → Option ℕ) (exact : IsExact tonumber) where
  split_id-print :
      (ms seq : ℕ) → IsSmall (ms, seq) → split_id tonumber (print (ms, seq)) ≡ (some ms, some seq)
  unfolding split_id
  split_id-print ms seq (h, k) =
      rw
        (
          split_once-append b'-' "-" (show ms) (show seq) refl
              (show-Avoids b'-' ms (inl (omega arith))),
          exact ms h,
          exact seq k,
        )
        refl

  by_time-cases :
      (cursor : String) (a b : ℕ × ℕ)
      → (IsBefore a b
          × (by_time cursor
                (greater (some b.0) (some a.0))
                (equal (some b.0) (some a.0))
                (greater (some b.1) (some a.1))
              ≡ some (moves cursor)))
        ⊎ (¬ IsBefore a b
            × (by_time cursor
                  (greater (some b.0) (some a.0))
                  (equal (some b.0) (some a.0))
                  (greater (some b.1) (some a.1))
                ≡ some stays))
  by_time-cases cursor (a, b) (c, d) = elim (Bool-cases (ltb a c)) [
    | inl newer ↦ inl (inl (ltb→lt a c newer), rw newer refl)
    | inr other ↦ elim (Bool-cases (eqb c a)) [
      | inr older ↦ inr ((λ h. ground arith), rw (other, older) refl)
      | inl same ↦ elim (Bool-cases (ltb b d)) [
        | inl later ↦ inl (inr (ground arith), rw (other, same, later) refl)
        | inr before ↦ inr ((λ h. ground arith), rw (other, same, before) refl)
      ]
    ]
  ]

  -- Where a cursor is stored, the script replaces it exactly if the new one is later or the
  -- origin, for ids whose numbers are below 2^53, which Lua has exactly.
  pub autoclaim_cursor_script-Forward :
      (new old : ℕ × ℕ)
      → IsSmall new
      → IsSmall old
      → ((IsBefore old new ⊎ (new ≡ (0, 0)))
          × (autoclaim_cursor_script tonumber (print new) (some (print old))
              ≡ some (moves (print new))))
        ⊎ (¬ (IsBefore old new ⊎ (new ≡ (0, 0)))
            × (autoclaim_cursor_script tonumber (print new) (some (print old)) ≡ some stays))
  unfolding autoclaim_cursor_script
  autoclaim_cursor_script-Forward (c, d) (a, b) small_new small_old =
      elim (Bool-cases (print (c, d) == "0-0")) [
        | inl reset ↦ inl (inr (origin (c, d) small_new ((eq_iff _ _).0 reset)), rw reset refl)
        | inr other ↦
            rw (other, split_id-print c d small_new, split_id-print a b small_old)
              (elim (by_time-cases (print (c, d)) (a, b) (c, d)) [
                | inl (forward, e) ↦ inl (inl forward, e)
                | inr (back, e) ↦ inr (neither (a, b) (c, d) back other, e)
              ])
      ]
