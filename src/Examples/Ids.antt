-- ===== src/Examples/Ids.antt =====
-- Stream ids and ranges at sample ids, with a server's reading of a range start.
use Prim.Native.Char.{Char, code}
use Prim.Native.String.{[], ◌∷◌, ◌++◌}
use text.Mathlib.TextLemmas.{nil-append, cons-append}
use responses_api_store.Common.{
  ℕ, ◌<◌, String, Bool, true, false, Option, none, some, ◌≡◌, refl, ◌↔◌, Bool-cases, inl, inr,
  arith, eqb, if◌then◌else◌,
}
use responses_api_store.Common.Text.{unsigned, push_left, split_once, parse_uint, digits, show}
use responses_api_store.Queue.StreamId.{
  max_u64, parse_stream_id, parse_parts, stream_id_less_than, stream_id_after,
  stream_range_start_after,
}
use responses_api_store.Queue.Order.{
  IsBefore, stream_id_less_than_iff, stream_id_after-parse, parse_stream_id-show,
}
use responses_api_store.Queue.Range.{RangeLaws, stream_range_start_after-Admits}

abbrev pub is_open : String → Bool
is_open [] = false
is_open (c ∷ s) = eqb (code c) b'('

abbrev pub rest : String → String
rest [] = []
rest (c ∷ s) = s

abbrev Later : Option (ℕ × ℕ) → ℕ × ℕ → Type 0
Later none x = Unit
Later (some a) x = IsBefore a x

abbrev NotEarlier : Option (ℕ × ℕ) → ℕ × ℕ → Type 0
NotEarlier none x = Unit
NotEarlier (some a) x = ¬ IsBefore x a

-- An open parenthesis excludes the id after it; a text that is no id starts anywhere.
abbrev AdmitsEntry : String → ℕ × ℕ → Type 0
AdmitsEntry start x =
    if is_open start
    then Later (parse_stream_id (rest start)) x
    else NotEarlier (parse_stream_id start) x

no-number : (c : Char) (a : String) → code c ≡ b'(' → unsigned (c ∷ a) ≡ none
unfolding digits
no-number c [] h = rw h
no-number c (d ∷ a) h = rw h

no-parts :
    (c : Char) (o : Option (String × String)) → code c ≡ b'(' → parse_parts (push_left c o) ≡ none
unfolding parse_uint
no-parts c none h = refl
no-parts c (some (a, b)) h = rw (no-number c a h)

pub open-none : (s : String) → is_open s ≡ true → parse_stream_id s ≡ none
unfolding parse_stream_id split_once
open-none [] h = ground arith
open-none (c ∷ s) h =
    let paren : code c ≡ b'(' = ground arith in rw (paren, no-parts c (split_once b'-' s) paren)

AdmitsEntry-RangeLaws : RangeLaws AdmitsEntry
unfolding parse_stream_id split_once parse_uint
AdmitsEntry-RangeLaws = record {
  all = λ x. tt;
  exclusive = λ id a x p. exclusive id a x p;
  inclusive = λ id a x p. inclusive id a x p;
}
  where
    exclusive :
        (id : String) (a x : ℕ × ℕ)
        → parse_stream_id id ≡ some a
        → AdmitsEntry ("(" ++ id) x ↔ IsBefore a x
    exclusive id a x p = rw (cons-append, nil-append, p) (λ h. h, λ h. h)

    inclusive :
        (id : String) (a x : ℕ × ℕ)
        → parse_stream_id id ≡ some a
        → AdmitsEntry id x ↔ ¬ IsBefore x a
    inclusive id a x p = elim (Bool-cases (is_open id)) [
      | inl o ↦ ground (arith, open-none id o)
      | inr closed ↦ rw (closed, p) (λ h. h, λ h. h)
    ]

parsed : parse_stream_id "1000-7" ≡ some (1000, 7)
unfolding parse_stream_id split_once parse_uint digits
parsed = refl

stream_range_start_after-Admits_example :
    AdmitsEntry (stream_range_start_after "1000-7" false true) (1000, 8)
    ↔ IsBefore (1000, 7) (1000, 8)
stream_range_start_after-Admits_example =
    stream_range_start_after-Admits AdmitsEntry AdmitsEntry-RangeLaws "1000-7" false true (1000, 7)
      (1000, 8) parsed (omega arith) (ground arith)

stream_id_less_than_iff_example : (stream_id_less_than "1000-7" "1000-8" ≡ true) ↔ (
    (a : ℕ × ℕ) × (b : ℕ × ℕ) × (parse_stream_id "1000-7" ≡ some a)
    × (parse_stream_id "1000-8" ≡ some b)
    × IsBefore a b)
stream_id_less_than_iff_example = stream_id_less_than_iff "1000-7" "1000-8"

stream_id_after-parse_example :
    (next : String) × (stream_id_after "1000-7" ≡ some next)
    × (7 < max_u64 → parse_stream_id next ≡ some (1000, 8))
    × (7 ≡ max_u64 → parse_stream_id next ≡ some (1000, 0))
stream_id_after-parse_example = stream_id_after-parse "1000-7" 1000 7 parsed

parse_stream_id-show_example : parse_stream_id (show 1000 ++ ("-" ++ show 7)) ≡ some (1000, 7)
parse_stream_id-show_example = parse_stream_id-show 1000 7 (omega arith) (omega arith)
