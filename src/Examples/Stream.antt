-- ===== src/Examples/Stream.antt =====
-- A stream whose ranges are computed from its entries.
use Prim.Native.String.{◌++◌}
use mathlib.Core.List
use text.Mathlib.TextLemmas.{nil-append, cons-append}
use responses_api_store.Common.{
  ℕ, String, Bool, true, false, not, some, List, [], ◌∷◌, ◌≡◌, refl, ap, inl, inr, arith, All,
  All-map, Bool-cases, if◌then◌else◌,
}
use responses_api_store.Queue.StreamId.{before, parse_stream_id}
use responses_api_store.Queue.Order.{IsBefore, before-some}
use responses_api_store.Examples.Ids.{is_open, rest, open-none}

abbrev pub Entries : Type 0
Entries = List (String × (ℕ × ℕ))

abbrev pub drop_until : (String × (ℕ × ℕ) → Bool) → Entries → Entries
drop_until f [] = []
drop_until f (x ∷ xs) = if f x then x ∷ xs else drop_until f xs

-- The entries that a range may hold.
abbrev pub kept : String → String × (ℕ × ℕ) → Bool
kept start =
    if is_open start
    then (λ x. before (parse_stream_id (rest start)) (some x.1))
    else (λ x. not (before (some x.1) (parse_stream_id start)))

abbrev pub range_from : Entries → String → Entries
range_from xs start = drop_until (kept start) xs

pub drop_until-end :
    (f : String × (ℕ × ℕ) → Bool) (xs : Entries)
    → (front : Entries) × (xs ≡ List.◌++◌ front (drop_until f xs))
drop_until-end f [] = ([], refl)
drop_until-end f (x ∷ xs) = elim (Bool-cases (f x)) [
  | inl t ↦ ([], rw t refl)
  | inr g ↦ let (front, e) = drop_until-end f xs in (x ∷ front, rw g (ap (λ ys. x ∷ ys) e))
]

drop_until-split :
    (f : String × (ℕ × ℕ) → Bool) (front back : Entries)
    → All (λ x. f x ≡ false) front
    → All (λ x. f x ≡ true) back
    → drop_until f (List.◌++◌ front back) ≡ back
drop_until-split f [] [] h k = refl
drop_until-split f [] (x ∷ back) h (k, ks) = rw k refl
drop_until-split f (x ∷ front) back (h, hs) k = rw h (drop_until-split f front back hs k)

not_before : (a b : ℕ × ℕ) → ¬ IsBefore a b → before (some a) (some b) ≡ false
not_before a b h = elim (Bool-cases (before (some a) (some b))) [
  | inl t ↦ absurd (h ((before-some a b).0 t))
  | inr f ↦ f
]

pub range_from-exclusive :
    (xs front back : Entries) (id : String) (a : ℕ × ℕ)
    → parse_stream_id id ≡ some a
    → xs ≡ List.◌++◌ front back
    → All (λ x. ¬ IsBefore a x.1) front
    → All (λ x. IsBefore a x.1) back
    → range_from xs ("(" ++ id) ≡ back
range_from-exclusive xs front back id a p e h k =
    rw (e, cons-append, nil-append, p)
      (drop_until-split (λ x. before (some a) (some x.1)) front back
        (All-map (λ x. ¬ IsBefore a x.1) (λ x. before (some a) (some x.1) ≡ false) front
          (λ x n. not_before a x.1 n) h)
        (All-map (λ x. IsBefore a x.1) (λ x. before (some a) (some x.1) ≡ true) back
          (λ x b. (before-some a x.1).1 b) k))

pub range_from-inclusive :
    (xs front back : Entries) (start : String) (a : ℕ × ℕ)
    → parse_stream_id start ≡ some a
    → xs ≡ List.◌++◌ front back
    → All (λ x. IsBefore x.1 a) front
    → All (λ x. ¬ IsBefore x.1 a) back
    → range_from xs start ≡ back
range_from-inclusive xs front back start a p e h k = elim (Bool-cases (is_open start)) [
  | inl o ↦ absurd (ground (arith, open-none start o))
  | inr closed ↦
      rw (e, closed, p)
        (drop_until-split (λ x. not (before (some x.1) (some a))) front back
          (All-map (λ x. IsBefore x.1 a) (λ x. not (before (some x.1) (some a)) ≡ false) front
            (λ x b. ap not ((before-some x.1 a).1 b)) h)
          (All-map (λ x. ¬ IsBefore x.1 a) (λ x. not (before (some x.1) (some a)) ≡ true) back
            (λ x n. ap not (not_before x.1 a n)) k))
]
