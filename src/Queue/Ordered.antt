-- ===== src/Queue/Ordered.antt =====
-- crates/core/src/queue.rs: the ids of an ordered stream, with the entries that they name.
use mathlib.Core.List
use mathlib.Core.List.{append_assoc}
use responses_api_store.Common.{
  ℕ, zero, suc, ◌+◌, ◌<◌, String, some, List, [], ◌∷◌, ◌≡◌, ◌≢◌, refl, ap, Bool, true, ◌⊎◌, inl,
  inr, arith, take, drop, All, All-at, ltb, ltb→lt, Bool-cases,
}
use responses_api_store.Queue.StreamId.{max_u64, parse_stream_id}
use responses_api_store.Queue.Order.{IsBefore}
use responses_api_store.Queue.Stats.{last_of}

-- The next start is right: the server has exclusive starts, or the entry has not the greatest sequence
-- number.
abbrev pub HasNext : Bool → ℕ × ℕ → Type 0
HasNext exclusive a = (exclusive ≡ true) ⊎ (a.1 < max_u64)

-- The texts of ids, with the entries that they name: each is read as its entry, which is not 0-0 and
-- has a next start, and each is before those after it.
abbrev pub IsOrdered : Bool → List (String × (ℕ × ℕ)) → Type 0
IsOrdered exclusive [] = Unit
IsOrdered exclusive ((id, a) ∷ xs) =
    (parse_stream_id id ≡ some a)
    × (a ≢ (0, 0))
    × HasNext exclusive a
    × All (λ x. IsBefore a x.1) xs
    × IsOrdered exclusive xs

abbrev pub ids_of : List (String × (ℕ × ℕ)) → List String
ids_of [] = []
ids_of ((id, a) ∷ xs) = id ∷ ids_of xs

-- The last of the entries that begin with one, and those before it.
abbrev pub last_entry : String × (ℕ × ℕ) → List (String × (ℕ × ℕ)) → String × (ℕ × ℕ)
last_entry x [] = x
last_entry x (y ∷ ys) = last_entry y ys

abbrev pub but_last : String × (ℕ × ℕ) → List (String × (ℕ × ℕ)) → List (String × (ℕ × ℕ))
but_last x [] = []
but_last x (y ∷ ys) = x ∷ but_last y ys

pub last-split :
    (x : String × (ℕ × ℕ)) (xs after : List (String × (ℕ × ℕ)))
    → List.◌++◌ (x ∷ xs) after ≡ List.◌++◌ (but_last x xs) (last_entry x xs ∷ after)
last-split x [] after = refl
last-split x (y ∷ ys) after = ap (λ zs. x ∷ zs) (last-split y ys after)

pub last_of-ids_of :
    (x : String × (ℕ × ℕ)) (xs : List (String × (ℕ × ℕ)))
    → last_of x.0 (ids_of xs) ≡ (last_entry x xs).0
last_of-ids_of x [] = refl
last_of-ids_of x (y ∷ ys) = last_of-ids_of y ys

pub IsOrdered-same :
    (exclusive : Bool) {xs ys : List (String × (ℕ × ℕ))}
    → xs ≡ ys
    → IsOrdered exclusive xs
    → IsOrdered exclusive ys
IsOrdered-same exclusive e h = rw (← e) h

pub IsOrdered-end :
    (exclusive : Bool) (before after : List (String × (ℕ × ℕ)))
    → IsOrdered exclusive (List.◌++◌ before after)
    → IsOrdered exclusive after
IsOrdered-end exclusive [] after h = h
IsOrdered-end exclusive ((id, a) ∷ before) after (p, z, l, b, h) =
    IsOrdered-end exclusive before after h

pub earlier_entries :
    (exclusive : Bool) (before after : List (String × (ℕ × ℕ))) (id : String) (a : ℕ × ℕ)
    → IsOrdered exclusive (List.◌++◌ before ((id, a) ∷ after))
    → All (λ x. IsBefore x.1 a) before
earlier_entries exclusive [] after id a h = tt
earlier_entries exclusive ((i, b) ∷ before) after id a (p, z, l, later, h) = (
  All-at (λ x. IsBefore b x.1) before after (id, a) later,
  earlier_entries exclusive before after id a h,
)

pub IsBefore-trans : (a b c : ℕ × ℕ) → IsBefore a b → IsBefore b c → IsBefore a c
IsBefore-trans (a, a₁) (b, b₁) (c, c₁) h k = ground (arith, h, k)

pub IsBefore-irrefl : (a : ℕ × ℕ) → ¬ IsBefore a a
IsBefore-irrefl (a, b) h = ground (arith, h)

pub not_after_next : (x : ℕ × ℕ) (ms seq : ℕ) → ¬ IsBefore (ms, seq) x → IsBefore x (ms, seq + 1)
not_after_next (u, v) ms seq n = elim (Bool-cases (ltb u ms)) [
  | inl less ↦ inl (ltb→lt u ms less)
  | inr other ↦ elim (Bool-cases (ltb ms u)) [
    | inl more ↦ absurd (n (inl (ltb→lt ms u more)))
    | inr same ↦ elim (Bool-cases (ltb seq v)) [
      | inl after ↦ absurd (n (inr (ground arith)))
      | inr before ↦ inr (ground arith)
    ]
  ]
]

pub take-ids_of : (n : ℕ) (xs : List (String × (ℕ × ℕ))) → ids_of (take n xs) ≡ take n (ids_of xs)
take-ids_of zero xs = refl
take-ids_of (suc n) [] = refl
take-ids_of (suc n) (x ∷ xs) = ap (λ ys. x.0 ∷ ys) (take-ids_of n xs)

pub drop-ids_of : (n : ℕ) (xs : List (String × (ℕ × ℕ))) → ids_of (drop n xs) ≡ drop n (ids_of xs)
drop-ids_of zero xs = refl
drop-ids_of (suc n) [] = refl
drop-ids_of (suc n) (x ∷ xs) = drop-ids_of n xs

abbrev pub last_text : List String → String
last_text [] = ""
last_text (id ∷ ids) = last_of id ids
