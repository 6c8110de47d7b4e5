-- ===== src/Common/Text/Parts.antt =====
-- A text is split at a separator that its first part avoids, as a printed number does.
use Prim.Native.Nat.{ℕ, zero, suc, ◌/◌, ◌%◌, ◌<◌}
use Prim.Native.Char.{Char, code}
use Prim.Native.String.{String, [], ◌∷◌, ◌++◌}
use text.Mathlib.TextLemmas.{nil-append, cons-append}
use mathlib.Core.Path.{◌≡◌, refl}
use mathlib.Core.Logic.{◌≢◌, ◌⊎◌, inl, inr}
use mathlib.Core.Option.{some}
use mathlib.Core.List
use native.Mathlib.Omega.{arith}
use responses_api_store.Common.Tests.{Bool-cases, ltb, ltb→lt}
use responses_api_store.Common.Text.{digit, decimal, show, split, split_once}
use responses_api_store.Common.Text.Decimal.{code-digit}

-- No character of the text has the code.
abbrev pub Avoids : ℕ → String → Type 0
Avoids sep [] = Unit
Avoids sep (c ∷ s) = (code c ≢ sep) × Avoids sep s

-- The code is not that of a digit.
abbrev pub IsNoDigit : ℕ → Type 0
IsNoDigit sep = (sep < b'0') ⊎ (b'9' < sep)

digit-apart : (sep n : ℕ) → IsNoDigit sep → n < 10 → code (digit n) ≢ sep
digit-apart sep n (inl h) l = omega (arith, code-digit n l)
digit-apart sep n (inr h) l = omega (arith, code-digit n l)

decimal-Avoids :
    (sep : ℕ) (f n : ℕ) (s : String) → IsNoDigit sep → Avoids sep s → Avoids sep (decimal f n s)
unfolding decimal
decimal-Avoids sep zero n s d h = h
decimal-Avoids sep (suc f) n s d h = elim (Bool-cases (ltb n 10)) [
  | inl small ↦ rw small (digit-apart sep n d (ltb→lt n 10 small), h)
  | inr large ↦ rw large (
      decimal-Avoids sep f (n / 10) (digit (n % 10) ∷ s) d
        (digit-apart sep (n % 10) d (omega arith), h))
]

pub show-Avoids : (sep n : ℕ) → IsNoDigit sep → Avoids sep (show n)
unfolding show
show-Avoids sep n d = decimal-Avoids sep 20 n [] d tt

pub split_once-append :
    (sep : ℕ) (c : Char) (a b : String)
    → code c ≡ sep
    → Avoids sep a
    → split_once sep (a ++ ((c ∷ []) ++ b)) ≡ some (a, b)
unfolding split_once
split_once-append sep c [] b e h = rw (nil-append, cons-append, nil-append, e) (ground arith)
split_once-append sep c (d ∷ a) b e (h, k) =
    rw (cons-append d a ((c ∷ []) ++ b)) (ground (arith, split_once-append sep c a b e k))

-- Up to the separator the text is the first piece.
pub split-append :
    (sep : ℕ) (c : Char) (a b : String)
    → code c ≡ sep
    → Avoids sep a
    → split sep (a ++ ((c ∷ []) ++ b)) ≡ List.◌∷◌ a (split sep b)
unfolding split
split-append sep c [] b e h = rw (nil-append, cons-append, nil-append, e) (ground arith)
split-append sep c (d ∷ a) b e (h, k) =
    rw (cons-append d a ((c ∷ []) ++ b)) (ground (arith, split-append sep c a b e k))

-- A text that avoids the separator is its only piece.
pub split-alone : (sep : ℕ) (a : String) → Avoids sep a → split sep a ≡ List.◌∷◌ a List.[]
unfolding split
split-alone sep [] h = refl
split-alone sep (d ∷ a) (h, k) = ground (arith, split-alone sep a k)
