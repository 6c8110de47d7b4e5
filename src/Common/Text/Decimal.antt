-- ===== src/Common/Text/Decimal.antt =====
-- A number that is printed in decimal is read back.
use Prim.Native.Nat.{◌^◌}
use Prim.Native.Char.{code}
use Prim.Native.String.{String, [], ◌∷◌}
use native.Mathlib.Nat.{pow-suc}
use mathlib.Core.Path.{◌≡◌, refl, ap, ◌∙◌}
use native.Mathlib.Omega.{arith}
use Prim.Native.Nat.{ℕ, zero, suc, ◌+◌, ◌-◌, ◌*◌, ◌/◌, ◌%◌, ◌≤◌, ◌<◌}
use mathlib.Core.Option.{some}
use mathlib.Core.Logic.{inl, inr}
use responses_api_store.Common.Tests.{Bool-cases, ltb, ltb→lt}
use responses_api_store.Common.Text.{digits, digit, decimal, show, unsigned, parse_uint}

pub code-digit : (n : ℕ) → n < 10 → code (digit n) ≡ b'0' + n
code-digit zero h = refl
code-digit (suc zero) h = refl
code-digit (suc (suc zero)) h = refl
code-digit (suc (suc (suc zero))) h = refl
code-digit (suc (suc (suc (suc zero)))) h = refl
code-digit (suc (suc (suc (suc (suc zero))))) h = refl
code-digit (suc (suc (suc (suc (suc (suc zero)))))) h = refl
code-digit (suc (suc (suc (suc (suc (suc (suc zero))))))) h = refl
code-digit (suc (suc (suc (suc (suc (suc (suc (suc zero)))))))) h = refl
code-digit (suc (suc (suc (suc (suc (suc (suc (suc (suc zero))))))))) h = refl
code-digit (suc (suc (suc (suc (suc (suc (suc (suc (suc (suc n)))))))))) h = absurd (omega arith)

digits-digit :
    (acc n : ℕ) (s : String) → n < 10 → digits acc (digit n ∷ s) ≡ digits (acc * 10 + n) s
unfolding digits
digits-digit acc n s h =
    let e : b'0' + n - b'0' ≡ n = omega arith in rw (code-digit n h, e) (ground arith)

-- Reading the digits of `n` goes on as if `n` had been read.
digits-decimal : (f n : ℕ) (s : String) → n < 10 ^ f → digits 0 (decimal f n s) ≡ digits n s
unfolding decimal
digits-decimal zero n s h = let e : n ≡ 0 = omega arith in rw e
digits-decimal (suc f) n s h = elim (Bool-cases (ltb n 10)) [
  | inl small ↦
      rw small (digits-digit 0 n s (ltb→lt n 10 small) ∙ ap (λ m. digits m s) (omega arith))
  | inr large ↦ rw large (
      digits-decimal f (n / 10) (digit (n % 10) ∷ s) (omega (arith, pow-suc 10 f))
      ∙ (digits-digit (n / 10) (n % 10) s (omega arith) ∙ ap (λ m. digits m s) (omega arith)))
]

-- The first character of a printed number is a digit.
unsigned-decimal :
    (f n : ℕ) (d : ℕ) (s : String)
    → d < 10
    → unsigned (decimal f n (digit d ∷ s)) ≡ digits 0 (decimal f n (digit d ∷ s))
unfolding decimal
unsigned-decimal zero n d [] h = refl
unsigned-decimal zero n d (c ∷ s) h = rw (code-digit d h) (ground arith)
unsigned-decimal (suc f) n d s h = elim (Bool-cases (ltb n 10)) [
  | inl small ↦ rw (small, code-digit n (ltb→lt n 10 small)) (ground arith)
  | inr large ↦ rw large (unsigned-decimal f (n / 10) (n % 10) (digit d ∷ s) (omega arith))
]

unsigned-show : (f n : ℕ) → n < 10 ^ suc f → unsigned (decimal (suc f) n []) ≡ some n
unfolding decimal digits
unsigned-show f n h = elim (Bool-cases (ltb n 10)) [
  | inl small ↦ rw small (digits-digit 0 n [] (ltb→lt n 10 small) ∙ ap some (omega arith))
  | inr large ↦ rw large (
      unsigned-decimal f (n / 10) (n % 10) [] (omega arith)
      ∙ (digits-decimal f (n / 10) (digit (n % 10) ∷ []) (omega (arith, pow-suc 10 f))
          ∙ (digits-digit (n / 10) (n % 10) [] (omega arith) ∙ ap some (omega arith))))
]

-- What is printed of a number that the type holds is parsed to that number.
pub parse_uint-show : (max n : ℕ) → n ≤ max → n < 10 ^ 20 → parse_uint max (show n) ≡ some n
unfolding parse_uint show
parse_uint-show max n h k = rw (unsigned-show 19 n k) (ground arith)
