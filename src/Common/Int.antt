-- ===== src/Common/Int.antt =====
-- Signed integers over the native numbers, and 64-bit saturating subtraction.
use Prim.Native.Nat.{ℕ, suc, ◌+◌, ◌-◌, ◌^◌, ◌≤◌}
use mathlib.Core.Bool.{Bool}
use responses_api_store.Common.Tests.{leb, if◌then◌else◌}

-- `negsuc n` is -(n + 1).
pub data ℤ : Type 0 where
  pos : ℕ → ℤ
  negsuc : ℕ → ℤ

abbrev pub pos_part : ℤ → ℕ
pos_part (pos n) = n
pos_part (negsuc n) = 0

abbrev pub neg_part : ℤ → ℕ
neg_part (pos n) = 0
neg_part (negsuc n) = suc n

abbrev pub sub_ℕ : ℕ → ℕ → ℤ
sub_ℕ a b = if leb b a then pos (a - b) else negsuc (b - a - 1)

infixl 65 ◌-ℤ◌
infix 50 ◌≤ℤ◌
unfoldable pub ◌-ℤ◌ : ℤ → ℤ → ℤ
a -ℤ b = sub_ℕ (pos_part a + neg_part b) (neg_part a + pos_part b)

abbrev pub ◌≤ℤ◌ : ℤ → ℤ → Type 0
a ≤ℤ b = pos_part a + neg_part b ≤ pos_part b + neg_part a

abbrev pub leb_ℤ : ℤ → ℤ → Bool
leb_ℤ a b = leb (pos_part a + neg_part b) (pos_part b + neg_part a)

-- `i64::MIN` is `negsuc max_i64`.
abbrev pub max_i64 : ℕ
max_i64 = 2 ^ 63 - 1

-- The integers that an `i64` holds.
abbrev pub IsI64 : ℤ → Type 0
IsI64 a = (a ≤ℤ pos max_i64) × (negsuc max_i64 ≤ℤ a)

abbrev pub clamp_i64 : ℤ → ℤ
clamp_i64 (pos n) = if leb n max_i64 then pos n else pos max_i64
clamp_i64 (negsuc n) = if leb n max_i64 then negsuc n else negsuc max_i64

-- `i64::saturating_sub`
unfoldable pub saturating_sub : ℤ → ℤ → ℤ
unfolding ◌-ℤ◌
saturating_sub a b = clamp_i64 (a -ℤ b)
