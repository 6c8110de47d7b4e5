-- ===== src/Model/Age.antt =====
-- crates/core/src/model.rs: the age of a response, on 64 bits.
use mathlib.Core.Option.{some-injective}
use responses_api_store.Common.{
  ◌≡◌, ◌↔◌, refl, sym, ◌∙◌, arith, true, Option, none, some, Bool-cases, inl, inr, leb,
}
use responses_api_store.Common.Int.{
  ℤ, pos, negsuc, ◌-ℤ◌, ◌≤ℤ◌, leb_ℤ, max_i64, clamp_i64, saturating_sub,
}
use responses_api_store.Model.{is_stale_enqueued}

-- A bound that an `i64` holds is reached after saturation exactly if it is reached before.
leb_ℤ-clamp_i64 : (a d : ℤ) → pos 0 ≤ℤ a → a ≤ℤ pos max_i64 → leb_ℤ a (clamp_i64 d) ≡ leb_ℤ a d
leb_ℤ-clamp_i64 (pos a) (pos d) p q = elim (Bool-cases (leb d max_i64)) [
  | inl small ↦ rw small refl
  | inr large ↦ rw large (ground arith)
]
leb_ℤ-clamp_i64 (pos a) (negsuc d) p q = elim (Bool-cases (leb d max_i64)) [
  | inl small ↦ rw small refl
  | inr large ↦ rw large (ground arith)
]
leb_ℤ-clamp_i64 (negsuc a) d p q = absurd (omega arith)

leb_ℤ_iff : (a b : ℤ) → (leb_ℤ a b ≡ true) ↔ (a ≤ℤ b)
leb_ℤ_iff a b = (λ h. ground (arith, h), λ h. ground (arith, h))

-- A response is stale exactly if it has a time at which it was enqueued and the bound is at most
-- the difference of the clock and that time in unbounded integers, so that the saturation of the
-- subtraction on 64 bits changes no answer; for a bound that is not negative and that 64 bits
-- hold.
pub is_stale_enqueued_iff :
    (enqueued_at : Option ℤ) (now stale_seconds : ℤ)
    → pos 0 ≤ℤ stale_seconds
    → stale_seconds ≤ℤ pos max_i64
    → (is_stale_enqueued enqueued_at now stale_seconds ≡ true)
      ↔ ((t : ℤ) × (enqueued_at ≡ some t) × (stale_seconds ≤ℤ now -ℤ t))
unfolding is_stale_enqueued saturating_sub
is_stale_enqueued_iff none now stale p q = (λ h. ground (arith, h), λ (x, h, k). ground (arith, h))
is_stale_enqueued_iff (some t) now stale p q =
    let same = leb_ℤ-clamp_i64 stale (now -ℤ t) p q in
    let (to, from) = leb_ℤ_iff stale (now -ℤ t) in
    (λ h. (t, refl, to (sym same ∙ h)), λ (x, h, k). same ∙ from (rw (some-injective t x h) k))
