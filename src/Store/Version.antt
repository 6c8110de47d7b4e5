-- ===== src/Store/Version.antt =====
-- crates/core/src/store.rs: the order of versions.
use Prim.Native.String.{◌++◌}
use responses_api_store.Common.{ℕ, ◌≤◌, ◌<◌, String, true, some, ◌≡◌, refl, ◌⊎◌, ◌↔◌, inl, arith}
use responses_api_store.Common.Text.{show}
use responses_api_store.Common.Text.Decimal.{parse_uint-show}
use responses_api_store.Common.Text.Parts.{split-append, show-Avoids}
use responses_api_store.Store.Capabilities.{max_u32, redis_version_at_least, version_at_least}

-- The order of versions: major number first, then the minor one.
abbrev pub IsAtLeast : ℕ × ℕ → ℕ × ℕ → Type 0
IsAtLeast (major, minor) (a, b) = (a < major) ⊎ ((major ≡ a) × (b ≤ minor))

version_at_least_iff :
    (major minor a b : ℕ)
    → (version_at_least (some major) (some minor) a b ≡ true) ↔ IsAtLeast (major, minor) (a, b)
version_at_least_iff major minor a b = (λ h. ground arith, λ h. ground arith)

-- A version that is printed as major, minor and any patch text, with 32-bit numbers, is at least
-- another exactly by major number first and then by minor number.
pub redis_version_at_least_iff :
    (major minor a b : ℕ) (patch : String)
    → major ≤ max_u32
    → minor ≤ max_u32
    → (redis_version_at_least (show major ++ ("." ++ (show minor ++ ("." ++ patch)))) a b ≡ true)
      ↔ IsAtLeast (major, minor) (a, b)
unfolding redis_version_at_least
redis_version_at_least_iff major minor a b patch h k =
    rw
      (
        split-append b'.' "." (show major) (show minor ++ ("." ++ patch)) refl
            (show-Avoids b'.' major (inl (omega arith))),
        split-append b'.' "." (show minor) patch refl (show-Avoids b'.' minor (inl (omega arith))),
        parse_uint-show max_u32 major h (omega arith),
        parse_uint-show max_u32 minor k (omega arith),
      )
      (version_at_least_iff major minor a b)
