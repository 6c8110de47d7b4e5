-- ===== src/Common/Exec.antt =====
-- Code that talks to the outside: it changes a world, and returns, fails or panics.
pub mod Calm
use mathlib.Core.Path.{◌≡◌, refl}
use native.Mathlib.Omega.{arith}
use mathlib.Core.Logic.{◌≢◌, ◌⊎◌, inl, inr}
use responses_api_store.Common.Outcome.{Result, ok, err, panic, map_err}

abbrev pub Exec {ℓ} : Type 0 → Type 0 → Type ℓ → Type ℓ
Exec W E A = W → Result E A × W

module _ {W E : Type 0} where
  abbrev pub pure {ℓ} : {A : Type ℓ} → A → Exec W E A
  pure a w = (ok a, w)

  abbrev pub raise {ℓ} : {A : Type ℓ} → E → Exec W E A
  raise e w = (err e, w)

  abbrev pub lift {ℓ} : {A : Type ℓ} → Result E A → Exec W E A
  lift r w = (r, w)

  abbrev pub continue {ℓ κ} : {A : Type ℓ} {B : Type κ} → Result E A → (A → Exec W E B) → Exec W E B
  continue (ok a) f w = f a w
  continue (err e) f w = (err e, w)
  continue panic f w = (panic, w)

  infixl 5 ◌>>=◌ ◌>>◌
  abbrev pub ◌>>=◌ {ℓ κ} : {A : Type ℓ} {B : Type κ} → Exec W E A → (A → Exec W E B) → Exec W E B
  ◌>>=◌ m f w = continue (m w).0 f (m w).1

  abbrev pub ◌>>◌ {ℓ κ} : {A : Type ℓ} {B : Type κ} → Exec W E A → Exec W E B → Exec W E B
  m >> k = m >>= λ _. k

  -- `.map_err(f)` on the result of an effect
  abbrev pub map_error {ℓ} : {F : Type 0} {A : Type ℓ} → (E → F) → Exec W E A → Exec W F A
  map_error f m w = (map_err f (m w).0, (m w).1)

  -- a `match` on an effect's result, each error included
  abbrev pub handle_result {ℓ κ} :
      {F : Type 0} {A : Type ℓ} {B : Type κ}
      → (A → Exec W F B)
      → (E → Exec W F B)
      → Result E A
      → Exec W F B
  handle_result f g (ok a) w = f a w
  handle_result f g (err e) w = g e w
  handle_result f g panic w = (panic, w)

  abbrev pub match_result {ℓ κ} :
      {F : Type 0} {A : Type ℓ} {B : Type κ}
      → Exec W E A
      → (A → Exec W F B)
      → (E → Exec W F B)
      → Exec W F B
  match_result m f g w = handle_result f g (m w).0 (m w).1

  -- `let _ = e.await;`: an error is dropped
  abbrev pub ignore {ℓ} : {F : Type 0} {A : Type ℓ} → Exec W E A → Exec W F (Unit {0})
  ignore m w = handle_result (λ _ v. (ok tt, v)) (λ _ v. (ok tt, v)) (m w).0 (m w).1

  continue-ok {ℓ κ} :
      {A : Type ℓ} {B : Type κ} (r : Result E A) (f : A → Exec W E B) (u : W) {b : B}
      → (continue r f u).0 ≡ ok b
      → (a : A) × (r ≡ ok a) × (continue r f u ≡ f a u)
  continue-ok (ok a) f u h = (a, refl, refl)
  continue-ok (err e) f u h = ground arith
  continue-ok panic f u h = ground arith

  -- A bind succeeds only if its first part does, and then it is its second part.
  pub bind-ok {ℓ κ} :
      {A : Type ℓ} {B : Type κ} (m : Exec W E A) (f : A → Exec W E B) (w : W) {b : B}
      → ((m >>= f) w).0 ≡ ok b
      → (a : A) × ((m w).0 ≡ ok a) × ((m >>= f) w ≡ f a (m w).1)
  bind-ok m f w h = continue-ok (m w).0 f (m w).1 h

  handle_result-ok {ℓ κ} :
      {F : Type 0} {A : Type ℓ} {B : Type κ} (r : Result E A) (f : A → Exec W F B)
      (g : E → Exec W F B) (u : W) {b : B}
      → (handle_result f g r u).0 ≡ ok b
      → ((a : A) × (r ≡ ok a) × (handle_result f g r u ≡ f a u))
        ⊎ ((e : E) × (r ≡ err e) × (handle_result f g r u ≡ g e u))
  handle_result-ok (ok a) f g u h = inl (a, refl, refl)
  handle_result-ok (err e) f g u h = inr (e, refl, refl)
  handle_result-ok panic f g u h = ground arith

  -- A match on a result succeeds by its branch for success or by its branch for an error.
  pub match_result-ok {ℓ κ} :
      {F : Type 0} {A : Type ℓ} {B : Type κ} (m : Exec W E A) (f : A → Exec W F B)
      (g : E → Exec W F B) (w : W) {b : B}
      → (match_result m f g w).0 ≡ ok b
      → ((a : A) × ((m w).0 ≡ ok a) × (match_result m f g w ≡ f a (m w).1))
        ⊎ ((e : E) × ((m w).0 ≡ err e) × (match_result m f g w ≡ g e (m w).1))
  match_result-ok m f g w h = handle_result-ok (m w).0 f g (m w).1 h

  -- A computation that talks to nobody ends there, or goes on.
  pub lift_cases {ℓ κ} :
      {A : Type ℓ} {B : Type κ} (r : Result E A) (f : A → Exec W E B) (w : W)
      → (((lift r >>= f) w).1 ≡ w) ⊎ ((a : A) × (r ≡ ok a) × ((lift r >>= f) w ≡ f a w))
  lift_cases (ok a) f w = inr (a, refl, refl)
  lift_cases (err e) f w = inl refl
  lift_cases panic f w = inl refl

  -- A bind whose first part returns is its second part.
  pub bind-returns {ℓ κ} :
      {A : Type ℓ} {B : Type κ} (m : Exec W E A) (f : A → Exec W E B) (w : W) {a : A}
      → (m w).0 ≡ ok a
      → (m >>= f) w ≡ f a (m w).1
  bind-returns m f w h = rw h refl

  pub bind-raises {ℓ κ} :
      {A : Type ℓ} {B : Type κ} (m : Exec W E A) (f : A → Exec W E B) (w : W) {e : E}
      → (m w).0 ≡ err e
      → (m >>= f) w ≡ (err e, (m w).1)
  bind-raises m f w h = rw h refl

  ignored {ℓ} :
      {F : Type 0} {A : Type ℓ} (r : Result E A) (u : W)
      → r ≢ panic
      → Path
          (Result F (Unit {0}) × W)
          (handle_result (λ _ v. (ok tt, v)) (λ _ v. (ok tt, v)) r u)
          (ok tt, u)
  ignored (ok a) u calm = refl
  ignored (err e) u calm = refl
  ignored panic u calm = absurd (calm refl)

  -- A result that is dropped, where there is one.
  pub ignore-returns {ℓ} :
      {F : Type 0} {A : Type ℓ} (m : Exec W E A) (w : W)
      → (m w).0 ≢ panic
      → Path (Result F (Unit {0}) × W) (ignore m w) (ok tt, (m w).1)
  ignore-returns m w calm = ignored (m w).0 (m w).1 calm
