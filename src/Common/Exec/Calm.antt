-- ===== src/Common/Exec/Calm.antt =====
-- Effects that do not panic, in any world.
use responses_api_store.Common.Outcome.{Result, ok, err, panic, map_err}
use mathlib.Core.Path.{refl}
use mathlib.Core.Logic.{◌≢◌}
use responses_api_store.Common.Exec.{
  Exec, pure, raise, continue, map_error, handle_result, match_result, ignore, ◌>>=◌,
}

map_err-calm {ℓ} :
    {E F : Type 0} {A : Type ℓ} (f : E → F) (x : Result E A) → x ≢ panic → map_err f x ≢ panic
map_err-calm f (ok a) n h = cc
map_err-calm f (err e) n h = cc
map_err-calm f panic n h = n refl

module _ {W E : Type 0} where
  abbrev pub NeverPanics {ℓ} : {A : Type ℓ} → Exec W E A → Type ℓ
  NeverPanics m = (w : W) → (m w).0 ≢ panic

  pub pure-NeverPanics {ℓ} : {A : Type ℓ} (a : A) → NeverPanics (pure a)
  pure-NeverPanics a w h = cc

  pub raise-NeverPanics {ℓ} : {A : Type ℓ} (e : E) → NeverPanics {A = A} (raise e)
  raise-NeverPanics e w h = cc

  continue-calm {ℓ κ} :
      {A : Type ℓ} {B : Type κ} (x : Result E A) (f : A → Exec W E B) (w : W)
      → x ≢ panic
      → ((a : A) → NeverPanics (f a))
      → (continue x f w).0 ≢ panic
  continue-calm (ok a) f w n calm = calm a w
  continue-calm (err e) f w n calm = λ h. cc
  continue-calm panic f w n calm = absurd (n refl)

  pub >>=-NeverPanics {ℓ κ} :
      {A : Type ℓ} {B : Type κ} (m : Exec W E A) (f : A → Exec W E B)
      → NeverPanics m
      → ((a : A) → NeverPanics (f a))
      → NeverPanics (m >>= f)
  >>=-NeverPanics m f calm next w = continue-calm (m w).0 f (m w).1 (calm w) next

module _ {W E F : Type 0} where
  pub map_error-NeverPanics {ℓ} :
      {A : Type ℓ} (f : E → F) (m : Exec W E A) → NeverPanics m → NeverPanics (map_error f m)
  map_error-NeverPanics f m calm w = map_err-calm f (m w).0 (calm w)

  handle_result-calm {ℓ κ} :
      {A : Type ℓ} {B : Type κ} (f : A → Exec W F B) (g : E → Exec W F B) (x : Result E A) (w : W)
      → x ≢ panic
      → ((a : A) → NeverPanics (f a))
      → ((e : E) → NeverPanics (g e))
      → (handle_result f g x w).0 ≢ panic
  handle_result-calm f g (ok a) w n some_case other = some_case a w
  handle_result-calm f g (err e) w n some_case other = other e w
  handle_result-calm f g panic w n some_case other = absurd (n refl)

  pub match_result-NeverPanics {ℓ κ} :
      {A : Type ℓ} {B : Type κ} (m : Exec W E A) (f : A → Exec W F B) (g : E → Exec W F B)
      → NeverPanics m
      → ((a : A) → NeverPanics (f a))
      → ((e : E) → NeverPanics (g e))
      → NeverPanics (match_result m f g)
  match_result-NeverPanics m f g calm good bad w =
      handle_result-calm f g (m w).0 (m w).1 (calm w) good bad

  pub ignore-NeverPanics {ℓ} :
      {A : Type ℓ} (m : Exec W E A) → NeverPanics m → NeverPanics (ignore {F = F} m)
  ignore-NeverPanics m calm w =
      handle_result-calm (λ _ v. (ok tt, v)) (λ _ v. (ok tt, v)) (m w).0 (m w).1 (calm w)
        (λ a. pure-NeverPanics tt) (λ e. pure-NeverPanics tt)
