-- ===== src/Common/Outcome.antt =====
-- What a Rust function that returns `Result` does: it returns `Ok`, returns `Err`, or panics.
use mathlib.Core.Path.{◌≡◌, refl, ap, ◌∙◌}
use native.Mathlib.Omega.{arith}
use mathlib.Core.Option.{Option, none, some}
use mathlib.Core.List.{List, [], ◌∷◌}

pub data Result {ℓ} (E : Type 0) (A : Type ℓ) : Type ℓ where
  ok : A → Result E A
  err : E → Result E A
  panic : Result E A

module _ {E : Type 0} where
  infixl 5 ◌>>=◌ ◌>>◌
  abbrev pub ◌>>=◌ {ℓ κ} : {A : Type ℓ} {B : Type κ} → Result E A → (A → Result E B) → Result E B
  ok a >>= f = f a
  err e >>= f = err e
  panic >>= f = panic

  abbrev pub ◌>>◌ {ℓ κ} : {A : Type ℓ} {B : Type κ} → Result E A → Result E B → Result E B
  m >> k = m >>= λ _. k

  -- The same, where another `>>=` is in scope.
  abbrev pub bind {ℓ κ} : {A : Type ℓ} {B : Type κ} → Result E A → (A → Result E B) → Result E B
  bind m f = m >>= f

  -- `map_err`
  abbrev pub map_err {ℓ} : {F : Type 0} {A : Type ℓ} → (E → F) → Result E A → Result F A
  map_err f (ok a) = ok a
  map_err f (err e) = err (f e)
  map_err f panic = panic

  -- `Result::map`
  abbrev pub map_ok {ℓ κ} : {A : Type ℓ} {B : Type κ} → (A → B) → Result E A → Result E B
  map_ok f (ok a) = ok (f a)
  map_ok f (err e) = err e
  map_ok f panic = panic

  -- a value, or a panic where there is none (`expect`, an index out of place)
  abbrev pub expect {ℓ} : {A : Type ℓ} → Option A → Result E A
  expect none = panic
  expect (some a) = ok a

  pub ok-ne-panic {ℓ} : {A : Type ℓ} (a : A) → Path (Result E A) (ok a) panic → ⊥
  ok-ne-panic a h = cc

  pub map_err-ok {ℓ} :
      {F : Type 0} {A : Type ℓ} (f : E → F) (r : Result E A) {a : A} → map_err f r ≡ ok a → r ≡ ok a
  map_err-ok f (ok b) h = cc
  map_err-ok f (err e) h = cc
  map_err-ok f panic h = cc

  unwrap_or_self {ℓ} : {A : Type ℓ} → A → Result E A → A
  unwrap_or_self a (ok b) = b
  unwrap_or_self a (err e) = a
  unwrap_or_self a panic = a

  pub ok-injective {ℓ} : {A : Type ℓ} {a b : A} → Path (Result E A) (ok a) (ok b) → a ≡ b
  unfolding unwrap_or_self
  ok-injective {a = a} h = ap (unwrap_or_self a) h

  -- What a successful chain says of its first part.
  pub bind-eq-ok {ℓ} :
      {A B : Type ℓ} (x : Result E A) (f : A → Result E B) {b : B}
      → bind x f ≡ ok b
      → (a : A) × (f a ≡ ok b) × (x ≡ ok a)
  bind-eq-ok (ok a) f h = (a, h, refl)
  bind-eq-ok (err e) f h = ground (arith, h)
  bind-eq-ok panic f h = ground (arith, h)

  pair-ok {ℓ} :
      {B C : Type ℓ} (m : Result E B) (g : B → Result E C) {x : B × C}
      → (m >>= λ b. g b >>= λ c. ok (b, c)) ≡ ok x
      → (m ≡ ok x.0) × (g x.0 ≡ ok x.1)
  pair-ok m g h = ground (arith, h)

  -- Inversion of three steps of which the last two results are returned.
  pub three-ok {ℓ} :
      {A B C : Type ℓ} (m : Result E A) (f : A → Result E B) (g : B → Result E C) {x : B × C}
      → (m >>= λ a. f a >>= λ b. g b >>= λ c. ok (b, c)) ≡ ok x
      → (a : A) × (m ≡ ok a) × (f a ≡ ok x.0) × (g x.0 ≡ ok x.1)
  three-ok (ok a) f g h = let (p, q) = pair-ok (f a) g h in (a, refl, p, q)
  three-ok (err e) f g h = cc
  three-ok panic f g h = cc

  -- `map(f).collect::<Result<Vec<_>, _>>()`: the first error ends it.
  abbrev pub collect : {A B : Type 0} → (A → Result E B) → List A → Result E (List B)
  collect f [] = ok []
  collect f (x ∷ xs) = bind (f x) λ y. bind (collect f xs) λ ys. ok (y ∷ ys)

  -- `Result::ok`: what was returned, and not why nothing was.
  abbrev pub ok_of {ℓ} : {A : Type ℓ} → Result E A → Option A
  ok_of (ok a) = some a
  ok_of (err e) = none
  ok_of panic = none

  pub ok_of-some {ℓ} : {A : Type ℓ} (r : Result E A) {a : A} → ok_of r ≡ some a → r ≡ ok a
  ok_of-some (ok b) h = cc
  ok_of-some (err e) h = cc
  ok_of-some panic h = cc

pub ok_of-map_err {ℓ} :
    {E F : Type 0} {A : Type ℓ} (f : E → F) (r : Result E A) → ok_of (map_err f r) ≡ ok_of r
ok_of-map_err f (ok a) = refl
ok_of-map_err f (err e) = refl
ok_of-map_err f panic = refl

-- Two collections that undo each other, element by element.
pub collect-collect :
    {E F : Type 0} {A B : Type 0} (f : A → Result E B) (g : B → Result F A)
    → ((a : A) (b : B) → f a ≡ ok b → g b ≡ ok a)
    → (xs : List A) (ys : List B) → collect f xs ≡ ok ys
    → collect g ys ≡ ok xs
collect-collect f g undo [] ys h = rw (← ok-injective h) refl
collect-collect f g undo (x ∷ xs) ys h =
    let (y, h₁, p) = bind-eq-ok (f x) _ h in
    let (more, h₂, q) = bind-eq-ok (collect f xs) _ h₁ in
    rw (← ok-injective h₂) (rw (undo x y p, collect-collect f g undo xs more q) refl)

-- The same steps with other errors return the same.
pub ok_of-bind :
    {E F : Type 0} {A B : Type 0} (x : Result E A) (y : Result F A) (f : A → Result E B)
    (g : A → Result F B)
    → ok_of x ≡ ok_of y
    → ((a : A) → ok_of (f a) ≡ ok_of (g a))
    → ok_of (bind x f) ≡ ok_of (bind y g)
ok_of-bind (ok a) (ok b) f g e h = let same : a ≡ b = cc in h a ∙ ap (λ c. ok_of (g c)) same
ok_of-bind (ok a) (err y) f g e h = cc
ok_of-bind (ok a) panic f g e h = cc
ok_of-bind (err x) (ok b) f g e h = cc
ok_of-bind (err x) (err y) f g e h = refl
ok_of-bind (err x) panic f g e h = refl
ok_of-bind panic (ok b) f g e h = cc
ok_of-bind panic (err y) f g e h = refl
ok_of-bind panic panic f g e h = refl

pub ok_of-collect :
    {E F : Type 0} {A B : Type 0} (f : A → Result E B) (g : A → Result F B)
    → ((a : A) → ok_of (f a) ≡ ok_of (g a))
    → (xs : List A) → ok_of (collect f xs) ≡ ok_of (collect g xs)
ok_of-collect f g h [] = refl
ok_of-collect f g h (x ∷ xs) =
    ok_of-bind (f x) (g x) _ _ (h x)
      (λ y. ok_of-bind (collect f xs) (collect g xs) _ _ (ok_of-collect f g h xs) (λ ys. refl))

-- A collection of steps that all return.
pub collect-returns :
    {E A B : Type 0} (f : A → Result E B)
    → ((a : A) → (b : B) × (f a ≡ ok b))
    → (xs : List A) → (ys : List B) × (collect f xs ≡ ok ys)
collect-returns f total [] = ([], refl)
collect-returns f total (x ∷ xs) =
    let (y, p) = total x in let (ys, q) = collect-returns f total xs in (y ∷ ys, rw (p, q) refl)
