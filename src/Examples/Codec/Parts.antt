-- ===== src/Examples/Codec/Parts.antt =====
-- How texts, numbers and JSON values are written in front of a text, and read from the front.
use Prim.Native.Char.{code}
use responses_api_store.Common.{
  ℕ, zero, suc, ◌+◌, ◌≤◌, String, true, false, Option, none, some, ◌≡◌, refl, arith, eqb,
  if◌then◌else◌,
}
use responses_api_store.Common.Text.{is_blank}
use responses_api_store.Examples.Values.{
  Value, null, boolean, text, array, object, Items, nil, cons, Fields, end, field,
}

abbrev pub Reader : Type 0 → Type 0
Reader A = String → Option (A × String)

infixl 5 ◌>>=◌
abbrev pub ◌>>=◌ : {A B : Type 0} → Option A → (A → Option B) → Option B
none >>= f = none
some a >>= f = f a

pub write_text : String → String → String
write_text String.[] s = String.◌∷◌ "." s
write_text (String.◌∷◌ c t) s = String.◌∷◌ "," (String.◌∷◌ c (write_text t s))

pub read_text : Reader String
read_text String.[] = none
read_text (String.◌∷◌ c String.[]) = some (String.[], String.[])
read_text (String.◌∷◌ c (String.◌∷◌ d s)) =
    let more = read_text s >>= λ x. some (String.◌∷◌ d x.0, x.1) in
    if eqb (code c) b'.' then some (String.[], String.◌∷◌ d s) else more

pub read_text-write_text : (t s : String) → read_text (write_text t s) ≡ some (t, s)
unfolding read_text write_text
read_text-write_text String.[] String.[] = refl
read_text-write_text String.[] (String.◌∷◌ d s) = refl
read_text-write_text (String.◌∷◌ c t) s = rw (read_text-write_text t s) refl

pub write_number : ℕ → String → String
write_number zero s = String.◌∷◌ "." s
write_number (suc n) s = String.◌∷◌ "," (write_number n s)

pub read_number : Reader ℕ
read_number String.[] = none
read_number (String.◌∷◌ c s) =
    let more = read_number s >>= λ x. some (suc x.0, x.1) in
    if eqb (code c) b'.' then some (0, s) else more

pub read_number-write_number : (n : ℕ) (s : String) → read_number (write_number n s) ≡ some (n, s)
unfolding read_number write_number
read_number-write_number zero s = refl
read_number-write_number (suc n) s = rw (read_number-write_number n s) refl

pub number_not_empty : (n : ℕ) (s : String) → is_blank (write_number n s) ≡ false
unfolding write_number
number_not_empty zero s = refl
number_not_empty (suc n) s = refl

mutual
  pub write_value : Value → String → String
  write_value null s = String.◌∷◌ "n" s
  write_value (boolean true) s = String.◌∷◌ "t" s
  write_value (boolean false) s = String.◌∷◌ "f" s
  write_value (text t) s = String.◌∷◌ "s" (write_text t s)
  write_value (array vs) s = String.◌∷◌ "a" (write_items vs s)
  write_value (object fs) s = String.◌∷◌ "o" (write_fields fs s)

  write_items : Items → String → String
  write_items nil s = String.◌∷◌ "." s
  write_items (cons v vs) s = String.◌∷◌ "," (write_value v (write_items vs s))

  write_fields : Fields → String → String
  write_fields end s = String.◌∷◌ "." s
  write_fields (field k v fs) s = String.◌∷◌ "," (write_text k (write_value v (write_fields fs s)))

mutual
  pub size : Value → ℕ
  size null = 1
  size (boolean b) = 1
  size (text t) = 1
  size (array vs) = suc (size_items vs)
  size (object fs) = suc (size_fields fs)

  size_items : Items → ℕ
  size_items nil = 1
  size_items (cons v vs) = suc (size v + size_items vs)

  size_fields : Fields → ℕ
  size_fields end = 1
  size_fields (field k v fs) = suc (size v + size_fields fs)

mutual
  pub read_value : ℕ → Reader Value
  read_value zero s = none
  read_value (suc n) String.[] = none
  read_value (suc n) (String.◌∷◌ c s) =
      let of_items = read_items n s >>= λ x. some (array x.0, x.1) in
      let of_fields = read_fields n s >>= λ x. some (object x.0, x.1) in
      if eqb (code c) b'n'
      then some (null, s)
      else if eqb (code c) b't'
      then some (boolean true, s)
      else if eqb (code c) b'f'
      then some (boolean false, s)
      else if eqb (code c) b's'
      then (read_text s >>= λ x. some (text x.0, x.1))
      else if eqb (code c) b'a'
      then of_items
      else of_fields

  read_items : ℕ → Reader Items
  read_items zero s = none
  read_items (suc n) String.[] = none
  read_items (suc n) (String.◌∷◌ c s) =
      let more = read_value n s >>= λ x. read_items n x.1 >>= λ y. some (cons x.0 y.0, y.1) in
      if eqb (code c) b'.' then some (nil, s) else more

  read_fields : ℕ → Reader Fields
  read_fields zero s = none
  read_fields (suc n) String.[] = none
  read_fields (suc n) (String.◌∷◌ c s) =
      let more = read_text s >>= λ k.
      read_value n k.1 >>= λ x. read_fields n x.1 >>= λ y. some (field k.0 x.0 y.0, y.1) in
      if eqb (code c) b'.' then some (end, s) else more

mutual
  unfolding read_value read_items read_fields write_value write_items write_fields size size_items
      size_fields

  pub value_read :
      (n : ℕ) (v : Value) (s : String) → size v ≤ n → read_value n (write_value v s) ≡ some (v, s)
  value_read zero null s h = absurd (omega arith)
  value_read zero (boolean b) s h = absurd (omega arith)
  value_read zero (text t) s h = absurd (omega arith)
  value_read zero (array vs) s h = absurd (omega arith)
  value_read zero (object fs) s h = absurd (omega arith)
  value_read (suc n) null s h = refl
  value_read (suc n) (boolean true) s h = refl
  value_read (suc n) (boolean false) s h = refl
  value_read (suc n) (text t) s h = rw (read_text-write_text t s) refl
  value_read (suc n) (array vs) s h = rw (items_read n vs s (omega arith)) refl
  value_read (suc n) (object fs) s h = rw (fields_read n fs s (omega arith)) refl

  items_read :
      (n : ℕ) (vs : Items) (s : String)
      → size_items vs ≤ n
      → read_items n (write_items vs s) ≡ some (vs, s)
  items_read zero nil s h = absurd (omega arith)
  items_read zero (cons v vs) s h = absurd (omega arith)
  items_read (suc n) nil s h = refl
  items_read (suc n) (cons v vs) s h =
      rw (value_read n v (write_items vs s) (omega arith), items_read n vs s (omega arith)) refl

  fields_read :
      (n : ℕ) (fs : Fields) (s : String)
      → size_fields fs ≤ n
      → read_fields n (write_fields fs s) ≡ some (fs, s)
  fields_read zero end s h = absurd (omega arith)
  fields_read zero (field k v fs) s h = absurd (omega arith)
  fields_read (suc n) end s h = refl
  fields_read (suc n) (field k v fs) s h =
      rw
        (
          read_text-write_text k (write_value v (write_fields fs s)),
          value_read n v (write_fields fs s) (omega arith),
          fields_read n fs s (omega arith),
        )
        refl
