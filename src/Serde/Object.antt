-- ===== src/Serde/Object.antt =====
-- JSON objects that are built by insertions and by assignments to members.
use responses_api_store.Common.{
  String, ◌==◌, true, Option, none, some, List, [], ◌∷◌, ◌≡◌, refl, ap, ◌∙◌, Result, expect, ◌>>=◌,
  if◌then◌else◌,
}
use responses_api_store.Serde.{Json, ObjectLaws, insert_all, object}

-- The last of the inserted members under a key, or else what was there before.
abbrev pub last_member {ℓ} : {V : Type ℓ} → Option V → List (String × V) → String → Option V
last_member before [] i = before
last_member before ((k, x) ∷ fs) i = last_member (if k == i then some x else before) fs i

module _ (j : Json) (laws : ObjectLaws j) where
  open j use {Value}

  pub is_object-insert_all :
      (v : Value) (fs : List (String × Value))
      → j.is_object v ≡ true
      → j.is_object (insert_all j v fs) ≡ true
  is_object-insert_all v [] h = h
  is_object-insert_all v ((k, x) ∷ fs) h =
      is_object-insert_all (j.insert v k x) fs (laws.is_object_insert v k x h)

  pub get-insert_all :
      (v : Value) (fs : List (String × Value)) (i : String)
      → j.is_object v ≡ true
      → j.get (insert_all j v fs) i ≡ last_member (j.get v i) fs i
  get-insert_all v [] i h = refl
  get-insert_all v ((k, x) ∷ fs) i h =
      get-insert_all (j.insert v k x) fs i (laws.is_object_insert v k x h)
      ∙ ap (λ (o : Option Value). last_member o fs i) (laws.get_insert v k x i h)

  pub get-object :
      (fs : List (String × Value)) (i : String) → j.get (object j fs) i ≡ last_member none fs i
  get-object fs i =
      get-insert_all j.empty_object fs i laws.is_object_empty
      ∙ ap (λ (o : Option Value). last_member o fs i) (laws.get_empty i)

  pub is_object-object : (fs : List (String × Value)) → j.is_object (object j fs) ≡ true
  is_object-object fs = is_object-insert_all j.empty_object fs laws.is_object_empty

  -- Three assignments to members of an object insert them, and none panics.
  pub index_set_three {ℓ} :
      {E : Type 0} {A : Type ℓ} (v : Value) (k₁ k₂ k₃ : String) (x₁ x₂ x₃ : Value)
      (f : Value → Result E A)
      → j.is_object v ≡ true
      → (expect (j.index_set v k₁ x₁) >>= λ a.
          expect (j.index_set a k₂ x₂) >>= λ b. expect (j.index_set b k₃ x₃) >>= f)
        ≡ f (insert_all j v ((k₁, x₁) ∷ (k₂, x₂) ∷ (k₃, x₃) ∷ []))
  index_set_three v k₁ k₂ k₃ x₁ x₂ x₃ f h =
      let h₁ : j.is_object (j.insert v k₁ x₁) ≡ true = laws.is_object_insert v k₁ x₁ h in
      let h₂ : j.is_object (j.insert (j.insert v k₁ x₁) k₂ x₂) ≡ true =
        laws.is_object_insert (j.insert v k₁ x₁) k₂ x₂ h₁ in
      rw (
        laws.index_set_object v k₁ x₁ h,
        laws.index_set_object (j.insert v k₁ x₁) k₂ x₂ h₁,
        laws.index_set_object (j.insert (j.insert v k₁ x₁) k₂ x₂) k₃ x₃ h₂,
      )
