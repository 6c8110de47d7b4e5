-- ===== src/Model/Build.antt =====
-- crates/core/src/model.rs: what the JSON that the program builds has for its members.
use responses_api_store.Common.{
  String, ◌==◌, true, false, none, some, List, [], ◌∷◌, ◌≡◌, refl, sym, ◌∙◌, ok, inl, inr,
  Option-cases, if◌then◌else◌,
}
use responses_api_store.Serde.{Json, ObjectLaws, object}
use responses_api_store.Serde.Object.{get-object, is_object-object}
use responses_api_store.Model.{str_of, build_queued_response, build_upstream_request}

module _ (j : Json) (laws : ObjectLaws j) where
  open j use {Value}

  -- A queued response before the input is put in.
  abbrev members : String → String → List (String × Value)
  members id model =
      ("id", j.text id)
      ∷ ("object", j.text "response")
      ∷ ("status", j.text "queued")
      ∷ ("model", j.text model)
      ∷ ("background", j.boolean true)
      ∷ ("output", j.array [])
      ∷ []

  -- It is an object with the id, a queued status, and the input of the request.
  pub record IsQueuedFor (id : String) (request v : Value) : Type 0 where
    pub object : j.is_object v ≡ true
    pub named : str_of j (j.get v "id") ≡ some id
    pub queued : str_of j (j.get v "status") ≡ some "queued"
    pub input : j.get v "input" ≡ j.get request "input"

  pub build_queued_response-IsQueuedFor :
      (id model : String) (request : Value)
      → (v : Value) × (build_queued_response j id model request ≡ ok v) × IsQueuedFor id request v
  unfolding build_queued_response
  build_queued_response-IsQueuedFor id model request = elim (Option-cases (j.get request "input")) [
    | inl missing ↦ (
      object j (members id model),
      rw missing refl,
      record {
        object = is_object-object j laws (members id model);
        named = rw (get-object j laws (members id model) "id") (laws.as_str_text id);
        queued = rw (get-object j laws (members id model) "status") (laws.as_str_text "queued");
        input = rw (get-object j laws (members id model) "input", missing) refl;
      },
    )
    | inr (x, present) ↦
        let is_object = is_object-object j laws (members id model) in
        let v = j.insert (object j (members id model)) "input" x in
        (
          v,
          rw (present, laws.index_set_object (object j (members id model)) "input" x is_object)
              refl,
          record {
            object = laws.is_object_insert (object j (members id model)) "input" x is_object;
            named =
                rw
                  (
                    laws.get_insert (object j (members id model)) "input" x "id" is_object,
                    get-object j laws (members id model) "id",
                  )
                  (laws.as_str_text id);
            queued =
                rw
                  (
                    laws.get_insert (object j (members id model)) "input" x "status" is_object,
                    get-object j laws (members id model) "status",
                  )
                  (laws.as_str_text "queued");
            input =
                laws.get_insert (object j (members id model)) "input" x "input" is_object
                ∙ sym present;
          },
        )
  ]

  -- The request that a worker sends upstream has no more to do with the background.
  pub get-build_upstream_request :
      (request : Value) (i : String)
      → j.is_object request ≡ true
      → j.get (build_upstream_request j request) i ≡ (
          if "store" == i
          then some (j.boolean false)
          else if "previous_response_id" == i
          then none
          else if "background" == i
          then none
          else j.get request i)
  unfolding build_upstream_request
  get-build_upstream_request request i h =
      let h₁ = laws.is_object_remove request "background" h in
      let h₂ = laws.is_object_remove (j.remove request "background") "previous_response_id" h₁ in
      rw
        (
          h,
          laws.get_insert _ "store" (j.boolean false) i h₂,
          laws.get_remove _ "previous_response_id" i h₁,
          laws.get_remove request "background" i h,
        )
        refl
