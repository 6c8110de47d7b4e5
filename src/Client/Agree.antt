-- ===== src/Client/Agree.antt =====
-- crates/client/src/lib.rs and crates/server/src/convert.rs: the client and the server agree on how
-- a record stands in a message.
use responses_api_store.Common.{
  String, Option, none, some, ◌≡◌, refl, sym, ap, ◌∙◌, Result, ok, err, panic, map_ok, map_err,
  bind, ok_of, ok_of-some, ok_of-map_err, ok_of-bind, ok_of-collect, Bool-cases, inl, inr,
}
use responses_api_store.Common.Text.{is_blank}
use responses_api_store.Record.{StoredResponse}
use responses_api_store.Serde.{Json, TextLaws}
use responses_api_store.Server.Convert as OnServer
use responses_api_store.Server.Convert.{ProtoStoredResponse, proto_to_core, core_to_proto}
use responses_api_store.Server.RoundTrip.{proto_to_core-core_to_proto}
use responses_api_store.Client.Convert as OnClient
use responses_api_store.Client.Convert.{to_proto_record, from_proto_record}

map_ok-bind : {E A B : Type 0} (f : A → B) (r : Result E A) → map_ok f r ≡ bind r (λ a. ok (f a))
map_ok-bind f (ok a) = refl
map_ok-bind f (err e) = refl
map_ok-bind f panic = refl

module _ {E F : Type 0} where
  ok_of-map_ok :
      {A B : Type 0} (f : A → B) (x : Result E A) (y : Result F A)
      → ok_of x ≡ ok_of y
      → ok_of (map_ok f x) ≡ ok_of (map_ok f y)
  ok_of-map_ok f x y e =
      rw (map_ok-bind f x, map_ok-bind f y)
        (ok_of-bind x y (λ a. ok (f a)) (λ a. ok (f a)) e (λ a. refl))

  -- Two ways to name the same error.
  relabelled :
      {G A : Type 0} (f : G → E) (g : G → F) (r : Result G A)
      → ok_of (map_err f r) ≡ ok_of (map_err g r)
  relabelled f g r = ok_of-map_err f r ∙ sym (ok_of-map_err g r)

module _ (j : Json) where
  open j use {Value}

  print_pending-agree :
      (id : String) (o : Option Value)
      → ok_of (OnClient.print_pending j o) ≡ ok_of (OnServer.print_pending j id o)
  print_pending-agree id none = refl
  print_pending-agree id (some v) =
      ok_of-map_ok some (OnClient.print_json j v) (OnServer.print_json j _ id v)
        (relabelled _ _ (j.to_string v))

  parse_pending-agree :
      (id : String) (o : Option String)
      → ok_of (OnClient.parse_pending j o) ≡ ok_of (OnServer.parse_pending j id o)
  parse_pending-agree id none = refl
  parse_pending-agree id (some text) = elim (Bool-cases (is_blank text)) [
    | inl blank ↦ rw blank refl
    | inr full ↦ rw full (
        ok_of-map_ok some (OnClient.parse_json j text) (OnServer.parse_json j _ id text)
          (relabelled _ _ (j.from_str text)))
  ]

  -- The client and the server print a record as the same message, and read a message as the same
  -- record: each returns exactly when the other does, and returns the same.
  pub records_agree :
      (id : String) (stored : StoredResponse Value) (m : ProtoStoredResponse)
      → (ok_of (to_proto_record j id stored) ≡ ok_of (core_to_proto j id stored))
        × (ok_of (from_proto_record j (some m) id) ≡ ok_of (proto_to_core j m))
  unfolding to_proto_record core_to_proto from_proto_record proto_to_core
  records_agree id stored m = (
    ok_of-bind (OnClient.print_json j stored.response) (OnServer.print_json j _ id stored.response)
        _ _ (relabelled _ _ (j.to_string stored.response))
        (λ response.
          ok_of-bind _ _ _ _ (ok_of-collect _ _ (λ v. relabelled _ _ (j.to_string v)) stored.input)
            (λ input.
              ok_of-bind _ _ _ _ (print_pending-agree id stored.pending_upstream_request)
                (λ pending. refl))),
    ok_of-bind (OnClient.parse_json j m.response_json)
        (OnServer.parse_json j _ m.response_id m.response_json) _ _
        (relabelled _ _ (j.from_str m.response_json))
        (λ response.
          ok_of-bind _ _ _ _ (ok_of-collect _ _ (λ v. relabelled _ _ (j.from_str v)) m.input_json)
            (λ input.
              ok_of-bind _ _ _ _ (parse_pending-agree m.response_id m.pending_upstream_request_json)
                (λ pending. refl))),
  )

  module _ (laws : TextLaws j) where
    -- What the client sends for a record is read by the server as that record, under its id; the
    -- server answers that record by the same message; and the client reads the record in the
    -- answer, whatever id it asked for; if what the JSON library prints is not empty and is read
    -- back.
    pub to_proto_record-returns :
        (id asked : String) (stored : StoredResponse Value) (m : ProtoStoredResponse)
        → to_proto_record j id stored ≡ ok m
        → (proto_to_core j m ≡ ok stored)
          × (m.response_id ≡ id)
          × (core_to_proto j id stored ≡ ok m)
          × (from_proto_record j (some m) asked ≡ ok stored)
    to_proto_record-returns id asked stored m h =
        let (out, _) = records_agree id stored m in
        let (_, back) = records_agree asked stored m in
        let answer : core_to_proto j id stored ≡ ok m =
          ok_of-some (core_to_proto j id stored) (sym out ∙ ap ok_of h) in
        let (reads, same) = proto_to_core-core_to_proto j laws id stored m answer in
        (
          reads,
          same,
          answer,
          ok_of-some (from_proto_record j (some m) asked) (back ∙ ap ok_of reads),
        )
