-- ===== src/Server/RoundTrip.antt =====
-- crates/server/src/convert.rs: records on their way over the protocol and back.
use responses_api_store.Common.{
  collect, collect-collect, String, Option, none, some, ◌≡◌, refl, sym, Result, ok, err, panic,
  map_ok, bind-eq-ok, map_err-ok, ok-injective, arith,
}
use responses_api_store.Record.{StoredResponse}
use responses_api_store.Serde.{Json, TextLaws}
use responses_api_store.Server.Convert.{
  ProtoStoredResponse, parse_json, print_json, parse_pending, print_pending, proto_to_core,
  core_to_proto,
}

module _ {E : Type 0} where
  pub map_ok-some :
      {A : Type 0} (x : Result E A) (o : Option A)
      → map_ok some x ≡ ok o
      → (a : A) × (x ≡ ok a) × (o ≡ some a)
  map_ok-some (ok a) o h = (a, refl, sym (ok-injective h))
  map_ok-some (err e) o h = ground (arith, h)
  map_ok-some panic o h = ground (arith, h)

module _ (j : Json) (laws : TextLaws j) where
  open j use {Value}

  parse_json-print_json :
      (what where_from id : String) (v : Value) (s : String)
      → print_json j what id v ≡ ok s
      → parse_json j where_from id s ≡ ok v
  parse_json-print_json what where_from id v s h =
      rw (laws.from_str-to_string v s (map_err-ok _ (j.to_string v) h)) refl

  parse_pending-print_pending :
      (id : String) (o : Option Value) (p : Option String)
      → print_pending j id o ≡ ok p
      → parse_pending j id p ≡ ok o
  parse_pending-print_pending id none p h = rw (← ok-injective h) refl
  parse_pending-print_pending id (some v) p h =
      let (s, q, e) = map_ok-some (print_json j _ id v) p h in
      rw
        (
          e,
          laws.to_string_not_empty v s (map_err-ok _ (j.to_string v) q),
          parse_json-print_json _ "invalid pending_upstream_request_json for " id v s q,
        )
        refl

  -- A record that is converted to a message is what the message is converted to, its pending
  -- request included, and the message names the id; if what the JSON library prints is not empty
  -- and is read back.
  pub proto_to_core-core_to_proto :
      (id : String) (stored : StoredResponse Value) (m : ProtoStoredResponse)
      → core_to_proto j id stored ≡ ok m
      → (proto_to_core j m ≡ ok stored) × (m.response_id ≡ id)
  unfolding proto_to_core core_to_proto
  proto_to_core-core_to_proto id stored m h =
      let (response, h₁, p) = bind-eq-ok (print_json j _ id stored.response) _ h in
      let (input, h₂, q) = bind-eq-ok (collect (print_json j _ id) stored.input) _ h₁ in
      let (pending, h₃, t) = bind-eq-ok (print_pending j id stored.pending_upstream_request) _ h₂ in
      rw (← ok-injective h₃) (
        rw
            (
              parse_json-print_json _ "invalid response_json for " id stored.response response p,
              collect-collect (print_json j _ id) (parse_json j "invalid input_json entry for " id)
                  (parse_json-print_json _ "invalid input_json entry for " id) stored.input input q,
              parse_pending-print_pending id stored.pending_upstream_request pending t,
            )
            refl,
        refl,
      )
