-- ===== src/Client/Sent.antt =====
-- crates/client/src/lib.rs and crates/server/src/convert.rs: every record can be sent and answered,
-- if every JSON value prints.
use responses_api_store.Common.{String, Option, none, some, ◌≡◌, refl, ok, collect-returns}
use responses_api_store.Record.{StoredResponse}
use responses_api_store.Serde.{Json, TextLaws, PrintLaws}
use responses_api_store.Server.Convert.{ProtoStoredResponse, proto_to_core, core_to_proto}
use responses_api_store.Client.Convert.{
  print_json, print_pending, to_proto_record, from_proto_record,
}
use responses_api_store.Client.Agree.{to_proto_record-returns}

module _ (j : Json) (prints : PrintLaws j) where
  open j use {Value}

  print_json-returns : (v : Value) → (s : String) × (print_json j v ≡ ok s)
  print_json-returns v = let (s, e) = prints.prints v in (s, rw e refl)

  print_pending-returns : (o : Option Value) → (p : Option String) × (print_pending j o ≡ ok p)
  print_pending-returns none = (none, refl)
  print_pending-returns (some v) = let (s, e) = print_json-returns v in (some s, rw e refl)

  to_proto_record-total :
      (id : String) (stored : StoredResponse Value)
      → (m : ProtoStoredResponse) × (to_proto_record j id stored ≡ ok m)
  unfolding to_proto_record
  to_proto_record-total id stored =
      let (response, p) = print_json-returns stored.response in
      let (input, q) = collect-returns (print_json j) print_json-returns stored.input in
      let (pending, t) = print_pending-returns stored.pending_upstream_request in
      let m : ProtoStoredResponse = record {
        response_id = id;
        upstream = stored.upstream;
        response_json = response;
        input_json = input;
        pending_upstream_request_json = pending;
        upstream_authorization = stored.upstream_authorization;
        enqueued_at = stored.enqueued_at;
      } in
      (m, rw (p, q, t) refl)

  module _ (laws : TextLaws j) where
    -- The message of a record, on its way to the server and back.
    pub sent :
        (id : String) (stored : StoredResponse Value)
        → (m : ProtoStoredResponse) × (to_proto_record j id stored ≡ ok m)
          × (m.response_id ≡ id)
          × (proto_to_core j m ≡ ok stored)
          × (core_to_proto j id stored ≡ ok m)
          × (from_proto_record j (some m) id ≡ ok stored)
    sent id stored =
        let (m, e) = to_proto_record-total id stored in
        let (reads, same, answer, back) = to_proto_record-returns j laws id id stored m e in
        (m, e, same, reads, answer, back)
