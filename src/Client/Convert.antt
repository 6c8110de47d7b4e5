-- ===== src/Client/Convert.antt =====
-- crates/client/src/lib.rs: records as protocol messages, on the side of the client.
use responses_api_store.Common.{
  String, Option, none, some, Result, ok, err, map_err, map_ok, collect, ◌>>=◌, if◌then◌else◌,
}
use responses_api_store.Common.Text.{is_blank}
use responses_api_store.Record.{StoredResponse}
use responses_api_store.Serde.{Json}
use responses_api_store.Server.Convert.{ProtoStoredResponse}
use responses_api_store.Client.Error.{ClientError, serialization, not_found}

module _ (j : Json) where
  open j use {Value}

  -- `.map_err(|e| ClientError::Serialization(e.to_string()))`
  abbrev pub serde {ℓ} : {A : Type ℓ} → Result String A → Result ClientError A
  serde result = map_err serialization result

  abbrev pub print_json : Value → Result ClientError String
  print_json value = serde (j.to_string value)

  abbrev pub parse_json : String → Result ClientError Value
  parse_json text = serde (j.from_str text)

  abbrev pub print_pending : Option Value → Result ClientError (Option String)
  print_pending none = ok none
  print_pending (some value) = map_ok some (print_json value)

  abbrev pub parse_pending : Option String → Result ClientError (Option Value)
  parse_pending none = ok none
  parse_pending (some text) = if is_blank text then ok none else map_ok some (parse_json text)

  unfoldable pub to_proto_record :
      String → StoredResponse Value → Result ClientError ProtoStoredResponse
  to_proto_record response_id stored = do
    response ← print_json stored.response
    input ← collect print_json stored.input
    pending ← print_pending stored.pending_upstream_request
    ok (record {
      response_id = response_id;
      upstream = stored.upstream;
      response_json = response;
      input_json = input;
      pending_upstream_request_json = pending;
      upstream_authorization = stored.upstream_authorization;
      enqueued_at = stored.enqueued_at;
    })

  unfoldable pub from_proto_record :
      Option ProtoStoredResponse → String → Result ClientError (StoredResponse Value)
  from_proto_record none response_id = err (not_found response_id)
  from_proto_record (some m) response_id = do
    response ← parse_json m.response_json
    input ← collect parse_json m.input_json
    pending ← parse_pending m.pending_upstream_request_json
    ok (record {
      upstream = m.upstream;
      response = response;
      input = input;
      pending_upstream_request = pending;
      upstream_authorization = m.upstream_authorization;
      enqueued_at = m.enqueued_at;
    })
