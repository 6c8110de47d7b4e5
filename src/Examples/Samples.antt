-- ===== src/Examples/Samples.antt =====
-- Sample records, and a codec that prints a record as its status and reads two statuses back.
use responses_api_store.Serde.{Json}
use responses_api_store.Common.{
  String, ◌==◌, Option, none, some, [], Result, ok, err, if◌then◌else◌,
}
use responses_api_store.Common.Int.{pos}
use responses_api_store.Record.{StoredResponse}
use responses_api_store.Store.Transaction.{ResponseStore}
use responses_api_store.Examples.Values.{
  Value, text, object, end, field, json, member, print, parse,
}

abbrev pub with_status : String → Option Value → StoredResponse Value
with_status status pending = record {
  upstream = "http://model/v1";
  response = object (field "status" (text status) end);
  input = [];
  pending_upstream_request = pending;
  upstream_authorization = some "Bearer token";
  enqueued_at = some (pos 1_746_500_000);
}

abbrev pub queued : StoredResponse Value
queued = with_status "queued" (some (text "hello"))

abbrev pub running : StoredResponse Value
running = with_status "in_progress" (some (text "hello"))

abbrev pub cancelled : StoredResponse Value
cancelled = with_status "cancelled" none

abbrev status_of : Option Value → Result String String
status_of (some (text s)) = ok s
status_of _ = err "no status"

abbrev member_of : Value → String → Option Value
member_of (object fs) k = member fs k
member_of _ k = none

abbrev encode : StoredResponse Value → Result String String
encode r = status_of (member_of r.response "status")

abbrev pub decode : String → Result String (StoredResponse Value)
decode s =
    if s == "queued" then ok queued else if s == "in_progress" then ok running else err "unknown"

abbrev pub sample : Json
sample = json encode decode print parse

abbrev pub config : ResponseStore
config = record { key_prefix = "test"; default_ttl_seconds = 300; stale_seconds = pos 60 }
