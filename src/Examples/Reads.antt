-- ===== src/Examples/Reads.antt =====
-- Reads and an update on the server in memory.
use responses_api_store.Common.{false, some, none, ◌≡◌, refl, ok}
use responses_api_store.Record.{StoredResponse}
use responses_api_store.Model.{is_deleted_tombstone, stored_response_status, response_store_key}
use responses_api_store.Store.Transaction.{key, load}
use responses_api_store.Store.Operations.{get, update, store}
use responses_api_store.Store.Reads.{IsFound, get-IsFound, update-IsFound}
use responses_api_store.Examples.Values.{Value, member}
use responses_api_store.Examples.Samples.{sample, queued, running, config}
use responses_api_store.Examples.Memory.{Memory, memory, write, empty}

abbrev world : Memory
world = write "test:resp_1" (some "queued") empty

got : (get sample memory config "resp_1" false world).0 ≡ ok queued
unfolding get load key response_store_key is_deleted_tombstone stored_response_status member
got = refl

get-IsFound_example : IsFound sample memory config "resp_1" world queued
get-IsFound_example = get-IsFound sample memory config "resp_1" world queued got

updated : (update sample memory config "resp_1" running none world).0 ≡ ok tt
unfolding update store load key response_store_key is_deleted_tombstone stored_response_status
    member
updated = refl

update-IsFound_example :
    (existing : StoredResponse Value) × IsFound sample memory config "resp_1" world existing
    × (update sample memory config "resp_1" running none world
        ≡ store sample memory config "resp_1" running none
            (load sample memory config "resp_1" world).1)
update-IsFound_example = update-IsFound sample memory config "resp_1" running none world updated
