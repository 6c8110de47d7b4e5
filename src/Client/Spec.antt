-- ===== src/Client/Spec.antt =====
-- What the calls of a client should do to the records, over the promise of the store in
-- Store/Spec.antt: the checks of a request come first, and an error is a gRPC status.
use Prim.Native.String.{◌++◌}
use responses_api_store.Common.{
  ℕ, String, Bool, Option, none, some, Result, ok, err, panic, map_err, if◌then◌else◌,
}
use responses_api_store.Common.Int.{ℤ}
use responses_api_store.Common.Text.{is_blank}
use responses_api_store.Record.{StoredResponse}
use responses_api_store.Serde.{Json}
use responses_api_store.Model.{is_deleted_tombstone, is_in_flight_background}
use responses_api_store.Store.Prepare.{
  prepare_claim_background, prepare_complete_background, prepare_fail_background, tombstone,
}
use responses_api_store.Store.Transaction.{ResponseStore}
use responses_api_store.Store.Operations.{unwrap_or}
use responses_api_store.Store.Spec.{
  Reply, done, found, claimed, Records, Outcome, erase, answer, write, read, overwrite, transition,
}
use responses_api_store.Server.Convert.{map_store_error}
use responses_api_store.Server.Service.{required, ttl_from_request}
use responses_api_store.Client.Error.{ClientError, rpc}

-- The calls on responses, with their arguments.
pub data Call (V : Type 0) : Type 0 where
  store_response : String → StoredResponse V → Option ℕ → Call V
  get_response : String → Bool → Call V
  update_response : String → StoredResponse V → Option ℕ → Call V
  delete_response : String → Call V
  claim_background_response : String → Call V
  complete_background_response : String → V → Call V
  fail_background_response : String → String → Call V

abbrev pub Answer : Type 0 → Type 0 → Type 0
Answer V A = Result ClientError A × Records V

-- An error of the store reaches the client as a status.
abbrev pub over : {V A : Type 0} → Outcome V A → Answer V A
over o = (map_err (λ e. rpc (map_store_error e)) o.0, o.1)

abbrev pub checked : {V A : Type 0} → String → String → Records V → Answer V A → Answer V A
checked value message m a = if is_blank value then (err (rpc (required message)), m) else a

-- Zero seconds stand for the default.
abbrev pub ttl_of : Option ℕ → Option ℕ
ttl_of ttl = ttl_from_request (unwrap_or ttl 0)

module _ (j : Json) where
  open j use {Value}

  abbrev pub completed : String → Value → Records Value → Answer Value (StoredResponse Value)
  completed id v m =
      if j.is_object v
      then over (
          answer j (λ a. a.0)
            (transition j id (λ stored i. prepare_complete_background j stored i v) (m id) m))
      else (err (rpc (required ("response_json for " ++ (id ++ " must be a JSON object")))), m)

  abbrev pub reply : {A : Type 0} → (A → Reply Value) → Answer Value A → Answer Value (Reply Value)
  reply f (ok a, m) = (ok (f a), m)
  reply f (err e, m) = (err e, m)
  reply f (panic, m) = (panic, m)

module _ (j : Json) (self : ResponseStore) where
  open j use {Value}

  -- A response in flight leaves a tombstone; any other is gone.
  abbrev pub removed :
      String → Option (StoredResponse Value) → Records Value → Answer Value (Unit {0})
  removed id none m = (ok tt, erase id m)
  removed id (some stored) m =
      if is_deleted_tombstone j stored
      then (ok tt, erase id m)
      else if is_in_flight_background j stored
      then over (write j self id (tombstone j stored id) none m)
      else (ok tt, erase id m)

  -- One call, where the clock shows `now`.
  abbrev pub called : ℤ → Call Value → Records Value → Answer Value (Reply Value)
  called now (store_response id stored ttl) m =
      reply j (λ _. done)
        (checked id "record.response_id is required" m
          (over (write j self id stored (ttl_of ttl) m)))
  called now (get_response id reconcile) m =
      reply j (λ a. found a)
        (checked id "response_id is required" m (over (read j self now id reconcile (m id) m)))
  called now (update_response id stored ttl) m =
      reply j (λ _. done)
        (checked id "record.response_id is required" m
          (over (overwrite j self id stored (ttl_of ttl) (m id) m)))
  called now (delete_response id) m =
      reply j (λ _. done) (checked id "response_id is required" m (removed id (m id) m))
  called now (claim_background_response id) m =
      reply j (λ a. claimed a.0 a.1)
        (checked id "response_id is required" m
          (over (transition j id (prepare_claim_background j) (m id) m)))
  called now (complete_background_response id v) m =
      reply j (λ a. found a) (checked id "response_id is required" m (completed j id v m))
  called now (fail_background_response id message) m =
      reply j (λ a. found a)
        (checked id "response_id is required" m (
          checked message "error_message is required" m (
            over (
              answer j (λ a. a.0)
                (transition j id (λ stored i. prepare_fail_background j stored i message) (m id)
                  m)))))
