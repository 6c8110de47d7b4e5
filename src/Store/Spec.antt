-- ===== src/Store/Spec.antt =====
-- What `ResponseStore` promises: a map from ids to records. No Redis, no JSON text and no other
-- client is in sight here.
use responses_api_store.Common.{
  ℕ, String, ◌==◌, Bool, not, ◌||◌, Option, none, some, Result, ok, err, panic, eqb, if◌then◌else◌,
}
use responses_api_store.Common.Int.{ℤ}
use responses_api_store.Error.{StoreError, not_found, invalid_argument}
use responses_api_store.Record.{StoredResponse}
use responses_api_store.Serde.{Json}
use responses_api_store.Model.{should_reconcile_stale, is_stale_enqueued, is_deleted_tombstone}
use responses_api_store.Store.Prepare.{
  ClaimBackgroundPayload, prepare_claim_background, prepare_complete_background,
  prepare_fail_background, apply_stale_failure, tombstone,
}
use responses_api_store.Store.Transaction.{ResponseStore}
use responses_api_store.Store.Operations.{unwrap_or}

-- The methods of the store, with their arguments.
pub data Operation (V : Type 0) : Type 0 where
  store : String → StoredResponse V → Option ℕ → Operation V
  get : String → Bool → Operation V
  update : String → StoredResponse V → Option ℕ → Operation V
  delete : String → Operation V
  claim : String → Operation V
  complete : String → V → Operation V
  fail : String → String → Operation V
  reconcile : String → StoredResponse V → ℤ → Operation V
  tombstone_deleted : String → StoredResponse V → Operation V

pub data Reply (V : Type 0) : Type 0 where
  done : Reply V
  found : StoredResponse V → Reply V
  claimed : StoredResponse V → ClaimBackgroundPayload V → Reply V

abbrev pub Records : Type 0 → Type 0
Records V = String → Option (StoredResponse V)

module _ {V : Type 0} where
  abbrev pub put : String → StoredResponse V → Records V → Records V
  put id stored m = λ i. if id == i then some stored else m i

  abbrev pub erase : String → Records V → Records V
  erase id m = λ i. if id == i then none else m i

abbrev pub Outcome : Type 0 → Type 0 → Type 0
Outcome V A = Result StoreError A × Records V

module _ (j : Json) where
  open j use {Value}

  -- A record that a transition makes takes the place of the old one.
  abbrev pub replaced :
      {T : Type 0}
      → String
      → Result StoreError (StoredResponse Value × T)
      → Records Value
      → Outcome Value (StoredResponse Value × T)
  replaced id (ok (stored, t)) m = (ok (stored, t), put id stored m)
  replaced id (err e) m = (err e, m)
  replaced id panic m = (panic, m)

  abbrev pub transition :
      {T : Type 0}
      → String
      → (StoredResponse Value → String → Result StoreError (StoredResponse Value × T))
      → Option (StoredResponse Value)
      → Records Value
      → Outcome Value (StoredResponse Value × T)
  transition id prepare none m = (err (not_found id), m)
  transition id prepare (some stored) m = replaced id (prepare stored id) m

  -- The record is written, if the time to live is positive.
  abbrev pub write :
      ResponseStore
      → String
      → StoredResponse Value
      → Option ℕ
      → Records Value
      → Outcome Value (Unit {0})
  write self id stored ttl m =
      if eqb (unwrap_or ttl self.default_ttl_seconds) 0
      then (err (invalid_argument "ttl_seconds must be greater than 0"), m)
      else (ok tt, put id stored m)

  abbrev pub is_stale : StoredResponse Value → ℤ → ℤ → Bool
  is_stale stored now stale_seconds = not (
      not (should_reconcile_stale j stored)
      || not (is_stale_enqueued stored.enqueued_at now stale_seconds))

  -- What is found is failed, if it is stale.
  abbrev pub fail_stale :
      String
      → ℤ
      → ℤ
      → Option (StoredResponse Value)
      → Records Value
      → Outcome Value (StoredResponse Value)
  fail_stale id now stale_seconds none m = (err (not_found id), m)
  fail_stale id now stale_seconds (some stored) m =
      if is_stale stored now stale_seconds
      then (ok (apply_stale_failure j stored id), put id (apply_stale_failure j stored id) m)
      else (ok stored, m)

  -- The record that was read before is returned unless it is stale.
  abbrev pub reconciled :
      ℤ → String → StoredResponse Value → ℤ → Records Value → Outcome Value (StoredResponse Value)
  reconciled now id stored stale_seconds m =
      if is_stale stored now stale_seconds
      then fail_stale id now stale_seconds (m id) m
      else (ok stored, m)

  abbrev pub read :
      ResponseStore
      → ℤ
      → String
      → Bool
      → Option (StoredResponse Value)
      → Records Value
      → Outcome Value (StoredResponse Value)
  read self now id reconcile_stale none m = (err (not_found id), m)
  read self now id reconcile_stale (some stored) m =
      if is_deleted_tombstone j stored
      then (err (not_found id), m)
      else if reconcile_stale
      then reconciled now id stored self.stale_seconds m
      else (ok stored, m)

  abbrev pub overwrite :
      ResponseStore
      → String
      → StoredResponse Value
      → Option ℕ
      → Option (StoredResponse Value)
      → Records Value
      → Outcome Value (Unit {0})
  overwrite self id stored ttl none m = (err (not_found id), m)
  overwrite self id stored ttl (some existing) m =
      if is_deleted_tombstone j existing
      then (err (not_found id), m)
      else write self id stored ttl m

  abbrev pub answer : {A B : Type 0} → (A → B) → Outcome Value A → Outcome Value B
  answer f (ok a, m) = (ok (f a), m)
  answer f (err e, m) = (err e, m)
  answer f (panic, m) = (panic, m)

  -- One method, where the clock shows `now`.
  abbrev pub spec :
      ResponseStore → ℤ → Operation Value → Records Value → Outcome Value (Reply Value)
  spec self now (store id stored ttl) m = answer (λ _. done) (write self id stored ttl m)
  spec self now (get id reconcile_stale) m =
      answer (λ a. found a) (read self now id reconcile_stale (m id) m)
  spec self now (update id stored ttl) m =
      answer (λ _. done) (overwrite self id stored ttl (m id) m)
  spec self now (delete id) m = (ok done, erase id m)
  spec self now (claim id) m =
      answer (λ a. claimed a.0 a.1) (transition id (prepare_claim_background j) (m id) m)
  spec self now (complete id v) m =
      answer (λ a. found a)
        (answer (λ a. a.0)
          (transition id (λ stored i. prepare_complete_background j stored i v) (m id) m))
  spec self now (fail id message) m =
      answer (λ a. found a)
        (answer (λ a. a.0)
          (transition id (λ stored i. prepare_fail_background j stored i message) (m id) m))
  spec self now (reconcile id stored stale_seconds) m =
      answer (λ a. found a) (reconciled now id stored stale_seconds m)
  spec self now (tombstone_deleted id stored) m =
      answer (λ _. done) (write self id (tombstone j stored id) none m)
