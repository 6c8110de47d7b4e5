-- ===== src/Store/Reads.antt =====
-- crates/core/src/store.rs: what get and update do with what is stored under the id.
use responses_api_store.Common.{
  ℕ, String, false, Option, none, some, ◌≡◌, refl, ap, ◌∙◌, inl, inr, ok, err, panic, Result, arith,
  ok-injective, map_err, map_ok, map_err-ok, Bool-cases,
}
use responses_api_store.Common.Exec.{bind-ok}
use responses_api_store.Error.{StoreError, storage, serialization}
use responses_api_store.Record.{StoredResponse}
use responses_api_store.Serde.{Json}
use responses_api_store.Redis.{Redis, shared}
use responses_api_store.Model.{is_deleted_tombstone}
use responses_api_store.Store.Transaction.{ResponseStore, redis, key, load, parse_stored}
use responses_api_store.Store.Operations.{store, get_found, get, update_found, update}

module _ (j : Json) (r : Redis) where
  open j use {Value}
  open r use {World}

  -- The server answers with a text of this record, which is no tombstone.
  abbrev pub IsFound : ResponseStore → String → World → StoredResponse Value → Type 0
  IsFound self id w stored =
      (raw : String) × ((r.get shared (key self id) w).0 ≡ ok (some raw))
      × (j.decode raw ≡ ok stored)
      × (is_deleted_tombstone j stored ≡ false)

  parsed-some :
      (x : Result String (StoredResponse Value)) (stored : StoredResponse Value)
      → map_ok {E = StoreError} {A = StoredResponse Value} some (map_err serialization x)
        ≡ ok (some stored)
      → x ≡ ok stored
  parsed-some (ok a) stored h = cc
  parsed-some (err e) stored h = cc
  parsed-some panic stored h = cc

  parse_stored-some :
      (o : Option String) (stored : StoredResponse Value)
      → parse_stored j r o ≡ ok (some stored)
      → (raw : String) × (o ≡ some raw) × (j.decode raw ≡ ok stored)
  parse_stored-some none stored h = ground (arith, h)
  parse_stored-some (some raw) stored h = (raw, refl, parsed-some (j.decode raw) stored h)

  -- What is loaded was read from the key.
  pub load-text :
      (self : ResponseStore) (id : String) (w : World) (stored : StoredResponse Value)
      → (load j r self id w).0 ≡ ok (some stored)
      → (raw : String) × ((r.get shared (key self id) w).0 ≡ ok (some raw))
        × (j.decode raw ≡ ok stored)
  unfolding load
  load-text self id w stored h =
      let (o, m, same) = bind-ok (redis j r (r.get shared (key self id))) _ w h in
      let (raw, e, decoded) = parse_stored-some o stored (rw same at h) in
      (raw, map_err-ok storage _ m ∙ ap ok e, decoded)

  load-some :
      (self : ResponseStore) (id : String) (w : World) (stored : StoredResponse Value)
      → (load j r self id w).0 ≡ ok (some stored)
      → is_deleted_tombstone j stored ≡ false
      → IsFound self id w stored
  load-some self id w stored h alive =
      let (raw, got, decoded) = load-text self id w stored h in (raw, got, decoded, alive)

  get_found-ok :
      (self : ResponseStore) (id : String) (o : Option (StoredResponse Value)) (v : World)
      (stored : StoredResponse Value)
      → (get_found j r self id false o v).0 ≡ ok stored
      → (o ≡ some stored) × (is_deleted_tombstone j stored ≡ false)
  unfolding get_found
  get_found-ok self id none v stored h = ground (arith, h)
  get_found-ok self id (some found) v stored h = elim (Bool-cases (is_deleted_tombstone j found)) [
    | inl gone ↦ absurd (ground (arith, rw gone at h))
    | inr alive ↦
        let e : found ≡ stored = ok-injective (rw alive at h) in (ap some e, rw (← e) alive)
  ]

  -- A get without reconciliation that returns a record was answered by the server with a text
  -- that decodes to this record, under the key of the id, and the record is no tombstone of a
  -- deleted response.
  pub get-IsFound :
      (self : ResponseStore) (id : String) (w : World) (stored : StoredResponse Value)
      → (get j r self id false w).0 ≡ ok stored
      → IsFound self id w stored
  unfolding get
  get-IsFound self id w stored h =
      let (o, m, same) = bind-ok (load j r self id) _ w h in
      let (e, alive) = get_found-ok self id o (load j r self id w).1 stored (rw same at h) in
      load-some self id w stored (m ∙ ap ok e) alive

  update_found-ok :
      (self : ResponseStore) (id : String) (response : StoredResponse Value) (ttl : Option ℕ)
      (o : Option (StoredResponse Value)) (v : World)
      → (update_found j r self id response ttl o v).0 ≡ ok tt
      → (existing : StoredResponse Value) × (o ≡ some existing)
        × (is_deleted_tombstone j existing ≡ false)
        × (update_found j r self id response ttl o v ≡ store j r self id response ttl v)
  unfolding update_found
  update_found-ok self id response ttl none v h = ground (arith, h)
  update_found-ok self id response ttl (some existing) v h =
      elim (Bool-cases (is_deleted_tombstone j existing)) [
        | inl gone ↦ absurd (ground (arith, rw gone at h))
        | inr alive ↦ (existing, refl, alive, rw alive refl)
      ]

  -- An update that succeeds found a record under the id that is no tombstone, and then is the
  -- store of the new record in the world after that read.
  pub update-IsFound :
      (self : ResponseStore) (id : String) (response : StoredResponse Value) (ttl : Option ℕ)
      (w : World)
      → (update j r self id response ttl w).0 ≡ ok tt
      → (existing : StoredResponse Value) × IsFound self id w existing
        × (update j r self id response ttl w
            ≡ store j r self id response ttl (load j r self id w).1)
  unfolding update
  update-IsFound self id response ttl w h =
      let (o, m, same) = bind-ok (load j r self id) _ w h in
      let (existing, e, alive, stores) =
        update_found-ok self id response ttl o (load j r self id w).1 (rw same at h) in
      (existing, load-some self id w existing (m ∙ ap ok e) alive, same ∙ stores)
