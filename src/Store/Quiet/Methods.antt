-- ===== src/Store/Quiet/Methods.antt =====
-- crates/core/src/store.rs: each method of `ResponseStore`, on a server that has no other client.
use responses_api_store.Common.{
  ℕ, ◌<◌, ◌≤◌, String, Bool, true, false, Option, none, some, ◌≡◌, refl, ok, arith, ◌⊎◌, inl, inr,
  eqb, Option-cases, Bool-cases,
}
use responses_api_store.Common.Int.{ℤ}
use responses_api_store.Record.{StoredResponse}
use responses_api_store.Serde.{Json, CodecLaws}
use responses_api_store.Redis.{Redis, shared}
use responses_api_store.Redis.Quiet.{QuietLaws, IsTtl, max_ttl}
use responses_api_store.Model.{
  should_reconcile_stale, is_stale_enqueued, is_deleted_tombstone, unix_seconds_now,
}
use responses_api_store.Store.Transaction.{ResponseStore, key, load}
use responses_api_store.Store.Operations
use responses_api_store.Store.Operations.{unwrap_or, store, delete, get, update}
use responses_api_store.Store.Spec.{Records, write, reconciled, read, overwrite, erase}
use responses_api_store.Store.Quiet.{
  IsReading, IsPlain, Same, Holds, Holds-Same, Holds-Wrote, Holds-some, Holds-none, Does,
}
use responses_api_store.Store.Quiet.Reconcile.{reconcile_stale_atomic-Does}

zero_or_positive : (n : ℕ) → (eqb n 0 ≡ true) ⊎ ((eqb n 0 ≡ false) × (0 < n))
zero_or_positive n = elim (Bool-cases (eqb n 0)) [ inl e ↦ inl e | inr e ↦ inr (e, ground arith) ]

module _ (j : Json) (r : Redis) (quiet : QuietLaws r) (codec : CodecLaws j)
    (self : ResponseStore) where
  open j use {Value}
  open r use {World}

  pub load-quiet :
      (id : String) (w : World) (m : Records Value)
      → Holds j r quiet self w m
      → ((load j r self id w).0 ≡ ok (m id))
        × Holds j r quiet self (load j r self id w).1 m
        × Same j r quiet w (load j r self id w).1
  unfolding load
  load-quiet id w m h =
      let k : String = key self id in
      let same : Same j r quiet w (r.get shared k w).1 = record {
        idle = quiet.get_idle shared k w h.idle;
        view = quiet.get_view shared k w;
      } in
      elim (Option-cases (quiet.view w k)) [
        | inl missing ↦
            rw (quiet.get_ok shared k w h.idle, missing, Holds-none j r quiet self id h missing)
              (refl, Holds-Same j r quiet self same h, same)
        | inr (raw, held) ↦
            let (stored, here, decoded, plain) = Holds-some j r quiet self id h held in
            rw (quiet.get_ok shared k w h.idle, held, here)
              (rw decoded refl, Holds-Same j r quiet self same h, same)
      ]

  pub store-Does :
      (id : String) (stored : StoredResponse Value) (ttl : Option ℕ) (w : World) (m : Records Value)
      → IsPlain j r quiet stored
      → unwrap_or ttl self.default_ttl_seconds ≤ max_ttl
      → Holds j r quiet self w m
      → Does j r quiet self (store j r self id stored ttl) w (write j self id stored ttl m)
  unfolding store
  store-Does id stored ttl w m plain le h =
      let seconds : ℕ = unwrap_or ttl self.default_ttl_seconds in
      let (s, encoded) = codec.encodes stored in
      let k : String = key self id in
      elim (zero_or_positive seconds) [
        | inl none_left ↦ rw none_left (refl, h)
        | inr (some_left, more) ↦
            let positive : IsTtl seconds = (more, le) in
            rw (some_left, encoded, quiet.set_ex_ok k s seconds w h.idle positive)
              (
                refl,
                Holds-Wrote j r quiet self id (some s) (some stored)
                    (record {
                      idle = quiet.set_ex_idle k s seconds w h.idle;
                      view = λ i. quiet.set_ex_view k s seconds w i h.idle positive;
                    })
                    (codec.decode-encode stored s plain encoded, plain) h,
              )
      ]

  pub delete-Does :
      (id : String) (w : World) (m : Records Value)
      → Holds j r quiet self w m
      → Does j r quiet self (delete j r self id) w (ok tt, erase id m)
  unfolding delete
  delete-Does id w m h =
      let k : String = key self id in
      rw (quiet.del_ok k w h.idle) (
        refl,
        Holds-Wrote j r quiet self id none none
            (record { idle = quiet.del_idle k w h.idle; view = λ i. quiet.del_view k w i h.idle })
            tt h,
      )

  -- The clock is read, and then the record is looked at again under a watch.
  pub reconcile_stale_response-Does :
      (id : String) (stored : StoredResponse Value) (stale_seconds : ℤ) (w : World)
      (m : Records Value)
      → IsTtl self.default_ttl_seconds
      → Holds j r quiet self w m
      → Does j r quiet self
          (Operations.reconcile_stale_response j r self id stored stale_seconds)
          w
          (reconciled j (unix_seconds_now (r.clock w).0) id stored stale_seconds m)
  unfolding Operations.reconcile_stale_response
  reconcile_stale_response-Does id stored stale_seconds w m positive h =
      let now : ℤ = unix_seconds_now (r.clock w).0 in
      let same : Same j r quiet w (r.clock w).1 = record {
        idle = quiet.clock_idle w h.idle;
        view = quiet.clock_view w;
      } in
      let h₁ : Holds j r quiet self (r.clock w).1 m = Holds-Same j r quiet self same h in
      elim (Bool-cases (should_reconcile_stale j stored)) [
        | inr never ↦ rw never (refl, h)
        | inl queued ↦ elim (Bool-cases (is_stale_enqueued stored.enqueued_at now stale_seconds)) [
          | inr fresh ↦ rw (queued, fresh) (refl, h₁)
          | inl stale ↦
              rw (queued, stale)
                (reconcile_stale_atomic-Does j r quiet codec self id now stale_seconds (r.clock w).1
                  m positive h₁)
        ]
      ]

  get_found-Does :
      (id : String) (reconcile_stale : Bool) (o : Option (StoredResponse Value)) (w : World)
      (m : Records Value)
      → IsTtl self.default_ttl_seconds
      → Holds j r quiet self w m
      → Does j r quiet self
          (Operations.get_found j r self id reconcile_stale o)
          w
          (read j self (unix_seconds_now (r.clock w).0) id reconcile_stale o m)
  unfolding Operations.get_found
  get_found-Does id reconcile_stale none w m positive h = (refl, h)
  get_found-Does id true (some stored) w m positive h =
      elim (Bool-cases (is_deleted_tombstone j stored)) [
        | inl deleted ↦ rw deleted (refl, h)
        | inr alive ↦
            rw alive (reconcile_stale_response-Does id stored self.stale_seconds w m positive h)
      ]
  get_found-Does id false (some stored) w m positive h =
      elim (Bool-cases (is_deleted_tombstone j stored)) [
        | inl deleted ↦ rw deleted (refl, h)
        | inr alive ↦ rw alive (refl, h)
      ]

  -- The record is loaded, and the clock is read after that.
  pub get-Does :
      (id : String) (reconcile_stale : Bool) (w : World) (m : Records Value)
      → IsTtl self.default_ttl_seconds
      → Holds j r quiet self w m
      → (now : ℤ) × IsReading j r quiet w now
        × Does j r quiet self
            (get j r self id reconcile_stale)
            w
            (read j self now id reconcile_stale (m id) m)
  unfolding get
  get-Does id reconcile_stale w m positive h =
      let (loaded, h₁, same) = load-quiet id w m h in
      let w₁ : World = (load j r self id w).1 in
      (
        unix_seconds_now (r.clock w₁).0,
        (w₁, same, refl),
        rw loaded (get_found-Does id reconcile_stale (m id) w₁ m positive h₁),
      )

  update_found-Does :
      (id : String) (stored : StoredResponse Value) (ttl : Option ℕ)
      (o : Option (StoredResponse Value)) (w : World) (m : Records Value)
      → IsPlain j r quiet stored
      → unwrap_or ttl self.default_ttl_seconds ≤ max_ttl
      → Holds j r quiet self w m
      → Does j r quiet self
          (Operations.update_found j r self id stored ttl o)
          w
          (overwrite j self id stored ttl o m)
  unfolding Operations.update_found
  update_found-Does id stored ttl none w m plain le h = (refl, h)
  update_found-Does id stored ttl (some existing) w m plain le h =
      elim (Bool-cases (is_deleted_tombstone j existing)) [
        | inl deleted ↦ rw deleted (refl, h)
        | inr alive ↦ rw alive (store-Does id stored ttl w m plain le h)
      ]

  pub update-Does :
      (id : String) (stored : StoredResponse Value) (ttl : Option ℕ) (w : World) (m : Records Value)
      → IsPlain j r quiet stored
      → unwrap_or ttl self.default_ttl_seconds ≤ max_ttl
      → Holds j r quiet self w m
      → Does j r quiet self
          (update j r self id stored ttl)
          w
          (overwrite j self id stored ttl (m id) m)
  unfolding update
  update-Does id stored ttl w m plain le h =
      let (loaded, h₁, same) = load-quiet id w m h in
      rw loaded (update_found-Does id stored ttl (m id) (load j r self id w).1 m plain le h₁)
