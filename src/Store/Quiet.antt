-- ===== src/Store/Quiet.antt =====
-- crates/core/src/store.rs on a server that has no other client: what the store holds is a map of
-- records, and an effect is compared with what it should do to the map.
pub mod Plain
pub mod Attempt
pub mod Transition
pub mod Reconcile
pub mod Methods
pub mod Refine
use Prim.Native.String.{◌++◌}
use text.Mathlib.TextLemmas.{append_cancel_left}
use responses_api_store.Common.{
  String, ◌==◌, Bool, true, false, Option, none, some, ◌≡◌, ◌≢◌, refl, sym, ap, ◌∙◌, Result, ok,
  err, panic, arith, eq_iff, if◌then◌else◌,
}
use responses_api_store.Common.Int.{ℤ}
use responses_api_store.Common.Exec.{Exec, continue, pure, lift, map_error, ◌>>=◌, ◌>>◌}
use responses_api_store.Error.{StoreError}
use responses_api_store.Record.{StoredResponse}
use responses_api_store.Serde.{Json, CodecLaws}
use responses_api_store.Redis.{Redis}
use responses_api_store.Redis.Quiet.{QuietLaws}
use responses_api_store.Model.{response_store_key, unix_seconds_now}
use responses_api_store.Store.Transaction.{ResponseStore, key, StoreM}
use responses_api_store.Store.Spec.{Records, Outcome}

key-eq : (self : ResponseStore) (id i : String) → (key self id == key self i) ≡ (id == i)
unfolding key response_store_key
key-eq self id i = ground (
  arith,
  eq_iff id i,
  eq_iff (self.key_prefix ++ (":" ++ id)) (self.key_prefix ++ (":" ++ i)),
  append_cancel_left self.key_prefix (":" ++ id) (":" ++ i),
  append_cancel_left ":" id i,
)

module _ (j : Json) (r : Redis) (quiet : QuietLaws r) where
  open j use {Value}
  open r use {World}

  -- The codec keeps this record: a pending request that is `null` would be lost.
  abbrev pub IsPlain : StoredResponse Value → Type 0
  IsPlain stored = stored.pending_upstream_request ≢ some j.null

  -- What the key of an id holds, and the record of the id.
  abbrev pub StandsFor : Option String → Option (StoredResponse Value) → Type 0
  StandsFor none none = Unit
  StandsFor none (some stored) = ⊥
  StandsFor (some s) none = ⊥
  StandsFor (some s) (some stored) = (j.decode s ≡ ok stored) × IsPlain stored

  pub record Holds (self : ResponseStore) (w : World) (m : Records Value) : Type 0 where
    pub idle : quiet.IsIdle w
    pub stands : (id : String) → StandsFor (quiet.view w (key self id)) (m id)

  -- Two worlds in which the keys hold the same.
  pub record Same (v w : World) : Type 0 where
    pub idle : quiet.IsIdle w
    pub view : (i : String) → quiet.view w i ≡ quiet.view v i

  -- What the clock shows, as the program reads it, while the keys hold what they hold in this world.
  abbrev pub IsReading : World → ℤ → Type 0
  IsReading w now = (v : World) × Same w v × (now ≡ unix_seconds_now (r.clock v).0)

  -- The second world is the first with another text under one key.
  pub record Wrote (k : String) (o : Option String) (v w : World) : Type 0 where
    pub idle : quiet.IsIdle w
    pub view : (i : String) → quiet.view w i ≡ (if k == i then o else quiet.view v i)

  pub Same-trans : {u v w : World} → Same u v → Same v w → Same u w
  Same-trans a b = record { idle = b.idle; view = λ i. b.view i ∙ a.view i }

  pub Wrote-after :
      {k : String} {o : Option String} {u v w : World} → Same u v → Wrote k o v w → Wrote k o u w
  Wrote-after {k} {o} a b = record {
    idle = b.idle;
    view = λ i. b.view i ∙ ap (λ (x : Option String). if k == i then o else x) (a.view i);
  }

  module _ (self : ResponseStore) where
    pub Holds-Same : {v w : World} {m : Records Value} → Same v w → Holds self v m → Holds self w m
    Holds-Same {m} s h = record {
      idle = s.idle;
      stands = λ id. rw (s.view (key self id)) (h.stands id);
    }

    pub Holds-Wrote :
        {v w : World} {m : Records Value} (id : String) (o : Option String)
        (a : Option (StoredResponse Value))
        → Wrote (key self id) o v w
        → StandsFor o a
        → Holds self v m
        → Holds self w (λ i. if id == i then a else m i)
    Holds-Wrote {v} {m} id o a s e h = record {
      idle = s.idle;
      stands = λ i. rw (s.view (key self i), key-eq self id i) (chosen (id == i) i);
    }
      where
        chosen :
            (b : Bool) (i : String)
            → StandsFor (if b then o else quiet.view v (key self i)) (if b then a else m i)
        chosen true i = e
        chosen false i = h.stands i

    -- What the key holds decodes to the record.
    pub Holds-some :
        {w : World} {m : Records Value} {s : String} (id : String)
        → Holds self w m
        → quiet.view w (key self id) ≡ some s
        → (stored : StoredResponse Value) × (m id ≡ some stored)
          × (j.decode s ≡ ok stored)
          × IsPlain stored
    Holds-some {w} {m} {s} id h e = found (m id) refl (let at = h.stands id in rw e at at)
      where
        found :
            (o : Option (StoredResponse Value))
            → m id ≡ o
            → StandsFor (some s) (m id)
            → (stored : StoredResponse Value) × (m id ≡ some stored)
              × (j.decode s ≡ ok stored)
              × IsPlain stored
        found none q x = absurd (rw q at x)
        found (some stored) q x = let (d, p) = rw q at x in (stored, q, d, p)

    pub Holds-none :
        {w : World} {m : Records Value} (id : String)
        → Holds self w m
        → quiet.view w (key self id) ≡ none
        → m id ≡ none
    Holds-none {w} {m} id h e = found (m id) refl (let at = h.stands id in rw e at at)
      where
        found : (o : Option (StoredResponse Value)) → m id ≡ o → StandsFor none (m id) → m id ≡ none
        found none q x = q
        found (some stored) q x = absurd (rw q at x)

    -- The effect returns what it should, and leaves what it should in the store.
    abbrev pub Does : {A : Type 0} → StoreM j r A → World → Outcome Value A → Type 0
    Does e w o = ((e w).0 ≡ o.0) × Holds self (e w).1 o.1

    pub Does-bind :
        {A B : Type 0} (e : StoreM j r A) (f : A → StoreM j r B) (w : World) {a : A}
        {m : Records Value} {o : Outcome Value B}
        → Does e w (ok a, m)
        → Does (f a) (e w).1 o
        → Does (e >>= f) w o
    Does-bind e f w p q = rw p.0 q

    -- The effect returns, and changes nothing that is stored.
    abbrev pub Reads : {A : Type 0} → StoreM j r A → World → A → Type 0
    Reads e w a = ((e w).0 ≡ ok a) × Same w (e w).1

    pub Reads-bind :
        {A B : Type 0} (e : StoreM j r A) (f : A → StoreM j r B) (w : World) {a : A}
        {o : Outcome Value B}
        → Reads e w a
        → Does (f a) (e w).1 o
        → Does (e >>= f) w o
    Reads-bind e f w p q = rw p.0 q
