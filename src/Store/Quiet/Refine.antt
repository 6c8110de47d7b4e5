-- ===== src/Store/Quiet/Refine.antt =====
-- crates/core/src/store.rs: the store as its clients see it, on a server that has no other client.
use responses_api_store.Common.{◌≤◌, String, none, List, [], ◌∷◌, refl, Result, ok, err, panic, All}
use responses_api_store.Common.Int.{ℤ}
use responses_api_store.Common.Exec.{pure, ◌>>=◌, ◌>>◌}
use responses_api_store.Error.{StoreError}
use responses_api_store.Record.{StoredResponse}
use responses_api_store.Serde.{Json, CodecLaws}
use responses_api_store.Redis.{Redis}
use responses_api_store.Redis.Quiet.{QuietLaws, IsTtl, max_ttl}
use responses_api_store.Model.{unix_seconds_now}
use responses_api_store.Store.Prepare.{
  tombstone, prepare_claim_background, prepare_complete_background, prepare_fail_background,
}
use responses_api_store.Store.Transaction.{ResponseStore, StoreM, transition_atomic}
use responses_api_store.Store.Operations
use responses_api_store.Store.Operations.{unwrap_or}
use responses_api_store.Store.Spec.{
  Operation, Reply, done, found, claimed, Records, Outcome, answer, spec,
}
use responses_api_store.Store.Quiet.{IsReading, IsPlain, Holds, Does}
use responses_api_store.Store.Quiet.Plain.{claim-IsOrderly, complete-IsOrderly, fail-IsOrderly}
use responses_api_store.Store.Quiet.Transition.{transition_atomic-Does}
use responses_api_store.Store.Quiet.Methods.{
  store-Does, delete-Does, get-Does, update-Does, reconcile_stale_response-Does,
}

module _ (j : Json) (r : Redis) where
  open j use {Value}
  open r use {World}

  -- The method that an operation stands for.
  unfoldable pub run : ResponseStore → Operation Value → StoreM j r (Reply Value)
  run self (Operation.store id stored ttl) = do Operations.store j r self id stored ttl; pure done
  run self (Operation.get id reconcile_stale) = do
    stored ← Operations.get j r self id reconcile_stale
    pure (found stored)
  run self (Operation.update id stored ttl) = do Operations.update j r self id stored ttl; pure done
  run self (Operation.delete id) = do Operations.delete j r self id; pure done
  run self (Operation.claim id) = do
    both ← Operations.claim_background_response j r self id
    pure (claimed both.0 both.1)
  run self (Operation.complete id v) = do
    stored ← Operations.complete_background_response j r self id v
    pure (found stored)
  run self (Operation.fail id message) = do
    stored ← Operations.fail_background_response j r self id message
    pure (found stored)
  run self (Operation.reconcile id stored stale_seconds) = do
    updated ← Operations.reconcile_stale_response j r self id stored stale_seconds
    pure (found updated)
  run self (Operation.tombstone_deleted id stored) = do
    Operations.tombstone_deleted_background j r self id stored
    pure done

  -- One operation after another, whatever they end in.
  unfoldable pub run_all :
      ResponseStore
      → List (Operation Value)
      → World
      → List (Result StoreError (Reply Value)) × World
  run_all self [] w = ([], w)
  run_all self (op ∷ ops) w =
      let now = run self op w in let later = run_all self ops now.1 in (now.0 ∷ later.0, later.1)

-- The answers that the operations should give, one after another, each with a reading of the clock while
-- the keys hold what they hold when it begins, and what the map is then.
pub data Replay (j : Json) (r : Redis) (quiet : QuietLaws r) (self : ResponseStore)
    : r.World
      → Records j.Value
      → List (Operation j.Value)
      → List (Result StoreError (Reply j.Value))
      → Records j.Value
      → Type 0 where
  nothing : {w : r.World} {m : Records j.Value} → Replay j r quiet self w m [] [] m
  next :
      {w : r.World} {m n : Records j.Value} {ops : List (Operation j.Value)}
      {answers : List (Result StoreError (Reply j.Value))} (op : Operation j.Value) (now : ℤ)
      → IsReading j r quiet w now
      → Replay j r quiet self (run j r self op w).1 (spec j self now op m).1 ops answers n
      → Replay j r quiet self w m (op ∷ ops) ((spec j self now op m).0 ∷ answers) n

module _ (j : Json) (r : Redis) (quiet : QuietLaws r) (codec : CodecLaws j)
    (self : ResponseStore) where
  open j use {Value}
  open r use {World}

  -- What an operation stores has no `null` for its pending request, and a time to live that is not too
  -- long for the server.
  abbrev pub IsAdmissible : Operation Value → Type 0
  IsAdmissible (Operation.store id stored ttl) =
      IsPlain j r quiet stored × (unwrap_or ttl self.default_ttl_seconds ≤ max_ttl)
  IsAdmissible (Operation.update id stored ttl) =
      IsPlain j r quiet stored × (unwrap_or ttl self.default_ttl_seconds ≤ max_ttl)
  IsAdmissible (Operation.get id reconcile_stale) = Unit
  IsAdmissible (Operation.delete id) = Unit
  IsAdmissible (Operation.claim id) = Unit
  IsAdmissible (Operation.complete id v) = Unit
  IsAdmissible (Operation.fail id message) = Unit
  IsAdmissible (Operation.reconcile id stored stale_seconds) = Unit
  IsAdmissible (Operation.tombstone_deleted id stored) = Unit

  pub Does-answer :
      {A B : Type 0} (f : A → B) (e : StoreM j r A) (w : World) (o : Outcome Value A)
      → Does j r quiet self e w o
      → Does j r quiet self (e >>= λ a. pure (f a)) w (answer j f o)
  Does-answer f e w (ok a, m) (p, h) = rw p (refl, h)
  Does-answer f e w (err x, m) (p, h) = rw p (refl, h)
  Does-answer f e w (panic, m) (p, h) = rw p (refl, h)

  pub tombstone-IsPlain :
      (stored : StoredResponse Value) (id : String) → IsPlain j r quiet (tombstone j stored id)
  unfolding tombstone
  tombstone-IsPlain stored id e = cc

  module _ (positive : IsTtl self.default_ttl_seconds) where
    run-Does :
        (op : Operation Value) (w : World) (m : Records Value)
        → IsAdmissible op
        → Holds j r quiet self w m
        → (now : ℤ) × IsReading j r quiet w now
          × Does j r quiet self (run j r self op) w (spec j self now op m)
    unfolding run Operations.claim_background_response Operations.complete_background_response
        Operations.fail_background_response Operations.tombstone_deleted_background
    run-Does (Operation.store id stored ttl) w m (plain, le) h = (
      unix_seconds_now (r.clock w).0,
      (w, record { idle = h.idle; view = λ i. refl }, refl),
      Does-answer _ (Operations.store j r self id stored ttl) w _
          (store-Does j r quiet codec self id stored ttl w m plain le h),
    )
    run-Does (Operation.get id reconcile_stale) w m plain h =
        let (now, shows, d) = get-Does j r quiet codec self id reconcile_stale w m positive h in
        (now, shows, Does-answer _ (Operations.get j r self id reconcile_stale) w _ d)
    run-Does (Operation.update id stored ttl) w m (plain, le) h = (
      unix_seconds_now (r.clock w).0,
      (w, record { idle = h.idle; view = λ i. refl }, refl),
      Does-answer _ (Operations.update j r self id stored ttl) w _
          (update-Does j r quiet codec self id stored ttl w m plain le h),
    )
    run-Does (Operation.delete id) w m plain h = (
      unix_seconds_now (r.clock w).0,
      (w, record { idle = h.idle; view = λ i. refl }, refl),
      Does-answer _ (Operations.delete j r self id) w _ (delete-Does j r quiet codec self id w m h),
    )
    run-Does (Operation.claim id) w m plain h = (
      unix_seconds_now (r.clock w).0,
      (w, record { idle = h.idle; view = λ i. refl }, refl),
      Does-answer _ (transition_atomic j r self id (prepare_claim_background j)) w _ (
          transition_atomic-Does j r quiet codec self id (prepare_claim_background j) w m positive
            (claim-IsOrderly j) h),
    )
    run-Does (Operation.complete id v) w m plain h = (
      unix_seconds_now (r.clock w).0,
      (w, record { idle = h.idle; view = λ i. refl }, refl),
      Does-answer _ (Operations.complete_background_response j r self id v) w _ (
          Does-answer _
            (transition_atomic j r self id (λ stored i. prepare_complete_background j stored i v)) w
            _
            (transition_atomic-Does j r quiet codec self id
              (λ stored i. prepare_complete_background j stored i v) w m positive
              (complete-IsOrderly j v) h)),
    )
    run-Does (Operation.fail id message) w m plain h = (
      unix_seconds_now (r.clock w).0,
      (w, record { idle = h.idle; view = λ i. refl }, refl),
      Does-answer _ (Operations.fail_background_response j r self id message) w _ (
          Does-answer _
            (transition_atomic j r self id (λ stored i. prepare_fail_background j stored i message))
            w _
            (transition_atomic-Does j r quiet codec self id
              (λ stored i. prepare_fail_background j stored i message) w m positive
              (fail-IsOrderly j message) h)),
    )
    run-Does (Operation.reconcile id stored stale_seconds) w m plain h = (
      unix_seconds_now (r.clock w).0,
      (w, record { idle = h.idle; view = λ i. refl }, refl),
      Does-answer _ (Operations.reconcile_stale_response j r self id stored stale_seconds) w _ (
          reconcile_stale_response-Does j r quiet codec self id stored stale_seconds w m positive
            h),
    )
    run-Does (Operation.tombstone_deleted id stored) w m plain h = (
      unix_seconds_now (r.clock w).0,
      (w, record { idle = h.idle; view = λ i. refl }, refl),
      Does-answer _ (Operations.store j r self id (tombstone j stored id) none) w _ (
          store-Does j r quiet codec self id (tombstone j stored id) none w m
            (tombstone-IsPlain stored id) positive.1 h),
    )

    -- Whatever methods of the store are run one after another on a Redis server that has no other
    -- client, answers every command and expires no key meanwhile, they answer as they should on a
    -- map from ids to records, errors and panics included, each with a reading of the clock of
    -- the server while the keys hold what they hold at its beginning, and what the keys hold
    -- afterwards stands for the map that this leaves; if the default time to live is positive, no
    -- time to live is above 9 * 10^15 seconds, about where the server begins to refuse them, no
    -- record that is given to store or update has null for its pending request, and else Redis
    -- and the codec behave as documented.
    pub run_all-Replay :
        (ops : List (Operation Value)) (w : World) (m : Records Value)
        → All IsAdmissible ops
        → Holds j r quiet self w m
        → (n : Records Value) × Replay j r quiet self w m ops (run_all j r self ops w).0 n
          × Holds j r quiet self (run_all j r self ops w).1 n
    unfolding run_all
    run_all-Replay [] w m plain h = (m, nothing, h)
    run_all-Replay (op ∷ ops) w m (plain, more) h =
        let (now, shows, (answered, h₁)) = run-Does op w m plain h in
        let (n, replay, h₂) =
          run_all-Replay ops (run j r self op w).1 (spec j self now op m).1 more h₁ in
        (n, rw answered (next op now shows replay), h₂)
