-- ===== src/Store/Commit.antt =====
-- crates/core/src/store.rs: the retry loop of the background transitions, over the attempts.
use responses_api_store.Common.{ℕ, zero, suc, String, ◌≡◌, ok, arith}
use responses_api_store.Record.{StoredResponse}
use responses_api_store.Serde.{Json}
use responses_api_store.Redis.{Redis}
use responses_api_store.Redis.Watch.{WatchLaws}
use responses_api_store.Store.Transaction.{
  ResponseStore, key, Prepare, transition_attempt, transition_loop, transition_atomic,
}
use responses_api_store.Store.Retry.{Ensures, round-Ensures}
use responses_api_store.Store.Atomic.{IsCommitted, transition_attempt-ok}

module _ (j : Json) (r : Redis) (watch : WatchLaws r) where
  open j use {Value}
  open r use {World}

  transition_loop-Ensures :
      {T : Type 0} (rounds : ℕ) (self : ResponseStore) (id : String) (prepare : Prepare j r T)
      → Ensures j r
          (IsCommitted j r watch (key self id) id prepare)
          (transition_loop j r rounds self id prepare)
  unfolding transition_loop
  transition_loop-Ensures zero self id prepare w a h = ground arith
  transition_loop-Ensures (suc left) self id prepare w a h =
      round-Ensures j r (IsCommitted j r watch (key self id) id prepare) left
        (transition_attempt j r self (key self id) id prepare)
        (transition_loop j r left self id prepare)
        (λ w a h. transition_attempt-ok j r watch self (key self id) id prepare w h)
        (transition_loop-Ensures left self id prepare) w a h

  -- When a background transition returns its result, the key held a text that decodes to a
  -- record, the transition accepts that record with this very result, and the encoded result was
  -- written directly over that text, whatever the other clients did; under the documented
  -- behaviour of WATCH, MULTI and EXEC.
  pub transition_atomic-Commits :
      {T : Type 0} (self : ResponseStore) (id : String) (prepare : Prepare j r T) (w : World)
      (a : StoredResponse Value × T)
      → (transition_atomic j r self id prepare w).0 ≡ ok a
      → IsCommitted j r watch (key self id) id prepare a (transition_atomic j r self id prepare w).1
  unfolding transition_atomic
  transition_atomic-Commits self id prepare = transition_loop-Ensures 16 self id prepare
