-- ===== src/Redis/Watch.antt =====
-- The documented behaviour of WATCH, MULTI and EXEC on one connection, while other clients may
-- change any key between two commands.
use responses_api_store.Common.{ℕ, String, true, Option, some, List, ◌∷◌, ◌≡◌, ok}
use responses_api_store.Common.Int.{ℤ}
use responses_api_store.Redis.{Redis, transaction}

pub record WatchLaws (r : Redis) : Type 1 where
  -- the connection has a watch on the key
  pub Watching : r.World → String → Type 0
  -- the watched key has not been changed since, and has this value
  pub Unchanged : r.World → String → Option String → Type 0
  -- MULTI has been called
  pub InMulti : r.World → Type 0
  -- the write that EXEC will do
  pub Queued : r.World → String → String → ℕ → Type 0
  -- the values that the key has had, the last one first
  pub history : r.World → String → List (Option String)
  pub watch_begins :
      (k : String) (w : r.World) → (r.watch k w).0 ≡ ok tt → Watching (r.watch k w).1 k
  -- commands that succeed keep the watch, and none restores a watch that was broken
  pub get_keeps :
      (k : String) (w : r.World) {v : Option String}
      → (r.get transaction k w).0 ≡ ok v
      → Watching w k
      → Watching (r.get transaction k w).1 k
  pub get_reads :
      (k : String) (w : r.World) {u v : Option String}
      → (r.get transaction k w).0 ≡ ok v
      → Unchanged (r.get transaction k w).1 k u
      → u ≡ v
  pub ttl_keeps :
      (k : String) (w : r.World) {t : ℤ}
      → (r.ttl k w).0 ≡ ok t
      → Watching w k
      → Watching (r.ttl k w).1 k
  pub ttl_restores :
      (k : String) (w : r.World) {u : Option String} → Unchanged (r.ttl k w).1 k u → Unchanged w k u
  pub multi_opens : (w : r.World) → (r.multi w).0 ≡ ok tt → InMulti (r.multi w).1
  pub multi_keeps :
      (k : String) (w : r.World) → (r.multi w).0 ≡ ok tt → Watching w k → Watching (r.multi w).1 k
  pub multi_restores :
      (k : String) (w : r.World) {u : Option String} → Unchanged (r.multi w).1 k u → Unchanged w k u
  -- within MULTI a SETEX is queued
  pub set_ex_queues :
      (k p : String) (t : ℕ) (w : r.World)
      → (r.set_ex transaction k p t w).0 ≡ ok tt
      → InMulti w
      → Queued (r.set_ex transaction k p t w).1 k p t
  pub set_ex_keeps :
      (k p : String) (t : ℕ) (w : r.World)
      → (r.set_ex transaction k p t w).0 ≡ ok tt
      → InMulti w
      → Watching w k
      → Watching (r.set_ex transaction k p t w).1 k
  pub set_ex_restores :
      (k p : String) (t : ℕ) (w : r.World) {u : Option String}
      → InMulti w
      → Unchanged (r.set_ex transaction k p t w).1 k u
      → Unchanged w k u
  -- an EXEC that is not refused finds the watched key unchanged, and its write comes next
  pub exec_commits :
      (k p : String) (t : ℕ) (w : r.World)
      → (r.exec w).0 ≡ ok true
      → Watching w k
      → Queued w k p t
      → (u : Option String) × (before : List (Option String)) × Unchanged w k u
        × (history (r.exec w).1 k ≡ some p ∷ u ∷ before)
