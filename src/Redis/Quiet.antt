-- ===== src/Redis/Quiet.antt =====
-- The documented behaviour of a Redis server that answers every command, while it has no other client
-- and before any key expires: what each key holds, and how the commands change that.
use responses_api_store.Common.{
  ℕ, ◌<◌, ◌≤◌, String, ◌==◌, true, Option, none, some, ◌≡◌, ◌≢◌, ok, panic, if◌then◌else◌,
}
use responses_api_store.Common.Int.{ℤ, pos_part}
use responses_api_store.Redis.{Redis, Connection, shared, transaction}

-- The server adds a time to live, in milliseconds, to its clock, on 64 bits with a sign, and refuses one
-- that does not fit. Up to this many seconds it fits as long as the clock is below 2.2 * 10^17.
abbrev pub max_ttl : ℕ
max_ttl = 9_000_000_000_000_000

-- The times to live that a server accepts.
abbrev pub IsTtl : ℕ → Type 0
IsTtl t = (0 < t) × (t ≤ max_ttl)

pub record QuietLaws (r : Redis) : Type 1 where
  pub view : r.World → String → Option String
  -- no MULTI is open
  pub IsIdle : r.World → Type 0
  -- MULTI is open, and nothing is queued yet
  pub IsOpen : r.World → Type 0
  -- the write that EXEC will do
  pub Queued : r.World → String → String → ℕ → Type 0
  pub clock_view : (w : r.World) (i : String) → view (r.clock w).1 i ≡ view w i
  pub clock_idle : (w : r.World) → IsIdle w → IsIdle (r.clock w).1
  pub ping_ok : (w : r.World) → (r.ping w).0 ≡ ok tt
  pub get_ok :
      (c : Connection) (k : String) (w : r.World) → IsIdle w → (r.get c k w).0 ≡ ok (view w k)
  pub get_view :
      (c : Connection) (k : String) (w : r.World) (i : String) → view (r.get c k w).1 i ≡ view w i
  pub get_idle : (c : Connection) (k : String) (w : r.World) → IsIdle w → IsIdle (r.get c k w).1
  -- the time to live has to be one that is accepted
  pub set_ex_ok :
      (k p : String) (t : ℕ) (w : r.World)
      → IsIdle w
      → IsTtl t
      → (r.set_ex shared k p t w).0 ≡ ok tt
  pub set_ex_view :
      (k p : String) (t : ℕ) (w : r.World) (i : String)
      → IsIdle w
      → IsTtl t
      → view (r.set_ex shared k p t w).1 i ≡ (if k == i then some p else view w i)
  pub set_ex_idle :
      (k p : String) (t : ℕ) (w : r.World) → IsIdle w → IsIdle (r.set_ex shared k p t w).1
  pub del_ok : (k : String) (w : r.World) → IsIdle w → (r.del k w).0 ≡ ok tt
  pub del_view :
      (k : String) (w : r.World) (i : String)
      → IsIdle w
      → view (r.del k w).1 i ≡ (if k == i then none else view w i)
  pub del_idle : (k : String) (w : r.World) → IsIdle w → IsIdle (r.del k w).1
  pub ttl_ok :
      (k : String) (w : r.World)
      → IsIdle w
      → (t : ℤ) × ((r.ttl k w).0 ≡ ok t) × (pos_part t ≤ max_ttl)
  pub ttl_view : (k : String) (w : r.World) (i : String) → view (r.ttl k w).1 i ≡ view w i
  pub ttl_idle : (k : String) (w : r.World) → IsIdle w → IsIdle (r.ttl k w).1
  pub watch_ok : (k : String) (w : r.World) → IsIdle w → (r.watch k w).0 ≡ ok tt
  pub watch_view : (k : String) (w : r.World) (i : String) → view (r.watch k w).1 i ≡ view w i
  pub watch_idle : (k : String) (w : r.World) → IsIdle w → IsIdle (r.watch k w).1
  -- UNWATCH, and DISCARD, which is an error where no MULTI is open
  pub unwatch_calm : (w : r.World) → (r.unwatch w).0 ≢ panic
  pub unwatch_view : (w : r.World) (i : String) → view (r.unwatch w).1 i ≡ view w i
  pub unwatch_idle : (w : r.World) → IsIdle w → IsIdle (r.unwatch w).1
  pub discard_calm : (w : r.World) → (r.discard w).0 ≢ panic
  pub discard_view : (w : r.World) (i : String) → view (r.discard w).1 i ≡ view w i
  pub discard_idle : (w : r.World) → IsIdle w → IsIdle (r.discard w).1
  -- a transaction of one write
  pub multi_ok : (w : r.World) → IsIdle w → (r.multi w).0 ≡ ok tt
  pub multi_view : (w : r.World) (i : String) → view (r.multi w).1 i ≡ view w i
  pub multi_opens : (w : r.World) → IsIdle w → IsOpen (r.multi w).1
  pub queue_ok :
      (k p : String) (t : ℕ) (w : r.World) → IsOpen w → (r.set_ex transaction k p t w).0 ≡ ok tt
  pub queue_view :
      (k p : String) (t : ℕ) (w : r.World) (i : String)
      → IsOpen w
      → view (r.set_ex transaction k p t w).1 i ≡ view w i
  pub queue_queues :
      (k p : String) (t : ℕ) (w : r.World)
      → IsOpen w
      → Queued (r.set_ex transaction k p t w).1 k p t
  -- nobody else has changed the watched key
  pub exec_ok :
      (k p : String) (t : ℕ) (w : r.World) → Queued w k p t → IsTtl t → (r.exec w).0 ≡ ok true
  pub exec_view :
      (k p : String) (t : ℕ) (w : r.World) (i : String)
      → Queued w k p t
      → IsTtl t
      → view (r.exec w).1 i ≡ (if k == i then some p else view w i)
  pub exec_idle :
      (k p : String) (t : ℕ) (w : r.World) → Queued w k p t → IsTtl t → IsIdle (r.exec w).1
