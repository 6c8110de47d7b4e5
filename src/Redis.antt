-- ===== src/Redis.antt =====
-- What the store asks of a Redis server and of the clock. The server, its connections, the other
-- clients and time are a `World` that each command may change: they are parameters of the model.
pub mod Watch
pub mod Opening
pub mod Quiet
use responses_api_store.Common.{ℕ, String, Bool, Option}
use responses_api_store.Common.Int.{ℤ}
use responses_api_store.Common.Exec.{Exec}
use responses_api_store.Error.{RedisError}

-- The shared command connection, and the one that is kept for WATCH/MULTI/EXEC behind a mutex.
pub data Connection : Type 0 where
  shared transaction : Connection

pub record Redis : Type 1 where
  pub World : Type 0
  -- seconds since the epoch; none for a clock before it
  pub clock : World → Option ℕ × World
  pub ping : Exec World RedisError (Unit {0})
  pub get : Connection → String → Exec World RedisError (Option String)
  -- the key, the value and the seconds to live
  pub set_ex : Connection → String → String → ℕ → Exec World RedisError (Unit {0})
  pub del : String → Exec World RedisError (Unit {0})
  -- the remaining seconds, -1 for a key that does not expire, -2 for no key
  pub ttl : String → Exec World RedisError ℤ
  pub watch : String → Exec World RedisError (Unit {0})
  pub unwatch : Exec World RedisError (Unit {0})
  pub discard : Exec World RedisError (Unit {0})
  pub multi : Exec World RedisError (Unit {0})
  -- whether the reply is an array: a nil reply says that a watched key was changed
  pub exec : Exec World RedisError Bool
  -- a new connection takes the place of the transaction connection
  pub reconnect : Exec World RedisError (Unit {0})
