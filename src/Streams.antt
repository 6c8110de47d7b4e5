-- ===== src/Streams.antt =====
-- What the queue asks of a Redis server's streams, beside what the store asks (Redis.antt). These
-- are parameters of the model, over the same world.
pub mod Replies
use responses_api_store.Common.{ℕ, String, Bool, Option, List}
use responses_api_store.Common.Exec.{Exec}
use responses_api_store.Error.{RedisError}

-- A `StreamId`: the id, and the field `response_id` as a text if the entry has one.
pub record Entry : Type 0 where
  pub id : String
  pub response_id : Option String

-- A `StreamInfoGroup`, as far as it is read.
pub record GroupInfo : Type 0 where
  pub name : String
  pub last_delivered_id : String
  pub lag : Option ℕ

-- A command goes over the shared connection, or over one that was opened for a blocking read.
pub data ReadConnection : Type 0 where
  command dedicated : ReadConnection

pub record Streams (World : Type 0) : Type 0 where
  -- the stream's key, the approximate length to trim to, the response id
  pub xadd_maxlen : String → ℕ → String → Exec World RedisError (Unit {0})
  pub xadd : String → String → Exec World RedisError (Unit {0})
  -- the stream's key, the group and the id to start at
  pub xgroup_create_mkstream : String → String → String → Exec World RedisError (Unit {0})
  pub exists : String → Exec World RedisError Bool
  pub xinfo_groups : String → Exec World RedisError (List GroupInfo)
  -- the ids in a range, at most so many
  pub xrange_count : String → String → String → ℕ → Exec World RedisError (List String)
  pub xpending_count : String → String → String → String → ℕ → Exec World RedisError (List String)
  -- how many entries were acknowledged
  pub xack : String → String → String → Exec World RedisError ℕ
  -- the stream's key, the group, the consumer, the idle time, the cursor, the count
  pub xautoclaim :
      String → String → String → ℕ → String → ℕ → Exec World RedisError (String × List Entry)
  -- a new connection with a response timeout in milliseconds
  pub connect_with_timeout : ℕ → Exec World RedisError (Unit {0})
  -- the stream's key, the group, the consumer, the count and the milliseconds to block
  pub xreadgroup :
      ReadConnection
      → String
      → String
      → String
      → ℕ
      → Option ℕ
      → Exec World RedisError (List (String × List Entry))
  -- A script that reads one key, writes it if it says so, and returns a number, all at once; or it
  -- fails and writes nothing.
  pub script : String → (Option String → Option (Option String × ℕ)) → Exec World RedisError ℕ
  -- INFO server, over a new connection
  pub info_server : Exec World RedisError String
