-- ===== src/Redis/Opening.antt =====
-- What the program asks of the Redis library to open connections: parameters of the model.
use responses_api_store.Common.{String, Result}
use responses_api_store.Common.Exec.{Exec}
use responses_api_store.Error.{RedisError}

pub record Opening (W : Type 0) : Type 1 where
  pub Client : Type 0
  -- `redis::Client::open`, which only parses the address
  pub open_client : String → Result RedisError Client
  -- `ConnectionManager::new`
  pub new_manager : Client → Exec W RedisError (Unit {0})
