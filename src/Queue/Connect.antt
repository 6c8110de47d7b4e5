-- ===== src/Queue/Connect.antt =====
-- crates/core/src/queue.rs: how a `BackgroundQueue` gets its connection, which is part of the world.
use responses_api_store.Common.{ℕ, String, map_err}
use responses_api_store.Common.Exec.{Exec, pure, lift, map_error, ◌>>=◌, ◌>>◌}
use responses_api_store.Error.{StoreError, storage}
use responses_api_store.Redis.Opening.{Opening}
use responses_api_store.Queue.Entries.{BackgroundQueue}

unfoldable pub connect :
    {W : Type 0} → Opening W → String → String → ℕ → Exec W StoreError BackgroundQueue
connect o redis_url stream_key stream_maxlen = do
  client ← lift (map_err storage (o.open_client redis_url))
  map_error storage (o.new_manager client)
  pure (record { stream_key = stream_key; stream_maxlen = stream_maxlen })
