-- ===== src/Store/Connect.antt =====
-- crates/core/src/store.rs: how a `ResponseStore` gets its connections. They are part of the world,
-- so that what is returned are the other fields.
use responses_api_store.Common.{ℕ, String, map_err}
use responses_api_store.Common.Int.{ℤ}
use responses_api_store.Common.Exec.{Exec, pure, lift, map_error, ◌>>=◌, ◌>>◌}
use responses_api_store.Error.{StoreError, storage}
use responses_api_store.Redis.Opening.{Opening}
use responses_api_store.Store.Transaction.{ResponseStore}

-- One connection for the commands, and one for the transactions.
unfoldable pub connect :
    {W : Type 0} → Opening W → String → String → ℕ → ℤ → Exec W StoreError ResponseStore
connect o redis_url key_prefix default_ttl_seconds stale_seconds = do
  client ← lift (map_err storage (o.open_client redis_url))
  map_error storage (o.new_manager client)
  map_error storage (o.new_manager client)
  pure (record {
    key_prefix = key_prefix;
    default_ttl_seconds = default_ttl_seconds;
    stale_seconds = stale_seconds;
  })
