-- ===== src/Server/Start.antt =====
-- crates/server/src/main.rs and `ResponsesApiStoreService::new`: how the server starts.
use Prim.Native.String.{◌++◌}
use responses_api_store.Common.{
  ℕ, String, Bool, Option, none, some, Result, ok, err, map_err, if◌then◌else◌,
}
use responses_api_store.Common.Exec.{Exec, pure, lift, map_error, ◌>>=◌, ◌>>◌}
use responses_api_store.Error.{StoreError}
use responses_api_store.Redis.Opening.{Opening}
use responses_api_store.Store.Connect as StoreConnection
use responses_api_store.Queue.Connect as QueueConnection
use responses_api_store.Queue.Entries.{BackgroundQueue}
use responses_api_store.Config.{
  StoreConfig, from_env, grpc_listen_addr_from_env, grpc_max_message_bytes_from_env,
  metrics_http_enabled_from_env, metrics_http_listen_addr_from_env,
}
use responses_api_store.Server.Service.{ResponsesApiStoreService}

unfoldable pub new :
    {W : Type 0} → Opening W → StoreConfig → Exec W StoreError ResponsesApiStoreService
new o config = do
  store ←
      StoreConnection.connect o config.redis_url config.key_prefix config.ttl_seconds
        config.stale_seconds
  queue ← QueueConnection.connect o config.redis_url config.stream_key config.stream_maxlen
  pure (record { store = store; queue = queue; default_stale_seconds = config.stale_seconds })

-- What the start asks of the network and of the executor.
pub record Host (W : Type 0) : Type 1 where
  pub Address : Type 0
  pub Listener : Type 0
  -- `str::parse` into a socket address
  pub parse_address : String → Option Address
  -- `TcpListener::bind`, with the text of the error
  pub bind : String → Exec W String Listener
  -- `tokio::spawn` of the metrics server
  pub spawn_metrics : BackgroundQueue → Listener → Exec W String (Unit {0})
  -- the gRPC server with its bound on messages, until it ends
  pub serve : ResponsesApiStoreService → ℕ → Address → Exec W String (Unit {0})

-- An error is the context that it is given; its cause is left out.
abbrev pub context {ℓ} : {E : Type 0} {A : Type ℓ} → String → Result E A → Result String A
context text result = map_err (λ e. text) result

abbrev pub in_context {ℓ} : {W E : Type 0} {A : Type ℓ} → String → Exec W E A → Exec W String A
in_context text m = map_error (λ e. text) m

abbrev pub some_or {ℓ} : {A : Type ℓ} → String → Option A → Result String A
some_or text none = err text
some_or text (some a) = ok a

-- `var` are the variables of the environment, and `to_lowercase` is the standard library's.
module _ {W : Type 0} (o : Opening W) (host : Host W) (to_lowercase : String → String)
    (var : String → Option String) where
  unfoldable pub start_metrics : BackgroundQueue → Bool → Exec W String (Unit {0})
  start_metrics queue enabled =
      if enabled
      then (do
        let metrics_addr = metrics_http_listen_addr_from_env var
        listener ←
            in_context ("bind metrics HTTP listener on " ++ metrics_addr) (host.bind metrics_addr)
        host.spawn_metrics queue listener)
      else pure tt

  unfoldable pub start_service : StoreConfig → ℕ → host.Address → Exec W String (Unit {0})
  start_service config max_message_bytes address = do
    service ← in_context "initialize Responses API store service" (new o config)
    enabled ←
        lift
          (context "resolve METRICS_HTTP_ENABLED" (metrics_http_enabled_from_env var to_lowercase))
    start_metrics service.queue enabled
    in_context "serve gRPC requests" (host.serve service max_message_bytes address)

  unfoldable pub main : Exec W String (Unit {0})
  main = do
    config ← lift (context "load store configuration" (from_env var))
    max_message_bytes ←
        lift (context "resolve gRPC max message size" (grpc_max_message_bytes_from_env var))
    address ← lift (
        some_or ("invalid GRPC_LISTEN_ADDR " ++ grpc_listen_addr_from_env var)
          (host.parse_address (grpc_listen_addr_from_env var)))
    start_service config max_message_bytes address
