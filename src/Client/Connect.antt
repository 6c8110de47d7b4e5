-- ===== src/Client/Connect.antt =====
-- crates/client/src/lib.rs: how a client gets its channel. Endpoints and channels are those of the
-- transport library.
use responses_api_store.Common.{ℕ, String, Option, Result, ok, err, panic, map_err, map_ok}
use responses_api_store.Common.Exec.{Exec, pure, lift, map_error, ◌>>=◌}
use responses_api_store.Config.{
  ConfigError, default_grpc_max_message_bytes, grpc_max_message_bytes_from_env,
}
use responses_api_store.Client.Error.{ClientError, transport, configuration}

pub record Transport (W : Type 0) : Type 1 where
  pub Endpoint : Type 0
  pub Channel : Type 0
  -- `Endpoint::from_shared` and `Endpoint::connect`, with the text of the error
  pub from_shared : String → Result String Endpoint
  pub connect : Endpoint → Exec W String Channel

-- The stub over a channel, with the bounds on its messages.
pub record Client (C : Type 0) : Type 0 where
  pub channel : C
  pub max_decoding_message_size : ℕ
  pub max_encoding_message_size : ℕ

unfoldable pub from_channel_with_limit : {C : Type 0} → C → ℕ → Client C
from_channel_with_limit channel max_message_bytes = record {
  channel = channel;
  max_decoding_message_size = max_message_bytes;
  max_encoding_message_size = max_message_bytes;
}

-- `unwrap_or` on a result
abbrev pub ok_or {ℓ} : {E : Type 0} {A : Type ℓ} → Result E A → A → Result E A
ok_or (ok a) b = ok a
ok_or (err e) b = ok b
ok_or panic b = panic

-- The variables of the environment.
module _ (var : String → Option String) where
  unfoldable pub from_channel : {C : Type 0} → C → Result ConfigError (Client C)
  from_channel channel =
      map_ok (from_channel_with_limit channel)
        (ok_or (grpc_max_message_bytes_from_env var) default_grpc_max_message_bytes)

  -- `show` is the text of a configuration error.
  unfoldable pub connect :
      {W : Type 0}
      → (t : Transport W) → (ConfigError → String)
      → String
      → Exec W ClientError (Client t.Channel)
  connect t show endpoint = do
    max_message_bytes ←
        lift (map_err (λ e. configuration (show e)) (grpc_max_message_bytes_from_env var))
    at ← lift (map_err transport (t.from_shared endpoint))
    channel ← map_error transport (t.connect at)
    pure (from_channel_with_limit channel max_message_bytes)
