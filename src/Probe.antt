-- ===== src/Probe.antt =====
-- crates/probe/src/main.rs: the health probe, a program that calls the server once.
pub mod Address
use Prim.Native.String.{◌++◌}
use text.Mathlib.Text.{starts_with}
use responses_api_store.Common.{ℕ, String, ◌||◌, Option, none, some, if◌then◌else◌}
use responses_api_store.Common.Text.{is_blank, trim, replace_text}
use responses_api_store.Common.Exec.{Exec, pure, ◌>>=◌}
use responses_api_store.Serde.{Json}
use responses_api_store.Config.{ConfigError}
use responses_api_store.Client.Error.{ClientError}
use responses_api_store.Client.Rpc.{Rpc}
use responses_api_store.Client.Calls.{health}
use responses_api_store.Client.Connect.{Transport, Client, connect}

-- `unwrap_or_default`
abbrev pub or_empty : Option String → String
or_empty none = ""
or_empty (some value) = value

abbrev pub listen_addr_or_default : String → String
listen_addr_or_default listen_addr =
    if is_blank (trim listen_addr) then "127.0.0.1:50051" else listen_addr

abbrev pub with_scheme : String → String
with_scheme dial_addr =
    if starts_with dial_addr "http://" || starts_with dial_addr "https://"
    then dial_addr
    else "http://" ++ dial_addr

-- The variables of the environment.
module _ (var : String → Option String) where
  unfoldable pub probe_endpoint_from_env : String
  probe_endpoint_from_env = with_scheme (
      replace_text "0.0.0.0:" "127.0.0.1:" 0
        (listen_addr_or_default (or_empty (var "GRPC_LISTEN_ADDR"))))

  -- The exit code; an error ends the process with 1. `stub` is the generated stub over a channel.
  unfoldable pub main :
      {W : Type 0}
      → Json
      → (t : Transport W) → (Client t.Channel → Rpc W)
      → (ConfigError → String)
      → Exec W ClientError ℕ
  main j t stub show = do
    client ← connect var t show probe_endpoint_from_env
    answer ← health j (stub client)
    pure (if answer.redis_ok then 0 else 1)
