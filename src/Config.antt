-- ===== src/Config.antt =====
-- crates/core/src/config.rs: the configuration, read from the environment.
pub mod Valid
use Prim.Native.Char.{Char, code}
use Prim.Native.String
use responses_api_store.Common.{
  ℕ, ◌-◌, ◌^◌, ◌*◌, String, ◌==◌, Bool, true, false, ◌&&◌, ◌||◌, Option, none, some, Result, ok,
  err, ◌>>=◌, ◌>>◌, eqb, leb, if◌then◌else◌,
}
use responses_api_store.Common.Int.{ℤ, pos, negsuc, leb_ℤ}
use responses_api_store.Common.Text.{parse_uint, at_most, digits, is_blank}
use responses_api_store.Queue.StreamId.{max_u64}

-- Messages that name a variable, and its value where there is one.
pub data ConfigError : Type 0 where
  invalid_value : String → String → ConfigError
  not_positive : String → ConfigError

pub record StoreConfig : Type 0 where
  pub redis_url : String
  pub key_prefix : String
  pub ttl_seconds : ℕ
  pub stream_key : String
  pub stale_seconds : ℤ
  pub stream_maxlen : ℕ

abbrev pub default_grpc_max_message_bytes : ℕ
default_grpc_max_message_bytes = 64 * 1024 * 1024

-- `env::var(name).unwrap_or_else(…)`
abbrev pub or_default : Option String → String → String
or_default none value = value
or_default (some value) other = value

abbrev pub minus : Option ℕ → Option ℤ
minus none = none
minus (some n) = some (if eqb n 0 then pos 0 else negsuc (n - 1))

abbrev pub plus : Option ℕ → Option ℤ
plus none = none
plus (some n) = some (pos n)

-- `str::parse::<i64>`
unfoldable pub parse_i64 : String → Option ℤ
parse_i64 String.[] = none
parse_i64 (String.◌∷◌ c s) =
    let negative = if is_blank s then none else minus (at_most (2 ^ 63) (digits 0 s)) in
    if eqb (code c) b'-' then negative else plus (parse_uint (2 ^ 63 - 1) (String.◌∷◌ c s))

abbrev pub parsed : {A : Type 0} → String → String → Option A → Result ConfigError A
parsed name value none = err (invalid_value name value)
parsed name value (some a) = ok a

-- A `usize` has 64 bits.
abbrev pub parse_u64_var : String → Option String → ℕ → Result ConfigError ℕ
parse_u64_var name none value = ok value
parse_u64_var name (some text) value = parsed name text (parse_uint max_u64 text)

abbrev pub parse_i64_var : String → Option String → ℤ → Result ConfigError ℤ
parse_i64_var name none value = ok value
parse_i64_var name (some text) value = parsed name text (parse_i64 text)

unfoldable pub validate : StoreConfig → Result ConfigError (Unit {0})
validate self =
    if eqb self.ttl_seconds 0
    then err (not_positive "RESPONSE_ID_STORE_TTL_SECONDS")
    else if leb_ℤ self.stale_seconds (pos 0)
    then err (not_positive "BACKGROUND_RESPONSE_STALE_SECONDS")
    else ok tt

unfoldable pub validate_grpc_max_message_bytes : ℕ → Result ConfigError (Unit {0})
validate_grpc_max_message_bytes bytes =
    if eqb bytes 0 then err (not_positive "GRPC_MAX_MESSAGE_BYTES") else ok tt

-- The variables of the environment, none for one that is not set.
module _ (var : String → Option String) where
  unfoldable pub parse_env_u64 : String → ℕ → Result ConfigError ℕ
  parse_env_u64 name value = parse_u64_var name (var name) value

  unfoldable pub parse_env_i64 : String → ℤ → Result ConfigError ℤ
  parse_env_i64 name value = parse_i64_var name (var name) value

  unfoldable pub parse_env_usize : String → ℕ → Result ConfigError ℕ
  parse_env_usize name value = parse_u64_var name (var name) value

  unfoldable pub from_env : Result ConfigError StoreConfig
  from_env = do
    ttl_seconds ← parse_env_u64 "RESPONSE_ID_STORE_TTL_SECONDS" 86400
    stale_seconds ← parse_env_i64 "BACKGROUND_RESPONSE_STALE_SECONDS" (pos 3600)
    stream_maxlen ← parse_env_usize "BACKGROUND_QUEUE_STREAM_MAXLEN" 10000
    let config : StoreConfig = record {
      redis_url = or_default (var "RESPONSE_ID_STORE_URL") "redis://valkey:6379";
      key_prefix = or_default (var "RESPONSE_ID_STORE_KEY_PREFIX") "responses-api-store:responses";
      ttl_seconds = ttl_seconds;
      stream_key = or_default (var "BACKGROUND_QUEUE_STREAM_KEY") "responses-api-store:background";
      stale_seconds = stale_seconds;
      stream_maxlen = stream_maxlen;
    }
    validate config
    ok config

  unfoldable pub grpc_listen_addr_from_env : String
  grpc_listen_addr_from_env = or_default (var "GRPC_LISTEN_ADDR") "0.0.0.0:50051"

  unfoldable pub metrics_http_listen_addr_from_env : String
  metrics_http_listen_addr_from_env = or_default (var "METRICS_HTTP_LISTEN_ADDR") "0.0.0.0:8080"

  unfoldable pub grpc_max_message_bytes_from_env : Result ConfigError ℕ
  grpc_max_message_bytes_from_env = do
    bytes ← parse_env_usize "GRPC_MAX_MESSAGE_BYTES" default_grpc_max_message_bytes
    validate_grpc_max_message_bytes bytes
    ok bytes

  -- `to_lowercase` is the standard library's.
  abbrev pub enabled : String → String → Result ConfigError Bool
  enabled value lowered =
      if lowered == "1" || (lowered == "true" || lowered == "yes")
      then ok true
      else if lowered == "0" || (lowered == "false" || lowered == "no")
      then ok false
      else err (invalid_value "METRICS_HTTP_ENABLED" value)

  abbrev pub enabled_by : (String → String) → Option String → Result ConfigError Bool
  enabled_by to_lowercase none = ok true
  enabled_by to_lowercase (some value) = enabled value (to_lowercase value)

  unfoldable pub metrics_http_enabled_from_env : (String → String) → Result ConfigError Bool
  metrics_http_enabled_from_env to_lowercase = enabled_by to_lowercase (var "METRICS_HTTP_ENABLED")
