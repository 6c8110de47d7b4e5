-- ===== src/Store/Capabilities.antt =====
-- crates/core/src/store.rs: what the Redis server can do, read from its version.
use responses_api_store.Common.{
  ok, ℕ, String, Bool, false, ◌&&◌, ◌||◌, Option, none, some, List, [], ◌∷◌, ltb, leb, eqb,
}
use responses_api_store.Common.Exec.{pure, ◌>>=◌}
use responses_api_store.Common.Text.{split, parse_uint, strip_prefix, trim, lines}
use responses_api_store.Serde.{Json}
use responses_api_store.Redis.{Redis}
use responses_api_store.Streams.{Streams}
use responses_api_store.Store.Transaction.{StoreM, redis}
use responses_api_store.Store.Operations.{unwrap_or}

pub record RedisCapabilities : Type 0 where
  pub version : String
  pub lag_supported : Bool
  pub exclusive_range_supported : Bool

abbrev pub max_u32 : ℕ
max_u32 = 4294967295

-- `parts.next().and_then(parse)`, with the pieces that are left
abbrev pub next_number : List String → Option ℕ
next_number [] = none
next_number (part ∷ parts) = parse_uint max_u32 part

abbrev pub tail_of : List String → List String
tail_of [] = []
tail_of (part ∷ parts) = parts

abbrev pub version_at_least : Option ℕ → Option ℕ → ℕ → ℕ → Bool
version_at_least (some major) (some minor) min_major min_minor =
    ltb min_major major || (eqb major min_major && leb min_minor minor)
version_at_least (some major) none min_major min_minor = ltb min_major major
version_at_least none minor min_major min_minor = false

unfoldable pub redis_version_at_least : String → ℕ → ℕ → Bool
redis_version_at_least version min_major min_minor =
    let parts = split b'.' version in
    version_at_least (next_number parts) (next_number (tail_of parts)) min_major min_minor

unfoldable pub redis_version_supports_lag : String → Bool
redis_version_supports_lag version = redis_version_at_least version 7 0

unfoldable pub redis_version_supports_exclusive_range : String → Bool
redis_version_supports_exclusive_range version = redis_version_at_least version 6 2

abbrev pub trim_if : Option String → Option String → Option String
trim_if none other = other
trim_if (some version) other = some (trim version)

unfoldable pub first_version : List String → Option String
first_version [] = none
first_version (line ∷ rest) = trim_if (strip_prefix "redis_version:" line) (first_version rest)

unfoldable pub parse_redis_version : String → Option String
parse_redis_version info = first_version (lines info)

abbrev pub capabilities_of : String → RedisCapabilities
capabilities_of version = record {
  version = version;
  lag_supported = redis_version_supports_lag version;
  exclusive_range_supported = redis_version_supports_exclusive_range version;
}

-- The cell of the process that keeps the answer, as a part of the world.
pub record Cell (World : Type 0) : Type 0 where
  pub read : World → Option RedisCapabilities
  pub write : RedisCapabilities → World → World

module _ (j : Json) (r : Redis) (s : Streams r.World) (cell : Cell r.World) where
  open r use {World}

  abbrev pub keep : RedisCapabilities → StoreM j r RedisCapabilities
  keep found w = (ok found, cell.write found w)

  abbrev pub known_or_loaded : Option RedisCapabilities → StoreM j r RedisCapabilities
  known_or_loaded (some known) = pure known
  known_or_loaded none = do
    info ← redis j r s.info_server
    keep (capabilities_of (unwrap_or (parse_redis_version info) ""))

  -- The server is asked once; an error leaves the cell as it is.
  unfoldable pub load_redis_capabilities : StoreM j r RedisCapabilities
  load_redis_capabilities w = known_or_loaded (cell.read w) w

  unfoldable pub redis_server_info : StoreM j r (String × Bool)
  redis_server_info = do
    capabilities ← load_redis_capabilities
    pure (capabilities.version, capabilities.lag_supported)
