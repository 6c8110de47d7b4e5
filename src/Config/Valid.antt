-- ===== src/Config/Valid.antt =====
-- crates/core/src/config.rs: the configurations that are read.
use responses_api_store.Common.{
  ℕ, ◌≤◌, ◌<◌, String, false, Option, none, some, ◌≡◌, refl, ok, bind-eq-ok, arith, eqb,
  ok-injective, Bool-cases, inl, inr,
}
use responses_api_store.Common.Int.{pos, leb_ℤ}
use responses_api_store.Common.Text.{parse_uint}
use responses_api_store.Queue.StreamId.{max_u64}
use responses_api_store.Queue.Order.{parse_uint-le}
use responses_api_store.Config.{
  StoreConfig, parsed, parse_u64_var, parse_env_u64, parse_env_usize, parse_env_i64, validate,
  from_env,
}

-- The time to live and the time after which a response is stale are positive, so that a record can be
-- stored and a response is not stale at once; the numbers fit 64 bits.
abbrev pub IsValid : StoreConfig → Type 0
IsValid c =
    (0 < c.ttl_seconds)
    × (c.ttl_seconds ≤ max_u64)
    × (leb_ℤ c.stale_seconds (pos 0) ≡ false)
    × (c.stream_maxlen ≤ max_u64)

validate-positive :
    (c : StoreConfig)
    → validate c ≡ ok tt
    → (0 < c.ttl_seconds) × (leb_ℤ c.stale_seconds (pos 0) ≡ false)
unfolding validate
validate-positive c h = elim (Bool-cases (eqb c.ttl_seconds 0)) [
  | inl zero_ttl ↦ absurd (ground (arith, rw zero_ttl at h))
  | inr some_ttl ↦ elim (Bool-cases (leb_ℤ c.stale_seconds (pos 0))) [
    | inl never ↦ absurd (ground (arith, rw (some_ttl, never) at h))
    | inr later ↦ (ground arith, later)
  ]
]

parse_u64_var-le :
    (name : String) (o : Option String) (value n : ℕ)
    → value ≤ max_u64
    → parse_u64_var name o value ≡ ok n
    → n ≤ max_u64
parse_u64_var-le name none value n le h = rw (← ok-injective h) le
parse_u64_var-le name (some text) value n le h = number (parse_uint max_u64 text) refl h
  where
    number : (o : Option ℕ) → parse_uint max_u64 text ≡ o → parsed name text o ≡ ok n → n ≤ max_u64
    number none e q = ground (arith, q)
    number (some m) e q = rw (← ok-injective q) (parse_uint-le max_u64 text m e)

module _ (var : String → Option String) where
  -- A configuration that is read from the environment is valid, whatever the variables hold: its
  -- time to live and its time to be stale are positive, and its time to live and its stream
  -- length fit 64 bits.
  pub from_env-IsValid : (c : StoreConfig) → from_env var ≡ ok c → IsValid c
  unfolding from_env parse_env_u64 parse_env_usize
  from_env-IsValid c h =
      let (ttl, h₁, p) = bind-eq-ok (parse_env_u64 var "RESPONSE_ID_STORE_TTL_SECONDS" 86400) _ h in
      let (stale, h₂, q) =
        bind-eq-ok (parse_env_i64 var "BACKGROUND_RESPONSE_STALE_SECONDS" (pos 3600)) _ h₁ in
      let (maxlen, h₃, r) =
        bind-eq-ok (parse_env_usize var "BACKGROUND_QUEUE_STREAM_MAXLEN" 10000) _ h₂ in
      let (done, h₄, valid) = bind-eq-ok (validate _) _ h₃ in
      let (positive, later) = validate-positive _ valid in
      rw (← ok-injective h₄) (
        positive,
        parse_u64_var-le "RESPONSE_ID_STORE_TTL_SECONDS" (var "RESPONSE_ID_STORE_TTL_SECONDS") 86400
            ttl (omega arith) p,
        later,
        parse_u64_var-le "BACKGROUND_QUEUE_STREAM_MAXLEN" (var "BACKGROUND_QUEUE_STREAM_MAXLEN")
            10000 maxlen (omega arith) r,
      )
