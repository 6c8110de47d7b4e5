-- ===== src/Server/Startup.antt =====
-- crates/server/src/main.rs: what has to hold before the start reaches the outside.
use responses_api_store.Common.{
  ℕ, ◌<◌, String, Option, none, some, ◌≡◌, ◌⊎◌, inl, inr, ok, arith, bind-eq-ok, ok-injective,
  map_err-ok, ap, ◌∙◌,
}
use Prim.Native.String.{◌++◌}
use responses_api_store.Common.Exec.{Exec, lift, ◌>>=◌, lift_cases}
use responses_api_store.Redis.Opening.{Opening}
use responses_api_store.Config.{
  StoreConfig, from_env, parse_env_usize, validate_grpc_max_message_bytes,
  default_grpc_max_message_bytes, grpc_listen_addr_from_env, grpc_max_message_bytes_from_env,
}
use responses_api_store.Config.Valid.{IsValid, from_env-IsValid}
use responses_api_store.Server.Start.{Host, context, start_service, some_or, main}

some_or-ok :
    {A : Type 0} (text : String) (o : Option A) {a : A} → some_or text o ≡ ok a → o ≡ some a
some_or-ok text none h = cc
some_or-ok text (some b) h = cc

validated : (n : ℕ) → validate_grpc_max_message_bytes n ≡ ok tt → 0 < n
unfolding validate_grpc_max_message_bytes
validated n h = ground (arith, h)

module _ (var : String → Option String) where
  grpc_max_message_bytes-positive : (n : ℕ) → grpc_max_message_bytes_from_env var ≡ ok n → 0 < n
  unfolding grpc_max_message_bytes_from_env
  grpc_max_message_bytes-positive n h =
      let (m, h₁, p) =
        bind-eq-ok (parse_env_usize var "GRPC_MAX_MESSAGE_BYTES" default_grpc_max_message_bytes) _
          h in
      let (done, h₂, q) = bind-eq-ok (validate_grpc_max_message_bytes m) _ h₁ in
      rw (← ok-injective h₂) (validated m q)

-- `var` are the variables of the environment, and `to_lowercase` is the standard library's.
module _ {W : Type 0} (o : Opening W) (host : Host W) (to_lowercase : String → String)
    (var : String → Option String) where
  -- The start with its configuration, and then with its bound on messages.
  abbrev to_address : StoreConfig → ℕ → Exec W String (Unit {0})
  to_address config bytes =
      lift (
        some_or ("invalid GRPC_LISTEN_ADDR " ++ grpc_listen_addr_from_env var)
          (host.parse_address (grpc_listen_addr_from_env var)))
      >>= start_service o host to_lowercase var config bytes

  abbrev to_limit : StoreConfig → Exec W String (Unit {0})
  to_limit config =
      lift (context "resolve gRPC max message size" (grpc_max_message_bytes_from_env var))
      >>= to_address config

  -- The configuration, the bound on messages and the address of a start that goes ahead.
  pub record IsReady (config : StoreConfig) (bytes : ℕ) (address : host.Address) : Type 0 where
    pub configured : from_env var ≡ ok config
    pub valid : IsValid config
    pub positive : 0 < bytes
    pub parsed : host.parse_address (grpc_listen_addr_from_env var) ≡ some address

  -- A start of the server either ends with nothing touched, or goes ahead with the service over a
  -- valid configuration, a positive bound on messages and an address that parses.
  pub main_cases :
      (w : W)
      → ((main o host to_lowercase var w).1 ≡ w)
        ⊎ ((config : StoreConfig) × (bytes : ℕ) × (address : host.Address) × IsReady config bytes
              address
            × (main o host to_lowercase var w
                ≡ start_service o host to_lowercase var config bytes address w))
  unfolding main
  main_cases w = elim (lift_cases (context "load store configuration" (from_env var)) to_limit w) [
    | inl untouched ↦ inl untouched
    | inr (config, c, e₁) ↦
        elim (lift_cases
          (context "resolve gRPC max message size" (grpc_max_message_bytes_from_env var))
          (to_address config) w) [
            | inl untouched ↦ inl (ap (λ x. x.1) e₁ ∙ untouched)
            | inr (bytes, n, e₂) ↦
                elim (lift_cases
                  (some_or ("invalid GRPC_LISTEN_ADDR " ++ grpc_listen_addr_from_env var)
                    (host.parse_address (grpc_listen_addr_from_env var)))
                  (start_service o host to_lowercase var config bytes) w) [
                    | inl untouched ↦ inl (ap (λ x. x.1) (e₁ ∙ e₂) ∙ untouched)
                    | inr (address, a, e₃) ↦ inr (
                      config,
                      bytes,
                      address,
                      record {
                        configured = map_err-ok _ (from_env var) c;
                        valid = from_env-IsValid var config (map_err-ok _ (from_env var) c);
                        positive =
                            grpc_max_message_bytes-positive var bytes
                              (map_err-ok _ (grpc_max_message_bytes_from_env var) n);
                        parsed = some_or-ok _ _ a;
                      },
                      e₁ ∙ e₂ ∙ e₃,
                    )
                  ]
          ]
  ]
