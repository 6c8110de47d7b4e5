-- ===== src/Record.antt =====
-- The records of crates/core/src/model.rs. `V` is the type of JSON values, `serde_json::Value`.
use responses_api_store.Common.{ℕ, String, Bool, Option, List}
use responses_api_store.Common.Int.{ℤ}

pub record StoredResponse (V : Type 0) : Type 0 where
  pub upstream : String
  pub response : V
  pub input : List V
  pub pending_upstream_request : Option V
  pub upstream_authorization : Option String
  pub enqueued_at : Option ℤ

pub record BackgroundJob (V : Type 0) : Type 0 where
  pub stream_id : String
  pub response_id : String
  pub stored : StoredResponse V
  pub autoclaimed : Bool
  pub idle_ms : Option ℕ

pub record PendingBackgroundJob : Type 0 where
  pub stream_id : String
  pub response_id : String
  pub autoclaimed : Bool
  pub idle_ms : Option ℕ
