-- ===== src/Streams/Replies.antt =====
-- The documented sizes of the replies to XAUTOCLAIM and XREADGROUP with a COUNT.
use responses_api_store.Common.{ℕ, String, Option, List, ◌≡◌, ◌≤◌, ok, length, All}
use responses_api_store.Streams.{Streams, Entry, ReadConnection}

pub record ReplyLaws (World : Type 0) (s : Streams World) : Type 0 where
  pub xautoclaim_count :
      (k group consumer : String) (idle : ℕ) (cursor : String) (count : ℕ) (w : World)
      {reply : String × List Entry}
      → (s.xautoclaim k group consumer idle cursor count w).0 ≡ ok reply
      → length reply.1 ≤ count
  pub xreadgroup_count :
      (c : ReadConnection) (k group consumer : String) (count : ℕ) (block : Option ℕ) (w : World)
      {replies : List (String × List Entry)}
      → (s.xreadgroup c k group consumer count block w).0 ≡ ok replies
      → All (λ reply. length reply.1 ≤ count) replies
