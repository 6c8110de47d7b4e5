-- ===== src/Queue/Position.antt =====
-- crates/core/src/queue.rs: the cursor that claim_jobs leaves in its argument.
use responses_api_store.Common.{
  String, true, ◌&&◌, some, ◌≡◌, sym, ap, ◌∙◌, inl, inr, ltb, ok, ok-injective, Bool-cases,
  map_err-ok,
}
use responses_api_store.Common.Exec.{bind-ok}
use responses_api_store.Error.{storage}
use responses_api_store.Serde.{Json}
use responses_api_store.Redis.{Redis}
use responses_api_store.Streams.{Streams}
use responses_api_store.Store.Transaction.{ResponseStore, redis}
use responses_api_store.Queue.Entries.{
  BackgroundQueue, ClaimOptions, ClaimBatchResult, jobs_from_stream_ids,
}
use responses_api_store.Queue.Claim.{
  claim_idle, autoclaim_batch, fill_batch, claim_jobs, cursor_after,
}

module _ (j : Json) (r : Redis) (s : Streams r.World) (self : BackgroundQueue)
    (store : ResponseStore) (o : ClaimOptions) (cursor : String) where
  open j use {Value}
  open r use {World}

  autoclaim_batch-cursor_after :
      (w : World) (b : ClaimBatchResult Value × String)
      → (autoclaim_batch j r s self store o cursor w).0 ≡ ok b
      → b.1 ≡ cursor_after j r s self o cursor w
  unfolding autoclaim_batch claim_idle cursor_after
  autoclaim_batch-cursor_after w b h =
      elim (Bool-cases (ltb 0 o.autoclaim_min_idle_ms && ltb 0 o.count)) [
        | inr f ↦ rw f (sym (ap (λ x. x.1) (ok-injective (rw f at h))))
        | inl t ↦
            let command =
              s.xautoclaim self.stream_key o.consumer_group o.consumer_name o.autoclaim_min_idle_ms
                cursor o.count in
            let h₀ = rw t at h in
            let (claimed, m, same₁) = bind-ok (redis j r command) _ w h₀ in
            let h₁ = rw same₁ at h₀ in
            let (batch, n, same₂) =
              bind-ok
                (jobs_from_stream_ids j r s self store o.consumer_group claimed.1 true
                  (some o.autoclaim_min_idle_ms))
                _ _ h₁ in
            rw (t, map_err-ok storage _ m) (sym (ap (λ x. x.1) (ok-injective (rw same₂ at h₁))))
      ]

  -- The cursor that a successful call returns is the one that its argument then holds.
  pub claim_jobs-cursor_after :
      (w : World) (b : ClaimBatchResult Value × String)
      → (claim_jobs j r s self store o cursor w).0 ≡ ok b
      → b.1 ≡ cursor_after j r s self o cursor w
  unfolding claim_jobs
  claim_jobs-cursor_after w b h =
      let (idle, m, same₁) = bind-ok (autoclaim_batch j r s self store o cursor) _ w h in
      let h₁ = rw same₁ at h in
      let (full, n, same₂) = bind-ok (fill_batch j r s self store o idle.0) _ _ h₁ in
      sym (ap (λ x. x.1) (ok-injective (rw same₂ at h₁))) ∙ autoclaim_batch-cursor_after w idle m
