-- ===== src/Server/Limits.antt =====
-- crates/server/src/service.rs: how much ClaimBackgroundJobs hands out.
use responses_api_store.Common.{
  collect, ℕ, ◌+◌, ◌≤◌, String, Option, List, [], ◌∷◌, ◌≡◌, refl, ok, arith, length, map,
  ok-injective, map_err-ok, Result, bind-eq-ok,
}
use responses_api_store.Common.Exec.{lift, map_error, ignore, bind-ok}
use responses_api_store.Serde.{Json}
use responses_api_store.Redis.{Redis}
use responses_api_store.Streams.{Streams}
use responses_api_store.Streams.Replies.{ReplyLaws}
use responses_api_store.Queue.Entries.{ClaimBatchResult, get_autoclaim_cursor}
use responses_api_store.Queue.Claim.{claim_jobs}
use responses_api_store.Queue.Cursor.{set_autoclaim_cursor}
use responses_api_store.Queue.Filled.{IsFilled, IsFilled-IsCoherent}
use responses_api_store.Queue.Fill.{claim_jobs-IsFilled}
use responses_api_store.Server.Convert.{Status, map_claim_store_error, core_job_to_proto}
use responses_api_store.Server.Service.{ResponsesApiStoreService, call}
use responses_api_store.Server.Jobs.{
  max_claim_count, claim_count, ClaimRequest, ClaimResponse, options_of, require_both,
  claim_background_jobs,
}

claim_count-le : (count : ℕ) → claim_count count ≤ max_claim_count
unfolding claim_count
claim_count-le count = ground arith

collect-length :
    {A B : Type 0} (f : A → Result Status B) (xs : List A) (ys : List B)
    → collect f xs ≡ ok ys
    → length ys ≡ length xs
collect-length f [] ys h = rw (← ok-injective h) refl
collect-length f (x ∷ xs) ys h =
    let (y, h₁, p) = bind-eq-ok (f x) _ h in
    let (more, h₂, q) = bind-eq-ok (collect f xs) _ h₁ in
    rw (← ok-injective h₂) (omega (arith, collect-length f xs more q))

module _ (j : Json) (r : Redis) (s : Streams r.World) (laws : ReplyLaws r.World s) where
  open j use {Value}
  open r use {World}

  pub claim_background_jobs-bounded :
      (tonumber : String → Option ℕ) (self : ResponsesApiStoreService) (request : ClaimRequest)
      (w : World) (a : ClaimResponse)
      → (claim_background_jobs j r s tonumber self request w).0 ≡ ok a
      → (length a.jobs + length a.pending_jobs ≤ claim_count request.count)
        × (claim_count request.count ≤ max_claim_count)
        × ((cursor : String) × (batch : ClaimBatchResult Value) × IsFilled j r s self.queue
              self.store
              (options_of request)
              cursor
              batch
            × (collect (core_job_to_proto j) batch.jobs ≡ ok a.jobs)
            × (a.pending_jobs ≡ batch.pending_jobs)
            × (a.pending_stream_ids ≡ map (λ p. p.stream_id) a.pending_jobs))
  unfolding claim_background_jobs
  claim_background_jobs-bounded tonumber self request w a h =
      let (x, m, e₁) =
        bind-ok
          (require_both j r s request.consumer_group request.consumer_name
            "consumer_group and consumer_name are required")
          _ w h in
      let h₁ = rw e₁ at h in
      let (cursor, m₁, e₂) =
        bind-ok (call j r s (get_autoclaim_cursor j r s self.queue request.consumer_group)) _ _
          h₁ in
      let h₂ = rw e₂ at h₁ in
      let claim = claim_jobs j r s self.queue self.store (options_of request) cursor in
      let (claimed, m₂, e₃) = bind-ok (map_error map_claim_store_error claim) _ _ h₂ in
      let h₃ = rw e₃ at h₂ in
      let (y, m₃, e₄) =
        bind-ok
          (ignore (set_autoclaim_cursor tonumber j r s self.queue request.consumer_group claimed.1))
          _ _ h₃ in
      let h₄ = rw e₄ at h₃ in
      let (jobs, m₄, e₅) = bind-ok (lift (collect (core_job_to_proto j) claimed.0.jobs)) _ _ h₄ in
      let h₅ = rw e₅ at h₄ in
      let filled =
        claim_jobs-IsFilled j r s laws self.queue self.store (options_of request) cursor _ claimed
          (map_err-ok map_claim_store_error _ m₂) in
      let (old, new, b₁, b₂, idle, p, read, q, e, le) = filled in
      rw (← ok-injective h₅) (
        omega (arith, le, collect-length (core_job_to_proto j) claimed.0.jobs jobs m₄),
        claim_count-le request.count,
        (
          cursor,
          claimed.0,
          filled,
          m₄,
          refl,
          IsFilled-IsCoherent j r s self.queue self.store (options_of request) cursor claimed.0
              filled,
        ),
      )
