-- ===== src/Server/Routes.antt =====
-- crates/server/src/metrics.rs: what the two routes answer to one query.
use responses_api_store.Common.{
  ℕ, String, Bool, true, false, Option, none, some, ◌≡◌, refl, ok, err, panic, Result, Bool-cases,
  inl, inr,
}
use responses_api_store.Common.Text.{is_blank}
use responses_api_store.Error.{StoreError}
use responses_api_store.Serde.{Json}
use responses_api_store.Redis.{Redis}
use responses_api_store.Streams.{Streams}
use responses_api_store.Store.Transaction.{StoreM}
use responses_api_store.Queue.Entries.{BackgroundQueue}
use responses_api_store.Queue.Stats.{BackgroundQueueStats, stats}
use responses_api_store.Server.Metrics.{
  from_store, HttpResponse, StatsResponse, stats_json, error_json, text, prometheus_body,
  stats_for_query, background_queue_json, background_queue_prometheus, into_response, serve,
}

abbrev pub Answered : Type 0 → Type 0
Answered W = Result Unit HttpResponse × W

abbrev pub reported : String → BackgroundQueueStats → StatsResponse
reported group found = record {
  consumer_group = group;
  pending = found.pending;
  in_progress = found.in_progress;
  workload = found.workload;
}

module _ (j : Json) (r : Redis) (s : Streams r.World) (rounds : ℕ) (queue : BackgroundQueue)
    (exclusive : StoreM j r Bool) where
  open r use {World}

  -- The statistics of a group, asked for in this world.
  abbrev pub asked : String → World → Result StoreError BackgroundQueueStats × World
  asked group w = stats j r s rounds queue group exclusive w

  abbrev refusal : World → Answered World
  refusal w = (ok (400, error_json "consumer_group query parameter is required"), w)

  -- The answers of the JSON route and of the text route. Without a group both refuse, and nothing is
  -- touched. Else the statistics of the group are asked for once: both give them, or both give the
  -- status and the message of the same error.
  pub data Answers : Option String → World → Answered World → Answered World → Type 0 where
    no_group : {w : World} → Answers none w (refusal w) (refusal w)
    blank_group :
        {group : String} {w : World}
        → is_blank group ≡ true
        → Answers (some group) w (refusal w) (refusal w)
    found :
        {group : String} {w u : World} {a : BackgroundQueueStats}
        → is_blank group ≡ false
        → asked group w ≡ (ok a, u)
        → Answers
            (some group)
            w
            (ok (200, stats_json (reported group a)), u)
            (ok (200, text "text/plain; version=0.0.4; charset=utf-8" (prometheus_body group a)), u)
    failed :
        {group : String} {w u : World} {e : StoreError}
        → is_blank group ≡ false
        → asked group w ≡ (err e, u)
        → Answers
            (some group)
            w
            (ok ((from_store e).status, error_json (from_store e).message), u)
            (ok ((from_store e).status, error_json (from_store e).message), u)
    panicked :
        {group : String} {w u : World}
        → is_blank group ≡ false
        → asked group w ≡ (panic, u)
        → Answers (some group) w (panic, u) (panic, u)

  answered :
      (group : String) (w : World) (x : Result StoreError BackgroundQueueStats)
      → is_blank group ≡ false
      → (asked group w).0 ≡ x
      → Answers
          (some group)
          w
          (serve j r s rounds queue exclusive "/metrics/background-queue" (some group) w)
          (serve j r s rounds queue exclusive "/metrics" (some group) w)
  unfolding serve background_queue_json background_queue_prometheus into_response stats_for_query
  answered group w (ok a) full e = rw (full, e) (found full (rw e refl))
  answered group w (err x) full e = rw (full, e) (failed full (rw e refl))
  answered group w panic full e = rw (full, e) (panicked full (rw e refl))

  pub serve-Answers :
      (group : Option String) (w : World)
      → Answers group w
          (serve j r s rounds queue exclusive "/metrics/background-queue" group w)
          (serve j r s rounds queue exclusive "/metrics" group w)
  unfolding serve background_queue_json background_queue_prometheus into_response stats_for_query
  serve-Answers none w = no_group
  serve-Answers (some group) w = elim (Bool-cases (is_blank group)) [
    | inl blank ↦ rw blank (blank_group blank)
    | inr full ↦ answered group w (asked group w).0 full refl
  ]
