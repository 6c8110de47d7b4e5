-- ===== src/Server/Metrics.antt =====
-- crates/server/src/metrics.rs: the statistics over HTTP. How a body is written is the web
-- framework's.
use Prim.Native.Char.{code}
use Prim.Native.String.{◌++◌}
use responses_api_store.Common.{
  ◌==◌, Result, ok, err, panic, ℕ, String, Bool, Option, none, some, eqb, if◌then◌else◌,
}
use responses_api_store.Common.Text.{is_blank, show}
use responses_api_store.Common.Exec.{Exec, pure, raise, match_result, ◌>>=◌}
use responses_api_store.Error.{
  StoreError, not_found, invalid_argument, failed_precondition, unavailable, storage, serialization,
}
use responses_api_store.Serde.{Json}
use responses_api_store.Redis.{Redis}
use responses_api_store.Streams.{Streams}
use responses_api_store.Store.Transaction.{StoreM}
use responses_api_store.Queue.Entries.{BackgroundQueue}
use responses_api_store.Queue.Stats.{BackgroundQueueStats, stats}

-- HTTP status codes are numbers.
pub record StatsQueryError : Type 0 where
  pub status : ℕ
  pub message : String

abbrev pub stats_error : ℕ → String → StatsQueryError
stats_error status message = record { status = status; message = message }

unfoldable pub from_store : StoreError → StatsQueryError
from_store (not_found message) = stats_error 404 message
from_store (invalid_argument message) = stats_error 400 message
from_store (unavailable message) = stats_error 503 message
from_store (storage e) = stats_error 503 ("storage unavailable: " ++ e.message)
from_store (serialization message) = stats_error 500 message
from_store (failed_precondition message) = stats_error 409 message

-- `str::replace` of one character
unfoldable pub replace : ℕ → String → String → String
replace from to String.[] = String.[]
replace from to (String.◌∷◌ c s) =
    let rest = replace from to s in if eqb (code c) from then to ++ rest else String.◌∷◌ c rest

abbrev pub backslash : ℕ
backslash = 92

abbrev pub newline : ℕ
newline = 10

abbrev pub quote : ℕ
quote = 34

unfoldable pub escape_prometheus_label_value : String → String
unfolding replace
escape_prometheus_label_value value =
    replace quote "\\\"" (replace newline "\\n" (replace backslash "\\\\" value))

abbrev pub gauge : String → String → String → ℕ → String
gauge name help group value =
    "# HELP "
    ++ (name
        ++ (" "
            ++ (help
                ++ ("\n# TYPE "
                    ++ (name
                        ++ (" gauge\n"
                            ++ (name
                                ++ ("{consumer_group=\""
                                    ++ (group ++ ("\"} " ++ (show value ++ "\n")))))))))))

unfoldable pub prometheus_body : String → BackgroundQueueStats → String
prometheus_body consumer_group stats =
    let group = escape_prometheus_label_value consumer_group in
    gauge "responses_api_store_background_queue_workload"
      "Background queue workload for autoscaling" group stats.workload
    ++ (gauge "responses_api_store_background_queue_pending" "Jobs waiting to be claimed" group
          stats.pending
        ++ gauge "responses_api_store_background_queue_in_progress"
            "Jobs claimed but not yet acknowledged" group stats.in_progress)

pub record StatsResponse : Type 0 where
  pub consumer_group : String
  pub pending : ℕ
  pub in_progress : ℕ
  pub workload : ℕ

-- A body is JSON, of the statistics or of an error with its message, or a text with its content type.
pub data Body : Type 0 where
  stats_json : StatsResponse → Body
  error_json : String → Body
  text : String → String → Body

-- The status and the body of an HTTP response.
abbrev pub HttpResponse : Type 0
HttpResponse = ℕ × Body

unfoldable pub into_response : StatsQueryError → HttpResponse
into_response e = (e.status, error_json e.message)

-- `Result::into_response` of a handler
abbrev pub respond : {A : Type 0} → (A → Body) → Result StatsQueryError A → Result Unit HttpResponse
respond body (ok a) = ok (200, body a)
respond body (err e) = ok (into_response e)
respond body panic = panic

abbrev pub responded :
    {W A : Type 0} → (A → Body) → Exec W StatsQueryError A → Exec W Unit HttpResponse
responded body handler w = (respond body (handler w).0, (handler w).1)

module _ (j : Json) (r : Redis) (s : Streams r.World) where
  open r use {World}

  abbrev pub stats_of_group :
      ℕ
      → BackgroundQueue
      → StoreM j r Bool
      → String
      → Exec World StatsQueryError (String × BackgroundQueueStats)
  stats_of_group rounds queue exclusive group =
      match_result (stats j r s rounds queue group exclusive) (λ found. pure (group, found))
        (λ e. raise (from_store e))

  unfoldable pub stats_for_query :
      ℕ
      → BackgroundQueue
      → StoreM j r Bool
      → Option String
      → Exec World StatsQueryError (String × BackgroundQueueStats)
  stats_for_query rounds queue exclusive none =
      raise (stats_error 400 "consumer_group query parameter is required")
  stats_for_query rounds queue exclusive (some group) =
      if is_blank group
      then raise (stats_error 400 "consumer_group query parameter is required")
      else stats_of_group rounds queue exclusive group

  -- The handler of the JSON route.
  unfoldable pub background_queue_json :
      ℕ
      → BackgroundQueue
      → StoreM j r Bool
      → Option String
      → Exec World StatsQueryError StatsResponse
  background_queue_json rounds queue exclusive consumer_group = do
    reply ← stats_for_query rounds queue exclusive consumer_group
    pure (record {
      consumer_group = reply.0;
      pending = reply.1.pending;
      in_progress = reply.1.in_progress;
      workload = reply.1.workload;
    })

  unfoldable pub background_queue_prometheus :
      ℕ → BackgroundQueue → StoreM j r Bool → Option String → Exec World StatsQueryError String
  background_queue_prometheus rounds queue exclusive consumer_group = do
    found ← stats_for_query rounds queue exclusive consumer_group
    pure (prometheus_body found.0 found.1)

  -- The router of `serve`, for a GET of a path with the parameter of its query. A path without a
  -- route is answered with 404 by the web framework.
  unfoldable pub serve :
      ℕ → BackgroundQueue → StoreM j r Bool → String → Option String → Exec World Unit HttpResponse
  unfolding background_queue_json background_queue_prometheus into_response
  serve rounds queue exclusive path consumer_group =
      if path == "/metrics/background-queue"
      then responded stats_json (background_queue_json rounds queue exclusive consumer_group)
      else if path == "/metrics"
      then responded (λ body. text "text/plain; version=0.0.4; charset=utf-8" body)
          (background_queue_prometheus rounds queue exclusive consumer_group)
      else pure (404, text "" "")
