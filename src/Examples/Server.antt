-- ===== src/Examples/Server.antt =====
-- A stream in memory with one idle entry and one new entry, over the server of Examples/Memory.antt.
use responses_api_store.Common.{
  take, none, false, Option, err, Result, ℕ, String, ◌==◌, true, some, List, [], ◌∷◌, ◌≢◌, arith,
  ok, panic, ltb, length, ◌≤◌, ok-injective, Bool-cases, inl, inr, if◌then◌else◌,
}
use responses_api_store.Error.{RedisError}
use responses_api_store.Streams.{Streams, Entry, GroupInfo}
use responses_api_store.Streams.Replies.{ReplyLaws}
use responses_api_store.Queue.Ordered.{ids_of}
use responses_api_store.Examples.Stream.{Entries, range_from}
use responses_api_store.Queue.Entries.{BackgroundQueue, ClaimOptions}
use responses_api_store.Queue.Calm.{CalmLaws}
use responses_api_store.Examples.Memory.{Memory, memory, write}
use responses_api_store.Examples.Samples.{sample, decode}

abbrev pub idle : Entry
idle = record { id = "1000-0"; response_id = some "resp_1" }

abbrev pub fresh : Entry
fresh = record { id = "1000-1"; response_id = some "resp_2" }

abbrev pub group : GroupInfo
group = record { name = "workers"; last_delivered_id = "1000-0"; lag = some 1 }

abbrev first_of : ℕ → Entry → List Entry
first_of count e = if ltb 0 count then e ∷ [] else []

first_of-length : (count : ℕ) (e : Entry) → length (first_of count e) ≤ count
first_of-length count e = ground arith

-- Two entries in the stream, and two that were claimed, of which one was trimmed from the stream.
abbrev pub in_stream : Entries
in_stream = ("1000-0", (1000, 0)) ∷ ("1000-1", (1000, 1)) ∷ []

abbrev pub in_progress : Entries
in_progress = ("999-5", (999, 5)) ∷ ("1000-0", (1000, 0)) ∷ []

abbrev no_number : RedisError
no_number = record {
  is_timeout = false;
  is_connection_refusal = false;
  message = "attempt to compare nil with number";
}

abbrev run_script : String → Option (Option String × ℕ) → Memory → Result RedisError ℕ × Memory
run_script k none m = (err no_number, m)
run_script k (some (none, n)) m = (ok n, m)
run_script k (some (some v, n)) m = (ok n, write k (some v) m)

abbrev pub server : Streams Memory
server = record {
  xadd_maxlen = λ k n id m. (ok tt, m);
  xadd = λ k id m. (ok tt, m);
  xgroup_create_mkstream = λ k g start m. (ok tt, m);
  exists = λ k m. (ok true, m);
  xinfo_groups = λ k m. (ok (group ∷ []), m);
  xrange_count = λ k from to n m. (ok (take n (ids_of (range_from in_stream from))), m);
  xpending_count = λ k g from to n m. (ok (take n (ids_of (range_from in_progress from))), m);
  xack = λ k g id m. (ok 1, m);
  xautoclaim = λ k g c time cursor n m. (ok ("0-0", first_of n idle), m);
  connect_with_timeout = λ ms m. (ok tt, m);
  xreadgroup = λ conn k g c n block m. (ok ((k, first_of n fresh) ∷ []), m);
  script = λ k run m. run_script k (run (m.now k)) m;
  info_server = λ m. (ok "redis_version:7.2.4", m);
}

pub server-ReplyLaws : ReplyLaws Memory server
server-ReplyLaws = record {
  xautoclaim_count = λ k g c time cursor n m h. rw (← ok-injective h) (first_of-length n idle);
  xreadgroup_count = λ conn k g c n block m h. rw (← ok-injective h) (first_of-length n fresh, tt);
}

decode-calm : (t : String) → decode t ≢ panic
decode-calm t = elim (Bool-cases (t == "queued")) [
  | inl q ↦ rw q (λ h. cc)
  | inr q ↦ elim (Bool-cases (t == "in_progress")) [
    | inl p ↦ rw (q, p) (λ h. cc)
    | inr p ↦ rw (q, p) (λ h. cc)
  ]
]

pub server-CalmLaws : CalmLaws sample memory server
server-CalmLaws = record {
  decode = decode-calm;
  get = λ k w h. cc;
  xack = λ k g id w h. cc;
  xautoclaim = λ k g c time cursor n w h. cc;
  connect_with_timeout = λ ms w h. cc;
  xreadgroup = λ conn k g c n block w h. cc;
}

abbrev pub queue : BackgroundQueue
queue = record { stream_key = "jobs"; stream_maxlen = 100 }

abbrev pub options : ClaimOptions
options = record {
  consumer_group = "workers";
  consumer_name = "w1";
  count = 2;
  block_ms = 0;
  autoclaim_min_idle_ms = 1000;
}
