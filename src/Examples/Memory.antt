-- ===== src/Examples/Memory.antt =====
-- A Redis server in memory with one client, whose commands all succeed.
use responses_api_store.Common.{
  ℕ, ◌≤◌, String, ◌==◌, Bool, true, false, Option, none, some, List, [], ◌∷◌, ◌≡◌, refl, arith,
  eq_refl, ok, ok-ne-panic, if◌then◌else◌,
}
use responses_api_store.Common.Int.{ℤ, pos, negsuc, pos_part}
use responses_api_store.Redis.{Redis, Connection, shared, transaction}
use responses_api_store.Redis.Watch.{WatchLaws}
use responses_api_store.Redis.Quiet.{QuietLaws, max_ttl}

pub record Memory : Type 0 where
  -- what each key holds, and what it has held
  pub now : String → Option String
  pub past : String → List (Option String)
  pub watched : Option String
  pub in_multi : Bool
  pub queued : Option (String × String × ℕ)
  pub seconds : ℕ

abbrev pub empty : Memory
empty = record {
  now = λ k. none;
  past = λ k. [];
  watched = none;
  in_multi = false;
  queued = none;
  seconds = 1_746_500_000;
}

abbrev pub write : String → Option String → Memory → Memory
write k v m = record m {
  now = λ i. if k == i then v else m.now i;
  past = λ i. if k == i then m.now k ∷ m.past k else m.past i;
}

abbrev set_ex : Connection → String → String → ℕ → Memory → Memory
set_ex shared k p t m = write k (some p) m
set_ex transaction k p t m =
    if m.in_multi then record m { queued = some (k, p, t) } else write k (some p) m

abbrev run_queued : Option (String × String × ℕ) → Memory → Memory
run_queued none m = m
run_queued (some (k, p, t)) m = write k (some p) m

abbrev close : Memory → Memory
close m = record m { watched = none; in_multi = false; queued = none }

abbrev pub lasting : Option String → ℤ
lasting none = negsuc 1
lasting (some s) = pos 60

pub lasting-le : (o : Option String) → pos_part (lasting o) ≤ max_ttl
lasting-le none = omega arith
lasting-le (some s) = omega arith

abbrev pub memory : Redis
memory = record {
  World = Memory;
  clock = λ m. (some m.seconds, m);
  ping = λ m. (ok tt, m);
  get = λ c k m. (ok (m.now k), m);
  set_ex = λ c k p t m. (ok tt, set_ex c k p t m);
  del = λ k m. (ok tt, write k none m);
  ttl = λ k m. (ok (lasting (m.now k)), m);
  watch = λ k m. (ok tt, record m { watched = some k });
  unwatch = λ m. (ok tt, record m { watched = none });
  discard = λ m. (ok tt, close m);
  multi = λ m. (ok tt, record m { in_multi = true });
  exec = λ m. (ok true, close (run_queued m.queued m));
  reconnect = λ m. (ok tt, close m);
}

abbrev history : Memory → String → List (Option String)
history m k = m.now k ∷ m.past k

history-write :
    (k p : String) (m : Memory) → history (write k (some p) m) k ≡ some p ∷ m.now k ∷ m.past k
history-write k p m = rw eq_refl

pub memory-WatchLaws : WatchLaws memory
memory-WatchLaws = record {
  Watching = λ m k. m.watched ≡ some k;
  Unchanged = λ m k u. m.now k ≡ u;
  InMulti = λ m. m.in_multi ≡ true;
  Queued = λ m k p t. m.queued ≡ some (k, p, t);
  history = history;
  watch_begins = λ k w h. refl;
  get_keeps = λ k w h g. g;
  get_reads = λ k w h e. ground arith;
  ttl_keeps = λ k w h g. g;
  ttl_restores = λ k w e. e;
  multi_opens = λ w h. refl;
  multi_keeps = λ k w h g. g;
  multi_restores = λ k w e. e;
  set_ex_queues = λ k p t w h g. rw g refl;
  set_ex_keeps = λ k p t w h g e. rw g e;
  set_ex_restores = λ k p t w g e. rw g at e;
  exec_commits = λ k p t w h g q. (w.now k, w.past k, refl, rw (q, eq_refl));
}

abbrev pub memory_quiet : QuietLaws memory
memory_quiet = record {
  view = λ m. m.now;
  IsIdle = λ m. m.in_multi ≡ false;
  IsOpen = λ m. m.in_multi ≡ true;
  Queued = λ m k p t. m.queued ≡ some (k, p, t);
  clock_view = λ w i. refl;
  clock_idle = λ w h. h;
  ping_ok = λ w. refl;
  get_ok = λ c k w h. refl;
  get_view = λ c k w i. refl;
  get_idle = λ c k w h. h;
  set_ex_ok = λ k p t w h l. refl;
  set_ex_view = λ k p t w i h l. refl;
  set_ex_idle = λ k p t w h. h;
  del_ok = λ k w h. refl;
  del_view = λ k w i h. refl;
  del_idle = λ k w h. h;
  ttl_ok = λ k w h. (lasting (w.now k), refl, lasting-le (w.now k));
  ttl_view = λ k w i. refl;
  ttl_idle = λ k w h. h;
  watch_ok = λ k w h. refl;
  watch_view = λ k w i. refl;
  watch_idle = λ k w h. h;
  unwatch_calm = λ w. ok-ne-panic tt;
  unwatch_view = λ w i. refl;
  unwatch_idle = λ w h. h;
  discard_calm = λ w. ok-ne-panic tt;
  discard_view = λ w i. refl;
  discard_idle = λ w h. refl;
  multi_ok = λ w h. refl;
  multi_view = λ w i. refl;
  multi_opens = λ w h. refl;
  queue_ok = λ k p t w h. refl;
  queue_view = λ k p t w i h. rw h refl;
  queue_queues = λ k p t w h. rw h refl;
  exec_ok = λ k p t w q l. refl;
  exec_view = λ k p t w i q l. rw q refl;
  exec_idle = λ k p t w q l. refl;
}
