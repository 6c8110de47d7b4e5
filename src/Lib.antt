-- ===== src/Lib.antt =====
-- A model of responses-api-store: a gRPC service that keeps responses of a language-model API in
-- Redis and hands background responses to workers over a Redis stream.
--
-- The parts of the program, and how they interact. A response record (crates/core/src/model.rs) is
-- stored as JSON under a key of Redis by ResponseStore (crates/core/src/store.rs). A background
-- response is queued, claimed by a worker, completed or failed; these transitions are optimistic
-- transactions, WATCH, read, MULTI, SETEX, EXEC, that are retried after a conflict. BackgroundQueue
-- (crates/core/src/queue.rs) adds the ids of queued responses to a stream, claims entries for a
-- worker, idle ones of other workers first, and loads the records they stand for. The gRPC handlers
-- (crates/server/src/service.rs) check a request, convert records (crates/server/src/convert.rs) and
-- call the two; the statistics of the queue are also served over HTTP (crates/server/src/metrics.rs).
--
-- Which file models what:
--   Common        shared names; Common/Exec is the type of effects: an effect changes a world, and
--                 returns, fails or panics. Common/Text has the functions of `str` that are called.
--   Record        StoredResponse, BackgroundJob, PendingBackgroundJob of crates/core/src/model.rs
--   Error         crates/core/src/error.rs
--   Serde         the JSON library: a parameter, with its laws on objects
--   Redis         the Redis commands of the store: parameters; Redis/Watch has the documented
--                 behaviour of WATCH, MULTI and EXEC among other clients
--   Streams       the stream commands of the queue: parameters; Streams/Replies has the sizes of
--                 replies
--   Model         the functions of crates/core/src/model.rs under their names; Model/Build has what
--                 the builders build, Model/Age the age of a response
--   Store/Prepare the transitions of crates/core/src/store.rs as functions of the record;
--                 the theorems are in Store/Lifecycle, Diagram, Runs and Stamps, and in
--                 Store/Built for a record from its builder to its worker
--   Store/Transaction  transition_atomic, reconcile_stale_atomic, load and what they are made of;
--                 Store/Retry has the shape of the two retry loops; the theorems are in Store/Atomic
--                 and Store/Commit, and in Store/Stale and Store/Reconciled for stale records
--   Store/Operations   the methods of ResponseStore; the theorems on reads are in Store/Reads
--   Store/Spec    what the store promises, as a map from ids to records; Redis/Quiet has the
--                 documented behaviour of a server that has no other client, answers every command
--                 and expires no key meanwhile, and Store/Quiet with its children compares the
--                 methods with the map there
--   Queue/StreamId     the stream ids of crates/core/src/queue.rs; Queue/Order, Queue/Range
--   Queue/Entries, Queue/Claim   enqueueing, loads with retries, claim_jobs; Queue/Batch,
--                 Queue/Filled, Queue/Fill, Queue/Calm, Queue/Keeps and Queue/Position have the
--                 theorems
--   Queue/Stats, Queue/Cursor    the statistics and the cursor script of crates/core/src/queue.rs;
--                 Queue/Ordered and Queue/Sorted have the documented meaning of
--                 ranges; the theorems are in Queue/Pages, Queue/Counts and Queue/Forward
--   Store/Capabilities  the Redis version and the cell that keeps it; Store/Version
--   Server/Convert     crates/server/src/convert.rs, with Server/RoundTrip
--   Server/Service, Server/Jobs  the handlers of crates/server/src/service.rs, with Server/Limits
--                 and Server/Enqueue
--   Server/Metrics     crates/server/src/metrics.rs, with Server/Label and Server/Routes
--   Config        crates/core/src/config.rs, with Config/Valid
--   Server/Start  crates/server/src/main.rs and ResponsesApiStoreService::new, over Store/Connect,
--                 Queue/Connect and the parameters of Redis/Opening; Server/Startup
--   Client        crates/client/src: Client/Error, Client/Convert, Client/Calls over the generated
--                 stub (Client/Rpc, a parameter), Client/Connect; Client/Agree and Client/Sent compare
--                 its records with those of the server, Client/Classes its errors. Client/Loopback
--                 joins it with the handlers, Client/Spec is what its calls should do to the map of
--                 Store/Spec, and Client/Quiet compares the two
--   Probe         crates/probe/src/main.rs, with Probe/Address
--   Examples      concrete JSON values, a Redis server in memory, and the theorems at them
--
-- Conventions. A Rust `?` is a step of the effect type; `expect` and an index out of place are a
-- panic, which is a result of its own. The world stands for the server, all its clients and time: a
-- command may change it in any way that the named laws allow, so that other clients act between two
-- commands. A field `record` is called `stored`, since the word is taken.
--
-- Bounds. The loops over attempts have the program's own bounds (16 transactions, 3 loads) as
-- structural recursion. The two loops that count entries page by page have no bound in the source;
-- here they have a number of rounds, which is enough if it is above the number of entries, and
-- running out of them is a panic. Times to live are compared with the map up to 9 * 10^15 seconds,
-- about where Redis begins to refuse them. A `u64` that is printed has at most 20 digits, which is
-- the bound of `show`.
--
-- Not modelled: what opening a connection or a socket does (crates/server/src/main.rs and
-- crates/client/src/lib.rs call it as a parameter), the Go client (sdk/go), the example of the client
-- (crates/client/examples), logging, the delays between attempts, the mutex around the transaction
-- connection (its holder is the only user of that connection in a transaction).
pub mod Common
pub mod Record
pub mod Error
pub mod Serde
pub mod Redis
pub mod Streams
pub mod Model
pub mod Store
pub mod Queue
pub mod Server
pub mod Client
pub mod Probe
pub mod Config
pub mod Examples
