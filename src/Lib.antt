-- ===== src/Lib.antt =====
-- Verification of the VeloBus broker (crates/velobus): a model of its protocol, its write-ahead log,
-- its event store and its scheduler of calls, and what is proved of them.
--
-- The parts and how they interact. A request's body is decoded by Protocol (crates/velobus/src/
-- protocol.rs). PUBLISH, FETCH and STATS go to the Store (crates/velobus/src/store.rs), which keeps
-- the history in memory and, in disk mode, appends each batch to the log of Wal (crates/velobus/
-- src/wal.rs) before it commits it; at start it replays the log. REGISTER, RPC, TAKE and COMPLETE
-- go to the scheduler of Rpc (crates/velobus/src/rpc.rs), which keeps connections, workers, routes
-- with their queues, and calls. Server (crates/velobus/src/main.rs) reads the command line, checks
-- the first frame of a connection, and then reads frames, carries their requests out on store and
-- scheduler, up to 32 at a time, and writes the responses.
--
-- Prelude: shared names; lists over the native numbers, membership, maps, big-endian words.
-- Protocol: Codes (limits and error codes), Types (`Record`, `Request`, ...), Utf8, Reader (`Reader`
--   as a parser monad), Decode (`decode_request` and its arms), Encode; Wire states the layout of
--   requests independently of the code; Reads and Consumes are the two directions of parsing, which
--   RoundTrip (with Records) and Strict (with StrictRecords) use.
-- Wal: the state and `append`; Open holds `Wal::open`, its loop cut into rounds; Layout says what a
--   file of batches is; Recovery and Replay prove what opening makes of it,
--   Termination that it ends, and Keeping, with Cutting, what it leaves of the file.
-- Store: the state, `publish` and `disk`; Fetch holds the scan of `fetch`, Operations `fetch` and
--   `stats`. Scanning, Selecting, Stepping, Sorting, Fetching, Delivery, Mapping, Latest and
--   Progress prove FETCH; Publishing, Outcomes, Durability, Restart, Guarantees, Crash and Uncertain
--   prove PUBLISH and the restart.
-- Rpc: the state; Calls (`remove`, `expire`, `cancel`), Routes (`register`, `disconnect`),
--   Requests (`request`, `try_take`, `complete`, tickets). Keys, Ledger, Moves, Expiry, Invariant
--   and Reachable carry the invariant to Steps, where the locked sections are a step relation;
--   Completion is about COMPLETE, and Dispatching about the jobs that TAKE hands out. Queues holds
--   the invariant of routes, queues and workers, which Removal, Stability, Joining, Admission,
--   Sections, Silencing and Departure carry through the sections, to Panics; Shrinking and Draining
--   are about the loop of `try_take`, Cleaning and Order about the order of calls. Slots holds the
--   counts of running calls, with Counting, Releases, Easing, Joining, Sections and Departure for
--   Capacity. Lookups is about maps, Closure about what expiry and cancellation keep, and Sections
--   about what each section keeps, with Outcomes for how it ends. Places, Attending, Placing and
--   Handing carry the places of waiting calls to Coverage. Waking is TAKE as a whole; Work, Calm,
--   Entering, Serving, Steps and Idling show for Wakeful what wakes a worker. Figures is `stats`,
--   with Matching, Ordering and Sums for Agreement. The modules named Runs are concrete runs.
-- Server: `read_frame` and `response_frame`, and in Framing that they fit together. Config is the
--   command line and `main`, with Numbers, Accepts, Settings, Bounds and CommandLine about it;
--   Handshake the first frame; Connection the main loop, the spawned operations and the writer as
--   moves on one state, with Counts, Receiving, Writing and Balance about them; Dispatch is
--   `dispatch`, and its Replies are about what clients get; Serve is the start and the accept loop.
--
-- Conventions. Bytes and machine integers are native numbers; sums of 64 bits wrap (`+u64`),
-- counters saturate. A string is its bytes, with the check of UTF-8 written out. The operating
-- system's calls in Wal succeed or fail as an argument says, and a failing write leaves a prefix.
-- `crc32fast::hash` is a parameter, of which only the range is assumed. In Rpc the mutex makes each
-- locked section atomic, so that any sequence of sections is an interleaving; the clock's readings
-- are arguments; replies and wake-ups are logs in the state, and a TAKE that waits is woken by an
-- entry behind the place in the log where its waiter was enabled; a panic of `expect` or `unwrap`
-- is an outcome. The loop of `Wal::open` runs on fuel of one round for each byte of the file and
-- one more, and each round that goes on consumes a frame of at least 31 bytes. The loop of
-- `try_take` runs on fuel that the caller gives, and the length of the queue and one more is
-- enough; the steps of the scheduler are its single rounds.
--
-- The blocking task of a store operation runs, finds the lock poisoned, or fails, as an argument of
-- `dispatch` says.
--
-- A connection is modelled up to its clean-up; its loop, its operations and its writer each move
-- between two points where they wait, and a channel's receiver gets what was sent first. When the
-- loop has ended, be it by a failed write, operations and writer are aborted and move no more. Socket
-- addresses are read by the standard library, a parameter of Config.
--
-- Not modelled: sockets and their timeouts, signals, the asynchronous runtime, the JSON text of the
-- statistics, the client in TypeScript, scripts.
pub mod Prelude
pub mod Protocol
pub mod Wal
pub mod Store
pub mod Rpc
pub mod Server
