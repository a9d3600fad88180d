-- ===== src/Server/Dispatch.antt =====
-- crates/velobus/src/main.rs, lines 439 to 515: an operation is carried out on the broker's two parts,
-- the store and the scheduler of calls. What the JSON library makes of the figures, the checksums and
-- the disk's answers are arguments.
pub mod Replies
use velo_bus.Prelude.{ℕ, ◌%◌, ◌^◌, Bool, List, [], ◌∷◌, ◌++◌, length, Option, none, some, be_bytes}
use velo_bus.Protocol.Codes
use velo_bus.Protocol.Types.{Bytes, Error, Result, ok, err, bind, new_error, Request}
use velo_bus.Protocol.Types
use velo_bus.Wal.{AppendIo}
use velo_bus.Store.{Store}
use velo_bus.Store
use velo_bus.Store.Fetch.{FetchResult}
use velo_bus.Store.Fetch
use velo_bus.Store.Operations
use velo_bus.Store.Operations.{StoreStats}
use velo_bus.Rpc.{Reply, Job}
use velo_bus.Rpc.Figures
use velo_bus.Rpc.Figures.{Figures}
use velo_bus.Rpc
use velo_bus.Rpc.Routes.{register}
use velo_bus.Rpc.Requests.{Ticket, request, begin_take, complete}

-- What all connections share.
pub record Broker : Type 0 where
  pub store : Store
  pub rpc : Rpc.State

-- How the blocking task of a store operation goes: it runs; it finds the lock poisoned; or it panics
-- or is cancelled, and leaves some store.
pub data Blocking : Type 0 where
  runs : Blocking
  poisoned : Blocking
  fails : Store → Blocking

-- The readings of the clock, the disk's answers to a write, and how a blocking task goes.
pub record World : Type 0 where
  pub first : ℕ
  pub second : ℕ
  pub io : AppendIo
  pub blocking : Blocking

-- An operation has its result, waits for its ticket, or goes on to take a call; or it panics.
pub data Progress : Type 0 where
  done : Result Bytes → Broker → Progress
  waits : Ticket → Broker → Progress
  takes : Broker → Progress
  panics : Progress

-- `?; Ok(Vec::new())`
abbrev pub no_body : Result (Unit {0}) → Result Bytes
no_body r = bind r (λ _. ok [])

-- The reply to an RPC whose call has been answered.
unfoldable pub rpc_body : Bytes → Bytes
rpc_body result = be_bytes 4 (length result % 2 ^ 32) ++ result

abbrev pub rpc_reply : Reply → Result Bytes
rpc_reply r = bind r (λ result. ok (rpc_body result))

-- The reply to a TAKE: a job, or that there is none.
unfoldable pub take_body : Option Job → Bytes
take_body none = 0 ∷ []
take_body (some job) = Rpc.encode job

abbrev pub take_reply : Result (Option Job) → Result Bytes
take_reply r = bind r (λ o. ok (take_body o))

unfoldable pub requested : Broker → Option (Result Ticket × Rpc.State) → Progress
requested b none = panics
requested b (some (err e, s)) = done (err e) (record b { rpc = s })
requested b (some (ok ticket, s)) = waits ticket (record b { rpc = s })

unfoldable pub began : Broker → Result (Unit {0}) × Rpc.State → Progress
began b (err e, s) = done (err e) (record b { rpc = s })
began b (ok _, s) = takes (record b { rpc = s })

unfoldable pub after_complete : Broker → Option (Result (Unit {0}) × Rpc.State) → Progress
after_complete b none = panics
after_complete b (some (r, s)) = done (no_body r) (record b { rpc = s })

-- `spawn_blocking` of an operation on the locked store.
unfoldable pub on_store : Broker → Blocking → (Store → Result Bytes × Store) → Progress
on_store b runs operation = let (r, s) = operation b.store in done r (record b { store = s })
on_store b poisoned operation =
    done (err (new_error Codes.storage "store lock poisoned; restart required")) b
on_store b (fails s) operation =
    done (err (new_error Codes.storage "store worker failed; restart required"))
      (record b { store = s })

module _ (crc32 : Bytes → ℕ) (stats_body : StoreStats → Figures → Bytes) where
  -- `dispatch`, up to where an operation waits.
  unfoldable pub dispatch : Broker → ℕ → ℕ → World → Request → Progress
  unfolding requested began after_complete on_store
  dispatch b connection connections world Types.ping = done (ok []) b
  dispatch b connection connections world (Types.register route concurrency queue_limit) =
      let (r, s) = register b.rpc connection route concurrency queue_limit in
      done (no_body r) (record b { rpc = s })
  dispatch b connection connections world (Types.rpc route timeout_ms payload) =
      requested b (request b.rpc connection route timeout_ms payload world.first world.second)
  dispatch b connection connections world (Types.take wait_ms) =
      began b (begin_take b.rpc connection)
  dispatch b connection connections world (Types.complete call_id failed payload) =
      after_complete b (complete b.rpc connection call_id failed payload world.first)
  dispatch b connection connections world (Types.publish records) =
      on_store b world.blocking (λ store. Store.publish crc32 store records world.io)
  dispatch b connection connections world (Types.fetch f) = on_store b world.blocking (λ store.
      let (r, s) = Store.Operations.fetch store f in
      (bind r (λ result. ok (Store.Fetch.encode result)), s))
  dispatch b connection connections world Types.stats = on_store b world.blocking (λ store.
      (ok (stats_body (Store.Operations.stats store connections) (Figures.stats b.rpc)), store))
  dispatch b connection connections world (Types.hello version token) =
      on_store b world.blocking
        (λ store. (err (new_error Codes.protocol "invalid request state"), store))
