-- ===== src/Rpc/Steps.antt =====
-- rpc.rs: any interleaving of the locked sections keeps the invariant.
use velo_bus.Prelude.{ℕ, ◌<◌, ◌^◌, ◌≡◌, subst, Bool, Option, some}
use velo_bus.Protocol.Types.{Result, Bytes}
use velo_bus.Rpc.{State, new, Job}
use velo_bus.Rpc.Calls.{cancel}
use velo_bus.Rpc.Moves.{Sound}
use velo_bus.Rpc.Expiry.{cancel-Sound}
use velo_bus.Rpc.Routes.{connected, register, disconnect}
use velo_bus.Rpc.Requests.{
  Ticket, request, returns, continues, take_round, begin_take, end_take, complete, Waited, wait,
}
use velo_bus.Rpc.Invariant.{new-Sound, connected-Sound, register-Sound, request-Sound}
use velo_bus.Rpc.Reachable.{
  take_round-Sound, begin_take-Sound, end_take-Sound, complete-Sound, wait-Sound, disconnect-Sound,
}
use velo_bus.Rpc.Outcomes.{Leaves, Rests, Stays}

-- A locked section of some connection, or of the wait or drop of some ticket.
pub data Step (s : State) : State → Type 0 where
  connects : (c : ℕ) → Step s (connected s c)
  registers :
      (w : ℕ) (name : Bytes) (concurrency queue_limit : ℕ)
      → Step s (register s w name concurrency queue_limit).1
  requests :
      (caller : ℕ) (route : Bytes) (timeout_ms : ℕ) (payload : Bytes) (first second : ℕ)
      (r : Result Ticket) (t : State)
      → request s caller route timeout_ms payload first second ≡ some (r, t)
      → Step s t
  begins : (w : ℕ) → Step s (begin_take s w).1
  takes :
      (w first second : ℕ) (r : Result (Option Job)) (t : State)
      → take_round s w first second ≡ returns r t
      → Step s t
  retries : (w first second : ℕ) (t : State) → take_round s w first second ≡ continues t → Step s t
  ends : (w : ℕ) → Step s (end_take s w)
  completes :
      (w id : ℕ) (failed : Bool) (payload : Bytes) (now : ℕ) (r : Result (Unit {0})) (t : State)
      → complete s w id failed payload now ≡ some (r, t)
      → Step s t
  waits : (t : Ticket) (how : Waited) → Step s (wait s t how).1
  cancels : (id : ℕ) → Step s (cancel s id)
  disconnects : (c : ℕ) (t : State) → disconnect s c ≡ some t → Step s t

-- The states that a broker with these limits can get to, by any interleaving of the sections.
pub data Reachable (max_calls max_bytes : ℕ) : State → Type 0 where
  initial : Reachable max_calls max_bytes (new max_calls max_bytes)
  after :
      (s t : State) → Reachable max_calls max_bytes s → Step s t → Reachable max_calls max_bytes t

step-Sound : (s t : State) → Step s t → Sound s → Sound t
step-Sound s t (connects c) l = connected-Sound s c l
step-Sound s t (registers w name concurrency queue_limit) l =
    register-Sound s w name concurrency queue_limit l
step-Sound s t (requests caller route timeout_ms payload first second r t' h) l =
    subst (Leaves Sound) h (request-Sound s caller route timeout_ms payload first second l)
step-Sound s t (begins w) l = begin_take-Sound s w l
step-Sound s t (takes w first second r t' h) l =
    subst (Rests Sound) h (take_round-Sound s w first second l)
step-Sound s t (retries w first second t' h) l =
    subst (Rests Sound) h (take_round-Sound s w first second l)
step-Sound s t (ends w) l = end_take-Sound s w l
step-Sound s t (completes w id failed payload now r t' h) l =
    subst (Leaves Sound) h (complete-Sound s w id failed payload now l)
step-Sound s t (waits ticket how) l = wait-Sound s ticket how l
step-Sound s t (cancels id) l = cancel-Sound s id l
step-Sound s t (disconnects c t' h) l = subst (Stays Sound) h (disconnect-Sound s c l)

-- In every state that the scheduler can get to, under any interleaving of its locked sections:
-- the ids of calls are distinct and below the next one, the count of retained bytes is the sum
-- over the calls and within its limit, the calls are within theirs, no call has been sent two
-- replies, and a call that still has its sender has been sent none. The byte limit fits 64 bits.
pub Reachable-Sound :
    (max_calls max_bytes : ℕ) (s : State)
    → max_bytes < 2 ^ 64
    → Reachable max_calls max_bytes s
    → Sound s
Reachable-Sound max_calls max_bytes s word initial = new-Sound max_calls max_bytes word
Reachable-Sound max_calls max_bytes t word (after s t' r step) =
    step-Sound s t step (Reachable-Sound max_calls max_bytes s word r)
