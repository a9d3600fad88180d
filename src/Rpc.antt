-- ===== src/Rpc.antt =====
-- crates/velobus/src/rpc.rs: the scheduler of calls. One lock guards the state, so that each locked
-- section is one function on it; the clock's readings, in nanoseconds, are arguments, and what is
-- sent on the reply channels and to waiting TAKEs is logged in the state.
pub mod Calls
pub mod Routes
pub mod Requests
pub mod Slots
pub mod Queues
pub mod Figures
pub mod Waking
pub mod Keys
pub mod Lookups
pub mod Ledger
pub mod Moves
pub mod Closure
pub mod Outcomes
pub mod Sections
pub mod Expiry
pub mod Invariant
pub mod Reachable
pub mod Steps
pub mod Completion
pub mod Dispatching
pub mod Runs
use velo_bus.Prelude.{
  ℕ, ◌+◌, ◌*◌, ◌-◌, ◌^◌, ◌%◌, Bool, true, false, not, List, [], ◌∷◌, ◌++◌, ◌==◌, if◌then◌else◌, min,
  lookup, update, erase, Option, none, some, bytes_eq, be_bytes, length,
}
use velo_bus.Protocol.Types.{Bytes, Error, Result, new_error}
use velo_bus.Protocol.Codes

-- `Reply`
abbrev pub Reply : Type 0
Reply = Result Bytes

pub record Route : Type 0 where
  pub workers : List ℕ
  pub queue : List ℕ
  pub queue_limit : ℕ

-- `notify` has no state of its own: who waits on it is outside of the scheduler.
pub record Worker : Type 0 where
  pub route : Bytes
  pub concurrency : ℕ
  pub running : ℕ
  pub pending_takes : ℕ

-- `response` says whether the sender of the reply channel is still there.
pub record Call : Type 0 where
  pub caller : ℕ
  pub route : Bytes
  pub owner : Option ℕ
  pub deadline : ℕ
  pub payload : Bytes
  pub response : Bool
  pub retained_bytes : ℕ

-- `State`, with the logs of the replies sent, by call, and of the workers notified.
pub record State : Type 0 where
  pub connections : List ℕ
  pub routes : List (Bytes × Route)
  pub workers : List (ℕ × Worker)
  pub calls : List (ℕ × Call)
  pub next_id : ℕ
  pub retained_bytes : ℕ
  pub max_calls : ℕ
  pub max_bytes : ℕ
  pub accepted : ℕ
  pub completed : ℕ
  pub rejected : ℕ
  pub timed_out : ℕ
  pub sent : List (ℕ × Reply)
  pub notified : List ℕ

-- `Rpc::new`
unfoldable pub new : ℕ → ℕ → State
new max_calls max_bytes = record {
  connections = [];
  routes = [];
  workers = [];
  calls = [];
  next_id = 1;
  retained_bytes = 0;
  max_calls = max_calls;
  max_bytes = max_bytes;
  accepted = 0;
  completed = 0;
  rejected = 0;
  timed_out = 0;
  sent = [];
  notified = [];
}

-- `saturating_add(1)` on a counter of 64 bits.
abbrev pub count_up : ℕ → ℕ
count_up n = min (n + 1) (2 ^ 64 - 1)

-- The wrapping `-=` on 64 bits.
infixl 65 ◌-u64◌
abbrev pub ◌-u64◌ : ℕ → ℕ → ℕ
a -u64 b = (a + 2 ^ 64 - b) % 2 ^ 64

abbrev pub find_call : State → ℕ → Option Call
find_call s id = lookup ◌==◌ id s.calls

abbrev pub find_worker : State → ℕ → Option Worker
find_worker s id = lookup ◌==◌ id s.workers

abbrev pub find_route : State → Bytes → Option Route
find_route s name = lookup bytes_eq name s.routes

pub record Job : Type 0 where
  pub call_id : ℕ
  pub remaining_ms : ℕ
  pub payload : Bytes

-- `Job::encode`
unfoldable pub encode : Job → Bytes
encode j =
    (((1 ∷ [] ++ be_bytes 8 j.call_id) ++ be_bytes 4 j.remaining_ms)
      ++ be_bytes 4 (length j.payload % 2 ^ 32))
    ++ j.payload

-- `deadline_error`
unfoldable pub deadline_error : Error
deadline_error =
    new_error Codes.deadline_exceeded "RPC deadline exceeded; started work may still finish"
