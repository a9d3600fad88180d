-- ===== src/Rpc/Runs.antt =====
-- Runs of the scheduler: a worker registers, a call is made, taken and completed.
pub mod Waiting
use velo_bus.Prelude.{
  ℕ, List, not, ◌≡◌, ◌≤◌, refl, sym, subst, length, [], ◌∷◌, ◌++◌, arith, true, false, Option, none,
  some, filter, lookup, update, erase, bytes_eq,
}
use velo_bus.Protocol.Types.{Result, ok, err, Bytes}
use velo_bus.Rpc.Queues.Order.{take_round_first}
use velo_bus.Rpc.{State, Route, find_worker, find_route, new, Job, Call, Worker, deadline_error}
use velo_bus.Rpc.Calls.{
  remove, release, expired, expire_queued, expire_each, notify_route, notify_each, notify,
}
use velo_bus.Rpc.Routes.{connected, register, join, disagrees}
use velo_bus.Rpc.Requests.{
  Ticket, request, admission, admit, call_bytes, is_full, take_round, pop_front, pop_call, returns,
  complete, remaining_ms, answer, outcome,
}
use velo_bus.Rpc.Moves.{Sound}
use velo_bus.Rpc.Steps.{
  connects, registers, requests, takes, Reachable, initial, after, Reachable-Sound,
}
use velo_bus.Rpc.Slots.{Slots}
use velo_bus.Rpc.Slots.Capacity.{Reachable-Slots}
use velo_bus.Rpc.Queues.{Orderly}
use velo_bus.Rpc.Queues.Panics.{Reachable-Orderly, Unharmed, never_panics}
use velo_bus.Rpc.Queues.Draining.{AtMost, EndsWithin, try_take_ends}
use velo_bus.Rpc.Completion.{complete-once, Completed}
use velo_bus.Rpc.Dispatching.{take_round-Dispatched, Dispatched}

abbrev name : Bytes
name = b'r' ∷ []

abbrev s0 : State
s0 = new 4 10_000

abbrev s1 : State
s1 = connected s0 1

abbrev s2 : State
s2 = (register s1 1 name 1 4).1

-- The states behind a step that gives a result.
abbrev after_request : Option (Result Ticket × State) → State
after_request none = s2
after_request (some (r, s)) = s

abbrev s3 : State
s3 = after_request (request s2 1 name 50 (9 ∷ []) 1000 1000)

abbrev ticket : Ticket
ticket = record { call_id = 1; deadline = 50_001_000 }

abbrev job : Job
job = record { call_id = 1; remaining_ms = 50; payload = 9 ∷ [] }

abbrev worker : Worker
worker = record { route = name; concurrency = 1; running = 1; pending_takes = 0 }

abbrev call : Call
call = record {
  caller = 1;
  route = name;
  owner = some 1;
  deadline = 50_001_000;
  payload = 9 ∷ [];
  response = true;
  retained_bytes = 515;
}

abbrev s4 : State
s4 = record s2 {
  next_id = 2;
  calls = (1, call) ∷ [];
  workers = (1, worker) ∷ [];
  retained_bytes = 515;
  accepted = 1;
  notified = 1 ∷ [];
}

requested : request s2 1 name 50 (9 ∷ []) 1000 1000 ≡ some (ok ticket, s3)
unfolding request admission admit call_bytes is_full notify_route notify_each notify new connected
    register join disagrees lookup update filter expire_queued expire_each bytes_eq
requested = refl

taken : take_round s3 1 2000 3000 ≡ returns (ok (some job)) s4
unfolding request admission admit call_bytes is_full notify_route notify_each notify new connected
    register join disagrees lookup update filter expire_queued expire_each bytes_eq take_round
    pop_front pop_call remaining_ms
taken = refl

s3-Reachable : Reachable 4 10_000 s3
s3-Reachable =
    after s2 s3 (after s1 s2 (after s0 s1 initial (connects 1)) (registers 1 name 1 4))
      (requests 1 name 50 (9 ∷ []) 1000 1000 (ok ticket) s3 requested)

abbrev idle : Worker
idle = record { route = name; concurrency = 1; running = 0; pending_takes = 0 }

s4-Reachable : Reachable 4 10_000 s4
s4-Reachable =
    after s3 s4
      (after s2 s3 (after s1 s2 (after s0 s1 initial (connects 1)) (registers 1 name 1 4))
        (requests 1 name 50 (9 ∷ []) 1000 1000 (ok ticket) s3 requested))
      (takes 1 2000 3000 (ok (some job)) s4 taken)

Reachable-Sound_example : Sound s4
Reachable-Sound_example = Reachable-Sound 4 10_000 s4 (omega arith) s4-Reachable

Reachable-Orderly_example : Orderly s4
Reachable-Orderly_example = Reachable-Orderly 4 10_000 s4 (omega arith) s4-Reachable

Reachable-Slots_example : Slots s4
Reachable-Slots_example = Reachable-Slots 4 10_000 s4 (omega arith) s4-Reachable

never_panics_example : Unharmed s4
never_panics_example = never_panics 4 10_000 s4 (omega arith) s4-Reachable

take_round-Dispatched_example : Dispatched s3 s4 1 3000 job
take_round-Dispatched_example =
    take_round-Dispatched 4 10_000 s3 s4 1 2000 3000 job (omega arith) s3-Reachable taken

abbrev s5 : State
s5 = record s4 {
  calls = [];
  workers = (1, idle) ∷ [];
  retained_bytes = 0;
  completed = 1;
  notified = 1 ∷ 1 ∷ [];
  sent = (1, ok (5 ∷ [])) ∷ [];
}

completed : complete s4 1 1 false (5 ∷ []) 4000 ≡ some (ok tt, s5)
unfolding complete answer outcome remove release notify new connected register join disagrees lookup
    update erase
completed = refl

complete-once_example : Completed s4 s5 1 1
complete-once_example =
    complete-once 4 10_000 s4 s5 1 1 false (5 ∷ []) 4000 (omega arith) s4-Reachable completed

abbrev waiting : Route
waiting = record { workers = 1 ∷ []; queue = 1 ∷ []; queue_limit = 4 }

inner : {A : Type 0} (a b : A) → some a ≡ some b → a ≡ b
inner a b e = cc

s3-AtMost : AtMost 1 s3 1
unfolding request admission admit call_bytes is_full notify_route notify_each notify new connected
    register join disagrees lookup update filter expire_queued expire_each bytes_eq
s3-AtMost worker r f g =
    let same : idle ≡ worker = inner idle worker f in
    let g' : some waiting ≡ some r =
      subst (λ (z : Worker). find_route s3 z.route ≡ some r) (sym same) g in
    let route : waiting ≡ r = inner waiting r g' in
    subst (λ (z : Route). length z.queue ≤ 1) route (omega arith)

try_take_ends_example : EndsWithin 1 s3 1 (λ n. (2000, 3000))
try_take_ends_example =
    try_take_ends 1 s3 1 (λ n. (2000, 3000))
      (Reachable-Orderly 4 10_000 s3 (omega arith) s3-Reachable) s3-AtMost

idle_there : find_worker s3 1 ≡ some idle
unfolding request admission admit call_bytes is_full notify_route notify_each notify new connected
    register join disagrees lookup update filter expire_queued expire_each bytes_eq
idle_there = refl

waiting_there : find_route s3 name ≡ some waiting
unfolding request admission admit call_bytes is_full notify_route notify_each notify new connected
    register join disagrees lookup update filter expire_queued expire_each bytes_eq
waiting_there = refl

take_round_first_example :
    (rest : List ℕ) × (filter (λ k. not (expired s3 2000 k)) waiting.queue ≡ 1 ∷ rest)
    × ((r' : Route) × (find_route s4 name ≡ some r') × (r'.queue ≡ rest))
take_round_first_example =
    take_round_first s3 s4 1 2000 3000 job idle waiting
      (Reachable-Orderly 4 10_000 s3 (omega arith) s3-Reachable) idle_there waiting_there taken
