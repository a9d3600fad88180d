-- ===== src/Rpc/Requests.antt =====
-- rpc.rs, lines 58 to 103 and 260 to 445: a call is admitted, taken and completed, and what its
-- ticket makes of it.
use velo_bus.Prelude.{
  ℕ, zero, suc, ◌+◌, ◌-◌, ◌*◌, ◌/◌, ◌^◌, Bool, true, not, ◌||◌, List, [], ◌∷◌, ◌++◌, leb, ltb, ◌==◌,
  if◌then◌else◌, update, contains_id, Option, none, some, bytes_eq, length, min, max,
}
use velo_bus.Protocol.Codes
use velo_bus.Protocol.Types.{Bytes, Result, ok, err, new_error, ◌+u64◌}
use velo_bus.Protocol.Utf8.{from_utf8_lossy}
use velo_bus.Rpc.{
  Reply, Route, Worker, Call, State, Job, count_up, find_call, find_worker, find_route,
  deadline_error,
}
use velo_bus.Rpc.Calls.{expire, expire_queued, notify_route, remove, send, cancel}
use velo_bus.Rpc.Routes.{is_owner}

-- `Ticket`, less the handles to the scheduler and the channel.
pub record Ticket : Type 0 where
  pub call_id : ℕ
  pub deadline : ℕ

unfoldable pub call_bytes : Bytes → Bytes → ℕ
call_bytes route payload = 512 + 2 * length route + length payload

-- `state.rejected` counts a call that is not admitted.
abbrev pub reject : State → State
reject s = record s { rejected = count_up s.rejected }

unfoldable pub is_full : State → Route → ℕ → Bool
is_full s r bytes =
    leb r.queue_limit (length r.queue)
    || leb s.max_calls (length s.calls)
    || ltb (s.max_bytes - s.retained_bytes) bytes

abbrev pub enqueue : ℕ → Route → Route
enqueue id r = record r { queue = r.queue ++ id ∷ [] }

unfoldable pub admit : State → ℕ → Bytes → ℕ → Bytes → ℕ → State
admit s caller route deadline payload bytes =
    notify_route
      (record s {
        next_id = s.next_id + 1;
        calls =
            s.calls
            ++ (
              s.next_id,
              record {
                caller = caller;
                route = route;
                owner = none;
                deadline = deadline;
                payload = payload;
                response = true;
                retained_bytes = bytes;
              },
            )
              ∷ [];
        routes = update bytes_eq route (enqueue s.next_id) s.routes;
        retained_bytes = s.retained_bytes +u64 bytes;
        accepted = count_up s.accepted;
      })
      route

-- The admission behind the clean-up of the queue. The route is still there: the clean-up removes
-- calls only, and where it were not, the index would panic, and `unwrap` behind it (`none`).
unfoldable pub admission : State → ℕ → Bytes → ℕ → Bytes → ℕ → Option (Result Ticket × State)
admission s caller route timeout_ms payload now = elim (find_route s route) [
  | none ↦ none
  | some r ↦
      if is_full s r (call_bytes route payload)
      then some (
        err (new_error Codes.overloaded "RPC admission budget is full; request was not accepted"),
        reject s,
      )
      else if leb (2 ^ 64) (s.next_id + 1)
      then some (err (new_error Codes.overloaded "RPC identifier space exhausted"), s)
      else let deadline = now + timeout_ms * 1_000_000 in
        some (
          ok (record { call_id = s.next_id; deadline = deadline }),
          admit s caller route deadline payload (call_bytes route payload),
        )
]

-- `Rpc::request`, with the clock's two readings; `none` is a panic.
unfoldable pub request :
    State → ℕ → Bytes → ℕ → Bytes → (first second : ℕ) → Option (Result Ticket × State)
request s caller route timeout_ms payload first second =
    if not (contains_id caller s.connections)
    then some (err (new_error Codes.service_unavailable "caller connection has closed"), s)
    else elim (find_route s route) [
      | none ↦ some (err (new_error Codes.no_service "no worker registered for route"), reject s)
      | some r ↦ admission (expire_queued s route first) caller route timeout_ms payload second
    ]

-- `div_ceil(1_000_000).clamp(1, 30_000)` on what is left.
unfoldable pub remaining_ms : ℕ → ℕ → ℕ
remaining_ms deadline now = min (max ((deadline - now + 999_999) / 1_000_000) 1) 30_000

-- How a round of the loop of `try_take` ends: with `return`, `continue`, or a panic.
pub data Round : Type 0 where
  returns : Result (Option Job) → State → Round
  continues : State → Round
  panics : Round

abbrev pub assign : ℕ → Call → Call
assign worker_id c = record c { owner = some worker_id }

abbrev pub more_running : Worker → Worker
more_running w = record w { running = w.running + 1 }

abbrev pub dispatch : State → ℕ → ℕ → State
dispatch s worker_id id = record s {
  calls = update ◌==◌ id (assign worker_id) s.calls;
  workers = update ◌==◌ worker_id more_running s.workers;
}

-- The call at the front of the queue, once it is popped. Its `expect` panics where the call is
-- missing, and `unwrap` where the worker is.
unfoldable pub pop_call : State → ℕ → ℕ → ℕ → Round
pop_call s worker_id id now = elim (find_call s id) [
  | none ↦ panics
  | some c ↦
      if leb c.deadline now then continues (expire s id) else elim (find_worker s worker_id) [
        | none ↦ panics
        | some w ↦
            returns
              (ok (
                some (record {
                  call_id = id;
                  remaining_ms = remaining_ms c.deadline now;
                  payload = c.payload;
                })))
              (dispatch s worker_id id)
      ]
]

abbrev pub set_queue : List ℕ → Route → Route
set_queue ids r = record r { queue = ids }

unfoldable pub pop_front : State → ℕ → Bytes → ℕ → Round
pop_front s worker_id name now = elim (find_route s name) [
  | none ↦ returns (ok none) s
  | some r ↦ elim r.queue [
    | [] ↦ returns (ok none) s
    | id ∷ ids ↦
        pop_call (record s { routes = update bytes_eq name (set_queue ids) s.routes }) worker_id id
          now
  ]
]

-- A round of the loop of `Rpc::try_take`, with the clock's two readings.
unfoldable pub take_round : State → ℕ → (first second : ℕ) → Round
take_round s worker_id first second = elim (find_worker s worker_id) [
  | none ↦ returns (err (new_error Codes.unauthorized "TAKE requires a registered worker")) s
  | some w ↦
      if leb w.concurrency w.running
      then returns (ok none) s
      else pop_front (expire_queued s w.route first) worker_id w.route second
]

-- `Rpc::try_take` on fuel, with the clock's readings in each round; `none` is fuel that ran out
-- or a panic. Other connections may take the lock between two rounds: `interfere` is what they do.
unfoldable pub try_take :
    (fuel : ℕ)
    → State
    → ℕ
    → (clock : ℕ → ℕ × ℕ) → (interfere : ℕ → State → State) → Option (Result (Option Job) × State)
try_take zero s worker_id clock interfere = none
try_take (suc fuel) s worker_id clock interfere =
    elim (take_round s worker_id (clock fuel).0 (clock fuel).1) [
      | returns r s' ↦ some (r, s')
      | continues s' ↦ try_take fuel (interfere fuel s') worker_id clock interfere
      | panics ↦ none
    ]

abbrev pub more_takes : Worker → Worker
more_takes w = record w { pending_takes = w.pending_takes + 1 }

-- `Rpc::take` up to its guard.
unfoldable pub begin_take : State → ℕ → Result (Unit {0}) × State
begin_take s worker_id = elim (find_worker s worker_id) [
  | none ↦ (err (new_error Codes.unauthorized "TAKE requires a registered worker"), s)
  | some w ↦
      if leb w.concurrency w.pending_takes
      then (err (new_error Codes.overloaded "worker TAKE waiter capacity reached"), s)
      else (ok tt, record s { workers = update ◌==◌ worker_id more_takes s.workers })
]

abbrev pub fewer_takes : Worker → Worker
fewer_takes w = record w { pending_takes = w.pending_takes - 1 }

-- `TakeGuard::drop`
unfoldable pub end_take : State → ℕ → State
end_take s worker_id = record s { workers = update ◌==◌ worker_id fewer_takes s.workers }

-- What the caller of a completed call is told.
unfoldable pub outcome : Call → Bool → Bytes → ℕ → Reply
outcome c failed payload now =
    if leb c.deadline now
    then err deadline_error
    else if failed
    then err (record { code = Codes.handler_error; message = from_utf8_lossy payload })
    else ok payload

unfoldable pub answer : State → ℕ → Call → Bool → Bytes → ℕ → State
answer s id c failed payload now =
    if c.response
    then send id (outcome c failed payload now)
        (if leb c.deadline now then record s { timed_out = count_up s.timed_out } else s)
    else s

abbrev pub count_completed : State → State
count_completed s = record s { completed = count_up s.completed }

-- `Rpc::complete`, with the clock's reading; `none` is a panic, of `unwrap` on the removed call.
unfoldable pub complete :
    State → ℕ → ℕ → Bool → Bytes → (now : ℕ) → Option (Result (Unit {0}) × State)
complete s worker_id id failed payload now = elim (find_worker s worker_id) [
  | none ↦ some (err (new_error Codes.unauthorized "COMPLETE requires a registered worker"), s)
  | some w ↦ elim (find_call s id) [
    | none ↦ some (err (new_error Codes.invalid "unknown or already completed call"), s)
    | some c ↦
        if not (is_owner worker_id c.owner)
        then some (err (new_error Codes.unauthorized "call belongs to another worker"), s)
        else elim (remove s id).0 [
          | none ↦ none
          | some call ↦
              some (ok tt, answer (count_completed (remove s id).1) id call failed payload now)
        ]
  ]
]

-- How the wait of a ticket ends: with the reply, with the channel closed, or at the deadline.
pub data Waited : Type 0 where
  replied : Reply → Waited
  closed elapsed : Waited

-- `Ticket::wait`, and the `drop` of the ticket behind it.
unfoldable pub wait : State → Ticket → Waited → Reply × State
wait s t (replied r) = (r, cancel s t.call_id)
wait s t closed =
    (err (new_error Codes.service_unavailable "RPC response channel closed"), cancel s t.call_id)
wait s t elapsed = (err deadline_error, cancel (expire s t.call_id) t.call_id)
