-- ===== src/Rpc/Routes.antt =====
-- rpc.rs, lines 208 to 258 and 461 to 513: connections, registration and disconnection.
use velo_bus.Prelude.{
  ℕ, Bool, false, not, List, [], ◌∷◌, ◌++◌, ◌==◌, if◌then◌else◌, filter, update, erase, contains_id,
  Option, none, some, bytes_eq, length,
}
use velo_bus.Protocol.Codes
use velo_bus.Protocol.Types.{Bytes, Error, Result, ok, err, new_error}
use velo_bus.Rpc.{Worker, Call, State, find_worker, find_route}
use velo_bus.Rpc.Calls.{silence_each, fail_each, notify_route}

-- `Rpc::connected`
unfoldable pub connected : State → ℕ → State
connected s connection =
    if contains_id connection s.connections
    then s
    else record s { connections = s.connections ++ connection ∷ [] }

-- A worker joins its route, which is created when it is not there.
unfoldable pub join : State → ℕ → Bytes → ℕ → ℕ → State
join s worker_id name concurrency queue_limit = record s {
  routes = elim (find_route s name) [
    | none ↦
        s.routes
        ++ (name, record { workers = worker_id ∷ []; queue = []; queue_limit = queue_limit }) ∷ []
    | some r ↦
        update bytes_eq name (λ r'. record r' { workers = r'.workers ++ worker_id ∷ [] }) s.routes
  ];
  workers =
      s.workers
      ++ (
        worker_id,
        record { route = name; concurrency = concurrency; running = 0; pending_takes = 0 },
      )
        ∷ [];
}

unfoldable pub disagrees : State → Bytes → ℕ → Bool
disagrees s name queue_limit = elim (find_route s name) [
  | none ↦ false
  | some r ↦ not (r.queue_limit == queue_limit)
]

-- `Rpc::register`
unfoldable pub register : State → ℕ → Bytes → ℕ → ℕ → Result (Unit {0}) × State
register s worker_id name concurrency queue_limit =
    if not (contains_id worker_id s.connections)
    then (err (new_error Codes.service_unavailable "worker connection has closed"), s)
    else elim (find_worker s worker_id) [
      | some w ↦ (err (new_error Codes.invalid "connection already registered a route"), s)
      | none ↦
          if disagrees s name queue_limit
          then (err (new_error Codes.invalid "workers for a route must agree on queueLimit"), s)
          else (ok tt, join s worker_id name concurrency queue_limit)
    ]

abbrev pub is_owner : ℕ → Option ℕ → Bool
is_owner connection none = false
is_owner connection (some w) = w == connection

-- The ids of the calls with a property.
unfoldable pub ids_of : (Call → Bool) → List (ℕ × Call) → List ℕ
ids_of p [] = []
ids_of p ((id, c) ∷ m) = let rest = ids_of p m in if p c then id ∷ rest else rest

abbrev pub gone : Error
gone = new_error Codes.service_unavailable "worker disconnected; call will not be replayed"

abbrev pub last_gone : Error
last_gone = new_error Codes.service_unavailable "last worker disconnected"

-- The worker's place in its route; `none` where the route is missing, and `unwrap` panics.
unfoldable pub leave_route : State → ℕ → Bytes → Option State
leave_route s connection name = elim (find_route s name) [
  | none ↦ none
  | some r ↦
      let left = filter (λ id. not (id == connection)) r.workers in
      some (
        if length left == 0
        then fail_each (record s { routes = erase bytes_eq name s.routes }) r.queue last_gone
        else notify_route
            (record s {
              routes = update bytes_eq name (λ r'. record r' { workers = left }) s.routes;
            })
            name)
]

-- The part of `disconnect` for a worker.
unfoldable pub worker_left : State → ℕ → Worker → Option State
worker_left s connection w =
    let s1 : State = record s {
      workers = erase ◌==◌ connection s.workers;
      notified = s.notified ++ connection ∷ [];
    } in
    leave_route (fail_each s1 (ids_of (λ c. is_owner connection c.owner) s1.calls) gone) connection
      w.route

-- `Rpc::disconnect`; `none` is a panic.
unfoldable pub disconnect : State → ℕ → Option State
disconnect s connection =
    let s1 : State = record s { connections = filter (λ c. not (c == connection)) s.connections } in
    elim (silence_each s1 (ids_of (λ c. c.caller == connection) s1.calls)) [
      | none ↦ none
      | some s2 ↦ elim (find_worker s2 connection) [
        | none ↦ some s2
        | some w ↦ worker_left s2 connection w
      ]
    ]
