-- ===== src/Rpc/Queues/Panics.antt =====
-- rpc.rs: in every state that the scheduler can get to, queues and calls are in order, and no section
-- panics.
use velo_bus.Prelude.{
  ℕ, Bool, ◌<◌, ◌^◌, ◌≢◌, subst, none, some_is_not_none, inl, inr, Option-cases, Bool-cases,
}
use velo_bus.Protocol.Types.{Bytes}
use velo_bus.Rpc.{State, find_call, find_worker}
use velo_bus.Rpc.Moves.{Sound}
use velo_bus.Rpc.Steps.{
  Step, connects, registers, requests, begins, takes, retries, ends, completes, waits, cancels,
  disconnects, Reachable, initial, after, Reachable-Sound,
}
use velo_bus.Rpc.Routes.{disconnect, is_owner}
use velo_bus.Rpc.Requests.{request, panics, take_round, complete}
use velo_bus.Rpc.Sections.{remove_call}
use velo_bus.Rpc.Outcomes
use velo_bus.Rpc.Queues.{Orderly}
use velo_bus.Rpc.Queues.Removal.{cancel-Orderly}
use velo_bus.Rpc.Queues.Joining.{new-Orderly, connected-Orderly, register-Orderly}
use velo_bus.Rpc.Queues.Admission.{request-Orderly, Answers}
use velo_bus.Rpc.Queues.Sections.{
  Ends, take_round-Ends, begin_take-Orderly, end_take-Orderly, complete-Orderly, wait-Orderly,
}
use velo_bus.Rpc.Queues.Departure.{Leaves, disconnect-Leaves}

step-Orderly : (s t : State) → Step s t → Sound s → Orderly s → Orderly t
step-Orderly s t (connects c) l o = connected-Orderly s c o
step-Orderly s t (registers w name concurrency queue_limit) l o =
    register-Orderly s w name concurrency queue_limit o
step-Orderly s t (requests caller route timeout_ms payload first second r t' h) l o =
    subst (Answers Orderly) h (request-Orderly s caller route timeout_ms payload first second o l)
step-Orderly s t (begins w) l o = begin_take-Orderly s w o
step-Orderly s t (takes w first second r t' h) l o =
    subst Ends h (take_round-Ends s w first second o)
step-Orderly s t (retries w first second t' h) l o =
    subst Ends h (take_round-Ends s w first second o)
step-Orderly s t (ends w) l o = end_take-Orderly s w o
step-Orderly s t (completes w id failed payload now r t' h) l o =
    subst (Outcomes.Leaves Orderly) h (complete-Orderly s w id failed payload now o)
step-Orderly s t (waits ticket how) l o = wait-Orderly s ticket how o
step-Orderly s t (cancels id) l o = cancel-Orderly s id o
step-Orderly s t (disconnects c t' h) l o = subst Leaves h (disconnect-Leaves s c l o)

-- In every state that the scheduler can get to, under any interleaving of its locked sections, each
-- id in the queue of a route is there once, and is that of a call of the route that nobody owns;
-- and each worker is on the list of its route, which is there. The byte limit fits 64 bits.
pub Reachable-Orderly :
    (max_calls max_bytes : ℕ) (s : State)
    → max_bytes < 2 ^ 64
    → Reachable max_calls max_bytes s
    → Orderly s
Reachable-Orderly max_calls max_bytes s word initial = new-Orderly max_calls max_bytes
Reachable-Orderly max_calls max_bytes t word (after s t' r step) =
    step-Orderly s t step (Reachable-Sound max_calls max_bytes s word r)
      (Reachable-Orderly max_calls max_bytes s word r)

complete-returns :
    (s : State) (w id : ℕ) (failed : Bool) (payload : Bytes) (now : ℕ)
    → complete s w id failed payload now ≢ none
unfolding complete
complete-returns s w id failed payload now h = elim (Option-cases (find_worker s w)) [
  | inl e ↦ some_is_not_none (rw (complete, e) at h)
  | inr (v, e) ↦ elim (Option-cases (find_call s id)) [
    | inl u ↦ some_is_not_none (rw (complete, e, u) at h)
    | inr (c, f) ↦ elim (Bool-cases (is_owner w c.owner)) [
      | inr other ↦ some_is_not_none (rw (complete, e, f, other) at h)
      | inl own ↦ some_is_not_none (rw (complete, e, f, own, remove_call s id c f) at h)
    ]
  ]
]

-- The sections that hold an `expect`, an `unwrap` or an index go through.
pub record Unharmed (s : State) : Type 0 where
  pub taking : (w first second : ℕ) → take_round s w first second ≢ panics
  pub requesting :
      (caller : ℕ) (route : Bytes) (timeout_ms : ℕ) (payload : Bytes) (first second : ℕ)
      → request s caller route timeout_ms payload first second ≢ none
  pub completing :
      (w id : ℕ) (failed : Bool) (payload : Bytes) (now : ℕ)
      → complete s w id failed payload now ≢ none
  pub disconnecting : (c : ℕ) → disconnect s c ≢ none

-- In every state that the scheduler can get to, under any interleaving of its locked sections, no
-- round of TAKE, no RPC request, no COMPLETE and no disconnection panics, whatever its arguments and
-- the clock. The byte limit fits 64 bits.
pub never_panics :
    (max_calls max_bytes : ℕ) (s : State)
    → max_bytes < 2 ^ 64
    → Reachable max_calls max_bytes s
    → Unharmed s
never_panics max_calls max_bytes s word r =
    let l = Reachable-Sound max_calls max_bytes s word r in
    let o = Reachable-Orderly max_calls max_bytes s word r in
    record {
      taking = λ w first second h. subst Ends h (take_round-Ends s w first second o);
      requesting = λ caller route timeout_ms payload first second h.
          subst (Answers Orderly) h
            (request-Orderly s caller route timeout_ms payload first second o l);
      completing = complete-returns s;
      disconnecting = λ c h. subst Leaves h (disconnect-Leaves s c l o);
    }
