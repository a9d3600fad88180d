-- ===== src/Rpc/Queues/Order.antt =====
-- rpc.rs `try_take`: calls are handed out in the order in which they were queued.
use mathlib.Core.Option
use velo_bus.Prelude.{
  ℕ, ◌≡◌, refl, sym, ap, subst, ◌∙◌, inl, inr, not, List, ◌∷◌, leb, update, filter, none, some,
  bytes_eq, bytes_eq_iff, Bool-cases, Option-cases, List-cases,
}
use velo_bus.Protocol.Types.{Bytes, ok, err}
use velo_bus.Rpc.Requests.{
  Round, returns, continues, panics, set_queue, pop_call, pop_front, take_round,
}
use velo_bus.Rpc.{Route, Worker, Job, State, find_worker, find_call, find_route}
use velo_bus.Rpc.Lookups.{lookup-update_at}
use velo_bus.Rpc.Calls.{expired, expire_queued}
use velo_bus.Rpc.Queues.{Orderly}
use velo_bus.Rpc.Queues.Cleaning.{Kept, expire_queued-Kept}

-- What a round of `try_take` hands out is the first of a queue, and leaves the rest.
abbrev Firsts : Bytes → List ℕ → Round → Type 0
Firsts name queue (returns (ok (some j)) t) =
    (rest : List ℕ) × (queue ≡ j.call_id ∷ rest) × Kept t name rest
Firsts name queue (returns (ok none) t) = Unit {0}
Firsts name queue (returns (err e) t) = Unit {0}
Firsts name queue (continues t) = Unit {0}
Firsts name queue panics = Unit {0}

pop_call-Firsts :
    (s : State) (w id now : ℕ) (name : Bytes) (rest : List ℕ)
    → Kept s name rest
    → Firsts name (id ∷ rest) (pop_call s w id now)
unfolding pop_call Kept
pop_call-Firsts s w id now name rest k = elim (Option-cases (find_call s id)) [
  | inl e ↦ rw (pop_call, e) tt
  | inr (c, e) ↦ elim (Bool-cases (leb c.deadline now)) [
    | inl late ↦ rw (pop_call, e, late) tt
    | inr early ↦ elim (Option-cases (find_worker s w)) [
      | inl left ↦ rw (pop_call, e, early, left) tt
      | inr (v, there) ↦ rw (pop_call, e, early, there) (rest, refl, k)
    ]
  ]
]

pop_front-Firsts :
    (s : State) (w : ℕ) (name : Bytes) (now : ℕ) (queue : List ℕ)
    → Kept s name queue
    → Firsts name queue (pop_front s w name now)
unfolding pop_front Kept
pop_front-Firsts s w name now queue (r, e, q) = elim (List-cases r.queue) [
  | inl n ↦ simp (pop_front, e, n) tt
  | inr (id, ids, n) ↦
      let popped : State = record s { routes = update bytes_eq name (set_queue ids) s.routes } in
      let left : Kept popped name ids = (
        set_queue ids r,
        lookup-update_at bytes_eq bytes_eq_iff name (set_queue ids) s.routes
            ∙ ap (Option.map (set_queue ids)) e,
        refl,
      ) in
      simp (pop_front, e, n)
        (subst (λ z. Firsts name z (pop_call popped w id now)) (sym n ∙ q)
          (pop_call-Firsts popped w id now name ids left))
]

take_round-Firsts :
    (s : State) (w first second : ℕ) (worker : Worker) (r : Route)
    → Orderly s
    → find_worker s w ≡ some worker
    → find_route s worker.route ≡ some r
    → Firsts worker.route
        (filter (λ k. not (expired s first k)) r.queue)
        (take_round s w first second)
unfolding take_round
take_round-Firsts s w first second worker r o e f =
    elim (Bool-cases (leb worker.concurrency worker.running)) [
      | inl busy ↦ rw (take_round, e, busy) tt
      | inr free ↦
          rw (take_round, e, free)
            (pop_front-Firsts (expire_queued s worker.route first) w worker.route second _
              (expire_queued-Kept s worker.route first r o f))
    ]

-- Calls are handed out in the order in which they were queued: the job that a round of TAKE hands
-- out is the first of the calls in the queue of the worker's route whose time is not up at the
-- clock's first reading, and the others of these are left in the queue, in their order. Queues and
-- calls are in order, as they are in every state that the scheduler can get to.
pub take_round_first :
    (s t : State) (w first second : ℕ) (j : Job) (worker : Worker) (r : Route)
    → Orderly s
    → find_worker s w ≡ some worker
    → find_route s worker.route ≡ some r
    → take_round s w first second ≡ returns (ok (some j)) t
    → (rest : List ℕ) × (filter (λ k. not (expired s first k)) r.queue ≡ j.call_id ∷ rest)
      × ((r' : Route) × (find_route t worker.route ≡ some r') × (r'.queue ≡ rest))
unfolding Kept
take_round_first s t w first second j worker r o e f h =
    subst (Firsts worker.route (filter (λ k. not (expired s first k)) r.queue)) h
      (take_round-Firsts s w first second worker r o e f)
