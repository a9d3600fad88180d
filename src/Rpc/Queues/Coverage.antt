-- ===== src/Rpc/Queues/Coverage.antt =====
-- rpc.rs: in every state that the scheduler can get to, each call that nobody owns is queued, and no
-- queue is over its limit.
use velo_bus.Prelude.{
  false_is_not_true, ℕ, ◌≡◌, inl, inr, sym, ap, subst, ◌∙◌, not, [], ◌∷◌, ◌++◌, ◌==◌, erase, filter,
  some, bytes_eq, bytes_eq_iff, In, Option-cases, Bool-cases, length,
}
use velo_bus.Protocol.Types.{Bytes}
use velo_bus.Rpc.{Route, Worker, State, find_route}
use velo_bus.Rpc.Lookups.{lookup-erase_other, found-erase}
use velo_bus.Rpc.Calls.{fail_each}
use velo_bus.Rpc.Routes.{is_owner, ids_of, gone, last_gone, leave_route, worker_left, disconnect}
use velo_bus.Rpc.Steps.{
  Step, connects, registers, requests, begins, takes, retries, ends, completes, waits, cancels,
  disconnects, Reachable, initial, after,
}
use velo_bus.Rpc.Queues.{notify_route-Alike}
use velo_bus.Rpc.Outcomes.{Leaves, Rests, Stays}
use velo_bus.Rpc.Queues.Places.{Attended, Alike-Attended, hold_all, update-Queued, update-Fits}
use velo_bus.Rpc.Queues.Attending.{cancel-Attended, fail_each-Attended}
use velo_bus.Rpc.Queues.Placing.{
  new-Attended, connected-Attended, register-Attended, request-Attended,
}
use velo_bus.Rpc.Queues.Handing.{
  same_route, take_round-Rests, begin_take-Attended, end_take-Attended, complete-Attended,
  wait-Attended,
}
use velo_bus.Rpc.Sections.{disconnect_keeps}

-- The calls of a route that closes are held until they have been failed.
closed-Attended :
    (s : State) (name : Bytes) (r : Route)
    → Attended [] s
    → find_route s name ≡ some r
    → Attended r.queue (record s { routes = erase bytes_eq name s.routes })
closed-Attended s name r o e = record {
  place = λ k c f own. elim (o.place k c f own) [
    | inl m ↦ absurd m
    | inr (r', at, m) ↦ elim (Bool-cases (bytes_eq c.route name)) [
      | inl t ↦
          let here = (bytes_eq_iff c.route name).0 t in
          inl (
            subst (λ (z : Route). In k z.queue)
              (same_route s name r r' e (ap (find_route s) (sym here) ∙ at)) m)
      | inr t ↦ inr (
        r',
        lookup-erase_other bytes_eq bytes_eq_iff c.route name s.routes
              (λ z. false_is_not_true (sym t ∙ (bytes_eq_iff c.route name).1 z))
            ∙ at,
        m,
      )
    ]
  ];
  fits = λ n r' f. o.fits n r' (found-erase bytes_eq bytes_eq_iff n name s.routes r' f).1;
}

leave_route-Attended :
    (s : State) (c : ℕ) (name : Bytes) → Attended [] s → Stays (Attended []) (leave_route s c name)
unfolding leave_route
leave_route-Attended s c name o = elim (Option-cases (find_route s name)) [
  | inl e ↦ rw (leave_route, e) tt
  | inr (r, e) ↦
      let left = filter (λ id. not (id == c)) r.workers in
      let shrink : Route → Route = λ r'. record r' { workers = left } in
      elim (Bool-cases (length left == 0)) [
        | inl z ↦
            rw (leave_route, e, z)
              (fail_each-Attended _ r.queue last_gone (closed-Attended s name r o e))
        | inr z ↦
            rw (leave_route, e, z)
              (Alike-Attended [] _ _ (notify_route-Alike _ name) (record {
                place = λ id d f own. elim (o.place id d f own) [
                  | inl m ↦ inl m
                  | inr q ↦ inr (update-Queued shrink name s.routes id d.route (λ r' m. m) q)
                ];
                fits = update-Fits shrink name s.routes (λ r' _ fit. fit) o.fits;
              }))
      ]
]

worker_left-Attended :
    (s : State) (c : ℕ) (w : Worker) → Attended [] s → Stays (Attended []) (worker_left s c w)
unfolding worker_left
worker_left-Attended s c w o =
    let resigned : State = record s {
      workers = erase ◌==◌ c s.workers;
      notified = s.notified ++ c ∷ [];
    } in
    let ids = ids_of (λ x. is_owner c x.owner) resigned.calls in
    leave_route-Attended (fail_each resigned ids gone) c w.route (
      fail_each-Attended resigned ids gone
        (hold_all resigned ids (record { place = o.place; fits = o.fits })))

disconnect-Attended : (s : State) (c : ℕ) → Attended [] s → Stays (Attended []) (disconnect s c)
disconnect-Attended s c o =
    disconnect_keeps (Attended []) s c (λ cs. record { place = o.place; fits = o.fits })
      cancel-Attended (λ u v e p. worker_left-Attended u c v p)

step-Attended : (s t : State) → Step s t → Attended [] s → Attended [] t
step-Attended s t (connects c) o = connected-Attended s c o
step-Attended s t (registers w name concurrency queue_limit) o =
    register-Attended s w name concurrency queue_limit o
step-Attended s t (requests caller route timeout_ms payload first second r t' h) o =
    subst (Leaves (Attended [])) h
      (request-Attended s caller route timeout_ms payload first second o)
step-Attended s t (begins w) o = begin_take-Attended s w o
step-Attended s t (takes w first second r t' h) o =
    subst (Rests (Attended [])) h (take_round-Rests s w first second o)
step-Attended s t (retries w first second t' h) o =
    subst (Rests (Attended [])) h (take_round-Rests s w first second o)
step-Attended s t (ends w) o = end_take-Attended s w o
step-Attended s t (completes w id failed payload now r t' h) o =
    subst (Leaves (Attended [])) h (complete-Attended s w id failed payload now o)
step-Attended s t (waits ticket how) o = wait-Attended s ticket how o
step-Attended s t (cancels id) o = cancel-Attended s id o
step-Attended s t (disconnects c t' h) o = subst (Stays (Attended [])) h (disconnect-Attended s c o)

-- In every state that the scheduler can get to, under any interleaving of its locked sections, each
-- call that nobody owns is in the queue of its route, which is there, and no queue is longer than
-- the limit of its route.
pub Reachable-Attended :
    (max_calls max_bytes : ℕ) (s : State) → Reachable max_calls max_bytes s → Attended [] s
Reachable-Attended max_calls max_bytes s initial = new-Attended max_calls max_bytes
Reachable-Attended max_calls max_bytes t (after s t' r step) =
    step-Attended s t step (Reachable-Attended max_calls max_bytes s r)
