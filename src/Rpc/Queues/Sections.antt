-- ===== src/Rpc/Queues/Sections.antt =====
-- rpc.rs: taking, completing, waiting and disconnecting keep queues and calls in order, and do not
-- panic.
use velo_bus.Prelude.{
  ℕ, ◌≡◌, ◌≢◌, refl, sym, ap, subst, ◌∙◌, Bool, List, ◌∷◌, ◌==◌, ==_iff, leb, update, some,
  bytes_eq, bytes_eq_iff, In, inl, inr, Option-cases, Bool-cases, List-cases,
}
use velo_bus.Protocol.Types.{Bytes}
use velo_bus.Rpc.{Route, Worker, Call, State, find_call, find_worker, find_route}
use velo_bus.Rpc.Lookups.{Once, lookup-update_other, found-update}
use velo_bus.Rpc.Calls.{remove, expire_queued}
use velo_bus.Rpc.Requests.{
  Ticket, Round, returns, continues, panics, assign, more_running, dispatch, pop_call, set_queue,
  pop_front, take_round, more_takes, begin_take, fewer_takes, end_take, answer, count_completed,
  complete, Waited, wait,
}
use velo_bus.Rpc.Queues.{Waiting, Orderly, Alike, Alike-Orderly}
use velo_bus.Rpc.Queues.Removal.{
  update_worker-Serving, update_route-Serving, Waiting-found, remove-Orderly, expire-Orderly,
  expire_queued-Orderly, cancel-Orderly,
}
use velo_bus.Rpc.Outcomes.{Leaves}
use velo_bus.Rpc.Slots.Easing.{expire_queued-Eases}
use velo_bus.Rpc.Sections.{begin_take_keeps, complete_keeps, wait_keeps}

-- A round of `try_take` does not panic, and leaves queues and calls in order.
abbrev pub Ends : Round → Type 0
Ends (returns r s) = Orderly s
Ends (continues s) = Orderly s
Ends panics = ⊥

-- An id that is in no queue.
abbrev pub Unqueued : State → ℕ → Type 0
Unqueued s id = (name : Bytes) (r : Route) → find_route s name ≡ some r → In id r.queue → ⊥

dispatch-Orderly : (s : State) (w id : ℕ) → Orderly s → Unqueued s id → Orderly (dispatch s w id)
dispatch-Orderly s w id o out = record {
  queued = λ name r k f m.
      let (c, found, own, route) = o.queued name r k f m in
      let ne : k ≢ id = λ q. out name r f (subst (λ z. In z r.queue) q m) in
      (c, lookup-update_other ◌==◌ ==_iff k id (assign w) s.calls ne ∙ found, own, route);
  once = o.once;
  serving = λ k worker f.
      update_worker-Serving more_running w k s.workers s.routes worker (λ v. refl) (o.serving k) f;
}

pop_call-Ends :
    (s : State) (w id now : ℕ) (c : Call)
    → Orderly s
    → Unqueued s id
    → find_call s id ≡ some c
    → (v : Worker) × (find_worker s w ≡ some v)
    → Ends (pop_call s w id now)
unfolding pop_call
pop_call-Ends s w id now c o out e (v, there) = elim (Bool-cases (leb c.deadline now)) [
  | inl late ↦ rw (pop_call, e, late) (expire-Orderly s id o)
  | inr early ↦ rw (pop_call, e, early, there) (dispatch-Orderly s w id o out)
]

module _ (s : State) (name : Bytes) (r : Route) (id : ℕ) (ids : List ℕ) (o : Orderly s)
    (e : find_route s name ≡ some r) (q : r.queue ≡ id ∷ ids) where
  abbrev pub popped : State
  popped = record s { routes = update bytes_eq name (set_queue ids) s.routes }

  -- What is in a queue behind the pop was in it before, and is not the id.
  pub popped-In :
      (n : Bytes) (r' : Route) (k : ℕ)
      → find_route popped n ≡ some r'
      → In k r'.queue
      → Waiting s.calls n k × (k ≢ id)
  popped-In n r' k f m =
      let (d, found, how) =
        found-update bytes_eq bytes_eq_iff n name (set_queue ids) s.routes r' f in
      let first : Waiting s.calls name id =
        o.queued name r id e (subst (In id) (sym q) (inl refl)) in
      elim how [
        | inl (ne, same) ↦
            let waits = o.queued n d k found (subst (λ (z : Route). In k z.queue) same m) in
            let (c, at, own, route) = first in
            (
              waits,
              λ k_id.
                  ne (
                    sym (Waiting-found s.calls n k c waits (ap (find_call s) k_id ∙ at)).1 ∙ route),
            )
        | inr (here, same) ↦
            let m' : In k ids = subst (λ (z : Route). In k z.queue) same m in
            let (fresh, _) = subst Once q (o.once name r e) in
            (
              subst (λ z. Waiting s.calls z k) (sym here)
                  (o.queued name r k e (subst (In k) (sym q) (inr m'))),
              λ k_id. fresh (subst (λ z. In z ids) k_id m'),
            )
      ]

  pub popped-Orderly : Orderly popped
  popped-Orderly = record {
    queued = λ n r' k f m. (popped-In n r' k f m).0;
    once = λ n r' f.
        let (d, found, how) =
          found-update bytes_eq bytes_eq_iff n name (set_queue ids) s.routes r' f in
        elim how [
          | inl (_, same) ↦ subst (λ (z : Route). Once z.queue) (sym same) (o.once n d found)
          | inr (_, same) ↦
              subst (λ (z : Route). Once z.queue) (sym same) (subst Once q (o.once name r e)).1
        ];
    serving = λ w worker f.
        update_route-Serving (set_queue ids) name s.routes w worker (λ r' m. m)
          (o.serving w worker f);
  }

  popped-Ends :
      (w now : ℕ) → (v : Worker) × (find_worker s w ≡ some v) → Ends (pop_call popped w id now)
  popped-Ends w now there =
      let (c, found, _, _) = o.queued name r id e (subst (In id) (sym q) (inl refl)) in
      pop_call-Ends popped w id now c popped-Orderly (λ n r' f m. (popped-In n r' id f m).1 refl)
        found there

pop_front-Ends :
    (s : State) (w : ℕ) (name : Bytes) (now : ℕ)
    → Orderly s
    → (v : Worker) × (find_worker s w ≡ some v)
    → Ends (pop_front s w name now)
unfolding pop_front
pop_front-Ends s w name now o there = elim (Option-cases (find_route s name)) [
  | inl e ↦ rw (pop_front, e) o
  | inr (r, e) ↦ elim (List-cases r.queue) [
    | inl q ↦ simp (pop_front, e, q) o
    | inr (id, ids, q) ↦ simp (pop_front, e, q) (popped-Ends s name r id ids o e q w now there)
  ]
]

pub take_round-Ends :
    (s : State) (w first second : ℕ) → Orderly s → Ends (take_round s w first second)
unfolding take_round
take_round-Ends s w first second o = elim (Option-cases (find_worker s w)) [
  | inl e ↦ rw (take_round, e) o
  | inr (wk, e) ↦ elim (Bool-cases (leb wk.concurrency wk.running)) [
    | inl busy ↦ rw (take_round, e, busy) o
    | inr free ↦
        let (v, there, _, _) = (expire_queued-Eases s wk.route first).workers w wk e in
        rw (take_round, e, free)
          (pop_front-Ends (expire_queued s wk.route first) w wk.route second
            (expire_queued-Orderly s wk.route first o) (v, there))
  ]
]

-- An update of workers that keeps their routes.
workers-Orderly :
    (s : State) (f : Worker → Worker) (w : ℕ)
    → ((v : Worker) → (f v).route ≡ v.route)
    → Orderly s
    → Orderly (record s { workers = update ◌==◌ w f s.workers })
workers-Orderly s f w keeps o = record {
  queued = o.queued;
  once = o.once;
  serving =
      λ k worker g. update_worker-Serving f w k s.workers s.routes worker keeps (o.serving k) g;
}

pub begin_take-Orderly : (s : State) (w : ℕ) → Orderly s → Orderly (begin_take s w).1
begin_take-Orderly s w o =
    begin_take_keeps Orderly s w (workers-Orderly s more_takes w (λ v. refl) o) o

pub end_take-Orderly : (s : State) (w : ℕ) → Orderly s → Orderly (end_take s w)
unfolding end_take
end_take-Orderly s w o = workers-Orderly s fewer_takes w (λ v. refl) o

pub answer-Alike :
    (s : State) (id : ℕ) (c : Call) (failed : Bool) (payload : Bytes) (now : ℕ)
    → Alike s (answer s id c failed payload now)
unfolding answer
answer-Alike s id c failed payload now = elim (Bool-cases c.response) [
  | inr e ↦ rw (answer, e) (record { calls = refl; routes = refl; workers = refl })
  | inl e ↦ elim (Bool-cases (leb c.deadline now)) [
    | inl late ↦ rw (answer, e, late) (record { calls = refl; routes = refl; workers = refl })
    | inr early ↦ rw (answer, e, early) (record { calls = refl; routes = refl; workers = refl })
  ]
]

pub complete-Orderly :
    (s : State) (w id : ℕ) (failed : Bool) (payload : Bytes) (now : ℕ)
    → Orderly s
    → Leaves Orderly (complete s w id failed payload now)
complete-Orderly s w id failed payload now o =
    complete_keeps Orderly s w id failed payload now
      (λ c h own.
        Alike-Orderly _ _ (answer-Alike (count_completed (remove s id).1) id c failed payload now) (
          Alike-Orderly (remove s id).1 _ (record { calls = refl; routes = refl; workers = refl })
            (remove-Orderly s id o)))
      o

pub wait-Orderly : (s : State) (t : Ticket) (how : Waited) → Orderly s → Orderly (wait s t how).1
wait-Orderly s t how o =
    wait_keeps Orderly s t how (λ u p. cancel-Orderly u t.call_id p) (expire-Orderly s t.call_id o)
      o
