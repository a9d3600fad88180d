-- ===== src/Rpc/Waking/Serving.antt =====
-- rpc.rs: the sections behind TAKE, COMPLETE and a ticket wake a worker that they get work for.
use mathlib.Core.Option
use velo_bus.Prelude.{
  ℕ, ◌<◌, ◌≡◌, inl, inr, refl, sym, ap, subst, ◌∙◌, Bool, List, [], ◌∷◌, ◌==◌, ==_iff, leb, lookup,
  update, some, bytes_eq, Bool-cases, arith,
}
use velo_bus.Protocol.Types.{Bytes}
use velo_bus.Rpc.{Route, Worker, Call, State, find_route}
use velo_bus.Rpc.Lookups.{lookup-update_at, lookup-update_other}
use velo_bus.Rpc.Calls.{expire_queued, remove}
use velo_bus.Rpc.Requests.{
  more_running, dispatch, set_queue, pop_call, take_round, more_takes, begin_take, fewer_takes,
  end_take, count_completed, answer, complete, Ticket, Waited, wait,
}
use velo_bus.Rpc.Outcomes.{Rests, Leaves}
use velo_bus.Rpc.Queues.Handing.{same_route}
use velo_bus.Rpc.Waking.Work.{
  Supplied, NoMore, Calm, Calm-trans, silent-Calm, same-Calm, Calm-refl, update-Supplied,
}
use velo_bus.Rpc.Waking.Calm.{remove-Calm, expire-Calm, expire_queued-Calm, cancel-Calm}
use velo_bus.Rpc.Sections.{
  pop_call_keeps, pop_front_keeps, take_round_keeps, begin_take_keeps, complete_keeps, wait_keeps,
}

-- An update of workers that frees no slot.
workers-Calm :
    (w : ℕ) (s t : State) (k : ℕ) (f : Worker → Worker)
    → t.notified ≡ s.notified
    → t.routes ≡ s.routes
    → t.workers ≡ update ◌==◌ k f s.workers
    → ((v : Worker) → (f v).route ≡ v.route)
    → ((v : Worker) → (f v).running < (f v).concurrency → v.running < v.concurrency)
    → Calm w s t
workers-Calm w s t k f log routes workers route frees = silent-Calm w s t log more
  where
    supplied-back : (v : Worker) → Supplied t.routes (f v) → Supplied s.routes v
    supplied-back v (r, at, full) = (
      r,
      ap (λ z. lookup bytes_eq z s.routes) (sym (route v))
          ∙ ap (lookup bytes_eq (f v).route) (sym routes)
          ∙ at,
      full,
    )

    more : NoMore w s t
    more v there = elim (Bool-cases (w == k)) [
      | inl e ↦
          let same : w ≡ k = (==_iff w k).0 e in
          (
            f v,
            ap (lookup ◌==◌ w) workers
                ∙ ap (λ z. lookup ◌==◌ w (update ◌==◌ z f s.workers)) (sym same)
                ∙ lookup-update_at ◌==◌ ==_iff w f s.workers
                ∙ ap (Option.map f) there,
            λ (free, supplied). (frees v free, supplied-back v supplied),
          )
      | inr e ↦ (
        v,
        ap (lookup ◌==◌ w) workers
            ∙ lookup-update_other ◌==◌ ==_iff w k f s.workers (λ q. absurd (ground (arith, q, e)))
            ∙ there,
        λ (free, supplied). (free, subst (λ z. Supplied z v) routes supplied),
      )
    ]

-- A queue that is popped.
popped-Calm :
    (w : ℕ) (s : State) (name : Bytes) (r : Route) (id : ℕ) (ids : List ℕ)
    → find_route s name ≡ some r
    → r.queue ≡ id ∷ ids
    → Calm w s (record s { routes = update bytes_eq name (set_queue ids) s.routes })
popped-Calm w s name r id ids e q = silent-Calm w s _ refl (λ v there. (
  v,
  there,
  λ (free, supplied). (
    free,
    update-Supplied (set_queue ids) name s.routes v
        (λ r' at same full empty.
          cons-is-not-nil
            (sym q ∙ ap (λ (z : Route). z.queue) (sym (same_route s name r r' e at)) ∙ empty))
        supplied,
  ),
))
  where
    cons-is-not-nil : id ∷ ids ≡ [] → ⊥
    cons-is-not-nil z = cc

pop_call-Calm :
    (w : ℕ) (s t : State) (k id now : ℕ) → Calm w s t → Rests (Calm w s) (pop_call t k id now)
pop_call-Calm w s t k id now a =
    pop_call_keeps (Calm w s) t k id now (Calm-trans w s t _ a (expire-Calm w t id)) (λ c e.
      Calm-trans w s t _ a (
        workers-Calm w t (dispatch t k id) k more_running refl refl refl (λ v. refl)
          (λ v h. omega (arith, h))))

pub take_round-Calm :
    (w : ℕ) (s : State) (k first second : ℕ) → Rests (Calm w s) (take_round s k first second)
take_round-Calm w s k first second =
    take_round_keeps (Calm w s) s k first second
      (λ v e free.
        let t = expire_queued s v.route first in
        let cleaned = expire_queued-Calm w s v.route first in
        pop_front_keeps (Calm w s) t k v.route second
          (λ r id ids at q.
            pop_call-Calm w s
              (record t { routes = update bytes_eq v.route (set_queue ids) t.routes }) k id second
              (Calm-trans w s t _ cleaned (popped-Calm w t v.route r id ids at q)))
          cleaned)
      (Calm-refl w s)

pub begin_take-Calm : (w : ℕ) (s : State) (k : ℕ) → Calm w s (begin_take s k).1
begin_take-Calm w s k =
    begin_take_keeps (Calm w s) s k
      (workers-Calm w s _ k more_takes refl refl refl (λ u. refl) (λ u h. h)) (Calm-refl w s)

pub end_take-Calm : (w : ℕ) (s : State) (k : ℕ) → Calm w s (end_take s k)
unfolding end_take
end_take-Calm w s k = workers-Calm w s _ k fewer_takes refl refl refl (λ u. refl) (λ u h. h)

answer-Calm :
    (w : ℕ) (s : State) (id : ℕ) (c : Call) (failed : Bool) (payload : Bytes) (now : ℕ)
    → Calm w s (answer s id c failed payload now)
unfolding answer
answer-Calm w s id c failed payload now = elim (Bool-cases c.response) [
  | inr e ↦ rw (answer, e) (Calm-refl w s)
  | inl e ↦ elim (Bool-cases (leb c.deadline now)) [
    | inl late ↦ rw (answer, e, late) (same-Calm w s _ refl refl refl)
    | inr early ↦ rw (answer, e, early) (same-Calm w s _ refl refl refl)
  ]
]

pub complete-Calm :
    (w : ℕ) (s : State) (k id : ℕ) (failed : Bool) (payload : Bytes) (now : ℕ)
    → Leaves (Calm w s) (complete s k id failed payload now)
complete-Calm w s k id failed payload now =
    complete_keeps (Calm w s) s k id failed payload now
      (λ c h own. Calm-trans w s (remove s id).1 _ (remove-Calm w s id) (
        Calm-trans w (remove s id).1 (count_completed (remove s id).1) _
          (same-Calm w _ _ refl refl refl)
          (answer-Calm w (count_completed (remove s id).1) id c failed payload now)))
      (Calm-refl w s)

pub wait-Calm : (w : ℕ) (s : State) (t : Ticket) (how : Waited) → Calm w s (wait s t how).1
wait-Calm w s t how =
    wait_keeps (Calm w s) s t how (λ u a. Calm-trans w s u _ a (cancel-Calm w u t.call_id))
      (expire-Calm w s t.call_id) (Calm-refl w s)
