-- ===== src/Rpc/Queues/Draining.antt =====
-- rpc.rs `try_take`: each round that goes on has taken an id out of the queue, so that the loop ends.
use velo_bus.Prelude.{
  some_injective, ℕ, zero, suc, ◌≤◌, ◌≡◌, refl, sym, ap, subst, ◌∙◌, ◌⊎◌, List, ◌∷◌, leb, update,
  Option, some, bytes_eq, bytes_eq_iff, inl, inr, arith, Option-cases, Bool-cases, List-cases,
  length,
}
use velo_bus.Protocol.Types.{Bytes, Result}
use velo_bus.Rpc.{Route, Worker, State, Job, find_call, find_worker, find_route}
use velo_bus.Rpc.Lookups.{found-update}
use velo_bus.Rpc.Calls.{expire_queued}
use velo_bus.Rpc.Requests.{
  Round, returns, continues, panics, set_queue, pop_call, pop_front, take_round, try_take,
}
use velo_bus.Rpc.Queues.{Orderly}
use velo_bus.Rpc.Queues.Sections.{Ends, take_round-Ends}
use velo_bus.Rpc.Queues.Stability.{Stable, expire-Stable, expire_queued-Stable}
use velo_bus.Rpc.Queues.Shrinking.{Shrinks, expire-Shrinks, expire_queued-Shrinks}

-- The queue of a worker's route has at most `n` ids.
abbrev pub AtMost : ℕ → State → ℕ → Type 0
AtMost n s w =
    (worker : Worker) (r : Route)
    → find_worker s w ≡ some worker
    → find_route s worker.route ≡ some r
    → length r.queue ≤ n

kept-AtMost : (n w : ℕ) (s t : State) → Stable s t → Shrinks s t → AtMost n s w → AtMost n t w
kept-AtMost n w s t a b h worker r f g =
    let (v, found, same) = a.workers w worker f in
    let (r0, at, le) = b.queues worker.route r g in
    omega (arith, le, h v r0 found (ap (find_route s) same ∙ at))

-- A round that goes on has taken an id out.
abbrev Drains : ℕ → ℕ → Round → Type 0
Drains n w (returns r s) = Unit {0}
Drains n w (continues s) = (m : ℕ) × (n ≡ suc m) × AtMost m s w
Drains n w panics = Unit {0}

pop_call-Drains :
    (s : State) (w id now n : ℕ) → AtMost n s w → Drains (suc n) w (pop_call s w id now)
unfolding pop_call
pop_call-Drains s w id now n h = elim (Option-cases (find_call s id)) [
  | inl e ↦ rw (pop_call, e) tt
  | inr (c, e) ↦ elim (Bool-cases (leb c.deadline now)) [
    | inl late ↦
        rw (pop_call, e, late)
          (n, refl, kept-AtMost n w s _ (expire-Stable s id) (expire-Shrinks s id) h)
    | inr early ↦ elim (Option-cases (find_worker s w)) [
      | inl left ↦ rw (pop_call, e, early, left) tt
      | inr (v, there) ↦ rw (pop_call, e, early, there) tt
    ]
  ]
]

positive : (n k : ℕ) → suc k ≤ n → (m : ℕ) × (n ≡ suc m)
positive zero k le = absurd (omega (arith, le))
positive (suc m) k le = (m, refl)

module _ (s : State) (w now n : ℕ) (name : Bytes)
    (size : (r : Route) → find_route s name ≡ some r → length r.queue ≤ n)
    (own : (worker : Worker) → find_worker s w ≡ some worker → worker.route ≡ name) where
  popped_AtMost :
      (r : Route) (id : ℕ) (ids : List ℕ) (m : ℕ)
      → find_route s name ≡ some r
      → r.queue ≡ id ∷ ids
      → n ≡ suc m
      → AtMost m (record s { routes = update bytes_eq name (set_queue ids) s.routes }) w
  popped_AtMost r id ids m e q more worker r' f g =
      let (d, found, how) =
        found-update bytes_eq bytes_eq_iff worker.route name (set_queue ids) s.routes r' g in
      elim how [
        | inl (ne, _) ↦ absurd (ne (own worker f))
        | inr (_, same) ↦
            omega (arith, ap (λ (z : Route). length z.queue) same, size r e, ap length q, more)
      ]

  pop_front-Drains : Drains n w (pop_front s w name now)
  unfolding pop_front
  pop_front-Drains = elim (Option-cases (find_route s name)) [
    | inl e ↦ rw (pop_front, e) tt
    | inr (r, e) ↦ elim (List-cases r.queue) [
      | inl q ↦ simp (pop_front, e, q) tt
      | inr (id, ids, q) ↦
          let popped : State = record s {
            routes = update bytes_eq name (set_queue ids) s.routes;
          } in
          let (m, more) = positive n (length ids) (omega (arith, size r e, ap length q)) in
          simp (pop_front, e, q)
            (subst (λ z. Drains z w (pop_call popped w id now)) (sym more)
              (pop_call-Drains popped w id now m (popped_AtMost r id ids m e q more)))
    ]
  ]

same_worker :
    (s : State) (w : ℕ) (a b : Worker) → find_worker s w ≡ some a → find_worker s w ≡ some b → a ≡ b
same_worker s w a b f g = some_injective (sym f ∙ g)

take_round-Drains :
    (s : State) (w first second n : ℕ) → AtMost n s w → Drains n w (take_round s w first second)
unfolding take_round
take_round-Drains s w first second n h = elim (Option-cases (find_worker s w)) [
  | inl e ↦ rw (take_round, e) tt
  | inr (wk, e) ↦ elim (Bool-cases (leb wk.concurrency wk.running)) [
    | inl busy ↦ rw (take_round, e, busy) tt
    | inr free ↦
        let b = expire_queued-Shrinks s wk.route first in
        let a = expire_queued-Stable s wk.route first in
        rw (take_round, e, free)
          (pop_front-Drains (expire_queued s wk.route first) w second n wk.route
            (λ r f. let (r0, at, le) = b.queues wk.route r f in omega (arith, le, h wk r0 e at))
            (λ worker f.
              let (v, found, same) = a.workers w worker f in
              sym same ∙ ap (λ (z : Worker). z.route) (same_worker s w v wk found e)))
  ]
]

round_cases :
    (r : Round)
    → ((a : Result (Option Job)) × (t : State) × (r ≡ returns a t))
      ⊎ ((t : State) × (r ≡ continues t))
      ⊎ (r ≡ panics)
round_cases (returns a t) = inl (a, t, refl)
round_cases (continues t) = inr (inl (t, refl))
round_cases panics = inr (inr refl)

-- The loop ends with a result on that fuel and one more.
abbrev pub EndsWithin : ℕ → State → ℕ → (ℕ → ℕ × ℕ) → Type 0
EndsWithin fuel s w clock =
    (r : Result (Option Job)) × (t : State) × (try_take (suc fuel) s w clock (λ _ z. z)
      ≡ some (r, t))

one_round :
    (fuel : ℕ) (s : State) (w : ℕ) (clock : ℕ → ℕ × ℕ)
    → Orderly s
    → AtMost fuel s w
    → ((m : ℕ) (t : State) → fuel ≡ suc m → Orderly t → AtMost m t w → EndsWithin m t w clock)
    → EndsWithin fuel s w clock
unfolding try_take
one_round fuel s w clock o h next =
    let round = take_round s w (clock fuel).0 (clock fuel).1 in
    let ends : Ends round = take_round-Ends s w (clock fuel).0 (clock fuel).1 o in
    let drains : Drains fuel w round = take_round-Drains s w (clock fuel).0 (clock fuel).1 fuel h in
    elim (round_cases round) [
      | inl (a, t, e) ↦ (a, t, rw (try_take, e) refl)
      | inr (inl (t, e)) ↦
          let (m, more, less) = subst (Drains fuel w) e drains in
          let (a, u, ended) = next m t more (subst Ends e ends) less in
          (
            a,
            u,
            rw (try_take, e)
                (subst (λ z. try_take z t w clock (λ _ y. y) ≡ some (a, u)) (sym more) ended),
          )
      | inr (inr e) ↦ absurd (subst Ends e ends)
    ]

-- The loop of TAKE ends with a result when it may go round once more than there are ids in the
-- queue of the worker's route, if queues and calls are in order, and no other section comes between
-- its rounds.
pub try_take_ends :
    (fuel : ℕ) (s : State) (w : ℕ) (clock : ℕ → ℕ × ℕ)
    → Orderly s
    → AtMost fuel s w
    → EndsWithin fuel s w clock
try_take_ends zero s w clock o h =
    one_round zero s w clock o h (λ m t more o' h'. absurd (omega (arith, more)))
try_take_ends (suc fuel) s w clock o h = one_round (suc fuel) s w clock o h (λ m t more o' h'.
    let same : fuel ≡ m = omega (arith, more) in
    subst (λ z. EndsWithin z t w clock) same
      (try_take_ends fuel t w clock o' (subst (λ z. AtMost z t w) (sym same) h')))
