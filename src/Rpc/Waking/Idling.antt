-- ===== src/Rpc/Waking/Idling.antt =====
-- rpc.rs `take`: a round that hands out nothing leaves its worker without work, or woken.
use velo_bus.Prelude.{
  none_is_not_some, some_injective, ℕ, zero, suc, ◌≤◌, ◌≡◌, ◌⊎◌, inl, inr, refl, sym, ap, subst,
  ◌∙◌, List, [], ◌∷◌, ◌++◌, leb, length, length-append, drop, none, some, In, In-append_left,
  In-append_right, Option-cases, Bool-cases, List-cases, arith,
}
use velo_bus.Protocol.Types.{ok, err}
use velo_bus.Rpc.{Route, Worker, State, find_worker, find_route, find_call}
use velo_bus.Rpc.Calls.{expire_queued}
use velo_bus.Rpc.Requests.{Round, returns, continues, panics, take_round, pop_front, pop_call}
use velo_bus.Rpc.Queues.Stability.{expire_queued-Stable}
use velo_bus.Rpc.Waking.{Woken}
use velo_bus.Rpc.Waking.Work.{HasWork, Calm}
use velo_bus.Rpc.Waking.Calm.{expire_queued-Calm}

-- A worker is there and has no work.
abbrev pub Idle : ℕ → State → Type 0
Idle w s = (v : Worker) × (find_worker s w ≡ some v) × (HasWork s v → ⊥)

drop-append_within : (n : ℕ) (xs ys : List ℕ) → n ≤ length xs → drop n (xs ++ ys) ≡ drop n xs ++ ys
drop-append_within zero xs ys le = refl
drop-append_within (suc n) [] ys le = absurd (omega (arith, le))
drop-append_within (suc n) (x ∷ xs) ys le = drop-append_within n xs ys (omega (arith, le))

abbrev pub Within : ℕ → State → Type 0
Within n s = n ≤ length s.notified

pub Calm-Within : (w n : ℕ) (s t : State) → Calm w s t → Within n s → Within n t
Calm-Within w n s t a le = omega (arith, le, ap length a.log, length-append s.notified a.new)

grown :
    (w n : ℕ) (s t : State) (a : Calm w s t)
    → Within n s
    → In w (drop n s.notified ++ a.new)
    → Woken w n t
grown w n s t a le m =
    subst (λ z. In w (drop n z)) (sym a.log)
      (subst (In w) (sym (drop-append_within n s.notified a.new le)) m)

-- What was woken or idle is so behind a section.
pub Calm-Idle :
    (w n : ℕ) (s t : State)
    → Calm w s t
    → Within n s
    → Woken w n s ⊎ Idle w s
    → Woken w n t ⊎ Idle w t
Calm-Idle w n s t a le (inl m) =
    inl (grown w n s t a le (In-append_left w (drop n s.notified) a.new m))
Calm-Idle w n s t a le (inr (v, there, rest)) = elim a.quiet [
  | inl m ↦ inl (grown w n s t a le (In-append_right w (drop n s.notified) a.new m))
  | inr f ↦ let (u, there', back) = f v there in inr (u, there', λ h. rest (back h))
]

-- What a round of TAKE that hands out nothing says of the state that it leaves.
abbrev pub Empty : ℕ → ℕ → Round → Type 0
Empty w n (returns (ok none) t) = Woken w n t ⊎ Idle w t
Empty w n (returns (ok (some job)) t) = Unit {0}
Empty w n (returns (err e) t) = Unit {0}
Empty w n (continues t) = Unit {0}
Empty w n panics = Unit {0}

pop_call-Empty : (w n : ℕ) (s : State) (id now : ℕ) → Empty w n (pop_call s w id now)
unfolding pop_call
pop_call-Empty w n s id now = elim (Option-cases (find_call s id)) [
  | inl e ↦ rw (pop_call, e) tt
  | inr (c, e) ↦ elim (Bool-cases (leb c.deadline now)) [
    | inl late ↦ rw (pop_call, e, late) tt
    | inr early ↦ elim (Option-cases (find_worker s w)) [
      | inl left ↦ rw (pop_call, e, early, left) tt
      | inr (v, there) ↦ rw (pop_call, e, early, there) tt
    ]
  ]
]

-- Behind the clean-up of its queue, a worker whose queue is not supplied is idle or woken.
cleaned-Idle :
    (w n : ℕ) (s : State) (v : Worker) (now : ℕ)
    → Within n s
    → find_worker s w ≡ some v
    → ((r : Route) → find_route (expire_queued s v.route now) v.route ≡ some r → r.queue ≡ [])
    → Woken w n (expire_queued s v.route now) ⊎ Idle w (expire_queued s v.route now)
cleaned-Idle w n s v now le there empty =
    let t = expire_queued s v.route now in
    let a = expire_queued-Calm w s v.route now in
    elim a.quiet [
      | inl m ↦ inl (grown w n s t a le (In-append_right w (drop n s.notified) a.new m))
      | inr f ↦
          let (u, there', back) = f v there in
          let (v', found', route) = (expire_queued-Stable s v.route now).workers w u there' in
          inr (
            u,
            there',
            λ (free, (r, at, full)).
                full (empty r (ap (find_route t) (one v' found' ∙ route) ∙ at)),
          )
    ]
  where
    one : (v' : Worker) → find_worker s w ≡ some v' → v.route ≡ v'.route
    one v' found' = ap (λ (z : Worker). z.route) (some_injective (sym there ∙ found'))

pub take_round-Empty :
    (w n : ℕ) (s : State) (first second : ℕ) → Within n s → Empty w n (take_round s w first second)
unfolding take_round pop_front
take_round-Empty w n s first second le = elim (Option-cases (find_worker s w)) [
  | inl e ↦ rw (take_round, e) tt
  | inr (v, e) ↦ elim (Bool-cases (leb v.concurrency v.running)) [
    | inl busy ↦
        rw (take_round, e, busy)
          (inr (v, e, λ (free, supplied). absurd (ground (arith, busy, free))))
    | inr free ↦
        let t = expire_queued s v.route first in
        elim (Option-cases (find_route t v.route)) [
          | inl gone ↦
              rw (take_round, e, free, pop_front, gone)
                (cleaned-Idle w n s v first le e
                  (λ r at. absurd (none_is_not_some (sym gone ∙ at))))
          | inr (r, at) ↦ elim (List-cases r.queue) [
            | inl q ↦
                simp (take_round, e, free, pop_front, at, q)
                  (cleaned-Idle w n s v first le e
                    (λ r' at'. ap (λ (z : Route). z.queue) (one r r' (sym at ∙ at')) ∙ q))
            | inr (id, ids, q) ↦
                simp (take_round, e, free, pop_front, at, q) (pop_call-Empty w n _ id second)
          ]
        ]
  ]
]
  where
    one : (r r' : Route) → some r ≡ some r' → r' ≡ r
    one r r' q = cc
