-- ===== src/Rpc/Sections.antt =====
-- rpc.rs: a property of states is kept by a locked section when the moves that the section is made of
-- keep it. The sections' guards and early returns are gone through once, here.
use velo_bus.Prelude.{
  ℕ, ◌+◌, ◌^◌, ◌≡◌, refl, subst, inl, inr, Bool, true, false, not, List, [], ◌∷◌, ◌++◌, ◌==◌, leb,
  update, filter, none, some, bytes_eq, Option-cases, Bool-cases, List-cases, contains_id,
}
use velo_bus.Protocol.Types.{Bytes}
use velo_bus.Rpc.{Route, Worker, Call, State, find_call, find_worker, find_route}
use velo_bus.Rpc.Calls.{expire, expire_queued, remove, cancel, silence_each}
use velo_bus.Rpc.Routes.{
  connected, join, disagrees, register, is_owner, ids_of, worker_left, disconnect,
}
use velo_bus.Rpc.Requests.{
  call_bytes, reject, is_full, admit, admission, request, set_queue, dispatch, pop_call, pop_front,
  take_round, more_takes, begin_take, count_completed, answer, complete, Ticket, Waited, replied,
  closed, elapsed, wait,
}
use velo_bus.Rpc.Outcomes.{Leaves, Rests, Stays}

-- A call that is there is what its removal gives.
pub remove_call :
    (s : State) (id : ℕ) (c : Call) → find_call s id ≡ some c → (remove s id).0 ≡ some c
unfolding remove
remove_call s id c e = rw (remove, e) refl

module _ (P : State → Type 0) where
  pub connected_keeps :
      (s : State) (c : ℕ)
      → ((cs : List ℕ) → P (record s { connections = cs }))
      → P s
      → P (connected s c)
  unfolding connected
  connected_keeps s c relinks p = elim (Bool-cases (contains_id c s.connections)) [
    | inl e ↦ rw (connected, e) p
    | inr e ↦ rw (connected, e) (relinks (s.connections ++ c ∷ []))
  ]

  pub register_keeps :
      (s : State) (w : ℕ) (name : Bytes) (concurrency queue_limit : ℕ)
      → (find_worker s w ≡ none → P (join s w name concurrency queue_limit))
      → P s
      → P (register s w name concurrency queue_limit).1
  unfolding register
  register_keeps s w name concurrency queue_limit joins p =
      elim (Bool-cases (contains_id w s.connections)) [
        | inr shut ↦ rw (register, shut) p
        | inl there ↦ elim (Option-cases (find_worker s w)) [
          | inr (v, e) ↦ rw (register, there, e) p
          | inl e ↦ elim (Bool-cases (disagrees s name queue_limit)) [
            | inl bad ↦ rw (register, there, e, bad) p
            | inr good ↦ rw (register, there, e, good) (joins e)
          ]
        ]
      ]

  module _ (caller : ℕ) (route : Bytes) (timeout_ms : ℕ) (payload : Bytes) where
    admission_keeps :
        (s : State) (now : ℕ)
        → P (reject s)
        → ((r : Route) (deadline : ℕ)
            → find_route s route ≡ some r
            → is_full s r (call_bytes route payload) ≡ false
            → P (admit s caller route deadline payload (call_bytes route payload)))
        → P s
        → Leaves P (admission s caller route timeout_ms payload now)
    unfolding admission
    admission_keeps s now rejects admits p = elim (Option-cases (find_route s route)) [
      | inl e ↦ rw (admission, e) tt
      | inr (r, e) ↦ elim (Bool-cases (is_full s r (call_bytes route payload))) [
        | inl full ↦ rw (admission, e, full) rejects
        | inr free ↦ elim (Bool-cases (leb (2 ^ 64) (s.next_id + 1))) [
          | inl over ↦ rw (admission, e, free, over) p
          | inr fresh ↦ rw (admission, e, free, fresh) (admits r _ e free)
        ]
      ]
    ]

    pub request_keeps :
        (s : State) (first second : ℕ)
        → P (reject s)
        → P (reject (expire_queued s route first))
        → ((r : Route) (deadline : ℕ)
            → find_route (expire_queued s route first) route ≡ some r
            → is_full (expire_queued s route first) r (call_bytes route payload) ≡ false
            → P (
                admit
                  (expire_queued s route first)
                  caller
                  route
                  deadline
                  payload
                  (call_bytes route payload)))
        → P (expire_queued s route first)
        → P s
        → Leaves P (request s caller route timeout_ms payload first second)
    unfolding request
    request_keeps s first second unknown full admits cleaned p =
        elim (Bool-cases (contains_id caller s.connections)) [
          | inr shut ↦ rw (request, shut) p
          | inl there ↦ elim (Option-cases (find_route s route)) [
            | inl e ↦ rw (request, there, e) unknown
            | inr (r, e) ↦
                rw (request, there, e)
                  (admission_keeps (expire_queued s route first) second full admits cleaned)
          ]
        ]

  pub begin_take_keeps :
      (s : State) (w : ℕ)
      → P (record s { workers = update ◌==◌ w more_takes s.workers })
      → P s
      → P (begin_take s w).1
  unfolding begin_take
  begin_take_keeps s w counts p = elim (Option-cases (find_worker s w)) [
    | inl e ↦ rw (begin_take, e) p
    | inr (v, e) ↦ elim (Bool-cases (leb v.concurrency v.pending_takes)) [
      | inl full ↦ rw (begin_take, e, full) p
      | inr free ↦ rw (begin_take, e, free) counts
    ]
  ]

  -- The call that a round pops.
  pub pop_call_keeps :
      (t : State) (w id now : ℕ)
      → P (expire t id)
      → ((c : Call) → find_call t id ≡ some c → P (dispatch t w id))
      → Rests P (pop_call t w id now)
  unfolding pop_call
  pop_call_keeps t w id now expires dispatches = elim (Option-cases (find_call t id)) [
    | inl e ↦ rw (pop_call, e) tt
    | inr (c, e) ↦ elim (Bool-cases (leb c.deadline now)) [
      | inl late ↦ rw (pop_call, e, late) expires
      | inr early ↦ elim (Option-cases (find_worker t w)) [
        | inl left ↦ rw (pop_call, e, early, left) tt
        | inr (v, there) ↦ rw (pop_call, e, early, there) (dispatches c e)
      ]
    ]
  ]

  pub pop_front_keeps :
      (s : State) (w : ℕ) (name : Bytes) (now : ℕ)
      → ((r : Route) (id : ℕ) (ids : List ℕ)
          → find_route s name ≡ some r
          → r.queue ≡ id ∷ ids
          → Rests P (
              pop_call
                (record s { routes = update bytes_eq name (set_queue ids) s.routes })
                w
                id
                now))
      → P s
      → Rests P (pop_front s w name now)
  unfolding pop_front
  pop_front_keeps s w name now pops p = elim (Option-cases (find_route s name)) [
    | inl e ↦ rw (pop_front, e) p
    | inr (r, e) ↦ elim (List-cases r.queue) [
      | inl q ↦ simp (pop_front, e, q) p
      | inr (id, ids, q) ↦ simp (pop_front, e, q) (pops r id ids e q)
    ]
  ]

  pub take_round_keeps :
      (s : State) (w first second : ℕ)
      → ((v : Worker)
          → find_worker s w ≡ some v
          → leb v.concurrency v.running ≡ false
          → Rests P (pop_front (expire_queued s v.route first) w v.route second))
      → P s
      → Rests P (take_round s w first second)
  unfolding take_round
  take_round_keeps s w first second pops p = elim (Option-cases (find_worker s w)) [
    | inl e ↦ rw (take_round, e) p
    | inr (v, e) ↦ elim (Bool-cases (leb v.concurrency v.running)) [
      | inl busy ↦ rw (take_round, e, busy) p
      | inr free ↦ rw (take_round, e, free) (pops v e free)
    ]
  ]

  pub complete_keeps :
      (s : State) (w id : ℕ) (failed : Bool) (payload : Bytes) (now : ℕ)
      → ((c : Call)
          → find_call s id ≡ some c
          → is_owner w c.owner ≡ true
          → P (answer (count_completed (remove s id).1) id c failed payload now))
      → P s
      → Leaves P (complete s w id failed payload now)
  unfolding complete
  complete_keeps s w id failed payload now answers p = elim (Option-cases (find_worker s w)) [
    | inl e ↦ rw (complete, e) p
    | inr (v, e) ↦ elim (Option-cases (find_call s id)) [
      | inl u ↦ rw (complete, e, u) p
      | inr (c, h) ↦ elim (Bool-cases (is_owner w c.owner)) [
        | inr other ↦ rw (complete, e, h, other) p
        | inl own ↦ rw (complete, e, h, own, remove_call s id c h) (answers c h own)
      ]
    ]
  ]

  pub wait_keeps :
      (s : State) (t : Ticket) (how : Waited)
      → ((u : State) → P u → P (cancel u t.call_id))
      → P (expire s t.call_id)
      → P s
      → P (wait s t how).1
  unfolding wait
  wait_keeps s t (replied r) cancels expires p = cancels s p
  wait_keeps s t closed cancels expires p = cancels s p
  wait_keeps s t elapsed cancels expires p = cancels (expire s t.call_id) expires

  pub silence_each_keeps :
      ((u : State) (id : ℕ) → P u → P (cancel u id))
      → (s : State) (ids : List ℕ) → P s
      → Stays P (silence_each s ids)
  unfolding silence_each
  silence_each_keeps cancels s [] p = p
  silence_each_keeps cancels s (id ∷ ids) p = elim (Option-cases (find_call s id)) [
    | inl e ↦ rw (silence_each, e) tt
    | inr (c, e) ↦
        rw (silence_each, e) (silence_each_keeps cancels (cancel s id) ids (cancels s id p))
  ]

  pub disconnect_keeps :
      (s : State) (c : ℕ)
      → ((cs : List ℕ) → P (record s { connections = cs }))
      → ((u : State) (id : ℕ) → P u → P (cancel u id))
      → ((u : State) (v : Worker) → find_worker u c ≡ some v → P u → Stays P (worker_left u c v))
      → Stays P (disconnect s c)
  unfolding disconnect
  disconnect_keeps s c relinks cancels leaves =
      let s1 : State = record s { connections = filter (λ x. not (x == c)) s.connections } in
      let ids = ids_of (λ x. x.caller == c) s1.calls in
      let all = silence_each_keeps cancels s1 ids (relinks _) in
      elim (Option-cases (silence_each s1 ids)) [
        | inl q ↦ rw (disconnect, q) tt
        | inr (u, q) ↦
            let p : P u = subst (Stays P) q all in
            elim (Option-cases (find_worker u c)) [
              | inl e ↦ rw (disconnect, q, e) p
              | inr (v, e) ↦ rw (disconnect, q, e) (leaves u v e p)
            ]
      ]
