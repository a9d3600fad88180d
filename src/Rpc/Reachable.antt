-- ===== src/Rpc/Reachable.antt =====
-- rpc.rs: taking, completing, waiting and disconnecting keep the invariant; reachable states.
use velo_bus.Prelude.{
  ℕ, ◌≡◌, inl, inr, refl, sym, subst, Bool, ◌==◌, update, erase, filter, some, length, Bool-cases,
  leb, bytes_eq, not, [], ◌∷◌, ◌++◌,
}
use velo_bus.Protocol.Types.{Bytes}
use velo_bus.Rpc.{Call, State, find_call, find_route}
use velo_bus.Rpc.Ledger.{update-Ledger}
use velo_bus.Rpc.Calls.{remove, expire_queued}
use velo_bus.Rpc.Moves.{
  Sound, Quiet-Sound, Removed, remove-Removed, found_cases, notify_route-Quiet,
}
use velo_bus.Rpc.Expiry.{
  expire-Sound, expire_queued-Sound, cancel-Sound, send_behind, split_result, either_way,
  fail_each-Sound,
}
use velo_bus.Rpc.Routes.{leave_route, worker_left, disconnect, gone, last_gone}
use velo_bus.Rpc.Requests.{
  Ticket, assign, dispatch, set_queue, pop_front, take_round, begin_take, end_take, outcome, answer,
  count_completed, complete, Waited, wait,
}
use velo_bus.Rpc.Outcomes.{Rests, Stays, Leaves}
use velo_bus.Rpc.Sections.{
  pop_call_keeps, pop_front_keeps, take_round_keeps, begin_take_keeps, complete_keeps, wait_keeps,
  disconnect_keeps,
}

dispatch-Sound : (s : State) (w id : ℕ) → Sound s → Sound (dispatch s w id)
dispatch-Sound s w id l =
    update-Ledger s.calls s.next_id s.retained_bytes s.max_calls s.max_bytes s.sent l id (assign w)
      (λ _. refl) (λ _ e. e)

pop_front-Sound :
    (s : State) (w : ℕ) (name : Bytes) (now : ℕ) → Sound s → Rests Sound (pop_front s w name now)
pop_front-Sound s w name now l =
    pop_front_keeps Sound s w name now
      (λ r id ids e q.
        let popped : State = record s { routes = update bytes_eq name (set_queue ids) s.routes } in
        let l' : Sound popped = l in
        pop_call_keeps Sound popped w id now (expire-Sound popped id l')
          (λ c f. dispatch-Sound popped w id l'))
      l

pub take_round-Sound :
    (s : State) (w first second : ℕ) → Sound s → Rests Sound (take_round s w first second)
take_round-Sound s w first second l =
    take_round_keeps Sound s w first second
      (λ v e free.
        pop_front-Sound (expire_queued s v.route first) w v.route second
          (expire_queued-Sound s v.route first l))
      l

pub begin_take-Sound : (s : State) (w : ℕ) → Sound s → Sound (begin_take s w).1
begin_take-Sound s w l = begin_take_keeps Sound s w l l

pub end_take-Sound : (s : State) (w : ℕ) → Sound s → Sound (end_take s w)
unfolding end_take
end_take-Sound s w l = l

-- The answer to a completed call, once it has been taken out.
answer-Sound :
    (s s' : State) (id : ℕ) (c : Call) (failed : Bool) (payload : Bytes) (now : ℕ)
    → Sound s
    → find_call s id ≡ some c
    → Removed s id c (some c, s')
    → Sound (answer (count_completed s') id c failed payload now)
unfolding answer
answer-Sound s s' id c failed payload now l e v =
    either_way c.response _ _
      (λ o.
        let base = send_behind s s' id c (outcome c failed payload now) l e o v in
        elim (Bool-cases (leb c.deadline now)) [
          | inl late ↦ simp late base
          | inr early ↦ simp early base
        ])
      v.sound

pub complete-Sound :
    (s : State) (w id : ℕ) (failed : Bool) (payload : Bytes) (now : ℕ)
    → Sound s
    → Leaves Sound (complete s w id failed payload now)
complete-Sound s w id failed payload now l =
    complete_keeps Sound s w id failed payload now
      (λ c h own.
        let (s', r, v) = split_result s id c (remove s id) (remove-Removed s id c l h) in
        subst (λ z. Sound (answer (count_completed z.1) id c failed payload now)) (sym r)
          (answer-Sound s s' id c failed payload now l h v))
      l

pub wait-Sound : (s : State) (t : Ticket) (how : Waited) → Sound s → Sound (wait s t how).1
wait-Sound s t how l =
    wait_keeps Sound s t how (λ u p. cancel-Sound u t.call_id p) (expire-Sound s t.call_id l) l

leave_route-Sound :
    (s : State) (w : ℕ) (name : Bytes) → Sound s → Stays Sound (leave_route s w name)
unfolding leave_route
leave_route-Sound s w name l = elim (found_cases (find_route s name)) [
  | inl e ↦ rw (leave_route, e) tt
  | inr (r, e) ↦
      let left = filter (λ id. not (id == w)) r.workers in
      rw (leave_route, e)
        (either_way (length left == 0) _ _
          (λ _.
            fail_each-Sound (record s { routes = erase bytes_eq name s.routes }) r.queue last_gone
              l)
          (Quiet-Sound _ _
            (notify_route-Quiet
              (record s {
                routes = update bytes_eq name (λ r'. record r' { workers = left }) s.routes;
              })
              name)
            l))
]

pub disconnect-Sound : (s : State) (w : ℕ) → Sound s → Stays Sound (disconnect s w)
unfolding worker_left
disconnect-Sound s w l =
    disconnect_keeps Sound s w (λ cs. l) (λ u id p. cancel-Sound u id p)
      (λ u v e p.
        let resigned : State = record u {
          workers = erase ◌==◌ w u.workers;
          notified = u.notified ++ w ∷ [];
        } in
        let p' : Sound resigned = p in
        leave_route-Sound _ w v.route (fail_each-Sound resigned _ gone p'))
