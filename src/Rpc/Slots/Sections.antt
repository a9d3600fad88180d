-- ===== src/Rpc/Slots/Sections.antt =====
-- rpc.rs: taking, completing and waiting keep the counts of running calls.
use velo_bus.Prelude.{
  none_is_not_some, ℕ, ◌<◌, ◌≡◌, ◌≢◌, refl, sym, ap, subst, ◌∙◌, inl, inr, Bool, ◌==◌, ==_iff,
  if◌then◌else◌, update, none, some, bytes_eq, In, arith,
}
use velo_bus.Protocol.Types.{Bytes}
use velo_bus.Rpc.{Worker, Call, State, find_call, find_worker}
use velo_bus.Rpc.Lookups.{found-update}
use velo_bus.Rpc.Calls.{remove, expire, expire_queued}
use velo_bus.Rpc.Routes.{is_owner}
use velo_bus.Rpc.Requests.{
  Ticket, assign, more_running, dispatch, set_queue, pop_front, take_round, more_takes, begin_take,
  fewer_takes, end_take, count_completed, complete, Waited, replied, closed, elapsed, wait,
}
use velo_bus.Rpc.Moves.{Sound}
use velo_bus.Rpc.Outcomes.{Rests, Leaves}
use velo_bus.Rpc.Queues.{Orderly}
use velo_bus.Rpc.Queues.Removal.{expire_queued-Orderly}
use velo_bus.Rpc.Queues.Sections.{answer-Alike}
use velo_bus.Rpc.Slots.{owns, Slots}
use velo_bus.Rpc.Slots.Counting.{owned_by-update, missing-update}
use velo_bus.Rpc.Slots.Easing.{expire_queued-Eases}
use velo_bus.Rpc.Slots.Releases.{
  same-SlotsBut, remove-SlotsBut, expire-Books, expire_queued-Books, cancel-Books,
}
use velo_bus.Rpc.Slots.Joining.{Nobody}
use velo_bus.Rpc.Sections.{
  begin_take_keeps, pop_call_keeps, pop_front_keeps, take_round_keeps, complete_keeps,
}

-- What a call that is handed out is like: waiting, for a worker with a free slot.
record Handed (s : State) (w id : ℕ) : Type 0 where
  call : Call
  found : find_call s id ≡ some call
  waits : call.owner ≡ none
  worker : Worker
  there : find_worker s w ≡ some worker
  free : worker.running < worker.concurrency

dispatch-Slots :
    (s : State) (w id : ℕ) → Sound s → Slots s → Handed s w id → Slots (dispatch s w id)
dispatch-Slots s w id l h t = record {
  exact = λ k worker f.
      let (d, found, how) = found-update ◌==◌ ==_iff k w more_running s.workers worker f in
      let (count, limit) = h.exact k d found in
      let moved = owned_by-update k id (assign w) s.calls t.call l.unique t.found in
      elim how [
        | inl (ne, q) ↦
            let other : one_if w k ≡ 0 = ground (arith, ne) in
            (
              omega (arith, ap (λ (z : Worker). z.running) q, count, moved, not_owned k, other),
              omega (
                arith,
                ap (λ (z : Worker). z.running) q,
                ap (λ (z : Worker). z.concurrency) q,
                limit,
              ),
            )
        | inr (same, q) ↦
            let own : one_if w k ≡ 1 = ground (arith, same) in
            let is_worker : d ≡ t.worker =
              inner d t.worker (sym found ∙ ap (find_worker s) same ∙ t.there) in
            (
              omega (arith, ap (λ (z : Worker). z.running) q, count, moved, not_owned k, own),
              omega (
                arith,
                ap (λ (z : Worker). z.running) q,
                ap (λ (z : Worker). z.concurrency) q,
                ap (λ (z : Worker). z.running) is_worker,
                ap (λ (z : Worker). z.concurrency) is_worker,
                t.free,
              ),
            )
      ];
  hired = λ k stays f.
      let missing = missing-update k w more_running s.workers f in
      let moved = owned_by-update k id (assign w) s.calls t.call l.unique t.found in
      let ne : k ≢ w = λ q. none_is_not_some (sym missing ∙ ap (find_worker s) q ∙ t.there) in
      let other : one_if w k ≡ 0 = ground (arith, ne) in
      omega (arith, h.hired k stays missing, moved, not_owned k, other);
}
  where
    one_if : ℕ → ℕ → ℕ
    one_if a b = if a == b then 1 else 0

    not_owned : (k : ℕ) → owns k t.call ≡ 0
    not_owned k = ap (λ z. if is_owner k z then 1 else 0) t.waits

    inner : (a b : Worker) → some a ≡ some b → a ≡ b
    inner a b q = cc

pop_front-Slots :
    (s : State) (w : ℕ) (name : Bytes) (now : ℕ) (worker : Worker)
    → Sound s
    → Orderly s
    → Slots s
    → find_worker s w ≡ some worker
    → worker.running < worker.concurrency
    → Rests Slots (pop_front s w name now)
pop_front-Slots s w name now worker l o h there free =
    pop_front_keeps Slots s w name now
      (λ r id ids e q.
        let popped : State = record s { routes = update bytes_eq name (set_queue ids) s.routes } in
        let (c, found, waits, _) = o.queued name r id e (subst (In id) (sym q) (inl refl)) in
        let t : Handed popped w id = record {
          call = c;
          found = found;
          waits = waits;
          worker = worker;
          there = there;
          free = free;
        } in
        let l' : Sound popped = l in
        let h' = same-SlotsBut Nobody s popped refl refl h in
        pop_call_keeps Slots popped w id now (expire-Books Nobody popped id (l', h')).1
          (λ d f. dispatch-Slots popped w id l' h' t))
      h

pub take_round-Slots :
    (s : State) (w first second : ℕ)
    → Sound s
    → Orderly s
    → Slots s
    → Rests Slots (take_round s w first second)
take_round-Slots s w first second l o h =
    take_round_keeps Slots s w first second
      (λ wk e free.
        let (l', h') = expire_queued-Books Nobody s wk.route first (l, h) in
        let (wk', there, limit, less) = (expire_queued-Eases s wk.route first).workers w wk e in
        let room : wk.running < wk.concurrency = ground (arith, free) in
        pop_front-Slots (expire_queued s wk.route first) w wk.route second wk' l'
          (expire_queued-Orderly s wk.route first o) h' there (omega (arith, limit, less, room)))
      h

-- An update of workers that keeps their counts.
workers-Slots :
    (s : State) (f : Worker → Worker) (w : ℕ)
    → ((v : Worker) → ((f v).running ≡ v.running) × ((f v).concurrency ≡ v.concurrency))
    → Slots s
    → Slots (record s { workers = update ◌==◌ w f s.workers })
workers-Slots s f w keeps h = record {
  exact = λ k worker g.
      let (d, found, how) = found-update ◌==◌ ==_iff k w f s.workers worker g in
      let (count, limit) = h.exact k d found in
      let same : (worker.running ≡ d.running) × (worker.concurrency ≡ d.concurrency) = elim how [
        | inl (_, q) ↦ (ap (λ (z : Worker). z.running) q, ap (λ (z : Worker). z.concurrency) q)
        | inr (_, q) ↦ (
          ap (λ (z : Worker). z.running) q ∙ (keeps d).0,
          ap (λ (z : Worker). z.concurrency) q ∙ (keeps d).1,
        )
      ] in
      (same.0 ∙ count, omega (arith, same.0, same.1, limit));
  hired = λ k stays g. h.hired k stays (missing-update k w f s.workers g);
}

pub begin_take-Slots : (s : State) (w : ℕ) → Slots s → Slots (begin_take s w).1
begin_take-Slots s w h =
    begin_take_keeps Slots s w (workers-Slots s more_takes w (λ v. (refl, refl)) h) h

pub end_take-Slots : (s : State) (w : ℕ) → Slots s → Slots (end_take s w)
unfolding end_take
end_take-Slots s w h = workers-Slots s fewer_takes w (λ v. (refl, refl)) h

pub complete-Slots :
    (s : State) (w id : ℕ) (failed : Bool) (payload : Bytes) (now : ℕ)
    → Sound s
    → Slots s
    → Leaves Slots (complete s w id failed payload now)
complete-Slots s w id failed payload now l h =
    complete_keeps Slots s w id failed payload now
      (λ c f own.
        let answered = answer-Alike (count_completed (remove s id).1) id c failed payload now in
        same-SlotsBut Nobody (remove s id).1 _ answered.calls answered.workers
          (remove-SlotsBut Nobody s id l h))
      h

pub wait-Slots :
    (s : State) (t : Ticket) (how : Waited) → Sound s → Slots s → Slots (wait s t how).1
unfolding wait
wait-Slots s t (replied r) l h = (cancel-Books Nobody s t.call_id (l, h)).1
wait-Slots s t closed l h = (cancel-Books Nobody s t.call_id (l, h)).1
wait-Slots s t elapsed l h =
    (cancel-Books Nobody (expire s t.call_id) t.call_id (expire-Books Nobody s t.call_id (l, h))).1
