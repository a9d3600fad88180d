-- ===== src/Rpc/Waking/Steps.antt =====
-- rpc.rs: each locked section of the scheduler wakes a worker that it gets work for.
use velo_bus.Prelude.{
  ℕ, inl, inr, refl, subst, ◌∙◌, not, [], ◌∷◌, ◌++◌, ◌==◌, ==_iff, update, erase, filter, bytes_eq,
  bytes_eq_iff, Option-cases, Bool-cases, length, arith,
}
use velo_bus.Protocol.Types.{Bytes}
use velo_bus.Rpc.{Worker, State, find_route}
use velo_bus.Rpc.Lookups.{lookup-erase_other, found-erase}
use velo_bus.Rpc.Calls.{fail_each}
use velo_bus.Rpc.Routes.{is_owner, ids_of, gone, last_gone, leave_route, worker_left, disconnect}
use velo_bus.Rpc.Outcomes.{Leaves, Rests, Stays}
use velo_bus.Rpc.Steps.{
  Step, connects, registers, requests, begins, takes, retries, ends, completes, waits, cancels,
  disconnects,
}
use velo_bus.Rpc.Queues.{Orderly}
use velo_bus.Rpc.Waking.Work.{
  Calm, Calm-trans, silent-Calm, same-Calm, notify_route-Calm, update-Supplied,
}
use velo_bus.Rpc.Waking.Calm.{cancel-Calm, fail_each-Calm}
use velo_bus.Rpc.Waking.Entering.{connected-Calm, register-Calm, request-Calm}
use velo_bus.Rpc.Sections.{disconnect_keeps}
use velo_bus.Rpc.Waking.Serving.{
  begin_take-Calm, complete-Calm, end_take-Calm, take_round-Calm, wait-Calm,
}

leave_route-Calm :
    (w : ℕ) (s t : State) (c : ℕ) (name : Bytes)
    → Calm w s t
    → Stays (Calm w s) (leave_route t c name)
unfolding leave_route
leave_route-Calm w s t c name a = elim (Option-cases (find_route t name)) [
  | inl e ↦ rw (leave_route, e) tt
  | inr (r, e) ↦
      let left = filter (λ id. not (id == c)) r.workers in
      elim (Bool-cases (length left == 0)) [
        | inl z ↦
            let shut : State = record t { routes = erase bytes_eq name t.routes } in
            let closing = silent-Calm w t shut refl (λ v there. (
              v,
              there,
              λ (free, (r', at, full)). (
                free,
                (r', (found-erase bytes_eq bytes_eq_iff v.route name t.routes r' at).1, full),
              ),
            )) in
            rw (leave_route, e, z)
              (Calm-trans w s t _ a
                (Calm-trans w t shut _ closing (fail_each-Calm w shut r.queue last_gone)))
        | inr z ↦
            let shrunk : State = record t {
              routes = update bytes_eq name (λ r'. record r' { workers = left }) t.routes;
            } in
            let shrinking = silent-Calm w t shrunk refl (λ v there. (
              v,
              there,
              λ (free, supplied). (
                free,
                update-Supplied (λ r'. record r' { workers = left }) name t.routes v
                    (λ r' at same full. full) supplied,
              ),
            )) in
            rw (leave_route, e, z)
              (Calm-trans w s t _ a
                (Calm-trans w t shrunk _ shrinking (notify_route-Calm w shrunk name)))
      ]
]

-- A worker that leaves is woken itself.
worker_left-Calm :
    (w : ℕ) (s t : State) (c : ℕ) (v : Worker) → Calm w s t → Stays (Calm w s) (worker_left t c v)
unfolding worker_left
worker_left-Calm w s t c v a =
    let resigned : State = record t {
      workers = erase ◌==◌ c t.workers;
      notified = t.notified ++ c ∷ [];
    } in
    let ids = ids_of (λ x. is_owner c x.owner) resigned.calls in
    let resigning : Calm w t resigned = record {
      new = c ∷ [];
      log = refl;
      quiet = elim (Bool-cases (w == c)) [
        | inl e ↦ inl (inl ((==_iff w c).0 e))
        | inr e ↦ inr (λ u there. (
          u,
          lookup-erase_other ◌==◌ ==_iff w c t.workers (λ q. absurd (ground (arith, q, e))) ∙ there,
          λ h. h,
        ))
      ];
    } in
    leave_route-Calm w s (fail_each resigned ids gone) c v.route (
      Calm-trans w s t _ a
        (Calm-trans w t resigned _ resigning (fail_each-Calm w resigned ids gone)))

disconnect-Calm : (w : ℕ) (s : State) (c : ℕ) → Stays (Calm w s) (disconnect s c)
disconnect-Calm w s c =
    disconnect_keeps (Calm w s) s c (λ cs. same-Calm w s _ refl refl refl)
      (λ u id a. Calm-trans w s u _ a (cancel-Calm w u id))
      (λ u v e a. worker_left-Calm w s u c v a)

pub step-Calm : (w : ℕ) (s t : State) → Orderly s → Step s t → Calm w s t
step-Calm w s t o (connects c) = connected-Calm w s c
step-Calm w s t o (registers k name concurrency queue_limit) =
    register-Calm w s k name concurrency queue_limit
step-Calm w s t o (requests caller route timeout_ms payload first second r t' h) =
    subst (Leaves (Calm w s)) h (request-Calm w s caller route timeout_ms payload first second o)
step-Calm w s t o (begins k) = begin_take-Calm w s k
step-Calm w s t o (takes k first second r t' h) =
    subst (Rests (Calm w s)) h (take_round-Calm w s k first second)
step-Calm w s t o (retries k first second t' h) =
    subst (Rests (Calm w s)) h (take_round-Calm w s k first second)
step-Calm w s t o (ends k) = end_take-Calm w s k
step-Calm w s t o (completes k id failed payload now r t' h) =
    subst (Leaves (Calm w s)) h (complete-Calm w s k id failed payload now)
step-Calm w s t o (waits ticket how) = wait-Calm w s ticket how
step-Calm w s t o (cancels id) = cancel-Calm w s id
step-Calm w s t o (disconnects c t' h) = subst (Stays (Calm w s)) h (disconnect-Calm w s c)
