-- ===== src/Rpc/Waking/Entering.antt =====
-- rpc.rs: `connected`, `register` and `request` wake a worker that they get work for.
use mathlib.Core.Option
use velo_bus.Prelude.{
  false_is_not_true, none_is_not_some, some_injective, ℕ, ◌+◌, ◌≡◌, ◌≢◌, inl, inr, refl, sym, ap,
  ◌∙◌, true, false, List, [], ◌∷◌, ◌++◌, append_assoc, ◌==◌, ==_iff, lookup, update, none, some,
  bytes_eq, bytes_eq_iff, In, In-append_right, Option-cases, Bool-cases,
}
use velo_bus.Protocol.Types.{Bytes, ◌+u64◌}
use velo_bus.Rpc.{Route, Worker, State, find_worker, find_route, count_up}
use velo_bus.Rpc.Lookups.{lookup-update_at, lookup-push_old, found-push}
use velo_bus.Rpc.Calls.{expire_queued, notify, notify_each, notify_route}
use velo_bus.Rpc.Routes.{connected, join, register}
use velo_bus.Rpc.Requests.{call_bytes, enqueue, admit, request}
use velo_bus.Rpc.Outcomes.{Leaves}
use velo_bus.Rpc.Queues.{Orderly, notify-Alike}
use velo_bus.Rpc.Queues.Removal.{expire_queued-Orderly}
use velo_bus.Rpc.Waking.Work.{
  Calm, Calm-trans, silent-Calm, same-Calm, Calm-refl, notify-Calm, notify_each-Calm,
  notify_route-Calm, update-Supplied,
}
use velo_bus.Rpc.Waking.Calm.{expire_queued-Calm}
use velo_bus.Rpc.Sections.{connected_keeps, register_keeps, request_keeps}

pub connected-Calm : (w : ℕ) (s : State) (c : ℕ) → Calm w s (connected s c)
connected-Calm w s c =
    connected_keeps (Calm w s) s c (λ cs. same-Calm w s _ refl refl refl) (Calm-refl w s)

join-Calm :
    (w : ℕ) (s : State) (k : ℕ) (name : Bytes) (concurrency queue_limit : ℕ)
    → Calm w s (join s k name concurrency queue_limit)
unfolding join
join-Calm w s k name concurrency queue_limit =
    let newcomer : Worker = record {
      route = name;
      concurrency = concurrency;
      running = 0;
      pending_takes = 0;
    } in
    elim (Option-cases (find_route s name)) [
      | inl e ↦
          let fresh : Route = record { workers = k ∷ []; queue = []; queue_limit = queue_limit } in
          rw (join, e)
            (silent-Calm w s _ refl (λ v there. (
              v,
              lookup-push_old ◌==◌ ==_iff w k newcomer v s.workers there,
              λ (free, (r, at, full)). (
                free,
                elim (found-push bytes_eq bytes_eq_iff v.route name fresh s.routes r at) [
                  | inl old ↦ (r, old, full)
                  | inr (_, q) ↦ absurd (full (ap (λ (z : Route). z.queue) q))
                ],
              ),
            )))
      | inr (r, e) ↦
          rw (join, e)
            (silent-Calm w s _ refl (λ v there. (
              v,
              lookup-push_old ◌==◌ ==_iff w k newcomer v s.workers there,
              λ (free, supplied). (
                free,
                update-Supplied (λ r'. record r' { workers = r'.workers ++ k ∷ [] }) name s.routes v
                    (λ r' at same full. full) supplied,
              ),
            )))
    ]

pub register-Calm :
    (w : ℕ) (s : State) (k : ℕ) (name : Bytes) (concurrency queue_limit : ℕ)
    → Calm w s (register s k name concurrency queue_limit).1
register-Calm w s k name concurrency queue_limit =
    register_keeps (Calm w s) s k name concurrency queue_limit
      (λ e. join-Calm w s k name concurrency queue_limit) (Calm-refl w s)

-- Who is on the list is woken.
notify_each-wakes :
    (w : ℕ) (s : State) (v : Worker) (ks : List ℕ)
    → find_worker s w ≡ some v
    → In w ks
    → (new : List ℕ) × ((notify_each s ks).notified ≡ s.notified ++ new) × In w new
unfolding notify_each notify
notify_each-wakes w s v [] there m = absurd m
notify_each-wakes w s v (k ∷ ks) there (inl same) =
    let called : find_worker s k ≡ some v = ap (find_worker s) (sym same) ∙ there in
    let log : (notify s k).notified ≡ s.notified ++ k ∷ [] = rw (notify, called) refl in
    let rest = notify_each-Calm w (notify s k) ks in
    (
      k ∷ [] ++ rest.new,
      rest.log ∙ ap (λ z. z ++ rest.new) log ∙ append_assoc s.notified (k ∷ []) rest.new,
      inl same,
    )
notify_each-wakes w s v (k ∷ ks) there (inr m) =
    let first = notify-Calm w s k in
    let kept = ap (lookup ◌==◌ w) (sym (notify-Alike s k).workers) ∙ there in
    let (new, log, m') = notify_each-wakes w (notify s k) v ks kept m in
    (
      first.new ++ new,
      log ∙ ap (λ z. z ++ new) first.log ∙ append_assoc s.notified first.new new,
      In-append_right w first.new new m',
    )

-- A call that is admitted wakes the workers of its route.
module _ (w : ℕ) (s : State) (caller : ℕ) (route : Bytes) (deadline : ℕ) (payload : Bytes)
    (bytes : ℕ) (o : Orderly s) where
  abbrev enqueued : State
  enqueued = record s {
    next_id = s.next_id + 1;
    calls =
        s.calls
        ++ (
          s.next_id,
          record {
            caller = caller;
            route = route;
            owner = none;
            deadline = deadline;
            payload = payload;
            response = true;
            retained_bytes = bytes;
          },
        )
          ∷ [];
    routes = update bytes_eq route (enqueue s.next_id) s.routes;
    retained_bytes = s.retained_bytes +u64 bytes;
    accepted = count_up s.accepted;
  }

  elsewhere :
      (v u : Worker)
      → find_worker s w ≡ some v
      → find_worker s w ≡ some u
      → bytes_eq v.route route ≡ false
      → u.route ≢ route
  elsewhere v u there found other same = false_is_not_true (
      sym other
      ∙ (bytes_eq_iff v.route route).1
          (ap (λ (z : Worker). z.route) (some_injective (sym there ∙ found)) ∙ same))

  admit-Calm : Calm w s (admit s caller route deadline payload bytes)
  unfolding admit notify_route
  admit-Calm = elim (Option-cases (find_worker s w)) [
    | inl e ↦
        Calm-trans w s enqueued _
          (silent-Calm w s enqueued refl (λ v there. absurd (none_is_not_some (sym e ∙ there))))
          (notify_route-Calm w enqueued route)
    | inr (v, there) ↦ elim (Bool-cases (bytes_eq v.route route)) [
      | inl t ↦
          let here = (bytes_eq_iff v.route route).0 t in
          let (r, at, m) = o.serving w v there in
          let at' : find_route enqueued route ≡ some (enqueue s.next_id r) =
            lookup-update_at bytes_eq bytes_eq_iff route (enqueue s.next_id) s.routes
            ∙ ap (Option.map (enqueue s.next_id)) (ap (find_route s) (sym here) ∙ at) in
          let (new, log, m') = notify_each-wakes w enqueued v r.workers there m in
          rw (notify_route, at') (record { new = new; log = log; quiet = inl m' })
      | inr t ↦
          Calm-trans w s enqueued _
            (silent-Calm w s enqueued refl (λ u found. (
              u,
              found,
              λ (free, supplied). (
                free,
                update-Supplied (enqueue s.next_id) route s.routes u
                    (λ r at same full. absurd (elsewhere v u there found t same)) supplied,
              ),
            )))
            (notify_route-Calm w enqueued route)
    ]
  ]

pub request-Calm :
    (w : ℕ) (s : State) (caller : ℕ) (route : Bytes) (timeout_ms : ℕ) (payload : Bytes)
    (first second : ℕ)
    → Orderly s
    → Leaves (Calm w s) (request s caller route timeout_ms payload first second)
request-Calm w s caller route timeout_ms payload first second o =
    let t = expire_queued s route first in
    let cleaned = expire_queued-Calm w s route first in
    request_keeps (Calm w s) caller route timeout_ms payload s first second
      (same-Calm w s _ refl refl refl) (Calm-trans w s t _ cleaned (same-Calm w t _ refl refl refl))
      (λ r deadline e free. Calm-trans w s t _ cleaned (
        admit-Calm w t caller route deadline payload (call_bytes route payload)
          (expire_queued-Orderly s route first o)))
      cleaned (Calm-refl w s)
