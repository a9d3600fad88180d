-- ===== src/Rpc/Queues/Departure.antt =====
-- rpc.rs `disconnect`: a worker that leaves finds its route, and queues and calls stay in order.
use mathlib.Core.Option
use velo_bus.Prelude.{
  false_is_not_true, some_injective, ℕ, ◌≡◌, ◌≢◌, refl, sym, ap, subst, ◌∙◌, true, false, not, List,
  [], ◌∷◌, ◌++◌, ◌==◌, ==_iff, lookup, update, erase, filter, Option, none, some, bytes_eq,
  bytes_eq_iff, In, inl, inr, arith, Option-cases, Bool-cases, length,
}
use velo_bus.Protocol.Types.{Bytes}
use velo_bus.Rpc.{Route, Worker, State, find_worker, find_route}
use velo_bus.Rpc.Lookups.{
  Once, lookup-update_at, lookup-update_other, lookup-erase_other, found-update, found-erase,
  filter-In,
}
use velo_bus.Rpc.Calls.{fail_each}
use velo_bus.Rpc.Moves.{Sound}
use velo_bus.Rpc.Outcomes.{Stays}
use velo_bus.Rpc.Sections.{silence_each_keeps}
use velo_bus.Rpc.Figures.Matching.{ids_of-Once, In-ids_of}
use velo_bus.Rpc.Queues.Silencing.{silence_each-Goes}
use velo_bus.Rpc.Routes.{is_owner, ids_of, gone, last_gone, leave_route, worker_left, disconnect}
use velo_bus.Rpc.Queues.{Orderly, Alike-Orderly, notify_route-Alike}
use velo_bus.Rpc.Queues.Removal.{cancel-Orderly, fail_each-Orderly}
use velo_bus.Rpc.Queues.Stability.{fail_each-Stable}

-- A disconnection does not panic, and leaves queues and calls in order.
abbrev pub Leaves : Option State → Type 0
Leaves none = ⊥
Leaves (some s) = Orderly s

abbrev others : ℕ → List ℕ → List ℕ
others c ws = filter (λ id. not (id == c)) ws

others-In : (c k : ℕ) (ws : List ℕ) → k ≢ c → In k ws → In k (others c ws)
others-In c k ws ne m = filter-In _ k ws m (ground (arith, ne))

In-length : (k : ℕ) (ws : List ℕ) → In k ws → (length ws == 0) ≡ false
In-length k [] m = absurd m
In-length k (w ∷ ws) m = ground arith

module _ (s : State) (c : ℕ) (name : Bytes) (r : Route) (o : Orderly s)
    (e : find_route s name ≡ some r)
    (left : (k : ℕ) (worker : Worker) → find_worker s k ≡ some worker → k ≢ c) where
  same_route : (r' : Route) → find_route s name ≡ some r' → r' ≡ r
  same_route r' f = some_injective (sym f ∙ e)

  -- A worker of the route that is still there is another one on its list.
  still_listed :
      (k : ℕ) (worker : Worker)
      → find_worker s k ≡ some worker
      → worker.route ≡ name
      → In k (others c r.workers)
  still_listed k worker f here =
      let (r', at, m) = o.serving k worker f in
      let same = same_route r' (ap (find_route s) (sym here) ∙ at) in
      others-In c k r.workers (left k worker f) (subst (λ (z : Route). In k z.workers) same m)

  closed-Orderly :
      (length (others c r.workers) == 0) ≡ true
      → Orderly (record s { routes = erase bytes_eq name s.routes })
  closed-Orderly z = record {
    queued = λ n r' id f m.
        let (_, found) = found-erase bytes_eq bytes_eq_iff n name s.routes r' f in
        o.queued n r' id found m;
    once = λ n r' f.
        let (_, found) = found-erase bytes_eq bytes_eq_iff n name s.routes r' f in
        o.once n r' found;
    serving = λ k worker f.
        let (r', at, m) = o.serving k worker f in
        let ne : worker.route ≢ name = λ here.
          false_is_not_true
            (sym (In-length k (others c r.workers) (still_listed k worker f here)) ∙ z) in
        (r', lookup-erase_other bytes_eq bytes_eq_iff worker.route name s.routes ne ∙ at, m);
  }

  abbrev shrink : Route → Route
  shrink r' = record r' { workers = others c r.workers }

  shrunk-Orderly : Orderly (record s { routes = update bytes_eq name shrink s.routes })
  shrunk-Orderly = record {
    queued = λ n r' id f m.
        let (d, found, how) = found-update bytes_eq bytes_eq_iff n name shrink s.routes r' f in
        elim how [
          | inl (_, q) ↦ o.queued n d id found (subst (λ (z : Route). In id z.queue) q m)
          | inr (_, q) ↦ o.queued n d id found (subst (λ (z : Route). In id z.queue) q m)
        ];
    once = λ n r' f.
        let (d, found, how) = found-update bytes_eq bytes_eq_iff n name shrink s.routes r' f in
        elim how [
          | inl (_, q) ↦ subst (λ (z : Route). Once z.queue) (sym q) (o.once n d found)
          | inr (_, q) ↦ subst (λ (z : Route). Once z.queue) (sym q) (o.once n d found)
        ];
    serving = λ k worker f. elim (Bool-cases (bytes_eq worker.route name)) [
      | inl t ↦
          let here = (bytes_eq_iff worker.route name).0 t in
          (
            shrink r,
            ap (λ z. lookup bytes_eq z (update bytes_eq name shrink s.routes)) here
                ∙ lookup-update_at bytes_eq bytes_eq_iff name shrink s.routes
                ∙ ap (Option.map shrink) e,
            still_listed k worker f here,
          )
      | inr t ↦
          let (r', at, m) = o.serving k worker f in
          (
            r',
            lookup-update_other bytes_eq bytes_eq_iff worker.route name shrink s.routes
                  (λ q. false_is_not_true (sym t ∙ (bytes_eq_iff worker.route name).1 q))
                ∙ at,
            m,
          )
    ];
  }

  leave_route-Leaves : Leaves (leave_route s c name)
  unfolding leave_route
  leave_route-Leaves = elim (Bool-cases (length (others c r.workers) == 0)) [
    | inl z ↦ rw (leave_route, e, z) (fail_each-Orderly _ r.queue last_gone (closed-Orderly z))
    | inr z ↦ rw (leave_route, e, z) (Alike-Orderly _ _ (notify_route-Alike _ name) shrunk-Orderly)
  ]

module _ (s : State) (c : ℕ) (w : Worker) (o : Orderly s) (e : find_worker s c ≡ some w) where
  abbrev resigned : State
  resigned = record s { workers = erase ◌==◌ c s.workers; notified = s.notified ++ c ∷ [] }

  resigned-Orderly : Orderly resigned
  resigned-Orderly = record {
    queued = o.queued;
    once = o.once;
    serving = λ k worker f. o.serving k worker (found-erase ◌==◌ ==_iff k c s.workers worker f).1;
  }

  worker_left-Leaves : Leaves (worker_left s c w)
  unfolding worker_left
  worker_left-Leaves =
      let ids = ids_of (λ x. is_owner c x.owner) resigned.calls in
      let (r, at, _) = o.serving c w e in
      let stable = fail_each-Stable resigned ids gone in
      let (r', at', _) = stable.routes w.route r at in
      leave_route-Leaves (fail_each resigned ids gone) c w.route r'
        (fail_each-Orderly resigned ids gone resigned-Orderly) at'
        (λ k worker f.
          let (v, found, _) = stable.workers k worker f in
          (found-erase ◌==◌ ==_iff k c s.workers v found).0)

pub disconnect-Leaves : (s : State) (c : ℕ) → Sound s → Orderly s → Leaves (disconnect s c)
unfolding disconnect
disconnect-Leaves s c l o =
    let s1 : State = record s { connections = filter (λ x. not (x == c)) s.connections } in
    let ids = ids_of (λ x. x.caller == c) s1.calls in
    let l1 : Sound s1 = l in
    let (u, q) =
      silence_each-Goes s1 ids l1 (ids_of-Once _ s1.calls l.unique)
        (λ k m. let (d, f, _) = In-ids_of _ k s1.calls l.unique m in (d, f)) in
    let o2 : Orderly u = subst (Stays Orderly) q (
      silence_each_keeps Orderly cancel-Orderly s1 ids
        (Alike-Orderly s s1 (record { calls = refl; routes = refl; workers = refl }) o)) in
    elim (Option-cases (find_worker u c)) [
      | inl e ↦ rw (disconnect, q, e) o2
      | inr (w, e) ↦ rw (disconnect, q, e) (worker_left-Leaves u c w o2 e)
    ]
