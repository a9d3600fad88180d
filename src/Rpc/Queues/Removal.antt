-- ===== src/Rpc/Queues/Removal.antt =====
-- rpc.rs `remove`, `expire`, `cancel` and the failing of calls keep queues and calls in order.
use mathlib.Core.Option
use velo_bus.Prelude.{
  none_is_not_some, some_injective, ℕ, ◌≡◌, ◌≢◌, refl, sym, ap, subst, ◌∙◌, List, [], ◌∷◌, ◌==◌,
  ==_iff, lookup, update, erase, Option, none, some, bytes_eq, bytes_eq_iff, In, inl, inr, arith,
  Option-cases, Bool-cases,
}
use velo_bus.Protocol.Types.{Bytes, Error}
use velo_bus.Rpc.{Route, Worker, Call, State, find_call, ◌-u64◌}
use velo_bus.Rpc.Lookups.{
  Once, lookup-update_keeps, lookup-update_at, lookup-update_other, lookup-erase_other, In-filter,
  found-update, filter-Once,
}
use velo_bus.Rpc.Keys.{lookup-update}
use velo_bus.Rpc.Closure.{expire_keeps, expire_queued_keeps, cancel_keeps}
use velo_bus.Rpc.Calls.{
  less_running, without, release, remove, silent, take_response, time_out, expire, expire_queued,
  cancel, fail_removed, fail_each,
}
use velo_bus.Rpc.Queues.{Waiting, Serving, Orderly, Alike-Orderly, notify-Alike}

-- The workers behind an update that keeps their routes are served as before.
pub update_worker-Serving :
    (f : Worker → Worker) (k w : ℕ) (m : List (ℕ × Worker)) (routes : List (Bytes × Route))
    (worker : Worker)
    → ((v : Worker) → (f v).route ≡ v.route)
    → ((v : Worker) → lookup ◌==◌ w m ≡ some v → Serving routes w v)
    → lookup ◌==◌ w (update ◌==◌ k f m) ≡ some worker
    → Serving routes w worker
update_worker-Serving f k w m routes worker keeps old h =
    let (v, found, how) = lookup-update w k f m worker h in
    let same : v.route ≡ worker.route = elim how [
      | inl q ↦ sym (ap (λ (z : Worker). z.route) q)
      | inr (_, q) ↦ sym (ap (λ (z : Worker). z.route) q ∙ keeps v)
    ] in
    let (r, at, m') = old v found in (r, ap (λ z. lookup bytes_eq z routes) (sym same) ∙ at, m')

-- A route behind an update that keeps its workers serves as before.
pub update_route-Serving :
    (f : Route → Route) (name : Bytes) (routes : List (Bytes × Route)) (w : ℕ) (worker : Worker)
    → ((r : Route) → In w r.workers → In w (f r).workers)
    → Serving routes w worker
    → Serving (update bytes_eq name f routes) w worker
update_route-Serving f name routes w worker keeps serving =
    lookup-update_keeps bytes_eq bytes_eq_iff worker.route name f routes (λ r. In w r.workers) keeps
      serving

pub erase-Waiting :
    (calls : List (ℕ × Call)) (name : Bytes) (id k : ℕ)
    → Waiting calls name id
    → id ≢ k
    → Waiting (erase ◌==◌ k calls) name id
erase-Waiting calls name id k (c, found, o, r) ne =
    (c, lookup-erase_other ◌==◌ ==_iff id k calls ne ∙ found, o, r)

-- A waiting call is the one that is found.
pub Waiting-found :
    (calls : List (ℕ × Call)) (name : Bytes) (id : ℕ) (c : Call)
    → Waiting calls name id
    → lookup ◌==◌ id calls ≡ some c
    → (c.owner ≡ none) × (c.route ≡ name)
Waiting-found calls name id c (d, found, o, r) h =
    let same : d ≡ c = some_injective (sym found ∙ h) in
    (ap (λ (z : Call). z.owner) (sym same) ∙ o, ap (λ (z : Call). z.route) (sym same) ∙ r)

-- A call without owner goes, and so does its place in the queue.
unowned-Orderly :
    (s : State) (id : ℕ) (c : Call) (n : ℕ)
    → Orderly s
    → find_call s id ≡ some c
    → Orderly (record s {
      calls = erase ◌==◌ id s.calls;
      retained_bytes = n;
      routes = update bytes_eq c.route (without id) s.routes;
    })
unowned-Orderly s id c n o h = record {
  queued = λ name r k f m.
      let (d, found, how) =
        found-update bytes_eq bytes_eq_iff name c.route (without id) s.routes r f in
      elim how [
        | inl (ne, q) ↦
            let waits = o.queued name d k found (subst (λ (z : Route). In k z.queue) q m) in
            erase-Waiting s.calls name k id waits (λ same.
              ne (sym (Waiting-found s.calls name k c waits (ap (find_call s) same ∙ h)).1))
        | inr (_, q) ↦
            let (m', t) = In-filter _ k d.queue (subst (λ (z : Route). In k z.queue) q m) in
            erase-Waiting s.calls name k id (o.queued name d k found m')
              (λ same. absurd (ground (arith, t, same)))
      ];
  once = λ name r f.
      let (d, found, how) =
        found-update bytes_eq bytes_eq_iff name c.route (without id) s.routes r f in
      elim how [
        | inl (_, q) ↦ subst (λ (z : Route). Once z.queue) (sym q) (o.once name d found)
        | inr (_, q) ↦
            subst (λ (z : Route). Once z.queue) (sym q)
              (filter-Once _ d.queue (o.once name d found))
      ];
  serving = λ w worker f.
      update_route-Serving (without id) c.route s.routes w worker (λ r m. m) (o.serving w worker f);
}

-- A call with an owner goes, and its slot is free.
owned-Orderly :
    (s : State) (id : ℕ) (c : Call) (n w : ℕ)
    → Orderly s
    → find_call s id ≡ some c
    → c.owner ≡ some w
    → Orderly (record s {
      calls = erase ◌==◌ id s.calls;
      retained_bytes = n;
      workers = update ◌==◌ w less_running s.workers;
    })
owned-Orderly s id c n w o h own = record {
  queued = λ name r k f m.
      let waits = o.queued name r k f m in
      erase-Waiting s.calls name k id waits (λ same.
        none_is_not_some
          (sym (Waiting-found s.calls name k c waits (ap (find_call s) same ∙ h)).0 ∙ own));
  once = o.once;
  serving = λ k worker f.
      update_worker-Serving less_running w k s.workers s.routes worker (λ v. refl) (o.serving k) f;
}

pub remove-Orderly : (s : State) (id : ℕ) → Orderly s → Orderly (remove s id).1
unfolding remove release
remove-Orderly s id o = elim (Option-cases (find_call s id)) [
  | inl e ↦ rw (remove, e) o
  | inr (c, e) ↦ elim (Option-cases c.owner) [
    | inl none_owns ↦
        rw (remove, e, release, none_owns)
          (unowned-Orderly s id c (s.retained_bytes -u64 c.retained_bytes) o e)
    | inr (w, own) ↦
        rw (remove, e, release, own)
          (Alike-Orderly _ _ (notify-Alike _ w)
            (owned-Orderly s id c (s.retained_bytes -u64 c.retained_bytes) w o e own))
  ]
]

-- Calls behind an update that keeps owners and routes wait as before.
pub silence-Orderly : (s : State) (id : ℕ) → Orderly s → Orderly (take_response s id)
silence-Orderly s id o = record {
  queued = λ name r k f m. silent-Waiting name k (o.queued name r k f m);
  once = o.once;
  serving = o.serving;
}
  where
    silent-Waiting :
        (name : Bytes) (k : ℕ)
        → Waiting s.calls name k
        → Waiting (update ◌==◌ id silent s.calls) name k
    silent-Waiting name k (c, found, own, route) = elim (Bool-cases (k == id)) [
      | inl e ↦
          let same : k ≡ id = (==_iff k id).0 e in
          (
            silent c,
            ap (λ z. lookup ◌==◌ k (update ◌==◌ z silent s.calls)) (sym same)
                ∙ lookup-update_at ◌==◌ ==_iff k silent s.calls
                ∙ ap (Option.map silent) found,
            own,
            route,
          )
      | inr e ↦ (
        c,
        lookup-update_other ◌==◌ ==_iff k id silent s.calls (λ q. absurd (ground (arith, q, e)))
            ∙ found,
        own,
        route,
      )
    ]

time_out-Orderly : (s : State) (id : ℕ) (c : Call) → Orderly s → Orderly (time_out s id c)
unfolding time_out
time_out-Orderly s id c o = elim (Bool-cases c.response) [
  | inl e ↦
      rw (time_out, e)
        (Alike-Orderly (take_response s id) _
          (record { calls = refl; routes = refl; workers = refl }) (silence-Orderly s id o))
  | inr e ↦ rw (time_out, e) o
]

pub expire-Orderly : (s : State) (id : ℕ) → Orderly s → Orderly (expire s id)
expire-Orderly s id o =
    expire_keeps Orderly remove-Orderly (λ t k c e p. time_out-Orderly t k c p) s id o

pub expire_queued-Orderly :
    (s : State) (name : Bytes) (now : ℕ) → Orderly s → Orderly (expire_queued s name now)
expire_queued-Orderly s name now o =
    expire_queued_keeps Orderly remove-Orderly (λ t k c e p. time_out-Orderly t k c p) s name now o

pub cancel-Orderly : (s : State) (id : ℕ) → Orderly s → Orderly (cancel s id)
cancel-Orderly s id o = cancel_keeps Orderly remove-Orderly silence-Orderly s id o

told-Orderly :
    (r : Option Call × State) (id : ℕ) (why : Error) → Orderly r.1 → Orderly (fail_removed r id why)
unfolding fail_removed
told-Orderly (none, s) id why o = o
told-Orderly (some c, s) id why o = elim (Bool-cases c.response) [
  | inl e ↦
      rw (fail_removed, e)
        (Alike-Orderly s _ (record { calls = refl; routes = refl; workers = refl }) o)
  | inr e ↦ rw (fail_removed, e) o
]

pub fail_each-Orderly :
    (s : State) (ids : List ℕ) (why : Error) → Orderly s → Orderly (fail_each s ids why)
unfolding fail_each
fail_each-Orderly s [] why o = o
fail_each-Orderly s (id ∷ ids) why o =
    fail_each-Orderly (fail_removed (remove s id) id why) ids why
      (told-Orderly (remove s id) id why (remove-Orderly s id o))
