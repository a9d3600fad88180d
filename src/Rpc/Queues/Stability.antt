-- ===== src/Rpc/Queues/Stability.antt =====
-- rpc.rs: the removal, expiry and failing of calls keep the routes and their workers.
use mathlib.Core.Option
use velo_bus.Prelude.{
  false_is_not_true, ℕ, ◌≡◌, refl, sym, ap, ◌∙◌, List, [], ◌∷◌, ◌==◌, lookup, update, erase, Option,
  none, some, bytes_eq, bytes_eq_iff, inl, inr, Option-cases, Bool-cases,
}
use velo_bus.Protocol.Types.{Bytes, Error}
use velo_bus.Rpc.{Route, Worker, Call, State, find_call, find_worker, find_route, ◌-u64◌}
use velo_bus.Rpc.Lookups.{lookup-update_at, lookup-update_other}
use velo_bus.Rpc.Keys.{lookup-update}
use velo_bus.Rpc.Closure.{expire_keeps, expire_queued_keeps}
use velo_bus.Rpc.Calls.{
  less_running, without, release, remove, time_out, expire, expire_queued, fail_removed, fail_each,
}
use velo_bus.Rpc.Queues.{Alike, notify-Alike}

-- Routes are there behind the removal of calls, with the same workers; and workers are not added.
pub record Stable (s t : State) : Type 0 where
  pub routes :
      (name : Bytes) (r : Route)
      → find_route s name ≡ some r
      → (r' : Route) × (find_route t name ≡ some r') × (r'.workers ≡ r.workers)
  pub workers :
      (w : ℕ) (worker : Worker)
      → find_worker t w ≡ some worker
      → (v : Worker) × (find_worker s w ≡ some v) × (v.route ≡ worker.route)

pub Stable-refl : (s : State) → Stable s s
Stable-refl s = record {
  routes = λ name r f. (r, f, refl);
  workers = λ w worker f. (worker, f, refl);
}

pub Stable-trans : (s t u : State) → Stable s t → Stable t u → Stable s u
Stable-trans s t u a b = record {
  routes = λ name r f.
      let (r', f', e) = a.routes name r f in
      let (r'', f'', e') = b.routes name r' f' in (r'', f'', e' ∙ e);
  workers = λ w worker f.
      let (v, g, e) = b.workers w worker f in
      let (v', g', e') = a.workers w v g in (v', g', e' ∙ e);
}

Alike-Stable : (s t : State) → Alike s t → Stable s t
Alike-Stable s t a = record {
  routes = λ name r f. (r, ap (lookup bytes_eq name) (sym a.routes) ∙ f, refl);
  workers = λ w worker f. (worker, ap (lookup ◌==◌ w) a.workers ∙ f, refl);
}

release-Stable : (s : State) (id : ℕ) (c : Call) → Stable s (release s id c)
unfolding release
release-Stable s id c = elim (Option-cases c.owner) [
  | inl e ↦
      rw (release, e)
        (record {
          routes = λ name r f. elim (Bool-cases (bytes_eq name c.route)) [
            | inl t ↦ (
              without id r,
              ap (λ z. lookup bytes_eq name (update bytes_eq z (without id) s.routes))
                    (sym ((bytes_eq_iff name c.route).0 t))
                  ∙ lookup-update_at bytes_eq bytes_eq_iff name (without id) s.routes
                  ∙ ap (Option.map (without id)) f,
              refl,
            )
            | inr t ↦ (
              r,
              lookup-update_other bytes_eq bytes_eq_iff name c.route (without id) s.routes
                    (λ q. false_is_not_true (sym t ∙ (bytes_eq_iff name c.route).1 q))
                  ∙ f,
              refl,
            )
          ];
          workers = λ w worker f. (worker, f, refl);
        })
  | inr (w, e) ↦
      let freed : State = record s { workers = update ◌==◌ w less_running s.workers } in
      let first : Stable s freed = record {
        routes = λ name r f. (r, f, refl);
        workers = λ k worker f.
            let (v, found, how) = lookup-update k w less_running s.workers worker f in
            (
              v,
              found,
              elim how [
                | inl q ↦ sym (ap (λ (z : Worker). z.route) q)
                | inr (_, q) ↦ sym (ap (λ (z : Worker). z.route) q)
              ],
            );
      } in
      rw (release, e) (Stable-trans s freed _ first (Alike-Stable freed _ (notify-Alike freed w)))
]

pub remove-Stable : (s : State) (id : ℕ) → Stable s (remove s id).1
unfolding remove
remove-Stable s id = elim (Option-cases (find_call s id)) [
  | inl e ↦ rw (remove, e) (Stable-refl s)
  | inr (c, e) ↦
      rw (remove, e)
        (let r =
            release-Stable
              (record s {
                calls = erase ◌==◌ id s.calls;
                retained_bytes = s.retained_bytes -u64 c.retained_bytes;
              })
              id c in
          record { routes = r.routes; workers = r.workers })
]

time_out-Stable : (s : State) (id : ℕ) (c : Call) → Stable s (time_out s id c)
unfolding time_out
time_out-Stable s id c = elim (Bool-cases c.response) [
  | inl e ↦
      rw (time_out, e)
        (record { routes = λ name r f. (r, f, refl); workers = λ w worker f. (worker, f, refl) })
  | inr e ↦ rw (time_out, e) (Stable-refl s)
]

pub expire-Stable : (s : State) (id : ℕ) → Stable s (expire s id)
expire-Stable s id =
    expire_keeps (Stable s) (λ t k a. Stable-trans s t _ a (remove-Stable t k))
      (λ t k c e a. Stable-trans s t _ a (time_out-Stable t k c)) s id (Stable-refl s)

pub expire_queued-Stable :
    (s : State) (name : Bytes) (now : ℕ) → Stable s (expire_queued s name now)
expire_queued-Stable s name now =
    expire_queued_keeps (Stable s) (λ t k a. Stable-trans s t _ a (remove-Stable t k))
      (λ t k c e a. Stable-trans s t _ a (time_out-Stable t k c)) s name now (Stable-refl s)

-- A route is still there behind the clean-up of a queue.
pub expire_queued-route :
    (s : State) (queue : Bytes) (now : ℕ) (name : Bytes) (r : Route)
    → find_route s name ≡ some r
    → (r' : Route) × (find_route (expire_queued s queue now) name ≡ some r')
expire_queued-route s queue now name r f =
    let (r', f', _) = (expire_queued-Stable s queue now).routes name r f in (r', f')

told-Stable :
    (s : State) (r : Option Call × State) (id : ℕ) (why : Error)
    → Stable s r.1
    → Stable s (fail_removed r id why)
unfolding fail_removed
told-Stable s (none, t) id why a = a
told-Stable s (some c, t) id why a = elim (Bool-cases c.response) [
  | inl e ↦ rw (fail_removed, e) (record { routes = a.routes; workers = a.workers })
  | inr e ↦ rw (fail_removed, e) a
]

pub fail_each-Stable : (s : State) (ids : List ℕ) (why : Error) → Stable s (fail_each s ids why)
unfolding fail_each
fail_each-Stable s [] why = Stable-refl s
fail_each-Stable s (id ∷ ids) why =
    let next = fail_removed (remove s id) id why in
    Stable-trans s next _ (told-Stable s (remove s id) id why (remove-Stable s id))
      (fail_each-Stable next ids why)
