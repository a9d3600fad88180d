-- ===== src/Rpc/Figures/Agreement.antt =====
-- rpc.rs `stats`: what it says of calls and routes, in every state that the scheduler can get to.
use velo_bus.Prelude.{
  some_injective, ℕ, ◌≤◌, ◌<◌, ◌^◌, ◌≡◌, inl, inr, refl, sym, ap, subst, ◌∙◌, Bool, true, not, ◌&&◌,
  List, [], ◌∷◌, map, lookup, none, some, bytes_eq, bytes_eq_iff, In, Bool-cases, Option-cases,
  length, arith,
}
use velo_bus.Protocol.Types.{Bytes}
use velo_bus.Rpc.{Route, Call, State, find_route}
use velo_bus.Rpc.Calls.{owned}
use velo_bus.Rpc.Ledger.{retained_total}
use velo_bus.Rpc.Routes.{ids_of}
use velo_bus.Rpc.Moves.{Sound}
use velo_bus.Rpc.Steps.{Reachable, Reachable-Sound}
use velo_bus.Rpc.Slots.Capacity.{Reachable-Slots}
use velo_bus.Rpc.Queues.{Orderly}
use velo_bus.Rpc.Queues.Panics.{Reachable-Orderly}
use velo_bus.Rpc.Queues.Places.{Attended}
use velo_bus.Rpc.Queues.Handing.{same_route}
use velo_bus.Rpc.Queues.Coverage.{Reachable-Attended}
use velo_bus.Rpc.Figures.{RouteFigures, route_figures, stats}
use velo_bus.Rpc.Figures.Ordering.{ByName, sort_routes-ByName, sort_routes-In}
use velo_bus.Rpc.Figures.Matching.{Once-length, ids_of-Once, ids_of-In, In-ids_of}
use velo_bus.Rpc.Figures.Sums.{
  unowned, owned_by_all, slots_of, running_calls-ids, owned-unowned, add_workers-slots,
  add_workers-running, add_workers-le,
}

-- A call of the route that nobody owns.
abbrev pub waits_on : Bytes → Call → Bool
waits_on name c = not (owned c) && bytes_eq c.route name

-- The queue of a route has one id for each call that waits on it.
queue-length :
    (s : State) (name : Bytes) (r : Route)
    → Sound s
    → Orderly s
    → Attended [] s
    → find_route s name ≡ some r
    → length r.queue ≡ length (ids_of (waits_on name) s.calls)
queue-length s name r l o a e =
    let ids = ids_of (waits_on name) s.calls in
    let there = Once-length r.queue ids (o.once name r e) (λ k m.
      let (c, found, own, route) = o.queued name r k e m in
      ids_of-In (waits_on name) k s.calls c found (waiting c own route)) in
    let back = Once-length ids r.queue (ids_of-Once (waits_on name) s.calls l.unique) (λ k m.
      let (c, found, t) = In-ids_of (waits_on name) k s.calls l.unique m in
      let (own, route) = idle c t in
      elim (a.place k c found own) [
        | inl held ↦ absurd held
        | inr (r', at, m') ↦
            subst (λ (z : Route). In k z.queue)
              (same_route s name r r' e (ap (find_route s) (sym route) ∙ at)) m'
      ]) in
    omega (arith, there, back)
  where
    waiting : (c : Call) → c.owner ≡ none → c.route ≡ name → waits_on name c ≡ true
    waiting c own route =
        let same : bytes_eq c.route name ≡ true = (bytes_eq_iff c.route name).1 route in
        ground (arith, own, same)

    idle : (c : Call) → waits_on name c ≡ true → (c.owner ≡ none) × (c.route ≡ name)
    idle c t = elim (Option-cases c.owner) [
      | inl own ↦ (own, (bytes_eq_iff c.route name).0 (ground (arith, own, t)))
      | inr (w, own) ↦ absurd (ground (arith, own, t))
    ]

figures-In :
    (s : State) (name : Bytes) (r : Route) (m : List (Bytes × Route))
    → lookup bytes_eq name m ≡ some r
    → In (route_figures s (name, r)) (map (route_figures s) m)
unfolding lookup
figures-In s name r [] h = cc
figures-In s name r ((n, r') ∷ m) h = elim (Bool-cases (bytes_eq name n)) [
  | inl e ↦ inl (
      ap (λ z. route_figures s (z, r)) ((bytes_eq_iff name n).0 e)
      ∙ ap (λ z. route_figures s (n, z)) (sym (some_injective (rw e at h))))
  | inr e ↦ inr (figures-In s name r m (rw e at h))
]

-- What the figures of a route say.
abbrev pub Tells : State → Bytes → Route → RouteFigures → Type 0
Tells s name r f =
    (f.name ≡ name)
    × (f.workers ≡ length r.workers)
    × (f.queued ≡ length (ids_of (waits_on name) s.calls))
    × (f.queued ≤ f.queue_limit)
    × (f.running ≡ owned_by_all r.workers s)
    × (f.concurrency ≡ slots_of r.workers s)
    × (f.running ≤ f.concurrency)

pub record Agrees (s : State) : Type 0 where
  pub running : (stats s).running ≡ length (ids_of owned s.calls)
  pub queued : (stats s).queued ≡ length (ids_of unowned s.calls)
  pub retained : (stats s).retained_bytes ≡ retained_total s.calls
  pub routes :
      (name : Bytes) (r : Route)
      → find_route s name ≡ some r
      → (f : RouteFigures) × In f (stats s).routes × Tells s name r f
  pub sorted : ByName (stats s).routes

-- In every state that the scheduler can get to, under any interleaving of its locked sections: the
-- running calls of STATS are as many as have an owner, and the queued ones as many as have none; the
-- retained bytes are those of the calls together; each route has its figures, in which the queued
-- calls are those of the route that nobody owns, at most as many as its limit allows, the running
-- ones those that its workers own, and the slots those of its workers, no fewer; and the routes are
-- in the order of their names. The byte limit fits 64 bits.
pub stats-Agrees :
    (max_calls max_bytes : ℕ) (s : State)
    → max_bytes < 2 ^ 64
    → Reachable max_calls max_bytes s
    → Agrees s
unfolding stats route_figures
stats-Agrees max_calls max_bytes s word r =
    let l = Reachable-Sound max_calls max_bytes s word r in
    let o = Reachable-Orderly max_calls max_bytes s word r in
    let h = Reachable-Slots max_calls max_bytes s word r in
    let a = Reachable-Attended max_calls max_bytes s r in
    record {
      running = running_calls-ids s.calls;
      queued = omega (arith, running_calls-ids s.calls, owned-unowned s.calls);
      retained = l.counted;
      routes = λ name route e. (
        route_figures s (name, route),
        sort_routes-In _ _ (figures-In s name route s.routes e),
        (
          refl,
          refl,
          queue-length s name route l o a e,
          a.fits name route e,
          omega (arith, add_workers-running s route.workers (0, 0) h),
          omega (arith, add_workers-slots s route.workers (0, 0)),
          add_workers-le s route.workers (0, 0) h (omega arith),
        ),
      );
      sorted = sort_routes-ByName (map (route_figures s) s.routes);
    }
