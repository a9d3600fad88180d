-- ===== src/Rpc/Queues.antt =====
-- rpc.rs: queues hold waiting calls of their route, and workers are served by their routes. Each move
-- of rpc.rs `State` keeps this.
pub mod Removal
pub mod Stability
pub mod Joining
pub mod Admission
pub mod Sections
pub mod Silencing
pub mod Departure
pub mod Shrinking
pub mod Draining
pub mod Cleaning
pub mod Order
pub mod Panics
pub mod Places
pub mod Attending
pub mod Placing
pub mod Handing
pub mod Coverage
use velo_bus.Prelude.{
  ℕ, ◌≡◌, refl, sym, ap, subst, ◌∙◌, List, [], ◌∷◌, ◌==◌, lookup, Option, none, some, bytes_eq, In,
  inl, inr, Option-cases,
}
use velo_bus.Protocol.Types.{Bytes}
use velo_bus.Rpc.{Route, Worker, Call, State, find_call, find_worker, find_route}
use velo_bus.Rpc.Lookups.{Once}
use velo_bus.Rpc.Calls.{notify, notify_each, notify_route}

-- A call that nobody owns, of a route.
abbrev pub Waiting : List (ℕ × Call) → Bytes → ℕ → Type 0
Waiting calls name id =
    (c : Call) × (lookup ◌==◌ id calls ≡ some c) × (c.owner ≡ none) × (c.route ≡ name)

-- The route of a worker is there and has it.
abbrev pub Serving : List (Bytes × Route) → ℕ → Worker → Type 0
Serving routes w worker =
    (r : Route) × (lookup bytes_eq worker.route routes ≡ some r) × In w r.workers

-- A queue holds waiting calls of its route only, none of them twice, and every worker is on the list
-- of its route.
pub record Orderly (s : State) : Type 0 where
  pub queued :
      (name : Bytes) (r : Route) (id : ℕ)
      → find_route s name ≡ some r
      → In id r.queue
      → Waiting s.calls name id
  pub once : (name : Bytes) (r : Route) → find_route s name ≡ some r → Once r.queue
  pub serving :
      (w : ℕ) (worker : Worker) → find_worker s w ≡ some worker → Serving s.routes w worker

-- Two states with the same calls, routes and workers.
pub record Alike (s t : State) : Type 0 where
  pub calls : s.calls ≡ t.calls
  pub routes : s.routes ≡ t.routes
  pub workers : s.workers ≡ t.workers

pub Alike-Orderly : (s t : State) → Alike s t → Orderly s → Orderly t
Alike-Orderly s t a o = record {
  queued = λ name r id f m.
      subst (λ z. Waiting z name id) a.calls
        (o.queued name r id (ap (lookup bytes_eq name) a.routes ∙ f) m);
  once = λ name r f. o.once name r (ap (lookup bytes_eq name) a.routes ∙ f);
  serving = λ w worker f.
      subst (λ z. Serving z w worker) a.routes
        (o.serving w worker (ap (lookup ◌==◌ w) a.workers ∙ f));
}

pub Alike-refl : (s : State) → Alike s s
Alike-refl s = record { calls = refl; routes = refl; workers = refl }

Alike-trans : (s t u : State) → Alike s t → Alike t u → Alike s u
Alike-trans s t u a b = record {
  calls = a.calls ∙ b.calls;
  routes = a.routes ∙ b.routes;
  workers = a.workers ∙ b.workers;
}

pub notify-Alike : (s : State) (w : ℕ) → Alike s (notify s w)
unfolding notify
notify-Alike s w = elim (Option-cases (find_worker s w)) [
  | inl e ↦ rw (notify, e) (Alike-refl s)
  | inr (_, e) ↦ rw (notify, e) (record { calls = refl; routes = refl; workers = refl })
]

notify_each-Alike : (s : State) (ws : List ℕ) → Alike s (notify_each s ws)
unfolding notify_each
notify_each-Alike s [] = Alike-refl s
notify_each-Alike s (w ∷ ws) =
    Alike-trans s (notify s w) _ (notify-Alike s w) (notify_each-Alike (notify s w) ws)

pub notify_route-Alike : (s : State) (name : Bytes) → Alike s (notify_route s name)
unfolding notify_route
notify_route-Alike s name = elim (Option-cases (find_route s name)) [
  | inl e ↦ rw (notify_route, e) (Alike-refl s)
  | inr (r, e) ↦ rw (notify_route, e) (notify_each-Alike s r.workers)
]
