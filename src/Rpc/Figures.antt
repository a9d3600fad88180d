-- ===== src/Rpc/Figures.antt =====
-- rpc.rs, lines 515 to 529: the values that `Rpc::stats` puts into its JSON object.
pub mod Matching
pub mod Ordering
pub mod Sums
pub mod Agreement
use velo_bus.Prelude.{
  ℕ, ◌+◌, ◌-◌, Bool, true, false, List, [], ◌∷◌, ltb, ◌==◌, if◌then◌else◌, map, none, some, length,
}
use velo_bus.Protocol.Types.{Bytes}
use velo_bus.Rpc.{Route, Call, State, find_worker}
use velo_bus.Rpc.Calls.{owned}

pub record RouteFigures : Type 0 where
  pub name : Bytes
  pub workers : ℕ
  pub concurrency : ℕ
  pub running : ℕ
  pub queued : ℕ
  pub queue_limit : ℕ

pub record Figures : Type 0 where
  pub queued : ℕ
  pub running : ℕ
  pub retained_bytes : ℕ
  pub max_calls : ℕ
  pub max_bytes : ℕ
  pub accepted : ℕ
  pub completed : ℕ
  pub rejected : ℕ
  pub timed_out : ℕ
  pub routes : List RouteFigures

-- The calls with an owner.
unfoldable pub running_calls : List (ℕ × Call) → ℕ
running_calls [] = 0
running_calls ((id, c) ∷ m) = (if owned c then 1 else 0) + running_calls m

-- The fold over the workers of a route that are there: their slots, and those in use.
unfoldable pub add_worker : State → ℕ → ℕ × ℕ → ℕ × ℕ
add_worker s w sums = elim (find_worker s w) [
  | none ↦ sums
  | some worker ↦ (sums.0 + worker.concurrency, sums.1 + worker.running)
]

unfoldable pub add_workers : State → List ℕ → ℕ × ℕ → ℕ × ℕ
add_workers s [] sums = sums
add_workers s (w ∷ ws) sums = add_workers s ws (add_worker s w sums)

unfoldable pub route_figures : State → Bytes × Route → RouteFigures
route_figures s (name, r) =
    let sums = add_workers s r.workers (0, 0) in
    record {
      name = name;
      workers = length r.workers;
      concurrency = sums.0;
      running = sums.1;
      queued = length r.queue;
      queue_limit = r.queue_limit;
    }

-- The order of texts: that of their bytes.
unfoldable pub bytes_leb : Bytes → Bytes → Bool
bytes_leb [] ys = true
bytes_leb (x ∷ xs) [] = false
bytes_leb (x ∷ xs) (y ∷ ys) = let rest = bytes_leb xs ys in if x == y then rest else ltb x y

-- `sort_unstable_by` by name, as an insertion sort.
unfoldable pub insert_route : RouteFigures → List RouteFigures → List RouteFigures
insert_route f [] = f ∷ []
insert_route f (g ∷ gs) =
    let rest = insert_route f gs in if bytes_leb f.name g.name then f ∷ g ∷ gs else g ∷ rest

unfoldable pub sort_routes : List RouteFigures → List RouteFigures
sort_routes [] = []
sort_routes (f ∷ fs) = insert_route f (sort_routes fs)

-- `Rpc::stats`
unfoldable pub stats : State → Figures
stats s =
    let running = running_calls s.calls in
    record {
      queued = length s.calls - running;
      running = running;
      retained_bytes = s.retained_bytes;
      max_calls = s.max_calls;
      max_bytes = s.max_bytes;
      accepted = s.accepted;
      completed = s.completed;
      rejected = s.rejected;
      timed_out = s.timed_out;
      routes = sort_routes (map (route_figures s) s.routes);
    }
