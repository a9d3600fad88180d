-- ===== src/Rpc/Figures/Sums.antt =====
-- rpc.rs `stats`: the sums over the calls and over the workers of a route.
use velo_bus.Prelude.{
  ℕ, ◌+◌, ◌≤◌, ◌≡◌, inl, inr, refl, ap, Bool, not, List, [], ◌∷◌, Option, none, some, Bool-cases,
  Option-cases, length, arith,
}
use velo_bus.Rpc.{Worker, Call, State, find_worker}
use velo_bus.Rpc.Calls.{owned}
use velo_bus.Rpc.Routes.{ids_of}
use velo_bus.Rpc.Slots.{Slots, owned_by}
use velo_bus.Rpc.Figures.{running_calls, add_worker, add_workers}

-- A call that nobody owns.
abbrev pub unowned : Call → Bool
unowned c = not (owned c)

pub running_calls-ids : (m : List (ℕ × Call)) → running_calls m ≡ length (ids_of owned m)
unfolding running_calls ids_of
running_calls-ids [] = refl
running_calls-ids ((id, c) ∷ m) = elim (Bool-cases (owned c)) [
  | inl e ↦ rw e (omega (arith, running_calls-ids m))
  | inr e ↦ rw e (omega (arith, running_calls-ids m))
]

-- Each call is owned or not.
pub owned-unowned :
    (m : List (ℕ × Call)) → length (ids_of owned m) + length (ids_of unowned m) ≡ length m
unfolding ids_of
owned-unowned [] = refl
owned-unowned ((id, c) ∷ m) = elim (Bool-cases (owned c)) [
  | inl e ↦ rw e (omega (arith, owned-unowned m))
  | inr e ↦ rw e (omega (arith, owned-unowned m))
]

-- The slots of some workers, none for one that is not there.
abbrev pub slots_in : Option Worker → ℕ
slots_in none = 0
slots_in (some worker) = worker.concurrency

abbrev pub slots_of : List ℕ → State → ℕ
slots_of [] s = 0
slots_of (w ∷ ws) s = slots_in (find_worker s w) + slots_of ws s

add_worker-slots :
    (s : State) (w : ℕ) (sums : ℕ × ℕ)
    → (add_worker s w sums).0 ≡ sums.0 + slots_in (find_worker s w)
unfolding add_worker
add_worker-slots s w sums = elim (Option-cases (find_worker s w)) [
  | inl e ↦ rw (add_worker, e) (omega (arith, ap slots_in e))
  | inr (worker, e) ↦ rw (add_worker, e) (omega (arith, ap slots_in e))
]

pub add_workers-slots :
    (s : State) (ws : List ℕ) (sums : ℕ × ℕ) → (add_workers s ws sums).0 ≡ sums.0 + slots_of ws s
unfolding add_workers
add_workers-slots s [] sums = omega arith
add_workers-slots s (w ∷ ws) sums =
    omega (arith, add_workers-slots s ws (add_worker s w sums), add_worker-slots s w sums)

-- The calls that some workers own.
abbrev pub owned_by_all : List ℕ → State → ℕ
owned_by_all [] s = 0
owned_by_all (w ∷ ws) s = owned_by w s.calls + owned_by_all ws s

add_worker-running :
    (s : State) (w : ℕ) (sums : ℕ × ℕ)
    → Slots s
    → (add_worker s w sums).1 ≡ sums.1 + owned_by w s.calls
unfolding add_worker
add_worker-running s w sums h = elim (Option-cases (find_worker s w)) [
  | inl e ↦ rw (add_worker, e) (omega (arith, h.hired w (λ b. b) e))
  | inr (worker, e) ↦ rw (add_worker, e) (omega (arith, (h.exact w worker e).0))
]

pub add_workers-running :
    (s : State) (ws : List ℕ) (sums : ℕ × ℕ)
    → Slots s
    → (add_workers s ws sums).1 ≡ sums.1 + owned_by_all ws s
unfolding add_workers
add_workers-running s [] sums h = omega arith
add_workers-running s (w ∷ ws) sums h =
    let rest = add_workers-running s ws (add_worker s w sums) h in
    omega (arith, rest, add_worker-running s w sums h)

add_worker-le :
    (s : State) (w : ℕ) (sums : ℕ × ℕ)
    → Slots s
    → sums.1 ≤ sums.0
    → (add_worker s w sums).1 ≤ (add_worker s w sums).0
unfolding add_worker
add_worker-le s w sums h le = elim (Option-cases (find_worker s w)) [
  | inl e ↦ rw (add_worker, e) le
  | inr (worker, e) ↦
      let within : worker.running ≤ worker.concurrency = (h.exact w worker e).1 in
      rw (add_worker, e) (omega (arith, within, le))
]

pub add_workers-le :
    (s : State) (ws : List ℕ) (sums : ℕ × ℕ)
    → Slots s
    → sums.1 ≤ sums.0
    → (add_workers s ws sums).1 ≤ (add_workers s ws sums).0
unfolding add_workers
add_workers-le s [] sums h le = le
add_workers-le s (w ∷ ws) sums h le =
    add_workers-le s ws (add_worker s w sums) h (add_worker-le s w sums h le)
