-- ===== src/Rpc/Slots.antt =====
-- rpc.rs: a worker's count of running calls is that of the calls that it owns, and within its
-- concurrency.
pub mod Counting
pub mod Releases
pub mod Easing
pub mod Joining
pub mod Sections
pub mod Departure
pub mod Capacity
use velo_bus.Prelude.{
  ℕ, ◌+◌, ◌≤◌, ◌≡◌, Bool, List, [], ◌∷◌, ◌==◌, if◌then◌else◌, lookup, Option, none, some,
}
use velo_bus.Rpc.{Worker, Call, State, find_worker}
use velo_bus.Rpc.Routes.{is_owner}

-- One for a call that the worker owns.
abbrev pub owns : ℕ → Call → ℕ
owns w c = if is_owner w c.owner then 1 else 0

unfoldable pub owned_by : ℕ → List (ℕ × Call) → ℕ
owned_by w [] = 0
owned_by w ((id, c) ∷ m) = owns w c + owned_by w m

abbrev pub Exact : List (ℕ × Call) → ℕ → Worker → Type 0
Exact calls w worker = (worker.running ≡ owned_by w calls) × (worker.running ≤ worker.concurrency)

-- The counts of the workers, and that nobody else owns calls, but for some who have just left.
pub record SlotsBut (leaving : ℕ → Type 0) (s : State) : Type 0 where
  pub exact : (w : ℕ) (worker : Worker) → find_worker s w ≡ some worker → Exact s.calls w worker
  pub hired : (w : ℕ) → (leaving w → ⊥) → find_worker s w ≡ none → owned_by w s.calls ≡ 0

abbrev pub Slots : State → Type 0
Slots s = SlotsBut (λ w. ⊥) s
