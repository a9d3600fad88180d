-- ===== src/Prelude/Maps.antt =====
-- Maps as association lists, with the test on keys as an argument, and filters.
use Prim.Native.Nat.{ℕ}
use mathlib.Core.Bool.{Bool, true, false}
use mathlib.Core.List.{List, [], ◌∷◌}
use mathlib.Core.Option.{Option, none, some}
use velo_bus.Prelude.Tests.{if◌then◌else◌, ◌==◌}

module _ {A : Type 0} where
  unfoldable pub filter : (A → Bool) → List A → List A
  filter p [] = []
  filter p (x ∷ xs) = let rest = filter p xs in if p x then x ∷ rest else rest

module _ {K A : Type 0} (eq : K → K → Bool) where
  unfoldable pub lookup : K → List (K × A) → Option A
  lookup k [] = none
  lookup k ((j, a) ∷ m) = let rest = lookup k m in if eq k j then some a else rest

  unfoldable pub erase : K → List (K × A) → List (K × A)
  erase k [] = []
  erase k ((j, a) ∷ m) = let rest = erase k m in if eq k j then rest else (j, a) ∷ rest

  -- Writes the entry of a key that is there.
  unfoldable pub update : K → (A → A) → List (K × A) → List (K × A)
  update k f [] = []
  update k f ((j, a) ∷ m) = (j, if eq k j then f a else a) ∷ update k f m

abbrev pub contains_id : ℕ → List ℕ → Bool
contains_id n [] = false
contains_id n (m ∷ ms) = if n == m then true else contains_id n ms
