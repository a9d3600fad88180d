-- ===== src/Rpc/Slots/Counting.antt =====
-- Counts of the calls that a worker owns, behind erasures, updates and additions.
use velo_bus.Prelude.{
  some_injective, some_is_not_none, ℕ, ◌+◌, ◌≡◌, refl, sym, ap, subst, inl, inr, List, [], ◌∷◌,
  ◌++◌, ◌==◌, ==_iff, lookup, update, erase, none, some, In, arith, Bool-cases, length,
}
use velo_bus.Rpc.{Call}
use velo_bus.Rpc.Keys.{Absent, Unique, erase_missing}
use velo_bus.Rpc.Lookups.{Once}
use velo_bus.Rpc.Slots.{owns, owned_by}

update_missing :
    (k : ℕ) (f : Call → Call) (m : List (ℕ × Call)) → Absent k m → update ◌==◌ k f m ≡ m
unfolding update
update_missing k f [] h = refl
update_missing k f ((j, a) ∷ m) (n, h) = elim (Bool-cases (k == j)) [
  | inl e ↦ absurd (ground (arith, n))
  | inr e ↦ rw e (ap (λ z. (j, a) ∷ z) (update_missing k f m h))
]

pub owned_by-erase :
    (w id : ℕ) (m : List (ℕ × Call)) (c : Call)
    → Unique m
    → lookup ◌==◌ id m ≡ some c
    → owned_by w m ≡ owns w c + owned_by w (erase ◌==◌ id m)
unfolding owned_by lookup erase
owned_by-erase w id [] c u h = cc
owned_by-erase w id ((j, a) ∷ m) c (n, u) h = elim (Bool-cases (id == j)) [
  | inl e ↦
      let same : a ≡ c = some_injective (rw e at h) in
      let missing : Absent id m = subst (λ z. Absent z m) (sym ((==_iff id j).0 e)) n in
      rw (e, erase_missing id m missing) (ap (λ z. owns w z + owned_by w m) same)
  | inr e ↦ rw e (omega (arith, owned_by-erase w id m c u (rw e at h)))
]

pub owned_by-update :
    (w id : ℕ) (f : Call → Call) (m : List (ℕ × Call)) (c : Call)
    → Unique m
    → lookup ◌==◌ id m ≡ some c
    → owned_by w (update ◌==◌ id f m) + owns w c ≡ owned_by w m + owns w (f c)
unfolding owned_by lookup update
owned_by-update w id f [] c u h = cc
owned_by-update w id f ((j, a) ∷ m) c (n, u) h = elim (Bool-cases (id == j)) [
  | inl e ↦
      let same : a ≡ c = some_injective (rw e at h) in
      let missing : Absent id m = subst (λ z. Absent z m) (sym ((==_iff id j).0 e)) n in
      rw (e, update_missing id f m missing)
        (omega (arith, ap (owns w) same, ap (λ z. owns w (f z)) same))
  | inr e ↦ rw e (omega (arith, owned_by-update w id f m c u (rw e at h)))
]

-- An update that keeps owners.
pub owned_by_kept :
    (w id : ℕ) (f : Call → Call) (m : List (ℕ × Call))
    → ((c : Call) → owns w (f c) ≡ owns w c)
    → owned_by w (update ◌==◌ id f m) ≡ owned_by w m
unfolding owned_by update
owned_by_kept w id f [] keeps = refl
owned_by_kept w id f ((j, a) ∷ m) keeps = elim (Bool-cases (id == j)) [
  | inl e ↦ rw e (omega (arith, keeps a, owned_by_kept w id f m keeps))
  | inr e ↦ rw e (omega (arith, owned_by_kept w id f m keeps))
]

pub owned_by-append :
    (w : ℕ) (xs ys : List (ℕ × Call)) → owned_by w (xs ++ ys) ≡ owned_by w xs + owned_by w ys
unfolding owned_by
owned_by-append w [] ys = omega arith
owned_by-append w ((id, c) ∷ xs) ys = omega (arith, owned_by-append w xs ys)

-- What is missing behind an update was missing before.
pub missing-update :
    {A : Type 0} (k j : ℕ) (f : A → A) (m : List (ℕ × A))
    → lookup ◌==◌ k (update ◌==◌ j f m) ≡ none
    → lookup ◌==◌ k m ≡ none
unfolding lookup update
missing-update k j f [] h = refl
missing-update k j f ((i, a) ∷ m) h = elim (Bool-cases (k == i)) [
  | inl e ↦ absurd (some_is_not_none (rw e at h))
  | inr e ↦ rw e (missing-update k j f m (rw e at h))
]

-- The calls that a worker owns, by their ids.
pub record Owning (w : ℕ) (ids : List ℕ) (m : List (ℕ × Call)) : Type 0 where
  pub number : owned_by w m ≡ length ids
  pub once : Once ids
  pub each : (id : ℕ) → In id ids → (c : Call) × (lookup ◌==◌ id m ≡ some c) × (owns w c ≡ 1)
