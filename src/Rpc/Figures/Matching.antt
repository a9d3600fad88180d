-- ===== src/Rpc/Figures/Matching.antt =====
-- rpc.rs `stats`: the calls of a queue are counted by their ids.
use velo_bus.Prelude.{
  some_injective, ℕ, suc, ◌≤◌, ◌≡◌, inl, inr, refl, sym, ap, subst, ◌∙◌, Bool, true, false, not,
  List, [], ◌∷◌, ◌==◌, ==_iff, lookup, filter, some, In, Bool-cases, length, arith,
}
use velo_bus.Rpc.{Call}
use velo_bus.Rpc.Keys.{Absent, Unique}
use velo_bus.Rpc.Lookups.{Once, filter-In, length-filter}
use velo_bus.Rpc.Routes.{ids_of}

others : ℕ → List ℕ → List ℕ
others x ys = filter (λ k. not (k == x)) ys

-- An id that is there is one less when it is taken out.
others-length : (x : ℕ) (ys : List ℕ) → In x ys → suc (length (others x ys)) ≤ length ys
unfolding others filter
others-length x [] m = absurd m
others-length x (y ∷ ys) (inl q) =
    let e : (y == x) ≡ true = ground (arith, q) in
    rw e (omega (arith, length-filter (λ k. not (k == x)) ys))
others-length x (y ∷ ys) (inr m) = elim (Bool-cases (y == x)) [
  | inl e ↦ rw e (omega (arith, length-filter (λ k. not (k == x)) ys))
  | inr e ↦ rw e (omega (arith, others-length x ys m))
]

-- A list without repetition is not longer than one that has all of its ids.
pub Once-length : (xs ys : List ℕ) → Once xs → ((k : ℕ) → In k xs → In k ys) → length xs ≤ length ys
unfolding others
Once-length [] ys o sub = omega arith
Once-length (x ∷ xs) ys (n, o) sub =
    let ih = Once-length xs (others x ys) o (λ k m. filter-In _ k ys (sub k (inr m)) (apart k m)) in
    omega (arith, ih, others-length x ys (sub x (inl refl)))
  where
    apart : (k : ℕ) → In k xs → not (k == x) ≡ true
    apart k m = elim (Bool-cases (k == x)) [
      | inl e ↦ absurd (n (subst (λ z. In z xs) ((==_iff k x).0 e) m))
      | inr e ↦ rw e refl
    ]

-- The ids of the calls with a property, in a map without repetition.
ids_of-Absent : (p : Call → Bool) (k : ℕ) (m : List (ℕ × Call)) → Absent k m → In k (ids_of p m) → ⊥
unfolding ids_of
ids_of-Absent p k [] a h = h
ids_of-Absent p k ((j, c) ∷ m) (n, a) h = elim (Bool-cases (p c)) [
  | inl e ↦ first (ids_of-Absent p k m a) (rw e at h)
  | inr e ↦ ids_of-Absent p k m a (rw e at h)
]
  where
    first : (In k (ids_of p m) → ⊥) → In k (j ∷ ids_of p m) → ⊥
    first ih (inl q) = n (sym q)
    first ih (inr r) = ih r

pub ids_of-Once : (p : Call → Bool) (m : List (ℕ × Call)) → Unique m → Once (ids_of p m)
unfolding ids_of
ids_of-Once p [] u = tt
ids_of-Once p ((j, c) ∷ m) (n, u) = elim (Bool-cases (p c)) [
  | inl e ↦ rw e (ids_of-Absent p j m n, ids_of-Once p m u)
  | inr e ↦ rw e (ids_of-Once p m u)
]

pub ids_of-In :
    (p : Call → Bool) (k : ℕ) (m : List (ℕ × Call)) (c : Call)
    → lookup ◌==◌ k m ≡ some c
    → p c ≡ true
    → In k (ids_of p m)
unfolding ids_of lookup
ids_of-In p k [] c h t = cc
ids_of-In p k ((j, d) ∷ m) c h t = elim (Bool-cases (k == j)) [
  | inl e ↦
      let yes_p : p d ≡ true = ap p (some_injective (rw e at h)) ∙ t in
      rw yes_p (inl ((==_iff k j).0 e))
  | inr e ↦
      let rest = ids_of-In p k m c (rw e at h) t in
      elim (Bool-cases (p d)) [ inl f ↦ rw f (inr rest) | inr f ↦ rw f rest ]
]

pub In-ids_of :
    (p : Call → Bool) (k : ℕ) (m : List (ℕ × Call))
    → Unique m
    → In k (ids_of p m)
    → (c : Call) × (lookup ◌==◌ k m ≡ some c) × (p c ≡ true)
unfolding ids_of lookup
In-ids_of p k [] u h = absurd h
In-ids_of p k ((j, d) ∷ m) (n, u) h = elim (Bool-cases (k == j)) [
  | inl e ↦ elim (Bool-cases (p d)) [
    | inl f ↦ (d, rw e refl, f)
    | inr f ↦
        absurd
          (ids_of-Absent p j m n (subst (λ z. In z (ids_of p m)) ((==_iff k j).0 e) (rw f at h)))
  ]
  | inr e ↦ let (c, found, t) = In-ids_of p k m u (rest e) in (c, rw e found, t)
]
  where
    rest : (k == j) ≡ false → In k (ids_of p m)
    rest e = elim (Bool-cases (p d)) [ inl f ↦ behind e (rw f at h) | inr f ↦ rw f at h ]
      where
        behind : (k == j) ≡ false → In k (j ∷ ids_of p m) → In k (ids_of p m)
        behind e (inl q) = absurd (ground (arith, q, e))
        behind e (inr r) = r
