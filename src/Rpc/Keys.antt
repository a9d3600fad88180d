-- ===== src/Rpc/Keys.antt =====
-- Maps by number: what erasing, updating and adding an entry do to the keys.
use mathlib.Core.Option
use velo_bus.Prelude.{
  ℕ, suc, ◌≡◌, ◌≢◌, ◌⊎◌, inl, inr, refl, sym, ap, subst, List, [], ◌∷◌, ◌++◌, arith, ◌==◌, lookup,
  update, erase, some, All, All-append, length, Bool-cases,
}

abbrev pub Absent : {A : Type 0} → ℕ → List (ℕ × A) → Type 0
Absent k m = All (λ e. e.0 ≢ k) m

abbrev pub Unique : {A : Type 0} → List (ℕ × A) → Type 0
Unique [] = Unit {0}
Unique ((k, a) ∷ m) = Absent k m × Unique m

module _ {A : Type 0} where
  pub All-erase : (P : ℕ × A → Type 0) (k : ℕ) (m : List (ℕ × A)) → All P m → All P (erase ◌==◌ k m)
  unfolding erase
  All-erase P k [] h = tt
  All-erase P k ((j, a) ∷ m) (p, h) = elim (Bool-cases (k == j)) [
    | inl e ↦ rw e (All-erase P k m h)
    | inr e ↦ rw e (p, All-erase P k m h)
  ]

  pub erase-Unique : (k : ℕ) (m : List (ℕ × A)) → Unique m → Unique (erase ◌==◌ k m)
  unfolding erase
  erase-Unique k [] u = tt
  erase-Unique k ((j, a) ∷ m) (n, u) = elim (Bool-cases (k == j)) [
    | inl e ↦ rw e (erase-Unique k m u)
    | inr e ↦ rw e (All-erase (λ x. x.0 ≢ j) k m n, erase-Unique k m u)
  ]

  pub erase-Absent : (k : ℕ) (m : List (ℕ × A)) → Absent k (erase ◌==◌ k m)
  unfolding erase
  erase-Absent k [] = tt
  erase-Absent k ((j, a) ∷ m) = elim (Bool-cases (k == j)) [
    | inl e ↦ rw e (erase-Absent k m)
    | inr e ↦ rw e ((λ h. absurd (ground (arith, h))), erase-Absent k m)
  ]

  pub erase_missing : (k : ℕ) (m : List (ℕ × A)) → Absent k m → erase ◌==◌ k m ≡ m
  unfolding erase
  erase_missing k [] h = refl
  erase_missing k ((j, a) ∷ m) (n, h) = elim (Bool-cases (k == j)) [
    | inl e ↦ absurd (ground (arith, n))
    | inr e ↦ rw e (ap (λ z. (j, a) ∷ z) (erase_missing k m h))
  ]

  -- An update keeps the keys.
  pub All-update :
      (P : ℕ × A → Type 0) (k : ℕ) (f : A → A) (m : List (ℕ × A))
      → ((j : ℕ) (a b : A) → P (j, a) → P (j, b))
      → All P m
      → All P (update ◌==◌ k f m)
  unfolding update
  All-update P k f [] keys h = tt
  All-update P k f ((j, a) ∷ m) keys (p, h) = (keys j a _ p, All-update P k f m keys h)

  pub update-Unique : (k : ℕ) (f : A → A) (m : List (ℕ × A)) → Unique m → Unique (update ◌==◌ k f m)
  unfolding update
  update-Unique k f [] u = tt
  update-Unique k f ((j, a) ∷ m) (n, u) =
      (All-update (λ x. x.0 ≢ j) k f m (λ i b c h. h) n, update-Unique k f m u)

  pub length-update : (k : ℕ) (f : A → A) (m : List (ℕ × A)) → length (update ◌==◌ k f m) ≡ length m
  unfolding update
  length-update k f [] = refl
  length-update k f ((j, a) ∷ m) = ap suc (length-update k f m)

  pub push-Unique :
      (k : ℕ) (a : A) (m : List (ℕ × A)) → Unique m → Absent k m → Unique (m ++ (k, a) ∷ [])
  push-Unique k a [] u n = (tt, tt)
  push-Unique k a ((j, b) ∷ m) (nj, u) (ne, n) =
      (All-append (λ x. x.0 ≢ j) m ((k, a) ∷ []) nj ((λ h. ne (sym h)), tt), push-Unique k a m u n)

  pub lookup-erase :
      (k j : ℕ) (m : List (ℕ × A)) (c : A)
      → lookup ◌==◌ k (erase ◌==◌ j m) ≡ some c
      → (k ≢ j) × (lookup ◌==◌ k m ≡ some c)
  unfolding lookup erase
  lookup-erase k j [] c h = cc
  lookup-erase k j ((i, a) ∷ m) c h = elim (Bool-cases (j == i)) [
    | inl e ↦ let (ne, found) = lookup-erase k j m c (rw e at h) in (ne, ground (arith, found, ne))
    | inr e ↦ elim (Bool-cases (k == i)) [
      | inl e' ↦ (ground arith, ground (arith, h))
      | inr e' ↦
          let (ne, found) = lookup-erase k j m c (ground (arith, h)) in (ne, ground (arith, found))
    ]
  ]

  pub lookup-update :
      (k j : ℕ) (f : A → A) (m : List (ℕ × A)) (c : A)
      → lookup ◌==◌ k (update ◌==◌ j f m) ≡ some c
      → (d : A) × (lookup ◌==◌ k m ≡ some d) × ((c ≡ d) ⊎ ((k ≡ j) × (c ≡ f d)))
  unfolding lookup update
  lookup-update k j f [] c h = cc
  lookup-update k j f ((i, a) ∷ m) c h = elim (Bool-cases (k == i)) [
    | inl e ↦ elim (Bool-cases (j == i)) [
      | inl e' ↦ (a, ground arith, inr (ground arith, ground (arith, h)))
      | inr e' ↦ (a, ground arith, inl (ground (arith, h)))
    ]
    | inr e ↦
        let (d, found, how) = lookup-update k j f m c (rw e at h) in (d, ground (arith, found), how)
  ]

  pub lookup-updated :
      (k : ℕ) (f : A → A) (m : List (ℕ × A)) (c : A)
      → lookup ◌==◌ k (update ◌==◌ k f m) ≡ some c
      → (d : A) × (lookup ◌==◌ k m ≡ some d) × (c ≡ f d)
  unfolding lookup update
  lookup-updated k f [] c h = cc
  lookup-updated k f ((i, a) ∷ m) c h = elim (Bool-cases (k == i)) [
    | inl e ↦ (a, ground arith, ground (arith, h))
    | inr e ↦
        let (d, found, how) = lookup-updated k f m c (rw e at h) in (d, ground (arith, found), how)
  ]

  pub lookup-update_self :
      (k : ℕ) (f : A → A) (m : List (ℕ × A)) (c : A)
      → lookup ◌==◌ k m ≡ some c
      → lookup ◌==◌ k (update ◌==◌ k f m) ≡ some (f c)
  unfolding lookup update
  lookup-update_self k f [] c h = cc
  lookup-update_self k f ((i, a) ∷ m) c h = elim (Bool-cases (k == i)) [
    | inl e ↦ rw e (ap (λ o. Option.map f o) (rw e at h))
    | inr e ↦ rw e (lookup-update_self k f m c (rw e at h))
  ]

  pub lookup-push :
      (k j : ℕ) (a : A) (m : List (ℕ × A)) (c : A)
      → lookup ◌==◌ k (m ++ (j, a) ∷ []) ≡ some c
      → (lookup ◌==◌ k m ≡ some c) ⊎ ((k ≡ j) × (c ≡ a))
  unfolding lookup
  lookup-push k j a [] c h = elim (Bool-cases (k == j)) [
    | inl e ↦ inr (ground arith, ground (arith, h))
    | inr e ↦ absurd (ground (arith, h))
  ]
  lookup-push k j a ((i, b) ∷ m) c h = elim (Bool-cases (k == i)) [
    | inl e ↦ inl (ground (arith, h))
    | inr e ↦ elim (lookup-push k j a m c (rw e at h)) [
      | inl old ↦ inl (ground (arith, old))
      | inr now ↦ inr now
    ]
  ]

  -- A property of every entry holds of the entry that is found.
  pub All-lookup :
      (P : ℕ × A → Type 0) (k : ℕ) (m : List (ℕ × A)) (c : A)
      → All P m
      → lookup ◌==◌ k m ≡ some c
      → P (k, c)
  unfolding lookup
  All-lookup P k [] c h found = cc
  All-lookup P k ((j, a) ∷ m) c (p, h) found = elim (Bool-cases (k == j)) [
    | inl e ↦
        let ej : j ≡ k = ground arith in
        let ea : a ≡ c = ground (arith, found) in
        subst (λ i. P (i, c)) ej (subst (λ b. P (j, b)) ea p)
    | inr e ↦ All-lookup P k m c h (rw e at found)
  ]
