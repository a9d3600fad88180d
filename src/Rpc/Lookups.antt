-- ===== src/Rpc/Lookups.antt =====
-- Maps as association lists: what is found behind an update, an erasure and an addition, for keys
-- with a test of equality; and lists of ids without repetition.
use mathlib.Core.Option
use velo_bus.Prelude.{
  false_is_not_true, none_is_not_some, some_is_not_none, ℕ, ◌≡◌, ◌≢◌, ◌↔◌, ◌⊎◌, inl, inr, refl, sym,
  ap, ◌∙◌, Bool, true, false, List, [], ◌∷◌, ◌++◌, if◌then◌else◌, lookup, update, erase, filter,
  Option, none, some, Bool-cases, Option-cases, In, In-append, ◌≤◌, length, arith,
}

module _ {K : Type 0} (eq : K → K → Bool) (law : (a b : K) → (eq a b ≡ true) ↔ (a ≡ b)) where
  eq_refl : (k : K) → eq k k ≡ true
  eq_refl k = (law k k).1 refl

  eq_other : (k j : K) → k ≢ j → eq k j ≡ false
  eq_other k j ne = elim (Bool-cases (eq k j)) [ inl e ↦ absurd (ne ((law k j).0 e)) | inr e ↦ e ]

module _ {K A : Type 0} (eq : K → K → Bool) (law : (a b : K) → (eq a b ≡ true) ↔ (a ≡ b)) where
  pub lookup-update_at :
      (k : K) (f : A → A) (m : List (K × A))
      → lookup eq k (update eq k f m) ≡ Option.map f (lookup eq k m)
  unfolding lookup update
  lookup-update_at k f [] = refl
  lookup-update_at k f ((i, a) ∷ m) = elim (Bool-cases (eq k i)) [
    | inl e ↦ rw e refl
    | inr e ↦ rw e (lookup-update_at k f m)
  ]

  pub lookup-update_other :
      (k j : K) (f : A → A) (m : List (K × A))
      → k ≢ j
      → lookup eq k (update eq j f m) ≡ lookup eq k m
  unfolding lookup update
  lookup-update_other k j f [] ne = refl
  lookup-update_other k j f ((i, a) ∷ m) ne = elim (Bool-cases (eq k i)) [
    | inl e ↦
        let o : eq j i ≡ false = eq_other eq law j i (λ h. ne ((law k i).0 e ∙ sym h)) in
        rw (e, o) refl
    | inr e ↦ rw e (lookup-update_other k j f m ne)
  ]

  pub lookup-erase_at : (k : K) (m : List (K × A)) → lookup eq k (erase eq k m) ≡ none
  unfolding lookup erase
  lookup-erase_at k [] = refl
  lookup-erase_at k ((i, a) ∷ m) = elim (Bool-cases (eq k i)) [
    | inl e ↦ rw e (lookup-erase_at k m)
    | inr e ↦ rw (e, e) (lookup-erase_at k m)
  ]

  pub lookup-erase_other :
      (k j : K) (m : List (K × A)) → k ≢ j → lookup eq k (erase eq j m) ≡ lookup eq k m
  unfolding lookup erase
  lookup-erase_other k j [] ne = refl
  lookup-erase_other k j ((i, a) ∷ m) ne = elim (Bool-cases (eq j i)) [
    | inl e ↦
        let o : eq k i ≡ false = eq_other eq law k i (λ h. ne (h ∙ sym ((law j i).0 e))) in
        rw (e, o) (lookup-erase_other k j m ne)
    | inr e ↦ rw e (ap (λ z. if eq k i then some a else z) (lookup-erase_other k j m ne))
  ]

  -- What was there is still found behind an addition, and what was not is the addition's.
  pub lookup-push_old :
      (k j : K) (a b : A) (m : List (K × A))
      → lookup eq k m ≡ some b
      → lookup eq k (m ++ (j, a) ∷ []) ≡ some b
  unfolding lookup
  lookup-push_old k j a b [] h = cc
  lookup-push_old k j a b ((i, c) ∷ m) h = elim (Bool-cases (eq k i)) [
    | inl e ↦ rw e (rw e at h)
    | inr e ↦ rw e (lookup-push_old k j a b m (rw e at h))
  ]

  pub lookup-push_new :
      (k : K) (a : A) (m : List (K × A))
      → lookup eq k m ≡ none
      → lookup eq k (m ++ (k, a) ∷ []) ≡ some a
  unfolding lookup
  lookup-push_new k a [] h = rw (eq_refl eq law k) refl
  lookup-push_new k a ((i, c) ∷ m) h = elim (Bool-cases (eq k i)) [
    | inl e ↦ absurd (some_is_not_none (rw e at h))
    | inr e ↦ rw e (lookup-push_new k a m (rw e at h))
  ]

  pub lookup-push_other :
      (k j : K) (a : A) (m : List (K × A)) → k ≢ j → lookup eq k (m ++ (j, a) ∷ []) ≡ lookup eq k m
  unfolding lookup
  lookup-push_other k j a [] ne = rw (eq_other eq law k j ne) refl
  lookup-push_other k j a ((i, c) ∷ m) ne =
      ap (λ z. if eq k i then some c else z) (lookup-push_other k j a m ne)

  -- What is found behind an update was there, and was updated if it is the update's.
  pub found-update :
      (k j : K) (f : A → A) (m : List (K × A)) (c : A)
      → lookup eq k (update eq j f m) ≡ some c
      → (d : A) × (lookup eq k m ≡ some d) × (((k ≢ j) × (c ≡ d)) ⊎ ((k ≡ j) × (c ≡ f d)))
  found-update k j f m c h = elim (Bool-cases (eq k j)) [
    | inl e ↦
        let same = (law k j).0 e in
        let at : Option.map f (lookup eq k m) ≡ some c =
          sym (lookup-update_at k f m) ∙ ap (λ z. lookup eq k (update eq z f m)) same ∙ h in
        let (d, found, q) = mapped (lookup eq k m) at in (d, found, inr (same, q))
    | inr e ↦
        let ne : k ≢ j = λ q. false_is_not_true (sym e ∙ (law k j).1 q) in
        (c, sym (lookup-update_other k j f m ne) ∙ h, inl (ne, refl))
  ]
    where
      mapped : (o : Option A) → Option.map f o ≡ some c → (d : A) × (o ≡ some d) × (c ≡ f d)
      mapped none q = cc
      mapped (some d) q = (d, refl, inner q)
        where
          inner : some (f d) ≡ some c → c ≡ f d
          inner z = cc

  -- What holds of the entry that is found, and is kept by the update, holds behind it.
  pub lookup-update_keeps :
      (k j : K) (f : A → A) (m : List (K × A)) (P : A → Type 0)
      → ((a : A) → P a → P (f a))
      → (a : A) × (lookup eq k m ≡ some a) × P a
      → (a : A) × (lookup eq k (update eq j f m) ≡ some a) × P a
  lookup-update_keeps k j f m P keeps (a, found, p) = elim (Bool-cases (eq k j)) [
    | inl e ↦ (
      f a,
      ap (λ z. lookup eq k (update eq z f m)) (sym ((law k j).0 e))
          ∙ lookup-update_at k f m
          ∙ ap (Option.map f) found,
      keeps a p,
    )
    | inr e ↦
        (a, lookup-update_other k j f m (λ q. false_is_not_true (sym e ∙ (law k j).1 q)) ∙ found, p)
  ]

  pub found-erase :
      (k j : K) (m : List (K × A)) (c : A)
      → lookup eq k (erase eq j m) ≡ some c
      → (k ≢ j) × (lookup eq k m ≡ some c)
  found-erase k j m c h = elim (Bool-cases (eq k j)) [
    | inl e ↦ absurd (
        none_is_not_some
          (sym (lookup-erase_at k m) ∙ ap (λ z. lookup eq k (erase eq z m)) ((law k j).0 e) ∙ h))
    | inr e ↦
        let ne : k ≢ j = λ q. false_is_not_true (sym e ∙ (law k j).1 q) in
        (ne, sym (lookup-erase_other k j m ne) ∙ h)
  ]

  pub found-push :
      (k j : K) (a : A) (m : List (K × A)) (c : A)
      → lookup eq k (m ++ (j, a) ∷ []) ≡ some c
      → (lookup eq k m ≡ some c) ⊎ ((k ≡ j) × (c ≡ a))
  found-push k j a m c h = elim (Option-cases (lookup eq k m)) [
    | inr (d, e) ↦ inl (e ∙ (sym (lookup-push_old k j a d m e) ∙ h))
    | inl e ↦ elim (Bool-cases (eq k j)) [
      | inl t ↦
          let same = (law k j).0 t in
          inr (
            same,
            inner (
                sym h
                ∙ ap (λ z. lookup eq k (m ++ (z, a) ∷ [])) (sym same)
                ∙ lookup-push_new k a m e),
          )
      | inr t ↦
          let ne : k ≢ j = λ q. false_is_not_true (sym t ∙ (law k j).1 q) in
          inl (sym (lookup-push_other k j a m ne) ∙ h)
    ]
  ]
    where
      inner : some c ≡ some a → c ≡ a
      inner q = cc

-- No id twice.
abbrev pub Once : List ℕ → Type 0
Once [] = Unit {0}
Once (x ∷ xs) = (In x xs → ⊥) × Once xs

pub In-filter : (p : ℕ → Bool) (x : ℕ) (xs : List ℕ) → In x (filter p xs) → In x xs × (p x ≡ true)
unfolding filter
In-filter p x [] h = absurd h
In-filter p x (y ∷ ys) h = elim (Bool-cases (p y)) [
  | inl e ↦ kept e (λ m. In-filter p x ys m) (rw e at h)
  | inr e ↦ let (m, t) = In-filter p x ys (rw e at h) in (inr m, t)
]
  where
    kept :
        p y ≡ true
        → (In x (filter p ys) → In x ys × (p x ≡ true))
        → In x (y ∷ filter p ys)
        → In x (y ∷ ys) × (p x ≡ true)
    kept e behind (inl q) = (inl q, ap p q ∙ e)
    kept e behind (inr m) = let (m', t) = behind m in (inr m', t)

pub filter-In : (p : ℕ → Bool) (x : ℕ) (xs : List ℕ) → In x xs → p x ≡ true → In x (filter p xs)
unfolding filter
filter-In p x [] h t = absurd h
filter-In p x (y ∷ ys) (inl q) t = let e : p y ≡ true = ap p (sym q) ∙ t in rw e (inl q)
filter-In p x (y ∷ ys) (inr m) t = elim (Bool-cases (p y)) [
  | inl e ↦ rw e (inr (filter-In p x ys m t))
  | inr e ↦ rw e (filter-In p x ys m t)
]

pub length-filter : (p : ℕ → Bool) (xs : List ℕ) → length (filter p xs) ≤ length xs
unfolding filter
length-filter p [] = omega arith
length-filter p (x ∷ xs) = elim (Bool-cases (p x)) [
  | inl e ↦ rw e (omega (arith, length-filter p xs))
  | inr e ↦ rw e (omega (arith, length-filter p xs))
]

pub filter-Once : (p : ℕ → Bool) (xs : List ℕ) → Once xs → Once (filter p xs)
unfolding filter
filter-Once p [] h = tt
filter-Once p (y ∷ ys) (n, h) = elim (Bool-cases (p y)) [
  | inl e ↦ rw e ((λ m. n (In-filter p y ys m).0), filter-Once p ys h)
  | inr e ↦ rw e (filter-Once p ys h)
]

pub push-Once : (xs : List ℕ) (x : ℕ) → Once xs → (In x xs → ⊥) → Once (xs ++ x ∷ [])
push-Once [] x h n = ((λ m. m), tt)
push-Once (y ∷ ys) x (ny, h) n = (
  (λ m. elim (In-append y ys (x ∷ []) m) [ inl old ↦ ny old | inr new ↦ last new ]),
  push-Once ys x h (λ m. n (inr m)),
)
  where
    last : In y (x ∷ []) → ⊥
    last (inl q) = n (inl (sym q))
    last (inr m) = m
