-- ===== src/Store/Sorting.antt =====
-- The sort at the end of FETCH: the same events, by ascending number.
use velo_bus.Prelude.{
  ℕ, suc, ◌+◌, ◌<◌, ◌≡◌, ◌≢◌, ◌↔◌, inl, inr, refl, List, [], ◌∷◌, arith, leb, length, In,
  Bool-cases, All,
}
use velo_bus.Protocol.Types.{Event, wire_bytes}
use velo_bus.Store.Fetch.{insert_event, sort_events}
use velo_bus.Store.Scanning.{total, Distinct, Apart}

swap_front : (x a b : Event) (xs : List Event) → In x (a ∷ b ∷ xs) → In x (b ∷ a ∷ xs)
swap_front x a b xs (inl h) = inr (inl h)
swap_front x a b xs (inr (inl h)) = inl h
swap_front x a b xs (inr (inr h)) = inr (inr h)

under : (x y : Event) (xs ys : List Event) → (In x xs → In x ys) → In x (y ∷ xs) → In x (y ∷ ys)
under x y xs ys f (inl h) = inl h
under x y xs ys f (inr h) = inr (f h)

insert_event-In : (x e : Event) (xs : List Event) → In x (e ∷ xs) → In x (insert_event e xs)
unfolding insert_event
insert_event-In x e [] h = h
insert_event-In x e (y ∷ xs) h = elim (Bool-cases (leb e.sequence y.sequence)) [
  | inl le ↦ rw le h
  | inr gt ↦
      rw gt
        (under x y (e ∷ xs) (insert_event e xs) (insert_event-In x e xs) (swap_front x e y xs h))
]

In-insert_event : (x e : Event) (xs : List Event) → In x (insert_event e xs) → In x (e ∷ xs)
unfolding insert_event
In-insert_event x e [] h = h
In-insert_event x e (y ∷ xs) h = elim (Bool-cases (leb e.sequence y.sequence)) [
  | inl le ↦ rw le at h
  | inr gt ↦
      swap_front x y e xs
        (under x y (insert_event e xs) (e ∷ xs) (In-insert_event x e xs) (rw gt at h))
]

pub sort_events-In : (x : Event) (xs : List Event) → In x xs ↔ In x (sort_events xs)
unfolding sort_events
sort_events-In x [] = (λ h. h, λ h. h)
sort_events-In x (y ∷ xs) =
    let ih = sort_events-In x xs in
    (
      λ h. insert_event-In x y (sort_events xs) (under x y xs (sort_events xs) ih.0 h),
      λ h. under x y (sort_events xs) xs ih.1 (In-insert_event x y (sort_events xs) h),
    )

-- Every number is below all that follow.
abbrev pub Ascending : List Event → Type 0
Ascending [] = Unit {0}
Ascending (x ∷ xs) = All (λ y. x.sequence < y.sequence) xs × Ascending xs

All-insert_event :
    (P : Event → Type 0) (e : Event) (xs : List Event) → P e → All P xs → All P (insert_event e xs)
unfolding insert_event
All-insert_event P e [] p h = (p, tt)
All-insert_event P e (y ∷ xs) p (hy, h) = elim (Bool-cases (leb e.sequence y.sequence)) [
  | inl le ↦ rw le (p, (hy, h))
  | inr gt ↦ rw gt (hy, All-insert_event P e xs p h)
]

above :
    (n m : ℕ) (xs : List Event)
    → n < m
    → All (λ y. m < y.sequence) xs
    → All (λ y. n < y.sequence) xs
above n m [] lt h = tt
above n m (y ∷ xs) lt (hy, h) = (omega arith, above n m xs lt h)

insert_event-Ascending :
    (e : Event) (xs : List Event) → Apart e xs → Ascending xs → Ascending (insert_event e xs)
unfolding insert_event
insert_event-Ascending e [] a h = (tt, tt)
insert_event-Ascending e (y ∷ xs) (ne, a) (hy, h) = elim (Bool-cases (leb e.sequence y.sequence)) [
  | inl le ↦
      let lt : e.sequence < y.sequence = ground (arith, ne) in
      rw le ((lt, above e.sequence y.sequence xs lt hy), (hy, h))
  | inr gt ↦ rw gt (
    All-insert_event (λ z. y.sequence < z.sequence) e xs (ground arith) hy,
    insert_event-Ascending e xs a h,
  )
]

All-sort_events : (P : Event → Type 0) (xs : List Event) → All P xs → All P (sort_events xs)
unfolding sort_events
All-sort_events P [] h = tt
All-sort_events P (x ∷ xs) (hx, h) =
    All-insert_event P x (sort_events xs) hx (All-sort_events P xs h)

pub sort_events-Ascending : (xs : List Event) → Distinct xs → Ascending (sort_events xs)
unfolding sort_events
sort_events-Ascending [] d = tt
sort_events-Ascending (x ∷ xs) (a, d) =
    insert_event-Ascending x (sort_events xs) (All-sort_events (λ y. y.sequence ≢ x.sequence) xs a)
      (sort_events-Ascending xs d)

total-insert_event :
    (e : Event) (xs : List Event)
    → (total (insert_event e xs) ≡ wire_bytes e.content + total xs)
      × (length (insert_event e xs) ≡ suc (length xs))
unfolding insert_event total
total-insert_event e [] = (refl, refl)
total-insert_event e (y ∷ xs) =
    ground (arith, (total-insert_event e xs).0, (total-insert_event e xs).1)

pub total-sort_events :
    (xs : List Event) → (total (sort_events xs) ≡ total xs) × (length (sort_events xs) ≡ length xs)
unfolding sort_events total
total-sort_events [] = (refl, refl)
total-sort_events (x ∷ xs) =
    omega (arith, total-insert_event x (sort_events xs), total-sort_events xs)
