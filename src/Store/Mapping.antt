-- ===== src/Store/Mapping.antt =====
-- store.rs `fetch` in latest mode: the map finds each selected event where it is.
use velo_bus.Prelude.{
  none_is_not_some, true_is_not_false, ℕ, zero, suc, ◌≡◌, ◌⊎◌, inl, inr, refl, sym, ap, ◌∙◌, true,
  false, ◌&&◌, List, [], ◌∷◌, ◌++◌, if◌then◌else◌, length, set, get_elem?, bytes_eq, bytes_eq_iff,
  Option, none, some, In, Bool-cases, arith,
}
use velo_bus.Protocol.Types.{Bytes, Event, Fetch}
use velo_bus.Store.Fetch.{coalesces, same_key, Positions, position_of, Scan, replaced, select_event}
use velo_bus.Store.Scanning.{SameKey}

-- The map finds each selected event that coalesces where it is.
abbrev pub Mapped : Fetch → Scan → Type 0
Mapped f st =
    (i : ℕ) (x : Event)
    → get_elem? st.selected i ≡ some x
    → coalesces f x ≡ true
    → position_of st.positions x ≡ some i

set-get_elem? :
    (xs : List Event) (i j : ℕ) (new x : Event)
    → get_elem? (set xs i new) j ≡ some x
    → ((i ≡ j) × (x ≡ new)) ⊎ (get_elem? xs j ≡ some x)
set-get_elem? [] i j new x h = cc
set-get_elem? (y ∷ ys) zero zero new x h = inl (refl, cc)
set-get_elem? (y ∷ ys) zero (suc j) new x h = inr h
set-get_elem? (y ∷ ys) (suc i) zero new x h = inr h
set-get_elem? (y ∷ ys) (suc i) (suc j) new x h = elim (set-get_elem? ys i j new x h) [
  | inl (e, q) ↦ inl (ap suc e, q)
  | inr old ↦ inr old
]

append-get_elem? :
    (xs : List Event) (j : ℕ) (new x : Event)
    → get_elem? (xs ++ new ∷ []) j ≡ some x
    → ((j ≡ length xs) × (x ≡ new)) ⊎ (get_elem? xs j ≡ some x)
append-get_elem? [] zero new x h = inl (refl, cc)
append-get_elem? [] (suc j) new x h = cc
append-get_elem? (y ∷ ys) zero new x h = inr h
append-get_elem? (y ∷ ys) (suc j) new x h = elim (append-get_elem? ys j new x h) [
  | inl (e, q) ↦ inl (ap suc e, q)
  | inr old ↦ inr old
]

pub In-index : (x : Event) (xs : List Event) → In x xs → (i : ℕ) × (get_elem? xs i ≡ some x)
In-index x [] m = absurd m
In-index x (y ∷ ys) (inl q) = (zero, ap some (sym q))
In-index x (y ∷ ys) (inr m) = let (i, e) = In-index x ys m in (suc i, e)

-- The map reads topic and key only.
same_key-eq : (k : Bytes × Bytes) (x y : Event) → SameKey x y → same_key k x ≡ same_key k y
unfolding same_key
same_key-eq (topic, key) x y h =
    ap (λ z. bytes_eq topic z && bytes_eq key x.content.key) h.topic
    ∙ ap (λ z. bytes_eq topic y.content.topic && bytes_eq key z) h.key

pub position_of-eq :
    (ps : Positions) (x y : Event) → SameKey x y → position_of ps x ≡ position_of ps y
unfolding position_of
position_of-eq [] x y h = refl
position_of-eq ((k, i) ∷ ps) x y h =
    ap (λ z. if z then some i else position_of ps x) (same_key-eq k x y h)
    ∙ ap (λ z. if same_key k y then some i else z) (position_of-eq ps x y h)

key_of-SameKey : (e x : Event) → same_key (e.content.topic, e.content.key) x ≡ true → SameKey e x
unfolding same_key
key_of-SameKey e x h = record {
  topic = (bytes_eq_iff e.content.topic x.content.topic).0 (ground (arith, h));
  key = (bytes_eq_iff e.content.key x.content.key).0 (ground (arith, h));
}

key_of_self : (e : Event) → same_key (e.content.topic, e.content.key) e ≡ true
unfolding same_key
key_of_self e = ground (
  arith,
  (bytes_eq_iff e.content.topic e.content.topic).1 refl,
  (bytes_eq_iff e.content.key e.content.key).1 refl,
)

pub select_event-Mapped :
    (f : Fetch) (st : Scan) (e : Event) (wire : ℕ) (o : Option ℕ)
    → replaced f st e ≡ o
    → Mapped f st
    → Mapped f (select_event f st e o wire)
unfolding select_event replaced position_of
select_event-Mapped f st e wire (some i) r m j x h c = elim (set-get_elem? st.selected i j e x h) [
  | inl (same, q) ↦
      let at : position_of st.positions e ≡ some i = ground (arith, r) in
      ap (position_of st.positions) q ∙ at ∙ ap some same
  | inr old ↦ m j x old c
]
select_event-Mapped f st e wire none r m j x h c = elim (Bool-cases (coalesces f e)) [
  | inr plain ↦ elim (append-get_elem? st.selected j e x h) [
    | inl (_, q) ↦ absurd (true_is_not_false (sym c ∙ ap (coalesces f) q ∙ plain))
    | inr old ↦ rw plain (m j x old c)
  ]
  | inl keyed ↦
      let absent : position_of st.positions e ≡ none = rw keyed at r in
      elim (append-get_elem? st.selected j e x h) [
        | inl (last, q) ↦ rw keyed (
            found (length st.selected)
              (ap (same_key (e.content.topic, e.content.key)) q ∙ key_of_self e)
            ∙ ap some (sym last))
        | inr old ↦ elim (Bool-cases (same_key (e.content.topic, e.content.key) x)) [
          | inl hit ↦ absurd (
              none_is_not_some (
                sym absent
                ∙ position_of-eq st.positions e x (key_of-SameKey e x hit)
                ∙ m j x old c))
          | inr miss ↦ rw keyed (passed (length st.selected) miss ∙ m j x old c)
        ]
      ]
]
  where
    found :
        (n : ℕ)
        → same_key (e.content.topic, e.content.key) x ≡ true
        → position_of (((e.content.topic, e.content.key), n) ∷ st.positions) x ≡ some n
    found n t = rw (position_of, t) refl

    passed :
        (n : ℕ)
        → same_key (e.content.topic, e.content.key) x ≡ false
        → position_of (((e.content.topic, e.content.key), n) ∷ st.positions) x
          ≡ position_of st.positions x
    passed n t = rw (position_of, t) refl
