-- ===== src/Store/Scanning.antt =====
-- The loop of FETCH: what holds of its locals after each event.
use velo_bus.Prelude.{
  ℕ, zero, suc, ◌+◌, ◌≤◌, ◌<◌, ◌≡◌, ◌≢◌, ◌⊎◌, inl, inr, refl, sym, ap, subst, ◌∙◌, Bool, true,
  false, List, [], ◌∷◌, ◌++◌, arith, if◌then◌else◌, length, set, get_elem?, bytes_eq_iff, some, In,
  Bool-cases, All, All-append,
}
use velo_bus.Protocol.Types.{Event, Fetch, wire_bytes}
use velo_bus.Store.Fetch.{topic_matches, same_key, Positions, position_of, Scan}

-- Consecutive sequence numbers behind `n`.
abbrev pub Numbered : ℕ → List Event → Type 0
Numbered n [] = Unit {0}
Numbered n (e ∷ es) = (e.sequence ≡ suc n) × Numbered (suc n) es

-- No event is larger than the limits of a record allow.
abbrev pub IsSmall : Event → Type 0
IsSmall e = wire_bytes e.content ≤ 263_439

unfoldable pub total : List Event → ℕ
total [] = 0
total (e ∷ es) = wire_bytes e.content + total es

pub record SameKey (a b : Event) : Type 0 where
  pub topic : a.content.topic ≡ b.content.topic
  pub key : a.content.key ≡ b.content.key

-- Superseded, in latest mode, by a selected event with a later number and the same topic and key.
pub record Superseded (f : Fetch) (selected : List Event) (e : Event) : Type 0 where
  pub by : Event
  pub chosen : In by selected
  pub latest : f.latest ≡ true
  pub keyed : e.content.key ≢ []
  pub same : SameKey by e
  pub later : e.sequence < by.sequence

abbrev pub Covered : Fetch → List Event → Event → Type 0
Covered f selected e = In e selected ⊎ Superseded f selected e

-- Each entry of the map points to a selected event with its topic and key.
abbrev pub Points : Positions → List Event → Type 0
Points ps selected =
    (x : Event) (i : ℕ)
    → position_of ps x ≡ some i
    → (y : Event) × (get_elem? selected i ≡ some y) × SameKey y x

-- No two events have the same number.
abbrev pub Apart : Event → List Event → Type 0
Apart e xs = All (λ y. y.sequence ≢ e.sequence) xs

abbrev pub Distinct : List Event → Type 0
Distinct [] = Unit {0}
Distinct (x ∷ xs) = Apart x xs × Distinct xs

-- The invariant, once the events `done` have been scanned.
pub record Inv (f : Fetch) (done : List Event) (st : Scan) : Type 0 where
  pub covered : (e : Event) → In e done → topic_matches f e ≡ true → Covered f st.selected e
  pub sound : (e : Event) → In e st.selected → In e done × (topic_matches f e ≡ true)
  pub distinct : Distinct st.selected
  pub points : Points st.positions st.selected
  pub wire : st.wire ≡ total st.selected
  pub budget : st.wire ≤ f.max_bytes
  pub count : length st.selected ≤ f.limit

pub total-append : (xs ys : List Event) → total (xs ++ ys) ≡ total xs + total ys
unfolding total
total-append [] ys = omega arith
total-append (x ∷ xs) ys = omega (arith, total-append xs ys)

pub total-set :
    (xs : List Event) (i : ℕ) (old new : Event)
    → get_elem? xs i ≡ some old
    → total (set xs i new) + wire_bytes old.content ≡ total xs + wire_bytes new.content
unfolding total
total-set [] i old new h = cc
total-set (x ∷ xs) zero old new h = ground arith
total-set (x ∷ xs) (suc i) old new h = omega (arith, total-set xs i old new h)

get_elem?-append_left :
    (xs ys : List Event) (i : ℕ) (y : Event)
    → get_elem? xs i ≡ some y
    → get_elem? (xs ++ ys) i ≡ some y
get_elem?-append_left [] ys i y h = cc
get_elem?-append_left (x ∷ xs) ys zero y h = h
get_elem?-append_left (x ∷ xs) ys (suc i) y h = get_elem?-append_left xs ys i y h

get_elem?-append_length :
    (xs : List Event) (y : Event) → get_elem? (xs ++ y ∷ []) (length xs) ≡ some y
get_elem?-append_length [] y = refl
get_elem?-append_length (x ∷ xs) y = get_elem?-append_length xs y

-- After a write the index holds the new element, and every other its old one.
get_elem?-set :
    (xs : List Event) (i j : ℕ) (new y : Event)
    → get_elem? xs j ≡ some y
    → (get_elem? (set xs i new) j ≡ some y) ⊎ ((i ≡ j) × (get_elem? (set xs i new) j ≡ some new))
get_elem?-set [] i j new y h = cc
get_elem?-set (x ∷ xs) zero zero new y h = inr (refl, refl)
get_elem?-set (x ∷ xs) zero (suc j) new y h = inl h
get_elem?-set (x ∷ xs) (suc i) zero new y h = inl h
get_elem?-set (x ∷ xs) (suc i) (suc j) new y h = elim (get_elem?-set xs i j new y h) [
  | inl e ↦ inl e
  | inr (e, k) ↦ inr (ap suc e, k)
]

same_key-SameKey : (a b : Event) → same_key (a.content.topic, a.content.key) b ≡ true → SameKey a b
unfolding same_key
same_key-SameKey a b h = ground (
  arith,
  (bytes_eq_iff a.content.topic b.content.topic).0,
  (bytes_eq_iff a.content.key b.content.key).0,
)

pub SameKey-trans : {a b c : Event} → SameKey a b → SameKey b c → SameKey a c
SameKey-trans h k = record { topic = h.topic ∙ k.topic; key = h.key ∙ k.key }

pub SameKey-sym : {a b : Event} → SameKey a b → SameKey b a
SameKey-sym h = record { topic = sym h.topic; key = sym h.key }

-- The map after a new key.
Points-push :
    (ps : Positions) (selected : List Event) (e : Event)
    → Points ps selected
    → Points (((e.content.topic, e.content.key), length selected) ∷ ps) (selected ++ e ∷ [])
unfolding position_of
Points-push ps selected e h x i found =
    elim (Bool-cases (same_key (e.content.topic, e.content.key) x)) [
      | inl hit ↦ (
        e,
        subst (λ (j : ℕ). get_elem? (selected ++ e ∷ []) j ≡ some e) (ground arith)
            (get_elem?-append_length selected e),
        same_key-SameKey e x hit,
      )
      | inr miss ↦
          let (y, at, same) = h x i (ground arith) in
          (y, get_elem?-append_left selected (e ∷ []) i y at, same)
    ]

Points-append :
    (ps : Positions) (selected : List Event) (e : Event)
    → Points ps selected
    → Points ps (selected ++ e ∷ [])
Points-append ps selected e h x i found =
    let (y, at, same) = h x i found in (y, get_elem?-append_left selected (e ∷ []) i y at, same)

pub Points-set :
    (ps : Positions) (selected : List Event) (i : ℕ) (old e : Event)
    → get_elem? selected i ≡ some old
    → SameKey old e
    → Points ps selected
    → Points ps (set selected i e)
Points-set ps selected i old e at_i same h x j found =
    let (y, at_j, yx) = h x j found in
    elim (get_elem?-set selected i j e y at_j) [
      | inl kept ↦ (y, kept, yx)
      | inr (ij, written) ↦
          let oy : old ≡ y = cc (ap (get_elem? selected) ij) in
          (e, written, SameKey-trans (SameKey-sym same) (subst (λ z. SameKey z x) (sym oy) yx))
    ]

pub Points-next :
    (b : Bool) (ps : Positions) (selected : List Event) (e : Event)
    → Points ps selected
    → Points
        (if b then ((e.content.topic, e.content.key), length selected) ∷ ps else ps)
        (selected ++ e ∷ [])
Points-next true = Points-push
Points-next false = Points-append

pub Distinct-append :
    (xs : List Event) (e : Event) → Distinct xs → Apart e xs → Distinct (xs ++ e ∷ [])
Distinct-append [] e d a = (tt, tt)
Distinct-append (x ∷ xs) e (ax, d) (ne, a) = (
  All-append (λ y. y.sequence ≢ x.sequence) xs (e ∷ []) ax ((λ h. ne (sym h)), tt),
  Distinct-append xs e d a,
)

All-set :
    (P : Event → Type 0) (xs : List Event) (i : ℕ) (e : Event) → All P xs → P e → All P (set xs i e)
All-set P [] i e h p = tt
All-set P (x ∷ xs) zero e (hx, h) p = (p, h)
All-set P (x ∷ xs) (suc i) e (hx, h) p = (hx, All-set P xs i e h p)

pub Distinct-set :
    (xs : List Event) (i : ℕ) (e : Event) → Distinct xs → Apart e xs → Distinct (set xs i e)
Distinct-set [] i e d a = tt
Distinct-set (x ∷ xs) zero e (ax, d) (ne, a) = (a, d)
Distinct-set (x ∷ xs) (suc i) e (ax, d) (ne, a) =
    (All-set (λ y. y.sequence ≢ x.sequence) xs i e ax (λ h. ne (sym h)), Distinct-set xs i e d a)

-- A later event is apart from all that came before.
pub Apart-newest :
    (xs : List Event) (e : Event) → ((x : Event) → In x xs → x.sequence < e.sequence) → Apart e xs
Apart-newest [] e h = tt
Apart-newest (x ∷ xs) e h =
    let lt = h x (inl refl) in
    ((λ same. absurd (omega (arith, lt, same))), Apart-newest xs e (λ y m. h y (inr m)))
