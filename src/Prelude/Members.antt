-- ===== src/Prelude/Members.antt =====
-- Reads and writes at an index, and membership.
use Prim.Native.Nat.{ℕ, zero, suc}
use mathlib.Core.Path.{◌≡◌, refl, sym, ap, subst}
use mathlib.Core.Logic.{◌⊎◌, inl, inr}
use mathlib.Core.List.{List, [], ◌∷◌, ◌++◌}
use mathlib.Core.Bool.{true, false}
use mathlib.Core.Option.{Option, none, some}
use velo_bus.Prelude.Lists.{length, take, drop, All}

module _ {A : Type 0} where
  abbrev pub get_elem? : List A → ℕ → Option A
  get_elem? [] i = none
  get_elem? (x ∷ xs) zero = some x
  get_elem? (x ∷ xs) (suc i) = get_elem? xs i

  -- A write out of bounds changes nothing.
  abbrev pub set : List A → ℕ → A → List A
  set [] i v = []
  set (x ∷ xs) zero v = v ∷ xs
  set (x ∷ xs) (suc i) v = x ∷ set xs i v

  -- Membership that can be taken apart.
  abbrev pub In : A → List A → Type 0
  In a [] = ⊥
  In a (x ∷ xs) = (a ≡ x) ⊎ In a xs

module _ {A : Type 0} where
  pub length-set : (xs : List A) (i : ℕ) (v : A) → length (set xs i v) ≡ length xs
  length-set [] i v = refl
  length-set (x ∷ xs) zero v = refl
  length-set (x ∷ xs) (suc i) v = ap suc (length-set xs i v)

  pub In-append_left : (a : A) (xs ys : List A) → In a xs → In a (xs ++ ys)
  In-append_left a [] ys h = absurd h
  In-append_left a (x ∷ xs) ys (inl e) = inl e
  In-append_left a (x ∷ xs) ys (inr h) = inr (In-append_left a xs ys h)

  pub In-append_right : (a : A) (xs ys : List A) → In a ys → In a (xs ++ ys)
  In-append_right a [] ys h = h
  In-append_right a (x ∷ xs) ys h = inr (In-append_right a xs ys h)

  pub In-append : (a : A) (xs ys : List A) → In a (xs ++ ys) → In a xs ⊎ In a ys
  In-append a [] ys h = inr h
  In-append a (x ∷ xs) ys (inl e) = inl (inl e)
  In-append a (x ∷ xs) ys (inr h) = elim (In-append a xs ys h) [
    | inl l ↦ inl (inr l)
    | inr r ↦ inr r
  ]

  pub In-get_elem? : (a : A) (xs : List A) (i : ℕ) → get_elem? xs i ≡ some a → In a xs
  In-get_elem? a [] i e = cc
  In-get_elem? a (x ∷ xs) zero e = inl (cc)
  In-get_elem? a (x ∷ xs) (suc i) e = inr (In-get_elem? a xs i e)

  -- What was in the list is still there after a write, or was the element overwritten.
  pub In-set_old :
      (a old new : A) (xs : List A) (i : ℕ)
      → get_elem? xs i ≡ some old
      → In a xs
      → In a (set xs i new) ⊎ (a ≡ old)
  In-set_old a old new [] i e h = absurd h
  In-set_old a old new (x ∷ xs) zero e (inl h) = inr (cc)
  In-set_old a old new (x ∷ xs) zero e (inr h) = inl (inr h)
  In-set_old a old new (x ∷ xs) (suc i) e (inl h) = inl (inl h)
  In-set_old a old new (x ∷ xs) (suc i) e (inr h) = elim (In-set_old a old new xs i e h) [
    | inl l ↦ inl (inr l)
    | inr r ↦ inr r
  ]

  pub In-set_new :
      (old new : A) (xs : List A) (i : ℕ) → get_elem? xs i ≡ some old → In new (set xs i new)
  In-set_new old new [] i e = cc
  In-set_new old new (x ∷ xs) zero e = inl refl
  In-set_new old new (x ∷ xs) (suc i) e = inr (In-set_new old new xs i e)

  pub In-set : (a new : A) (xs : List A) (i : ℕ) → In a (set xs i new) → In a xs ⊎ (a ≡ new)
  In-set a new [] i h = absurd h
  In-set a new (x ∷ xs) zero (inl e) = inr e
  In-set a new (x ∷ xs) zero (inr h) = inl (inr h)
  In-set a new (x ∷ xs) (suc i) (inl e) = inl (inl e)
  In-set a new (x ∷ xs) (suc i) (inr h) = elim (In-set a new xs i h) [
    | inl l ↦ inl (inr l)
    | inr r ↦ inr r
  ]

  pub All-In {κ} : (P : A → Type κ) (a : A) (xs : List A) → All P xs → In a xs → P a
  All-In P a [] h m = absurd m
  All-In P a (x ∷ xs) (hx, hxs) (inl e) = subst P (sym e) hx
  All-In P a (x ∷ xs) (hx, hxs) (inr m) = All-In P a xs hxs m

  pub In-take : (a : A) (n : ℕ) (xs : List A) → In a (take n xs) → In a xs
  In-take a zero xs h = absurd h
  In-take a (suc n) [] h = absurd h
  In-take a (suc n) (x ∷ xs) (inl e) = inl e
  In-take a (suc n) (x ∷ xs) (inr h) = inr (In-take a n xs h)

  pub In-drop : (a : A) (n : ℕ) (xs : List A) → In a (drop n xs) → In a xs
  In-drop a zero xs h = h
  In-drop a (suc n) [] h = absurd h
  In-drop a (suc n) (x ∷ xs) h = inr (In-drop a n xs h)

-- Constructors apart, and what an equation between two of one kind says.
pub none_is_not_some : {A : Type 0} {a : A} → none ≡ some a → ⊥
none_is_not_some q = cc

pub some_is_not_none : {A : Type 0} {a : A} → some a ≡ none → ⊥
some_is_not_none q = cc

pub false_is_not_true : false ≡ true → ⊥
false_is_not_true q = cc

pub true_is_not_false : true ≡ false → ⊥
true_is_not_false q = cc

pub some_injective : {A : Type 0} {a b : A} → some a ≡ some b → a ≡ b
some_injective q = cc
