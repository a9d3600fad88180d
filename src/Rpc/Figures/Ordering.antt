-- ===== src/Rpc/Figures/Ordering.antt =====
-- rpc.rs `stats`: the sort of the routes by name.
use velo_bus.Prelude.{
  ◌≡◌, inl, inr, refl, true, false, List, [], ◌∷◌, ◌==◌, In, All, Bool-cases, arith,
}
use velo_bus.Protocol.Types.{Bytes}
use velo_bus.Rpc.Figures.{RouteFigures, bytes_leb, insert_route, sort_routes}

-- Each name is at most those that follow.
abbrev pub ByName : List RouteFigures → Type 0
ByName [] = Unit {0}
ByName (f ∷ fs) = All (λ (g : RouteFigures). bytes_leb f.name g.name ≡ true) fs × ByName fs

bytes_leb_total : (a b : Bytes) → bytes_leb a b ≡ false → bytes_leb b a ≡ true
unfolding bytes_leb
bytes_leb_total [] b h = cc
bytes_leb_total (x ∷ xs) [] h = refl
bytes_leb_total (x ∷ xs) (y ∷ ys) h = elim (Bool-cases (x == y)) [
  | inl e ↦ ground (arith, e, h, bytes_leb_total xs ys)
  | inr e ↦ ground (arith, e, h)
]

bytes_leb_trans :
    (a b c : Bytes) → bytes_leb a b ≡ true → bytes_leb b c ≡ true → bytes_leb a c ≡ true
unfolding bytes_leb
bytes_leb_trans [] b c h k = refl
bytes_leb_trans (x ∷ xs) [] c h k = cc
bytes_leb_trans (x ∷ xs) (y ∷ ys) [] h k = cc
bytes_leb_trans (x ∷ xs) (y ∷ ys) (z ∷ zs) h k = ground (arith, h, k, bytes_leb_trans xs ys zs)

All_trans :
    (a b : Bytes) (fs : List RouteFigures)
    → bytes_leb a b ≡ true
    → All (λ (g : RouteFigures). bytes_leb b g.name ≡ true) fs
    → All (λ (g : RouteFigures). bytes_leb a g.name ≡ true) fs
All_trans a b [] h k = tt
All_trans a b (f ∷ fs) h (hf, k) = (bytes_leb_trans a b f.name h hf, All_trans a b fs h k)

All-insert_route :
    (P : RouteFigures → Type 0) (f : RouteFigures) (fs : List RouteFigures)
    → P f
    → All P fs
    → All P (insert_route f fs)
unfolding insert_route
All-insert_route P f [] p h = (p, tt)
All-insert_route P f (g ∷ gs) p (hg, h) = elim (Bool-cases (bytes_leb f.name g.name)) [
  | inl e ↦ rw e (p, (hg, h))
  | inr e ↦ rw e (hg, All-insert_route P f gs p h)
]

insert_route-ByName :
    (f : RouteFigures) (fs : List RouteFigures) → ByName fs → ByName (insert_route f fs)
unfolding insert_route
insert_route-ByName f [] h = (tt, tt)
insert_route-ByName f (g ∷ gs) (hg, h) = elim (Bool-cases (bytes_leb f.name g.name)) [
  | inl e ↦ rw e ((e, All_trans f.name g.name gs e hg), (hg, h))
  | inr e ↦ rw e (
    All-insert_route (λ z. bytes_leb g.name z.name ≡ true) f gs (bytes_leb_total f.name g.name e)
        hg,
    insert_route-ByName f gs h,
  )
]

pub sort_routes-ByName : (fs : List RouteFigures) → ByName (sort_routes fs)
unfolding sort_routes
sort_routes-ByName [] = tt
sort_routes-ByName (f ∷ fs) = insert_route-ByName f (sort_routes fs) (sort_routes-ByName fs)

insert_route-In :
    (x f : RouteFigures) (fs : List RouteFigures) → In x (f ∷ fs) → In x (insert_route f fs)
unfolding insert_route
insert_route-In x f [] h = h
insert_route-In x f (g ∷ gs) h = elim (Bool-cases (bytes_leb f.name g.name)) [
  | inl e ↦ rw e h
  | inr e ↦ rw e (behind (insert_route-In x f gs))
]
  where
    behind : (In x (f ∷ gs) → In x (insert_route f gs)) → In x (g ∷ insert_route f gs)
    behind ih = elim h [
      | inl q ↦ inr (ih (inl q))
      | inr (inl q) ↦ inl q
      | inr (inr m) ↦ inr (ih (inr m))
    ]

pub sort_routes-In : (x : RouteFigures) (fs : List RouteFigures) → In x fs → In x (sort_routes fs)
unfolding sort_routes
sort_routes-In x (f ∷ fs) (inl q) = insert_route-In x f (sort_routes fs) (inl q)
sort_routes-In x (f ∷ fs) (inr m) =
    insert_route-In x f (sort_routes fs) (inr (sort_routes-In x fs m))
sort_routes-In x [] m = absurd m
