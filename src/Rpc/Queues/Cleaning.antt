-- ===== src/Rpc/Queues/Cleaning.antt =====
-- rpc.rs `expire_queued`: the clean-up takes the calls out of a queue whose time is up, and leaves the
-- others in their order.
use mathlib.Core.Option
use velo_bus.Prelude.{
  true_is_not_false, ℕ, ◌≡◌, refl, sym, ap, subst, ◌∙◌, inl, inr, Bool, true, false, not, ◌&&◌,
  List, [], ◌∷◌, ◌==◌, ==_iff, if◌then◌else◌, lookup, update, filter, contains_id, none, some,
  bytes_eq, bytes_eq_iff, In, arith, Bool-cases,
}
use velo_bus.Protocol.Types.{Bytes}
use velo_bus.Rpc.{Route, Call, State, find_call, find_route}
use velo_bus.Rpc.Lookups.{Once, lookup-update_at, In-filter, filter-In, filter-Once}
use velo_bus.Rpc.Calls.{
  owned, without, silent, release, remove, time_out, expire, expire_each, expired, expire_queued,
}
use velo_bus.Rpc.Queues.{Orderly}
use velo_bus.Rpc.Queues.Removal.{expire-Orderly}

-- A route as it is left, with a part of its queue.
unfoldable pub Kept : State → Bytes → List ℕ → Type 0
Kept t name queue = (r : Route) × (find_route t name ≡ some r) × (r.queue ≡ queue)

-- The removal of a waiting call takes its id out of its queue.
remove-Kept :
    (s : State) (id : ℕ) (name : Bytes) (r : Route) (c : Call)
    → find_route s name ≡ some r
    → find_call s id ≡ some c
    → c.owner ≡ none
    → c.route ≡ name
    → Kept (remove s id).1 name (filter (λ k. not (k == id)) r.queue)
unfolding remove release Kept
remove-Kept s id name r c e found free route =
    rw (remove, found, release, free)
      (
        without id r,
        ap (λ z. lookup bytes_eq name (update bytes_eq z (without id) s.routes)) route
            ∙ lookup-update_at bytes_eq bytes_eq_iff name (without id) s.routes
            ∙ ap (Option.map (without id)) e,
        refl,
      )

-- A call behind the end of its sender.
time_out-call :
    (s : State) (id : ℕ) (c : Call)
    → find_call s id ≡ some c
    → (d : Call) × (find_call (time_out s id c) id ≡ some d)
      × (d.owner ≡ c.owner)
      × (d.route ≡ c.route)
unfolding time_out
time_out-call s id c e = elim (Bool-cases c.response) [
  | inl open_c ↦
      rw (time_out, open_c)
        (
          silent c,
          lookup-update_at ◌==◌ ==_iff id silent s.calls ∙ ap (Option.map silent) e,
          refl,
          refl,
        )
  | inr shut ↦ rw (time_out, shut) (c, e, refl, refl)
]

time_out-route : (s : State) (id : ℕ) (c : Call) → (time_out s id c).routes ≡ s.routes
unfolding time_out
time_out-route s id c = ground arith

expire-Kept :
    (s : State) (id : ℕ) (name : Bytes) (r : Route)
    → Orderly s
    → find_route s name ≡ some r
    → In id r.queue
    → Kept (expire s id) name (filter (λ k. not (k == id)) r.queue)
unfolding expire
expire-Kept s id name r o e m =
    let (c, found, free, route) = o.queued name r id e m in
    let unowned : owned c ≡ false = ap (λ z. elim z [ none ↦ false | some w ↦ true ]) free in
    let (d, found', free', route') = time_out-call s id c found in
    rw (expire, found, unowned)
      (remove-Kept (time_out s id c) id name r d
        (ap (lookup bytes_eq name) (time_out-route s id c) ∙ e) found' (free' ∙ free)
        (route' ∙ route))

filter_both : (p q : ℕ → Bool) (xs : List ℕ) → filter p (filter q xs) ≡ filter (λ x. q x && p x) xs
unfolding filter
filter_both p q [] = refl
filter_both p q (x ∷ xs) = elim (Bool-cases (q x)) [
  | inl e ↦ rw e (ap (λ z. if p x then x ∷ z else z) (filter_both p q xs))
  | inr e ↦ rw e (filter_both p q xs)
]

filter_same :
    (p q : ℕ → Bool) (xs : List ℕ) → ((x : ℕ) → In x xs → p x ≡ q x) → filter p xs ≡ filter q xs
unfolding filter
filter_same p q [] h = refl
filter_same p q (x ∷ xs) h =
    rw (h x (inl refl))
      (ap (λ z. if q x then x ∷ z else z) (filter_same p q xs (λ y m. h y (inr m))))

expire_each-Kept :
    (ids : List ℕ) (s : State) (name : Bytes) (r : Route)
    → Orderly s
    → find_route s name ≡ some r
    → Once ids
    → ((k : ℕ) → In k ids → In k r.queue)
    → Kept (expire_each s ids) name (filter (λ k. not (contains_id k ids)) r.queue)
unfolding expire_each Kept filter
expire_each-Kept [] s name r o e once within = (r, e, sym (filter_all r.queue))
  where
    filter_all : (xs : List ℕ) → filter (λ k. true) xs ≡ xs
    filter_all [] = refl
    filter_all (x ∷ xs) = ap (◌∷◌ x) (filter_all xs)
expire_each-Kept (id ∷ ids) s name r o e (fresh, once) within =
    let (r', e', q) = expire-Kept s id name r o e (within id (inl refl)) in
    let (r'', e'', q') =
      expire_each-Kept ids (expire s id) name r' (expire-Orderly s id o) e' once (λ k m.
        subst (In k) (sym q) (filter-In _ k r.queue (within k (inr m)) (apart id ids fresh k m))) in
    (
      r'',
      e'',
      q' ∙ ap (filter _) q ∙ filter_both _ _ r.queue ∙ filter_same _ _ r.queue (λ k m. split k),
    )
  where
    apart : (id : ℕ) (ids : List ℕ) → (In id ids → ⊥) → (k : ℕ) → In k ids → not (k == id) ≡ true
    apart id ids fresh k m = elim (Bool-cases (k == id)) [
      | inl t ↦ absurd (fresh (subst (λ z. In z ids) ((==_iff k id).0 t) m))
      | inr t ↦ ap not t
    ]

    split : (k : ℕ) → (not (k == id) && not (contains_id k ids)) ≡ not (contains_id k (id ∷ ids))
    split k = ground arith

contains-In : (k : ℕ) (xs : List ℕ) → contains_id k xs ≡ true → In k xs
contains-In k [] h = cc
contains-In k (x ∷ xs) h = elim (Bool-cases (k == x)) [
  | inl e ↦ inl ((==_iff k x).0 e)
  | inr e ↦ inr (contains-In k xs (rw e at h))
]

In-contains : (k : ℕ) (xs : List ℕ) → In k xs → contains_id k xs ≡ true
In-contains k [] m = absurd m
In-contains k (x ∷ xs) (inl same) = let e : (k == x) ≡ true = (==_iff k x).1 same in rw e refl
In-contains k (x ∷ xs) (inr m) = elim (Bool-cases (k == x)) [
  | inl e ↦ rw e refl
  | inr e ↦ rw e (In-contains k xs m)
]

-- A member is in a filtered list when it passes.
contains_filtered :
    (p : ℕ → Bool) (k : ℕ) (xs : List ℕ) → In k xs → contains_id k (filter p xs) ≡ p k
contains_filtered p k xs m = elim (Bool-cases (p k)) [
  | inl e ↦ In-contains k (filter p xs) (filter-In p k xs m e) ∙ sym e
  | inr e ↦ elim (Bool-cases (contains_id k (filter p xs))) [
    | inr c ↦ c ∙ sym e
    | inl c ↦
        absurd (true_is_not_false (sym (In-filter p k xs (contains-In k (filter p xs) c)).1 ∙ e))
  ]
]

pub expire_queued-Kept :
    (s : State) (name : Bytes) (now : ℕ) (r : Route)
    → Orderly s
    → find_route s name ≡ some r
    → Kept (expire_queued s name now) name (filter (λ k. not (expired s now k)) r.queue)
unfolding expire_queued Kept
expire_queued-Kept s name now r o e =
    let late = filter (expired s now) r.queue in
    let (r', e', q) =
      expire_each-Kept late s name r o e (filter-Once _ r.queue (o.once name r e))
        (λ k m. (In-filter (expired s now) k r.queue m).0) in
    rw (expire_queued, e)
      (
        r',
        e',
        q ∙ filter_same _ _ r.queue (λ k m. ap not (contains_filtered (expired s now) k r.queue m)),
      )
