-- ===== src/Rpc/Queues/Places.antt =====
-- rpc.rs: the places of waiting calls in the queues of their routes, and the limits of queues.
use velo_bus.Prelude.{
  ℕ, ◌≤◌, ◌≡◌, ◌≢◌, ◌⊎◌, inl, inr, sym, ap, subst, ◌∙◌, List, [], ◌∷◌, ◌==◌, lookup, update, none,
  some, bytes_eq, bytes_eq_iff, In, length,
}
use velo_bus.Protocol.Types.{Bytes}
use velo_bus.Rpc.{Route, Call, State, find_call, find_route}
use velo_bus.Rpc.Lookups.{lookup-update_keeps, found-update}
use velo_bus.Rpc.Queues.{Alike}

-- The place of a call in the queue of its route.
abbrev pub Queued : List (Bytes × Route) → ℕ → Bytes → Type 0
Queued routes id name = (r : Route) × (lookup bytes_eq name routes ≡ some r) × In id r.queue

abbrev pub Fits : Route → Type 0
Fits r = length r.queue ≤ r.queue_limit

-- Each call without owner is queued, unless it is one of those that a section has in hand, and no
-- queue is over its limit.
pub record Attended (held : List ℕ) (s : State) : Type 0 where
  pub place :
      (id : ℕ) (c : Call)
      → find_call s id ≡ some c
      → c.owner ≡ none
      → In id held ⊎ Queued s.routes id c.route
  pub fits : (name : Bytes) (r : Route) → find_route s name ≡ some r → Fits r

pub Alike-Attended : (held : List ℕ) (s t : State) → Alike s t → Attended held s → Attended held t
Alike-Attended held s t a o = record {
  place = λ id c f own.
      subst (λ z. In id held ⊎ Queued z id c.route) a.routes
        (o.place id c (ap (lookup ◌==◌ id) a.calls ∙ f) own);
  fits = λ name r f. o.fits name r (ap (lookup bytes_eq name) a.routes ∙ f);
}

pub hold : (held : List ℕ) (s : State) (id : ℕ) → Attended held s → Attended (id ∷ held) s
hold held s id o = record {
  place = λ k c f own. elim (o.place k c f own) [ inl m ↦ inl (inr m) | inr q ↦ inr q ];
  fits = o.fits;
}

pub hold_all : (s : State) (ids : List ℕ) → Attended [] s → Attended ids s
hold_all s [] o = o
hold_all s (id ∷ ids) o = hold ids s id (hold_all s ids o)

-- A section lets go of an id that no call without owner has.
pub let_go :
    (held : List ℕ) (s : State) (id : ℕ)
    → ((c : Call) → find_call s id ≡ some c → c.owner ≢ none)
    → Attended (id ∷ held) s
    → Attended held s
let_go held s id none_free o = record {
  place = λ k c f own. elim (o.place k c f own) [
    | inl (inl same) ↦ absurd (none_free c (ap (find_call s) (sym same) ∙ f) own)
    | inl (inr m) ↦ inl m
    | inr q ↦ inr q
  ];
  fits = o.fits;
}

-- Routes behind an update that keeps what is queued, or the limits.
pub update-Queued :
    (f : Route → Route) (name : Bytes) (routes : List (Bytes × Route)) (id : ℕ) (route : Bytes)
    → ((r : Route) → In id r.queue → In id (f r).queue)
    → Queued routes id route
    → Queued (update bytes_eq name f routes) id route
update-Queued f name routes id route keeps q =
    lookup-update_keeps bytes_eq bytes_eq_iff route name f routes (λ r. In id r.queue) keeps q

pub update-Fits :
    (f : Route → Route) (name : Bytes) (routes : List (Bytes × Route))
    → ((r : Route) → lookup bytes_eq name routes ≡ some r → Fits r → Fits (f r))
    → ((n : Bytes) (r : Route) → lookup bytes_eq n routes ≡ some r → Fits r)
    → (n : Bytes) (r : Route) → lookup bytes_eq n (update bytes_eq name f routes) ≡ some r
    → Fits r
update-Fits f name routes keeps old n r h =
    let (d, found, how) = found-update bytes_eq bytes_eq_iff n name f routes r h in
    elim how [
      | inl (_, q) ↦ subst Fits (sym q) (old n d found)
      | inr (same, q) ↦
          subst Fits (sym q)
            (keeps d (ap (λ z. lookup bytes_eq z routes) (sym same) ∙ found) (old n d found))
    ]
