-- ===== src/Rpc/Queues/Handing.antt =====
-- rpc.rs: the moves of rpc.rs `State` behind TAKE, COMPLETE and a ticket keep waiting calls queued.
use mathlib.Core.Option
use velo_bus.Prelude.{
  false_is_not_true, some_injective, ℕ, ◌≤◌, ◌≡◌, ◌⊎◌, inl, inr, sym, ap, subst, ◌∙◌, Bool, List,
  [], ◌∷◌, ◌==◌, ==_iff, lookup, update, none, some, bytes_eq, bytes_eq_iff, In, Bool-cases, length,
  arith,
}
use velo_bus.Protocol.Types.{Bytes}
use velo_bus.Rpc.{Route, Call, State, find_route}
use velo_bus.Rpc.Lookups.{lookup-update_at, lookup-update_other, found-update}
use velo_bus.Rpc.Calls.{expire_queued, remove}
use velo_bus.Rpc.Requests.{
  Ticket, assign, dispatch, set_queue, pop_call, take_round, begin_take, end_take, count_completed,
  complete, Waited, wait,
}
use velo_bus.Rpc.Outcomes.{Rests, Leaves}
use velo_bus.Rpc.Queues.Sections.{answer-Alike}
use velo_bus.Rpc.Queues.Places.{Queued, Fits, Attended, Alike-Attended, hold, update-Fits}
use velo_bus.Rpc.Queues.Attending.{
  remove-Attended, expire-Attended, expire_queued-Attended, cancel-Attended,
}
use velo_bus.Rpc.Sections.{
  begin_take_keeps, pop_call_keeps, pop_front_keeps, take_round_keeps, complete_keeps, wait_keeps,
}

-- The call that is popped is held until it has an owner or is gone.
dispatch-Attended : (s : State) (w id : ℕ) → Attended (id ∷ []) s → Attended [] (dispatch s w id)
dispatch-Attended s w id o = record {
  place = λ k c f own.
      let (d, found, how) = found-update ◌==◌ ==_iff k id (assign w) s.calls c f in
      elim how [
        | inl (ne, q) ↦ elim (o.place k c (found ∙ ap some (sym q)) own) [
          | inl (inl same) ↦ absurd (ne same)
          | inl (inr m) ↦ inl m
          | inr there ↦ inr there
        ]
        | inr (_, q) ↦ absurd (assigned c d q own)
      ];
  fits = o.fits;
}
  where
    assigned : (c d : Call) → c ≡ assign w d → c.owner ≡ none → ⊥
    assigned c d q own = cc

-- A name has one route.
pub same_route :
    (s : State) (name : Bytes) (r r' : Route)
    → find_route s name ≡ some r
    → find_route s name ≡ some r'
    → r' ≡ r
same_route s name r r' e f = some_injective (sym f ∙ e)

module _ (s : State) (name : Bytes) (r : Route) (id : ℕ) (ids : List ℕ) (o : Attended [] s)
    (e : find_route s name ≡ some r) (q : r.queue ≡ id ∷ ids) where
  abbrev popped : State
  popped = record s { routes = update bytes_eq name (set_queue ids) s.routes }

  popped-place :
      (k : ℕ) (route : Bytes)
      → Queued s.routes k route
      → In k (id ∷ []) ⊎ Queued popped.routes k route
  popped-place k route (r', at, m) = elim (Bool-cases (bytes_eq route name)) [
    | inl t ↦
        let here = (bytes_eq_iff route name).0 t in
        let same = same_route s name r r' e (ap (find_route s) (sym here) ∙ at) in
        elim (subst (In k) q (subst (λ (z : Route). In k z.queue) same m)) [
          | inl front ↦ inl (inl front)
          | inr behind ↦ inr (
            set_queue ids r,
            ap (λ z. lookup bytes_eq z (update bytes_eq name (set_queue ids) s.routes)) here
                ∙ lookup-update_at bytes_eq bytes_eq_iff name (set_queue ids) s.routes
                ∙ ap (Option.map (set_queue ids)) e,
            behind,
          )
        ]
    | inr t ↦ inr (
      r',
      lookup-update_other bytes_eq bytes_eq_iff route name (set_queue ids) s.routes
            (λ z. false_is_not_true (sym t ∙ (bytes_eq_iff route name).1 z))
          ∙ at,
      m,
    )
  ]

  popped-Attended : Attended (id ∷ []) popped
  popped-Attended = record {
    place = λ k c f own. elim (o.place k c f own) [
      | inl m ↦ absurd m
      | inr there ↦ popped-place k c.route there
    ];
    fits =
        update-Fits (set_queue ids) name s.routes
          (λ r' at fit.
            let fit' : Fits r = subst Fits (same_route s name r r' e at) fit in
            subst (λ (z : Route). length ids ≤ z.queue_limit) (sym (same_route s name r r' e at))
              (omega (arith, fit', ap length q)))
          o.fits;
  }

  popped-Rests : (w now : ℕ) → Rests (Attended []) (pop_call popped w id now)
  popped-Rests w now =
      pop_call_keeps (Attended []) popped w id now (expire-Attended [] popped id popped-Attended)
        (λ c f. dispatch-Attended popped w id popped-Attended)

pub take_round-Rests :
    (s : State) (w first second : ℕ)
    → Attended [] s
    → Rests (Attended []) (take_round s w first second)
take_round-Rests s w first second o =
    take_round_keeps (Attended []) s w first second
      (λ v e free.
        let t = expire_queued s v.route first in
        let cleaned = expire_queued-Attended s v.route first o in
        pop_front_keeps (Attended []) t w v.route second
          (λ r id ids at q. popped-Rests t v.route r id ids cleaned at q w second) cleaned)
      o

pub begin_take-Attended : (s : State) (w : ℕ) → Attended [] s → Attended [] (begin_take s w).1
begin_take-Attended s w o =
    begin_take_keeps (Attended []) s w (record { place = o.place; fits = o.fits }) o

pub end_take-Attended : (s : State) (w : ℕ) → Attended [] s → Attended [] (end_take s w)
unfolding end_take
end_take-Attended s w o = record { place = o.place; fits = o.fits }

pub complete-Attended :
    (s : State) (w id : ℕ) (failed : Bool) (payload : Bytes) (now : ℕ)
    → Attended [] s
    → Leaves (Attended []) (complete s w id failed payload now)
complete-Attended s w id failed payload now o =
    complete_keeps (Attended []) s w id failed payload now
      (λ c h own.
        let rest = remove-Attended [] s id (hold [] s id o) in
        Alike-Attended [] _ _
          (answer-Alike (count_completed (remove s id).1) id c failed payload now)
          (record { place = rest.place; fits = rest.fits }))
      o

pub wait-Attended :
    (s : State) (t : Ticket) (how : Waited) → Attended [] s → Attended [] (wait s t how).1
wait-Attended s t how o =
    wait_keeps (Attended []) s t how (λ u p. cancel-Attended u t.call_id p)
      (expire-Attended [] s t.call_id (hold [] s t.call_id o)) o
