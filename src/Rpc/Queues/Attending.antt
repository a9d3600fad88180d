-- ===== src/Rpc/Queues/Attending.antt =====
-- rpc.rs: every call that nobody owns has its place in the queue of its route, and no queue is longer
-- than its limit. The moves of rpc.rs `State` keep this.
use velo_bus.Prelude.{
  none_is_not_some, ℕ, ◌≡◌, ◌≢◌, ◌⊎◌, inl, inr, refl, sym, ap, subst, ◌∙◌, true, not, List, [], ◌∷◌,
  ◌==◌, ==_iff, lookup, update, erase, Option, none, some, bytes_eq, In, Option-cases, Bool-cases,
  arith,
}
use velo_bus.Protocol.Types.{Bytes, Error}
use velo_bus.Rpc.{Call, State, find_call, ◌-u64◌}
use velo_bus.Rpc.Lookups.{found-erase, filter-In, length-filter}
use velo_bus.Rpc.Keys.{lookup-update}
use velo_bus.Rpc.Closure.{expire_queued_keeps, cancel_keeps}
use velo_bus.Rpc.Calls.{
  owned, without, release, remove, silent, take_response, time_out, expire, expire_queued, cancel,
  fail_removed, fail_each,
}
use velo_bus.Rpc.Queues.{notify-Alike}
use velo_bus.Rpc.Queues.Places.{
  Alike-Attended, Attended, Queued, hold, let_go, update-Fits, update-Queued,
}

-- Behind the removal of a call, its id need not be held.
erased-place :
    (held : List ℕ) (s : State) (id k : ℕ) (d : Call)
    → Attended (id ∷ held) s
    → lookup ◌==◌ k (erase ◌==◌ id s.calls) ≡ some d
    → d.owner ≡ none
    → (k ≢ id) × (In k held ⊎ Queued s.routes k d.route)
erased-place held s id k d o f own =
    let (ne, found) = found-erase ◌==◌ ==_iff k id s.calls d f in
    (
      ne,
      elim (o.place k d found own) [
        | inl (inl same) ↦ absurd (ne same)
        | inl (inr m) ↦ inl m
        | inr q ↦ inr q
      ],
    )

other : (id k : ℕ) → k ≢ id → not (k == id) ≡ true
other id k ne = ground (arith, ne)

pub remove-Attended :
    (held : List ℕ) (s : State) (id : ℕ) → Attended (id ∷ held) s → Attended held (remove s id).1
unfolding remove release
remove-Attended held s id o = elim (Option-cases (find_call s id)) [
  | inl e ↦ rw (remove, e) (let_go held s id (λ c f own. absurd (none_is_not_some (sym e ∙ f))) o)
  | inr (c, e) ↦ elim (Option-cases c.owner) [
    | inl free ↦
        let gone : State = record s {
          calls = erase ◌==◌ id s.calls;
          retained_bytes = s.retained_bytes -u64 c.retained_bytes;
          routes = update bytes_eq c.route (without id) s.routes;
        } in
        let done : Attended held gone = record {
          place = λ k d f own.
              let (ne, how) = erased-place held s id k d o f own in
              elim how [
                | inl m ↦ inl m
                | inr q ↦ inr (
                    update-Queued (without id) c.route s.routes k d.route
                      (λ r m. filter-In _ k r.queue m (other id k ne)) q)
              ];
          fits =
              update-Fits (without id) c.route s.routes
                (λ r _ fit. omega (arith, fit, length-filter (λ q. not (q == id)) r.queue)) o.fits;
        } in
        rw (remove, e, release, free) done
    | inr (w, own) ↦
        rw (remove, e, release, own)
          (Alike-Attended held _ _ (notify-Alike _ w) (record {
            place = λ k d f free. (erased-place held s id k d o f free).1;
            fits = o.fits;
          }))
  ]
]

removes : (s : State) (id : ℕ) → Attended [] s → Attended [] (remove s id).1
removes s id o = remove-Attended [] s id (hold [] s id o)

silence-Attended :
    (held : List ℕ) (s : State) (id : ℕ) → Attended held s → Attended held (take_response s id)
silence-Attended held s id o = record {
  place = λ k c f own.
      let (d, found, how) = lookup-update k id silent s.calls c f in
      let (routes, owners) : (d.route ≡ c.route) × (d.owner ≡ c.owner) = elim how [
        | inl q ↦ (ap (λ (z : Call). z.route) (sym q), ap (λ (z : Call). z.owner) (sym q))
        | inr (_, q) ↦ (ap (λ (z : Call). z.route) (sym q), ap (λ (z : Call). z.owner) (sym q))
      ] in
      subst (λ z. In k held ⊎ Queued s.routes k z) routes (o.place k d found (owners ∙ own));
  fits = o.fits;
}

time_out-Attended :
    (held : List ℕ) (s : State) (id : ℕ) (c : Call)
    → Attended held s
    → Attended held (time_out s id c)
unfolding time_out
time_out-Attended held s id c o = elim (Bool-cases c.response) [
  | inl e ↦
      rw (time_out, e)
        (Alike-Attended held (take_response s id) _
          (record { calls = refl; routes = refl; workers = refl }) (silence-Attended held s id o))
  | inr e ↦ rw (time_out, e) o
]

-- A held call that expires need not be held any more.
pub expire-Attended :
    (held : List ℕ) (s : State) (id : ℕ) → Attended (id ∷ held) s → Attended held (expire s id)
unfolding expire
expire-Attended held s id o = elim (Option-cases (find_call s id)) [
  | inl e ↦ rw (expire, e) (let_go held s id (λ c f own. absurd (none_is_not_some (sym e ∙ f))) o)
  | inr (c, e) ↦ elim (Bool-cases (owned c)) [
    | inr free ↦
        rw (expire, e, free)
          (remove-Attended held (time_out s id c) id (time_out-Attended (id ∷ held) s id c o))
    | inl own ↦
        rw (expire, e, own)
          (time_out-Attended held s id c
            (let_go held s id (λ d f free. taken c d (sym e ∙ f) own free) o))
  ]
]
  where
    taken : (c d : Call) → some c ≡ some d → owned c ≡ true → d.owner ≡ none → ⊥
    taken c d q own free = ground (arith, q, own, free)

pub expire_queued-Attended :
    (s : State) (name : Bytes) (now : ℕ) → Attended [] s → Attended [] (expire_queued s name now)
expire_queued-Attended s name now o =
    expire_queued_keeps (Attended []) removes (λ t k c e p. time_out-Attended [] t k c p) s name now
      o

pub cancel-Attended : (s : State) (id : ℕ) → Attended [] s → Attended [] (cancel s id)
cancel-Attended s id o = cancel_keeps (Attended []) removes (silence-Attended []) s id o

told-Attended :
    (held : List ℕ) (r : Option Call × State) (id : ℕ) (why : Error)
    → Attended held r.1
    → Attended held (fail_removed r id why)
unfolding fail_removed
told-Attended held (none, s) id why o = o
told-Attended held (some c, s) id why o = elim (Bool-cases c.response) [
  | inl e ↦
      rw (fail_removed, e)
        (Alike-Attended held s _ (record { calls = refl; routes = refl; workers = refl }) o)
  | inr e ↦ rw (fail_removed, e) o
]

-- Held calls that are failed need not be held any more.
pub fail_each-Attended :
    (s : State) (ids : List ℕ) (why : Error) → Attended ids s → Attended [] (fail_each s ids why)
unfolding fail_each
fail_each-Attended s [] why o = o
fail_each-Attended s (id ∷ ids) why o =
    fail_each-Attended (fail_removed (remove s id) id why) ids why
      (told-Attended ids (remove s id) id why (remove-Attended ids s id o))
