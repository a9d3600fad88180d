-- ===== src/Rpc/Queues/Admission.antt =====
-- rpc.rs `request` keeps queues and calls in order, and does not panic.
use velo_bus.Prelude.{
  ℕ, ◌+◌, ◌<◌, ◌^◌, ◌≡◌, ◌≢◌, refl, sym, subst, true, List, [], ◌∷◌, ◌++◌, ◌==◌, ==_iff, leb,
  lookup, Option, none, some, bytes_eq, bytes_eq_iff, In, In-append, inl, inr, arith, Option-cases,
  Bool-cases, All, contains_id,
}
use velo_bus.Protocol.Types.{Bytes}
use velo_bus.Rpc.{Route, Call, State, find_route}
use velo_bus.Rpc.Keys.{All-lookup}
use velo_bus.Rpc.Lookups.{Once, lookup-push_old, lookup-push_new, found-update, push-Once}
use velo_bus.Rpc.Moves.{Sound}
use velo_bus.Rpc.Expiry.{expire_queued-Sound}
use velo_bus.Rpc.Calls.{expire_queued}
use velo_bus.Rpc.Requests.{call_bytes, is_full, enqueue, admit, admission, request}
use velo_bus.Rpc.Queues.{Waiting, Orderly, Alike-Orderly, notify_route-Alike}
use velo_bus.Rpc.Queues.Removal.{update_route-Serving, expire_queued-Orderly}
use velo_bus.Rpc.Queues.Stability.{expire_queued-route}

-- No call has the next id.
no_next_call :
    (n : ℕ) (calls : List (ℕ × Call)) (c : Call)
    → All (λ e. e.0 < n) calls
    → lookup ◌==◌ n calls ≢ some c
no_next_call n calls c fresh h =
    let below : n < n = All-lookup (λ e. e.0 < n) n calls c fresh h in absurd (omega (arith, below))

abbrev admitted : ℕ → Bytes → ℕ → Bytes → ℕ → Call
admitted caller route deadline payload bytes = record {
  caller = caller;
  route = route;
  owner = none;
  deadline = deadline;
  payload = payload;
  response = true;
  retained_bytes = bytes;
}

module _ (s : State) (caller : ℕ) (route : Bytes) (deadline : ℕ) (payload : Bytes) (bytes : ℕ)
    (o : Orderly s) (l : Sound s) where
  abbrev call : Call
  call = admitted caller route deadline payload bytes

  absent : lookup ◌==◌ s.next_id s.calls ≡ none
  absent = elim (Option-cases (lookup ◌==◌ s.next_id s.calls)) [
    | inl e ↦ e
    | inr (c, e) ↦ absurd (no_next_call s.next_id s.calls c l.fresh e)
  ]

  kept_call :
      (name : Bytes) (id : ℕ)
      → Waiting s.calls name id
      → Waiting (s.calls ++ (s.next_id, call) ∷ []) name id
  kept_call name id (c, found, own, r) =
      (c, lookup-push_old ◌==◌ ==_iff id s.next_id call c s.calls found, own, r)

  next_call : Waiting (s.calls ++ (s.next_id, call) ∷ []) route s.next_id
  next_call = (call, lookup-push_new ◌==◌ ==_iff s.next_id call s.calls absent, refl, refl)

  not_queued : (name : Bytes) (r : Route) → find_route s name ≡ some r → In s.next_id r.queue → ⊥
  not_queued name r f m =
      let (c, found, _, _) = o.queued name r s.next_id f m in
      no_next_call s.next_id s.calls c l.fresh found

  pub admit-Orderly : Orderly (admit s caller route deadline payload bytes)
  unfolding admit
  admit-Orderly = Alike-Orderly _ _ (notify_route-Alike _ route) (record {
    queued = λ name r id f m.
        let (d, found, how) =
          found-update bytes_eq bytes_eq_iff name route (enqueue s.next_id) s.routes r f in
        elim how [
          | inl (_, q) ↦
              kept_call name id
                (o.queued name d id found (subst (λ (z : Route). In id z.queue) q m))
          | inr (same, q) ↦
              elim (In-append id d.queue (s.next_id ∷ [])
                (subst (λ (z : Route). In id z.queue) q m)) [
                  | inl old ↦ kept_call name id (o.queued name d id found old)
                  | inr (inl last) ↦
                      subst (λ z. Waiting (s.calls ++ (s.next_id, call) ∷ []) z id) (sym same)
                        (subst (λ z. Waiting (s.calls ++ (s.next_id, call) ∷ []) route z) (sym last)
                          next_call)
                  | inr (inr nothing) ↦ absurd nothing
                ]
        ];
    once = λ name r f.
        let (d, found, how) =
          found-update bytes_eq bytes_eq_iff name route (enqueue s.next_id) s.routes r f in
        elim how [
          | inl (_, q) ↦ subst (λ (z : Route). Once z.queue) (sym q) (o.once name d found)
          | inr (_, q) ↦
              subst (λ (z : Route). Once z.queue) (sym q)
                (push-Once d.queue s.next_id (o.once name d found) (not_queued name d found))
        ];
    serving = λ w worker f.
        update_route-Serving (enqueue s.next_id) route s.routes w worker (λ r m. m)
          (o.serving w worker f);
  })

-- An operation does not panic, and leaves queues and calls in order.
abbrev pub Answers : {A : Type 0} → (State → Type 0) → Option (A × State) → Type 0
Answers P none = ⊥
Answers P (some (a, s)) = P s

admission-Orderly :
    (s : State) (caller : ℕ) (route : Bytes) (timeout_ms : ℕ) (payload : Bytes) (now : ℕ)
    (r : Route)
    → Orderly s
    → Sound s
    → find_route s route ≡ some r
    → Answers Orderly (admission s caller route timeout_ms payload now)
unfolding admission
admission-Orderly s caller route timeout_ms payload now r o l e =
    elim (Bool-cases (is_full s r (call_bytes route payload))) [
      | inl full ↦
          rw (admission, e, full)
            (Alike-Orderly s _ (record { calls = refl; routes = refl; workers = refl }) o)
      | inr room ↦ elim (Bool-cases (leb (2 ^ 64) (s.next_id + 1))) [
        | inl over ↦ rw (admission, e, room, over) o
        | inr fresh ↦
            rw (admission, e, room, fresh)
              (admit-Orderly s caller route _ payload (call_bytes route payload) o l)
      ]
    ]

pub request-Orderly :
    (s : State) (caller : ℕ) (route : Bytes) (timeout_ms : ℕ) (payload : Bytes) (first second : ℕ)
    → Orderly s
    → Sound s
    → Answers Orderly (request s caller route timeout_ms payload first second)
unfolding request
request-Orderly s caller route timeout_ms payload first second o l =
    elim (Bool-cases (contains_id caller s.connections)) [
      | inr shut ↦ rw (request, shut) o
      | inl there ↦ elim (Option-cases (find_route s route)) [
        | inl e ↦
            rw (request, there, e)
              (Alike-Orderly s _ (record { calls = refl; routes = refl; workers = refl }) o)
        | inr (r, e) ↦
            let (r', e') = expire_queued-route s route first route r e in
            rw (request, there, e)
              (admission-Orderly (expire_queued s route first) caller route timeout_ms payload
                second r' (expire_queued-Orderly s route first o)
                (expire_queued-Sound s route first l) e')
      ]
    ]
