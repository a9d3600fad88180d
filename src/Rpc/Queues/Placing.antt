-- ===== src/Rpc/Queues/Placing.antt =====
-- rpc.rs `new`, `connected`, `register` and `request`: a call that is admitted is queued, where there
-- is room.
use mathlib.Core.Option
use velo_bus.Prelude.{
  none_is_not_some, ℕ, ◌<◌, ◌≡◌, inl, inr, sym, ap, subst, ◌∙◌, true, [], ◌∷◌, ◌++◌, ◌==◌, ==_iff,
  lookup, update, none, some, bytes_eq, bytes_eq_iff, In-append_left, In-append_right, Option-cases,
  length, length-append, arith,
}
use velo_bus.Protocol.Types.{Bytes}
use velo_bus.Rpc.{Route, Call, State, new, find_route}
use velo_bus.Rpc.Lookups.{lookup-update_at, lookup-push_old, found-push}
use velo_bus.Rpc.Calls.{expire_queued}
use velo_bus.Rpc.Routes.{connected, join, register}
use velo_bus.Rpc.Requests.{call_bytes, is_full, enqueue, admit, request}
use velo_bus.Rpc.Queues.{notify_route-Alike}
use velo_bus.Rpc.Outcomes.{Leaves}
use velo_bus.Rpc.Queues.Places.{Queued, Fits, Attended, Alike-Attended, update-Queued, update-Fits}
use velo_bus.Rpc.Queues.Attending.{expire_queued-Attended}
use velo_bus.Rpc.Sections.{connected_keeps, register_keeps, request_keeps}

pub new-Attended : (max_calls max_bytes : ℕ) → Attended [] (new max_calls max_bytes)
unfolding new lookup
new-Attended max_calls max_bytes = record {
  place = λ id c f own. absurd (none_is_not_some f);
  fits = λ name r f. absurd (none_is_not_some f);
}

-- Another worker or connection leaves calls and queues alone.
pub connected-Attended : (s : State) (c : ℕ) → Attended [] s → Attended [] (connected s c)
connected-Attended s c o =
    connected_keeps (Attended []) s c (λ cs. record { place = o.place; fits = o.fits }) o

join-Attended :
    (s : State) (w : ℕ) (name : Bytes) (concurrency queue_limit : ℕ)
    → Attended [] s
    → Attended [] (join s w name concurrency queue_limit)
unfolding join
join-Attended s w name concurrency queue_limit o = elim (Option-cases (find_route s name)) [
  | inl e ↦
      let fresh : Route = record { workers = w ∷ []; queue = []; queue_limit = queue_limit } in
      rw (join, e)
        (record {
          place = λ id c f own. elim (o.place id c f own) [
            | inl m ↦ inl m
            | inr (r, at, m) ↦
                inr (r, lookup-push_old bytes_eq bytes_eq_iff c.route name fresh r s.routes at, m)
          ];
          fits = λ n r f. elim (found-push bytes_eq bytes_eq_iff n name fresh s.routes r f) [
            | inl there ↦ o.fits n r there
            | inr (_, q) ↦ subst Fits (sym q) (omega arith)
          ];
        })
  | inr (r, e) ↦
      let enlist : Route → Route = λ r'. record r' { workers = r'.workers ++ w ∷ [] } in
      rw (join, e)
        (record {
          place = λ id c f own. elim (o.place id c f own) [
            | inl m ↦ inl m
            | inr q ↦ inr (update-Queued enlist name s.routes id c.route (λ r' m. m) q)
          ];
          fits = update-Fits enlist name s.routes (λ r' _ fit. fit) o.fits;
        })
]

pub register-Attended :
    (s : State) (w : ℕ) (name : Bytes) (concurrency queue_limit : ℕ)
    → Attended [] s
    → Attended [] (register s w name concurrency queue_limit).1
register-Attended s w name concurrency queue_limit o =
    register_keeps (Attended []) s w name concurrency queue_limit
      (λ e. join-Attended s w name concurrency queue_limit o) o

-- A call that is admitted is queued, where there is room.
admit-Attended :
    (s : State) (caller : ℕ) (route : Bytes) (deadline : ℕ) (payload : Bytes) (bytes : ℕ)
    (r : Route)
    → Attended [] s
    → find_route s route ≡ some r
    → length r.queue < r.queue_limit
    → Attended [] (admit s caller route deadline payload bytes)
unfolding admit
admit-Attended s caller route deadline payload bytes r o e room =
    let call : Call = record {
      caller = caller;
      route = route;
      owner = none;
      deadline = deadline;
      payload = payload;
      response = true;
      retained_bytes = bytes;
    } in
    Alike-Attended [] _ _ (notify_route-Alike _ route) (record {
      place = λ id c f own. elim (found-push ◌==◌ ==_iff id s.next_id call s.calls c f) [
        | inl old ↦ elim (o.place id c old own) [
          | inl m ↦ inl m
          | inr q ↦ inr (
              update-Queued (enqueue s.next_id) route s.routes id c.route
                (λ r' m. In-append_left id r'.queue _ m) q)
        ]
        | inr (same, q) ↦ inr (
            subst
              (λ (z : Call). Queued (update bytes_eq route (enqueue s.next_id) s.routes) id z.route)
              (sym q)
              (
                enqueue s.next_id r,
                lookup-update_at bytes_eq bytes_eq_iff route (enqueue s.next_id) s.routes
                    ∙ ap (Option.map (enqueue s.next_id)) e,
                In-append_right id r.queue (s.next_id ∷ []) (inl same),
              ))
      ];
      fits =
          update-Fits (enqueue s.next_id) route s.routes
            (λ r' at fit. omega (
              arith,
              length-append r'.queue (s.next_id ∷ []),
              subst (λ (z : Route). length z.queue < z.queue_limit) (found-same (sym e ∙ at)) room,
            ))
            o.fits;
    })
  where
    found-same : {a b : Route} → some a ≡ some b → a ≡ b
    found-same q = cc

pub request-Attended :
    (s : State) (caller : ℕ) (route : Bytes) (timeout_ms : ℕ) (payload : Bytes) (first second : ℕ)
    → Attended [] s
    → Leaves (Attended []) (request s caller route timeout_ms payload first second)
unfolding is_full
request-Attended s caller route timeout_ms payload first second o =
    let cleaned = expire_queued-Attended s route first o in
    request_keeps (Attended []) caller route timeout_ms payload s first second
      (record { place = o.place; fits = o.fits })
      (record { place = cleaned.place; fits = cleaned.fits })
      (λ r deadline e free.
        admit-Attended (expire_queued s route first) caller route deadline payload
          (call_bytes route payload) r cleaned e (ground (arith, free)))
      cleaned o
