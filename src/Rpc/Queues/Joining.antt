-- ===== src/Rpc/Queues/Joining.antt =====
-- rpc.rs `new`, `connected` and `register` keep queues and calls in order.
use mathlib.Core.Option
use velo_bus.Prelude.{
  none_is_not_some, ℕ, ◌≡◌, refl, sym, ap, subst, ◌∙◌, List, [], ◌∷◌, ◌++◌, ◌==◌, ==_iff, lookup,
  update, some, bytes_eq, bytes_eq_iff, In, In-append_left, In-append_right, inl, inr, Option-cases,
}
use velo_bus.Protocol.Types.{Bytes}
use velo_bus.Rpc.{Route, Worker, State, new, find_route}
use velo_bus.Rpc.Lookups.{
  Once, lookup-update_at, lookup-push_old, lookup-push_new, found-update, found-push,
}
use velo_bus.Rpc.Routes.{connected, join, register}
use velo_bus.Rpc.Queues.{Serving, Orderly, Alike-Orderly}
use velo_bus.Rpc.Queues.Removal.{update_route-Serving}
use velo_bus.Rpc.Sections.{connected_keeps, register_keeps}

pub new-Orderly : (max_calls max_bytes : ℕ) → Orderly (new max_calls max_bytes)
unfolding new lookup
new-Orderly max_calls max_bytes = record {
  queued = λ name r id f m. absurd (none_is_not_some f);
  once = λ name r f. absurd (none_is_not_some f);
  serving = λ w worker f. absurd (none_is_not_some f);
}

pub connected-Orderly : (s : State) (c : ℕ) → Orderly s → Orderly (connected s c)
connected-Orderly s c o =
    connected_keeps Orderly s c
      (λ cs. Alike-Orderly s _ (record { calls = refl; routes = refl; workers = refl }) o) o

-- A worker that joins a new route, or one that is there.
abbrev joining : ℕ → Bytes → ℕ → Worker
joining w name concurrency = record {
  route = name;
  concurrency = concurrency;
  running = 0;
  pending_takes = 0;
}

module _ (s : State) (w : ℕ) (name : Bytes) (concurrency queue_limit : ℕ) (o : Orderly s) where
  abbrev pushed_workers : List (ℕ × Worker)
  pushed_workers = s.workers ++ (w, joining w name concurrency) ∷ []

  joined_worker :
      (routes : List (Bytes × Route))
      → ((k : ℕ) (worker : Worker) → Serving s.routes k worker → Serving routes k worker)
      → Serving routes w (joining w name concurrency)
      → (k : ℕ) (worker : Worker) → lookup ◌==◌ k pushed_workers ≡ some worker
      → Serving routes k worker
  joined_worker routes old own k worker f =
      elim (found-push ◌==◌ ==_iff k w (joining w name concurrency) s.workers worker f) [
        | inl there ↦ old k worker (o.serving k worker there)
        | inr (same, q) ↦
            subst (λ z. Serving routes z worker) (sym same)
              (subst (λ z. Serving routes w z) (sym q) own)
      ]

  join-Orderly : Orderly (join s w name concurrency queue_limit)
  unfolding join
  join-Orderly = elim (Option-cases (find_route s name)) [
    | inl e ↦
        let new_route : Route = record {
          workers = w ∷ [];
          queue = [];
          queue_limit = queue_limit;
        } in
        let routes = s.routes ++ (name, new_route) ∷ [] in
        let target : State = record s { routes = routes; workers = pushed_workers } in
        let done : Orderly target = record {
          queued = λ n r id f m.
              elim (found-push bytes_eq bytes_eq_iff n name new_route s.routes r f) [
                | inl there ↦ o.queued n r id there m
                | inr (_, q) ↦ absurd (subst (λ (z : Route). In id z.queue) q m)
              ];
          once = λ n r f. elim (found-push bytes_eq bytes_eq_iff n name new_route s.routes r f) [
            | inl there ↦ o.once n r there
            | inr (_, q) ↦ subst (λ (z : Route). Once z.queue) (sym q) tt
          ];
          serving =
              joined_worker routes
                (λ k worker (r, at, m). (
                  r,
                  lookup-push_old bytes_eq bytes_eq_iff worker.route name new_route r s.routes at,
                  m,
                ))
                (
                  new_route,
                  lookup-push_new bytes_eq bytes_eq_iff name new_route s.routes e,
                  inl refl,
                );
        } in
        simp (join, e) done
    | inr (r0, e) ↦
        let more : Route → Route = λ r'. record r' { workers = r'.workers ++ w ∷ [] } in
        let routes = update bytes_eq name more s.routes in
        let target : State = record s { routes = routes; workers = pushed_workers } in
        let done : Orderly target = record {
          queued = λ n r id f m.
              let (d, found, how) = found-update bytes_eq bytes_eq_iff n name more s.routes r f in
              elim how [
                | inl (_, q) ↦ o.queued n d id found (subst (λ (z : Route). In id z.queue) q m)
                | inr (_, q) ↦ o.queued n d id found (subst (λ (z : Route). In id z.queue) q m)
              ];
          once = λ n r f.
              let (d, found, how) = found-update bytes_eq bytes_eq_iff n name more s.routes r f in
              elim how [
                | inl (_, q) ↦ subst (λ (z : Route). Once z.queue) (sym q) (o.once n d found)
                | inr (_, q) ↦ subst (λ (z : Route). Once z.queue) (sym q) (o.once n d found)
              ];
          serving =
              joined_worker routes
                (λ k worker served.
                  update_route-Serving more name s.routes k worker
                    (λ r m. In-append_left k r.workers (w ∷ []) m) served)
                (
                  more r0,
                  lookup-update_at bytes_eq bytes_eq_iff name more s.routes
                      ∙ ap (Option.map more) e,
                  In-append_right w r0.workers (w ∷ []) (inl refl),
                );
        } in
        simp (join, e) done
  ]

  pub register-Orderly : Orderly (register s w name concurrency queue_limit).1
  register-Orderly = register_keeps Orderly s w name concurrency queue_limit (λ e. join-Orderly) o
