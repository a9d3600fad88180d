-- ===== src/Rpc/Waking/Work.antt =====
-- rpc.rs: when there is work for a worker, and moves that wake it where they get it some.
use velo_bus.Prelude.{
  ℕ, ◌<◌, ◌≡◌, ◌≢◌, ◌⊎◌, inl, inr, refl, sym, ap, subst, ◌∙◌, List, [], ◌∷◌, ◌++◌, append-nil,
  append_assoc, ◌==◌, lookup, update, some, bytes_eq, bytes_eq_iff, In, In-append_left,
  In-append_right, Option-cases,
}
use velo_bus.Protocol.Types.{Bytes}
use velo_bus.Rpc.{Route, Worker, State, find_worker, find_route}
use velo_bus.Rpc.Lookups.{found-update}
use velo_bus.Rpc.Calls.{notify, notify_each, notify_route}

-- A worker's route has a call in its queue.
abbrev pub Supplied : List (Bytes × Route) → Worker → Type 0
Supplied routes worker =
    (r : Route) × (lookup bytes_eq worker.route routes ≡ some r) × (r.queue ≢ [])

-- There is work for a worker: it has a free slot, and its route a call.
abbrev pub HasWork : State → Worker → Type 0
HasWork s worker = (worker.running < worker.concurrency) × Supplied s.routes worker

-- A worker that is there stays, and has no work that it did not have.
abbrev pub NoMore : ℕ → State → State → Type 0
NoMore w s t =
    (v : Worker)
    → find_worker s w ≡ some v
    → (u : Worker) × (find_worker t w ≡ some u) × (HasWork t u → HasWork s v)

-- The log of wake-ups grows, by an entry for the worker if its work may.
pub record Calm (w : ℕ) (s t : State) : Type 0 where
  pub new : List ℕ
  pub log : t.notified ≡ s.notified ++ new
  pub quiet : In w new ⊎ NoMore w s t

pub Calm-trans : (w : ℕ) (s t u : State) → Calm w s t → Calm w t u → Calm w s u
Calm-trans w s t u a b = record {
  new = a.new ++ b.new;
  log = b.log ∙ ap (λ z. z ++ b.new) a.log ∙ append_assoc s.notified a.new b.new;
  quiet = elim a.quiet [
    | inl m ↦ inl (In-append_left w a.new b.new m)
    | inr f ↦ elim b.quiet [
      | inl m ↦ inl (In-append_right w a.new b.new m)
      | inr g ↦ inr (λ v there.
          let (v', there', back) = f v there in
          let (v'', there'', back') = g v' there' in (v'', there'', λ h. back (back' h)))
    ]
  ];
}

-- A section that wakes nobody.
pub silent-Calm : (w : ℕ) (s t : State) → t.notified ≡ s.notified → NoMore w s t → Calm w s t
silent-Calm w s t same f = record {
  new = [];
  log = same ∙ sym (append-nil s.notified);
  quiet = inr f;
}

-- The same workers and routes.
pub same-Calm :
    (w : ℕ) (s t : State)
    → t.notified ≡ s.notified
    → t.workers ≡ s.workers
    → t.routes ≡ s.routes
    → Calm w s t
same-Calm w s t log workers routes = silent-Calm w s t log (λ v there. (
  v,
  ap (lookup ◌==◌ w) workers ∙ there,
  λ (free, supplied). (free, subst (λ z. Supplied z v) routes supplied),
))

pub Calm-refl : (w : ℕ) (s : State) → Calm w s s
Calm-refl w s = same-Calm w s s refl refl refl

pub notify-Calm : (w : ℕ) (s : State) (k : ℕ) → Calm w s (notify s k)
unfolding notify
notify-Calm w s k = elim (Option-cases (find_worker s k)) [
  | inl e ↦ rw (notify, e) (Calm-refl w s)
  | inr (v, e) ↦
      rw (notify, e)
        (record { new = k ∷ []; log = refl; quiet = inr (λ u there. (u, there, λ h. h)) })
]

pub notify_each-Calm : (w : ℕ) (s : State) (ks : List ℕ) → Calm w s (notify_each s ks)
unfolding notify_each
notify_each-Calm w s [] = Calm-refl w s
notify_each-Calm w s (k ∷ ks) =
    Calm-trans w s (notify s k) _ (notify-Calm w s k) (notify_each-Calm w (notify s k) ks)

pub notify_route-Calm : (w : ℕ) (s : State) (name : Bytes) → Calm w s (notify_route s name)
unfolding notify_route
notify_route-Calm w s name = elim (Option-cases (find_route s name)) [
  | inl e ↦ rw (notify_route, e) (Calm-refl w s)
  | inr (r, e) ↦ rw (notify_route, e) (notify_each-Calm w s r.workers)
]

-- Routes behind an update that fills no queue have no more for a worker.
pub update-Supplied :
    (f : Route → Route) (name : Bytes) (routes : List (Bytes × Route)) (worker : Worker)
    → ((r : Route)
        → lookup bytes_eq name routes ≡ some r
        → worker.route ≡ name
        → (f r).queue ≢ []
        → r.queue ≢ [])
    → Supplied (update bytes_eq name f routes) worker
    → Supplied routes worker
update-Supplied f name routes worker drains (r, at, full) =
    let (d, found, how) = found-update bytes_eq bytes_eq_iff worker.route name f routes r at in
    elim how [
      | inl (_, q) ↦ (d, found, subst (λ (z : Route). z.queue ≢ []) q full)
      | inr (same, q) ↦ (
        d,
        found,
        drains d (ap (λ z. lookup bytes_eq z routes) (sym same) ∙ found) same
            (subst (λ (z : Route). z.queue ≢ []) q full),
      )
    ]
