-- ===== src/Rpc/Waking/Calm.antt =====
-- rpc.rs: what gets work to a worker wakes it. Removals, expiry and failing of calls.
use mathlib.Core.Option
use velo_bus.Prelude.{
  some_is_not_none, ℕ, ◌≡◌, ◌≢◌, inl, inr, refl, sym, ap, subst, ◌∙◌, List, [], ◌∷◌, ◌==◌, ==_iff,
  lookup, update, erase, filter, Option, none, some, bytes_eq, Bool, not, Option-cases, Bool-cases,
  arith,
}
use velo_bus.Protocol.Types.{Bytes, Error}
use velo_bus.Rpc.{Worker, Call, State, find_call, find_worker, ◌-u64◌}
use velo_bus.Rpc.Lookups.{lookup-update_at, lookup-update_other}
use velo_bus.Rpc.Closure.{expire_keeps, expire_queued_keeps, cancel_keeps}
use velo_bus.Rpc.Calls.{
  less_running, without, release, remove, take_response, time_out, expire, expire_queued, cancel,
  notify, fail_removed, fail_each,
}
use velo_bus.Rpc.Waking.Work.{
  Calm, Calm-refl, Calm-trans, notify-Calm, same-Calm, silent-Calm, update-Supplied,
}

-- A call without owner goes.
unowned-Calm :
    (w : ℕ) (s : State) (id n : ℕ) (c : Call)
    → Calm w s (record s {
      calls = erase ◌==◌ id s.calls;
      retained_bytes = n;
      routes = update bytes_eq c.route (without id) s.routes;
    })
unfolding filter
unowned-Calm w s id n c = silent-Calm w s _ refl (λ v there. (
  v,
  there,
  λ (free, supplied). (
    free,
    update-Supplied (without id) c.route s.routes v
        (λ r at same full empty. full (ap (filter not_same) empty)) supplied,
  ),
))
  where
    not_same : ℕ → Bool
    not_same queued = not (queued == id)

-- A running call goes, and its worker is woken.
owned-Calm :
    (w : ℕ) (s : State) (id n k : ℕ)
    → Calm w s (
        notify
          (record s {
            calls = erase ◌==◌ id s.calls;
            retained_bytes = n;
            workers = update ◌==◌ k less_running s.workers;
          })
          k)
unfolding notify
owned-Calm w s id n k =
    let freed : State = record s {
      calls = erase ◌==◌ id s.calls;
      retained_bytes = n;
      workers = update ◌==◌ k less_running s.workers;
    } in
    elim (Bool-cases (w == k)) [
      | inl t ↦
          let same : w ≡ k = (==_iff w k).0 t in
          elim (Option-cases (find_worker freed k)) [
            | inl e ↦
                rw (notify, e)
                  (silent-Calm w s freed refl (λ v there.
                    absurd (missing v (subst (λ z. find_worker s z ≡ some v) same there) e)))
            | inr (v, e) ↦
                rw (notify, e) (record { new = k ∷ []; log = refl; quiet = inl (inl same) })
          ]
      | inr t ↦
          let ne : w ≢ k = λ q. absurd (ground (arith, q, t)) in
          Calm-trans w s freed _
            (silent-Calm w s freed refl (λ v there.
              (v, lookup-update_other ◌==◌ ==_iff w k less_running s.workers ne ∙ there, λ h. h)))
            (notify-Calm w freed k)
    ]
  where
    missing :
        (v : Worker)
        → find_worker s k ≡ some v
        → lookup ◌==◌ k (update ◌==◌ k less_running s.workers) ≡ none
        → ⊥
    missing v there e = some_is_not_none (
        sym (ap (Option.map less_running) there)
        ∙ sym (lookup-update_at ◌==◌ ==_iff k less_running s.workers)
        ∙ e)

pub remove-Calm : (w : ℕ) (s : State) (id : ℕ) → Calm w s (remove s id).1
unfolding remove release
remove-Calm w s id = elim (Option-cases (find_call s id)) [
  | inl e ↦ rw (remove, e) (Calm-refl w s)
  | inr (c, e) ↦ elim (Option-cases c.owner) [
    | inl free ↦
        rw (remove, e, release, free)
          (unowned-Calm w s id (s.retained_bytes -u64 c.retained_bytes) c)
    | inr (k, own) ↦
        rw (remove, e, release, own) (owned-Calm w s id (s.retained_bytes -u64 c.retained_bytes) k)
  ]
]

removes : (w : ℕ) (s t : State) (id : ℕ) → Calm w s t → Calm w s (remove t id).1
removes w s t id a = Calm-trans w s t _ a (remove-Calm w t id)

silences : (w : ℕ) (s t : State) (id : ℕ) → Calm w s t → Calm w s (take_response t id)
silences w s t id a = Calm-trans w s t _ a (same-Calm w t _ refl refl refl)

time_out-Calm : (w : ℕ) (s : State) (id : ℕ) (c : Call) → Calm w s (time_out s id c)
unfolding time_out
time_out-Calm w s id c = elim (Bool-cases c.response) [
  | inl e ↦ rw (time_out, e) (same-Calm w s _ refl refl refl)
  | inr e ↦ rw (time_out, e) (Calm-refl w s)
]

pub expire-Calm : (w : ℕ) (s : State) (id : ℕ) → Calm w s (expire s id)
expire-Calm w s id =
    expire_keeps (Calm w s) (removes w s)
      (λ t k c e a. Calm-trans w s t _ a (time_out-Calm w t k c)) s id (Calm-refl w s)

pub expire_queued-Calm :
    (w : ℕ) (s : State) (name : Bytes) (now : ℕ) → Calm w s (expire_queued s name now)
expire_queued-Calm w s name now =
    expire_queued_keeps (Calm w s) (removes w s)
      (λ t k c e a. Calm-trans w s t _ a (time_out-Calm w t k c)) s name now (Calm-refl w s)

pub cancel-Calm : (w : ℕ) (s : State) (id : ℕ) → Calm w s (cancel s id)
cancel-Calm w s id = cancel_keeps (Calm w s) (removes w s) (silences w s) s id (Calm-refl w s)

told-Calm :
    (w : ℕ) (s : State) (r : Option Call × State) (id : ℕ) (why : Error)
    → Calm w s r.1
    → Calm w s (fail_removed r id why)
unfolding fail_removed
told-Calm w s (none, t) id why a = a
told-Calm w s (some c, t) id why a = elim (Bool-cases c.response) [
  | inl e ↦ rw (fail_removed, e) (Calm-trans w s t _ a (same-Calm w t _ refl refl refl))
  | inr e ↦ rw (fail_removed, e) a
]

pub fail_each-Calm :
    (w : ℕ) (s : State) (ids : List ℕ) (why : Error) → Calm w s (fail_each s ids why)
unfolding fail_each
fail_each-Calm w s [] why = Calm-refl w s
fail_each-Calm w s (id ∷ ids) why =
    Calm-trans w s (fail_removed (remove s id) id why) _
      (told-Calm w s (remove s id) id why (remove-Calm w s id))
      (fail_each-Calm w (fail_removed (remove s id) id why) ids why)
