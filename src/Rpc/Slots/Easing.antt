-- ===== src/Rpc/Slots/Easing.antt =====
-- rpc.rs: the clean-up of a queue leaves each worker there, with no more calls running.
use mathlib.Core.Option
use velo_bus.Prelude.{
  ℕ, ◌≤◌, ◌≡◌, refl, sym, ap, ◌∙◌, inl, inr, ◌==◌, ==_iff, lookup, update, erase, some, arith,
  Bool-cases, Option-cases,
}
use velo_bus.Protocol.Types.{Bytes}
use velo_bus.Rpc.{Worker, Call, State, find_call, find_worker, ◌-u64◌}
use velo_bus.Rpc.Lookups.{lookup-update_at, lookup-update_other}
use velo_bus.Rpc.Calls.{less_running, release, remove, time_out, expire_queued}
use velo_bus.Rpc.Queues.{notify-Alike}
use velo_bus.Rpc.Closure.{expire_queued_keeps}

pub record Eases (s t : State) : Type 0 where
  pub workers :
      (w : ℕ) (v : Worker)
      → find_worker s w ≡ some v
      → (v' : Worker) × (find_worker t w ≡ some v')
        × (v'.concurrency ≡ v.concurrency)
        × (v'.running ≤ v.running)

Eases-refl : (s : State) → Eases s s
Eases-refl s = record { workers = λ w v f. (v, f, refl, omega arith) }

Eases-trans : (s t u : State) → Eases s t → Eases t u → Eases s u
Eases-trans s t u a b = record {
  workers = λ w v f.
      let (v1, f1, e1, le1) = a.workers w v f in
      let (v2, f2, e2, le2) = b.workers w v1 f1 in (v2, f2, e2 ∙ e1, omega (arith, le1, le2));
}

release-Eases : (s : State) (id : ℕ) (c : Call) → Eases s (release s id c)
unfolding release
release-Eases s id c = elim (Option-cases c.owner) [
  | inl e ↦ rw (release, e) (record { workers = λ w v f. (v, f, refl, omega arith) })
  | inr (x, e) ↦
      let freed : State = record s { workers = update ◌==◌ x less_running s.workers } in
      let noted = notify-Alike freed x in
      rw (release, e)
        (record {
          workers = λ w v f. elim (Bool-cases (w == x)) [
            | inl t ↦
                let same : w ≡ x = (==_iff w x).0 t in
                (
                  less_running v,
                  ap (lookup ◌==◌ w) (sym noted.workers)
                      ∙ ap (λ z. lookup ◌==◌ w (update ◌==◌ z less_running s.workers)) (sym same)
                      ∙ lookup-update_at ◌==◌ ==_iff w less_running s.workers
                      ∙ ap (Option.map less_running) f,
                  refl,
                  omega arith,
                )
            | inr t ↦ (
              v,
              ap (lookup ◌==◌ w) (sym noted.workers)
                  ∙ lookup-update_other ◌==◌ ==_iff w x less_running s.workers
                      (λ q. absurd (ground (arith, q, t)))
                  ∙ f,
              refl,
              omega arith,
            )
          ];
        })
]

remove-Eases : (s : State) (id : ℕ) → Eases s (remove s id).1
unfolding remove
remove-Eases s id = elim (Option-cases (find_call s id)) [
  | inl e ↦ rw (remove, e) (Eases-refl s)
  | inr (c, e) ↦
      rw (remove, e)
        (let r =
            release-Eases
              (record s {
                calls = erase ◌==◌ id s.calls;
                retained_bytes = s.retained_bytes -u64 c.retained_bytes;
              })
              id c in
          record { workers = r.workers })
]

time_out-Eases : (s : State) (id : ℕ) (c : Call) → Eases s (time_out s id c)
unfolding time_out
time_out-Eases s id c = elim (Bool-cases c.response) [
  | inl e ↦ rw (time_out, e) (record { workers = λ w v f. (v, f, refl, omega arith) })
  | inr e ↦ rw (time_out, e) (Eases-refl s)
]

pub expire_queued-Eases : (s : State) (name : Bytes) (now : ℕ) → Eases s (expire_queued s name now)
expire_queued-Eases s name now =
    expire_queued_keeps (Eases s) (λ t id a. Eases-trans s t _ a (remove-Eases t id))
      (λ t id c e a. Eases-trans s t _ a (time_out-Eases t id c)) s name now (Eases-refl s)
