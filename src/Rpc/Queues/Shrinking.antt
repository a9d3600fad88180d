-- ===== src/Rpc/Queues/Shrinking.antt =====
-- rpc.rs: the removal and expiry of calls let no queue grow.
use velo_bus.Prelude.{
  ℕ, ◌≤◌, ◌≡◌, ap, ◌∙◌, not, ◌==◌, lookup, update, erase, some, bytes_eq, bytes_eq_iff, inl, inr,
  arith, Option-cases, Bool-cases, length,
}
use velo_bus.Protocol.Types.{Bytes}
use velo_bus.Rpc.{Route, Call, State, find_call, find_route, ◌-u64◌}
use velo_bus.Rpc.Lookups.{length-filter, found-update}
use velo_bus.Rpc.Closure.{expire_keeps, expire_queued_keeps}
use velo_bus.Rpc.Calls.{less_running, without, release, remove, time_out, expire, expire_queued}
use velo_bus.Rpc.Queues.{notify-Alike}

-- No queue has grown.
pub record Shrinks (s t : State) : Type 0 where
  pub queues :
      (name : Bytes) (r : Route)
      → find_route t name ≡ some r
      → (r0 : Route) × (find_route s name ≡ some r0) × (length r.queue ≤ length r0.queue)

Shrinks-refl : (s : State) → Shrinks s s
Shrinks-refl s = record { queues = λ name r f. (r, f, omega arith) }

Shrinks-trans : (s t u : State) → Shrinks s t → Shrinks t u → Shrinks s u
Shrinks-trans s t u a b = record {
  queues = λ name r f.
      let (r1, f1, le) = b.queues name r f in
      let (r0, f0, le0) = a.queues name r1 f1 in (r0, f0, omega (arith, le, le0));
}

release-Shrinks : (s : State) (id : ℕ) (c : Call) → Shrinks s (release s id c)
unfolding release
release-Shrinks s id c = elim (Option-cases c.owner) [
  | inl e ↦
      rw (release, e)
        (record {
          queues = λ name r f.
              let (d, found, how) =
                found-update bytes_eq bytes_eq_iff name c.route (without id) s.routes r f in
              (
                d,
                found,
                elim how [
                  | inl (_, q) ↦ omega (arith, ap (λ (z : Route). length z.queue) q)
                  | inr (_, q) ↦ omega (
                    arith,
                    ap (λ (z : Route). length z.queue) q,
                    length-filter (λ k. not (k == id)) d.queue,
                  )
                ],
              );
        })
  | inr (w, e) ↦
      let freed : State = record s { workers = update ◌==◌ w less_running s.workers } in
      let alike = notify-Alike freed w in
      rw (release, e)
        (record {
          queues = λ name r f. (r, ap (lookup bytes_eq name) alike.routes ∙ f, omega arith);
        })
]

remove-Shrinks : (s : State) (id : ℕ) → Shrinks s (remove s id).1
unfolding remove
remove-Shrinks s id = elim (Option-cases (find_call s id)) [
  | inl e ↦ rw (remove, e) (Shrinks-refl s)
  | inr (c, e) ↦
      rw (remove, e)
        (let r =
            release-Shrinks
              (record s {
                calls = erase ◌==◌ id s.calls;
                retained_bytes = s.retained_bytes -u64 c.retained_bytes;
              })
              id c in
          record { queues = r.queues })
]

time_out-Shrinks : (s : State) (id : ℕ) (c : Call) → Shrinks s (time_out s id c)
unfolding time_out
time_out-Shrinks s id c = elim (Bool-cases c.response) [
  | inl e ↦ rw (time_out, e) (record { queues = λ name r f. (r, f, omega arith) })
  | inr e ↦ rw (time_out, e) (Shrinks-refl s)
]

pub expire-Shrinks : (s : State) (id : ℕ) → Shrinks s (expire s id)
expire-Shrinks s id =
    expire_keeps (Shrinks s) (λ t k a. Shrinks-trans s t _ a (remove-Shrinks t k))
      (λ t k c e a. Shrinks-trans s t _ a (time_out-Shrinks t k c)) s id (Shrinks-refl s)

pub expire_queued-Shrinks :
    (s : State) (name : Bytes) (now : ℕ) → Shrinks s (expire_queued s name now)
expire_queued-Shrinks s name now =
    expire_queued_keeps (Shrinks s) (λ t k a. Shrinks-trans s t _ a (remove-Shrinks t k))
      (λ t k c e a. Shrinks-trans s t _ a (time_out-Shrinks t k c)) s name now (Shrinks-refl s)
