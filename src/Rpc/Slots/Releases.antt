-- ===== src/Rpc/Slots/Releases.antt =====
-- rpc.rs `remove`, `expire`, `cancel` and the failing of calls keep the counts of running calls.
use velo_bus.Prelude.{
  ℕ, ◌+◌, ◌≡◌, refl, sym, ap, subst, ◌∙◌, inl, inr, List, [], ◌∷◌, ◌==◌, ==_iff, if◌then◌else◌,
  lookup, update, erase, Option, none, some, arith, Bool-cases, Option-cases,
}
use velo_bus.Protocol.Types.{Bytes, Error}
use velo_bus.Rpc.{Worker, Call, State, find_call, ◌-u64◌}
use velo_bus.Rpc.Lookups.{found-update}
use velo_bus.Rpc.Calls.{
  less_running, release, remove, silent, take_response, time_out, expire, cancel, expire_queued,
  fail_removed, fail_each,
}
use velo_bus.Rpc.Routes.{is_owner}
use velo_bus.Rpc.Moves.{Sound, remove-Sound}
use velo_bus.Rpc.Expiry.{time_out-Sound, take_response-Sound, fail_removed-Sound}
use velo_bus.Rpc.Queues.{notify-Alike}
use velo_bus.Rpc.Closure.{expire_keeps, expire_queued_keeps, cancel_keeps}
use velo_bus.Rpc.Slots.{owns, owned_by, Exact, SlotsBut}
use velo_bus.Rpc.Slots.Counting.{owned_by-erase, owned_by_kept, missing-update}

abbrev slot_of : ℕ → ℕ → ℕ
slot_of v w = if v == w then 1 else 0

module _ (leaving : ℕ → Type 0) where
  pub same-SlotsBut :
      (s t : State)
      → s.calls ≡ t.calls
      → s.workers ≡ t.workers
      → SlotsBut leaving s
      → SlotsBut leaving t
  same-SlotsBut s t calls workers h = record {
    exact = λ w worker f.
        subst (λ z. Exact z w worker) calls (h.exact w worker (ap (lookup ◌==◌ w) workers ∙ f));
    hired = λ w stays f.
        subst (λ z. owned_by w z ≡ 0) calls (h.hired w stays (ap (lookup ◌==◌ w) workers ∙ f));
  }

  module _ (s : State) (id : ℕ) (c : Call) (n : ℕ) (l : Sound s) (h : SlotsBut leaving s)
      (e : find_call s id ≡ some c) where
    rest_of : (w : ℕ) → owned_by w s.calls ≡ owns w c + owned_by w (erase ◌==◌ id s.calls)
    rest_of w = owned_by-erase w id s.calls c l.unique e

    unowned-SlotsBut :
        c.owner ≡ none
        → SlotsBut leaving (record s { calls = erase ◌==◌ id s.calls; retained_bytes = n })
    unowned-SlotsBut free =
        let no_slot : (w : ℕ) → owns w c ≡ 0 = λ w. ap (λ z. if is_owner w z then 1 else 0) free in
        record {
          exact = λ w worker f.
              let (count, limit) = h.exact w worker f in
              (omega (arith, count, rest_of w, no_slot w), limit);
          hired = λ w stays f. omega (arith, h.hired w stays f, rest_of w);
        }

    owned-SlotsBut :
        (v : ℕ)
        → c.owner ≡ some v
        → SlotsBut leaving (record s {
          calls = erase ◌==◌ id s.calls;
          retained_bytes = n;
          workers = update ◌==◌ v less_running s.workers;
        })
    owned-SlotsBut v own =
        let slot : (w : ℕ) → owns w c ≡ slot_of v w =
          λ w. ap (λ z. if is_owner w z then 1 else 0) own in
        record {
          exact = λ w worker f.
              let (d, found, how) = found-update ◌==◌ ==_iff w v less_running s.workers worker f in
              let (count, limit) = h.exact w d found in
              elim how [
                | inl (ne, q) ↦
                    let other : slot_of v w ≡ 0 = ground (arith, ne) in
                    (
                      omega (
                        arith,
                        ap (λ (z : Worker). z.running) q,
                        count,
                        rest_of w,
                        slot w,
                        other,
                      ),
                      omega (
                        arith,
                        ap (λ (z : Worker). z.running) q,
                        ap (λ (z : Worker). z.concurrency) q,
                        limit,
                      ),
                    )
                | inr (same, q) ↦
                    let one : slot_of v w ≡ 1 = ground (arith, same) in
                    (
                      omega
                          (arith, ap (λ (z : Worker). z.running) q, count, rest_of w, slot w, one),
                      omega (
                        arith,
                        ap (λ (z : Worker). z.running) q,
                        ap (λ (z : Worker). z.concurrency) q,
                        limit,
                      ),
                    )
              ];
          hired = λ w stays f.
              omega
                (arith, h.hired w stays (missing-update w v less_running s.workers f), rest_of w);
        }

  pub remove-SlotsBut :
      (s : State) (id : ℕ) → Sound s → SlotsBut leaving s → SlotsBut leaving (remove s id).1
  unfolding remove release
  remove-SlotsBut s id l h = elim (Option-cases (find_call s id)) [
    | inl e ↦ rw (remove, e) h
    | inr (c, e) ↦ elim (Option-cases c.owner) [
      | inl free ↦
          rw (remove, e, release, free)
            (same-SlotsBut
              (record s {
                calls = erase ◌==◌ id s.calls;
                retained_bytes = s.retained_bytes -u64 c.retained_bytes;
              })
              _ refl refl
              (unowned-SlotsBut s id c (s.retained_bytes -u64 c.retained_bytes) l h e free))
      | inr (w, own) ↦
          rw (remove, e, release, own)
            (let freed =
                owned-SlotsBut s id c (s.retained_bytes -u64 c.retained_bytes) l h e w own in
              let noted =
                notify-Alike
                  (record s {
                    calls = erase ◌==◌ id s.calls;
                    retained_bytes = s.retained_bytes -u64 c.retained_bytes;
                    workers = update ◌==◌ w less_running s.workers;
                  })
                  w in
              same-SlotsBut _ _ noted.calls noted.workers freed)
    ]
  ]

  silence-SlotsBut :
      (s : State) (id : ℕ) → SlotsBut leaving s → SlotsBut leaving (take_response s id)
  silence-SlotsBut s id h = record {
    exact = λ w worker f.
        let (count, limit) = h.exact w worker f in
        (count ∙ sym (owned_by_kept w id silent s.calls (λ c. refl)), limit);
    hired = λ w stays f. owned_by_kept w id silent s.calls (λ c. refl) ∙ h.hired w stays f;
  }

  time_out-SlotsBut :
      (s : State) (id : ℕ) (c : Call) → SlotsBut leaving s → SlotsBut leaving (time_out s id c)
  unfolding time_out
  time_out-SlotsBut s id c h = elim (Bool-cases c.response) [
    | inl e ↦
        rw (time_out, e) (same-SlotsBut (take_response s id) _ refl refl (silence-SlotsBut s id h))
    | inr e ↦ rw (time_out, e) h
  ]

  -- The ledger and the counts.
  abbrev pub Books : State → Type 0
  Books s = Sound s × SlotsBut leaving s

  remove-Books : (s : State) (id : ℕ) → Books s → Books (remove s id).1
  remove-Books s id (l, h) = (remove-Sound s id l, remove-SlotsBut s id l h)

  time_out-Books :
      (s : State) (id : ℕ) (c : Call) → find_call s id ≡ some c → Books s → Books (time_out s id c)
  time_out-Books s id c e (l, h) = (time_out-Sound s id c l e, time_out-SlotsBut s id c h)

  silence-Books : (s : State) (id : ℕ) → Books s → Books (take_response s id)
  silence-Books s id (l, h) = (take_response-Sound s id l, silence-SlotsBut s id h)

  pub expire-Books : (s : State) (id : ℕ) → Books s → Books (expire s id)
  expire-Books s id b = expire_keeps Books remove-Books time_out-Books s id b

  pub expire_queued-Books :
      (s : State) (name : Bytes) (now : ℕ) → Books s → Books (expire_queued s name now)
  expire_queued-Books s name now b =
      expire_queued_keeps Books remove-Books time_out-Books s name now b

  pub cancel-Books : (s : State) (id : ℕ) → Books s → Books (cancel s id)
  cancel-Books s id b = cancel_keeps Books remove-Books silence-Books s id b

  told-SlotsBut :
      (r : Option Call × State) (id : ℕ) (why : Error)
      → SlotsBut leaving r.1
      → SlotsBut leaving (fail_removed r id why)
  unfolding fail_removed
  told-SlotsBut (none, s) id why h = h
  told-SlotsBut (some c, s) id why h = elim (Bool-cases c.response) [
    | inl e ↦ rw (fail_removed, e) (same-SlotsBut s _ refl refl h)
    | inr e ↦ rw (fail_removed, e) h
  ]

  pub fail_removed-Books :
      (s : State) (id : ℕ) (why : Error) → Books s → Books (fail_removed (remove s id) id why)
  fail_removed-Books s id why (l, h) =
      (fail_removed-Sound s id why l, told-SlotsBut (remove s id) id why (remove-SlotsBut s id l h))

  pub fail_each-Books :
      (s : State) (ids : List ℕ) (why : Error) → Books s → Books (fail_each s ids why)
  unfolding fail_each
  fail_each-Books s [] why b = b
  fail_each-Books s (id ∷ ids) why b =
      fail_each-Books (fail_removed (remove s id) id why) ids why (fail_removed-Books s id why b)
