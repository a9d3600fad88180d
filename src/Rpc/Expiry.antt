-- ===== src/Rpc/Expiry.antt =====
-- rpc.rs `expire`, `expire_queued`, `cancel` and the failing of calls keep the invariant of calls
-- and replies.
use velo_bus.Prelude.{
  ℕ, ◌<◌, ◌≡◌, inl, inr, refl, sym, ap, subst, ◌∙◌, Bool, true, false, List, [], ◌∷◌, ◌==◌,
  if◌then◌else◌, lookup, update, Option, some, Bool-cases,
}
use velo_bus.Protocol.Types.{err, Error, Bytes}
use velo_bus.Rpc.{Reply, Call, State, find_call, deadline_error, count_up}
use velo_bus.Rpc.Keys.{Absent, lookup-erase, lookup-updated, All-lookup}
use velo_bus.Rpc.Ledger.{update-Ledger, send-Ledger}
use velo_bus.Rpc.Closure.{expire_keeps, expire_queued_keeps, cancel_keeps}
use velo_bus.Rpc.Calls.{
  send, remove, silent, take_response, time_out, expire, expire_queued, cancel, fail_removed,
  fail_each,
}
use velo_bus.Rpc.Moves.{Sound, Removed, remove-Removed, remove-Sound, remove-absent, found_cases}

false-ne-true : false ≡ true → ⊥
false-ne-true h = cc

-- The caller of a call that is there is answered, and its sender is gone.
answer_silenced :
    (s : State) (id : ℕ) (c : Call) (r : Reply) (n : ℕ)
    → Sound s
    → find_call s id ≡ some c
    → c.response ≡ true
    → Sound (send id r (take_response (record s { timed_out = n }) id))
answer_silenced s id c r n l h open_c =
    let quiet =
      update-Ledger s.calls s.next_id s.retained_bytes s.max_calls s.max_bytes s.sent l id silent
        (λ _. refl) (λ _ e. absurd (false-ne-true e)) in
    send-Ledger (update ◌==◌ id silent s.calls) s.next_id s.retained_bytes s.max_calls s.max_bytes
      s.sent quiet id r (All-lookup (λ e. e.0 < s.next_id) id s.calls c l.fresh h)
      (l.unanswered id c h open_c) (λ d found open_d. silenced s.calls d found open_d)
  where
    silenced :
        (m : List (ℕ × Call)) (d : Call)
        → lookup ◌==◌ id (update ◌==◌ id silent m) ≡ some d
        → d.response ≡ true
        → ⊥
    silenced m d found open_d =
        let (d0, _, e) = lookup-updated id silent m d found in
        absurd (false-ne-true (sym (ap (λ (z : Call). z.response) e) ∙ open_d))

pub time_out-Sound :
    (s : State) (id : ℕ) (c : Call) → Sound s → find_call s id ≡ some c → Sound (time_out s id c)
unfolding time_out
time_out-Sound s id c l h = elim (Bool-cases c.response) [
  | inl e ↦
      rw (time_out, e) (answer_silenced s id c (err deadline_error) (count_up s.timed_out) l h e)
  | inr e ↦ rw (time_out, e) l
]

pub expire-Sound : (s : State) (id : ℕ) → Sound s → Sound (expire s id)
expire-Sound s id l = expire_keeps Sound remove-Sound (λ t k c e h. time_out-Sound t k c h e) s id l

pub expire_queued-Sound :
    (s : State) (name : Bytes) (now : ℕ) → Sound s → Sound (expire_queued s name now)
expire_queued-Sound s name now l =
    expire_queued_keeps Sound remove-Sound (λ t k c e h. time_out-Sound t k c h e) s name now l

pub take_response-Sound : (s : State) (id : ℕ) → Sound s → Sound (take_response s id)
take_response-Sound s id l =
    update-Ledger s.calls s.next_id s.retained_bytes s.max_calls s.max_bytes s.sent l id silent
      (λ _. refl) (λ _ e. absurd (false-ne-true e))

pub cancel-Sound : (s : State) (id : ℕ) → Sound s → Sound (cancel s id)
cancel-Sound s id l = cancel_keeps Sound remove-Sound take_response-Sound s id l

-- The caller of a call that has been taken out is answered.
pub send_behind :
    (s s' : State) (id : ℕ) (c : Call) (r : Reply)
    → Sound s
    → find_call s id ≡ some c
    → c.response ≡ true
    → Removed s id c (some c, s')
    → Sound (send id r s')
send_behind s s' id c r l h open_c v =
    send-Ledger s'.calls s'.next_id s'.retained_bytes s'.max_calls s'.max_bytes s'.sent v.sound id r
      (subst (λ n. id < n) (sym v.next_id)
        (All-lookup (λ e. e.0 < s.next_id) id s.calls c l.fresh h))
      (subst (Absent id) (sym v.sent) (l.unanswered id c h open_c))
      (λ d found _.
        (lookup-erase id id s.calls d (subst (λ m. lookup ◌==◌ id m ≡ some d) v.calls found)).0
          refl)

pub split_result :
    (s : State) (id : ℕ) (c : Call) (r : Option Call × State)
    → Removed s id c r
    → (s' : State) × (r ≡ (some c, s')) × Removed s id c (some c, s')
split_result s id c (o, s') v = (
  s',
  ap (λ z. (z, s')) v.call,
  record { call = refl; sound = v.sound; calls = v.calls; sent = v.sent; next_id = v.next_id },
)

pub either_way :
    (b : Bool) (s t : State) → (b ≡ true → Sound s) → Sound t → Sound (if b then s else t)
either_way true s t hs ht = hs refl
either_way false s t hs ht = ht

pub fail_removed-Sound :
    (s : State) (id : ℕ) (why : Error) → Sound s → Sound (fail_removed (remove s id) id why)
unfolding fail_removed
fail_removed-Sound s id why l = elim (found_cases (find_call s id)) [
  | inl e ↦ rw (remove-absent s id e) l
  | inr (c, e) ↦
      let (s', r, v) = split_result s id c (remove s id) (remove-Removed s id c l e) in
      subst (λ z. Sound (fail_removed z id why)) (sym r)
        (either_way c.response (send id (err why) s') s'
          (λ o. send_behind s s' id c (err why) l e o v) v.sound)
]

pub fail_each-Sound :
    (s : State) (ids : List ℕ) (why : Error) → Sound s → Sound (fail_each s ids why)
unfolding fail_each
fail_each-Sound s [] why l = l
fail_each-Sound s (id ∷ ids) why l =
    fail_each-Sound (fail_removed (remove s id) id why) ids why (fail_removed-Sound s id why l)
