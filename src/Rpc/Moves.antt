-- ===== src/Rpc/Moves.antt =====
-- The moves of rpc.rs `State` and of `Rpc::cancel`: each keeps the invariant of calls and replies.
use velo_bus.Prelude.{
  ℕ, ◌≡◌, ◌⊎◌, inl, inr, refl, sym, subst, ◌∙◌, List, [], ◌∷◌, ◌==◌, update, erase, Option, none,
  some,
}
use velo_bus.Protocol.Types.{Bytes}
use velo_bus.Rpc.{Call, State, ◌-u64◌, find_call, find_route, find_worker}
use velo_bus.Rpc.Ledger.{Ledger, erase-Ledger}
use velo_bus.Rpc.Calls.{less_running, notify, release, remove, notify_each, notify_route}

abbrev pub Sound : State → Type 0
Sound s = Ledger s.calls s.next_id s.retained_bytes s.max_calls s.max_bytes s.sent

-- Two states with the same calls and replies.
pub record Quiet (s t : State) : Type 0 where
  pub calls : s.calls ≡ t.calls
  pub next_id : s.next_id ≡ t.next_id
  pub retained_bytes : s.retained_bytes ≡ t.retained_bytes
  pub max_calls : s.max_calls ≡ t.max_calls
  pub max_bytes : s.max_bytes ≡ t.max_bytes
  pub sent : s.sent ≡ t.sent

pub Quiet-Sound : (s t : State) → Quiet s t → Sound s → Sound t
Quiet-Sound s t q l =
    subst (λ c. Ledger c t.next_id t.retained_bytes t.max_calls t.max_bytes t.sent) q.calls
      (subst (λ n. Ledger s.calls n t.retained_bytes t.max_calls t.max_bytes t.sent) q.next_id
        (subst (λ n. Ledger s.calls s.next_id n t.max_calls t.max_bytes t.sent) q.retained_bytes
          (subst (λ n. Ledger s.calls s.next_id s.retained_bytes n t.max_bytes t.sent) q.max_calls
            (subst (λ n. Ledger s.calls s.next_id s.retained_bytes s.max_calls n t.sent) q.max_bytes
              (subst (λ r. Ledger s.calls s.next_id s.retained_bytes s.max_calls s.max_bytes r)
                q.sent l)))))

Quiet-refl : (s : State) → Quiet s s
Quiet-refl s = record {
  calls = refl;
  next_id = refl;
  retained_bytes = refl;
  max_calls = refl;
  max_bytes = refl;
  sent = refl;
}

Quiet-trans : (s t u : State) → Quiet s t → Quiet t u → Quiet s u
Quiet-trans s t u p q = record {
  calls = p.calls ∙ q.calls;
  next_id = p.next_id ∙ q.next_id;
  retained_bytes = p.retained_bytes ∙ q.retained_bytes;
  max_calls = p.max_calls ∙ q.max_calls;
  max_bytes = p.max_bytes ∙ q.max_bytes;
  sent = p.sent ∙ q.sent;
}

pub found_cases : {A : Type 0} → (o : Option A) → (o ≡ none) ⊎ ((a : A) × (o ≡ some a))
found_cases none = inl refl
found_cases (some a) = inr (a, refl)

notify-Quiet : (s : State) (w : ℕ) → Quiet s (notify s w)
unfolding notify
notify-Quiet s w = elim (found_cases (find_worker s w)) [
  | inl e ↦ rw (notify, e) (Quiet-refl s)
  | inr (_, e) ↦
      rw (notify, e)
        (record {
          calls = refl;
          next_id = refl;
          retained_bytes = refl;
          max_calls = refl;
          max_bytes = refl;
          sent = refl;
        })
]

notify_each-Quiet : (s : State) (ws : List ℕ) → Quiet s (notify_each s ws)
unfolding notify_each
notify_each-Quiet s [] = Quiet-refl s
notify_each-Quiet s (w ∷ ws) =
    Quiet-trans s (notify s w) _ (notify-Quiet s w) (notify_each-Quiet (notify s w) ws)

pub notify_route-Quiet : (s : State) (name : Bytes) → Quiet s (notify_route s name)
unfolding notify_route
notify_route-Quiet s name = elim (found_cases (find_route s name)) [
  | inl e ↦ rw (notify_route, e) (Quiet-refl s)
  | inr (r, e) ↦ rw (notify_route, e) (notify_each-Quiet s r.workers)
]

pub release-Quiet : (s : State) (id : ℕ) (c : Call) → Quiet s (release s id c)
unfolding release
release-Quiet s id c = elim (found_cases c.owner) [
  | inl e ↦
      rw (release, e)
        (record {
          calls = refl;
          next_id = refl;
          retained_bytes = refl;
          max_calls = refl;
          max_bytes = refl;
          sent = refl;
        })
  | inr (w, e) ↦
      let s1 : State = record s { workers = update ◌==◌ w less_running s.workers } in
      let q = notify-Quiet s1 w in
      rw (release, e)
        (record {
          calls = q.calls;
          next_id = q.next_id;
          retained_bytes = q.retained_bytes;
          max_calls = q.max_calls;
          max_bytes = q.max_bytes;
          sent = q.sent;
        })
]

-- What is left by the removal of a call that is there.
pub record Removed (s : State) (id : ℕ) (c : Call) (r : Option Call × State) : Type 0 where
  pub call : r.0 ≡ some c
  pub sound : Sound r.1
  pub calls : r.1.calls ≡ erase ◌==◌ id s.calls
  pub sent : r.1.sent ≡ s.sent
  pub next_id : r.1.next_id ≡ s.next_id

pub remove-Removed :
    (s : State) (id : ℕ) (c : Call)
    → Sound s
    → find_call s id ≡ some c
    → Removed s id c (remove s id)
unfolding remove
remove-Removed s id c l h =
    let q =
      release-Quiet
        (record s {
          calls = erase ◌==◌ id s.calls;
          retained_bytes = s.retained_bytes -u64 c.retained_bytes;
        })
        id c in
    rw (remove, h)
      (record {
        call = refl;
        sound = Quiet-Sound _ _ q (
            erase-Ledger s.calls s.next_id s.retained_bytes s.max_calls s.max_bytes s.sent l id c
              h);
        calls = sym q.calls;
        sent = sym q.sent;
        next_id = sym q.next_id;
      })

pub remove-Sound : (s : State) (id : ℕ) → Sound s → Sound (remove s id).1
unfolding remove
remove-Sound s id l = elim (found_cases (find_call s id)) [
  | inl e ↦ rw (remove, e) l
  | inr (c, e) ↦ (remove-Removed s id c l e).sound
]

pub remove-absent : (s : State) (id : ℕ) → find_call s id ≡ none → remove s id ≡ (none, s)
unfolding remove
remove-absent s id e = simp (remove, e)
