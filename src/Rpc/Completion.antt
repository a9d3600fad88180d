-- ===== src/Rpc/Completion.antt =====
-- rpc.rs `complete`: a call completes once, by its owner, and does so behind its deadline, too.
use mathlib.Core.Option
use velo_bus.Prelude.{
  some_injective, ℕ, ◌+◌, ◌<◌, ◌^◌, ◌≡◌, ◌≢◌, inl, inr, refl, sym, ap, subst, ◌∙◌, Bool, true, List,
  [], ◌∷◌, ◌++◌, arith, ◌==◌, lookup, erase, Option, some, Bool-cases, if◌then◌else◌,
}
use velo_bus.Protocol.Types.{Result, ok, err, Error, Bytes}
use velo_bus.Rpc.{Worker, Call, State, find_call, find_worker, deadline_error}
use velo_bus.Rpc.Keys.{lookup-erase}
use velo_bus.Rpc.Calls.{remove}
use velo_bus.Rpc.Moves.{remove-Removed, found_cases}
use velo_bus.Rpc.Routes.{is_owner}
use velo_bus.Rpc.Requests.{answer, count_completed, complete}
use velo_bus.Rpc.Sections.{remove_call}
use velo_bus.Rpc.Steps.{Reachable, Reachable-Sound}

-- What a success of COMPLETE means: the call was there and owned by the worker, and it is gone.
pub record Completed (s t : State) (w id : ℕ) : Type 0 where
  pub call : Call
  pub found : find_call s id ≡ some call
  pub own : is_owner w call.owner ≡ true
  pub gone : (d : Call) → find_call t id ≢ some d

answer-calls :
    (s : State) (id : ℕ) (c : Call) (failed : Bool) (payload : Bytes) (now : ℕ)
    → (answer s id c failed payload now).calls ≡ s.calls
unfolding answer
answer-calls s id c failed payload now = ground arith

abbrev ended : Result (Unit {0}) → State → Option (Result (Unit {0}) × State)
ended r s = some (r, s)

err_is_not_ok : {e : Error} {s t : State} → ended (err e) s ≡ ended (ok tt) t → ⊥
err_is_not_ok h = cc

returned : {r : Result (Unit {0})} {s t : State} → ended r s ≡ ended r t → s ≡ t
returned h = ap (λ z. z.1) (some_injective h)

erased_call :
    (m n : List (ℕ × Call)) (id : ℕ) (c : Call) → n ≡ erase ◌==◌ id m → lookup ◌==◌ id n ≢ some c
erased_call m n id c e h =
    (lookup-erase id id m c (subst (λ z. lookup ◌==◌ id z ≡ some c) e h)).0 refl

-- In a state that the scheduler can get to, a COMPLETE that succeeds found the call, which its
-- worker owned, and has taken it out: no call has that id in the state that is left. The byte limit
-- fits 64 bits.
pub complete-once :
    (max_calls max_bytes : ℕ) (s t : State) (w id : ℕ) (failed : Bool) (payload : Bytes) (now : ℕ)
    → max_bytes < 2 ^ 64
    → Reachable max_calls max_bytes s
    → complete s w id failed payload now ≡ some (ok tt, t)
    → Completed s t w id
unfolding complete
complete-once max_calls max_bytes s t w id failed payload now word reached h =
    let l = Reachable-Sound max_calls max_bytes s word reached in
    elim (found_cases (find_worker s w)) [
      | inl e ↦ absurd (err_is_not_ok (rw (complete, e) at h))
      | inr (wk, e) ↦ elim (found_cases (find_call s id)) [
        | inl u ↦ absurd (err_is_not_ok (rw (complete, e, u) at h))
        | inr (c, f) ↦ elim (Bool-cases (is_owner w c.owner)) [
          | inr other ↦ absurd (err_is_not_ok (rw (complete, e, f, other) at h))
          | inl own ↦
              let left = rw (complete, e, f, own, remove_call s id c f) at h in
              record {
                call = c;
                found = f;
                own = own;
                gone = λ d. erased_call s.calls t.calls id d (
                    ap (λ z. z.calls) (sym (returned left))
                    ∙ answer-calls (count_completed (remove s id).1) id c failed payload now
                    ∙ (remove-Removed s id c l f).calls);
              }
        ]
      ]
    ]

-- What a late COMPLETE leaves: the call is gone, its worker has the slot back, and the caller has
-- been sent the deadline error, unless it had its reply before, and nothing else.
pub record Late (s t : State) (w id : ℕ) (c : Call) : Type 0 where
  pub gone : (d : Call) → find_call t id ≢ some d
  pub told : t.sent ≡ s.sent ++ (if c.response then (id, err deadline_error) ∷ [] else [])
  pub freed :
      (v v' : Worker) × (find_worker s w ≡ some v)
      × (find_worker t w ≡ some v')
      × (v'.running + 1 ≡ v.running)
