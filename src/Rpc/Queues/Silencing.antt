-- ===== src/Rpc/Queues/Silencing.antt =====
-- rpc.rs `disconnect`: the calls of a caller that leaves are all there when their turn comes.
use velo_bus.Prelude.{
  ℕ, ◌≡◌, ◌≢◌, refl, ap, subst, ◌∙◌, List, [], ◌∷◌, ◌==◌, ==_iff, lookup, some, In, inl, inr,
  Option-cases, Bool-cases,
}
use velo_bus.Rpc.{Call, State, find_call}
use velo_bus.Rpc.Keys.{lookup-update_self}
use velo_bus.Rpc.Lookups.{Once, lookup-update_other, lookup-erase_other}
use velo_bus.Rpc.Calls.{owned, silent, take_response, cancel, silence_each}
use velo_bus.Rpc.Moves.{Sound, remove-Removed}
use velo_bus.Rpc.Expiry.{cancel-Sound, take_response-Sound}

-- A cancellation leaves the other calls as they were.
cancel-other :
    (s : State) (id k : ℕ) (c : Call)
    → Sound s
    → k ≢ id
    → find_call s k ≡ some c
    → find_call (cancel s id) k ≡ some c
unfolding cancel
cancel-other s id k c l ne f = elim (Option-cases (find_call s id)) [
  | inl e ↦ rw (cancel, e) f
  | inr (d, e) ↦
      let quiet : find_call (take_response s id) k ≡ some c =
        lookup-update_other ◌==◌ ==_iff k id silent s.calls ne ∙ f in
      elim (Bool-cases (owned d)) [
        | inl own ↦ rw (cancel, e, own) quiet
        | inr free ↦
            let at : find_call (take_response s id) id ≡ some (silent d) =
              lookup-update_self id silent s.calls d e in
            let gone =
              remove-Removed (take_response s id) id (silent d) (take_response-Sound s id l) at in
            rw (cancel, e, free)
              (ap (lookup ◌==◌ k) gone.calls
                ∙ lookup-erase_other ◌==◌ ==_iff k id (take_response s id).calls ne
                ∙ quiet)
      ]
]

-- Calls that are there, none of them named twice, are silenced without a panic.
pub silence_each-Goes :
    (s : State) (ids : List ℕ)
    → Sound s
    → Once ids
    → ((k : ℕ) → In k ids → (c : Call) × (find_call s k ≡ some c))
    → (t : State) × (silence_each s ids ≡ some t)
unfolding silence_each
silence_each-Goes s [] l o there = (s, refl)
silence_each-Goes s (id ∷ ids) l (fresh, o) there =
    let (c, e) = there id (inl refl) in
    let (t, goes) = silence_each-Goes (cancel s id) ids (cancel-Sound s id l) o (λ k m.
      let (d, f) = there k (inr m) in
      (d, cancel-other s id k d l (λ q. fresh (subst (λ z. In z ids) q m)) f)) in
    (t, rw (silence_each, e) goes)
