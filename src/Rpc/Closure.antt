-- ===== src/Rpc/Closure.antt =====
-- rpc.rs: what removals and the end of a sender keep is kept by expiry and cancellation.
use velo_bus.Prelude.{ℕ, ◌≡◌, List, [], ◌∷◌, some, Bool-cases, Option-cases, inl, inr}
use velo_bus.Protocol.Types.{Bytes}
use velo_bus.Rpc.{Call, State, find_call, find_route}
use velo_bus.Rpc.Calls.{
  owned, remove, take_response, time_out, expire, expire_each, expire_queued, cancel,
}

module _ (P : State → Type 0) (removes : (s : State) (id : ℕ) → P s → P (remove s id).1) where
  module _
      (times_out : (s : State) (id : ℕ) (c : Call)
        → find_call s id ≡ some c
        → P s
        → P (time_out s id c)) where
    pub expire_keeps : (s : State) (id : ℕ) → P s → P (expire s id)
    unfolding expire
    expire_keeps s id p = elim (Option-cases (find_call s id)) [
      | inl e ↦ rw (expire, e) p
      | inr (c, e) ↦ elim (Bool-cases (owned c)) [
        | inl own ↦ rw (expire, e, own) (times_out s id c e p)
        | inr own ↦ rw (expire, e, own) (removes _ id (times_out s id c e p))
      ]
    ]

    expire_each_keeps : (s : State) (ids : List ℕ) → P s → P (expire_each s ids)
    unfolding expire_each
    expire_each_keeps s [] p = p
    expire_each_keeps s (id ∷ ids) p = expire_each_keeps (expire s id) ids (expire_keeps s id p)

    pub expire_queued_keeps :
        (s : State) (name : Bytes) (now : ℕ) → P s → P (expire_queued s name now)
    unfolding expire_queued
    expire_queued_keeps s name now p = elim (Option-cases (find_route s name)) [
      | inl e ↦ rw (expire_queued, e) p
      | inr (r, e) ↦ rw (expire_queued, e) (expire_each_keeps s _ p)
    ]

  module _ (silences : (s : State) (id : ℕ) → P s → P (take_response s id)) where
    pub cancel_keeps : (s : State) (id : ℕ) → P s → P (cancel s id)
    unfolding cancel
    cancel_keeps s id p = elim (Option-cases (find_call s id)) [
      | inl e ↦ rw (cancel, e) p
      | inr (c, e) ↦ elim (Bool-cases (owned c)) [
        | inl own ↦ rw (cancel, e, own) (silences s id p)
        | inr own ↦ rw (cancel, e, own) (removes _ id (silences s id p))
      ]
    ]
