-- ===== src/Rpc/Slots/Capacity.antt =====
-- rpc.rs: in every state that the scheduler can get to, workers run what they own and no more than
-- they may.
use velo_bus.Prelude.{ℕ, ◌<◌, ◌^◌, subst}
use velo_bus.Rpc.{State}
use velo_bus.Rpc.Moves.{Sound}
use velo_bus.Rpc.Outcomes.{Leaves, Rests, Stays}
use velo_bus.Rpc.Steps.{
  Step, connects, registers, requests, begins, takes, retries, ends, completes, waits, cancels,
  disconnects, Reachable, initial, after, Reachable-Sound,
}
use velo_bus.Rpc.Queues.{Orderly}
use velo_bus.Rpc.Queues.Panics.{Reachable-Orderly}
use velo_bus.Rpc.Slots.{Slots}
use velo_bus.Rpc.Slots.Releases.{cancel-Books}
use velo_bus.Rpc.Slots.Joining.{new-Slots, connected-Slots, register-Slots, request-Slots}
use velo_bus.Rpc.Slots.Sections.{
  take_round-Slots, begin_take-Slots, end_take-Slots, complete-Slots, wait-Slots,
}
use velo_bus.Rpc.Slots.Departure.{disconnect-Slots}

step-Slots : (s t : State) → Step s t → Sound s → Orderly s → Slots s → Slots t
step-Slots s t (connects c) l o h = connected-Slots s c h
step-Slots s t (registers w name concurrency queue_limit) l o h =
    register-Slots s w name concurrency queue_limit h
step-Slots s t (requests caller route timeout_ms payload first second r t' e) l o h =
    subst (Leaves Slots) e (request-Slots s caller route timeout_ms payload first second l h)
step-Slots s t (begins w) l o h = begin_take-Slots s w h
step-Slots s t (takes w first second r t' e) l o h =
    subst (Rests Slots) e (take_round-Slots s w first second l o h)
step-Slots s t (retries w first second t' e) l o h =
    subst (Rests Slots) e (take_round-Slots s w first second l o h)
step-Slots s t (ends w) l o h = end_take-Slots s w h
step-Slots s t (completes w id failed payload now r t' e) l o h =
    subst (Leaves Slots) e (complete-Slots s w id failed payload now l h)
step-Slots s t (waits ticket how) l o h = wait-Slots s ticket how l h
step-Slots s t (cancels id) l o h = (cancel-Books (λ w. ⊥) s id (l, h)).1
step-Slots s t (disconnects c t' e) l o h = subst (Stays Slots) e (disconnect-Slots s c l h)

-- In every state that the scheduler can get to, under any interleaving of its locked sections, a
-- worker's count of running calls is the number of calls that it owns, and within its concurrency;
-- and a connection that is no worker owns no call. The byte limit fits 64 bits.
pub Reachable-Slots :
    (max_calls max_bytes : ℕ) (s : State)
    → max_bytes < 2 ^ 64
    → Reachable max_calls max_bytes s
    → Slots s
Reachable-Slots max_calls max_bytes s word initial = new-Slots max_calls max_bytes
Reachable-Slots max_calls max_bytes t word (after s t' r step) =
    step-Slots s t step (Reachable-Sound max_calls max_bytes s word r)
      (Reachable-Orderly max_calls max_bytes s word r)
      (Reachable-Slots max_calls max_bytes s word r)
