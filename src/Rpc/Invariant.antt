-- ===== src/Rpc/Invariant.antt =====
-- rpc.rs: every locked section of the scheduler keeps the invariant of calls and replies.
use velo_bus.Prelude.{
  ℕ, ◌+◌, ◌-◌, ◌<◌, ◌≤◌, ◌^◌, ◌≡◌, refl, true, false, [], arith, ◌==◌, lookup, none, some, length,
}
use velo_bus.Protocol.Types.{Bytes}
use velo_bus.Rpc.{Call, State, Route, new}
use velo_bus.Rpc.Ledger.{retained_total, push-Ledger}
use velo_bus.Rpc.Calls.{expire_queued}
use velo_bus.Rpc.Moves.{Sound, Quiet-Sound, notify_route-Quiet}
use velo_bus.Rpc.Expiry.{expire_queued-Sound}
use velo_bus.Rpc.Routes.{connected, join, register}
use velo_bus.Rpc.Requests.{call_bytes, is_full, admit, request}
use velo_bus.Rpc.Outcomes.{Leaves}
use velo_bus.Rpc.Sections.{connected_keeps, register_keeps, request_keeps}

absent_in_empty : (id : ℕ) (c : Call) → lookup ◌==◌ id [] ≡ some c → ⊥
unfolding lookup
absent_in_empty id c h = cc

pub new-Sound : (max_calls max_bytes : ℕ) → max_bytes < 2 ^ 64 → Sound (new max_calls max_bytes)
unfolding new retained_total
new-Sound max_calls max_bytes word = record {
  unique = tt;
  fresh = tt;
  counted = refl;
  budget = omega arith;
  word = word;
  number = omega arith;
  once = tt;
  sent_fresh = tt;
  unanswered = λ id c found _. absurd (absent_in_empty id c found);
}

pub connected-Sound : (s : State) (c : ℕ) → Sound s → Sound (connected s c)
connected-Sound s c l = connected_keeps Sound s c (λ cs. l) l

pub register-Sound :
    (s : State) (w : ℕ) (name : Bytes) (concurrency queue_limit : ℕ)
    → Sound s
    → Sound (register s w name concurrency queue_limit).1
unfolding join
register-Sound s w name concurrency queue_limit l =
    register_keeps Sound s w name concurrency queue_limit (λ e. l) l

-- The limits of an admitted call.
is_full-room :
    (s : State) (r : Route) (bytes : ℕ)
    → is_full s r bytes ≡ false
    → (length s.calls < s.max_calls) × (bytes ≤ s.max_bytes - s.retained_bytes)
unfolding is_full
is_full-room s r bytes h = ground arith

admit-Sound :
    (s : State) (caller : ℕ) (route : Bytes) (deadline : ℕ) (payload : Bytes) (bytes : ℕ)
    → Sound s
    → s.retained_bytes + bytes ≤ s.max_bytes
    → length s.calls < s.max_calls
    → Sound (admit s caller route deadline payload bytes)
unfolding admit
admit-Sound s caller route deadline payload bytes l room few =
    Quiet-Sound _ _ (notify_route-Quiet _ route) (
      push-Ledger s.calls s.next_id s.retained_bytes s.max_calls s.max_bytes s.sent l
        (record {
          caller = caller;
          route = route;
          owner = none;
          deadline = deadline;
          payload = payload;
          response = true;
          retained_bytes = bytes;
        })
        room few)

-- Admitting a call, or refusing it, keeps the invariant.
pub request-Sound :
    (s : State) (caller : ℕ) (route : Bytes) (timeout_ms : ℕ) (payload : Bytes) (first second : ℕ)
    → Sound s
    → Leaves Sound (request s caller route timeout_ms payload first second)
request-Sound s caller route timeout_ms payload first second l =
    let cleaned = expire_queued-Sound s route first l in
    request_keeps Sound caller route timeout_ms payload s first second l cleaned
      (λ r deadline e room.
        let (few, fits) =
          is_full-room (expire_queued s route first) r (call_bytes route payload) room in
        admit-Sound (expire_queued s route first) caller route deadline payload
          (call_bytes route payload) cleaned (omega (arith, fits, cleaned.budget)) few)
      cleaned l
