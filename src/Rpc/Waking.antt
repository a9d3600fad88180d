-- ===== src/Rpc/Waking.antt =====
-- rpc.rs, lines 369 to 405: `Rpc::take` as a whole. A waiter that was enabled at some length of the
-- log of wake-ups is woken by an entry for its worker behind that.
pub mod Work
pub mod Calm
pub mod Entering
pub mod Serving
pub mod Steps
pub mod Idling
pub mod Wakeful
use velo_bus.Prelude.{ℕ, ◌≡◌, List, length, drop, Option, none, some, In}
use velo_bus.Protocol.Types.{Error, Result, ok, err}
use velo_bus.Rpc.{State, Job}
use velo_bus.Rpc.Requests.{returns, continues, take_round, begin_take, end_take}
use velo_bus.Rpc.Steps.{Step, Reachable}

-- Where a TAKE is: before its first section; counted as pending, before it enables a waiter; in a
-- round of `try_take`, with its waiter enabled at some length of the log; waiting for it; with its result but still with its guard; and over.
pub data Taking : Type 0 where
  called entered : Taking
  looks waits : ℕ → Taking
  has over : Result (Option Job) → Taking

abbrev pub Woken : ℕ → ℕ → State → Type 0
Woken w n s = In w (drop n s.notified)

-- A move of the TAKE of a worker, or a locked section of anybody else.
pub data Moves (w : ℕ) (s : State) : Taking → State → Taking → Type 0 where
  refused :
      (e : Error) (t : State) → begin_take s w ≡ (err e, t) → Moves w s called t (over (err e))
  begun : (t : State) → begin_take s w ≡ (ok tt, t) → Moves w s called t entered
  enabled : Moves w s entered s (looks (length s.notified))
  returned :
      (n first second : ℕ) (e : Error) (t : State)
      → take_round s w first second ≡ returns (err e) t
      → Moves w s (looks n) t (has (err e))
  found :
      (n first second : ℕ) (job : Job) (t : State)
      → take_round s w first second ≡ returns (ok (some job)) t
      → Moves w s (looks n) t (has (ok (some job)))
  again :
      (n first second : ℕ) (t : State)
      → take_round s w first second ≡ continues t
      → Moves w s (looks n) t (looks n)
  nothing :
      (n first second : ℕ) (t : State)
      → take_round s w first second ≡ returns (ok none) t
      → Moves w s (looks n) t (waits n)
  woken : (n : ℕ) → Woken w n s → Moves w s (waits n) s entered
  elapsed : (n : ℕ) → Moves w s (waits n) s (has (ok none))
  guarded : (r : Result (Option Job)) → Moves w s (has r) (end_take s w) (over r)
  others : (p : Taking) (t : State) → Step s t → Moves w s p t p

-- The states that a broker and a TAKE of a worker can get to.
pub data Run (max_calls max_bytes w : ℕ) : State → Taking → Type 0 where
  starts : (s : State) → Reachable max_calls max_bytes s → Run max_calls max_bytes w s called
  goes :
      (s t : State) (p q : Taking)
      → Run max_calls max_bytes w s p
      → Moves w s p t q
      → Run max_calls max_bytes w t q
