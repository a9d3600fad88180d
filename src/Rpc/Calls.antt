-- ===== src/Rpc/Calls.antt =====
-- rpc.rs, lines 130 to 182 and 447 to 459: a call is removed, expires, or is cancelled.
use velo_bus.Prelude.{
  ℕ, ◌-◌, Bool, true, false, not, List, [], ◌∷◌, ◌++◌, leb, ◌==◌, if◌then◌else◌, filter, update,
  erase, Option, none, some, bytes_eq,
}
use velo_bus.Protocol.Types.{Bytes, Error, err}
use velo_bus.Rpc.{
  Reply, Route, Worker, Call, State, count_up, ◌-u64◌, find_call, find_worker, find_route,
  deadline_error,
}

abbrev pub owned : Call → Bool
owned c = elim c.owner [ none ↦ false | some w ↦ true ]

abbrev pub send : ℕ → Reply → State → State
send id reply s = record s { sent = s.sent ++ (id, reply) ∷ [] }

-- `notify_waiters` on a worker that is there.
unfoldable pub notify : State → ℕ → State
notify s w = elim (find_worker s w) [
  | none ↦ s
  | some worker ↦ record s { notified = s.notified ++ w ∷ [] }
]

-- `saturating_sub(1)`
abbrev pub less_running : Worker → Worker
less_running w = record w { running = w.running - 1 }

abbrev pub without : ℕ → Route → Route
without id r = record r { queue = filter (λ queued. not (queued == id)) r.queue }

-- The slot or the place in the queue that a call had.
unfoldable pub release : State → ℕ → Call → State
unfolding notify
release s id c = elim c.owner [
  | some w ↦ notify (record s { workers = update ◌==◌ w less_running s.workers }) w
  | none ↦ record s { routes = update bytes_eq c.route (without id) s.routes }
]

-- `State::remove`
unfoldable pub remove : State → ℕ → Option Call × State
remove s id = elim (find_call s id) [
  | none ↦ (none, s)
  | some c ↦ (
    some c,
    release
        (record s {
          calls = erase ◌==◌ id s.calls;
          retained_bytes = s.retained_bytes -u64 c.retained_bytes;
        })
        id c,
  )
]

-- `call.response.take()` on a call of the map.
abbrev pub silent : Call → Call
silent c = record c { response = false }

abbrev pub take_response : State → ℕ → State
take_response s id = record s { calls = update ◌==◌ id silent s.calls }

unfoldable pub time_out : State → ℕ → Call → State
time_out s id c =
    if c.response
    then send id (err deadline_error)
        (take_response (record s { timed_out = count_up s.timed_out }) id)
    else s

-- `State::expire`
unfoldable pub expire : State → ℕ → State
expire s id = elim (find_call s id) [
  | none ↦ s
  | some c ↦ let s' = time_out s id c in if owned c then s' else (remove s' id).1
]

abbrev pub expired : State → ℕ → ℕ → Bool
expired s now id = elim (find_call s id) [ none ↦ false | some c ↦ leb c.deadline now ]

unfoldable pub expire_each : State → List ℕ → State
expire_each s [] = s
expire_each s (id ∷ ids) = expire_each (expire s id) ids

-- `State::expire_queued`, with the clock's reading.
unfoldable pub expire_queued : State → Bytes → ℕ → State
expire_queued s name now = elim (find_route s name) [
  | none ↦ s
  | some r ↦ expire_each s (filter (expired s now) r.queue)
]

unfoldable pub notify_each : State → List ℕ → State
notify_each s [] = s
notify_each s (w ∷ ws) = notify_each (notify s w) ws

-- `State::notify_route`
unfoldable pub notify_route : State → Bytes → State
notify_route s name = elim (find_route s name) [ none ↦ s | some r ↦ notify_each s r.workers ]

-- `Rpc::cancel`, and the treatment of the calls of a caller that has gone.
unfoldable pub cancel : State → ℕ → State
cancel s id = elim (find_call s id) [
  | none ↦ s
  | some c ↦ let s' = take_response s id in if owned c then s' else (remove s' id).1
]

-- The calls of a caller that has gone; `none` where one is missing, and `unwrap` panics.
unfoldable pub silence_each : State → List ℕ → Option State
silence_each s [] = some s
silence_each s (id ∷ ids) = elim (find_call s id) [
  | none ↦ none
  | some c ↦ silence_each (cancel s id) ids
]

-- A call is removed, and its caller told why.
unfoldable pub fail_removed : Option Call × State → ℕ → Error → State
fail_removed (none, s) id why = s
fail_removed (some c, s) id why = if c.response then send id (err why) s else s

unfoldable pub fail_each : State → List ℕ → Error → State
fail_each s [] why = s
fail_each s (id ∷ ids) why = fail_each (fail_removed (remove s id) id why) ids why
