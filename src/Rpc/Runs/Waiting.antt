-- ===== src/Rpc/Runs/Waiting.antt =====
-- Runs of the scheduler: a TAKE waits until a call comes; the figures while it is queued.
use velo_bus.Prelude.{
  ◌≡◌, ◌⊎◌, refl, [], ◌∷◌, arith, Option, none, some, filter, lookup, update, bytes_eq,
}
use velo_bus.Protocol.Types.{Result, ok}
use velo_bus.Rpc.{State, new}
use velo_bus.Rpc.Calls.{expire_queued, expire_each, notify_route, notify_each, notify}
use velo_bus.Rpc.Routes.{connected, register, join, disagrees}
use velo_bus.Rpc.Requests.{
  Ticket, request, admission, admit, call_bytes, is_full, take_round, pop_front, returns,
  begin_take,
}
use velo_bus.Rpc.Steps.{connects, registers, requests, initial, after}
use velo_bus.Rpc.Queues.Places.{Attended}
use velo_bus.Rpc.Queues.Coverage.{Reachable-Attended}
use velo_bus.Rpc.Figures.Agreement.{Agrees, stats-Agrees}
use velo_bus.Rpc.Waking.{
  Woken, called, entered, looks, waits, begun, enabled, nothing, others, Run, starts, goes,
}
use velo_bus.Rpc.Waking.Idling.{Idle}
use velo_bus.Rpc.Waking.Wakeful.{waits-Idle}
use velo_bus.Rpc.Runs.{name, s0, s1, s2, s3, s3-Reachable, ticket}

Reachable-Attended_example : Attended [] s3
Reachable-Attended_example = Reachable-Attended 4 10_000 s3 s3-Reachable

stats-Agrees_example : Agrees s3
stats-Agrees_example = stats-Agrees 4 10_000 s3 (omega arith) s3-Reachable

abbrev t2 : State
t2 = (begin_take s2 1).1

abbrev after_request : Option (Result Ticket × State) → State
after_request none = t2
after_request (some (r, s)) = s

abbrev t3 : State
t3 = after_request (request t2 1 name 50 (9 ∷ []) 1000 1000)

begun_take : begin_take s2 1 ≡ (ok tt, t2)
unfolding begin_take register join disagrees connected new lookup update bytes_eq
begun_take = refl

found_nothing : take_round t2 1 500 600 ≡ returns (ok none) t2
unfolding begin_take register join disagrees connected new lookup update filter bytes_eq take_round
    pop_front expire_queued expire_each
found_nothing = refl

requested : request t2 1 name 50 (9 ∷ []) 1000 1000 ≡ some (ok ticket, t3)
unfolding request admission admit call_bytes is_full notify_route notify_each notify new connected
    register join disagrees lookup update filter expire_queued expire_each bytes_eq begin_take
requested = refl

waiting : Run 4 10_000 1 t3 (waits 0)
unfolding begin_take register join disagrees connected new lookup update bytes_eq
waiting =
    goes t2 t3 (waits 0) (waits 0)
      (goes t2 t2 (looks 0) (waits 0)
        (goes t2 t2 entered (looks 0)
          (goes s2 t2 called entered
            (starts s2 (after s1 s2 (after s0 s1 initial (connects 1)) (registers 1 name 1 4)))
            (begun t2 begun_take))
          enabled)
        (nothing 0 500 600 t2 found_nothing))
      (others (waits 0) t3 (requests 1 name 50 (9 ∷ []) 1000 1000 (ok ticket) t3 requested))

waits-Idle_example : Woken 1 0 t3 ⊎ Idle 1 t3
waits-Idle_example = waits-Idle 4 10_000 1 0 t3 (omega arith) waiting
