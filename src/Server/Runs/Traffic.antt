-- ===== src/Server/Runs/Traffic.antt =====
-- Runs of a connection and of replies: two requests, one of them malformed, are answered.
use velo_bus.Prelude.{◌≡◌, ◌≤◌, refl, false, [], ◌∷◌, arith, Option, none, some, bytes_eq, length}
use velo_bus.Protocol.Types.{ok, Event, Fetch, wire_bytes}
use velo_bus.Protocol.Encode.{envelope}
use velo_bus.Protocol.Runs.{small_record, small_record-IsRecord}
use velo_bus.Store.{Store}
use velo_bus.Store.Fetch.{
  FetchResult, encode, fetch_result, scan_events, fetch_loop, fetch_step, consider, select_event,
  replaced, coalesces, topic_matches, sort_events, insert_event,
}
use velo_bus.Store.Operations.{fetch}
use velo_bus.Store.Fetching.{IsHistory}
use velo_bus.Rpc.{Job}
use velo_bus.Server.{response_frame}
use velo_bus.Protocol.Reader
use velo_bus.Server.Connection.{Connection, opened, receive, finish, after}
use velo_bus.Server.Serve.{
  Listener, listening, accept_one, Serves, begins, accepts, current_connections,
  connections_counted,
}
use velo_bus.Rpc.Lookups.{Once}
use velo_bus.Server.Dispatch.{take_body}
use velo_bus.Server.Dispatch.Replies.{read_job, read_job-take_body, fetch_fits}

-- A PING is received and ends, then an unknown opcode comes in.
abbrev c1 : Connection
c1 = receive opened 5 1 []

abbrev c2 : Connection
c2 = finish c1 0 (ok [])

abbrev c3 : Connection
c3 = receive c2 99 2 []

abbrev job : Option Job
job = some (record { call_id = 300; remaining_ms = 50; payload = 9 ∷ 8 ∷ [] })

read_job-take_body_example : read_job (take_body job) ≡ job
read_job-take_body_example = read_job-take_body job (omega arith, omega arith, omega arith)

abbrev event : Event
event = record { sequence = 1; content = small_record }

abbrev store : Store
store = record {
  events = event ∷ [];
  retained = 272;
  max_retained = 5000;
  max_wal_bytes = 1000;
  wal = none;
  poisoned = false;
  published_records = 1;
  fetched_records = 0;
  coalesced_records = 0;
}

abbrev reader : Fetch
reader = record { topic = b'*' ∷ []; after = 0; limit = 10; max_bytes = 1000; latest = false }

abbrev answer : FetchResult
answer = record { cursor = 1; events = event ∷ []; has_more = false }

store-IsHistory : IsHistory store.events
unfolding wire_bytes
store-IsHistory = record { numbered = (refl, tt); small = (omega arith, tt) }

fetched : (fetch store reader).0 ≡ ok answer
unfolding fetch scan_events fetch_loop fetch_step topic_matches consider replaced coalesces
    select_event fetch_result sort_events insert_event wire_bytes bytes_eq
fetched = refl

fetch_fits_example : response_frame 131 7 (encode answer) ≡ envelope 131 7 (encode answer)
fetch_fits_example =
    fetch_fits store reader answer 131 7 store-IsHistory (small_record-IsRecord, tt) (omega arith)
      fetched

-- Two connections come in, and the first one ends.
abbrev l1 : Listener
l1 = record { permits = 63; last_id = 1; open_ids = 1 ∷ [] }

abbrev l2 : Listener
l2 = record { permits = 62; last_id = 2; open_ids = 1 ∷ 2 ∷ [] }

l2-Serves : Serves 64 l2
unfolding accept_one
l2-Serves = accepts l1 l2 (accepts (listening 64) l1 begins refl) refl

connections_counted_example :
    Once l2.open_ids × (length l2.open_ids ≤ 64) × (current_connections 64 l2 ≡ length l2.open_ids)
connections_counted_example = connections_counted 64 l2 l2-Serves
