-- ===== src/Store/Runs/Reading.antt =====
-- Runs of FETCH: what readers of a small history get.
use velo_bus.Prelude.{
  ◌≡◌, ◌≤◌, ◌↔◌, refl, [], ◌∷◌, arith, true, false, In, inl, inr, ltb, bytes_eq, ◌<◌, ◌≢◌,
}
use velo_bus.Protocol.Types.{ok, Fetch, wire_bytes}
use velo_bus.Protocol.Runs.{small_record}
use velo_bus.Store.{Store}
use velo_bus.Store.Fetch.{
  FetchResult, fetch_result, scan_events, fetch_loop, fetch_step, consider, select_event, replaced,
  coalesces, topic_matches, sort_events, insert_event, position_of, same_key,
}
use velo_bus.Store.Operations.{fetch}
use velo_bus.Store.Scanning.{Covered, total}
use velo_bus.Store.Sorting.{Ascending}
use velo_bus.Store.Fetching.{IsHistory}
use velo_bus.Store.Delivery.{Eligible, fetch-bounds, fetch_sound, fetch_complete, fetch-exact}
use velo_bus.Store.Progress.{fetch-progress}
use velo_bus.Store.Latest.{fetch-latest_unique}
use velo_bus.Store.Runs.{store, first_event, second_event}

-- A store with two events, and a reader of all topics.
abbrev stored : Store
stored = record store { events = first_event ∷ second_event ∷ [] }

abbrev reader : Fetch
reader = record { topic = b'*' ∷ []; after = 0; limit = 10; max_bytes = 1000; latest = false }

abbrev answer : FetchResult
answer = record { cursor = 2; events = first_event ∷ second_event ∷ []; has_more = false }

stored-IsHistory : IsHistory stored.events
unfolding wire_bytes
stored-IsHistory = record {
  numbered = (refl, (refl, tt));
  small = (omega arith, (omega arith, tt));
}

fetched : (fetch stored reader).0 ≡ ok answer
unfolding fetch scan_events fetch_loop fetch_step topic_matches consider replaced coalesces
    select_event fetch_result sort_events insert_event wire_bytes bytes_eq
fetched = refl

fetch-bounds_example :
    (0 ≤ 2)
    × (2 ≤ 2)
    × (false ≡ ltb 2 2)
    × Ascending answer.events
    × (2 ≤ 10)
    × (total answer.events ≤ 1000)
fetch-bounds_example = fetch-bounds stored reader answer stored-IsHistory (omega arith) fetched

second_event-Eligible : Eligible reader stored.events 2 second_event
unfolding topic_matches bytes_eq
second_event-Eligible = record {
  kept = inr (inl refl);
  after = omega arith;
  before = omega arith;
  matches = refl;
}

fetch_complete_example : Covered reader answer.events second_event
fetch_complete_example =
    fetch_complete stored reader answer stored-IsHistory (omega arith) fetched second_event
      second_event-Eligible

fetch_sound_example : Eligible reader stored.events 2 second_event
fetch_sound_example =
    fetch_sound stored reader answer stored-IsHistory (omega arith) fetched second_event
      (inr (inl refl))

fetch-exact_example : In second_event answer.events ↔ Eligible reader stored.events 2 second_event
fetch-exact_example =
    fetch-exact stored reader answer stored-IsHistory (omega arith) fetched refl second_event

fetch-progress_example : 0 < 2
fetch-progress_example =
    fetch-progress stored reader answer stored-IsHistory (omega arith) (omega arith) (omega arith)
      fetched

-- The latest of two events with one topic and key.
abbrev last_reader : Fetch
last_reader = record reader { latest = true }

abbrev last_answer : FetchResult
last_answer = record { cursor = 2; events = second_event ∷ []; has_more = false }

fetched_last : (fetch stored last_reader).0 ≡ ok last_answer
unfolding fetch scan_events fetch_loop fetch_step topic_matches consider replaced coalesces
    select_event fetch_result sort_events insert_event wire_bytes bytes_eq position_of same_key
fetched_last = refl

has_key : small_record.key ≢ []
has_key q = cc

fetch-latest_unique_example : second_event ≡ second_event
fetch-latest_unique_example =
    fetch-latest_unique stored last_reader last_answer second_event second_event fetched_last refl
      (inl refl) (inl refl) has_key (record { topic = refl; key = refl })
