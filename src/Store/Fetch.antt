-- ===== src/Store/Fetch.antt =====
-- store.rs, lines 23 to 47 and 145 to 211: FETCH.
use velo_bus.Prelude.{
  ℕ, ◌+◌, ◌-◌, ◌^◌, ◌%◌, Bool, true, false, not, ◌&&◌, ◌||◌, List, [], ◌∷◌, ◌++◌, ltb, leb, ◌==◌,
  if◌then◌else◌, length, take, drop, set, get_elem?, bytes_eq, be_bytes, Option, none, some,
}
use velo_bus.Protocol.Codes
use velo_bus.Protocol.Types.{
  Bytes, Error, Result, ok, err, new_error, Event, Fetch, wire_bytes, ◌+u64◌,
}
use velo_bus.Protocol.Encode.{encode_record}

-- `FetchResult`
pub record FetchResult : Type 0 where
  pub cursor : ℕ
  pub events : List Event
  pub has_more : Bool

unfoldable pub encode_events : Bytes → List Event → Bytes
encode_events out [] = out
encode_events out (e ∷ es) =
    encode_events (encode_record (out ++ be_bytes 8 e.sequence) e.content) es

-- `FetchResult::encode`
unfoldable pub encode : FetchResult → Bytes
unfolding encode_events
encode r =
    encode_events
      ((be_bytes 8 r.cursor ++ be_bytes 2 (length r.events % 2 ^ 16))
        ++ (if r.has_more then 1 else 0) ∷ [])
      r.events

-- `request.topic == "*" || request.topic == record.topic`
unfoldable pub topic_matches : Fetch → Event → Bool
topic_matches f e = bytes_eq f.topic (b'*' ∷ []) || bytes_eq f.topic e.content.topic

-- `request.latest && !record.key.is_empty()`
unfoldable pub coalesces : Fetch → Event → Bool
coalesces f e = f.latest && not (length e.content.key == 0)

unfoldable pub same_key : Bytes × Bytes → Event → Bool
same_key (topic, key) e = bytes_eq topic e.content.topic && bytes_eq key e.content.key

-- The map from (topic, key) to the index in `selected`.
abbrev pub Positions : Type 0
Positions = List ((Bytes × Bytes) × ℕ)

unfoldable pub position_of : Positions → Event → Option ℕ
position_of [] e = none
position_of ((k, i) ∷ ps) e = if same_key k e then some i else position_of ps e

-- The locals of the loop.
pub record Scan : Type 0 where
  pub cursor : ℕ
  pub selected : List Event
  pub positions : Positions
  pub wire : ℕ
  pub coalesced : ℕ

-- How the body of the loop ends: with the next event, by `break`, or by `return Err`.
pub data Step : Type 0 where
  next stop : Scan → Step
  refuse : Error → Step

abbrev pub wire_at : List Event → ℕ → ℕ
wire_at es i = elim (get_elem? es i) [ none ↦ 0 | some e ↦ wire_bytes e.content ]

unfoldable pub replaced : Fetch → Scan → Event → Option ℕ
replaced f st e = if coalesces f e then position_of st.positions e else none

abbrev pub is_none : Option ℕ → Bool
is_none none = true
is_none (some i) = false

abbrev pub previous_bytes : Scan → Option ℕ → ℕ
previous_bytes st none = 0
previous_bytes st (some i) = wire_at st.selected i

-- The end of the body, where the event is selected.
unfoldable pub select_event : Fetch → Scan → Event → Option ℕ → ℕ → Scan
select_event f st e (some i) wire = record st {
  cursor = e.sequence;
  selected = set st.selected i e;
  wire = wire;
  coalesced = st.coalesced + 1;
}
select_event f st e none wire = record st {
  cursor = e.sequence;
  selected = st.selected ++ e ∷ [];
  positions =
      if coalesces f e
      then ((e.content.topic, e.content.key), length st.selected) ∷ st.positions
      else st.positions;
  wire = wire;
}

unfoldable pub consider : Fetch → Scan → Event → Option ℕ → Step
consider f st e replace =
    let candidate = st.wire - previous_bytes st replace +u64 wire_bytes e.content in
    if ltb f.max_bytes candidate || is_none replace && length st.selected == f.limit
    then (if length st.selected == 0 && ltb f.max_bytes (wire_bytes e.content)
        then refuse (
            new_error Codes.limit
              "first eligible event exceeds maxBytes; increase the fetch budget")
        else stop st)
    else next (select_event f st e replace candidate)

unfoldable pub fetch_step : Fetch → Scan → Event → Step
fetch_step f st e =
    if not (topic_matches f e)
    then next (record st { cursor = e.sequence })
    else consider f st e (replaced f st e)

unfoldable pub fetch_loop : Fetch → List Event → Scan → Result Scan
fetch_loop f [] st = ok st
fetch_loop f (e ∷ es) st = elim (fetch_step f st e) [
  | next st' ↦ fetch_loop f es st'
  | stop st' ↦ ok st'
  | refuse x ↦ err x
]

-- `sort_unstable_by_key(|event| event.sequence)`
unfoldable pub insert_event : Event → List Event → List Event
insert_event e [] = e ∷ []
insert_event e (x ∷ xs) = if leb e.sequence x.sequence then e ∷ x ∷ xs else x ∷ insert_event e xs

unfoldable pub sort_events : List Event → List Event
unfolding insert_event
sort_events [] = []
sort_events (e ∷ es) = insert_event e (sort_events es)

abbrev pub start : ℕ → Scan
start after = record { cursor = after; selected = []; positions = []; wire = 0; coalesced = 0 }

-- The scan of `Store::fetch` over the history: the last locals, or an error.
unfoldable pub scan_events : Fetch → List Event → Result Scan
scan_events f events =
    if ltb (length events) f.after
    then err (new_error Codes.cursor "cursor is beyond this log's high-water mark")
    else fetch_loop f (take Codes.max_scan (drop f.after events)) (start f.after)

unfoldable pub fetch_result : List Event → Scan → FetchResult
fetch_result events st = record {
  cursor = st.cursor;
  events = sort_events st.selected;
  has_more = ltb st.cursor (length events);
}
