-- ===== src/Store/Progress.antt =====
-- store.rs `fetch`: a reader who is behind gets on.
use velo_bus.Prelude.{
  ℕ, suc, ◌+◌, ◌-◌, ◌%◌, ◌^◌, ◌≤◌, ◌<◌, ◌≡◌, inl, inr, refl, ap, subst, ◌∙◌, Bool, true, false,
  List, [], ◌∷◌, arith, ltb, ◌==◌, ◌&&◌, ◌||◌, if◌then◌else◌, length, length-drop, length-take,
  take, drop, All, All-take, All-drop, Bool-cases, Option, none,
}
use velo_bus.Protocol.Codes
use velo_bus.Protocol.Types.{ok, err, Event, Fetch, Record, wire_bytes}
use velo_bus.Protocol.Consumes.{ok-injective, err-ne-ok}
use velo_bus.Store.Fetch.{
  topic_matches, replaced, coalesces, position_of, consider, Scan, Step, next, stop, refuse,
  fetch_step, fetch_loop, start, scan_events, FetchResult, fetch_result,
}
use velo_bus.Store.Scanning.{Numbered, IsSmall}
use velo_bus.Store.Stepping.{StepInv, fetch_step-StepInv}
use velo_bus.Store.Fetching.{
  IsHistory, Numbered-skip, Numbered-take, fetch_loop-cons, fetch_loop-Taken, start-Inv,
}
use velo_bus.Store.{Store}
use velo_bus.Store.Operations.{fetch}
use velo_bus.Store.Delivery.{Result-cases}

-- With nothing selected, an event is selected, skipped, or refused, but the loop does not stop.
abbrev Goes : Step → Type 0
Goes (next st) = Unit {0}
Goes (stop st) = ⊥
Goes (refuse e) = Unit {0}

wire_bytes-word : (r : Record) → wire_bytes r < 2 ^ 64
unfolding wire_bytes
wire_bytes-word r = omega arith

abbrev no_index : Option ℕ
no_index = none

same_none : (b : Bool) → (if b then no_index else no_index) ≡ no_index
same_none true = refl
same_none false = refl

replaced-start : (f : Fetch) (e : Event) → replaced f (start f.after) e ≡ none
unfolding replaced position_of
replaced-start f e = same_none (coalesces f e)

consider-Goes : (f : Fetch) (e : Event) → 1 ≤ f.limit → Goes (consider f (start f.after) e none)
unfolding consider
consider-Goes f e some_limit =
    let w = wire_bytes-word e.content in
    let test =
      ltb f.max_bytes ((0 - 0 + wire_bytes e.content) % 2 ^ 64) || (true && 0 == f.limit) in
    elim (Bool-cases test) [
      | inr fits ↦ rw (consider, fits) tt
      | inl over ↦
          let large : ltb f.max_bytes (wire_bytes e.content) ≡ true =
            ground (arith, over, w, some_limit) in
          rw (consider, over, large) tt
    ]

first-Goes : (f : Fetch) (e : Event) → 1 ≤ f.limit → Goes (fetch_step f (start f.after) e)
unfolding fetch_step
first-Goes f e some_limit = elim (Bool-cases (topic_matches f e)) [
  | inr miss ↦ rw (fetch_step, miss) tt
  | inl hit ↦ rw (fetch_step, hit, replaced-start f e) (consider-Goes f e some_limit)
]

not_stopped : (r : Step) (st : Scan) → Goes r → r ≡ stop st → ⊥
not_stopped r st g h = subst Goes h g

-- A run of the loop from the start, over at least one event, gets behind its start.
fetch_loop-moves :
    (f : Fetch) (e : Event) (es : List Event) (st : Scan)
    → 1 ≤ f.limit
    → Numbered f.after (e ∷ es)
    → All IsSmall (e ∷ es)
    → f.max_bytes ≤ Codes.max_fetch_bytes
    → fetch_loop f (e ∷ es) (start f.after) ≡ ok st
    → f.after < st.cursor
unfolding fetch_loop
fetch_loop-moves f e es st some_limit (num, nums) (se, small) room h =
    let step = fetch_step-StepInv f [] (start f.after) e (start-Inv f) (λ x m. absurd m) se room in
    elim (fetch_loop-cons f es st (fetch_step f (start f.after) e) h) [
      | inr stopped ↦ absurd (not_stopped _ st (first-Goes f e some_limit) stopped)
      | inl (t, is_next, more) ↦
          let (ct, vt) = subst (StepInv f [] (start f.after) e) is_next step in
          let r =
            fetch_loop-Taken f (e ∷ []) es (suc f.after) t st vt (ct ∙ num)
              (λ x m. elim m [
                | inl now ↦ omega (arith, num, ap (λ (z : Event). z.sequence) now)
                | inr never ↦ absurd never
              ])
              nums small room more in
          omega (arith, r.at)
    ]

behind_cases :
    (es : List Event) → 1 ≤ length es → (e : Event) × (rest : List Event) × (es ≡ e ∷ rest)
behind_cases [] h = absurd (omega arith)
behind_cases (e ∷ es) h = (e, es, refl)

scan_events-moves :
    (f : Fetch) (events : List Event) (st : Scan)
    → IsHistory events
    → f.max_bytes ≤ Codes.max_fetch_bytes
    → 1 ≤ f.limit
    → f.after < length events
    → scan_events f events ≡ ok st
    → f.after < st.cursor
unfolding scan_events
scan_events-moves f events st v room some_limit behind h =
    let window = take Codes.max_scan (drop f.after events) in
    let size : 1 ≤ length window =
      omega (arith, length-take Codes.max_scan (drop f.after events), length-drop f.after events) in
    let (e, es, w) = behind_cases window size in
    let run : fetch_loop f window (start f.after) ≡ ok st = ground (arith, h) in
    let numbered : Numbered f.after window =
      Numbered-take f.after Codes.max_scan (drop f.after events)
        (Numbered-skip f.after events v.numbered (omega arith)) in
    let small : All IsSmall window =
      All-take IsSmall Codes.max_scan _ (All-drop IsSmall f.after events v.small) in
    fetch_loop-moves f e es st some_limit (subst (Numbered f.after) w numbered)
      (subst (All IsSmall) w small) room (subst (λ z. fetch_loop f z (start f.after) ≡ ok st) w run)

-- A reader who is behind the end of the history gets on: on a history as it should be, a successful
-- FETCH with `after` before the end, a limit of at least one and a byte budget of at most 524,288
-- returns a cursor behind `after`, whether or not an event matched.
pub fetch-progress :
    (s : Store) (f : Fetch) (r : FetchResult)
    → IsHistory s.events
    → f.max_bytes ≤ Codes.max_fetch_bytes
    → 1 ≤ f.limit
    → f.after < length s.events
    → (fetch s f).0 ≡ ok r
    → f.after < r.cursor
unfolding fetch fetch_result
fetch-progress s f r v room some_limit behind h = elim (Result-cases (scan_events f s.events)) [
  | inl (st, e) ↦
      let g : ok (fetch_result s.events st) ≡ ok r = rw (fetch, e) at h in
      subst (λ (z : FetchResult). f.after < z.cursor) (ok-injective g)
        (scan_events-moves f s.events st v room some_limit behind e)
  | inr (x, e) ↦ let g : err x ≡ ok r = rw (fetch, e) at h in absurd (err-ne-ok g)
]
