-- ===== src/Store/Latest.antt =====
-- store.rs `fetch` in latest mode: some_injective event for each topic and key.
use velo_bus.Prelude.{
  some_injective, ℕ, ◌≡◌, ◌≢◌, inl, inr, refl, sym, ap, subst, ◌∙◌, Bool, true, false, List, [],
  ◌∷◌, ltb, ◌==◌, if◌then◌else◌, length, get_elem?, Option, some, In, Bool-cases, arith, take, drop,
}
use velo_bus.Protocol.Codes
use velo_bus.Protocol.Types.{ok, new_error, Event, Fetch}
use velo_bus.Protocol.Consumes.{ok-injective, err-ne-ok}
use velo_bus.Store.Fetch.{
  topic_matches, coalesces, Scan, Step, next, stop, refuse, replaced, select_event, consider,
  fetch_step, fetch_loop, start, scan_events, fetch_result, FetchResult, sort_events,
}
use velo_bus.Store.Scanning.{SameKey}
use velo_bus.Store.Sorting.{sort_events-In}
use velo_bus.Store.Fetching.{fetch_loop-cons}
use velo_bus.Store.Delivery.{Result-cases}
use velo_bus.Store.{Store}
use velo_bus.Store.Operations.{fetch}
use velo_bus.Store.Mapping.{In-index, Mapped, position_of-eq, select_event-Mapped}

-- A step of the loop keeps the map.
abbrev StepMapped : Fetch → Step → Type 0
StepMapped f (next st) = Mapped f st
StepMapped f (stop st) = Mapped f st
StepMapped f (refuse x) = Unit {0}

consider-Mapped :
    (f : Fetch) (st : Scan) (e : Event) (o : Option ℕ)
    → replaced f st e ≡ o
    → Mapped f st
    → StepMapped f (consider f st e o)
unfolding consider
consider-Mapped f st e o r m = chosen _ _ _
  where
    chosen :
        (full large : Bool) (wire : ℕ)
        → StepMapped f (
            if full
            then (if large
                then refuse (
                    new_error Codes.limit
                      "first eligible event exceeds maxBytes; increase the fetch budget")
                else stop st)
            else next (select_event f st e o wire))
    chosen true true wire = tt
    chosen true false wire = m
    chosen false large wire = select_event-Mapped f st e wire o r m

fetch_step-Mapped :
    (f : Fetch) (st : Scan) (e : Event) → Mapped f st → StepMapped f (fetch_step f st e)
unfolding fetch_step
fetch_step-Mapped f st e m = elim (Bool-cases (topic_matches f e)) [
  | inl hit ↦ rw (fetch_step, hit) (consider-Mapped f st e (replaced f st e) refl m)
  | inr miss ↦ rw (fetch_step, miss) m
]

fetch_loop-Mapped :
    (f : Fetch) (es : List Event) (st st' : Scan)
    → Mapped f st
    → fetch_loop f es st ≡ ok st'
    → Mapped f st'
unfolding fetch_loop
fetch_loop-Mapped f [] st st' m h = subst (Mapped f) (ok-injective h) m
fetch_loop-Mapped f (e ∷ es) st st' m h =
    let step = fetch_step-Mapped f st e m in
    elim (fetch_loop-cons f es st' (fetch_step f st e) h) [
      | inl (t, is_next, more) ↦
          fetch_loop-Mapped f es t st' (subst (StepMapped f) is_next step) more
      | inr is_stop ↦ subst (StepMapped f) is_stop step
    ]

scan_events-Mapped :
    (f : Fetch) (events : List Event) (st : Scan) → scan_events f events ≡ ok st → Mapped f st
unfolding scan_events
scan_events-Mapped f events st h = elim (Bool-cases (ltb (length events) f.after)) [
  | inl beyond ↦ absurd (err-ne-ok (rw (scan_events, beyond) at h))
  | inr within ↦
      fetch_loop-Mapped f (take Codes.max_scan (drop f.after events)) (start f.after) st
        (λ i x g c. absurd (nothing i x g)) (rw (scan_events, within) at h)
]
  where
    nothing : (i : ℕ) (x : Event) → get_elem? [] i ≡ some x → ⊥
    nothing i x g = cc

-- In latest mode a successful FETCH returns some_injective event at most for each topic and non-empty key.
pub fetch-latest_unique :
    (s : Store) (f : Fetch) (r : FetchResult) (x y : Event)
    → (fetch s f).0 ≡ ok r
    → f.latest ≡ true
    → In x r.events
    → In y r.events
    → x.content.key ≢ []
    → SameKey x y
    → x ≡ y
unfolding fetch fetch_result coalesces
fetch-latest_unique s f r x y h latest mx my keyed same =
    elim (Result-cases (scan_events f s.events)) [
      | inr (e, failed) ↦ absurd (err-ne-ok (rw (fetch, failed) at h))
      | inl (st, scanned) ↦
          let g : ok (fetch_result s.events st) ≡ ok r = rw (fetch, scanned) at h in
          let events : r.events ≡ sort_events st.selected =
            ap (λ (z : FetchResult). z.events) (sym (ok-injective g)) in
          let m = scan_events-Mapped f s.events st scanned in
          let (i, at_i) =
            In-index x st.selected ((sort_events-In x st.selected).1 (subst (In x) events mx)) in
          let (j, at_j) =
            In-index y st.selected ((sort_events-In y st.selected).1 (subst (In y) events my)) in
          let cx : coalesces f x ≡ true = coalescing x keyed in
          let cy : coalesces f y ≡ true = coalescing y (λ z. keyed (same.key ∙ z)) in
          let there : some i ≡ some j =
            sym (m i x at_i cx) ∙ position_of-eq st.positions x y same ∙ m j y at_j cy in
          some_injective (sym at_i ∙ ap (get_elem? st.selected) (index there) ∙ at_j)
    ]
  where
    coalescing : (e : Event) → e.content.key ≢ [] → coalesces f e ≡ true
    coalescing e ne = ground (arith, latest, long e.content.key ne)
      where
        long : (k : List ℕ) → k ≢ [] → (length k == 0) ≡ false
        long [] z = absurd (z refl)
        long (b ∷ k) z = ground arith

    index : {i j : ℕ} → some i ≡ some j → i ≡ j
    index q = cc
