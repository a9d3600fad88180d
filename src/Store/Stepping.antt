-- ===== src/Store/Stepping.antt =====
-- One event in the loop of FETCH keeps the loop's invariant.
use velo_bus.Prelude.{
  ℕ, zero, suc, ◌+◌, ◌-◌, ◌≤◌, ◌<◌, ◌≡◌, inl, inr, refl, sym, subst, ◌∙◌, Bool, true, false, List,
  [], ◌∷◌, ◌++◌, arith, if◌then◌else◌, get_elem?, Option, none, some, In, In-append, In-append_left,
  Bool-cases,
}
use mathlib.Core.Bool.{false≢true}
use velo_bus.Protocol.Codes
use velo_bus.Protocol.Types.{Error, Event, Fetch, wire_bytes, ◌+u64◌}
use velo_bus.Store.Fetch.{
  topic_matches, Scan, Step, next, stop, refuse, replaced, previous_bytes, select_event, consider,
  fetch_step,
}
use velo_bus.Store.Scanning.{IsSmall, total, Inv}
use velo_bus.Store.Selecting.{push-Inv, replace-Inv, replaced-some}

at-le-total :
    (xs : List Event) (i : ℕ) (y : Event)
    → get_elem? xs i ≡ some y
    → wire_bytes y.content ≤ total xs
unfolding total
at-le-total [] i y h = cc
at-le-total (x ∷ xs) zero y h = ground arith
at-le-total (x ∷ xs) (suc i) y h = omega (arith, at-le-total xs i y h)

-- A step either keeps the invariant and moves past the event, or leaves the locals alone.
abbrev pub StepInv : Fetch → List Event → Scan → Event → Step → Type 0
StepInv f done st e (next st') = (st'.cursor ≡ e.sequence) × Inv f (done ++ e ∷ []) st'
StepInv f done st e (stop st') = st' ≡ st
StepInv f done st e (refuse x) = Unit {0}

module _ (f : Fetch) (done : List Event) (st : Scan) (e : Event) (v : Inv f done st)
    (newest : (x : Event) → In x done → x.sequence < e.sequence) (small : IsSmall e)
    (room : f.max_bytes ≤ Codes.max_fetch_bytes) where
  skip-Inv : topic_matches f e ≡ false → Inv f (done ++ e ∷ []) (record st { cursor = e.sequence })
  skip-Inv other = record {
    covered = λ x h mx. elim (In-append x done (e ∷ []) h) [
      | inl before ↦ v.covered x before mx
      | inr (inl now) ↦
          absurd (false≢true (sym other ∙ subst (λ z. topic_matches f z ≡ true) now mx))
      | inr (inr never) ↦ absurd never
    ];
    sound = λ x h. let (d, mx) = v.sound x h in (In-append_left x done (e ∷ []) d, mx);
    distinct = v.distinct;
    points = v.points;
    wire = v.wire;
    budget = v.budget;
    count = v.count;
  }

  -- The shape of `consider`: a test, and within it a test for the error.
  tested-StepInv :
      (full oversized : Bool) (x : Error) (st' : Scan)
      → (full ≡ false → (st'.cursor ≡ e.sequence) × Inv f (done ++ e ∷ []) st')
      → StepInv f done st e (if full then (if oversized then refuse x else stop st) else next st')
  tested-StepInv true true x st' h = tt
  tested-StepInv true false x st' h = refl
  tested-StepInv false oversized x st' h = h refl

  fits-sum :
      (previous : ℕ)
      → previous ≤ st.wire
      → st.wire - previous +u64 wire_bytes e.content ≡ st.wire - previous + wire_bytes e.content
  fits-sum previous h = omega (arith, small, room, v.budget)

  consider-StepInv :
      (r : Option ℕ)
      → replaced f st e ≡ r
      → topic_matches f e ≡ true
      → StepInv f done st e (consider f st e r)
  unfolding consider select_event
  consider-StepInv none r m = tested-StepInv _ _ _ _ λ passed. (
    refl,
    push-Inv f done st e v newest m _ r (omega (arith, fits-sum 0 (omega arith))) (ground arith)
        (ground arith),
  )
  consider-StepInv (some i) r m =
      let (c, p) = replaced-some f st e i r in
      let (old, at_i, same) = v.points e i p in
      let within : previous_bytes st (some i) ≤ st.wire =
        ground (arith, at_i, at-le-total st.selected i old at_i, v.wire) in
      tested-StepInv _ _ _ _ λ passed. (
        refl,
        replace-Inv f done st e v newest m i _ r (omega (arith, within, fits-sum _ within))
            (ground arith),
      )

  -- The body of the loop.
  pub fetch_step-StepInv : StepInv f done st e (fetch_step f st e)
  unfolding fetch_step
  fetch_step-StepInv = elim (Bool-cases (topic_matches f e)) [
    | inl m ↦ rw (m) (consider-StepInv (replaced f st e) refl m)
    | inr other ↦ rw (other) (refl, skip-Inv other)
  ]
