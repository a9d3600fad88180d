-- ===== src/Store/Fetching.antt =====
-- What FETCH returns: the events up to the cursor that match, in order, none skipped.
use velo_bus.Prelude.{
  ℕ, zero, suc, ◌+◌, ◌≤◌, ◌≡◌, ◌⊎◌, inl, inr, refl, sym, ap, subst, ◌∙◌, List, [], ◌∷◌, ◌++◌, arith,
  length, take, drop, take-append-drop, append_assoc, append-nil, In, In-append, All, All-take,
  All-drop,
}
use native.Mathlib.Decide.{dec_lt}
use velo_bus.Protocol.Codes
use velo_bus.Protocol.Types.{ok, err, Event, Fetch}
use velo_bus.Protocol.Consumes.{ok-injective, err-ne-ok}
use velo_bus.Store.Fetch.{
  position_of, Scan, Step, next, stop, refuse, fetch_step, fetch_loop, start, scan_events,
}
use velo_bus.Store.Scanning.{Numbered, IsSmall, total, Inv}
use velo_bus.Store.Stepping.{StepInv, fetch_step-StepInv}

pub Numbered-drop :
    (n k : ℕ) (es : List Event) → Numbered n es → k ≤ length es → Numbered (n + k) (drop k es)
Numbered-drop n zero es h le = let e : n ≡ n + 0 = omega arith in subst (λ m. Numbered m es) e h
Numbered-drop n (suc k) [] h le = tt
Numbered-drop n (suc k) (e ∷ es) (_, h) le =
    let s : suc n + k ≡ n + suc k = omega arith in
    subst (λ m. Numbered m (drop k es)) s (Numbered-drop (suc n) k es h (omega arith))

pub Numbered-skip :
    (k : ℕ) (es : List Event) → Numbered 0 es → k ≤ length es → Numbered k (drop k es)
Numbered-skip k es h le =
    let e : 0 + k ≡ k = omega arith in
    subst (λ m. Numbered m (drop k es)) e (Numbered-drop 0 k es h le)

pub Numbered-take : (n k : ℕ) (es : List Event) → Numbered n es → Numbered n (take k es)
Numbered-take n zero es h = tt
Numbered-take n (suc k) [] h = tt
Numbered-take n (suc k) (e ∷ es) (s, h) = (s, Numbered-take (suc n) k es h)

-- What a run of the loop leaves: it took some of the events, and the invariant holds of those.
pub record Taken (f : Fetch) (done es : List Event) (n : ℕ) (st : Scan) : Type 0 where
  pub taken : List Event
  pub rest : List Event
  pub parts : es ≡ taken ++ rest
  pub inv : Inv f (done ++ taken) st
  pub at : st.cursor ≡ n + length taken

loop_done :
    (f : Fetch) (done es : List Event) (n : ℕ) (st st' : Scan)
    → Inv f done st
    → st.cursor ≡ n
    → st' ≡ st
    → Taken f done es n st'
loop_done f done es n st st' v c e = record {
  taken = [];
  rest = es;
  parts = refl;
  inv = rw (append-nil, e) v;
  at = rw e (omega (arith, c));
}

loop_more :
    (f : Fetch) (done es : List Event) (e : Event) (n : ℕ) (st : Scan)
    → Taken f (done ++ e ∷ []) es (suc n) st
    → Taken f done (e ∷ es) n st
loop_more f done es e n st t = record {
  taken = e ∷ t.taken;
  rest = t.rest;
  parts = ap (◌∷◌ e) t.parts;
  inv = subst (λ d. Inv f d st) (append_assoc done (e ∷ []) t.taken) t.inv;
  at = omega (arith, t.at);
}

-- How the loop gets to its result: by the next event, or by stopping here.
pub fetch_loop-cons :
    (f : Fetch) (es : List Event) (st' : Scan) (r : Step)
    → (elim r [ next t ↦ fetch_loop f es t | stop t ↦ ok t | refuse x ↦ err x ]) ≡ ok st'
    → ((t : Scan) × (r ≡ next t) × (fetch_loop f es t ≡ ok st')) ⊎ (r ≡ stop st')
fetch_loop-cons f es st' (next t) h = inl (t, refl, h)
fetch_loop-cons f es st' (stop t) h = inr (ap stop (ok-injective h))
fetch_loop-cons f es st' (refuse x) h = absurd (err-ne-ok h)

pub fetch_loop-Taken :
    (f : Fetch) (done es : List Event) (n : ℕ) (st st' : Scan)
    → Inv f done st
    → st.cursor ≡ n
    → ((x : Event) → In x done → x.sequence ≤ n)
    → Numbered n es
    → All IsSmall es
    → f.max_bytes ≤ Codes.max_fetch_bytes
    → fetch_loop f es st ≡ ok st'
    → Taken f done es n st'
unfolding fetch_loop
fetch_loop-Taken f done [] n st st' v c before num small room h =
    loop_done f done [] n st st' v c (sym (ok-injective h))
fetch_loop-Taken f done (e ∷ es) n st st' v c before (s, num) (se, small) room h =
    let step = fetch_step-StepInv f done st e v (λ x m. omega (arith, before x m)) se room in
    elim (fetch_loop-cons f es st' (fetch_step f st e) h) [
      | inl (t, is_next, more) ↦
          let (ct, vt) = subst (StepInv f done st e) is_next step in
          loop_more f done es e n st' (
            fetch_loop-Taken f (done ++ e ∷ []) es (suc n) t st' vt (ct ∙ s)
              (λ x m. elim (In-append x done (e ∷ []) m) [
                | inl old ↦ omega (arith, before x old)
                | inr (inl now) ↦ omega (arith, ap (λ (z : Event). z.sequence) now)
                | inr (inr never) ↦ absurd never
              ])
              num small room more)
      | inr is_stop ↦
          loop_done f done (e ∷ es) n st st' v c (subst (StepInv f done st e) is_stop step)
    ]

pub start-Inv : (f : Fetch) → Inv f [] (start f.after)
start-Inv f = record {
  covered = λ e h m. absurd h;
  sound = λ e h. absurd h;
  distinct = tt;
  points = λ x i h. unfold position_of in cc;
  wire = unfold total in refl;
  budget = omega arith;
  count = omega arith;
}

-- A history as the store keeps it: numbered from 1, each event within the limits.
pub record IsHistory (events : List Event) : Type 0 where
  pub numbered : Numbered 0 events
  pub small : All IsSmall events

-- What the scan has taken of the history.
pub record Scanned (f : Fetch) (events : List Event) (st : Scan) : Type 0 where
  pub taken : List Event
  pub rest : List Event
  pub parts : drop f.after events ≡ taken ++ rest
  pub inv : Inv f taken st
  pub at : st.cursor ≡ f.after + length taken
  pub in_reach : f.after ≤ length events

pub scan_events-Scanned :
    (f : Fetch) (events : List Event) (st : Scan)
    → IsHistory events
    → f.max_bytes ≤ Codes.max_fetch_bytes
    → scan_events f events ≡ ok st
    → Scanned f events st
unfolding scan_events
scan_events-Scanned f events st v room h = elim (dec_lt (length events) f.after) [
  | yes beyond ↦ absurd (ground (arith, h))
  | no reach ↦
      let window = take Codes.max_scan (drop f.after events) in
      let run : fetch_loop f window (start f.after) ≡ ok st = ground (arith, h) in
      let numbered : Numbered f.after window =
        Numbered-take f.after Codes.max_scan (drop f.after events)
          (Numbered-skip f.after events v.numbered (omega arith)) in
      let small = All-take IsSmall Codes.max_scan _ (All-drop IsSmall f.after events v.small) in
      let t =
        fetch_loop-Taken f [] window f.after (start f.after) st (start-Inv f) refl (λ x m. absurd m)
          numbered small room run in
      record {
        taken = t.taken;
        rest = t.rest ++ drop Codes.max_scan (drop f.after events);
        parts =
            sym (take-append-drop Codes.max_scan (drop f.after events))
            ∙ ap (λ z. z ++ drop Codes.max_scan (drop f.after events)) t.parts
            ∙ append_assoc t.taken t.rest _;
        inv = t.inv;
        at = t.at;
        in_reach = omega arith;
      }
]
