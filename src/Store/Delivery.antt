-- ===== src/Store/Delivery.antt =====
-- store.rs `fetch` against docs/PROTOCOL.md: what a reader of the history is promised.
use velo_bus.Prelude.{
  ℕ, suc, ◌+◌, ◌≤◌, ◌<◌, ◌≡◌, ◌⊎◌, ◌↔◌, inl, inr, refl, sym, ap, subst, true, false, List, [], ◌∷◌,
  ◌++◌, arith, ltb, length, length-append, length-take, length-drop, take, drop, take-append-drop,
  In, In-append, In-append_left, In-drop,
}
use velo_bus.Protocol.Codes
use velo_bus.Protocol.Types.{Error, Result, ok, err, Event, Fetch}
use velo_bus.Protocol.Consumes.{ok-injective, err-ne-ok}
use velo_bus.Store.Fetch.{topic_matches, Scan, sort_events, scan_events, FetchResult, fetch_result}
use velo_bus.Store.Scanning.{Numbered, total, Covered}
use velo_bus.Store.Sorting.{Ascending, sort_events-In, sort_events-Ascending, total-sort_events}
use velo_bus.Store.Fetching.{IsHistory, Scanned, scan_events-Scanned, Numbered-skip, Numbered-take}
use velo_bus.Store.{Store}
use velo_bus.Store.Operations.{fetch}

Numbered-bounds :
    (n : ℕ) (es : List Event) (e : Event)
    → Numbered n es
    → In e es
    → (n < e.sequence) × (e.sequence ≤ n + length es)
Numbered-bounds n [] e num h = absurd h
Numbered-bounds n (x ∷ es) e (s, num) (inl now) = omega (arith, ap (λ (z : Event). z.sequence) now)
Numbered-bounds n (x ∷ es) e (s, num) (inr h) = omega (arith, Numbered-bounds (suc n) es e num h)

Numbered-append :
    (n : ℕ) (xs ys : List Event)
    → Numbered n (xs ++ ys)
    → Numbered n xs × Numbered (n + length xs) ys
Numbered-append n [] ys h = let e : n ≡ n + 0 = omega arith in (tt, subst (λ m. Numbered m ys) e h)
Numbered-append n (x ∷ xs) ys (s, h) =
    let (hx, hy) = Numbered-append (suc n) xs ys h in
    let e : suc n + length xs ≡ n + suc (length xs) = omega arith in
    ((s, hx), subst (λ m. Numbered m ys) e hy)

module _ (f : Fetch) (events : List Event) (st : Scan) (v : IsHistory events)
    (t : Scanned f events st) where
  tail-Numbered : Numbered f.after (t.taken ++ t.rest)
  tail-Numbered =
      subst (Numbered f.after) t.parts (Numbered-skip f.after events v.numbered t.in_reach)

  taken-Numbered : Numbered f.after t.taken
  taken-Numbered = (Numbered-append f.after t.taken t.rest tail-Numbered).0

  rest-Numbered : Numbered (f.after + length t.taken) t.rest
  rest-Numbered = (Numbered-append f.after t.taken t.rest tail-Numbered).1

  taken-In : (e : Event) → In e t.taken → In e events
  taken-In e h =
      In-drop e f.after events (subst (In e) (sym t.parts) (In-append_left e t.taken t.rest h))

  -- An event of the history between `after` and the cursor was scanned.
  In-taken :
      (e : Event) → In e events → f.after < e.sequence → e.sequence ≤ st.cursor → In e t.taken
  In-taken e h lo hi =
      elim (In-append e (take f.after events) (drop f.after events)
        (subst (In e) (sym (take-append-drop f.after events)) h)) [
          | inl early ↦ absurd (
              omega (
                arith,
                lo,
                Numbered-bounds 0 (take f.after events) e
                    (Numbered-take 0 f.after events v.numbered) early,
                length-take f.after events,
              ))
          | inr later ↦ elim (In-append e t.taken t.rest (subst (In e) t.parts later)) [
            | inl here ↦ here
            | inr beyond ↦
                absurd (omega (arith, hi, t.at, Numbered-bounds _ t.rest e rest-Numbered beyond))
          ]
        ]

  cursor_bounds : (f.after ≤ st.cursor) × (st.cursor ≤ length events)
  cursor_bounds = omega (
    arith,
    t.at,
    t.in_reach,
    length-drop f.after events,
    ap length t.parts,
    length-append t.taken t.rest,
  )

pub Result-cases : (o : Result Scan) → ((st : Scan) × (o ≡ ok st)) ⊎ ((e : Error) × (o ≡ err e))
Result-cases (ok st) = inl (st, refl)
Result-cases (err e) = inr (e, refl)

-- A successful FETCH is the result of a scan of the history.
pub fetch-Scanned :
    (s : Store) (f : Fetch) (r : FetchResult)
    → IsHistory s.events
    → f.max_bytes ≤ Codes.max_fetch_bytes
    → (fetch s f).0 ≡ ok r
    → (st : Scan) × (r ≡ fetch_result s.events st) × Scanned f s.events st
unfolding fetch
fetch-Scanned s f r v room h = elim (Result-cases (scan_events f s.events)) [
  | inl (st, e) ↦
      let g : ok (fetch_result s.events st) ≡ ok r = rw (fetch, e) at h in
      (st, sym (ok-injective g), scan_events-Scanned f s.events st v room e)
  | inr (x, e) ↦ let g : err x ≡ ok r = rw (fetch, e) at h in absurd (err-ne-ok g)
]

-- The events that FETCH with `f` may return, of a history, up to a cursor.
pub record Eligible (f : Fetch) (events : List Event) (cursor : ℕ) (e : Event) : Type 0 where
  pub kept : In e events
  pub after : f.after < e.sequence
  pub before : e.sequence ≤ cursor
  pub matches : topic_matches f e ≡ true

module _ (s : Store) (f : Fetch) (r : FetchResult) (v : IsHistory s.events)
    (room : f.max_bytes ≤ Codes.max_fetch_bytes) (h : (fetch s f).0 ≡ ok r) where
  -- A successful FETCH, on a history as it should be, with a byte budget of at most
  -- 524,288, moves the cursor forward only and within the history, and says that there
  -- is more exactly when the cursor is before the end. It returns events by ascending sequence,
  -- at most `limit` of them, of at most `max_bytes` together.
  pub fetch-bounds :
      (f.after ≤ r.cursor)
      × (r.cursor ≤ length s.events)
      × (r.has_more ≡ ltb r.cursor (length s.events))
      × Ascending r.events
      × (length r.events ≤ f.limit)
      × (total r.events ≤ f.max_bytes)
  unfolding fetch_result
  fetch-bounds =
      let (st, e, t) = fetch-Scanned s f r v room h in
      let (lo, hi) = cursor_bounds f s.events st v t in
      let (bytes, count) = total-sort_events st.selected in
      rw e (
        lo,
        hi,
        refl,
        sort_events-Ascending st.selected t.inv.distinct,
        omega (arith, count, t.inv.count),
        omega (arith, bytes, t.inv.wire, t.inv.budget),
      )

  -- A successful FETCH, on a history as it should be, with a byte budget of at most
  -- 524,288, returns only events of the history, behind `after` and up to the cursor,
  -- that match its topic.
  pub fetch_sound : (e : Event) → In e r.events → Eligible f s.events r.cursor e
  unfolding fetch_result
  fetch_sound e m =
      let (st, eq, t) = fetch-Scanned s f r v room h in
      let m' : In e (sort_events st.selected) = rw eq at m in
      let (scanned, hit) = t.inv.sound e ((sort_events-In e st.selected).1 m') in
      let (lo, hi) = Numbered-bounds f.after t.taken e (taken-Numbered f s.events st v t) scanned in
      record {
        kept = taken-In f s.events st v t e scanned;
        after = lo;
        before = rw eq (omega (arith, hi, t.at));
        matches = hit;
      }

  -- A successful FETCH, on a history as it should be, with a byte budget of at most
  -- 524,288, skips no event: each event of the history behind `after` and up to the
  -- cursor that matches is returned or, in latest mode, superseded by a returned event with a
  -- later sequence, the same topic and the same non-empty key.
  pub fetch_complete : (e : Event) → Eligible f s.events r.cursor e → Covered f r.events e
  unfolding fetch_result
  fetch_complete e ok_e =
      let (st, eq, t) = fetch-Scanned s f r v room h in
      let up : e.sequence ≤ st.cursor = let b = ok_e.before in rw eq at b in
      let scanned = In-taken f s.events st v t e ok_e.kept ok_e.after up in
      let there : (x : Event) → In x st.selected → In x r.events =
        λ x m. rw eq ((sort_events-In x st.selected).0 m) in
      elim (t.inv.covered e scanned ok_e.matches) [
        | inl here ↦ inl (there e here)
        | inr over ↦ inr (record {
          by = over.by;
          chosen = there over.by over.chosen;
          latest = over.latest;
          keyed = over.keyed;
          same = over.same;
          later = over.later;
        })
      ]

  -- Unless it asks for the latest events, a successful FETCH, on a history as it should be, with a
  -- byte budget of at most 524,288, returns exactly the matching events
  -- of the history behind `after` and up to the cursor.
  pub fetch-exact : f.latest ≡ false → (e : Event) → In e r.events ↔ Eligible f s.events r.cursor e
  fetch-exact all e = (
    fetch_sound e,
    λ ok_e. elim (fetch_complete e ok_e) [
      | inl here ↦ here
      | inr over ↦ absurd (ground (arith, over.latest, all))
    ],
  )
