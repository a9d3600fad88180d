-- ===== src/Store/Selecting.antt =====
-- store.rs `fetch`: selecting an event keeps the invariant of the loop.
use velo_bus.Prelude.{
  ℕ, ◌+◌, ◌≤◌, ◌<◌, ◌≡◌, ◌≢◌, inl, inr, refl, sym, ap, subst, ◌∙◌, true, List, [], ◌∷◌, ◌++◌, arith,
  length, length-append, length-set, set, get_elem?, none, some, In, In-append, In-append_left,
  In-append_right, In-get_elem?, In-set, In-set_new, In-set_old,
}
use velo_bus.Protocol.Types.{Event, Fetch, wire_bytes}
use velo_bus.Store.Fetch.{
  topic_matches, coalesces, position_of, Scan, replaced, previous_bytes, select_event,
}
use velo_bus.Store.Scanning.{
  total, total-append, total-set, SameKey, SameKey-trans, SameKey-sym, Superseded, Covered,
  Points-next, Points-set, Inv, Distinct-append, Distinct-set, Apart, Apart-newest,
}

-- An event that is appended covers itself, and what was covered stays covered.
Covered-append :
    (f : Fetch) (selected : List Event) (e x : Event)
    → Covered f selected x
    → Covered f (selected ++ e ∷ []) x
Covered-append f selected e x (inl h) = inl (In-append_left x selected (e ∷ []) h)
Covered-append f selected e x (inr s) = inr (record {
  by = s.by;
  chosen = In-append_left s.by selected (e ∷ []) s.chosen;
  latest = s.latest;
  keyed = s.keyed;
  same = s.same;
  later = s.later;
})

module _ (f : Fetch) (selected : List Event) (i : ℕ) (old e : Event)
    (at_i : get_elem? selected i ≡ some old) (same : SameKey old e) (latest : f.latest ≡ true)
    (keyed : e.content.key ≢ []) (later : old.sequence < e.sequence) where
  -- What the overwritten event stood for, the new one supersedes.
  Superseded-old :
      (x : Event) → SameKey old x → x.sequence ≤ old.sequence → Superseded f (set selected i e) x
  Superseded-old x ox le = record {
    by = e;
    chosen = In-set_new old e selected i at_i;
    latest = latest;
    keyed = λ none_key. keyed (sym same.key ∙ ox.key ∙ none_key);
    same = SameKey-trans (SameKey-sym same) ox;
    later = omega arith;
  }

  Covered-set : (x : Event) → Covered f selected x → Covered f (set selected i e) x
  Covered-set x (inl h) = elim (In-set_old x old e selected i at_i h) [
    | inl kept ↦ inl kept
    | inr gone ↦ inr (
        Superseded-old x (subst (SameKey old) (sym gone) (record { topic = refl; key = refl }))
          (subst (λ z. z.sequence ≤ old.sequence) (sym gone) (omega arith)))
  ]
  Covered-set x (inr s) = elim (In-set_old s.by old e selected i at_i s.chosen) [
    | inl kept ↦ inr (record {
      by = s.by;
      chosen = kept;
      latest = s.latest;
      keyed = s.keyed;
      same = s.same;
      later = s.later;
    })
    | inr gone ↦ inr (
        Superseded-old x (subst (λ z. SameKey z x) gone s.same)
          (subst (λ z. x.sequence ≤ z.sequence) gone (omega (arith, s.later))))
  ]

coalesces-true :
    (f : Fetch) (e : Event) → coalesces f e ≡ true → (f.latest ≡ true) × (e.content.key ≢ [])
unfolding coalesces
coalesces-true f e h = (ground arith, λ k. ground (arith, ap length k))

pub replaced-some :
    (f : Fetch) (st : Scan) (e : Event) (i : ℕ)
    → replaced f st e ≡ some i
    → (coalesces f e ≡ true) × (position_of st.positions e ≡ some i)
unfolding replaced
replaced-some f st e i h = ground arith

module _ (f : Fetch) (done : List Event) (st : Scan) (e : Event) (v : Inv f done st)
    (newest : (x : Event) → In x done → x.sequence < e.sequence)
    (m : topic_matches f e ≡ true) where
  apart : Apart e st.selected
  apart = Apart-newest st.selected e (λ x h. newest x (v.sound x h).0)

  -- The event takes the place of an earlier one with its topic and key.
  pub replace-Inv :
      (i wire : ℕ)
      → replaced f st e ≡ some i
      → wire + previous_bytes st (some i) ≡ st.wire + wire_bytes e.content
      → wire ≤ f.max_bytes
      → Inv f (done ++ e ∷ []) (select_event f st e (some i) wire)
  unfolding select_event
  replace-Inv i wire r sums fits =
      let (c, p) = replaced-some f st e i r in
      let (old, at_i, same) = v.points e i p in
      let (latest, keyed) = coalesces-true f e c in
      let previous : wire + wire_bytes old.content ≡ st.wire + wire_bytes e.content =
        ground (arith, sums, at_i) in
      let later = newest old (v.sound old (In-get_elem? old st.selected i at_i)).0 in
      record {
        covered = λ x h mx. elim (In-append x done (e ∷ []) h) [
          | inl before ↦
              Covered-set f st.selected i old e at_i same latest keyed later x
                (v.covered x before mx)
          | inr (inl now) ↦ inl (
              subst (λ z. In z (set st.selected i e)) (sym now)
                (In-set_new old e st.selected i at_i))
          | inr (inr never) ↦ absurd never
        ];
        sound = λ x h. elim (In-set x e st.selected i h) [
          | inl before ↦ let (d, mx) = v.sound x before in (In-append_left x done (e ∷ []) d, mx)
          | inr now ↦
              subst (λ z. In z (done ++ e ∷ []) × (topic_matches f z ≡ true)) (sym now)
                (In-append_right e done (e ∷ []) (inl refl), m)
        ];
        distinct = Distinct-set st.selected i e v.distinct apart;
        points = Points-set st.positions st.selected i old e at_i same v.points;
        wire = omega (arith, total-set st.selected i old e at_i, v.wire, previous);
        budget = fits;
        count = rw (length-set st.selected i e) v.count;
      }

  -- The event is a further one.
  pub push-Inv :
      (wire : ℕ)
      → replaced f st e ≡ none
      → wire ≡ st.wire + wire_bytes e.content
      → wire ≤ f.max_bytes
      → length st.selected ≢ f.limit
      → Inv f (done ++ e ∷ []) (select_event f st e none wire)
  unfolding select_event total
  push-Inv wire r sums fits room = record {
    covered = λ x h mx. elim (In-append x done (e ∷ []) h) [
      | inl before ↦ Covered-append f st.selected e x (v.covered x before mx)
      | inr (inl now) ↦ inl (
          subst (λ z. In z (st.selected ++ e ∷ [])) (sym now)
            (In-append_right e st.selected (e ∷ []) (inl refl)))
      | inr (inr never) ↦ absurd never
    ];
    sound = λ x h. elim (In-append x st.selected (e ∷ []) h) [
      | inl before ↦ let (d, mx) = v.sound x before in (In-append_left x done (e ∷ []) d, mx)
      | inr (inl now) ↦
          subst (λ z. In z (done ++ e ∷ []) × (topic_matches f z ≡ true)) (sym now)
            (In-append_right e done (e ∷ []) (inl refl), m)
      | inr (inr never) ↦ absurd never
    ];
    distinct = Distinct-append st.selected e v.distinct apart;
    points = Points-next (coalesces f e) st.positions st.selected e v.points;
    wire = omega (arith, total-append st.selected (e ∷ []), v.wire);
    budget = fits;
    count = omega (arith, length-append st.selected (e ∷ []), v.count);
  }
