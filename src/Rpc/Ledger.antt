-- ===== src/Rpc/Ledger.antt =====
-- The invariant of the scheduler's calls and replies, and the moves that the operations make of.
use velo_bus.Prelude.{
  ℕ, suc, ◌+◌, ◌<◌, ◌≤◌, ◌^◌, ◌≡◌, ◌≢◌, inl, inr, refl, sym, ap, subst, ◌∙◌, true, List, [], ◌∷◌,
  ◌++◌, arith, ◌==◌, lookup, update, erase, some, All, All-append, length, length-append,
  Bool-cases,
}
use velo_bus.Protocol.Types.{◌+u64◌}
use velo_bus.Rpc.{Reply, Call, ◌-u64◌}
use velo_bus.Rpc.Keys.{
  Absent, Unique, All-erase, erase-Unique, erase_missing, All-update, update-Unique, length-update,
  push-Unique, lookup-erase, lookup-update, lookup-push,
}

-- The bytes retained by the calls, without wrap-around.
unfoldable pub retained_total : List (ℕ × Call) → ℕ
retained_total [] = 0
retained_total ((id, c) ∷ m) = c.retained_bytes + retained_total m

-- Which calls may still be answered: those with a sender, and these have not been.
abbrev pub Unanswered : List (ℕ × Call) → List (ℕ × Reply) → Type 0
Unanswered calls sent =
    (id : ℕ) (c : Call) → lookup ◌==◌ id calls ≡ some c → c.response ≡ true → Absent id sent

-- Of the calls, the next id, the count of bytes, the two limits, and the replies sent: ids are
-- unique and below the next one, the count is the sum and within the limit, the calls are within
-- theirs, and no call has two replies.
pub record Ledger (calls : List (ℕ × Call)) (next_id retained max_calls max_bytes : ℕ)
    (sent : List (ℕ × Reply)) : Type 0 where
  pub unique : Unique calls
  pub fresh : All (λ e. e.0 < next_id) calls
  pub counted : retained ≡ retained_total calls
  pub budget : retained ≤ max_bytes
  pub word : max_bytes < 2 ^ 64
  pub number : length calls ≤ max_calls
  pub once : Unique sent
  pub sent_fresh : All (λ e. e.0 < next_id) sent
  pub unanswered : Unanswered calls sent

erase-total :
    (id : ℕ) (m : List (ℕ × Call)) (c : Call)
    → Unique m
    → lookup ◌==◌ id m ≡ some c
    → (c.retained_bytes + retained_total (erase ◌==◌ id m) ≡ retained_total m)
      × (suc (length (erase ◌==◌ id m)) ≡ length m)
unfolding lookup erase retained_total
erase-total id [] c u h = cc
erase-total id ((j, a) ∷ m) c (n, u) h = elim (Bool-cases (id == j)) [
  | inl e ↦
      let same : a ≡ c = ground (arith, h) in
      let n' : Absent id m = let ej : j ≡ id = ground arith in subst (λ i. Absent i m) ej n in
      let gone = erase_missing id m n' in
      rw (e, gone) (ap (λ (z : Call). z.retained_bytes + retained_total m) (sym same), refl)
  | inr e ↦ let (t, l) = erase-total id m c u (rw e at h) in rw e (omega (arith, t), ap suc l)
]

-- An update that leaves the bytes of a call as they are.
update-total :
    (id : ℕ) (f : Call → Call) (m : List (ℕ × Call))
    → ((c : Call) → (f c).retained_bytes ≡ c.retained_bytes)
    → retained_total (update ◌==◌ id f m) ≡ retained_total m
unfolding update retained_total
update-total id f [] same = refl
update-total id f ((j, a) ∷ m) same = elim (Bool-cases (id == j)) [
  | inl e ↦ rw e (omega (arith, same a, update-total id f m same))
  | inr e ↦ rw e (omega (arith, update-total id f m same))
]

retained_total-append :
    (xs ys : List (ℕ × Call)) → retained_total (xs ++ ys) ≡ retained_total xs + retained_total ys
unfolding retained_total
retained_total-append [] ys = omega arith
retained_total-append ((id, c) ∷ xs) ys = omega (arith, retained_total-append xs ys)

below_next_id :
    {A : Type 0} (k n : ℕ) (m : List (ℕ × A)) → n ≤ k → All (λ e. e.0 < n) m → Absent k m
below_next_id k n [] le h = tt
below_next_id k n (e ∷ m) le (lt, h) =
    ((λ same. absurd (omega (arith, lt, same))), below_next_id k n m le h)

below_next :
    {A : Type 0} (n : ℕ) (m : List (ℕ × A)) → All (λ e. e.0 < n) m → All (λ e. e.0 < n + 1) m
below_next n [] h = tt
below_next n (e ∷ m) (lt, h) = (omega arith, below_next n m h)

module _ (calls : List (ℕ × Call)) (next_id retained max_calls max_bytes : ℕ)
    (sent : List (ℕ × Reply)) (l : Ledger calls next_id retained max_calls max_bytes sent) where
  -- A call is taken out.
  pub erase-Ledger :
      (id : ℕ) (c : Call)
      → lookup ◌==◌ id calls ≡ some c
      → Ledger
          (erase ◌==◌ id calls)
          next_id
          (retained -u64 c.retained_bytes)
          max_calls
          max_bytes
          sent
  erase-Ledger id c h =
      let (t, n) = erase-total id calls c l.unique h in
      record {
        unique = erase-Unique id calls l.unique;
        fresh = All-erase (λ e. e.0 < next_id) id calls l.fresh;
        counted = omega (arith, t, l.counted, l.budget, l.word);
        budget = omega (arith, t, l.counted, l.budget, l.word);
        word = l.word;
        number = omega (arith, n, l.number);
        once = l.once;
        sent_fresh = l.sent_fresh;
        unanswered =
            λ i d found open_d. l.unanswered i d (lookup-erase i id calls d found).1 open_d;
      }

  -- A call is changed, but neither its bytes nor, where it was gone, its sender.
  pub update-Ledger :
      (id : ℕ) (f : Call → Call)
      → ((c : Call) → (f c).retained_bytes ≡ c.retained_bytes)
      → ((c : Call) → (f c).response ≡ true → c.response ≡ true)
      → Ledger (update ◌==◌ id f calls) next_id retained max_calls max_bytes sent
  update-Ledger id f same opens = record {
    unique = update-Unique id f calls l.unique;
    fresh = All-update (λ e. e.0 < next_id) id f calls (λ j a b h. h) l.fresh;
    counted = l.counted ∙ sym (update-total id f calls same);
    budget = l.budget;
    word = l.word;
    number = omega (arith, length-update id f calls, l.number);
    once = l.once;
    sent_fresh = l.sent_fresh;
    unanswered = λ i d found open_d.
        let (d0, found0, how) = lookup-update i id f calls d found in
        l.unanswered i d0 found0 (elim how [
          | inl e ↦ subst (λ (z : Call). z.response ≡ true) e open_d
          | inr (_, e) ↦ opens d0 (subst (λ (z : Call). z.response ≡ true) e open_d)
        ]);
  }

  -- The caller of an id that no call with a sender has, and that has no reply yet, is answered.
  pub send-Ledger :
      (id : ℕ) (r : Reply)
      → id < next_id
      → Absent id sent
      → ((d : Call) → lookup ◌==◌ id calls ≡ some d → d.response ≡ true → ⊥)
      → Ledger calls next_id retained max_calls max_bytes (sent ++ (id, r) ∷ [])
  send-Ledger id r lt absent closed = record {
    unique = l.unique;
    fresh = l.fresh;
    counted = l.counted;
    budget = l.budget;
    word = l.word;
    number = l.number;
    once = push-Unique id r sent l.once absent;
    sent_fresh = All-append (λ e. e.0 < next_id) sent ((id, r) ∷ []) l.sent_fresh (lt, tt);
    unanswered = λ i d found open_d.
        All-append (λ e. e.0 ≢ i) sent ((id, r) ∷ []) (l.unanswered i d found open_d)
          (
            (λ same. closed d (subst (λ j. lookup ◌==◌ j calls ≡ some d) (sym same) found) open_d),
            tt,
          );
  }

  -- A call with the next id is put in.
  pub push-Ledger :
      (c : Call)
      → retained + c.retained_bytes ≤ max_bytes
      → length calls < max_calls
      → Ledger
          (calls ++ (next_id, c) ∷ [])
          (next_id + 1)
          (retained +u64 c.retained_bytes)
          max_calls
          max_bytes
          sent
  unfolding retained_total
  push-Ledger c room few = record {
    unique =
        push-Unique next_id c calls l.unique
          (below_next_id next_id next_id calls (omega arith) l.fresh);
    fresh =
        All-append (λ e. e.0 < next_id + 1) calls ((next_id, c) ∷ [])
          (below_next next_id calls l.fresh) (omega arith, tt);
    counted = omega (arith, retained_total-append calls ((next_id, c) ∷ []), l.counted, l.word);
    budget = omega (arith, l.word);
    word = l.word;
    number = omega (arith, length-append calls ((next_id, c) ∷ []));
    once = l.once;
    sent_fresh = below_next next_id sent l.sent_fresh;
    unanswered = λ i d found open_d. elim (lookup-push i next_id c calls d found) [
      | inl old ↦ l.unanswered i d old open_d
      | inr (e, _) ↦
          subst (λ j. Absent j sent) (sym e)
            (below_next_id next_id next_id sent (omega arith) l.sent_fresh)
    ];
  }
