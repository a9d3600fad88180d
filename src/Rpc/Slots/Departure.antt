-- ===== src/Rpc/Slots/Departure.antt =====
-- rpc.rs `disconnect`: the calls of a worker that leaves are failed, all of them, and the counts of the
-- others are kept.
use velo_bus.Prelude.{
  ℕ, ◌≡◌, ◌≢◌, refl, sym, ap, subst, ◌∙◌, inl, inr, true, not, List, [], ◌∷◌, ◌++◌, ◌==◌, ==_iff,
  if◌then◌else◌, lookup, update, erase, filter, Option, none, some, bytes_eq, In, arith, Bool-cases,
  Option-cases, length,
}
use velo_bus.Protocol.Types.{Bytes, Error}
use velo_bus.Rpc.{Worker, Call, State, find_worker, find_route}
use velo_bus.Rpc.Keys.{Absent, Unique, All-lookup}
use velo_bus.Rpc.Lookups.{found-erase, lookup-erase_other}
use velo_bus.Rpc.Calls.{remove, fail_removed, fail_each, silence_each}
use velo_bus.Rpc.Sections.{silence_each_keeps}
use velo_bus.Rpc.Routes.{is_owner, ids_of, gone, last_gone, leave_route, worker_left, disconnect}
use velo_bus.Rpc.Moves.{Sound, remove-Removed}
use velo_bus.Rpc.Outcomes.{Stays}
use velo_bus.Rpc.Queues.{notify_route-Alike}
use velo_bus.Rpc.Slots.{owns, owned_by, SlotsBut, Slots}
use velo_bus.Rpc.Slots.Counting.{owned_by-erase, Owning}
use velo_bus.Rpc.Slots.Releases.{
  same-SlotsBut, Books, cancel-Books, fail_removed-Books, fail_each-Books,
}

no_such_call : (id : ℕ) (m : List (ℕ × Call)) (c : Call) → Absent id m → lookup ◌==◌ id m ≢ some c
no_such_call id m c h found = All-lookup (λ e. e.0 ≢ id) id m c h found refl

-- The ids that `disconnect` collects are those of the calls that the worker owns.
ids_of-Owning :
    (w : ℕ) (m : List (ℕ × Call)) → Unique m → Owning w (ids_of (λ x. is_owner w x.owner) m) m
unfolding ids_of owned_by lookup
ids_of-Owning w [] u = record { number = refl; once = tt; each = λ id m. absurd m }
ids_of-Owning w ((j, a) ∷ m) (n, u) =
    let o = ids_of-Owning w m u in
    let rest = ids_of (λ x. is_owner w x.owner) m in
    let behind : (id : ℕ)
        → In id rest
        → (c : Call) × (lookup ◌==◌ id ((j, a) ∷ m) ≡ some c) × (owns w c ≡ 1) =
      λ id i. let (c, found, own) = o.each id i in (c, skip id c found, own) in
    elim (Bool-cases (is_owner w a.owner)) [
      | inl e ↦
          let one : owns w a ≡ 1 = ap (λ z. if z then 1 else 0) e in
          rw e (record {
            number = omega (arith, one, o.number);
            once = ((λ i. let (c, found, _) = o.each j i in no_such_call j m c n found), o.once);
            each = λ id i. first id e (behind id) i;
          })
      | inr e ↦
          let zero_owned : owns w a ≡ 0 = ap (λ z. if z then 1 else 0) e in
          rw e
            (record { number = omega (arith, zero_owned, o.number); once = o.once; each = behind })
    ]
  where
    skip : (id : ℕ) (c : Call) → lookup ◌==◌ id m ≡ some c → lookup ◌==◌ id ((j, a) ∷ m) ≡ some c
    skip id c found = elim (Bool-cases (id == j)) [
      | inl t ↦
          absurd
            (no_such_call j m c n (ap (λ z. lookup ◌==◌ z m) (sym ((==_iff id j).0 t)) ∙ found))
      | inr t ↦ rw t found
    ]

    first :
        (id : ℕ)
        → is_owner w a.owner ≡ true
        → (In id (ids_of (λ x. is_owner w x.owner) m)
            → (c : Call) × (lookup ◌==◌ id ((j, a) ∷ m) ≡ some c) × (owns w c ≡ 1))
        → In id (j ∷ ids_of (λ x. is_owner w x.owner) m)
        → (c : Call) × (lookup ◌==◌ id ((j, a) ∷ m) ≡ some c) × (owns w c ≡ 1)
    first id own later (inl same) =
        let t : (id == j) ≡ true = (==_iff id j).1 same in
        (a, rw t refl, ap (λ z. if z then 1 else 0) own)
    first id own later (inr i) = later i

told-calls :
    (r : Option Call × State) (id : ℕ) (why : Error) → (fail_removed r id why).calls ≡ r.1.calls
unfolding fail_removed
told-calls (none, s) id why = refl
told-calls (some c, s) id why = ground arith

module _ (leaving : ℕ → Type 0) (w : ℕ) (why : Error) where
  -- Once they have been failed, none is left.
  fail_each-none :
      (ids : List ℕ) (s : State)
      → Books leaving s
      → Owning w ids s.calls
      → owned_by w (fail_each s ids why).calls ≡ 0
  unfolding fail_each
  fail_each-none [] s b o = o.number
  fail_each-none (id ∷ ids) s (l, h) o =
      let (c, found, own) = o.each id (inl refl) in
      let next = fail_removed (remove s id) id why in
      let calls : next.calls ≡ erase ◌==◌ id s.calls =
        told-calls (remove s id) id why ∙ (remove-Removed s id c l found).calls in
      let rest : Owning w ids (erase ◌==◌ id s.calls) = record {
        number = omega (arith, o.number, owned_by-erase w id s.calls c l.unique found, own);
        once = o.once.1;
        each = λ k i.
            let (d, at, own_d) = o.each k (inr i) in
            let ne : k ≢ id = λ q. o.once.0 (subst (λ z. In z ids) q i) in
            (d, lookup-erase_other ◌==◌ ==_iff k id s.calls ne ∙ at, own_d);
      } in
      fail_each-none ids next (fail_removed-Books leaving s id why (l, h))
        (subst (Owning w ids) (sym calls) rest)

abbrev Nobody : ℕ → Type 0
Nobody w = ⊥

leave_route-Slots :
    (s : State) (c : ℕ) (name : Bytes) → Sound s → Slots s → Stays Slots (leave_route s c name)
unfolding leave_route
leave_route-Slots s c name l h = elim (Option-cases (find_route s name)) [
  | inl e ↦ rw (leave_route, e) tt
  | inr (r, e) ↦ elim (Bool-cases (length (filter (λ id. not (id == c)) r.workers) == 0)) [
    | inl z ↦
        let closed : State = record s { routes = erase bytes_eq name s.routes } in
        let l' : Sound closed = l in
        rw (leave_route, e, z)
          (fail_each-Books Nobody closed r.queue last_gone
            (l', same-SlotsBut Nobody s closed refl refl h)).1
    | inr z ↦
        let left = filter (λ id. not (id == c)) r.workers in
        let shrunk : State = record s {
          routes = update bytes_eq name (λ r'. record r' { workers = left }) s.routes;
        } in
        let noted = notify_route-Alike shrunk name in
        rw (leave_route, e, z)
          (same-SlotsBut Nobody shrunk _ noted.calls noted.workers
            (same-SlotsBut Nobody s shrunk refl refl h))
  ]
]

worker_left-Slots :
    (s : State) (c : ℕ) (w : Worker) → Sound s → Slots s → Stays Slots (worker_left s c w)
unfolding worker_left
worker_left-Slots s c w l h =
    let resigned : State = record s {
      workers = erase ◌==◌ c s.workers;
      notified = s.notified ++ c ∷ [];
    } in
    let l1 : Sound resigned = l in
    let h1 : SlotsBut (λ k. k ≡ c) resigned = record {
      exact = λ k worker f. h.exact k worker (found-erase ◌==◌ ==_iff k c s.workers worker f).1;
      hired = λ k stays f.
          h.hired k (λ b. b) (sym (lookup-erase_other ◌==◌ ==_iff k c s.workers stays) ∙ f);
    } in
    let ids = ids_of (λ x. is_owner c x.owner) resigned.calls in
    let t = fail_each resigned ids gone in
    let (l2, h2) = fail_each-Books (λ k. k ≡ c) resigned ids gone (l1, h1) in
    let none_left : owned_by c t.calls ≡ 0 =
      fail_each-none (λ k. k ≡ c) c gone ids resigned (l1, h1)
        (ids_of-Owning c resigned.calls l.unique) in
    let h3 : Slots t = record {
      exact = h2.exact;
      hired = λ k stays f. elim (Bool-cases (k == c)) [
        | inl q ↦ ap (λ z. owned_by z t.calls) ((==_iff k c).0 q) ∙ none_left
        | inr q ↦ h2.hired k (λ same. absurd (ground (arith, q, same))) f
      ];
    } in
    leave_route-Slots t c w.route l2 h3

pub disconnect-Slots : (s : State) (c : ℕ) → Sound s → Slots s → Stays Slots (disconnect s c)
unfolding disconnect
disconnect-Slots s c l h =
    let s1 : State = record s { connections = filter (λ x. not (x == c)) s.connections } in
    let ids = ids_of (λ x. x.caller == c) s1.calls in
    let l1 : Sound s1 = l in
    let all =
      silence_each_keeps (Books Nobody) (cancel-Books Nobody) s1 ids
        (l1, same-SlotsBut Nobody s s1 refl refl h) in
    elim (Option-cases (silence_each s1 ids)) [
      | inl q ↦ rw (disconnect, q) tt
      | inr (u, q) ↦
          let (l2, h2) : Books Nobody u = subst (Stays (Books Nobody)) q all in
          elim (Option-cases (find_worker u c)) [
            | inl e ↦ rw (disconnect, q, e) h2
            | inr (w, e) ↦ rw (disconnect, q, e) (worker_left-Slots u c w l2 h2)
          ]
    ]
