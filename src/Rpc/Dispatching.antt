-- ===== src/Rpc/Dispatching.antt =====
-- rpc.rs `try_take`: what a job that is handed out has to do with the call that waited.
use velo_bus.Prelude.{
  ℕ, ◌-◌, ◌*◌, ◌<◌, ◌≤◌, ◌^◌, ◌≡◌, ◌≢◌, ◌⊎◌, inl, inr, refl, sym, ap, subst, ◌∙◌, ◌==◌, ==_iff,
  arith, lookup, update, erase, none, some, Bool-cases, Option-cases, List-cases, leb, bytes_eq, In,
}
use velo_bus.Protocol.Types.{Bytes, ok, err}
use velo_bus.Rpc.{Worker, Call, State, Job, ◌-u64◌, find_call, find_route, find_worker}
use velo_bus.Rpc.Keys.{lookup-update_self}
use velo_bus.Rpc.Lookups.{found-update, found-erase}
use velo_bus.Rpc.Calls.{remove, silent, time_out, expire_queued}
use velo_bus.Rpc.Closure.{expire_queued_keeps}
use velo_bus.Rpc.Moves.{release-Quiet}
use velo_bus.Rpc.Requests.{
  Round, returns, continues, panics, assign, set_queue, pop_call, pop_front, take_round,
  remaining_ms,
}
use velo_bus.Rpc.Steps.{Reachable}
use velo_bus.Rpc.Queues.{Waiting, Orderly}
use velo_bus.Rpc.Queues.Removal.{expire_queued-Orderly}
use velo_bus.Rpc.Queues.Sections.{Unqueued, popped-In}
use velo_bus.Rpc.Queues.Panics.{Reachable-Orderly}

-- Milliseconds for nanoseconds: rounded up, one at least and 30,000 at most.
pub record Rounded (left ms : ℕ) : Type 0 where
  pub enough : (left ≤ ms * 1_000_000) ⊎ (ms ≡ 30_000)
  pub tight : (ms - 1) * 1_000_000 < left
  pub bounds : (1 ≤ ms) × (ms ≤ 30_000)

remaining_ms-Rounded :
    (deadline now : ℕ) → now < deadline → Rounded (deadline - now) (remaining_ms deadline now)
unfolding remaining_ms
remaining_ms-Rounded deadline now h = record {
  enough = elim (Bool-cases (leb (deadline - now) 30_000_000_000)) [
    | inl few ↦
        let le : deadline - now ≤ 30_000_000_000 = ground (arith, few) in inl (omega (arith, le, h))
    | inr many ↦
        let gt : 30_000_000_000 < deadline - now = ground (arith, many) in
        inr (omega (arith, gt, h))
  ];
  tight = omega (arith, h);
  bounds = omega arith;
}

-- Two calls that are the same but for their sender.
abbrev Same : Call → Call → Type 0
Same d c =
    (d.owner ≡ c.owner) × (d.route ≡ c.route) × (d.deadline ≡ c.deadline) × (d.payload ≡ c.payload)

-- The calls of a state were there before.
pub record Older (s t : State) : Type 0 where
  pub calls :
      (k : ℕ) (c : Call) → find_call t k ≡ some c → (d : Call) × (find_call s k ≡ some d) × Same d c

remove-found :
    (s : State) (id k : ℕ) (c : Call)
    → find_call (remove s id).1 k ≡ some c
    → find_call s k ≡ some c
unfolding remove
remove-found s id k c f = elim (Option-cases (find_call s id)) [
  | inl e ↦ rw (remove, e) at f
  | inr (d, e) ↦
      let left : State = record s {
        calls = erase ◌==◌ id s.calls;
        retained_bytes = s.retained_bytes -u64 d.retained_bytes;
      } in
      (found-erase ◌==◌ ==_iff k id s.calls c
        (ap (lookup ◌==◌ k) (release-Quiet left id d).calls ∙ (rw (remove, e) at f))).1
]

remove-Older : (s t : State) (id : ℕ) → Older s t → Older s (remove t id).1
remove-Older s t id a = record { calls = λ k c f. a.calls k c (remove-found t id k c f) }

time_out-Older : (s t : State) (id : ℕ) (c : Call) → Older s t → Older s (time_out t id c)
unfolding time_out
time_out-Older s t id c a = elim (Bool-cases c.response) [
  | inr e ↦ rw (time_out, e) a
  | inl e ↦
      rw (time_out, e)
        (record {
          calls = λ k b f.
              let (m, found, how) = found-update ◌==◌ ==_iff k id silent t.calls b f in
              let (d, at, (own, route, deadline, payload)) = a.calls k m found in
              let (own', route', deadline', payload') = like m b how in
              (d, at, (own ∙ own', route ∙ route', deadline ∙ deadline', payload ∙ payload'));
        })
]
  where
    like : {k : ℕ} (m b : Call) → ((k ≢ id) × (b ≡ m)) ⊎ ((k ≡ id) × (b ≡ silent m)) → Same m b
    like m b (inl (_, q)) = same (sym q)
      where
        same : m ≡ b → Same m b
        same r = (
          ap (λ (z : Call). z.owner) r,
          ap (λ (z : Call). z.route) r,
          ap (λ (z : Call). z.deadline) r,
          ap (λ (z : Call). z.payload) r,
        )
    like m b (inr (_, q)) = (
      ap (λ (z : Call). z.owner) (sym q),
      ap (λ (z : Call). z.route) (sym q),
      ap (λ (z : Call). z.deadline) (sym q),
      ap (λ (z : Call). z.payload) (sym q),
    )

expire_queued-Older : (s : State) (name : Bytes) (now : ℕ) → Older s (expire_queued s name now)
expire_queued-Older s name now =
    expire_queued_keeps (Older s) (λ t id a. remove-Older s t id a)
      (λ t id c e a. time_out-Older s t id c a) s name now
      (record { calls = λ k c f. (c, f, (refl, refl, refl, refl)) })

-- A job, the states before and behind the round that hands it out to a worker, and the time: its
-- call waited for a worker of that route, is the worker's now and in no queue any more, and has
-- not reached its deadline; the job has the payload, and the time left, rounded up.
pub record Dispatched (s t : State) (w now : ℕ) (j : Job) : Type 0 where
  pub waited : Call
  pub worker : Worker
  pub found : find_call s j.call_id ≡ some waited
  pub idle : waited.owner ≡ none
  pub there : find_worker s w ≡ some worker
  pub routed : waited.route ≡ worker.route
  pub taken : (c : Call) × (find_call t j.call_id ≡ some c) × (c.owner ≡ some w)
  pub unqueued : Unqueued t j.call_id
  pub live : now < waited.deadline
  pub left : Rounded (waited.deadline - now) j.remaining_ms
  pub content : j.payload ≡ waited.payload

abbrev Hands : State → ℕ → ℕ → Round → Type 0
Hands s w now (returns (ok (some j)) t) = Dispatched s t w now j
Hands s w now (returns (ok none) t) = Unit {0}
Hands s w now (returns (err e) t) = Unit {0}
Hands s w now (continues t) = Unit {0}
Hands s w now panics = Unit {0}

module _ (s : State) (w now : ℕ) (v : Worker) (there : find_worker s w ≡ some v) where
  pop_call-Hands :
      (t : State) (id : ℕ)
      → Older s t
      → Waiting t.calls v.route id
      → Unqueued t id
      → Hands s w now (pop_call t w id now)
  unfolding pop_call
  pop_call-Hands t id a (c, e, own, route) out = elim (Bool-cases (leb c.deadline now)) [
    | inl late ↦ rw (pop_call, e, late) tt
    | inr early ↦ elim (Option-cases (find_worker t w)) [
      | inl left ↦ rw (pop_call, e, early, left) tt
      | inr (u, f) ↦
          let (d, found, (own', route', deadline, payload)) = a.calls id c e in
          let live : now < c.deadline = ground (arith, early) in
          rw (pop_call, e, early, f)
            (record {
              waited = d;
              worker = v;
              found = found;
              idle = own' ∙ own;
              there = there;
              routed = route' ∙ route;
              taken = (assign w c, lookup-update_self id (assign w) t.calls c e, refl);
              unqueued = out;
              live = omega (arith, live, deadline);
              left =
                  subst (λ z. Rounded (z - now) (remaining_ms c.deadline now)) (sym deadline)
                    (remaining_ms-Rounded c.deadline now live);
              content = sym payload;
            })
    ]
  ]

  pop_front-Hands : (t : State) → Older s t → Orderly t → Hands s w now (pop_front t w v.route now)
  unfolding pop_front
  pop_front-Hands t a o = elim (Option-cases (find_route t v.route)) [
    | inl e ↦ rw (pop_front, e) tt
    | inr (r, e) ↦ elim (List-cases r.queue) [
      | inl q ↦ simp (pop_front, e, q) tt
      | inr (id, ids, q) ↦
          let out : Unqueued
              (record t { routes = update bytes_eq v.route (set_queue ids) t.routes }) id =
            λ n r' f m. (popped-In t v.route r id ids o e q n r' id f m).1 refl in
          simp (pop_front, e, q)
            (pop_call-Hands (record t { routes = update bytes_eq v.route (set_queue ids) t.routes })
              id (record { calls = a.calls })
              (o.queued v.route r id e (subst (In id) (sym q) (inl refl))) out)
    ]
  ]

take_round-Hands :
    (s : State) (w first second : ℕ) → Orderly s → Hands s w second (take_round s w first second)
unfolding take_round
take_round-Hands s w first second o = elim (Option-cases (find_worker s w)) [
  | inl e ↦ rw (take_round, e) tt
  | inr (v, e) ↦ elim (Bool-cases (leb v.concurrency v.running)) [
    | inl busy ↦ rw (take_round, e, busy) tt
    | inr free ↦
        rw (take_round, e, free)
          (pop_front-Hands s w second v e (expire_queued s v.route first)
            (expire_queued-Older s v.route first) (expire_queued-Orderly s v.route first o))
  ]
]

-- A job that TAKE hands out, in a state that the scheduler can get to, is of a call that waited,
-- with the same payload and deadline, for a worker of that route, has not reached its deadline at
-- the clock's last reading, is owned by that worker from then on, and is in no queue any more; and
-- the job has the milliseconds left, rounded up, between 1 and 30,000. The byte limit fits 64 bits.
pub take_round-Dispatched :
    (max_calls max_bytes : ℕ) (s t : State) (w first second : ℕ) (j : Job)
    → max_bytes < 2 ^ 64
    → Reachable max_calls max_bytes s
    → take_round s w first second ≡ returns (ok (some j)) t
    → Dispatched s t w second j
take_round-Dispatched max_calls max_bytes s t w first second j word r h =
    subst (Hands s w second) h
      (take_round-Hands s w first second (Reachable-Orderly max_calls max_bytes s word r))
