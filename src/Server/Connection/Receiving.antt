-- ===== src/Server/Connection/Receiving.antt =====
-- main.rs `connection`: the arm of the main loop for a frame keeps the balance.
use velo_bus.Prelude.{
  true_is_not_false, ℕ, ◌+◌, ◌-◌, ◌≤◌, ◌≡◌, refl, sym, ap, subst, ◌∙◌, inl, inr, Bool, true, false,
  not, List, [], ◌∷◌, ◌++◌, ◌==◌, if◌then◌else◌, contains_id, none, some, length-append, arith,
  Bool-cases, Option-cases,
}
use velo_bus.Protocol.Codes
use velo_bus.Protocol.Types.{Bytes, Error, Result, ok, err, Request}
use velo_bus.Protocol.Types
use velo_bus.Protocol.Decode.{decode_request}
use velo_bus.Server.Connection.{
  Operation, reading, awaiting, ended, Connection, request_error, error_response, answer_error,
  spawn, receive_new, receive, held,
}
use velo_bus.Server.Connection.Counts.{
  occurs, of_operation, of_response, asks, awaited, Going, total, total-append, contains_id-append,
  in_flight, Balanced,
}

reading-ne-ended : reading ≡ ended → ⊥
reading-ne-ended h = cc

-- An id that was not in flight is in flight once.
one_more :
    (n k id : ℕ) (ids : List ℕ)
    → n ≤ (if contains_id k ids then 1 else 0)
    → contains_id id ids ≡ false
    → n + occurs k id ≤ (if contains_id k (ids ++ id ∷ []) then 1 else 0)
one_more n k id ids h absent = elim (Bool-cases (k == id)) [
  | inl e ↦
      let same : k ≡ id = ground (arith, e) in
      let gone : contains_id k ids ≡ false = ap (λ z. contains_id z ids) same ∙ absent in
      ground (arith, contains_id-append k id ids, h, gone, e)
  | inr e ↦ ground (arith, contains_id-append k id ids, h, e)
]

-- Nothing is lost while the loop reads.
pub unlost_reading : (c : Connection) → Balanced c → c.loop ≡ reading → c.lost ≡ []
unlost_reading c b r = b.unlost (λ e. reading-ne-ended (sym r ∙ e))

-- An error of a frame, with the permit that was taken for it, if any.
answer_error-Balanced :
    (c : Connection) (id : ℕ) (e : Error) (ids : List ℕ) (left : ℕ) (permit close : Bool)
    → Balanced c
    → c.loop ≡ reading
    → left + (if permit then 1 else 0) ≡ c.permits
    → (close ≡ false → (contains_id id c.ids ≡ false) × (ids ≡ c.ids ++ id ∷ []))
    → Balanced (
        answer_error
          (record c { received = c.received ++ id ∷ []; ids = ids; permits = left })
          id
          e
          permit
          close)
answer_error-Balanced c id e ids left permit close b r p fresh =
    let new = error_response id e permit in
    record {
      permits = omega (arith, total-append held c.queued (new ∷ []), b.permits, p);
      answers = λ k. omega (
        arith,
        b.answers k,
        total-append (of_response k) c.queued (new ∷ []),
        total-append (occurs k) c.received (id ∷ []),
      );
      unlost = λ _. unlost_reading c b r;
      live = λ going k. sent_live close going fresh k;
      receipts = omega (arith, b.receipts, ap awaited r, total-append asks c.queued (new ∷ []));
    }
  where
    sent_live :
        (close' : Bool)
        → Going (awaiting close')
        → (close' ≡ false → (contains_id id c.ids ≡ false) × (ids ≡ c.ids ++ id ∷ []))
        → (k : ℕ)
        → total (of_operation k) c.running
            + total (of_response k) (c.queued ++ error_response id e permit ∷ [])
          ≤ (if contains_id k ids then 1 else 0)
    sent_live true going fresh' k = absurd going
    sent_live false going fresh' k =
        let (absent, grown) = fresh' refl in
        let old = one_more (in_flight k c) k id c.ids (b.live (subst Going (sym r) tt) k) absent in
        rw grown (
          omega
            (arith, old, total-append (of_response k) c.queued (error_response id e permit ∷ [])))

spawn-Balanced :
    (c : Connection) (opcode id : ℕ) (q : Request)
    → Balanced c
    → c.loop ≡ reading
    → (c.permits == 0) ≡ false
    → contains_id id c.ids ≡ false
    → Balanced (
        spawn
          (record c {
            received = c.received ++ id ∷ [];
            ids = c.ids ++ id ∷ [];
            permits = c.permits - 1;
          })
          opcode
          id
          (ok q))
unfolding spawn
spawn-Balanced c opcode id q b r left absent =
    let new : Operation = record { opcode = opcode; request_id = id; request = q } in
    record {
      permits = omega (arith, length-append c.running (new ∷ []), b.permits, positive);
      answers = λ k. omega (
        arith,
        b.answers k,
        total-append (of_operation k) c.running (new ∷ []),
        total-append (occurs k) c.received (id ∷ []),
      );
      unlost = b.unlost;
      live = λ _ k.
          let old =
            one_more (in_flight k c) k id c.ids (b.live (subst Going (sym r) tt) k) absent in
          omega (arith, old, total-append (of_operation k) c.running (new ∷ []));
      receipts = b.receipts;
    }
  where
    positive : 1 ≤ c.permits
    positive = ground (arith, left)

unless : (b : Bool) (e : Error) → (if b then some e else none) ≡ none → b ≡ false
unless true e h = cc
unless false e h = refl

request_error-none :
    (no_permit : Bool) (r : Result Request)
    → request_error no_permit r ≡ none
    → (no_permit ≡ false) × ((q : Request) × (r ≡ ok q))
unfolding request_error
request_error-none no_permit (ok (Types.hello version token)) h = cc
request_error-none no_permit (ok (Types.publish rs)) h =
    (unless no_permit _ h, (Types.publish rs, refl))
request_error-none no_permit (ok (Types.fetch f)) h = (unless no_permit _ h, (Types.fetch f, refl))
request_error-none no_permit (ok Types.stats) h = (unless no_permit _ h, (Types.stats, refl))
request_error-none no_permit (ok Types.ping) h = (unless no_permit _ h, (Types.ping, refl))
request_error-none no_permit (ok (Types.register route n m)) h =
    (unless no_permit _ h, (Types.register route n m, refl))
request_error-none no_permit (ok (Types.rpc route n payload)) h =
    (unless no_permit _ h, (Types.rpc route n payload, refl))
request_error-none no_permit (ok (Types.take n)) h = (unless no_permit _ h, (Types.take n, refl))
request_error-none no_permit (ok (Types.complete n failed payload)) h =
    (unless no_permit _ h, (Types.complete n failed payload, refl))
request_error-none no_permit (err e) h = cc

receive_new-Balanced :
    (c : Connection) (opcode id : ℕ) (r : Result Request)
    → Balanced c
    → c.loop ≡ reading
    → contains_id id c.ids ≡ false
    → Balanced (
        receive_new
          (record c { received = c.received ++ id ∷ []; ids = c.ids ++ id ∷ [] })
          opcode
          id
          r)
unfolding receive_new
receive_new-Balanced c opcode id r b reads absent =
    elim (Option-cases (request_error (c.permits == 0) r)) [
      | inl e ↦
          let (left, (q, f)) = request_error-none (c.permits == 0) r e in
          rw (receive_new, e, f) (spawn-Balanced c opcode id q b reads left absent)
      | inr (e, h) ↦
          rw (receive_new, h)
            (answer_error-Balanced c id e (c.ids ++ id ∷ []) (c.permits - 1) (not (c.permits == 0))
              (e.code == Codes.protocol) b reads (ground arith) (λ _. (absent, refl)))
    ]

pub receive-Balanced :
    (c : Connection) (opcode id : ℕ) (body : Bytes)
    → Balanced c
    → c.loop ≡ reading
    → Balanced (receive c opcode id body)
unfolding receive
receive-Balanced c opcode id body b reads = elim (Bool-cases (contains_id id c.ids)) [
  | inl e ↦
      rw (receive, e)
        (answer_error-Balanced c id _ c.ids c.permits false true b reads (omega arith)
          (λ f. absurd (true_is_not_false f)))
  | inr e ↦
      rw (receive, e) (receive_new-Balanced c opcode id (decode_request opcode body) b reads e)
]
