-- ===== src/Server/Connection/Writing.antt =====
-- main.rs `connection` and `write_queued_response`: the end of an operation and the moves of the
-- writer keep the balance.
use velo_bus.Prelude.{
  ℕ, ◌+◌, ◌≤◌, ◌≡◌, refl, sym, ap, subst, ◌∙◌, inl, inr, Bool, true, false, not, List, [], ◌∷◌,
  ◌++◌, ◌==◌, if◌then◌else◌, filter, contains_id, none, some, get_elem?, arith, Bool-cases, ◌≢◌,
  Option-cases, List-cases,
}
use velo_bus.Protocol.Types.{Bytes, Result, ok, err}
use velo_bus.Server.{response_frame}
use velo_bus.Server.Connection.{
  Operation, Loop, reading, awaiting, ended, Connection, response_of, finish, held, total_held,
  start_write, fail_write, end_loop, next_loop, end_write,
}
use velo_bus.Server.Connection.Counts.{
  occurs, of_operation, of_response, of_written, asks, one_of, awaited, Going, total, total-append,
  total-remove_at, length-remove_at, contains_id-filter, Balanced, total_held-total,
}

response_of-fields :
    (o : Operation) (result : Result Bytes)
    → (held (response_of o result) ≡ 1)
      × ((response_of o result).request_id ≡ o.request_id)
      × (asks (response_of o result) ≡ 0)
unfolding response_of
response_of-fields o (ok body) = (refl, refl, refl)
response_of-fields o (err e) = (refl, refl, refl)

pub finish-Balanced :
    (c : Connection) (i : ℕ) (result : Result Bytes) → Balanced c → Balanced (finish c i result)
unfolding finish
finish-Balanced c i result b = elim (Option-cases (get_elem? c.running i)) [
  | inl e ↦ rw (finish, e) b
  | inr (o, e) ↦
      let new = response_of o result in
      let (holds, same, silent) = response_of-fields o result in
      let moved : (k : ℕ) → of_response k new ≡ of_operation k o = λ k. ap (occurs k) same in
      rw (finish, e)
        (record {
          permits = omega (
            arith,
            b.permits,
            holds,
            length-remove_at c.running i o e,
            total-append held c.queued (new ∷ []),
          );
          answers = λ k. omega (
            arith,
            b.answers k,
            moved k,
            total-remove_at (of_operation k) c.running i o e,
            total-append (of_response k) c.queued (new ∷ []),
          );
          unlost = b.unlost;
          live = λ going k. omega (
            arith,
            b.live going k,
            moved k,
            total-remove_at (of_operation k) c.running i o e,
            total-append (of_response k) c.queued (new ∷ []),
          );
          receipts = omega (arith, b.receipts, silent, total-append asks c.queued (new ∷ []));
        })
]

-- An id whose response leaves the queue is in flight no more.
retired :
    (k j n m : ℕ) (ids : List ℕ)
    → n + (occurs k j + m) ≤ (if contains_id k ids then 1 else 0)
    → n + m ≤ (if contains_id k (filter (λ id. not (id == j)) ids) then 1 else 0)
retired k j n m ids h = elim (Bool-cases (k == j)) [
  | inl e ↦ ground (arith, h, e, contains_id-filter k j ids)
  | inr e ↦ ground (arith, h, e, contains_id-filter k j ids)
]

pub start_write-Balanced : (c : Connection) → Balanced c → Balanced (start_write c)
unfolding start_write
start_write-Balanced c b = elim (Option-cases c.writing) [
  | inr (r, e) ↦ simp (start_write, e) b
  | inl e ↦ elim (List-cases c.queued) [
    | inl q ↦ simp (start_write, e, q) b
    | inr (r, rs, q) ↦
        let writing : Connection = record c {
          queued = rs;
          writing = some r;
          permits = c.permits + held r;
          ids = filter (λ id. not (id == r.request_id)) c.ids;
        } in
        let done : Balanced writing = record {
          permits = omega (arith, b.permits, ap (total held) q);
          answers = λ k.
              omega
                (arith, b.answers k, ap (one_of (of_response k)) e, ap (total (of_response k)) q);
          unlost = b.unlost;
          live = λ going k.
              retired k r.request_id (total (of_operation k) c.running) (total (of_response k) rs)
                c.ids
                (subst
                  (λ z.
                    total (of_operation k) c.running + total (of_response k) z
                    ≤ (if contains_id k c.ids then 1 else 0))
                  q (b.live going k));
          receipts = omega (arith, b.receipts, ap (one_of asks) e, ap (total asks) q);
        } in
        simp (start_write, e, q) done
  ]
]

next_loop-silent : (l : Loop) → next_loop l false ≡ l
unfolding next_loop
next_loop-silent reading = refl
next_loop-silent (awaiting true) = refl
next_loop-silent (awaiting false) = refl
next_loop-silent ended = refl

next_loop-Going : (l : Loop) (receipt : Bool) → Going (next_loop l receipt) → Going l
unfolding next_loop
next_loop-Going reading receipt g = g
next_loop-Going (awaiting true) true g = g
next_loop-Going (awaiting true) false g = g
next_loop-Going (awaiting false) true g = tt
next_loop-Going (awaiting false) false g = g
next_loop-Going ended receipt g = g

-- What was awaited is what is still awaited and what the receipt settles.
next_loop-awaited :
    (l : Loop) (receipt : Bool) (n : ℕ)
    → n + (if receipt then 1 else 0) ≡ awaited l
    → n + 0 ≡ awaited (next_loop l receipt)
unfolding next_loop
next_loop-awaited reading true n h = omega (arith, h)
next_loop-awaited reading false n h = h
next_loop-awaited (awaiting true) true n h = omega (arith, h)
next_loop-awaited (awaiting true) false n h = h
next_loop-awaited (awaiting false) true n h = omega (arith, h)
next_loop-awaited (awaiting false) false n h = h
next_loop-awaited ended true n h = omega (arith, h)
next_loop-awaited ended false n h = h

pub end_write-Balanced : (c : Connection) → Balanced c → Balanced (end_write c)
unfolding end_write
end_write-Balanced c b = elim (Option-cases c.writing) [
  | inl e ↦ simp (end_write, e) b
  | inr (r, e) ↦
      let w : ℕ × Bytes = (r.request_id, response_frame r.opcode r.request_id r.body) in
      let after_write : Connection = record c {
        writing = none;
        written = c.written ++ w ∷ [];
        loop = next_loop c.loop r.receipt;
      } in
      let done : Balanced after_write = record {
        permits = b.permits;
        answers = λ k. omega (
          arith,
          b.answers k,
          ap (one_of (of_response k)) e,
          total-append (of_written k) c.written (w ∷ []),
        );
        unlost = λ still. b.unlost (λ e. still (ap (λ l. next_loop l r.receipt) e));
        live = λ going k. b.live (next_loop-Going c.loop r.receipt going) k;
        receipts =
            next_loop-awaited c.loop r.receipt (total asks c.queued)
              (ap (λ z. total asks c.queued + one_of asks z) (sym e) ∙ b.receipts);
      } in
      simp (end_write, e) done
]

pub fail_write-Balanced : (c : Connection) → c.loop ≢ ended → Balanced c → Balanced (fail_write c)
unfolding fail_write
fail_write-Balanced c still b = elim (Option-cases c.writing) [
  | inl e ↦ simp (fail_write, e) b
  | inr (r, e) ↦
      let failed : Connection = record c {
        loop = ended;
        permits = c.permits + total_held c.queued;
        queued = [];
        writing = none;
        lost = c.lost ++ r ∷ c.queued;
      } in
      let done : Balanced failed = record {
        permits = omega (arith, b.permits, total_held-total c.queued);
        answers = λ k. omega (
          arith,
          b.answers k,
          ap (one_of (of_response k)) e,
          total-append (of_response k) c.lost (r ∷ c.queued),
        );
        unlost = λ over. absurd (over refl);
        live = λ going k. absurd going;
        receipts = refl;
      } in
      simp (fail_write, e) done
]

pub end_loop-Balanced : (c : Connection) → c.loop ≡ reading → Balanced c → Balanced (end_loop c)
end_loop-Balanced c reads b = record {
  permits = b.permits;
  answers = b.answers;
  unlost = λ over. absurd (over refl);
  live = λ going k. absurd going;
  receipts = b.receipts ∙ ap awaited reads;
}
