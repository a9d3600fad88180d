-- ===== src/Server/Connection/Counts.antt =====
-- main.rs `connection`: what is counted of a connection, and its invariant.
use velo_bus.Prelude.{
  some_injective, ℕ, zero, suc, ◌+◌, ◌≤◌, ◌≡◌, refl, ap, true, false, not, List, [], ◌∷◌, ◌++◌,
  ◌==◌, if◌then◌else◌, filter, contains_id, Option, none, some, get_elem?, length, arith, ◌≢◌,
}
use velo_bus.Protocol.Types.{Bytes}
use velo_bus.Server.Connection.{
  Response, Operation, Loop, reading, awaiting, ended, Connection, opened, remove_at, held,
  total_held, max_in_flight,
}

-- How often a request id is among running operations, responses, and what was received or written.
abbrev pub occurs : ℕ → ℕ → ℕ
occurs id j = if id == j then 1 else 0

abbrev pub of_operation : ℕ → Operation → ℕ
of_operation id o = occurs id o.request_id

abbrev pub of_response : ℕ → Response → ℕ
of_response id r = occurs id r.request_id

abbrev pub of_written : ℕ → ℕ × Bytes → ℕ
of_written id w = occurs id w.0

abbrev pub asks : Response → ℕ
asks r = if r.receipt then 1 else 0

abbrev pub one_of : (Response → ℕ) → Option Response → ℕ
one_of f none = 0
one_of f (some r) = f r

-- The receipts that the main loop waits for.
abbrev pub awaited : Loop → ℕ
awaited reading = 0
awaited (awaiting close) = 1
awaited ended = 0

-- The loop has not ended, nor is it about to.
abbrev pub Going : Loop → Type 0
Going reading = Unit {0}
Going (awaiting false) = Unit {0}
Going (awaiting true) = ⊥
Going ended = ⊥

module _ {A : Type 0} where
  abbrev pub total : (A → ℕ) → List A → ℕ
  total f [] = 0
  total f (x ∷ xs) = f x + total f xs

  pub total-append : (f : A → ℕ) (xs ys : List A) → total f (xs ++ ys) ≡ total f xs + total f ys
  total-append f [] ys = omega arith
  total-append f (x ∷ xs) ys = omega (arith, total-append f xs ys)

  pub total-remove_at :
      (f : A → ℕ) (xs : List A) (i : ℕ) (x : A)
      → get_elem? xs i ≡ some x
      → total f xs ≡ f x + total f (remove_at xs i)
  unfolding remove_at
  total-remove_at f [] i x h = cc
  total-remove_at f (y ∷ ys) zero x h = ap (λ z. f z + total f ys) (some_injective h)
  total-remove_at f (y ∷ ys) (suc i) x h = omega (arith, total-remove_at f ys i x h)

  pub length-remove_at :
      (xs : List A) (i : ℕ) (x : A)
      → get_elem? xs i ≡ some x
      → length xs ≡ suc (length (remove_at xs i))
  unfolding remove_at
  length-remove_at [] i x h = cc
  length-remove_at (y ∷ ys) zero x h = refl
  length-remove_at (y ∷ ys) (suc i) x h = ap suc (length-remove_at ys i x h)

pub contains_id-append :
    (k j : ℕ) (ids : List ℕ)
    → contains_id k (ids ++ j ∷ []) ≡ (if contains_id k ids then true else k == j)
contains_id-append k j [] = ground arith
contains_id-append k j (i ∷ ids) = ground (arith, contains_id-append k j ids)

pub contains_id-filter :
    (k j : ℕ) (ids : List ℕ)
    → contains_id k (filter (λ id. not (id == j)) ids)
      ≡ (if k == j then false else contains_id k ids)
unfolding filter
contains_id-filter k j [] = ground arith
contains_id-filter k j (i ∷ ids) = ground (arith, contains_id-filter k j ids)

-- The operations and responses in flight with an id.
abbrev pub in_flight : ℕ → Connection → ℕ
in_flight id c = total (of_operation id) c.running + total (of_response id) c.queued

pub total_held-total : (rs : List Response) → total_held rs ≡ total held rs
total_held-total [] = refl
total_held-total (r ∷ rs) = ap (λ z. held r + z) (total_held-total rs)

-- The permits left and held make 32; every id is answered, being answered, in flight or lost with
-- the writer as often as it was received, and none is lost before the loop has ended; in flight it is once at most, and its id is live; and the loop waits for just
-- the receipt of its last error.
pub record Balanced (c : Connection) : Type 0 where
  pub permits : c.permits + length c.running + total held c.queued ≡ max_in_flight
  pub answers :
      (id : ℕ)
      → total (occurs id) c.received
        ≡ in_flight id c
          + one_of (of_response id) c.writing
          + total (of_written id) c.written
          + total (of_response id) c.lost
  pub unlost : c.loop ≢ ended → c.lost ≡ []
  pub live : Going c.loop → (id : ℕ) → in_flight id c ≤ (if contains_id id c.ids then 1 else 0)
  pub receipts : total asks c.queued + one_of asks c.writing ≡ awaited c.loop

pub opened-Balanced : Balanced opened
opened-Balanced = record {
  permits = refl;
  answers = λ id. refl;
  unlost = λ _. refl;
  live = λ _ id. omega arith;
  receipts = refl;
}
