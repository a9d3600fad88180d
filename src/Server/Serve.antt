-- ===== src/Server/Serve.antt =====
-- crates/velobus/src/main.rs, lines 158 to 203: `serve` makes the store and the scheduler, and accepts
-- connections, each with an id of its own and a permit that it holds until it ends.
use velo_bus.Prelude.{
  ℕ, zero, suc, ◌+◌, ◌-◌, ◌^◌, ◌≤◌, ◌≡◌, subst, inl, inr, List, [], ◌∷◌, ◌++◌, arith, leb, ◌==◌,
  if◌then◌else◌, length, length-append, All, All-append, In, Option, none, some, get_elem?,
  Bool-cases, Option-cases, All-In,
}
use velo_bus.Protocol.Types.{Bytes, Result, ok, err}
use velo_bus.Wal.{Faults}
use velo_bus.Store.{memory, disk}
use velo_bus.Rpc
use velo_bus.Rpc.Lookups.{Once, push-Once}
use velo_bus.Server.Config.{Config}
use velo_bus.Server.Connection.{remove_at}
use velo_bus.Server.Connection.Counts.{length-remove_at}
use velo_bus.Server.Dispatch.{Broker}

-- The parts that all connections share, at start, or the error of the store; with what is left in
-- the log's file. `none` where the model of the log has no answer.
unfoldable pub start_broker :
    {A : Type 0} → (Bytes → ℕ) → Config A → Faults → Bytes → Option (Result Broker × Bytes)
start_broker crc32 config faults file =
    let rpc = Rpc.new config.max_rpc_calls config.max_rpc_bytes in
    if config.memory
    then some (
      ok (record { store = memory config.max_retained_bytes config.max_wal_bytes; rpc = rpc }),
      file,
    )
    else elim (disk crc32 faults config.max_retained_bytes config.max_wal_bytes file) [
      | none ↦ none
      | some (err e, left) ↦ some (err e, left)
      | some (ok store, left) ↦ some (ok (record { store = store; rpc = rpc }), left)
    ]

-- The permits left of the listener's semaphore, the last id given, and the ids of the connections.
pub record Listener : Type 0 where
  pub permits : ℕ
  pub last_id : ℕ
  pub open_ids : List ℕ

abbrev pub listening : ℕ → Listener
listening max_connections = record { permits = max_connections; last_id = 0; open_ids = [] }

-- A connection is accepted, dropped, or ends the server.
pub data Accepted : Type 0 where
  spawned : Listener → Accepted
  dropped : Accepted
  exhausted : Accepted

-- The arm of the loop for a connection.
unfoldable pub accept_one : Listener → Accepted
accept_one l =
    if l.permits == 0
    then dropped
    else if leb (2 ^ 64) (l.last_id + 1)
    then exhausted
    else spawned (record {
      permits = l.permits - 1;
      last_id = l.last_id + 1;
      open_ids = l.open_ids ++ (l.last_id + 1) ∷ [];
    })

-- The end of a connection's task gives its permit back.
unfoldable pub close_one : Listener → ℕ → Listener
close_one l i = elim (get_elem? l.open_ids i) [
  | none ↦ l
  | some id ↦ record l { permits = l.permits + 1; open_ids = remove_at l.open_ids i }
]

-- What STATS reports as connections.
abbrev pub current_connections : ℕ → Listener → ℕ
current_connections max_connections l = max_connections - l.permits

pub data Serves (max_connections : ℕ) : Listener → Type 0 where
  begins : Serves max_connections (listening max_connections)
  accepts :
      (l m : Listener)
      → Serves max_connections l
      → accept_one l ≡ spawned m
      → Serves max_connections m
  closes :
      (l : Listener) (i : ℕ) → Serves max_connections l → Serves max_connections (close_one l i)

-- Ids of open connections are different, and none is ahead of the last one; permits are held by
-- them alone.
pub record Accounted (max_connections : ℕ) (l : Listener) : Type 0 where
  pub distinct : Once l.open_ids
  pub given : All (λ id. id ≤ l.last_id) l.open_ids
  pub permits : l.permits + length l.open_ids ≡ max_connections

later : (n : ℕ) (ids : List ℕ) → All (λ id. id ≤ n) ids → All (λ id. id ≤ n + 1) ids
later n [] h = tt
later n (id ∷ ids) (le, h) = (omega (arith, le), later n ids h)

remove_at-In : (x : ℕ) (ids : List ℕ) (i : ℕ) → In x (remove_at ids i) → In x ids
unfolding remove_at
remove_at-In x [] i m = m
remove_at-In x (id ∷ ids) zero m = inr m
remove_at-In x (id ∷ ids) (suc i) (inl e) = inl e
remove_at-In x (id ∷ ids) (suc i) (inr m) = inr (remove_at-In x ids i m)

remove_at-Once : (ids : List ℕ) (i : ℕ) → Once ids → Once (remove_at ids i)
unfolding remove_at
remove_at-Once [] i h = h
remove_at-Once (id ∷ ids) zero (n, h) = h
remove_at-Once (id ∷ ids) (suc i) (n, h) =
    ((λ m. n (remove_at-In id ids i m)), remove_at-Once ids i h)

All-remove_at : (P : ℕ → Type 0) (ids : List ℕ) (i : ℕ) → All P ids → All P (remove_at ids i)
unfolding remove_at
All-remove_at P [] i h = h
All-remove_at P (id ∷ ids) zero (p, h) = h
All-remove_at P (id ∷ ids) (suc i) (p, h) = (p, All-remove_at P ids i h)

abbrev Spawns : ℕ → Accepted → Type 0
Spawns max_connections (spawned m) = Accounted max_connections m
Spawns max_connections dropped = Unit {0}
Spawns max_connections exhausted = Unit {0}

accept_one-Spawns : (n : ℕ) (l : Listener) → Accounted n l → Spawns n (accept_one l)
unfolding accept_one
accept_one-Spawns n l a = elim (Bool-cases (l.permits == 0)) [
  | inl none_left ↦ rw (accept_one, none_left) tt
  | inr left ↦ elim (Bool-cases (leb (2 ^ 64) (l.last_id + 1))) [
    | inl over ↦ rw (accept_one, left, over) tt
    | inr next ↦
        let some_left : 1 ≤ l.permits = ground (arith, left) in
        rw (accept_one, left, next)
          (record {
            distinct = push-Once l.open_ids (l.last_id + 1) a.distinct (λ m.
                let le : l.last_id + 1 ≤ l.last_id =
                  All-In (λ id. id ≤ l.last_id) (l.last_id + 1) l.open_ids a.given m in
                absurd (omega (arith, le)));
            given =
                All-append (λ id. id ≤ l.last_id + 1) l.open_ids ((l.last_id + 1) ∷ [])
                  (later l.last_id l.open_ids a.given) (omega arith, tt);
            permits =
                omega
                  (arith, a.permits, some_left, length-append l.open_ids ((l.last_id + 1) ∷ []));
          })
  ]
]

close_one-Accounted : (n : ℕ) (l : Listener) (i : ℕ) → Accounted n l → Accounted n (close_one l i)
unfolding close_one
close_one-Accounted n l i a = elim (Option-cases (get_elem? l.open_ids i)) [
  | inl e ↦ rw (close_one, e) a
  | inr (id, e) ↦
      rw (close_one, e)
        (record {
          distinct = remove_at-Once l.open_ids i a.distinct;
          given = All-remove_at (λ k. k ≤ l.last_id) l.open_ids i a.given;
          permits = omega (arith, a.permits, length-remove_at l.open_ids i id e);
        })
]

Serves-Accounted : (n : ℕ) (l : Listener) → Serves n l → Accounted n l
Serves-Accounted n l begins = record { distinct = tt; given = tt; permits = omega arith }
Serves-Accounted n m (accepts l m' s h) =
    subst (Spawns n) h (accept_one-Spawns n l (Serves-Accounted n l s))
Serves-Accounted n m (closes l i s) = close_one-Accounted n l i (Serves-Accounted n l s)

-- In every state of the server, open connections have different ids, there are at most as many as
-- are allowed, and the number that STATS reports is that of the connections that are open.
pub connections_counted :
    (max_connections : ℕ) (l : Listener)
    → Serves max_connections l
    → Once l.open_ids
      × (length l.open_ids ≤ max_connections)
      × (current_connections max_connections l ≡ length l.open_ids)
connections_counted max_connections l s =
    let a = Serves-Accounted max_connections l s in
    (a.distinct, omega (arith, a.permits), omega (arith, a.permits))
