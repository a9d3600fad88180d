-- ===== src/Store/Outcomes.antt =====
-- store.rs `publish`: the three ways in which a PUBLISH ends.
use velo_bus.Prelude.{
  ℕ, ◌+◌, ◌<◌, ◌^◌, ◌≡◌, ◌⊎◌, inl, inr, refl, ap, ◌∙◌, true, false, List, arith, leb, length,
  Option, none, some, Bool-cases,
}
use velo_bus.Protocol.Codes
use velo_bus.Protocol.Types.{Bytes, Error, Result, ok, err, new_error, Record}
use velo_bus.Wal.{Wal, AppendIo, check_capacity, append}
use velo_bus.Store.{
  Store, check_retained_capacity, accept, after_append, log_batch, publish, last_sequence,
}

pub result_cases :
    {A : Type 0} → (o : Result A) → ((a : A) × (o ≡ ok a)) ⊎ ((e : Error) × (o ≡ err e))
result_cases (ok a) = inl (a, refl)
result_cases (err e) = inr (e, refl)

option_cases : (o : Option Wal) → (o ≡ none) ⊎ ((w : Wal) × (o ≡ some w))
option_cases none = inl refl
option_cases (some w) = inr (w, refl)

append_cases :
    (o : Result (Unit {0}) × Wal)
    → ((w : Wal) × (o ≡ (ok tt, w))) ⊎ ((e : Error) × (w : Wal) × (o ≡ (err e, w)))
append_cases (ok _, w) = inl (w, refl)
append_cases (err e, w) = inr (e, w, refl)

module _ (crc32 : Bytes → ℕ) (s : Store) (rs : List Record) (io : AppendIo) where
  abbrev pub first_of : ℕ
  first_of = last_sequence s + 1

  -- The log before and after an accepted batch.
  pub record Written (w w' : Wal) : Type 0 where
    pub attached : s.wal ≡ some w
    pub room : check_capacity w rs ≡ ok tt
    pub run : append crc32 w first_of rs io ≡ (ok tt, w')

  pub record Accepted (r : Result Bytes × Store) : Type 0 where
    pub bytes : ℕ
    pub log : Option Wal
    pub healthy : s.poisoned ≡ false
    pub check : check_retained_capacity s rs ≡ ok bytes
    pub range : length s.events + length rs < 2 ^ 64
    pub logged :
        ((s.wal ≡ none) × (log ≡ none)) ⊎ ((w : Wal) × (w' : Wal) × (log ≡ some w') × Written w w')
    pub outcome :
        r ≡ accept crc32 (record s { wal = log }) rs bytes first_of (last_sequence s + length rs)

  pub record Failed (r : Result Bytes × Store) : Type 0 where
    pub before : Wal
    pub after : Wal
    pub error : Error
    pub bytes : ℕ
    pub check : check_retained_capacity s rs ≡ ok bytes
    pub attached : s.wal ≡ some before
    pub room : check_capacity before rs ≡ ok tt
    pub run : append crc32 before first_of rs io ≡ (err error, after)
    pub outcome : r ≡ (err error, record s { wal = some after; poisoned = true })

  -- Refused with the store as it was, failed in the log, or accepted.
  abbrev pub Ends : Result Bytes × Store → Type 0
  Ends r = ((e : Error) × (r ≡ (err e, s))) ⊎ (Failed r ⊎ Accepted r)

  no_log-accept :
      (bytes : ℕ)
      → s.wal ≡ none
      → log_batch crc32 s rs bytes first_of (last_sequence s + length rs) io
        ≡ accept crc32 (record s { wal = none }) rs bytes first_of (last_sequence s + length rs)
  unfolding log_batch
  no_log-accept bytes no_log =
      let e : s ≡ record s { wal = none } = ap (λ z. record s { wal = z }) no_log in
      ap (λ z. log_batch crc32 z rs bytes first_of (last_sequence s + length rs) io) e

  log_batch-some :
      (w : Wal) (bytes : ℕ)
      → s.wal ≡ some w
      → check_capacity w rs ≡ ok tt
      → log_batch crc32 s rs bytes first_of (last_sequence s + length rs) io
        ≡ after_append crc32 s rs bytes first_of
            (last_sequence s + length rs)
            (append crc32 w first_of rs io)
  unfolding log_batch
  log_batch-some w bytes attached room = rw (log_batch, attached, log_batch, room) refl

  log-Ends :
      (bytes : ℕ)
      → s.poisoned ≡ false
      → check_retained_capacity s rs ≡ ok bytes
      → length s.events + length rs < 2 ^ 64
      → Ends (log_batch crc32 s rs bytes first_of (last_sequence s + length rs) io)
  unfolding log_batch after_append
  log-Ends bytes healthy check range = elim (option_cases s.wal) [
    | inl no_log ↦ inr (
        inr (record {
          bytes = bytes;
          log = none;
          healthy = healthy;
          check = check;
          range = range;
          logged = inl (no_log, refl);
          outcome = no_log-accept bytes no_log;
        }))
    | inr (w, attached) ↦ elim (result_cases (check_capacity w rs)) [
      | inr (e, full) ↦ inl (e, simp (log_batch, attached, full))
      | inl (_, room) ↦ elim (append_cases (append crc32 w first_of rs io)) [
        | inl (w', run) ↦ inr (
            inr (record {
              bytes = bytes;
              log = some w';
              healthy = healthy;
              check = check;
              range = range;
              logged = inr (w, w', refl, record { attached = attached; room = room; run = run });
              outcome =
                  log_batch-some w bytes attached room
                  ∙ (ap (after_append crc32 s rs bytes first_of (last_sequence s + length rs)) run);
            }))
        | inr (e, w', run) ↦ inr (
            inl (record {
              before = w;
              after = w';
              error = e;
              bytes = bytes;
              check = check;
              attached = attached;
              room = room;
              run = run;
              outcome =
                  log_batch-some w bytes attached room
                  ∙ (ap (after_append crc32 s rs bytes first_of (last_sequence s + length rs)) run);
            }))
      ]
    ]
  ]

  -- A PUBLISH is refused, fails in the log, or is accepted.
  pub publish-Ends : Ends (publish crc32 s rs io)
  unfolding publish
  publish-Ends = elim (Bool-cases s.poisoned) [
    | inl sick ↦ inl (
      new_error Codes.storage "store is read-only after uncertain disk I/O; restart required",
      simp sick,
    )
    | inr healthy ↦ elim (result_cases (check_retained_capacity s rs)) [
      | inr (e, full) ↦ inl (e, simp (healthy, full))
      | inl (bytes, check) ↦ elim (Bool-cases (leb (2 ^ 64) (last_sequence s + length rs))) [
        | inl over ↦
            inl (new_error Codes.capacity "sequence range exhausted", simp (healthy, check, over))
        | inr range ↦ simp (healthy, check, range) (log-Ends bytes healthy check (ground arith))
      ]
    ]
  ]
