-- ===== src/Store.antt =====
-- crates/velobus/src/store.rs: the history of events. `Fetch` holds the scan of a FETCH, the other
-- children hold the proofs.
pub mod Fetch
pub mod Operations
pub mod Scanning
pub mod Sorting
pub mod Selecting
pub mod Stepping
pub mod Fetching
pub mod Delivery
pub mod Mapping
pub mod Latest
pub mod Publishing
pub mod Outcomes
pub mod Durability
pub mod Restart
pub mod Guarantees
pub mod Crash
pub mod Uncertain
pub mod Progress
pub mod Runs
use velo_bus.Prelude.{
  ℕ, zero, suc, ◌+◌, ◌-◌, ◌*◌, ◌<◌, ◌≤◌, ◌^◌, ◌%◌, ◌≡◌, Bool, true, false, not, List, [], ◌∷◌, ◌++◌,
  ltb, leb, ◌==◌, if◌then◌else◌, length, be_bytes, Option, none, some, min,
}
use velo_bus.Protocol.Codes
use velo_bus.Protocol.Types.{
  Bytes, Error, Result, ok, err, bind, new_error, Record, Event, retained_bytes, ◌+u64◌,
}
use velo_bus.Wal.{Wal, AppendIo, Faults, check_capacity, append}
use velo_bus.Wal.Open.{open_wal}

pub record Store : Type 0 where
  pub events : List Event
  pub retained : ℕ
  pub max_retained : ℕ
  pub max_wal_bytes : ℕ
  pub wal : Option Wal
  pub poisoned : Bool
  pub published_records : ℕ
  pub fetched_records : ℕ
  pub coalesced_records : ℕ

-- `Store::memory`
unfoldable pub memory : ℕ → ℕ → Store
memory max_retained max_wal_bytes = record {
  events = [];
  retained = 0;
  max_retained = max_retained;
  max_wal_bytes = max_wal_bytes;
  wal = none;
  poisoned = false;
  published_records = 0;
  fetched_records = 0;
  coalesced_records = 0;
}

abbrev pub last_sequence : Store → ℕ
last_sequence s = length s.events

unfoldable pub retained_sum : List Record → ℕ
retained_sum [] = 0
retained_sum (r ∷ rs) = retained_bytes r +u64 retained_sum rs

unfoldable pub check_retained_capacity : Store → List Record → Result ℕ
check_retained_capacity s rs =
    if ltb (s.max_retained - s.retained) (retained_sum rs)
    then err (new_error Codes.capacity "retained history capacity reached; batch was not written")
    else ok (retained_sum rs)

-- `records.into_iter().enumerate().map(…)`, from the sequence number of the first.
unfoldable pub number : ℕ → List Record → List Event
number first [] = []
number first (r ∷ rs) = record { sequence = first; content = r } ∷ number (suc first) rs

unfoldable pub commit : Store → ℕ → List Record → ℕ → Store
commit s first rs bytes = record s {
  events = s.events ++ number first rs;
  retained = s.retained +u64 bytes;
}

-- The closure that `Store::disk` gives to the log.
unfoldable pub replay_batch : Store → ℕ → List Record → Result Store
replay_batch s first rs =
    if not (first == last_sequence s + 1)
    then err (new_error Codes.storage "nonconsecutive sequence numbers in WAL")
    else bind (check_retained_capacity s rs) (λ bytes. ok (commit s first rs bytes))

abbrev pub saturating_add : ℕ → ℕ → ℕ
saturating_add a b = min (a + b) (2 ^ 64 - 1)

-- The reply to a PUBLISH.
unfoldable pub receipt : ℕ → ℕ → ℕ → Bool → Bytes
receipt first last count durable =
    ((be_bytes 8 first ++ be_bytes 8 last) ++ be_bytes 2 (count % 2 ^ 16))
    ++ (if durable then 1 else 0) ∷ []

-- `self.wal.is_some()`
abbrev pub durable : Store → Bool
durable s = elim s.wal [ none ↦ false | some w ↦ true ]

module _ (crc32 : Bytes → ℕ) where
  unfoldable pub disk_result : Result (Wal × Store) × Bytes → Result Store × Bytes
  disk_result (err e, file) = (err e, file)
  disk_result (ok (w, s), file) = (ok (record s { wal = some w }), file)

  -- `Store::disk` on a data directory whose log holds `file`; the log's content comes back.
  unfoldable pub disk : Faults → ℕ → ℕ → Bytes → Option (Result Store × Bytes)
  unfolding disk_result
  disk faults max_retained max_wal_bytes file =
      elim (open_wal crc32 replay_batch faults max_wal_bytes file
        (memory max_retained max_wal_bytes)) [ none ↦ none | some r ↦ some (disk_result r) ]

  -- Behind the log: the batch is committed and the receipt written.
  unfoldable pub accept : Store → List Record → ℕ → ℕ → ℕ → Result Bytes × Store
  accept s rs bytes first last =
      let count = length rs in
      (
        ok (receipt first last count (durable s)),
        record (commit s first rs bytes) {
          published_records = saturating_add s.published_records count;
        },
      )

  unfoldable pub after_append :
      Store → List Record → ℕ → ℕ → ℕ → Result (Unit {0}) × Wal → Result Bytes × Store
  after_append s rs bytes first last (err e, w) =
      (err e, record s { wal = some w; poisoned = true })
  after_append s rs bytes first last (ok _, w) =
      accept (record s { wal = some w }) rs bytes first last

  -- The log, if there is one.
  unfoldable pub log_batch : Store → List Record → ℕ → ℕ → ℕ → AppendIo → Result Bytes × Store
  unfolding after_append accept
  log_batch s rs bytes first last io = elim s.wal [
    | none ↦ accept s rs bytes first last
    | some w ↦ elim (check_capacity w rs) [
      | err e ↦ (err e, s)
      | ok _ ↦ after_append s rs bytes first last (append crc32 w first rs io)
    ]
  ]

  -- `Store::publish`: the reply or the error, and the store that is left.
  unfoldable pub publish : Store → List Record → AppendIo → Result Bytes × Store
  unfolding log_batch
  publish s rs io =
      if s.poisoned
      then (
        err (
            new_error Codes.storage
              "store is read-only after uncertain disk I/O; restart required"),
        s,
      )
      else elim (check_retained_capacity s rs) [
        | err e ↦ (err e, s)
        | ok bytes ↦
            if leb (2 ^ 64) (last_sequence s + length rs)
            then (err (new_error Codes.capacity "sequence range exhausted"), s)
            else log_batch s rs bytes (last_sequence s + 1) (last_sequence s + length rs) io
      ]
