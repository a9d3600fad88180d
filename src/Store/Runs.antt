-- ===== src/Store/Runs.antt =====
-- Runs of the store: a small log, batches that are published, and what a reader gets.
pub mod Reading
use velo_bus.Prelude.{
  ℕ, ◌≡◌, ◌≤◌, ◌⊎◌, ◌↔◌, refl, List, [], ◌∷◌, ◌++◌, arith, true, false, none, some, In, inl, inr,
  length, ltb, bytes_eq, take, be_bytes, length-append, length-take, ◌+◌, ◌<◌, ◌%◌, ◌^◌,
}
use velo_bus.Protocol.Types.{ok, Bytes, Record, Event, Fetch, wire_bytes, retained_bytes, err}
use velo_bus.Protocol.Encode.{encode_records, encode_each, encode_record, put_string}
use velo_bus.Protocol.Runs.{small_record, small_record-IsRecord}
use velo_bus.Wal.{
  Wal, AppendIo, Faults, magic, batch_bytes, frame, frame_body, wire_sum, check_capacity, append,
  write_frame, finish_append, storage,
}
use velo_bus.Wal.Layout.{IsBatch, IsTorn, image, frames, replay_all, length-frame}
use velo_bus.Store.{
  Store, memory, publish, disk, check_retained_capacity, retained_sum, log_batch, after_append,
  accept, receipt, number, commit,
}
use velo_bus.Store.Fetch.{
  FetchResult, fetch_result, scan_events, fetch_loop, fetch_step, consider, select_event, replaced,
  coalesces, topic_matches, sort_events, insert_event,
}
use velo_bus.Store.Operations.{fetch}
use velo_bus.Store.Scanning.{Covered, total}
use velo_bus.Store.Sorting.{Ascending}
use velo_bus.Store.Fetching.{IsHistory}
use velo_bus.Store.Delivery.{Eligible, fetch-bounds, fetch_sound, fetch_complete, fetch-exact}
use velo_bus.Store.Publishing.{Kept, retained_total}
use velo_bus.Store.Durability.{next_batch, batch_bytes-frame}
use velo_bus.Store.Restart.{Logged}
use velo_bus.Store.Guarantees.{Appended, Unchanged, publish-atomic, publish-Kept}
use velo_bus.Store.Progress.{fetch-progress}
use velo_bus.Store.Uncertain.{Uncertain, publish-Uncertain}
use velo_bus.Store.Crash.{publish-durable, Restarted, disk-recovers, publish-Logged}

abbrev crc : Bytes → ℕ
crc bytes = 0

abbrev log : Wal
log = record { file = magic; bytes = 8; max_bytes = 1000 }

-- A new store on disk.
abbrev store : Store
store = record {
  events = [];
  retained = 0;
  max_retained = 5000;
  max_wal_bytes = 1000;
  wal = some log;
  poisoned = false;
  published_records = 0;
  fetched_records = 0;
  coalesced_records = 0;
}

abbrev no_faults : Faults
no_faults = record { fails = λ c. none; magic_written = 0 }

abbrev good : AppendIo
good = record { write_fails = none; sync_fails = none }

unfoldable store-Logged : Logged crc 1000 store
unfolding image frames replay_all memory
store-Logged = record {
  log = log;
  attached = refl;
  batches = [];
  each = tt;
  file = refl;
  counted = refl;
  budget = omega arith;
  word = omega arith;
  recovers = record {
    replayed = memory 5000 1000;
    run = refl;
    alike = record { events = refl; retained = refl; max_retained = refl };
  };
}

store-Kept : Kept store
unfolding retained_total
store-Kept = record {
  history = record { numbered = tt; small = tt };
  counted = refl;
  budget = omega arith;
  word = omega arith;
}

abbrev batch : List Record
batch = small_record ∷ small_record ∷ []

publish-atomic_example :
    Appended store batch (publish crc store batch good)
    ⊎ Unchanged store (publish crc store batch good)
publish-atomic_example =
    publish-atomic crc store batch good store-Kept
      (small_record-IsRecord, (small_record-IsRecord, tt)) (omega arith)

publish-Kept_example : Kept (publish crc store batch good).1
publish-Kept_example =
    publish-Kept crc store batch good store-Kept
      (small_record-IsRecord, (small_record-IsRecord, tt)) (omega arith)

batch-IsBatch : IsBatch (next_batch store batch)
unfolding next_batch encode_records encode_each encode_record put_string be_bytes
batch-IsBatch = record {
  first_small = omega arith;
  some_records = omega arith;
  few_records = omega arith;
  each = (small_record-IsRecord, (small_record-IsRecord, tt));
  size = omega arith;
}

published : (publish crc store batch good).0 ≡ ok (receipt 1 2 2 true)
unfolding publish check_retained_capacity retained_sum retained_bytes log_batch after_append accept
    check_capacity batch_bytes wire_sum wire_bytes append write_frame finish_append
published = refl

publish-Logged_example : Logged crc 1000 (publish crc store batch good).1
publish-Logged_example =
    publish-Logged crc 1000 store batch good store-Logged batch-IsBatch (receipt 1 2 2 true)
      published

abbrev torn_body : Bytes
torn_body = frame_body 1 batch

abbrev torn_tail : Bytes
torn_tail = take 3 (frame crc torn_body)

length-torn_body : length torn_body ≡ 38
unfolding frame_body encode_records encode_each encode_record put_string be_bytes
length-torn_body = refl

torn_tail-IsTorn : IsTorn crc torn_tail
torn_tail-IsTorn = record {
  body = torn_body;
  cut = 3;
  at_least = omega (arith, length-torn_body);
  at_most = omega (arith, length-torn_body);
  short = omega (arith, length-torn_body, length-frame crc torn_body);
  prefix = refl;
}

disk-recovers_example :
    Restarted crc store magic (disk crc no_faults 5000 1000 (magic ++ torn_tail))
unfolding store-Logged
disk-recovers_example =
    disk-recovers crc (λ bytes. omega arith) no_faults (λ c. refl) 1000 store store-Logged torn_tail
      torn_tail-IsTorn
      (omega (
        arith,
        length-append magic torn_tail,
        length-take 3 (frame crc torn_body),
        length-torn_body,
        length-frame crc torn_body,
      ))

batch_bytes-frame_example : batch_bytes batch ≡ length (frame crc (frame_body 1 batch))
batch_bytes-frame_example =
    batch_bytes-frame crc 1 batch (small_record-IsRecord, (small_record-IsRecord, tt)) (omega arith)

abbrev first_event : Event
first_event = record { sequence = 1; content = small_record }

abbrev second_event : Event
second_event = record { sequence = 2; content = small_record }

abbrev written_log : Wal
written_log = record {
  file = magic ++ frame crc torn_body;
  bytes = (8 + length (frame crc torn_body)) % 2 ^ 64;
  max_bytes = 1000;
}

written : (publish crc store batch good).1.wal ≡ some written_log
unfolding publish check_retained_capacity retained_sum retained_bytes log_batch after_append accept
    check_capacity batch_bytes wire_sum wire_bytes append write_frame finish_append commit
written = refl

publish-durable_example :
    (t : Store) × (disk crc no_faults 5000 1000 (written_log.file ++ torn_tail)
      ≡ some (ok t, written_log.file))
    × (t.events ≡ first_event ∷ second_event ∷ [])
unfolding number
publish-durable_example =
    publish-durable crc (λ bytes. omega arith) no_faults (λ c. refl) 1000 store store-Logged batch
      good (receipt 1 2 2 true) written_log torn_tail batch-IsBatch published written
      torn_tail-IsTorn
      (omega (
        arith,
        length-append written_log.file torn_tail,
        length-append magic (frame crc torn_body),
        length-take 3 (frame crc torn_body),
        length-torn_body,
        length-frame crc torn_body,
      ))

-- The write of the batch breaks off behind three bytes.
abbrev broken : AppendIo
broken = record { write_fails = some (3, b'!' ∷ []); sync_fails = none }

abbrev broken_log : Wal
broken_log = record { file = magic ++ torn_tail; bytes = 8; max_bytes = 1000 }

refused : (publish crc store batch broken).0 ≡ err (storage (b'!' ∷ []))
unfolding publish check_retained_capacity retained_sum retained_bytes log_batch after_append accept
    check_capacity batch_bytes wire_sum wire_bytes append write_frame finish_append commit
refused = refl

broken_off : (publish crc store batch broken).1.wal ≡ some broken_log
unfolding publish check_retained_capacity retained_sum retained_bytes log_batch after_append accept
    check_capacity batch_bytes wire_sum wire_bytes append write_frame finish_append commit
broken_off = refl

publish-Uncertain_example : Uncertain store batch (disk crc no_faults 5000 1000 broken_log.file)
publish-Uncertain_example =
    publish-Uncertain crc (λ bytes. omega arith) no_faults (λ c. refl) 1000 store batch store-Logged
      batch-IsBatch broken (storage (b'!' ∷ [])) broken_log refused broken_off
      (omega (
        arith,
        length-append magic torn_tail,
        length-take 3 (frame crc torn_body),
        length-torn_body,
        length-frame crc torn_body,
      ))
