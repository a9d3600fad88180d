-- ===== src/Wal/Runs.antt =====
-- Runs of the log: a file with one batch and a torn tail.
use velo_bus.Prelude.{
  ℕ, ◌+◌, ◌%◌, ◌^◌, ◌≡◌, ◌≤◌, refl, List, [], ◌∷◌, ◌++◌, arith, none, some, length, take, be_bytes,
  length-append, length-take, ◌≢◌,
}
use velo_bus.Protocol.Types.{Bytes, Record, Result, ok}
use velo_bus.Protocol.Encode.{encode_records, encode_each, encode_record, put_string}
use velo_bus.Protocol.Runs.{small_record, small_record-IsRecord}
use velo_bus.Wal.Cutting.{Left}
use velo_bus.Wal.Keeping.{open_wal-Left}
use velo_bus.Wal.{Wal, Faults, frame, frame_body}
use velo_bus.Wal.Open.{open_wal}
use velo_bus.Wal.Layout.{Batch, IsBatch, IsTorn, image, frames, replay_all, length-frame}
use velo_bus.Wal.Termination.{open_wal-ends}
use velo_bus.Wal.Replay.{open_wal-image}

abbrev crc : Bytes → ℕ
crc bytes = length bytes % 2 ^ 32

abbrev one_batch : Batch
one_batch = record { first = 1; records = small_record ∷ [] }

one_batch-IsBatch : IsBatch one_batch
unfolding encode_records encode_each encode_record put_string be_bytes
one_batch-IsBatch = record {
  first_small = omega arith;
  some_records = omega arith;
  few_records = omega arith;
  each = (small_record-IsRecord, tt);
  size = omega arith;
}

abbrev no_faults : Faults
no_faults = record { fails = λ c. none; magic_written = 0 }

-- Counts the records.
abbrev count : ℕ → ℕ → List Record → Result ℕ
count n first rs = ok (n + length rs)

abbrev body : Bytes
body = frame_body 1 (small_record ∷ [])

abbrev tail : Bytes
tail = take 5 (frame crc body)

length-body : length body ≡ 24
unfolding frame_body encode_records encode_each encode_record put_string be_bytes
length-body = refl

tail-IsTorn : IsTorn crc tail
tail-IsTorn = record {
  body = body;
  cut = 5;
  at_least = omega (arith, length-body);
  at_most = omega (arith, length-body);
  short = omega (arith, length-body, length-frame crc body);
  prefix = refl;
}

fits : length (image crc (one_batch ∷ []) ++ tail) ≤ 200
unfolding image frames
fits = omega (
  arith,
  length-append (image crc (one_batch ∷ [])) tail,
  length-append (frame crc body) [],
  length-take 5 (frame crc body),
  length-frame crc body,
  length-body,
)

counted : replay_all count (one_batch ∷ []) 0 ≡ ok 1
unfolding replay_all
counted = refl

open_wal-image_example :
    open_wal crc count no_faults 200 (image crc (one_batch ∷ []) ++ tail) 0
    ≡ some (
      ok (
        record {
          file = image crc (one_batch ∷ []);
          bytes = length (image crc (one_batch ∷ []));
          max_bytes = 200;
        },
        1,
      ),
      image crc (one_batch ∷ []),
    )
open_wal-image_example =
    open_wal-image crc (λ bytes. omega arith) count no_faults (λ c. refl) 200 (one_batch ∷ []) tail
      0 1 fits (one_batch-IsBatch, tt) tail-IsTorn counted

-- The first call of the operating system fails.
abbrev broken : Faults
broken = record { fails = λ c. some (b'l' ∷ []); magic_written = 0 }

open_wal-ends_example : open_wal crc count broken 200 [] 0 ≢ none
open_wal-ends_example = open_wal-ends crc count broken 200 [] 0

abbrev log : Wal
log = record {
  file = image crc (one_batch ∷ []);
  bytes = length (image crc (one_batch ∷ []));
  max_bytes = 200;
}

open_wal-Left_example :
    Left {S = ℕ} (image crc (one_batch ∷ []) ++ tail) (ok (log, 1)) (image crc (one_batch ∷ []))
open_wal-Left_example =
    open_wal-Left crc count no_faults 200 (image crc (one_batch ∷ []) ++ tail)
      (image crc (one_batch ∷ [])) 0 (ok (log, 1)) open_wal-image_example
