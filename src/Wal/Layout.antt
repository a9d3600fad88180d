-- ===== src/Wal/Layout.antt =====
-- Batches, the bytes of their frames, and the reads that a round of the loop makes of a frame.
use velo_bus.Prelude.{
  ℕ, ◌+◌, ◌-◌, ◌≤◌, ◌<◌, ◌^◌, ◌%◌, ◌≡◌, refl, ap, List, [], ◌∷◌, ◌++◌, arith, length, length-append,
  append_assoc, take, take-append_of, drop-append_of, drop-add_append, drop-append, take_all,
  be_bytes, length-be_bytes, All,
}
use velo_bus.Protocol.Codes
use velo_bus.Protocol.Types.{Bytes, Record, Result, ok, bind}
use velo_bus.Protocol.Encode.{encode_records}
use velo_bus.Protocol.Wire.{IsRecord}
use velo_bus.Wal.{magic, slice, frame_body, frame_prefix, frame}

pub record Batch : Type 0 where
  pub first : ℕ
  pub records : List Record

-- What a PUBLISH can hand to the log: a request of that size fits its envelope.
pub record IsBatch (b : Batch) : Type 0 where
  pub first_small : b.first < 2 ^ 64
  pub some_records : 1 ≤ length b.records
  pub few_records : length b.records ≤ Codes.max_batch
  pub each : All IsRecord b.records
  pub size : length (encode_records b.records) ≤ Codes.max_frame - 5

-- Reads of a file behind a front that has been passed.
pub slice-behind :
    (front rest : Bytes) (m n : ℕ) → slice (front ++ rest) (length front + m) n ≡ slice rest m n
slice-behind front rest m n = ap (take n) (drop-add_append m front rest)

pub slice-at : (front rest : Bytes) (n : ℕ) → slice (front ++ rest) (length front) n ≡ take n rest
slice-at front rest n = ap (take n) (drop-append front rest)

-- Which file holds these batches.
module _ (crc32 : Bytes → ℕ) where
  unfoldable pub frames : List Batch → Bytes
  frames [] = []
  frames (b ∷ bs) = frame crc32 (frame_body b.first b.records) ++ frames bs

  unfoldable pub image : List Batch → Bytes
  image bs = magic ++ frames bs

  -- What a crash can leave of a frame whose write it interrupts: any proper prefix.
  pub record IsTorn (tail : Bytes) : Type 0 where
    pub body : Bytes
    pub cut : ℕ
    pub at_least : 19 ≤ length body
    pub at_most : length body ≤ Codes.max_frame + 3
    pub short : cut < length (frame crc32 body)
    pub prefix : tail ≡ take cut (frame crc32 body)

-- The batches handed to `replay`, in order.
unfoldable pub replay_all :
    {S : Type 0} → (S → ℕ → List Record → Result S) → List Batch → S → Result S
replay_all replay [] s = ok s
replay_all replay (b ∷ bs) s = bind (replay s b.first b.records) (replay_all replay bs)

module _ (crc32 : Bytes → ℕ) where
  -- The header of a body: its length, its checksum, and the checksum of these eight bytes.
  unfoldable pub frame_header : Bytes → Bytes
  frame_header body = frame_prefix crc32 body ++ be_bytes 4 (crc32 (frame_prefix crc32 body))

  pub frame-header : (body : Bytes) → frame crc32 body ≡ frame_header body ++ body
  unfolding frame frame_header
  frame-header body = refl

  pub length-frame_prefix : (body : Bytes) → length (frame_prefix crc32 body) ≡ 8
  unfolding frame_prefix
  length-frame_prefix body = omega (
    arith,
    length-append (be_bytes 4 (length body % 2 ^ 32)) (be_bytes 4 (crc32 body)),
    length-be_bytes 4 (length body % 2 ^ 32),
    length-be_bytes 4 (crc32 body),
  )

  pub length-frame_header : (body : Bytes) → length (frame_header body) ≡ 12
  unfolding frame_header
  length-frame_header body = omega (
    arith,
    length-append (frame_prefix crc32 body) (be_bytes 4 (crc32 (frame_prefix crc32 body))),
    length-frame_prefix body,
    length-be_bytes 4 (crc32 (frame_prefix crc32 body)),
  )

  pub length-frame : (body : Bytes) → length (frame crc32 body) ≡ 12 + length body
  length-frame body =
      rw (frame-header body)
        (omega (arith, length-append (frame_header body) body, length-frame_header body))

  -- The four reads of a header.
  pub header-prefix : (body : Bytes) → take 8 (frame_header body) ≡ frame_prefix crc32 body
  unfolding frame_header
  header-prefix body = take-append_of 8 _ _ (length-frame_prefix body)

  pub header-crc :
      (body : Bytes) → slice (frame_header body) 8 4 ≡ be_bytes 4 (crc32 (frame_prefix crc32 body))
  unfolding frame_header
  header-crc body =
      rw
        (drop-append_of 8 _ (be_bytes 4 (crc32 (frame_prefix crc32 body)))
          (length-frame_prefix body))
        (take_all 4 _ (omega (arith, length-be_bytes 4 (crc32 (frame_prefix crc32 body)))))

  pub header-length :
      (body : Bytes) → take 4 (frame_header body) ≡ be_bytes 4 (length body % 2 ^ 32)
  unfolding frame_header frame_prefix
  header-length body =
      rw (append_assoc (be_bytes 4 (length body % 2 ^ 32)) (be_bytes 4 (crc32 body)) _)
        (take-append_of 4 _ _ (length-be_bytes 4 (length body % 2 ^ 32)))

  pub header-body_crc : (body : Bytes) → slice (frame_header body) 4 4 ≡ be_bytes 4 (crc32 body)
  unfolding frame_header frame_prefix
  header-body_crc body =
      rw
        (
          append_assoc (be_bytes 4 (length body % 2 ^ 32)) (be_bytes 4 (crc32 body)) _,
          drop-append_of 4 (be_bytes 4 (length body % 2 ^ 32))
              (be_bytes 4 (crc32 body)
                ++ be_bytes 4
                    (crc32 (be_bytes 4 (length body % 2 ^ 32) ++ be_bytes 4 (crc32 body))))
              (length-be_bytes 4 (length body % 2 ^ 32)),
        )
        (take-append_of 4 _ _ (length-be_bytes 4 (crc32 body)))
