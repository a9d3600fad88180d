-- ===== src/Wal/Recovery.antt =====
-- What a round of the loop makes of a frame that `append` wrote, and of a torn one.
use velo_bus.Prelude.{
  ℕ, ◌+◌, ◌≤◌, ◌<◌, ◌^◌, ◌%◌, ◌≡◌, refl, ap, subst, ◌∙◌, List, [], ◌++◌, arith, length,
  length-append, length-take, append_assoc, append-nil, take, take-append_of, drop-append_of,
  take-append_past, be_bytes, length-be_bytes, be_value-be_bytes,
}
use native.Mathlib.Decide.{dec_lt}
use velo_bus.Protocol.Codes
use velo_bus.Protocol.Types.{Bytes, Result, ok, Record}
use velo_bus.Protocol.Reader.{u64, new}
use velo_bus.Protocol.Decode.{decode_records}
use velo_bus.Protocol.Encode.{encode_records}
use velo_bus.Protocol.Reads.{at, u64-Reads, finish-whole}
use velo_bus.Protocol.Records.{decode_records-Reads, encode_records_size}
use velo_bus.Wal.{Faults, attempt, slice, frame_body, frame_prefix, frame, read_header, read_body}
use velo_bus.Wal.Open.{
  parse_body, parse_header, check_body, clean, torn, batch, or_failed, replay_body, round,
}
use velo_bus.Wal.Layout.{
  Batch, IsBatch, frame_header, frame-header, length-frame_header, length-frame, header-prefix,
  header-crc, header-length, header-body_crc, slice-behind, slice-at,
}

-- The bytes of a batch's body are read back as its number and its records.
parse_body-frame_body :
    (b : Batch) → IsBatch b → parse_body (frame_body b.first b.records) ≡ ok (b.first, b.records)
unfolding parse_body frame_body
parse_body-frame_body b v =
    let front = be_bytes 8 b.first in
    let rest = encode_records b.records in
    let number : u64 (new (front ++ rest)) ≡ ok (b.first, at front rest) =
      (u64-Reads b.first v.first_small).runs [] rest in
    let records : decode_records (at front rest)
        ≡ ok (b.records, record { input = front ++ rest; position = length (front ++ rest) }) =
      subst
        (λ z.
          decode_records (record { input = front ++ z; position = length front })
          ≡ ok (b.records, record { input = front ++ rest; position = length (front ++ rest) }))
        (append-nil rest)
        (subst
          (λ z.
            decode_records (at front (rest ++ []))
            ≡ ok (b.records, record { input = z; position = length (front ++ rest) }))
          (append-nil (front ++ rest))
          ((decode_records-Reads b.records v.some_records v.few_records v.each).runs front [])) in
    rw (number, records, finish-whole (front ++ rest))

-- The sizes of an admitted body.
length-frame_body :
    (b : Batch)
    → IsBatch b
    → (19 ≤ length (frame_body b.first b.records))
      × (length (frame_body b.first b.records) ≤ Codes.max_frame + 3)
unfolding frame_body
length-frame_body b v = omega (
  arith,
  length-append (be_bytes 8 b.first) (encode_records b.records),
  length-be_bytes 8 b.first,
  encode_records_size b.records v.some_records v.each,
  v.size,
)

module _ (crc32 : Bytes → ℕ) (small : (bytes : Bytes) → crc32 bytes < 2 ^ 32) where
  parse_header-frame_header :
      (position : ℕ) (body : Bytes)
      → 19 ≤ length body
      → length body ≤ Codes.max_frame + 3
      → parse_header crc32 position (frame_header crc32 body)
        ≡ ok (record { body_length = length body; expected_crc = crc32 body })
  unfolding parse_header
  parse_header-frame_header position body lo hi =
      let n : length body % 2 ^ 32 ≡ length body = omega arith in
      rw
        (
          header-crc crc32 body,
          header-prefix crc32 body,
          header-length crc32 body,
          header-body_crc crc32 body,
          n,
          be_value-be_bytes 4 (crc32 (frame_prefix crc32 body)) (small (frame_prefix crc32 body)),
          be_value-be_bytes 4 (crc32 body) (small body),
          be_value-be_bytes 4 (length body) (omega arith),
        )
        (ground arith)

  check_body-frame_body :
      (position : ℕ) (b : Batch)
      → IsBatch b
      → check_body crc32 position
          (crc32 (frame_body b.first b.records))
          (frame_body b.first b.records)
        ≡ ok (b.first, b.records)
  unfolding check_body
  check_body-frame_body position b v = ground (arith, parse_body-frame_body b v)

  -- The reads of a whole frame.
  frame-at :
      (front body rest : Bytes)
      → (slice (front ++ (frame crc32 body ++ rest)) (length front) 12 ≡ frame_header crc32 body)
        × (slice (front ++ (frame crc32 body ++ rest)) (length front + 12) (length body) ≡ body)
  frame-at front body rest =
      let whole : frame crc32 body ++ rest ≡ frame_header crc32 body ++ (body ++ rest) =
        rw (frame-header crc32 body) (append_assoc (frame_header crc32 body) body rest) in
      rw
        (
          slice-at front (frame crc32 body ++ rest) 12,
          slice-behind front (frame crc32 body ++ rest) 12 (length body),
          whole,
        )
        (
          take-append_of 12 _ _ (length-frame_header crc32 body),
          ap (take (length body)) (drop-append_of 12 _ _ (length-frame_header crc32 body))
              ∙ take-append_of (length body) body rest refl,
        )

  -- A proper prefix of a frame still has the frame's header, if it is long enough.
  torn-header :
      (front body : Bytes) (k : ℕ)
      → 12 ≤ k
      → slice (front ++ take k (frame crc32 body)) (length front) 12 ≡ frame_header crc32 body
  torn-header front body k h =
      let size = length-frame_header crc32 body in
      rw
        (
          slice-at front (take k (frame crc32 body)) 12,
          frame-header crc32 body,
          take-append_past k (frame_header crc32 body) body (omega (arith, size)),
        )
        (take-append_of 12 _ _ size)

  module _ {S : Type 0} (replay : S → ℕ → List Record → Result S) (faults : Faults) where
    -- A whole frame at the position is replayed, and the next round starts behind it.
    pub round-frame :
        (front rest : Bytes) (b : Batch) (s : S)
        → IsBatch b
        → attempt faults (read_header (length front)) ≡ ok tt
        → attempt faults (read_body (length front)) ≡ ok tt
        → let bytes = frame crc32 (frame_body b.first b.records) in
          round crc32 replay faults
            (front ++ (bytes ++ rest))
            (length (front ++ (bytes ++ rest)))
            (length front)
            s
          ≡ or_failed (replay s b.first b.records) (λ s'. batch (length (front ++ bytes)) s')
    unfolding round replay_body
    round-frame front rest b s v headers bodies =
        let body = frame_body b.first b.records in
        let (lo, hi) = length-frame_body b v in
        let (e12, eb) = frame-at front body rest in
        let size : length (front ++ (frame crc32 body ++ rest))
            ≡ length front + (12 + length body + length rest) =
          omega (
            arith,
            length-append front (frame crc32 body ++ rest),
            length-append (frame crc32 body) rest,
            length-frame crc32 body,
          ) in
        let end : length (front ++ frame crc32 body) ≡ length front + 12 + length body =
          omega (arith, length-append front (frame crc32 body), length-frame crc32 body) in
        rw
          (
            e12,
            parse_header-frame_header (length front) body lo hi,
            headers,
            bodies,
            eb,
            check_body-frame_body (length front) b v,
            size,
            end,
          )
          (ground arith)

    -- A frame that the file's end cuts short is a torn tail.
    pub round-torn :
        (front body : Bytes) (k : ℕ) (s : S)
        → 19 ≤ length body
        → length body ≤ Codes.max_frame + 3
        → 1 ≤ k
        → k < length (frame crc32 body)
        → attempt faults (read_header (length front)) ≡ ok tt
        → let file = front ++ take k (frame crc32 body) in
          round crc32 replay faults file (length file) (length front) s ≡ torn
    unfolding round
    round-torn front body k s lo hi started cut headers =
        let size : length (front ++ take k (frame crc32 body)) ≡ length front + k = omega (
          arith,
          length-append front (take k (frame crc32 body)),
          length-take k (frame crc32 body),
        ) in
        elim (dec_lt k 12) [
          | yes short ↦ rw size (ground arith)
          | no long ↦
              rw
                (
                  torn-header front body k (omega arith),
                  parse_header-frame_header (length front) body lo hi,
                  headers,
                  size,
                )
                (ground (arith, length-frame crc32 body))
        ]

    pub round-clean :
        (file : Bytes) (s : S)
        → round crc32 replay faults file (length file) (length file) s ≡ clean
    unfolding round
    round-clean file s = ground arith
