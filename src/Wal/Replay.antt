-- ===== src/Wal/Replay.antt =====
-- Opening a log: what is recovered from a file that holds whole batches and perhaps a torn one.
use velo_bus.Prelude.{
  ℕ, zero, suc, ◌≤◌, ◌<◌, ◌^◌, ◌≡◌, sym, ap, subst, ◌∙◌, List, [], ◌∷◌, ◌++◌, none, some, arith,
  length, length-append, append_assoc, append-nil, take, take-append, All, bytes_eq,
}
use native.Mathlib.Decide.{dec_lt}
use velo_bus.Protocol.Types.{Bytes, Result, ok, Record}
use velo_bus.Protocol.Consumes.{bind-ok, ok-injective}
use velo_bus.Wal.{
  Call, Faults, attempt, magic, frame_body, frame, read_header, read_body, set_length, sync_length,
  sync_directory, seek_start, read_magic, ensure_directory, open_file, lock, metadata, seek_end,
}
use velo_bus.Wal.Open.{
  torn, batch, round, open_loop, truncate_tail, open_wal, scan, scan_checks, open_checks, opened,
  write_header,
}
use velo_bus.Wal.Layout.{Batch, IsBatch, frames, image, IsTorn, replay_all, length-frame}
use velo_bus.Wal.Recovery.{round-frame, round-torn, round-clean}

-- No call of the operating system fails.
abbrev pub IsQuiet : Faults → Type 0
IsQuiet faults = (c : Call) → faults.fails c ≡ none

quiet : (faults : Faults) → IsQuiet faults → (c : Call) → attempt faults c ≡ ok tt
quiet faults q c = ground (arith, q c)

module _ (crc32 : Bytes → ℕ) (small : (bytes : Bytes) → crc32 bytes < 2 ^ 32) {S : Type 0}
    (replay : S → ℕ → List Record → Result S) (faults : Faults) (q : IsQuiet faults) where
  -- The loop at each kind of round.
  loop_clean :
      (fuel : ℕ) (file : Bytes) (s : S)
      → open_loop crc32 replay faults (suc fuel) file (length file) (length file) s
        ≡ some (ok (length file, s), file)
  unfolding open_loop
  loop_clean fuel file s = rw (round-clean crc32 small replay faults file s, open_loop)

  loop_torn :
      (fuel : ℕ) (front tail : Bytes) (s : S)
      → round crc32 replay faults (front ++ tail) (length (front ++ tail)) (length front) s ≡ torn
      → open_loop crc32 replay faults
          (suc fuel)
          (front ++ tail)
          (length (front ++ tail))
          (length front)
          s
        ≡ some (ok (length front, s), front)
  unfolding open_loop truncate_tail
  loop_torn fuel front tail s e =
      rw (e, open_loop)
        (ground (
          arith,
          q (set_length (length front)),
          q (sync_length (length front)),
          take-append front tail,
        ))

  loop_batch :
      (fuel size position end : ℕ) (file : Bytes) (s s1 : S)
      → round crc32 replay faults file size position s ≡ batch end s1
      → open_loop crc32 replay faults (suc fuel) file size position s
        ≡ open_loop crc32 replay faults fuel file size end s1
  unfolding open_loop
  loop_batch fuel size position end file s s1 e = rw (e, open_loop)

  loop_end :
      (fuel : ℕ) (front tail : Bytes) (s : S)
      → IsTorn crc32 tail
      → open_loop crc32 replay faults
          (suc fuel)
          (front ++ tail)
          (length (front ++ tail))
          (length front)
          s
        ≡ some (ok (length front, s), front)
  loop_end fuel front tail s t = elim (dec_lt 0 t.cut) [
    | yes started ↦ loop_torn fuel front tail s (
        rw t.prefix (
          round-torn crc32 small replay faults front t.body t.cut s t.at_least t.at_most started
            t.short (quiet faults q (read_header (length front)))))
    | no nothing ↦
        let cut : t.cut ≡ 0 = omega arith in
        let empty : tail ≡ [] = t.prefix ∙ ap (λ (k : ℕ). take k (frame crc32 t.body)) cut in
        rw (empty, append-nil) (loop_clean fuel front s)
  ]

  loop-frames :
      (fuel : ℕ) (bs : List Batch) (front tail : Bytes) (s s' : S)
      → length bs < fuel
      → All IsBatch bs
      → IsTorn crc32 tail
      → replay_all replay bs s ≡ ok s'
      → let file = front ++ (frames crc32 bs ++ tail) in
        open_loop crc32 replay faults fuel file (length file) (length front) s
        ≡ some (ok (length (front ++ frames crc32 bs), s'), front ++ frames crc32 bs)
  unfolding frames replay_all
  loop-frames zero bs front tail s s' fuel v t r = absurd (omega arith)
  loop-frames (suc fuel) [] front tail s s' enough v t r =
      rw (append-nil front, ok-injective (sym r)) (loop_end fuel front tail s t)
  loop-frames (suc fuel) (b ∷ bs) front tail s s' enough (v, vs) t r =
      let bytes = frame crc32 (frame_body b.first b.records) in
      let (s1, one, more) = bind-ok (replay s b.first b.records) (replay_all replay bs) r in
      let rest = frames crc32 bs ++ tail in
      let file : front ++ ((bytes ++ frames crc32 bs) ++ tail) ≡ front ++ (bytes ++ rest) =
        ap (◌++◌ front) (append_assoc bytes (frames crc32 bs) tail) in
      let here : round crc32 replay faults (front ++ (bytes ++ rest))
            (length (front ++ (bytes ++ rest))) (length front) s
          ≡ batch (length (front ++ bytes)) s1 =
        round-frame crc32 small replay faults front rest b s v
          (quiet faults q (read_header (length front))) (quiet faults q (read_body (length front)))
        ∙ rw one in
      rw
        (
          file,
          loop_batch fuel _ _ _ _ s s1 here,
          ← append_assoc front bytes rest,
          loop-frames fuel bs (front ++ bytes) tail s1 s' (omega arith) vs t more,
        )
        (rw (append_assoc front bytes (frames crc32 bs)))

  length-frames : (bs : List Batch) → length bs ≤ length (frames crc32 bs)
  unfolding frames
  length-frames [] = omega arith
  length-frames (b ∷ bs) =
      let body = frame_body b.first b.records in
      omega (
        arith,
        length-frames bs,
        length-append (frame crc32 body) (frames crc32 bs),
        length-frame crc32 body,
      )

  scan_checks-magic : (rest : Bytes) → scan_checks crc32 replay faults (magic ++ rest) ≡ ok tt
  unfolding scan_checks bytes_eq
  scan_checks-magic rest = ground (arith, q sync_directory, q seek_start, q read_magic)

  open_checks-fit :
      (max_bytes : ℕ) (file : Bytes)
      → length file ≤ max_bytes
      → open_checks crc32 replay faults max_bytes file ≡ ok tt
  unfolding open_checks
  open_checks-fit max_bytes file h =
      ground (arith, q ensure_directory, q open_file, q lock, q metadata)

  write_header-magic :
      (rest : Bytes) → write_header crc32 replay faults (magic ++ rest) ≡ (ok tt, magic ++ rest)
  unfolding write_header
  write_header-magic rest = ground arith

  -- A file that begins with the magic and fits is scanned as it is.
  open_wal-scan :
      (max_bytes : ℕ) (rest : Bytes) (s : S)
      → length (magic ++ rest) ≤ max_bytes
      → open_wal crc32 replay faults max_bytes (magic ++ rest) s
        ≡ scan crc32 replay faults max_bytes (magic ++ rest) s
  unfolding open_wal
  open_wal-scan max_bytes rest s fits =
      rw (open_checks-fit max_bytes (magic ++ rest) fits, open_wal, write_header-magic rest)

  scan-magic :
      (max_bytes : ℕ) (rest : Bytes) (s : S) (size : ℕ) (s' : S) (file : Bytes)
      → open_loop crc32 replay faults
          (suc (length (magic ++ rest)))
          (magic ++ rest)
          (length (magic ++ rest))
          8
          s
        ≡ some (ok (size, s'), file)
      → scan crc32 replay faults max_bytes (magic ++ rest) s
        ≡ some (ok (record { file = file; bytes = size; max_bytes = max_bytes }, s'), file)
  unfolding scan opened
  scan-magic max_bytes rest s size s' file e =
      rw (scan_checks-magic rest, scan, e) (ground (arith, q seek_end))

  -- Opening a file that holds whole batches and a torn tail replays exactly those batches, in order,
  -- cuts the tail, and leaves the file as if the tail had never been written.
  pub open_wal-image :
      (max_bytes : ℕ) (bs : List Batch) (tail : Bytes) (s s' : S)
      → length (image crc32 bs ++ tail) ≤ max_bytes
      → All IsBatch bs
      → IsTorn crc32 tail
      → replay_all replay bs s ≡ ok s'
      → open_wal crc32 replay faults max_bytes (image crc32 bs ++ tail) s
        ≡ some (
          ok (
            record {
              file = image crc32 bs;
              bytes = length (image crc32 bs);
              max_bytes = max_bytes;
            },
            s',
          ),
          image crc32 bs,
        )
  unfolding image
  open_wal-image max_bytes bs tail s s' fits v t r =
      let rest = frames crc32 bs ++ tail in
      let assoc : (magic ++ frames crc32 bs) ++ tail ≡ magic ++ rest =
        append_assoc magic (frames crc32 bs) tail in
      let enough : length bs < suc (length (magic ++ rest)) =
        omega (arith, length-frames bs, length-append (frames crc32 bs) tail) in
      let loop = loop-frames (suc (length (magic ++ rest))) bs magic tail s s' enough v t r in
      subst
        (λ z.
          open_wal crc32 replay faults max_bytes z s
          ≡ some (
            ok (
              record {
                file = image crc32 bs;
                bytes = length (image crc32 bs);
                max_bytes = max_bytes;
              },
              s',
            ),
            image crc32 bs,
          ))
        (sym assoc)
        (open_wal-scan max_bytes rest s (subst (λ z. length z ≤ max_bytes) assoc fits)
          ∙ scan-magic max_bytes rest s _ s' _ loop)
