-- ===== src/Wal/Keeping.antt =====
-- wal.rs `open`: what opening a log leaves of the file, however it ends.
use velo_bus.Prelude.{
  ℕ, ◌≡◌, ◌≢◌, inl, inr, refl, sym, subst, List, ◌==◌, length, take, take_all, Option, none, some,
  arith, Bool-cases,
}
use velo_bus.Protocol.Types.{Bytes, Error, Result, err, Record}
use velo_bus.Wal.{Wal, Faults, attempt, magic, write_magic, sync_magic}
use velo_bus.Wal.Open.{write_header, after_header, open_checks, open_wal}
use velo_bus.Wal.Termination.{result_cases}
use velo_bus.Wal.Cutting.{Left, Scans, err-is-not-ok, scan-Scans, whole}

module _ {S : Type 0} (crc32 : Bytes → ℕ) (replay : S → ℕ → List Record → Result S)
    (faults : Faults) where
  abbrev Leaves : Bytes → Option (Result (Wal × S) × Bytes) → Type 0
  Leaves file none = Unit {0}
  Leaves file (some (r, left)) = Left file r left

  -- A file that is not empty has its header checked, and an empty one gets it.
  stale-Leaves :
      (file : Bytes) (o : Option (Result (Wal × S) × Bytes))
      → length file ≢ 0
      → Scans crc32 replay faults file o
      → Leaves file o
  stale-Leaves file none full c = tt
  stale-Leaves file (some (r, left)) full c = record {
    kept = λ _. c.kept;
    fresh = λ z. absurd (full z);
    log = c.log;
  }

  fresh-Leaves :
      (file : Bytes) (o : Option (Result (Wal × S) × Bytes))
      → length file ≡ 0
      → Scans crc32 replay faults magic o
      → Leaves file o
  fresh-Leaves file none empty c = tt
  fresh-Leaves file (some (r, left)) empty c = record {
    kept = λ full. absurd (full empty);
    fresh = λ _. let (k, _, e) = c.kept in (k, e);
    log = c.log;
  }

  part-Leaves :
      (file : Bytes) (e : Error) (k : ℕ)
      → length file ≡ 0
      → Leaves file (some (err e, take k magic))
  part-Leaves file e k empty = record {
    kept = λ full. absurd (full empty);
    fresh = λ _. (k, refl);
    log = λ w s z. absurd (err-is-not-ok z);
  }

  headed-Leaves :
      (max_bytes : ℕ) (file : Bytes) (s : S)
      → Leaves file
          (after_header crc32 replay faults max_bytes (write_header crc32 replay faults file) s)
  unfolding write_header
  headed-Leaves max_bytes file s = elim (Bool-cases (length file == 0)) [
    | inr full ↦
        rw (write_header, full)
          (stale-Leaves file _ (λ z. absurd (ground (arith, z, full)))
            (scan-Scans crc32 replay faults file max_bytes s))
    | inl t ↦
        let empty : length file ≡ 0 = ground (arith, t) in
        elim (result_cases (attempt faults write_magic)) [
          | inr (e, q) ↦ rw (write_header, t, q) (part-Leaves file e faults.magic_written empty)
          | inl (u, q) ↦ elim (result_cases (attempt faults sync_magic)) [
            | inr (e, z) ↦ rw (write_header, t, q, z) (part-Leaves file e 8 empty)
            | inl (v, z) ↦
                rw (write_header, t, q, z)
                  (fresh-Leaves file _ empty (scan-Scans crc32 replay faults magic max_bytes s))
          ]
        ]
  ]

  open_wal-Leaves :
      (max_bytes : ℕ) (file : Bytes) (s : S)
      → Leaves file (open_wal crc32 replay faults max_bytes file s)
  unfolding open_wal
  open_wal-Leaves max_bytes file s =
      elim (result_cases (open_checks crc32 replay faults max_bytes file)) [
        | inr (e, q) ↦
            rw (open_wal, q)
              (record {
                kept = λ _. whole file;
                fresh = λ empty. (0, sym (take_all 0 file (omega (arith, empty))));
                log = λ w t z. absurd (err-is-not-ok z);
              })
        | inl (u, q) ↦ rw (open_wal, q) (headed-Leaves max_bytes file s)
      ]

  -- However opening ends, whatever the file holds and whichever calls of the operating system fail:
  -- a file that is not empty is left as it was, or cut somewhere behind its header of 8 bytes; one
  -- that is empty is left with a part of the header, or all of it; and a log that is opened has the
  -- file that is left, with its length.
  pub open_wal-Left :
      (max_bytes : ℕ) (file left : Bytes) (s : S) (r : Result (Wal × S))
      → open_wal crc32 replay faults max_bytes file s ≡ some (r, left)
      → Left file r left
  open_wal-Left max_bytes file left s r h = subst (Leaves file) h (open_wal-Leaves max_bytes file s)
