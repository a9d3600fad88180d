-- ===== src/Wal/Cutting.antt =====
-- wal.rs `open`: what the loop and the scan leave of a file that has its header.
use velo_bus.Prelude.{
  ℕ, zero, suc, ◌+◌, ◌≤◌, ◌≡◌, ◌≢◌, inl, inr, refl, sym, ap, ◌∙◌, List, length, length-take, take,
  take_all, Option, none, some, arith,
}
use mathlib.Core.Option
use velo_bus.Protocol.Types.{Bytes, Error, Result, ok, err, Record}
use velo_bus.Wal.{Wal, Faults, attempt, magic, set_length, sync_length, seek_end}
use velo_bus.Wal.Open.{round, truncate_tail, after_cut, open_loop, opened, scan_checks, scan}
use velo_bus.Wal.Termination.{result_cases, round-Forward, round_cases, scan_checks-size}

-- The file is left as it was or is cut behind its header; one that was empty has a part of the
-- header at most, or all of it. A log that is opened has what is left.
pub record Left {S : Type 0} (file : Bytes) (r : Result (Wal × S)) (left : Bytes) : Type 0 where
  pub kept : length file ≢ 0 → (k : ℕ) × (8 ≤ k) × (left ≡ take k file)
  pub fresh : length file ≡ 0 → (k : ℕ) × (left ≡ take k magic)
  pub log : (w : Wal) (s : S) → r ≡ ok (w, s) → (w.file ≡ left) × (w.bytes ≡ length left)

-- The same of the loop, which knows the length only.
record Cut {S : Type 0} (file : Bytes) (r : Result (ℕ × S)) (left : Bytes) : Type 0 where
  kept : (k : ℕ) × (8 ≤ k) × (left ≡ take k file)
  size : (n : ℕ) (s : S) → r ≡ ok (n, s) → n ≡ length left

pub whole : (file : Bytes) → (k : ℕ) × (8 ≤ k) × (file ≡ take k file)
whole file = (8 + length file, omega arith, sym (take_all (8 + length file) file (omega arith)))

pub err-is-not-ok : {A : Type 0} {e : Error} {a : A} → err e ≡ ok a → ⊥
err-is-not-ok q = cc

module _ {S : Type 0} (crc32 : Bytes → ℕ) (replay : S → ℕ → List Record → Result S)
    (faults : Faults) (file : Bytes) where
  ok-size : (m n : ℕ) (s t : S) → ◌≡◌ {A = Result (ℕ × S)} (ok (m, s)) (ok (n, t)) → n ≡ m
  ok-size m n s t q = cc

  abbrev Cuts : Option (Result (ℕ × S) × Bytes) → Type 0
  Cuts none = Unit {0}
  Cuts (some (r, left)) = Cut file r left

  untouched-Cut :
      (r : Result (ℕ × S)) → ((n : ℕ) (s : S) → r ≡ ok (n, s) → n ≡ length file) → Cut file r file
  untouched-Cut r h = record { kept = whole file; size = h }

  torn-Cut :
      (position : ℕ) (s : S)
      → 8 ≤ position
      → position ≤ length file
      → Cuts (
          some (
            after_cut crc32 replay faults
              (truncate_tail crc32 replay faults file position)
              position
              s))
  unfolding truncate_tail
  torn-Cut position s lo hi = elim (result_cases (attempt faults (set_length position))) [
    | inr (e, q) ↦ rw (truncate_tail, q) (untouched-Cut (err e) (λ n t z. absurd (err-is-not-ok z)))
    | inl (u, q) ↦ elim (result_cases (attempt faults (sync_length position))) [
      | inr (e, z) ↦
          rw (truncate_tail, q, z)
            (record { kept = (position, lo, refl); size = λ n t x. absurd (err-is-not-ok x) })
      | inl (v, z) ↦
          rw (truncate_tail, q, z)
            (record {
              kept = (position, lo, refl);
              size =
                  λ n t x. omega (arith, ok-size position n s t x, length-take position file, hi);
            })
    ]
  ]

  open_loop-Cuts :
      (fuel position : ℕ) (s : S)
      → 8 ≤ position
      → position ≤ length file
      → Cuts (open_loop crc32 replay faults fuel file (length file) position s)
  unfolding open_loop
  open_loop-Cuts zero position s lo hi = tt
  open_loop-Cuts (suc fuel) position s lo hi =
      elim (round_cases crc32 replay faults
        (round crc32 replay faults file (length file) position s)) [
          | inl e ↦
              rw (open_loop, e)
                (untouched-Cut (ok (length file, s)) (λ n t z. ok-size (length file) n s t z))
          | inr (inl e) ↦ rw (open_loop, e) (torn-Cut position s lo hi)
          | inr (inr (inr (x, e))) ↦
              rw (open_loop, e) (untouched-Cut (err x) (λ n t z. absurd (err-is-not-ok z)))
          | inr (inr (inl (end, s', e))) ↦
              let (lt, le) =
                (round-Forward crc32 replay faults file (length file) position s).forward end s'
                  e in
              rw (open_loop, e) (open_loop-Cuts fuel end s' (omega (arith, lo, lt)) le)
        ]

  -- What the scan of a file that has its header leaves.
  pub record Scanned (r : Result (Wal × S)) (left : Bytes) : Type 0 where
    pub kept : (k : ℕ) × (8 ≤ k) × (left ≡ take k file)
    pub log : (w : Wal) (s : S) → r ≡ ok (w, s) → (w.file ≡ left) × (w.bytes ≡ length left)

  abbrev pub Scans : Option (Result (Wal × S) × Bytes) → Type 0
  Scans none = Unit {0}
  Scans (some (r, left)) = Scanned r left

  opened-Scanned :
      (max_bytes : ℕ) (o : Result (ℕ × S) × Bytes)
      → Cut file o.0 o.1
      → Scans (some (opened crc32 replay faults max_bytes o))
  unfolding opened
  opened-Scanned max_bytes (err e, left) c = record {
    kept = c.kept;
    log = λ w s z. absurd (err-is-not-ok z);
  }
  opened-Scanned max_bytes (ok (size, s), left) c = elim (result_cases (attempt faults seek_end)) [
    | inr (e, q) ↦
        rw (opened, q) (record { kept = c.kept; log = λ w t z. absurd (err-is-not-ok z) })
    | inl (u, q) ↦
        rw (opened, q)
          (record {
            kept = c.kept;
            log = λ w t z.
                let same = of_log w t z in
                (
                  ap (λ (l : Wal). l.file) same,
                  ap (λ (l : Wal). l.bytes) same ∙ c.size size s refl,
                );
          })
  ]
    where
      of_log :
          (w : Wal) (t : S)
          → ◌≡◌ {A = Result (Wal × S)}
              (ok (record { file = left; bytes = size; max_bytes = max_bytes }, s))
              (ok (w, t))
          → w ≡ record { file = left; bytes = size; max_bytes = max_bytes }
      of_log w t z = cc

  pub scan-Scans : (max_bytes : ℕ) (s : S) → Scans (scan crc32 replay faults max_bytes file s)
  unfolding scan
  scan-Scans max_bytes s = elim (result_cases (scan_checks crc32 replay faults file)) [
    | inr (e, q) ↦
        rw (scan, q) (record { kept = whole file; log = λ w t z. absurd (err-is-not-ok z) })
    | inl (u, q) ↦
        rw (scan, q)
          (mapped (open_loop crc32 replay faults (suc (length file)) file (length file) 8 s) (
            open_loop-Cuts (suc (length file)) 8 s (omega arith)
              (scan_checks-size crc32 replay faults file u q)))
  ]
    where
      mapped :
          (o : Option (Result (ℕ × S) × Bytes))
          → Cuts o
          → Scans (Option.map (opened crc32 replay faults max_bytes) o)
      mapped none c = tt
      mapped (some o) c = opened-Scanned max_bytes o c
