-- ===== src/Wal/Termination.antt =====
-- wal.rs `Wal::open`: its loop ends, for each round that goes on moves forward within the file.
use velo_bus.Prelude.{
  ℕ, zero, suc, ◌+◌, ◌-◌, ◌<◌, ◌≤◌, ◌≡◌, ◌≢◌, ◌⊎◌, inl, inr, refl, Bool, true, false, not, List,
  length, arith, ltb, if◌then◌else◌, Option, none, some,
}
use mathlib.Core.Option
use velo_bus.Protocol.Types.{Bytes, Error, Result, ok, err, new_error, Record}
use velo_bus.Protocol.Codes
use velo_bus.Protocol.Consumes.{bind-ok}
use velo_bus.Wal.{
  Faults, attempt, header_bytes, slice, read_header, read_body, sync_directory, seek_start,
}
use velo_bus.Wal.Open.{
  guard, Header, Round, clean, torn, batch, failed, or_failed, parse_header, check_body,
  replay_body, round, open_loop, write_header, scan_checks, scan, after_header, open_checks,
  open_wal,
}

clean-ne-batch : {S : Type 0} {n : ℕ} {s : S} → clean ≡ batch n s → ⊥
clean-ne-batch h = cc

torn-ne-batch : {S : Type 0} {n : ℕ} {s : S} → torn ≡ batch n s → ⊥
torn-ne-batch h = cc

failed-ne-batch : {S : Type 0} {e : Error} {n : ℕ} {s : S} → failed e ≡ batch n s → ⊥
failed-ne-batch h = cc

batch-end : {S : Type 0} {m n : ℕ} {s t : S} → batch m s ≡ batch n t → m ≡ n
batch-end h = cc

-- A round that goes on ends behind its start, and not beyond the end.
pub record Forward {S : Type 0} (position size : ℕ) (r : Round S) : Type 0 where
  pub forward : (end : ℕ) (s : S) → r ≡ batch end s → (position < end) × (end ≤ size)

failed-Forward :
    {S : Type 0} (position size : ℕ) (e : Error) → Forward {S = S} position size (failed e)
failed-Forward position size e = record { forward = λ end s h. absurd (failed-ne-batch h) }

or_failed-Forward :
    {A S : Type 0} (position size : ℕ) (o : Result A) (f : A → Round S)
    → ((a : A) → Forward position size (f a))
    → Forward position size (or_failed o f)
or_failed-Forward position size (ok a) f h = h a
or_failed-Forward position size (err e) f h = failed-Forward position size e

clean-Forward : {S : Type 0} (position size : ℕ) → Forward {S = S} position size clean
clean-Forward position size = record { forward = λ end s h. absurd (clean-ne-batch h) }

torn-Forward : {S : Type 0} (position size : ℕ) → Forward {S = S} position size torn
torn-Forward position size = record { forward = λ end s h. absurd (torn-ne-batch h) }

batch-Forward :
    {S : Type 0} (position size end : ℕ) (s : S)
    → position < end
    → end ≤ size
    → Forward position size (batch end s)
batch-Forward position size end s lt le = record {
  forward = λ end' s' h. let e = batch-end h in (omega (arith, lt, e), omega (arith, le, e));
}

map-none : {A B : Type 0} (f : A → B) (o : Option A) → Option.map f o ≡ none → o ≡ none
map-none f none h = refl
map-none f (some a) h = cc

pub result_cases :
    {A : Type 0} → (o : Result A) → ((a : A) × (o ≡ ok a)) ⊎ ((e : Error) × (o ≡ err e))
result_cases (ok a) = inl (a, refl)
result_cases (err e) = inr (e, refl)

some_is_not_none : {A : Type 0} {a : A} → some a ≡ none → ⊥
some_is_not_none h = cc

module _ (crc32 : Bytes → ℕ) {S : Type 0} (replay : S → ℕ → List Record → Result S)
    (faults : Faults) where
  replay_body-Forward :
      (file : Bytes) (size position : ℕ) (header : Header) (s : S)
      → position + header_bytes + header.body_length ≤ size
      → Forward position size (replay_body crc32 replay faults file position header s)
  unfolding replay_body
  replay_body-Forward file size position header s fits =
      or_failed-Forward position size (attempt faults (read_body position)) _ λ _.
        or_failed-Forward position size
          (check_body crc32 position header.expected_crc
            (slice file (position + header_bytes) header.body_length))
          _
          λ (first, records). or_failed-Forward position size (replay s first records) _ λ s'.
            batch-Forward position size (position + header_bytes + header.body_length) s'
              (omega arith) fits

  if-Forward :
      (position size : ℕ) (b : Bool) (r t : Round S)
      → Forward position size r
      → (b ≡ false → Forward position size t)
      → Forward position size (if b then r else t)
  if-Forward position size true r t hr ht = hr
  if-Forward position size false r t hr ht = ht refl

  pub round-Forward :
      (file : Bytes) (size position : ℕ) (s : S)
      → Forward position size (round crc32 replay faults file size position s)
  unfolding round
  round-Forward file size position s =
      if-Forward position size (not (ltb position size)) clean _ (clean-Forward position size) λ _.
        if-Forward position size (ltb (size - position) header_bytes) torn _
          (torn-Forward position size)
          λ _. or_failed-Forward position size (attempt faults (read_header position)) _ λ _.
            or_failed-Forward position size
              (parse_header crc32 position (slice file position header_bytes)) _
              λ header.
                if-Forward position size (ltb size (position + header_bytes + header.body_length))
                  torn _ (torn-Forward position size)
                  λ fits. replay_body-Forward file size position header s (ground arith)

  pub round_cases :
      (r : Round S)
      → (r ≡ clean)
        ⊎ ((r ≡ torn)
            ⊎ (((end : ℕ) × (s : S) × (r ≡ batch end s)) ⊎ ((e : Error) × (r ≡ failed e))))
  round_cases clean = inl refl
  round_cases torn = inr (inl refl)
  round_cases (batch end s) = inr (inr (inl (end, s, refl)))
  round_cases (failed e) = inr (inr (inr (e, refl)))

  open_loop-ends :
      (fuel : ℕ) (file : Bytes) (size position : ℕ) (s : S)
      → size < fuel + position
      → position ≤ size
      → open_loop crc32 replay faults fuel file size position s ≢ none
  unfolding open_loop
  open_loop-ends zero file size position s enough at h = absurd (omega arith)
  open_loop-ends (suc fuel) file size position s enough at h =
      elim (round_cases (round crc32 replay faults file size position s)) [
        | inl e ↦ some_is_not_none (rw (open_loop, e) at h)
        | inr (inl e) ↦ some_is_not_none (rw (open_loop, e) at h)
        | inr (inr (inr (_, e))) ↦ some_is_not_none (rw (open_loop, e) at h)
        | inr (inr (inl (end, s', e))) ↦
            let (lt, le) = (round-Forward file size position s).forward end s' e in
            open_loop-ends fuel file size end s' (omega arith) le (rw (open_loop, e) at h)
      ]

  pub scan_checks-size :
      (file : Bytes) (u : Unit {0}) → scan_checks crc32 replay faults file ≡ ok u → 8 ≤ length file
  unfolding scan_checks
  scan_checks-size file u h =
      let (_, _, h1) = bind-ok (attempt faults sync_directory) _ h in
      let (_, _, h2) = bind-ok (attempt faults seek_start) _ h1 in
      let (_, fits, _) =
        bind-ok (guard (ltb (length file) 8) (new_error Codes.storage "incomplete WAL file header"))
          _ h2 in
      ground (arith, fits)

  scan-ends :
      (max_bytes : ℕ) (file : Bytes) (s : S) → scan crc32 replay faults max_bytes file s ≢ none
  unfolding scan
  scan-ends max_bytes file s h = elim (result_cases (scan_checks crc32 replay faults file)) [
    | inr (_, e) ↦ some_is_not_none (rw (scan, e) at h)
    | inl (u, e) ↦
        open_loop-ends (suc (length file)) file (length file) 8 s (omega arith)
          (scan_checks-size file u e) (map-none _ _ (rw (scan, e) at h))
  ]

  after_header-ends :
      (max_bytes : ℕ) (r : Result (Unit {0}) × Bytes) (s : S)
      → after_header crc32 replay faults max_bytes r s ≢ none
  after_header-ends max_bytes (err e, file) s h = some_is_not_none h
  after_header-ends max_bytes (ok _, file) s h = scan-ends max_bytes file s h

  -- Opening a log ends with a result, an error or a log, whatever the file holds and whichever
  -- calls of the operating system fail: the fuel of the loop is enough.
  pub open_wal-ends :
      (max_bytes : ℕ) (file : Bytes) (s : S) → open_wal crc32 replay faults max_bytes file s ≢ none
  unfolding open_wal
  open_wal-ends max_bytes file s h =
      elim (result_cases (open_checks crc32 replay faults max_bytes file)) [
        | inr (_, e) ↦ some_is_not_none (rw (open_wal, e) at h)
        | inl (u, e) ↦
            after_header-ends max_bytes (write_header crc32 replay faults file) s
              (rw (open_wal, e) at h)
      ]
