-- ===== src/Wal/Open.antt =====
-- wal.rs, lines 48 to 146 and 190 to 194: opening the log. `replay` is the closure that `open` is
-- given, as a step on the state that it captures.
use velo_bus.Prelude.{
  ℕ, zero, suc, ◌+◌, ◌-◌, Bool, not, List, ltb, ◌==◌, if◌then◌else◌, length, take, be_value,
  bytes_eq, bytes_of, Option, none, some,
}
use mathlib.Core.Option
use velo_bus.Protocol.Codes
use velo_bus.Protocol.Types.{Bytes, Error, Result, ok, err, bind, new_error, Record}
use velo_bus.Protocol.Reader.{u64, finish, new}
use velo_bus.Protocol.Decode.{contains, decode_records}
use velo_bus.Wal.{
  Wal, Faults, attempt, as_storage, corrupt, slice, magic, header_bytes, ensure_directory,
  open_file, lock, metadata, write_magic, sync_magic, sync_directory, seek_start, read_magic,
  read_header, read_body, set_length, sync_length, seek_end,
}

-- `if test { return Err(e) }`
abbrev pub guard : Bool → Error → Result (Unit {0})
guard test e = if test then err e else ok tt

pub record Header : Type 0 where
  pub body_length : ℕ
  pub expected_crc : ℕ

-- The fields of a body: the first sequence number and the records.
unfoldable pub parse_body : Bytes → Result (ℕ × List Record)
parse_body body = bind (as_storage (u64 (new body))) λ (first, r).
    bind (as_storage (decode_records r))
      λ (records, r'). bind (as_storage (finish r')) λ _. ok (first, records)

-- How a round of the loop ends: at the end of the file, at a torn tail, behind a batch, or refused.
pub data Round (S : Type 0) : Type 0 where
  clean torn : Round S
  batch : (end : ℕ) → S → Round S
  failed : Error → Round S

abbrev pub or_failed : {A S : Type 0} → Result A → (A → Round S) → Round S
or_failed (ok a) f = f a
or_failed (err e) f = failed e

-- These two calls report a text of their own.
abbrev pub lock_result : Faults → Result (Unit {0})
lock_result faults = elim (faults.fails lock) [
  | none ↦ ok tt
  | some _ ↦ err (new_error Codes.storage "data directory is already locked by another process")
]

abbrev pub magic_result : Faults → Result (Unit {0})
magic_result faults = elim (faults.fails read_magic) [
  | none ↦ ok tt
  | some _ ↦ err (new_error Codes.storage "incomplete WAL file header")
]

module _ (crc32 : Bytes → ℕ) where
  -- The header at a position: both checks, then its fields.
  unfoldable pub parse_header : ℕ → Bytes → Result Header
  parse_header position header =
      let header_crc = be_value (slice header 8 4) in
      let body_length = be_value (take 4 header) in
      bind
        (guard (not (crc32 (take 8 header) == header_crc))
          (corrupt (bytes_of "WAL header checksum mismatch") position))
        λ _.
          bind
            (guard (not (contains 19 (Codes.max_frame + 3) body_length))
              (corrupt (bytes_of "invalid WAL batch length") position))
            λ _.
              ok (record { body_length = body_length; expected_crc = be_value (slice header 4 4) })

  -- The body of a batch: its check, then its fields.
  unfoldable pub check_body : ℕ → ℕ → Bytes → Result (ℕ × List Record)
  unfolding parse_body
  check_body position expected_crc body =
      bind
        (guard (not (crc32 body == expected_crc))
          (corrupt (bytes_of "WAL batch checksum mismatch") position))
        λ _. parse_body body

  module _ {S : Type 0} (replay : S → ℕ → List Record → Result S) (faults : Faults) where
    unfoldable pub replay_body : Bytes → ℕ → Header → S → Round S
    unfolding check_body
    replay_body file position header s =
        let end = position + header_bytes + header.body_length in
        or_failed (attempt faults (read_body position)) λ _.
          or_failed
            (check_body position header.expected_crc
              (slice file (position + header_bytes) header.body_length))
            λ (first, records). or_failed (replay s first records) λ s'. batch end s'

    -- The body of the `while`, with its test.
    unfoldable pub round : Bytes → ℕ → ℕ → S → Round S
    unfolding replay_body parse_header
    round file size position s =
        if not (ltb position size)
        then clean
        else if ltb (size - position) header_bytes
        then torn
        else or_failed (attempt faults (read_header position)) λ _.
          or_failed (parse_header position (slice file position header_bytes)) λ header.
            if ltb size (position + header_bytes + header.body_length)
            then torn
            else replay_body file position header s

    -- `truncate_tail`, and the file that it leaves: cut as soon as `set_len` succeeds.
    unfoldable pub truncate_tail : Bytes → ℕ → Result (Unit {0}) × Bytes
    truncate_tail file size = elim (attempt faults (set_length size)) [
      | err e ↦ (err e, file)
      | ok _ ↦ (attempt faults (sync_length size), take size file)
    ]

    -- What the loop leaves: the length and the state, or an error, and the file.
    abbrev pub Outcome : Type 0
    Outcome = Result (ℕ × S) × Bytes

    abbrev pub after_cut : Result (Unit {0}) × Bytes → ℕ → S → Outcome
    after_cut (ok _, file) position s = (ok (position, s), file)
    after_cut (err e, file) position s = (err e, file)

    -- `none` when the fuel runs out.
    unfoldable pub open_loop : ℕ → Bytes → ℕ → ℕ → S → Option Outcome
    open_loop zero file size position s = none
    open_loop (suc fuel) file size position s = elim (round file size position s) [
      | clean ↦ some (ok (size, s), file)
      | torn ↦ some (after_cut (truncate_tail file position) position s)
      | batch end s' ↦ open_loop fuel file size end s'
      | failed e ↦ some (err e, file)
    ]

    -- An empty file gets the magic, whole or, where the write fails, a part of it.
    unfoldable pub write_header : Bytes → Result (Unit {0}) × Bytes
    write_header file =
        if length file == 0
        then elim (attempt faults write_magic) [
          | err e ↦ (err e, take faults.magic_written magic)
          | ok _ ↦ (attempt faults sync_magic, magic)
        ]
        else (ok tt, file)

    unfoldable pub opened : ℕ → Outcome → Result (Wal × S) × Bytes
    opened max_bytes (err e, file) = (err e, file)
    opened max_bytes (ok (size, s), file) = (
      bind (attempt faults seek_end)
          (λ _. ok (record { file = file; bytes = size; max_bytes = max_bytes }, s)),
      file,
    )

    -- From the synchronisation of the directory up to the loop.
    unfoldable pub scan_checks : Bytes → Result (Unit {0})
    scan_checks file = bind (attempt faults sync_directory) λ _.
        bind (attempt faults seek_start) λ _.
          bind (guard (ltb (length file) 8) (new_error Codes.storage "incomplete WAL file header"))
            λ _. bind (magic_result faults) λ _.
              guard (not (bytes_eq (take 8 file) magic))
                (new_error Codes.storage "invalid WAL file header")

    -- The loop, with a round of fuel for each byte of the file, and the last seek.
    unfoldable pub scan : ℕ → Bytes → S → Option (Result (Wal × S) × Bytes)
    scan max_bytes file s = elim (scan_checks file) [
      | err e ↦ some (err e, file)
      | ok _ ↦ Option.map (opened max_bytes) (open_loop (suc (length file)) file (length file) 8 s)
    ]

    abbrev pub after_header : ℕ → Result (Unit {0}) × Bytes → S → Option (Result (Wal × S) × Bytes)
    after_header max_bytes (err e, file) s = some (err e, file)
    after_header max_bytes (ok _, file) s = scan max_bytes file s

    unfoldable pub open_checks : ℕ → Bytes → Result (Unit {0})
    open_checks max_bytes file = bind (attempt faults ensure_directory) λ _.
        bind (attempt faults open_file) λ _. bind (lock_result faults) λ _.
          bind (attempt faults metadata) λ _.
            guard (ltb max_bytes (length file))
              (new_error Codes.capacity "existing WAL exceeds configured max-wal-bytes")

    -- `Wal::open` on a file with this content: the log and the replayed state, or an error, and
    -- the content that is left.
    unfoldable pub open_wal : ℕ → Bytes → S → Option (Result (Wal × S) × Bytes)
    open_wal max_bytes file s = elim (open_checks max_bytes file) [
      | err e ↦ some (err e, file)
      | ok _ ↦ after_header max_bytes (write_header file) s
    ]
