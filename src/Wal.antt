-- ===== src/Wal.antt =====
-- crates/velobus/src/wal.rs: the write-ahead log. The file is the list of its bytes, and each call
-- of the operating system may fail: which ones do is an argument. `crc32fast::hash` is a parameter.
pub mod Open
pub mod Layout
pub mod Recovery
pub mod Replay
pub mod Termination
pub mod Cutting
pub mod Keeping
pub mod Runs
use velo_bus.Prelude.{
  ℕ, zero, suc, ◌+◌, ◌-◌, ◌*◌, ◌<◌, ◌^◌, ◌%◌, Bool, true, false, not, ◌&&◌, ◌||◌, List, [], ◌∷◌,
  ◌++◌, ltb, leb, ◌==◌, if◌then◌else◌, length, take, drop, be_bytes, be_value, bytes_eq, bytes_of,
  decimal, Option, none, some,
}
use velo_bus.Protocol.Codes
use velo_bus.Protocol.Types.{
  Bytes, Error, Result, ok, err, bind, new_error, Record, wire_bytes, ◌+u64◌,
}
use velo_bus.Protocol.Reader.{Reader, u64, finish, new}
use velo_bus.Protocol.Decode.{contains, decode_records}
use velo_bus.Protocol.Encode.{encode_records}

-- "VLOWAL01"
abbrev pub magic : Bytes
magic = b'V' ∷ b'L' ∷ b'O' ∷ b'W' ∷ b'A' ∷ b'L' ∷ b'0' ∷ b'1' ∷ []

abbrev pub header_bytes : ℕ
header_bytes = 12

pub record Wal : Type 0 where
  pub file : Bytes
  pub bytes : ℕ
  pub max_bytes : ℕ

-- An I/O error, by the text that it displays.
unfoldable pub storage : Bytes → Error
storage text = record { code = Codes.storage; message = bytes_of "WAL I/O: " ++ text }

-- `.map_err(storage)` on a call of the reader: the error displays its message.
abbrev pub as_storage {ℓ} : {A : Type ℓ} → Result A → Result A
as_storage (ok a) = ok a
as_storage (err e) = err (storage e.message)

-- The calls of the operating system that `open` makes; those of the loop at their position.
pub data Call : Type 0 where
  ensure_directory open_file lock metadata write_magic sync_magic sync_directory seek_start
        read_magic :
      Call
  read_header read_body set_length sync_length : (position : ℕ) → Call
  seek_end : Call

-- Which calls fail, with what text, and how much of the magic a failing write leaves behind.
pub record Faults : Type 0 where
  pub fails : Call → Option Bytes
  pub magic_written : ℕ

abbrev pub attempt : Faults → Call → Result (Unit {0})
attempt faults c = elim (faults.fails c) [ none ↦ ok tt | some text ↦ err (storage text) ]

-- An error of the log at a byte of the file.
unfoldable pub corrupt : Bytes → ℕ → Error
corrupt text position = record {
  code = Codes.storage;
  message = (text ++ bytes_of " at byte ") ++ decimal position;
}

abbrev pub slice : Bytes → ℕ → ℕ → Bytes
slice file from count = take count (drop from file)

-- `batch_bytes`
unfoldable pub wire_sum : List Record → ℕ
wire_sum [] = 0
wire_sum (r ∷ rs) = (wire_bytes r - 8) +u64 wire_sum rs

unfoldable pub batch_bytes : List Record → ℕ
batch_bytes rs = header_bytes + 8 + 2 +u64 wire_sum rs

unfoldable pub check_capacity : Wal → List Record → Result (Unit {0})
check_capacity w rs =
    if ltb (w.max_bytes - w.bytes) (batch_bytes rs)
    then err (new_error Codes.capacity "WAL capacity reached; batch was not written")
    else ok tt

-- How the write and the sync of an append end: a failing write leaves a prefix of the frame.
pub record AppendIo : Type 0 where
  pub write_fails : Option (ℕ × Bytes)
  pub sync_fails : Option Bytes

unfoldable pub frame_body : ℕ → List Record → Bytes
frame_body first rs = be_bytes 8 first ++ encode_records rs

module _ (crc32 : Bytes → ℕ) where
  -- A frame's prefix (length and checksum of the body), and the frame.
  unfoldable pub frame_prefix : Bytes → Bytes
  frame_prefix body = be_bytes 4 (length body % 2 ^ 32) ++ be_bytes 4 (crc32 body)

  unfoldable pub frame : Bytes → Bytes
  unfolding frame_prefix
  frame body = (frame_prefix body ++ be_bytes 4 (crc32 (frame_prefix body))) ++ body

  unfoldable pub finish_append : Wal → Bytes → Option Bytes → Result (Unit {0}) × Wal
  finish_append w written (some text) = (err (storage text), record w { file = w.file ++ written })
  finish_append w written none =
      (ok tt, record w { file = w.file ++ written; bytes = w.bytes +u64 length written })

  unfoldable pub write_frame : Wal → Bytes → AppendIo → Result (Unit {0}) × Wal
  unfolding finish_append
  write_frame w written io = elim io.write_fails [
    | some (n, text) ↦ (err (storage text), record w { file = w.file ++ take n written })
    | none ↦ finish_append w written io.sync_fails
  ]

  unfoldable pub append : Wal → ℕ → List Record → AppendIo → Result (Unit {0}) × Wal
  unfolding write_frame frame frame_body
  append w first rs io = elim (check_capacity w rs) [
    | err e ↦ (err e, w)
    | ok _ ↦ write_frame w (frame (frame_body first rs)) io
  ]
