-- ===== src/Server.antt =====
-- crates/velobus/src/main.rs, lines 218 to 281: the frames of a connection. A stream is the bytes
-- that arrive; where they run out, the read ends with an error of the socket or of its timeout.
pub mod Framing
pub mod Handshake
pub mod Connection
pub mod Dispatch
pub mod Serve
pub mod Config
pub mod Runs
use velo_bus.Prelude.{
  ℕ, ◌+◌, ◌-◌, ◌≤◌, Bool, true, false, not, ◌&&◌, List, [], ◌∷◌, ltb, leb, ◌==◌, if◌then◌else◌,
  length, take, drop, be_value, Option, none, some,
}
use velo_bus.Protocol.Codes
use velo_bus.Protocol.Types.{Bytes, new_error}
use velo_bus.Protocol.Reader.{first}
use velo_bus.Protocol.Encode.{envelope, error_body}

-- `valid_length`
unfoldable pub valid_length : ℕ → Bool
valid_length n = leb 5 n && leb n Codes.max_frame

-- How `read_frame` ends: with a frame and the rest of the stream, or with an error.
pub data Framed : Type 0 where
  framed : (opcode request_id : ℕ) → (body rest : Bytes) → Framed
  invalid_length zero_request_id broken_off : Framed

-- The frame's data: opcode, request id and body.
unfoldable pub split_frame : Bytes → Bytes → Framed
split_frame bytes rest =
    if be_value (take 4 (drop 1 bytes)) == 0
    then zero_request_id
    else framed (first bytes) (be_value (take 4 (drop 1 bytes))) (drop 5 bytes) rest

-- Behind the prefix.
unfoldable pub read_data : ℕ → Bytes → Framed
read_data n stream =
    if not (valid_length n)
    then invalid_length
    else if ltb (length stream) n
    then broken_off
    else split_frame (take n stream) (drop n stream)

-- `read_frame`
unfoldable pub read_frame : Bytes → Framed
read_frame stream =
    if ltb (length stream) 4
    then broken_off
    else read_data (be_value (take 4 stream)) (drop 4 stream)

-- `response_frame`
unfoldable pub response_frame : ℕ → ℕ → Bytes → Bytes
response_frame opcode request_id body =
    if ltb (Codes.max_frame - 5) (length body)
    then envelope 255 request_id
        (error_body (new_error Codes.limit "response exceeds maximum frame size"))
    else envelope opcode request_id body

-- `opcode | 128` on a byte.
unfoldable pub reply_opcode : ℕ → ℕ
reply_opcode opcode = if ltb opcode 128 then opcode + 128 else opcode
