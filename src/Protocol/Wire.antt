-- ===== src/Protocol/Wire.antt =====
-- The grammar of docs/PROTOCOL.md and docs/RPC-PROTOCOL.md, written apart from the decoders: what
-- bytes stand for a request, and which requests are within the limits.
use velo_bus.Prelude.{
  ℕ, ◌≤◌, ◌<◌, ◌^◌, ◌%◌, ◌≡◌, Bool, true, false, List, [], ◌∷◌, ◌++◌, length, be_bytes, All,
  if◌then◌else◌,
}
use velo_bus.Protocol.Codes
use velo_bus.Protocol.Types.{
  Bytes, Result, ok, Record, Fetch, Request, hello, publish, fetch, stats, ping, register, rpc,
  complete,
}
use velo_bus.Protocol.Types
use velo_bus.Protocol.Utf8.{is_utf8}
use velo_bus.Protocol.Decode.{validate_topic}

-- A string is its length in two bytes, and its bytes.
unfoldable pub string_bytes : Bytes → Bytes
string_bytes s = be_bytes 2 (length s % 2 ^ 16) ++ s

-- The limits that the broker puts on a record.
pub record IsRecord (r : Record) : Type 0 where
  pub topic : validate_topic r.topic false ≡ ok tt
  pub key_size : length r.key ≤ 1024
  pub key_utf8 : is_utf8 r.key ≡ true
  pub payload_size : length r.payload ≤ Codes.max_payload

-- The bytes of a record, and of the records of a batch.
unfoldable pub record_bytes : Record → Bytes
record_bytes r =
    string_bytes r.topic
    ++ (string_bytes r.key ++ (be_bytes 4 (length r.payload % 2 ^ 32) ++ r.payload))

unfoldable pub batch_bytes : List Record → Bytes
batch_bytes [] = []
batch_bytes (r ∷ rs) = record_bytes r ++ batch_bytes rs

abbrev pub IsText : ℕ → Bytes → Type 0
IsText max_length s = (length s ≤ max_length) × (is_utf8 s ≡ true)

abbrev pub Within : ℕ → ℕ → ℕ → Type 0
Within lo hi n = (lo ≤ n) × (n ≤ hi)

abbrev pub opcode_of : Request → ℕ
opcode_of (hello version token) = 1
opcode_of (publish records) = 2
opcode_of (fetch f) = 3
opcode_of stats = 4
opcode_of ping = 5
opcode_of (register route concurrency queue_limit) = 6
opcode_of (rpc route timeout_ms payload) = 7
opcode_of (Types.take wait_ms) = 8
opcode_of (complete call_id failed payload) = 9

abbrev pub flag : Bool → ℕ
flag b = if b then 1 else 0

unfoldable pub request_bytes : Request → Bytes
request_bytes (hello version token) = be_bytes 2 version ++ string_bytes token
request_bytes (publish records) = be_bytes 2 (length records) ++ batch_bytes records
request_bytes (fetch f) =
    string_bytes f.topic
    ++ (be_bytes 8 f.after
        ++ (be_bytes 2 f.limit ++ (be_bytes 4 f.max_bytes ++ flag f.latest ∷ [])))
request_bytes stats = []
request_bytes ping = []
request_bytes (register route concurrency queue_limit) =
    string_bytes route ++ (be_bytes 2 concurrency ++ be_bytes 2 queue_limit)
request_bytes (rpc route timeout_ms payload) =
    string_bytes route ++ (be_bytes 4 timeout_ms ++ (be_bytes 4 (length payload) ++ payload))
request_bytes (Types.take wait_ms) = be_bytes 4 wait_ms
request_bytes (complete call_id failed payload) =
    be_bytes 8 call_id ++ (flag failed ∷ (be_bytes 4 (length payload) ++ payload))

abbrev pub IsRequest : Request → Type 0
IsRequest (hello version token) = (version < 2 ^ 16) × IsText 65535 token
IsRequest (publish records) = Within 1 Codes.max_batch (length records) × All IsRecord records
IsRequest (fetch f) =
    (validate_topic f.topic true ≡ ok tt)
    × (f.after < 2 ^ 64)
    × Within 1 Codes.max_batch f.limit
    × Within 1 Codes.max_fetch_bytes f.max_bytes
IsRequest stats = Unit {0}
IsRequest ping = Unit {0}
IsRequest (register route concurrency queue_limit) =
    (validate_topic route false ≡ ok tt) × Within 1 256 concurrency × Within 1 4096 queue_limit
IsRequest (rpc route timeout_ms payload) =
    (validate_topic route false ≡ ok tt)
    × Within 1 30_000 timeout_ms
    × (length payload ≤ Codes.max_payload)
IsRequest (Types.take wait_ms) = Within 1 1000 wait_ms
IsRequest (complete call_id failed payload) =
    (call_id < 2 ^ 64)
    × (length payload ≤ Codes.max_payload)
    × (failed ≡ true → (length payload ≤ 4096) × (is_utf8 payload ≡ true))
