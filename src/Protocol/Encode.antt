-- ===== src/Protocol/Encode.antt =====
-- protocol.rs, lines 296 to 330: the encoders. A writer into `out` returns the longer buffer.
use velo_bus.Prelude.{ℕ, ◌+◌, ◌%◌, ◌^◌, List, [], ◌∷◌, ◌++◌, length, be_bytes}
use velo_bus.Protocol.Types.{Bytes, Error, Record}

unfoldable pub put_string : Bytes → Bytes → Bytes
put_string out value = (out ++ be_bytes 2 (length value % 2 ^ 16)) ++ value

unfoldable pub encode_record : Bytes → Record → Bytes
unfolding put_string
encode_record out r =
    (put_string (put_string out r.topic) r.key ++ be_bytes 4 (length r.payload % 2 ^ 32))
    ++ r.payload

-- The loop of `encode_records`.
unfoldable pub encode_each : Bytes → List Record → Bytes
unfolding encode_record
encode_each out [] = out
encode_each out (r ∷ rs) = encode_each (encode_record out r) rs

unfoldable pub encode_records : List Record → Bytes
unfolding encode_each
encode_records records = encode_each (be_bytes 2 (length records % 2 ^ 16)) records

unfoldable pub envelope : ℕ → ℕ → Bytes → Bytes
envelope opcode request_id body =
    ((be_bytes 4 ((5 + length body) % 2 ^ 32) ++ opcode ∷ []) ++ be_bytes 4 request_id) ++ body

unfoldable pub error_body : Error → Bytes
unfolding put_string
error_body e = put_string (be_bytes 2 e.code) e.message
