-- ===== src/Protocol/Runs.antt =====
-- Runs of the codec: a record, requests, and their bytes.
use velo_bus.Prelude.{◌≡◌, refl, List, [], ◌∷◌, arith, be_value}
use velo_bus.Protocol.Types
use velo_bus.Protocol.Types.{
  Bytes, Record, Fetch, Request, Result, ok, publish, fetch, complete, err,
}
use velo_bus.Protocol.Utf8.{is_utf8, valid_from, from_utf8_lossy, from_utf8_lossy-valid}
use velo_bus.Protocol.Decode.{
  validate_topic, all_topic_bytes, decode_request, decode_body, decode_take,
}
use velo_bus.Protocol.Reader.{u32, take, finish}
use velo_bus.Protocol.Encode.{encode_records}
use velo_bus.Protocol.Wire.{IsRecord, IsRequest, opcode_of, request_bytes}
use velo_bus.Protocol.Records.{encode_records-publish}
use velo_bus.Protocol.RoundTrip.{decode_request-request_bytes}
use velo_bus.Protocol.Strict.{decode_request-ok}

abbrev pub small_record : Record
small_record = record { topic = b'a' ∷ b'.' ∷ b'b' ∷ []; key = b'k' ∷ []; payload = 7 ∷ 8 ∷ [] }

pub small_record-IsRecord : IsRecord small_record
unfolding is_utf8 valid_from all_topic_bytes validate_topic
small_record-IsRecord = record {
  topic = refl;
  key_size = omega arith;
  key_utf8 = refl;
  payload_size = omega arith;
}

abbrev batch : List Record
batch = small_record ∷ small_record ∷ []

decode_request-request_bytes_example :
    decode_request 2 (request_bytes (publish batch)) ≡ ok (publish batch)
decode_request-request_bytes_example =
    decode_request-request_bytes (publish batch)
      ((omega arith, omega arith), (small_record-IsRecord, (small_record-IsRecord, tt)))

abbrev take_body : Bytes
take_body = 0 ∷ 0 ∷ 1 ∷ 0 ∷ []

decode_request-ok_example :
    (8 ≡ opcode_of (Types.take 256))
    × (take_body ≡ request_bytes (Types.take 256))
    × IsRequest (Types.take 256)
unfolding decode_request decode_body decode_take u32 take be_value finish
decode_request-ok_example =
    decode_request-ok 8 take_body (Types.take 256)
      (omega arith, (omega arith, (omega arith, (omega arith, tt)))) refl

encode_records-publish_example : encode_records batch ≡ request_bytes (publish batch)
encode_records-publish_example = encode_records-publish batch (omega arith)

from_utf8_lossy-valid_example : from_utf8_lossy (b'o' ∷ b'k' ∷ []) ≡ b'o' ∷ b'k' ∷ []
from_utf8_lossy-valid_example = from_utf8_lossy-valid (b'o' ∷ b'k' ∷ []) (unfold is_utf8 in refl)
