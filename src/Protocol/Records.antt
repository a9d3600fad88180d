-- ===== src/Protocol/Records.antt =====
-- protocol.rs: records are read back from their layout, which is what the encoder writes.
use velo_bus.Prelude.{
  ℕ, ◌+◌, ◌≤◌, ◌<◌, ◌^◌, ◌%◌, ◌≡◌, refl, sym, ap, ◌∙◌, true, false, not, List, [], ◌∷◌, ◌++◌, arith,
  ltb, length, length-append, append_assoc, append-nil, be_bytes, length-be_bytes, All,
}
use velo_bus.Protocol.Codes
use velo_bus.Protocol.Types.{Bytes, ok, Record, publish}
use velo_bus.Protocol.Utf8.{is_utf8, is_utf8_ascii}
use velo_bus.Protocol.Decode.{
  topic_byte, all_topic_bytes, validate_topic, contains, decode_record, decode_loop, decode_records,
}
use velo_bus.Protocol.Encode.{put_string, encode_record, encode_each, encode_records}
use velo_bus.Protocol.Wire.{request_bytes, IsRecord, record_bytes, batch_bytes, string_bytes}
use velo_bus.Protocol.Reads.{
  Reads, pure-Reads, bind-Reads, check-Reads, pass-Reads, last-Reads, take-Reads, u16-Reads,
  u32-Reads, string-Reads,
}

topic_byte_ascii : (b : ℕ) → topic_byte b ≡ true → b < 0x80
unfolding topic_byte
topic_byte_ascii b h = ground arith

all_topic_bytes-ascii : (bs : Bytes) → all_topic_bytes bs ≡ true → All (λ b. b < 0x80) bs
unfolding all_topic_bytes
all_topic_bytes-ascii [] h = tt
all_topic_bytes-ascii (b ∷ bs) h =
    (topic_byte_ascii b (ground arith), all_topic_bytes-ascii bs (ground arith))

-- A valid topic is short, not empty, and ASCII.
pub valid_topic :
    (t : Bytes)
    → validate_topic t false ≡ ok tt
    → (1 ≤ length t) × (length t ≤ 255) × (all_topic_bytes t ≡ true)
unfolding validate_topic
valid_topic t h = ground arith

pub valid_topic-utf8 : (t : Bytes) → validate_topic t false ≡ ok tt → is_utf8 t ≡ true
valid_topic-utf8 t h = is_utf8_ascii t (all_topic_bytes-ascii t (valid_topic t h).2)

length-string_bytes : (s : Bytes) → length (string_bytes s) ≡ 2 + length s
unfolding string_bytes
length-string_bytes s =
    omega (
      arith,
      length-append (be_bytes 2 (length s % 2 ^ 16)) s,
      length-be_bytes 2 (length s % 2 ^ 16),
    )

pub length-record_bytes :
    (r : Record) → length (record_bytes r) ≡ 8 + length r.topic + length r.key + length r.payload
unfolding record_bytes
length-record_bytes r =
    let tail = be_bytes 4 (length r.payload % 2 ^ 32) ++ r.payload in
    omega (
      arith,
      length-append (string_bytes r.topic) (string_bytes r.key ++ tail),
      length-append (string_bytes r.key) tail,
      length-append (be_bytes 4 (length r.payload % 2 ^ 32)) r.payload,
      length-be_bytes 4 (length r.payload % 2 ^ 32),
      length-string_bytes r.topic,
      length-string_bytes r.key,
    )

pub encode_record-bytes : (out : Bytes) (r : Record) → encode_record out r ≡ out ++ record_bytes r
unfolding encode_record put_string record_bytes string_bytes
encode_record-bytes out r = simp append_assoc

encode_each-bytes : (out : Bytes) (rs : List Record) → encode_each out rs ≡ out ++ batch_bytes rs
unfolding encode_each batch_bytes
encode_each-bytes out [] = sym (append-nil out)
encode_each-bytes out (r ∷ rs) =
    encode_each-bytes (encode_record out r) rs
    ∙ ap (λ (o : Bytes). o ++ batch_bytes rs) (encode_record-bytes out r)
    ∙ append_assoc out (record_bytes r) (batch_bytes rs)

pub encode_records-bytes :
    (rs : List Record) → encode_records rs ≡ be_bytes 2 (length rs % 2 ^ 16) ++ batch_bytes rs
unfolding encode_records
encode_records-bytes rs = encode_each-bytes _ rs

decode_record-Reads : (r : Record) → IsRecord r → Reads decode_record (record_bytes r) r
unfolding decode_record record_bytes
decode_record-Reads r v =
    let (t1, t2, t3) = valid_topic r.topic v.topic in
    let e : length r.payload % 2 ^ 32 ≡ length r.payload = omega (arith, v.payload_size) in
    bind-Reads _ (string-Reads 255 r.topic t2 (omega arith) (valid_topic-utf8 r.topic v.topic)) (
      check-Reads v.topic (
        bind-Reads _ (string-Reads 1024 r.key v.key_size (omega arith) v.key_utf8) (
          rw e (
            bind-Reads _ (u32-Reads (length r.payload) (omega (arith, v.payload_size))) (
              pass-Reads (ltb Codes.max_payload (length r.payload)) _
                (ground (arith, v.payload_size))
                (last-Reads (λ p. record { topic = r.topic; key = r.key; payload = p })
                  (take-Reads (length r.payload) r.payload refl)))))))

decode_loop-Reads :
    (rs : List Record) → All IsRecord rs → Reads (decode_loop (length rs)) (batch_bytes rs) rs
unfolding decode_loop batch_bytes
decode_loop-Reads [] h = pure-Reads []
decode_loop-Reads (r ∷ rs) (hr, hrs) =
    bind-Reads _ (decode_record-Reads r hr) (last-Reads (◌∷◌ r) (decode_loop-Reads rs hrs))

pub decode_records-Reads :
    (rs : List Record)
    → 1 ≤ length rs
    → length rs ≤ Codes.max_batch
    → All IsRecord rs
    → Reads decode_records (encode_records rs) rs
unfolding decode_records
decode_records-Reads rs lo hi h =
    let e : length rs % 2 ^ 16 ≡ length rs = omega arith in
    rw (encode_records-bytes rs, e)
      (bind-Reads _ (u16-Reads (length rs) (omega arith)) (
        pass-Reads (not (contains 1 Codes.max_batch (length rs))) _ (ground arith)
          (decode_loop-Reads rs h)))

pub length-encode_records :
    (rs : List Record) → length (encode_records rs) ≡ 2 + length (batch_bytes rs)
length-encode_records rs = rw (encode_records-bytes rs) (
    omega (
      arith,
      length-append (be_bytes 2 (length rs % 2 ^ 16)) (batch_bytes rs),
      length-be_bytes 2 (length rs % 2 ^ 16),
    ))

-- No admitted batch is shorter than one record of a topic of one byte.
pub encode_records_size :
    (rs : List Record) → 1 ≤ length rs → All IsRecord rs → 11 ≤ length (encode_records rs)
unfolding batch_bytes
encode_records_size [] some all = absurd (omega arith)
encode_records_size (r ∷ rs) some (v, vs) = omega (
  arith,
  length-encode_records (r ∷ rs),
  length-append (record_bytes r) (batch_bytes rs),
  length-record_bytes r,
  valid_topic r.topic v.topic,
)

-- `encode_records` writes the body of a PUBLISH.
pub encode_records-publish :
    (rs : List Record)
    → length rs ≤ Codes.max_batch
    → encode_records rs ≡ request_bytes (publish rs)
unfolding request_bytes
encode_records-publish rs hi =
    let e : length rs % 2 ^ 16 ≡ length rs = omega arith in rw (encode_records-bytes rs, e)
