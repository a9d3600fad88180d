-- ===== src/Protocol/Decode.antt =====
-- protocol.rs, lines 157 to 294: validation of topics, and the decoders of the request bodies.
use velo_bus.Prelude.{
  ℕ, zero, suc, Bool, true, false, not, ◌&&◌, ◌||◌, List, [], ◌∷◌, ltb, leb, ◌==◌, if◌then◌else◌,
  length, bytes_eq,
}
use velo_bus.Protocol.Codes
use velo_bus.Protocol.Types.{
  Bytes, Error, Result, ok, err, bind, new_error, Record, Fetch, Request, hello, publish, fetch,
  stats, ping, register, rpc, complete,
}
use velo_bus.Protocol.Types
use velo_bus.Protocol.Utf8.{is_utf8}
use velo_bus.Protocol.Reader.{
  Parser, ◌>>=◌, ◌>>◌, pure, lift, fail_if, take, u8, u16, u32, u64, string, finish, new,
}

-- `(lo..=hi).contains(&n)`
abbrev pub contains : ℕ → ℕ → ℕ → Bool
contains lo hi n = leb lo n && leb n hi

-- `is_ascii_alphanumeric`, or one of `.`, `_`, `-`
unfoldable pub topic_byte : ℕ → Bool
topic_byte b =
    contains b'0' b'9' b
    || contains b'A' b'Z' b
    || contains b'a' b'z' b
    || b == b'.'
    || b == b'_'
    || b == b'-'

unfoldable pub all_topic_bytes : Bytes → Bool
unfolding topic_byte
all_topic_bytes [] = true
all_topic_bytes (b ∷ bs) = topic_byte b && all_topic_bytes bs

unfoldable pub validate_topic : Bytes → Bool → Result (Unit {0})
validate_topic topic wildcard =
    if wildcard && bytes_eq topic (b'*' ∷ [])
    then ok tt
    else if length topic == 0 || ltb 255 (length topic) || not (all_topic_bytes topic)
    then err (
        new_error Codes.invalid
          "topic must contain 1..255 ASCII letters, digits, dot, underscore or hyphen")
    else ok tt

-- One round of the loop of `decode_records`.
unfoldable pub decode_record : Parser Record
decode_record = do
  topic ← string 255
  lift (validate_topic topic false)
  key ← string 1024
  count ← u32
  fail_if (ltb Codes.max_payload count) (new_error Codes.limit "payload exceeds 262144 bytes")
  payload ← take count
  pure (record { topic = topic; key = key; payload = payload })

unfoldable pub decode_loop : ℕ → Parser (List Record)
decode_loop zero = pure []
decode_loop (suc n) = do r ← decode_record; rs ← decode_loop n; pure (r ∷ rs)

unfoldable pub decode_records : Parser (List Record)
decode_records = do
  count ← u16
  fail_if (not (contains 1 Codes.max_batch count))
      (new_error Codes.invalid "publish count must be 1..256")
  decode_loop count

unfoldable pub decode_hello : Parser Request
decode_hello = do version ← u16; token ← string 65535; pure (hello version token)

unfoldable pub decode_fetch : Parser Request
decode_fetch = do
  topic ← string 255
  lift (validate_topic topic true)
  after ← u64
  limit ← u16
  max_bytes ← u32
  mode ← u8
  fail_if
      (not (contains 1 Codes.max_batch limit) || not (contains 1 Codes.max_fetch_bytes max_bytes))
      (new_error Codes.invalid "invalid fetch count or byte budget")
  fail_if (ltb 1 mode) (new_error Codes.protocol "unknown fetch mode")
  pure (
      fetch (record {
        topic = topic;
        after = after;
        limit = limit;
        max_bytes = max_bytes;
        latest = mode == 1;
      }))

unfoldable pub decode_register : Parser Request
decode_register = do
  route ← string 255
  lift (validate_topic route false)
  concurrency ← u16
  queue_limit ← u16
  fail_if (not (contains 1 256 concurrency) || not (contains 1 4096 queue_limit))
      (new_error Codes.invalid "invalid worker concurrency or queue limit")
  pure (register route concurrency queue_limit)

unfoldable pub decode_rpc : Parser Request
decode_rpc = do
  route ← string 255
  lift (validate_topic route false)
  timeout_ms ← u32
  fail_if (not (contains 1 30_000 timeout_ms))
      (new_error Codes.invalid "RPC timeout must be 1..30000 ms")
  count ← u32
  fail_if (ltb Codes.max_payload count) (new_error Codes.limit "RPC payload exceeds 262144 bytes")
  payload ← take count
  pure (rpc route timeout_ms payload)

unfoldable pub decode_take : Parser Request
decode_take = do
  wait_ms ← u32
  fail_if (not (contains 1 1000 wait_ms)) (new_error Codes.invalid "TAKE wait must be 1..1000 ms")
  pure (Types.take wait_ms)

unfoldable pub decode_complete : Parser Request
decode_complete = do
  call_id ← u64
  status ← u8
  fail_if (ltb 1 status) (new_error Codes.invalid "invalid completion status")
  count ← u32
  fail_if (ltb Codes.max_payload count || status == 1 && ltb 4096 count)
      (new_error Codes.limit "completion payload exceeds limit")
  payload ← take count
  fail_if (status == 1 && not (is_utf8 payload))
      (new_error Codes.protocol "handler error must be UTF-8")
  pure (complete call_id (status == 1) payload)

-- The `match` on the opcode.
unfoldable pub decode_body : ℕ → Parser Request
decode_body opcode =
    if opcode == 1
    then decode_hello
    else if opcode == 2
    then (do records ← decode_records; pure (publish records))
    else if opcode == 3
    then decode_fetch
    else if opcode == 4
    then pure stats
    else if opcode == 5
    then pure ping
    else if opcode == 6
    then decode_register
    else if opcode == 7
    then decode_rpc
    else if opcode == 8
    then decode_take
    else if opcode == 9
    then decode_complete
    else lift (err (new_error Codes.protocol "unknown opcode"))

unfoldable pub decode_request : ℕ → Bytes → Result Request
decode_request opcode body =
    bind (decode_body opcode (new body)) (λ (request, r). bind (finish r) (λ _. ok request))
