-- ===== src/Protocol/RoundTrip.antt =====
-- What the encoders write, the decoders read back.
use velo_bus.Prelude.{
  ℕ, ◌≤◌, ◌≡◌, refl, Bool, true, false, not, ◌&&◌, ◌||◌, [], ◌∷◌, arith, ltb, ◌==◌, length,
  be_bytes, bytes_eq, bytes_eq_iff, Bool-cases, inl, inr,
}
use velo_bus.Protocol.Codes
use velo_bus.Protocol.Types.{
  Bytes, Error, Result, ok, err, bind, Record, Fetch, Request, hello, publish, fetch, stats, ping,
  register, rpc, complete,
}
use velo_bus.Protocol.Types
use velo_bus.Protocol.Utf8.{is_utf8}
use velo_bus.Protocol.Reader.{u32, string}
use velo_bus.Protocol.Decode.{
  validate_topic, contains, decode_body, decode_request, decode_hello, decode_fetch,
  decode_register, decode_rpc, decode_take, decode_complete,
}
use velo_bus.Protocol.Wire.{IsRequest, request_bytes, opcode_of, flag, string_bytes}
use velo_bus.Protocol.Reads.{
  Reads, pure-Reads, bind-Reads, bind_end-Reads, check-Reads, pass-Reads, last-Reads, take-Reads,
  u16-Reads, u32-Reads, string-Reads, whole-Reads, finish-whole, u64-Reads, u8-Reads,
}
use velo_bus.Protocol.Records.{
  decode_records-Reads, encode_records-publish, valid_topic, valid_topic-utf8,
}

valid_pattern : (t : Bytes) → validate_topic t true ≡ ok tt → (length t ≤ 255) × (is_utf8 t ≡ true)
valid_pattern t h = elim (Bool-cases (bytes_eq t (b'*' ∷ []))) [
  | inl star ↦ rw ((bytes_eq_iff t (b'*' ∷ [])).0 star) (unfold is_utf8 in (omega arith, refl))
  | inr other ↦
      let v : validate_topic t false ≡ ok tt = unfold validate_topic in ground (arith, h, other) in
      ((valid_topic t v).1, valid_topic-utf8 t v)
]

-- The bytes of a payload, behind its length.
payload-Reads :
    (p : Bytes) → length p ≤ Codes.max_payload → Reads u32 (be_bytes 4 (length p)) (length p)
payload-Reads p h = u32-Reads (length p) (omega arith)

route-Reads : (t : Bytes) → validate_topic t false ≡ ok tt → Reads (string 255) (string_bytes t) t
route-Reads t h = string-Reads 255 t (valid_topic t h).1 (omega arith) (valid_topic-utf8 t h)

decode_hello-Reads :
    (version : ℕ) (token : Bytes)
    → IsRequest (hello version token)
    → Reads decode_hello (request_bytes (hello version token)) (hello version token)
unfolding decode_hello request_bytes
decode_hello-Reads version token (small, (fits, utf8)) =
    bind-Reads _ (u16-Reads version small)
      (last-Reads (hello version) (string-Reads 65535 token fits (omega arith) utf8))

flag_test : (b : Bool) → (flag b == 1) ≡ b
flag_test true = refl
flag_test false = refl

decode_fetch-Reads :
    (f : Fetch) → IsRequest (fetch f) → Reads decode_fetch (request_bytes (fetch f)) (fetch f)
unfolding decode_fetch request_bytes
decode_fetch-Reads f (topic, after, (l1, l2), (m1, m2)) =
    let (fits, utf8) = valid_pattern f.topic topic in
    bind-Reads _ (string-Reads 255 f.topic fits (omega arith) utf8) (
      check-Reads topic (
        bind-Reads _ (u64-Reads f.after after) (
          bind-Reads _ (u16-Reads f.limit (omega arith)) (
            bind-Reads _ (u32-Reads f.max_bytes (omega arith)) (
              bind_end-Reads _ (u8-Reads (flag f.latest)) (
                pass-Reads
                  (not (contains 1 Codes.max_batch f.limit)
                    || not (contains 1 Codes.max_fetch_bytes f.max_bytes))
                  _ (ground arith)
                  (pass-Reads (ltb 1 (flag f.latest)) _ (ground arith)
                    (rw (flag_test f.latest) (pure-Reads (fetch f))))))))))

decode_register-Reads :
    (route : Bytes) (concurrency queue_limit : ℕ)
    → IsRequest (register route concurrency queue_limit)
    → Reads decode_register
        (request_bytes (register route concurrency queue_limit))
        (register route concurrency queue_limit)
unfolding decode_register request_bytes
decode_register-Reads route concurrency queue_limit (topic, (c1, c2), (q1, q2)) =
    bind-Reads _ (route-Reads route topic) (
      check-Reads topic (
        bind-Reads _ (u16-Reads concurrency (omega arith)) (
          bind_end-Reads _ (u16-Reads queue_limit (omega arith)) (
            pass-Reads (not (contains 1 256 concurrency) || not (contains 1 4096 queue_limit)) _
              (ground arith) (pure-Reads _)))))

decode_rpc-Reads :
    (route : Bytes) (timeout_ms : ℕ) (payload : Bytes)
    → IsRequest (rpc route timeout_ms payload)
    → Reads decode_rpc (request_bytes (rpc route timeout_ms payload)) (rpc route timeout_ms payload)
unfolding decode_rpc request_bytes
decode_rpc-Reads route timeout_ms payload (topic, (t1, t2), small) =
    bind-Reads _ (route-Reads route topic) (
      check-Reads topic (
        bind-Reads _ (u32-Reads timeout_ms (omega arith)) (
          pass-Reads (not (contains 1 30_000 timeout_ms)) _ (ground arith) (
            bind-Reads _ (payload-Reads payload small) (
              pass-Reads (ltb Codes.max_payload (length payload)) _ (ground arith)
                (last-Reads (rpc route timeout_ms) (take-Reads (length payload) payload refl)))))))

decode_take-Reads :
    (wait_ms : ℕ)
    → IsRequest (Types.take wait_ms)
    → Reads decode_take (request_bytes (Types.take wait_ms)) (Types.take wait_ms)
unfolding decode_take request_bytes
decode_take-Reads wait_ms (lo, hi) =
    bind_end-Reads _ (u32-Reads wait_ms (omega arith))
      (pass-Reads (not (contains 1 1000 wait_ms)) _ (ground arith) (pure-Reads _))

abbrev FailureText : Bool → Bytes → Type 0
FailureText failed payload = failed ≡ true → (length payload ≤ 4096) × (is_utf8 payload ≡ true)

failure_size :
    (failed : Bool) (payload : Bytes)
    → length payload ≤ Codes.max_payload
    → FailureText failed payload
    → (ltb Codes.max_payload (length payload) || flag failed == 1 && ltb 4096 (length payload))
      ≡ false
failure_size true payload small text = ground (arith, text refl)
failure_size false payload small text = ground arith

failure_utf8 :
    (failed : Bool) (payload : Bytes)
    → FailureText failed payload
    → (flag failed == 1 && not (is_utf8 payload)) ≡ false
failure_utf8 true payload text = ground (arith, text refl)
failure_utf8 false payload text = refl

decode_complete-Reads :
    (call_id : ℕ) (failed : Bool) (payload : Bytes)
    → IsRequest (complete call_id failed payload)
    → Reads decode_complete
        (request_bytes (complete call_id failed payload))
        (complete call_id failed payload)
unfolding decode_complete request_bytes
decode_complete-Reads call_id failed payload (id, small, text) =
    bind-Reads _ (u64-Reads call_id id) (
      bind-Reads _ (u8-Reads (flag failed)) (
        pass-Reads (ltb 1 (flag failed)) _ (ground arith) (
          bind-Reads _ (payload-Reads payload small) (
            pass-Reads
              (ltb Codes.max_payload (length payload)
                || flag failed == 1 && ltb 4096 (length payload))
              _ (failure_size failed payload small text)
              (bind_end-Reads _ (take-Reads (length payload) payload refl) (
                pass-Reads (flag failed == 1 && not (is_utf8 payload)) _
                  (failure_utf8 failed payload text)
                  (rw (flag_test failed) (pure-Reads (complete call_id failed payload)))))))))

decode_body-Reads :
    (q : Request) → IsRequest q → Reads (decode_body (opcode_of q)) (request_bytes q) q
unfolding decode_body
decode_body-Reads (hello version token) v = decode_hello-Reads version token v
decode_body-Reads (publish records) ((lo, hi), all) =
    last-Reads publish
      (rw (← encode_records-publish records hi) (decode_records-Reads records lo hi all))
decode_body-Reads (fetch f) v = decode_fetch-Reads f v
decode_body-Reads stats v = unfold request_bytes in pure-Reads stats
decode_body-Reads ping v = unfold request_bytes in pure-Reads ping
decode_body-Reads (register route concurrency queue_limit) v =
    decode_register-Reads route concurrency queue_limit v
decode_body-Reads (rpc route timeout_ms payload) v = decode_rpc-Reads route timeout_ms payload v
decode_body-Reads (Types.take wait_ms) v = decode_take-Reads wait_ms v
decode_body-Reads (complete call_id failed payload) v =
    decode_complete-Reads call_id failed payload v

-- Every request within the limits, laid out by the grammar, is decoded to itself.
pub decode_request-request_bytes :
    (q : Request) → IsRequest q → decode_request (opcode_of q) (request_bytes q) ≡ ok q
unfolding decode_request
decode_request-request_bytes q v =
    rw (whole-Reads (decode_body-Reads q v), finish-whole (request_bytes q))
