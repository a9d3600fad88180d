-- ===== src/Server/Handshake.antt =====
-- crates/velobus/src/main.rs, lines 327 to 362: the first frame of a connection, its check, and the
-- answer to it. The comparison in constant time is equality.
use velo_bus.Prelude.{
  false_is_not_true, some_is_not_none, ℕ, ◌≡◌, ◌↔◌, refl, Bool, true, false, not, ◌&&◌, inl, inr,
  ◌==◌, if◌then◌else◌, All, Option, none, some, bytes_eq, bytes_eq_iff, be_bytes, IsByte, arith,
  Bool-cases, Option-cases, ap, ◌∙◌,
}
use velo_bus.Protocol.Codes
use velo_bus.Protocol.Types.{Bytes, Error, Result, ok, err, new_error, Request, hello}
use velo_bus.Protocol.Types
use velo_bus.Protocol.Encode.{error_body}
use velo_bus.Protocol.Decode.{decode_request}
use velo_bus.Protocol.Wire.{IsText, request_bytes}
use velo_bus.Protocol.RoundTrip.{decode_request-request_bytes}
use velo_bus.Protocol.Strict.{decode_request-ok}
use velo_bus.Server.{response_frame, reply_opcode}

abbrev refused_credentials : Error
refused_credentials = new_error Codes.unauthorized "HELLO with valid credentials is required"

-- The error of a HELLO, if it has one.
unfoldable pub hello_error : Bytes → Result Request → Option Error
hello_error token (ok (hello version supplied)) =
    if version == 1 && bytes_eq supplied token
    then none
    else if not (version == 1)
    then some (new_error Codes.protocol "unsupported protocol version")
    else some refused_credentials
hello_error token (ok q) = some refused_credentials
hello_error token (err e) = some e

-- The answer to the first frame, and whether the connection goes on.
unfoldable pub handshake : Bytes → ℕ → ℕ → Bytes → Bool × Bytes
unfolding hello_error
handshake token opcode request_id body = elim (hello_error token (decode_request opcode body)) [
  | some e ↦ (false, response_frame 255 request_id (error_body e))
  | none ↦ (true, response_frame (reply_opcode opcode) request_id (be_bytes 2 1))
]

-- Only the right version and token pass.
hello_error-none :
    (token : Bytes) (r : Result Request) → hello_error token r ≡ none → r ≡ ok (hello 1 token)
unfolding hello_error
hello_error-none token (ok (hello version supplied)) h =
    elim (Bool-cases (version == 1 && bytes_eq supplied token)) [
      | inl e ↦
          let v : version ≡ 1 = ground (arith, e) in
          let t : supplied ≡ token = (bytes_eq_iff supplied token).0 (ground (arith, e)) in
          rw (v, t) refl
      | inr e ↦ elim (Bool-cases (version == 1)) [
        | inl v ↦ absurd (some_is_not_none (rw (e, v) at h))
        | inr v ↦ absurd (some_is_not_none (rw (e, v) at h))
      ]
    ]
hello_error-none token (ok (Types.publish rs)) h = cc
hello_error-none token (ok (Types.fetch f)) h = cc
hello_error-none token (ok Types.stats) h = cc
hello_error-none token (ok Types.ping) h = cc
hello_error-none token (ok (Types.register route n m)) h = cc
hello_error-none token (ok (Types.rpc route n payload)) h = cc
hello_error-none token (ok (Types.take n)) h = cc
hello_error-none token (ok (Types.complete n failed payload)) h = cc
hello_error-none token (err e) h = cc

hello_error-own : (token : Bytes) → hello_error token (ok (hello 1 token)) ≡ none
unfolding hello_error
hello_error-own token = rw ((bytes_eq_iff token token).1 refl) refl

-- A first frame opens the connection if and only if it is the layout of a HELLO of version 1 with
-- the server's token, under opcode 1. The token is a text of 65,535 bytes at most.
pub handshake-accepts :
    (token : Bytes) (opcode request_id : ℕ) (body : Bytes)
    → IsText 65535 token
    → All IsByte body
    → ((handshake token opcode request_id body).0 ≡ true)
      ↔ ((opcode ≡ 1) × (body ≡ request_bytes (hello 1 token)))
unfolding handshake
handshake-accepts token opcode request_id body text bytes = (forth, back)
  where
    forth :
        (handshake token opcode request_id body).0 ≡ true
        → (opcode ≡ 1) × (body ≡ request_bytes (hello 1 token))
    forth h = elim (Option-cases (hello_error token (decode_request opcode body))) [
      | inl e ↦
          let (code, layout, _) =
            decode_request-ok opcode body (hello 1 token) bytes
              (hello_error-none token (decode_request opcode body) e) in
          (code, layout)
      | inr (e, q) ↦ absurd (false_is_not_true (rw (handshake, q) at h))
    ]

    back :
        (opcode ≡ 1) × (body ≡ request_bytes (hello 1 token))
        → (handshake token opcode request_id body).0 ≡ true
    back (code, layout) =
        let d : decode_request opcode body ≡ ok (hello 1 token) =
          ap (λ o. decode_request o body) code
          ∙ ap (decode_request 1) layout
          ∙ decode_request-request_bytes (hello 1 token) (omega arith, text) in
        rw (handshake, d, hello_error-own token) refl
