-- ===== src/Server/Framing.antt =====
-- main.rs `response_frame` against `read_frame`: what is written is read back.
use velo_bus.Prelude.{
  ℕ, ◌+◌, ◌-◌, ◌%◌, ◌^◌, ◌≤◌, ◌<◌, ◌≡◌, refl, ap, ◌∙◌, true, false, ◌∷◌, ◌++◌, arith, ltb, ◌==◌,
  if◌then◌else◌, length, length-append, append_assoc, take, take-append_of, drop-append_of,
  be_value, be_bytes, length-be_bytes, be_value-be_bytes, Bool-cases, bytes_of, inl, inr,
}
use velo_bus.Protocol.Codes
use velo_bus.Protocol.Types.{Bytes, new_error}
use velo_bus.Protocol.Encode.{envelope, error_body, put_string}
use velo_bus.Server.{valid_length, framed, split_frame, read_data, read_frame, response_frame}

-- The data of a frame, behind its length.
data_of : ℕ → ℕ → Bytes → Bytes
data_of opcode request_id body = opcode ∷ (be_bytes 4 request_id ++ body)

length-data_of :
    (opcode request_id : ℕ) (body : Bytes)
    → length (data_of opcode request_id body) ≡ 5 + length body
unfolding data_of
length-data_of opcode request_id body =
    omega (arith, length-append (be_bytes 4 request_id) body, length-be_bytes 4 request_id)

split_frame-data_of :
    (opcode request_id : ℕ) (body rest : Bytes)
    → 1 ≤ request_id
    → request_id < 2 ^ 32
    → split_frame (data_of opcode request_id body) rest ≡ framed opcode request_id body rest
unfolding split_frame data_of
split_frame-data_of opcode request_id body rest lo hi =
    let l = length-be_bytes 4 request_id in
    let id : be_value (take 4 (be_bytes 4 request_id ++ body)) ≡ request_id =
      ap be_value (take-append_of 4 (be_bytes 4 request_id) body l)
      ∙ be_value-be_bytes 4 request_id hi in
    let test : (request_id == 0) ≡ false = ground (arith, lo) in
    rw (id, test, drop-append_of 4 (be_bytes 4 request_id) body l) refl

envelope-data_of :
    (opcode request_id : ℕ) (body : Bytes)
    → envelope opcode request_id body
      ≡ be_bytes 4 ((5 + length body) % 2 ^ 32) ++ data_of opcode request_id body
unfolding envelope data_of
envelope-data_of opcode request_id body = simp append_assoc

read_frame-envelope :
    (opcode request_id : ℕ) (body rest : Bytes)
    → 1 ≤ request_id
    → request_id < 2 ^ 32
    → length body ≤ Codes.max_frame - 5
    → read_frame (envelope opcode request_id body ++ rest) ≡ framed opcode request_id body rest
unfolding read_frame read_data
read_frame-envelope opcode request_id body rest lo hi fits =
    let prefix = be_bytes 4 ((5 + length body) % 2 ^ 32) in
    let frame = data_of opcode request_id body in
    let l : length prefix ≡ 4 = length-be_bytes 4 ((5 + length body) % 2 ^ 32) in
    let size : length frame ≡ 5 + length body = length-data_of opcode request_id body in
    let n : be_value (take 4 (prefix ++ (frame ++ rest))) ≡ 5 + length body =
      ap be_value (take-append_of 4 prefix (frame ++ rest) l)
      ∙ be_value-be_bytes 4 ((5 + length body) % 2 ^ 32) (omega arith)
      ∙ omega (arith, fits) in
    let layout : envelope opcode request_id body ++ rest ≡ prefix ++ (frame ++ rest) =
      ap (λ z. z ++ rest) (envelope-data_of opcode request_id body)
      ∙ append_assoc prefix frame rest in
    let long : ltb (length (prefix ++ (frame ++ rest))) 4 ≡ false =
      ground (arith, length-append prefix (frame ++ rest), l) in
    let valid : valid_length (5 + length body) ≡ true =
      unfold valid_length in ground (arith, fits) in
    let there : ltb (length (frame ++ rest)) (5 + length body) ≡ false =
      ground (arith, length-append frame rest, size) in
    rw
      (
        layout,
        read_frame,
        long,
        n,
        drop-append_of 4 prefix (frame ++ rest) l,
        read_data,
        valid,
        there,
        take-append_of (5 + length body) frame rest size,
        drop-append_of (5 + length body) frame rest size,
      )
      (split_frame-data_of opcode request_id body rest lo hi)

abbrev pub too_large : Bytes
too_large = error_body (new_error Codes.limit "response exceeds maximum frame size")

length-too_large : length too_large ≡ 39
unfolding error_body put_string new_error bytes_of be_bytes
length-too_large = refl

-- Reading what is written for a response gives back its request id and its body, under its opcode,
-- or the error that says that the response is too large, under opcode 255, when the body does not
-- fit a frame; the rest of the stream is untouched. The request id is not zero and fits 32 bits.
pub read_frame-response_frame :
    (opcode request_id : ℕ) (body rest : Bytes)
    → 1 ≤ request_id
    → request_id < 2 ^ 32
    → read_frame (response_frame opcode request_id body ++ rest) ≡ (
        if ltb (Codes.max_frame - 5) (length body)
        then framed 255 request_id too_large rest
        else framed opcode request_id body rest)
unfolding response_frame
read_frame-response_frame opcode request_id body rest lo hi =
    elim (Bool-cases (ltb (Codes.max_frame - 5) (length body))) [
      | inl over ↦
          rw (response_frame, over)
            (read_frame-envelope 255 request_id too_large rest lo hi
              (omega (arith, length-too_large)))
      | inr fits ↦
          rw (response_frame, fits)
            (read_frame-envelope opcode request_id body rest lo hi (ground (arith, fits)))
    ]
