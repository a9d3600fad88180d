-- ===== src/Server/Dispatch/Replies.antt =====
-- main.rs `dispatch` and rpc.rs `Job::encode`: what a client makes of the replies.
use velo_bus.Prelude.{
  ℕ, ◌+◌, ◌-◌, ◌%◌, ◌^◌, ◌≤◌, ◌<◌, ◌≡◌, refl, ap, ◌∙◌, inl, inr, false, List, [], ◌∷◌, ◌++◌, ltb,
  ◌==◌, if◌then◌else◌, length, length-append, append_assoc, take, drop, take-append_of,
  drop-append_of, take_all, Option, none, some, be_bytes, be_value, length-be_bytes,
  be_value-be_bytes, arith, All, In, All-In,
}
use velo_bus.Protocol.Codes
use velo_bus.Protocol.Types.{Bytes, ok, Record, Event, Fetch, wire_bytes}
use velo_bus.Protocol.Encode.{encode_record, envelope}
use velo_bus.Protocol.Wire.{IsRecord, record_bytes}
use velo_bus.Protocol.Records.{length-record_bytes, encode_record-bytes, valid_topic}
use velo_bus.Store.{Store}
use velo_bus.Store.Fetch.{FetchResult, encode, encode_events}
use velo_bus.Store.Operations.{fetch}
use velo_bus.Store.Scanning.{total}
use velo_bus.Store.Fetching.{IsHistory}
use velo_bus.Store.Delivery.{fetch-bounds, fetch_sound}
use velo_bus.Rpc.{Job}
use velo_bus.Rpc
use velo_bus.Server.{response_frame}
use velo_bus.Server.Dispatch.{take_body}

-- How a client reads the reply to a TAKE: one byte says whether there is a job, then its call id,
-- the milliseconds left, the payload's length and the payload follow.
unfoldable pub read_job : Bytes → Option Job
read_job [] = none
read_job (b ∷ rest) =
    if b == 0
    then none
    else some (record {
      call_id = be_value (take 8 rest);
      remaining_ms = be_value (take 4 (drop 8 rest));
      payload = take (be_value (take 4 (drop 12 rest))) (drop 16 rest);
    })

-- Three fields in front of a payload, each found by its place.
fields :
    (xs ys zs p : Bytes)
    → length xs ≡ 8
    → length ys ≡ 4
    → length zs ≡ 4
    → (take 8 (((xs ++ ys) ++ zs) ++ p) ≡ xs)
      × (take 4 (drop 8 (((xs ++ ys) ++ zs) ++ p)) ≡ ys)
      × (take 4 (drop 12 (((xs ++ ys) ++ zs) ++ p)) ≡ zs)
      × (drop 16 (((xs ++ ys) ++ zs) ++ p) ≡ p)
fields xs ys zs p lx ly lz =
    let tail : ((xs ++ ys) ++ zs) ++ p ≡ (xs ++ ys) ++ (zs ++ p) = append_assoc (xs ++ ys) zs p in
    let whole : ((xs ++ ys) ++ zs) ++ p ≡ xs ++ (ys ++ (zs ++ p)) =
      tail ∙ append_assoc xs ys (zs ++ p) in
    (
      ap (take 8) whole ∙ take-append_of 8 xs (ys ++ (zs ++ p)) lx,
      ap (λ z. take 4 (drop 8 z)) whole
          ∙ ap (take 4) (drop-append_of 8 xs (ys ++ (zs ++ p)) lx)
          ∙ take-append_of 4 ys (zs ++ p) ly,
      ap (λ z. take 4 (drop 12 z)) tail
          ∙ ap (take 4)
              (drop-append_of 12 (xs ++ ys) (zs ++ p) (omega (arith, length-append xs ys, lx, ly)))
          ∙ take-append_of 4 zs p lz,
      drop-append_of 16 ((xs ++ ys) ++ zs) p
          (omega (arith, length-append (xs ++ ys) zs, length-append xs ys, lx, ly, lz)),
    )

abbrev pub IsJob : Option Job → Type 0
IsJob none = Unit {0}
IsJob (some j) = (j.call_id < 2 ^ 64) × (j.remaining_ms < 2 ^ 32) × (length j.payload < 2 ^ 32)

-- A client reads from the reply to a TAKE what the scheduler handed out, job or none. The numbers
-- fit their fields.
pub read_job-take_body : (o : Option Job) → IsJob o → read_job (take_body o) ≡ o
unfolding read_job take_body Rpc.encode
read_job-take_body none h = refl
read_job-take_body (some j) (id_fits, ms_fits, length_fits) =
    let id = be_bytes 8 j.call_id in
    let ms = be_bytes 4 j.remaining_ms in
    let size = be_bytes 4 (length j.payload % 2 ^ 32) in
    let lid : length id ≡ 8 = length-be_bytes 8 j.call_id in
    let lms : length ms ≡ 4 = length-be_bytes 4 j.remaining_ms in
    let lsize : length size ≡ 4 = length-be_bytes 4 (length j.payload % 2 ^ 32) in
    let (a, b, c, d) = fields id ms size j.payload lid lms lsize in
    let n : be_value size ≡ length j.payload =
      be_value-be_bytes 4 (length j.payload % 2 ^ 32) (omega arith) ∙ omega (arith, length_fits) in
    let whole : take (length j.payload) j.payload ≡ j.payload =
      take_all (length j.payload) j.payload (omega arith) in
    rw
      (
        a,
        b,
        c,
        d,
        n,
        be_value-be_bytes 8 j.call_id (omega (arith, id_fits)),
        be_value-be_bytes 4 j.remaining_ms (omega (arith, ms_fits)),
        whole,
      )
      refl

abbrev AllValid : List Event → Type 0
AllValid events = All (λ e. IsRecord e.content) events

wire_bytes-record : (r : Record) → IsRecord r → wire_bytes r ≡ 8 + length (record_bytes r)
unfolding wire_bytes
wire_bytes-record r v =
    omega (arith, length-record_bytes r, valid_topic r.topic v.topic, v.key_size, v.payload_size)

length-encode_events :
    (out : Bytes) (es : List Event)
    → AllValid es
    → length (encode_events out es) ≡ length out + total es
unfolding encode_events total
length-encode_events out [] h = omega arith
length-encode_events out (e ∷ es) (v, h) =
    let number = be_bytes 8 e.sequence in
    let grown : length (encode_record (out ++ number) e.content)
        ≡ length out + 8 + length (record_bytes e.content) =
      ap length (encode_record-bytes (out ++ number) e.content)
      ∙ omega (
        arith,
        length-append (out ++ number) (record_bytes e.content),
        length-append out number,
        length-be_bytes 8 e.sequence,
      ) in
    omega (
      arith,
      length-encode_events (encode_record (out ++ number) e.content) es h,
      grown,
      wire_bytes-record e.content v,
    )

length-encode : (r : FetchResult) → AllValid r.events → length (encode r) ≡ 11 + total r.events
unfolding encode
length-encode r v =
    let cursor = be_bytes 8 r.cursor in
    let count = be_bytes 2 (length r.events % 2 ^ 16) in
    omega (
      arith,
      length-encode_events ((cursor ++ count) ++ (if r.has_more then 1 else 0) ∷ []) r.events v,
      length-append (cursor ++ count) ((if r.has_more then 1 else 0) ∷ []),
      length-append cursor count,
      length-be_bytes 8 r.cursor,
      length-be_bytes 2 (length r.events % 2 ^ 16),
    )

valid_part : (es all : List Event) → AllValid all → ((e : Event) → In e es → In e all) → AllValid es
valid_part [] all v within = tt
valid_part (e ∷ es) all v within = (
  All-In (λ z. IsRecord z.content) e all v (within e (inl refl)),
  valid_part es all v (λ x m. within x (inr m)),
)

-- The reply to a successful FETCH, on a history as it should be with valid records, and with a byte
-- budget of at most 524,288, fits a frame: it is written whole under its opcode, and never replaced
-- by the error that a response is too large.
pub fetch_fits :
    (s : Store) (f : Fetch) (r : FetchResult) (opcode request_id : ℕ)
    → IsHistory s.events
    → All (λ e. IsRecord e.content) s.events
    → f.max_bytes ≤ Codes.max_fetch_bytes
    → (fetch s f).0 ≡ ok r
    → response_frame opcode request_id (encode r) ≡ envelope opcode request_id (encode r)
unfolding response_frame
fetch_fits s f r opcode request_id v valid room h =
    let (_, _, _, _, _, bytes) = fetch-bounds s f r v room h in
    let size =
      length-encode r
        (valid_part r.events s.events valid (λ e m. (fetch_sound s f r v room h e m).kept)) in
    let fits : ltb (Codes.max_frame - 5) (length (encode r)) ≡ false =
      ground (arith, size, bytes, room) in
    rw (response_frame, fits) refl
