-- ===== src/Protocol/Types.antt =====
-- protocol.rs, lines 22 to 104: errors, records, events and requests, and the result type of all
-- fallible code. A string and a `Bytes` buffer are lists of bytes.
use velo_bus.Prelude.{ℕ, ◌+◌, ◌*◌, ◌^◌, ◌%◌, String, Bool, List, length, bytes_of}

abbrev pub Bytes : Type 0
Bytes = List ℕ

pub record Error : Type 0 where
  pub code : ℕ
  pub message : Bytes

-- `Error::new` at a text of the program.
unfoldable pub new_error : ℕ → String → Error
new_error code message = record { code = code; message = bytes_of message }

pub data Result {ℓ} (A : Type ℓ) : Type ℓ where
  ok : A → Result A
  err : Error → Result A

-- `?` on a `Result`.
abbrev pub bind {ℓ κ} : {A : Type ℓ} {B : Type κ} → Result A → (A → Result B) → Result B
bind (ok a) f = f a
bind (err e) f = err e

pub record Record : Type 0 where
  pub topic : Bytes
  pub key : Bytes
  pub payload : Bytes

-- The arithmetic of `u64` and of a 64-bit `usize`.
infixl 65 ◌+u64◌
abbrev pub ◌+u64◌ : ℕ → ℕ → ℕ
a +u64 b = (a + b) % 2 ^ 64

unfoldable pub retained_bytes : Record → ℕ
retained_bytes r = (256 + 2 * length r.topic + 2 * length r.key + length r.payload) % 2 ^ 64

unfoldable pub wire_bytes : Record → ℕ
wire_bytes r = (16 + length r.topic + length r.key + length r.payload) % 2 ^ 64

pub record Event : Type 0 where
  pub sequence : ℕ
  pub content : Record

pub record Fetch : Type 0 where
  pub topic : Bytes
  pub after : ℕ
  pub limit : ℕ
  pub max_bytes : ℕ
  pub latest : Bool

pub data Request : Type 0 where
  hello : (version : ℕ) → (token : Bytes) → Request
  publish : List Record → Request
  fetch : Fetch → Request
  stats ping : Request
  register : (route : Bytes) → (concurrency queue_limit : ℕ) → Request
  rpc : (route : Bytes) → (timeout_ms : ℕ) → (payload : Bytes) → Request
  take : (wait_ms : ℕ) → Request
  complete : (call_id : ℕ) → (failed : Bool) → (payload : Bytes) → Request
