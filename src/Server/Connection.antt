-- ===== src/Server/Connection.antt =====
-- crates/velobus/src/main.rs, lines 283 to 310 and 363 to 445: a connection behind its handshake. The
-- main loop, the operations that it spawns and the writer are one state; each of their moves between
-- two points where they wait is a function on it. A receiver of a channel gets what was sent first.
pub mod Counts
pub mod Receiving
pub mod Writing
pub mod Balance
use velo_bus.Prelude.{
  ℕ, zero, suc, ◌+◌, ◌-◌, Bool, true, false, not, List, [], ◌∷◌, ◌++◌, ltb, ◌==◌, if◌then◌else◌,
  filter, contains_id, Option, none, some, get_elem?, ◌≡◌, ◌≢◌,
}
use velo_bus.Protocol.Codes
use velo_bus.Protocol.Types.{Bytes, Error, Result, ok, err, new_error, Request, hello}
use velo_bus.Protocol.Encode.{error_body}
use velo_bus.Protocol.Decode.{decode_request}
use velo_bus.Server.{response_frame, reply_opcode}

-- `MAX_IN_FLIGHT`
abbrev pub max_in_flight : ℕ
max_in_flight = 32

-- `Response`: whether it holds a permit, and whether the main loop waits for its receipt.
pub record Response : Type 0 where
  pub opcode : ℕ
  pub request_id : ℕ
  pub body : Bytes
  pub permit : Bool
  pub receipt : Bool

-- A spawned operation, which holds a permit.
pub record Operation : Type 0 where
  pub opcode : ℕ
  pub request_id : ℕ
  pub request : Request

-- The main loop waits for a frame, or for the receipt of an error, behind which it may close; or
-- it has ended.
pub data Loop : Type 0 where
  reading : Loop
  awaiting : (close : Bool) → Loop
  ended : Loop

-- The ids in flight, the permits left, and what is running, sent, being written and written; with
-- the log of the ids received, and the responses that were dropped with the writer.
pub record Connection : Type 0 where
  pub loop : Loop
  pub ids : List ℕ
  pub permits : ℕ
  pub running : List Operation
  pub queued : List Response
  pub writing : Option Response
  pub written : List (ℕ × Bytes)
  pub received : List ℕ
  pub lost : List Response

-- Behind the handshake.
abbrev pub opened : Connection
opened = record {
  loop = reading;
  ids = [];
  permits = max_in_flight;
  running = [];
  queued = [];
  writing = none;
  written = [];
  received = [];
  lost = [];
}

-- The `match` on a decoded request.
unfoldable pub request_error : Bool → Result Request → Option Error
request_error no_permit (ok (hello version token)) =
    some (new_error Codes.protocol "HELLO is allowed only once")
request_error no_permit (err e) = some e
request_error no_permit (ok q) =
    if no_permit
    then some (new_error Codes.overloaded "connection has 32 in-flight operations")
    else none

abbrev pub error_response : ℕ → Error → Bool → Response
error_response request_id e permit = record {
  opcode = 255;
  request_id = request_id;
  body = error_body e;
  permit = permit;
  receipt = true;
}

-- An error is sent, and the loop waits for its receipt.
abbrev pub answer_error : Connection → ℕ → Error → Bool → Bool → Connection
answer_error c request_id e permit close = record c {
  queued = c.queued ++ error_response request_id e permit ∷ [];
  loop = awaiting close;
}

unfoldable pub spawn : Connection → ℕ → ℕ → Result Request → Connection
spawn c opcode request_id (ok q) = record c {
  running = c.running ++ record { opcode = opcode; request_id = request_id; request = q } ∷ [];
}
spawn c opcode request_id (err e) = c

-- A frame whose id is not in flight. The permit is tried before the request is decoded.
unfoldable pub receive_new : Connection → ℕ → ℕ → Result Request → Connection
unfolding request_error spawn
receive_new c opcode request_id request =
    let no_permit = c.permits == 0 in
    let taken : Connection = record c { permits = c.permits - 1 } in
    elim (request_error no_permit request) [
      | some e ↦ answer_error taken request_id e (not no_permit) (e.code == Codes.protocol)
      | none ↦ spawn taken opcode request_id request
    ]

-- The arm of the main loop for a frame.
unfoldable pub receive : Connection → ℕ → ℕ → Bytes → Connection
unfolding receive_new
receive c opcode request_id body =
    let logged : Connection = record c { received = c.received ++ request_id ∷ [] } in
    if contains_id request_id c.ids
    then answer_error logged request_id
        (new_error Codes.protocol "duplicate in-flight request identifier") false true
    else receive_new (record logged { ids = c.ids ++ request_id ∷ [] }) opcode request_id
        (decode_request opcode body)

-- The response to an operation that has ended.
unfoldable pub response_of : Operation → Result Bytes → Response
response_of o (ok body) = record {
  opcode = reply_opcode o.opcode;
  request_id = o.request_id;
  body = body;
  permit = true;
  receipt = false;
}
response_of o (err e) = record {
  opcode = 255;
  request_id = o.request_id;
  body = error_body e;
  permit = true;
  receipt = false;
}

module _ {A : Type 0} where
  unfoldable pub remove_at : List A → ℕ → List A
  remove_at [] i = []
  remove_at (x ∷ xs) zero = xs
  remove_at (x ∷ xs) (suc i) = x ∷ remove_at xs i

-- The end of the spawned task at a place of the running ones.
unfoldable pub finish : Connection → ℕ → Result Bytes → Connection
unfolding response_of remove_at
finish c i result = elim (get_elem? c.running i) [
  | none ↦ c
  | some o ↦ record c {
    running = remove_at c.running i;
    queued = c.queued ++ response_of o result ∷ [];
  }
]

abbrev pub held : Response → ℕ
held r = if r.permit then 1 else 0

abbrev pub total_held : List Response → ℕ
total_held [] = 0
total_held (r ∷ rs) = held r + total_held rs

-- `write_queued_response` up to the write: the permit and the id are given back first.
unfoldable pub start_write : Connection → Connection
start_write c = elim c.writing [
  | some r ↦ c
  | none ↦ elim c.queued [
    | [] ↦ c
    | r ∷ rs ↦ record c {
      queued = rs;
      writing = some r;
      permits = c.permits + held r;
      ids = filter (λ id. not (id == r.request_id)) c.ids;
    }
  ]
]

-- The main loop gets the receipt of what it waits for.
unfoldable pub next_loop : Loop → Bool → Loop
next_loop (awaiting true) true = ended
next_loop (awaiting false) true = reading
next_loop l receipt = l

-- The write ends, and the receipt is given.
unfoldable pub end_write : Connection → Connection
unfolding next_loop
end_write c = elim c.writing [
  | none ↦ c
  | some r ↦ record c {
    writing = none;
    written = c.written ++ (r.request_id, response_frame r.opcode r.request_id r.body) ∷ [];
    loop = next_loop c.loop r.receipt;
  }
]

-- A write fails, and with it the writer's task: what it wrote and what waits for it is dropped, and
-- the main loop ends.
unfoldable pub fail_write : Connection → Connection
fail_write c = elim c.writing [
  | none ↦ c
  | some r ↦ record c {
    loop = ended;
    permits = c.permits + total_held c.queued;
    queued = [];
    writing = none;
    lost = c.lost ++ r ∷ c.queued;
  }
]

-- The reader's task ends, or an operation panics.
abbrev pub end_loop : Connection → Connection
end_loop c = record c { loop = ended }

-- A move of the main loop, of an operation, or of the writer. When the main loop has ended,
-- operations and writer are aborted.
pub data Step (c : Connection) : Connection → Type 0 where
  receives :
      (opcode request_id : ℕ) (body : Bytes)
      → c.loop ≡ reading
      → Step c (receive c opcode request_id body)
  ends : c.loop ≡ reading → Step c (end_loop c)
  finishes : (i : ℕ) (result : Result Bytes) → c.loop ≢ ended → Step c (finish c i result)
  starts_write : c.loop ≢ ended → Step c (start_write c)
  ends_write : c.loop ≢ ended → Step c (end_write c)
  fails_write : c.loop ≢ ended → Step c (fail_write c)

-- The states of a connection until it is cleaned up, in any interleaving of the moves.
pub data Reachable : Connection → Type 0 where
  initial : Reachable opened
  after : (c d : Connection) → Reachable c → Step c d → Reachable d
