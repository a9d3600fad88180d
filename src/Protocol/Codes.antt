-- ===== src/Protocol/Codes.antt =====
-- protocol.rs, lines 4 to 20: the limits and the error codes.
use velo_bus.Prelude.{ℕ}

abbrev pub max_frame : ℕ
max_frame = 1_048_576

abbrev pub max_payload : ℕ
max_payload = 262_144

abbrev pub max_batch : ℕ
max_batch = 256

abbrev pub max_fetch_bytes : ℕ
max_fetch_bytes = 524_288

abbrev pub max_scan : ℕ
max_scan = 4096

abbrev pub protocol : ℕ
protocol = 1

abbrev pub unauthorized : ℕ
unauthorized = 2

abbrev pub invalid : ℕ
invalid = 3

abbrev pub capacity : ℕ
capacity = 4

abbrev pub limit : ℕ
limit = 5

abbrev pub storage : ℕ
storage = 6

abbrev pub cursor : ℕ
cursor = 7

abbrev pub no_service : ℕ
no_service = 8

abbrev pub overloaded : ℕ
overloaded = 9

abbrev pub deadline_exceeded : ℕ
deadline_exceeded = 10

abbrev pub service_unavailable : ℕ
service_unavailable = 11

abbrev pub handler_error : ℕ
handler_error = 12
