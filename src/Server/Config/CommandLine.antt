-- ===== src/Server/Config/CommandLine.antt =====
-- main.rs `Config::parse`: the command line of a configuration is read back.
use velo_bus.Prelude.{
  ℕ, ◌^◌, ◌≤◌, ◌≡◌, refl, sym, ap, ◌∙◌, inl, inr, Bool, true, false, not, ◌&&◌, List, [], ◌∷◌, ◌==◌,
  ltb, if◌then◌else◌, length, Option, some, arith, Bool-cases, bytes_of, bytes_eq, decimal, String,
}
use velo_bus.Protocol.Types.{Bytes}
use velo_bus.Protocol.Decode.{contains}
use velo_bus.Protocol.Wire.{Within}
use velo_bus.Server.Config.Numbers.{parse_number-decimal}
use velo_bus.Server.Config.{
  Config, Outcome, accepted, max_budget, parse_budget, parse_count, set_number, set_option,
  parse_loop, check_config, defaults, start_parse, parse,
}
use velo_bus.Server.Config.Accepts.{Configured}

parse_budget-decimal :
    (n minimum : ℕ) → Within minimum (2 ^ 40) n → parse_budget (decimal n) minimum ≡ accepted n
unfolding parse_budget
parse_budget-decimal n minimum (lo, hi) =
    let t : contains minimum max_budget n ≡ true = ground (arith, lo, hi) in
    rw (parse_budget, parse_number-decimal n (omega (arith, hi)), t) refl

parse_count-decimal :
    (n maximum : ℕ) (invalid range : String)
    → maximum ≤ 2 ^ 40
    → Within 1 maximum n
    → parse_count (decimal n) maximum invalid range ≡ accepted n
unfolding parse_count
parse_count-decimal n maximum invalid range top (lo, hi) =
    let t : contains 1 maximum n ≡ true = ground (arith, lo, hi) in
    rw (parse_count, parse_number-decimal n (omega (arith, hi, top)), t) refl

module _ {A : Type 0} where
  -- The options that take a number.
  numbers : Config A → List Bytes
  numbers c =
      bytes_of "--max-retained-bytes"
      ∷ decimal c.max_retained_bytes
      ∷ bytes_of "--max-wal-bytes"
      ∷ decimal c.max_wal_bytes
      ∷ bytes_of "--max-rpc-bytes"
      ∷ decimal c.max_rpc_bytes
      ∷ bytes_of "--max-rpc-calls"
      ∷ decimal c.max_rpc_calls
      ∷ bytes_of "--max-connections"
      ∷ decimal c.max_connections
      ∷ []

  -- A command line for a configuration, with what prints its address.
  unfoldable pub command_line : (A → Bytes) → Config A → List Bytes
  unfolding numbers
  command_line print c =
      bytes_of "--listen"
      ∷ print c.listen
      ∷ (if c.memory
          then bytes_of "--memory" ∷ numbers c
          else bytes_of "--data-dir" ∷ c.data_dir ∷ numbers c)

module _ {A : Type 0} (parse_address : Bytes → Option A) (is_loopback : A → Bool) where
  -- What is left of a configuration when the numbers of another are taken over.
  abbrev with_numbers : Config A → Config A → Config A
  with_numbers c d = record c {
    max_retained_bytes = d.max_retained_bytes;
    max_wal_bytes = d.max_wal_bytes;
    max_rpc_bytes = d.max_rpc_bytes;
    max_rpc_calls = d.max_rpc_calls;
    max_connections = d.max_connections;
  }

  parse_loop-numbers :
      (c d : Config A) (explicit : Bool)
      → Configured is_loopback d
      → parse_loop parse_address is_loopback c explicit (numbers d)
        ≡ accepted (with_numbers c d, explicit)
  unfolding parse_loop set_option set_number numbers bytes_eq bytes_of
  parse_loop-numbers c d explicit h =
      let l = h.limits in
      rw
        (
          parse_budget-decimal d.max_retained_bytes 1 l.retained,
          parse_budget-decimal d.max_wal_bytes 8 l.wal,
          parse_budget-decimal d.max_rpc_bytes 1 l.rpc,
          parse_count-decimal d.max_rpc_calls 1_000_000 "invalid --max-rpc-calls"
              "--max-rpc-calls must be 1..1000000" (omega arith) l.calls,
          parse_count-decimal d.max_connections 4096 "invalid --max-connections"
              "--max-connections must be 1..4096" (omega arith) l.connections,
        )
        refl

  same_dir :
      (c : Config A) (dir : Bytes)
      → dir ≡ c.data_dir
      → ◌≡◌ {A = Outcome (Config A × Bool)}
          (accepted (record c { data_dir = dir; memory = true }, false))
          (accepted (record c { memory = true }, false))
  same_dir c dir e = ap (λ z. accepted (record c { data_dir = z; memory = true }, false)) e

  parse_loop-command_line :
      (print : A → Bytes) (c : Config A) (d : A)
      → parse_address (print c.listen) ≡ some c.listen
      → Configured is_loopback c
      → parse_loop parse_address is_loopback
          (defaults parse_address is_loopback d c.token)
          false
          (command_line print c)
        ≡ accepted (c, not c.memory)
  unfolding command_line parse_loop set_option bytes_eq bytes_of numbers
  parse_loop-command_line print c d e h =
      let b : Config A = record (defaults parse_address is_loopback d c.token) {
        listen = c.listen;
      } in
      elim (Bool-cases c.memory) [
        | inl m ↦
            rw (m, e)
              (parse_loop-numbers (record b { memory = true }) c false h
                ∙ same_dir c (bytes_of "./data/nodara") (sym (h.volatile m)))
        | inr m ↦
            let t : (length c.data_dir == 0) ≡ false = ground (arith, h.limits.dir) in
            rw (m, e, t) (parse_loop-numbers (record b { data_dir = c.data_dir }) c true h)
      ]

  check_config_accepts :
      (c : Config A)
      → Configured is_loopback c
      → check_config parse_address is_loopback c (not c.memory) ≡ accepted c
  unfolding check_config
  check_config_accepts c h =
      let volatile : (c.memory && not c.memory) ≡ false = ground arith in
      let guarded : (not (is_loopback c.listen) && length c.token == 0) ≡ false =
        ground (arith, h.protected) in
      let fits : ltb 65535 (length c.token) ≡ false = ground (arith, h.token_size) in
      rw (volatile, guarded, fits) refl

  -- A configuration within the limits is read back from its command line, whatever the defaults
  -- are, when the address that is printed for it is read back, and the default address is read.
  pub parse-command_line :
      (print : A → Bytes) (c : Config A) (d : A)
      → parse_address (bytes_of "127.0.0.1:7447") ≡ some d
      → parse_address (print c.listen) ≡ some c.listen
      → Configured is_loopback c
      → parse parse_address is_loopback (command_line print c) c.token ≡ accepted c
  unfolding parse
  parse-command_line print c d first e h =
      rw (parse, first, start_parse, parse_loop-command_line print c d e h)
        (check_config_accepts c h)
