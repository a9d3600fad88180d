-- ===== src/Server/Config.antt =====
-- crates/velobus/src/main.rs, lines 30 to 156: the configuration, the parsing of the command line and
-- what `main` makes of it. The reading of socket addresses is the standard library's, an argument.
pub mod Numbers
pub mod Accepts
pub mod Settings
pub mod Bounds
pub mod CommandLine
use velo_bus.Prelude.{
  ℕ, ◌*◌, ◌^◌, ◌-◌, Bool, true, false, not, ◌&&◌, ◌||◌, String, List, [], ◌∷◌, ◌++◌, leb, ltb, ◌==◌,
  if◌then◌else◌, length, min, Option, none, some, bytes_eq, bytes_of, decimal,
}
use velo_bus.Protocol.Types.{Bytes}
use velo_bus.Protocol.Decode.{contains}
use velo_bus.Server.Config.Numbers.{parse_number}

-- `A` is the type of socket addresses.
pub record Config (A : Type 0) : Type 0 where
  pub listen : A
  pub data_dir : Bytes
  pub memory : Bool
  pub max_retained_bytes : ℕ
  pub max_wal_bytes : ℕ
  pub max_connections : ℕ
  pub max_rpc_calls : ℕ
  pub max_rpc_bytes : ℕ
  pub token : Bytes

-- `Result<_, String>`, or a panic.
pub data Outcome (B : Type 0) : Type 0 where
  accepted : B → Outcome B
  refused : Bytes → Outcome B
  panics : Outcome B

-- `?` on an outcome.
abbrev pub and_then : {B C : Type 0} → Outcome B → (B → Outcome C) → Outcome C
and_then (accepted b) f = f b
and_then (refused e) f = refused e
and_then panics f = panics

abbrev pub fail : {B : Type 0} → String → Outcome B
fail text = refused (bytes_of text)

-- `(1u64 << 40).min(usize::MAX as u64)`
abbrev pub max_budget : ℕ
max_budget = min (2 ^ 40) (2 ^ 64 - 1)

-- `parse_budget`
unfoldable pub parse_budget : Bytes → ℕ → Outcome ℕ
parse_budget value minimum = elim (parse_number value) [
  | none ↦ fail "byte budgets must be unsigned decimal integers"
  | some budget ↦
      if not (contains minimum max_budget budget)
      then refused (
          bytes_of "byte budget must be "
          ++ (decimal minimum ++ (bytes_of ".." ++ decimal max_budget)))
      else accepted budget
]

-- A count of calls or connections, from 1 up to a maximum.
unfoldable pub parse_count : Bytes → ℕ → (invalid range : String) → Outcome ℕ
parse_count value maximum invalid range = elim (parse_number value) [
  | none ↦ fail invalid
  | some n ↦ if not (contains 1 maximum n) then fail range else accepted n
]

abbrev pub is_option : String → Bytes → Bool
is_option name arg = bytes_eq arg (bytes_of name)

-- The options that take a number, and what no option is.
unfoldable pub set_number :
    {A : Type 0} → Config A → Bool → Bytes → Bytes → Outcome (Config A × Bool)
set_number c explicit arg value =
    if is_option "--max-retained-bytes" arg
    then and_then (parse_budget value 1)
        (λ n. accepted (record c { max_retained_bytes = n }, explicit))
    else if is_option "--max-wal-bytes" arg
    then and_then (parse_budget value 8) (λ n. accepted (record c { max_wal_bytes = n }, explicit))
    else if is_option "--max-rpc-bytes" arg
    then and_then (parse_budget value 1) (λ n. accepted (record c { max_rpc_bytes = n }, explicit))
    else if is_option "--max-rpc-calls" arg
    then and_then
        (parse_count value 1_000_000 "invalid --max-rpc-calls" "--max-rpc-calls must be 1..1000000")
        (λ n. accepted (record c { max_rpc_calls = n }, explicit))
    else if is_option "--max-connections" arg
    then and_then
        (parse_count value 4096 "invalid --max-connections" "--max-connections must be 1..4096")
        (λ n. accepted (record c { max_connections = n }, explicit))
    else refused (bytes_of "unknown option " ++ arg)

module _ {A : Type 0} (parse_address : Bytes → Option A) (is_loopback : A → Bool) where
  -- The `match` on an option and its value. The flag is `explicit_data_dir`.
  unfoldable pub set_option : Config A → Bool → Bytes → Bytes → Outcome (Config A × Bool)
  unfolding set_number
  set_option c explicit arg value =
      if is_option "--listen" arg
      then elim (parse_address value) [
        | none ↦ fail "--listen must be an IP address and port, e.g. 127.0.0.1:7447"
        | some a ↦ accepted (record c { listen = a }, explicit)
      ]
      else if is_option "--data-dir" arg
      then (if length value == 0
          then fail "--data-dir cannot be empty"
          else accepted (record c { data_dir = value }, true))
      else set_number c explicit arg value

  -- The loop over the arguments.
  unfoldable pub parse_loop : Config A → Bool → List Bytes → Outcome (Config A × Bool)
  unfolding set_option
  parse_loop c explicit [] = accepted (c, explicit)
  parse_loop c explicit (arg ∷ []) =
      if is_option "--memory" arg
      then accepted (record c { memory = true }, explicit)
      else refused (bytes_of "missing value for " ++ arg)
  parse_loop c explicit (arg ∷ value ∷ args) = elim (is_option "--memory" arg) [
    | true ↦ parse_loop (record c { memory = true }) explicit (value ∷ args)
    | false ↦ and_then (set_option c explicit arg value) (λ (c', e'). parse_loop c' e' args)
  ]

  -- The tests behind the loop.
  unfoldable pub check_config : Config A → Bool → Outcome (Config A)
  check_config c explicit =
      if c.memory && explicit
      then fail "--memory conflicts with --data-dir"
      else if not (is_loopback c.listen) && length c.token == 0
      then fail "NODARA_TOKEN is required for a non-loopback listener"
      else if ltb 65535 (length c.token)
      then fail "NODARA_TOKEN exceeds protocol limit"
      else accepted c

  abbrev pub defaults : A → Bytes → Config A
  defaults listen token = record {
    listen = listen;
    data_dir = bytes_of "./data/nodara";
    memory = false;
    max_retained_bytes = 64 * 1024 * 1024;
    max_wal_bytes = 128 * 1024 * 1024;
    max_connections = 64;
    max_rpc_calls = 1024;
    max_rpc_bytes = 16 * 1024 * 1024;
    token = token;
  }

  -- `Config::parse` behind the default address; its `unwrap` panics where that was not read.
  unfoldable pub start_parse : List Bytes → Bytes → Option A → Outcome (Config A)
  unfolding parse_loop check_config
  start_parse args token none = panics
  start_parse args token (some listen) =
      and_then (parse_loop (defaults listen token) false args)
        (λ (c, explicit). check_config c explicit)

  -- `Config::parse`
  unfoldable pub parse : List Bytes → Bytes → Outcome (Config A)
  unfolding start_parse
  parse args token = start_parse args token (parse_address (bytes_of "127.0.0.1:7447"))

  -- `args.iter().any(…)`
  unfoldable pub any_option : (Bytes → Bool) → List Bytes → Bool
  any_option p [] = false
  any_option p (arg ∷ args) = p arg || any_option p args

  -- What `main` does: prints its help or version, serves, exits with an error, or panics.
  pub data Action : Type 0 where
    shows_help shows_version crashes : Action
    serves : Config A → Action
    exits : Bytes → Action

  -- `std::env::var`
  pub data Variable : Type 0 where
    present : Bytes → Variable
    not_present not_unicode : Variable

  unfoldable pub start : Outcome (Config A) → Action
  start (accepted c) = serves c
  start (refused e) = exits e
  start panics = crashes

  -- `main`
  unfoldable pub main : List Bytes → Variable → Action
  unfolding any_option start parse
  main args variable =
      if any_option (λ arg. is_option "--help" arg || is_option "-h" arg) args
      then shows_help
      else if any_option (is_option "--version") args
      then shows_version
      else elim variable [
        | present token ↦ start (parse args token)
        | not_present ↦ start (parse args [])
        | not_unicode ↦ exits (bytes_of "NODARA_TOKEN must be valid UTF-8")
      ]
