-- ===== src/Server/Runs/Start.antt =====
-- Runs of the command line and of the handshake. An address is its text, and loopback if it is the
-- default one.
use velo_bus.Prelude.{
  ℕ, ◌≡◌, ◌↔◌, refl, Bool, true, List, [], ◌∷◌, arith, Option, some, bytes_of, bytes_eq,
}
use velo_bus.Protocol.Types.{Bytes, hello}
use velo_bus.Protocol.Wire.{IsText, request_bytes}
use velo_bus.Protocol.Utf8.{is_utf8}
use velo_bus.Server.Config.{
  Config, accepted, defaults, parse, start_parse, parse_loop, set_option, set_number, check_config,
  parse_count,
}
use velo_bus.Server.Config.Numbers.{parse_number, digits_value}
use velo_bus.Server.Config.Accepts.{Configured}
use velo_bus.Server.Config.Bounds.{parse-Configured}
use velo_bus.Server.Config.CommandLine.{command_line, parse-command_line}
use velo_bus.Server.Handshake.{handshake, handshake-accepts}

abbrev read_address : Bytes → Option Bytes
read_address text = some text

abbrev is_loopback : Bytes → Bool
is_loopback text = bytes_eq text (bytes_of "127.0.0.1:7447")

abbrev secret : Bytes
secret = b'k' ∷ []

abbrev arguments : List Bytes
arguments =
    bytes_of "--memory"
    ∷ bytes_of "--listen"
    ∷ bytes_of "0.0.0.0:80"
    ∷ bytes_of "--max-rpc-calls"
    ∷ bytes_of "7"
    ∷ []

abbrev given : Config Bytes
given = record (defaults read_address is_loopback (bytes_of "0.0.0.0:80") secret) {
  memory = true;
  max_rpc_calls = 7;
}

parsed : parse read_address is_loopback arguments secret ≡ accepted given
unfolding parse start_parse parse_loop set_option set_number check_config parse_count parse_number
    digits_value bytes_eq bytes_of
parsed = refl

parse-Configured_example : Configured is_loopback given × (given.token ≡ secret)
parse-Configured_example = parse-Configured read_address is_loopback arguments secret given parsed

given-Configured : Configured is_loopback given
given-Configured = (parse-Configured read_address is_loopback arguments secret given parsed).0

parse-command_line_example :
    parse read_address is_loopback (command_line (λ a. a) given) secret ≡ accepted given
parse-command_line_example =
    parse-command_line read_address is_loopback (λ a. a) given (bytes_of "127.0.0.1:7447") refl refl
      given-Configured

abbrev hello_code : ℕ
hello_code = 1

abbrev hello_body : Bytes
hello_body = 0 ∷ 1 ∷ 0 ∷ 1 ∷ b'k' ∷ []

secret-IsText : IsText 65535 secret
unfolding is_utf8
secret-IsText = (omega arith, refl)

handshake-accepts_example :
    ((handshake secret hello_code 9 hello_body).0 ≡ true)
    ↔ ((hello_code ≡ 1) × (hello_body ≡ request_bytes (hello 1 secret)))
handshake-accepts_example =
    handshake-accepts secret hello_code 9 hello_body secret-IsText
      (omega arith, (omega arith, (omega arith, (omega arith, (omega arith, tt)))))
