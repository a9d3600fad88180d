-- ===== src/Protocol/Reader.antt =====
-- protocol.rs, lines 106 to 155: the cursor over a received body. A method that may fail returns a
-- result; after an error the callers drop the reader, so an error carries none.
use velo_bus.Prelude.{
  ℕ, ◌+◌, ◌-◌, Bool, not, List, [], ◌∷◌, ltb, ◌==◌, if◌then◌else◌, length, be_value,
}
use velo_bus.Prelude
use velo_bus.Protocol.Codes
use velo_bus.Protocol.Types.{Bytes, Error, Result, ok, err, bind, new_error}
use velo_bus.Protocol.Utf8.{is_utf8}

pub record Reader : Type 0 where
  pub input : Bytes
  pub position : ℕ

-- `Reader::new`
abbrev pub new : Bytes → Reader
new bytes = record { input = bytes; position = 0 }

-- An action on the reader that may fail.
abbrev pub Parser {ℓ} : Type ℓ → Type ℓ
Parser A = Reader → Result (A × Reader)

infixl 5 ◌>>=◌ ◌>>◌
abbrev pub ◌>>=◌ {ℓ κ} : {A : Type ℓ} {B : Type κ} → Parser A → (A → Parser B) → Parser B
◌>>=◌ m f r = bind (m r) (λ (a, r'). f a r')

abbrev pub ◌>>◌ {ℓ} : {B : Type ℓ} → Parser (Unit {0}) → Parser B → Parser B
m >> k = m >>= λ _. k

abbrev pub pure {ℓ} : {A : Type ℓ} → A → Parser A
pure a r = ok (a, r)

abbrev pub lift {ℓ} : {A : Type ℓ} → Result A → Parser A
lift m r = bind m (λ a. ok (a, r))

-- `if test { return Err(e) }`
abbrev pub fail_if : Bool → Error → Parser (Unit {0})
fail_if test e = lift (if test then err e else ok tt)

-- `data.slice(from..to)`
abbrev slice : Bytes → ℕ → ℕ → Bytes
slice bytes from count = Prelude.take count (Prelude.drop from bytes)

unfoldable pub take : ℕ → Parser Bytes
take count r =
    if ltb (length r.input - r.position) count
    then err (new_error Codes.protocol "truncated request body")
    else ok (slice r.input r.position count, record r { position = r.position + count })

-- `bytes[0]`; the callers hold a byte at least.
abbrev pub first : Bytes → ℕ
first [] = 0
first (b ∷ bs) = b

unfoldable pub u8 : Parser ℕ
u8 = do bytes ← take 1; pure (first bytes)

unfoldable pub u16 : Parser ℕ
u16 = do bytes ← take 2; pure (be_value bytes)

unfoldable pub u32 : Parser ℕ
u32 = do bytes ← take 4; pure (be_value bytes)

unfoldable pub u64 : Parser ℕ
u64 = do bytes ← take 8; pure (be_value bytes)

unfoldable pub string : ℕ → Parser Bytes
string max_length = do
  count ← u16
  fail_if (ltb max_length count) (new_error Codes.invalid "string exceeds byte limit")
  value ← take count
  fail_if (not (is_utf8 value)) (new_error Codes.protocol "invalid UTF-8")
  pure value

unfoldable pub finish : Reader → Result (Unit {0})
finish r =
    if not (r.position == length r.input)
    then err (new_error Codes.protocol "unexpected trailing bytes")
    else ok tt
