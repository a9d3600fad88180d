-- ===== src/Server/Config/Numbers.antt =====
-- The standard library's `str::parse` at `u64` and a 64-bit `usize`, as main.rs uses it: a number is
-- read back from its decimal digits.
use native.Mathlib.Nat.{pow-suc}
use velo_bus.Prelude.{
  ℕ, zero, suc, ◌+◌, ◌-◌, ◌*◌, ◌/◌, ◌%◌, ◌^◌, ◌≤◌, ◌<◌, ◌≡◌, refl, ◌∙◌, ap, inl, inr, true, false,
  ◌&&◌, [], ◌∷◌, ltb, ◌==◌, if◌then◌else◌, length, Option, none, some, arith, Bool-cases, decimal,
  decimal_loop,
}
use velo_bus.Protocol.Types.{Bytes}
use velo_bus.Protocol.Decode.{contains}

-- The digits behind a value, with checked multiplication and addition.
unfoldable pub digits_value : ℕ → Bytes → Option ℕ
digits_value n [] = some n
digits_value n (b ∷ bs) =
    let rest = digits_value (n * 10 + (b - b'0')) bs in
    if contains b'0' b'9' b && ltb (n * 10 + (b - b'0')) (2 ^ 64) then rest else none

-- `parse::<u64>`: a sign `+` is allowed, no digits are not.
unfoldable pub parse_number : Bytes → Option ℕ
unfolding digits_value
parse_number [] = none
parse_number (b ∷ bs) =
    if b == b'+'
    then (if length bs == 0 then none else digits_value 0 bs)
    else digits_value 0 (b ∷ bs)

digits_value-digit :
    (m n : ℕ) (acc : Bytes)
    → m ≡ n / 10
    → n < 2 ^ 64
    → digits_value m ((b'0' + n % 10) ∷ acc) ≡ digits_value n acc
unfolding digits_value
digits_value-digit m n acc e word =
    let v : m * 10 + (b'0' + n % 10 - b'0') ≡ n = omega arith in
    let d : contains b'0' b'9' (b'0' + n % 10) ≡ true = ground arith in
    let w : ltb n (2 ^ 64) ≡ true = ground arith in rw (d, v, w) refl

digits_value-decimal_loop :
    (fuel n : ℕ) (acc : Bytes)
    → n < 10 ^ fuel
    → n < 2 ^ 64
    → digits_value 0 (decimal_loop fuel n acc) ≡ digits_value n acc
unfolding decimal_loop
digits_value-decimal_loop zero n acc fits word =
    let e : 0 ≡ n = omega arith in ap (λ z. digits_value z acc) e
digits_value-decimal_loop (suc fuel) n acc fits word = elim (Bool-cases (n / 10 == 0)) [
  | inl e ↦ rw e (digits_value-digit 0 n acc (ground arith) word)
  | inr e ↦ rw e (
      digits_value-decimal_loop fuel (n / 10) ((b'0' + n % 10) ∷ acc)
        (omega (arith, pow-suc 10 fuel, fits)) (omega arith)
      ∙ digits_value-digit (n / 10) n acc refl word)
]

length-decimal_loop : (fuel n : ℕ) (acc : Bytes) → length acc ≤ length (decimal_loop fuel n acc)
unfolding decimal_loop
length-decimal_loop zero n acc = omega arith
length-decimal_loop (suc fuel) n acc = elim (Bool-cases (n / 10 == 0)) [
  | inl e ↦ rw e (omega arith)
  | inr e ↦ rw e (omega (arith, length-decimal_loop fuel (n / 10) ((b'0' + n % 10) ∷ acc)))
]

length-decimal : (n : ℕ) → 1 ≤ length (decimal n)
unfolding decimal decimal_loop
length-decimal n = elim (Bool-cases (n / 10 == 0)) [
  | inl e ↦ rw e (omega arith)
  | inr e ↦ rw e (length-decimal_loop 19 (n / 10) ((b'0' + n % 10) ∷ []))
]

-- A text that is read digit by digit has no sign.
parse_number-digits :
    (text : Bytes) (n : ℕ)
    → 1 ≤ length text
    → digits_value 0 text ≡ some n
    → parse_number text ≡ some n
unfolding parse_number digits_value
parse_number-digits [] n p h = absurd (omega arith)
parse_number-digits (b ∷ bs) n p h = elim (Bool-cases (b == b'+')) [
  | inl e ↦
      let d : contains b'0' b'9' b ≡ false = ground arith in absurd (none_is_not_some (rw d at h))
  | inr e ↦ rw e h
]
  where
    none_is_not_some : {m : ℕ} → none ≡ some m → ⊥
    none_is_not_some q = cc

-- A number of 64 bits is read back from its decimal digits.
pub parse_number-decimal : (n : ℕ) → n < 2 ^ 64 → parse_number (decimal n) ≡ some n
unfolding decimal digits_value
parse_number-decimal n word =
    parse_number-digits (decimal n) n (length-decimal n)
      (digits_value-decimal_loop 20 n [] (omega arith) word)
