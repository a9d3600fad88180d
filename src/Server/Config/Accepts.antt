-- ===== src/Server/Config/Accepts.antt =====
-- main.rs `Config::parse`: the limits of a configuration, and of the numbers that are read.
use velo_bus.Prelude.{
  ℕ, ◌^◌, ◌≤◌, ◌≡◌, refl, subst, Bool, true, false, not, if◌then◌else◌, length, Option, none, some,
  arith, bytes_of, String,
}
use velo_bus.Protocol.Types.{Bytes}
use velo_bus.Protocol.Decode.{contains}
use velo_bus.Protocol.Wire.{Within}
use velo_bus.Server.Config.Numbers.{parse_number}
use velo_bus.Server.Config.{
  Config, Outcome, accepted, refused, panics, and_then, max_budget, parse_budget, parse_count,
}

abbrev pub default_dir : Bytes
default_dir = bytes_of "./data/nodara"

module _ {A : Type 0} where
  -- The limits that the numbers of a configuration keep.
  pub record Limits (c : Config A) : Type 0 where
    pub retained : Within 1 (2 ^ 40) c.max_retained_bytes
    pub wal : Within 8 (2 ^ 40) c.max_wal_bytes
    pub rpc : Within 1 (2 ^ 40) c.max_rpc_bytes
    pub calls : Within 1 1_000_000 c.max_rpc_calls
    pub connections : Within 1 4096 c.max_connections
    pub dir : 1 ≤ length c.data_dir

  -- A configuration that the server may run with.
  pub record Configured (is_loopback : A → Bool) (c : Config A) : Type 0 where
    pub limits : Limits c
    pub protected : is_loopback c.listen ≡ false → 1 ≤ length c.token
    pub token_size : length c.token ≤ 65535
    pub volatile : c.memory ≡ true → c.data_dir ≡ bytes_of "./data/nodara"

-- A property of what is accepted.
abbrev pub Accepts : {B : Type 0} → (B → Type 0) → Outcome B → Type 0
Accepts P o = (b : _) → o ≡ accepted b → P b

pub accepted-Accepts : {B : Type 0} (P : B → Type 0) (b : B) → P b → Accepts P (accepted b)
accepted-Accepts P b h c e = subst P (inner e) h
  where
    inner : accepted b ≡ accepted c → b ≡ c
    inner q = cc

pub refused-Accepts : {B : Type 0} (P : B → Type 0) (why : Bytes) → Accepts P (refused why)
refused-Accepts P why c e = cc

pub panics-Accepts : {B : Type 0} (P : B → Type 0) → Accepts P panics
panics-Accepts P c e = cc

pub and_then-Accepts :
    {B C : Type 0} (P : B → Type 0) (Q : C → Type 0) (o : Outcome B) (f : B → Outcome C)
    → Accepts P o
    → ((b : B) → P b → Accepts Q (f b))
    → Accepts Q (and_then o f)
and_then-Accepts P Q (accepted b) f h k = k b (h b refl)
and_then-Accepts P Q (refused e) f h k = refused-Accepts Q e
and_then-Accepts P Q panics f h k = panics-Accepts Q

pub either_way :
    {B : Type 0} (P : B → Type 0) (b : Bool) (x y : Outcome B)
    → (b ≡ true → Accepts P x)
    → (b ≡ false → Accepts P y)
    → Accepts P (if b then x else y)
either_way P true x y hx hy = hx refl
either_way P false x y hx hy = hy refl

checked_number :
    (o : Option ℕ) (lo hi : ℕ) (bad range : Bytes)
    → Accepts (Within lo hi) (elim o [
      | none ↦ refused bad
      | some n ↦ if not (contains lo hi n) then refused range else accepted n
    ])
checked_number none lo hi bad range = refused-Accepts (Within lo hi) bad
checked_number (some n) lo hi bad range =
    either_way (Within lo hi) (not (contains lo hi n)) (refused range) (accepted n)
      (λ _. refused-Accepts (Within lo hi) range)
      (λ h. accepted-Accepts (Within lo hi) n (ground (arith, h), ground (arith, h)))

pub parse_budget-Within :
    (value : Bytes) (minimum : ℕ) → Accepts (Within minimum (2 ^ 40)) (parse_budget value minimum)
unfolding parse_budget
parse_budget-Within value minimum = checked_number (parse_number value) minimum max_budget _ _

pub parse_count-Within :
    (value : Bytes) (maximum : ℕ) (invalid range : String)
    → Accepts (Within 1 maximum) (parse_count value maximum invalid range)
unfolding parse_count
parse_count-Within value maximum invalid range =
    checked_number (parse_number value) 1 maximum (bytes_of invalid) (bytes_of range)
