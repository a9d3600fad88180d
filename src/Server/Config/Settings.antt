-- ===== src/Server/Config/Settings.antt =====
-- main.rs: each option of the command line keeps the configuration within its limits.
use velo_bus.Prelude.{
  ℕ, ◌^◌, ◌≤◌, ◌≡◌, inl, inr, Bool, true, false, ◌==◌, length, Option, none, some, arith,
  Bool-cases,
}
use velo_bus.Protocol.Types.{Bytes}
use velo_bus.Protocol.Wire.{Within}
use velo_bus.Server.Config.{Config, accepted, refused, is_option, set_number}
use velo_bus.Server.Config.Accepts.{
  default_dir, Limits, Accepts, accepted-Accepts, refused-Accepts, and_then-Accepts,
  parse_budget-Within, parse_count-Within,
}

module _ {A : Type 0} where
  -- What the loop keeps: the limits, the token, and the directory until it is given.
  pub record Kept (token : Bytes) (r : Config A × Bool) : Type 0 where
    pub limits : Limits r.0
    pub same_token : r.0.token ≡ token
    pub same_dir : r.1 ≡ false → r.0.data_dir ≡ default_dir

  pub keep :
      {token : Bytes} {c : Config A} {explicit : Bool}
      → Within 1 (2 ^ 40) c.max_retained_bytes
      → Within 8 (2 ^ 40) c.max_wal_bytes
      → Within 1 (2 ^ 40) c.max_rpc_bytes
      → Within 1 1_000_000 c.max_rpc_calls
      → Within 1 4096 c.max_connections
      → 1 ≤ length c.data_dir
      → c.token ≡ token
      → (explicit ≡ false → c.data_dir ≡ default_dir)
      → Kept token (c, explicit)
  keep retained wal rpc calls connections dir same_token same_dir = record {
    limits = record {
      retained = retained;
      wal = wal;
      rpc = rpc;
      calls = calls;
      connections = connections;
      dir = dir;
    };
    same_token = same_token;
    same_dir = same_dir;
  }

  pub listen-Kept :
      (token : Bytes) (c : Config A) (explicit : Bool) (o : Option A) (bad : Bytes)
      → Kept token (c, explicit)
      → Accepts
          (Kept token)
          (elim o [ none ↦ refused bad | some a ↦ accepted (record c { listen = a }, explicit) ])
  listen-Kept token c explicit none bad k = refused-Accepts (Kept token) bad
  listen-Kept token c explicit (some a) bad k =
      let l = k.limits in
      accepted-Accepts (Kept token) (record c { listen = a }, explicit)
        (keep (l.retained) (l.wal) (l.rpc) (l.calls) (l.connections) (l.dir) (k.same_token)
          (k.same_dir))

  pub dir-Kept :
      (token : Bytes) (c : Config A) (explicit : Bool) (value : Bytes)
      → Kept token (c, explicit)
      → (length value == 0) ≡ false
      → Kept token (record c { data_dir = value }, true)
  dir-Kept token c explicit value k e =
      let l = k.limits in
      keep (l.retained) (l.wal) (l.rpc) (l.calls) (l.connections) (ground (arith, e)) (k.same_token)
        (λ t. absurd (true_is_not_false t))
    where
      true_is_not_false : true ≡ false → ⊥
      true_is_not_false h = cc

  pub number-Kept :
      (token : Bytes) (c : Config A) (explicit : Bool) (arg value : Bytes)
      → Kept token (c, explicit)
      → Accepts (Kept token) (set_number c explicit arg value)
  unfolding set_number
  number-Kept token c explicit arg value k =
      let l = k.limits in
      let retained : (n : ℕ)
          → Within 1 (2 ^ 40) n
          → Kept token (record c { max_retained_bytes = n }, explicit) =
        λ n w.
          keep (w) (l.wal) (l.rpc) (l.calls) (l.connections) (l.dir) (k.same_token) (k.same_dir) in
      let wal : (n : ℕ)
          → Within 8 (2 ^ 40) n
          → Kept token (record c { max_wal_bytes = n }, explicit) =
        λ n w.
          keep (l.retained) (w) (l.rpc) (l.calls) (l.connections) (l.dir) (k.same_token)
            (k.same_dir) in
      let rpc : (n : ℕ)
          → Within 1 (2 ^ 40) n
          → Kept token (record c { max_rpc_bytes = n }, explicit) =
        λ n w.
          keep (l.retained) (l.wal) (w) (l.calls) (l.connections) (l.dir) (k.same_token)
            (k.same_dir) in
      let calls : (n : ℕ)
          → Within 1 1_000_000 n
          → Kept token (record c { max_rpc_calls = n }, explicit) =
        λ n w.
          keep (l.retained) (l.wal) (l.rpc) (w) (l.connections) (l.dir) (k.same_token)
            (k.same_dir) in
      let connections : (n : ℕ)
          → Within 1 4096 n
          → Kept token (record c { max_connections = n }, explicit) =
        λ n w.
          keep (l.retained) (l.wal) (l.rpc) (l.calls) (w) (l.dir) (k.same_token) (k.same_dir) in
      elim (Bool-cases (is_option "--max-retained-bytes" arg)) [
        | inl e ↦ rw e (
            and_then-Accepts (Within 1 (2 ^ 40)) (Kept token) _ _ (parse_budget-Within value 1)
              (λ n w. accepted-Accepts (Kept token) _ (retained n w)))
        | inr e ↦ rw e (elim (Bool-cases (is_option "--max-wal-bytes" arg)) [
          | inl e ↦ rw e (
              and_then-Accepts (Within 8 (2 ^ 40)) (Kept token) _ _ (parse_budget-Within value 8)
                (λ n w. accepted-Accepts (Kept token) _ (wal n w)))
          | inr e ↦ rw e (elim (Bool-cases (is_option "--max-rpc-bytes" arg)) [
            | inl e ↦ rw e (
                and_then-Accepts (Within 1 (2 ^ 40)) (Kept token) _ _ (parse_budget-Within value 1)
                  (λ n w. accepted-Accepts (Kept token) _ (rpc n w)))
            | inr e ↦ rw e (elim (Bool-cases (is_option "--max-rpc-calls" arg)) [
              | inl e ↦ rw e (
                  and_then-Accepts (Within 1 1_000_000) (Kept token) _ _
                    (parse_count-Within value 1_000_000 "invalid --max-rpc-calls"
                      "--max-rpc-calls must be 1..1000000")
                    (λ n w. accepted-Accepts (Kept token) _ (calls n w)))
              | inr e ↦ rw e (elim (Bool-cases (is_option "--max-connections" arg)) [
                | inl e ↦ rw e (
                    and_then-Accepts (Within 1 4096) (Kept token) _ _
                      (parse_count-Within value 4096 "invalid --max-connections"
                        "--max-connections must be 1..4096")
                      (λ n w. accepted-Accepts (Kept token) _ (connections n w)))
                | inr e ↦ rw e (refused-Accepts (Kept token) _)
              ])
            ])
          ])
        ])
      ]

  pub memory-Kept :
      (token : Bytes) (c : Config A) (explicit : Bool)
      → Kept token (c, explicit)
      → Kept token (record c { memory = true }, explicit)
  memory-Kept token c explicit k =
      let l = k.limits in
      keep (l.retained) (l.wal) (l.rpc) (l.calls) (l.connections) (l.dir) (k.same_token)
        (k.same_dir)
