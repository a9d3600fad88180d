-- ===== src/Server/Config/Bounds.antt =====
-- main.rs `Config::parse`: what holds of every configuration that the command line gives.
use velo_bus.Prelude.{
  ◌≡◌, refl, inl, inr, Bool, true, false, not, ◌&&◌, List, [], ◌∷◌, ◌==◌, ltb, length, Option, none,
  some, arith, Bool-cases, bytes_of,
}
use velo_bus.Protocol.Types.{Bytes}
use velo_bus.Server.Config.{
  Config, accepted, is_option, set_option, parse_loop, check_config, defaults, start_parse, parse,
}
use velo_bus.Server.Config.Accepts.{
  Configured, Accepts, accepted-Accepts, refused-Accepts, panics-Accepts, and_then-Accepts,
  either_way,
}
use velo_bus.Server.Config.Settings.{Kept, dir-Kept, keep, listen-Kept, memory-Kept, number-Kept}

module _ {A : Type 0} (parse_address : Bytes → Option A) (is_loopback : A → Bool) where
  set_option-Kept :
      (token : Bytes) (c : Config A) (explicit : Bool) (arg value : Bytes)
      → Kept token (c, explicit)
      → Accepts (Kept token) (set_option parse_address is_loopback c explicit arg value)
  unfolding set_option
  set_option-Kept token c explicit arg value k = elim (Bool-cases (is_option "--listen" arg)) [
    | inl e ↦ rw e (listen-Kept token c explicit (parse_address value) _ k)
    | inr e ↦ rw e (elim (Bool-cases (is_option "--data-dir" arg)) [
      | inl e ↦ rw e (
          either_way (Kept token) (length value == 0) _
            (accepted (record c { data_dir = value }, true)) (λ _. refused-Accepts (Kept token) _)
            (λ e. accepted-Accepts (Kept token) _ (dir-Kept token c explicit value k e)))
      | inr e ↦ rw e (number-Kept token c explicit arg value k)
    ])
  ]

  parse_loop-Kept :
      (token : Bytes) (c : Config A) (explicit : Bool) (args : List Bytes)
      → Kept token (c, explicit)
      → Accepts (Kept token) (parse_loop parse_address is_loopback c explicit args)
  unfolding parse_loop
  parse_loop-Kept token c explicit [] k = accepted-Accepts (Kept token) _ k
  parse_loop-Kept token c explicit (arg ∷ []) k =
      either_way (Kept token) (is_option "--memory" arg)
        (accepted (record c { memory = true }, explicit)) _
        (λ _. accepted-Accepts (Kept token) _ (memory-Kept token c explicit k))
        (λ _. refused-Accepts (Kept token) _)
  parse_loop-Kept token c explicit (arg ∷ value ∷ args) k =
      elim (Bool-cases (is_option "--memory" arg)) [
        | inl e ↦
            rw (parse_loop, e)
              (parse_loop-Kept token (record c { memory = true }) explicit (value ∷ args)
                (memory-Kept token c explicit k))
        | inr e ↦
            rw (parse_loop, e)
              (and_then-Accepts (Kept token) (Kept token) _ _
                (set_option-Kept token c explicit arg value k)
                (λ (c', e') k'. parse_loop-Kept token c' e' args k'))
      ]

  Given : Bytes → Config A → Type 0
  Given token c = Configured is_loopback c × (c.token ≡ token)

  check_config-Given :
      (token : Bytes) (c : Config A) (explicit : Bool)
      → Kept token (c, explicit)
      → Accepts (Given token) (check_config parse_address is_loopback c explicit)
  unfolding check_config Given
  check_config-Given token c explicit k =
      either_way (Given token) (c.memory && explicit) _ _ (λ _. refused-Accepts (Given token) _)
        (λ alone.
          either_way (Given token) (not (is_loopback c.listen) && length c.token == 0) _ _
            (λ _. refused-Accepts (Given token) _)
            (λ guarded.
              either_way (Given token) (ltb 65535 (length c.token)) _ (accepted c)
                (λ _. refused-Accepts (Given token) _)
                (λ fits.
                  accepted-Accepts (Given token) c (configured alone guarded fits, k.same_token))))
    where
      configured :
          (c.memory && explicit) ≡ false
          → (not (is_loopback c.listen) && length c.token == 0) ≡ false
          → ltb 65535 (length c.token) ≡ false
          → Configured is_loopback c
      configured alone guarded fits = record {
        limits = k.limits;
        protected = λ open_to. ground (arith, guarded, open_to);
        token_size = ground (arith, fits);
        volatile = λ m. k.same_dir (ground (arith, alone, m));
      }

  defaults-Kept :
      (token : Bytes) (a : A) → Kept token (defaults parse_address is_loopback a token, false)
  unfolding bytes_of
  defaults-Kept token a =
      keep ((omega arith, omega arith)) ((omega arith, omega arith)) ((omega arith, omega arith))
        ((omega arith, omega arith)) ((omega arith, omega arith)) (omega arith) (refl) (λ _. refl)

  start-Given :
      (args : List Bytes) (token : Bytes) (o : Option A)
      → Accepts (Given token) (start_parse parse_address is_loopback args token o)
  unfolding start_parse
  start-Given args token none = panics-Accepts (Given token)
  start-Given args token (some a) =
      and_then-Accepts (Kept token) (Given token) _ _
        (parse_loop-Kept token _ false args (defaults-Kept token a))
        (λ (c, explicit) k. check_config-Given token c explicit k)

  -- A configuration that the command line gives is within all limits: the budgets are from 1 (8 for
  -- the log) to 2^40 bytes, the calls from 1 to 1,000,000, the connections from 1 to 4096; its
  -- directory has a name, and is the default one in volatile mode; its token is the one given, of
  -- 65,535 bytes at most, and is not empty where the address is not a loopback one.
  pub parse-Configured :
      (args : List Bytes) (token : Bytes) (c : Config A)
      → parse parse_address is_loopback args token ≡ accepted c
      → Configured is_loopback c × (c.token ≡ token)
  unfolding parse Given
  parse-Configured args token c h =
      start-Given args token (parse_address (bytes_of "127.0.0.1:7447")) c h
