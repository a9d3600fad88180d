-- ===== src/Protocol/Consumes.antt =====
-- What a parser has taken when it succeeds: the rules by which a decoder is shown to accept nothing
-- but what the grammar allows.
use velo_bus.Prelude.{
  ℕ, ◌+◌, ◌-◌, ◌≤◌, ◌<◌, ◌^◌, ◌%◌, ◌≡◌, refl, sym, ap, subst, ◌∙◌, Bool, true, false, not, List, [],
  ◌∷◌, ◌++◌, arith, ltb, ◌==◌, if◌then◌else◌, length, length-append, append_assoc, append-nil,
  drop-append, take-append, take-append-drop, length-take, be_bytes, be_value, be_value-be_bytes,
  length-be_bytes, be_bytes-be_value, be_value-lt, All, All-take, IsByte,
}
use velo_bus.Prelude
use velo_bus.Protocol.Types.{Bytes, Error, Result, ok, err, bind}
use velo_bus.Protocol.Utf8.{is_utf8}
use velo_bus.Protocol.Wire.{string_bytes}
use velo_bus.Protocol.Reads.{at}
use velo_bus.Protocol.Reader.{
  Reader, Parser, ◌>>=◌, pure, lift, fail_if, take, u8, u16, u32, u64, string, first,
}

take-at-ok :
    (n : ℕ) (front rest v : Bytes) (r : Reader)
    → take n (at front rest) ≡ ok (v, r)
    → (v ≡ Prelude.take n rest)
      × (r ≡ at (front ++ Prelude.take n rest) (Prelude.drop n rest))
      × (n ≤ length rest)
unfolding take
take-at-ok n front rest v r h = ground (
  arith,
  drop-append front rest,
  take-append-drop n rest,
  append_assoc front (Prelude.take n rest) (Prelude.drop n rest),
  length-append front rest,
  length-append front (Prelude.take n rest),
  length-take n rest,
)

-- Inversion of a successful `?`.
pub bind-ok {ℓ κ} :
    {A : Type ℓ} {B : Type κ} (m : Result A) (f : A → Result B) {b : B}
    → bind m f ≡ ok b
    → (a : A) × (m ≡ ok a) × (f a ≡ ok b)
bind-ok (ok a) f h = (a, refl, h)
bind-ok (err e) f h = cc

pub err-ne-ok {ℓ} : {A : Type ℓ} {e : Error} {a : A} → err e ≡ ok a → ⊥
err-ne-ok h = cc

pub ok-injective {ℓ} : {A : Type ℓ} {a b : A} → ok a ≡ ok b → a ≡ b
ok-injective h = cc

module _ {ℓ κ} {A : Type ℓ} where
  pub All-split : (P : A → Type κ) (xs ys : List A) → All P (xs ++ ys) → All P xs × All P ys
  All-split P [] ys h = (tt, h)
  All-split P (x ∷ xs) ys h = let (hx, hy) = All-split P xs ys h.1 in ((h.0, hx), hy)

-- A success took some bytes, which stand in the relation `W` to the value.
pub record Consumes {ℓ} {A : Type ℓ} (p : Parser A) (W : A → Bytes → Type 0) : Type ℓ where
  pub takes :
      (front rest : Bytes)
      → All IsByte rest
      → (a : A) (r : Reader) → p (at front rest) ≡ ok (a, r)
      → (xs ys : Bytes) × (rest ≡ xs ++ ys) × (r ≡ at (front ++ xs) ys) × W a xs

pub pure-Consumes {ℓ} : {A : Type ℓ} (a : A) {W : A → Bytes → Type 0} → W a [] → Consumes (pure a) W
pure-Consumes a {W} w = record {
  takes = λ front rest bytes b r h.
      ([], rest, refl, ground (arith, append-nil front), subst (λ x. W x []) (ground arith) w);
}

pub bind-Consumes {ℓ κ} :
    {A : Type ℓ} {B : Type κ} {p : Parser A} {f : A → Parser B} {W : A → Bytes → Type 0}
    {U : B → Bytes → Type 0}
    → Consumes p W
    → ((a : A) (xs : Bytes) → W a xs → Consumes (f a) (λ b ys. U b (xs ++ ys)))
    → Consumes (p >>= f) U
bind-Consumes {p} {f} {U} hp hf = record {
  takes = λ front rest bytes b r h.
      let ((a, s), m, k) = bind-ok (p (at front rest)) (λ (x, t). f x t) h in
      let (xs, ys, e, es, w) = hp.takes front rest bytes a s m in
      let bytes' : All IsByte ys = (All-split IsByte xs ys (subst (All IsByte) e bytes)).1 in
      let k' : f a (at (front ++ xs) ys) ≡ ok (b, r) = subst (λ t. f a t ≡ ok (b, r)) es k in
      let (us, vs, e', es', w') = (hf a xs w).takes (front ++ xs) ys bytes' b r k' in
      (
        xs ++ us,
        vs,
        e ∙ ap (λ (z : Bytes). xs ++ z) e' ∙ sym (append_assoc xs us vs),
        es' ∙ ap (λ (z : Bytes). at z vs) (append_assoc front xs us),
        w',
      );
}

-- A step that takes nothing, and whose success is known to what follows it.
pub check-Consumes {ℓ} :
    {B : Type ℓ} (m : Result (Unit {0})) {k : Parser B} {U : B → Bytes → Type 0}
    → (m ≡ ok tt → Consumes k U)
    → Consumes (lift m >>= λ _. k) U
check-Consumes (ok tt) hk = record {
  takes = λ front rest bytes b r h. (hk refl).takes front rest bytes b r h;
}
check-Consumes (err e) hk = record { takes = λ front rest bytes b r h. absurd (err-ne-ok h) }

pub pass-Consumes {ℓ} :
    {B : Type ℓ} (test : Bool) (e : Error) {k : Parser B} {U : B → Bytes → Type 0}
    → (test ≡ false → Consumes k U)
    → Consumes (fail_if test e >>= λ _. k) U
pass-Consumes true e hk = record { takes = λ front rest bytes b r h. absurd (err-ne-ok h) }
pass-Consumes false e hk = record {
  takes = λ front rest bytes b r h. (hk refl).takes front rest bytes b r h;
}

pub take-Consumes : (n : ℕ) → Consumes (take n) (λ v xs. (v ≡ xs) × (length xs ≡ n) × All IsByte xs)
take-Consumes n = record {
  takes = λ front rest bytes v r h.
      let (e, er, fits) = take-at-ok n front rest v r h in
      (
        Prelude.take n rest,
        Prelude.drop n rest,
        sym (take-append-drop n rest),
        er,
        (e, omega (arith, length-take n rest), All-take IsByte n rest bytes),
      );
}

single :
    (v xs : Bytes)
    → v ≡ xs
    → length xs ≡ 1
    → All IsByte xs
    → ((xs ++ []) ≡ first v ∷ []) × (first v < 256)
single v [] e size bytes = absurd (omega arith)
single v (x ∷ []) e size bytes = rw e (refl, bytes.0)
single v (x ∷ y ∷ xs) e size bytes = absurd (omega arith)

word_back :
    (k : ℕ) (v xs : Bytes)
    → v ≡ xs
    → length xs ≡ k
    → All IsByte xs
    → ((xs ++ []) ≡ be_bytes k (be_value v)) × (be_value v < 256 ^ k)
word_back k v xs e size bytes =
    rw (append-nil xs, e, ← size) (sym (be_bytes-be_value xs bytes), be_value-lt xs bytes)

text_back :
    (n : ℕ) (v xs ys : Bytes)
    → xs ≡ be_bytes 2 n
    → n < 2 ^ 16
    → v ≡ ys
    → length ys ≡ n
    → xs ++ (ys ++ []) ≡ string_bytes v
unfolding string_bytes
text_back n v xs ys e small same size =
    let n' : length v % 2 ^ 16 ≡ n = omega (arith, ap length same) in rw (append-nil ys, n') (cc)

-- A word of `k` bytes.
word-Consumes :
    (k : ℕ)
    → Consumes
        (take k >>= λ bytes. pure (be_value bytes))
        (λ n xs. (xs ≡ be_bytes k n) × (n < 256 ^ k))
word-Consumes k =
    bind-Consumes (take-Consumes k)
      (λ v xs (e, size, bytes). pure-Consumes _ (word_back k v xs e size bytes))

pub u16-Consumes : Consumes u16 (λ n xs. (xs ≡ be_bytes 2 n) × (n < 2 ^ 16))
unfolding u16
u16-Consumes = word-Consumes 2

pub u32-Consumes : Consumes u32 (λ n xs. (xs ≡ be_bytes 4 n) × (n < 2 ^ 32))
unfolding u32
u32-Consumes = word-Consumes 4

pub u64-Consumes : Consumes u64 (λ n xs. (xs ≡ be_bytes 8 n) × (n < 2 ^ 64))
unfolding u64
u64-Consumes = word-Consumes 8

pub u8-Consumes : Consumes u8 (λ n xs. (xs ≡ n ∷ []) × (n < 256))
unfolding u8
u8-Consumes =
    bind-Consumes (take-Consumes 1)
      (λ v xs (e, size, bytes). pure-Consumes _ (single v xs e size bytes))

pub string-Consumes :
    (max_length : ℕ)
    → Consumes
        (string max_length)
        (λ s xs. (xs ≡ string_bytes s) × (length s ≤ max_length) × (is_utf8 s ≡ true))
unfolding string string_bytes
string-Consumes max_length = bind-Consumes u16-Consumes λ n xs (e, small).
    pass-Consumes (ltb max_length n) _ λ fits.
      bind-Consumes (take-Consumes n) λ v ys (same, size, _).
        pass-Consumes (not (is_utf8 v)) _ λ utf8.
          pure-Consumes v (text_back n v xs ys e small same size, ground arith, ground arith)
