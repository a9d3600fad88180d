-- ===== src/Protocol/Reads.antt =====
-- How the reader's methods act on a body that begins with given bytes: the rules by which a
-- decoder is shown to read what an encoder wrote.
use velo_bus.Prelude.{
  ℕ, ◌≤◌, ◌<◌, ◌^◌, ◌%◌, ◌≡◌, refl, subst, Bool, true, false, not, [], ◌∷◌, ◌++◌, arith, ltb,
  length, length-append, append_assoc, append-nil, drop-append, take-append, be_bytes, be_value,
  be_value-be_bytes, length-be_bytes,
}
use velo_bus.Protocol.Types.{Bytes, Error, Result, ok}
use velo_bus.Protocol.Utf8.{is_utf8}
use velo_bus.Protocol.Wire.{string_bytes}
use velo_bus.Protocol.Reader.{
  Reader, Parser, ◌>>=◌, pure, lift, fail_if, take, u8, u16, u32, u64, string, finish, new,
}

-- The reader that has passed `front` and has `rest` before it.
abbrev pub at : Bytes → Bytes → Reader
at front rest = record { input = front ++ rest; position = length front }

-- The parser takes exactly these bytes, whatever follows, and returns the value.
pub record Reads {ℓ} {A : Type ℓ} (p : Parser A) (bytes : Bytes) (a : A) : Type ℓ where
  pub runs : (front rest : Bytes) → p (at front (bytes ++ rest)) ≡ ok (a, at (front ++ bytes) rest)

pub pure-Reads {ℓ} : {A : Type ℓ} (a : A) → Reads (pure a) [] a
pure-Reads a = record { runs = λ front rest. rw append-nil }

pub bind-Reads {ℓ κ} :
    {A : Type ℓ} {B : Type κ} {p : Parser A} (f : A → Parser B) {xs ys : Bytes} {a : A} {b : B}
    → Reads p xs a
    → Reads (f a) ys b
    → Reads (p >>= f) (xs ++ ys) b
bind-Reads f {xs} {ys} hp hf = record {
  runs = λ front rest.
      rw (append_assoc xs ys rest, hp.runs front (ys ++ rest), hf.runs (front ++ xs) rest)
        (rw (append_assoc front xs ys));
}

-- The rest of the parser takes nothing.
pub bind_end-Reads {ℓ κ} :
    {A : Type ℓ} {B : Type κ} {p : Parser A} (f : A → Parser B) {xs : Bytes} {a : A} {b : B}
    → Reads p xs a
    → Reads (f a) [] b
    → Reads (p >>= f) xs b
bind_end-Reads {p} f {xs} {b} hp hf =
    subst (λ zs. Reads (p >>= f) zs b) (append-nil xs) (bind-Reads f hp hf)

-- A step that takes nothing.
pub check-Reads {ℓ} :
    {B : Type ℓ} {m : Result (Unit {0})} {k : Parser B} {ys : Bytes} {b : B}
    → m ≡ ok tt
    → Reads k ys b
    → Reads (lift m >>= λ _. k) ys b
check-Reads e hk = record { runs = λ front rest. rw e (hk.runs front rest) }

pub pass-Reads {ℓ} :
    {B : Type ℓ} (test : Bool) (e : Error) {k : Parser B} {ys : Bytes} {b : B}
    → test ≡ false
    → Reads k ys b
    → Reads (fail_if test e >>= λ _. k) ys b
pass-Reads test e h hk = record { runs = λ front rest. rw h (hk.runs front rest) }

pub last-Reads {ℓ κ} :
    {A : Type ℓ} {B : Type κ} {p : Parser A} {xs : Bytes} {a : A} (g : A → B)
    → Reads p xs a
    → Reads (p >>= λ x. pure (g x)) xs (g a)
last-Reads g hp = record { runs = λ front rest. rw (hp.runs front rest) }

take-at :
    (n : ℕ) (front xs rest : Bytes)
    → length xs ≡ n
    → take n (at front (xs ++ rest)) ≡ ok (xs, at (front ++ xs) rest)
unfolding take
take-at n front xs rest e =
    rw (drop-append front (xs ++ rest), ← e, take-append xs rest)
      (ground (
        arith,
        length-append front (xs ++ rest),
        length-append xs rest,
        length-append front xs,
        append_assoc front xs rest,
      ))

pub take-Reads : (n : ℕ) (xs : Bytes) → length xs ≡ n → Reads (take n) xs xs
take-Reads n xs e = record { runs = λ front rest. take-at n front xs rest e }

word-Reads :
    (k n : ℕ) → n < 256 ^ k → Reads (take k >>= λ bytes. pure (be_value bytes)) (be_bytes k n) n
word-Reads k n h =
    subst (Reads _ (be_bytes k n)) (be_value-be_bytes k n h)
      (last-Reads be_value (take-Reads k (be_bytes k n) (length-be_bytes k n)))

pub u16-Reads : (n : ℕ) → n < 2 ^ 16 → Reads u16 (be_bytes 2 n) n
unfolding u16
u16-Reads n h = word-Reads 2 n h

pub u32-Reads : (n : ℕ) → n < 2 ^ 32 → Reads u32 (be_bytes 4 n) n
unfolding u32
u32-Reads n h = word-Reads 4 n h

pub u64-Reads : (n : ℕ) → n < 2 ^ 64 → Reads u64 (be_bytes 8 n) n
unfolding u64
u64-Reads n h = word-Reads 8 n h

pub u8-Reads : (b : ℕ) → Reads u8 (b ∷ []) b
unfolding u8
u8-Reads b = record { runs = λ front rest. rw (take-at 1 front (b ∷ []) rest refl) }

pub string-Reads :
    (max_length : ℕ) (s : Bytes)
    → length s ≤ max_length
    → max_length < 2 ^ 16
    → is_utf8 s ≡ true
    → Reads (string max_length) (string_bytes s) s
unfolding string string_bytes
string-Reads max_length s fits small utf8 =
    let e : length s % 2 ^ 16 ≡ length s = omega arith in
    rw e (
      bind-Reads _ (u16-Reads (length s) (omega arith)) (
        pass-Reads (ltb max_length (length s)) _ (ground arith) (
          bind_end-Reads _ (take-Reads (length s) s refl)
            (pass-Reads (not (is_utf8 s)) _ (ground arith) (pure-Reads s)))))

-- A parser that takes a whole body leaves nothing for `finish` to refuse.
pub whole-Reads {ℓ} :
    {A : Type ℓ} {p : Parser A} {bytes : Bytes} {a : A}
    → Reads p bytes a
    → p (new bytes) ≡ ok (a, record { input = bytes; position = length bytes })
whole-Reads {p} {bytes} {a} h =
    subst (λ zs. p (new zs) ≡ ok (a, record { input = zs; position = length bytes }))
      (append-nil bytes) (h.runs [] [])

pub finish-whole :
    (bytes : Bytes) → finish (record { input = bytes; position = length bytes }) ≡ ok tt
unfolding finish
finish-whole bytes = ground arith
