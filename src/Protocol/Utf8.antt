-- ===== src/Protocol/Utf8.antt =====
-- `String::from_utf8`, `str::from_utf8` and `String::from_utf8_lossy` of the standard library, as
-- the automaton of well-formed byte sequences (Unicode, table 3-7).
use velo_bus.Prelude.{
  ℕ, zero, suc, ◌<◌, ◌≡◌, refl, ap, Bool, true, false, ◌&&◌, Option, none, some, List, [], ◌∷◌,
  ◌++◌, arith, ltb, leb, ◌==◌, if◌then◌else◌, All, append_assoc, ◌∙◌,
}

-- Between characters, or inside one: the next byte lies in lo..hi, and `more` bytes follow it.
pub data Utf8State : Type 0 where
  boundary : Utf8State
  expect : (lo hi more : ℕ) → Utf8State

abbrev pub between : ℕ → ℕ → ℕ → Bool
between lo hi b = leb lo b && leb b hi

-- What the first byte of a character asks for; `none` for a byte that starts none.
unfoldable pub lead : ℕ → Option Utf8State
lead b =
    if ltb b 0x80
    then some boundary
    else if between 0xc2 0xdf b
    then some (expect 0x80 0xbf 0)
    else if b == 0xe0
    then some (expect 0xa0 0xbf 1)
    else if b == 0xed
    then some (expect 0x80 0x9f 1)
    else if between 0xe1 0xef b
    then some (expect 0x80 0xbf 1)
    else if b == 0xf0
    then some (expect 0x90 0xbf 2)
    else if between 0xf1 0xf3 b
    then some (expect 0x80 0xbf 2)
    else if b == 0xf4
    then some (expect 0x80 0x8f 2)
    else none

unfoldable pub continue_with : ℕ → Utf8State
continue_with zero = boundary
continue_with (suc n) = expect 0x80 0xbf n

unfoldable pub utf8_step : Utf8State → ℕ → Option Utf8State
unfolding lead continue_with
utf8_step boundary b = lead b
utf8_step (expect lo hi more) b = if between lo hi b then some (continue_with more) else none

unfoldable pub valid_from : Utf8State → List ℕ → Bool
unfolding utf8_step
valid_from boundary [] = true
valid_from (expect lo hi more) [] = false
valid_from s (b ∷ bs) = elim (utf8_step s b) [ none ↦ false | some t ↦ valid_from t bs ]

unfoldable pub is_utf8 : List ℕ → Bool
unfolding valid_from
is_utf8 = valid_from boundary

-- The replacement character, U+FFFD.
abbrev pub replacement : List ℕ
replacement = 0xef ∷ 0xbf ∷ 0xbd ∷ []

-- What a byte yields: text that is complete, the next state, and the bytes of an open character.
settle : List ℕ → Option Utf8State → List ℕ × Utf8State × List ℕ
settle open_bytes none = (replacement, boundary, [])
settle open_bytes (some boundary) = (open_bytes, boundary, [])
settle open_bytes (some (expect lo hi more)) = ([], expect lo hi more, open_bytes)

after_replacement : List ℕ × Utf8State × List ℕ → List ℕ × Utf8State × List ℕ
after_replacement (out, s, open_bytes) = (replacement ++ out, s, open_bytes)

lossy_step : Utf8State → List ℕ → ℕ → List ℕ × Utf8State × List ℕ
unfolding settle after_replacement lead continue_with
lossy_step boundary open_bytes b = settle (b ∷ []) (lead b)
lossy_step (expect lo hi more) open_bytes b =
    if between lo hi b
    then settle (open_bytes ++ b ∷ []) (some (continue_with more))
    else after_replacement (settle (b ∷ []) (lead b))

lossy_from : Utf8State → List ℕ → List ℕ → List ℕ
unfolding lossy_step
lossy_from boundary open_bytes [] = []
lossy_from (expect lo hi more) open_bytes [] = replacement
lossy_from s open_bytes (b ∷ bs) =
    let (out, t, rest) = lossy_step s open_bytes b in out ++ lossy_from t rest bs

unfoldable pub from_utf8_lossy : List ℕ → List ℕ
unfolding lossy_from
from_utf8_lossy = lossy_from boundary []

-- The bytes that are open in a state: none between characters.
abbrev open_in : Utf8State → List ℕ → List ℕ
open_in boundary open_bytes = []
open_in (expect lo hi more) open_bytes = open_bytes

settle-some :
    (open_bytes : List ℕ) (t : Utf8State) (bs : List ℕ)
    → ((p : List ℕ) → lossy_from t (open_in t p) bs ≡ open_in t p ++ bs)
    → let r = settle open_bytes (some t) in r.0 ++ lossy_from r.1 r.2 bs ≡ open_bytes ++ bs
unfolding settle
settle-some open_bytes boundary bs ih = ap (◌++◌ open_bytes) (ih [])
settle-some open_bytes (expect lo hi more) bs ih = ih open_bytes

valid_from-step :
    (s : Utf8State) (b : ℕ) (bs : List ℕ)
    → valid_from s (b ∷ bs) ≡ true
    → (t : Utf8State) × (utf8_step s b ≡ some t) × (valid_from t bs ≡ true)
unfolding valid_from
valid_from-step boundary b bs h = ground arith
valid_from-step (expect lo hi more) b bs h = ground arith

lossy_step-some :
    (s : Utf8State) (p : List ℕ) (b : ℕ) (t : Utf8State)
    → utf8_step s b ≡ some t
    → lossy_step s (open_in s p) b ≡ settle (open_in s p ++ b ∷ []) (some t)
unfolding lossy_step utf8_step
lossy_step-some boundary p b t h = rw h
lossy_step-some (expect lo hi more) p b t h = ground arith

lossy_from-step :
    (s : Utf8State) (p : List ℕ) (b : ℕ) (bs : List ℕ) (t : Utf8State)
    → utf8_step s b ≡ some t
    → let r = settle (open_in s p ++ b ∷ []) (some t) in
      lossy_from s (open_in s p) (b ∷ bs) ≡ r.0 ++ lossy_from r.1 r.2 bs
unfolding lossy_from
lossy_from-step boundary p b bs t h = rw (lossy_step-some boundary p b t h)
lossy_from-step (expect lo hi more) p b bs t h = rw (lossy_step-some (expect lo hi more) p b t h)

lossy_from-valid :
    (s : Utf8State) (p bs : List ℕ)
    → valid_from s bs ≡ true
    → lossy_from s (open_in s p) bs ≡ open_in s p ++ bs
lossy_from-valid boundary p [] h = unfold lossy_from in refl
lossy_from-valid (expect lo hi more) p [] h = unfold valid_from in cc
lossy_from-valid s p (b ∷ bs) h =
    let (t, e, v) = valid_from-step s b bs h in
    lossy_from-step s p b bs t e
    ∙ settle-some (open_in s p ++ b ∷ []) t bs (λ q. lossy_from-valid t q bs v)
    ∙ append_assoc (open_in s p) (b ∷ []) bs

-- On well-formed text the lossy conversion changes nothing.
pub from_utf8_lossy-valid : (bs : List ℕ) → is_utf8 bs ≡ true → from_utf8_lossy bs ≡ bs
unfolding from_utf8_lossy is_utf8
from_utf8_lossy-valid bs h = lossy_from-valid boundary [] bs h

-- ASCII text is well formed.
pub is_utf8_ascii : (bs : List ℕ) → All (λ b. b < 0x80) bs → is_utf8 bs ≡ true
unfolding is_utf8 valid_from
is_utf8_ascii [] h = refl
is_utf8_ascii (b ∷ bs) (hb, hbs) = ground (arith, is_utf8_ascii bs hbs)

replaced :
    from_utf8_lossy (b'a' ∷ 0xe2 ∷ 0x82 ∷ b'b' ∷ 0xff ∷ [])
    ≡ b'a' ∷ (replacement ++ b'b' ∷ replacement)
unfolding from_utf8_lossy
replaced = refl
