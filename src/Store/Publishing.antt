-- ===== src/Store/Publishing.antt =====
-- store.rs `publish`: what a PUBLISH does to the history and to the log.
use velo_bus.Prelude.{
  ℕ, suc, ◌+◌, ◌-◌, ◌*◌, ◌≤◌, ◌<◌, ◌^◌, ◌≡◌, refl, ap, subst, List, [], ◌∷◌, ◌++◌, arith, length,
  All, All-append,
}
use velo_bus.Protocol.Codes
use velo_bus.Protocol.Types.{ok, Record, Event, wire_bytes, retained_bytes}
use velo_bus.Protocol.Wire.{IsRecord}
use velo_bus.Protocol.Records.{valid_topic}
use velo_bus.Store.{Store, retained_sum, check_retained_capacity, number, commit}
use velo_bus.Store.Scanning.{Numbered, IsSmall}
use velo_bus.Store.Fetching.{IsHistory}

Numbered-append_back :
    (n : ℕ) (xs ys : List Event)
    → Numbered n xs
    → Numbered (n + length xs) ys
    → Numbered n (xs ++ ys)
Numbered-append_back n [] ys hx hy =
    let e : n + 0 ≡ n = omega arith in subst (λ m. Numbered m ys) e hy
Numbered-append_back n (x ∷ xs) ys (s, hx) hy =
    let e : n + suc (length xs) ≡ suc n + length xs = omega arith in
    (s, Numbered-append_back (suc n) xs ys hx (subst (λ m. Numbered m ys) e hy))

number-Numbered : (n : ℕ) (rs : List Record) → Numbered n (number (suc n) rs)
unfolding number
number-Numbered n [] = tt
number-Numbered n (r ∷ rs) = (refl, number-Numbered (suc n) rs)

length-number : (n : ℕ) (rs : List Record) → length (number n rs) ≡ length rs
unfolding number
length-number n [] = refl
length-number n (r ∷ rs) = ap suc (length-number (suc n) rs)

-- The retained bytes of a history, without wrap-around.
unfoldable pub retained_total : List Event → ℕ
retained_total [] = 0
retained_total (e ∷ es) = retained_bytes e.content + retained_total es

retained_total-append :
    (xs ys : List Event) → retained_total (xs ++ ys) ≡ retained_total xs + retained_total ys
unfolding retained_total
retained_total-append [] ys = omega arith
retained_total-append (x ∷ xs) ys = omega (arith, retained_total-append xs ys)

number-IsSmall : (n : ℕ) (rs : List Record) → All IsRecord rs → All IsSmall (number n rs)
unfolding number wire_bytes
number-IsSmall n [] h = tt
number-IsSmall n (r ∷ rs) (v, h) = (
  omega (arith, valid_topic r.topic v.topic, v.key_size, v.payload_size),
  number-IsSmall (suc n) rs h,
)

-- What every history in memory keeps: its form, and the count of its bytes, within the budget.
pub record Kept (s : Store) : Type 0 where
  pub history : IsHistory s.events
  pub counted : s.retained ≡ retained_total s.events
  pub budget : s.retained ≤ s.max_retained
  pub word : s.max_retained < 2 ^ 64

retained_bytes-small : (r : Record) → IsRecord r → retained_bytes r ≤ 300_000
unfolding retained_bytes
retained_bytes-small r v = omega (arith, valid_topic r.topic v.topic, v.key_size, v.payload_size)

-- The sum over a batch fits a word, so that it is the sum over the new events.
retained_sum-total :
    (n : ℕ) (rs : List Record)
    → All IsRecord rs
    → length rs ≤ Codes.max_batch
    → (retained_total (number n rs) ≤ 300_000 * length rs)
      × (retained_sum rs ≡ retained_total (number n rs))
unfolding retained_sum retained_total number
retained_sum-total n [] h few = (omega arith, refl)
retained_sum-total n (r ∷ rs) (v, h) few =
    let (b, e) = retained_sum-total (suc n) rs h (omega arith) in
    let small = retained_bytes-small r v in (omega (arith, b, small), omega (arith, b, small, e))

check_retained_capacity-ok :
    (s : Store) (rs : List Record) (bytes : ℕ)
    → check_retained_capacity s rs ≡ ok bytes
    → (bytes ≡ retained_sum rs) × (retained_sum rs ≤ s.max_retained - s.retained)
unfolding check_retained_capacity
check_retained_capacity-ok s rs bytes h = ground arith

-- A batch behind the history keeps it as it should be.
pub commit-Kept :
    (s : Store) (rs : List Record) (bytes : ℕ)
    → Kept s
    → All IsRecord rs
    → length rs ≤ Codes.max_batch
    → check_retained_capacity s rs ≡ ok bytes
    → Kept (commit s (suc (length s.events)) rs bytes)
unfolding commit
commit-Kept s rs bytes k v few h =
    let (e, room) = check_retained_capacity-ok s rs bytes h in
    let (_, sum) = retained_sum-total (suc (length s.events)) rs v few in
    let more = number (suc (length s.events)) rs in
    record {
      history = record {
        numbered = Numbered-append_back 0 s.events more k.history.numbered (
            let z : length s.events ≡ 0 + length s.events = omega arith in
            subst (λ m. Numbered m more) z (number-Numbered (length s.events) rs));
        small = All-append IsSmall s.events more k.history.small (number-IsSmall _ rs v);
      };
      counted =
          omega
            (arith, k.counted, sum, e, room, k.budget, k.word, retained_total-append s.events more);
      budget = omega (arith, e, room, k.budget, k.word);
      word = k.word;
    }
