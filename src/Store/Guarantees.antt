-- ===== src/Store/Guarantees.antt =====
-- store.rs `publish` and `disk`:  what they guarantee to a publisher.
use velo_bus.Prelude.{
  ℕ, suc, ◌+◌, ◌≤◌, ◌<◌, ◌^◌, ◌≡◌, ◌⊎◌, inl, inr, refl, sym, ap, subst, true, List, ◌++◌, arith,
  length, All,
}
use velo_bus.Protocol.Codes
use velo_bus.Protocol.Types.{Bytes, Error, Result, ok, err, Record}
use velo_bus.Protocol.Wire.{IsRecord}
use velo_bus.Wal.{AppendIo}
use velo_bus.Store.{Store, number, commit, accept, publish, receipt, durable}
use velo_bus.Store.Publishing.{Kept, commit-Kept}
use velo_bus.Store.Outcomes.{publish-Ends}

-- A batch is appended to the history, or nothing is.
pub record Appended (s : Store) (rs : List Record) (r : Result Bytes × Store) : Type 0 where
  pub reply :
      r.0
      ≡ ok (receipt (length s.events + 1) (length s.events + length rs) (length rs) (durable r.1))
  pub history : r.1.events ≡ s.events ++ number (length s.events + 1) rs
  pub range : length s.events + length rs < 2 ^ 64

pub record Unchanged (s : Store) (r : Result Bytes × Store) : Type 0 where
  pub error : Error
  pub reply : r.0 ≡ err error
  pub history : r.1.events ≡ s.events
  pub kept : r.1.retained ≡ s.retained
  -- The store is as it was, or read-only from now on.
  pub safe : (r.1 ≡ s) ⊎ (r.1.poisoned ≡ true)

module _ (crc32 : Bytes → ℕ) (s : Store) (rs : List Record) (io : AppendIo) (k : Kept s)
    (v : All IsRecord rs) (few : length rs ≤ Codes.max_batch) where
  -- A PUBLISH of at most 256 valid records to a store whose history is as it should be appends the
  -- whole batch,
  -- with the next sequence numbers, and answers with these; or it answers with an error, leaves
  -- history and byte count as they were, and leaves the store untouched or read-only.
  pub publish-atomic : Appended s rs (publish crc32 s rs io) ⊎ Unchanged s (publish crc32 s rs io)
  unfolding accept commit
  publish-atomic = elim (publish-Ends crc32 s rs io) [
    | inl (e, h) ↦ inr (record {
      error = e;
      reply = ap (λ z. z.0) h;
      history = ap (λ z. z.1.events) h;
      kept = ap (λ z. z.1.retained) h;
      safe = inl (ap (λ z. z.1) h);
    })
    | inr (inl f) ↦ inr (record {
      error = f.error;
      reply = ap (λ z. z.0) f.outcome;
      history = ap (λ z. z.1.events) f.outcome;
      kept = ap (λ z. z.1.retained) f.outcome;
      safe = inr (ap (λ z. z.1.poisoned) f.outcome);
    })
    | inr (inr a) ↦ inl (record {
      reply =
          subst
            (λ (z : Result Bytes × Store).
              z.0
              ≡ ok (
                  receipt (length s.events + 1) (length s.events + length rs) (length rs)
                    (durable z.1)))
            (sym a.outcome) refl;
      history = ap (λ z. z.1.events) a.outcome;
      range = a.range;
    })
  ]

  -- A PUBLISH of at most 256 valid records keeps the history as it should be, however it ends:
  -- records within their limits, consecutive
  -- sequence numbers from 1, a byte count that is the sum over the events, and within the budget.
  pub publish-Kept : Kept (publish crc32 s rs io).1
  unfolding accept commit
  publish-Kept = elim (publish-Ends crc32 s rs io) [
    | inl (e, h) ↦ subst (λ (z : Result Bytes × Store). Kept z.1) (sym h) k
    | inr (inl f) ↦
        subst (λ (z : Result Bytes × Store). Kept z.1) (sym f.outcome)
          (record { history = k.history; counted = k.counted; budget = k.budget; word = k.word })
    | inr (inr a) ↦
        let e : suc (length s.events) ≡ length s.events + 1 = omega arith in
        let c =
          subst (λ n. Kept (commit s n rs a.bytes)) e (commit-Kept s rs a.bytes k v few a.check) in
        subst (λ (z : Result Bytes × Store). Kept z.1) (sym a.outcome)
          (record { history = c.history; counted = c.counted; budget = c.budget; word = c.word })
  ]
