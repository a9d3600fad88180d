-- ===== src/Store/Crash.antt =====
-- store.rs `publish` and `disk`: what they guarantee to a publisher.
use velo_bus.Prelude.{
  ℕ, ◌+◌, ◌≤◌, ◌<◌, ◌^◌, ◌≡◌, inl, inr, refl, sym, ap, subst, ◌∙◌, List, ◌++◌, length, Option, some,
}
use velo_bus.Protocol.Types.{Bytes, Result, ok, Record}
use velo_bus.Protocol.Consumes.{err-ne-ok}
use velo_bus.Wal.{Wal, AppendIo, Faults}
use velo_bus.Wal.Layout.{IsBatch, IsTorn, image}
use velo_bus.Store.{Store, publish, memory, disk, replay_batch, accept, commit, number, disk_result}
use velo_bus.Wal.Replay.{IsQuiet, open_wal-image}
use velo_bus.Store.Outcomes.{publish-Ends}
use velo_bus.Store.Durability.{next_batch}
use velo_bus.Store.Restart.{Logged, accept-Logged, some-injective}

-- The store after a restart has the same history as the one before.
pub record Restarted (crc32 : Bytes → ℕ) (s : Store) (file : Bytes)
    (r : Option (Result Store × Bytes)) : Type 0 where
  pub store : Store
  pub outcome : r ≡ some (ok store, file)
  pub history : store.events ≡ s.events
  pub retained : store.retained ≡ s.retained

module _ (crc32 : Bytes → ℕ) (small : (bytes : Bytes) → crc32 bytes < 2 ^ 32) (faults : Faults)
    (q : IsQuiet faults) (max_wal_bytes : ℕ) (s : Store) (l : Logged crc32 max_wal_bytes s) where
  -- Restart after a crash: opening the file of a healthy store, with any proper prefix of a frame
  -- behind it that an interrupted write may have left, succeeds when no call of the operating
  -- system fails and the file fits the limit; it recovers exactly the history that was in memory,
  -- and cuts the torn frame from the file.
  pub disk-recovers :
      (tail : Bytes)
      → IsTorn crc32 tail
      → length (l.log.file ++ tail) ≤ max_wal_bytes
      → Restarted crc32 s l.log.file
          (disk crc32 faults s.max_retained max_wal_bytes (l.log.file ++ tail))
  unfolding disk disk_result
  disk-recovers tail torn fits =
      let v = l.recovers in
      let opened =
        open_wal-image crc32 small replay_batch faults q max_wal_bytes l.batches tail
          (memory s.max_retained max_wal_bytes) v.replayed
          (subst (λ z. length (z ++ tail) ≤ max_wal_bytes) l.file fits) l.each torn v.run in
      record {
        store = record v.replayed {
          wal = some (record {
            file = image crc32 l.batches;
            bytes = length (image crc32 l.batches);
            max_bytes = max_wal_bytes;
          });
        };
        outcome = rw (l.file, disk, opened) refl;
        history = v.alike.events;
        retained = v.alike.retained;
      }

module _ (crc32 : Bytes → ℕ) (max_wal_bytes : ℕ) (s : Store) (rs : List Record) (io : AppendIo)
    (l : Logged crc32 max_wal_bytes s) (b : IsBatch (next_batch s rs)) where
  -- A PUBLISH of a valid batch to a healthy store on disk that is answered with success leaves it
  -- healthy: the log's file holds the batch, its counter is the file's size, within the limit, and
  -- a replay of the file gives the history in memory.
  pub publish-Logged :
      (reply : Bytes)
      → (publish crc32 s rs io).0 ≡ ok reply
      → Logged crc32 max_wal_bytes (publish crc32 s rs io).1
  publish-Logged reply h = elim (publish-Ends crc32 s rs io) [
    | inl (e, r) ↦ absurd (err-ne-ok (sym (ap (λ z. z.0) r) ∙ h))
    | inr (inl f) ↦ absurd (err-ne-ok (sym (ap (λ z. z.0) f.outcome) ∙ h))
    | inr (inr a) ↦ accept-Logged crc32 max_wal_bytes s rs io _ l b a
  ]

publish-events :
    (crc32 : Bytes → ℕ) (s : Store) (rs : List Record) (io : AppendIo) (reply : Bytes)
    → (publish crc32 s rs io).0 ≡ ok reply
    → ((publish crc32 s rs io).1.events ≡ s.events ++ number (length s.events + 1) rs)
      × ((publish crc32 s rs io).1.max_retained ≡ s.max_retained)
unfolding accept commit
publish-events crc32 s rs io reply h = elim (publish-Ends crc32 s rs io) [
  | inl (e, r) ↦ absurd (err-ne-ok (sym (ap (λ z. z.0) r) ∙ h))
  | inr (inl f) ↦ absurd (err-ne-ok (sym (ap (λ z. z.0) f.outcome) ∙ h))
  | inr (inr a) ↦ (ap (λ z. z.1.events) a.outcome, ap (λ z. z.1.max_retained) a.outcome)
]

module _ (crc32 : Bytes → ℕ) (small : (bytes : Bytes) → crc32 bytes < 2 ^ 32) (faults : Faults)
    (q : IsQuiet faults) (max_wal_bytes : ℕ) (s : Store) (l : Logged crc32 max_wal_bytes s) where
  -- A batch that is answered with success survives a crash: when a valid batch has been published
  -- to a healthy store on disk with success, opening the file that is left, with any proper prefix
  -- of a frame behind it, succeeds, if no call of the operating system fails and the file fits the
  -- limit, and gives the history before the batch with the batch at its end.
  pub publish-durable :
      (rs : List Record) (io : AppendIo) (reply : Bytes) (w : Wal) (tail : Bytes)
      → IsBatch (next_batch s rs)
      → (publish crc32 s rs io).0 ≡ ok reply
      → (publish crc32 s rs io).1.wal ≡ some w
      → IsTorn crc32 tail
      → length (w.file ++ tail) ≤ max_wal_bytes
      → (t : Store) × (disk crc32 faults s.max_retained max_wal_bytes (w.file ++ tail)
          ≡ some (ok t, w.file))
        × (t.events ≡ s.events ++ number (length s.events + 1) rs)
  publish-durable rs io reply w tail b h attached torn fits =
      let l' = publish-Logged crc32 max_wal_bytes s rs io l b reply h in
      let same : l'.log ≡ w = some-injective (sym l'.attached ∙ attached) in
      let (events, max_retained) = publish-events crc32 s rs io reply h in
      let r =
        disk-recovers crc32 small faults q max_wal_bytes (publish crc32 s rs io).1 l' tail torn
          (subst (λ z. length (z.file ++ tail) ≤ max_wal_bytes) (sym same) fits) in
      (
        r.store,
        subst (λ m. disk crc32 faults m max_wal_bytes (w.file ++ tail) ≡ some (ok r.store, w.file))
            max_retained
            (subst
              (λ z.
                disk crc32 faults (publish crc32 s rs io).1.max_retained max_wal_bytes
                  (z.file ++ tail)
                ≡ some (ok r.store, z.file))
              same r.outcome),
        r.history ∙ events,
      )
