-- ===== src/Store/Restart.antt =====
-- store.rs `publish` and `disk` together: what a restart recovers.
use velo_bus.Prelude.{
  ℕ, ◌+◌, ◌-◌, ◌≤◌, ◌<◌, ◌^◌, ◌≡◌, ◌⊎◌, inl, inr, refl, sym, ap, subst, ◌∙◌, List, [], ◌∷◌, ◌++◌,
  arith, length, length-append, append-nil, Option, none, some, All, All-append,
}
use velo_bus.Protocol.Types.{Bytes, Result, ok, Record, ◌+u64◌}
use velo_bus.Protocol.Consumes.{err-ne-ok}
use velo_bus.Wal.{
  Wal, AppendIo, check_capacity, append, write_frame, finish_append, frame, frame_body, batch_bytes,
}
use velo_bus.Wal.Layout.{Batch, IsBatch, replay_all, image, frames}
use velo_bus.Store.{
  Store, check_retained_capacity, commit, accept, last_sequence, memory, replay_batch,
}
use velo_bus.Store.Outcomes.{Accepted, result_cases}
use velo_bus.Store.Durability.{
  Alike, Recovers, Recovers-commit, next_batch, frames-append, batch_bytes-frame,
}

-- A healthy store on disk: the log's file is the image of valid batches, its counter is the
-- file's size, within the limit, and a replay of the batches gives what is in memory.
pub record Logged (crc32 : Bytes → ℕ) (max_wal_bytes : ℕ) (s : Store) : Type 0 where
  pub log : Wal
  pub attached : s.wal ≡ some log
  pub batches : List Batch
  pub each : All IsBatch batches
  pub file : log.file ≡ image crc32 batches
  pub counted : log.bytes ≡ length log.file
  pub budget : log.bytes ≤ log.max_bytes
  pub word : log.max_bytes < 2 ^ 64
  pub recovers : Recovers batches max_wal_bytes s

check_capacity-ok :
    (w : Wal) (rs : List Record)
    → check_capacity w rs ≡ ok tt
    → batch_bytes rs ≤ w.max_bytes - w.bytes
unfolding check_capacity
check_capacity-ok w rs h = ground arith

unfoldable pub append_result : Wal → Bytes → Wal
append_result w written = record w { file = w.file ++ written; bytes = w.bytes +u64 length written }

pub io_cases : {A : Type 0} → (o : Option A) → (o ≡ none) ⊎ ((a : A) × (o ≡ some a))
io_cases none = inl refl
io_cases (some a) = inr (a, refl)

write_frame-ok :
    (crc32 : Bytes → ℕ) (w w' : Wal) (written : Bytes) (io : AppendIo)
    → write_frame crc32 w written io ≡ (ok tt, w')
    → w' ≡ append_result w written
unfolding write_frame finish_append append_result
write_frame-ok crc32 w w' written io h = elim (io_cases io.write_fails) [
  | inr ((n, text), e) ↦ absurd (err-ne-ok (ap (λ z. z.0) (simp (write_frame, e) at h)))
  | inl e ↦ elim (io_cases io.sync_fails) [
    | inr (text, e') ↦ absurd (err-ne-ok (ap (λ z. z.0) (simp (write_frame, e, e') at h)))
    | inl e' ↦ sym (ap (λ z. z.1) (simp (write_frame, e, e') at h))
  ]
]

append-ok :
    (crc32 : Bytes → ℕ) (w w' : Wal) (first : ℕ) (rs : List Record) (io : AppendIo)
    → append crc32 w first rs io ≡ (ok tt, w')
    → w' ≡ append_result w (frame crc32 (frame_body first rs))
unfolding append
append-ok crc32 w w' first rs io h = elim (result_cases (check_capacity w rs)) [
  | inr (e, full) ↦ absurd (err-ne-ok (ap (λ z. z.0) (simp (append, full) at h)))
  | inl (_, room) ↦
      write_frame-ok crc32 w w' (frame crc32 (frame_body first rs)) io (simp (append, room) at h)
]

image-append :
    (crc32 : Bytes → ℕ) (bs : List Batch) (b : Batch)
    → image crc32 (bs ++ b ∷ []) ≡ image crc32 bs ++ frame crc32 (frame_body b.first b.records)
unfolding image frames
image-append crc32 bs b = rw (frames-append crc32 bs (b ∷ []), append-nil) refl

none-ne-some : {w : Wal} → none ≡ some w → ⊥
none-ne-some h = cc

pub some-injective : {v w : Wal} → some v ≡ some w → v ≡ w
some-injective h = cc

module _ (crc32 : Bytes → ℕ) (max_wal_bytes : ℕ) (s : Store) (rs : List Record) where
  unfoldable pub frame_of : Bytes
  frame_of = frame crc32 (frame_body (last_sequence s + 1) rs)

  -- What is left of a store by a batch: the log that was written, the history, any counters.
  Recovers-Alike :
      (bs : List Batch) (s1 s2 : Store)
      → Alike s1 s2
      → Recovers bs max_wal_bytes s1
      → Recovers bs max_wal_bytes s2
  Recovers-Alike bs s1 s2 a v = record {
    replayed = v.replayed;
    run =
        subst (λ m. replay_all replay_batch bs (memory m max_wal_bytes) ≡ ok v.replayed)
          a.max_retained v.run;
    alike = record {
      events = v.alike.events ∙ a.events;
      retained = v.alike.retained ∙ a.retained;
      max_retained = v.alike.max_retained ∙ a.max_retained;
    };
  }

  pub written-Logged :
      (bytes : ℕ) (s' : Store) (l : Logged crc32 max_wal_bytes s)
      → IsBatch (next_batch s rs)
      → check_capacity l.log rs ≡ ok tt
      → check_retained_capacity s rs ≡ ok bytes
      → s'.wal ≡ some (append_result l.log frame_of)
      → Alike (commit s (last_sequence s + 1) rs bytes) s'
      → Logged crc32 max_wal_bytes s'
  unfolding append_result next_batch frame_of
  written-Logged bytes s' l v room check attached alike =
      let fits = check_capacity-ok l.log rs room in
      let size = batch_bytes-frame crc32 (last_sequence s + 1) rs v.each v.few_records in
      record {
        log = append_result l.log frame_of;
        attached = attached;
        batches = l.batches ++ next_batch s rs ∷ [];
        each = All-append IsBatch l.batches (next_batch s rs ∷ []) l.each (v, tt);
        file =
            ap (λ z. z ++ frame_of) l.file ∙ sym (image-append crc32 l.batches (next_batch s rs));
        counted =
            omega
              (arith, l.counted, fits, size, l.word, l.budget, length-append l.log.file frame_of);
        budget = omega (arith, fits, size, l.word, l.budget);
        word = l.word;
        recovers =
            Recovers-Alike _ (commit s (last_sequence s + 1) rs bytes) s' alike
              (Recovers-commit l.batches max_wal_bytes s rs bytes l.recovers check);
      }

  -- An accepted batch extends the log as it extends the history.
  pub accept-Logged :
      (io : AppendIo) (r : Result Bytes × Store)
      → Logged crc32 max_wal_bytes s
      → IsBatch (next_batch s rs)
      → Accepted crc32 s rs io r
      → Logged crc32 max_wal_bytes r.1
  unfolding accept next_batch frame_of commit
  accept-Logged io r l v a = elim a.logged [
    | inl (no_log, _) ↦ absurd (none-ne-some (sym no_log ∙ l.attached))
    | inr (w, w', log, written) ↦
        let same : w ≡ l.log = some-injective (sym written.attached ∙ l.attached) in
        let run = append-ok crc32 w w' (last_sequence s + 1) rs io written.run in
        subst (λ z. Logged crc32 max_wal_bytes z.1) (sym a.outcome)
          (written-Logged a.bytes _ l v (subst (λ z. check_capacity z rs ≡ ok tt) same written.room)
            a.check (log ∙ ap some (run ∙ ap (λ z. append_result z frame_of) same))
            (record { events = refl; retained = refl; max_retained = refl }))
  ]
