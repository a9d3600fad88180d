-- ===== src/Store/Uncertain.antt =====
-- store.rs `publish` and `disk`: what a restart recovers after an append that failed.
use velo_bus.Prelude.{
  ℕ, ◌+◌, ◌≤◌, ◌<◌, ◌^◌, ◌≡◌, ◌⊎◌, inl, inr, refl, sym, ap, subst, ◌∙◌, List, [], ◌++◌, arith,
  length, length-append, take, take_all, append-nil, Option, some, be_bytes, length-be_bytes,
}
use native.Mathlib.Decide.{dec_lt}
use velo_bus.Protocol.Codes
use velo_bus.Protocol.Types.{Bytes, Error, Result, ok, err, Record}
use velo_bus.Protocol.Consumes.{err-ne-ok}
use velo_bus.Protocol.Encode.{encode_records}
use velo_bus.Protocol.Records.{encode_records_size}
use velo_bus.Wal.{
  Wal, AppendIo, Faults, append, write_frame, finish_append, frame, frame_body, check_capacity,
}
use velo_bus.Wal.Layout.{IsBatch, IsTorn, length-frame}
use velo_bus.Wal.Replay.{IsQuiet}
use velo_bus.Store.{
  Store, publish, accept, disk, number, commit, last_sequence, check_retained_capacity,
}
use velo_bus.Store.Outcomes.{publish-Ends}
use velo_bus.Store.Durability.{next_batch}
use velo_bus.Store.Restart.{
  Logged, frame_of, written-Logged, append_result, io_cases, some-injective,
}
use velo_bus.Store.Crash.{disk-recovers}

-- What a failed append leaves in the file: a prefix of the frame, proper or whole.
write_frame-err :
    (crc32 : Bytes → ℕ) (w w' : Wal) (written : Bytes) (io : AppendIo) (e : Error)
    → write_frame crc32 w written io ≡ (err e, w')
    → (n : ℕ) × (w'.file ≡ w.file ++ take n written)
unfolding write_frame finish_append
write_frame-err crc32 w w' written io e h = elim (io_cases io.write_fails) [
  | inr ((n, text), f) ↦ (n, sym (ap (λ z. z.1.file) (simp (write_frame, f) at h)))
  | inl f ↦ elim (io_cases io.sync_fails) [
    | inr (text, g) ↦ (
      length written,
      sym (ap (λ z. z.1.file) (simp (write_frame, f, g) at h))
          ∙ ap (λ z. w.file ++ z) (sym (take_all (length written) written (omega arith))),
    )
    | inl g ↦ absurd (err-ne-ok (sym (ap (λ z. z.0) (simp (write_frame, f, g) at h))))
  ]
]

append-err :
    (crc32 : Bytes → ℕ) (w w' : Wal) (first : ℕ) (rs : List Record) (io : AppendIo) (e : Error)
    → check_capacity w rs ≡ ok tt
    → append crc32 w first rs io ≡ (err e, w')
    → (n : ℕ) × (w'.file ≡ w.file ++ take n (frame crc32 (frame_body first rs)))
unfolding append
append-err crc32 w w' first rs io e room h =
    write_frame-err crc32 w w' (frame crc32 (frame_body first rs)) io e (simp (append, room) at h)

module _ (crc32 : Bytes → ℕ) (s : Store) (rs : List Record) (b : IsBatch (next_batch s rs)) where
  abbrev body : Bytes
  body = frame_body (last_sequence s + 1) rs

  body_size : (19 ≤ length body) × (length body ≤ Codes.max_frame + 3)
  unfolding next_batch frame_body
  body_size = omega (
    arith,
    b.size,
    encode_records_size rs b.some_records b.each,
    length-append (be_bytes 8 (last_sequence s + 1)) (encode_records rs),
    length-be_bytes 8 (last_sequence s + 1),
  )

  prefix-IsTorn : (n : ℕ) → n < length (frame crc32 body) → IsTorn crc32 (take n (frame crc32 body))
  prefix-IsTorn n lt = record {
    body = body;
    cut = n;
    at_least = body_size.0;
    at_most = body_size.1;
    short = lt;
    prefix = refl;
  }

-- The history that a restart recovers: without the batch, or with the whole batch.
pub record Uncertain (s : Store) (rs : List Record) (r : Option (Result Store × Bytes))
    : Type 0 where
  pub store : Store
  pub file : Bytes
  pub outcome : r ≡ some (ok store, file)
  pub history :
      (store.events ≡ s.events) ⊎ (store.events ≡ s.events ++ number (length s.events + 1) rs)

module _ (crc32 : Bytes → ℕ) (small : (bytes : Bytes) → crc32 bytes < 2 ^ 32) (faults : Faults)
    (q : IsQuiet faults) (max_wal_bytes : ℕ) (s : Store) (rs : List Record)
    (l : Logged crc32 max_wal_bytes s) (b : IsBatch (next_batch s rs)) where
  -- A part of the frame is cut.
  recover_prefix :
      (n : ℕ) (file : Bytes)
      → n < length (frame crc32 (body crc32 s rs b))
      → file ≡ l.log.file ++ take n (frame crc32 (body crc32 s rs b))
      → length file ≤ max_wal_bytes
      → Uncertain s rs (disk crc32 faults s.max_retained max_wal_bytes file)
  recover_prefix n file lt e fits =
      let tail = take n (frame crc32 (body crc32 s rs b)) in
      let r =
        disk-recovers crc32 small faults q max_wal_bytes s l tail (prefix-IsTorn crc32 s rs b n lt)
          (subst (λ z. length z ≤ max_wal_bytes) e fits) in
      record {
        store = r.store;
        file = l.log.file;
        outcome =
            subst
              (λ z.
                disk crc32 faults s.max_retained max_wal_bytes z ≡ some (ok r.store, l.log.file))
              (sym e) r.outcome;
        history = inl r.history;
      }

  -- The whole frame is recovered as if the append had succeeded.
  recover_whole :
      (bytes : ℕ) (file : Bytes)
      → check_capacity l.log rs ≡ ok tt
      → check_retained_capacity s rs ≡ ok bytes
      → file ≡ l.log.file ++ frame crc32 (body crc32 s rs b)
      → length file ≤ max_wal_bytes
      → Uncertain s rs (disk crc32 faults s.max_retained max_wal_bytes file)
  unfolding append_result commit frame_of
  recover_whole bytes file room check e fits =
      let s' : Store = record (commit s (last_sequence s + 1) rs bytes) {
        wal = some (append_result l.log (frame crc32 (body crc32 s rs b)));
      } in
      let l' =
        written-Logged crc32 max_wal_bytes s rs bytes s' l b room check refl
          (record { events = refl; retained = refl; max_retained = refl }) in
      let same : append_result l.log (frame crc32 (body crc32 s rs b)) ≡ l'.log =
        some-injective l'.attached in
      let whole : file ≡ l'.log.file ++ [] =
        e
        ∙ sym (append-nil (l.log.file ++ frame crc32 (body crc32 s rs b)))
        ∙ ap (λ z. z.file ++ []) same in
      let none_left =
        prefix-IsTorn crc32 s rs b 0 (omega (arith, length-frame crc32 (body crc32 s rs b))) in
      let r =
        disk-recovers crc32 small faults q max_wal_bytes s' l' [] none_left
          (subst (λ z. length z ≤ max_wal_bytes) whole fits) in
      record {
        store = r.store;
        file = l'.log.file;
        outcome =
            subst
              (λ z.
                disk crc32 faults s.max_retained max_wal_bytes z ≡ some (ok r.store, l'.log.file))
              (sym whole) r.outcome;
        history = inr r.history;
      }

  recover_failed :
      (io : AppendIo) (bytes : ℕ) (w : Wal) (e : Error)
      → check_capacity l.log rs ≡ ok tt
      → check_retained_capacity s rs ≡ ok bytes
      → append crc32 l.log (last_sequence s + 1) rs io ≡ (err e, w)
      → length w.file ≤ max_wal_bytes
      → Uncertain s rs (disk crc32 faults s.max_retained max_wal_bytes w.file)
  recover_failed io bytes w e room check run fits =
      let (n, content) = append-err crc32 l.log w (last_sequence s + 1) rs io e room run in
      elim (dec_lt n (length (frame crc32 (body crc32 s rs b)))) [
        | yes lt ↦ recover_prefix n w.file lt content fits
        | no ge ↦
            recover_whole bytes w.file room check
              (content ∙ ap (λ z. l.log.file ++ z) (take_all n _ (omega (arith, ge)))) fits
      ]

  -- A PUBLISH of a valid batch to a healthy store on disk that is answered with an error is all or
  -- nothing after a restart: opening the file that is left succeeds, if no call of the operating
  -- system fails then and the file fits the limit, and gives the history before the batch or that
  -- history with the whole batch at its end.
  pub publish-Uncertain :
      (io : AppendIo) (e : Error) (w : Wal)
      → (publish crc32 s rs io).0 ≡ err e
      → (publish crc32 s rs io).1.wal ≡ some w
      → length w.file ≤ max_wal_bytes
      → Uncertain s rs (disk crc32 faults s.max_retained max_wal_bytes w.file)
  unfolding accept
  publish-Uncertain io e w h attached fits = elim (publish-Ends crc32 s rs io) [
    | inr (inr a) ↦ absurd (err-ne-ok (sym h ∙ ap (λ z. z.0) a.outcome))
    | inl (x, r) ↦
        let same : l.log ≡ w =
          some-injective (sym l.attached ∙ sym (ap (λ z. z.1.wal) r) ∙ attached) in
        recover_prefix 0 w.file (omega (arith, length-frame crc32 (body crc32 s rs b)))
          (ap (λ z. z.file) (sym same) ∙ sym (append-nil l.log.file)) fits
    | inr (inl f) ↦
        let before : f.before ≡ l.log = some-injective (sym f.attached ∙ l.attached) in
        let after : f.after ≡ w = some-injective (sym (ap (λ z. z.1.wal) f.outcome) ∙ attached) in
        recover_failed io f.bytes w f.error (subst (λ z. check_capacity z rs ≡ ok tt) before f.room)
          f.check
          (subst (λ z. append crc32 l.log (last_sequence s + 1) rs io ≡ (err f.error, z)) after
            (subst (λ z. append crc32 z (last_sequence s + 1) rs io ≡ (err f.error, f.after)) before
              f.run))
          fits
  ]
