-- ===== src/Store/Durability.antt =====
-- store.rs `publish` and `disk`: the history and its log agree, and a restart recovers it.
use velo_bus.Prelude.{
  ℕ, ◌+◌, ◌*◌, ◌≤◌, ◌≡◌, refl, sym, ap, ◌∙◌, List, [], ◌∷◌, ◌++◌, arith, length, length-append,
  append_assoc, All, be_bytes, length-be_bytes,
}
use velo_bus.Protocol.Codes
use velo_bus.Protocol.Types.{Bytes, Result, ok, bind, Record, wire_bytes, ◌+u64◌}
use velo_bus.Protocol.Consumes.{bind-ok, ok-injective}
use velo_bus.Protocol.Encode.{encode_records}
use velo_bus.Protocol.Wire.{IsRecord}
use velo_bus.Protocol.Records.{length-encode_records, length-record_bytes, valid_topic}
use velo_bus.Wal.{frame, frame_body, batch_bytes, wire_sum}
use velo_bus.Wal.Layout.{Batch, replay_all, frames, length-frame}
use velo_bus.Store.{
  Store, check_retained_capacity, number, commit, last_sequence, memory, replay_batch,
}
use velo_bus.Protocol.Wire

wire_sum-batch :
    (rs : List Record)
    → All IsRecord rs
    → length rs ≤ Codes.max_batch
    → (wire_sum rs ≡ length (Wire.batch_bytes rs)) × (wire_sum rs ≤ 300_000 * length rs)
unfolding wire_sum Wire.batch_bytes wire_bytes
wire_sum-batch [] h few = (refl, omega arith)
wire_sum-batch (r ∷ rs) (v, h) few =
    let (e, b) = wire_sum-batch rs h (omega arith) in
    let (t1, t2, t3) = valid_topic r.topic v.topic in
    let l = length-append (Wire.record_bytes r) (Wire.batch_bytes rs) in
    (
      omega (arith, e, b, t2, v.key_size, v.payload_size, l, length-record_bytes r),
      omega (arith, e, b, t2, v.key_size, v.payload_size),
    )

-- The size that the capacity check reckons with is the size of the frame that is written.
pub batch_bytes-frame :
    (crc32 : Bytes → ℕ) (first : ℕ) (rs : List Record)
    → All IsRecord rs
    → length rs ≤ Codes.max_batch
    → batch_bytes rs ≡ length (frame crc32 (frame_body first rs))
unfolding batch_bytes frame_body
batch_bytes-frame crc32 first rs v few =
    let (e, b) = wire_sum-batch rs v few in
    omega (
      arith,
      e,
      b,
      length-frame crc32 (frame_body first rs),
      length-append (be_bytes 8 first) (encode_records rs),
      length-be_bytes 8 first,
      length-encode_records rs,
    )

replay_all-append :
    {S : Type 0} (replay : S → ℕ → List Record → Result S) (xs ys : List Batch) (s s1 : S)
    → replay_all replay xs s ≡ ok s1
    → replay_all replay (xs ++ ys) s ≡ replay_all replay ys s1
unfolding replay_all
replay_all-append replay [] ys s s1 h = ap (replay_all replay ys) (ok-injective h)
replay_all-append replay (x ∷ xs) ys s s1 h =
    let (z, e, k) = bind-ok (replay s x.first x.records) (replay_all replay xs) h in
    rw (e, replay_all) (replay_all-append replay xs ys z s1 k)

pub frames-append :
    (crc32 : Bytes → ℕ) (xs ys : List Batch)
    → frames crc32 (xs ++ ys) ≡ frames crc32 xs ++ frames crc32 ys
unfolding frames
frames-append crc32 [] ys = refl
frames-append crc32 (x ∷ xs) ys =
    ap (λ z. frame crc32 (frame_body x.first x.records) ++ z) (frames-append crc32 xs ys)
    ∙ sym (
        append_assoc (frame crc32 (frame_body x.first x.records)) (frames crc32 xs)
          (frames crc32 ys))

-- Two stores that a batch is checked against and added to in the same way.
pub record Alike (s t : Store) : Type 0 where
  pub events : s.events ≡ t.events
  pub retained : s.retained ≡ t.retained
  pub max_retained : s.max_retained ≡ t.max_retained

unfoldable pub next_batch : Store → List Record → Batch
next_batch s rs = record { first = last_sequence s + 1; records = rs }

-- What the replay makes of the batches is what the broker had in memory.
pub record Recovers (bs : List Batch) (max_wal_bytes : ℕ) (s : Store) : Type 0 where
  pub replayed : Store
  pub run : replay_all replay_batch bs (memory s.max_retained max_wal_bytes) ≡ ok replayed
  pub alike : Alike replayed s

replay_batch-accepts :
    (s0 s : Store) (rs : List Record) (bytes : ℕ)
    → Alike s0 s
    → check_retained_capacity s rs ≡ ok bytes
    → replay_batch s0 (last_sequence s + 1) rs ≡ ok (commit s0 (last_sequence s + 1) rs bytes)
unfolding replay_batch check_retained_capacity
replay_batch-accepts s0 s rs bytes a h =
    ground (arith, a.retained, a.max_retained, ap (λ es. length es) a.events)

commit-Alike :
    (s0 s : Store) (first : ℕ) (rs : List Record) (bytes : ℕ)
    → Alike s0 s
    → Alike (commit s0 first rs bytes) (commit s first rs bytes)
unfolding commit
commit-Alike s0 s first rs bytes a = record {
  events = ap (λ es. es ++ number first rs) a.events;
  retained = ap (λ n. n +u64 bytes) a.retained;
  max_retained = a.max_retained;
}

pub Recovers-commit :
    (bs : List Batch) (max_wal_bytes : ℕ) (s : Store) (rs : List Record) (bytes : ℕ)
    → Recovers bs max_wal_bytes s
    → check_retained_capacity s rs ≡ ok bytes
    → Recovers (bs ++ next_batch s rs ∷ []) max_wal_bytes (commit s (last_sequence s + 1) rs bytes)
unfolding next_batch commit replay_all
Recovers-commit bs max_wal_bytes s rs bytes v h = record {
  replayed = commit v.replayed (last_sequence s + 1) rs bytes;
  run =
      replay_all-append replay_batch bs (next_batch s rs ∷ []) _ v.replayed v.run
      ∙ ap (λ r. bind r (replay_all replay_batch []))
          (replay_batch-accepts v.replayed s rs bytes v.alike h);
  alike = commit-Alike v.replayed s (last_sequence s + 1) rs bytes v.alike;
}
