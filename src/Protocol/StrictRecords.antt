-- ===== src/Protocol/StrictRecords.antt =====
-- protocol.rs `decode_records`: what is accepted is the layout of the records.
use velo_bus.Prelude.{
  ℕ, zero, suc, ◌≤◌, ◌<◌, ◌^◌, ◌%◌, ◌≡◌, refl, ap, false, not, [], ◌∷◌, ◌++◌, arith, ltb, length,
  append-nil, be_bytes, All,
}
use velo_bus.Protocol.Codes
use velo_bus.Protocol.Types.{Bytes, Record}
use velo_bus.Protocol.Decode.{validate_topic, contains, decode_record, decode_loop, decode_records}
use velo_bus.Protocol.Wire.{IsRecord, record_bytes, batch_bytes, string_bytes}
use velo_bus.Protocol.Consumes.{
  Consumes, pure-Consumes, bind-Consumes, check-Consumes, pass-Consumes, take-Consumes,
  u16-Consumes, u32-Consumes, string-Consumes,
}

-- A value of a record decoder stands for its bytes, and is within the limits.
abbrev RecordAt : Record → Bytes → Type 0
RecordAt r xs = (xs ≡ record_bytes r) × IsRecord r

-- The bytes of a length and of the payload that it announces.
pub payload_back :
    (n : ℕ) (ns payload ps : Bytes)
    → ns ≡ be_bytes 4 n
    → payload ≡ ps
    → length ps ≡ n
    → (ns ++ (ps ++ []) ≡ be_bytes 4 (length payload) ++ payload) × (length payload ≡ n)
payload_back n ns payload ps e same size =
    let n' : length payload ≡ n = omega (arith, ap length same) in (rw (append-nil ps, n') (cc), n')

record_back :
    (topic key payload : Bytes)
    → length payload < 2 ^ 32
    → string_bytes topic ++ (string_bytes key ++ (be_bytes 4 (length payload) ++ payload))
      ≡ record_bytes (record { topic = topic; key = key; payload = payload })
unfolding record_bytes
record_back topic key payload small =
    let e : length payload % 2 ^ 32 ≡ length payload = omega arith in rw e

decode_record-Consumes : Consumes decode_record RecordAt
unfolding decode_record record_bytes
decode_record-Consumes = bind-Consumes (string-Consumes 255) λ topic ts (te, tsize, tutf8).
    check-Consumes (validate_topic topic false) λ valid.
      bind-Consumes (string-Consumes 1024) λ key ks (ke, ksize, kutf8).
        bind-Consumes u32-Consumes λ n ns (ne, nsmall).
          pass-Consumes (ltb Codes.max_payload n) _ λ fits.
            bind-Consumes (take-Consumes n) λ payload ps (pe, psize, _).
              let (same, size) = payload_back n ns payload ps ne pe psize in
              pure-Consumes (record { topic = topic; key = key; payload = payload })
                (
                  rw (te, ke, same) (record_back topic key payload (omega arith)),
                  record {
                    topic = valid;
                    key_size = ksize;
                    key_utf8 = kutf8;
                    payload_size = ground arith;
                  },
                )

decode_loop-Consumes :
    (n : ℕ)
    → Consumes (decode_loop n) (λ rs xs. (xs ≡ batch_bytes rs) × (length rs ≡ n) × All IsRecord rs)
unfolding decode_loop batch_bytes
decode_loop-Consumes zero = pure-Consumes [] (refl, refl, tt)
decode_loop-Consumes (suc n) = bind-Consumes decode_record-Consumes λ r xs (e, v).
    bind-Consumes (decode_loop-Consumes n) λ rs ys (e', size, vs).
      pure-Consumes (r ∷ rs) (rw (append-nil ys, e, e'), ap suc size, (v, vs))

pub decode_records-Consumes : Consumes decode_records (λ rs xs.
    (xs ≡ be_bytes 2 (length rs) ++ batch_bytes rs)
    × (1 ≤ length rs)
    × (length rs ≤ Codes.max_batch)
    × All IsRecord rs)
unfolding decode_records
decode_records-Consumes = bind-Consumes u16-Consumes λ n ns (ne, small).
    pass-Consumes (not (contains 1 Codes.max_batch n)) _ λ range. record {
      takes = λ front rest bytes rs r h.
          let (xs, ys, e, er, (layout, size, vs)) =
            (decode_loop-Consumes n).takes front rest bytes rs r h in
          (xs, ys, e, er, (rw (ne, layout, size), ground arith, ground arith, vs));
    }
