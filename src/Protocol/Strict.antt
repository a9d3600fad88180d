-- ===== src/Protocol/Strict.antt =====
-- The decoders accept nothing but the grammar's layout of a request within the limits.
use velo_bus.Prelude.{
  ℕ, ◌≤◌, ◌≡◌, refl, sym, ap, subst, ◌∙◌, true, false, not, ◌&&◌, ◌||◌, [], ◌∷◌, ◌++◌, arith, ltb,
  ◌==◌, if◌then◌else◌, length-append, append-nil, All, IsByte, Bool-cases, inl, inr, ==_iff,
}
use velo_bus.Protocol.Codes
use velo_bus.Protocol.Types.{
  Bytes, Error, Result, ok, err, bind, new_error, Record, Fetch, Request, hello, publish, fetch,
  stats, ping, register, rpc, complete,
}
use velo_bus.Protocol.Types
use velo_bus.Protocol.Utf8.{is_utf8}
use velo_bus.Protocol.Reader.{Parser, ◌>>=◌, pure, lift, finish, new}
use velo_bus.Protocol.Decode.{
  validate_topic, contains, decode_records, decode_hello, decode_fetch, decode_register, decode_rpc,
  decode_take, decode_complete, decode_body, decode_request,
}
use velo_bus.Protocol.Wire.{IsRequest, request_bytes, opcode_of, flag}
use velo_bus.Protocol.Reads.{at}
use velo_bus.Protocol.Consumes.{
  Consumes, bind-ok, err-ne-ok, ok-injective, pure-Consumes, bind-Consumes, check-Consumes,
  pass-Consumes, take-Consumes, u8-Consumes, u16-Consumes, u32-Consumes, u64-Consumes,
  string-Consumes,
}
use velo_bus.Protocol.StrictRecords.{decode_records-Consumes, payload_back}

-- What `decode_body` returns for an opcode is a request of that opcode.
abbrev RequestAt : ℕ → Request → Bytes → Type 0
RequestAt opcode q xs = (opcode ≡ opcode_of q) × (xs ≡ request_bytes q) × IsRequest q

in_range : (lo hi n : ℕ) → contains lo hi n ≡ true → (lo ≤ n) × (n ≤ hi)
in_range lo hi n h = ground arith

mode_back : (mode : ℕ) → ltb 1 mode ≡ false → flag (mode == 1) ≡ mode
mode_back mode h = ground arith

decode_hello-Consumes : Consumes decode_hello (RequestAt 1)
unfolding decode_hello request_bytes
decode_hello-Consumes = bind-Consumes u16-Consumes λ version vs (ve, small).
    bind-Consumes (string-Consumes 65535) λ token ts (te, size, utf8).
      pure-Consumes (hello version token) (refl, rw (append-nil ts, ve, te), (small, (size, utf8)))

publish-Consumes : Consumes (decode_records >>= λ rs. pure (publish rs)) (RequestAt 2)
unfolding request_bytes
publish-Consumes = bind-Consumes decode_records-Consumes λ rs xs (e, lo, hi, all).
    pure-Consumes (publish rs) (refl, rw (append-nil xs, e), ((lo, hi), all))

decode_fetch-Consumes : Consumes decode_fetch (RequestAt 3)
unfolding decode_fetch request_bytes
decode_fetch-Consumes = bind-Consumes (string-Consumes 255) λ topic ts (te, tsize, tutf8).
    check-Consumes (validate_topic topic true) λ valid.
      bind-Consumes u64-Consumes λ after xs (ae, asmall).
        bind-Consumes u16-Consumes λ limit ls (le, lsmall).
          bind-Consumes u32-Consumes λ budget bs (be, bsmall).
            bind-Consumes u8-Consumes λ mode ms (me, msmall).
              pass-Consumes
                (not (contains 1 Codes.max_batch limit)
                  || not (contains 1 Codes.max_fetch_bytes budget))
                _
                λ range. pass-Consumes (ltb 1 mode) _ λ known.
                  pure-Consumes
                    (fetch (record {
                      topic = topic;
                      after = after;
                      limit = limit;
                      max_bytes = budget;
                      latest = mode == 1;
                    }))
                    (
                      refl,
                      rw (append-nil ms, te, ae, le, be, me, mode_back mode known),
                      (
                        valid,
                        asmall,
                        in_range _ _ limit (ground arith),
                        in_range _ _ budget (ground arith),
                      ),
                    )

decode_register-Consumes : Consumes decode_register (RequestAt 6)
unfolding decode_register request_bytes
decode_register-Consumes = bind-Consumes (string-Consumes 255) λ route ts (te, tsize, tutf8).
    check-Consumes (validate_topic route false) λ valid.
      bind-Consumes u16-Consumes λ concurrency cs (ce, csmall).
        bind-Consumes u16-Consumes λ queue_limit qs (qe, qsmall).
          pass-Consumes (not (contains 1 256 concurrency) || not (contains 1 4096 queue_limit)) _
            λ range. pure-Consumes (register route concurrency queue_limit) (
              refl,
              rw (append-nil qs, te, ce, qe),
              (
                valid,
                in_range _ _ concurrency (ground arith),
                in_range _ _ queue_limit (ground arith),
              ),
            )

decode_rpc-Consumes : Consumes decode_rpc (RequestAt 7)
unfolding decode_rpc request_bytes
decode_rpc-Consumes = bind-Consumes (string-Consumes 255) λ route ts (te, tsize, tutf8).
    check-Consumes (validate_topic route false) λ valid.
      bind-Consumes u32-Consumes λ timeout_ms us (ue, usmall).
        pass-Consumes (not (contains 1 30_000 timeout_ms)) _ λ range.
          bind-Consumes u32-Consumes λ n ns (ne, nsmall).
            pass-Consumes (ltb Codes.max_payload n) _ λ fits.
              bind-Consumes (take-Consumes n) λ payload ps (pe, psize, _).
                let (same, size) = payload_back n ns payload ps ne pe psize in
                pure-Consumes (rpc route timeout_ms payload) (
                  refl,
                  rw (te, ue, same),
                  (valid, in_range _ _ timeout_ms (ground arith), ground arith),
                )

decode_take-Consumes : Consumes decode_take (RequestAt 8)
unfolding decode_take request_bytes
decode_take-Consumes = bind-Consumes u32-Consumes λ wait_ms ws (we, wsmall).
    pass-Consumes (not (contains 1 1000 wait_ms)) _ λ range.
      pure-Consumes (Types.take wait_ms)
        (refl, rw (append-nil ws, we), in_range _ _ wait_ms (ground arith))

decode_complete-Consumes : Consumes decode_complete (RequestAt 9)
unfolding decode_complete request_bytes
decode_complete-Consumes = bind-Consumes u64-Consumes λ call_id is (ie, ismall).
    bind-Consumes u8-Consumes λ status ss (se, ssmall). pass-Consumes (ltb 1 status) _ λ known.
      bind-Consumes u32-Consumes λ n ns (ne, nsmall).
        pass-Consumes (ltb Codes.max_payload n || status == 1 && ltb 4096 n) _ λ fits.
          bind-Consumes (take-Consumes n) λ payload ps (pe, psize, _).
            pass-Consumes (status == 1 && not (is_utf8 payload)) _ λ utf8.
              let (same, size) = payload_back n ns payload ps ne pe psize in
              pure-Consumes (complete call_id (status == 1) payload) (
                refl,
                rw (ie, se, same, mode_back status known),
                (ismall, ground arith, λ f. (ground arith, ground arith)),
              )

refuse-Consumes {ℓ} : {A : Type ℓ} {e : Error} {W : A → Bytes → Type 0} → Consumes (lift (err e)) W
refuse-Consumes = record { takes = λ front rest bytes a r h. absurd (err-ne-ok h) }

-- One arm of the `match`.
arm :
    (opcode k : ℕ) (p q : Parser Request)
    → Consumes p (RequestAt k)
    → Consumes q (RequestAt opcode)
    → Consumes (if opcode == k then p else q) (RequestAt opcode)
arm opcode k p q hp hq = elim (Bool-cases (opcode == k)) [
  | inl e ↦ rw e (subst (λ j. Consumes p (RequestAt j)) (sym ((==_iff opcode k).0 e)) hp)
  | inr e ↦ rw e hq
]

-- The whole `match`: whatever it accepts is a request of that opcode, laid out by the grammar.
pub decode_body-Consumes : (opcode : ℕ) → Consumes (decode_body opcode) (RequestAt opcode)
unfolding decode_body
decode_body-Consumes opcode = arm opcode 1 _ _ decode_hello-Consumes (
    arm opcode 2 _ _ publish-Consumes (
      arm opcode 3 _ _ decode_fetch-Consumes (
        arm opcode 4 _ _ (pure-Consumes stats (refl, unfold request_bytes in refl, tt)) (
          arm opcode 5 _ _ (pure-Consumes ping (refl, unfold request_bytes in refl, tt)) (
            arm opcode 6 _ _ decode_register-Consumes (
              arm opcode 7 _ _ decode_rpc-Consumes (
                arm opcode 8 _ _ decode_take-Consumes
                  (arm opcode 9 _ _ decode_complete-Consumes refuse-Consumes))))))))

finish-ok : (front rest : Bytes) (u : Unit {0}) → finish (at front rest) ≡ ok u → rest ≡ []
unfolding finish
finish-ok front [] u h = refl
finish-ok front (b ∷ rest) u h = absurd (ground (arith, length-append front (b ∷ rest)))

-- A body that is accepted is the layout of the request that it is decoded to: the opcode is the
-- request's, nothing is missing or left over, and every limit of the grammar holds.
pub decode_request-ok :
    (opcode : ℕ) (body : Bytes) (q : Request)
    → All IsByte body
    → decode_request opcode body ≡ ok q
    → (opcode ≡ opcode_of q) × (body ≡ request_bytes q) × IsRequest q
unfolding decode_request
decode_request-ok opcode body q bytes h =
    let ((request, r), e, h') = bind-ok (decode_body opcode (new body)) _ h in
    let (u, f, same) = bind-ok (finish r) _ h' in
    let (xs, ys, whole, er, (code, layout, limits)) =
      (decode_body-Consumes opcode).takes [] body bytes request r e in
    let none_left : ys ≡ [] = finish-ok xs ys u (subst (λ t. finish t ≡ ok u) er f) in
    let body' : body ≡ xs = whole ∙ ap (λ (z : Bytes). xs ++ z) none_left ∙ append-nil xs in
    subst (λ z. (opcode ≡ opcode_of z) × (body ≡ request_bytes z) × IsRequest z) (ok-injective same)
      (code, body' ∙ layout, limits)
