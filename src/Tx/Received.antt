-- ===== src/Tx/Received.antt =====
-- A shard of src/tx.c on its way: encoded, encrypted, sent, received and decrypted.
use coding_gateway.Base.{
  ℕ, ◌≤◌, ◌<◌, ◌≡◌, refl, sym, ap, ◌∙◌, arith, List, Bool, true, false, ◌&&◌, some, ltb, lt→ltb,
  inl, inr, Bool-cases, if◌then◌else◌, length, get_or, take, drop, memcpy, length-memcpy,
  get_or-memcpy_in, get_or-memcpy_out, take_of_field, AreBytes, ◌⊕◌, xor_cancel_right, bit_or, ◌*◌,
  ◌%◌, ◌^◌, get_or-update_from, length-map,
}
use mathlib.Core.Path.{subst}
use native.Mathlib.Decide.{dec_lt}
use coding_gateway.Limits.{max_n}
use coding_gateway.Float.{FloatOps}
use coding_gateway.Codec.{Shard, longest, encode_block}
use coding_gateway.Codec.Decode.{blank}
use coding_gateway.Codec.Dot.{dot}
use coding_gateway.Codec.Row.{column}
use coding_gateway.Codec.Source.{IsShardOf, IsSource, dot-take}
use coding_gateway.Codec.EncodeShard.{IsBuffer, IsPadded}
use coding_gateway.Codec.Encode.{AreBuffers, encode_block-IsShardOf, length-encode_shards}
use coding_gateway.Crypto.{CryptoCtx, crypto_xor, seed_from_key_nonce}
use coding_gateway.Crypto.Stream.{crypto_xor-byte, keystream}
use coding_gateway.Strategy.{StrategyCtx, strategy_compute_n}
use coding_gateway.Strategy.Redundancy.{strategy_compute_n-bounds}
use coding_gateway.Transport.{
  TransportCtx, data_shard, shard_header, shard_datagram, transport_recv,
}
use coding_gateway.Transport.RoundTrip.{path, transport_recv-shard_datagram}
use coding_gateway.Rx.Window.{decrypted}
use coding_gateway.Tx.{TxBlock, prepared, encrypted, shard_count, coded}
use coding_gateway.Tx.Queue.{IsTx}
use coding_gateway.Tx.Prepared.{
  block_len, block_len_small, prepared-longest, prepared-IsPadded, prepared-IsSource,
}

memcpy-AreBytes :
    (dst src : List ℕ) (n : ℕ)
    → n ≤ length src
    → AreBytes dst
    → AreBytes src
    → AreBytes (memcpy dst src n)
memcpy-AreBytes dst src n h p q i = elim (dec_lt i n) [
  | yes e ↦ rw (get_or-memcpy_in dst src n i h e) (q i)
  | no e ↦ rw (get_or-memcpy_out dst src n i h (omega arith)) (p i)
]

-- What `transport_recv` stores of a shard.
abbrev pub copied : Shard → ℕ → Shard → Shard
copied into k s = record {
  coeffs = memcpy into.coeffs s.coeffs k;
  payload = memcpy into.payload s.payload s.len;
  len = s.len;
}

module _ (crypto : CryptoCtx) (block_id i : ℕ) (s : Shard) where
  encrypted-len : (encrypted crypto block_id i s).len ≡ s.len
  unfolding encrypted
  encrypted-len = elim (Bool-cases crypto.enabled) [ inl e ↦ rw e refl | inr e ↦ rw e refl ]

  encrypted-coeffs : length (encrypted crypto block_id i s).coeffs ≡ length s.coeffs
  unfolding encrypted
  encrypted-coeffs = elim (Bool-cases crypto.enabled) [ inl e ↦ rw e refl | inr e ↦ rw e refl ]

  length-encrypted :
      s.len ≤ length s.payload → length (encrypted crypto block_id i s).payload ≡ length s.payload
  unfolding encrypted
  length-encrypted room = elim (Bool-cases crypto.enabled) [
    | inl e ↦
        rw e
          (crypto_xor-byte (record crypto { enabled = true }) s.payload s.len
            (bit_or (block_id * 2 ^ 8 % 2 ^ 64) i) 0 room).0
    | inr e ↦ rw e refl
  ]

module _ (crypto : CryptoCtx) (block_id i k l : ℕ) (xs : List (List ℕ)) (s into : Shard)
    (src : IsSource k l xs) (ok : IsShardOf k l xs s) (buffer : IsBuffer k l into) where
  abbrev nonce : ℕ
  nonce = bit_or (block_id * 2 ^ 8 % 2 ^ 64) i

  abbrev back : Shard
  back = decrypted crypto block_id i (copied into k (encrypted crypto block_id i s))

  abbrev plain : List ℕ
  plain = s.payload

  abbrev sent : List ℕ
  sent = crypto_xor crypto plain s.len nonce

  -- `back` with the test for the encryption as a variable.
  abbrev either : Bool → Shard
  either on =
      let got = copied into k (if on then record s { payload = sent } else s) in
      if on then record got { payload = crypto_xor crypto got.payload got.len nonce } else got

  restored_either : back ≡ either crypto.enabled
  unfolding decrypted encrypted
  restored_either = refl

  either_len : (on : Bool) → (either on).len ≡ s.len
  either_len true = refl
  either_len false = refl

  either_coeffs : (on : Bool) → (either on).coeffs ≡ memcpy into.coeffs s.coeffs k
  either_coeffs true = refl
  either_coeffs false = refl

  back_len : back.len ≡ s.len
  back_len = ap (λ (r : Shard). r.len) restored_either ∙ either_len crypto.enabled

  back_coeffs : back.coeffs ≡ memcpy into.coeffs s.coeffs k
  back_coeffs = ap (λ (r : Shard). r.coeffs) restored_either ∙ either_coeffs crypto.enabled

  room : s.len ≤ length plain
  room = omega (arith, ok.full, ok.room)

  length-sent : length sent ≡ length plain
  length-sent = (crypto_xor-byte crypto plain s.len nonce 0 room).0

  into_room : s.len ≤ length into.payload
  into_room = omega (arith, ok.full, buffer.room)

  sent_room : s.len ≤ length sent
  sent_room = omega (arith, room, length-sent)

  length-either : (on : Bool) → length (either on).payload ≡ length into.payload
  length-either true =
      let arrived = memcpy into.payload sent s.len in
      let size = length-memcpy into.payload sent s.len sent_room into_room in
      (crypto_xor-byte crypto arrived s.len nonce 0 (omega (arith, size, into_room))).0 ∙ size
  length-either false = length-memcpy into.payload plain s.len room into_room

  length-back : length back.payload ≡ length into.payload
  length-back = ap (λ (r : Shard). length r.payload) restored_either ∙ length-either crypto.enabled

  -- Both the sender and the receiver xor byte `p` with the same byte of the keystream.
  either_byte :
      (on : Bool) (p : ℕ)
      → crypto.enabled ≡ on
      → p < s.len
      → get_or (either on).payload p 0 ≡ get_or plain p 0
  either_byte true p e h =
      let arrived = memcpy into.payload sent s.len in
      let size = length-memcpy into.payload sent s.len sent_room into_room in
      let inside : ltb p s.len ≡ true = lt→ltb p s.len h in
      let on : (crypto.enabled && ltb p s.len) ≡ true = ap (λ b. b && ltb p s.len) e ∙ inside in
      let key = keystream (seed_from_key_nonce crypto.key nonce) p in
      let once = (crypto_xor-byte crypto plain s.len nonce p room).1 in
      let twice =
        (crypto_xor-byte crypto arrived s.len nonce p (omega (arith, size, into_room))).1 in
      let chosen = λ (x y : ℕ). ap (λ b. if b then x else y) on in
      twice
      ∙ chosen (get_or arrived p 0 ⊕ key) (get_or arrived p 0)
      ∙ ap (λ t. t ⊕ key)
          (get_or-memcpy_in into.payload sent s.len p sent_room h
            ∙ once
            ∙ chosen (get_or plain p 0 ⊕ key) (get_or plain p 0))
      ∙ xor_cancel_right (get_or plain p 0) key
  either_byte false p e h = get_or-memcpy_in into.payload plain s.len p room h

  back_byte : (p : ℕ) → p < s.len → get_or back.payload p 0 ≡ get_or plain p 0
  back_byte p h =
      ap (λ (r : Shard). get_or r.payload p 0) restored_either ∙ either_byte crypto.enabled p refl h

  -- The decrypted shard is the combination that the encoded one was.
  pub back-IsShardOf : IsShardOf k l xs back
  back-IsShardOf = record {
    width =
        rw back_coeffs
          (omega (arith, length-memcpy into.coeffs s.coeffs k ok.width buffer.width, buffer.width));
    coeff_bytes =
        rw back_coeffs
          (memcpy-AreBytes into.coeffs s.coeffs k ok.width buffer.coeff_bytes ok.coeff_bytes);
    full = back_len ∙ ok.full;
    room = omega (arith, length-back, buffer.room);
    meets =
        λ p h. back_byte p (omega (arith, ok.full)) ∙ ok.meets p h ∙ rw back_coeffs (same_dot p);
  }
    where
      same_dot :
          (p : ℕ) → dot s.coeffs (column p xs) ≡ dot (memcpy into.coeffs s.coeffs k) (column p xs)
      same_dot p =
          let short : length (column p xs) ≤ k =
            omega (arith, length-map (λ x. get_or x p 0) xs, src.count) in
          sym (dot-take k s.coeffs (column p xs) short)
          ∙ ap (λ t. dot t (column p xs))
              (sym (take_of_field k s.coeffs (drop k into.coeffs) ok.width))
          ∙ dot-take k (memcpy into.coeffs s.coeffs k) (column p xs) short

length-encode_block :
    (rand : ℕ → ℕ) (xs : List (List ℕ)) (lens : List ℕ) (out : List Shard) (n k : ℕ)
    → length (encode_block rand xs lens k n out) ≡ length out
unfolding encode_block
length-encode_block rand xs lens out n k =
    length-encode_shards rand xs lens k (longest k lens 0) n 0 0 out

encode_block_of_len :
    (rand : ℕ → ℕ) (xs : List (List ℕ)) (lens : List ℕ) (out : List Shard) (n k l i : ℕ)
    → longest k lens 0 ≡ l
    → IsSource k l (take k xs)
    → IsPadded k l xs lens
    → AreBuffers n k l out
    → i < n
    → IsShardOf k l (take k xs) (get_or (encode_block rand xs lens k n out) i blank)
encode_block_of_len rand xs lens out n k l i e =
    subst
      (λ m.
        IsSource k m (take k xs)
        → IsPadded k m xs lens
        → AreBuffers n k m out
        → i < n
        → IsShardOf k m (take k xs) (get_or (encode_block rand xs lens k n out) i blank))
      e (λ src padded buffers p. encode_block-IsShardOf rand src padded buffers i p)

module _ {F : Type 0} (ops : FloatOps F) (sctx : StrategyCtx F) (crypto : CryptoCtx) (rand : ℕ → ℕ)
    {k : ℕ} {blk : TxBlock} (v : IsTx k blk) (used : 0 < blk.pkt_count) {out : List Shard}
    (buffers : AreBuffers (shard_count (strategy_compute_n ops sctx k)) k (block_len v) out) where
  -- The number of shards, the packets of the block and its shards, before they are encrypted.
  abbrev pub total : ℕ
  total = shard_count (strategy_compute_n ops sctx k)

  abbrev pub sources : List (List ℕ)
  sources = take k (prepared blk k).pkts

  abbrev pub encoded : ℕ → Shard
  encoded i =
      get_or (encode_block rand (prepared blk k).pkts (prepared blk k).pkt_len k total out) i blank

  pub sources-IsSource : IsSource k (block_len v) sources
  sources-IsSource = prepared-IsSource v used

  pub encoded-IsShardOf : (i : ℕ) → i < total → IsShardOf k (block_len v) sources (encoded i)
  encoded-IsShardOf i p =
      encode_block_of_len rand (prepared blk k).pkts (prepared blk k).pkt_len out total k
        (block_len v) i (prepared-longest v used) (prepared-IsSource v used)
        (prepared-IsPadded v used) buffers p

  pub total_small : total ≤ max_n
  total_small = elim (strategy_compute_n-bounds ops sctx k) [
    | inl t ↦ rw t.0 (omega arith)
    | inr (n, runs, low, high, enough) ↦ rw runs high
  ]

  pub coded_shard :
      (i : ℕ)
      → i < total
      → get_or (coded ops sctx blk k crypto rand out) i blank
        ≡ encrypted crypto blk.block_id i (encoded i)
  unfolding coded
  coded_shard i p =
      get_or-update_from blank (encrypted crypto blk.block_id) total 0
        (encode_block rand (prepared blk k).pkts (prepared blk k).pkt_len k total out) i
        (omega arith) (omega arith)
        (omega (
          arith,
          length-encode_block rand (prepared blk k).pkts (prepared blk k).pkt_len out total k,
          buffers.count,
        ))

  pub coded-len :
      (i : ℕ) → i < total → (encrypted crypto blk.block_id i (encoded i)).len ≡ block_len v
  coded-len i p = encrypted-len crypto blk.block_id i (encoded i) ∙ (encoded-IsShardOf i p).full

  module _ (rctx : TransportCtx) (s_addr : ℕ) {into : Shard}
      (into_buffer : IsBuffer k (block_len v) into) (id : blk.block_id < 2 ^ 32) where
    -- Let the arrays at both ends be large enough. The datagram of every shard of a block that waits
    -- to be sent is received as a shard with its index, and this shard, when `rx_window_insert`
    -- decrypts it with the same key, is the combination of the prepared packets that its
    -- coefficients name, as the encoded shard was before the encryption.
    pub transport_recv-coded :
        (i : ℕ)
        → i < total
        → (s : Shard) × (transport_recv rctx true
              (some (
                shard_datagram blk.block_id i k total
                    (get_or (coded ops sctx blk k crypto rand out) i blank),
                s_addr,
              ))
              into
            ≡ some (
                data_shard
                  (shard_header blk.block_id i k total
                    (get_or (coded ops sctx blk k crypto rand out) i blank))
                  s
                  (path rctx s_addr into)))
          × IsShardOf k (block_len v) sources (decrypted crypto blk.block_id i s)
    transport_recv-coded i p =
        let s = get_or (coded ops sctx blk k crypto rand out) i blank in
        let ok = encoded-IsShardOf i p in
        (
          copied into k s,
          transport_recv-shard_datagram rctx s_addr into blk.block_id i k total s id
              (omega (arith, total_small)) (omega (arith, v.small)) (omega (arith, total_small))
              (rw (coded_shard i p) (omega (arith, coded-len i p, block_len_small v)))
              (rw (coded_shard i p)
                (omega (arith, encrypted-coeffs crypto blk.block_id i (encoded i), ok.width)))
              (rw (coded_shard i p) (
                omega (
                  arith,
                  coded-len i p,
                  length-encrypted crypto blk.block_id i (encoded i)
                      (omega (arith, ok.full, ok.room)),
                  ok.room,
                ))),
          rw (coded_shard i p) (
              back-IsShardOf crypto blk.block_id i k (block_len v) sources (encoded i) into
                sources-IsSource ok into_buffer),
        )
