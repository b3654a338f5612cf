-- ===== src/Tx/EndToEnd.antt =====
-- A block from src/tx.c at one end to the TUN device at the other, by src/transport.c and src/rx.c.
use coding_gateway.Base.{
  ℕ, ◌-◌, ◌^◌, ◌≤◌, ◌<◌, ◌≡◌, refl, sym, ap, ap₂, ◌∙◌, arith, List, [], ◌∷◌, ◌++◌, true, false,
  ◌||◌, leb, some, ◌⊎◌, inl, inr, Bool-cases, length, get_or, take, replicate, length-take,
  length-map, get_or-map, get_or-take, length-append, length-replicate, get_or-set_self,
  get_or-set_ne, get_or-replicate, AreBytes, Every,
}
use native.Mathlib.Decide.{ℕ_discrete}
use coding_gateway.Limits.{max_n}
use coding_gateway.Float.{FloatOps}
use coding_gateway.Codec.{Shard}
use coding_gateway.Codec.Decode.{blank, Packet}
use coding_gateway.Codec.Source.{IsShardOf, IsStack, packets}
use coding_gateway.Codec.Kernel.{IsDependent}
use coding_gateway.Codec.EncodeShard.{IsBuffer}
use coding_gateway.Codec.Encode.{AreBuffers}
use coding_gateway.Crypto.{CryptoCtx}
use coding_gateway.Wire.{WireHeader}
use coding_gateway.Strategy.{StrategyCtx, strategy_compute_n}
use coding_gateway.Transport.{
  TransportCtx, data_shard, shard_header, shard_datagram, transport_recv,
}
use coding_gateway.Rx.{RxBlock, zero_block}
use coding_gateway.Rx.Window.{decrypted, insert_into, stripped, try_decode}
use coding_gateway.Rx.Slot.{IsSlot, zero_block-IsSlot, insert_into-IsSlot}
use coding_gateway.Rx.Deliver.{k_shards, try_decode-delivers}
use coding_gateway.Rx.Strip.{IsIpv4, IsIpv6, stripped-padded}
use coding_gateway.Tx.{TxBlock, prepared, shard_count, coded}
use coding_gateway.Tx.Queue.{IsTx, packet_at}
use coding_gateway.Tx.Prepared.{
  block_len, block_len_small, fits_each, width, pad_block, prepared_pkt, append-AreBytes,
  take_bytes,
}
use coding_gateway.Tx.Received.{sources, sources-IsSource, transport_recv-coded}

-- A slot that was not decoded yet, and holds only combinations of the packets of one block.
record IsFed (k l : ℕ) (xs : List (List ℕ)) (b : RxBlock) : Type 0 where
  is_slot : IsSlot b
  fresh : b.decoded ≡ false
  each : (i : ℕ) → get_or b.received i false ≡ true → IsShardOf k l xs (get_or b.shards i blank)

insert_into-IsFed :
    {k l : ℕ} {xs : List (List ℕ)} {b : RxBlock} (hdr : WireHeader) (s : Shard) (crypto : CryptoCtx)
    (now : ℕ)
    → IsFed k l xs b
    → IsShardOf k l xs (decrypted crypto hdr.block_id hdr.shard_idx s)
    → IsFed k l xs (insert_into b hdr s crypto now)
unfolding insert_into
insert_into-IsFed {k} {l} {xs} {b} hdr s crypto now v ok =
    elim (Bool-cases
      (b.decoded || leb max_n hdr.shard_idx || get_or b.received hdr.shard_idx false)) [
        | inl e ↦ rw e v
        | inr e ↦
            let d = decrypted crypto hdr.block_id hdr.shard_idx s in
            let inside : hdr.shard_idx < max_n = ground arith in
            rw e (record {
              is_slot = rw e at (insert_into-IsSlot b hdr s s crypto now now v.is_slot).0;
              fresh = v.fresh;
              each = λ i h. elim (ℕ_discrete hdr.shard_idx i) [
                | yes same ↦
                    rw
                      (
                        ← same,
                        get_or-set_self b.shards hdr.shard_idx d blank
                            (omega (arith, v.is_slot.shard_room)),
                      )
                      ok
                | no ne ↦
                    rw (get_or-set_ne b.shards hdr.shard_idx i d blank ne)
                      (v.each i (sym (get_or-set_ne b.received hdr.shard_idx i true false ne) ∙ h))
              ];
            })
      ]

zero_block-IsFed :
    (k l : ℕ) (xs : List (List ℕ)) (id : ℕ) → IsFed k l xs (record zero_block { block_id = id })
unfolding zero_block
zero_block-IsFed k l xs id = record {
  is_slot = zero_block-IsSlot id;
  fresh = refl;
  each = λ i h. absurd (cc (h, get_or-replicate max_n i false));
}

zero_bytes : (n : ℕ) → AreBytes (replicate n 0)
zero_bytes n i = omega (arith, get_or-replicate {A = ℕ} n i 0)

module _ {F : Type 0} (ops : FloatOps F) (sctx : StrategyCtx F) (crypto : CryptoCtx) (rand : ℕ → ℕ)
    {k : ℕ} {blk : TxBlock} (v : IsTx k blk) (used : 0 < blk.pkt_count) {out : List Shard}
    (buffers : AreBuffers (shard_count (strategy_compute_n ops sctx k)) k (block_len v) out)
    (rctx : TransportCtx) (s_addr : ℕ) {into : Shard} (into_buffer : IsBuffer k (block_len v) into)
    (id : blk.block_id < 2 ^ 32) (now : ℕ) where
  abbrev n : ℕ
  n = shard_count (strategy_compute_n ops sctx k)

  -- The datagram of shard `i`.
  abbrev pub datagram : ℕ → List ℕ
  datagram i =
      shard_datagram blk.block_id i k n (get_or (coded ops sctx blk k crypto rand out) i blank)

  -- A datagram is received, and its shard stored in the slot.
  unfoldable pub arrive : RxBlock → List ℕ → RxBlock
  arrive b bytes = elim (transport_recv rctx true (some (bytes, s_addr)) into) [
    | some (data_shard hdr s path) ↦ insert_into b hdr s crypto now
    | _ ↦ b
  ]

  unfoldable pub arrive_all : RxBlock → List ℕ → RxBlock
  arrive_all b [] = b
  arrive_all b (i ∷ picks) = arrive_all (arrive b (datagram i)) picks

  arrive-IsFed :
      (b : RxBlock) (i : ℕ)
      → i < n
      → IsFed k (block_len v) (sources ops sctx crypto rand v used buffers) b
      → IsFed k (block_len v) (sources ops sctx crypto rand v used buffers) (arrive b (datagram i))
  unfolding arrive shard_header
  arrive-IsFed b i p fed =
      let (s, runs, ok) =
        transport_recv-coded ops sctx crypto rand v used buffers rctx s_addr into_buffer id i p in
      let hdr =
        shard_header blk.block_id i k n (get_or (coded ops sctx blk k crypto rand out) i blank) in
      rw (runs, arrive) (insert_into-IsFed hdr s crypto now fed ok)

  arrive_all-IsFed :
      (b : RxBlock) (picks : List ℕ)
      → Every (λ i. i < n) picks
      → IsFed k (block_len v) (sources ops sctx crypto rand v used buffers) b
      → IsFed k (block_len v) (sources ops sctx crypto rand v used buffers) (arrive_all b picks)
  unfolding arrive_all
  arrive_all-IsFed b [] h fed = fed
  arrive_all-IsFed b (i ∷ picks) h fed =
      arrive_all-IsFed (arrive b (datagram i)) picks h.1 (arrive-IsFed b i h.0 fed)

  -- The slot of the block when the datagrams have arrived.
  abbrev pub fed_slot : List ℕ → RxBlock
  fed_slot picks = arrive_all (record zero_block { block_id = blk.block_id }) picks

  abbrev block_packet : List ℕ → Packet
  block_packet x = record { bytes = take (block_len v) x; len = block_len v }

  source_block :
      (i : ℕ)
      → i < blk.pkt_count
      → (IsIpv4 (packet_at blk i) ⊎ IsIpv6 (packet_at blk i))
      → stripped (
          get_or
            (packets (block_len v) (sources ops sctx crypto rand v used buffers))
            i
            (record { bytes = []; len = 0 }))
        ≡ packet_at blk i
  source_block i p ip =
      let src = sources-IsSource ops sctx crypto rand v used buffers in
      let l = block_len v in
      let x = packet_at blk i in
      let zeros : List ℕ = replicate (l - get_or blk.pkt_len i 0) 0 in
      let pkt = get_or blk.pkts i [] in
      let inside : i < k = omega (arith, v.count) in
      let fits = fits_each v i p in
      let room = width v i inside in
      let bytes : take l (get_or (sources ops sctx crypto rand v used buffers) i []) ≡ x ++ zeros =
        ap (take l) (get_or-take k i (prepared blk k).pkts [] inside ∙ prepared_pkt v i p)
        ∙ pad_block blk.pkt_len l i pkt room fits in
      let size : l ≡ length (x ++ zeros) = omega (
        arith,
        length-append x zeros,
        length-take (get_or blk.pkt_len i 0) pkt,
        length-replicate {A = ℕ} (l - get_or blk.pkt_len i 0) 0,
      ) in
      let are_bytes : AreBytes (x ++ zeros) =
        append-AreBytes x zeros (take_bytes (get_or blk.pkt_len i 0) pkt (v.are_bytes i))
          (zero_bytes (l - get_or blk.pkt_len i 0)) in
      ap stripped (
        get_or-map block_packet (sources ops sctx crypto rand v used buffers) i []
          (record { bytes = []; len = 0 }) (omega (arith, src.count))
        ∙ ap₂ (λ (b : List ℕ) (m : ℕ). record { bytes = b; len = m }) bytes size)
      ∙ stripped-padded x zeros are_bytes (omega (arith, size, block_len_small v)) ip

  -- Let some of the datagrams of a block that waits to be sent arrive, each any number of times and
  -- in any order, when the arrays at both ends are large enough. If `k` different shards have
  -- arrived, and the coefficients of the first `k` of them are linearly independent, `try_decode`
  -- decodes the block, and what it writes to the TUN device begins with the packets that were added
  -- to the block, in their order, each that is an IPv4 or IPv6 packet of the length in its header
  -- as it was added.
  pub try_decode-tx_block :
      {stack : List (List ℕ)} (picks : List ℕ)
      → IsStack k (block_len v) stack
      → Every (λ i. i < n) picks
      → k ≤ (fed_slot picks).recv_count
      → ¬ IsDependent k (k_shards (fed_slot picks) k)
      → ((try_decode stack (fed_slot picks) k).newly ≡ true)
        × (length (try_decode stack (fed_slot picks) k).written ≡ k)
        × ((i : ℕ)
            → i < blk.pkt_count
            → (IsIpv4 (packet_at blk i) ⊎ IsIpv6 (packet_at blk i))
            → get_or (try_decode stack (fed_slot picks) k).written i [] ≡ packet_at blk i)
  try_decode-tx_block picks mem valid enough free =
      let src = sources-IsSource ops sctx crypto rand v used buffers in
      let fed =
        arrive_all-IsFed (record zero_block { block_id = blk.block_id }) picks valid
          (zero_block-IsFed k (block_len v) (sources ops sctx crypto rand v used buffers)
            blk.block_id) in
      let runs = try_decode-delivers src mem fed.is_slot fed.fresh enough fed.each free in
      let blocks = packets (block_len v) (sources ops sctx crypto rand v used buffers) in
      let size : length blocks ≡ k =
        length-map (λ (x : List ℕ). block_packet x) (sources ops sctx crypto rand v used buffers)
        ∙ src.count in
      rw runs (
        refl,
        length-map stripped blocks ∙ size,
        λ i p ip.
            get_or-map stripped blocks i (record { bytes = []; len = 0 }) []
              (omega (arith, size, v.count))
            ∙ source_block i p ip,
      )
