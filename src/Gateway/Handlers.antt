-- ===== src/Gateway/Handlers.antt =====
-- The handlers of src/main.c for packets and for probes.
use coding_gateway.Base.{
  ℕ, List, ltb, Bool-cases, ◌+◌, ◌<◌, ◌≡◌, refl, ap, ◌∙◌, arith, [], ◌∷◌, ◌++◌, true, lt→ltb, leb,
  ◌⊎◌, inl, inr, length, take_of_ge, pos_part,
}
use coding_gateway.Float.{FloatOps}
use coding_gateway.Crypto.{CryptoCtx}
use coding_gateway.Transport.{TransportCtx, Datagram}
use coding_gateway.Tx.{Timeval, TxBlock, tx_block_init, tx_block_add_pkt, shard_count, coded}
use coding_gateway.Tx.Queue.{queued, length-snoc, length-queued_upto, tx_block_add_pkt-enqueue}
use coding_gateway.Gateway.{Gateway, Turn, IsRead, is_tx, flush_block, read_tun}
use coding_gateway.Tx.Loop.{IsReady, Carry, tx_block_flush-Carry}
use coding_gateway.Strategy.{strategy_compute_n}
use coding_gateway.Gateway.Invariant.{IsGateway}

added_id :
    (now : Timeval) (blk : TxBlock) (pkt : List ℕ) (len k : ℕ)
    → (tx_block_add_pkt now blk pkt len k).0.block_id ≡ blk.block_id
unfolding tx_block_add_pkt
added_id now blk pkt len k = elim (Bool-cases (ltb blk.pkt_count k)) [
  | inl e ↦ rw e refl
  | inr e ↦ rw e refl
]

module _ {F D : Type 0} (ops : FloatOps F) (crypto : CryptoCtx) (tctx : TransportCtx) where
  -- Let a transmitting gateway in a consistent state, with some path usable and a socket for every
  -- usable path, read a packet of 1 to 1400 bytes. The packet is put behind the packets that wait.
  -- If the block is not full then, nothing else changes. If it is, the kernel is given one datagram
  -- for each shard of the block with the packet, in order, and the next block starts empty with the
  -- next id.
  pub read_tun-queued :
      (r : Turn) (st : Gateway F D)
      → IsGateway st
      → IsRead r
      → is_tx ops crypto tctx st ≡ true
      → 0 < length r.packet
      → IsReady ops tctx st.sctx
      → (b : TxBlock) × (queued b ≡ queued st.tx ++ (r.packet ∷ []))
        × (b.block_id ≡ st.tx.block_id)
        × (((length (queued b) < pos_part st.cfg.k)
              × (read_tun ops crypto tctx r st ≡ record st { tx = b }))
            ⊎ ((length (queued b) ≡ pos_part st.cfg.k)
                × ((new : List Datagram) × ((read_tun ops crypto tctx r st).calls ≡ st.calls ++ new)
                    × (length new
                        ≡ shard_count (strategy_compute_n ops st.sctx (pos_part st.cfg.k)))
                    × Carry b.block_id
                        (pos_part st.cfg.k)
                        (shard_count (strategy_compute_n ops st.sctx (pos_part st.cfg.k)))
                        (coded ops st.sctx b (pos_part st.cfg.k) crypto r.full.rand r.full.out)
                        0
                        new)
                × (queued (read_tun ops crypto tctx r st).tx ≡ [])
                × ((read_tun ops crypto tctx r st).tx.block_id ≡ st.next_block_id)))
  unfolding read_tun flush_block tx_block_init
  read_tun-queued r st v read on some_bytes ready =
      let k = pos_part st.cfg.k in
      let len = length r.packet in
      let q = queued st.tx in
      let size : length q ≡ st.tx.pkt_count = length-queued_upto st.tx st.tx.pkt_count in
      let (b, full) = tx_block_add_pkt r.add_time st.tx r.packet len k in
      let stored : (queued b, full) ≡ (q ++ (r.packet ∷ []), leb k (length q + 1)) =
        (tx_block_add_pkt-enqueue r.add_time v.tx_ok r.packet len (omega arith) read.small
          read.are_bytes 0).2
        ∙ rw
            (
              take_of_ge len r.packet (omega arith),
              lt→ltb (length q) k (omega (arith, size, v.tx_free)),
            )
            refl in
      let longer : length (queued b) ≡ length q + 1 =
        ap (λ t. length t.0) stored ∙ length-snoc q r.packet in
      let is_full : full ≡ leb k (length q + 1) = ap (λ t. t.1) stored in
      let counted : length (queued b) ≡ b.pkt_count = length-queued_upto b b.pkt_count in
      (
        b,
        ap (λ t. t.0) stored,
        added_id r.add_time st.tx r.packet len k,
        elim (Bool-cases full) [
          | inr free ↦
              inl (
                (ground (arith, is_full, longer, free)),
                rw (on, lt→ltb 0 len some_bytes, free) refl,
              )
          | inl closed ↦
              let sent =
                tx_block_flush-Carry ops r.full.sendto r.full.rand r.full.out b tctx
                  (record { sctx = st.sctx; metrics = st.metrics; calls = st.calls }) k crypto
                  (omega (arith, counted, longer)) ready in
              inr (
                ground (arith, is_full, longer, closed, size, v.tx_free),
                rw (on, lt→ltb 0 len some_bytes, closed) sent,
                rw (on, lt→ltb 0 len some_bytes, closed) refl,
                rw (on, lt→ltb 0 len some_bytes, closed) refl,
              )
        ],
      )
