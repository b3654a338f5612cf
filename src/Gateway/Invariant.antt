-- ===== src/Gateway/Invariant.antt =====
-- What the loop of src/main.c keeps true.
use coding_gateway.Base.{
  ℕ, zero, suc, ◌+◌, ◌-◌, ◌%◌, ◌^◌, ◌≤◌, ◌<◌, ◌≡◌, ap, arith, List, true, false, ◌&&◌, Option, ltb,
  leb, ◌==◌, Bool-cases, Option-cases, inl, inr, length, AreBytes, pos, pos_part, leb_ℤ,
}
use coding_gateway.Limits.{max_k, max_window, max_payload}
use coding_gateway.Float.{FloatOps}
use coding_gateway.Config.Load.{config_load}
use coding_gateway.Config.Stored.{IsBetween}
use coding_gateway.Codec.{Shard}
use coding_gateway.Crypto.{CryptoCtx}
use coding_gateway.Wire.{WireHeader, type_probe}
use coding_gateway.Strategy.{StrategyCtx, strategy_next_path, strategy_compute_n}
use coding_gateway.Strategy.Invariant.{
  IsStrategy, next-IsStrategy, update-IsStrategy, reload-IsStrategy,
}
use coding_gateway.Transport.{TransportCtx, Datagram}
use coding_gateway.Rx.Invariant.{IsWindow}
use coding_gateway.Tx.{
  Timeval, TxBlock, Sending, tx_block_init, tx_block_add_pkt, tx_block_needs_flush, elapsed_ms,
  send_one, send_shards, shard_count, coded, tx_block_flush,
}
use coding_gateway.Tx.Queue.{IsTx, tx_block_init-IsTx, tx_block_add_pkt-enqueue}
use coding_gateway.Gateway.{
  Gateway, Flush, Turn, is_tx, flush_block, read_tun, flush_late, take_probe, probe_paths,
  send_probes, do_reload,
}

-- The bounds of the configuration, and every component consistent; the block has room for a
-- packet.
pub record IsGateway {F D : Type 0} (st : Gateway F D) : Type 0 where
  pub k_ok : IsBetween max_k st.cfg.k
  pub window_ok : IsBetween max_window st.cfg.window_size
  pub tx_ok : IsTx (pos_part st.cfg.k) st.tx
  pub tx_free : st.tx.pkt_count < pos_part st.cfg.k
  pub rx_ok : IsWindow st.rx_win
  pub strategy_ok : IsStrategy st.sctx

added_free :
    (now : Timeval) (blk : TxBlock) (pkt : List ℕ) (len k : ℕ)
    → (tx_block_add_pkt now blk pkt len k).1 ≡ false
    → (tx_block_add_pkt now blk pkt len k).0.pkt_count < k
unfolding tx_block_add_pkt
added_free now blk pkt len k h = elim (Bool-cases (ltb blk.pkt_count k)) [
  | inl e ↦ let room : leb k (blk.pkt_count + 1) ≡ false = rw e at h in rw e (ground arith)
  | inr e ↦ let room : leb k blk.pkt_count ≡ false = rw e at h in rw e (ground arith)
]

module _ {F D : Type 0} (ops : FloatOps F) where
  module _ (sendto : ℕ → Datagram → Option ℕ) (tctx : TransportCtx) (block_id k n : ℕ)
      (shards : List Shard) where
    send_one-IsStrategy :
        (i : ℕ) (st : Sending F D)
        → IsStrategy st.sctx
        → IsStrategy (send_one ops sendto tctx block_id k n shards i st).sctx
    unfolding send_one
    send_one-IsStrategy i st v = elim (Option-cases (strategy_next_path ops st.sctx).1) [
      | inl e ↦ rw (e, send_one) (next-IsStrategy ops st.sctx v)
      | inr (path, e) ↦ rw (e, send_one) (next-IsStrategy ops st.sctx v)
    ]

    send_shards-IsStrategy :
        (left i : ℕ) (st : Sending F D)
        → IsStrategy st.sctx
        → IsStrategy (send_shards ops sendto tctx block_id k n shards left i st).sctx
    unfolding send_shards
    send_shards-IsStrategy zero i st v = v
    send_shards-IsStrategy (suc left) i st v =
        send_shards-IsStrategy left (i + 1) (send_one ops sendto tctx block_id k n shards i st)
          (send_one-IsStrategy i st v)

  flush-IsStrategy :
      (sendto : ℕ → Datagram → Option ℕ) (rand : ℕ → ℕ) (out : List Shard) (blk : TxBlock)
      (tctx : TransportCtx) (st : Sending F D) (k : ℕ) (crypto : CryptoCtx)
      → IsStrategy st.sctx
      → IsStrategy (tx_block_flush ops sendto rand out blk tctx st k crypto).1.sctx
  unfolding tx_block_flush
  flush-IsStrategy sendto rand out blk tctx st k crypto v = elim (Bool-cases (blk.pkt_count == 0)) [
    | inl e ↦ rw e v
    | inr e ↦
        let n = shard_count (strategy_compute_n ops st.sctx k) in
        rw e (
          send_shards-IsStrategy sendto tctx blk.block_id k n
            (coded ops st.sctx blk k crypto rand out) n 0 st v)
  ]

  module _ (crypto : CryptoCtx) (tctx : TransportCtx) where
    flush_block-IsGateway :
        (f : Flush) (st : Gateway F D)
        → IsBetween max_k st.cfg.k
        → IsBetween max_window st.cfg.window_size
        → IsWindow st.rx_win
        → IsStrategy st.sctx
        → IsGateway (flush_block ops crypto tctx f st)
    unfolding flush_block tx_block_init
    flush_block-IsGateway f st k_ok window_ok rx_ok strategy_ok =
        let (n, e, low, high) = k_ok in
        let k_is : pos_part st.cfg.k ≡ n = ap pos_part e in
        record {
          k_ok = k_ok;
          window_ok = window_ok;
          tx_ok = tx_block_init-IsTx (pos_part st.cfg.k) st.next_block_id (omega (arith, k_is));
          tx_free = omega (arith, k_is);
          rx_ok = rx_ok;
          strategy_ok =
              flush-IsStrategy f.sendto f.rand f.out st.tx tctx
                (record { sctx = st.sctx; metrics = st.metrics; calls = st.calls })
                (pos_part st.cfg.k) crypto strategy_ok;
        }

    pub read_tun-IsGateway :
        (r : Turn) (st : Gateway F D)
        → length r.packet ≤ max_payload
        → AreBytes r.packet
        → IsGateway st
        → IsGateway (read_tun ops crypto tctx r st)
    unfolding read_tun
    read_tun-IsGateway r st small bytes v =
        let added =
          tx_block_add_pkt r.add_time st.tx r.packet (length r.packet) (pos_part st.cfg.k) in
        let added-IsTx =
          (tx_block_add_pkt-enqueue r.add_time v.tx_ok r.packet (length r.packet) (omega arith)
            small bytes 0).1 in
        elim (Bool-cases (is_tx ops crypto tctx st && ltb 0 (length r.packet))) [
          | inr e ↦ rw e v
          | inl e ↦ elim (Bool-cases added.1) [
            | inl full ↦
                rw (e, full)
                  (flush_block-IsGateway r.full (record st { tx = added.0 }) v.k_ok v.window_ok
                    v.rx_ok v.strategy_ok)
            | inr room ↦
                rw (e, room)
                  (record {
                    k_ok = v.k_ok;
                    window_ok = v.window_ok;
                    tx_ok = added-IsTx;
                    tx_free =
                        added_free r.add_time st.tx r.packet (length r.packet) (pos_part st.cfg.k)
                          room;
                    rx_ok = v.rx_ok;
                    strategy_ok = v.strategy_ok;
                  })
          ]
        ]

    pub flush_late-IsGateway :
        (r : Turn) (st : Gateway F D) → IsGateway st → IsGateway (flush_late ops crypto tctx r st)
    unfolding flush_late
    flush_late-IsGateway r st v =
        elim (Bool-cases (
          is_tx ops crypto tctx st
          && tx_block_needs_flush r.flush_time st.tx st.cfg.block_timeout_ms)) [
            | inl e ↦
                rw e (flush_block-IsGateway r.late st v.k_ok v.window_ok v.rx_ok v.strategy_ok)
            | inr e ↦ rw e v
          ]

    -- The strategy alone has changed.
    with_strategy :
        (st : Gateway F D) (sctx : StrategyCtx F) (calls : List Datagram) (last : Timeval)
        → IsGateway st
        → IsStrategy sctx
        → IsGateway (record st { sctx = sctx; calls = calls; last_probe = last })
    with_strategy st sctx calls last v s = record {
      k_ok = v.k_ok;
      window_ok = v.window_ok;
      tx_ok = v.tx_ok;
      tx_free = v.tx_free;
      rx_ok = v.rx_ok;
      strategy_ok = s;
    }

    pub take_probe-IsGateway :
        (r : Turn) (hdr : WireHeader) (ts path : ℕ) (st : Gateway F D)
        → IsGateway st
        → IsGateway (take_probe ops crypto tctx r hdr ts path st)
    unfolding take_probe
    take_probe-IsGateway r hdr ts path st v = elim (Bool-cases (hdr.kind == type_probe)) [
      | inl e ↦ rw e (with_strategy st st.sctx _ st.last_probe v v.strategy_ok)
      | inr e ↦ elim (Bool-cases (is_tx ops crypto tctx st)) [
        | inl f ↦
            rw (e, f)
              (with_strategy st _ st.calls st.last_probe v (
                update-IsStrategy ops st.sctx (pos path) ((r.echo_us + 2 ^ 64 - ts) % 2 ^ 64) true
                  v.strategy_ok))
        | inr f ↦ rw (e, f) v
      ]
    ]

    probe_paths-IsGateway :
        (r : Turn) (left p : ℕ) (st : Gateway F D)
        → IsGateway st
        → IsGateway (probe_paths ops crypto tctx r left p st)
    unfolding probe_paths
    probe_paths-IsGateway r zero p st v = v
    probe_paths-IsGateway r (suc left) p st v = elim (Bool-cases (st.sctx.paths p).alive) [
      | inl e ↦
          rw (e, probe_paths)
            (probe_paths-IsGateway r left (p + 1) _ (
              with_strategy st _ _ st.last_probe v
                (record { fits = v.strategy_ok.fits; room = v.strategy_ok.room })))
      | inr e ↦ rw (e, probe_paths) (probe_paths-IsGateway r left (p + 1) st v)
    ]

    pub send_probes-IsGateway :
        (r : Turn) (st : Gateway F D) → IsGateway st → IsGateway (send_probes ops crypto tctx r st)
    unfolding send_probes
    send_probes-IsGateway r st v =
        let later = probe_paths-IsGateway r st.sctx.path_count 0 st v in
        let there = probe_paths ops crypto tctx r st.sctx.path_count 0 st in
        elim (Bool-cases (
          is_tx ops crypto tctx st
          && leb_ℤ st.cfg.probe_interval_ms (elapsed_ms r.probe_time st.last_probe))) [
            | inl e ↦
                rw e
                  (with_strategy there there.sctx there.calls r.probe_time later later.strategy_ok)
            | inr e ↦ rw e v
          ]

    pub do_reload-IsGateway :
        (file : Option (List ℕ)) (st : Gateway F D)
        → IsGateway st
        → IsGateway (do_reload ops crypto tctx file st)
    unfolding do_reload
    do_reload-IsGateway file st v = elim (Option-cases (config_load ops file)) [
      | inl e ↦ rw (e, do_reload) v
      | inr (cfg, e) ↦
          rw (e, do_reload)
            (record {
              k_ok = v.k_ok;
              window_ok = v.window_ok;
              tx_ok = v.tx_ok;
              tx_free = v.tx_free;
              rx_ok = v.rx_ok;
              strategy_ok = reload-IsStrategy ops st.sctx cfg v.strategy_ok;
            })
    ]
