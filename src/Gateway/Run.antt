-- ===== src/Gateway/Run.antt =====
-- The states that the loop of src/main.c reaches.
use coding_gateway.Base.{
  ℕ, ◌^◌, ◌≤◌, ◌<◌, ◌≡◌, ◌≢◌, refl, sym, ap, ◌∙◌, arith, List, Bool, true, false, not, ◌&&◌, Option,
  none, some, if◌then◌else◌, Bool-cases, Option-cases, inl, inr, pos_part,
}
use mathlib.Core.Path.{subst}
use coding_gateway.Limits.{max_k, max_window}
use coding_gateway.Float.{FloatOps}
use coding_gateway.Config.{GatewayConfig}
use coding_gateway.Config.Load.{config_load}
use coding_gateway.Config.Bounds.{IsLoaded, config_load-IsLoaded}
use coding_gateway.Codec.{Shard}
use coding_gateway.Crypto.{CryptoCtx}
use coding_gateway.Wire.{WireHeader}
use coding_gateway.Strategy.{StrategyCtx}
use coding_gateway.Strategy.Init.{strategy_init}
use coding_gateway.Strategy.Invariant.{IsStrategy, init-IsStrategy}
use coding_gateway.Transport.{TransportCtx, data_shard, probe, transport_recv}
use coding_gateway.Metrics.{DoubleOps}
use coding_gateway.Rx.{RxWindow}
use coding_gateway.Rx.Window.{rx_window_insert, rx_window_try_decode, rx_window_advance}
use coding_gateway.Rx.Invariant.{
  IsWindow, init-IsWindow, rx_window-IsWindow, rx_window_advance-IsWindow,
}
use coding_gateway.Rx.Window.Advance.{IsNear, rx_window_advance-terminates}
use coding_gateway.Tx.{Timeval, tx_block_init}
use coding_gateway.Tx.Queue.{tx_block_init-IsTx}
use coding_gateway.Gateway.{
  Gateway, Turn, IsRead, is_rx, read_tun, flush_late, take_shard, take_probe, receive, send_probes,
  do_reload, then_probes, iterate, start_gateway, Reached, begin, next,
}
use coding_gateway.Gateway.Invariant.{
  IsGateway, read_tun-IsGateway, flush_late-IsGateway, take_probe-IsGateway, send_probes-IsGateway,
  do_reload-IsGateway,
}

some_inj {ℓ} : {A : Type ℓ} {a b : A} → some a ≡ some b → a ≡ b
some_inj e = cc

none-ne-some {ℓ} : {A : Type ℓ} {a : A} → none ≢ some a
none-ne-some e = cc

ends {ℓ} :
    {A : Type ℓ} (a b c : Bool) (x y z w : Option A)
    → ((v : A) × (x ≡ some v))
    → ((v : A) × (y ≡ some v))
    → ((v : A) × (z ≡ some v))
    → ((v : A) × (w ≡ some v))
    → (v : A) × ((if a then x else if b then y else if c then z else w) ≡ some v)
ends true b c x y z w p q r s = p
ends false true c x y z w p q r s = q
ends false false true x y z w p q r s = r
ends false false false x y z w p q r s = s

module _ {F D : Type 0} (ops : FloatOps F) (crypto : CryptoCtx) (tctx : TransportCtx) where
  -- The window before it advances.
  abbrev pub decoded_window : Turn → WireHeader → Shard → Gateway F D → RxWindow
  decoded_window r hdr s st =
      let w = pos_part st.cfg.window_size in
      (rx_window_try_decode r.stack (rx_window_insert st.rx_win hdr s w crypto r.insert_us)
        hdr.block_id hdr.k w).window

  decoded-IsWindow :
      (r : Turn) (hdr : WireHeader) (s : Shard) (st : Gateway F D)
      → IsGateway st
      → IsWindow (decoded_window r hdr s st)
  decoded-IsWindow r hdr s st v =
      let (n, e, low, high) = v.window_ok in
      let w = pos_part st.cfg.window_size in
      let small : w ≤ max_window = omega (arith, ap pos_part e) in
      let win = rx_window_insert st.rx_win hdr s w crypto r.insert_us in
      let inserted =
        (rx_window-IsWindow st.rx_win hdr s crypto r.insert_us hdr.block_id hdr.k w r.stack small
          v.rx_ok).1 in
      (rx_window-IsWindow win hdr s crypto r.insert_us hdr.block_id hdr.k w r.stack small
        inserted).2

  take_shard-IsGateway :
      (r : Turn) (hdr : WireHeader) (s : Shard) (path : ℕ) (st st' : Gateway F D)
      → IsGateway st
      → take_shard ops crypto tctx r hdr s path st ≡ some st'
      → IsGateway st'
  unfolding take_shard
  take_shard-IsGateway r hdr s path st st' v e =
      let (n, w_is, low, high) = v.window_ok in
      let w = pos_part st.cfg.window_size in
      let small : w ≤ max_window = omega (arith, ap pos_part w_is) in
      let win = decoded_window r hdr s st in
      elim (Option-cases (rx_window_advance r.fuel r.advance_us 0 win w)) [
        | inl h ↦ absurd (none-ne-some (rw (h, take_shard) at e))
        | inr (out, h) ↦ subst IsGateway (some_inj (rw (h, take_shard) at e)) (record {
          k_ok = v.k_ok;
          window_ok = v.window_ok;
          tx_ok = v.tx_ok;
          tx_free = v.tx_free;
          rx_ok =
              rx_window_advance-IsWindow r.fuel r.advance_us 0 win w out small
                (decoded-IsWindow r hdr s st v) h;
          strategy_ok = v.strategy_ok;
        })
      ]

  receive-IsGateway :
      (r : Turn) (st st' : Gateway F D)
      → IsGateway st
      → receive ops crypto tctx r st ≡ some st'
      → IsGateway st'
  unfolding receive
  receive-IsGateway r st st' v e =
      elim (Option-cases (transport_recv tctx r.readable r.received r.shard_in)) [
        | inl h ↦ subst IsGateway (some_inj (rw (h, receive) at e)) v
        | inr (data_shard hdr s path, h) ↦ elim (Bool-cases (is_rx ops crypto tctx st)) [
          | inl on ↦ take_shard-IsGateway r hdr s path st st' v (rw (h, on, receive) at e)
          | inr off ↦ subst IsGateway (some_inj (rw (h, off, receive) at e)) v
        ]
        | inr (probe hdr ts path, h) ↦
            subst IsGateway (some_inj (rw (h, receive) at e))
              (take_probe-IsGateway ops crypto tctx r hdr ts path st v)
      ]

  -- An iteration of the loop that ends keeps the state consistent.
  iterate-IsGateway :
      (r : Turn) (st st' : Gateway F D)
      → IsRead r
      → IsGateway st
      → iterate ops crypto tctx r st ≡ some st'
      → IsGateway st'
  unfolding iterate
  iterate-IsGateway r st st' read v e = elim (Bool-cases (r.failed && not r.running)) [
    | inl stop ↦ subst IsGateway (some_inj (rw stop at e)) v
    | inr go ↦ elim (Bool-cases r.reload_flag) [
      | inl reload ↦
          subst IsGateway (some_inj (rw (go, reload) at e))
            (do_reload-IsGateway ops crypto tctx r.file st v)
      | inr keep ↦ elim (Bool-cases r.failed) [
        | inl failed ↦ subst IsGateway (some_inj (rw (failed, rw failed at go, keep) at e)) v
        | inr ready ↦ body (rw (ready, keep) at e)
      ]
    ]
  ]
    where
      sent : Gateway F D
      sent = flush_late ops crypto tctx r (read_tun ops crypto tctx r st)

      sent-IsGateway : IsGateway sent
      sent-IsGateway =
          flush_late-IsGateway ops crypto tctx r (read_tun ops crypto tctx r st)
            (read_tun-IsGateway ops crypto tctx r st read.small read.are_bytes v)

      body :
          then_probes ops crypto tctx r (receive ops crypto tctx r sent) ≡ some st' → IsGateway st'
      body h = elim (Option-cases (receive ops crypto tctx r sent)) [
        | inl none_left ↦ absurd (none-ne-some (rw none_left at h))
        | inr (after, got) ↦ subst IsGateway (some_inj (rw got at h)) (
            send_probes-IsGateway ops crypto tctx r after
              (receive-IsGateway r sent after sent-IsGateway got))
      ]

  start-IsGateway :
      (doubles : DoubleOps D) (file : List ℕ) (cfg : GatewayConfig F) (sctx : StrategyCtx F)
      (now : Timeval)
      → config_load ops (some file) ≡ some cfg
      → strategy_init ops true cfg ≡ some sctx
      → IsGateway (start_gateway doubles cfg sctx now)
  unfolding start_gateway tx_block_init
  start-IsGateway doubles file cfg sctx now loaded made =
      let (failing, (loaded_cfg, e, ok)) = config_load-IsLoaded ops file in
      let v = subst IsLoaded (some_inj (sym e ∙ loaded)) ok in
      let (n, k_is, low, high) = v.k_ok in
      let positive : 0 < pos_part cfg.k = omega (arith, ap pos_part k_is) in
      let small : pos_part cfg.k ≤ max_k = omega (arith, ap pos_part k_is) in
      let (fresh, init, fits) = init-IsStrategy ops cfg v.stored.paths.few in
      record {
        k_ok = v.k_ok;
        window_ok = v.window_ok;
        tx_ok = tx_block_init-IsTx (pos_part cfg.k) 0 small;
        tx_free = positive;
        rx_ok = init-IsWindow;
        strategy_ok = subst IsStrategy (some_inj (sym init ∙ made)) fits;
      }

  -- Let the loop start with a configuration that `config_load` gives and the context that
  -- `strategy_init` makes of it. In every state that it reaches, after any iterations in which
  -- `tun_read` stores at most 1400 bytes, `k` and the window size are within their bounds, the
  -- block, the receive window and the strategy are consistent, and the block has room for a packet.
  pub Reached-IsGateway :
      (doubles : DoubleOps D) (file : List ℕ) (cfg : GatewayConfig F) (sctx : StrategyCtx F)
      (now : Timeval) (st : Gateway F D)
      → config_load ops (some file) ≡ some cfg
      → strategy_init ops true cfg ≡ some sctx
      → Reached ops crypto tctx (start_gateway doubles cfg sctx now) st
      → IsGateway st
  Reached-IsGateway doubles file cfg sctx now st loaded made begin =
      start-IsGateway doubles file cfg sctx now loaded made
  Reached-IsGateway doubles file cfg sctx now st loaded made
        (next {st = before} r before_reached read e) =
      iterate-IsGateway r before st read
        (Reached-IsGateway doubles file cfg sctx now before loaded made before_reached) e

  -- The state of an iteration when it comes to the datagram.
  abbrev pub before_datagram : Turn → Gateway F D → Gateway F D
  before_datagram r st = flush_late ops crypto tctx r (read_tun ops crypto tctx r st)

  take_shard_ends :
      (n : ℕ) (r : Turn) (hdr : WireHeader) (s : Shard) (path : ℕ) (st : Gateway F D)
      → n < 2 ^ 31
      → n < r.fuel
      → IsNear n (pos_part st.cfg.window_size) (decoded_window r hdr s st)
      → (after : Gateway F D) × (take_shard ops crypto tctx r hdr s path st ≡ some after)
  unfolding take_shard
  take_shard_ends n r hdr s path st small enough near =
      let (out, runs, settled) =
        rx_window_advance-terminates n r.fuel r.advance_us 0 (decoded_window r hdr s st)
          (pos_part st.cfg.window_size) small enough near in
      elim (Option-cases (take_shard ops crypto tctx r hdr s path st)) [
        | inl e ↦ absurd (none-ne-some (sym (rw (runs, take_shard) at e)))
        | inr ended ↦ ended
      ]

  receive_ends :
      (n : ℕ) (r : Turn) (st : Gateway F D)
      → n < 2 ^ 31
      → n < r.fuel
      → ((hdr : WireHeader) (s : Shard) (path : ℕ)
          → transport_recv tctx r.readable r.received r.shard_in ≡ some (data_shard hdr s path)
          → IsNear n (pos_part st.cfg.window_size) (decoded_window r hdr s st))
      → (after : Gateway F D) × (receive ops crypto tctx r st ≡ some after)
  unfolding receive
  receive_ends n r st small enough near =
      elim (Option-cases (transport_recv tctx r.readable r.received r.shard_in)) [
        | inl h ↦ (st, rw (h, receive) refl)
        | inr (data_shard hdr s path, h) ↦ elim (Bool-cases (is_rx ops crypto tctx st)) [
          | inr off ↦ (st, rw (h, off, receive) refl)
          | inl on ↦
              let (after, ends) =
                take_shard_ends n r hdr s path st small enough (near hdr s path h) in
              (after, rw (h, on, receive) ends)
        ]
        | inr (probe hdr ts path, h) ↦
            (take_probe ops crypto tctx r hdr ts path st, rw (h, receive) refl)
      ]

  -- If every block in the receive window, after a shard that arrives is inserted, is less than `n`
  -- ahead of its base, or far enough behind it, an iteration ends with fuel above `n` for
  -- `rx_window_advance`. Without a shard it ends in any case.
  pub iterate-terminates :
      (n : ℕ) (r : Turn) (st : Gateway F D)
      → n < 2 ^ 31
      → n < r.fuel
      → ((hdr : WireHeader) (s : Shard) (path : ℕ)
          → transport_recv tctx r.readable r.received r.shard_in ≡ some (data_shard hdr s path)
          → IsNear n
              (pos_part (before_datagram r st).cfg.window_size)
              (decoded_window r hdr s (before_datagram r st)))
      → (st' : Gateway F D) × (iterate ops crypto tctx r st ≡ some st')
  unfolding iterate
  iterate-terminates n r st small enough near =
      ends (r.failed && not r.running) r.reload_flag r.failed _ _ _ _ (st, refl)
        (do_reload ops crypto tctx r.file st, refl) (st, refl) probed
    where
      probed :
          (st' : Gateway F D) × (then_probes ops crypto tctx r
              (receive ops crypto tctx r (before_datagram r st))
            ≡ some st')
      probed =
          let (after, got) = receive_ends n r (before_datagram r st) small enough near in
          (send_probes ops crypto tctx r after, ap (then_probes ops crypto tctx r) got)
