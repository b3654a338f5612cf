-- ===== src/Gateway.antt =====
-- The event loop of src/main.c. What the kernel, the clocks, rand() and uninitialised arrays give in
-- one iteration is an argument, and what the iteration sends or writes is a part of the state. The
-- request of the metrics and log lines are left out.
pub mod Invariant
pub mod Run
pub mod Handlers
pub mod Setup
mod Tests
use coding_gateway.Base.{
  ℕ, zero, suc, ◌+◌, ◌-◌, ◌%◌, ◌^◌, List, [], ◌∷◌, ◌++◌, Bool, true, false, not, ◌&&◌, ◌||◌, Option,
  none, some, ltb, ◌==◌, if◌then◌else◌, length, ℤ, pos, pos_part, leb_ℤ, ◌≡◌, ◌≤◌, AreBytes,
}
use coding_gateway.Limits.{max_payload}
use coding_gateway.Float.{FloatOps}
use coding_gateway.Config.{GatewayConfig}
use coding_gateway.Config.Text.{codes, same_text}
use coding_gateway.Config.Load.{config_load}
use coding_gateway.Codec.{Shard}
use coding_gateway.Crypto.{CryptoCtx}
use coding_gateway.Wire.{WireHeader, type_probe}
use coding_gateway.Strategy.{StrategyCtx, PathState}
use coding_gateway.Strategy.Init.{strategy_update_probe}
use coding_gateway.Strategy.Reload.{strategy_reload}
use coding_gateway.Transport.{
  TransportCtx, Datagram, Received, data_shard, probe, transport_recv, transport_send_probe,
  transport_send_probe_echo,
}
use coding_gateway.Metrics.{Metrics, DoubleOps, count_up, bump, zero_metrics}
use coding_gateway.Rx.{RxWindow, rx_window_init}
use coding_gateway.Rx.Window.{rx_window_insert, rx_window_try_decode, rx_window_advance}
use coding_gateway.Tx.{
  Timeval, TxBlock, Sending, made, tx_block_init, tx_block_add_pkt, elapsed_ms,
  tx_block_needs_flush, tx_block_flush,
}

-- The locals of `main` that the loop changes, the counters, and the calls of `sendto` and
-- `tun_write` so far.
pub record Gateway (F D : Type 0) : Type 0 where
  pub cfg : GatewayConfig F
  pub sctx : StrategyCtx F
  pub metrics : Metrics D
  pub tx : TxBlock
  pub next_block_id : ℕ
  pub rx_win : RxWindow
  pub last_probe : Timeval
  pub calls : List Datagram
  pub written : List (List ℕ)

-- What a flush meets.
pub record Flush : Type 0 where
  pub sendto : ℕ → Datagram → Option ℕ
  pub rand : ℕ → ℕ
  pub out : List Shard

-- What an iteration meets: whether `select` fails, the flags that the signals set, the file of a
-- reload, the packet that `tun_read` gives (empty if none), the datagram that `recvfrom` gives, and the times.
pub record Turn : Type 0 where
  pub failed : Bool
  pub running : Bool
  pub reload_flag : Bool
  pub file : Option (List ℕ)
  pub packet : List ℕ
  pub add_time : Timeval
  pub full : Flush
  pub flush_time : Timeval
  pub late : Flush
  pub readable : Bool
  pub received : Option (List ℕ × ℕ)
  pub shard_in : Shard
  pub stack : List (List ℕ)
  pub insert_us : ℕ
  pub advance_us : ℕ → ℕ
  pub fuel : ℕ
  pub echo_us : ℕ
  pub probe_time : Timeval
  pub probe_us : ℕ
  pub answer : Datagram → Option ℕ

-- The state before the loop.
unfoldable pub start_gateway :
    {F D : Type 0} → DoubleOps D → GatewayConfig F → StrategyCtx F → Timeval → Gateway F D
start_gateway doubles cfg sctx now = record {
  cfg = cfg;
  sctx = sctx;
  metrics = zero_metrics doubles;
  tx = tx_block_init 0;
  next_block_id = 1;
  rx_win = rx_window_init;
  last_probe = now;
  calls = [];
  written = [];
}

-- `tun_read` stores at most `MAX_PAYLOAD` bytes.
pub record IsRead (r : Turn) : Type 0 where
  pub small : length r.packet ≤ max_payload
  pub are_bytes : AreBytes r.packet

module _ {F D : Type 0} (ops : FloatOps F) (crypto : CryptoCtx) (tctx : TransportCtx) where
  abbrev pub is_tx : Gateway F D → Bool
  is_tx st = same_text st.cfg.mode (codes "tx") || same_text st.cfg.mode (codes "both")

  abbrev pub is_rx : Gateway F D → Bool
  is_rx st = same_text st.cfg.mode (codes "rx") || same_text st.cfg.mode (codes "both")

  -- The pair of `tx_block_flush` and `tx_block_init`.
  unfoldable pub flush_block : Flush → Gateway F D → Gateway F D
  flush_block f st =
      let sent =
        (tx_block_flush ops f.sendto f.rand f.out st.tx tctx
          (record { sctx = st.sctx; metrics = st.metrics; calls = st.calls }) (pos_part st.cfg.k)
          crypto).1 in
      record st {
        sctx = sent.sctx;
        metrics = sent.metrics;
        calls = sent.calls;
        tx = tx_block_init st.next_block_id;
        next_block_id = (st.next_block_id + 1) % 2 ^ 32;
      }

  unfoldable pub read_tun : Turn → Gateway F D → Gateway F D
  unfolding flush_block
  read_tun r st =
      let added =
        tx_block_add_pkt r.add_time st.tx r.packet (length r.packet) (pos_part st.cfg.k) in
      if is_tx st && ltb 0 (length r.packet)
      then if added.1
        then flush_block r.full (record st { tx = added.0 })
        else record st { tx = added.0 }
      else st

  unfoldable pub flush_late : Turn → Gateway F D → Gateway F D
  unfolding flush_block
  flush_late r st =
      if is_tx st && tx_block_needs_flush r.flush_time st.tx st.cfg.block_timeout_ms
      then flush_block r.late st
      else st

  -- A data shard; none if the fuel of `rx_window_advance` runs out.
  unfoldable pub take_shard : Turn → WireHeader → Shard → ℕ → Gateway F D → Option (Gateway F D)
  take_shard r hdr s path st =
      let w = pos_part st.cfg.window_size in
      let win = rx_window_insert st.rx_win hdr s w crypto r.insert_us in
      let d = rx_window_try_decode r.stack win hdr.block_id hdr.k w in
      let m = record st.metrics { shards_received = bump st.metrics.shards_received path } in
      elim (rx_window_advance r.fuel r.advance_us 0 d.window w) [
        | none ↦ none
        | some advanced ↦ some (record st {
          rx_win = advanced;
          written = st.written ++ d.written;
          metrics = if d.newly then record m { decode_success = count_up m.decode_success } else m;
        })
      ]

  unfoldable pub take_probe : Turn → WireHeader → ℕ → ℕ → Gateway F D → Gateway F D
  take_probe r hdr ts path st =
      if hdr.kind == type_probe
      then record st {
        calls = st.calls ++ made (transport_send_probe_echo r.answer tctx path ts).1;
      }
      else if is_tx st
      then record st {
        sctx =
            strategy_update_probe ops st.sctx (pos path) ((r.echo_us + 2 ^ 64 - ts) % 2 ^ 64) true;
      }
      else st

  unfoldable pub receive : Turn → Gateway F D → Option (Gateway F D)
  unfolding take_shard take_probe
  receive r st = elim (transport_recv tctx r.readable r.received r.shard_in) [
    | none ↦ some st
    | some got ↦ elim got [
      | data_shard hdr s path ↦ if is_rx st then take_shard r hdr s path st else some st
      | probe hdr ts path ↦ some (take_probe r hdr ts path st)
    ]
  ]

  -- The loop over the paths from `p` on, with the number of paths left.
  unfoldable pub probe_paths : Turn → ℕ → ℕ → Gateway F D → Gateway F D
  probe_paths r zero p st = st
  probe_paths r (suc left) p st =
      let ps = st.sctx.paths p in
      let sent = record st {
        calls = st.calls ++ made (transport_send_probe r.answer tctx p r.probe_us).1;
        sctx = record st.sctx {
          paths = λ j.
              if j == p
              then record ps { probes_sent = (ps.probes_sent + 1) % 2 ^ 64 }
              else st.sctx.paths j;
        };
      } in
      probe_paths r left (p + 1) (if ps.alive then sent else st)

  unfoldable pub send_probes : Turn → Gateway F D → Gateway F D
  unfolding probe_paths
  send_probes r st =
      if is_tx st && leb_ℤ st.cfg.probe_interval_ms (elapsed_ms r.probe_time st.last_probe)
      then record (probe_paths r st.sctx.path_count 0 st) { last_probe = r.probe_time }
      else st

  unfoldable pub do_reload : Option (List ℕ) → Gateway F D → Gateway F D
  do_reload file st = elim (config_load ops file) [
    | none ↦ st
    | some new_cfg ↦ record st {
      sctx = strategy_reload ops new_cfg st.sctx;
      cfg = record st.cfg {
        redundancy_ratio = new_cfg.redundancy_ratio;
        probe_interval_ms = new_cfg.probe_interval_ms;
        probe_loss_threshold = new_cfg.probe_loss_threshold;
        block_timeout_ms = new_cfg.block_timeout_ms;
      };
    }
  ]

  abbrev pub then_probes : Turn → Option (Gateway F D) → Option (Gateway F D)
  then_probes r none = none
  then_probes r (some st) = some (send_probes r st)

  -- The loop body. After the `break` of a failed `select` nothing has changed.
  unfoldable pub iterate : Turn → Gateway F D → Option (Gateway F D)
  unfolding read_tun flush_late receive send_probes do_reload
  iterate r st =
      if r.failed && not r.running
      then some st
      else if r.reload_flag
      then some (do_reload r.file st)
      else if r.failed
      then some st
      else then_probes r (receive r (flush_late r (read_tun r st)))

  -- The states that the loop reaches from `start`.
  pub data Reached (start : Gateway F D) : Gateway F D → Type 0 where
    begin : Reached start start
    next :
        {st st' : Gateway F D} (r : Turn)
        → Reached start st
        → IsRead r
        → iterate r st ≡ some st'
        → Reached start st'

  -- The flush at the end of `main`.
  unfoldable pub drain : Flush → Gateway F D → Gateway F D
  unfolding flush_block
  drain f st = if is_tx st && ltb 0 st.tx.pkt_count then flush_block f st else st
