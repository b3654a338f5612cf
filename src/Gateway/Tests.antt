-- ===== src/Gateway/Tests.antt =====
-- A gateway in the mode `both` with one path: events of the loop, and the start.
use coding_gateway.Base.{
  ℕ, ◌+◌, ◌≡◌, refl, arith, List, [], ◌∷◌, ◌++◌, true, false, none, some, length, leb, replicate,
  Every-AreBytes, pos_part,
}
use coding_gateway.Base.{Option}
use coding_gateway.Float.Whole.{whole}
use coding_gateway.Config.{GatewayConfig}
use coding_gateway.Config.Text.{atoi, codes, same_text, lines, lines_within, trim, text, split_at}
use coding_gateway.Config.Load.{
  config_load, clamped, start_loading, load_lines, load_line, load_trimmed, load_header, load_pair,
  set_general, set_coding, set_current, set_path, defaults,
}
use coding_gateway.Crypto.{CryptoCtx}
use coding_gateway.Wire.{type_probe}
use coding_gateway.Strategy.{StrategyCtx}
use coding_gateway.Strategy.Init.{initial, strategy_init}
use coding_gateway.Transport.{TransportCtx, probe_datagram, transport_recv}
use coding_gateway.Metrics.{DoubleOps}
use coding_gateway.Tx.{Timeval, TxBlock}
use coding_gateway.Tx.Queue.{queued}
use coding_gateway.Gateway.{
  Gateway, Flush, Turn, IsRead, is_tx, read_tun, flush_late, receive, send_probes, iterate,
  start_gateway, begin, next,
}
use coding_gateway.Gateway.Invariant.{IsGateway}
use coding_gateway.Transport.Init.{times, transport_init, transport_free}
use coding_gateway.Gateway.Setup.{
  Setup, make_crypto, serve_metrics, metrics_listen, with_tun, with_config, set_up, closed_at_exit,
  closed_at_exit-set_up,
}
use coding_gateway.Tx.Loop.{IsReady, Carry}
use coding_gateway.Tx.{shard_count, coded}
use coding_gateway.Strategy.{is_usable, strategy_compute_n}
use coding_gateway.Strategy.Init.{init_path, zero_path}
use coding_gateway.Wire.{type_probe_echo}
use coding_gateway.Transport.{closed_path, Datagram}
use coding_gateway.Base.{get_or, zero, suc, ◌<◌, ◌⊎◌}
use coding_gateway.Gateway.Run.{Reached-IsGateway}
use coding_gateway.Gateway.Handlers.{read_tun-queued}

abbrev file : List ℕ
file =
    codes "[general]"
    ++ (10 ∷ codes "mode = both")
    ++ (10 ∷ codes "metrics_port = 9")
    ++ (10 ∷ codes "[coding]")
    ++ (10 ∷ codes "k = 1")
    ++ (10 ∷ codes "[path.lte]")
    ++ (10 ∷ codes "remote_port = 5001")
    ++ (10 ∷ [])

abbrev whole_doubles : DoubleOps ℕ
whole_doubles = record {
  of_u64 = λ n. n;
  plus = λ a b. a + b;
  over = λ a b. a;
  is_at_most = λ a b. leb a b;
  nought = 0;
}

abbrev cfg : GatewayConfig ℕ
cfg = clamped (load_lines whole (start_loading whole) (lines file)).cfg

loaded : config_load whole (some file) ≡ some cfg
unfolding config_load
loaded = refl

abbrev sctx : StrategyCtx ℕ
sctx = initial whole cfg

made_context : strategy_init whole true cfg ≡ some sctx
unfolding strategy_init
made_context = refl

abbrev midnight : Timeval
midnight = record { sec = 0; usec = 0 }

abbrev start : Gateway ℕ ℕ
start = start_gateway whole_doubles cfg sctx midnight

abbrev plain : CryptoCtx
plain = record { key = []; enabled = false }

abbrev sockets : TransportCtx
sockets = record {
  paths = record { fd = some 4; s_addr = 7; port = 5001; enabled = true } ∷ [];
  path_count = 1;
  recv_fd = 3;
}

abbrev quiet : Flush
quiet = record { sendto = λ i d. none; rand = λ t. t; out = [] }

abbrev ipv4 : List ℕ
ipv4 = 0x45 ∷ 0 ∷ 0 ∷ 20 ∷ replicate 16 9

-- An iteration that reads a packet, and in which no datagram arrives.
abbrev reading : Turn
reading = record {
  failed = false;
  running = true;
  reload_flag = false;
  file = none;
  packet = ipv4;
  add_time = midnight;
  full = quiet;
  flush_time = midnight;
  late = quiet;
  readable = false;
  received = none;
  shard_in = record { coeffs = []; payload = []; len = 0 };
  stack = [];
  insert_us = 0;
  advance_us = λ t. 0;
  fuel = 20;
  echo_us = 5000;
  probe_time = midnight;
  probe_us = 0;
  answer = λ d. none;
}

reading-IsRead : IsRead reading
reading-IsRead = record { small = omega arith; are_bytes = Every-AreBytes ipv4 (omega arith) }

abbrev after : Gateway ℕ ℕ
after =
    send_probes whole plain sockets reading
      (flush_late whole plain sockets reading (read_tun whole plain sockets reading start))

read_once : iterate whole plain sockets reading start ≡ some after
unfolding iterate receive transport_recv
read_once = refl

Reached-IsGateway_example : IsGateway after
Reached-IsGateway_example =
    Reached-IsGateway whole plain sockets whole_doubles file cfg sctx midnight after loaded
      made_context (next reading begin reading-IsRead read_once)

start-IsGateway_again : IsGateway start
start-IsGateway_again =
    Reached-IsGateway whole plain sockets whole_doubles file cfg sctx midnight start loaded
      made_context begin

transmitting : is_tx whole plain sockets start ≡ true
unfolding start_gateway clamped load_line load_trimmed load_header load_pair trim text split_at
    same_text set_general set_coding set_current set_path lines_within defaults
transmitting = refl

one_path : sctx.path_count ≡ 1
unfolding initial clamped load_line load_trimmed load_header load_pair trim text split_at same_text
    set_general set_coding set_current set_path lines_within defaults
one_path = refl

first_usable : is_usable whole sctx 0 ≡ true
unfolding initial init_path zero_path clamped load_line load_trimmed load_header load_pair trim text
    split_at same_text set_general set_coding set_current set_path lines_within defaults
first_usable = refl

abbrev Opened : ℕ → Type 0
Opened p =
    ((fd : ℕ) × ((get_or sockets.paths p closed_path).fd ≡ some fd))
    × ((get_or sockets.paths p closed_path).enabled ≡ true)

all_open : (p : ℕ) → p < 1 → Opened p
all_open zero h = ((4, refl), refl)
all_open (suc p) h = absurd (omega arith)

start-IsReady : IsReady whole sockets start.sctx
unfolding start_gateway
start-IsReady = record {
  strategy_ok = start-IsGateway_again.strategy_ok;
  live = (0, omega (arith, one_path), first_usable);
  open_paths = λ p h u. all_open p (omega (arith, one_path));
}

-- The block of one packet is full.
read_tun-queued_example :
    (b : TxBlock) × (queued b ≡ queued start.tx ++ (ipv4 ∷ []))
    × (b.block_id ≡ start.tx.block_id)
    × (((length (queued b) < pos_part start.cfg.k)
          × (read_tun whole plain sockets reading start ≡ record start { tx = b }))
        ⊎ ((length (queued b) ≡ pos_part start.cfg.k)
            × ((new : List Datagram) × ((read_tun whole plain sockets reading start).calls
                  ≡ start.calls ++ new)
                × (length new
                    ≡ shard_count (strategy_compute_n whole start.sctx (pos_part start.cfg.k)))
                × Carry b.block_id
                    (pos_part start.cfg.k)
                    (shard_count (strategy_compute_n whole start.sctx (pos_part start.cfg.k)))
                    (coded whole start.sctx b (pos_part start.cfg.k) plain quiet.rand quiet.out)
                    0
                    new)
            × (queued (read_tun whole plain sockets reading start).tx ≡ [])
            × ((read_tun whole plain sockets reading start).tx.block_id ≡ start.next_block_id)))
read_tun-queued_example =
    read_tun-queued whole plain sockets reading start start-IsGateway_again reading-IsRead
      transmitting (omega arith) start-IsReady

-- A probe arrives, and at the other gateway its echo.
abbrev probed : Turn
probed = record reading {
  readable = true;
  received = some (probe_datagram type_probe 1700000000123456, 7);
}

abbrev echoed : Turn
echoed = record reading {
  readable = true;
  received = some (probe_datagram type_probe_echo 1700000000123456, 7);
  echo_us = 1700000000128456;
}

-- The kernel refuses to listen for the metrics, and the program goes on without them.
abbrev refusing : Setup
refusing = record {
  options_ok = true;
  file = some file;
  tun_fd = some 9;
  tun_configured = true;
  opening = record {
    allocated = true;
    recv_socket = some 3;
    bound = true;
    path_socket = λ i. some (i + 4);
    inet_pton = λ ip. some 7;
  };
  allocated = true;
  listener = record { socket = some 20; bound = true; listening = false };
  now = midnight;
}

abbrev no_digits : ℕ → ℕ → Option ℕ
no_digits h l = none

closed_at_exit-set_up_example :
    times 20 (set_up whole whole_doubles no_digits refusing).given
    ≡ times 20 (closed_at_exit (set_up whole whole_doubles no_digits refusing))
closed_at_exit-set_up_example = closed_at_exit-set_up whole whole_doubles no_digits refusing 20

-- The memory for the strategy is missing.
abbrev starved : Setup
starved = record refusing { allocated = false }

starved_closes : (set_up whole whole_doubles no_digits starved).closed ≡ 3 ∷ 4 ∷ 9 ∷ []
unfolding set_up with_config with_tun make_crypto config_load clamped load_line load_trimmed
    load_header load_pair trim text split_at same_text set_general set_coding set_current set_path
    lines_within defaults transport_init transport_free strategy_init
starved_closes = refl

refusing_closes :
    closed_at_exit (set_up whole whole_doubles no_digits refusing) ≡ 20 ∷ 3 ∷ 4 ∷ 9 ∷ []
unfolding set_up with_config with_tun make_crypto config_load clamped load_line load_trimmed
    load_header load_pair trim text split_at same_text set_general set_coding set_current set_path
    lines_within defaults transport_init transport_free strategy_init serve_metrics metrics_listen
    closed_at_exit atoi
refusing_closes = refl
