-- ===== src/Tx/Tests.antt =====
-- A block of one IPv4 packet, and two paths.
use coding_gateway.Base.{
  ℕ, zero, suc, ◌+◌, ◌*◌, ◌^◌, ◌≤◌, ◌<◌, ◌≡◌, refl, sym, ap, ◌∙◌, arith, List, [], ◌∷◌,
  get_or_of_ge, update_from, true, false, Option, some, ◌⊎◌, length, get_or, replicate,
  Every-AreBytes, AreBytes, take,
}
use coding_gateway.Float.Whole.{whole}
use coding_gateway.Codec.{Shard, longest, encode_block}
use coding_gateway.Codec.Decode.{blank}
use coding_gateway.Codec.Dot.{dot, delta, dot_of_unit}
use coding_gateway.Codec.EncodeShard.{IsBuffer}
use coding_gateway.Codec.Encode.{AreBuffers}
use coding_gateway.Codec.Source.{IsShardOf, IsStack}
use coding_gateway.Codec.Kernel.{IsDependent}
use coding_gateway.Crypto.{CryptoCtx}
use coding_gateway.Strategy.{PathState, StrategyCtx, strategy_compute_n}
use coding_gateway.Strategy.Invariant.{IsStrategy}
use coding_gateway.Metrics.{Metrics}
use coding_gateway.Transport.{
  TransportCtx, Datagram, data_shard, closed_path, shard_header, shard_datagram, transport_recv,
}
use coding_gateway.Transport.RoundTrip.{path}
use coding_gateway.Rx.{RxBlock, zero_block}
use coding_gateway.Rx.Window.{collect, decrypted, insert_into, try_decode}
use coding_gateway.Rx.Deliver.{k_shards}
use coding_gateway.Rx.Strip.{IsIpv4, IsIpv6}
use coding_gateway.Tx.{
  Timeval, TxBlock, Sending, tx_block_init, tx_block_add_pkt, pad, prepared, encrypted, coded,
  shard_count, tx_block_flush,
}
use coding_gateway.Tx.Queue.{
  IsTx, packet_at, queued, enqueue, tx_block_init-IsTx, tx_block_add_pkt-enqueue,
}
use coding_gateway.Tx.Prepared.{block_len}
use coding_gateway.Tx.Received.{total, sources, transport_recv-coded}
use coding_gateway.Tx.EndToEnd.{arrive, arrive_all, fed_slot, try_decode-tx_block}
use coding_gateway.Tx.Loop.{IsReady, Carry, tx_block_flush-Carry, tx_block_flush-no_path}

abbrev noon : Timeval
noon = record { sec = 43200; usec = 0 }

abbrev ipv4 : List ℕ
ipv4 = 0x45 ∷ 0 ∷ 0 ∷ 20 ∷ replicate 16 9

ipv4-AreBytes : AreBytes ipv4
ipv4-AreBytes = Every-AreBytes ipv4 (omega arith)

-- The block is full with one packet.
tx_block_add_pkt-enqueue_example :
    (IsTx 1 (tx_block_init 7) × (queued (tx_block_init 7) ≡ []))
    × IsTx 1 (tx_block_add_pkt noon (tx_block_init 7) ipv4 20 1).0
    × ((
      queued (tx_block_add_pkt noon (tx_block_init 7) ipv4 20 1).0,
      (tx_block_add_pkt noon (tx_block_init 7) ipv4 20 1).1,
    )
        ≡ enqueue 1 (take 20 ipv4) (queued (tx_block_init 7)))
tx_block_add_pkt-enqueue_example =
    tx_block_add_pkt-enqueue noon (tx_block_init-IsTx 1 7 (omega arith)) ipv4 20 (omega arith)
      (omega arith) ipv4-AreBytes 7

abbrev one_packet : TxBlock
one_packet = (tx_block_add_pkt noon (tx_block_init 7) ipv4 20 1).0

one_packet-IsTx : IsTx 1 one_packet
one_packet-IsTx =
    (tx_block_add_pkt-enqueue noon (tx_block_init-IsTx 1 7 (omega arith)) ipv4 20 (omega arith)
      (omega arith) ipv4-AreBytes 7).1

one_packet_used : 0 < one_packet.pkt_count
unfolding tx_block_add_pkt tx_block_init
one_packet_used = omega arith

abbrev live_path : PathState ℕ
live_path = record {
  cfg = record {
    name = [];
    interface = [];
    remote_ip = [];
    remote_port = 5000;
    weight = 1;
    enabled = true;
  };
  loss_rate = 0;
  rtt_ms = 5;
  weight_current = 1;
  alive = true;
  probes_sent = 0;
  probes_recv = 0;
  shards_sent = 0;
}

abbrev no_credit : List ℕ
no_credit = replicate 8 0

abbrev live : StrategyCtx ℕ
live = record {
  paths = λ i. live_path;
  path_count = 2;
  kind = [];
  base_redundancy = 2;
  loss_threshold = 1;
  ewma_alpha = 1;
  path_credit = no_credit;
}

abbrev dead : StrategyCtx ℕ
dead = record live { paths = λ i. record live_path { alive = false } }

abbrev sockets : TransportCtx
sockets = record {
  paths =
      record { fd = some 4; s_addr = 7; port = 5000; enabled = true }
      ∷ record { fd = some 5; s_addr = 8; port = 5000; enabled = true }
      ∷ [];
  path_count = 2;
  recv_fd = 3;
}

live-IsStrategy : IsStrategy live
live-IsStrategy = record { fits = omega arith; room = refl }

abbrev Opened : ℕ → Type 0
Opened p =
    ((fd : ℕ) × ((get_or sockets.paths p closed_path).fd ≡ some fd))
    × ((get_or sockets.paths p closed_path).enabled ≡ true)

both_open : (p : ℕ) → p < 2 → Opened p
both_open zero h = ((4, refl), refl)
both_open (suc zero) h = ((5, refl), refl)
both_open (suc (suc p)) h = absurd (omega arith)

live-IsReady : IsReady whole sockets live
live-IsReady = record {
  strategy_ok = live-IsStrategy;
  live = (0, omega arith, refl);
  open_paths = λ p h u. both_open p h;
}

abbrev no_metrics : Metrics ℕ
no_metrics = record {
  shards_sent = no_credit;
  shards_received = no_credit;
  decode_success = 0;
  decode_failure = 0;
  blocks_encoded = 0;
  latency_bucket = no_credit;
  latency_count = 0;
  latency_sum_ms = 0;
}

abbrev plain : CryptoCtx
plain = record { key = []; enabled = false }

abbrev accepting : ℕ → Datagram → Option ℕ
accepting i d = some (length d.bytes)

abbrev rand : ℕ → ℕ
rand t = t * 3 + 1

abbrev memory : List ℕ
memory = replicate 20 9

abbrev buffer : Shard
buffer = record { coeffs = memory; payload = memory; len = 0 }

abbrev buffers : List Shard
buffers = buffer ∷ buffer ∷ []

abbrev start : StrategyCtx ℕ → Sending ℕ ℕ
start sctx = record { sctx = sctx; metrics = no_metrics; calls = [] }

tx_block_flush-Carry_example :
    (new : List Datagram) × ((tx_block_flush whole accepting rand buffers one_packet sockets
        (start live)
        1
        plain).1.calls
      ≡ new)
    × (length new ≡ shard_count (strategy_compute_n whole live 1))
    × Carry one_packet.block_id 1
        (shard_count (strategy_compute_n whole live 1))
        (coded whole live one_packet 1 plain rand buffers)
        0
        new
tx_block_flush-Carry_example =
    tx_block_flush-Carry whole accepting rand buffers one_packet sockets (start live) 1 plain
      one_packet_used live-IsReady

tx_block_flush-no_path_example :
    tx_block_flush whole accepting rand buffers one_packet sockets (start dead) 1 plain ≡ (
      prepared one_packet 1,
      record (start dead) { metrics = record no_metrics { blocks_encoded = 1 } },
    )
tx_block_flush-no_path_example =
    tx_block_flush-no_path whole accepting rand buffers one_packet sockets (start dead) 1 plain
      one_packet_used (λ j h. refl) (record { fits = omega arith; room = refl })

two_shards : shard_count (strategy_compute_n whole live 1) ≡ 2
unfolding strategy_compute_n
two_shards = refl

twenty_bytes : block_len one_packet-IsTx ≡ 20
unfolding tx_block_add_pkt tx_block_init longest
twenty_bytes = refl

buffer-IsBuffer : IsBuffer 1 (block_len one_packet-IsTx) buffer
buffer-IsBuffer = record {
  width = omega arith;
  room = omega (arith, twenty_bytes);
  coeff_bytes = Every-AreBytes memory (omega arith);
}

two_buffers : (i : ℕ) → i < 2 → IsBuffer 1 (block_len one_packet-IsTx) (get_or buffers i blank)
two_buffers zero h = buffer-IsBuffer
two_buffers (suc zero) h = buffer-IsBuffer
two_buffers (suc (suc i)) h = absurd (omega arith)

buffers-AreBuffers :
    AreBuffers (shard_count (strategy_compute_n whole live 1)) 1 (block_len one_packet-IsTx) buffers
buffers-AreBuffers = record {
  count = omega (arith, two_shards);
  each = λ i h. two_buffers i (omega (arith, two_shards));
}

one_packet_id : one_packet.block_id < 2 ^ 32
unfolding tx_block_add_pkt tx_block_init
one_packet_id = omega arith

transport_recv-coded_example :
    (s : Shard) × (transport_recv sockets true
        (some (
          shard_datagram one_packet.block_id 1 1
              (total whole live plain rand one_packet-IsTx one_packet_used buffers-AreBuffers)
              (get_or (coded whole live one_packet 1 plain rand buffers) 1 blank),
          8,
        ))
        buffer
      ≡ some (
          data_shard
            (shard_header one_packet.block_id 1 1
              (total whole live plain rand one_packet-IsTx one_packet_used buffers-AreBuffers)
              (get_or (coded whole live one_packet 1 plain rand buffers) 1 blank))
            s
            (path sockets 8 buffer)))
    × IsShardOf 1
        (block_len one_packet-IsTx)
        (sources whole live plain rand one_packet-IsTx one_packet_used buffers-AreBuffers)
        (decrypted plain one_packet.block_id 1 s)
transport_recv-coded_example =
    transport_recv-coded whole live plain rand one_packet-IsTx one_packet_used buffers-AreBuffers
      sockets 8 buffer-IsBuffer one_packet_id 1 (omega (arith, two_shards))

abbrev slot_of : List ℕ → RxBlock
slot_of picks =
    fed_slot whole live plain rand one_packet-IsTx one_packet_used buffers-AreBuffers sockets 8
      buffer-IsBuffer one_packet_id 100 picks

slot_count : (slot_of (0 ∷ [])).recv_count ≡ 1
unfolding arrive arrive_all transport_recv shard_datagram coded encrypted prepared pad encode_block
    insert_into decrypted zero_block tx_block_add_pkt tx_block_init strategy_compute_n update_from
slot_count = refl

slot_coeffs : (get_or (k_shards (slot_of (0 ∷ [])) 1) 0 blank).coeffs ≡ 1 ∷ replicate 19 9
unfolding arrive arrive_all transport_recv shard_datagram coded encrypted prepared pad encode_block
    insert_into decrypted zero_block tx_block_add_pkt tx_block_init strategy_compute_n update_from
    collect
slot_coeffs = refl

unit_entries : (c : ℕ) → c < 1 → get_or (1 ∷ replicate 19 9) c 0 ≡ delta c 0
unit_entries zero p = refl
unit_entries (suc c) p = absurd (omega arith)

slot_independent : ¬ IsDependent 1 (k_shards (slot_of (0 ∷ [])) 1)
slot_independent d = d.nonzero (at d.place)
  where
    first : get_or d.relation 0 0 ≡ 0
    first =
        sym (
          dot_of_unit (1 ∷ replicate 19 9) d.relation 0 d.are_bytes (omega (arith, d.size))
            (λ c q. unit_entries c (omega (arith, d.size))))
        ∙ ap (λ cs. dot cs d.relation) (sym slot_coeffs)
        ∙ d.kills 0 (omega arith)

    at : (i : ℕ) → get_or d.relation i 0 ≡ 0
    at zero = first
    at (suc i) = get_or_of_ge d.relation (suc i) 0 (omega (arith, d.size))

-- Memory of the decoder.
abbrev stack : List (List ℕ)
stack = memory ∷ []

stack-IsStack : IsStack 1 (block_len one_packet-IsTx) stack
stack-IsStack = record { count = omega arith; room = room }
  where
    room : (i : ℕ) → i < 1 → block_len one_packet-IsTx ≤ length (get_or stack i [])
    room zero h = omega (arith, twenty_bytes)
    room (suc i) h = absurd (omega arith)

-- The first datagram alone brings the packet to the other end.
try_decode-tx_block_example :
    ((try_decode stack (slot_of (0 ∷ [])) 1).newly ≡ true)
    × (length (try_decode stack (slot_of (0 ∷ [])) 1).written ≡ 1)
    × ((i : ℕ)
        → i < one_packet.pkt_count
        → (IsIpv4 (packet_at one_packet i) ⊎ IsIpv6 (packet_at one_packet i))
        → get_or (try_decode stack (slot_of (0 ∷ [])) 1).written i [] ≡ packet_at one_packet i)
try_decode-tx_block_example =
    try_decode-tx_block whole live plain rand one_packet-IsTx one_packet_used buffers-AreBuffers
      sockets 8 buffer-IsBuffer one_packet_id 100 (0 ∷ []) stack-IsStack
      (omega (arith, two_shards), tt) (omega (arith, slot_count)) slot_independent
