-- ===== src/Transport/Tests.antt =====
-- Datagrams over two paths, the first one disabled, as in src/test_transport.c.
use coding_gateway.Base.{
  ◌≡◌, refl, arith, [], ◌∷◌, true, false, none, some, length, memcpy, replicate,
}
use coding_gateway.Float.Whole.{whole}
use coding_gateway.Config.{GatewayConfig}
use coding_gateway.Config.Load.{defaults}
use coding_gateway.Transport.Init.{Opening, transport_init}
use coding_gateway.Codec.{Shard}
use coding_gateway.Transport.{
  TransportCtx, Received, data_shard, shard_header, shard_datagram, sender_path, transport_recv,
}
use coding_gateway.Base.{◌↔◌, ℕ, Option, ◌+◌}
use coding_gateway.Transport.{Datagram, transport_send_shard}
use coding_gateway.Transport.Send.{IsSent, transport_send_shard-IsSent}
use coding_gateway.Transport.RoundTrip.{transport_recv-shard_datagram}
use coding_gateway.Transport.Reject.{IsWithin, transport_recv-IsWithin}

abbrev ctx : TransportCtx
ctx = record {
  paths =
      record { fd = none; s_addr = 7; port = 5000; enabled = false }
      ∷ record { fd = some 4; s_addr = 7; port = 5001; enabled = true }
      ∷ [];
  path_count = 2;
  recv_fd = 3;
}

abbrev sent : Shard
sent = record { coeffs = 5 ∷ 6 ∷ []; payload = 10 ∷ 20 ∷ 30 ∷ []; len = 3 }

abbrev buffer : Shard
buffer = record { coeffs = replicate 4 0; payload = replicate 4 9; len = 0 }

abbrev arrived : Shard
arrived = record {
  coeffs = memcpy buffer.coeffs sent.coeffs 2;
  payload = memcpy buffer.payload sent.payload 3;
  len = 3;
}

transport_recv-shard_datagram_example :
    transport_recv ctx true (some (shard_datagram 42 3 2 4 sent, 7)) buffer
    ≡ some (data_shard (shard_header 42 3 2 4 sent) arrived (sender_path 2 0 ctx.paths 7))
transport_recv-shard_datagram_example =
    transport_recv-shard_datagram ctx 7 buffer 42 3 2 4 sent (omega arith) (omega arith)
      (omega arith) (omega arith) (omega arith) (omega arith) (omega arith)

-- A datagram of one byte less than a header is refused.
short_refused : transport_recv ctx true (some (replicate 13 192, 7)) buffer ≡ none
unfolding transport_recv
short_refused = refl

abbrev result : Received
result = data_shard (shard_header 42 3 2 4 sent) arrived (sender_path 2 0 ctx.paths 7)

transport_recv-IsWithin_example : IsWithin (shard_datagram 42 3 2 4 sent) result × (true ≡ true)
transport_recv-IsWithin_example =
    transport_recv-IsWithin ctx true (shard_datagram 42 3 2 4 sent) 7 buffer result
      transport_recv-shard_datagram_example

-- The kernel sends every datagram.
abbrev accepting : Datagram → Option ℕ
accepting d = some (length d.bytes)

transport_send_shard-IsSent_example :
    ((transport_send_shard accepting ctx 1 42 3 2 4 sent).0 ≡ true)
    ↔ IsSent accepting ctx 1 (shard_datagram 42 3 2 4 sent)
transport_send_shard-IsSent_example = transport_send_shard-IsSent accepting ctx 1 42 3 2 4 sent

-- A socket for each of two paths, with addresses that cannot be read.
abbrev opening : Opening
opening = record {
  allocated = true;
  recv_socket = some 3;
  bound = true;
  path_socket = λ i. some (i + 4);
  inet_pton = λ ip. none;
}

abbrev two_paths : GatewayConfig ℕ
two_paths = record (defaults whole) {
  paths = λ i. record {
    name = [];
    interface = [];
    remote_ip = [];
    remote_port = 5000;
    weight = 1;
    enabled = true;
  };
  path_count = 2;
}

both_closed : (transport_init opening two_paths).1 ≡ 4 ∷ 5 ∷ []
unfolding transport_init defaults
both_closed = refl
