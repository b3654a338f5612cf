-- ===== src/Lib.antt =====
-- A verification library for coding-gateway: a point-to-point tunnel that groups IP packets from a
-- TUN device into blocks, encodes each block with random linear codes over GF(2^8), sends the
-- shards over several UDP paths, and decodes a block from any k independent shards.
--
-- Parts, and the files that model them:
--   Gf256    src/gf256.c, include/gf256.h: the tables, and the field operations that read them.
--            The polynomial loop of gf256_init is `double` and `peasant`; the search for the
--            inverse is `find_inverse`.
--   Codec    src/codec.c, include/codec.h: `encode_block`; Codec/Decode has `decode_block` with its
--            Gauss-Jordan elimination, one function per loop. Both use Gf256.
--   Crypto   src/crypto.c, include/crypto.h: the XOR keystream over shard payloads and the key
--            parser. One context is shared by the sender and the receiver.
--   Wire     the constants and the header record of include/transport.h. The magic number of a header
--            is its two bytes as they lie in memory, in network order.
--   Rx       src/rx.c, include/rx.h: the receive window. `rx_window_insert` stores and decrypts a
--            shard, `rx_window_try_decode` decodes a block and gives its packets, cut to their IP
--            length, to the TUN device, `rx_window_advance` retires blocks.
--   Transport  src/transport.c: the datagrams, and what `transport_recv` accepts. The results of
--            sendto and recvfrom are a parameter and an argument. Transport/Init opens and closes the
--            sockets.
--   Float    what the code uses of `float`: a parameter of the parts below, with its operations.
--            Float/Whole is an instance with whole numbers, for the tests.
--   Config   src/config.c, include/config.h: Config/Text has `trim` and the string functions,
--            Config/Load `config_load`, from the bytes of the file to the configuration. Config/Keys
--            has the settings, one by one, and Config/Lines what the line of each does.
--   Strategy src/strategy.c: the choice of a path and the number of shards; Strategy/Init has the
--            initialisation and the result of a probe, which Strategy/Probe is about, and
--            Strategy/Reload the reload of the configuration.
--   Metrics  src/metrics.c, include/metrics.h: the counters and the latency histogram, by
--            Metrics/Histogram.
--   Tx       src/tx.c, include/tx.h: the block of packets that waits. `tx_block_add_pkt` fills it,
--            and `tx_block_flush` pads, encodes, encrypts and sends it by Codec, Crypto, Strategy
--            and Transport. Tx/Queue is about the waiting packets, Tx/Loop about the sending loop,
--            Tx/Prepared and Tx/Received about one shard, and Tx/EndToEnd about a block from one
--            gateway to the other.
--   Gateway  src/main.c: `iterate` is the body of the event loop over the parts above, from the packet
--            of the TUN device to the probes, with the reload; `Reached` are the states that it
--            reaches. Gateway/Run and Gateway/Invariant are about these, Gateway/Handlers about packets
--            and probes. Gateway/Setup is the part of `main` before the loop, with `metrics_listen` of
--            src/metrics.c and what is closed at the end.
--   Limits   the array sizes of include/common.h.
--   Base     lists, bits, memory operations and tests that the parts share.
--
-- Conventions. Numbers are natural numbers, with the wrap-around of uint32_t and uint64_t written
-- out. An array is a list; memcpy and memset change a prefix of it, and what an array holds before
-- it is first written is an argument. A function that changes `*p`
-- returns the new value. `none` is a failure: the value -1 of `decode_block` and
-- `crypto_parse_key`, the assertion of `gf256_div`. Time and rand() are functions from the number
-- of the call to its result; sscanf and what the kernel does are parameters.
--
-- Loops are structural recursion on the number of rounds left. The one loop without a bound, in
-- `rx_window_advance`, runs on fuel, and enough fuel is proved to be given: n + 1 rounds when
-- every block held is less than n ahead of the base, or far behind it.
--
-- Not modelled: what the kernel does, and the requests for the metrics with the text of the answer;
-- log output; the TUN device of src/tun.c, which only calls the system; the signals and the
-- select of src/main.c; the shell scripts, container files and the packaging.
pub mod Base
pub mod Limits
pub mod Gf256
pub mod Codec
pub mod Crypto
pub mod Wire
pub mod Rx
pub mod Transport
pub mod Float
pub mod Config
pub mod Strategy
pub mod Metrics
pub mod Tx
pub mod Gateway
