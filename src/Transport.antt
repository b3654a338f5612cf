-- ===== src/Transport.antt =====
-- src/transport.c: what is sent and received over the paths. The kernel's answer to `sendto` is a
-- parameter, and what `recvfrom` returns an argument.
pub mod Header
pub mod RoundTrip
pub mod Reject
pub mod Send
pub mod Init
mod Tests
use coding_gateway.Base.{
  ℕ, zero, suc, ◌+◌, ◌*◌, ◌/◌, ◌%◌, ◌^◌, List, [], ◌∷◌, ◌++◌, Bool, true, false, not, ◌&&◌, ◌||◌,
  Option, none, some, ltb, ◌==◌, if◌then◌else◌, length, get_or, take, drop, memcpy, bit_and, bit_or,
}
use coding_gateway.Limits.{max_k, max_payload}
use coding_gateway.Wire.{
  WireHeader, wire_magic, wire_version, wire_hdr_size, type_data, type_probe, type_probe_echo,
}
use coding_gateway.Codec.{Shard}

-- A negative descriptor is `none`.
pub record PathSock : Type 0 where
  pub fd : Option ℕ
  pub s_addr : ℕ
  pub port : ℕ
  pub enabled : Bool

pub record TransportCtx : Type 0 where
  pub paths : List PathSock
  pub path_count : ℕ
  pub recv_fd : ℕ

abbrev pub closed_path : PathSock
closed_path = record { fd = none; s_addr = 0; port = 0; enabled = false }

-- A call of `sendto`.
pub record Datagram : Type 0 where
  pub fd : ℕ
  pub s_addr : ℕ
  pub port : ℕ
  pub bytes : List ℕ

-- The bytes of `htons (x)` and `htonl (x)` in memory, and what `ntohs` and `ntohl` read there.
abbrev pub htons : ℕ → List ℕ
htons x = x / 256 % 256 ∷ x % 256 ∷ []

abbrev pub htonl : ℕ → List ℕ
htonl x = x / 16777216 % 256 ∷ x / 65536 % 256 ∷ x / 256 % 256 ∷ x % 256 ∷ []

abbrev pub ntohs : List ℕ → ℕ → ℕ
ntohs buf i = get_or buf i 0 * 256 + get_or buf (i + 1) 0

abbrev pub ntohl : List ℕ → ℕ → ℕ
ntohl buf i = ntohs buf i * 65536 + ntohs buf (i + 2)

-- The packed structure in memory, when `block_id` and `payload_len` are put in network byte order.
unfoldable pub header_bytes : WireHeader → List ℕ
header_bytes h =
    h.magic
    ++ (h.version % 256 ∷ h.kind % 256 ∷ [])
    ++ htonl h.block_id
    ++ (h.shard_idx % 256 ∷ h.k % 256 ∷ h.n % 256 ∷ h.reserved % 256 ∷ [])
    ++ htons h.payload_len

-- The header when `block_id` and `payload_len` are put in host byte order; `magic` stays as it came.
unfoldable pub read_header : List ℕ → WireHeader
read_header buf = record {
  magic = take 2 buf;
  version = get_or buf 2 0;
  kind = get_or buf 3 0;
  block_id = ntohl buf 4;
  shard_idx = get_or buf 8 0;
  k = get_or buf 9 0;
  n = get_or buf 10 0;
  reserved = get_or buf 11 0;
  payload_len = ntohs buf 12;
}

-- The header and the datagram that `transport_send_shard` builds.
unfoldable pub shard_header : ℕ → ℕ → ℕ → ℕ → Shard → WireHeader
shard_header block_id shard_idx k n s = record {
  magic = htons wire_magic;
  version = wire_version;
  kind = type_data;
  block_id = block_id;
  shard_idx = shard_idx;
  k = k;
  n = n;
  reserved = 0;
  payload_len = s.len;
}

unfoldable pub shard_datagram : ℕ → ℕ → ℕ → ℕ → Shard → List ℕ
unfolding header_bytes shard_header
shard_datagram block_id shard_idx k n s =
    header_bytes (shard_header block_id shard_idx k n s) ++ take k s.coeffs ++ take s.len s.payload

-- The header and the datagram of a probe, or of its echo.
unfoldable pub probe_header : ℕ → WireHeader
probe_header kind = record {
  magic = htons wire_magic;
  version = wire_version;
  kind = kind;
  block_id = 0;
  shard_idx = 0;
  k = 0;
  n = 0;
  reserved = 0;
  payload_len = 0;
}

unfoldable pub probe_datagram : ℕ → ℕ → List ℕ
unfolding header_bytes probe_header
probe_datagram kind timestamp_us =
    header_bytes (probe_header kind)
    ++ htonl (timestamp_us / 2 ^ 32 % 2 ^ 32)
    ++ htonl (bit_and timestamp_us 0xffffffff % 2 ^ 32)

module _ (sendto : Datagram → Option ℕ) (ctx : TransportCtx) (path_idx : ℕ) where
  -- Whether the return value is 0, and the call of `sendto` that was made.
  unfoldable pub send_buf : List ℕ → Bool × Option Datagram
  send_buf buf =
      let ps = get_or ctx.paths path_idx closed_path in
      elim ps.fd [
        | none ↦ (false, none)
        | some fd ↦
            let call : Datagram = record {
              fd = fd;
              s_addr = ps.s_addr;
              port = ps.port;
              bytes = buf;
            } in
            if not ps.enabled then (false, none) else elim (sendto call) [
              | none ↦ (false, some call)
              | some sent ↦ (sent == length buf, some call)
            ]
      ]

  unfoldable pub transport_send_shard : ℕ → ℕ → ℕ → ℕ → Shard → Bool × Option Datagram
  unfolding send_buf shard_datagram
  transport_send_shard block_id shard_idx k n s = send_buf (shard_datagram block_id shard_idx k n s)

  unfoldable pub transport_send_probe : ℕ → Bool × Option Datagram
  unfolding send_buf probe_datagram
  transport_send_probe timestamp_us = send_buf (probe_datagram type_probe timestamp_us)

  unfoldable pub transport_send_probe_echo : ℕ → Bool × Option Datagram
  unfolding send_buf probe_datagram
  transport_send_probe_echo timestamp_us = send_buf (probe_datagram type_probe_echo timestamp_us)

-- The search for the sender among the next `left` paths, from index `i` on.
unfoldable pub sender_path : ℕ → ℕ → List PathSock → ℕ → ℕ
sender_path zero i paths s_addr = 0
sender_path (suc left) i [] s_addr = 0
sender_path (suc left) i (p ∷ paths) s_addr =
    if p.enabled && (p.s_addr == s_addr) then i else sender_path left (i + 1) paths s_addr

-- What a call of `transport_recv` that does not return -1 stores: the header as `read_header` has it,
-- then the shard or the timestamp, and the path.
pub data Received : Type 0 where
  data_shard : WireHeader → Shard → ℕ → Received
  probe : WireHeader → ℕ → ℕ → Received

-- The part after `recvfrom`, which stored `buf`.
unfoldable pub accept : TransportCtx → List ℕ → ℕ → Shard → Option Received
unfolding read_header sender_path
accept ctx buf s_addr shard_out =
    let hdr = read_header buf in
    let path_idx = sender_path ctx.path_count 0 ctx.paths s_addr in
    let body = drop wire_hdr_size buf in
    if ltb (length buf) wire_hdr_size || not (ntohs hdr.magic 0 == wire_magic)
    then none
    else if hdr.kind == type_data
    then (if ltb max_k hdr.k
          || ltb max_payload hdr.payload_len
          || ltb (length buf) (wire_hdr_size + hdr.k + hdr.payload_len)
        then none
        else some (
            data_shard hdr
              (record {
                coeffs = memcpy shard_out.coeffs body hdr.k;
                payload = memcpy shard_out.payload (drop hdr.k body) hdr.payload_len;
                len = hdr.payload_len;
              })
              path_idx))
    else if (hdr.kind == type_probe) || (hdr.kind == type_probe_echo)
    then (if ltb (length buf) (wire_hdr_size + 8)
        then none
        else some (probe hdr (bit_or (ntohl body 0 * 2 ^ 32) (ntohl body 4)) path_idx))
    else none

-- `ready` is whether the descriptor is in `rfds`; `received` is the datagram and the sender's
-- address, or `none` for an error. `recvfrom` cuts the datagram to the buffer's size.
unfoldable pub transport_recv : TransportCtx → Bool → Option (List ℕ × ℕ) → Shard → Option Received
unfolding accept
transport_recv ctx ready received shard_out = if not ready then none else elim received [
  | none ↦ none
  | some (datagram, s_addr) ↦
      accept ctx (take (wire_hdr_size + max_k + max_payload) datagram) s_addr shard_out
]
