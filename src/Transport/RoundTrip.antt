-- ===== src/Transport/RoundTrip.antt =====
-- A datagram that one end sends, received at the other end, of src/transport.c.
use coding_gateway.Base.{
  ℕ, ◌+◌, ◌*◌, ◌/◌, ◌%◌, ◌^◌, ◌≤◌, ◌<◌, ◌≡◌, refl, ap, ◌∙◌, arith, List, [], ◌++◌, true, some,
  length, take, drop, memcpy, length-append, length-take, take_of_ge, take_of_field, drop_of_field,
  bit_and, bit_or, bit_or-shifted, bit_and-32, ◌⊎◌, inl, inr,
}
use coding_gateway.Limits.{max_k, max_payload}
use coding_gateway.Codec.{Shard}
use coding_gateway.Wire.{
  WireHeader, wire_magic, wire_hdr_size, type_data, type_probe, type_probe_echo,
}
use coding_gateway.Transport.{
  TransportCtx, data_shard, probe, ntohs, ntohl, htonl, header_bytes, read_header, shard_header,
  shard_datagram, probe_header, probe_datagram, sender_path, accept, transport_recv,
}
use coding_gateway.Transport.Header.{read_header-header_bytes, ntohl-htonl}

module _ (ctx : TransportCtx) (s_addr : ℕ) (out : Shard) where
  abbrev pub path : ℕ
  path = sender_path ctx.path_count 0 ctx.paths s_addr

  accept_data :
      (buf : List ℕ) (hdr : WireHeader)
      → read_header buf ≡ hdr
      → ntohs hdr.magic 0 ≡ wire_magic
      → hdr.kind ≡ type_data
      → hdr.k ≤ max_k
      → hdr.payload_len ≤ max_payload
      → wire_hdr_size + hdr.k + hdr.payload_len ≤ length buf
      → accept ctx buf s_addr out
        ≡ some (
            data_shard hdr
              (record {
                coeffs = memcpy out.coeffs (drop wire_hdr_size buf) hdr.k;
                payload = memcpy out.payload (drop hdr.k (drop wire_hdr_size buf)) hdr.payload_len;
                len = hdr.payload_len;
              })
              path)
  unfolding accept
  accept_data buf hdr e magic kind k len size = rw e (ground arith)

  accept_probe :
      (buf : List ℕ) (hdr : WireHeader)
      → read_header buf ≡ hdr
      → ntohs hdr.magic 0 ≡ wire_magic
      → (hdr.kind ≡ type_probe) ⊎ (hdr.kind ≡ type_probe_echo)
      → wire_hdr_size + 8 ≤ length buf
      → accept ctx buf s_addr out
        ≡ some (
            probe hdr
              (bit_or
                (ntohl (drop wire_hdr_size buf) 0 * 2 ^ 32)
                (ntohl (drop wire_hdr_size buf) 4))
              path)
  unfolding accept
  accept_probe buf hdr e magic (inl kind) size = rw e (ground arith)
  accept_probe buf hdr e magic (inr kind) size = rw e (ground arith)

  -- A datagram that fits the buffer is not cut.
  transport_recv_whole :
      (datagram : List ℕ)
      → length datagram ≤ wire_hdr_size + max_k + max_payload
      → transport_recv ctx true (some (datagram, s_addr)) out ≡ accept ctx datagram s_addr out
  unfolding transport_recv
  transport_recv_whole datagram fits =
      ap (λ t. accept ctx t s_addr out)
        (take_of_ge (wire_hdr_size + max_k + max_payload) datagram fits)

  -- What `transport_send_shard` puts into a datagram, `transport_recv` takes out: the header, and
  -- the shard's coefficients and payload, over what `*shard_out` held. The fields fit the wire
  -- format, `k` and the length do not exceed the array sizes, and the shard's arrays have as many
  -- elements.
  pub transport_recv-shard_datagram :
      (block_id shard_idx k n : ℕ) (s : Shard)
      → block_id < 2 ^ 32
      → shard_idx < 2 ^ 8
      → k ≤ max_k
      → n < 2 ^ 8
      → s.len ≤ max_payload
      → k ≤ length s.coeffs
      → s.len ≤ length s.payload
      → transport_recv ctx true (some (shard_datagram block_id shard_idx k n s, s_addr)) out
        ≡ some (
            data_shard
              (shard_header block_id shard_idx k n s)
              (record {
                coeffs = memcpy out.coeffs s.coeffs k;
                payload = memcpy out.payload s.payload s.len;
                len = s.len;
              })
              path)
  unfolding shard_datagram header_bytes shard_header
  transport_recv-shard_datagram block_id shard_idx k n s id idx small total len coeffs payload =
      transport_recv_whole (header_bytes hdr ++ body) (omega (arith, size))
      ∙ accept_data (header_bytes hdr ++ body) hdr read refl refl small len (omega (arith, size))
      ∙ rw
          (
            take_of_field k s.coeffs (take s.len s.payload) coeffs,
            drop_of_field k s.coeffs (take s.len s.payload) coeffs,
            take_of_ge s.len (take s.len s.payload) (omega (arith, length-take s.len s.payload)),
          )
          refl
    where
      hdr : WireHeader
      hdr = shard_header block_id shard_idx k n s

      body : List ℕ
      body = take k s.coeffs ++ take s.len s.payload

      read : read_header (header_bytes hdr ++ body) ≡ hdr
      read = read_header-header_bytes hdr body (record {
        magic = refl;
        version = omega arith;
        kind = omega arith;
        block_id = id;
        shard_idx = idx;
        k = omega arith;
        n = total;
        reserved = omega arith;
        payload_len = omega arith;
      })

      size : length (header_bytes hdr ++ body) ≡ wire_hdr_size + k + s.len
      size = omega (
        arith,
        length-append (take k s.coeffs) (take s.len s.payload),
        length-take k s.coeffs,
        length-take s.len s.payload,
      )

  -- The timestamp of a probe, or of an echo, arrives as it was sent.
  pub transport_recv-probe_datagram :
      (kind timestamp_us : ℕ)
      → (kind ≡ type_probe) ⊎ (kind ≡ type_probe_echo)
      → timestamp_us < 2 ^ 64
      → transport_recv ctx true (some (probe_datagram kind timestamp_us, s_addr)) out
        ≡ some (probe (probe_header kind) timestamp_us path)
  unfolding probe_datagram header_bytes probe_header
  transport_recv-probe_datagram kind timestamp_us which fits =
      transport_recv_whole (header_bytes hdr ++ body) (omega arith)
      ∙ accept_probe (header_bytes hdr ++ body) hdr read refl which (omega arith)
      ∙ ap (λ t. some (probe hdr t path)) same
    where
      hdr : WireHeader
      hdr = probe_header kind

      hi : ℕ
      hi = timestamp_us / 2 ^ 32 % 2 ^ 32

      lo : ℕ
      lo = bit_and timestamp_us 0xffffffff % 2 ^ 32

      body : List ℕ
      body = htonl hi ++ htonl lo

      small : kind < 2 ^ 8
      small = elim which [ inl e ↦ omega arith | inr e ↦ omega arith ]

      read : read_header (header_bytes hdr ++ body) ≡ hdr
      read = read_header-header_bytes hdr body (record {
        magic = refl;
        version = omega arith;
        kind = small;
        block_id = omega arith;
        shard_idx = omega arith;
        k = omega arith;
        n = omega arith;
        reserved = omega arith;
        payload_len = omega arith;
      })

      same : bit_or (ntohl body 0 * 2 ^ 32) (ntohl body 4) ≡ timestamp_us
      same =
          rw
            (
              ntohl-htonl hi [] (omega arith),
              ntohl-htonl lo [] (omega arith),
              bit_or-shifted 32 hi lo (omega arith),
              bit_and-32 timestamp_us,
            )
            (omega arith)
