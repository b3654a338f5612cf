-- ===== src/Transport/Reject.antt =====
-- What `transport_recv` of src/transport.c refuses, and the path that it names.
use coding_gateway.Base.{
  ℕ, zero, suc, ◌+◌, ◌*◌, ◌≤◌, ◌<◌, ◌≡◌, refl, sym, arith, List, [], ◌∷◌, Bool, true, false, ◌&&◌,
  some, ◌==◌, length, get_or, take, ◌⊎◌, inl, inr, Bool-cases, length-take, get_or-take,
}
use coding_gateway.Limits.{max_k, max_payload}
use coding_gateway.Codec.{Shard}
use coding_gateway.Wire.{wire_hdr_size, type_data, type_probe, type_probe_echo}
use coding_gateway.Transport.{
  PathSock, TransportCtx, closed_path, Received, data_shard, probe, sender_path, accept,
  transport_recv,
}

-- The datagram starts with the magic number, high byte first.
abbrev pub StartsWithMagic : List ℕ → Type 0
StartsWithMagic datagram = get_or datagram 0 0 * 256 + get_or datagram 1 0 ≡ 0xc0de

-- What holds of a result: a shard fits the arrays and the datagram held all of it.
abbrev pub IsWithin : List ℕ → Received → Type 0
IsWithin datagram (data_shard hdr s path) =
    (hdr.kind ≡ type_data)
    × (hdr.k ≤ max_k)
    × (hdr.payload_len ≤ max_payload)
    × (s.len ≡ hdr.payload_len)
    × (wire_hdr_size + hdr.k + hdr.payload_len ≤ length datagram)
    × StartsWithMagic datagram
IsWithin datagram (probe hdr ts path) =
    ((hdr.kind ≡ type_probe) ⊎ (hdr.kind ≡ type_probe_echo))
    × (wire_hdr_size + 8 ≤ length datagram)
    × StartsWithMagic datagram

accept-IsWithin :
    (ctx : TransportCtx) (buf : List ℕ) (s_addr : ℕ) (out : Shard) (r : Received)
    → accept ctx buf s_addr out ≡ some r
    → IsWithin buf r
unfolding accept
accept-IsWithin ctx buf s_addr out (data_shard hdr s path) h =
    ground (arith, get_or-take 2 0 buf 0 (omega arith), get_or-take 2 1 buf 0 (omega arith))
accept-IsWithin ctx buf s_addr out (probe hdr ts path) h =
    ground (arith, get_or-take 2 0 buf 0 (omega arith), get_or-take 2 1 buf 0 (omega arith))

-- Whatever arrives, a shard that `transport_recv` returns fits the arrays of its caller, and the
-- datagram held all its coefficients and its payload; a probe held its timestamp. The datagram
-- starts with the magic number in network byte order.
pub transport_recv-IsWithin :
    (ctx : TransportCtx) (ready : Bool) (datagram : List ℕ) (s_addr : ℕ) (out : Shard)
    (r : Received)
    → transport_recv ctx ready (some (datagram, s_addr)) out ≡ some r
    → IsWithin datagram r × (ready ≡ true)
unfolding transport_recv
transport_recv-IsWithin ctx true datagram s_addr out r h =
    let buf = take (wire_hdr_size + max_k + max_payload) datagram in
    let size = length-take (wire_hdr_size + max_k + max_payload) datagram in
    let within = accept-IsWithin ctx buf s_addr out r h in
    (
      widen buf datagram r (omega (arith, size))
          (sym (get_or-take (wire_hdr_size + max_k + max_payload) 0 datagram 0 (omega arith)))
          (sym (get_or-take (wire_hdr_size + max_k + max_payload) 1 datagram 0 (omega arith)))
          within,
      refl,
    )
  where
    widen :
        (buf datagram : List ℕ) (r : Received)
        → length buf ≤ length datagram
        → get_or datagram 0 0 ≡ get_or buf 0 0
        → get_or datagram 1 0 ≡ get_or buf 1 0
        → IsWithin buf r
        → IsWithin datagram r
    widen buf datagram (data_shard hdr s path) le e f w = ground (arith, w)
    widen buf datagram (probe hdr ts path) le e f w = ground (arith, w)
transport_recv-IsWithin ctx false datagram s_addr out r h = absurd (cc)

-- Whether the sender's address is that of path `j`, and the path is enabled.
abbrev pub is_sender : List PathSock → ℕ → ℕ → Bool
is_sender paths s_addr j =
    (get_or paths j closed_path).enabled && ((get_or paths j closed_path).s_addr == s_addr)

sender_from :
    (left i j : ℕ) (paths : List PathSock) (s_addr : ℕ)
    → j < left
    → is_sender paths s_addr j ≡ true
    → (m : ℕ) × (sender_path left i paths s_addr ≡ i + m)
      × (m ≤ j)
      × (is_sender paths s_addr m ≡ true)
unfolding sender_path
sender_from zero i j paths s_addr p h = absurd (omega arith)
sender_from (suc left) i j [] s_addr p h = absurd (cc)
sender_from (suc left) i zero (s ∷ paths) s_addr p h = (0, rw h (omega arith), omega arith, h)
sender_from (suc left) i (suc j) (s ∷ paths) s_addr p h =
    elim (Bool-cases (s.enabled && (s.s_addr == s_addr))) [
      | inl e ↦ (0, rw e (omega arith), omega arith, e)
      | inr e ↦
          let (m, runs, le, found) = sender_from left (i + 1) j paths s_addr (omega arith) h in
          (suc m, rw e (omega (arith, runs)), omega arith, found)
    ]

-- If some enabled path has the sender's address, `sender_path` names the first one that has.
pub sender_path-first :
    (ctx : TransportCtx) (s_addr j : ℕ)
    → j < ctx.path_count
    → is_sender ctx.paths s_addr j ≡ true
    → (sender_path ctx.path_count 0 ctx.paths s_addr ≤ j)
      × (is_sender ctx.paths s_addr (sender_path ctx.path_count 0 ctx.paths s_addr) ≡ true)
sender_path-first ctx s_addr j p h =
    let (m, runs, le, found) = sender_from ctx.path_count 0 j ctx.paths s_addr p h in
    let e : sender_path ctx.path_count 0 ctx.paths s_addr ≡ m = omega (arith, runs) in
    rw e (le, found)
