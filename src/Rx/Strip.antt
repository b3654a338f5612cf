-- ===== src/Rx/Strip.antt =====
-- `ip_packet_length` takes the padding off an IP packet.
use coding_gateway.Base.{
  take-append, ℕ, ◌+◌, ◌*◌, ◌/◌, ◌^◌, ◌≤◌, ◌<◌, ◌≡◌, refl, arith, List, ◌++◌, true, ◌==◌, ◌⊎◌, inl,
  inr, length, get_or, bit_or, bit_and-15, all_below, all_below_sound, ==_iff, AreBytes,
  get_or-append_left, length-append,
}
use coding_gateway.Rx.IpLength.{be16_at, ip_packet_length}
use coding_gateway.Rx.Window.{stripped}

or_table : all_below 256 (λ a. all_below 256 (λ b. bit_or (a * 256) b == a * 256 + b)) ≡ true
unfolding all_below
or_table = refl

be16_lem :
    (pkt : List ℕ) (i : ℕ)
    → AreBytes pkt
    → be16_at pkt i ≡ get_or pkt i 0 * 256 + get_or pkt (i + 1) 0
unfolding be16_at
be16_lem pkt i h =
    let e : bit_or (get_or pkt i 0 * 256) (get_or pkt (i + 1) 0)
        ≡ get_or pkt i 0 * 256 + get_or pkt (i + 1) 0 =
      (==_iff _ _).0 (
        all_below_sound 256 (λ b. bit_or (get_or pkt i 0 * 256) b == get_or pkt i 0 * 256 + b)
          (get_or pkt (i + 1) 0) (all_below_sound 256 _ (get_or pkt i 0) or_table (h i))
          (h (i + 1))) in
    omega (arith, e, h i, h (i + 1))

-- The length that `ip_packet_length` returns is at most that of the padded packet.
pub ip_packet_length-le : (pkt : List ℕ) (l : ℕ) → ip_packet_length pkt l ≤ l
unfolding ip_packet_length
ip_packet_length-le pkt l = ground arith

-- An IPv4 packet of the length that its header says.
abbrev pub IsIpv4 : List ℕ → Type 0
IsIpv4 x =
    (20 ≤ length x) × (get_or x 0 0 / 16 ≡ 4) × (get_or x 2 0 * 256 + get_or x 3 0 ≡ length x)

-- An IPv6 packet of the length that its header says.
abbrev pub IsIpv6 : List ℕ → Type 0
IsIpv6 x =
    (40 ≤ length x) × (get_or x 0 0 / 16 ≡ 6) × (get_or x 4 0 * 256 + get_or x 5 0 + 40 ≡ length x)

module _ (x pad : List ℕ) (bytes : AreBytes (x ++ pad)) (small : length (x ++ pad) < 2 ^ 16) where
  abbrev l : ℕ
  l = length (x ++ pad)

  in_packet : (i : ℕ) → i < length x → get_or (x ++ pad) i 0 ≡ get_or x i 0
  in_packet i h = get_or-append_left x pad i 0 h

  length_ipv4 : IsIpv4 x → ip_packet_length (x ++ pad) l ≡ length x
  unfolding ip_packet_length
  length_ipv4 (long, version, total) = ground (
    arith,
    in_packet 0,
    in_packet 2,
    in_packet 3,
    be16_lem (x ++ pad) 2 bytes,
    bit_and-15 (get_or (x ++ pad) 0 0 / 16),
    length-append x pad,
  )

  length_ipv6 : IsIpv6 x → ip_packet_length (x ++ pad) l ≡ length x
  unfolding ip_packet_length
  length_ipv6 (long, version, total) = ground (
    arith,
    in_packet 0,
    in_packet 4,
    in_packet 5,
    be16_lem (x ++ pad) 4 bytes,
    bit_and-15 (get_or (x ++ pad) 0 0 / 16),
    length-append x pad,
  )

  -- An IPv4 or IPv6 packet, padded with any bytes to less than 2^16, is written to the TUN device
  -- as it was before the padding.
  pub stripped-padded :
      IsIpv4 x ⊎ IsIpv6 x → stripped (record { bytes = x ++ pad; len = length (x ++ pad) }) ≡ x
  stripped-padded (inl h) = rw (length_ipv4 h) (take-append x pad)
  stripped-padded (inr h) = rw (length_ipv6 h) (take-append x pad)
