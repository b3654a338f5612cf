-- ===== src/Rx/IpLength.antt =====
-- `ip_packet_length` of src/rx.c.
use coding_gateway.Base.{
  ℕ, ◌+◌, ◌*◌, ◌/◌, ◌%◌, ◌^◌, List, bit_and, bit_or, ◌==◌, leb, ◌&&◌, if◌then◌else◌, get_or,
}

-- `(pkt[i] << 8) | pkt[i + 1]`, as a `uint16_t`.
unfoldable pub be16_at : List ℕ → ℕ → ℕ
be16_at pkt i = bit_or (get_or pkt i 0 * 2 ^ 8) (get_or pkt (i + 1) 0) % 2 ^ 16

unfoldable pub ip_packet_length : List ℕ → ℕ → ℕ
unfolding be16_at
ip_packet_length pkt padded_len =
    let version = bit_and (get_or pkt 0 0 / 2 ^ 4) 0x0f in
    let total4 = be16_at pkt 2 in
    let total6 = (be16_at pkt 4 + 40) % 2 ^ 16 in
    if leb 20 padded_len
    then if version == 4
      then if leb 20 total4 && leb total4 padded_len then total4 else padded_len
      else if (version == 6) && leb 40 padded_len
      then if leb 40 total6 && leb total6 padded_len then total6 else padded_len
      else padded_len
    else padded_len
