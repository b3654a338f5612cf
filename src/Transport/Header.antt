-- ===== src/Transport/Header.antt =====
-- The header read back from its bytes, of src/transport.c.
use coding_gateway.Base.{ℕ, ◌+◌, ◌*◌, ◌/◌, ◌%◌, ◌^◌, ◌<◌, ◌≡◌, refl, arith, List, [], ◌++◌}
use coding_gateway.Wire.{WireHeader, wire_magic}
use coding_gateway.Transport.{htons, htonl, ntohs, ntohl, header_bytes, read_header}

-- Every field fits its type, and the first one is the magic number.
pub record IsHeader (h : WireHeader) : Type 0 where
  pub magic : h.magic ≡ htons wire_magic
  pub version : h.version < 2 ^ 8
  pub kind : h.kind < 2 ^ 8
  pub block_id : h.block_id < 2 ^ 32
  pub shard_idx : h.shard_idx < 2 ^ 8
  pub k : h.k < 2 ^ 8
  pub n : h.n < 2 ^ 8
  pub reserved : h.reserved < 2 ^ 8
  pub payload_len : h.payload_len < 2 ^ 16

pub ntohs-htons : (x : ℕ) (rest : List ℕ) → x < 2 ^ 16 → ntohs (htons x ++ rest) 0 ≡ x
ntohs-htons x rest h = omega arith

pub ntohl-htonl : (x : ℕ) (rest : List ℕ) → x < 2 ^ 32 → ntohl (htonl x ++ rest) 0 ≡ x
ntohl-htonl x rest h = omega arith

-- A header whose fields fit their types is read back from its 14 bytes, whatever follows them.
pub read_header-header_bytes :
    (h : WireHeader) (rest : List ℕ) → IsHeader h → read_header (header_bytes h ++ rest) ≡ h
unfolding read_header header_bytes
read_header-header_bytes h rest ok =
    let version : h.version % 256 ≡ h.version = omega (arith, ok.version) in
    let kind : h.kind % 256 ≡ h.kind = omega (arith, ok.kind) in
    let shard_idx : h.shard_idx % 256 ≡ h.shard_idx = omega (arith, ok.shard_idx) in
    let k : h.k % 256 ≡ h.k = omega (arith, ok.k) in
    let n : h.n % 256 ≡ h.n = omega (arith, ok.n) in
    let reserved : h.reserved % 256 ≡ h.reserved = omega (arith, ok.reserved) in
    let payload_len : h.payload_len / 256 % 256 * 256 + h.payload_len % 256 ≡ h.payload_len =
      omega (arith, ok.payload_len) in
    rw
      (
        ok.magic,
        version,
        kind,
        ntohl-htonl h.block_id [] ok.block_id,
        shard_idx,
        k,
        n,
        reserved,
        payload_len,
      )
      refl
