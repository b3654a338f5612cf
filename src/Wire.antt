-- ===== src/Wire.antt =====
-- include/transport.h: the constants and the header of the wire protocol.
use coding_gateway.Base.{ℕ, List}

abbrev pub wire_magic : ℕ
wire_magic = 0xc0de

abbrev pub wire_version : ℕ
wire_version = 1

abbrev pub type_data : ℕ
type_data = 1

abbrev pub type_probe : ℕ
type_probe = 2

abbrev pub type_probe_echo : ℕ
type_probe_echo = 3

abbrev pub wire_hdr_size : ℕ
wire_hdr_size = 14

-- The field `magic` is its two bytes in memory, the other fields are numbers.
pub record WireHeader : Type 0 where
  pub magic : List ℕ
  pub version : ℕ
  pub kind : ℕ
  pub block_id : ℕ
  pub shard_idx : ℕ
  pub k : ℕ
  pub n : ℕ
  pub reserved : ℕ
  pub payload_len : ℕ
