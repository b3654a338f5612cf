-- ===== src/Rx.antt =====
-- include/rx.h and src/rx.c: the receive window. A function that changes `*win` returns the new
-- window; a pointer to a slot is its index. The time is an argument.
pub mod IpLength
pub mod Window
pub mod Slot
pub mod Invariant
pub mod Deliver
pub mod Strip
mod Tests
use coding_gateway.Base.{ℕ, List, Bool, false, replicate}
use coding_gateway.Limits.{max_k, max_n, max_payload, max_window}
use coding_gateway.Codec.{Shard}

pub record RxBlock : Type 0 where
  pub block_id : ℕ
  pub shards : List Shard
  pub received : List Bool
  pub recv_count : ℕ
  pub decoded : Bool
  pub first_recv_us : ℕ

pub record RxWindow : Type 0 where
  pub slots : List RxBlock
  pub base_id : ℕ

-- What `memset` with 0 makes of a shard and of a slot.
unfoldable pub zero_shard : Shard
zero_shard = record { coeffs = replicate max_k 0; payload = replicate max_payload 0; len = 0 }

unfoldable pub zero_block : RxBlock
zero_block = record {
  block_id = 0;
  shards = replicate max_n zero_shard;
  received = replicate max_n false;
  recv_count = 0;
  decoded = false;
  first_recv_us = 0;
}

unfoldable pub rx_window_init : RxWindow
rx_window_init = record { slots = replicate max_window zero_block; base_id = 0 }
