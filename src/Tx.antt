-- ===== src/Tx.antt =====
-- include/tx.h and src/tx.c: the block of packets that waits to be encoded and sent. The time, the
-- values of `rand()`, what the local array of shards held before, and the kernel's answer to the
-- `sendto` of each shard are arguments. Log lines are left out.
pub mod Queue
pub mod Prepared
pub mod Received
pub mod EndToEnd
pub mod Loop
mod Tests
use coding_gateway.Base.{
  ℕ, zero, suc, ◌+◌, ◌-◌, ◌*◌, ◌%◌, ◌^◌, List, [], ◌∷◌, ◌++◌, Bool, true, false, ◌&&◌, Option, none,
  some, ltb, leb, ◌==◌, if◌then◌else◌, length, get_or, set, take, drop, replicate, memcpy, memset,
  bit_or, ℤ, sub_ℕ, ◌+ℤ◌, scale_up, scale_down, leb_ℤ, update_from,
}
use coding_gateway.Limits.{max_k, max_n, max_payload}
use coding_gateway.Codec.{Shard, longest, encode_block}
use coding_gateway.Codec.Decode.{blank}
use coding_gateway.Crypto.{CryptoCtx, crypto_xor}
use coding_gateway.Float.{FloatOps}
use coding_gateway.Strategy.{StrategyCtx, strategy_next_path, strategy_compute_n}
use coding_gateway.Transport.{TransportCtx, Datagram, transport_send_shard}
use coding_gateway.Metrics.{Metrics, count_up, bump}

pub record Timeval : Type 0 where
  pub sec : ℕ
  pub usec : ℕ

pub record TxBlock : Type 0 where
  pub block_id : ℕ
  pub pkts : List (List ℕ)
  pub pkt_len : List ℕ
  pub pkt_count : ℕ
  pub first_pkt_time : Timeval

unfoldable pub tx_block_init : ℕ → TxBlock
tx_block_init block_id = record {
  block_id = block_id;
  pkts = replicate max_k (replicate max_payload 0);
  pkt_len = replicate max_k 0;
  pkt_count = 0;
  first_pkt_time = record { sec = 0; usec = 0 };
}

-- The block, and whether it is full.
unfoldable pub tx_block_add_pkt : Timeval → TxBlock → List ℕ → ℕ → ℕ → TxBlock × Bool
tx_block_add_pkt now blk pkt len k =
    let i = blk.pkt_count in
    let time = if i == 0 then now else blk.first_pkt_time in
    if ltb i k
    then (
      record blk {
        pkts = set blk.pkts i (memcpy (get_or blk.pkts i []) pkt len);
        pkt_len = set blk.pkt_len i len;
        pkt_count = i + 1;
        first_pkt_time = time;
      },
      leb k (i + 1),
    )
    else (record blk { first_pkt_time = time }, leb k i)

-- The milliseconds from `since` to `now`, with each difference as a `long`.
unfoldable pub elapsed_ms : Timeval → Timeval → ℤ
elapsed_ms now since =
    scale_up (sub_ℕ now.sec since.sec) 1000 +ℤ scale_down (sub_ℕ now.usec since.usec) 1000

unfoldable pub tx_block_needs_flush : Timeval → TxBlock → ℤ → Bool
unfolding elapsed_ms
tx_block_needs_flush now blk timeout_ms =
    if blk.pkt_count == 0 then false else leb_ℤ timeout_ms (elapsed_ms now blk.first_pkt_time)

-- Zeros from the end of a packet up to the length of the longest one.
unfoldable pub pad : List ℕ → ℕ → ℕ → List ℕ → List ℕ
pad pkt_len max_len j pkt =
    let len = get_or pkt_len j 0 in
    if ltb len max_len then take len pkt ++ memset (drop len pkt) 0 (max_len - len) else pkt

-- The block when its missing packets are filled in, as `encode_block` gets it.
unfoldable pub prepared : TxBlock → ℕ → TxBlock
unfolding pad
prepared blk k =
    let max_len = longest blk.pkt_count blk.pkt_len 0 in
    let padded = update_from [] (pad blk.pkt_len max_len) blk.pkt_count 0 blk.pkts in
    record blk {
      pkts =
          update_from [] (λ j pkt. memset pkt 0 max_payload) (k - blk.pkt_count) blk.pkt_count
            padded;
      pkt_len =
          update_from 0 (λ j len. get_or blk.pkt_len 0 0) (k - blk.pkt_count) blk.pkt_count
            blk.pkt_len;
    }

-- Shard `i` with its payload encrypted; a NULL context is one that is not enabled.
unfoldable pub encrypted : CryptoCtx → ℕ → ℕ → Shard → Shard
encrypted crypto block_id i s =
    if crypto.enabled
    then record s {
      payload = crypto_xor crypto s.payload s.len (bit_or (block_id * 2 ^ 8 % 2 ^ 64) i);
    }
    else s

-- The number of shards; the loops do nothing for the value -1.
abbrev pub shard_count : Option ℕ → ℕ
shard_count none = 0
shard_count (some n) = n

-- The shards that are sent.
unfoldable pub coded :
    {F : Type 0}
    → FloatOps F
    → StrategyCtx F
    → TxBlock
    → ℕ
    → CryptoCtx
    → (ℕ → ℕ)
    → List Shard
    → List Shard
unfolding encrypted prepared
coded ops sctx blk k crypto rand out =
    let n = shard_count (strategy_compute_n ops sctx k) in
    let b = prepared blk k in
    update_from blank (encrypted crypto blk.block_id) n 0
      (encode_block rand b.pkts b.pkt_len k n out)

-- What the sending loop changes, and the calls of `sendto` that it makes.
pub record Sending (F D : Type 0) : Type 0 where
  pub sctx : StrategyCtx F
  pub metrics : Metrics D
  pub calls : List Datagram

abbrev pub made : Option Datagram → List Datagram
made none = []
made (some call) = call ∷ []

module _ {F D : Type 0} (ops : FloatOps F) (sendto : ℕ → Datagram → Option ℕ) (tctx : TransportCtx)
    (block_id k n : ℕ) (shards : List Shard) where
  -- The loop body for shard `i`.
  unfoldable pub send_one : ℕ → Sending F D → Sending F D
  send_one i st =
      let chosen = strategy_next_path ops st.sctx in
      elim chosen.1 [
        | none ↦ record st { sctx = chosen.0 }
        | some path ↦
            let sent =
              transport_send_shard (sendto i) tctx path block_id (i % 2 ^ 8) (k % 2 ^ 8) (n % 2 ^ 8)
                (get_or shards i blank) in
            record {
              sctx = chosen.0;
              metrics =
                  if sent.0
                  then record st.metrics { shards_sent = bump st.metrics.shards_sent path }
                  else st.metrics;
              calls = st.calls ++ made sent.1;
            }
      ]

  -- The loop over the shards from `i` on, with the number of shards left.
  unfoldable pub send_shards : ℕ → ℕ → Sending F D → Sending F D
  unfolding send_one
  send_shards zero i st = st
  send_shards (suc left) i st = send_shards left (i + 1) (send_one i st)

unfoldable pub tx_block_flush :
    {F D : Type 0}
    → FloatOps F
    → (ℕ → Datagram → Option ℕ)
    → (ℕ → ℕ)
    → List Shard
    → TxBlock
    → TransportCtx
    → Sending F D
    → ℕ
    → CryptoCtx
    → TxBlock × Sending F D
unfolding prepared coded send_shards
tx_block_flush ops sendto rand out blk tctx st k crypto =
    let n = shard_count (strategy_compute_n ops st.sctx k) in
    let sent =
      send_shards ops sendto tctx blk.block_id k n (coded ops st.sctx blk k crypto rand out) n 0
        st in
    if blk.pkt_count == 0 then (blk, st) else (
      prepared blk k,
      record sent {
        metrics = record sent.metrics { blocks_encoded = count_up sent.metrics.blocks_encoded };
      },
    )
