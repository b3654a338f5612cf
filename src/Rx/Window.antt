-- ===== src/Rx/Window.antt =====
-- The window's lookup, insertion, decoding and advance, of src/rx.c.
pub mod Find
pub mod Advance
pub mod Stale
pub mod Spared
use coding_gateway.Base.{
  ℕ, zero, suc, ◌+◌, ◌-◌, ◌*◌, ◌%◌, ◌^◌, List, [], ◌∷◌, ◌++◌, Bool, true, false, not, ◌&&◌, ◌||◌,
  bit_or, ◌==◌, leb, ltb, if◌then◌else◌, Option, none, some, get_or, set, length, replicate, map,
  take,
}
use coding_gateway.Limits.{max_k, max_n}
use coding_gateway.Codec.{Shard}
use coding_gateway.Codec.Decode.{Packet, decode_block}
use coding_gateway.Crypto.{CryptoCtx, crypto_xor}
use coding_gateway.Wire.{WireHeader}
use coding_gateway.Rx.{RxBlock, RxWindow, zero_shard, zero_block}
use coding_gateway.Rx.IpLength.{ip_packet_length}

abbrev pub rx_block_timeout_us : ℕ
rx_block_timeout_us = 50000

-- `block_id - base_id` as a `uint32_t`; as an `int32_t` it is negative from 2^31 on.
abbrev pub distance : ℕ → ℕ → ℕ
distance block_id base_id = (block_id + 2 ^ 32 - base_id) % 2 ^ 32

abbrev pub is_negative : ℕ → Bool
is_negative d = leb (2 ^ 31) d

abbrev pub holds : ℕ → RxBlock → Bool
holds block_id b = ltb 0 b.recv_count && (b.block_id == block_id)

abbrev pub is_free : RxBlock → Bool
is_free b = b.recv_count == 0

-- The first of the next `left` slots, from index `i` on, that passes the test.
unfoldable pub find_slot : (RxBlock → Bool) → ℕ → ℕ → List RxBlock → Option ℕ
find_slot test zero i slots = none
find_slot test (suc left) i [] = none
find_slot test (suc left) i (b ∷ slots) =
    if test b then some i else find_slot test left (i + 1) slots

unfoldable pub rx_find : RxWindow → ℕ → ℕ → RxWindow × Option ℕ
unfolding find_slot
rx_find win block_id window_size =
    let d = distance block_id win.base_id in
    if is_negative d || leb window_size d
    then (win, none)
    else elim (find_slot (holds block_id) window_size 0 win.slots) [
      | some i ↦ (win, some i)
      | none ↦ elim (find_slot is_free window_size 0 win.slots) [
        | some i ↦ (
          record win { slots = set win.slots i (record zero_block { block_id = block_id }) },
          some i,
        )
        | none ↦ (win, none)
      ]
    ]

abbrev pub slot : RxWindow → ℕ → RxBlock
slot win i = get_or win.slots i zero_block

-- The shard with its payload decrypted; a NULL context is one that is not enabled.
unfoldable pub decrypted : CryptoCtx → ℕ → ℕ → Shard → Shard
decrypted crypto block_id idx s =
    if crypto.enabled
    then record s {
      payload = crypto_xor crypto s.payload s.len (bit_or (block_id * 2 ^ 8 % 2 ^ 64) idx);
    }
    else s

-- The part of `rx_window_insert` that works on the slot found.
unfoldable pub insert_into : RxBlock → WireHeader → Shard → CryptoCtx → ℕ → RxBlock
unfolding decrypted
insert_into blk hdr s crypto now =
    if blk.decoded || leb max_n hdr.shard_idx || get_or blk.received hdr.shard_idx false
    then blk
    else record blk {
      shards = set blk.shards hdr.shard_idx (decrypted crypto hdr.block_id hdr.shard_idx s);
      received = set blk.received hdr.shard_idx true;
      recv_count = blk.recv_count + 1;
      first_recv_us = if blk.recv_count + 1 == 1 then now else blk.first_recv_us;
    }

unfoldable pub rx_window_insert : RxWindow → WireHeader → Shard → ℕ → CryptoCtx → ℕ → RxWindow
unfolding rx_find insert_into
rx_window_insert win hdr s window_size crypto now =
    let (win', found) = rx_find win hdr.block_id window_size in
    elim found [
      | none ↦ win'
      | some i ↦ record win' {
        slots = set win'.slots i (insert_into (slot win' i) hdr s crypto now);
      }
    ]

-- The first `k` shards received, in the order of their indices.
unfoldable pub collect : ℕ → List Bool → List Shard → List Shard
collect zero received shards = []
collect (suc k) [] shards = []
collect (suc k) (r ∷ received) [] = []
collect (suc k) (true ∷ received) (s ∷ shards) = s ∷ collect k received shards
collect (suc k) (false ∷ received) (s ∷ shards) = collect (suc k) received shards

-- What `tun_write` is given for a recovered packet.
abbrev pub stripped : Packet → List ℕ
stripped p = take (ip_packet_length p.bytes p.len) p.bytes

pub record Decoding : Type 0 where
  pub block : RxBlock
  pub written : List (List ℕ)
  pub newly : Bool

-- `try_decode`; `stack` is what the arrays of `decode_block` held before.
unfoldable pub try_decode : List (List ℕ) → RxBlock → ℕ → Decoding
unfolding collect
try_decode stack blk k =
    if blk.decoded || ltb blk.recv_count k
    then record { block = blk; written = []; newly = false }
    else let k_shards = collect k blk.received blk.shards in
      elim (decode_block stack (k_shards ++ replicate (max_k - length k_shards) zero_shard) k) [
        | none ↦ record { block = blk; written = []; newly = false }
        | some out ↦ record {
          block = record blk { decoded = true };
          written = map stripped out;
          newly = true;
        }
      ]

pub record Delivery : Type 0 where
  pub window : RxWindow
  pub written : List (List ℕ)
  pub newly : Bool

unfoldable pub rx_window_try_decode : List (List ℕ) → RxWindow → ℕ → ℕ → ℕ → Delivery
unfolding rx_find try_decode
rx_window_try_decode stack win block_id k window_size =
    let (win', found) = rx_find win block_id window_size in
    elim found [
      | none ↦ record { window = win'; written = []; newly = false }
      | some i ↦
          let d = try_decode stack (slot win' i) k in
          record {
            window = record win' { slots = set win'.slots i d.block };
            written = d.written;
            newly = d.newly;
          }
    ]

-- `(int32_t)(block_id - base_id) > 0`, for a slot in use.
abbrev pub is_newer : ℕ → RxBlock → Bool
is_newer base_id b =
    ltb 0 b.recv_count
    && (not (is_negative (distance b.block_id base_id)) && ltb 0 (distance b.block_id base_id))

abbrev pub next_id : ℕ → ℕ
next_id base_id = (base_id + 1) % 2 ^ 32

abbrev pub is_expired : ℕ → RxBlock → Bool
is_expired now b = leb rx_block_timeout_us ((now + 2 ^ 64 - b.first_recv_us) % 2 ^ 64)

-- The second half of a round of `rx_window_advance`, when the base block was not retired.
unfoldable pub skip_base : RxWindow → ℕ → RxWindow × Bool
unfolding find_slot
skip_base win window_size = elim (find_slot (is_newer win.base_id) window_size 0 win.slots) [
  | some i ↦ (record win { base_id = next_id win.base_id }, true)
  | none ↦ (win, false)
]

-- A round of the loop of `rx_window_advance`, with the value of `found` that ends it.
unfoldable pub advance_round : RxWindow → ℕ → ℕ → RxWindow × Bool
unfolding find_slot skip_base
advance_round win window_size now = elim (find_slot (holds win.base_id) window_size 0 win.slots) [
  | some i ↦
      if (slot win i).decoded || is_expired now (slot win i)
      then (record win { slots = set win.slots i zero_block; base_id = next_id win.base_id }, true)
      else skip_base win window_size
  | none ↦ skip_base win window_size
]

-- `rx_window_advance` on fuel: `none` means that the fuel ran out. `clock t` is the time that round
-- `t` reads.
unfoldable pub rx_window_advance : ℕ → (ℕ → ℕ) → ℕ → RxWindow → ℕ → Option RxWindow
unfolding advance_round
rx_window_advance zero clock t win window_size = none
rx_window_advance (suc fuel) clock t win window_size =
    let (win', found) = advance_round win window_size (clock t) in
    let rest = rx_window_advance fuel clock (t + 1) win' window_size in
    if found then rest else some win'
