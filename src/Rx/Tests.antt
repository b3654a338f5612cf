-- ===== src/Rx/Tests.antt =====
-- Runs of the receive window, in the situations of src/test_rx.c and beyond them.
use coding_gateway.Base.{
  ℕ, zero, suc, ◌+◌, ◌≤◌, ◌<◌, ◌^◌, ◌≡◌, ◌≢◌, refl, sym, ◌∙◌, arith, List, [], ◌∷◌, ◌++◌, true,
  false, some, ◌⊎◌, inl, inr, get_or, length, replicate, map, get_or-Every, Every-AreBytes,
  AreBytes,
}
use coding_gateway.Limits.{max_n}
use coding_gateway.Codec.{Shard}
use coding_gateway.Codec.Decode.{blank, decode_block}
use coding_gateway.Codec.Source.{IsSource, IsShardOf, IsStack, packets}
use coding_gateway.Codec.Kernel.{IsDependent}
use coding_gateway.Codec.Dot.{dot, delta, dot_of_unit}
use coding_gateway.Gf256.Field.{one-mul}
use coding_gateway.Base.{xor-zero, get_or-replicate, get_or_of_ge}
use coding_gateway.Crypto.{CryptoCtx}
use coding_gateway.Wire.{WireHeader}
use coding_gateway.Rx.{RxBlock, RxWindow, zero_shard, zero_block, rx_window_init}
use coding_gateway.Rx.IpLength.{ip_packet_length}
use coding_gateway.Rx.Window.{
  distance, slot, stripped, collect, rx_window_insert, try_decode, rx_window_try_decode,
  advance_round, rx_window_advance,
}
use coding_gateway.Rx.Window.Advance.{IsNear, IsSettled, rx_window_advance-terminates}
use coding_gateway.Rx.Window.Stale.{IsPending, rx_window_advance-passes_pending}
use coding_gateway.Rx.Window.Spared.{slot_behind-kept}
use coding_gateway.Rx.Slot.{IsSlot, Handling, handled_all, insertion, decoding, try_decode-once}
use coding_gateway.Rx.Invariant.{IsWindow, init-IsWindow, rx_window-IsWindow}
use coding_gateway.Rx.Deliver.{k_shards, try_decode-delivers}
use coding_gateway.Rx.Strip.{ip_packet_length-le, stripped-padded}

-- Blocks 0 and 1, each with one shard of two.
abbrev waiting : ℕ → RxBlock
waiting id = record {
  block_id = id;
  shards = replicate max_n zero_shard;
  received = true ∷ replicate 31 false;
  recv_count = 1;
  decoded = false;
  first_recv_us = 90;
}

abbrev interleaved : RxWindow
interleaved = record { slots = waiting 0 ∷ waiting 1 ∷ []; base_id = 0 }

abbrev clock : ℕ → ℕ
clock t = 100 + t

-- What is left of them: the base is past block 0, whose slot stays in use.
abbrev leaked : RxWindow
leaked = record { slots = waiting 0 ∷ waiting 1 ∷ []; base_id = 1 }

interleaved_runs : rx_window_advance 5 (λ _. 100) 0 interleaved 2 ≡ some leaked
unfolding rx_window_advance
interleaved_runs = refl

pending_words : (base i : ℕ) → (slot (record interleaved { base_id = base }) i).block_id < 2 ^ 32
unfolding zero_block
pending_words base zero = omega arith
pending_words base (suc zero) = omega arith
pending_words base (suc (suc i)) = omega arith

interleaved-IsNear : IsNear 2 2 interleaved
interleaved-IsNear = record {
  room = omega arith;
  base_word = omega arith;
  id_word = pending_words 0;
  near = near;
}
  where
    near :
        (i : ℕ)
        → i < 2
        → 0 < (slot interleaved i).recv_count
        → (distance (slot interleaved i).block_id 0 < 2)
          ⊎ (2 ^ 31 + 2 ≤ distance (slot interleaved i).block_id 0)
    near zero p u = inl (omega arith)
    near (suc zero) p u = inl (omega arith)
    near (suc (suc i)) p u = absurd (omega arith)

leaked-IsNear : IsNear 2 2 leaked
leaked-IsNear = record {
  room = omega arith;
  base_word = omega arith;
  id_word = pending_words 1;
  near = near;
}
  where
    near :
        (i : ℕ)
        → i < 2
        → 0 < (slot leaked i).recv_count
        → (distance (slot leaked i).block_id 1 < 2)
          ⊎ (2 ^ 31 + 2 ≤ distance (slot leaked i).block_id 1)
    near zero p u = inr (omega arith)
    near (suc zero) p u = inl (omega arith)
    near (suc (suc i)) p u = absurd (omega arith)

rx_window_advance-terminates_example :
    (w : RxWindow) × (rx_window_advance 3 clock 0 interleaved 2 ≡ some w) × IsSettled 2 w
rx_window_advance-terminates_example =
    rx_window_advance-terminates 2 3 clock 0 interleaved 2 (omega arith) (omega arith)
      interleaved-IsNear

still : ℕ → ℕ
still t = 100

waiting-IsPending : (i : ℕ) → i < 2 → IsPending still interleaved i
unfolding still
waiting-IsPending zero p = record { used = omega arith; undecoded = refl; unexpired = λ t. refl }
waiting-IsPending (suc zero) p = record {
  used = omega arith;
  undecoded = refl;
  unexpired = λ t. refl;
}
waiting-IsPending (suc (suc i)) p = absurd (omega arith)

still_runs : rx_window_advance 5 still 0 interleaved 2 ≡ some leaked
unfolding rx_window_advance still
still_runs = refl

rx_window_advance-passes_pending_example :
    (slot leaked 0 ≡ waiting 0) × (slot leaked 1 ≡ waiting 1) × (2 ^ 31 ≤ distance 0 1)
rx_window_advance-passes_pending_example =
    rx_window_advance-passes_pending 2 5 still interleaved leaked 2 0 1 (omega arith)
      interleaved-IsNear (omega arith) (omega arith) (waiting-IsPending 0 (omega arith))
      (waiting-IsPending 1 (omega arith)) (omega arith) (omega arith) still_runs

abbrev header : ℕ → ℕ → WireHeader
header id idx = record {
  magic = 0xc0 ∷ 0xde ∷ [];
  version = 1;
  kind = 1;
  block_id = id;
  shard_idx = idx;
  k = 2;
  n = 4;
  reserved = 0;
  payload_len = 3;
}

abbrev plain : CryptoCtx
plain = record { key = replicate 32 0; enabled = false }

-- The shard that would complete block 0 is not taken any more.
slot_behind-kept_example :
    (slot (rx_window_insert leaked (header 0 1) zero_shard 2 plain 100) 0 ≡ waiting 0)
    × (slot (rx_window_try_decode [] leaked 0 2 2).window 0 ≡ waiting 0)
slot_behind-kept_example =
    slot_behind-kept leaked 0 (omega arith) (omega arith) (header 0 1) zero_shard plain 100 0 2 2 []

leaked_runs : rx_window_advance 5 still 0 leaked 2 ≡ some leaked
unfolding rx_window_advance still
leaked_runs = refl

waiting-IsSlot : IsSlot (waiting 0)
waiting-IsSlot = record { shard_room = refl; flag_room = refl; counted = refl }

rx_window-IsWindow_example :
    IsWindow rx_window_init
    × IsWindow (rx_window_insert rx_window_init (header 3 1) zero_shard 8 plain 100)
    × IsWindow (rx_window_try_decode [] rx_window_init 3 2 8).window
    × IsWindow (advance_round rx_window_init 8 100).0
rx_window-IsWindow_example =
    rx_window-IsWindow rx_window_init (header 3 1) zero_shard plain 100 3 2 8 [] (omega arith)
      init-IsWindow

-- Two packets, an IPv4 one of 20 bytes and one that is not IP; shards 0 and 1 have arrived.
abbrev ipv4 : List ℕ
ipv4 = 0x45 ∷ 0 ∷ 0 ∷ 20 ∷ replicate 16 9

abbrev padded : List ℕ
padded = ipv4 ++ (0 ∷ 0 ∷ [])

abbrev source : List (List ℕ)
source = padded ∷ []

abbrev arrived : Shard
arrived = record { coeffs = 1 ∷ []; payload = padded; len = 22 }

abbrev ready : RxBlock
ready = record (waiting 0) { shards = arrived ∷ replicate 31 zero_shard }

abbrev stack : List (List ℕ)
stack = replicate 22 5 ∷ []

padded-AreBytes : AreBytes padded
padded-AreBytes = Every-AreBytes padded (omega arith)

source-IsSource : IsSource 1 22 source
source-IsSource = record {
  count = refl;
  long = get_or-Every (λ (x : List ℕ). 22 ≤ length x) source [] (omega arith);
  are_bytes = λ p. Every-AreBytes (get_or padded p 0 ∷ []) (padded-AreBytes p, tt);
}

stack-IsStack : IsStack 1 22 stack
stack-IsStack = record {
  count = omega arith;
  room = get_or-Every (λ (x : List ℕ). 22 ≤ length x) stack [] (omega arith);
}

ready_runs : (try_decode stack ready 1).newly ≡ true
unfolding try_decode decode_block
ready_runs = refl

-- A second shard of the block arrives, and decoding is tried again.
abbrev afterwards : List Handling
afterwards = insertion (header 0 1) arrived plain 200 ∷ decoding stack 1 ∷ []

try_decode-once_example :
    handled_all (try_decode stack ready 1).block afterwards ≡ ((try_decode stack ready 1).block, [])
try_decode-once_example = try_decode-once stack ready 1 afterwards ready_runs

ip_packet_length-le_example : ip_packet_length padded 22 ≤ 22
ip_packet_length-le_example = ip_packet_length-le padded 22

stripped-padded_example : stripped (record { bytes = padded; len = 22 }) ≡ ipv4
stripped-padded_example =
    stripped-padded ipv4 (0 ∷ 0 ∷ []) padded-AreBytes (omega arith) (inl (omega arith))

arrived-IsShardOf : IsShardOf 1 22 source arrived
unfolding dot
arrived-IsShardOf = record {
  width = omega arith;
  coeff_bytes = Every-AreBytes (1 ∷ []) (omega arith);
  full = refl;
  room = omega arith;
  meets = λ p q. sym (xor-zero _ ∙ one-mul (get_or padded p 0) (padded-AreBytes p));
}

ready_each :
    (i : ℕ)
    → get_or ready.received i false ≡ true
    → IsShardOf 1 22 source (get_or ready.shards i blank)
ready_each zero h = arrived-IsShardOf
ready_each (suc i) h = absurd (false-ne-true (sym (get_or-replicate 31 i false) ∙ h))
  where
    false-ne-true : false ≢ true
    false-ne-true h = cc

unit_entries : (c : ℕ) → c < 1 → get_or (1 ∷ []) c 0 ≡ delta c 0
unit_entries zero p = refl
unit_entries (suc c) p = absurd (omega arith)

ready_independent : ¬ IsDependent 1 (k_shards ready 1)
unfolding collect
ready_independent d = d.nonzero (at d.place)
  where
    first : get_or d.relation 0 0 ≡ 0
    first =
        sym (
          dot_of_unit (1 ∷ []) d.relation 0 d.are_bytes (omega (arith, d.size))
            (λ c q. unit_entries c (omega (arith, d.size))))
        ∙ d.kills 0 (omega arith)

    at : (i : ℕ) → get_or d.relation i 0 ≡ 0
    at zero = first
    at (suc i) = get_or_of_ge d.relation (suc i) 0 (omega (arith, d.size))

try_decode-delivers_example : try_decode stack ready 1 ≡ record {
  block = record ready { decoded = true };
  written = map stripped (packets 22 source);
  newly = true;
}
try_decode-delivers_example =
    try_decode-delivers source-IsSource stack-IsStack
      (record { shard_room = refl; flag_room = refl; counted = refl }) refl (omega arith) ready_each
      ready_independent
