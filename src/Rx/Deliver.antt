-- ===== src/Rx/Deliver.antt =====
-- A block of which enough shards have arrived is written to the TUN device.
use coding_gateway.Base.{
  ℕ, zero, suc, ◌-◌, ◌≤◌, ◌<◌, ◌≡◌, refl, sym, ap, ◌∙◌, arith, List, [], ◌∷◌, ◌++◌, map, Bool, true,
  false, ltb, length, get_or, replicate, get_or-append_left, length-append,
}
use coding_gateway.Limits.{max_k}
use coding_gateway.Codec.{Shard}
use coding_gateway.Codec.Decode.{blank}
use coding_gateway.Codec.Source.{IsSource, IsShardOf, AreShardsOf, IsStack, packets}
use coding_gateway.Codec.Kernel.{IsDependent}
use coding_gateway.Codec.RoundTrip.{decode_block-recovers}
use coding_gateway.Rx.{RxBlock, zero_shard}
use coding_gateway.Rx.Window.{collect, stripped, try_decode}
use coding_gateway.Rx.Slot.{IsSlot, count_true}

length-collect :
    (k : ℕ) (flags : List Bool) (shards : List Shard)
    → length flags ≡ length shards
    → k ≤ count_true flags
    → length (collect k flags shards) ≡ k
unfolding collect
length-collect zero flags shards e h = refl
length-collect (suc k) [] shards e h = absurd (omega arith)
length-collect (suc k) (f ∷ flags) [] e h = absurd (omega arith)
length-collect (suc k) (true ∷ flags) (s ∷ shards) e h =
    ap suc (length-collect k flags shards (omega arith) (omega arith))
length-collect (suc k) (false ∷ flags) (s ∷ shards) e h =
    length-collect (suc k) flags shards (omega arith) (omega arith)

each-collect {κ} :
    (P : Shard → Type κ) (k : ℕ) (flags : List Bool) (shards : List Shard)
    → ((i : ℕ) → get_or flags i false ≡ true → P (get_or shards i blank))
    → (m : ℕ) → m < length (collect k flags shards)
    → P (get_or (collect k flags shards) m blank)
unfolding collect
each-collect P zero flags shards h m p = absurd (omega arith)
each-collect P (suc k) [] shards h m p = absurd (omega arith)
each-collect P (suc k) (f ∷ flags) [] h m p = absurd (omega arith)
each-collect P (suc k) (true ∷ flags) (s ∷ shards) h zero p = h 0 refl
each-collect P (suc k) (true ∷ flags) (s ∷ shards) h (suc m) p =
    each-collect P k flags shards (λ i. h (suc i)) m (omega arith)
each-collect P (suc k) (false ∷ flags) (s ∷ shards) h m p =
    each-collect P (suc k) flags shards (λ i. h (suc i)) m p

-- The array `k_shards` of `try_decode`.
abbrev pub k_shards : RxBlock → ℕ → List Shard
k_shards b k =
    collect k b.received b.shards
    ++ replicate (max_k - length (collect k b.received b.shards)) zero_shard

-- A slot that was not decoded yet and has `k` shards or more, each of them a combination of the
-- source packets of one block. If the first `k` are linearly independent, `try_decode` writes every
-- packet of the block, cut to its IP length, in order, and marks the slot as decoded.
pub try_decode-delivers :
    {k l : ℕ} {xs stack : List (List ℕ)} {b : RxBlock}
    → IsSource k l xs
    → IsStack k l stack
    → IsSlot b
    → b.decoded ≡ false
    → k ≤ b.recv_count
    → ((i : ℕ) → get_or b.received i false ≡ true → IsShardOf k l xs (get_or b.shards i blank))
    → ¬ IsDependent k (k_shards b k)
    → try_decode stack b k ≡ record {
      block = record b { decoded = true };
      written = map stripped (packets l xs);
      newly = true;
    }
unfolding try_decode
try_decode-delivers {k} {l} {xs} {stack} {b} src mem v fresh enough each free =
    rw (fresh, not_short, decode_block-recovers src mem arrived free)
  where
    not_short : ltb b.recv_count k ≡ false
    not_short = ground arith

    size : length (collect k b.received b.shards) ≡ k
    size =
        length-collect k b.received b.shards (v.flag_room ∙ sym v.shard_room)
          (omega (arith, v.counted))

    arrived : AreShardsOf k l xs (k_shards b k)
    arrived = record {
      count = omega (
        arith,
        size,
        length-append (collect k b.received b.shards)
            (replicate (max_k - length (collect k b.received b.shards)) zero_shard),
      );
      each = λ i p.
          let inside : i < length (collect k b.received b.shards) = omega (arith, size) in
          rw
            (get_or-append_left (collect k b.received b.shards)
              (replicate (max_k - length (collect k b.received b.shards)) zero_shard) i blank
              inside)
            (each-collect (IsShardOf k l xs) k b.received b.shards each i inside);
    }
