-- ===== src/Codec/Tests.antt =====
-- A block of two packets, as in src/test_codec.c: encoded into four shards, with two of them lost.
use coding_gateway.Base.{
  ℕ, zero, suc, ◌+◌, ◌*◌, ◌≤◌, ◌<◌, ◌≡◌, ◌≢◌, refl, sym, ◌∙◌, arith, List, [], ◌∷◌, some, none, ◌↔◌,
  get_or, length, get_or-Every, Every-AreBytes,
}
use coding_gateway.Codec.{Shard, longest, encode_block}
use coding_gateway.Codec.Decode.{blank, Packet, decode_block}
use coding_gateway.Codec.Row.{column, AreBytePackets}
use coding_gateway.Codec.Kernel.{IsDependent}
use coding_gateway.Codec.Source.{IsSource, IsShardOf, AreShardsOf, IsStack}
use coding_gateway.Codec.EncodeShard.{IsPadded, IsBuffer}
use coding_gateway.Codec.Encode.{
  AreBuffers, encode_block-IsShardOf, decode_block-encode_block, decode_block-first_shards,
}
use coding_gateway.Codec.RoundTrip.{decode_block-recovers, decode_block-none_iff}

abbrev source : List (List ℕ)
source = (10 ∷ 20 ∷ 30 ∷ []) ∷ (200 ∷ 100 ∷ 0 ∷ []) ∷ []

abbrev lengths : List ℕ
lengths = 3 ∷ 2 ∷ []

-- What the uninitialised arrays hold.
abbrev memory : List ℕ
memory = 7 ∷ 8 ∷ 9 ∷ 11 ∷ []

abbrev buffer : Shard
buffer = record { coeffs = memory; payload = memory; len = 5 }

abbrev buffers : List Shard
buffers = buffer ∷ buffer ∷ buffer ∷ buffer ∷ []

abbrev rand : ℕ → ℕ
rand t = t * t * 77 + 512

abbrev stack : List (List ℕ)
stack = memory ∷ memory ∷ []

abbrev restored : List Packet
restored =
    record { bytes = 10 ∷ 20 ∷ 30 ∷ []; len = 3 }
    ∷ record { bytes = 200 ∷ 100 ∷ 0 ∷ []; len = 3 }
    ∷ []

column_bytes : AreBytePackets source
column_bytes zero = Every-AreBytes (column 0 source) (omega arith)
column_bytes (suc zero) = Every-AreBytes (column 1 source) (omega arith)
column_bytes (suc (suc zero)) = Every-AreBytes (column 2 source) (omega arith)
column_bytes (suc (suc (suc p))) = Every-AreBytes (0 ∷ 0 ∷ []) (omega arith)

source-IsSource : IsSource 2 3 source
source-IsSource = record {
  count = refl;
  long = get_or-Every (λ (x : List ℕ). 3 ≤ length x) source [] (omega arith);
  are_bytes = column_bytes;
}

padding : (i p : ℕ) → i < 2 → get_or lengths i 0 ≤ p → p < 3 → get_or (get_or source i []) p 0 ≡ 0
padding zero p h q r = absurd (omega arith)
padding (suc zero) zero h q r = absurd (omega arith)
padding (suc zero) (suc zero) h q r = absurd (omega arith)
padding (suc zero) (suc (suc zero)) h q r = refl
padding (suc zero) (suc (suc (suc p))) h q r = absurd (omega arith)
padding (suc (suc i)) p h q r = absurd (omega arith)

source-IsPadded : IsPadded 2 3 source lengths
source-IsPadded = record {
  count = omega arith;
  fits = get_or-Every (λ n. n ≤ 3) lengths 0 (omega arith);
  zeros = padding;
}

buffer-IsBuffer : IsBuffer 2 3 buffer
buffer-IsBuffer = record {
  width = omega arith;
  room = omega arith;
  coeff_bytes = Every-AreBytes memory (omega arith);
}

buffers-AreBuffers : AreBuffers 4 2 3 buffers
buffers-AreBuffers = record {
  count = omega arith;
  each =
      get_or-Every (IsBuffer 2 3) buffers blank
        (buffer-IsBuffer, (buffer-IsBuffer, (buffer-IsBuffer, (buffer-IsBuffer, tt))));
}

stack-IsStack : IsStack 2 3 stack
stack-IsStack = record {
  count = omega arith;
  room = get_or-Every (λ (x : List ℕ). 3 ≤ length x) stack [] (omega arith);
}

abbrev shards : List Shard
shards = encode_block rand source lengths 2 4 buffers

abbrev lossy : List Shard
lossy = get_or shards 3 blank ∷ get_or shards 2 blank ∷ []

lossy_runs : decode_block stack lossy 2 ≡ some restored
unfolding encode_block decode_block
lossy_runs = refl

repeated_fails : decode_block stack (get_or shards 2 blank ∷ get_or shards 2 blank ∷ []) 2 ≡ none
unfolding encode_block decode_block
repeated_fails = refl

some-ne-none : {out : List Packet} → some out ≢ none
some-ne-none h = cc

encode_block-IsShardOf_example : IsShardOf 2 3 source (get_or shards 3 blank)
unfolding longest
encode_block-IsShardOf_example =
    encode_block-IsShardOf rand source-IsSource source-IsPadded buffers-AreBuffers 3 (omega arith)

lossy-AreShardsOf : AreShardsOf 2 3 source lossy
unfolding longest
lossy-AreShardsOf = record {
  count = omega arith;
  each = get_or-Every (IsShardOf 2 3 source) lossy blank (
    encode_block-IsShardOf rand source-IsSource source-IsPadded buffers-AreBuffers 3 (omega arith),
    (
      encode_block-IsShardOf rand source-IsSource source-IsPadded buffers-AreBuffers 2
          (omega arith),
      tt,
    ),
  );
}

decode_block-none_iff_example : (decode_block stack lossy 2 ≡ none) ↔ IsDependent 2 lossy
decode_block-none_iff_example =
    decode_block-none_iff source-IsSource stack-IsStack lossy-AreShardsOf

lossy_independent : ¬ IsDependent 2 lossy
lossy_independent d = some-ne-none (sym lossy_runs ∙ decode_block-none_iff_example.1 d)

decode_block-recovers_example : decode_block stack lossy 2 ≡ some restored
decode_block-recovers_example =
    decode_block-recovers source-IsSource stack-IsStack lossy-AreShardsOf lossy_independent

decode_block-encode_block_example : decode_block stack lossy 2 ≡ some restored
unfolding longest
decode_block-encode_block_example =
    decode_block-encode_block rand source-IsSource source-IsPadded buffers-AreBuffers stack-IsStack
      (3 ∷ 2 ∷ []) (omega arith) (get_or-Every (λ i. i < 4) (3 ∷ 2 ∷ []) 0 (omega arith))
      lossy_independent

decode_block-first_shards_example : decode_block stack shards 2 ≡ some restored
unfolding longest
decode_block-first_shards_example =
    decode_block-first_shards rand source-IsSource source-IsPadded buffers-AreBuffers stack-IsStack
      (omega arith)
