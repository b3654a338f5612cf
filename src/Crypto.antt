-- ===== src/Crypto.antt =====
-- include/crypto.h and src/crypto.c: the XOR stream cipher over shard payloads, and its key.
-- The `sscanf` that reads two hexadecimal digits is a parameter.
pub mod Stream
pub mod Key
pub mod Collision
mod Tests
use coding_gateway.Base.{
  ℕ, zero, suc, ◌+◌, ◌*◌, ◌/◌, ◌%◌, ◌^◌, List, [], ◌∷◌, ◌++◌, ◌⊕◌, ◌==◌, if◌then◌else◌, ltb, Bool,
  true, false, Option, none, some, length, take, drop, replicate, memcpy,
}

abbrev pub crypto_key_len : ℕ
crypto_key_len = 32

pub record CryptoCtx : Type 0 where
  pub key : List ℕ
  pub enabled : Bool

-- `none` is the NULL key.
unfoldable pub crypto_init : Option (List ℕ) → CryptoCtx
crypto_init none = record { key = replicate crypto_key_len 0; enabled = false }
crypto_init (some key) = record {
  key = memcpy (replicate crypto_key_len 0) key crypto_key_len;
  enabled = true;
}

abbrev pub fnv_basis : ℕ
fnv_basis = 0xcbf2_9ce4_8422_2325

abbrev pub fnv_prime : ℕ
fnv_prime = 0x100_0000_01b3

abbrev pub u64 : ℕ → ℕ
u64 x = x % 2 ^ 64

-- The loop over the key bytes.
unfoldable pub mix_key : ℕ → List ℕ → ℕ
mix_key s [] = s
mix_key s (b ∷ key) = mix_key (u64 ((s ⊕ b) * fnv_prime)) key

unfoldable pub seed_from_key_nonce : List ℕ → ℕ → ℕ
unfolding mix_key
seed_from_key_nonce key nonce =
    let s = u64 ((mix_key fnv_basis key ⊕ nonce) * fnv_prime) in
    if s == 0 then 0x5a5a_5a5a_5a5a_5a5a else s

-- The new state, which is also the value returned.
unfoldable pub xorshift64 : ℕ → ℕ
xorshift64 state =
    let x = state ⊕ u64 (state * 2 ^ 13) in let y = x ⊕ x / 2 ^ 7 in y ⊕ u64 (y * 2 ^ 17)

-- `data[j] ^= (uint8_t)(ks >> (j * 8))` for the next `left` bytes, the first of them byte `j`.
unfoldable pub xor_bytes : ℕ → ℕ → ℕ → List ℕ → List ℕ
xor_bytes zero j ks bytes = bytes
xor_bytes (suc left) j ks [] = []
xor_bytes (suc left) j ks (d ∷ bytes) =
    (d ⊕ (ks / 2 ^ (j * 8)) % 2 ^ 8) ∷ xor_bytes left (j + 1) ks bytes

-- The loop over whole groups of 8 bytes, with the number of groups left, then the `rest` bytes.
unfoldable pub xor_groups : ℕ → ℕ → ℕ → List ℕ → List ℕ
unfolding xorshift64 xor_bytes
xor_groups zero rest state bytes =
    if ltb 0 rest then xor_bytes rest 0 (xorshift64 state) bytes else bytes
xor_groups (suc groups) rest state bytes =
    let ks = xorshift64 state in
    xor_bytes 8 0 ks (take 8 bytes) ++ xor_groups groups rest ks (drop 8 bytes)

-- `crypto_xor (ctx, data, len, nonce)`.
unfoldable pub crypto_xor : CryptoCtx → List ℕ → ℕ → ℕ → List ℕ
unfolding seed_from_key_nonce xor_groups
crypto_xor ctx bytes len nonce =
    if ctx.enabled
    then xor_groups (len / 8) (len % 8) (seed_from_key_nonce ctx.key nonce) bytes
    else bytes

module _ (sscanf : ℕ → ℕ → Option ℕ) where
  -- The loop over the digit pairs, with the number of bytes left.
  unfoldable pub parse_pairs : ℕ → List ℕ → Option (List ℕ)
  parse_pairs zero hex = some []
  parse_pairs (suc left) [] = none
  parse_pairs (suc left) (h ∷ []) = none
  parse_pairs (suc left) (h ∷ l ∷ hex) =
      let rest = parse_pairs left hex in
      elim (sscanf h l) [
        | none ↦ none
        | some byte ↦ elim rest [ none ↦ none | some out ↦ some (byte % 2 ^ 8 ∷ out) ]
      ]

  -- `none` is the return value -1. `hex` is the text before its NUL.
  unfoldable pub crypto_parse_key : List ℕ → Option (List ℕ)
  unfolding parse_pairs
  crypto_parse_key hex =
      if length hex == crypto_key_len * 2 then parse_pairs crypto_key_len hex else none
