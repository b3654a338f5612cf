-- ===== src/Crypto/Tests.antt =====
-- The cipher on a small payload, and the key of src/test_crypto.c.
use coding_gateway.Base.{
  ℕ, ◌+◌, ◌*◌, ◌≡◌, ◌≢◌, refl, ap₂, arith, List, [], ◌∷◌, ◌++◌, some, none, Option, true, length,
  get_or, ◌⊕◌, replicate, AreBytes, Every-AreBytes,
}
use coding_gateway.Crypto.{
  CryptoCtx, seed_from_key_nonce, crypto_init, crypto_xor, crypto_parse_key,
}
use coding_gateway.Crypto.Stream.{keystream, crypto_xor-byte, crypto_xor-crypto_xor}
use coding_gateway.Crypto.Key.{
  hex_value, ReadsHex, ReadsPrefix, print_key, print_half, crypto_parse_key-print_key,
  crypto_parse_key-accepts_half,
}
use coding_gateway.Crypto.Collision.{prefix_a, prefix_b, with_key, crypto_xor-same_keystream}

abbrev key : List ℕ
key = replicate 32 0xa5

abbrev ctx : CryptoCtx
ctx = record { key = key; enabled = true }

abbrev message : List ℕ
message = 1 ∷ 2 ∷ 3 ∷ 4 ∷ 5 ∷ 6 ∷ 7 ∷ 8 ∷ 9 ∷ 10 ∷ []

-- A reader of one or two hexadecimal digits.
abbrev pair_value : Option ℕ → Option ℕ → Option ℕ
pair_value none b = none
pair_value (some a) none = some a
pair_value (some a) (some b) = some (a * 16 + b)

abbrev scan : ℕ → ℕ → Option ℕ
scan h l = pair_value (hex_value h) (hex_value l)

scan-ReadsHex : ReadsHex scan
scan-ReadsHex h l a b p q = ap₂ pair_value p q

scan-ReadsPrefix : ReadsPrefix scan
scan-ReadsPrefix h l a p q nx nX = ap₂ pair_value p q

disabled : crypto_xor (crypto_init none) message 10 7 ≡ message
unfolding crypto_init crypto_xor
disabled = refl

crypto_init-key : crypto_init (some key) ≡ ctx
unfolding crypto_init
crypto_init-key = refl

crypto_xor-byte_example :
    (length (crypto_xor ctx message 10 7) ≡ 10)
    × (get_or (crypto_xor ctx message 10 7) 9 0
        ≡ get_or message 9 0 ⊕ keystream (seed_from_key_nonce key 7) 9)
crypto_xor-byte_example = crypto_xor-byte ctx message 10 7 9 (omega arith)

crypto_xor-crypto_xor_example : crypto_xor ctx (crypto_xor ctx message 10 7) 10 7 ≡ message
crypto_xor-crypto_xor_example = crypto_xor-crypto_xor ctx message 10 7 (omega arith)

key-AreBytes : AreBytes key
key-AreBytes = Every-AreBytes key (omega arith)

crypto_parse_key-print_key_example : crypto_parse_key scan (print_key key) ≡ some key
crypto_parse_key-print_key_example = crypto_parse_key-print_key scan-ReadsHex key refl key-AreBytes

crypto_parse_key-accepts_half_example :
    crypto_parse_key scan (print_half b'z' (replicate 32 7)) ≡ some (replicate 32 7)
crypto_parse_key-accepts_half_example =
    crypto_parse_key-accepts_half scan-ReadsPrefix b'z' refl (λ e. omega arith) (λ e. omega arith)
      (replicate 32 7) refl (omega arith)

crypto_xor-same_keystream_example :
    (prefix_a ++ replicate 12 0 ≢ prefix_b ++ replicate 12 0)
    × (crypto_xor (with_key (prefix_a ++ replicate 12 0)) message 10 7
        ≡ crypto_xor (with_key (prefix_b ++ replicate 12 0)) message 10 7)
crypto_xor-same_keystream_example = crypto_xor-same_keystream (replicate 12 0) message 10 7
