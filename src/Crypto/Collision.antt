-- ===== src/Crypto/Collision.antt =====
-- What `seed_from_key_nonce` forgets of a key.
use coding_gateway.Base.{ℕ, ◌*◌, ◌≡◌, ◌≢◌, refl, ap, arith, List, [], ◌∷◌, ◌++◌, ◌⊕◌, true, get_or}
use coding_gateway.Crypto.{
  CryptoCtx, u64, fnv_prime, mix_key, fnv_basis, seed_from_key_nonce, crypto_xor,
}

-- Two prefixes of 20 bytes that leave the hash in one state.
abbrev pub prefix_a : List ℕ
prefix_a =
    b'8' ∷ b'y' ∷ b'n' ∷ b'0' ∷ b'i' ∷ b'Y' ∷ b'C' ∷ b'K' ∷ b'Y' ∷ b'H' ∷ b'l' ∷ b'I' ∷ b'j' ∷ b'4'
    ∷ b'-' ∷ b'B' ∷ b'w' ∷ b'P' ∷ b'q' ∷ b'k' ∷ []

abbrev pub prefix_b : List ℕ
prefix_b =
    b'G' ∷ b'R' ∷ b'e' ∷ b'L' ∷ b'U' ∷ b'r' ∷ b'M' ∷ b'4' ∷ b'w' ∷ b'M' ∷ b'q' ∷ b'f' ∷ b'g' ∷ b'9'
    ∷ b'y' ∷ b'z' ∷ b'V' ∷ b'3' ∷ b'K' ∷ b'Q' ∷ []

mix_key-append : (s : ℕ) (xs ys : List ℕ) → mix_key s (xs ++ ys) ≡ mix_key (mix_key s xs) ys
unfolding mix_key
mix_key-append s [] ys = refl
mix_key-append s (x ∷ xs) ys = mix_key-append (u64 ((s ⊕ x) * fnv_prime)) xs ys

same_state : mix_key fnv_basis prefix_a ≡ mix_key fnv_basis prefix_b
unfolding mix_key
same_state = refl

abbrev pub with_key : List ℕ → CryptoCtx
with_key key = record { key = key; enabled = true }

-- For any last 12 bytes of a key there are two different keys with them that cipher every payload
-- alike, under every nonce.
pub crypto_xor-same_keystream :
    (suffix bs : List ℕ) (len nonce : ℕ)
    → (prefix_a ++ suffix ≢ prefix_b ++ suffix)
      × (crypto_xor (with_key (prefix_a ++ suffix)) bs len nonce
          ≡ crypto_xor (with_key (prefix_b ++ suffix)) bs len nonce)
unfolding crypto_xor seed_from_key_nonce
crypto_xor-same_keystream suffix bs len nonce = (
  λ e. first_differs (ap (λ xs. get_or xs 0 0) e),
  rw (
    mix_key-append fnv_basis prefix_a suffix,
    mix_key-append fnv_basis prefix_b suffix,
    same_state,
  ),
)
  where
    first_differs : get_or (prefix_a ++ suffix) 0 0 ≢ get_or (prefix_b ++ suffix) 0 0
    first_differs = omega arith
