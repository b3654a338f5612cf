-- ===== src/Crypto/Stream.antt =====
-- `crypto_xor` against a keystream described byte by byte.
use coding_gateway.Base.{
  ℕ, zero, suc, ◌+◌, ◌-◌, ◌*◌, ◌/◌, ◌%◌, ◌^◌, ◌≤◌, ◌<◌, ◌≡◌, ◌≢◌, refl, ap, ap₂, ◌∙◌, arith, List,
  [], ◌∷◌, ◌⊕◌, if◌then◌else◌, ltb, true, false, ◌&&◌, xor-eq_zero, inl, inr, Bool-cases, length,
  get_or, take, drop, get_or_ext, length-append, length-take, length-drop, get_or-append_left,
  get_or-append_right, get_or-take, get_or-drop, xor_cancel_right, xor-lt, AreBytes,
}
use native.Mathlib.Decide.{dec_lt}
use coding_gateway.Crypto.{
  u64, CryptoCtx, seed_from_key_nonce, xorshift64, xor_bytes, xor_groups, crypto_xor,
}

-- Byte `p` of the keystream from a state on: 8 bytes of each successive state, lowest first.
unfoldable pub stream_byte : ℕ → ℕ → ℕ → ℕ
unfolding xorshift64
stream_byte zero state j = (xorshift64 state / 2 ^ (j * 8)) % 2 ^ 8
stream_byte (suc group) state j = stream_byte group (xorshift64 state) j

abbrev pub keystream : ℕ → ℕ → ℕ
keystream state p = stream_byte (p / 8) state (p % 8)

length-xor_bytes : (n j ks : ℕ) (bs : List ℕ) → length (xor_bytes n j ks bs) ≡ length bs
unfolding xor_bytes
length-xor_bytes zero j ks bs = refl
length-xor_bytes (suc n) j ks [] = refl
length-xor_bytes (suc n) j ks (b ∷ bs) = ap suc (length-xor_bytes n (j + 1) ks bs)

get_or-xor_bytes :
    (n j ks p q : ℕ) (bs : List ℕ)
    → p < n
    → p < length bs
    → q ≡ j + p
    → get_or (xor_bytes n j ks bs) p 0 ≡ get_or bs p 0 ⊕ (ks / 2 ^ (q * 8)) % 2 ^ 8
unfolding xor_bytes
get_or-xor_bytes zero j ks p q bs h i e = absurd (omega arith)
get_or-xor_bytes (suc n) j ks p q [] h i e = absurd (omega arith)
get_or-xor_bytes (suc n) j ks zero q (b ∷ bs) h i e =
    ap (λ t. b ⊕ (ks / 2 ^ (t * 8)) % 2 ^ 8) (omega arith)
get_or-xor_bytes (suc n) j ks (suc p) q (b ∷ bs) h i e =
    get_or-xor_bytes n (j + 1) ks p q bs (omega arith) (omega arith) (omega arith)

get_or-xor_bytes_out :
    (n j ks p : ℕ) (bs : List ℕ) → n ≤ p → get_or (xor_bytes n j ks bs) p 0 ≡ get_or bs p 0
unfolding xor_bytes
get_or-xor_bytes_out zero j ks p bs h = refl
get_or-xor_bytes_out (suc n) j ks p [] h = refl
get_or-xor_bytes_out (suc n) j ks zero (b ∷ bs) h = absurd (omega arith)
get_or-xor_bytes_out (suc n) j ks (suc p) (b ∷ bs) h =
    get_or-xor_bytes_out n (j + 1) ks p bs (omega arith)

length-xor_groups :
    (groups rest state : ℕ) (bs : List ℕ) → length (xor_groups groups rest state bs) ≡ length bs
unfolding xor_groups
length-xor_groups zero rest state bs = elim (Bool-cases (ltb 0 rest)) [
  | inl e ↦ rw e (length-xor_bytes rest 0 (xorshift64 state) bs)
  | inr e ↦ rw e refl
]
length-xor_groups (suc groups) rest state bs = omega (
  arith,
  length-append (xor_bytes 8 0 (xorshift64 state) (take 8 bs))
      (xor_groups groups rest (xorshift64 state) (drop 8 bs)),
  length-xor_bytes 8 0 (xorshift64 state) (take 8 bs),
  length-xor_groups groups rest (xorshift64 state) (drop 8 bs),
  length-take 8 bs,
  length-drop 8 bs,
)

-- What byte `p` becomes under a keystream of `len` bytes.
abbrev pub ciphered : ℕ → ℕ → ℕ → List ℕ → ℕ
ciphered len state p bs = if ltb p len then get_or bs p 0 ⊕ keystream state p else get_or bs p 0

group_length : (ks : ℕ) (bs : List ℕ) → 8 ≤ length bs → length (xor_bytes 8 0 ks (take 8 bs)) ≡ 8
group_length ks bs h = omega (arith, length-xor_bytes 8 0 ks (take 8 bs), length-take 8 bs)

get_or-xor_groups :
    (groups rest state p len : ℕ) (bs : List ℕ)
    → rest < 8
    → len ≡ groups * 8 + rest
    → len ≤ length bs
    → get_or (xor_groups groups rest state bs) p 0 ≡ ciphered len state p bs
unfolding xor_groups
get_or-xor_groups zero rest state p len bs small e room = elim (dec_lt p rest) [
  | yes h ↦
      rw (lt_true h, inside h, zero_group h)
        (get_or-xor_bytes rest 0 (xorshift64 state) p p bs h (omega arith) (omega arith)
          ∙ ap (λ t. get_or bs p 0 ⊕ t) (unfold stream_byte in refl))
  | no h ↦ rw (outside h) (tail h)
]
  where
    lt_true : p < rest → ltb 0 rest ≡ true
    lt_true h = ground arith

    inside : p < rest → ltb p len ≡ true
    inside h = ground arith

    outside : ¬ (p < rest) → ltb p len ≡ false
    outside h = ground arith

    zero_group : p < rest → keystream state p ≡ stream_byte 0 state p
    zero_group h = ap₂ (λ g j. stream_byte g state j) (omega arith) (omega arith)

    tail :
        ¬ (p < rest)
        → get_or (if ltb 0 rest then xor_bytes rest 0 (xorshift64 state) bs else bs) p 0
          ≡ get_or bs p 0
    tail h = elim (Bool-cases (ltb 0 rest)) [
      | inl t ↦ rw t (get_or-xor_bytes_out rest 0 (xorshift64 state) p bs (omega arith))
      | inr t ↦ rw t refl
    ]
get_or-xor_groups (suc groups) rest state p len bs small e room = elim (dec_lt p 8) [
  | yes h ↦
      rw (in_len h, first_group h)
        (get_or-append_left here later p 0 (omega (arith, group_length ks bs (omega arith)))
          ∙ get_or-xor_bytes 8 0 ks p p (take 8 bs) h (omega (arith, length-take 8 bs))
              (omega arith)
          ∙ ap₂ (λ s t. s ⊕ t) (get_or-take 8 p bs 0 h) (unfold stream_byte in refl))
  | no h ↦
      get_or-append_right here later (p - 8) p (omega (arith, group_length ks bs (omega arith)))
      ∙ get_or-xor_groups groups rest ks (p - 8) (len - 8) (drop 8 bs) small (omega arith)
          (omega (arith, length-drop 8 bs))
      ∙ shift h
]
  where
    ks : ℕ
    ks = xorshift64 state

    here : List ℕ
    here = xor_bytes 8 0 ks (take 8 bs)

    later : List ℕ
    later = xor_groups groups rest ks (drop 8 bs)

    in_len : p < 8 → ltb p len ≡ true
    in_len h = ground arith

    first_group : p < 8 → keystream state p ≡ stream_byte 0 state p
    first_group h = ap₂ (λ g j. stream_byte g state j) (omega arith) (omega arith)

    shift : ¬ (p < 8) → ciphered (len - 8) ks (p - 8) (drop 8 bs) ≡ ciphered len state p bs
    shift h =
        let same : ltb (p - 8) (len - 8) ≡ ltb p len = ground arith in
        let g : p / 8 ≡ suc ((p - 8) / 8) = omega arith in
        let j : p % 8 ≡ (p - 8) % 8 = omega arith in
        rw (same, g, j, get_or-drop 8 (p - 8) p bs 0 (omega arith)) (unfold stream_byte in refl)

groups_small : (len : ℕ) → (len % 8 < 8) × (len ≡ len / 8 * 8 + len % 8)
groups_small len = omega arith

-- `crypto_xor` on a buffer of `len` bytes or more keeps its size. With encryption on, it xors byte
-- `p` below `len` with byte `p` of the keystream seeded by the key and the nonce, and leaves the
-- others alone; with encryption off, it changes nothing.
pub crypto_xor-byte :
    (ctx : CryptoCtx) (bs : List ℕ) (len nonce p : ℕ)
    → len ≤ length bs
    → (length (crypto_xor ctx bs len nonce) ≡ length bs)
      × (get_or (crypto_xor ctx bs len nonce) p 0 ≡ (
          if ctx.enabled && ltb p len
          then get_or bs p 0 ⊕ keystream (seed_from_key_nonce ctx.key nonce) p
          else get_or bs p 0))
unfolding crypto_xor
crypto_xor-byte ctx bs len nonce p room = elim (Bool-cases ctx.enabled) [
  | inl e ↦ rw e (
    length-xor_groups (len / 8) (len % 8) (seed_from_key_nonce ctx.key nonce) bs,
    get_or-xor_groups (len / 8) (len % 8) (seed_from_key_nonce ctx.key nonce) p len bs
        (groups_small len).0 (groups_small len).1 room,
  )
  | inr e ↦ rw e (refl, refl)
]

-- Encrypting twice with one nonce gives the buffer back.
pub crypto_xor-crypto_xor :
    (ctx : CryptoCtx) (bs : List ℕ) (len nonce : ℕ)
    → len ≤ length bs
    → crypto_xor ctx (crypto_xor ctx bs len nonce) len nonce ≡ bs
crypto_xor-crypto_xor ctx bs len nonce room =
    get_or_ext 0 (crypto_xor ctx once len nonce) bs size (λ p _. byte p)
  where
    once : List ℕ
    once = crypto_xor ctx bs len nonce

    same_size : length once ≡ length bs
    same_size = (crypto_xor-byte ctx bs len nonce 0 room).0

    size : length (crypto_xor ctx once len nonce) ≡ length bs
    size = (crypto_xor-byte ctx once len nonce 0 (omega (arith, same_size))).0 ∙ same_size

    byte : (p : ℕ) → get_or (crypto_xor ctx once len nonce) p 0 ≡ get_or bs p 0
    byte p = ground (
      arith,
      crypto_xor-byte ctx once len nonce p (omega (arith, same_size)),
      crypto_xor-byte ctx bs len nonce p room,
      xor_cancel_right (get_or bs p 0) (keystream (seed_from_key_nonce ctx.key nonce) p),
    )

stream_byte-lt : (g s j : ℕ) → stream_byte g s j < 256
unfolding stream_byte
stream_byte-lt zero s j = omega arith
stream_byte-lt (suc g) s j = stream_byte-lt g (xorshift64 s) j

keystream-lt : (state p : ℕ) → keystream state p < 256
keystream-lt state p = stream_byte-lt (p / 8) state (p % 8)

pub crypto_xor-AreBytes :
    (ctx : CryptoCtx) (bs : List ℕ) (len nonce : ℕ)
    → len ≤ length bs
    → AreBytes bs
    → AreBytes (crypto_xor ctx bs len nonce)
crypto_xor-AreBytes ctx bs len nonce room h p = ground (
  arith,
  crypto_xor-byte ctx bs len nonce p room,
  h p,
  xor-lt 8 (get_or bs p 0) (keystream (seed_from_key_nonce ctx.key nonce) p) (h p)
      (keystream-lt (seed_from_key_nonce ctx.key nonce) p),
)

shift_13_fixed : (x : ℕ) → x < 2 ^ 64 → x ≡ x * 2 ^ 13 % 2 ^ 64 → x ≡ 0
shift_13_fixed x h e = omega arith

shift_17_fixed : (x : ℕ) → x < 2 ^ 64 → x ≡ x * 2 ^ 17 % 2 ^ 64 → x ≡ 0
shift_17_fixed x h e = omega arith

xorshift64-lt : (s : ℕ) → s < 2 ^ 64 → xorshift64 s < 2 ^ 64
unfolding xorshift64
xorshift64-lt s h =
    let x = s ⊕ u64 (s * 2 ^ 13) in
    let x_small : x < 2 ^ 64 = xor-lt 64 s _ h (omega arith) in
    let y_small : x ⊕ x / 2 ^ 7 < 2 ^ 64 = xor-lt 64 x _ x_small (omega arith) in
    xor-lt 64 (x ⊕ x / 2 ^ 7) _ y_small (omega arith)

xorshift64-zero : (s : ℕ) → s < 2 ^ 64 → xorshift64 s ≡ 0 → s ≡ 0
unfolding xorshift64
xorshift64-zero s h e = shift_13_fixed s h (xor-eq_zero s _ x_zero)
  where
    x : ℕ
    x = s ⊕ u64 (s * 2 ^ 13)

    y : ℕ
    y = x ⊕ x / 2 ^ 7

    x_small : x < 2 ^ 64
    x_small = xor-lt 64 s _ h (omega arith)

    y_small : y < 2 ^ 64
    y_small = xor-lt 64 x _ x_small (omega (arith, x_small))

    y_zero : y ≡ 0
    y_zero = shift_17_fixed y y_small (xor-eq_zero y _ e)

    x_zero : x ≡ 0
    x_zero = omega (arith, xor-eq_zero x (x / 2 ^ 7) y_zero)

-- The generator never falls into the state 0: the seed of any key and nonce is not 0 and has 64
-- bits, and the step from such a state leads to such a state.
pub xorshift64-ne-zero :
    (key : List ℕ) (nonce state : ℕ)
    → state ≢ 0
    → state < 2 ^ 64
    → (seed_from_key_nonce key nonce ≢ 0)
      × (seed_from_key_nonce key nonce < 2 ^ 64)
      × (xorshift64 state ≢ 0)
      × (xorshift64 state < 2 ^ 64)
unfolding seed_from_key_nonce
xorshift64-ne-zero key nonce state ne h =
    (ground arith, ground arith, λ e. ne (xorshift64-zero state h e), xorshift64-lt state h)
