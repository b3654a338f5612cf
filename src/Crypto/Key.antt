-- ===== src/Crypto/Key.antt =====
-- `crypto_parse_key` reads what a key is printed as, and what else it accepts.
use coding_gateway.Base.{
  ℕ, zero, suc, ◌+◌, ◌-◌, ◌*◌, ◌/◌, ◌%◌, ◌<◌, ◌≡◌, ◌≢◌, refl, ap, ◌∙◌, arith, List, [], ◌∷◌, ◌==◌,
  if◌then◌else◌, ltb, leb, ◌&&◌, true, Option, none, some, length, AreBytes, Every, inl, inr,
  Bool-cases, Option-cases, ==_iff,
}
use coding_gateway.Crypto.{crypto_key_len, parse_pairs, crypto_parse_key}

-- The value of a hexadecimal digit, in either case.
abbrev pub hex_value : ℕ → Option ℕ
hex_value c =
    if leb b'0' c && leb c b'9'
    then some (c - b'0')
    else if leb b'a' c && leb c b'f'
    then some (c - b'a' + 10)
    else if leb b'A' c && leb c b'F'
    then some (c - b'A' + 10)
    else none

-- What `sscanf (text, "%02x", …)` is documented to store for two hexadecimal digits.
abbrev pub ReadsHex : (ℕ → ℕ → Option ℕ) → Type 0
ReadsHex sscanf =
    (h l a b : ℕ) → hex_value h ≡ some a → hex_value l ≡ some b → sscanf h l ≡ some (a * 16 + b)

abbrev pub hex_digit : ℕ → ℕ
hex_digit d = if ltb d 10 then b'0' + d else b'a' + (d - 10)

-- A key in the notation of the configuration file: two digits for each byte.
abbrev pub print_key : List ℕ → List ℕ
print_key [] = []
print_key (b ∷ key) = hex_digit (b / 16) ∷ hex_digit (b % 16) ∷ print_key key

hex_value-hex_digit : (d : ℕ) → d < 16 → hex_value (hex_digit d) ≡ some d
hex_value-hex_digit d h = ground arith

length-print_key : (key : List ℕ) → length (print_key key) ≡ length key * 2
length-print_key [] = refl
length-print_key (b ∷ key) = omega (arith, length-print_key key)

module _ {sscanf : ℕ → ℕ → Option ℕ} (reads : ReadsHex sscanf) where
  read_byte : (b : ℕ) → b < 256 → sscanf (hex_digit (b / 16)) (hex_digit (b % 16)) ≡ some b
  read_byte b h =
      reads _ _ (b / 16) (b % 16) (hex_value-hex_digit (b / 16) (omega arith))
        (hex_value-hex_digit (b % 16) (omega arith))
      ∙ ap some (omega arith)

  parse_pairs-print_key :
      (key : List ℕ) (n : ℕ)
      → length key ≡ n
      → AreBytes key
      → parse_pairs sscanf n (print_key key) ≡ some key
  unfolding parse_pairs
  parse_pairs-print_key [] zero e h = refl
  parse_pairs-print_key [] (suc n) e h = absurd (omega arith)
  parse_pairs-print_key (b ∷ key) zero e h = absurd (omega arith)
  parse_pairs-print_key (b ∷ key) (suc n) e h =
      rw (read_byte b (h 0), parse_pairs-print_key key n (omega arith) (λ i. h (suc i)))
        (ap (λ t. some (t ∷ key)) (omega (arith, h 0)))

  -- If `sscanf` reads hexadecimal digits as documented, `crypto_parse_key` returns every key of 32
  -- bytes from its 64 digits.
  pub crypto_parse_key-print_key :
      (key : List ℕ)
      → length key ≡ crypto_key_len
      → AreBytes key
      → crypto_parse_key sscanf (print_key key) ≡ some key
  unfolding crypto_parse_key
  crypto_parse_key-print_key key e h =
      let size : (length (print_key key) == 64) ≡ true =
        (==_iff _ 64).1 (omega (arith, length-print_key key)) in
      rw size (parse_pairs-print_key key 32 e h)

none-ne-some : {key : List ℕ} → none ≢ some key
none-ne-some h = cc

module _ (sscanf : ℕ → ℕ → Option ℕ) where
  length-parse_pairs :
      (n : ℕ) (hex key : List ℕ)
      → parse_pairs sscanf n hex ≡ some key
      → (length key ≡ n) × AreBytes key
  unfolding parse_pairs
  length-parse_pairs zero hex [] e = (refl, λ i. omega arith)
  length-parse_pairs zero hex (b ∷ key) e = absurd (cc)
  length-parse_pairs (suc n) [] key e = absurd (cc)
  length-parse_pairs (suc n) (h ∷ []) key e = absurd (cc)
  length-parse_pairs (suc n) (h ∷ l ∷ hex) key e = elim (Option-cases (sscanf h l)) [
    | inl bad ↦ absurd (none-ne-some (rw (bad, parse_pairs) at e))
    | inr (byte, read) ↦ elim (Option-cases (parse_pairs sscanf n hex)) [
      | inl bad ↦ absurd (none-ne-some (rw (read, bad, parse_pairs) at e))
      | inr (out, rest) ↦
          join byte out (length-parse_pairs n hex out rest) (rw (read, rest, parse_pairs) at e)
    ]
  ]
    where
      Every-byte : (byte : ℕ) (out : List ℕ) → AreBytes out → AreBytes (byte % 256 ∷ out)
      Every-byte byte out h zero = omega arith
      Every-byte byte out h (suc i) = h i

      join :
          (byte : ℕ) (out : List ℕ)
          → (length out ≡ n) × AreBytes out
          → some (byte % 256 ∷ out) ≡ some key
          → (length key ≡ suc n) × AreBytes key
      join byte out t q =
          let e : byte % 256 ∷ out ≡ key = cc in rw (← e) (ap suc t.0, Every-byte byte out t.1)

  -- Whatever `sscanf` does, `crypto_parse_key` succeeds only on a text of 64 characters, and then
  -- returns a key of 32 bytes.
  pub crypto_parse_key-bounds :
      (hex key : List ℕ)
      → crypto_parse_key sscanf hex ≡ some key
      → (length hex ≡ 64) × (length key ≡ 32) × AreBytes key
  unfolding crypto_parse_key
  crypto_parse_key-bounds hex key h = elim (Bool-cases (length hex == 64)) [
    | inl e ↦
        let t = length-parse_pairs 32 hex key (rw e at h) in
        ((==_iff (length hex) 64).0 e, t.0, t.1)
    | inr e ↦ absurd (none-ne-some (rw e at h))
  ]

-- Two characters for each digit: the digit, and one that is no hexadecimal digit.
abbrev pub print_half : ℕ → List ℕ → List ℕ
print_half c [] = []
print_half c (d ∷ digits) = hex_digit d ∷ c ∷ print_half c digits

length-print_half : (c : ℕ) (digits : List ℕ) → length (print_half c digits) ≡ length digits * 2
length-print_half c [] = refl
length-print_half c (d ∷ digits) = omega (arith, length-print_half c digits)

-- `sscanf` with `%02x` is documented to stop at the first character that is no digit. A character x
-- or X is left out: after the digit 0 it belongs to the prefix of a hexadecimal number, and the
-- prefix alone is not read.
abbrev pub ReadsPrefix : (ℕ → ℕ → Option ℕ) → Type 0
ReadsPrefix sscanf =
    (h l a : ℕ)
    → hex_value h ≡ some a
    → hex_value l ≡ none
    → l ≢ b'x'
    → l ≢ b'X'
    → sscanf h l ≡ some a

module _ {sscanf : ℕ → ℕ → Option ℕ} (prefix : ReadsPrefix sscanf) (c : ℕ)
    (bad : hex_value c ≡ none) (not_x : c ≢ b'x') (not_big_x : c ≢ b'X') where
  parse_pairs-print_half :
      (digits : List ℕ) (n : ℕ)
      → length digits ≡ n
      → Every (λ d. d < 16) digits
      → parse_pairs sscanf n (print_half c digits) ≡ some digits
  unfolding parse_pairs
  parse_pairs-print_half [] zero e h = refl
  parse_pairs-print_half [] (suc n) e h = absurd (omega arith)
  parse_pairs-print_half (d ∷ digits) zero e h = absurd (omega arith)
  parse_pairs-print_half (d ∷ digits) (suc n) e h =
      rw
        (
          prefix (hex_digit d) c d (hex_value-hex_digit d h.0) bad not_x not_big_x,
          parse_pairs-print_half digits n (omega arith) h.1,
        )
        (ap (λ t. some (t ∷ digits)) (omega (arith, h.0)))

  -- If `sscanf` stops at the first character that is no digit, as documented, a text of 64
  -- characters is accepted although every second one is the same character that is neither
  -- hexadecimal nor x or X.
  pub crypto_parse_key-accepts_half :
      (digits : List ℕ)
      → length digits ≡ 32
      → Every (λ d. d < 16) digits
      → crypto_parse_key sscanf (print_half c digits) ≡ some digits
  unfolding crypto_parse_key
  crypto_parse_key-accepts_half digits e h =
      let size : (length (print_half c digits) == 64) ≡ true =
        (==_iff _ 64).1 (omega (arith, length-print_half c digits)) in
      rw size (parse_pairs-print_half digits 32 e h)
