-- ===== src/Gf256.antt =====
-- src/gf256.c and include/gf256.h: arithmetic in GF(2^8) by tables.
-- The static tables are functions of their indices, filled by `gf256_init`; an index is a byte.
pub mod Linear
mod Additive
pub mod Field
mod Tests
use coding_gateway.Base.{
  ℕ, zero, suc, ◌+◌, ◌*◌, ◌/◌, ◌%◌, ◌^◌, bit_and, ◌⊕◌, ◌==◌, if◌then◌else◌, Option, none, some,
}

-- `gf256_add`.
abbrev pub gf256_add : ℕ → ℕ → ℕ
gf256_add a b = a ⊕ b

-- One round's change of `aa`: `hi = aa & 0x80; aa <<= 1; if (hi) aa ^= 0x1d`.
unfoldable pub double : ℕ → ℕ
double aa =
    let hi = bit_and aa 0x80 in
    let shifted = (aa * 2) % 2 ^ 8 in if hi == 0 then shifted else shifted ⊕ 0x1d

-- The loop over the bits of `bb`, with the number of rounds left.
unfoldable pub peasant : ℕ → ℕ → ℕ → ℕ → ℕ
peasant zero p aa bb = p
peasant (suc i) p aa bb = peasant i (if bit_and bb 1 == 0 then p else p ⊕ aa) (double aa) (bb / 2)

unfoldable pub mul_entry : ℕ → ℕ → ℕ
unfolding peasant double
mul_entry a b = peasant 8 0 a b

-- The search for `b` with `mul_table[a][b] == 1`, with the number of candidates left. An entry
-- that no candidate fills keeps the 0 of static storage.
unfoldable pub find_inverse : ℕ → ℕ → ℕ → ℕ
find_inverse a zero b = 0
find_inverse a (suc left) b =
    let rest = find_inverse a left (b + 1) in if mul_entry a b == 1 then b else rest

unfoldable pub inv_entry : ℕ → ℕ
unfolding find_inverse mul_entry
inv_entry a = if a == 0 then 0 else find_inverse a 255 1

pub record Tables : Type 0 where
  pub mul_table : ℕ → ℕ → ℕ
  pub inv_table : ℕ → ℕ

abbrev pub gf256_init : Tables
gf256_init = record { mul_table = mul_entry; inv_table = inv_entry }

-- The three operations, after `gf256_init`.
unfoldable pub gf256_mul : ℕ → ℕ → ℕ
unfolding mul_entry
gf256_mul a b = gf256_init.mul_table a b

unfoldable pub gf256_inv : ℕ → ℕ
unfolding inv_entry
gf256_inv a = gf256_init.inv_table a

-- `none` is the failed assertion.
unfoldable pub gf256_div : ℕ → ℕ → Option ℕ
unfolding gf256_mul gf256_inv
gf256_div a b = if b == 0 then none else some (gf256_init.mul_table a (gf256_init.inv_table b))
