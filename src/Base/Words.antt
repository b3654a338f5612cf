-- ===== src/Base/Words.antt =====
-- `|` of a shifted word and a lower one, and `&` with a mask of 32 bits.
use Prim.Native.Nat.{
  ℕ, zero, suc, ◌+◌, ◌*◌, ◌/◌, ◌%◌, ◌^◌, ◌≤◌, ◌<◌, max, bit_and, bit_or, bit_or-bitwise,
}
use mathlib.Core.Path.{◌≡◌, refl, ap, ◌∙◌}
use native.Mathlib.Nat.{pow-suc}
use native.Mathlib.Omega.{arith}
use coding_gateway.Base.Bits.{half_fuel, bit_and_step, bit_and-255}

bit_or_step : (a b : ℕ) → bit_or a b ≡ bit_or (a / 2) (b / 2) * 2 + max (a % 2) (b % 2)
bit_or_step zero b = omega (arith, bit_or-bitwise zero b, bit_or-bitwise zero (b / 2))
bit_or_step (suc a) b = omega (
  arith,
  bit_or-bitwise (suc a) b,
  bit_or-bitwise (suc a / 2) (b / 2),
  half_fuel (λ y. y) max a (b / 2),
)

bit_or-zero_fuel : (n a : ℕ) → a ≤ n → bit_or a 0 ≡ a
bit_or-zero_fuel zero a h = let e : a ≡ 0 = omega arith in rw e refl
bit_or-zero_fuel (suc n) a h =
    omega (arith, bit_or_step a 0, bit_or-zero_fuel n (a / 2) (omega arith))

-- `a << k | b` for `b` of `k` bits.
pub bit_or-shifted : (k a b : ℕ) → b < 2 ^ k → bit_or (a * 2 ^ k) b ≡ a * 2 ^ k + b
bit_or-shifted zero a b h =
    let e : b ≡ 0 = omega arith in
    rw e (bit_or-zero_fuel (a * 2 ^ 0) (a * 2 ^ 0) (omega arith) ∙ omega arith)
bit_or-shifted (suc k) a b h =
    let power = pow-suc 2 k in
    let e : a * 2 ^ suc k ≡ a * 2 ^ k * 2 = rw power (omega arith) in
    let half : a * 2 ^ suc k / 2 ≡ a * 2 ^ k = omega (arith, e) in
    omega (
      arith,
      bit_or_step (a * 2 ^ suc k) b,
      bit_or-shifted k a (b / 2) (omega (arith, power)),
      ap (λ t. bit_or t (b / 2)) half,
      e,
    )

mask_1 : (a m n : ℕ) → n ≡ m * 2 + 1 → bit_and a n ≡ bit_and (a / 2) m * 2 + a % 2
mask_1 a m n e =
    let half : n / 2 ≡ m = omega arith in
    omega (arith, bit_and_step a n, ap (λ t. bit_and (a / 2) t) half)

mask_4 : (a m n : ℕ) → n ≡ m * 16 + 15 → bit_and a n ≡ bit_and (a / 16) m * 16 + a % 16
mask_4 a m n e =
    let d : a / 2 / 2 / 2 / 2 ≡ a / 16 = omega arith in
    omega (
      arith,
      mask_1 a (m * 8 + 7) n (omega arith),
      mask_1 (a / 2) (m * 4 + 3) (m * 8 + 7) (omega arith),
      mask_1 (a / 2 / 2) (m * 2 + 1) (m * 4 + 3) (omega arith),
      mask_1 (a / 2 / 2 / 2) m (m * 2 + 1) (omega arith),
      ap (λ t. bit_and t m) d,
    )

mask_8 : (a m n : ℕ) → n ≡ m * 256 + 255 → bit_and a n ≡ bit_and (a / 256) m * 256 + a % 256
mask_8 a m n e =
    let d : a / 16 / 16 ≡ a / 256 = omega arith in
    omega (
      arith,
      mask_4 a (m * 16 + 15) n (omega arith),
      mask_4 (a / 16) m (m * 16 + 15) (omega arith),
      ap (λ t. bit_and t m) d,
    )

pub bit_and-32 : (a : ℕ) → bit_and a 0xffffffff ≡ a % 2 ^ 32
bit_and-32 a = omega (
  arith,
  mask_8 a 0xffffff 0xffffffff (omega arith),
  mask_8 (a / 256) 0xffff 0xffffff (omega arith),
  mask_8 (a / 256 / 256) 0xff 0xffff (omega arith),
  bit_and-255 (a / 256 / 256 / 256),
)
