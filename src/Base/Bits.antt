-- ===== src/Base/Bits.antt =====
-- The laws of `^` on words of every width, from the digit recursion that it stands for.
use Prim.Native.Nat.{
  ℕ, zero, suc, ◌+◌, ◌-◌, ◌*◌, ◌/◌, ◌%◌, ◌^◌, ◌≤◌, ◌<◌, min, bit_and, bit_xor, digits,
  bit_and-bitwise, bit_xor-bitwise, differ,
}
use mathlib.Core.Path.{◌≡◌, refl, sym, ap, ◌∙◌}
use mathlib.Core.Bool.{Bool, true, ◌&&◌}
use native.Mathlib.Nat.{pow-suc}
use native.Mathlib.Omega.{arith}

infixl 60 ◌⊕◌
abbrev pub ◌⊕◌ : ℕ → ℕ → ℕ
a ⊕ b = bit_xor a b

digits_of_zero : (z : ℕ → ℕ) (f : ℕ → ℕ → ℕ) (fuel b : ℕ) → digits z f fuel 0 b ≡ z b
digits_of_zero z f zero b = refl
digits_of_zero z f (suc fuel) b = refl

-- Fuel beyond the first argument changes nothing.
spare_fuel :
    (z : ℕ → ℕ) (f : ℕ → ℕ → ℕ) (spare fuel a b : ℕ)
    → a ≤ fuel
    → digits z f (fuel + spare) a b ≡ digits z f fuel a b
spare_fuel z f spare fuel zero b le =
    digits_of_zero z f (fuel + spare) b ∙ sym (digits_of_zero z f fuel b)
spare_fuel z f spare zero (suc a) b le = absurd (omega arith)
spare_fuel z f spare (suc fuel) (suc a) b le =
    let e : suc fuel + spare ≡ suc (fuel + spare) = omega arith in
    rw e (omega (arith, spare_fuel z f spare fuel (suc a / 2) (b / 2) (omega arith)))

-- In the recursion for `suc a`, the fuel left is `a`.
pub half_fuel :
    (z : ℕ → ℕ) (f : ℕ → ℕ → ℕ) (a b : ℕ)
    → digits z f a (suc a / 2) b ≡ digits z f (suc a / 2) (suc a / 2) b
half_fuel z f a b =
    let e : suc a / 2 + (a - suc a / 2) ≡ a = omega arith in
    ap (λ fuel. digits z f fuel (suc a / 2) b) (sym e)
    ∙ spare_fuel z f (a - suc a / 2) (suc a / 2) (suc a / 2) b (omega arith)

-- The lowest bit of `a ^ b`.
abbrev pub xor_bit : ℕ → ℕ → ℕ
xor_bit x y = (x + y) % 2

differ_small : (x y : ℕ) → x < 2 → y < 2 → differ x y ≡ (x + y) % 2
differ_small zero y p q = omega arith
differ_small (suc x) zero p q = omega arith
differ_small (suc zero) (suc zero) p q = refl
differ_small (suc zero) (suc (suc y)) p q = absurd (omega arith)
differ_small (suc (suc x)) (suc y) p q = absurd (omega arith)

differ_bit : (a b : ℕ) → differ (a % 2) (b % 2) ≡ xor_bit a b
differ_bit a b = omega (arith, differ_small (a % 2) (b % 2) (omega arith) (omega arith))

pub bit_xor_step : (a b : ℕ) → a ⊕ b ≡ (a / 2 ⊕ b / 2) * 2 + xor_bit a b
bit_xor_step zero b = omega (arith, bit_xor-bitwise zero b, bit_xor-bitwise zero (b / 2))
bit_xor_step (suc a) b = omega (
  arith,
  bit_xor-bitwise (suc a) b,
  bit_xor-bitwise (suc a / 2) (b / 2),
  half_fuel (λ y. y) differ a (b / 2),
  differ_bit (suc a) b,
)

pub xor-div : (a b : ℕ) → (a ⊕ b) / 2 ≡ a / 2 ⊕ b / 2
xor-div a b = omega (arith, bit_xor_step a b)

pub xor-mod : (a b : ℕ) → (a ⊕ b) % 2 ≡ (a + b) % 2
xor-mod a b = omega (arith, bit_xor_step a b)

pub zero-xor : (b : ℕ) → 0 ⊕ b ≡ b
zero-xor b = bit_xor-bitwise 0 b

xor_comm_fuel : (n a b : ℕ) → a ≤ n → b ≤ n → a ⊕ b ≡ b ⊕ a
xor_comm_fuel zero a b p q =
    let e : a ≡ 0 = omega arith in let f : b ≡ 0 = omega arith in rw (e, f) refl
xor_comm_fuel (suc n) a b p q = omega (
  arith,
  bit_xor_step a b,
  bit_xor_step b a,
  xor_comm_fuel n (a / 2) (b / 2) (omega arith) (omega arith),
)

pub xor_comm : (a b : ℕ) → a ⊕ b ≡ b ⊕ a
xor_comm a b = xor_comm_fuel (a + b) a b (omega arith) (omega arith)

pub xor-zero : (a : ℕ) → a ⊕ 0 ≡ a
xor-zero a = xor_comm a 0 ∙ zero-xor a

xor_self_fuel : (n a : ℕ) → a ≤ n → a ⊕ a ≡ 0
xor_self_fuel zero a p = let e : a ≡ 0 = omega arith in rw e refl
xor_self_fuel (suc n) a p = omega (arith, bit_xor_step a a, xor_self_fuel n (a / 2) (omega arith))

pub xor_self : (a : ℕ) → a ⊕ a ≡ 0
xor_self a = xor_self_fuel a a (omega arith)

xor_assoc_fuel : (n a b c : ℕ) → a ≤ n → b ≤ n → c ≤ n → a ⊕ b ⊕ c ≡ a ⊕ (b ⊕ c)
xor_assoc_fuel zero a b c p q r =
    let e : a ≡ 0 = omega arith in
    let f : b ≡ 0 = omega arith in let g : c ≡ 0 = omega arith in rw (e, f, g) refl
xor_assoc_fuel (suc n) a b c p q r =
    rw
      (
        bit_xor_step (a ⊕ b) c,
        bit_xor_step a (b ⊕ c),
        xor-div a b,
        xor-div b c,
        xor_assoc_fuel n (a / 2) (b / 2) (c / 2) (omega arith) (omega arith) (omega arith),
      )
      (omega (arith, xor-mod a b, xor-mod b c))

pub xor_assoc : (a b c : ℕ) → a ⊕ b ⊕ c ≡ a ⊕ (b ⊕ c)
xor_assoc a b c = xor_assoc_fuel (a + b + c) a b c (omega arith) (omega arith) (omega arith)

pub xor_left_comm : (a b c : ℕ) → a ⊕ (b ⊕ c) ≡ b ⊕ (a ⊕ c)
xor_left_comm a b c = sym (xor_assoc a b c) ∙ ap (λ t. t ⊕ c) (xor_comm a b) ∙ xor_assoc b a c

-- A second `^` by the same word takes the first one back.
pub xor_cancel : (a b : ℕ) → a ⊕ (a ⊕ b) ≡ b
xor_cancel a b = sym (xor_assoc a a b) ∙ ap (λ t. t ⊕ b) (xor_self a) ∙ zero-xor b

pub xor_cancel_right : (a b : ℕ) → a ⊕ b ⊕ b ≡ a
xor_cancel_right a b = xor_assoc a b b ∙ ap (λ t. a ⊕ t) (xor_self b) ∙ xor-zero a

pub xor_interchange : (a b c d : ℕ) → (a ⊕ b) ⊕ (c ⊕ d) ≡ (a ⊕ c) ⊕ (b ⊕ d)
xor_interchange a b c d =
    xor_assoc a b (c ⊕ d) ∙ ap (λ t. a ⊕ t) (xor_left_comm b c d) ∙ sym (xor_assoc a c (b ⊕ d))

pub xor-lt : (k a b : ℕ) → a < 2 ^ k → b < 2 ^ k → a ⊕ b < 2 ^ k
xor-lt zero a b p q =
    let e : a ≡ 0 = omega arith in let f : b ≡ 0 = omega arith in rw (e, f) (omega arith)
xor-lt (suc k) a b p q = omega (
  arith,
  bit_xor_step a b,
  pow-suc 2 k,
  xor-lt k (a / 2) (b / 2) (omega (arith, pow-suc 2 k)) (omega (arith, pow-suc 2 k)),
)

-- Equal words are those whose `^` is 0.
pub xor-eq_zero : (a b : ℕ) → a ⊕ b ≡ 0 → a ≡ b
xor-eq_zero a b h = sym (xor_cancel_right a b) ∙ ap (λ t. t ⊕ b) h ∙ zero-xor b

pub ruleset xor_laws = (xor_assoc, xor_comm, xor_left_comm)

pub bit_and_step : (a b : ℕ) → bit_and a b ≡ bit_and (a / 2) (b / 2) * 2 + min (a % 2) (b % 2)
bit_and_step zero b = omega (arith, bit_and-bitwise zero b, bit_and-bitwise zero (b / 2))
bit_and_step (suc a) b = omega (
  arith,
  bit_and-bitwise (suc a) b,
  bit_and-bitwise (suc a / 2) (b / 2),
  half_fuel (λ _. 0) min a (b / 2),
)

pub bit_and-zero : (a : ℕ) → bit_and a 0 ≡ 0
bit_and-zero a = bit_and-zero_fuel a a (omega arith)
  where
    bit_and-zero_fuel : (n a : ℕ) → a ≤ n → bit_and a 0 ≡ 0
    bit_and-zero_fuel zero a h = let e : a ≡ 0 = omega arith in rw e refl
    bit_and-zero_fuel (suc n) a h =
        omega (arith, bit_and_step a 0, bit_and-zero_fuel n (a / 2) (omega arith))

pub bit_and-one : (a : ℕ) → bit_and a 1 ≡ a % 2
bit_and-one a = omega (arith, bit_and_step a 1, bit_and-zero (a / 2))

pub bit_and-15 : (a : ℕ) → bit_and a 15 ≡ a % 16
bit_and-15 a = omega (
  arith,
  bit_and_step a 15,
  bit_and_step (a / 2) 7,
  bit_and_step (a / 2 / 2) 3,
  bit_and-one (a / 2 / 2 / 2),
)

pub bit_and-255 : (a : ℕ) → bit_and a 255 ≡ a % 256
bit_and-255 a = omega (
  arith,
  bit_and_step a 255,
  bit_and_step (a / 2) 127,
  bit_and_step (a / 2 / 2) 63,
  bit_and_step (a / 2 / 2 / 2) 31,
  bit_and-15 (a / 2 / 2 / 2 / 2),
)

-- To check a statement about every byte by evaluation.
unfoldable pub all_below : ℕ → (ℕ → Bool) → Bool
all_below zero test = true
all_below (suc bound) test = all_below bound test && test bound

pub all_below_sound :
    (bound : ℕ) (test : ℕ → Bool) (i : ℕ) → all_below bound test ≡ true → i < bound → test i ≡ true
unfolding all_below
all_below_sound zero test i passes small = absurd (omega arith)
all_below_sound (suc bound) test i passes small = ground (arith, all_below_sound bound test i)
