-- ===== src/Gf256/Linear.antt =====
-- The product of gf256.c is linear in both arguments.
use coding_gateway.Base.{
  ℕ, zero, suc, ◌*◌, ◌/◌, ◌%◌, ◌<◌, ◌≡◌, refl, sym, arith, bit_and, ◌⊕◌, ◌==◌, if◌then◌else◌, true,
  all_below, all_below_sound, ==_iff, Bool-cases, inl, inr, xor_assoc, xor-zero, zero-xor, xor-lt,
  xor-div, xor-mod, xor_self, xor_interchange, bit_and-one,
}
use coding_gateway.Gf256.{double, peasant, mul_entry, gf256_mul}

double_table :
    all_below 256 (λ a. all_below 256 (λ b. double (a ⊕ b) == (double a ⊕ double b))) ≡ true
unfolding all_below double
double_table = refl

pub double-xor : (a b : ℕ) → a < 256 → b < 256 → double (a ⊕ b) ≡ double a ⊕ double b
double-xor a b p q = (==_iff _ _).0 (
    all_below_sound 256 (λ b. double (a ⊕ b) == (double a ⊕ double b)) b
      (all_below_sound 256 _ a double_table p) q)

double-lt : (a : ℕ) → double a < 256
unfolding double
double-lt a = elim (Bool-cases (bit_and a 128 == 0)) [
  | inl e ↦ rw e (omega arith)
  | inr e ↦ rw e (xor-lt 8 (a * 2 % 256) 29 (omega arith) (omega arith))
]

-- The accumulator only adds to the product.
peasant-acc : (n p a b : ℕ) → peasant n p a b ≡ p ⊕ peasant n 0 a b
unfolding peasant
peasant-acc zero p a b = sym (xor-zero p)
peasant-acc (suc n) p a b = elim (Bool-cases (bit_and b 1 == 0)) [
  | inl e ↦ rw e (peasant-acc n p (double a) (b / 2))
  | inr e ↦
      rw
        (
          e,
          zero-xor a,
          peasant-acc n (p ⊕ a) (double a) (b / 2),
          peasant-acc n a (double a) (b / 2),
        )
        (xor_assoc p a _)
]

-- What a round adds: `a`, if the lowest bit of `b` is set.
abbrev gate : ℕ → ℕ → ℕ
gate b a = if b % 2 == 0 then 0 else a

peasant-suc : (n a b : ℕ) → peasant (suc n) 0 a b ≡ gate b a ⊕ peasant n 0 (double a) (b / 2)
unfolding peasant
peasant-suc n a b = rw (bit_and-one b, zero-xor a) (peasant-acc n (gate b a) (double a) (b / 2))

gate_xor_left : (a a' b : ℕ) → gate b (a ⊕ a') ≡ gate b a ⊕ gate b a'
gate_xor_left a a' b = elim (Bool-cases (b % 2 == 0)) [ inl e ↦ rw e refl | inr e ↦ rw e refl ]

gate_xor_right : (a b b' : ℕ) → gate (b ⊕ b') a ≡ gate b a ⊕ gate b' a
gate_xor_right a b b' = ground (arith, xor-mod b b', xor_self a, xor-zero a, zero-xor a)

peasant_xor_left :
    (n a a' b : ℕ)
    → a < 256
    → a' < 256
    → peasant n 0 (a ⊕ a') b ≡ peasant n 0 a b ⊕ peasant n 0 a' b
peasant_xor_left zero a a' b p q = unfold peasant in refl
peasant_xor_left (suc n) a a' b p q =
    rw
      (
        peasant-suc n (a ⊕ a') b,
        peasant-suc n a b,
        peasant-suc n a' b,
        gate_xor_left a a' b,
        double-xor a a' p q,
        peasant_xor_left n (double a) (double a') (b / 2) (double-lt a) (double-lt a'),
      )
      (xor_interchange (gate b a) (gate b a') _ _)

peasant_xor_right : (n a b b' : ℕ) → peasant n 0 a (b ⊕ b') ≡ peasant n 0 a b ⊕ peasant n 0 a b'
peasant_xor_right zero a b b' = unfold peasant in refl
peasant_xor_right (suc n) a b b' =
    rw
      (
        peasant-suc n a (b ⊕ b'),
        peasant-suc n a b,
        peasant-suc n a b',
        gate_xor_right a b b',
        xor-div b b',
        peasant_xor_right n (double a) (b / 2) (b' / 2),
      )
      (xor_interchange (gate b a) (gate b' a) _ _)

gate-lt : (a b : ℕ) → a < 256 → gate b a < 256
gate-lt a b h = ground arith

peasant-lt : (n a b : ℕ) → a < 256 → peasant n 0 a b < 256
peasant-lt zero a b h = unfold peasant in omega arith
peasant-lt (suc n) a b h =
    rw (peasant-suc n a b)
      (xor-lt 8 (gate b a) _ (gate-lt a b h) (peasant-lt n (double a) (b / 2) (double-lt a)))

-- `gf256_mul` distributes over `^` on either side, and its value is a byte.
pub mul_xor_left :
    (a a' b : ℕ) → a < 256 → a' < 256 → gf256_mul (a ⊕ a') b ≡ gf256_mul a b ⊕ gf256_mul a' b
mul_xor_left a a' b p q = unfold gf256_mul in unfold mul_entry in peasant_xor_left 8 a a' b p q

pub mul_xor_right : (a b b' : ℕ) → gf256_mul a (b ⊕ b') ≡ gf256_mul a b ⊕ gf256_mul a b'
mul_xor_right a b b' = unfold gf256_mul in unfold mul_entry in peasant_xor_right 8 a b b'

pub mul-lt : (a b : ℕ) → a < 256 → gf256_mul a b < 256
mul-lt a b h = unfold gf256_mul in unfold mul_entry in peasant-lt 8 a b h
