-- ===== src/Gf256/Field.antt =====
-- The operations of gf256.c make the bytes a field.
use coding_gateway.Base.{
  ℕ, zero, suc, ◌+◌, ◌^◌, ◌≤◌, ◌<◌, ◌≡◌, ◌≢◌, refl, ap, ◌∙◌, arith, ◌==◌, true, ◌&&◌, all_below,
  all_below_sound, ==_iff, Bool-cases, inl, inr, xor_self, some, ltb, ltb→lt,
}
use coding_gateway.Gf256.{
  mul_entry, find_inverse, inv_entry, gf256_add, gf256_mul, gf256_inv, gf256_div,
}
use coding_gateway.Gf256.Linear.{mul_xor_left, mul_xor_right, mul-lt}
use coding_gateway.Gf256.Additive.{additive_ext}

comm_table :
    all_below 8 (λ i. all_below 8 (λ j. gf256_mul (2 ^ i) (2 ^ j) == gf256_mul (2 ^ j) (2 ^ i)))
    ≡ true
unfolding all_below gf256_mul
comm_table = refl

pow_lt : (i : ℕ) → i < 8 → 2 ^ i < 256
pow_lt i h =
    ltb→lt (2 ^ i) 256 (all_below_sound 8 (λ i. ltb (2 ^ i) 256) i (unfold all_below in refl) h)

comm_at_power : (i b : ℕ) → i < 8 → b < 256 → gf256_mul (2 ^ i) b ≡ gf256_mul b (2 ^ i)
comm_at_power i b p q =
    additive_ext (λ x. gf256_mul (2 ^ i) x) (λ x. gf256_mul x (2 ^ i))
      (λ x y _ _. mul_xor_right (2 ^ i) x y) (λ x y h k. mul_xor_left x y (2 ^ i) h k)
      (λ j h. (==_iff _ _).0 (
        all_below_sound 8 (λ j. gf256_mul (2 ^ i) (2 ^ j) == gf256_mul (2 ^ j) (2 ^ i)) j
          (all_below_sound 8 _ i comm_table p) h))
      b q

pub mul_comm : (a b : ℕ) → a < 256 → b < 256 → gf256_mul a b ≡ gf256_mul b a
mul_comm a b p q =
    additive_ext (λ x. gf256_mul x b) (λ x. gf256_mul b x) (λ x y h k. mul_xor_left x y b h k)
      (λ x y _ _. mul_xor_right b x y) (λ i h. comm_at_power i b h q) a p

assoc_table :
    all_below 8 (λ i. all_below 8 (λ j. all_below 8 (λ k.
      gf256_mul (gf256_mul (2 ^ i) (2 ^ j)) (2 ^ k)
      == gf256_mul (2 ^ i) (gf256_mul (2 ^ j) (2 ^ k)))))
    ≡ true
unfolding all_below gf256_mul
assoc_table = refl

assoc_at_powers :
    (i j c : ℕ)
    → i < 8
    → j < 8
    → c < 256
    → gf256_mul (gf256_mul (2 ^ i) (2 ^ j)) c ≡ gf256_mul (2 ^ i) (gf256_mul (2 ^ j) c)
assoc_at_powers i j c p q r =
    additive_ext (λ x. gf256_mul (gf256_mul (2 ^ i) (2 ^ j)) x)
      (λ x. gf256_mul (2 ^ i) (gf256_mul (2 ^ j) x))
      (λ x y _ _. mul_xor_right (gf256_mul (2 ^ i) (2 ^ j)) x y)
      (λ x y _ _.
        ap (λ t. gf256_mul (2 ^ i) t) (mul_xor_right (2 ^ j) x y) ∙ mul_xor_right (2 ^ i) _ _)
      (λ k h.
        (==_iff _ _).0
          (all_below_sound 8 _ k (all_below_sound 8 _ j (all_below_sound 8 _ i assoc_table p) q) h))
      c r

assoc_at_power :
    (i b c : ℕ)
    → i < 8
    → b < 256
    → c < 256
    → gf256_mul (gf256_mul (2 ^ i) b) c ≡ gf256_mul (2 ^ i) (gf256_mul b c)
assoc_at_power i b c p q r =
    additive_ext (λ x. gf256_mul (gf256_mul (2 ^ i) x) c) (λ x. gf256_mul (2 ^ i) (gf256_mul x c))
      (λ x y h k.
        ap (λ t. gf256_mul t c) (mul_xor_right (2 ^ i) x y)
        ∙ mul_xor_left _ _ c (mul-lt _ x (pow_lt i p)) (mul-lt _ y (pow_lt i p)))
      (λ x y h k.
        ap (λ t. gf256_mul (2 ^ i) t) (mul_xor_left x y c h k) ∙ mul_xor_right (2 ^ i) _ _)
      (λ j h. assoc_at_powers i j c p h r) b q

pub mul_assoc :
    (a b c : ℕ)
    → a < 256
    → b < 256
    → c < 256
    → gf256_mul (gf256_mul a b) c ≡ gf256_mul a (gf256_mul b c)
mul_assoc a b c p q r =
    additive_ext (λ x. gf256_mul (gf256_mul x b) c) (λ x. gf256_mul x (gf256_mul b c))
      (λ x y h k.
        ap (λ t. gf256_mul t c) (mul_xor_left x y b h k)
        ∙ mul_xor_left _ _ c (mul-lt x b h) (mul-lt y b k))
      (λ x y h k. mul_xor_left x y (gf256_mul b c) h k) (λ i h. assoc_at_power i b c h q r) a p

one_table : all_below 256 (λ a. (gf256_mul 1 a == a) && (gf256_mul 0 a == 0)) ≡ true
unfolding all_below gf256_mul
one_table = refl

pub one-mul : (a : ℕ) → a < 256 → gf256_mul 1 a ≡ a
one-mul a h = ground (arith, all_below_sound 256 _ a one_table h)

pub zero-mul : (a : ℕ) → a < 256 → gf256_mul 0 a ≡ 0
zero-mul a h = ground (arith, all_below_sound 256 _ a one_table h)

pub mul-zero : (a : ℕ) → gf256_mul a 0 ≡ 0
mul-zero a = mul_xor_right a 0 0 ∙ xor_self (gf256_mul a 0)

pub mul-one : (a : ℕ) → a < 256 → gf256_mul a 1 ≡ a
mul-one a h = mul_comm a 1 h (omega arith) ∙ one-mul a h

-- The inverse of a byte is its 254th power.
square : ℕ → ℕ
unfolding gf256_mul
square a = gf256_mul a a

power_254 : ℕ → ℕ
unfolding square
power_254 a =
    let a2 = square a in
    let a4 = square a2 in
    let a8 = square a4 in
    let a16 = square a8 in
    let a32 = square a16 in
    let a64 = square a32 in
    gf256_mul a2
      (gf256_mul a4 (gf256_mul a8 (gf256_mul a16 (gf256_mul a32 (gf256_mul a64 (square a64))))))

inverse_table :
    all_below 255 (λ a.
      (gf256_mul (suc a) (power_254 (suc a)) == 1)
      && (ltb 0 (power_254 (suc a)) && ltb (power_254 (suc a)) 256))
    ≡ true
unfolding all_below gf256_mul power_254
inverse_table = refl

-- A search that has a solution ahead of it ends at one.
find_inverse_finds :
    (a left b w : ℕ)
    → b ≤ w
    → w < b + left
    → gf256_mul a w ≡ 1
    → (gf256_mul a (find_inverse a left b) ≡ 1) × (find_inverse a left b < b + left)
unfolding find_inverse gf256_mul
find_inverse_finds a zero b w p q h = absurd (omega arith)
find_inverse_finds a (suc left) b w p q h = elim (Bool-cases (mul_entry a b == 1)) [
  | inl e ↦ rw e ((==_iff (mul_entry a b) 1).0 e, omega arith)
  | inr e ↦
      let later : b + 1 ≤ w = ground arith in
      rw e (ground (arith, find_inverse_finds a left (b + 1) w later))
]

inverse_exists :
    (a : ℕ)
    → a ≢ 0
    → a < 256
    → (gf256_mul a (power_254 a) ≡ 1) × (1 ≤ power_254 a) × (power_254 a < 1 + 255)
inverse_exists zero n h = absurd (n refl)
inverse_exists (suc a) n h = ground (arith, all_below_sound 255 _ a inverse_table (omega arith))

-- `gf256_inv` of a byte other than 0 is a byte whose product with it is 1.
pub mul-inv : (a : ℕ) → a ≢ 0 → a < 256 → (gf256_mul a (gf256_inv a) ≡ 1) × (gf256_inv a < 256)
unfolding gf256_inv inv_entry
mul-inv a n h =
    let (one, low, high) = inverse_exists a n h in
    ground (arith, find_inverse_finds a 255 1 (power_254 a) low high one)

pub inv-lt : (a : ℕ) → a ≢ 0 → a < 256 → gf256_inv a < 256
inv-lt a n h = (mul-inv a n h).1

pub inv-mul : (a : ℕ) → a ≢ 0 → a < 256 → gf256_mul (gf256_inv a) a ≡ 1
inv-mul a n h = mul_comm (gf256_inv a) a (inv-lt a n h) h ∙ (mul-inv a n h).0

-- On bytes, `gf256_mul` is closed, associative and commutative, distributes over `gf256_add`, and
-- has the units 1 and 0 of a field.
pub ring_laws :
    (a b c : ℕ)
    → a < 256
    → b < 256
    → c < 256
    → (gf256_mul a b < 256)
      × (gf256_mul (gf256_mul a b) c ≡ gf256_mul a (gf256_mul b c))
      × (gf256_mul a b ≡ gf256_mul b a)
      × (gf256_mul a (gf256_add b c) ≡ gf256_add (gf256_mul a b) (gf256_mul a c))
      × (gf256_mul a 1 ≡ a)
      × (gf256_mul a 0 ≡ 0)
ring_laws a b c p q r = (
  mul-lt a b p,
  mul_assoc a b c p q r,
  mul_comm a b p q,
  mul_xor_right a b c,
  mul-one a p,
  mul-zero a,
)

-- `gf256_div` is the inverse of `gf256_mul`: for bytes `a` and `b`, with `b` not 0, the quotient of
-- `a * b` by `b` is `a`, and `a / b` is a value whose product with `b` is `a`.
pub div-mul :
    (a b : ℕ)
    → a < 256
    → b < 256
    → b ≢ 0
    → (gf256_div (gf256_mul a b) b ≡ some a)
      × ((q : ℕ) × (gf256_div a b ≡ some q) × (gf256_mul q b ≡ a))
div-mul a b p q n = (value (gf256_mul a b) ∙ ap some cancel, (_, value a, uncancel))
  where
    value : (x : ℕ) → gf256_div x b ≡ some (gf256_mul x (gf256_inv b))
    value x = unfold gf256_div in unfold gf256_mul in unfold gf256_inv in ground arith

    cancel : gf256_mul (gf256_mul a b) (gf256_inv b) ≡ a
    cancel = rw (mul_assoc a b (gf256_inv b) p q (inv-lt b n q), (mul-inv b n q).0) (mul-one a p)

    uncancel : gf256_mul (gf256_mul a (gf256_inv b)) b ≡ a
    uncancel = rw (mul_assoc a (gf256_inv b) b p (inv-lt b n q) q, inv-mul b n q) (mul-one a p)
