-- ===== src/Gf256/Additive.antt =====
-- A law of functions that are additive for `^` is checked on the powers of two, and holds of every
-- byte.
use coding_gateway.Base.{
  ℕ, zero, suc, ◌+◌, ◌*◌, ◌/◌, ◌%◌, ◌^◌, ◌≤◌, ◌<◌, ◌≡◌, refl, sym, ◌∙◌, arith, ◌⊕◌, ◌==◌, true,
  false, ◌||◌, all_below, all_below_sound, ==_iff, Bool-cases, inl, inr, xor_self,
}

abbrev pub IsAdditive : (ℕ → ℕ) → Type 0
IsAdditive f = (a b : ℕ) → a < 256 → b < 256 → f (a ⊕ b) ≡ f a ⊕ f b

abbrev bit_at : ℕ → ℕ → ℕ
bit_at k x = x / 2 ^ k % 2 * 2 ^ k

split_table :
    all_below 8 (λ k. all_below 256 (λ x. x % 2 ^ suc k == (x % 2 ^ k ⊕ bit_at k x))) ≡ true
unfolding all_below
split_table = refl

split_low : (k x : ℕ) → k < 8 → x < 256 → x % 2 ^ suc k ≡ x % 2 ^ k ⊕ bit_at k x
split_low k x p q = (==_iff _ _).0 (
    all_below_sound 256 (λ x. x % 2 ^ suc k == (x % 2 ^ k ⊕ bit_at k x)) x
      (all_below_sound 8 _ k split_table p) q)

small_table :
    all_below 8 (λ k. all_below 256 (λ x. (bit_at k x == 0) || (bit_at k x == 2 ^ k))) ≡ true
unfolding all_below
small_table = refl

bound_table : all_below 8 (λ k. all_below 256 (λ x. x % 2 ^ k / 256 + bit_at k x / 256 == 0)) ≡ true
unfolding all_below
bound_table = refl

module _ (f g : ℕ → ℕ) (f_add : IsAdditive f) (g_add : IsAdditive g)
    (basis : (k : ℕ) → k < 8 → f (2 ^ k) ≡ g (2 ^ k)) where
  additive_zero : f 0 ≡ g 0
  additive_zero =
      f_add 0 0 (omega arith) (omega arith)
      ∙ xor_self (f 0)
      ∙ sym (xor_self (g 0))
      ∙ sym (g_add 0 0 (omega arith) (omega arith))

  agree_bit : (k x : ℕ) → k < 8 → x < 256 → f (bit_at k x) ≡ g (bit_at k x)
  agree_bit k x p q = elim (Bool-cases (bit_at k x == 0)) [
    | inl e ↦ rw ((==_iff (bit_at k x) 0).0 e) additive_zero
    | inr e ↦ rw ((==_iff (bit_at k x) (2 ^ k)).0 (other e)) (basis k p)
  ]
    where
      either : ((bit_at k x == 0) || (bit_at k x == 2 ^ k)) ≡ true
      either =
          all_below_sound 256 (λ x. (bit_at k x == 0) || (bit_at k x == 2 ^ k)) x
            (all_below_sound 8 _ k small_table p) q

      other : (bit_at k x == 0) ≡ false → (bit_at k x == 2 ^ k) ≡ true
      other e = rw e at either

  agree_low : (k x : ℕ) → k ≤ 8 → x < 256 → f (x % 2 ^ k) ≡ g (x % 2 ^ k)
  agree_low zero x p q = let e : x % 2 ^ 0 ≡ 0 = omega arith in rw e additive_zero
  agree_low (suc k) x p q =
      rw
        (
          split_low k x p q,
          f_add (x % 2 ^ k) (bit_at k x) (omega (arith, bounds)) (omega (arith, bounds)),
          g_add (x % 2 ^ k) (bit_at k x) (omega (arith, bounds)) (omega (arith, bounds)),
          agree_low k x (omega arith) q,
          agree_bit k x p q,
        )
        refl
    where
      bounds : x % 2 ^ k / 256 + bit_at k x / 256 ≡ 0
      bounds = (==_iff _ _).0 (
          all_below_sound 256 (λ x. x % 2 ^ k / 256 + bit_at k x / 256 == 0) x
            (all_below_sound 8 _ k bound_table p) q)

  -- Two additive functions that agree at the powers of two agree on every byte.
  pub additive_ext : (x : ℕ) → x < 256 → f x ≡ g x
  additive_ext x q = let e : x % 2 ^ 8 ≡ x = omega arith in rw e at (agree_low 8 x (omega arith) q)
