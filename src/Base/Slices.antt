-- ===== src/Base/Slices.antt =====
-- The parts of a list at and around its length.
use Prim.Native.Nat.{ℕ, zero, suc, ◌≤◌}
use mathlib.Core.Path.{◌≡◌, refl, ap, ◌∙◌}
use mathlib.Core.List.{List, [], ◌∷◌, ◌++◌}
use native.Mathlib.Omega.{arith}
use coding_gateway.Base.Lists.{length, take, drop, length-take}

module _ {ℓ} {A : Type ℓ} where
  pub take-append : (xs ys : List A) → take (length xs) (xs ++ ys) ≡ xs
  take-append [] ys = refl
  take-append (x ∷ xs) ys = ap (λ t. x ∷ t) (take-append xs ys)

  pub drop-append : (xs ys : List A) → drop (length xs) (xs ++ ys) ≡ ys
  drop-append [] ys = refl
  drop-append (x ∷ xs) ys = drop-append xs ys

  pub take_of_ge : (n : ℕ) (xs : List A) → length xs ≤ n → take n xs ≡ xs
  take_of_ge zero [] h = refl
  take_of_ge zero (x ∷ xs) h = absurd (omega arith)
  take_of_ge (suc n) [] h = refl
  take_of_ge (suc n) (x ∷ xs) h = ap (λ t. x ∷ t) (take_of_ge n xs (omega arith))

  -- A field of `n` elements, followed by others.
  pub take_of_field :
      (n : ℕ) (xs ys : List A) → n ≤ length xs → take n (take n xs ++ ys) ≡ take n xs
  take_of_field n xs ys h =
      let size : n ≡ length (take n xs) = omega (arith, length-take n xs) in
      ap (λ t. take t (take n xs ++ ys)) size ∙ take-append (take n xs) ys

  pub drop_of_field : (n : ℕ) (xs ys : List A) → n ≤ length xs → drop n (take n xs ++ ys) ≡ ys
  drop_of_field n xs ys h =
      let size : n ≡ length (take n xs) = omega (arith, length-take n xs) in
      ap (λ t. drop t (take n xs ++ ys)) size ∙ drop-append (take n xs) ys
