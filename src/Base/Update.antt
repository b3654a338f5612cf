-- ===== src/Base/Update.antt =====
-- A loop `for (j = i; j < i + left; j++) a[j] = f (j, a[j])` over an array.
use Prim.Native.Nat.{ℕ, zero, suc, ◌+◌, ◌≤◌, ◌<◌}
use mathlib.Core.Path.{◌≡◌, refl, ap, ◌∙◌}
use mathlib.Core.List.{List}
use native.Mathlib.Decide.{ℕ_discrete}
use native.Mathlib.Omega.{arith}
use coding_gateway.Base.Lists.{length, get_or, set, length-set, get_or-set_self, get_or-set_ne}

module _ {ℓ} {A : Type ℓ} (d : A) (f : ℕ → A → A) where
  unfoldable pub update_from : ℕ → ℕ → List A → List A
  update_from zero i xs = xs
  update_from (suc left) i xs = update_from left (i + 1) (set xs i (f i (get_or xs i d)))

  pub length-update_from : (left i : ℕ) (xs : List A) → length (update_from left i xs) ≡ length xs
  unfolding update_from
  length-update_from zero i xs = refl
  length-update_from (suc left) i xs =
      length-update_from left (i + 1) (set xs i (f i (get_or xs i d)))
      ∙ length-set xs i (f i (get_or xs i d))

  pub get_or-update_from_below :
      (left i : ℕ) (xs : List A) (j : ℕ)
      → j < i
      → get_or (update_from left i xs) j d ≡ get_or xs j d
  unfolding update_from
  get_or-update_from_below zero i xs j p = refl
  get_or-update_from_below (suc left) i xs j p =
      get_or-update_from_below left (i + 1) (set xs i (f i (get_or xs i d))) j (omega arith)
      ∙ get_or-set_ne xs i j (f i (get_or xs i d)) d (λ q. omega (arith, q))

  pub get_or-update_from_above :
      (left i : ℕ) (xs : List A) (j : ℕ)
      → i + left ≤ j
      → get_or (update_from left i xs) j d ≡ get_or xs j d
  unfolding update_from
  get_or-update_from_above zero i xs j p = refl
  get_or-update_from_above (suc left) i xs j p =
      get_or-update_from_above left (i + 1) (set xs i (f i (get_or xs i d))) j (omega arith)
      ∙ get_or-set_ne xs i j (f i (get_or xs i d)) d (λ q. omega (arith, q))

  pub get_or-update_from :
      (left i : ℕ) (xs : List A) (j : ℕ)
      → i ≤ j
      → j < i + left
      → j < length xs
      → get_or (update_from left i xs) j d ≡ f j (get_or xs j d)
  unfolding update_from
  get_or-update_from zero i xs j low high room = absurd (omega arith)
  get_or-update_from (suc left) i xs j low high room =
      let v = f i (get_or xs i d) in
      elim (ℕ_discrete i j) [
        | yes same ↦
            get_or-update_from_below left (i + 1) (set xs i v) j (omega (arith, same))
            ∙ rw same (get_or-set_self xs j (f j (get_or xs j d)) d room)
        | no ne ↦
            get_or-update_from left (i + 1) (set xs i v) j (omega (arith, ne)) (omega arith)
              (omega (arith, length-set xs i v))
            ∙ ap (f j) (get_or-set_ne xs i j v d ne)
      ]
