-- ===== src/Base/Memory.antt =====
-- `memcpy` and `memset` on arrays, and arrays of bytes.
use Prim.Native.Nat.{ℕ, zero, suc, ◌+◌, ◌-◌, ◌≤◌, ◌<◌}
use mathlib.Core.Path.{◌≡◌, ap, ◌∙◌}
use mathlib.Core.List.{List, [], ◌∷◌, ◌++◌}
use native.Mathlib.Omega.{arith}
use native.Mathlib.Decide.{dec_lt, ℕ_discrete}
use coding_gateway.Base.Lists.{
  length, get_or, set, take, drop, replicate, length-take, length-drop, length-append, length-set,
  length-replicate, get_or-append_left, get_or_of_ge, get_or-set_self, get_or-set_ne,
  get_or-replicate, get_or-take, get_or-drop,
}

module _ {ℓ} {A : Type ℓ} where
  -- `memcpy (dst, src, n)`: the first `n` bytes of `src` over those of `dst`.
  abbrev pub memcpy : List A → List A → ℕ → List A
  memcpy dst src n = take n src ++ drop n dst

  -- `memset (dst, v, n)`.
  abbrev pub memset : List A → A → ℕ → List A
  memset dst v n = replicate n v ++ drop n dst

abbrev pub AreBytes : List ℕ → Type 0
AreBytes xs = (i : ℕ) → get_or xs i 0 < 256

pub set-AreBytes : (cs : List ℕ) (i c : ℕ) → c < 256 → AreBytes cs → AreBytes (set cs i c)
set-AreBytes cs i c p h j = elim (ℕ_discrete i j) [
  | yes e ↦ elim (dec_lt j (length cs)) [
    | yes q ↦ rw (e, get_or-set_self cs j c 0 q) p
    | no q ↦ rw (get_or_of_ge (set cs i c) j 0 (omega (arith, length-set cs i c))) (omega arith)
  ]
  | no ne ↦ rw (get_or-set_ne cs i j c 0 ne) (h j)
]

pub get_or-memset : (xs : List ℕ) (n i : ℕ) → i < n → get_or (memset xs 0 n) i 0 ≡ 0
get_or-memset xs n i p =
    get_or-append_left (replicate n 0) (drop n xs) i 0 (omega (arith, length-replicate {A = ℕ} n 0))
    ∙ get_or-replicate n i 0

pub length-memset : (xs : List ℕ) (n : ℕ) → n ≤ length xs → length (memset xs 0 n) ≡ length xs
length-memset xs n p = omega (
  arith,
  length-append (replicate n 0) (drop n xs),
  length-replicate {A = ℕ} n 0,
  length-drop n xs,
)

pub get_or-append_right :
    (xs ys : List ℕ) (i j : ℕ) → j ≡ length xs + i → get_or (xs ++ ys) j 0 ≡ get_or ys i 0
get_or-append_right [] ys i j e = ap (λ t. get_or ys t 0) (omega arith)
get_or-append_right (x ∷ xs) ys i zero e = absurd (omega arith)
get_or-append_right (x ∷ xs) ys i (suc j) e = get_or-append_right xs ys i j (omega arith)

pub memset-AreBytes : (xs : List ℕ) (n : ℕ) → AreBytes xs → AreBytes (memset xs 0 n)
memset-AreBytes xs n h i = elim (dec_lt i n) [
  | yes p ↦ rw (get_or-memset xs n i p) (omega arith)
  | no p ↦
      rw
        (
          get_or-append_right (replicate n 0) (drop n xs) (i - n) i
              (omega (arith, length-replicate {A = ℕ} n 0)),
          get_or-drop n (i - n) i xs 0 (omega arith),
        )
        (h i)
]

-- `memcpy` of `n` bytes that are there.
pub get_or-memcpy_in :
    (dst src : List ℕ) (n i : ℕ)
    → n ≤ length src
    → i < n
    → get_or (memcpy dst src n) i 0 ≡ get_or src i 0
get_or-memcpy_in dst src n i p q =
    get_or-append_left (take n src) (drop n dst) i 0 (omega (arith, length-take n src))
    ∙ get_or-take n i src 0 q

pub get_or-memcpy_out :
    (dst src : List ℕ) (n i : ℕ)
    → n ≤ length src
    → n ≤ i
    → get_or (memcpy dst src n) i 0 ≡ get_or dst i 0
get_or-memcpy_out dst src n i p q =
    get_or-append_right (take n src) (drop n dst) (i - n) i (omega (arith, length-take n src))
    ∙ get_or-drop n (i - n) i dst 0 (omega arith)

pub length-memcpy :
    (dst src : List ℕ) (n : ℕ)
    → n ≤ length src
    → n ≤ length dst
    → length (memcpy dst src n) ≡ length dst
length-memcpy dst src n p q =
    omega (arith, length-append (take n src) (drop n dst), length-take n src, length-drop n dst)

-- A predicate on every element, as a tuple.
abbrev pub Every {ℓ κ} : {A : Type ℓ} → (A → Type κ) → List A → Type κ
Every P [] = Unit
Every P (x ∷ xs) = P x × Every P xs

pub get_or-Every {ℓ κ} :
    {A : Type ℓ} (P : A → Type κ) (xs : List A) (d : A)
    → Every P xs
    → (i : ℕ) → i < length xs
    → P (get_or xs i d)
get_or-Every P [] d h i p = absurd (omega arith)
get_or-Every P (x ∷ xs) d h zero p = h.0
get_or-Every P (x ∷ xs) d h (suc i) p = get_or-Every P xs d h.1 i (omega arith)

pub Every-AreBytes : (xs : List ℕ) → Every (λ x. x < 256) xs → AreBytes xs
Every-AreBytes [] h i = omega arith
Every-AreBytes (x ∷ xs) h zero = h.0
Every-AreBytes (x ∷ xs) h (suc i) = Every-AreBytes xs h.1 i
