-- ===== src/Codec/Dot.antt =====
-- Linear combinations over GF(2^8), and what the vector loops of src/codec.c do to them.
use coding_gateway.Base.{
  ℕ, zero, suc, ◌≤◌, ◌<◌, ◌≡◌, ◌≢◌, refl, sym, ap, arith, List, [], ◌∷◌, ◌++◌, length, get_or, drop,
  ◌⊕◌, zero-xor, xor-zero, xor_self, xor_interchange, xor-lt, xor_assoc,
}
pub use coding_gateway.Base.{AreBytes}
use coding_gateway.Gf256.{gf256_mul}
use coding_gateway.Gf256.Linear.{mul_xor_left, mul_xor_right, mul-lt}
use coding_gateway.Gf256.Field.{mul_assoc, mul-zero, zero-mul, one-mul}
use coding_gateway.Codec.{gf_vec_axpy}
use coding_gateway.Codec.Decode.{scale_first}

-- The sum of the products, in GF(2^8).
unfoldable pub dot : List ℕ → List ℕ → ℕ
dot [] ys = 0
dot (c ∷ cs) [] = 0
dot (c ∷ cs) (y ∷ ys) = gf256_mul c y ⊕ dot cs ys

tail_bytes : (x : ℕ) (xs : List ℕ) → AreBytes (x ∷ xs) → AreBytes xs
tail_bytes x xs h i = h (suc i)

pub dot-lt : (cs ys : List ℕ) → AreBytes cs → dot cs ys < 256
unfolding dot
dot-lt [] ys h = omega arith
dot-lt (c ∷ cs) [] h = omega arith
dot-lt (c ∷ cs) (y ∷ ys) h = xor-lt 8 _ _ (mul-lt c y (h 0)) (dot-lt cs ys (tail_bytes c cs h))

pub get_or-scale_first :
    (a : ℕ) (v : List ℕ) (n i : ℕ)
    → n ≤ length v
    → i < n
    → get_or (scale_first a v n) i 0 ≡ gf256_mul a (get_or v i 0)
unfolding scale_first
get_or-scale_first a v zero i p q = absurd (omega arith)
get_or-scale_first a [] (suc n) i p q = absurd (omega arith)
get_or-scale_first a (x ∷ v) (suc n) zero p q = refl
get_or-scale_first a (x ∷ v) (suc n) (suc i) p q =
    get_or-scale_first a v n i (omega arith) (omega arith)

pub length-scale_first : (a : ℕ) (v : List ℕ) (n : ℕ) → length (scale_first a v n) ≡ length v
unfolding scale_first
length-scale_first a v zero = refl
length-scale_first a [] (suc n) = refl
length-scale_first a (x ∷ v) (suc n) = ap suc (length-scale_first a v n)

pub get_or-axpy :
    (dst : List ℕ) (a : ℕ) (src : List ℕ) (n i : ℕ)
    → n ≤ length dst
    → n ≤ length src
    → i < n
    → get_or (gf_vec_axpy dst a src n) i 0 ≡ get_or dst i 0 ⊕ gf256_mul a (get_or src i 0)
unfolding gf_vec_axpy
get_or-axpy dst a src zero i p q r = absurd (omega arith)
get_or-axpy [] a src (suc n) i p q r = absurd (omega arith)
get_or-axpy (d ∷ dst) a [] (suc n) i p q r = absurd (omega arith)
get_or-axpy (d ∷ dst) a (s ∷ src) (suc n) zero p q r = refl
get_or-axpy (d ∷ dst) a (s ∷ src) (suc n) (suc i) p q r =
    get_or-axpy dst a src n i (omega arith) (omega arith) (omega arith)

pub length-axpy :
    (dst : List ℕ) (a : ℕ) (src : List ℕ) (n : ℕ) → length (gf_vec_axpy dst a src n) ≡ length dst
unfolding gf_vec_axpy
length-axpy dst a src zero = refl
length-axpy [] a src (suc n) = refl
length-axpy (d ∷ dst) a [] (suc n) = refl
length-axpy (d ∷ dst) a (s ∷ src) (suc n) = ap suc (length-axpy dst a src n)

pub dot-scale_first :
    (a : ℕ) (cs ys : List ℕ) (n : ℕ)
    → length cs ≡ n
    → a < 256
    → AreBytes cs
    → AreBytes ys
    → dot (scale_first a cs n) ys ≡ gf256_mul a (dot cs ys)
unfolding scale_first dot
dot-scale_first a [] ys zero e p h k = sym (mul-zero a)
dot-scale_first a (c ∷ cs) ys zero e p h k = absurd (omega arith)
dot-scale_first a [] ys (suc n) e p h k = absurd (omega arith)
dot-scale_first a (c ∷ cs) [] (suc n) e p h k = sym (mul-zero a)
dot-scale_first a (c ∷ cs) (y ∷ ys) (suc n) e p h k =
    rw
      (
        dot-scale_first a cs ys n (omega arith) p (tail_bytes c cs h) (tail_bytes y ys k),
        mul_assoc a c y p (h 0) (k 0),
      )
      (sym (mul_xor_right a (gf256_mul c y) (dot cs ys)))

pub dot-axpy :
    (cs : List ℕ) (a : ℕ) (ds ys : List ℕ) (n : ℕ)
    → length cs ≡ n
    → length ds ≡ n
    → a < 256
    → AreBytes cs
    → AreBytes ds
    → AreBytes ys
    → dot (gf_vec_axpy cs a ds n) ys ≡ dot cs ys ⊕ gf256_mul a (dot ds ys)
unfolding gf_vec_axpy dot
dot-axpy [] a [] ys zero e f p h h' k = rw (mul-zero a, xor_self 0)
dot-axpy [] a (d ∷ ds) ys zero e f p h h' k = absurd (omega arith)
dot-axpy (c ∷ cs) a ds ys zero e f p h h' k = absurd (omega arith)
dot-axpy [] a ds ys (suc n) e f p h h' k = absurd (omega arith)
dot-axpy (c ∷ cs) a [] ys (suc n) e f p h h' k = absurd (omega arith)
dot-axpy (c ∷ cs) a (d ∷ ds) [] (suc n) e f p h h' k = rw (mul-zero a, xor_self 0)
dot-axpy (c ∷ cs) a (d ∷ ds) (y ∷ ys) (suc n) e f p h h' k =
    rw
      (
        dot-axpy cs a ds ys n (omega arith) (omega arith) p (tail_bytes c cs h) (tail_bytes d ds h')
            (tail_bytes y ys k),
        mul_xor_left c (gf256_mul a d) y (h 0) (mul-lt a d p),
        mul_assoc a d y p (h' 0) (k 0),
        mul_xor_right a (gf256_mul d y) (dot ds ys),
      )
      (xor_interchange (gf256_mul c y) (gf256_mul a (gf256_mul d y)) (dot cs ys)
        (gf256_mul a (dot ds ys)))

-- The entries of the identity matrix.
abbrev pub delta : ℕ → ℕ → ℕ
delta zero zero = 1
delta zero (suc j) = 0
delta (suc i) zero = 0
delta (suc i) (suc j) = delta i j

pub delta_self : (i : ℕ) → delta i i ≡ 1
delta_self zero = refl
delta_self (suc i) = delta_self i

pub delta_ne : (i j : ℕ) → i ≢ j → delta i j ≡ 0
delta_ne zero zero h = absurd (h refl)
delta_ne zero (suc j) h = refl
delta_ne (suc i) zero h = refl
delta_ne (suc i) (suc j) h = delta_ne i j (λ e. h (ap suc e))

unit_not_empty : (i : ℕ) → 0 ≢ delta i i
unit_not_empty i h = omega (arith, delta_self i)

-- A row of zeros sums up to zero.
pub dot_of_zeros :
    (cs ys : List ℕ) → AreBytes ys → ((c : ℕ) → c < length ys → get_or cs c 0 ≡ 0) → dot cs ys ≡ 0
unfolding dot
dot_of_zeros [] ys k h = refl
dot_of_zeros (c ∷ cs) [] k h = refl
dot_of_zeros (c ∷ cs) (y ∷ ys) k h =
    rw
      (
        h 0 (omega arith),
        zero-mul y (k 0),
        dot_of_zeros cs ys (tail_bytes y ys k) (λ i p. h (suc i) (omega arith)),
      )
      (xor_self 0)

-- A row of the identity picks out one element.
pub dot_of_unit :
    (cs ys : List ℕ) (i : ℕ)
    → AreBytes ys
    → i < length ys
    → ((c : ℕ) → c < length ys → get_or cs c 0 ≡ delta c i)
    → dot cs ys ≡ get_or ys i 0
unfolding dot
dot_of_unit cs [] i k p h = absurd (omega arith)
dot_of_unit [] (y ∷ ys) i k p h = absurd (unit_not_empty i (h i p))
dot_of_unit (c ∷ cs) (y ∷ ys) zero k p h =
    rw
      (
        h 0 (omega arith),
        one-mul y (k 0),
        dot_of_zeros cs ys (tail_bytes y ys k) (λ i q. h (suc i) (omega arith)),
      )
      (xor-zero y)
dot_of_unit (c ∷ cs) (y ∷ ys) (suc i) k p h =
    rw
      (
        h 0 (omega arith),
        zero-mul y (k 0),
        dot_of_unit cs ys i (tail_bytes y ys k) (omega arith) (λ j q. h (suc j) (omega arith)),
      )
      (zero-xor _)

pub dot-append : (cs xs ys : List ℕ) → dot cs (xs ++ ys) ≡ dot cs xs ⊕ dot (drop (length xs) cs) ys
unfolding dot
dot-append [] [] ys = refl
dot-append (c ∷ cs) [] ys = sym (zero-xor _)
dot-append [] (x ∷ xs) ys = refl
dot-append (c ∷ cs) (x ∷ xs) ys =
    rw (dot-append cs xs ys) (sym (xor_assoc (gf256_mul c x) (dot cs xs) _))
