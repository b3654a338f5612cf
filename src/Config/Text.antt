-- ===== src/Config/Text.antt =====
-- `trim` of src/config.c, and what `config_load` uses of <ctype.h>, <string.h>, <stdio.h> and
-- <stdlib.h>. A string is the list of the characters before its terminator.
use Prim.Native.Char.{code}
use Prim.Native.String.{String}
use coding_gateway.Base.{
  ℕ, zero, suc, ◌+◌, ◌-◌, ◌*◌, ◌≤◌, ◌≡◌, refl, ap, ap₂, ◌<◌, ◌∙◌, arith, List, [], ◌∷◌, ◌++◌, Bool,
  true, false, ◌&&◌, ◌||◌, Option, none, some, leb, ◌==◌, if◌then◌else◌, length, Bool-cases, inl,
  inr, ℤ, pos, sub_ℕ,
}

-- The characters of a literal.
abbrev pub codes : String → List ℕ
codes String.[] = []
codes (String.◌∷◌ c s) = code c ∷ codes s

-- `strcmp` gives 0.
unfoldable pub same_text : List ℕ → List ℕ → Bool
same_text [] [] = true
same_text (a ∷ s) (b ∷ t) = (a == b) && same_text s t
same_text _ _ = false

-- The string in a buffer.
unfoldable pub text : List ℕ → List ℕ
text [] = []
text (c ∷ s) = let rest = text s in if c == 0 then [] else c ∷ rest

-- `isspace` in the C locale.
unfoldable pub is_space : ℕ → Bool
is_space c = (c == 32) || (leb 9 c && leb c 13)

unfoldable pub skip_spaces : List ℕ → List ℕ
unfolding is_space
skip_spaces [] = []
skip_spaces (c ∷ s) = let rest = skip_spaces s in if is_space c then rest else c ∷ s

abbrev pub is_empty : List ℕ → Bool
is_empty [] = true
is_empty (_ ∷ _) = false

unfoldable pub strip_end : List ℕ → List ℕ
unfolding is_space
strip_end [] = []
strip_end (c ∷ s) = let rest = strip_end s in if is_space c && is_empty rest then [] else c ∷ rest

-- The first character that is not a space stays.
abbrev pub strip_after_first : List ℕ → List ℕ
strip_after_first [] = []
strip_after_first (c ∷ s) = c ∷ strip_end s

unfoldable pub trim : List ℕ → List ℕ
unfolding skip_spaces strip_end
trim s = strip_after_first (skip_spaces s)

abbrev pub after_first : ℕ → Option (List ℕ × List ℕ) → Option (List ℕ × List ℕ)
after_first c none = none
after_first c (some (before, after)) = some (c ∷ before, after)

-- What stands before and after the place that `strchr` finds.
unfoldable pub split_at : ℕ → List ℕ → Option (List ℕ × List ℕ)
split_at sep [] = none
split_at sep (c ∷ s) =
    let rest = split_at sep s in if c == sep then some ([], s) else after_first c rest

-- `fgets` with room for `room` characters, and the rest of the file.
unfoldable pub fgets : ℕ → List ℕ → List ℕ × List ℕ
fgets zero s = ([], s)
fgets (suc room) [] = ([], [])
fgets (suc room) (c ∷ s) =
    let rest = fgets room s in if c == 10 then (c ∷ [], s) else (c ∷ rest.0, rest.1)

-- The contents of `line[256]` in the iterations of the loop; the end of the file ends it.
unfoldable pub lines_within : ℕ → List ℕ → List (List ℕ)
unfolding fgets
lines_within _ [] = []
lines_within zero (_ ∷ _) = []
lines_within (suc fuel) (c ∷ s) = let read = fgets 255 (c ∷ s) in read.0 ∷ lines_within fuel read.1

abbrev pub lines : List ℕ → List (List ℕ)
lines file = lines_within (length file) file

abbrev is_digit : ℕ → Bool
is_digit c = leb 48 c && leb c 57

-- The value of the digits that `s` starts with, after digits of value `seen`.
unfoldable pub digits : ℕ → List ℕ → ℕ
digits seen [] = seen
digits seen (c ∷ s) =
    let rest = digits (seen * 10 + (c - 48)) s in if is_digit c then rest else seen

abbrev signed : List ℕ → ℤ
signed [] = pos 0
signed (c ∷ s) =
    if c == 45
    then sub_ℕ 0 (digits 0 s)
    else if c == 43
    then pos (digits 0 s)
    else pos (digits 0 (c ∷ s))

-- `atoi` where its result is an `int`; C defines no other result.
unfoldable pub atoi : List ℕ → ℤ
unfolding skip_spaces digits
atoi s = signed (skip_spaces s)

abbrev pub join : List (List ℕ) → List ℕ
join [] = []
join (x ∷ xs) = x ++ join xs

fgets-append : (room : ℕ) (s : List ℕ) → (fgets room s).0 ++ (fgets room s).1 ≡ s
unfolding fgets
fgets-append zero s = refl
fgets-append (suc room) [] = refl
fgets-append (suc room) (c ∷ s) = elim (Bool-cases (c == 10)) [
  | inl e ↦ rw (e, fgets) refl
  | inr e ↦ rw (e, fgets) (ap (λ t. c ∷ t) (fgets-append room s))
]

fgets-room : (room : ℕ) (s : List ℕ) → length (fgets room s).0 ≤ room
unfolding fgets
fgets-room zero s = omega arith
fgets-room (suc room) [] = omega arith
fgets-room (suc room) (c ∷ s) = elim (Bool-cases (c == 10)) [
  | inl e ↦ rw (e, fgets) (omega arith)
  | inr e ↦ rw (e, fgets) (omega (arith, fgets-room room s))
]

fgets-rest : (room : ℕ) (s : List ℕ) → length (fgets room s).1 ≤ length s
unfolding fgets
fgets-rest zero s = omega arith
fgets-rest (suc room) [] = omega arith
fgets-rest (suc room) (c ∷ s) = elim (Bool-cases (c == 10)) [
  | inl e ↦ rw (e, fgets) (omega arith)
  | inr e ↦ rw (e, fgets) (omega (arith, fgets-rest room s))
]

fgets-progress : (room c : ℕ) (s : List ℕ) → length (fgets (suc room) (c ∷ s)).1 ≤ length s
unfolding fgets
fgets-progress room c s = elim (Bool-cases (c == 10)) [
  | inl e ↦ rw (e, fgets) (omega arith)
  | inr e ↦ rw (e, fgets) (omega (arith, fgets-rest room s))
]

-- Every line is within the buffer.
abbrev pub AllWithin : ℕ → List (List ℕ) → Type 0
AllWithin room [] = Unit
AllWithin room (x ∷ xs) = (length x ≤ room) × AllWithin room xs

within : {a b fuel : ℕ} → a ≤ b → suc b ≤ suc fuel → a ≤ fuel
within p q = omega arith

lines_within-join :
    (fuel : ℕ) (file : List ℕ)
    → length file ≤ fuel
    → (join (lines_within fuel file) ≡ file) × AllWithin 255 (lines_within fuel file)
unfolding lines_within
lines_within-join fuel [] p = (refl, tt)
lines_within-join zero (c ∷ s) p = absurd (omega arith)
lines_within-join (suc fuel) (c ∷ s) p =
    let (joined, small) =
      lines_within-join fuel (fgets 255 (c ∷ s)).1 (within (fgets-progress 254 c s) p) in
    (
      ap (λ t. (fgets 255 (c ∷ s)).0 ++ t) joined ∙ fgets-append 255 (c ∷ s),
      (fgets-room 255 (c ∷ s), small),
    )

-- The reads of the loop together are the whole file, and each of them, with its terminator, is
-- within the 256 characters of `line`.
pub lines-join : (file : List ℕ) → (join (lines file) ≡ file) × AllWithin 255 (lines file)
lines-join file = lines_within-join (length file) file (omega arith)

le_refl : (n : ℕ) → n ≤ n
le_refl n = omega arith

-- More fuel than characters changes nothing.
lines_within_enough :
    (fuel fuel' : ℕ) (file : List ℕ)
    → length file ≤ fuel
    → length file ≤ fuel'
    → lines_within fuel file ≡ lines_within fuel' file
unfolding lines_within
lines_within_enough fuel fuel' [] p q = refl
lines_within_enough zero fuel' (c ∷ s) p q = absurd (omega arith)
lines_within_enough (suc fuel) zero (c ∷ s) p q = absurd (omega arith)
lines_within_enough (suc fuel) (suc fuel') (c ∷ s) p q =
    ap (λ t. (fgets 255 (c ∷ s)).0 ∷ t)
      (lines_within_enough fuel fuel' (fgets 255 (c ∷ s)).1 (within (fgets-progress 254 c s) p)
        (within (fgets-progress 254 c s) q))

-- The first read of a file, and the other ones.
pub lines-fgets :
    (file line rest : List ℕ)
    → 0 < length file
    → fgets 255 file ≡ (line, rest)
    → lines file ≡ line ∷ lines rest
unfolding lines_within
lines-fgets [] line rest p e = absurd (omega arith)
lines-fgets (c ∷ s) line rest p e =
    let shorter : length (fgets 255 (c ∷ s)).1 ≤ length s = fgets-progress 254 c s in
    ap₂ (λ x xs. x ∷ xs) (ap (λ t. t.0) e)
      (lines_within_enough (length s) (length (fgets 255 (c ∷ s)).1) (fgets 255 (c ∷ s)).1 shorter
          (le_refl (length (fgets 255 (c ∷ s)).1))
        ∙ ap (λ t. lines t.1) e)
