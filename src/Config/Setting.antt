-- ===== src/Config/Setting.antt =====
-- How src/config.c reads a line of a key and a value, with spaces around them.
use coding_gateway.Base.{
  ℕ, ◌≡◌, refl, sym, ap, ap₂, ◌∙◌, arith, List, [], ◌∷◌, ◌++◌, Bool, true, false, ◌&&◌, some, ◌==◌,
  if◌then◌else◌, Bool-cases, inl, inr,
}
use mathlib.Core.List.{append-nil, append_assoc}
use coding_gateway.Float.{FloatOps}
use coding_gateway.Config.Text.{
  text, is_space, skip_spaces, is_empty, strip_end, strip_after_first, trim, split_at, after_first,
}
use coding_gateway.Config.Load.{Loading, load_pair, load_trimmed, load_line}

-- Spaces only.
abbrev pub AreSpaces : List ℕ → Type 0
AreSpaces [] = Unit
AreSpaces (c ∷ s) = (is_space c ≡ true) × AreSpaces s

-- The character `x` is not in the string.
abbrev pub Avoids : ℕ → List ℕ → Type 0
Avoids x [] = Unit
Avoids x (c ∷ s) = ((c == x) ≡ false) × Avoids x s

-- The last character is not a space.
abbrev pub IsStripped : List ℕ → Type 0
IsStripped [] = Unit
IsStripped (c ∷ []) = is_space c ≡ false
IsStripped (c ∷ d ∷ s) = IsStripped (d ∷ s)

abbrev pub Starts : List ℕ → Type 0
Starts [] = Unit
Starts (c ∷ s) = is_space c ≡ false

skip_spaces-append : (a s : List ℕ) → AreSpaces a → skip_spaces (a ++ s) ≡ skip_spaces s
unfolding skip_spaces
skip_spaces-append [] s v = refl
skip_spaces-append (c ∷ a) s (v, w) = rw (v, skip_spaces) (skip_spaces-append a s w)

strip_end-AreSpaces : (d : List ℕ) → AreSpaces d → strip_end d ≡ []
unfolding strip_end
strip_end-AreSpaces [] v = refl
strip_end-AreSpaces (c ∷ d) (v, w) = rw (v, strip_end-AreSpaces d w, strip_end) refl

kept : (b : Bool) (xs : List ℕ) → (if b && false then [] else xs) ≡ xs
kept true xs = refl
kept false xs = refl

strip_end-append : (s d : List ℕ) → IsStripped s → AreSpaces d → strip_end (s ++ d) ≡ s
unfolding strip_end
strip_end-append [] d v w = strip_end-AreSpaces d w
strip_end-append (c ∷ []) d v w = rw (strip_end-AreSpaces d w, v, strip_end) refl
strip_end-append (c ∷ e ∷ s) d v w =
    ap (λ r. if is_space c && is_empty r then [] else c ∷ r) (strip_end-append (e ∷ s) d v w)
    ∙ kept (is_space c) (c ∷ e ∷ s)

strip_end-inside :
    (s : List ℕ) (x : ℕ) (t : List ℕ)
    → is_space x ≡ false
    → strip_end (s ++ (x ∷ t)) ≡ s ++ (x ∷ strip_end t)
unfolding strip_end
strip_end-inside [] x t v = rw (v, strip_end) refl
strip_end-inside (c ∷ s) x t v =
    ap (λ r. if is_space c && is_empty r then [] else c ∷ r) (strip_end-inside s x t v)
    ∙ not_empty s
  where
    not_empty :
        (s : List ℕ)
        → (if is_space c && is_empty (s ++ (x ∷ strip_end t))
            then []
            else c ∷ s ++ (x ∷ strip_end t))
          ≡ c ∷ s ++ (x ∷ strip_end t)
    not_empty [] = kept (is_space c) (c ∷ x ∷ strip_end t)
    not_empty (d ∷ s) = kept (is_space c) (c ∷ d ∷ s ++ (x ∷ strip_end t))

IsStripped-append :
    (c : List ℕ) (x : ℕ) (s : List ℕ) → IsStripped (x ∷ s) → IsStripped (c ++ (x ∷ s))
IsStripped-append [] x s v = v
IsStripped-append (d ∷ []) x s v = v
IsStripped-append (d ∷ e ∷ c) x s v = IsStripped-append (e ∷ c) x s v

tail-IsStripped : (x : ℕ) (s : List ℕ) → IsStripped (x ∷ s) → IsStripped s
tail-IsStripped x [] v = tt
tail-IsStripped x (y ∷ s) v = v

append-AreSpaces : (c d : List ℕ) → AreSpaces c → AreSpaces d → AreSpaces (c ++ d)
append-AreSpaces [] d v w = w
append-AreSpaces (x ∷ c) d (v, u) w = (v, append-AreSpaces c d u w)

-- `trim` takes off the spaces around a string that neither starts nor ends with one.
trim-append :
    (a w b : List ℕ)
    → AreSpaces a
    → AreSpaces b
    → Starts w
    → IsStripped w
    → trim (a ++ (w ++ b)) ≡ w
unfolding trim skip_spaces
trim-append a [] b v u start end = ap strip_after_first (skip_spaces-append a b v ∙ all_skipped b u)
  where
    all_skipped : (b : List ℕ) → AreSpaces b → skip_spaces b ≡ []
    all_skipped [] u = refl
    all_skipped (x ∷ b) (u, t) = rw (u, skip_spaces) (all_skipped b t)
trim-append a (c ∷ w) b v u start end =
    ap strip_after_first (skip_spaces-append a (c ∷ w ++ b) v)
    ∙ rw (start, skip_spaces) (ap (λ r. c ∷ r) (strip_end-append w b (tail-IsStripped c w end) u))

-- What `trim` of the whole line leaves of the value.
value_left :
    (c val d : List ℕ)
    → AreSpaces c
    → AreSpaces d
    → Starts val
    → IsStripped val
    → trim (strip_end (c ++ (val ++ d))) ≡ val
unfolding trim skip_spaces
value_left c [] d v u start end = rw (strip_end-AreSpaces (c ++ d) (append-AreSpaces c d v u)) refl
value_left c (x ∷ val) d v u start end =
    ap (λ s. trim (strip_end s)) (sym (append_assoc c (x ∷ val) d))
    ∙ ap trim (strip_end-append (c ++ (x ∷ val)) d (IsStripped-append c x val end) u)
    ∙ ap (λ s. trim (c ++ s)) (sym (append-nil (x ∷ val)))
    ∙ trim-append c (x ∷ val) [] v tt start end

split_at-append :
    (x : ℕ) (s t : List ℕ) → (x == x) ≡ true → Avoids x s → split_at x (s ++ (x ∷ t)) ≡ some (s, t)
unfolding split_at
split_at-append x [] t e v = rw (e, split_at) refl
split_at-append x (c ∷ s) t e (v, w) =
    rw (v, split_at) (ap (after_first c) (split_at-append x s t e w))

text_whole : (s : List ℕ) → Avoids 0 s → text s ≡ s
unfolding text
text_whole [] v = refl
text_whole (c ∷ s) (v, w) = rw (v, text) (ap (λ t. c ∷ t) (text_whole s w))

append-Avoids : (x : ℕ) (s t : List ℕ) → Avoids x s → Avoids x t → Avoids x (s ++ t)
append-Avoids x [] t v w = w
append-Avoids x (c ∷ s) t (v, u) w = (v, append-Avoids x s t u w)

AreSpaces-Avoids : (x : ℕ) (s : List ℕ) → is_space x ≡ false → AreSpaces s → Avoids x s
AreSpaces-Avoids x [] e v = tt
AreSpaces-Avoids x (c ∷ s) e (v, w) = (other, AreSpaces-Avoids x s e w)
  where
    other : (c == x) ≡ false
    other = elim (Bool-cases (c == x)) [
      | inl q ↦ let p : c ≡ x = ground arith in absurd (cc (v, e, ap is_space p))
      | inr q ↦ q
    ]

-- A name that a line can start with.
pub record IsName (first : ℕ) (more : List ℕ) : Type 0 where
  pub starts : is_space first ≡ false
  pub no_comment : (first == 35) ≡ false
  pub no_header : (first == 91) ≡ false
  pub stripped : IsStripped (first ∷ more)
  pub no_equals : Avoids 61 (first ∷ more)
  pub no_end : Avoids 0 (first ∷ more)

module _ {F : Type 0} (ops : FloatOps F) where
  -- A line of a key, an equals sign and a value, with any spaces around the two, is taken as this
  -- pair. The key does not start a comment or a header and has no equals sign, and neither of
  -- the two starts or ends with a space. The value may be empty, or have an equals sign.
  pub load_line-load_pair :
      (st : Loading F) (first : ℕ) (more val a b c d : List ℕ)
      → IsName first more
      → Starts val
      → IsStripped val
      → Avoids 0 val
      → AreSpaces a × AreSpaces b × AreSpaces c × AreSpaces d
      → load_line ops st (a ++ (first ∷ more ++ (b ++ (61 ∷ c ++ (val ++ d)))))
        ≡ load_pair ops (first ∷ more) val st
  unfolding load_line load_trimmed trim skip_spaces
  load_line-load_pair st first more val a b c d name start end no_end (sa, sb, sc, sd) =
      ap (λ s. load_trimmed ops (trim s) st) (text_whole line whole)
      ∙ ap (λ s. load_trimmed ops (strip_after_first s) st) (skip_spaces-append a after_a sa)
      ∙ rw (name.starts, skip_spaces) (ap (λ s. load_trimmed ops (first ∷ s) st) stripped ∙ loaded)
    where
      value : List ℕ
      value = c ++ (val ++ d)

      after_a : List ℕ
      after_a = first ∷ more ++ (b ++ (61 ∷ value))

      line : List ℕ
      line = a ++ after_a

      whole : Avoids 0 line
      whole = append-Avoids 0 a after_a (AreSpaces-Avoids 0 a refl sa) (
          append-Avoids 0 (first ∷ more) (b ++ (61 ∷ value)) name.no_end (
            append-Avoids 0 b (61 ∷ value) (AreSpaces-Avoids 0 b refl sb) (
              refl,
              append-Avoids 0 c (val ++ d) (AreSpaces-Avoids 0 c refl sc)
                  (append-Avoids 0 val d no_end (AreSpaces-Avoids 0 d refl sd)),
            )))

      stripped : strip_end (more ++ (b ++ (61 ∷ value))) ≡ (more ++ b) ++ (61 ∷ strip_end value)
      stripped =
          ap strip_end (sym (append_assoc more b (61 ∷ value)))
          ∙ strip_end-inside (more ++ b) 61 value refl

      loaded :
          load_trimmed ops (first ∷ (more ++ b) ++ (61 ∷ strip_end value)) st
          ≡ load_pair ops (first ∷ more) val st
      loaded =
          rw
            (
              name.no_comment,
              name.no_header,
              split_at-append 61 (first ∷ more ++ b) (strip_end value) refl (
                  append-Avoids 61 (first ∷ more) b name.no_equals (AreSpaces-Avoids 61 b refl sb)),
              load_trimmed,
            )
            (ap₂ (λ key v. load_pair ops key v st)
              (trim-append [] (first ∷ more) b tt sb name.starts name.stripped)
              (value_left c val d sc sd start end))
