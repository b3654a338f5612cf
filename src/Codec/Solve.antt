-- ===== src/Codec/Solve.antt =====
-- The elimination of `decode_block` ends with the identity matrix or with a linear relation.
use coding_gateway.Base.{
  ℕ, zero, suc, ◌+◌, ◌-◌, ◌≡◌, refl, sym, ap, ◌∙◌, arith, List, get_or, drop, get_or-drop,
  length-drop, get_or_of_ge, none, some, Option-cases, ◌⊎◌, inl, inr,
}
use native.Mathlib.Decide.{dec_lt}
use coding_gateway.Codec.{Shard}
use coding_gateway.Codec.Decode.{blank, find_pivot, reduce, gauss_jordan}
use coding_gateway.Codec.Dot.{dot_of_unit}
use coding_gateway.Codec.Pivot.{find_pivot-some, find_pivot-none}
use coding_gateway.Codec.Reduced.{IsReduced, IsPivot, reduce-IsReduced}
use coding_gateway.Codec.Kernel.{IsDependent, reduce-Kills, Kills-reduce, stuck-IsDependent}
use coding_gateway.Codec.Source.{IsSource}

module _ {k l : ℕ} {xs : List (List ℕ)} (src : IsSource k l xs) where
  identity-not-IsDependent : (rows : List Shard) → IsReduced k l xs k rows → ¬ IsDependent k rows
  identity-not-IsDependent rows ok d = elim (dec_lt d.place k) [
    | yes p ↦ d.nonzero (
        sym (
          dot_of_unit (get_or rows d.place blank).coeffs d.relation d.place d.are_bytes
            (omega (arith, d.size)) (λ c q. ok.identity d.place c p (omega (arith, d.size))))
        ∙ d.kills d.place p)
    | no p ↦ d.nonzero (get_or_of_ge d.relation d.place 0 (omega (arith, d.size)))
  ]

  -- The outcome of the elimination from a given state on.
  pub record Solved (result : List Shard) (rows : List Shard) : Type 0 where
    pub done : IsReduced k l xs k result
    pub independent : ¬ IsDependent k rows

  abbrev pub Outcome : ℕ → ℕ → List Shard → Type 0
  Outcome left col rows =
      ((out : List Shard) × (gauss_jordan k left col rows ≡ some out) × Solved out rows)
      ⊎ ((gauss_jordan k left col rows ≡ none) × IsDependent k rows)

  module _ (left col : ℕ) (rows : List Shard) (e : suc left + col ≡ k)
      (ok : IsReduced k l xs col rows) where
    no_pivot : find_pivot (drop col rows) col col ≡ none → Outcome (suc left) col rows
    unfolding gauss_jordan
    no_pivot h = inr (
      rw (h, gauss_jordan) refl,
      stuck-IsDependent col rows ok (omega arith) λ m p q.
          ap (λ (r : Shard). get_or r.coeffs col 0)
            (sym (get_or-drop col (m - col) m rows blank (omega arith)))
          ∙ find_pivot-none (drop col rows) col col (m - col) h
              (omega (arith, length-drop col rows, ok.count)),
    )

    found-IsPivot : (p : ℕ) → find_pivot (drop col rows) col col ≡ some p → IsPivot k col rows p
    found-IsPivot p h =
        let (low, high, ne) = find_pivot-some (drop col rows) col col p h in
        record {
          below = low;
          inside = omega (arith, high, length-drop col rows, ok.count);
          nonzero = λ z. ne (
              ap (λ (r : Shard). get_or r.coeffs col 0)
                (get_or-drop col (p - col) p rows blank (omega arith))
              ∙ z);
        }

    found :
        (p : ℕ)
        → find_pivot (drop col rows) col col ≡ some p
        → Outcome left (col + 1) (reduce k col rows p)
        → Outcome (suc left) col rows
    unfolding gauss_jordan
    found p h (inl (out, runs, s)) = inl (
      out,
      rw (h, gauss_jordan) runs,
      record {
        done = s.done;
        independent = λ d. s.independent (record {
          relation = d.relation;
          size = d.size;
          are_bytes = d.are_bytes;
          kills =
              reduce-Kills src.are_bytes col rows p ok (found-IsPivot p h) d.relation d.are_bytes
                d.kills;
          place = d.place;
          nonzero = d.nonzero;
        });
      },
    )
    found p h (inr (fails, d)) = inr (
      rw (h, gauss_jordan) fails,
      record {
        relation = d.relation;
        size = d.size;
        are_bytes = d.are_bytes;
        kills =
            Kills-reduce src.are_bytes col rows p ok (found-IsPivot p h) d.relation d.are_bytes
              d.kills;
        place = d.place;
        nonzero = d.nonzero;
      },
    )

  pub gauss_jordan-Outcome :
      (left col : ℕ) (rows : List Shard)
      → left + col ≡ k
      → IsReduced k l xs col rows
      → Outcome left col rows
  gauss_jordan-Outcome zero col rows e ok =
      let same : col ≡ k = omega arith in
      let full : IsReduced k l xs k rows = rw same at ok in
      inl (
        rows,
        unfold gauss_jordan in refl,
        record { done = full; independent = identity-not-IsDependent rows full },
      )
  gauss_jordan-Outcome (suc left) col rows e ok =
      elim (Option-cases (find_pivot (drop col rows) col col)) [
        | inl h ↦ no_pivot left col rows e ok h
        | inr (p, h) ↦ found left col rows e ok p h (
            gauss_jordan-Outcome left (col + 1) (reduce k col rows p) (omega arith)
              (reduce-IsReduced src.are_bytes col rows p ok (found-IsPivot left col rows e ok p h)))
      ]
