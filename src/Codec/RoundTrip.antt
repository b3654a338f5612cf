-- ===== src/Codec/RoundTrip.antt =====
-- What `decode_block` returns.
use coding_gateway.Base.{
  ℕ, ◌<◌, ◌≡◌, ◌≢◌, refl, sym, ap, ap₂, ◌∙◌, arith, List, [], length, get_or, take, map, get_or-map,
  get_or-take, length-map, length-take, get_or_ext, none, some, ◌⊎◌, inl, inr, ◌↔◌,
}
use coding_gateway.Codec.{Shard}
use coding_gateway.Codec.Decode.{blank, Packet, load_rows, recovered, decode_block}
use coding_gateway.Codec.Dot.{dot_of_unit}
use coding_gateway.Codec.Row.{IsRow, column}
use coding_gateway.Codec.Reduced.{IsReduced}
use coding_gateway.Codec.Kernel.{IsDependent}
use coding_gateway.Codec.Source.{
  IsSource, AreShardsOf, IsStack, packets, start, load_rows-IsDependent,
}
use coding_gateway.Codec.Solve.{gauss_jordan-Outcome}

abbrev cut : ℕ → List ℕ → Packet
cut l x = record { bytes = take l x; len = l }

some-ne-none : {x : List Packet} → some x ≢ none
some-ne-none h = cc

module _ {k l : ℕ} {xs : List (List ℕ)} (src : IsSource k l xs) where
  recovered-row :
      (rows : List Shard) (i : ℕ)
      → IsReduced k l xs k rows
      → i < k
      → recovered (get_or rows i blank) ≡ record { bytes = take l (get_or xs i []); len = l }
  recovered-row rows i ok h =
      ap₂ (λ (b : List ℕ) (n : ℕ). record { bytes = b; len = n })
        (ap (λ n. take n r.payload) v.full
          ∙ get_or_ext 0 (take l r.payload) (take l x)
              (omega (arith, length-take l r.payload, length-take l x, v.room, src.long i h))
              same_byte)
        v.full
    where
      r : Shard
      r = get_or rows i blank

      x : List ℕ
      x = get_or xs i []

      v : IsRow k l xs r
      v = ok.are_rows i h

      same_byte :
          (p : ℕ)
          → p < length (take l r.payload)
          → get_or (take l r.payload) p 0 ≡ get_or (take l x) p 0
      same_byte p q =
          let below : p < l = omega (arith, length-take l r.payload) in
          get_or-take l p r.payload 0 below
          ∙ v.meets p below
          ∙ dot_of_unit r.coeffs (column p xs) i (src.are_bytes p)
              (omega (arith, length-map (λ x. get_or x p 0) xs, src.count))
              (λ c m.
                ok.identity i c h (omega (arith, length-map (λ x. get_or x p 0) xs, src.count)))
          ∙ get_or-map (λ x. get_or x p 0) xs i [] 0 (omega (arith, src.count))
          ∙ sym (get_or-take l p x 0 below)

  module _ {stack : List (List ℕ)} {shards : List Shard} (mem : IsStack k l stack)
      (ok : AreShardsOf k l xs shards) where
    solved : (out : List Shard) → IsReduced k l xs k out → map recovered out ≡ packets l xs
    solved out done =
        get_or_ext (recovered blank) (map recovered out) (packets l xs)
          (omega (arith, length-map recovered out, length-map (cut l) xs, done.count, src.count))
          λ i p.
            let below : i < k = omega (arith, length-map recovered out, done.count) in
            get_or-map recovered out i blank (recovered blank) (omega (arith, done.count))
            ∙ recovered-row out i done below
            ∙ sym (get_or-map (cut l) xs i [] (recovered blank) (omega (arith, src.count)))

    decode_cases :
        ((decode_block stack shards k ≡ some (packets l xs)) × (¬ IsDependent k shards))
        ⊎ ((decode_block stack shards k ≡ none) × IsDependent k shards)
    unfolding decode_block
    decode_cases =
        elim (gauss_jordan-Outcome src k 0 (load_rows k k stack shards) (omega arith)
          (start src mem ok)) [
            | inl (out, runs, s) ↦ inl (
              rw (runs, decode_block) (ap some (solved out s.done)),
              λ d. s.independent ((load_rows-IsDependent src mem ok).1 d),
            )
            | inr (fails, d) ↦
                inr (rw (fails, decode_block) refl, (load_rows-IsDependent src mem ok).0 d)
          ]

    -- Let `shards` hold `k` shards of one block, each the combination of its source packets that
    -- its coefficients name. If these coefficients are linearly independent, `decode_block`
    -- returns 0 and `out` holds every source packet, with the length of the block.
    pub decode_block-recovers :
        ¬ IsDependent k shards → decode_block stack shards k ≡ some (packets l xs)
    decode_block-recovers free = elim decode_cases [ inl t ↦ t.0 | inr t ↦ absurd (free t.1) ]

    -- On `k` shards of one block `decode_block` returns -1 exactly when their coefficients are
    -- linearly dependent.
    pub decode_block-none_iff : (decode_block stack shards k ≡ none) ↔ IsDependent k shards
    decode_block-none_iff = elim decode_cases [
      | inl t ↦ (λ e. absurd (some-ne-none (sym t.0 ∙ e)), λ d. absurd (t.1 d))
      | inr t ↦ (λ _. t.1, λ _. t.0)
    ]
