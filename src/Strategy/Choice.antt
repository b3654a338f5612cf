-- ===== src/Strategy/Choice.antt =====
-- Which path `strategy_next_path` of src/strategy.c chooses.
use coding_gateway.Base.{
  ℕ, zero, suc, ◌+◌, ◌-◌, ◌≤◌, ◌<◌, ◌≡◌, refl, sym, ap, ◌∙◌, arith, List, Bool, true, false, ◌&&◌,
  Option, none, some, ltb, ltb→lt, ◌⊎◌, inl, inr, Bool-cases, Option-cases, get_or, set, length,
  length-set, get_or-set_self, get_or-set_ne,
}
use native.Mathlib.Decide.{ℕ_discrete}
use coding_gateway.Float.{FloatOps}
use coding_gateway.Base.{ℤ, pos, negsuc}
use coding_gateway.Strategy.{
  StrategyCtx, any_from, at_least_one, is_usable, full_credit, refill, has_credit, refilled, better,
  pick, strategy_next_path,
}

any_from_found :
    (test : ℕ → Bool) (left i : ℕ)
    → any_from test left i ≡ true
    → (j : ℕ) × (i ≤ j) × (j < i + left) × (test j ≡ true)
unfolding any_from
any_from_found test zero i h = absurd (cc)
any_from_found test (suc left) i h = elim (Bool-cases (test i)) [
  | inl e ↦ (i, omega arith, omega arith, e)
  | inr e ↦
      let (j, low, high, t) = any_from_found test left (i + 1) (rw (e, any_from) at h) in
      (j, omega arith, omega arith, t)
]

pub any_from_missing :
    (test : ℕ → Bool) (left i j : ℕ)
    → any_from test left i ≡ false
    → i ≤ j
    → j < i + left
    → test j ≡ false
unfolding any_from
any_from_missing test zero i j h low high = absurd (omega arith)
any_from_missing test (suc left) i j h low high = elim (Bool-cases (test i)) [
  | inl e ↦ absurd (cc (rw (e, any_from) at h))
  | inr e ↦ elim (ℕ_discrete i j) [
    | yes same ↦ ap test (sym same) ∙ e
    | no ne ↦
        any_from_missing test left (i + 1) j (rw (e, any_from) at h) (omega (arith, ne))
          (omega arith)
  ]
]

pub at_least_one-positive : (z : ℤ) → 0 < at_least_one z
at_least_one-positive (pos n) = ground arith
at_least_one-positive (negsuc n) = omega arith

module _ {F : Type 0} (ops : FloatOps F) (ctx : StrategyCtx F) where
  refill_below :
      (left i : ℕ) (credits : List ℕ) (j : ℕ)
      → j < i
      → get_or (refill ops ctx left i credits) j 0 ≡ get_or credits j 0
  unfolding refill
  refill_below zero i credits j p = refl
  refill_below (suc left) i credits j p = elim (Bool-cases (is_usable ops ctx i)) [
    | inl e ↦
        rw (e, refill)
          (refill_below left (i + 1) (set credits i (full_credit ops ctx i)) j (omega arith)
            ∙ get_or-set_ne credits i j (full_credit ops ctx i) 0 (λ q. omega (arith, q)))
    | inr e ↦ rw (e, refill) (refill_below left (i + 1) credits j (omega arith))
  ]

  refill_fills :
      (left i : ℕ) (credits : List ℕ) (j : ℕ)
      → i ≤ j
      → j < i + left
      → j < length credits
      → is_usable ops ctx j ≡ true
      → get_or (refill ops ctx left i credits) j 0 ≡ full_credit ops ctx j
  unfolding refill
  refill_fills zero i credits j low high room u = absurd (omega arith)
  refill_fills (suc left) i credits j low high room u = elim (ℕ_discrete i j) [
    | yes same ↦
        rw (same, u, refill)
          (refill_below left (j + 1) (set credits j (full_credit ops ctx j)) j (omega arith)
            ∙ get_or-set_self credits j (full_credit ops ctx j) 0 room)
    | no ne ↦ elim (Bool-cases (is_usable ops ctx i)) [
      | inl e ↦
          rw (e, refill)
            (refill_fills left (i + 1) (set credits i (full_credit ops ctx i)) j (omega (arith, ne))
              (omega arith) (omega (arith, length-set credits i (full_credit ops ctx i))) u)
      | inr e ↦
          rw (e, refill)
            (refill_fills left (i + 1) credits j (omega (arith, ne)) (omega arith) room u)
    ]
  ]

  -- Among the usable paths below `i`, the best one has the highest credit, and is the first one
  -- that has it; `none` if there is no such path.
  abbrev pub IsBest : List ℕ → ℕ → Option ℕ → Type 0
  IsBest credits i none = (j : ℕ) → j < i → is_usable ops ctx j ≡ false
  IsBest credits i (some b) =
      (b < i)
      × (is_usable ops ctx b ≡ true)
      × ((j : ℕ)
          → j < i
          → is_usable ops ctx j ≡ true
          → (get_or credits j 0 ≤ get_or credits b 0)
            × (j < b → get_or credits j 0 < get_or credits b 0))

  skip-IsBest :
      (credits : List ℕ) (i : ℕ) (best : Option ℕ)
      → is_usable ops ctx i ≡ false
      → IsBest credits i best
      → IsBest credits (i + 1) best
  skip-IsBest credits i none u h = λ j p. elim (ℕ_discrete j i) [
    | yes same ↦ ap (is_usable ops ctx) same ∙ u
    | no ne ↦ h j (omega (arith, ne))
  ]
  skip-IsBest credits i (some b) u h = (
    omega (arith, h.0),
    h.1,
    λ j p v. elim (ℕ_discrete j i) [
      | yes same ↦ absurd (cc (u, v, same))
      | no ne ↦ h.2 j (omega (arith, ne)) v
    ],
  )

  better-IsBest :
      (credits : List ℕ) (i : ℕ) (best : Option ℕ)
      → is_usable ops ctx i ≡ true
      → IsBest credits i best
      → IsBest credits (i + 1) (better ops ctx credits i best)
  better-IsBest credits i none u h = (
    omega arith,
    u,
    λ j p v. elim (ℕ_discrete j i) [
      | yes same ↦ rw same (omega arith, λ q. absurd (omega arith))
      | no ne ↦ absurd (cc (v, h j (omega (arith, ne))))
    ],
  )
  better-IsBest credits i (some b) u h =
      elim (Bool-cases (ltb (get_or credits b 0) (get_or credits i 0))) [
        | inl e ↦
            let more = ltb→lt (get_or credits b 0) (get_or credits i 0) e in
            rw e (
              omega arith,
              u,
              λ j p v. elim (ℕ_discrete j i) [
                | yes same ↦ rw same (omega arith, λ q. absurd (omega arith))
                | no ne ↦
                    let t = (h.2 j (omega (arith, ne)) v).0 in
                    (omega (arith, t, more), λ q. omega (arith, t, more))
              ],
            )
        | inr e ↦
            let less : get_or credits i 0 ≤ get_or credits b 0 = ground arith in
            rw e (
              omega (arith, h.0),
              h.1,
              λ j p v. elim (ℕ_discrete j i) [
                | yes same ↦ rw same (less, λ q. absurd (omega (arith, h.0)))
                | no ne ↦ h.2 j (omega (arith, ne)) v
              ],
            )
      ]

  pick-IsBest :
      (credits : List ℕ) (left i : ℕ) (best : Option ℕ)
      → IsBest credits i best
      → IsBest credits (i + left) (pick ops ctx credits left i best)
  unfolding pick
  pick-IsBest credits zero i best h = let e : i + 0 ≡ i = omega arith in rw e h
  pick-IsBest credits (suc left) i best h =
      let e : i + suc left ≡ i + 1 + left = omega arith in
      elim (Bool-cases (is_usable ops ctx i)) [
        | inl u ↦
            rw (e, u, pick)
              (pick-IsBest credits left (i + 1) (better ops ctx credits i best)
                (better-IsBest credits i best u h))
        | inr u ↦
            rw (e, u, pick) (pick-IsBest credits left (i + 1) best (skip-IsBest credits i best u h))
      ]

  -- Some usable path has a credit above 0 after the refill.
  refilled-has_credit :
      ctx.path_count ≤ length ctx.path_credit
      → any_from (is_usable ops ctx) ctx.path_count 0 ≡ true
      → (j : ℕ) × (j < ctx.path_count)
        × (is_usable ops ctx j ≡ true)
        × (0 < get_or (refilled ops ctx) j 0)
  unfolding refilled has_credit
  refilled-has_credit room some_usable =
      elim (Bool-cases (any_from (has_credit ops ctx ctx.path_credit) ctx.path_count 0)) [
        | inl e ↦
            let (j, low, high, t) =
              any_from_found (has_credit ops ctx ctx.path_credit) ctx.path_count 0 e in
            let (u, c) = both (is_usable ops ctx j) (ltb 0 (get_or ctx.path_credit j 0)) t in
            (j, omega arith, u, rw (e, refilled) (ltb→lt 0 (get_or ctx.path_credit j 0) c))
        | inr e ↦
            let (j, low, high, u) =
              any_from_found (is_usable ops ctx) ctx.path_count 0 some_usable in
            (
              j,
              omega arith,
              u,
              rw
                  (
                    e,
                    refilled,
                    refill_fills ctx.path_count 0 ctx.path_credit j low high (omega arith) u,
                  )
                  (at_least_one-positive (ops.round (ctx.paths j).weight_current)),
            )
      ]
    where
      both : (a b : Bool) → (a && b) ≡ true → (a ≡ true) × (b ≡ true)
      both true b h = (refl, h)
      both false b h = absurd (cc)

  -- `strategy_next_path` returns -1 and changes nothing if no path is enabled and alive. Otherwise it
  -- chooses an enabled path that is alive, the first one of those with the highest credit, and
  -- takes 1 from its credit, which is above 0. The credits are those before the call, or the
  -- refilled ones if no usable path had any left.
  pub strategy_next_path-IsBest :
      ctx.path_count ≤ length ctx.path_credit
      → (((j : ℕ) → j < ctx.path_count → is_usable ops ctx j ≡ false)
          × (strategy_next_path ops ctx ≡ (ctx, none)))
        ⊎ ((b : ℕ) × IsBest (refilled ops ctx) ctx.path_count (some b)
            × (0 < get_or (refilled ops ctx) b 0)
            × (strategy_next_path ops ctx ≡ (
              record ctx {
                path_credit = set (refilled ops ctx) b (get_or (refilled ops ctx) b 0 - 1);
              },
              some b,
            )))
  unfolding strategy_next_path
  strategy_next_path-IsBest room =
      elim (Bool-cases (any_from (is_usable ops ctx) ctx.path_count 0)) [
        | inr e ↦ inl (
          λ j p.
              any_from_missing (is_usable ops ctx) ctx.path_count 0 j e (omega arith) (omega arith),
          rw (e, strategy_next_path) refl,
        )
        | inl e ↦
            let (j, high, u, c) = refilled-has_credit room e in
            elim (Option-cases (pick ops ctx (refilled ops ctx) ctx.path_count 0 none)) [
              | inl q ↦ absurd (cc (u, (rw q at chosen) j high))
              | inr (b, q) ↦
                  let best : IsBest (refilled ops ctx) ctx.path_count (some b) = rw q at chosen in
                  inr (
                    b,
                    best,
                    omega (arith, (best.2 j high u).0, c),
                    rw (e, q, strategy_next_path) refl,
                  )
            ]
      ]
    where
      chosen :
          IsBest
            (refilled ops ctx)
            ctx.path_count
            (pick ops ctx (refilled ops ctx) ctx.path_count 0 none)
      chosen =
          let e : 0 + ctx.path_count ≡ ctx.path_count = omega arith in
          let start =
            pick-IsBest (refilled ops ctx) ctx.path_count 0 none (λ j p. absurd (omega arith)) in
          rw e at start
