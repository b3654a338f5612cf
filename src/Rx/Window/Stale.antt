-- ===== src/Rx/Window/Stale.antt =====
-- Blocks that `rx_window_advance` passes over while they are still incomplete.
use coding_gateway.Base.{
  ℕ, zero, suc, ◌+◌, ◌*◌, ◌^◌, ◌≤◌, ◌<◌, ◌≡◌, ◌≢◌, refl, sym, ap, ◌∙◌, arith, Bool, true, false,
  ◌||◌, if◌then◌else◌, none, some, inl, inr, ◌⊎◌, Bool-cases, get_or-set_ne,
}
use coding_gateway.Rx.{RxBlock, RxWindow, zero_block}
use coding_gateway.Rx.Window.{
  distance, slot, is_newer, is_expired, next_id, advance_round, rx_window_advance,
}
use coding_gateway.Rx.Window.Advance.{
  IsNear, Round, retire, skip, stop, advance_round-Round, Round-IsNear, Round-done,
}

-- Slot `i` holds a block that is not decoded and does not expire at any time that is read.
pub record IsPending (clock : ℕ → ℕ) (win : RxWindow) (i : ℕ) : Type 0 where
  pub used : 0 < (slot win i).recv_count
  pub undecoded : (slot win i).decoded ≡ false
  pub unexpired : (t : ℕ) → is_expired (clock t) (slot win i) ≡ false

none-ne-some : {w : RxWindow} → none ≢ some w
none-ne-some h = cc

pub some_inj : {v w : RxWindow} → some v ≡ some w → v ≡ w
some_inj h = cc

true-ne-false : true ≢ false
true-ne-false h = cc

-- The base moves by one in a round that goes on, and a slot that is not retired is kept.
pub Round-base :
    {window_size : ℕ} {win : RxWindow} {now : ℕ} {r : RxWindow × Bool}
    → Round window_size win now r
    → r.1 ≡ true
    → r.0.base_id ≡ next_id win.base_id
Round-base (retire j p h e d) go = refl
Round-base (skip j h e) go = refl
Round-base (stop h) go = absurd (true-ne-false (sym go))

Round-keeps :
    {window_size : ℕ} {win : RxWindow} {now : ℕ} {r : RxWindow × Bool} (i : ℕ)
    → Round window_size win now r
    → ((slot win i).decoded || is_expired now (slot win i)) ≡ false
    → slot r.0 i ≡ slot win i
Round-keeps {win = win} {now = now} i (retire j p h e d) pending =
    get_or-set_ne win.slots j i zero_block zero_block λ same.
      true-ne-false
        (sym d ∙ ap (λ m. (slot win m).decoded || is_expired now (slot win m)) same ∙ pending)
Round-keeps i (skip j h e) pending = refl
Round-keeps i (stop h) pending = refl

Round-settled :
    {window_size : ℕ} {win : RxWindow} {now : ℕ} {r : RxWindow × Bool} (j : ℕ)
    → Round window_size win now r
    → r.1 ≡ false
    → j < window_size
    → (r.0 ≡ win) × (is_newer win.base_id (slot win j) ≡ false)
Round-settled m (retire j p h e d) go q = absurd (true-ne-false go)
Round-settled m (skip j h e) go q = absurd (true-ne-false go)
Round-settled m (stop h) go q = (refl, h m q)

-- Block `b` stays in reach of the base for `n` more rounds, with `gap` to spare.
abbrev InReach : ℕ → ℕ → ℕ → ℕ → Type 0
InReach n gap b base = (distance b base < n) ⊎ (2 ^ 31 + n + gap ≤ distance b base)

InReach-closer :
    (n gap b base : ℕ)
    → suc n + gap ≤ 2 ^ 31
    → b < 2 ^ 32
    → base < 2 ^ 32
    → InReach (suc n) gap b base
    → InReach n gap b (next_id base)
InReach-closer n gap b base s p q h = omega arith

passed_over :
    (n a b base : ℕ)
    → a < 2 ^ 32
    → b < 2 ^ 32
    → base < 2 ^ 32
    → 0 < distance b a
    → n + distance b a ≤ 2 ^ 31
    → InReach n (distance b a) b base
    → (distance b base ≡ 0) ⊎ (2 ^ 31 ≤ distance b base)
    → 2 ^ 31 ≤ distance a base
passed_over n a b base p q r gap s h e = omega arith

not_newer :
    (base : ℕ) (b : RxBlock)
    → 0 < b.recv_count
    → is_newer base b ≡ false
    → (distance b.block_id base ≡ 0) ⊎ (2 ^ 31 ≤ distance b.block_id base)
not_newer base b used e = ground arith

advance_zero :
    (clock : ℕ → ℕ) (t : ℕ) (win : RxWindow) (window_size : ℕ) {w : RxWindow}
    → rx_window_advance 0 clock t win window_size ≢ some w
unfolding rx_window_advance
advance_zero clock t win window_size h = none-ne-some h

pub advance_step :
    (fuel : ℕ) (clock : ℕ → ℕ) (t : ℕ) (win : RxWindow) (window_size : ℕ)
    → rx_window_advance (suc fuel) clock t win window_size ≡ (
        if (advance_round win window_size (clock t)).1
        then rx_window_advance fuel clock
            (t + 1)
            (advance_round win window_size (clock t)).0
            window_size
        else some (advance_round win window_size (clock t)).0)
unfolding rx_window_advance
advance_step fuel clock t win window_size = refl

module _ (clock : ℕ → ℕ) (window_size i j : ℕ) (a b : RxBlock) (j_in : j < window_size)
    (a_waits : (t : ℕ) → (a.decoded || is_expired (clock t) a) ≡ false)
    (b_waits : (t : ℕ) → (b.decoded || is_expired (clock t) b) ≡ false) (b_used : 0 < b.recv_count)
    (a_word : a.block_id < 2 ^ 32) (b_word : b.block_id < 2 ^ 32)
    (ahead : 0 < distance b.block_id a.block_id) where
  -- Both slots are kept, and the base is past the first one's block.
  abbrev Passed : RxWindow → Type 0
  Passed w = (slot w i ≡ a) × (slot w j ≡ b) × (2 ^ 31 ≤ distance a.block_id w.base_id)

  abbrev gap : ℕ
  gap = distance b.block_id a.block_id

  record Holds (n : ℕ) (win : RxWindow) : Type 0 where
    near : IsNear n window_size win
    first : slot win i ≡ a
    second : slot win j ≡ b
    reach : InReach n gap b.block_id win.base_id

  Holds-settled :
      {now n : ℕ} {win : RxWindow} {r : RxWindow × Bool}
      → n + gap ≤ 2 ^ 31
      → Holds n win
      → Round window_size win now r
      → r.1 ≡ false
      → Passed r.0
  Holds-settled {n = n} {win = win} s ok round e =
      let (same, quiet) = Round-settled j round e j_in in
      let settled = not_newer win.base_id b b_used (rw ok.second at quiet) in
      rw same (
        ok.first,
        ok.second,
        passed_over n a.block_id b.block_id win.base_id a_word b_word ok.near.base_word ahead s
            ok.reach settled,
      )

  Holds-Round :
      {now n : ℕ} {win : RxWindow} {r : RxWindow × Bool}
      → suc n + gap ≤ 2 ^ 31
      → (a.decoded || is_expired now a) ≡ false
      → (b.decoded || is_expired now b) ≡ false
      → Holds (suc n) win
      → Round window_size win now r
      → r.1 ≡ true
      → Holds n r.0
  Holds-Round {now = now} {n = n} {win = win} s aw bw ok round e = record {
    near = Round-IsNear n (omega arith) ok.near round e;
    first = Round-keeps i round (rw ok.first aw) ∙ ok.first;
    second = Round-keeps j round (rw ok.second bw) ∙ ok.second;
    reach =
        rw (Round-base round e)
          (InReach-closer n gap b.block_id win.base_id s b_word ok.near.base_word ok.reach);
  }

  advance_ends :
      (n fuel t : ℕ) (win w : RxWindow)
      → n + gap ≤ 2 ^ 31
      → Holds n win
      → (advance_round win window_size (clock t)).1 ≡ false
      → rx_window_advance (suc fuel) clock t win window_size ≡ some w
      → Passed w
  advance_ends n fuel t win w s ok e h =
      let ends : some (advance_round win window_size (clock t)).0 ≡ some w =
        rw (advance_step fuel clock t win window_size, e) at h in
      let same : (advance_round win window_size (clock t)).0 ≡ w = some_inj ends in
      rw same at (Holds-settled s ok (advance_round-Round window_size win (clock t) ok.near.room) e)

  advance-Passed :
      (n fuel t : ℕ) (win w : RxWindow)
      → n + gap ≤ 2 ^ 31
      → Holds n win
      → rx_window_advance fuel clock t win window_size ≡ some w
      → Passed w
  advance-Passed n zero t win w s ok h = absurd (advance_zero clock t win window_size h)
  advance-Passed zero (suc fuel) t win w s ok h =
      elim (Bool-cases (advance_round win window_size (clock t)).1) [
        | inr e ↦ advance_ends zero fuel t win w s ok e h
        | inl e ↦
            absurd
              (Round-done ok.near (advance_round-Round window_size win (clock t) ok.near.room) e)
      ]
  advance-Passed (suc n) (suc fuel) t win w s ok h =
      elim (Bool-cases (advance_round win window_size (clock t)).1) [
        | inr e ↦ advance_ends (suc n) fuel t win w s ok e h
        | inl e ↦
            advance-Passed n fuel (t + 1) (advance_round win window_size (clock t)).0 w
              (omega arith)
              (Holds-Round s (a_waits t) (b_waits t) ok
                (advance_round-Round window_size win (clock t) ok.near.room) e)
              (rw (advance_step fuel clock t win window_size, e) at h)
      ]

-- Slots `i` and `j` of the window hold blocks that are not decoded and do not expire, and the second
-- one's id is after the first one's, by less than `n`. Then `rx_window_advance` keeps both slots, and
-- moves the base past the first block, although it is incomplete and has not timed out.
pub rx_window_advance-passes_pending :
    (n fuel : ℕ) (clock : ℕ → ℕ) (win w : RxWindow) (window_size i j : ℕ)
    → 2 * n ≤ 2 ^ 31
    → IsNear n window_size win
    → i < window_size
    → j < window_size
    → IsPending clock win i
    → IsPending clock win j
    → distance (slot win i).block_id win.base_id < distance (slot win j).block_id win.base_id
    → distance (slot win j).block_id win.base_id < n
    → rx_window_advance fuel clock 0 win window_size ≡ some w
    → (slot w i ≡ slot win i)
      × (slot w j ≡ slot win j)
      × (2 ^ 31 ≤ distance (slot win i).block_id w.base_id)
rx_window_advance-passes_pending n fuel clock win w window_size i j s near p q a b lt close h =
    advance-Passed clock window_size i j (slot win i) (slot win j) q (waits i a) (waits j b) b.used
      (near.id_word i) (near.id_word j) gap_bounds.0 n fuel 0 win w gap_bounds.1
      (record { near = near; first = refl; second = refl; reach = inl close }) h
  where
    waits :
        (m : ℕ)
        → IsPending clock win m
        → (t : ℕ) → ((slot win m).decoded || is_expired (clock t) (slot win m)) ≡ false
    waits m v t = rw (v.undecoded, v.unexpired t) refl

    gap_bounds :
        (0 < distance (slot win j).block_id (slot win i).block_id)
        × (n + distance (slot win j).block_id (slot win i).block_id ≤ 2 ^ 31)
    gap_bounds = omega (arith, near.id_word i, near.id_word j, near.base_word)
