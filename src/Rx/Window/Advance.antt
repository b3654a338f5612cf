-- ===== src/Rx/Window/Advance.antt =====
-- `rx_window_advance` ends, and where.
use coding_gateway.Base.{
  ℕ, zero, suc, ◌+◌, ◌^◌, ◌≤◌, ◌<◌, ◌≡◌, ◌≢◌, refl, arith, Bool, true, false, ◌||◌, some, inl, inr,
  ◌⊎◌, Bool-cases, Option-cases, length, set, length-set, get_or-set_self, get_or-set_ne,
}
use native.Mathlib.Decide.{ℕ_discrete}
use coding_gateway.Rx.{RxBlock, RxWindow, zero_block}
use coding_gateway.Rx.Window.{
  distance, holds, find_slot, slot, is_newer, is_expired, next_id, skip_base, advance_round,
  rx_window_advance,
}
use coding_gateway.Rx.Window.Find.{find_slot-none, found_at}

-- Block ids are 32-bit words, and every block held is less than `n` ahead of the base, or behind
-- it by at most 2^31 - `n`.
pub record IsNear (n window_size : ℕ) (win : RxWindow) : Type 0 where
  pub room : window_size ≤ length win.slots
  pub base_word : win.base_id < 2 ^ 32
  pub id_word : (i : ℕ) → (slot win i).block_id < 2 ^ 32
  pub near :
      (i : ℕ)
      → i < window_size
      → 0 < (slot win i).recv_count
      → (distance (slot win i).block_id win.base_id < n)
        ⊎ (2 ^ 31 + n ≤ distance (slot win i).block_id win.base_id)

zero_slot : (zero_block.recv_count ≡ 0) × (zero_block.block_id ≡ 0)
unfolding zero_block
zero_slot = (refl, refl)

closer :
    (n b base : ℕ)
    → n < 2 ^ 31
    → b < 2 ^ 32
    → base < 2 ^ 32
    → (distance b base < suc n) ⊎ (2 ^ 31 + suc n ≤ distance b base)
    → (distance b (next_id base) < n) ⊎ (2 ^ 31 + n ≤ distance b (next_id base))
closer n b base s p q h = omega arith

module _ (n window_size : ℕ) (win : RxWindow) (small : n < 2 ^ 31)
    (ok : IsNear (suc n) window_size win) where
  bumped-IsNear : IsNear n window_size (record win { base_id = next_id win.base_id })
  bumped-IsNear = record {
    room = ok.room;
    base_word = omega arith;
    id_word = ok.id_word;
    near = λ i p used.
        closer n (slot win i).block_id win.base_id small (ok.id_word i) ok.base_word
          (ok.near i p used);
  }

  abbrev retired : ℕ → RxWindow
  retired j = record win { slots = set win.slots j zero_block; base_id = next_id win.base_id }

  retired-IsNear : (j : ℕ) → j < length win.slots → IsNear n window_size (retired j)
  retired-IsNear j h = record {
    room = omega (arith, ok.room, length-set win.slots j zero_block);
    base_word = omega arith;
    id_word = λ i. elim (ℕ_discrete j i) [
      | yes e ↦
          rw (← e, get_or-set_self win.slots j zero_block zero_block h, zero_slot.1) (omega arith)
      | no ne ↦ rw (get_or-set_ne win.slots j i zero_block zero_block ne) (ok.id_word i)
    ];
    near = λ i p used. elim (ℕ_discrete j i) [
      | yes e ↦
          absurd (cleared (rw (← e, get_or-set_self win.slots j zero_block zero_block h) at used))
      | no ne ↦ rw (get_or-set_ne win.slots j i zero_block zero_block ne) (
          bumped-IsNear.near i p
            (rw (get_or-set_ne win.slots j i zero_block zero_block ne) at used))
    ];
  }
    where
      cleared : 0 < zero_block.recv_count → ⊥
      cleared u = omega (arith, zero_slot)

-- The three outcomes of a round: the base block is retired, the base moves on over a newer block, or
-- nothing changes and no block held is newer than the base.
pub data Round (window_size : ℕ) (win : RxWindow) (now : ℕ) : RxWindow × Bool → Type 0 where
  retire :
      (j : ℕ)
      → j < window_size
      → j < length win.slots
      → holds win.base_id (slot win j) ≡ true
      → ((slot win j).decoded || is_expired now (slot win j)) ≡ true
      → Round window_size win now
          (record win { slots = set win.slots j zero_block; base_id = next_id win.base_id }, true)
  skip :
      (j : ℕ)
      → j < window_size
      → is_newer win.base_id (slot win j) ≡ true
      → Round window_size win now (record win { base_id = next_id win.base_id }, true)
  stop :
      ((i : ℕ) → i < window_size → is_newer win.base_id (slot win i) ≡ false)
      → Round window_size win now (win, false)

module _ (window_size : ℕ) (win : RxWindow) (now : ℕ) (room : window_size ≤ length win.slots) where
  skip_base-Round : Round window_size win now (skip_base win window_size)
  unfolding skip_base
  skip_base-Round = elim (Option-cases (find_slot (is_newer win.base_id) window_size 0 win.slots)) [
    | inl h ↦
        rw (h, skip_base)
          (stop λ i p.
            find_slot-none (is_newer win.base_id) window_size 0 i win.slots h p (omega arith))
    | inr (j, h) ↦
        let f = found_at (is_newer win.base_id) window_size j win h in
        rw (h, skip_base) (skip j f.0 f.2)
  ]

  pub advance_round-Round : Round window_size win now (advance_round win window_size now)
  unfolding advance_round
  advance_round-Round =
      elim (Option-cases (find_slot (holds win.base_id) window_size 0 win.slots)) [
        | inl h ↦ rw (h, advance_round) skip_base-Round
        | inr (j, h) ↦
            let f = found_at (holds win.base_id) window_size j win h in
            elim (Bool-cases ((slot win j).decoded || is_expired now (slot win j))) [
              | inl e ↦ rw (h, advance_round, e) (retire j f.0 f.1 f.2 e)
              | inr e ↦ rw (h, advance_round, e) skip_base-Round
            ]
      ]

-- A block that the search for the base finds is at distance 0.
pub held_distance :
    (base : ℕ) (b : RxBlock)
    → base < 2 ^ 32
    → holds base b ≡ true
    → (0 < b.recv_count) × (distance b.block_id base ≡ 0)
held_distance base b h e = ground arith

pub newer_distance :
    (base : ℕ) (b : RxBlock)
    → is_newer base b ≡ true
    → (0 < b.recv_count) × (0 < distance b.block_id base) × (distance b.block_id base < 2 ^ 31)
newer_distance base b e = ground arith

module _ {window_size : ℕ} {win : RxWindow} {now : ℕ} where
  pub Round-IsNear :
      {r : RxWindow × Bool} (n : ℕ)
      → n < 2 ^ 31
      → IsNear (suc n) window_size win
      → Round window_size win now r
      → r.1 ≡ true
      → IsNear n window_size r.0
  Round-IsNear n small ok (retire j p h e d) go = retired-IsNear n window_size win small ok j h
  Round-IsNear n small ok (skip j h e) go = bumped-IsNear n window_size win small ok
  Round-IsNear n small ok (stop h) go = absurd (false_true go)
    where
      false_true : false ≢ true
      false_true h = cc

  -- At the bound 0 nothing is left to do.
  pub Round-done :
      {r : RxWindow × Bool}
      → IsNear 0 window_size win
      → Round window_size win now r
      → r.1 ≡ true
      → ⊥
  Round-done ok (retire j p h e d) go =
      grind (arith, ok.near j p, held_distance win.base_id (slot win j) ok.base_word e)
  Round-done ok (skip j h e) go =
      grind (arith, ok.near j h, newer_distance win.base_id (slot win j) e)
  Round-done ok (stop h) go = cc

-- The window in which the loop stops: no block held is newer than the base.
abbrev pub IsSettled : ℕ → RxWindow → Type 0
IsSettled window_size w = (i : ℕ) → i < window_size → is_newer w.base_id (slot w i) ≡ false

Round-stop :
    {window_size : ℕ} {win : RxWindow} {now : ℕ} {r : RxWindow × Bool}
    → Round window_size win now r
    → r.1 ≡ false
    → IsSettled window_size r.0
Round-stop (retire j p h e d) go = absurd (true_false go)
  where
    true_false : true ≢ false
    true_false h = cc
Round-stop (skip j h e) go = absurd (true_false go)
  where
    true_false : true ≢ false
    true_false h = cc
Round-stop (stop h) go = h

advance_more :
    (fuel : ℕ) (clock : ℕ → ℕ) (t : ℕ) (win : RxWindow) (window_size : ℕ) (w : RxWindow)
    → (advance_round win window_size (clock t)).1 ≡ true
    → rx_window_advance fuel clock (t + 1) (advance_round win window_size (clock t)).0 window_size
      ≡ some w
    → rx_window_advance (suc fuel) clock t win window_size ≡ some w
unfolding rx_window_advance
advance_more fuel clock t win window_size w e h = rw (e, rx_window_advance) h

advance_stop :
    (fuel : ℕ) (clock : ℕ → ℕ) (t : ℕ) (win : RxWindow) (window_size : ℕ)
    → (advance_round win window_size (clock t)).1 ≡ false
    → rx_window_advance (suc fuel) clock t win window_size
      ≡ some (advance_round win window_size (clock t)).0
unfolding rx_window_advance
advance_stop fuel clock t win window_size e = rw (e, rx_window_advance) refl

-- If every block held is less than `n` ahead of the base, or behind it by at most 2^31 - `n`, the
-- loop of `rx_window_advance` ends within `n + 1` rounds, whatever the time, in a window that holds
-- no block newer than its base.
pub rx_window_advance-terminates :
    (n fuel : ℕ) (clock : ℕ → ℕ) (t : ℕ) (win : RxWindow) (window_size : ℕ)
    → n < 2 ^ 31
    → n < fuel
    → IsNear n window_size win
    → (w : RxWindow) × (rx_window_advance fuel clock t win window_size ≡ some w)
      × IsSettled window_size w
rx_window_advance-terminates n zero clock t win window_size small h ok = absurd (omega arith)
rx_window_advance-terminates zero (suc fuel) clock t win window_size small h ok =
    elim (Bool-cases (advance_round win window_size (clock t)).1) [
      | inl e ↦ absurd (Round-done ok round e)
      | inr e ↦ (_, advance_stop fuel clock t win window_size e, Round-stop round e)
    ]
  where
    round : Round window_size win (clock t) (advance_round win window_size (clock t))
    round = advance_round-Round window_size win (clock t) ok.room
rx_window_advance-terminates (suc n) (suc fuel) clock t win window_size small h ok =
    elim (Bool-cases (advance_round win window_size (clock t)).1) [
      | inl e ↦
          let (w, ends, settled) =
            rx_window_advance-terminates n fuel clock (t + 1)
              (advance_round win window_size (clock t)).0 window_size (omega arith) (omega arith)
              (Round-IsNear n (omega arith) ok round e) in
          (w, advance_more fuel clock t win window_size w e ends, settled)
      | inr e ↦ (_, advance_stop fuel clock t win window_size e, Round-stop round e)
    ]
  where
    round : Round window_size win (clock t) (advance_round win window_size (clock t))
    round = advance_round-Round window_size win (clock t) ok.room
