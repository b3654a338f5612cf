-- ===== src/Rx/Invariant.antt =====
-- What stays true of the receive window.
use coding_gateway.Base.{
  ℕ, zero, suc, ◌+◌, ◌≢◌, ◌≤◌, ◌≡◌, ◌∙◌, arith, List, [], Bool, false, ◌||◌, leb, none, some,
  Option, inl, inr, Bool-cases, Option-cases, length, set, length-set, get_or-set_self,
  get_or-set_ne, get_or-replicate, length-replicate, get_or_of_ge,
}
use mathlib.Core.Path.{subst}
use native.Mathlib.Decide.{ℕ_discrete, dec_lt}
use coding_gateway.Limits.{max_window}
use coding_gateway.Codec.{Shard}
use coding_gateway.Crypto.{CryptoCtx}
use coding_gateway.Wire.{WireHeader}
use coding_gateway.Rx.{RxBlock, RxWindow, zero_block, rx_window_init}
use coding_gateway.Rx.Window.{
  is_negative, distance, holds, is_free, find_slot, rx_find, slot, next_id, advance_round,
  rx_window_advance, insert_into, rx_window_insert, try_decode, rx_window_try_decode, Decoding,
  Delivery,
}
use coding_gateway.Rx.Window.Advance.{Round, retire, skip, stop, advance_round-Round}
use coding_gateway.Rx.Slot.{IsSlot, zero_block-IsSlot, insert_into-IsSlot, try_decode-IsSlot}

-- Every slot of the window is consistent, and there are 16 of them.
pub record IsWindow (win : RxWindow) : Type 0 where
  pub room : length win.slots ≡ max_window
  pub each : (i : ℕ) → IsSlot (slot win i)

pub set-IsWindow :
    (win : RxWindow) (j : ℕ) (b : RxBlock) (base : ℕ)
    → IsWindow win
    → IsSlot b
    → IsWindow (record { slots = set win.slots j b; base_id = base })
set-IsWindow win j b base v h = record {
  room = length-set win.slots j b ∙ v.room;
  each = λ i. elim (ℕ_discrete j i) [
    | no ne ↦ rw (get_or-set_ne win.slots j i b zero_block ne) (v.each i)
    | yes e ↦ elim (dec_lt j (length win.slots)) [
      | yes p ↦ rw (← e, get_or-set_self win.slots j b zero_block p) h
      | no p ↦
          rw
            (get_or_of_ge (set win.slots j b) i zero_block
              (omega (arith, length-set win.slots j b)))
            (zero_block-IsSlot zero_block.block_id)
    ]
  ];
}

rx_find-IsWindow :
    (win : RxWindow) (id window_size : ℕ) → IsWindow win → IsWindow (rx_find win id window_size).0
unfolding rx_find
rx_find-IsWindow win id window_size v =
    elim (Bool-cases
      (is_negative (distance id win.base_id) || leb window_size (distance id win.base_id))) [
        | inl e ↦ rw e v
        | inr e ↦ elim (Option-cases (find_slot (holds id) window_size 0 win.slots)) [
          | inr (j, h) ↦ rw (e, h) v
          | inl h ↦ elim (Option-cases (find_slot is_free window_size 0 win.slots)) [
            | inl f ↦ rw (e, h, f) v
            | inr (j, f) ↦ rw (e, h, f) (set-IsWindow win j _ win.base_id v (zero_block-IsSlot id))
          ]
        ]
      ]

keeps_IsWindow :
    (f : RxWindow → ℕ → RxBlock) (r : RxWindow × Option ℕ)
    → ((w : RxWindow) (j : ℕ) → IsWindow w → IsSlot (f w j))
    → IsWindow r.0
    → IsWindow (elim r.1 [ none ↦ r.0 | some j ↦ record r.0 { slots = set r.0.slots j (f r.0 j) } ])
keeps_IsWindow f (w, none) keep v = v
keeps_IsWindow f (w, some j) keep v = set-IsWindow w j (f w j) w.base_id v (keep w j v)

keeps_delivered :
    (f : RxWindow → ℕ → Decoding) (r : RxWindow × Option ℕ)
    → ((w : RxWindow) (j : ℕ) → IsWindow w → IsSlot (f w j).block)
    → IsWindow r.0
    → IsWindow
        (elim r.1 as (λ _. Delivery) [
          | none ↦ record { window = r.0; written = []; newly = false }
          | some j ↦ record {
            window = record r.0 { slots = set r.0.slots j (f r.0 j).block };
            written = (f r.0 j).written;
            newly = (f r.0 j).newly;
          }
        ]).window
keeps_delivered f (w, none) keep v = v
keeps_delivered f (w, some j) keep v = set-IsWindow w j (f w j).block w.base_id v (keep w j v)

insert-IsWindow :
    (win : RxWindow) (hdr : WireHeader) (s : Shard) (window_size : ℕ) (crypto : CryptoCtx) (now : ℕ)
    → IsWindow win
    → IsWindow (rx_window_insert win hdr s window_size crypto now)
unfolding rx_window_insert
insert-IsWindow win hdr s window_size crypto now v =
    keeps_IsWindow (λ w j. insert_into (slot w j) hdr s crypto now)
      (rx_find win hdr.block_id window_size)
      (λ w j ok. (insert_into-IsSlot (slot w j) hdr s s crypto now now (ok.each j)).0)
      (rx_find-IsWindow win hdr.block_id window_size v)

decode-IsWindow :
    (stack : List (List ℕ)) (win : RxWindow) (id k window_size : ℕ)
    → IsWindow win
    → IsWindow (rx_window_try_decode stack win id k window_size).window
unfolding rx_window_try_decode
decode-IsWindow stack win id k window_size v =
    keeps_delivered (λ w j. try_decode stack (slot w j) k) (rx_find win id window_size)
      (λ w j ok. try_decode-IsSlot stack (slot w j) k (ok.each j))
      (rx_find-IsWindow win id window_size v)

Round-IsWindow :
    {window_size now : ℕ} {win : RxWindow} {r : RxWindow × Bool}
    → Round window_size win now r
    → IsWindow win
    → IsWindow r.0
Round-IsWindow {win = win} (retire j p h e d) v =
    set-IsWindow win j zero_block (next_id win.base_id) v (zero_block-IsSlot zero_block.block_id)
Round-IsWindow (skip j h e) v = record { room = v.room; each = v.each }
Round-IsWindow (stop h) v = v

pub init-IsWindow : IsWindow rx_window_init
unfolding rx_window_init
init-IsWindow = record {
  room = length-replicate max_window zero_block;
  each = λ i. rw (get_or-replicate max_window i zero_block) (zero_block-IsSlot zero_block.block_id);
}

-- The window after the initialisation is consistent, and inserting a shard, decoding a block and a
-- round of the advance keep it so: there are 16 slots of 32 shards each, and every slot's count is
-- the number of its shards received.
pub rx_window-IsWindow :
    (win : RxWindow) (hdr : WireHeader) (s : Shard) (crypto : CryptoCtx) (now id k window_size : ℕ)
    (stack : List (List ℕ))
    → window_size ≤ max_window
    → IsWindow win
    → IsWindow rx_window_init
      × IsWindow (rx_window_insert win hdr s window_size crypto now)
      × IsWindow (rx_window_try_decode stack win id k window_size).window
      × IsWindow (advance_round win window_size now).0
rx_window-IsWindow win hdr s crypto now id k window_size stack small v = (
  init-IsWindow,
  insert-IsWindow win hdr s window_size crypto now v,
  decode-IsWindow stack win id k window_size v,
  Round-IsWindow (advance_round-Round window_size win now (omega (arith, v.room))) v,
)

some_inj : {a b : RxWindow} → some a ≡ some b → a ≡ b
some_inj e = cc

none-ne-some : {a : RxWindow} → none ≢ some a
none-ne-some e = cc

-- So it is with all the rounds of `rx_window_advance`.
pub rx_window_advance-IsWindow :
    (fuel : ℕ) (clock : ℕ → ℕ) (t : ℕ) (win : RxWindow) (w : ℕ) (out : RxWindow)
    → w ≤ max_window
    → IsWindow win
    → rx_window_advance fuel clock t win w ≡ some out
    → IsWindow out
unfolding rx_window_advance
rx_window_advance-IsWindow zero clock t win w out small v e = absurd (none-ne-some e)
rx_window_advance-IsWindow (suc fuel) clock t win w out small v e =
    let round = Round-IsWindow (advance_round-Round w win (clock t) (omega (arith, v.room))) v in
    elim (Bool-cases (advance_round win w (clock t)).1) [
      | inl go ↦
          rx_window_advance-IsWindow fuel clock (t + 1) (advance_round win w (clock t)).0 w out
            small round (rw (go, rx_window_advance) at e)
      | inr halt ↦ subst IsWindow (some_inj (rw (halt, rx_window_advance) at e)) round
    ]
