-- ===== src/Rx/Window/Spared.antt =====
-- What becomes of a block that is behind the base.
use coding_gateway.Base.{
  ℕ, zero, suc, ◌+◌, ◌^◌, ◌≤◌, ◌<◌, ◌≡◌, ◌≢◌, refl, sym, ap, ◌∙◌, arith, List, [], Bool, true,
  false, ◌||◌, leb, none, some, Option, inl, inr, Bool-cases, Option-cases, set, get_or-set_ne,
}
use coding_gateway.Codec.{Shard}
use coding_gateway.Crypto.{CryptoCtx}
use coding_gateway.Wire.{WireHeader}
use coding_gateway.Rx.{RxBlock, RxWindow, zero_block}
use coding_gateway.Rx.Window.{
  distance, is_negative, holds, is_free, find_slot, rx_find, slot, advance_round, rx_window_advance,
  insert_into, rx_window_insert, try_decode, rx_window_try_decode, Decoding, Delivery,
}
use coding_gateway.Rx.Window.Find.{found_at}
use coding_gateway.Rx.Window.Stale.{some_inj, advance_step, Round-base}
use coding_gateway.Rx.Window.Advance.{
  IsNear, Round, retire, skip, stop, advance_round-Round, Round-IsNear, Round-done, held_distance,
}

-- A block behind the base is found for no id, and its slot is not given to another.
module _ (win : RxWindow) (i : ℕ) (used : 0 < (slot win i).recv_count)
    (behind : 2 ^ 31 ≤ distance (slot win i).block_id win.base_id) where
  abbrev pub Spared : RxWindow × Option ℕ → Type 0
  Spared (win', none) = (slot win' i ≡ slot win i) × (win'.base_id ≡ win.base_id)
  Spared (win', some j) = (slot win' i ≡ slot win i) × (win'.base_id ≡ win.base_id) × (j ≢ i)

  pub rx_find-Spared : (id window_size : ℕ) → Spared (rx_find win id window_size)
  unfolding rx_find
  rx_find-Spared id window_size = elim (Bool-cases (is_negative d || leb window_size d)) [
    | inl e ↦ rw (e, rx_find) (refl, refl)
    | inr e ↦ elim (Option-cases (find_slot (holds id) window_size 0 win.slots)) [
      | inr (j, h) ↦
          rw (e, h, rx_find) (refl, refl, other j (found_at (holds id) window_size j win h).2 e)
      | inl h ↦ elim (Option-cases (find_slot is_free window_size 0 win.slots)) [
        | inl f ↦ rw (e, h, f, rx_find) (refl, refl)
        | inr (j, f) ↦
            let ne = free j (found_at is_free window_size j win f).2 in
            rw (e, h, f, rx_find) (get_or-set_ne win.slots j i _ zero_block ne, refl, ne)
      ]
    ]
  ]
    where
      d : ℕ
      d = distance id win.base_id

      other :
          (j : ℕ)
          → holds id (slot win j) ≡ true
          → (is_negative d || leb window_size d) ≡ false
          → j ≢ i
      other j h e same = let h' : holds id (slot win i) ≡ true = rw same at h in ground arith

      free : (j : ℕ) → is_free (slot win j) ≡ true → j ≢ i
      free j h same = let h' : is_free (slot win i) ≡ true = rw same at h in ground arith

  keeps_slot :
      (f : RxWindow → ℕ → RxBlock) (r : RxWindow × Option ℕ)
      → Spared r
      → slot (elim r.1 [ none ↦ r.0 | some j ↦ record r.0 { slots = set r.0.slots j (f r.0 j) } ]) i
        ≡ slot win i
  keeps_slot f (win', none) h = h.0
  keeps_slot f (win', some j) h = get_or-set_ne win'.slots j i (f win' j) zero_block h.2 ∙ h.0

  keeps_delivery :
      (f : RxWindow → ℕ → Decoding) (r : RxWindow × Option ℕ)
      → Spared r
      → slot
          (elim r.1 as (λ _. Delivery) [
            | none ↦ record { window = r.0; written = []; newly = false }
            | some j ↦ record {
              window = record r.0 { slots = set r.0.slots j (f r.0 j).block };
              written = (f r.0 j).written;
              newly = (f r.0 j).newly;
            }
          ]).window
          i
        ≡ slot win i
  keeps_delivery f (win', none) h = h.0
  keeps_delivery f (win', some j) h =
      get_or-set_ne win'.slots j i (f win' j).block zero_block h.2 ∙ h.0

  insert_keeps :
      (hdr : WireHeader) (s : Shard) (window_size : ℕ) (crypto : CryptoCtx) (now : ℕ)
      → slot (rx_window_insert win hdr s window_size crypto now) i ≡ slot win i
  unfolding rx_window_insert
  insert_keeps hdr s window_size crypto now =
      keeps_slot (λ w j. insert_into (slot w j) hdr s crypto now)
        (rx_find win hdr.block_id window_size) (rx_find-Spared hdr.block_id window_size)

  decode_keeps :
      (stack : List (List ℕ)) (id k window_size : ℕ)
      → slot (rx_window_try_decode stack win id k window_size).window i ≡ slot win i
  unfolding rx_window_try_decode
  decode_keeps stack id k window_size =
      keeps_delivery (λ w j. try_decode stack (slot w j) k) (rx_find win id window_size)
        (rx_find-Spared id window_size)

-- A slot in use whose block id is behind the base keeps its content, whatever shard is inserted
-- and whatever block is decoded: it is neither completed nor freed.
pub slot_behind-kept :
    (win : RxWindow) (i : ℕ)
    → 0 < (slot win i).recv_count
    → 2 ^ 31 ≤ distance (slot win i).block_id win.base_id
    → (hdr : WireHeader) (s : Shard) (crypto : CryptoCtx) (now id k window_size : ℕ)
      (stack : List (List ℕ))
    → (slot (rx_window_insert win hdr s window_size crypto now) i ≡ slot win i)
      × (slot (rx_window_try_decode stack win id k window_size).window i ≡ slot win i)
slot_behind-kept win i used behind hdr s crypto now id k window_size stack = (
  insert_keeps win i used behind hdr s window_size crypto now,
  decode_keeps win i used behind stack id k window_size,
)

advance_kept_zero :
    (clock : ℕ → ℕ) (t : ℕ) (win : RxWindow) (window_size : ℕ) {w : RxWindow}
    → rx_window_advance 0 clock t win window_size ≢ some w
unfolding rx_window_advance
advance_kept_zero clock t win window_size h = cc

advance_last :
    (fuel : ℕ) (clock : ℕ → ℕ) (t : ℕ) (win w : RxWindow) (window_size i : ℕ)
    → (advance_round win window_size (clock t)).1 ≡ false
    → rx_window_advance (suc fuel) clock t win window_size ≡ some w
    → slot w i ≡ slot (advance_round win window_size (clock t)).0 i
advance_last fuel clock t win w window_size i e h =
    let ends : some (advance_round win window_size (clock t)).0 ≡ some w =
      rw (advance_step fuel clock t win window_size, e) at h in
    ap (λ v. slot v i) (sym (some_inj ends))

Round-spares :
    {window_size : ℕ} {win : RxWindow} {now : ℕ} {r : RxWindow × Bool} (i : ℕ)
    → win.base_id < 2 ^ 32
    → 2 ^ 31 ≤ distance (slot win i).block_id win.base_id
    → Round window_size win now r
    → slot r.0 i ≡ slot win i
Round-spares {win = win} i word behind (retire j p h e d) =
    get_or-set_ne win.slots j i zero_block zero_block
      λ same. ground (arith, held_distance win.base_id (slot win i) word (rw same at e))
Round-spares i word behind (skip j h e) = refl
Round-spares i word behind (stop h) = refl

-- A block that is behind the base by at most 2^31 - `n`, in a window where every other block is less
-- than `n` ahead or behind in this way, is still in its slot after `rx_window_advance`.
pub rx_window_advance-keeps_behind :
    (n fuel : ℕ) (clock : ℕ → ℕ) (t : ℕ) (win w : RxWindow) (window_size i : ℕ)
    → n < 2 ^ 31
    → IsNear n window_size win
    → 2 ^ 31 + n ≤ distance (slot win i).block_id win.base_id
    → rx_window_advance fuel clock t win window_size ≡ some w
    → slot w i ≡ slot win i
rx_window_advance-keeps_behind n zero clock t win w window_size i small near behind h =
    absurd (advance_kept_zero clock t win window_size h)
rx_window_advance-keeps_behind zero (suc fuel) clock t win w window_size i small near behind h =
    elim (Bool-cases (advance_round win window_size (clock t)).1) [
      | inl e ↦ absurd (Round-done near round e)
      | inr e ↦
          advance_last fuel clock t win w window_size i e h
          ∙ Round-spares i near.base_word (omega arith) round
    ]
  where
    round : Round window_size win (clock t) (advance_round win window_size (clock t))
    round = advance_round-Round window_size win (clock t) near.room
rx_window_advance-keeps_behind (suc n) (suc fuel) clock t win w window_size i small near behind h =
    elim (Bool-cases (advance_round win window_size (clock t)).1) [
      | inl e ↦
          rx_window_advance-keeps_behind n fuel clock (t + 1)
            (advance_round win window_size (clock t)).0 w window_size i (omega arith)
            (Round-IsNear n (omega arith) near round e) (still e)
            (rw (advance_step fuel clock t win window_size, e) at h)
          ∙ kept
      | inr e ↦ advance_last fuel clock t win w window_size i e h ∙ kept
    ]
  where
    round : Round window_size win (clock t) (advance_round win window_size (clock t))
    round = advance_round-Round window_size win (clock t) near.room

    kept : slot (advance_round win window_size (clock t)).0 i ≡ slot win i
    kept = Round-spares i near.base_word (omega arith) round

    still :
        (advance_round win window_size (clock t)).1 ≡ true
        → 2 ^ 31 + n
          ≤ distance
              (slot (advance_round win window_size (clock t)).0 i).block_id
              (advance_round win window_size (clock t)).0.base_id
    still e = rw (kept, Round-base round e) (omega (arith, near.id_word i, near.base_word))
