-- ===== src/Rx/Window/Find.antt =====
-- The searches of the receive window.
use coding_gateway.Base.{
  ℕ, zero, suc, ◌+◌, ◌-◌, ◌≤◌, ◌<◌, ◌≡◌, ◌≢◌, refl, arith, List, [], ◌∷◌, Bool, true, false, none,
  some, inl, inr, Bool-cases, length, get_or,
}
use coding_gateway.Rx.{RxBlock, RxWindow, zero_block}
use coding_gateway.Rx.Window.{find_slot, slot}

none-ne-some : {j : ℕ} → none ≢ some j
none-ne-some h = cc

-- A search returns the index of a slot among those searched that passes the test.
pub find_slot-some :
    (test : RxBlock → Bool) (left i j : ℕ) (slots : List RxBlock)
    → find_slot test left i slots ≡ some j
    → (i ≤ j)
      × (j < i + left)
      × (j < i + length slots)
      × (test (get_or slots (j - i) zero_block) ≡ true)
unfolding find_slot
find_slot-some test zero i j slots h = absurd (none-ne-some h)
find_slot-some test (suc left) i j [] h = absurd (none-ne-some h)
find_slot-some test (suc left) i j (b ∷ slots) h = elim (Bool-cases (test b)) [
  | inl e ↦ here e (rw e at h)
  | inr e ↦ later (find_slot-some test left (i + 1) j slots (rw e at h))
]
  where
    here :
        test b ≡ true
        → some i ≡ some j
        → (i ≤ j)
          × (j < i + suc left)
          × (j < i + length (b ∷ slots))
          × (test (get_or (b ∷ slots) (j - i) zero_block) ≡ true)
    here e q =
        let same : i ≡ j = cc in
        let z : j - i ≡ 0 = omega arith in (omega arith, omega arith, omega arith, rw z e)

    later :
        (i + 1 ≤ j)
          × (j < i + 1 + left)
          × (j < i + 1 + length slots)
          × (test (get_or slots (j - (i + 1)) zero_block) ≡ true)
        → (i ≤ j)
          × (j < i + suc left)
          × (j < i + length (b ∷ slots))
          × (test (get_or (b ∷ slots) (j - i) zero_block) ≡ true)
    later t =
        let z : j - i ≡ suc (j - (i + 1)) = omega arith in
        (omega arith, omega arith, omega arith, rw z t.3)

-- A search that finds nothing has seen no slot that passes the test.
pub find_slot-none :
    (test : RxBlock → Bool) (left i m : ℕ) (slots : List RxBlock)
    → find_slot test left i slots ≡ none
    → m < left
    → m < length slots
    → test (get_or slots m zero_block) ≡ false
unfolding find_slot
find_slot-none test zero i m slots h p q = absurd (omega arith)
find_slot-none test (suc left) i m [] h p q = absurd (omega arith)
find_slot-none test (suc left) i zero (b ∷ slots) h p q = ground arith
find_slot-none test (suc left) i (suc m) (b ∷ slots) h p q = elim (Bool-cases (test b)) [
  | inl e ↦ absurd (some-ne-none (rw e at h))
  | inr e ↦ find_slot-none test left (i + 1) m slots (rw e at h) (omega arith) (omega arith)
]
  where
    some-ne-none : {j : ℕ} → some j ≢ none
    some-ne-none h = cc

-- A search among the slots that all fail finds nothing.
pub find_slot-all_fail :
    (test : RxBlock → Bool) (left i : ℕ) (slots : List RxBlock)
    → ((m : ℕ) → m < left → m < length slots → test (get_or slots m zero_block) ≡ false)
    → find_slot test left i slots ≡ none
unfolding find_slot
find_slot-all_fail test zero i slots h = refl
find_slot-all_fail test (suc left) i [] h = refl
find_slot-all_fail test (suc left) i (b ∷ slots) h =
    rw (h 0 (omega arith) (omega arith))
      (find_slot-all_fail test left (i + 1) slots (λ m p q. h (suc m) (omega arith) (omega arith)))

-- From index 0 on.
pub found_at :
    (test : RxBlock → Bool) (n j : ℕ) (win : RxWindow)
    → find_slot test n 0 win.slots ≡ some j
    → (j < n) × (j < length win.slots) × (test (slot win j) ≡ true)
found_at test n j win h =
    let (_, low, room, passes) = find_slot-some test n 0 j win.slots h in
    let z : j - 0 ≡ j = omega arith in (omega arith, omega arith, rw z at passes)
