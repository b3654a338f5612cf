-- ===== src/Tx/Prepared.antt =====
-- What `tx_block_flush` of src/tx.c makes of the block before it is encoded.
use coding_gateway.Base.{
  ℕ, zero, suc, ◌-◌, ◌≤◌, ◌<◌, ◌≡◌, refl, sym, ap, ◌∙◌, arith, List, [], ◌∷◌, ◌++◌, true, ltb,
  ltb→lt, Bool-cases, inl, inr, if◌then◌else◌, length, get_or, take, drop, replicate, memset,
  length-take, length-drop, length-append, length-replicate, length-memset, length-map, get_or-map,
  get_or-take, get_or-memset, get_or-append_right, get_or_of_ge, memset-AreBytes, AreBytes,
  take_of_field, take-append, update_from, length-update_from, get_or-update_from,
  get_or-update_from_below, get_or-update_from_above,
}
use mathlib.Core.List.{append-nil, append_assoc}
use native.Mathlib.Decide.{dec_lt}
use coding_gateway.Limits.{max_payload}
use coding_gateway.Codec.{longest}
use coding_gateway.Codec.Row.{column}
use coding_gateway.Codec.Source.{IsSource}
use coding_gateway.Codec.EncodeShard.{IsPadded, longest_ge_each}
use coding_gateway.Tx.{TxBlock, pad, prepared}
use coding_gateway.Tx.Queue.{IsTx}

longest_le :
    (k : ℕ) (lens : List ℕ) (m bound : ℕ)
    → m ≤ bound
    → ((i : ℕ) → i < k → get_or lens i 0 ≤ bound)
    → longest k lens m ≤ bound
unfolding longest
longest_le zero lens m bound p h = p
longest_le (suc k) [] m bound p h = p
longest_le (suc k) (l ∷ lens) m bound p h =
    longest_le k lens (if ltb m l then l else m) bound (ground (arith, h 0))
      (λ i q. h (suc i) (omega arith))

pub append-AreBytes : (xs ys : List ℕ) → AreBytes xs → AreBytes ys → AreBytes (xs ++ ys)
append-AreBytes [] ys p q i = q i
append-AreBytes (x ∷ xs) ys p q zero = p 0
append-AreBytes (x ∷ xs) ys p q (suc i) = append-AreBytes xs ys (λ j. p (suc j)) q i

pub take_bytes : (n : ℕ) (xs : List ℕ) → AreBytes xs → AreBytes (take n xs)
take_bytes zero [] h i = h i
take_bytes zero (x ∷ xs) h i = omega arith
take_bytes (suc n) [] h i = h i
take_bytes (suc n) (x ∷ xs) h zero = h 0
take_bytes (suc n) (x ∷ xs) h (suc i) = take_bytes n xs (λ j. h (suc j)) i

drop_bytes : (n : ℕ) (xs : List ℕ) → AreBytes xs → AreBytes (drop n xs)
drop_bytes zero xs h = h
drop_bytes (suc n) [] h = h
drop_bytes (suc n) (x ∷ xs) h = drop_bytes n xs (λ j. h (suc j))

-- A packet of `len` bytes in its array, padded to `m`.
module _ (lens : List ℕ) (m j : ℕ) (pkt : List ℕ) (room : m ≤ length pkt) where
  abbrev len : ℕ
  len = get_or lens j 0

  length-pad : length (pad lens m j pkt) ≡ length pkt
  unfolding pad
  length-pad = elim (Bool-cases (ltb len m)) [
    | inl e ↦
        let short = ltb→lt len m e in
        rw e (
          omega (
            arith,
            length-append (take len pkt) (memset (drop len pkt) 0 (m - len)),
            length-take len pkt,
            length-memset (drop len pkt) (m - len) (omega (arith, length-drop len pkt)),
            length-drop len pkt,
          ))
    | inr e ↦ rw e refl
  ]

  pad_zero : (p : ℕ) → len ≤ p → p < m → get_or (pad lens m j pkt) p 0 ≡ 0
  unfolding pad
  pad_zero p low high =
      let e : ltb len m ≡ true = ground arith in
      rw e (
        get_or-append_right (take len pkt) (memset (drop len pkt) 0 (m - len)) (p - len) p
          (omega (arith, length-take len pkt))
        ∙ get_or-memset (drop len pkt) (m - len) (p - len) (omega arith))

  pad_keeps : len ≤ length pkt → take len (pad lens m j pkt) ≡ take len pkt
  unfolding pad
  pad_keeps long = elim (Bool-cases (ltb len m)) [
    | inl e ↦ rw e (take_of_field len pkt (memset (drop len pkt) 0 (m - len)) long)
    | inr e ↦ rw e refl
  ]

  -- The first `m` bytes are the packet and zeros.
  pub pad_block : len ≤ m → take m (pad lens m j pkt) ≡ take len pkt ++ replicate (m - len) 0
  unfolding pad
  pad_block fits = elim (Bool-cases (ltb len m)) [
    | inl e ↦
        let head : List ℕ = take len pkt ++ replicate (m - len) 0 in
        let tail = drop (m - len) (drop len pkt) in
        let size : m ≡ length head = omega (
          arith,
          ltb→lt len m e,
          length-append (take len pkt) (replicate (m - len) 0),
          length-take len pkt,
          length-replicate {A = ℕ} (m - len) 0,
        ) in
        rw e (
          ap (λ t. take m t) (sym (append_assoc (take len pkt) (replicate (m - len) 0) tail))
          ∙ ap (λ t. take t (head ++ tail)) size
          ∙ take-append head tail)
    | inr e ↦
        let full : len ≡ m = ground arith in
        let none_left : m - len ≡ 0 = omega (arith, full) in
        rw (e, none_left, full) (sym (append-nil (take m pkt)))
  ]

  pad-AreBytes : AreBytes pkt → AreBytes (pad lens m j pkt)
  unfolding pad
  pad-AreBytes h = elim (Bool-cases (ltb len m)) [
    | inl e ↦ rw e (
        append-AreBytes (take len pkt) (memset (drop len pkt) 0 (m - len)) (take_bytes len pkt h)
          (memset-AreBytes (drop len pkt) (m - len) (drop_bytes len pkt h)))
    | inr e ↦ rw e h
  ]

module _ {k : ℕ} {blk : TxBlock} (v : IsTx k blk) where
  abbrev n : ℕ
  n = blk.pkt_count

  -- The length of the longest packet.
  abbrev pub block_len : ℕ
  block_len = longest blk.pkt_count blk.pkt_len 0

  pub block_len_small : block_len ≤ max_payload
  block_len_small = longest_le n blk.pkt_len 0 max_payload (omega arith) (λ i p. v.fits i)

  abbrev padded : List (List ℕ)
  padded = update_from [] (pad blk.pkt_len block_len) n 0 blk.pkts

  abbrev wipe : ℕ → List ℕ → List ℕ
  wipe j pkt = memset pkt 0 max_payload

  -- A packet of the block, and one that fills it up.
  pub prepared_pkt :
      (i : ℕ)
      → i < n
      → get_or (prepared blk k).pkts i [] ≡ pad blk.pkt_len block_len i (get_or blk.pkts i [])
  unfolding prepared
  prepared_pkt i p =
      get_or-update_from_below [] wipe (k - n) n padded i p
      ∙ get_or-update_from [] (pad blk.pkt_len block_len) n 0 blk.pkts i (omega arith) (omega arith)
          (omega (arith, v.count, v.small, v.pkt_room))

  prepared_fill :
      (i : ℕ)
      → n ≤ i
      → i < k
      → get_or (prepared blk k).pkts i [] ≡ memset (get_or blk.pkts i []) 0 max_payload
  unfolding prepared
  prepared_fill i p q =
      get_or-update_from [] wipe (k - n) n padded i p (omega arith) (
        omega (
          arith,
          v.small,
          v.pkt_room,
          length-update_from [] (pad blk.pkt_len block_len) n 0 blk.pkts,
        ))
      ∙ ap (λ t. memset t 0 max_payload)
          (get_or-update_from_above [] (pad blk.pkt_len block_len) n 0 blk.pkts i (omega arith))

  prepared_len : (i : ℕ) → i < n → get_or (prepared blk k).pkt_len i 0 ≡ get_or blk.pkt_len i 0
  unfolding prepared
  prepared_len i p =
      get_or-update_from_below 0 (λ j l. get_or blk.pkt_len 0 0) (k - n) n blk.pkt_len i p

  prepared_len_fill :
      (i : ℕ) → n ≤ i → i < k → get_or (prepared blk k).pkt_len i 0 ≡ get_or blk.pkt_len 0 0
  unfolding prepared
  prepared_len_fill i p q =
      get_or-update_from 0 (λ j l. get_or blk.pkt_len 0 0) (k - n) n blk.pkt_len i p (omega arith)
        (omega (arith, v.small, v.len_room))

  prepared_len_room : length (prepared blk k).pkt_len ≡ length blk.pkt_len
  unfolding prepared
  prepared_len_room = length-update_from 0 (λ j l. get_or blk.pkt_len 0 0) (k - n) n blk.pkt_len

  pub prepared_pkt_room : length (prepared blk k).pkts ≡ length blk.pkts
  unfolding prepared
  prepared_pkt_room =
      length-update_from [] wipe (k - n) n padded
      ∙ length-update_from [] (pad blk.pkt_len block_len) n 0 blk.pkts

  pub width : (i : ℕ) → i < k → block_len ≤ length (get_or blk.pkts i [])
  width i p = omega (arith, block_len_small, v.width i (omega (arith, v.small)))

  pub fits_each : (i : ℕ) → i < n → get_or blk.pkt_len i 0 ≤ block_len
  fits_each i p = longest_ge_each n i blk.pkt_len 0 p (omega (arith, v.count, v.small, v.len_room))

  module _ (used : 0 < blk.pkt_count) where
    prepared_fits : (i : ℕ) → i < k → get_or (prepared blk k).pkt_len i 0 ≤ block_len
    prepared_fits i p = elim (dec_lt i n) [
      | yes q ↦ rw (prepared_len i q) (fits_each i q)
      | no q ↦ rw (prepared_len_fill i (omega arith) p) (fits_each 0 used)
    ]

    pub prepared-longest : longest k (prepared blk k).pkt_len 0 ≡ block_len
    prepared-longest =
        let low = longest_le k (prepared blk k).pkt_len 0 block_len (omega arith) prepared_fits in
        let high =
          longest_le n blk.pkt_len 0 (longest k (prepared blk k).pkt_len 0) (omega arith) reached in
        omega (arith, low, high)
      where
        reached : (i : ℕ) → i < n → get_or blk.pkt_len i 0 ≤ longest k (prepared blk k).pkt_len 0
        reached i p =
            let e = prepared_len i p in
            omega (
              arith,
              e,
              longest_ge_each k i (prepared blk k).pkt_len 0 (omega (arith, v.count))
                  (omega (arith, prepared_len_room, v.count, v.small, v.len_room)),
            )

    pub prepared-IsPadded : IsPadded k block_len (prepared blk k).pkts (prepared blk k).pkt_len
    prepared-IsPadded = record {
      count = omega (arith, prepared_len_room, v.small, v.len_room);
      fits = prepared_fits;
      zeros = λ i p inside low high. elim (dec_lt i n) [
        | yes q ↦ rw (prepared_pkt i q) (
            pad_zero blk.pkt_len block_len i (get_or blk.pkts i []) (width i inside) p
              (omega (arith, prepared_len i q)) high)
        | no q ↦
            rw (prepared_fill i (omega arith) inside)
              (get_or-memset (get_or blk.pkts i []) max_payload p (omega (arith, block_len_small)))
      ];
    }

    prepared-AreBytes : (i : ℕ) → i < k → AreBytes (get_or (prepared blk k).pkts i [])
    prepared-AreBytes i p = elim (dec_lt i n) [
      | yes q ↦
          rw (prepared_pkt i q) (
            pad-AreBytes blk.pkt_len block_len i (get_or blk.pkts i []) (width i p) (v.are_bytes i))
      | no q ↦
          rw (prepared_fill i (omega arith) p)
            (memset-AreBytes (get_or blk.pkts i []) max_payload (v.are_bytes i))
    ]

    prepared_width : (i : ℕ) → i < k → block_len ≤ length (get_or (prepared blk k).pkts i [])
    prepared_width i p = elim (dec_lt i n) [
      | yes q ↦ rw (prepared_pkt i q) (
          omega (
            arith,
            width i p,
            length-pad blk.pkt_len block_len i (get_or blk.pkts i []) (width i p),
          ))
      | no q ↦ rw (prepared_fill i (omega arith) p) (
          omega (
            arith,
            width i p,
            length-memset (get_or blk.pkts i []) max_payload
                (omega (arith, v.width i (omega (arith, v.small)))),
          ))
    ]

    pub prepared-IsSource : IsSource k block_len (take k (prepared blk k).pkts)
    prepared-IsSource = record {
      count =
          omega
            (arith, length-take k (prepared blk k).pkts, prepared_pkt_room, v.small, v.pkt_room);
      long = λ i p. rw (get_or-take k i (prepared blk k).pkts [] p) (prepared_width i p);
      are_bytes = λ p i. elim (dec_lt i k) [
        | yes q ↦
            rw
              (
                get_or-map (λ x. get_or x p 0) (take k (prepared blk k).pkts) i [] 0
                    (omega (
                      arith,
                      length-take k (prepared blk k).pkts,
                      prepared_pkt_room,
                      v.small,
                      v.pkt_room,
                    )),
                get_or-take k i (prepared blk k).pkts [] q,
              )
              (prepared-AreBytes i q p)
        | no q ↦
            rw
              (get_or_of_ge (column p (take k (prepared blk k).pkts)) i 0 (
                omega (
                  arith,
                  length-map (λ x. get_or x p 0) (take k (prepared blk k).pkts),
                  length-take k (prepared blk k).pkts,
                )))
              (omega arith)
      ];
    }
