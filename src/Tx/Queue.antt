-- ===== src/Tx/Queue.antt =====
-- The waiting block of src/tx.c as a queue of packets.
use coding_gateway.Base.{
  ℕ, zero, suc, ◌+◌, ◌≤◌, ◌<◌, ◌≡◌, refl, ap, ap₂, ◌∙◌, arith, List, [], ◌∷◌, ◌++◌, Bool, ltb, leb,
  ltb→lt, Bool-cases, inl, inr, if◌then◌else◌, length, get_or, set, take, drop, replicate, memcpy,
  length-set, length-replicate, get_or-set_self, get_or_of_ge, get_or-set_ne, get_or-replicate,
  AreBytes, length-memcpy, get_or-memcpy_in, get_or-memcpy_out, take_of_field, ◌==◌,
}
use native.Mathlib.Decide.{ℕ_discrete, dec_lt}
use coding_gateway.Limits.{max_k, max_payload}
use coding_gateway.Tx.{Timeval, TxBlock, tx_block_init, tx_block_add_pkt}

-- A block of at most `k` packets in its arrays.
pub record IsTx (k : ℕ) (blk : TxBlock) : Type 0 where
  pub small : k ≤ max_k
  pub count : blk.pkt_count ≤ k
  pub pkt_room : length blk.pkts ≡ max_k
  pub len_room : length blk.pkt_len ≡ max_k
  pub width : (i : ℕ) → i < max_k → length (get_or blk.pkts i []) ≡ max_payload
  pub fits : (i : ℕ) → get_or blk.pkt_len i 0 ≤ max_payload
  pub are_bytes : (i : ℕ) → AreBytes (get_or blk.pkts i [])

-- The packets added so far, the first `n` of them.
abbrev pub packet_at : TxBlock → ℕ → List ℕ
packet_at blk i = take (get_or blk.pkt_len i 0) (get_or blk.pkts i [])

abbrev pub queued_upto : TxBlock → ℕ → List (List ℕ)
queued_upto blk zero = []
queued_upto blk (suc n) = queued_upto blk n ++ (packet_at blk n ∷ [])

abbrev pub queued : TxBlock → List (List ℕ)
queued blk = queued_upto blk blk.pkt_count

-- What a queue of at most `k` packets does with one more, and whether it is then full.
abbrev pub enqueue : ℕ → List ℕ → List (List ℕ) → List (List ℕ) × Bool
enqueue k x q =
    if ltb (length q) k then (q ++ (x ∷ []), leb k (length q + 1)) else (q, leb k (length q))

get_or-replicate_in {ℓ} : {A : Type ℓ} (n j : ℕ) (a d : A) → j < n → get_or (replicate n a) j d ≡ a
get_or-replicate_in zero j a d p = absurd (omega arith)
get_or-replicate_in (suc n) zero a d p = refl
get_or-replicate_in (suc n) (suc j) a d p = get_or-replicate_in n j a d (omega arith)

abbrev zeros : ℕ → List ℕ
zeros m = replicate m 0

zero_rows : (n m j p : ℕ) → get_or (get_or (replicate n (zeros m)) j []) p 0 < 256
zero_rows n m j p = elim (dec_lt j n) [
  | yes h ↦
      rw (get_or-replicate_in n j (zeros m) [] h) (omega (arith, get_or-replicate {A = ℕ} m p 0))
  | no h ↦
      let out : length (replicate n (zeros m)) ≤ j = omega (arith, length-replicate n (zeros m)) in
      rw (get_or_of_ge (replicate n (zeros m)) j [] out) (omega arith)
]

-- An empty block.
pub tx_block_init-IsTx : (k block_id : ℕ) → k ≤ max_k → IsTx k (tx_block_init block_id)
unfolding tx_block_init
tx_block_init-IsTx k block_id small = record {
  small = small;
  count = omega arith;
  pkt_room = length-replicate max_k (zeros max_payload);
  len_room = length-replicate {A = ℕ} max_k 0;
  width = λ j p.
      ap length (get_or-replicate_in max_k j (zeros max_payload) [] p)
      ∙ length-replicate {A = ℕ} max_payload 0;
  fits = λ j. omega (arith, get_or-replicate {A = ℕ} max_k j 0);
  are_bytes = λ j p. zero_rows max_k max_payload j p;
}

pub length-snoc {ℓ} : {A : Type ℓ} (xs : List A) (x : A) → length (xs ++ (x ∷ [])) ≡ length xs + 1
length-snoc [] x = omega arith
length-snoc (y ∷ xs) x = omega (arith, length-snoc xs x)

pub length-queued_upto : (blk : TxBlock) (n : ℕ) → length (queued_upto blk n) ≡ n
length-queued_upto blk zero = refl
length-queued_upto blk (suc n) =
    omega (arith, length-snoc (queued_upto blk n) (packet_at blk n), length-queued_upto blk n)

queued_upto_same :
    (blk blk' : TxBlock) (n : ℕ)
    → ((i : ℕ) → i < n → packet_at blk' i ≡ packet_at blk i)
    → queued_upto blk' n ≡ queued_upto blk n
queued_upto_same blk blk' zero same = refl
queued_upto_same blk blk' (suc n) same =
    ap₂ (λ q x. q ++ (x ∷ [])) (queued_upto_same blk blk' n (λ i p. same i (omega arith)))
      (same n (omega arith))

module _ (now : Timeval) {k : ℕ} {blk : TxBlock} (v : IsTx k blk) (pkt : List ℕ) (len : ℕ)
    (long : len ≤ length pkt) (small : len ≤ max_payload) (bytes : AreBytes pkt) where
  abbrev i : ℕ
  i = blk.pkt_count

  abbrev stored : List ℕ
  stored = memcpy (get_or blk.pkts blk.pkt_count []) pkt len

  abbrev added : TxBlock
  added = record blk {
    pkts = set blk.pkts blk.pkt_count stored;
    pkt_len = set blk.pkt_len blk.pkt_count len;
    pkt_count = blk.pkt_count + 1;
    first_pkt_time = if blk.pkt_count == 0 then now else blk.first_pkt_time;
  }

  stored-AreBytes : AreBytes stored
  stored-AreBytes p = elim (dec_lt p len) [
    | yes h ↦ rw (get_or-memcpy_in (get_or blk.pkts i []) pkt len p long h) (bytes p)
    | no h ↦
        rw (get_or-memcpy_out (get_or blk.pkts i []) pkt len p long (omega arith)) (v.are_bytes i p)
  ]

  module _ (free : blk.pkt_count < k) where
    in_array : blk.pkt_count < length blk.pkts
    in_array = omega (arith, v.pkt_room, v.small)

    added_here : packet_at added blk.pkt_count ≡ take len pkt
    added_here =
        rw
          (
            get_or-set_self blk.pkt_len blk.pkt_count len 0 (omega (arith, v.len_room, v.small)),
            get_or-set_self blk.pkts blk.pkt_count stored [] in_array,
          )
          (take_of_field len pkt (drop len (get_or blk.pkts blk.pkt_count [])) long)

    added_before : (j : ℕ) → j < blk.pkt_count → packet_at added j ≡ packet_at blk j
    added_before j p =
        rw
          (
            get_or-set_ne blk.pkt_len blk.pkt_count j len 0 (λ e. omega (arith, e)),
            get_or-set_ne blk.pkts blk.pkt_count j stored [] (λ e. omega (arith, e)),
          )
          refl

    added-IsTx : IsTx k added
    added-IsTx = record {
      small = v.small;
      count = omega arith;
      pkt_room = length-set blk.pkts blk.pkt_count stored ∙ v.pkt_room;
      len_room = length-set blk.pkt_len blk.pkt_count len ∙ v.len_room;
      width = λ j p. elim (ℕ_discrete blk.pkt_count j) [
        | yes e ↦ rw (← e) (
            ap length (get_or-set_self blk.pkts blk.pkt_count stored [] in_array)
            ∙ length-memcpy (get_or blk.pkts blk.pkt_count []) pkt len long
                (omega (arith, v.width blk.pkt_count (omega (arith, v.small))))
            ∙ v.width blk.pkt_count (omega (arith, v.small)))
        | no ne ↦ rw (get_or-set_ne blk.pkts blk.pkt_count j stored [] ne) (v.width j p)
      ];
      fits = λ j. elim (ℕ_discrete blk.pkt_count j) [
        | yes e ↦ rw (← e) (
            omega (
              arith,
              get_or-set_self blk.pkt_len blk.pkt_count len 0 (omega (arith, v.len_room, v.small)),
            ))
        | no ne ↦ rw (get_or-set_ne blk.pkt_len blk.pkt_count j len 0 ne) (v.fits j)
      ];
      are_bytes = λ j. elim (ℕ_discrete blk.pkt_count j) [
        | yes e ↦
            rw (← e)
              (rw (get_or-set_self blk.pkts blk.pkt_count stored [] in_array) stored-AreBytes)
        | no ne ↦ rw (get_or-set_ne blk.pkts blk.pkt_count j stored [] ne) (v.are_bytes j)
      ];
    }

    queued-added : queued added ≡ queued blk ++ (take len pkt ∷ [])
    queued-added =
        let next : blk.pkt_count + 1 ≡ suc blk.pkt_count = omega arith in
        ap (queued_upto added) next
        ∙ ap₂ (λ q x. q ++ (x ∷ [])) (queued_upto_same blk added blk.pkt_count added_before)
            added_here

  abbrev stamped : TxBlock
  stamped = record blk { first_pkt_time = if blk.pkt_count == 0 then now else blk.first_pkt_time }

  stamped-IsTx : IsTx k stamped
  stamped-IsTx = record {
    small = v.small;
    count = v.count;
    pkt_room = v.pkt_room;
    len_room = v.len_room;
    width = v.width;
    fits = v.fits;
    are_bytes = v.are_bytes;
  }

  -- `tx_block_add_pkt` does to the packets of a block what the queue of at most `k` packets does,
  -- and returns whether it is full. The block stays within its arrays, as it is after
  -- `tx_block_init`, when the queue is empty. The packet has `len` bytes or more, and `len` is at
  -- most 1400.
  pub tx_block_add_pkt-enqueue :
      (block_id : ℕ)
      → (IsTx k (tx_block_init block_id) × (queued (tx_block_init block_id) ≡ []))
        × IsTx k (tx_block_add_pkt now blk pkt len k).0
        × ((queued (tx_block_add_pkt now blk pkt len k).0, (tx_block_add_pkt now blk pkt len k).1)
            ≡ enqueue k (take len pkt) (queued blk))
  unfolding tx_block_add_pkt tx_block_init
  tx_block_add_pkt-enqueue block_id =
      let size = length-queued_upto blk blk.pkt_count in
      elim (Bool-cases (ltb blk.pkt_count k)) [
        | inl e ↦ (
          (tx_block_init-IsTx k block_id v.small, refl),
          rw e (added-IsTx (ltb→lt blk.pkt_count k e)),
          rw (e, size, e)
              (ap (λ q. (q, leb k (blk.pkt_count + 1))) (queued-added (ltb→lt blk.pkt_count k e))),
        )
        | inr e ↦ (
          (tx_block_init-IsTx k block_id v.small, refl),
          rw e stamped-IsTx,
          rw (e, size, e)
              (ap (λ q. (q, leb k blk.pkt_count))
                (queued_upto_same blk stamped blk.pkt_count (λ j p. refl))),
        )
      ]
