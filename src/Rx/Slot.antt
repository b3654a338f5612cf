-- ===== src/Rx/Slot.antt =====
-- A slot of the receive window: what insertion and decoding do to it.
use coding_gateway.Base.{
  ℕ, zero, suc, ◌+◌, ◌-◌, ◌≤◌, ◌<◌, ◌≡◌, ◌≢◌, refl, sym, ap, ◌∙◌, arith, List, [], ◌∷◌, ◌++◌, map,
  Bool, true, false, ◌||◌, leb, ltb, some, inl, inr, Bool-cases, Option-cases, length, get_or, set,
  length-set, get_or-set_self, replicate, length-replicate,
}
use coding_gateway.Limits.{max_k, max_n}
use coding_gateway.Codec.{Shard}
use coding_gateway.Codec.Decode.{Packet, decode_block}
use coding_gateway.Crypto.{CryptoCtx}
use coding_gateway.Wire.{WireHeader}
use coding_gateway.Rx.{RxBlock, zero_shard, zero_block}
use coding_gateway.Rx.Window.{stripped, insert_into, collect, try_decode, Decoding}

abbrev pub bit : Bool → ℕ
bit true = 1
bit false = 0

-- The number of flags set.
abbrev pub count_true : List Bool → ℕ
count_true [] = 0
count_true (b ∷ bs) = bit b + count_true bs

-- `recv_count` is the number of shards marked as received.
pub record IsSlot (b : RxBlock) : Type 0 where
  pub shard_room : length b.shards ≡ max_n
  pub flag_room : length b.received ≡ max_n
  pub counted : b.recv_count ≡ count_true b.received

count_true-set :
    (bs : List Bool) (i : ℕ)
    → i < length bs
    → get_or bs i false ≡ false
    → count_true (set bs i true) ≡ count_true bs + 1
count_true-set [] i p e = absurd (omega arith)
count_true-set (b ∷ bs) zero p e = rw e (omega arith)
count_true-set (b ∷ bs) (suc i) p e = omega (arith, count_true-set bs i (omega arith) e)

count_true-replicate : (n : ℕ) → count_true (replicate n false) ≡ 0
count_true-replicate zero = refl
count_true-replicate (suc n) = omega (arith, count_true-replicate n)

pub zero_block-IsSlot : (id : ℕ) → IsSlot (record zero_block { block_id = id })
unfolding zero_block
zero_block-IsSlot id = record {
  shard_room = length-replicate max_n zero_shard;
  flag_room = length-replicate max_n false;
  counted = sym (count_true-replicate max_n);
}

-- A shard is stored once: inserting keeps the count of the shards received, and a second shard with
-- the same index changes nothing.
pub insert_into-IsSlot :
    (b : RxBlock) (hdr : WireHeader) (s s' : Shard) (crypto : CryptoCtx) (now now' : ℕ)
    → IsSlot b
    → IsSlot (insert_into b hdr s crypto now)
      × (insert_into (insert_into b hdr s crypto now) hdr s' crypto now'
          ≡ insert_into b hdr s crypto now)
unfolding insert_into
insert_into-IsSlot b hdr s s' crypto now now' v =
    elim (Bool-cases (b.decoded || leb 32 hdr.shard_idx || get_or b.received hdr.shard_idx false)) [
      | inl e ↦ rw (e, e) (v, refl)
      | inr e ↦
          rw (e, again e)
            (
              record {
                shard_room = length-set b.shards hdr.shard_idx _ ∙ v.shard_room;
                flag_room = length-set b.received hdr.shard_idx true ∙ v.flag_room;
                counted =
                    ap (λ n. n + 1) v.counted
                    ∙ sym (count_true-set b.received hdr.shard_idx (inside e) (fresh e));
              },
              refl,
            )
    ]
  where
    refused : Bool
    refused = b.decoded || leb 32 hdr.shard_idx || get_or b.received hdr.shard_idx false

    inside : refused ≡ false → hdr.shard_idx < length b.received
    inside e = ground (arith, v.flag_room)

    fresh : refused ≡ false → get_or b.received hdr.shard_idx false ≡ false
    fresh e = ground arith

    again :
        refused ≡ false
        → (b.decoded
            || leb 32 hdr.shard_idx
            || get_or (set b.received hdr.shard_idx true) hdr.shard_idx false)
          ≡ true
    again e = ground (arith, get_or-set_self b.received hdr.shard_idx true false (inside e))

abbrev untouched : RxBlock → Decoding
untouched b = record { block = b; written = []; newly = false }

-- The two outcomes of `try_decode`.
pub data Tried (stack : List (List ℕ)) (b : RxBlock) (k : ℕ) : Decoding → Type 0 where
  refused : Tried stack b k (untouched b)
  delivered :
      (out : List Packet)
      → b.decoded ≡ false
      → k ≤ b.recv_count
      → decode_block stack
          (collect k b.received b.shards
            ++ replicate (max_k - length (collect k b.received b.shards)) zero_shard)
          k
        ≡ some out
      → Tried stack b k
          (record { block = record b { decoded = true }; written = map stripped out; newly = true })

pub try_decode-Tried :
    (stack : List (List ℕ)) (b : RxBlock) (k : ℕ) → Tried stack b k (try_decode stack b k)
unfolding try_decode
try_decode-Tried stack b k = elim (Bool-cases (b.decoded || ltb b.recv_count k)) [
  | inl e ↦ rw e refused
  | inr e ↦ elim (Option-cases (decode_block stack shards k)) [
    | inl h ↦ rw (e, h) refused
    | inr (out, h) ↦ rw (e, h) (delivered out (ground arith) (ground arith) h)
  ]
]
  where
    shards : List Shard
    shards =
        collect k b.received b.shards
        ++ replicate (max_k - length (collect k b.received b.shards)) zero_shard

Tried-IsSlot :
    {stack : List (List ℕ)} {b : RxBlock} {k : ℕ} {d : Decoding}
    → Tried stack b k d
    → IsSlot b
    → IsSlot d.block
Tried-IsSlot refused v = v
Tried-IsSlot (delivered out e h r) v = record {
  shard_room = v.shard_room;
  flag_room = v.flag_room;
  counted = v.counted;
}

pub try_decode-IsSlot :
    (stack : List (List ℕ)) (b : RxBlock) (k : ℕ) → IsSlot b → IsSlot (try_decode stack b k).block
try_decode-IsSlot stack b k v = Tried-IsSlot (try_decode-Tried stack b k) v

Tried-newly :
    {stack : List (List ℕ)} {b : RxBlock} {k : ℕ} {d : Decoding}
    → Tried stack b k d
    → d.newly ≡ true
    → d.block.decoded ≡ true
Tried-newly refused h = absurd (false-ne-true h)
  where
    false-ne-true : false ≢ true
    false-ne-true h = cc
Tried-newly (delivered out e h r) q = refl

try_decode_decoded :
    (stack : List (List ℕ)) (b : RxBlock) (k : ℕ)
    → b.decoded ≡ true
    → try_decode stack b k ≡ untouched b
unfolding try_decode
try_decode_decoded stack b k e = rw e refl

-- What happens to a slot while the window keeps it: a shard is inserted, or the block is decoded.
pub data Handling : Type 0 where
  insertion : WireHeader → Shard → CryptoCtx → ℕ → Handling
  decoding : List (List ℕ) → ℕ → Handling

-- One handling: the slot after it, and the packets that it writes.
abbrev pub handled : RxBlock → Handling → RxBlock × List (List ℕ)
handled b (insertion hdr s crypto now) = (insert_into b hdr s crypto now, [])
handled b (decoding stack k) = let d = try_decode stack b k in (d.block, d.written)

-- A sequence of them: the slot at the end, and all packets that they write.
abbrev pub handled_all : RxBlock → List Handling → RxBlock × List (List ℕ)
handled_all b [] = (b, [])
handled_all b (a ∷ todo) =
    let (b', out) = handled b a in let (b'', rest) = handled_all b' todo in (b'', out ++ rest)

insert_into_decoded :
    (b : RxBlock) (hdr : WireHeader) (s : Shard) (crypto : CryptoCtx) (now : ℕ)
    → b.decoded ≡ true
    → insert_into b hdr s crypto now ≡ b
unfolding insert_into
insert_into_decoded b hdr s crypto now e = rw e refl

handled_decoded : (b : RxBlock) (a : Handling) → b.decoded ≡ true → handled b a ≡ (b, [])
handled_decoded b (insertion hdr s crypto now) e =
    ap (λ t. (t, [])) (insert_into_decoded b hdr s crypto now e)
handled_decoded b (decoding stack k) e =
    ap (λ (d : Decoding). (d.block, d.written)) (try_decode_decoded stack b k e)

handled_all_decoded :
    (b : RxBlock) (todo : List Handling) → b.decoded ≡ true → handled_all b todo ≡ (b, [])
handled_all_decoded b [] e = refl
handled_all_decoded b (a ∷ todo) e =
    ap
      (λ (t : RxBlock × List (List ℕ)). ((handled_all t.0 todo).0, t.1 ++ (handled_all t.0 todo).1))
      (handled_decoded b a e)
    ∙ handled_all_decoded b todo e

-- While the window keeps the slot, the packets of a block are written at most once: after a call of
-- `try_decode` that decodes the block, every sequence of insertions of shards and of calls of
-- `try_decode` with any `k` leaves the slot as it is and writes nothing.
pub try_decode-once :
    (stack : List (List ℕ)) (b : RxBlock) (k : ℕ) (todo : List Handling)
    → (try_decode stack b k).newly ≡ true
    → handled_all (try_decode stack b k).block todo ≡ ((try_decode stack b k).block, [])
try_decode-once stack b k todo h =
    handled_all_decoded (try_decode stack b k).block todo
      (Tried-newly (try_decode-Tried stack b k) h)
