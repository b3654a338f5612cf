-- ===== src/Codec/Source.antt =====
-- What `decode_block` is given: shards of a block, loaded into the rows of `mat` and `dat`.
use coding_gateway.Base.{
  ℕ, zero, suc, ◌≤◌, ◌<◌, ◌≡◌, refl, sym, ap, ◌∙◌, arith, List, [], ◌∷◌, length, get_or, take, drop,
  map, get_or-take, length-map, length-take, length-drop, length-append, get_or-append_left,
  get_or_of_ge, memcpy, ◌↔◌,
}
use native.Mathlib.Decide.{dec_lt}
use coding_gateway.Codec.{Shard}
use coding_gateway.Codec.Decode.{blank, Packet, load_rows}
use coding_gateway.Codec.Dot.{AreBytes, dot}
use coding_gateway.Codec.Row.{IsRow, AreBytePackets, column}
use coding_gateway.Codec.Reduced.{IsReduced}
use coding_gateway.Codec.Kernel.{IsDependent}

-- The source packets of a block: `k` arrays of bytes that hold `l` bytes at least.
pub record IsSource (k l : ℕ) (xs : List (List ℕ)) : Type 0 where
  pub count : length xs ≡ k
  pub long : (i : ℕ) → i < k → l ≤ length (get_or xs i [])
  pub are_bytes : AreBytePackets xs

-- A shard of `l` bytes that is the combination of the packets which its first `k` coefficients name.
pub record IsShardOf (k l : ℕ) (xs : List (List ℕ)) (s : Shard) : Type 0 where
  pub width : k ≤ length s.coeffs
  pub coeff_bytes : AreBytes s.coeffs
  pub full : s.len ≡ l
  pub room : l ≤ length s.payload
  pub meets : (p : ℕ) → p < l → get_or s.payload p 0 ≡ dot s.coeffs (column p xs)

-- The first `k` shards of an array.
pub record AreShardsOf (k l : ℕ) (xs : List (List ℕ)) (shards : List Shard) : Type 0 where
  pub count : k ≤ length shards
  pub each : (i : ℕ) → i < k → IsShardOf k l xs (get_or shards i blank)

-- The local array `dat`: `k` rows of `l` bytes at least.
pub record IsStack (k l : ℕ) (stack : List (List ℕ)) : Type 0 where
  pub count : k ≤ length stack
  pub room : (i : ℕ) → i < k → l ≤ length (get_or stack i [])

-- Each packet cut or padded to the length of the block.
abbrev pub packets : ℕ → List (List ℕ) → List Packet
packets l xs = map (λ x. record { bytes = take l x; len = l }) xs

pub dot-take : (k : ℕ) (cs v : List ℕ) → length v ≤ k → dot (take k cs) v ≡ dot cs v
unfolding dot
dot-take zero [] v h = refl
dot-take zero (c ∷ cs) [] h = refl
dot-take zero (c ∷ cs) (y ∷ v) h = absurd (omega arith)
dot-take (suc k) [] v h = refl
dot-take (suc k) (c ∷ cs) [] h = refl
dot-take (suc k) (c ∷ cs) (y ∷ v) h = rw (dot-take k cs v (omega arith)) refl

take-AreBytes : (k : ℕ) (cs : List ℕ) → AreBytes cs → AreBytes (take k cs)
take-AreBytes k cs h i = elim (dec_lt i k) [
  | yes p ↦ rw (get_or-take k i cs 0 p) (h i)
  | no p ↦ rw (get_or_of_ge (take k cs) i 0 (omega (arith, length-take k cs))) (omega arith)
]

module _ (k : ℕ) where
  length-load_rows :
      (left : ℕ) (stack : List (List ℕ)) (shards : List Shard)
      → left ≤ length stack
      → left ≤ length shards
      → length (load_rows k left stack shards) ≡ left
  unfolding load_rows
  length-load_rows zero stack shards p q = refl
  length-load_rows (suc left) [] shards p q = absurd (omega arith)
  length-load_rows (suc left) (d ∷ stack) [] p q = absurd (omega arith)
  length-load_rows (suc left) (d ∷ stack) (s ∷ shards) p q =
      ap suc (length-load_rows left stack shards (omega arith) (omega arith))

  abbrev loaded : List ℕ → Shard → Shard
  loaded d s = record s { coeffs = take k s.coeffs; payload = memcpy d s.payload s.len }

  get_or-load_rows :
      (left i : ℕ) (stack : List (List ℕ)) (shards : List Shard)
      → left ≤ length stack
      → left ≤ length shards
      → i < left
      → get_or (load_rows k left stack shards) i blank
        ≡ loaded (get_or stack i []) (get_or shards i blank)
  unfolding load_rows
  get_or-load_rows zero i stack shards p q h = absurd (omega arith)
  get_or-load_rows (suc left) i [] shards p q h = absurd (omega arith)
  get_or-load_rows (suc left) i (d ∷ stack) [] p q h = absurd (omega arith)
  get_or-load_rows (suc left) zero (d ∷ stack) (s ∷ shards) p q h = refl
  get_or-load_rows (suc left) (suc i) (d ∷ stack) (s ∷ shards) p q h =
      get_or-load_rows left i stack shards (omega arith) (omega arith) (omega arith)

module _ {k l : ℕ} {xs : List (List ℕ)} (src : IsSource k l xs) where
  loaded-IsRow :
      (d : List ℕ) (s : Shard) → l ≤ length d → IsShardOf k l xs s → IsRow k l xs (loaded k d s)
  loaded-IsRow d s h v = record {
    width = omega (arith, length-take k s.coeffs, v.width);
    coeff_bytes = take-AreBytes k s.coeffs v.coeff_bytes;
    full = v.full;
    room = omega (
      arith,
      length-append (take s.len s.payload) (drop s.len d),
      length-take s.len s.payload,
      length-drop s.len d,
      v.full,
      v.room,
    );
    meets = λ p q.
        get_or-append_left (take s.len s.payload) (drop s.len d) p 0
          (omega (arith, length-take s.len s.payload, v.full, v.room))
        ∙ get_or-take s.len p s.payload 0 (omega (arith, v.full))
        ∙ v.meets p q
        ∙ sym (
            dot-take k s.coeffs (column p xs)
              (omega (arith, length-map (λ x. get_or x p 0) xs, src.count)));
  }

  module _ {stack : List (List ℕ)} {shards : List Shard} (mem : IsStack k l stack)
      (ok : AreShardsOf k l xs shards) where
    pub start : IsReduced k l xs 0 (load_rows k k stack shards)
    start = record {
      count = length-load_rows k k stack shards mem.count ok.count;
      are_rows = λ m p.
          rw (get_or-load_rows k k m stack shards mem.count ok.count p)
            (loaded-IsRow (get_or stack m []) (get_or shards m blank) (mem.room m p) (ok.each m p));
      identity = λ m c p q. absurd (omega arith);
    }

    same_dot :
        (v : List ℕ) (m : ℕ)
        → length v ≡ k
        → m < k
        → dot (get_or (load_rows k k stack shards) m blank).coeffs v
          ≡ dot (get_or shards m blank).coeffs v
    same_dot v m e p =
        rw (get_or-load_rows k k m stack shards mem.count ok.count p)
          (dot-take k (get_or shards m blank).coeffs v (omega arith))

    pub load_rows-IsDependent : IsDependent k (load_rows k k stack shards) ↔ IsDependent k shards
    load_rows-IsDependent = (
      λ d. record {
        relation = d.relation;
        size = d.size;
        are_bytes = d.are_bytes;
        kills = λ m p. sym (same_dot d.relation m d.size p) ∙ d.kills m p;
        place = d.place;
        nonzero = d.nonzero;
      },
      λ d. record {
        relation = d.relation;
        size = d.size;
        are_bytes = d.are_bytes;
        kills = λ m p. same_dot d.relation m d.size p ∙ d.kills m p;
        place = d.place;
        nonzero = d.nonzero;
      },
    )
