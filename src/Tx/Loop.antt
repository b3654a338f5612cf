-- ===== src/Tx/Loop.antt =====
-- The sending loop of `tx_block_flush`, and the time that a block waits, of src/tx.c.
use coding_gateway.Base.{
  ℕ, zero, suc, ◌+◌, ◌%◌, ◌^◌, ◌<◌, ◌≡◌, refl, sym, ap, ◌∙◌, arith, List, [], ◌∷◌, ◌++◌, true,
  false, Option, some, inl, inr, ◌==◌, length, get_or,
}
use mathlib.Core.List.{append-nil, append_assoc}
use coding_gateway.Float.{FloatOps}
use coding_gateway.Codec.{Shard}
use coding_gateway.Codec.Decode.{blank}
use coding_gateway.Crypto.{CryptoCtx}
use coding_gateway.Strategy.{StrategyCtx, is_usable, strategy_compute_n}
use coding_gateway.Strategy.Choice.{strategy_next_path-IsBest}
use coding_gateway.Strategy.Invariant.{IsStrategy, next-IsStrategy}
use coding_gateway.Transport.{TransportCtx, Datagram, closed_path, shard_datagram}
use coding_gateway.Transport.Send.{over, transport_send_shard-call}
use coding_gateway.Metrics.{count_up}
use coding_gateway.Tx.{
  TxBlock, Sending, prepared, coded, shard_count, send_one, send_shards, tx_block_flush,
}

-- Some path is usable, and every usable path has a socket.
pub record IsReady {F : Type 0} (ops : FloatOps F) (tctx : TransportCtx) (sctx : StrategyCtx F)
    : Type 0 where
  pub strategy_ok : IsStrategy sctx
  pub live : (j : ℕ) × (j < sctx.path_count) × (is_usable ops sctx j ≡ true)
  pub open_paths :
      (p : ℕ)
      → p < sctx.path_count
      → is_usable ops sctx p ≡ true
      → ((fd : ℕ) × ((get_or tctx.paths p closed_path).fd ≡ some fd))
        × ((get_or tctx.paths p closed_path).enabled ≡ true)

module _ (block_id k n : ℕ) (shards : List Shard) where
  -- The datagram of shard `i`.
  abbrev pub datagram : ℕ → List ℕ
  datagram i = shard_datagram block_id (i % 2 ^ 8) (k % 2 ^ 8) (n % 2 ^ 8) (get_or shards i blank)

  -- The calls carry the shards from `i` on.
  abbrev pub Carry : ℕ → List Datagram → Type 0
  Carry i [] = Unit
  Carry i (c ∷ calls) = (c.bytes ≡ datagram i) × Carry (i + 1) calls

module _ {F D : Type 0} (ops : FloatOps F) (sendto : ℕ → Datagram → Option ℕ) (tctx : TransportCtx)
    (block_id k n : ℕ) (shards : List Shard) where
  module _ (i : ℕ) (st : Sending F D) where
    abbrev after : Sending F D
    after = send_one ops sendto tctx block_id k n shards i st

    sent_one :
        IsReady ops tctx st.sctx
        → (c : Datagram) × (after.calls ≡ st.calls ++ (c ∷ []))
          × (c.bytes ≡ datagram block_id k n shards i)
          × IsReady ops tctx after.sctx
    unfolding send_one
    sent_one ready =
        let v = ready.strategy_ok in
        let (j, low, usable) = ready.live in
        elim (strategy_next_path-IsBest ops st.sctx (omega (arith, v.fits, v.room))) [
          | inl t ↦ absurd (cc (t.0 j low, usable))
          | inr (b, best, positive, e) ↦
              let ((fd, opened), on) = ready.open_paths b best.0 best.1 in
              let runs =
                transport_send_shard-call (sendto i) tctx b block_id (i % 2 ^ 8) (k % 2 ^ 8)
                  (n % 2 ^ 8) fd (get_or shards i blank) opened on in
              (
                over (sendto i) tctx b fd (datagram block_id k n shards i),
                rw (e, runs, send_one) refl,
                refl,
                rw (e, send_one)
                    (rw e (record {
                      strategy_ok = rw e at (next-IsStrategy ops st.sctx v);
                      live = ready.live;
                      open_paths = ready.open_paths;
                    })),
              )
        ]

    nothing_sent :
        ((j : ℕ) → j < st.sctx.path_count → is_usable ops st.sctx j ≡ false)
        → IsStrategy st.sctx
        → after ≡ st
    unfolding send_one
    nothing_sent dead v =
        elim (strategy_next_path-IsBest ops st.sctx (omega (arith, v.fits, v.room))) [
          | inl t ↦ rw (t.1, send_one) (ap (λ r. record st { sctx = r.0 }) t.1)
          | inr (b, best, positive, e) ↦ absurd (cc (dead b best.0, best.1))
        ]

  sent_all :
      (left i : ℕ) (st : Sending F D)
      → IsReady ops tctx st.sctx
      → (new : List Datagram) × ((send_shards ops sendto tctx block_id k n shards left i st).calls
          ≡ st.calls ++ new)
        × (length new ≡ left)
        × Carry block_id k n shards i new
  unfolding send_shards
  sent_all zero i st ready = ([], sym (append-nil st.calls), refl, tt)
  sent_all (suc left) i st ready =
      let (c, calls, carried, still) = sent_one i st ready in
      let (new, later, size, rest) =
        sent_all left (i + 1) (send_one ops sendto tctx block_id k n shards i st) still in
      (
        c ∷ new,
        later ∙ ap (λ t. t ++ new) calls ∙ append_assoc st.calls (c ∷ []) new,
        omega (arith, size),
        (carried, rest),
      )

  none_sent :
      (left i : ℕ) (st : Sending F D)
      → ((j : ℕ) → j < st.sctx.path_count → is_usable ops st.sctx j ≡ false)
      → IsStrategy st.sctx
      → send_shards ops sendto tctx block_id k n shards left i st ≡ st
  unfolding send_shards
  none_sent zero i st dead v = refl
  none_sent (suc left) i st dead v =
      rw (nothing_sent i st dead v) (none_sent left (i + 1) st dead v)

module _ {F D : Type 0} (ops : FloatOps F) (sendto : ℕ → Datagram → Option ℕ) (rand : ℕ → ℕ)
    (out : List Shard) (blk : TxBlock) (tctx : TransportCtx) (st : Sending F D) (k : ℕ)
    (crypto : CryptoCtx) (used : 0 < blk.pkt_count) where
  abbrev flushed : TxBlock × Sending F D
  flushed = tx_block_flush ops sendto rand out blk tctx st k crypto

  -- When some path is usable and every usable path has a socket, a flush of a block that is not
  -- empty gives the kernel one datagram for each of the `n` shards, in their order, whatever it
  -- answers, and counts the block.
  pub tx_block_flush-Carry :
      IsReady ops tctx st.sctx
      → (new : List Datagram) × (flushed.1.calls ≡ st.calls ++ new)
        × (length new ≡ shard_count (strategy_compute_n ops st.sctx k))
        × Carry blk.block_id k
            (shard_count (strategy_compute_n ops st.sctx k))
            (coded ops st.sctx blk k crypto rand out)
            0
            new
  unfolding tx_block_flush
  tx_block_flush-Carry ready =
      let n = shard_count (strategy_compute_n ops st.sctx k) in
      let filled : (blk.pkt_count == 0) ≡ false = ground arith in
      let (new, calls, size, carried) =
        sent_all ops sendto tctx blk.block_id k n (coded ops st.sctx blk k crypto rand out) n 0 st
          ready in
      (new, rw filled calls, size, carried)

  -- When no path is enabled and alive, a flush sends nothing, and its only effect outside the block
  -- is that the block is counted as encoded.
  pub tx_block_flush-no_path :
      ((j : ℕ) → j < st.sctx.path_count → is_usable ops st.sctx j ≡ false)
      → IsStrategy st.sctx
      → flushed ≡ (
        prepared blk k,
        record st {
          metrics = record st.metrics { blocks_encoded = count_up st.metrics.blocks_encoded };
        },
      )
  unfolding tx_block_flush
  tx_block_flush-no_path dead v =
      let n = shard_count (strategy_compute_n ops st.sctx k) in
      let filled : (blk.pkt_count == 0) ≡ false = ground arith in
      rw
        (
          filled,
          none_sent ops sendto tctx blk.block_id k n (coded ops st.sctx blk k crypto rand out) n 0
              st dead v,
        )
        refl
