-- ===== src/Vector/Handshake/Batches.antt =====
-- The batches of heads of a task: the first one ends the round, the later ones leave it alone.
use chunk_scaled_dot_kkt_asc.Prelude.{
  ℕ, zero, suc, ◌+◌, ◌*◌, ◌<◌, ◌≡◌, refl, Bool, true, false, ltb, ◌==◌, arith, if◌then◌else◌,
}
use chunk_scaled_dot_kkt_asc.Device.{
  TilingData, row_elems, kkt_elems, gate_head_batch, slot_of, slot_count,
}
use chunk_scaled_dot_kkt_asc.Vector.{Vector, M, skip, for_range}
use chunk_scaled_dot_kkt_asc.Vector.Output.{acquire_output_slot}
use chunk_scaled_dot_kkt_asc.Vector.Load.{zero_tail_gate_and_beta_batch_suffix}
use chunk_scaled_dot_kkt_asc.Vector.Factor.{
  finalize_head_pair_with_kkt, finalize_head_with_kkt, process_head_pair_tile, process_head_tile,
}
use chunk_scaled_dot_kkt_asc.Vector.Output.{queue_delayed_single_output, queue_delayed_pair_output}
use chunk_scaled_dot_kkt_asc.Vector.Task.{
  Share, batch_heads_at, batch_count, prefetch_next, first_batch, later_batch, head_batch,
  process_head_range,
}
use chunk_scaled_dot_kkt_asc.Vector.Contract.Blocks.{Goes}
use chunk_scaled_dot_kkt_asc.Vector.Handshake.{before_round, loading_in}
use chunk_scaled_dot_kkt_asc.Vector.Handshake.Blocks.{
  At, Quiet, issue-Quiet, alloc-Quiet, enque-Quiet, deque-Quiet, free-Quiet, acquire-Quiet,
  prefetch-Quiet, zero_tail-Quiet, pair_factor-Quiet, factor-Quiet, complete-ends,
}

module _ (group count : ℕ) (til : TilingData) where
  pub if-Quiet :
      (b : Bool) (m n : M (Unit {0}))
      → Quiet group count m
      → Quiet group count n
      → Quiet group count (if b then m else n)
  if-Quiet true m n p q = p
  if-Quiet false m n p q = q

  else-Quiet :
      (b : Bool) (m n : M (Unit {0}))
      → b ≡ false
      → Quiet group count n
      → Quiet group count (if b then m else n)
  else-Quiet true m n off q l s h = absurd (ground arith)
  else-Quiet false m n off q l s h = q l s h

  pub if-cases :
      (P Q : Vector → Type 0) (b : Bool) (m n : M (Unit {0}))
      → (b ≡ true → Goes P Q m)
      → (b ≡ false → Goes P Q n)
      → Goes P Q (if b then m else n)
  if-cases P Q true m n p q = p refl
  if-cases P Q false m n p q = q refl

  pub skip-Quiet : Quiet group count skip
  skip-Quiet l s h = h

  prefetch_next-Quiet :
      (first_head start chunk_len : ℕ) (share : Share) (batch_id : ℕ)
      → Quiet group count (prefetch_next til first_head start chunk_len share batch_id)
  unfolding prefetch_next
  prefetch_next-Quiet first_head start chunk_len share batch_id =
      if-Quiet (ltb (batch_id + 1) (batch_count share)) _ _
        (prefetch-Quiet group count til.t _ start chunk_len _) skip-Quiet

  queue_pair-Quiet :
      (slot head start n : ℕ) → Quiet group count (queue_delayed_pair_output til slot head start n)
  unfolding queue_delayed_pair_output
  queue_pair-Quiet slot head start n l s h = record { follows = h.follows }

  queue_single-Quiet :
      (slot head start row_start rows : ℕ)
      → Quiet group count (queue_delayed_single_output til slot head start row_start rows)
  unfolding queue_delayed_single_output
  queue_single-Quiet slot head start row_start rows l s h = record { follows = h.follows }

  finalize_pair-Quiet :
      (slot head start rows : ℕ)
      → Quiet group count (finalize_head_pair_with_kkt til slot head start rows)
  unfolding finalize_head_pair_with_kkt
  finalize_pair-Quiet slot head start rows l s h =
      queue_pair-Quiet slot head start (rows * row_elems) l _ (
        enque-Quiet group count l _
          (issue-Quiet group count _ l _ (issue-Quiet group count _ l s h)))

  finalize-Quiet :
      (slot head start row_start rows : ℕ)
      → Quiet group count (finalize_head_with_kkt til slot head start row_start rows)
  unfolding finalize_head_with_kkt
  finalize-Quiet slot head start row_start rows l s h =
      queue_single-Quiet slot head start row_start rows l _
        (enque-Quiet group count l _ (issue-Quiet group count _ l s h))

  pair_tile-Quiet :
      (slot head start chunk_len rows : ℕ)
      → Quiet group count (process_head_pair_tile til slot head start chunk_len rows)
  unfolding process_head_pair_tile
  pair_tile-Quiet slot head start chunk_len rows l s h =
      finalize_pair-Quiet slot head start rows l _ (
        pair_factor-Quiet group count til chunk_len rows 0 kkt_elems l _
          (alloc-Quiet group count l s h))

  tile-Quiet :
      (slot head start chunk_len row_start rows : ℕ)
      → Quiet group count (process_head_tile til slot head start chunk_len row_start rows)
  unfolding process_head_tile
  tile-Quiet slot head start chunk_len row_start rows l s h =
      finalize-Quiet slot head start row_start rows l _ (
        factor-Quiet group count til chunk_len row_start rows 0 l _ (alloc-Quiet group count l s h))

  later_batch-Quiet :
      (first_head start chunk_len : ℕ) (share : Share) (batch_id : ℕ)
      → Quiet group count (later_batch til first_head start chunk_len share batch_id)
  unfolding later_batch
  later_batch-Quiet first_head start chunk_len share batch_id l s h =
      let (o, s') =
        acquire_output_slot (prefetch_next til first_head start chunk_len share batch_id s).1 in
      if-Quiet
        (batch_heads_at share (share.first_repeat + batch_id * gate_head_batch) == gate_head_batch)
        _ _ (pair_tile-Quiet o _ start chunk_len _) (tile-Quiet o _ start chunk_len _ _) l s'
        (acquire-Quiet group count l _
          (prefetch_next-Quiet first_head start chunk_len share batch_id l s h))

  -- The tail rows of the gates are cleared on either side of the batches.
  clear-Quiet :
      (chunk_len heads : ℕ)
      → Quiet group count (
          if chunk_len == row_elems
          then skip
          else zero_tail_gate_and_beta_batch_suffix chunk_len heads)
  clear-Quiet chunk_len heads =
      if-Quiet (chunk_len == row_elems) _ _ skip-Quiet (zero_tail-Quiet group count chunk_len heads)

  module _ (round : ℕ) (lt : round < count) (reuse : Bool)
      (e : reuse ≡ ltb (round + slot_count) count) where
    first_batch-ends :
        (first_head start chunk_len : ℕ) (share : Share)
        → Goes
            (At group count (loading_in count round))
            (At group count (before_round count (round + 1)))
            (first_batch til first_head start chunk_len share (slot_of round) reuse)
    unfolding first_batch
    first_batch-ends first_head start chunk_len share s h =
        let (o, s') = acquire_output_slot s in
        let is_pair = batch_heads_at share share.first_repeat == gate_head_batch in
        let l = loading_in count round in
        let l' = before_round count (round + 1) in
        if-Quiet is_pair _ _ (finalize_pair-Quiet o _ start _) (finalize-Quiet o _ start _ _) l' _ (
          prefetch_next-Quiet first_head start chunk_len share 0 l' _ (
            complete-ends group count round reuse lt e _ (
              if-Quiet is_pair _ _
                (pair_factor-Quiet group count til chunk_len share.row_count 0 kkt_elems)
                (factor-Quiet group count til chunk_len share.row_start share.row_count 0) l _
                (alloc-Quiet group count l _ (acquire-Quiet group count l s h)))))

    first-ends :
        (first_head start chunk_len : ℕ) (share : Share)
        → Goes
            (At group count (loading_in count round))
            (At group count (before_round count (round + 1)))
            (head_batch til first_head start chunk_len share (slot_of round) reuse 0)
    unfolding head_batch
    first-ends first_head start chunk_len share s h =
        free-Quiet group count (before_round count (round + 1)) _ (
          first_batch-ends first_head start chunk_len share _ (
            clear-Quiet chunk_len _ (loading_in count round) _
              (deque-Quiet group count (loading_in count round) s h)))

    later-Quiet :
        (first_head start chunk_len : ℕ) (share : Share) (batch_id : ℕ)
        → 0 < batch_id
        → Quiet group count
            (head_batch til first_head start chunk_len share (slot_of round) reuse batch_id)
    unfolding head_batch
    later-Quiet first_head start chunk_len share batch_id pos l s h = free-Quiet group count l _ (
        else-Quiet (batch_id == 0) _ _ (ground arith)
          (later_batch-Quiet first_head start chunk_len share batch_id) l _
          (clear-Quiet chunk_len _ l _ (deque-Quiet group count l s h)))

    laters-Quiet :
        (first_head start chunk_len : ℕ) (share : Share) (n batch_id : ℕ)
        → 0 < batch_id
        → Quiet group count (
            for_range n batch_id
              (head_batch til first_head start chunk_len share (slot_of round) reuse))
    laters-Quiet first_head start chunk_len share zero batch_id pos l s h = h
    laters-Quiet first_head start chunk_len share (suc n) batch_id pos l s h =
        laters-Quiet first_head start chunk_len share n (batch_id + 1) (omega arith) l _
          (later-Quiet first_head start chunk_len share batch_id pos l s h)

    batches-end :
        (first_head start chunk_len : ℕ) (share : Share) (n : ℕ)
        → 0 < n
        → Goes
            (At group count (loading_in count round))
            (At group count (before_round count (round + 1)))
            (for_range n 0 (head_batch til first_head start chunk_len share (slot_of round) reuse))
    batches-end first_head start chunk_len share zero pos s h = absurd (omega arith)
    batches-end first_head start chunk_len share (suc n) pos s h =
        laters-Quiet first_head start chunk_len share n 1 (omega arith)
          (before_round count (round + 1)) _ (first-ends first_head start chunk_len share s h)

    pub head_range-ends :
        (kv_head start chunk_len : ℕ) (share : Share)
        → share.first_repeat < share.repeat_end
        → Goes
            (At group count (loading_in count round))
            (At group count (before_round count (round + 1)))
            (process_head_range til kv_head start chunk_len share (slot_of round) reuse)
    unfolding process_head_range
    head_range-ends kv_head start chunk_len share some_heads =
        batches-end (kv_head * til.num_repeat) start chunk_len share (batch_count share)
          (omega arith)
