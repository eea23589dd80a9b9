-- ===== src/Vector/Buffers/Tasks.antt =====
-- The tasks of the Vector stage touch only elements of their buffers.
use chunk_scaled_dot_kkt_asc.Prelude.{
  ℕ, zero, suc, ◌+◌, ◌*◌, ◌/◌, ◌%◌, ◌≤◌, ◌≡◌, refl, Bool, true, false, ltb, ◌==◌, arith,
  if◌then◌else◌,
}
use chunk_scaled_dot_kkt_asc.Prelude.Int.{sub32}
use chunk_scaled_dot_kkt_asc.Device.{
  TilingData, row_elems, bt, kkt_elems, gate_head_batch, slot_of, slot_reused, ready_flag_for_slot,
  free_flag_for_slot,
}
use chunk_scaled_dot_kkt_asc.Vector.{M, skip, for_range, out}
use chunk_scaled_dot_kkt_asc.Vector.Output.{acquire_output_slot}
use chunk_scaled_dot_kkt_asc.Vector.Load.{tensor, is_valid_chunk}
use chunk_scaled_dot_kkt_asc.Vector.Factor.{
  prepare_head_pair_factor, prepare_head_factor, finalize_head_pair_with_kkt,
  finalize_head_with_kkt, process_head_pair_tile, process_head_tile,
}
use chunk_scaled_dot_kkt_asc.Vector.Task.{
  Share, share_of, batch_heads_at, batch_count, prefetch_next, first_batch, later_batch, head_batch,
  process_head_range, has_work, process_chunk, process_pipeline_task, fused_chunk,
  process_adjacent_full_chunk,
}
use chunk_scaled_dot_kkt_asc.Vector.Contract.Blocks.{Keeps}
use chunk_scaled_dot_kkt_asc.Vector.Buffers.{buffer_bytes, fits}
use chunk_scaled_dot_kkt_asc.Vector.Buffers.Blocks.{
  Fit, alloc-Fit, enque-Fit, deque-Fit, free-Fit, wait-Fit, set-Fit, acquire-Fit, complete-Fit,
  load-Fit, prefetch-Fit, pair_factor-Fit, factor-Fit, mul-Fit, single-Fit, pair-Fit,
  chunk_pair-Fit, zero_tail-Fit,
}

module _ (til : TilingData) where
  if-Fit :
      (b : Bool) (m n : M (Unit {0}))
      → (b ≡ true → Keeps (Fit til) m)
      → Keeps (Fit til) n
      → Keeps (Fit til) (if b then m else n)
  if-Fit true m n p q = p refl
  if-Fit false m n p q = q

  skip-Fit : Keeps (Fit til) skip
  skip-Fit s h = h

  tile0 : fits til.num_repeat (tensor out 0) kkt_elems ≡ true
  unfolding fits buffer_bytes
  tile0 = ground arith

  tile1 : fits til.num_repeat (tensor out kkt_elems) kkt_elems ≡ true
  unfolding fits buffer_bytes
  tile1 = ground arith

  tile2 : til.num_repeat ≡ 3 → fits til.num_repeat (tensor out (2 * kkt_elems)) kkt_elems ≡ true
  unfolding fits buffer_bytes
  tile2 e = ground arith

  tile3 : til.num_repeat ≡ 3 → fits til.num_repeat (tensor out (3 * kkt_elems)) kkt_elems ≡ true
  unfolding fits buffer_bytes
  tile3 e = ground arith

  pair_heads : (is_pair : Bool) → (if is_pair then gate_head_batch else 1) ≤ gate_head_batch
  pair_heads is_pair = ground arith

  heads_small : (share : Share) (repeat : ℕ) → batch_heads_at share repeat ≤ gate_head_batch
  heads_small share repeat = ground arith

  finalize_pair-Fit :
      (slot head start rows : ℕ)
      → rows ≤ bt
      → Keeps (Fit til) (finalize_head_pair_with_kkt til slot head start rows)
  unfolding finalize_head_pair_with_kkt
  finalize_pair-Fit slot head start rows le s h = pair-Fit til slot head start rows le _ (
      enque-Fit til _ (
        mul-Fit til kkt_elems (rows * row_elems) (omega arith) tile1 _
          (mul-Fit til 0 (rows * row_elems) (omega arith) tile0 s h)))

  finalize-Fit :
      (slot head start row_start rows : ℕ)
      → rows ≤ bt
      → Keeps (Fit til) (finalize_head_with_kkt til slot head start row_start rows)
  unfolding finalize_head_with_kkt
  finalize-Fit slot head start row_start rows le s h =
      single-Fit til slot head start row_start rows le _
        (enque-Fit til _ (mul-Fit til 0 (rows * row_elems) (omega arith) tile0 s h))

  module _ (first_head start chunk_len : ℕ) (share : Share) (len : chunk_len ≤ bt)
      (rows : share.row_start + share.row_count ≤ bt) where
    count_small : share.row_count ≤ bt
    count_small = omega arith

    prefetch_next-Fit :
        (batch_id : ℕ)
        → Keeps (Fit til) (prefetch_next til first_head start chunk_len share batch_id)
    unfolding prefetch_next
    prefetch_next-Fit batch_id =
        if-Fit (ltb (batch_id + 1) (batch_count share)) _ _
          (λ more. prefetch-Fit til til.t _ start chunk_len _ (heads_small share _)) skip-Fit

    factors-Fit :
        (is_pair : Bool)
        → Keeps (Fit til) (
            if is_pair
            then prepare_head_pair_factor til chunk_len share.row_count 0 kkt_elems
            else prepare_head_factor til chunk_len share.row_start share.row_count 0)
    factors-Fit is_pair =
        if-Fit is_pair _ _
          (λ p.
            pair_factor-Fit til chunk_len share.row_count 0 kkt_elems len count_small tile0 tile1)
          (factor-Fit til chunk_len share.row_start share.row_count 0 len rows tile0)

    first_batch-Fit :
        (slot : ℕ) (reuse : Bool)
        → Keeps (Fit til) (first_batch til first_head start chunk_len share slot reuse)
    unfolding first_batch
    first_batch-Fit slot reuse s h =
        let (o, s') = acquire_output_slot s in
        let is_pair = batch_heads_at share share.first_repeat == gate_head_batch in
        if-Fit is_pair _ _ (λ p. finalize_pair-Fit o _ start share.row_count count_small)
          (finalize-Fit o _ start share.row_start share.row_count count_small) _
          (prefetch_next-Fit 0 _ (
            complete-Fit til slot reuse _
              (factors-Fit is_pair _ (alloc-Fit til _ (acquire-Fit til s h)))))

    later_batch-Fit :
        (batch_id : ℕ) → Keeps (Fit til) (later_batch til first_head start chunk_len share batch_id)
    unfolding later_batch process_head_pair_tile process_head_tile
    later_batch-Fit batch_id s h =
        let p = acquire-Fit til _ (prefetch_next-Fit batch_id s h) in
        let (o, s') =
          acquire_output_slot (prefetch_next til first_head start chunk_len share batch_id s).1 in
        if-Fit
          (batch_heads_at share (share.first_repeat + batch_id * gate_head_batch)
            == gate_head_batch)
          _ _
          (λ pair r i. finalize_pair-Fit o _ start share.row_count count_small _ (
            pair_factor-Fit til chunk_len share.row_count 0 kkt_elems len count_small tile0 tile1 _
              (alloc-Fit til r i)))
          (λ r i. finalize-Fit o _ start share.row_start share.row_count count_small _ (
            factor-Fit til chunk_len share.row_start share.row_count 0 len rows tile0 _
              (alloc-Fit til r i)))
          s' p

    head_batch-Fit :
        (slot : ℕ) (reuse : Bool) (batch_id : ℕ)
        → Keeps (Fit til) (head_batch til first_head start chunk_len share slot reuse batch_id)
    unfolding head_batch
    head_batch-Fit slot reuse batch_id s h = free-Fit til _ (
        if-Fit (batch_id == 0) _ _ (λ z. first_batch-Fit slot reuse) (later_batch-Fit batch_id) _
          (if-Fit (chunk_len == row_elems) _ _ (λ full. skip-Fit)
            (zero_tail-Fit til chunk_len _ (heads_small share _)) _ (deque-Fit til s h)))

    batches-Fit :
        (slot : ℕ) (reuse : Bool) (n i : ℕ)
        → Keeps
            (Fit til)
            (for_range n i (head_batch til first_head start chunk_len share slot reuse))
    batches-Fit slot reuse zero i s h = h
    batches-Fit slot reuse (suc n) i s h =
        batches-Fit slot reuse n (i + 1) _ (head_batch-Fit slot reuse i s h)

  chunk-Fit :
      (kv_head start chunk_len group slot : ℕ) (valid : Bool) (share : Share) (reuse : Bool)
      → (has_work valid share ≡ true → chunk_len ≤ bt)
      → (has_work valid share ≡ true → share.row_start + share.row_count ≤ bt)
      → Keeps (Fit til) (process_chunk til kv_head start chunk_len group slot valid share reuse)
  unfolding process_chunk process_head_range
  chunk-Fit kv_head start chunk_len group slot valid share reuse len rows s h =
      if-Fit (has_work valid share) _ _
        (λ work r i.
          batches-Fit (kv_head * til.num_repeat) start chunk_len share (len work) (rows work) slot
            reuse (batch_count share) 0 _
            (load-Fit til group slot chunk_len share.row_start share.row_count
              (count_small 0 0 chunk_len share (len work) (rows work)) r i))
        (if-Fit reuse _ _ (λ again. set-Fit til (free_flag_for_slot slot)) skip-Fit) _
        (wait-Fit til (ready_flag_for_slot slot) _ (
          if-Fit (has_work valid share) _ _
            (λ work. prefetch-Fit til til.t _ start chunk_len _ (heads_small share _)) skip-Fit s
            h))

  module _ (offsets : ℕ → ℕ) where
    valid_len : (start end : ℕ) → is_valid_chunk til.t start end ≡ true → sub32 end start ≤ bt
    unfolding is_valid_chunk
    valid_len start end h = ground arith

    share_rows :
        (lane chunk_len : ℕ) (valid : Bool)
        → (valid ≡ true → chunk_len ≤ bt)
        → has_work valid (share_of til.num_repeat lane chunk_len valid) ≡ true
        → (share_of til.num_repeat lane chunk_len valid).row_start
            + (share_of til.num_repeat lane chunk_len valid).row_count
          ≤ bt
    unfolding share_of
    share_rows lane chunk_len valid len work = ground arith

    pub task-Fit :
        (task group lane round : ℕ) (reuse : Bool)
        → Keeps (Fit til) (process_pipeline_task til offsets task group lane round reuse)
    unfolding process_pipeline_task
    task-Fit task group lane round reuse =
        let start = offsets (task / til.hg) in
        let end = offsets (task / til.hg + 1) in
        let valid = is_valid_chunk til.t start end in
        let len : valid ≡ true → sub32 end start ≤ bt = valid_len start end in
        chunk-Fit (task % til.hg) start (sub32 end start) group (slot_of round) valid
          (share_of til.num_repeat lane (sub32 end start) valid) reuse (λ work. len (ground arith))
          (share_rows lane (sub32 end start) valid len)

    fused-Fit :
        (is_pair : Bool) (first_head start group slot out0 out1 : ℕ) (reuse : Bool)
        → fits til.num_repeat (tensor out out0) kkt_elems ≡ true
        → fits til.num_repeat (tensor out out1) kkt_elems ≡ true
        → Keeps
            (Fit til)
            (fused_chunk til offsets is_pair first_head start group slot out0 out1 reuse)
    unfolding fused_chunk
    fused-Fit is_pair first_head start group slot out0 out1 reuse f0 f1 s h = free-Fit til _ (
        if-Fit is_pair _ _ (λ p. mul-Fit til out1 kkt_elems (omega arith) f1) skip-Fit _
          (mul-Fit til out0 kkt_elems (omega arith) f0 _ (
            complete-Fit til slot reuse _ (
              if-Fit is_pair _ _
                (λ p.
                  pair_factor-Fit til row_elems row_elems out0 out1 (omega arith) (omega arith) f0
                    f1)
                (factor-Fit til row_elems 0 row_elems out0 (omega arith) (omega arith) f0) _
                (deque-Fit til _ (
                  load-Fit til group slot row_elems 0 row_elems (omega arith) _ (
                    wait-Fit til (ready_flag_for_slot slot) _ (
                      prefetch-Fit til til.t first_head start row_elems _ (pair_heads is_pair) s
                        h))))))))

    pub adjacent-Fit :
        (is_pair : Bool) (chunk first_head group round tasks : ℕ)
        → til.num_repeat ≡ 3
        → Keeps
            (Fit til)
            (process_adjacent_full_chunk til offsets is_pair chunk first_head group round tasks)
    unfolding process_adjacent_full_chunk
    adjacent-Fit is_pair chunk first_head group round tasks three s h =
        let (o, s') = acquire_output_slot s in
        chunk_pair-Fit til o first_head (offsets chunk) (if is_pair then gate_head_batch else 1)
          three _
          (enque-Fit til _ (
            fused-Fit is_pair first_head (offsets (chunk + 1)) group (slot_of (round + 1)) kkt_elems
              (3 * kkt_elems) (slot_reused (round + 1) tasks) tile1 (tile3 three) _
              (fused-Fit is_pair first_head (offsets chunk) group (slot_of round) 0 (2 * kkt_elems)
                (slot_reused round tasks) tile0 (tile2 three) _
                (alloc-Fit til _ (acquire-Fit til s h)))))
