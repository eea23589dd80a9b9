-- ===== src/Vector/Contract/Tasks.antt =====
-- The tasks of the Vector stage keep the contract: each begins and ends idle.
use chunk_scaled_dot_kkt_asc.Prelude.{
  ℕ, zero, suc, ◌+◌, ◌*◌, ◌/◌, ◌%◌, Bool, true, false, ltb, ◌==◌,
}
use chunk_scaled_dot_kkt_asc.Prelude.Int.{sub32}
use chunk_scaled_dot_kkt_asc.Device.{
  TilingData, row_elems, kkt_elems, gate_head_batch, slot_of, slot_reused, ready_flag_for_slot,
  free_flag_for_slot,
}
use chunk_scaled_dot_kkt_asc.Vector.{alloc_output, Vector, M, emit, for_range}
use chunk_scaled_dot_kkt_asc.Vector.Output.{acquire_output_slot}
use chunk_scaled_dot_kkt_asc.Vector.Load.{is_valid_chunk}
use chunk_scaled_dot_kkt_asc.Vector.Factor.{
  finalize_head_pair_with_kkt, finalize_head_with_kkt, process_head_pair_tile, process_head_tile,
}
use chunk_scaled_dot_kkt_asc.Vector.Task.{
  Share, share_of, batch_heads_at, batch_count, prefetch_next, first_batch, later_batch, head_batch,
  process_head_range, has_work, process_chunk, process_pipeline_task, fused_chunk,
  process_adjacent_full_chunk,
}
use chunk_scaled_dot_kkt_asc.Vector.Contract.Phases.{
  Idle, Filling, Launched, acquire-Filling, alloc-Filling, single-Idle, pair-Idle, chunk_pair-Idle,
}
use chunk_scaled_dot_kkt_asc.Vector.Contract.Blocks.{
  Mode, idle, filling, launched, Phase, Goes, Keeps, if-Goes, wait-Phase, set-Phase, deque-Phase,
  free-Phase, complete-Phase, load-Phase, prefetch-Phase, zero_tail-Idle, pair_factor-Launched,
  factor-Launched, mul-Launched,
}

-- The slot acquired and its tensor allocated.
open_slot :
    (s : Vector)
    → Idle s
    → let (slot, s') = acquire_output_slot s in Filling true slot (emit alloc_output s').1
open_slot s h = alloc-Filling _ _ (acquire-Filling s h)

module _ (til : TilingData) where
  prefetch_next-Phase :
      (m : Mode) (first_head start chunk_len : ℕ) (share : Share) (batch_id : ℕ)
      → Keeps (Phase m) (prefetch_next til first_head start chunk_len share batch_id)
  unfolding prefetch_next
  prefetch_next-Phase m first_head start chunk_len share batch_id =
      if-Goes (Phase m) (Phase m) (ltb (batch_id + 1) (batch_count share)) _ _
        (prefetch-Phase m til.t _ start chunk_len _) (λ s h. h)

  finalize_pair-Idle :
      (slot head start rows : ℕ)
      → Goes (Launched slot) Idle (finalize_head_pair_with_kkt til slot head start rows)
  unfolding finalize_head_pair_with_kkt
  finalize_pair-Idle slot head start rows s h = pair-Idle til slot head start (rows * row_elems) _ (
      mul-Launched til slot kkt_elems kkt_elems (rows * row_elems) _
        (mul-Launched til slot 0 0 (rows * row_elems) s h))

  finalize-Idle :
      (slot head start row_start rows : ℕ)
      → Goes (Launched slot) Idle (finalize_head_with_kkt til slot head start row_start rows)
  unfolding finalize_head_with_kkt
  finalize-Idle slot head start row_start rows s h =
      single-Idle til slot head start row_start rows _
        (mul-Launched til slot 0 0 (rows * row_elems) s h)

  first_batch-Idle :
      (first_head start chunk_len : ℕ) (share : Share) (slot : ℕ) (reuse : Bool)
      → Keeps Idle (first_batch til first_head start chunk_len share slot reuse)
  unfolding first_batch
  first_batch-Idle first_head start chunk_len share slot reuse s h =
      let (o, s') = acquire_output_slot s in
      let is_pair = batch_heads_at share share.first_repeat == gate_head_batch in
      if-Goes (Launched o) (Idle) is_pair _ _ (finalize_pair-Idle o _ start _)
        (finalize-Idle o _ start _ _) _
        (prefetch_next-Phase (launched o) first_head start chunk_len share 0 _ (
          complete-Phase (launched o) slot reuse _ (
            if-Goes (Filling true o) (Launched o) is_pair _ _
              (pair_factor-Launched til o chunk_len share.row_count 0 kkt_elems)
              (factor-Launched til o chunk_len share.row_start share.row_count 0) _
              (open_slot s h))))

  later_batch-Idle :
      (first_head start chunk_len : ℕ) (share : Share) (batch_id : ℕ)
      → Keeps Idle (later_batch til first_head start chunk_len share batch_id)
  unfolding later_batch process_head_pair_tile process_head_tile
  later_batch-Idle first_head start chunk_len share batch_id s h =
      let p = prefetch_next-Phase idle first_head start chunk_len share batch_id s h in
      let (o, s') =
        acquire_output_slot (prefetch_next til first_head start chunk_len share batch_id s).1 in
      if-Goes (Filling false o) (Idle)
        (batch_heads_at share (share.first_repeat + batch_id * gate_head_batch) == gate_head_batch)
        _ _
        (λ r f. finalize_pair-Idle o _ start _ _ (
          pair_factor-Launched til o chunk_len share.row_count 0 kkt_elems _ (alloc-Filling o r f)))
        (λ r f. finalize-Idle o _ start _ _ _ (
          factor-Launched til o chunk_len share.row_start share.row_count 0 _
            (alloc-Filling o r f)))
        _ (acquire-Filling _ p)

  head_batch-Idle :
      (first_head start chunk_len : ℕ) (share : Share) (slot : ℕ) (reuse : Bool) (batch_id : ℕ)
      → Keeps Idle (head_batch til first_head start chunk_len share slot reuse batch_id)
  unfolding head_batch
  head_batch-Idle first_head start chunk_len share slot reuse batch_id s h = free-Phase idle _ (
      if-Goes Idle Idle (batch_id == 0) _ _
        (first_batch-Idle first_head start chunk_len share slot reuse)
        (later_batch-Idle first_head start chunk_len share batch_id) _
        (if-Goes Idle Idle (chunk_len == row_elems) _ _ (λ r i. i) (zero_tail-Idle chunk_len _) _
          (deque-Phase idle s h)))

  for_range-Idle :
      (body : ℕ → M (Unit {0}))
      → ((i : ℕ) → Keeps Idle (body i))
      → (n i : ℕ) → Keeps Idle (for_range n i body)
  for_range-Idle body keeps zero i s h = h
  for_range-Idle body keeps (suc n) i s h = for_range-Idle body keeps n (i + 1) _ (keeps i s h)

  head_range-Idle :
      (kv_head start chunk_len : ℕ) (share : Share) (slot : ℕ) (reuse : Bool)
      → Keeps Idle (process_head_range til kv_head start chunk_len share slot reuse)
  unfolding process_head_range
  head_range-Idle kv_head start chunk_len share slot reuse =
      for_range-Idle _ (head_batch-Idle (kv_head * til.num_repeat) start chunk_len share slot reuse)
        (batch_count share) 0

  chunk-Idle :
      (kv_head start chunk_len group slot : ℕ) (valid : Bool) (share : Share) (reuse : Bool)
      → Keeps Idle (process_chunk til kv_head start chunk_len group slot valid share reuse)
  unfolding process_chunk
  chunk-Idle kv_head start chunk_len group slot valid share reuse s h =
      if-Goes Idle Idle (has_work valid share) _ _
        (λ r i.
          head_range-Idle kv_head start chunk_len share slot reuse _
            (load-Phase idle group slot chunk_len share.row_start share.row_count r i))
        (if-Goes Idle Idle reuse _ _ (set-Phase idle (free_flag_for_slot slot)) (λ r i. i)) _
        (wait-Phase idle (ready_flag_for_slot slot) _ (
          if-Goes Idle Idle (has_work valid share) _ _
            (prefetch-Phase idle til.t _ start chunk_len _) (λ r i. i) s h))

  module _ (offsets : ℕ → ℕ) where
    pub task-Idle :
        (task group lane round : ℕ) (reuse : Bool)
        → Keeps Idle (process_pipeline_task til offsets task group lane round reuse)
    unfolding process_pipeline_task
    task-Idle task group lane round reuse =
        let start = offsets (task / til.hg) in
        let end = offsets (task / til.hg + 1) in
        let valid = is_valid_chunk til.t start end in
        chunk-Idle (task % til.hg) start (sub32 end start) group (slot_of round) valid
          (share_of til.num_repeat lane (sub32 end start) valid) reuse

    fused-Launched :
        (slot : ℕ) (is_pair : Bool) (first_head start group tile out0 out1 : ℕ) (reuse : Bool)
        → Goes
            (Filling true slot)
            (Launched slot)
            (fused_chunk til offsets is_pair first_head start group tile out0 out1 reuse)
    unfolding fused_chunk
    fused-Launched slot is_pair first_head start group tile out0 out1 reuse s h =
        free-Phase (launched slot) _ (
          if-Goes (Launched slot) (Launched slot) is_pair _ _
            (mul-Launched til slot out1 out1 kkt_elems) (λ r i. i) _
            (mul-Launched til slot out0 out0 kkt_elems _ (
              complete-Phase (launched slot) tile reuse _ (
                if-Goes (Filling true slot) (Launched slot) is_pair _ _
                  (pair_factor-Launched til slot row_elems row_elems out0 out1)
                  (factor-Launched til slot row_elems 0 row_elems out0) _
                  (deque-Phase (filling slot) _ (
                    load-Phase (filling slot) group tile row_elems 0 row_elems _ (
                      wait-Phase (filling slot) (ready_flag_for_slot tile) _ (
                        prefetch-Phase (filling slot) til.t first_head start row_elems _ s h))))))))

    pub adjacent-Idle :
        (is_pair : Bool) (chunk first_head group round count : ℕ)
        → Keeps Idle
            (process_adjacent_full_chunk til offsets is_pair chunk first_head group round count)
    unfolding process_adjacent_full_chunk
    adjacent-Idle is_pair chunk first_head group round count s h =
        let (o, s') = acquire_output_slot s in
        let second : Launched o _ =
          fused-Launched o is_pair first_head (offsets (chunk + 1)) group (slot_of (round + 1))
            kkt_elems (3 * kkt_elems) (slot_reused (round + 1) count) _
            (fused-Launched o is_pair first_head (offsets chunk) group (slot_of round) 0
              (2 * kkt_elems) (slot_reused round count) _ (open_slot s h)).filling in
        chunk_pair-Idle til o first_head (offsets chunk) _ _ second
