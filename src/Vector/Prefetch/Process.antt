-- ===== src/Vector/Prefetch/Process.antt =====
-- The batches, tasks and loops of a Vector lane keep the contract of the gate tensors.
use chunk_scaled_dot_kkt_asc.Prelude.{
  ℕ, zero, suc, ◌+◌, ◌*◌, ◌/◌, ◌%◌, ◌<◌, ◌≡◌, refl, Bool, true, false, not, ltb, ◌==◌, some, List,
  [], ◌∷◌, arith, if◌then◌else◌, Bool-cases, inl, inr, subst,
}
use chunk_scaled_dot_kkt_asc.Prelude.Int.{sub32}
use chunk_scaled_dot_kkt_asc.Device.{
  TilingData, row_elems, kkt_elems, gate_head_batch, slot_of, slot_reused, ready_flag_for_slot,
  free_flag_for_slot,
}
use chunk_scaled_dot_kkt_asc.Vector.{fresh, emit, for_range, skip, cross_set}
use chunk_scaled_dot_kkt_asc.Vector.Output.{acquire_output_slot}
use chunk_scaled_dot_kkt_asc.Vector.Load.{is_valid_chunk, begin_load_kkt_slot}
use chunk_scaled_dot_kkt_asc.Vector.Factor.{process_head_pair_tile, process_head_tile}
use chunk_scaled_dot_kkt_asc.Vector.Task.{
  Share, share_of, batch_heads_at, batch_count, prefetch_next, first_batch, later_batch, head_batch,
  process_head_range, has_work, process_chunk, process_pipeline_task, fused_chunk,
  process_adjacent_full_chunk,
}
use chunk_scaled_dot_kkt_asc.Vector.Walk.{Call, single, adjacent, perform, process, process_calls}
use chunk_scaled_dot_kkt_asc.Vector.Prefetch.{no_pairs, replay_pairs}
use chunk_scaled_dot_kkt_asc.Vector.Prefetch.Blocks.{
  Holds, Goes, Keeps, choose-Goes, wait-Holds, signal-Holds, alloc-Holds, enque-Holds,
  acquire-Holds, drain-Holds, launch-Holds, complete-Holds, load-Holds, product-Holds,
  finalize-Holds, finalize_pair-Holds, delayed_pair-Holds, prefetch-Holds, deque-Holds, free-Holds,
  zero_tail-Holds, pair_factor-Holds, factor-Holds,
}

module _ (til : TilingData) where
  -- The pair of the next batch is enqueued exactly if there is one.
  next-Holds :
      (first_head start chunk_len : ℕ) (share : Share) (b : ℕ)
      → Goes
          (Holds false true)
          (Holds (ltb (b + 1) (batch_count share)) true)
          (prefetch_next til first_head start chunk_len share b)
  unfolding prefetch_next
  next-Holds first_head start chunk_len share b s h =
      elim (Bool-cases (ltb (b + 1) (batch_count share))) [
        | inl more ↦ rw more (prefetch-Holds true til.t _ start chunk_len _ s h)
        | inr last ↦ rw last h
      ]

  first-Holds :
      (first_head start chunk_len : ℕ) (share : Share) (slot : ℕ) (reuse : Bool)
      → Goes
          (Holds false true)
          (Holds (ltb 1 (batch_count share)) true)
          (first_batch til first_head start chunk_len share slot reuse)
  unfolding first_batch
  first-Holds first_head start chunk_len share slot reuse s h =
      let more = ltb 1 (batch_count share) in
      let two = batch_heads_at share share.first_repeat == gate_head_batch in
      let (o, s') = acquire_output_slot s in
      choose-Goes (Holds more true) (Holds more true) two _ _
        (finalize_pair-Holds more true til o _ start share.row_count)
        (finalize-Holds more true til o _ start share.row_start share.row_count) _
        (next-Holds first_head start chunk_len share 0 _ (
          complete-Holds false true slot reuse _ (
            choose-Goes (Holds false true) (Holds false true) two _ _
              (pair_factor-Holds false til chunk_len share.row_count 0 kkt_elems)
              (factor-Holds false til chunk_len share.row_start share.row_count 0) _
              (alloc-Holds false true s' (acquire-Holds false true s h)))))

  later-Holds :
      (first_head start chunk_len : ℕ) (share : Share) (b : ℕ)
      → Goes
          (Holds false true)
          (Holds (ltb (b + 1) (batch_count share)) true)
          (later_batch til first_head start chunk_len share b)
  unfolding later_batch process_head_pair_tile process_head_tile
  later-Holds first_head start chunk_len share b s h =
      let more = ltb (b + 1) (batch_count share) in
      let p = next-Holds first_head start chunk_len share b s h in
      let (o, s') =
        acquire_output_slot (prefetch_next til first_head start chunk_len share b s).1 in
      choose-Goes (Holds more true) (Holds more true)
        (batch_heads_at share (share.first_repeat + b * gate_head_batch) == gate_head_batch) _ _
        (λ r f. finalize_pair-Holds more true til o _ start share.row_count _ (
          pair_factor-Holds more til chunk_len share.row_count 0 kkt_elems _
            (alloc-Holds more true r f)))
        (λ r f. finalize-Holds more true til o _ start share.row_start share.row_count _ (
          factor-Holds more til chunk_len share.row_start share.row_count 0 _
            (alloc-Holds more true r f)))
        s' (acquire-Holds more true _ p)

  first_or_later-Holds :
      (first_head start chunk_len : ℕ) (share : Share) (slot : ℕ) (reuse : Bool) (b : ℕ)
      → Goes (Holds false true) (Holds (ltb (b + 1) (batch_count share)) true) (
          if b == 0
          then first_batch til first_head start chunk_len share slot reuse
          else later_batch til first_head start chunk_len share b)
  first_or_later-Holds first_head start chunk_len share slot reuse b s h =
      elim (Bool-cases (b == 0)) [
        | inl first ↦
            let e : 1 ≡ b + 1 = ground arith in
            let u = (first_batch til first_head start chunk_len share slot reuse s).1 in
            rw first (
              subst (λ n. Holds (ltb n (batch_count share)) true u) e
                (first-Holds first_head start chunk_len share slot reuse s h))
        | inr later ↦ rw later (later-Holds first_head start chunk_len share b s h)
      ]

  batch-Holds :
      (first_head start chunk_len : ℕ) (share : Share) (slot : ℕ) (reuse : Bool) (b : ℕ)
      → Goes
          (Holds true false)
          (Holds (ltb (b + 1) (batch_count share)) false)
          (head_batch til first_head start chunk_len share slot reuse b)
  unfolding head_batch
  batch-Holds first_head start chunk_len share slot reuse b s h =
      let heads = batch_heads_at share (share.first_repeat + b * gate_head_batch) in
      free-Holds (ltb (b + 1) (batch_count share)) _ (
        first_or_later-Holds first_head start chunk_len share slot reuse b _ (
          choose-Goes (Holds false true) (Holds false true) (chunk_len == row_elems) _ _ (λ r i. i)
            (zero_tail-Holds false chunk_len heads) _ (deque-Holds s h)))

  range-Holds :
      (first_head start chunk_len : ℕ) (share : Share) (slot : ℕ) (reuse : Bool) (n b : ℕ)
      → b + n ≡ batch_count share
      → Goes
          (Holds (ltb b (batch_count share)) false)
          (Holds false false)
          (for_range n b (head_batch til first_head start chunk_len share slot reuse))
  range-Holds first_head start chunk_len share slot reuse zero b e s h =
      let done : ltb b (batch_count share) ≡ false = ground arith in
      subst (λ q. Holds q false s) done h
  range-Holds first_head start chunk_len share slot reuse (suc n) b e s h =
      let more : ltb b (batch_count share) ≡ true = ground arith in
      range-Holds first_head start chunk_len share slot reuse n (b + 1) (omega arith) _ (
        batch-Holds first_head start chunk_len share slot reuse b s
          (subst (λ q. Holds q false s) more h))

  task_body-Holds :
      (kv_head start chunk_len group slot : ℕ) (share : Share) (reuse : Bool)
      → 0 < batch_count share
      → Goes (Holds true false) (Holds false false) (λ s.
        process_head_range til kv_head start chunk_len share slot reuse
          (begin_load_kkt_slot group slot chunk_len share.row_start share.row_count s).1)
  unfolding process_head_range
  task_body-Holds kv_head start chunk_len group slot share reuse pos s h =
      let r = (begin_load_kkt_slot group slot chunk_len share.row_start share.row_count s).1 in
      let first : true ≡ ltb 0 (batch_count share) = ground arith in
      range-Holds (kv_head * til.num_repeat) start chunk_len share slot reuse (batch_count share) 0
        (omega arith) r
        (subst (λ q. Holds q false r) first
          (load-Holds true false group slot chunk_len share.row_start share.row_count s h))

  idle-Holds :
      (slot : ℕ) (reuse : Bool)
      → Keeps
          (Holds false false)
          (if reuse then emit (cross_set (free_flag_for_slot slot)) else skip)
  idle-Holds slot true s h = signal-Holds false false (free_flag_for_slot slot) s h
  idle-Holds slot false s h = h

  chunk-Holds :
      (kv_head start chunk_len group slot : ℕ) (valid : Bool) (share : Share) (reuse : Bool)
      → Keeps
          (Holds false false)
          (process_chunk til kv_head start chunk_len group slot valid share reuse)
  unfolding process_chunk
  chunk-Holds kv_head start chunk_len group slot valid share reuse s h =
      elim (Bool-cases (has_work valid share)) [
        | inl work ↦ rw work (
            task_body-Holds kv_head start chunk_len group slot share reuse (ground arith) _ (
              wait-Holds true false (ready_flag_for_slot slot) _ (
                prefetch-Holds false til.t (kv_head * til.num_repeat + share.first_repeat) start
                  chunk_len (batch_heads_at share share.first_repeat) s h)))
        | inr rest ↦
            rw rest
              (idle-Holds slot reuse _ (wait-Holds false false (ready_flag_for_slot slot) s h))
      ]

  module _ (offsets : ℕ → ℕ) where
    task-Holds :
        (task group lane round : ℕ) (reuse : Bool)
        → Keeps (Holds false false) (process_pipeline_task til offsets task group lane round reuse)
    unfolding process_pipeline_task
    task-Holds task group lane round reuse =
        let start = offsets (task / til.hg) in
        let end = offsets (task / til.hg + 1) in
        let valid = is_valid_chunk til.t start end in
        chunk-Holds (task % til.hg) start (sub32 end start) group (slot_of round) valid
          (share_of til.num_repeat lane (sub32 end start) valid) reuse

    fused-Holds :
        (is_pair : Bool) (first_head start group tile out0 out1 : ℕ) (reuse : Bool)
        → Keeps
            (Holds false false)
            (fused_chunk til offsets is_pair first_head start group tile out0 out1 reuse)
    unfolding fused_chunk
    fused-Holds is_pair first_head start group tile out0 out1 reuse s h =
        let P = Holds false true in
        free-Holds false _ (
          choose-Goes P P is_pair _ _ (product-Holds false true out1 out1 kkt_elems) (λ r i. i) _
            (product-Holds false true out0 out0 kkt_elems _ (
              complete-Holds false true tile reuse _ (
                choose-Goes P P is_pair _ _
                  (pair_factor-Holds false til row_elems row_elems out0 out1)
                  (factor-Holds false til row_elems 0 row_elems out0) _
                  (deque-Holds _ (
                    load-Holds true false group tile row_elems 0 row_elems _ (
                      wait-Holds true false (ready_flag_for_slot tile) _
                        (prefetch-Holds false til.t first_head start row_elems _ s h))))))))

    adjacent-Holds :
        (is_pair : Bool) (chunk first_head group round count : ℕ)
        → Keeps
            (Holds false false)
            (process_adjacent_full_chunk til offsets is_pair chunk first_head group round count)
    unfolding process_adjacent_full_chunk
    adjacent-Holds is_pair chunk first_head group round count s h =
        let (o, s') = acquire_output_slot s in
        delayed_pair-Holds false false til o first_head (offsets chunk) _ _ (
          enque-Holds false false _ (
            fused-Holds is_pair first_head (offsets (chunk + 1)) group (slot_of (round + 1))
              kkt_elems (3 * kkt_elems) (slot_reused (round + 1) count) _
              (fused-Holds is_pair first_head (offsets chunk) group (slot_of round) 0
                (2 * kkt_elems) (slot_reused round count) _
                (alloc-Holds false false s' (acquire-Holds false false s h)))))

    perform-Holds :
        (group lane : ℕ) (calls : List Call)
        → Keeps (Holds false false) (perform til offsets group lane calls)
    unfolding perform
    perform-Holds group lane [] s h = h
    perform-Holds group lane (single task round reuse ∷ calls) s h =
        perform-Holds group lane calls _ (task-Holds task group lane round reuse s h)
    perform-Holds group lane (adjacent chunk kv_head round count ∷ calls) s h =
        perform-Holds group lane calls _ (
          adjacent-Holds (not (lane == 0)) chunk (kv_head * 3 + (if lane == 0 then 0 else 1)) group
            round count s h)

fresh-Holds : Holds false false fresh
unfolding replay_pairs Holds
fresh-Holds = refl

-- On every tiling data and every chunk offsets, malformed ones included, a lane's run never breaches
-- the contract of the queues of gates and betas and ends with every tensor released: no allocation
-- without a free buffer, no second enqueued pair, no transfer into a tensor that is enqueued or in
-- use, and no instruction that reads or clears gates before they are dequeued or after their release.
pub process-no_pairs :
    (til : TilingData) (offsets : ℕ → ℕ) (task_ratio aiv : ℕ)
    → replay_pairs (process til offsets task_ratio aiv fresh).1.trace ≡ some no_pairs
unfolding process Holds
process-no_pairs til offsets task_ratio aiv = drain-Holds false false _ (
    launch-Holds false false til _ (
      perform-Holds til offsets (aiv / task_ratio) (aiv % task_ratio)
        (process_calls til offsets (aiv / task_ratio)) fresh fresh-Holds))
