-- ===== src/Vector/Handshake/Tasks.antt =====
-- The tasks of the Vector stage: each takes the protocol from one round to the next.
use chunk_scaled_dot_kkt_asc.Prelude.{
  ℕ, ◌+◌, ◌*◌, ◌/◌, ◌%◌, ◌≤◌, ◌<◌, ◌≡◌, Bool, true, ltb, arith, if◌then◌else◌,
}
use chunk_scaled_dot_kkt_asc.Prelude.Int.{sub32}
use chunk_scaled_dot_kkt_asc.Device.{
  TilingData, row_elems, bt, kkt_elems, gate_head_batch, slot_of, slot_count, slot_reused,
  free_flag_for_slot,
}
use chunk_scaled_dot_kkt_asc.Vector.{◌>>◌, emit, skip, cross_set}
use chunk_scaled_dot_kkt_asc.Vector.Output.{acquire_output_slot}
use chunk_scaled_dot_kkt_asc.Vector.Load.{is_valid_chunk, begin_load_kkt_slot}
use chunk_scaled_dot_kkt_asc.Vector.Output.{queue_delayed_chunk_pair_output}
use chunk_scaled_dot_kkt_asc.Vector.Task.{
  Share, share_of, process_head_range, has_work, process_chunk, process_pipeline_task, fused_chunk,
  process_adjacent_full_chunk,
}
use chunk_scaled_dot_kkt_asc.Vector.Contract.Blocks.{Goes}
use chunk_scaled_dot_kkt_asc.Vector.Handshake.{before_round, in_round, loading_in, follow}
use chunk_scaled_dot_kkt_asc.Vector.Handshake.Batches.{
  if-Quiet, if-cases, skip-Quiet, head_range-ends,
}
use chunk_scaled_dot_kkt_asc.Vector.Handshake.Blocks.{
  At, Quiet, issue-Quiet, alloc-Quiet, enque-Quiet, deque-Quiet, free-Quiet, acquire-Quiet,
  prefetch-Quiet, pair_factor-Quiet, factor-Quiet, wait-begins, load-begins, complete-ends,
}

module _ (group count : ℕ) (til : TilingData) where
  module _ (round : ℕ) (lt : round < count) (reuse : Bool)
      (e : reuse ≡ ltb (round + slot_count) count) where
    -- A round without work for the lane: FREE straight after READY.
    release-ends :
        Goes
          (At group count (in_round count round))
          (At group count (before_round count (round + 1)))
          (if reuse then emit (cross_set (free_flag_for_slot (slot_of round))) else skip)
    unfolding follow
    release-ends s h = ground arith

    module _ (kv_head start chunk_len : ℕ) (valid : Bool) (share : Share)
        (len : valid ≡ true → chunk_len ≤ bt)
        (rows : has_work valid share ≡ true → share.row_start + share.row_count ≤ bt) where
      work-ends :
          has_work valid share ≡ true
          → Goes
              (At group count (in_round count round))
              (At group count (before_round count (round + 1)))
              (begin_load_kkt_slot group (slot_of round) chunk_len share.row_start share.row_count
                >> process_head_range til kv_head start chunk_len share (slot_of round) reuse)
      work-ends work s h =
          head_range-ends group count til round lt reuse e kv_head start chunk_len share
            (ground arith) _
            (load-begins group count round chunk_len share.row_start share.row_count
              (len (ground arith)) (rows work) lt s h)

      chunk-ends :
          Goes
            (At group count (before_round count round))
            (At group count (before_round count (round + 1)))
            (process_chunk til kv_head start chunk_len group (slot_of round) valid share reuse)
      unfolding process_chunk
      chunk-ends s h =
          if-cases group count til (At group count (in_round count round))
            (At group count (before_round count (round + 1))) (has_work valid share) _ _ work-ends
            (λ no_work. release-ends) _
            (wait-begins group count round lt _ (
              if-Quiet group count til (has_work valid share) _ _
                (prefetch-Quiet group count til.t _ start chunk_len _) (skip-Quiet group count til)
                (before_round count round) s h))

    module _ (offsets : ℕ → ℕ) where
      valid_len : (start end : ℕ) → is_valid_chunk til.t start end ≡ true → sub32 end start ≤ bt
      unfolding is_valid_chunk
      valid_len start end h = ground arith

      share_rows :
          (lane chunk_len : ℕ) (valid : Bool)
          → (valid ≡ true → chunk_len ≤ bt)
          → has_work valid (share_of til.num_repeat lane chunk_len valid) ≡ true
          → (share_of til.num_repeat lane chunk_len valid).row_start
              + (share_of til.num_repeat lane chunk_len valid).row_count
            ≤ bt
      unfolding share_of
      share_rows lane chunk_len valid len work = ground arith

      pub task-ends :
          (task lane : ℕ)
          → Goes
              (At group count (before_round count round))
              (At group count (before_round count (round + 1)))
              (process_pipeline_task til offsets task group lane round reuse)
      unfolding process_pipeline_task
      task-ends task lane =
          let start = offsets (task / til.hg) in
          let end = offsets (task / til.hg + 1) in
          let valid = is_valid_chunk til.t start end in
          chunk-ends (task % til.hg) start (sub32 end start) valid
            (share_of til.num_repeat lane (sub32 end start) valid) (valid_len start end)
            (share_rows lane (sub32 end start) valid (valid_len start end))

    pub fused-ends :
        (is_pair : Bool) (first_head start out0 out1 : ℕ)
        → (offsets : ℕ → ℕ)
        → Goes
            (At group count (before_round count round))
            (At group count (before_round count (round + 1)))
            (fused_chunk til offsets is_pair first_head start group (slot_of round) out0 out1 reuse)
    unfolding fused_chunk
    fused-ends is_pair first_head start out0 out1 offsets s h =
        let l = loading_in count round in
        let l' = before_round count (round + 1) in
        free-Quiet group count l' _ (
          if-Quiet group count til is_pair _ _ (issue-Quiet group count _)
            (skip-Quiet group count til) l' _
            (issue-Quiet group count _ l' _ (
              complete-ends group count round reuse lt e _ (
                if-Quiet group count til is_pair _ _
                  (pair_factor-Quiet group count til row_elems row_elems out0 out1)
                  (factor-Quiet group count til row_elems 0 row_elems out0) l _
                  (deque-Quiet group count l _ (
                    load-begins group count round row_elems 0 row_elems (omega arith) (omega arith)
                      lt _
                      (wait-begins group count round lt _ (
                        prefetch-Quiet group count til.t first_head start row_elems _
                          (before_round count round) s h))))))))

  queue_chunks-Quiet :
      (slot head start n : ℕ)
      → Quiet group count (queue_delayed_chunk_pair_output til slot head start n)
  unfolding queue_delayed_chunk_pair_output
  queue_chunks-Quiet slot head start n l s h = record { follows = h.follows }

  pub adjacent-ends :
      (offsets : ℕ → ℕ) (is_pair : Bool) (chunk first_head round tasks : ℕ)
      → round + 1 < count
      → slot_reused round tasks ≡ ltb (round + slot_count) count
      → slot_reused (round + 1) tasks ≡ ltb (round + 1 + slot_count) count
      → Goes
          (At group count (before_round count round))
          (At group count (before_round count (round + 1 + 1)))
          (process_adjacent_full_chunk til offsets is_pair chunk first_head group round tasks)
  unfolding process_adjacent_full_chunk
  adjacent-ends offsets is_pair chunk first_head round tasks lt e0 e1 s h =
      let (o, s') = acquire_output_slot s in
      let l = before_round count round in
      let l' = before_round count (round + 1 + 1) in
      queue_chunks-Quiet o first_head (offsets chunk) (if is_pair then gate_head_batch else 1) l' _
        (enque-Quiet group count l' _ (
          fused-ends (round + 1) lt (slot_reused (round + 1) tasks) e1 is_pair first_head
            (offsets (chunk + 1)) kkt_elems (3 * kkt_elems) offsets _
            (fused-ends round (omega arith) (slot_reused round tasks) e0 is_pair first_head
              (offsets chunk) 0 (2 * kkt_elems) offsets _
              (alloc-Quiet group count l _ (acquire-Quiet group count l s h)))))
