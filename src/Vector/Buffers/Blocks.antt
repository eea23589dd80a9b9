-- ===== src/Vector/Buffers/Blocks.antt =====
-- The blocks of the Vector stage touch only elements of their buffers.
use chunk_scaled_dot_kkt_asc.Prelude.{
  ℕ, zero, suc, ◌+◌, ◌*◌, ◌≤◌, ◌<◌, ◌≡◌, refl, Bool, true, false, arith,
}
use chunk_scaled_dot_kkt_asc.Device.{TilingData, row_elems, kkt_elems, bt, gate_head_batch}
use chunk_scaled_dot_kkt_asc.Vector.{
  Buffer, gate, beta, kkt, out, mul, Vector, emit, cross_wait, cross_set, alloc_output,
  enque_output, deque_gate, free_gate,
}
use chunk_scaled_dot_kkt_asc.Vector.Output.{
  retire, acquire_output_slot, launch_ready_output, launch_output, copy_ready_output,
  free_output_slot, queue_delayed_single_output, queue_delayed_pair_output,
  queue_delayed_chunk_pair_output, copy_pair, copy_chunk_pair, drain_all_output_slots,
}
use chunk_scaled_dot_kkt_asc.Vector.Load.{
  tensor, aligned, zero_suffix, zero_heads, zero_tail_gate_and_beta_batch_suffix,
  complete_kkt_load_and_release_slot, begin_load_kkt_slot, prefetch_gate_and_beta_batch,
}
use chunk_scaled_dot_kkt_asc.Vector.Factor.{
  issue, pair_masks, pair_rows, single_start, single_rows, prepare_head_factor,
  prepare_head_pair_factor,
}
use chunk_scaled_dot_kkt_asc.Vector.Contract.Blocks.{Keeps}
use chunk_scaled_dot_kkt_asc.Vector.Buffers.{buffer_bytes, fits, instr_fits, command_fits, all_fit}

module _ (til : TilingData) where
  -- All commands fit, and so will the launch of the held-back batch.
  pub record Fit (s : Vector) : Type 0 where
    pub fit : all_fit til.num_repeat s.trace ≡ true
    pub active :
        s.ready_output_valid ≡ true
        → s.ready_output_is_chunk_pair ≡ false
        → s.ready_active_elems ≤ kkt_elems
    pub three :
        s.ready_output_valid ≡ true → s.ready_output_is_chunk_pair ≡ true → til.num_repeat ≡ 3

  pub alloc-Fit : Keeps Fit (emit alloc_output)
  unfolding all_fit command_fits
  alloc-Fit s h = ground arith

  pub enque-Fit : Keeps Fit (emit enque_output)
  unfolding all_fit command_fits
  enque-Fit s h = ground arith

  pub deque-Fit : Keeps Fit (emit deque_gate)
  unfolding all_fit command_fits
  deque-Fit s h = ground arith

  pub free-Fit : Keeps Fit (emit free_gate)
  unfolding all_fit command_fits
  free-Fit s h = ground arith

  pub wait-Fit : (flag : ℕ) → Keeps Fit (emit (cross_wait flag))
  unfolding all_fit command_fits
  wait-Fit flag s h = ground arith

  pub set-Fit : (flag : ℕ) → Keeps Fit (emit (cross_set flag))
  unfolding all_fit command_fits
  set-Fit flag s h = ground arith

  pub retire-Fit : (slot : ℕ) → Keeps Fit (retire slot)
  unfolding retire free_output_slot all_fit command_fits
  retire-Fit slot s h = ground arith

  pub acquire-Fit : Keeps Fit acquire_output_slot
  unfolding acquire_output_slot
  acquire-Fit s h =
      let r = retire-Fit s.next_output_slot s h in
      record { fit = r.fit; active = r.active; three = r.three }

  pub launch-Fit : Keeps Fit (launch_ready_output til)
  unfolding launch_ready_output launch_output copy_ready_output copy_pair copy_chunk_pair all_fit
      command_fits fits buffer_bytes
  launch-Fit s h = ground arith

  pub complete-Fit :
      (slot : ℕ) (reuse : Bool) → Keeps Fit (complete_kkt_load_and_release_slot slot reuse)
  unfolding complete_kkt_load_and_release_slot all_fit command_fits
  complete-Fit slot reuse s h = ground arith

  pub load-Fit :
      (group slot chunk_len row_start row_count : ℕ)
      → row_count ≤ bt
      → Keeps Fit (begin_load_kkt_slot group slot chunk_len row_start row_count)
  unfolding begin_load_kkt_slot all_fit command_fits instr_fits fits buffer_bytes
  load-Fit group slot chunk_len row_start row_count le s h = ground arith

  pub prefetch-Fit :
      (t first_head start chunk_len heads : ℕ)
      → heads ≤ gate_head_batch
      → Keeps Fit (prefetch_gate_and_beta_batch t first_head start chunk_len heads)
  unfolding prefetch_gate_and_beta_batch all_fit command_fits fits buffer_bytes
  prefetch-Fit t first_head start chunk_len heads le s h = ground arith

  pair_masks-Fit :
      (chunk_len row_count : ℕ)
      → chunk_len ≤ bt
      → row_count ≤ bt
      → Keeps Fit (pair_masks til chunk_len row_count)
  unfolding pair_masks all_fit command_fits instr_fits fits buffer_bytes
  pair_masks-Fit chunk_len row_count le le' s h = ground arith

  pair_rows-Fit :
      (row_count out0 out1 : ℕ)
      → row_count ≤ bt
      → fits til.num_repeat (tensor out out0) kkt_elems ≡ true
      → fits til.num_repeat (tensor out out1) kkt_elems ≡ true
      → Keeps Fit (pair_rows til row_count out0 out1)
  unfolding pair_rows all_fit command_fits instr_fits fits buffer_bytes
  pair_rows-Fit row_count out0 out1 le f0 f1 s h = ground arith

  single_start-Fit :
      (row_start row_count : ℕ)
      → row_start + row_count ≤ bt
      → Keeps Fit (single_start til row_start row_count)
  unfolding single_start all_fit command_fits instr_fits fits buffer_bytes
  single_start-Fit row_start row_count le s h = ground arith

  single_rows-Fit :
      (chunk_len row_start row_count out0 : ℕ)
      → chunk_len ≤ bt
      → row_start + row_count ≤ bt
      → fits til.num_repeat (tensor out out0) kkt_elems ≡ true
      → Keeps Fit (single_rows til chunk_len row_start row_count out0)
  unfolding single_rows all_fit command_fits instr_fits fits buffer_bytes
  single_rows-Fit chunk_len row_start row_count out0 le le' f s h = ground arith

  pub pair_factor-Fit :
      (chunk_len row_count out0 out1 : ℕ)
      → chunk_len ≤ bt
      → row_count ≤ bt
      → fits til.num_repeat (tensor out out0) kkt_elems ≡ true
      → fits til.num_repeat (tensor out out1) kkt_elems ≡ true
      → Keeps Fit (prepare_head_pair_factor til chunk_len row_count out0 out1)
  unfolding prepare_head_pair_factor
  pair_factor-Fit chunk_len row_count out0 out1 le le' f0 f1 s h =
      pair_rows-Fit row_count out0 out1 le' f0 f1 _
        (launch-Fit _ (pair_masks-Fit chunk_len row_count le le' s h))

  pub factor-Fit :
      (chunk_len row_start row_count out0 : ℕ)
      → chunk_len ≤ bt
      → row_start + row_count ≤ bt
      → fits til.num_repeat (tensor out out0) kkt_elems ≡ true
      → Keeps Fit (prepare_head_factor til chunk_len row_start row_count out0)
  unfolding prepare_head_factor
  factor-Fit chunk_len row_start row_count out0 le le' f s h =
      single_rows-Fit chunk_len row_start row_count out0 le le' f _
        (launch-Fit _ (single_start-Fit row_start row_count le' s h))

  pub mul-Fit :
      (n count : ℕ)
      → count ≤ kkt_elems
      → fits til.num_repeat (tensor out n) kkt_elems ≡ true
      → Keeps Fit (issue (mul (tensor out n) (tensor kkt 0) (tensor out n) count))
  unfolding all_fit command_fits instr_fits fits buffer_bytes
  mul-Fit n count le f s h = ground arith

  pub single-Fit :
      (slot head start row_start rows : ℕ)
      → rows ≤ bt
      → Keeps Fit (queue_delayed_single_output til slot head start row_start rows)
  unfolding queue_delayed_single_output
  single-Fit slot head start row_start rows le s h = ground arith

  pub pair-Fit :
      (slot head start rows : ℕ)
      → rows ≤ bt
      → Keeps Fit (queue_delayed_pair_output til slot head start (rows * row_elems))
  unfolding queue_delayed_pair_output
  pair-Fit slot head start rows le s h = ground arith

  pub chunk_pair-Fit :
      (slot head start heads : ℕ)
      → til.num_repeat ≡ 3
      → Keeps Fit (queue_delayed_chunk_pair_output til slot head start heads)
  unfolding queue_delayed_chunk_pair_output
  chunk_pair-Fit slot head start heads e s h = ground arith

  suffix-Fit :
      (b : Buffer) (head aligned_elems : ℕ) (issued : Bool)
      → head < gate_head_batch
      → fits til.num_repeat (tensor b 0) (gate_head_batch * row_elems) ≡ true
      → Keeps Fit (zero_suffix b (head * row_elems) aligned_elems issued)
  unfolding all_fit command_fits instr_fits fits
  suffix-Fit b head aligned_elems issued lt f s h = ground arith

  zero_heads-Fit :
      (heads head chunk_len : ℕ) (issued : Bool)
      → head + heads ≤ gate_head_batch
      → Keeps Fit (zero_heads heads head chunk_len issued)
  unfolding zero_heads fits buffer_bytes
  zero_heads-Fit zero head chunk_len issued le s h = h
  zero_heads-Fit (suc heads) head chunk_len issued le s h =
      let (issued_g, s_g) = zero_suffix gate (head * row_elems) (aligned chunk_len 8) issued s in
      let (issued_beta, s_beta) =
        zero_suffix beta (head * row_elems) (aligned chunk_len 16) issued_g s_g in
      zero_heads-Fit heads (head + 1) chunk_len issued_beta (omega arith) s_beta (
        suffix-Fit beta head (aligned chunk_len 16) issued_g (omega arith) refl s_g
          (suffix-Fit gate head (aligned chunk_len 8) issued (omega arith) refl s h))

  pub zero_tail-Fit :
      (chunk_len heads : ℕ)
      → heads ≤ gate_head_batch
      → Keeps Fit (zero_tail_gate_and_beta_batch_suffix chunk_len heads)
  unfolding zero_tail_gate_and_beta_batch_suffix all_fit command_fits instr_fits
  zero_tail-Fit chunk_len heads le s h =
      ground (arith, zero_heads-Fit heads 0 chunk_len false (omega arith) s h)

  pub drain-Fit : Keeps Fit drain_all_output_slots
  unfolding drain_all_output_slots
  drain-Fit s h = retire-Fit 1 _ (retire-Fit 0 s h)
