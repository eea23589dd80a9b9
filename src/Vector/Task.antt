-- ===== src/Vector/Task.antt =====
-- One task of the Vector stage: the heads of a lane for one chunk and KV head, and the fused pair of
-- adjacent full chunks.
use chunk_scaled_dot_kkt_asc.Prelude.{
  ℕ, ◌+◌, ◌-◌, ◌*◌, ◌/◌, ◌%◌, Bool, not, ◌&&◌, ltb, leb, ◌==◌, if◌then◌else◌,
}
use chunk_scaled_dot_kkt_asc.Prelude.Int.{sub32}
use chunk_scaled_dot_kkt_asc.Device.{
  TilingData, row_elems, kkt_elems, gate_head_batch, fallback_rows_per_aiv, aivs_per_aic, min_i32,
  slot_reused, slot_of, ready_flag_for_slot, free_flag_for_slot,
}
use chunk_scaled_dot_kkt_asc.Vector.{
  kkt, out, mul, cross_wait, cross_set, alloc_output, enque_output, deque_gate, free_gate, M, ◌>>=◌,
  ◌>>◌, emit, skip, for_range,
}
use chunk_scaled_dot_kkt_asc.Vector.Output.{acquire_output_slot, queue_delayed_chunk_pair_output}
use chunk_scaled_dot_kkt_asc.Vector.Load.{
  tensor, is_valid_chunk, complete_kkt_load_and_release_slot, begin_load_kkt_slot,
  prefetch_gate_and_beta_batch, zero_tail_gate_and_beta_batch_suffix,
}
use chunk_scaled_dot_kkt_asc.Vector.Factor.{
  issue, prepare_head_pair_factor, finalize_head_pair_with_kkt, process_head_pair_tile,
  prepare_head_factor, finalize_head_with_kkt, process_head_tile,
}

-- What a lane does for a task: its rows and its heads among the repeats of the KV head.
pub record Share : Type 0 where
  pub row_start : ℕ
  pub row_count : ℕ
  pub first_repeat : ℕ
  pub repeat_end : ℕ

-- A row count that would be negative is 0, as the truncated difference makes it.
unfoldable pub share_of : (num_repeat lane chunk_len : ℕ) (valid : Bool) → Share
share_of num_repeat lane chunk_len valid =
    if not valid
    then record { row_start = 0; row_count = 0; first_repeat = 0; repeat_end = 0 }
    else if leb aivs_per_aic num_repeat
    then record {
      row_start = 0;
      row_count = chunk_len;
      first_repeat = lane * num_repeat / aivs_per_aic;
      repeat_end = (lane + 1) * num_repeat / aivs_per_aic;
    }
    else record {
      row_start = lane * fallback_rows_per_aiv;
      row_count = min_i32 fallback_rows_per_aiv (chunk_len - lane * fallback_rows_per_aiv);
      first_repeat = 0;
      repeat_end = 1;
    }

-- The heads of the batch that begins at a repeat.
abbrev pub batch_heads_at : Share → ℕ → ℕ
batch_heads_at share batch_repeat = min_i32 gate_head_batch (share.repeat_end - batch_repeat)

abbrev pub batch_count : Share → ℕ
batch_count share = (share.repeat_end - share.first_repeat + gate_head_batch - 1) / gate_head_batch

abbrev pub has_work : Bool → Share → Bool
has_work valid share = valid && ltb 0 share.row_count && ltb share.first_repeat share.repeat_end

module _ (til : TilingData) where
  -- The prefetch of the batch after `batch_id`, if there is one.
  unfoldable pub prefetch_next :
      (first_head start chunk_len : ℕ) (share : Share) (batch_id : ℕ) → M (Unit {0})
  prefetch_next first_head start chunk_len share batch_id =
      if ltb (batch_id + 1) (batch_count share)
      then (let next_repeat = share.first_repeat + batch_id * gate_head_batch + gate_head_batch in
          prefetch_gate_and_beta_batch til.t (first_head + next_repeat) start chunk_len
            (batch_heads_at share next_repeat))
      else skip

  -- The first batch: its factor is prepared while the KKT tile is still in flight.
  unfoldable pub first_batch :
      (first_head start chunk_len : ℕ) (share : Share) (slot : ℕ) (will_reuse : Bool) → M (Unit {0})
  unfolding prefetch_next
  first_batch first_head start chunk_len share slot will_reuse = do
    output_slot ← acquire_output_slot
    emit alloc_output
    if batch_heads_at share share.first_repeat == gate_head_batch
        then prepare_head_pair_factor til chunk_len share.row_count 0 kkt_elems
        else prepare_head_factor til chunk_len share.row_start share.row_count 0
    complete_kkt_load_and_release_slot slot will_reuse
    prefetch_next first_head start chunk_len share 0
    if batch_heads_at share share.first_repeat == gate_head_batch
        then finalize_head_pair_with_kkt til output_slot (first_head + share.first_repeat) start
            share.row_count
        else finalize_head_with_kkt til output_slot (first_head + share.first_repeat) start
            share.row_start share.row_count

  -- A later batch: the KKT tile is resident.
  unfoldable pub later_batch :
      (first_head start chunk_len : ℕ) (share : Share) (batch_id : ℕ) → M (Unit {0})
  unfolding prefetch_next
  later_batch first_head start chunk_len share batch_id = do
    prefetch_next first_head start chunk_len share batch_id
    output_slot ← acquire_output_slot
    let batch_repeat = share.first_repeat + batch_id * gate_head_batch
    if batch_heads_at share batch_repeat == gate_head_batch
        then process_head_pair_tile til output_slot (first_head + batch_repeat) start chunk_len
            share.row_count
        else process_head_tile til output_slot (first_head + batch_repeat) start chunk_len
            share.row_start share.row_count

  unfoldable pub head_batch :
      (first_head start chunk_len : ℕ) (share : Share) (slot : ℕ) (will_reuse : Bool) (batch_id : ℕ)
      → M (Unit {0})
  unfolding first_batch later_batch
  head_batch first_head start chunk_len share slot will_reuse batch_id = do
    emit deque_gate
    if chunk_len == row_elems
        then skip
        else zero_tail_gate_and_beta_batch_suffix chunk_len
            (batch_heads_at share (share.first_repeat + batch_id * gate_head_batch))
    if batch_id == 0
        then first_batch first_head start chunk_len share slot will_reuse
        else later_batch first_head start chunk_len share batch_id
    emit free_gate

  unfoldable pub process_head_range :
      (kv_head start chunk_len : ℕ) (share : Share) (slot : ℕ) (will_reuse : Bool) → M (Unit {0})
  unfolding head_batch
  process_head_range kv_head start chunk_len share slot will_reuse =
      for_range (batch_count share) 0
        (head_batch (kv_head * til.num_repeat) start chunk_len share slot will_reuse)

  -- A task with a given chunk; `chunk_len` is its length where it is valid.
  unfoldable pub process_chunk :
      (kv_head start chunk_len group slot : ℕ) (valid : Bool) (share : Share) (will_reuse : Bool)
      → M (Unit {0})
  unfolding process_head_range
  process_chunk kv_head start chunk_len group slot valid share will_reuse = do
    if has_work valid share
        then prefetch_gate_and_beta_batch til.t (kv_head * til.num_repeat + share.first_repeat)
            start chunk_len (batch_heads_at share share.first_repeat)
        else skip
    emit (cross_wait (ready_flag_for_slot slot))
    if has_work valid share
        then (begin_load_kkt_slot group slot chunk_len share.row_start share.row_count
            >> process_head_range kv_head start chunk_len share slot will_reuse)
        else if will_reuse
        then emit (cross_set (free_flag_for_slot slot))
        else skip

  module _ (offsets : ℕ → ℕ) where
    unfoldable pub process_pipeline_task :
        (task group lane round : ℕ) (will_reuse : Bool) → M (Unit {0})
    unfolding process_chunk
    process_pipeline_task task group lane round will_reuse =
        let chunk = task / til.hg in
        let start = offsets chunk in
        let chunk_len = sub32 (offsets (chunk + 1)) start in
        let valid = is_valid_chunk til.t start (offsets (chunk + 1)) in
        process_chunk (task % til.hg) start chunk_len group (slot_of round) valid
          (share_of til.num_repeat lane chunk_len valid) will_reuse

    -- One chunk of a fused pair; `out0` and `out1` are its tiles in the output tensor.
    unfoldable pub fused_chunk :
        (is_pair : Bool) (first_head start group slot out0 out1 : ℕ) (reuse : Bool) → M (Unit {0})
    fused_chunk is_pair first_head start group slot out0 out1 reuse = do
      prefetch_gate_and_beta_batch til.t first_head start row_elems
          (if is_pair then gate_head_batch else 1)
      emit (cross_wait (ready_flag_for_slot slot))
      begin_load_kkt_slot group slot row_elems 0 row_elems
      emit deque_gate
      if is_pair
          then prepare_head_pair_factor til row_elems row_elems out0 out1
          else prepare_head_factor til row_elems 0 row_elems out0
      complete_kkt_load_and_release_slot slot reuse
      issue (mul (tensor out out0) (tensor kkt 0) (tensor out out0) kkt_elems)
      if is_pair
          then issue (mul (tensor out out1) (tensor kkt 0) (tensor out out1) kkt_elems)
          else skip
      emit free_gate

    unfoldable pub process_adjacent_full_chunk :
        (is_pair : Bool) (first_chunk first_head group round local_task_count : ℕ) → M (Unit {0})
    unfolding fused_chunk
    process_adjacent_full_chunk is_pair first_chunk first_head group round local_task_count = do
      output_slot ← acquire_output_slot
      emit alloc_output
      fused_chunk is_pair first_head (offsets first_chunk) group (slot_of round) 0 (2 * kkt_elems)
          (slot_reused round local_task_count)
      fused_chunk is_pair first_head (offsets (first_chunk + 1)) group (slot_of (round + 1))
          kkt_elems (3 * kkt_elems) (slot_reused (round + 1) local_task_count)
      emit enque_output
      queue_delayed_chunk_pair_output til output_slot first_head (offsets first_chunk)
          (if is_pair then gate_head_batch else 1)
