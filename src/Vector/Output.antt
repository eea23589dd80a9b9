-- ===== src/Vector/Output.antt =====
-- The two output slots of the Vector stage: acquire, launch, queue and drain.
use Prim.Native.Nat.{bit_and, bit_or, bit_xor}
use chunk_scaled_dot_kkt_asc.Prelude.{
  ℕ, ◌+◌, ◌-◌, ◌*◌, ◌/◌, ◌^◌, Bool, true, false, not, ◌&&◌, leb, ◌==◌, if◌then◌else◌,
}
use chunk_scaled_dot_kkt_asc.Device.{TilingData, row_elems, kkt_elems, gate_head_batch}
use chunk_scaled_dot_kkt_asc.Vector.{
  out, Tensor, copy_out, copy_out_strided, set_output_event, wait_output_event, deque_output,
  keep_output, free_output, Vector, M, ◌>>=◌, ◌>>◌, ret, get, modify, emit, skip, for_range,
}

-- `1U << slotId`
abbrev pub slot_bit : ℕ → ℕ
slot_bit slot = 2 ^ slot

unfoldable pub free_output_slot : ℕ → M (Unit {0})
free_output_slot slot = do
  emit (free_output slot)
  modify λ s. record s {
    output_slot_busy_mask = bit_and s.output_slot_busy_mask (2 ^ 32 - 1 - slot_bit slot);
  }

-- The wait for a slot that is still draining, and its release.
unfoldable pub retire : ℕ → M (Unit {0})
unfolding free_output_slot
retire slot s =
    if bit_and s.output_slot_busy_mask (slot_bit slot) == 0
    then skip s
    else (emit (wait_output_event slot) >> free_output_slot slot) s

unfoldable pub acquire_output_slot : M ℕ
unfolding retire
acquire_output_slot = do
  s ← get
  let slot = s.next_output_slot
  retire slot
  modify λ s. record s { next_output_slot = bit_xor s.next_output_slot 1 }
  ret slot

unfoldable pub drain_all_output_slots : M (Unit {0})
unfolding retire
drain_all_output_slots = for_range 2 0 retire

abbrev pub max_data_copy_stride : ℕ
max_data_copy_stride = 65535

-- FP32 elements in a 32-byte block, and the blocks of one full head.
abbrev pub elems_per_data_block : ℕ
elems_per_data_block = 8

abbrev pub full_head_blocks : ℕ
full_head_blocks = kkt_elems / elems_per_data_block

-- `dstStrideBlocks >= 0 && dstStrideBlocks <= kMaxDataCopyStride` for the difference of
-- `head_stride` and `len`, which may be negative.
abbrev pub stride_fits : ℕ → ℕ → Bool
stride_fits head_stride len = leb len head_stride && leb (head_stride - len) max_data_copy_stride

abbrev pub out_at : ℕ → Tensor
out_at n = record { buffer = out; at = n }

module _ (til : TilingData) where
  -- Two blocks of `len` data blocks, one to each head.
  abbrev pub two_heads : Vector → ℕ → M (Unit {0})
  two_heads s len = emit (
      copy_out_strided s.ready_first_output_offset (out_at 0) (record {
        block_count = 2;
        block_len = len;
        src_stride = 0;
        dst_stride = til.t * (row_elems / elems_per_data_block) - len;
      }))

  -- A copy to each head, `len` elements from element `second` on for the second.
  abbrev pub head_by_head : Vector → (second len : ℕ) → M (Unit {0})
  head_by_head s second len =
      emit (copy_out s.ready_first_output_offset (out_at 0) len)
      >> emit (copy_out s.ready_second_output_offset (out_at second) len)

  unfoldable pub copy_chunk_pair : Vector → M (Unit {0})
  copy_chunk_pair s =
      if not s.ready_output_is_pair
      then emit (copy_out s.ready_first_output_offset (out_at 0) (2 * kkt_elems))
      else if stride_fits (til.t * (row_elems / elems_per_data_block)) (2 * full_head_blocks)
      then two_heads s (2 * full_head_blocks)
      else head_by_head s (2 * kkt_elems) (2 * kkt_elems)

  unfoldable pub copy_pair : Vector → M (Unit {0})
  copy_pair s =
      if s.ready_active_elems == kkt_elems
        && stride_fits (til.t * (row_elems / elems_per_data_block)) full_head_blocks
      then two_heads s full_head_blocks
      else head_by_head s kkt_elems s.ready_active_elems

  -- The copies of the held-back batch, by its kind.
  unfoldable pub copy_ready_output : M (Unit {0})
  unfolding copy_chunk_pair copy_pair
  copy_ready_output s =
      if s.ready_output_is_chunk_pair
      then copy_chunk_pair s s
      else if s.ready_output_is_pair
      then copy_pair s s
      else emit (copy_out s.ready_first_output_offset (out_at 0) s.ready_active_elems) s

  unfoldable pub launch_output : M (Unit {0})
  unfolding copy_ready_output
  launch_output = do
    s ← get
    let slot = s.ready_output_slot_id
    emit deque_output
    copy_ready_output
    emit (keep_output slot)
    emit (set_output_event slot)
    modify λ r. record r {
      output_slot_busy_mask = bit_or r.output_slot_busy_mask (slot_bit slot);
      ready_output_valid = false;
      ready_output_is_pair = false;
      ready_output_is_chunk_pair = false;
    }

  unfoldable pub launch_ready_output : M (Unit {0})
  unfolding launch_output
  launch_ready_output s = if not s.ready_output_valid then skip s else launch_output s

  -- The first output element of a head's row.
  abbrev pub output_offset : ℕ → ℕ → ℕ
  output_offset head row = (head * til.t + row) * row_elems

  unfoldable pub queue_delayed_single_output :
      (slot head start row_start row_count : ℕ) → M (Unit {0})
  queue_delayed_single_output slot head start row_start row_count = modify λ s. record s {
    ready_output_slot_id = slot;
    ready_output_is_pair = false;
    ready_output_is_chunk_pair = false;
    ready_first_output_offset = output_offset head (start + row_start);
    ready_second_output_offset = 0;
    ready_active_elems = row_count * row_elems;
    ready_output_valid = true;
  }

  unfoldable pub queue_delayed_pair_output : (slot first_head start active_elems : ℕ) → M (Unit {0})
  queue_delayed_pair_output slot first_head start active_elems = modify λ s. record s {
    ready_output_slot_id = slot;
    ready_output_is_pair = true;
    ready_output_is_chunk_pair = false;
    ready_first_output_offset = output_offset first_head start;
    ready_second_output_offset = output_offset (first_head + 1) start;
    ready_active_elems = active_elems;
    ready_output_valid = true;
  }

  unfoldable pub queue_delayed_chunk_pair_output :
      (slot first_head first_chunk_start local_head_count : ℕ) → M (Unit {0})
  queue_delayed_chunk_pair_output slot first_head first_chunk_start local_head_count = modify λ s.
      record s {
        ready_output_slot_id = slot;
        ready_output_is_pair = local_head_count == gate_head_batch;
        ready_output_is_chunk_pair = true;
        ready_first_output_offset = output_offset first_head first_chunk_start;
        ready_second_output_offset =
            if local_head_count == gate_head_batch
            then output_offset (first_head + 1) first_chunk_start
            else 0;
        ready_active_elems = 2 * kkt_elems;
        ready_output_valid = true;
      }
