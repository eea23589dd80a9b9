-- ===== src/Vector/Load.antt =====
-- The transfers of the Vector stage into its local buffers, and the chunk tests.
use chunk_scaled_dot_kkt_asc.Prelude.{
  ℕ, zero, suc, ◌+◌, ◌-◌, ◌*◌, ◌/◌, ◌%◌, ◌^◌, Bool, true, false, not, ◌&&◌, ltb, leb, ◌==◌,
  if◌then◌else◌,
}
use chunk_scaled_dot_kkt_asc.Prelude.Int.{is_neg32, is_pos32, sub32, leb32}
use chunk_scaled_dot_kkt_asc.Device.{bt, row_elems, slot_offset, free_flag_for_slot}
use chunk_scaled_dot_kkt_asc.Vector.{
  Buffer, kkt, gate, beta, Tensor, beta_gm, g_gm, kkt_gm, duplicate_zero, barrier, PadCopy, v_mte2,
  mte2_v, vector, copy_in, copy_in_pad, set_event, wait_event, cross_set, alloc_gate, enque_gate, M,
  ◌>>=◌, ◌>>◌, ret, emit, skip,
}

abbrev pub tensor : Buffer → ℕ → Tensor
tensor b n = record { buffer = b; at = n }

-- The offsets of the chunks are int32_t bit patterns. `start >= 0 && end <= t && chunkLen > 0 &&
-- chunkLen <= BT`, for `chunkLen = end - start`.
unfoldable pub is_valid_chunk : (t start end : ℕ) → Bool
is_valid_chunk t start end =
    not (is_neg32 start) && leb32 end t && is_pos32 (sub32 end start) && leb (sub32 end start) bt

unfoldable pub can_fuse_adjacent_full_chunks : (t : ℕ) (offsets : ℕ → ℕ) (first_chunk : ℕ) → Bool
can_fuse_adjacent_full_chunks t offsets first_chunk =
    let first_start = offsets first_chunk in
    let middle = offsets (first_chunk + 1) in
    let second_end = offsets (first_chunk + 2) in
    not (is_neg32 first_start)
    && leb32 second_end t
    && sub32 middle first_start == row_elems
    && sub32 second_end middle == row_elems

unfoldable pub complete_kkt_load_and_release_slot : (slot : ℕ) (will_reuse : Bool) → M (Unit {0})
complete_kkt_load_and_release_slot slot will_reuse =
    emit (wait_event mte2_v)
    >> (if will_reuse then emit (cross_set (free_flag_for_slot slot)) else skip)

-- `((n + b - 1) / b) * b` for the 8 FP32 or 16 BF16 elements of a 32-byte block
abbrev pub aligned : ℕ → ℕ → ℕ
aligned n b = (n + b - 1) / b * b

-- The rows of a tail chunk, padded to whole blocks.
abbrev pub tail_rows : (chunk_len row_count : ℕ) → PadCopy
tail_rows chunk_len row_count = record {
  block_count = row_count;
  block_len = chunk_len * 4;
  src_stride = (row_elems - chunk_len) * 4;
  dst_stride = (row_elems - aligned chunk_len 8) / 8;
  is_pad = true;
  right_padding = aligned chunk_len 8 - chunk_len;
}

unfoldable pub begin_load_kkt_slot : (group slot chunk_len row_start row_count : ℕ) → M (Unit {0})
begin_load_kkt_slot group slot chunk_len row_start row_count = do
  if chunk_len == row_elems
      then skip
      else emit (vector (duplicate_zero (tensor kkt 0) (row_count * row_elems)))
  emit (set_event v_mte2)
  emit (wait_event v_mte2)
  let source = slot_offset group slot + row_start * row_elems
  if chunk_len == row_elems
      then emit (copy_in (tensor kkt 0) kkt_gm source (row_count * row_elems))
      else emit (copy_in_pad (tensor kkt 0) kkt_gm source (tail_rows chunk_len row_count))
  emit (set_event mte2_v)

-- `static_cast<uint32_t>((t - len) * bytes)`
abbrev pub row_gap : (t len bytes : ℕ) → ℕ
row_gap t len bytes = (t + 2 ^ 32 - len) * bytes % 2 ^ 32

-- The heads of a batch, `len` elements of `bytes` bytes each, to rows of 64 elements. A block
-- holds `per_block` elements.
abbrev pub head_rows : (t heads len bytes per_block : ℕ) (is_pad : Bool) → PadCopy
head_rows t heads len bytes per_block is_pad = record {
  block_count = heads;
  block_len = len * bytes;
  src_stride = row_gap t len bytes;
  dst_stride = (row_elems - aligned len per_block) / per_block;
  is_pad = is_pad;
  right_padding = aligned len per_block - len;
}

abbrev pub copy_gate_rows : (offset : ℕ) (g_rows beta_rows : PadCopy) → M (Unit {0})
copy_gate_rows offset g_rows beta_rows =
    emit (copy_in_pad (tensor gate 0) g_gm offset g_rows)
    >> emit (copy_in_pad (tensor beta 0) beta_gm offset beta_rows)

unfoldable pub prefetch_gate_and_beta_batch :
    (t first_head start chunk_len batch_heads : ℕ) → M (Unit {0})
prefetch_gate_and_beta_batch t first_head start chunk_len batch_heads = do
  emit alloc_gate
  let offset = first_head * t + start
  if chunk_len == row_elems
      then (if batch_heads == 1
          then (emit (copy_in (tensor gate 0) g_gm offset row_elems)
              >> emit (copy_in (tensor beta 0) beta_gm offset row_elems))
          else copy_gate_rows offset (head_rows t batch_heads row_elems 4 8 false)
              (head_rows t batch_heads row_elems 2 16 false))
      else copy_gate_rows offset (head_rows t batch_heads chunk_len 4 8 true)
          (head_rows t batch_heads chunk_len 2 16 true)
  emit enque_gate

-- The zeroed suffix of one row, and whether there is one.
abbrev pub zero_suffix : (b : Buffer) (row aligned_elems : ℕ) (issued : Bool) → M Bool
zero_suffix b row aligned_elems issued =
    if ltb aligned_elems row_elems
    then (emit
          (vector (duplicate_zero (tensor b (row + aligned_elems)) (row_elems - aligned_elems)))
        >> ret true)
    else ret issued

unfoldable pub zero_heads : (heads head chunk_len : ℕ) (issued : Bool) → M Bool
zero_heads zero head chunk_len issued = ret issued
zero_heads (suc heads) head chunk_len issued = do
  issued_g ← zero_suffix gate (head * row_elems) (aligned chunk_len 8) issued
  issued_beta ← zero_suffix beta (head * row_elems) (aligned chunk_len 16) issued_g
  zero_heads heads (head + 1) chunk_len issued_beta

unfoldable pub zero_tail_gate_and_beta_batch_suffix : (chunk_len batch_heads : ℕ) → M (Unit {0})
unfolding zero_heads
zero_tail_gate_and_beta_batch_suffix chunk_len batch_heads = do
  issued ← zero_heads batch_heads 0 chunk_len false
  if issued then emit (vector barrier) else skip
