-- ===== src/Vector/Factor.antt =====
-- The Vector instructions that form the factor of a head or of two heads and multiply it by the
-- KKT tile.
use chunk_scaled_dot_kkt_asc.Prelude.{ℕ, ◌+◌, ◌*◌, ◌/◌, ◌==◌, if◌then◌else◌}
use chunk_scaled_dot_kkt_asc.Device.{TilingData, row_elems, kkt_elems, gate_head_batch}
use chunk_scaled_dot_kkt_asc.Vector.{
  kkt, gate, beta, out, neg_g_single, neg_g_pair, mask_single, mask_pair, scratch, Instr, muls_neg,
  brcb, compare_lt, exp, cast, mul, mul_rows, select, barrier, vector, alloc_output, enque_output,
  M, ◌>>◌, emit,
}
use chunk_scaled_dot_kkt_asc.Vector.Output.{
  launch_ready_output, queue_delayed_single_output, queue_delayed_pair_output,
}
use chunk_scaled_dot_kkt_asc.Vector.Load.{tensor}

abbrev pub issue : Instr → M (Unit {0})
issue i = emit (vector i)

-- `(rowCount + 7) / 8`
abbrev pub row_brcb_repeats : ℕ → ℕ
row_brcb_repeats row_count = (row_count + 7) / 8

abbrev pub scratch_head_stride : ℕ
scratch_head_stride = row_elems * 8

-- bytes of the mask of one head
abbrev pub mask_head_stride_bytes : ℕ
mask_head_stride_bytes = (kkt_elems + 7) / 8

module _ (til : TilingData) where
  -- The part of the pair's factor before the delayed launch.
  unfoldable pub pair_masks : (chunk_len row_count : ℕ) → M (Unit {0})
  pair_masks chunk_len row_count = do
    issue (muls_neg (tensor neg_g_pair 0) (tensor gate 0) (gate_head_batch * row_elems))
    if row_count == row_elems
        then issue (brcb (tensor scratch 0) (tensor gate 0) (gate_head_batch * row_elems / 8))
        else (issue (brcb (tensor scratch 0) (tensor gate 0) (row_brcb_repeats row_count))
            >> issue (
                brcb (tensor scratch scratch_head_stride) (tensor gate row_elems)
                  (row_brcb_repeats row_count)))
    issue barrier
    issue (compare_lt (tensor mask_pair 0) (tensor scratch 0) (tensor gate 0) row_count)
    issue (
        compare_lt (tensor mask_pair mask_head_stride_bytes) (tensor scratch scratch_head_stride)
          (tensor gate row_elems) row_count)
    issue (exp (tensor neg_g_pair 0) (tensor neg_g_pair 0) chunk_len)
    issue (exp (tensor neg_g_pair row_elems) (tensor neg_g_pair row_elems) chunk_len)

  -- The part after it; `out0` and `out1` are the first elements of the two heads' tiles.
  unfoldable pub pair_rows : (row_count out0 out1 : ℕ) → M (Unit {0})
  pair_rows row_count out0 out1 = do
    issue barrier
    issue (cast (tensor scratch 0) (tensor beta 0) (gate_head_batch * row_elems))
    issue (exp (tensor out out0) (tensor gate 0) row_count)
    issue (exp (tensor out out1) (tensor gate row_elems) row_count)
    issue barrier
    issue (mul (tensor out out0) (tensor out out0) (tensor scratch 0) row_count)
    issue (mul (tensor out out1) (tensor out out1) (tensor scratch row_elems) row_count)
    issue barrier
    issue (brcb (tensor scratch 0) (tensor out out0) (row_brcb_repeats row_count))
    issue (brcb (tensor scratch scratch_head_stride) (tensor out out1) (row_brcb_repeats row_count))
    issue barrier
    issue (mul_rows (tensor out out0) (tensor neg_g_pair 0) (tensor scratch 0) row_count)
    issue (
        mul_rows (tensor out out1) (tensor neg_g_pair row_elems)
          (tensor scratch scratch_head_stride) row_count)
    issue barrier
    issue (select (tensor out out0) (tensor mask_pair 0) (tensor out out0) (row_count * row_elems))
    issue (
        select (tensor out out1) (tensor mask_pair mask_head_stride_bytes) (tensor out out1)
          (row_count * row_elems))
    issue barrier

  unfoldable pub prepare_head_pair_factor : (chunk_len row_count out0 out1 : ℕ) → M (Unit {0})
  prepare_head_pair_factor chunk_len row_count out0 out1 = do
    pair_masks chunk_len row_count
    launch_ready_output til
    pair_rows row_count out0 out1

  unfoldable pub finalize_head_pair_with_kkt :
      (output_slot first_head start row_count : ℕ) → M (Unit {0})
  finalize_head_pair_with_kkt output_slot first_head start row_count = do
    issue (mul (tensor out 0) (tensor kkt 0) (tensor out 0) (row_count * row_elems))
    issue (mul (tensor out kkt_elems) (tensor kkt 0) (tensor out kkt_elems) (row_count * row_elems))
    emit enque_output
    queue_delayed_pair_output til output_slot first_head start (row_count * row_elems)

  unfoldable pub process_head_pair_tile :
      (output_slot first_head start chunk_len row_count : ℕ) → M (Unit {0})
  process_head_pair_tile output_slot first_head start chunk_len row_count = do
    emit alloc_output
    prepare_head_pair_factor chunk_len row_count 0 kkt_elems
    finalize_head_pair_with_kkt output_slot first_head start row_count

  unfoldable pub single_start : (row_start row_count : ℕ) → M (Unit {0})
  single_start row_start row_count = do
    issue (muls_neg (tensor neg_g_single 0) (tensor gate 0) row_elems)
    issue (brcb (tensor scratch 0) (tensor gate row_start) (row_brcb_repeats row_count))

  unfoldable pub single_rows : (chunk_len row_start row_count out0 : ℕ) → M (Unit {0})
  single_rows chunk_len row_start row_count out0 = do
    issue barrier
    issue (compare_lt (tensor mask_single 0) (tensor scratch 0) (tensor gate 0) row_count)
    issue (exp (tensor neg_g_single 0) (tensor neg_g_single 0) chunk_len)
    issue barrier
    issue (exp (tensor out out0) (tensor gate row_start) row_count)
    issue (cast (tensor scratch 0) (tensor beta row_start) row_count)
    issue barrier
    issue (mul (tensor out out0) (tensor out out0) (tensor scratch 0) row_count)
    issue barrier
    issue (brcb (tensor scratch 0) (tensor out out0) (row_brcb_repeats row_count))
    issue barrier
    issue (mul_rows (tensor out out0) (tensor neg_g_single 0) (tensor scratch 0) row_count)
    issue barrier
    issue
        (select (tensor out out0) (tensor mask_single 0) (tensor out out0) (row_count * row_elems))
    issue barrier

  unfoldable pub prepare_head_factor : (chunk_len row_start row_count out0 : ℕ) → M (Unit {0})
  prepare_head_factor chunk_len row_start row_count out0 = do
    single_start row_start row_count
    launch_ready_output til
    single_rows chunk_len row_start row_count out0

  unfoldable pub finalize_head_with_kkt :
      (output_slot head start row_start row_count : ℕ) → M (Unit {0})
  finalize_head_with_kkt output_slot head start row_start row_count = do
    issue (mul (tensor out 0) (tensor kkt 0) (tensor out 0) (row_count * row_elems))
    emit enque_output
    queue_delayed_single_output til output_slot head start row_start row_count

  unfoldable pub process_head_tile :
      (output_slot head start chunk_len row_start row_count : ℕ) → M (Unit {0})
  process_head_tile output_slot head start chunk_len row_start row_count = do
    emit alloc_output
    prepare_head_factor chunk_len row_start row_count 0
    finalize_head_with_kkt output_slot head start row_start row_count
