-- ===== src/Vector/Buffers.antt =====
-- The local buffers of the Vector stage: the sizes that `Init` gives them, and which elements of
-- them a command touches.
pub mod Blocks
pub mod Tasks
pub mod Process
use chunk_scaled_dot_kkt_asc.Prelude.{
  ℕ, ◌+◌, ◌-◌, ◌*◌, ◌/◌, ◌≤◌, ◌≡◌, Bool, true, false, ◌&&◌, leb, ◌==◌, if◌then◌else◌, List, [], ◌∷◌,
  arith,
}
use chunk_scaled_dot_kkt_asc.Device.{
  TilingData, row_elems, kkt_elems, gate_head_batch, broadcast_scratch_elems,
}
use chunk_scaled_dot_kkt_asc.Vector.{
  Buffer, kkt, gate, beta, out, neg_g_single, neg_g_pair, mask_single, mask_pair, scratch, Tensor,
  Instr, muls_neg, brcb, compare_lt, exp, cast, mul, mul_rows, select, duplicate_zero, barrier,
  Command, vector, copy_in, copy_in_pad, copy_out, copy_out_strided,
}

-- `(n + 31) & ~31`
abbrev pub aligned32 : ℕ → ℕ
aligned32 n = (n + 31) / 32 * 32

-- The bytes of one tensor of each buffer, for the ratio H / Hg.
unfoldable pub buffer_bytes : (num_repeat : ℕ) → Buffer → ℕ
buffer_bytes num_repeat kkt = kkt_elems * 4
buffer_bytes num_repeat out =
    (if num_repeat == 3 then 2 * gate_head_batch * kkt_elems else gate_head_batch * kkt_elems) * 4
buffer_bytes num_repeat gate = gate_head_batch * row_elems * 4
buffer_bytes num_repeat beta = gate_head_batch * row_elems * 2
buffer_bytes num_repeat neg_g_single = row_elems * 4
buffer_bytes num_repeat neg_g_pair = gate_head_batch * row_elems * 4
buffer_bytes num_repeat mask_single = aligned32 ((kkt_elems + 7) / 8)
buffer_bytes num_repeat mask_pair = aligned32 ((gate_head_batch * kkt_elems + 7) / 8)
buffer_bytes num_repeat scratch = broadcast_scratch_elems * 4

-- What `Init` takes of the unified buffer: the three queues hold two tensors each.
unfoldable pub init_bytes : ℕ → ℕ
unfolding buffer_bytes
init_bytes num_repeat =
    buffer_bytes num_repeat kkt
    + 2 * buffer_bytes num_repeat out
    + 2 * buffer_bytes num_repeat gate
    + 2 * buffer_bytes num_repeat beta
    + buffer_bytes num_repeat neg_g_single
    + buffer_bytes num_repeat neg_g_pair
    + buffer_bytes num_repeat mask_single
    + buffer_bytes num_repeat mask_pair
    + buffer_bytes num_repeat scratch

-- The bytes of an element; a mask is addressed by its bytes.
abbrev pub element_bytes : Buffer → ℕ
element_bytes beta = 2
element_bytes mask_single = 1
element_bytes mask_pair = 1
element_bytes _ = 4

module _ (num_repeat : ℕ) where
  -- `n` elements from the tensor's first one lie in its buffer.
  unfoldable pub fits : Tensor → ℕ → Bool
  unfolding buffer_bytes
  fits t n = leb ((t.at + n) * element_bytes t.buffer) (buffer_bytes num_repeat t.buffer)

  -- The operands of an instruction: a row of a mask is 8 bytes, a broadcast row 8 elements.
  unfoldable pub instr_fits : Instr → Bool
  unfolding fits
  instr_fits (muls_neg dst src count) = fits dst count && fits src count
  instr_fits (brcb dst src repeats) = fits dst (repeats * 64) && fits src (repeats * 8)
  instr_fits (compare_lt dst src0 src1 rows) =
      fits dst (rows * 8) && fits src0 (rows * 8) && fits src1 row_elems
  instr_fits (exp dst src count) = fits dst count && fits src count
  instr_fits (cast dst src count) = fits dst count && fits src count
  instr_fits (mul dst src0 src1 count) = fits dst count && fits src0 count && fits src1 count
  instr_fits (mul_rows dst src0 src1 rows) =
      fits dst (rows * row_elems) && fits src0 row_elems && fits src1 (rows * 8)
  instr_fits (select dst mask src count) =
      fits dst count && fits mask ((count + 7) / 8) && fits src count
  instr_fits (duplicate_zero dst count) = fits dst count
  instr_fits barrier = true

  -- A padded copy fills rows of 64 elements.
  unfoldable pub command_fits : Command → Bool
  unfolding instr_fits fits
  command_fits (vector i) = instr_fits i
  command_fits (copy_in dst _ _ count) = fits dst count
  command_fits (copy_in_pad dst _ _ rows) = fits dst (rows.block_count * row_elems)
  command_fits (copy_out _ src count) = fits src count
  command_fits (copy_out_strided _ src p) = fits src (p.block_count * p.block_len * 8)
  command_fits _ = true

  unfoldable pub all_fit : List Command → Bool
  unfolding command_fits
  all_fit [] = true
  all_fit (c ∷ cs) = command_fits c && all_fit cs

-- The unified buffer of 192 KiB holds all that `Init` takes, for every ratio of heads.
pub init_bytes_bound : (num_repeat : ℕ) → init_bytes num_repeat ≤ 192 * 1024
unfolding init_bytes buffer_bytes
init_bytes_bound num_repeat = ground arith
