-- ===== src/Vector/Copies.antt =====
-- Where the copies of a held-back batch land in the output tensor.
use chunk_scaled_dot_kkt_asc.Prelude.{
  ℕ, zero, suc, ◌+◌, ◌-◌, ◌*◌, ◌≤◌, ◌≡◌, ◌&&◌, ltb, leb, ◌==◌, if◌then◌else◌, Option, none, some,
  List, [], ◌∷◌, arith,
}
use chunk_scaled_dot_kkt_asc.Device.{TilingData, row_elems, kkt_elems, bt, gate_head_batch}
use chunk_scaled_dot_kkt_asc.Vector.{Command, copy_out, copy_out_strided, StrideCopy, Vector}
use chunk_scaled_dot_kkt_asc.Vector.Output.{
  output_offset, launch_ready_output, launch_output, copy_ready_output, copy_pair, copy_chunk_pair,
  queue_delayed_pair_output, queue_delayed_chunk_pair_output,
}

-- The element of the local tensor that lands at output element `i` from a run of `n` elements.
abbrev pub run_lands : (offset from n i : ℕ) → Option ℕ → Option ℕ
run_lands offset from n i rest =
    if leb offset i && ltb i (offset + n) then some (from + (i - offset)) else rest

-- The blocks of a strided copy, of 8 FP32 elements a data block.
abbrev pub blocks_land : (blocks : ℕ) → StrideCopy → (offset from i : ℕ) → Option ℕ → Option ℕ
blocks_land zero p offset from i rest = rest
blocks_land (suc n) p offset from i rest = run_lands offset from (p.block_len * 8) i (
    blocks_land n p (offset + (p.block_len + p.dst_stride) * 8)
      (from + (p.block_len + p.src_stride) * 8) i rest)

-- What output element `i` holds after the commands, newest first, if one of them writes it.
abbrev pub lands : List Command → ℕ → Option ℕ
lands [] i = none
lands (copy_out offset src n ∷ earlier) i = run_lands offset src.at n i (lands earlier i)
lands (copy_out_strided offset src p ∷ earlier) i =
    blocks_land p.block_count p offset src.at i (lands earlier i)
lands (_ ∷ earlier) i = lands earlier i

module _ (til : TilingData) where
  -- The commands of a launch.
  abbrev pub launched : Vector → List Command
  launched s = (launch_ready_output til (record s { trace = [] })).1.trace

  -- `rows` rows of the tile that begins at element `from`, to the rows of a head from `row` on.
  abbrev pub tile_lands : (head row rows from i : ℕ) → Option ℕ → Option ℕ
  tile_lands head row rows from i rest =
      run_lands (output_offset til head row) from (rows * row_elems) i rest

-- A launched pair batch of rows inside the sequence puts the rows of its first tile into the first
-- head and those of its second tile into the next head, in order, and writes nothing else: the
-- single strided copy of a full pair and the two copies of the fallback do the same.
pub pair-lands :
    (til : TilingData) (s : Vector) (slot first_head start rows i : ℕ)
    → rows ≤ bt
    → start + rows ≤ til.t
    → lands
        (launched til (queue_delayed_pair_output til slot first_head start (rows * row_elems) s).1)
        i
      ≡ tile_lands til first_head start rows 0 i
          (tile_lands til (first_head + 1) start rows kkt_elems i none)
unfolding queue_delayed_pair_output launch_ready_output launch_output copy_ready_output copy_pair
pair-lands til s slot first_head start rows i small inside = ground arith

-- A launched pair of adjacent full chunks puts the 128 rows of each local head, which lie one after
-- the other in the local tensor, into that head's rows, and writes nothing else: for one local head
-- or two, by a strided copy or by one copy a head.
pub chunk_pair-lands :
    (til : TilingData) (s : Vector) (slot first_head start heads i : ℕ)
    → start + 2 * bt ≤ til.t
    → lands (launched til (queue_delayed_chunk_pair_output til slot first_head start heads s).1) i
      ≡ tile_lands til first_head start (2 * bt) 0 i (
          if heads == gate_head_batch
          then tile_lands til (first_head + 1) start (2 * bt) (2 * kkt_elems) i none
          else none)
unfolding queue_delayed_chunk_pair_output launch_ready_output launch_output copy_ready_output
    copy_chunk_pair
chunk_pair-lands til s slot first_head start heads i inside = ground arith
