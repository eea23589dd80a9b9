-- ===== src/Vector/Values/Expected.antt =====
-- The output that the schedule asks of a lane: a fold over the turns of its group.
use chunk_scaled_dot_kkt_asc.Prelude.{
  ℕ, suc, ◌+◌, ◌-◌, ◌*◌, ◌/◌, ◌%◌, ◌^◌, ◌≤◌, ◌<◌, ◌≡◌, ◌∙◌, Bool, true, not, List, [], ◌∷◌, arith,
  refl, if◌then◌else◌, ◌==◌, ◌&&◌,
}
use chunk_scaled_dot_kkt_asc.Prelude.Int.{sub32}
use chunk_scaled_dot_kkt_asc.Prelude.Division.{digits_unique}
use chunk_scaled_dot_kkt_asc.Device.{TilingData, bt, slot_of}
use chunk_scaled_dot_kkt_asc.Vector.Load.{is_valid_chunk, can_fuse_adjacent_full_chunks}
use chunk_scaled_dot_kkt_asc.Vector.Task.{share_of}
use chunk_scaled_dot_kkt_asc.Vector.Turns.{Turn}
use chunk_scaled_dot_kkt_asc.Vector.Values.{Arithmetic}
use chunk_scaled_dot_kkt_asc.Vector.Values.Lane.{Inputs}
use chunk_scaled_dot_kkt_asc.Vector.Values.Rows.{in_rows}
use chunk_scaled_dot_kkt_asc.Vector.Values.Tile.{Chunk, tile_value}
use chunk_scaled_dot_kkt_asc.Vector.Values.PipelineTask.{chunk_of, share_of_task, is_valid_task}
use chunk_scaled_dot_kkt_asc.Vector.Values.FusedFactor.{heads_of}

module _ (a : Arithmetic) (inputs : Inputs a) (til : TilingData) (offsets : ℕ → ℕ)
    (group lane : ℕ) where
  open a use {Float}

  -- The output element of head `h`, row `row` and column `j` after a task: the lane's rows of its
  -- heads have the values of the chunk's tile.
  unfoldable pub task_value : (k round task h row j : ℕ) → Float → Float
  task_value k round task h row j old =
      let c = chunk_of til offsets group round k task in
      let share = share_of_task til offsets lane task in
      if in_rows (task % til.hg * til.num_repeat + share.first_repeat)
          (share.repeat_end - share.first_repeat) h
        && in_rows (c.start + share.row_start) share.row_count row
      then tile_value a inputs til c h (row - c.start) j
      else old

  -- After all turns, the first of which is the `k`-th of the lane, counted from 0.
  unfoldable pub expected : (k : ℕ) → List Turn → (h row j : ℕ) → Float → Float
  expected k [] h row j old = old
  expected k (t ∷ ts) h row j old =
      expected (suc k) ts h row j (task_value k t.round t.task h row j old)

  -- Two adjacent full chunks inside the sequence.
  pub fused-chunks :
      (chunk : ℕ)
      → ((i : ℕ) → offsets i < 2 ^ 31)
      → can_fuse_adjacent_full_chunks til.t offsets chunk ≡ true
      → (offsets (chunk + 1) ≡ offsets chunk + 64)
        × (offsets (chunk + 2) ≡ offsets chunk + 128)
        × (offsets chunk + 2 * bt ≤ til.t)
  unfolding can_fuse_adjacent_full_chunks
  fused-chunks chunk small fuse =
      let a0 = small chunk in
      let a1 = small (chunk + 1) in let a2 = small (chunk + 2) in ground arith

  full-valid :
      (start end : ℕ)
      → end ≡ start + 64
      → end ≤ til.t
      → end < 2 ^ 31
      → (is_valid_chunk til.t start end ≡ true) × (sub32 end start ≡ 64)
  unfolding is_valid_chunk
  full-valid start end e inside small = (ground arith, ground arith)

  -- A task's value by the parts that it is made of.
  value_of :
      (num_repeat kv_head start chunk_len : ℕ) (valid : Bool) (k round h row j : ℕ) (old : Float)
      → Float
  value_of num_repeat kv_head start chunk_len valid k round h row j old =
      let share = share_of num_repeat lane chunk_len valid in
      let c : Chunk = record {
        round = suc k;
        group = group;
        slot = slot_of round;
        start = start;
        chunk_len = chunk_len;
      } in
      if in_rows (kv_head * num_repeat + share.first_repeat) (share.repeat_end - share.first_repeat)
          h
        && in_rows (start + share.row_start) share.row_count row
      then tile_value a inputs til c h (row - start) j
      else old

  task_value-parts :
      (k round task h row j : ℕ) (old : Float)
      → task_value k round task h row j old
        ≡ value_of til.num_repeat
            (task % til.hg)
            (offsets (task / til.hg))
            (sub32 (offsets (task / til.hg + 1)) (offsets (task / til.hg)))
            (is_valid_task til offsets task)
            k
            round
            h
            row
            j
            old
  unfolding task_value value_of
  task_value-parts k round task h row j old = refl

  -- What a lane writes of a full chunk of three heads.
  unfoldable pub full_value : (kv_head start : ℕ) (k round h row j : ℕ) → Float → Float
  full_value kv_head start k round h row j old =
      if in_rows (kv_head * 3 + (if lane == 0 then 0 else 1)) (heads_of (not (lane == 0))) h
        && in_rows start 64 row
      then tile_value a inputs til
          (record {
            round = suc k;
            group = group;
            slot = slot_of round;
            start = start;
            chunk_len = 64;
          })
          h (row - start) j
      else old

  full-value_of :
      (kv_head start k round h row j : ℕ) (old : Float)
      → lane < 2
      → value_of 3 kv_head start 64 true k round h row j old
        ≡ full_value kv_head start k round h row j old
  unfolding value_of full_value share_of
  full-value_of kv_head start k round h row j old lt = ground arith

  pub full_task-value :
      (chunk kv_head k round h row j : ℕ) (old : Float)
      → lane < 2
      → til.num_repeat ≡ 3
      → kv_head < til.hg
      → ((i : ℕ) → offsets i < 2 ^ 31)
      → offsets (chunk + 1) ≡ offsets chunk + 64
      → offsets (chunk + 1) ≤ til.t
      → task_value k round (chunk * til.hg + kv_head) h row j old
        ≡ full_value kv_head (offsets chunk) k round h row j old
  full_task-value chunk kv_head k round h row j old lt three below small next inside =
      let (r, q) = digits_unique til.hg kv_head chunk below in
      let (valid, len) =
        full-valid (offsets chunk) (offsets (chunk + 1)) next inside (small (chunk + 1)) in
      task_value-parts k round (chunk * til.hg + kv_head) h row j old
      ∙ (λ i.
          value_of (three i) (r i) (offsets (q i)) (sub32 (offsets (q i + 1)) (offsets (q i)))
            (is_valid_chunk til.t (offsets (q i)) (offsets (q i + 1))) k round h row j old)
      ∙ (λ i. value_of 3 kv_head (offsets chunk) (len i) (valid i) k round h row j old)
      ∙ full-value_of kv_head (offsets chunk) k round h row j old lt
