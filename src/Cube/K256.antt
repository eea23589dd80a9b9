-- ===== src/Cube/K256.antt =====
-- The class PackedGramMmadCubeStageK256.
use chunk_scaled_dot_kkt_asc.Prelude.{
  ℕ, ◌+◌, ◌*◌, ◌/◌, ◌%◌, ◌^◌, Bool, true, false, ltb, if◌then◌else◌, List, [], ◌∷◌, ◌++◌,
}
use chunk_scaled_dot_kkt_asc.Prelude.Int.{sub32}
use chunk_scaled_dot_kkt_asc.Device.{
  TilingData, is_late_round, slot_of, slot_offset, ready_flag_for_slot, free_flag_for_slot,
}
use chunk_scaled_dot_kkt_asc.Schedule.{task_count, task_id}
use chunk_scaled_dot_kkt_asc.Vector.Load.{is_valid_chunk}
use chunk_scaled_dot_kkt_asc.Cube.{
  mte1_mte2, mte2_mte1, fix_m, m_fix, mte1_m, m_mte1_0, Nd2Nz, Command, set_flag, wait_flag,
  clear_shared_l1, copy_k, load_l0a, load_l0b, mmad, fixpipe, cross_wait, cross_set, barrier_all,
  for_rounds,
}

abbrev pub k_dim : ℕ
k_dim = 256

abbrev pub m : ℕ
m = 64

abbrev pub n : ℕ
n = 64

abbrev pub k_step : ℕ
k_step = 64

abbrev pub fractal_k : ℕ
fractal_k = 16

-- Sizes of the tiles in bytes, and the capacities of their buffers.
abbrev pub shared_l1_bytes : ℕ
shared_l1_bytes = m * k_dim * 2

abbrev pub l0_stage_bytes : ℕ
l0_stage_bytes = 16 * 1024

unfoldable pub init_persistent_events : List Command
init_persistent_events = set_flag mte1_mte2 ∷ set_flag fix_m ∷ []

unfoldable pub drain_persistent_events : List Command
drain_persistent_events = wait_flag mte1_mte2 ∷ wait_flag fix_m ∷ barrier_all ∷ []

abbrev pub copy_params : (hg chunk_len : ℕ) → Nd2Nz
copy_params hg chunk_len = record {
  n_value = chunk_len % 2 ^ 16;
  d_value = k_dim % 2 ^ 16;
  src_d_value = hg * k_dim % 2 ^ 16;
  dst_nz_c0_stride = m % 2 ^ 16;
}

unfoldable pub copy_packed_k_to_shared_l1 : (hg offset chunk_len : ℕ) → List Command
copy_packed_k_to_shared_l1 hg offset chunk_len =
    (wait_flag mte1_mte2 ∷ [])
    ++ (if ltb chunk_len m then clear_shared_l1 (shared_l1_bytes / 32) ∷ [] else [])
    ++ (copy_k offset (copy_params hg chunk_len) ∷ set_flag mte2_mte1 ∷ [])

unfoldable pub load_k_part_to_l0a : (stage k_part : ℕ) → List Command
load_k_part_to_l0a stage k_part = load_l0a stage (k_part * k_step * m) ∷ []

abbrev pub block_offset : ℕ
block_offset = n * fractal_k

unfoldable pub load_k_part_to_l0b : (stage k_part : ℕ) → List Command
load_k_part_to_l0b stage k_part =
    load_l0b stage (0 * block_offset) (k_part * k_step * n + 0 * block_offset)
    ∷ load_l0b stage (1 * block_offset) (k_part * k_step * n + 1 * block_offset)
    ∷ load_l0b stage (2 * block_offset) (k_part * k_step * n + 2 * block_offset)
    ∷ load_l0b stage (3 * block_offset) (k_part * k_step * n + 3 * block_offset)
    ∷ []

-- Each K part has a stage of its own.
unfoldable pub compute_part : (k_part : ℕ) (initialize_c : Bool) → List Command
unfolding load_k_part_to_l0a load_k_part_to_l0b
compute_part k_part initialize_c =
    load_k_part_to_l0a k_part k_part
    ++ load_k_part_to_l0b k_part k_part
    ++ (set_flag mte1_m ∷ wait_flag mte1_m ∷ mmad k_part k_part initialize_c ∷ [])

unfoldable pub compute_gram : List Command
unfolding compute_part
compute_gram =
    (wait_flag fix_m ∷ wait_flag mte2_mte1 ∷ [])
    ++ compute_part 0 true
    ++ compute_part 1 false
    ++ compute_part 2 false
    ++ compute_part 3 false
    ++ (set_flag mte1_mte2
        ∷ set_flag m_mte1_0
        ∷ wait_flag m_mte1_0
        ∷ set_flag m_fix
        ∷ wait_flag m_fix
        ∷ [])

unfoldable pub commit_workspace : (group slot : ℕ) → List Command
commit_workspace group slot = fixpipe (slot_offset group slot) ∷ []

-- The body of the loop for a task with a given chunk.
unfoldable pub process_chunk :
    (hg kv_head start chunk_len group round : ℕ) (valid : Bool) → List Command
unfolding copy_packed_k_to_shared_l1 compute_gram commit_workspace
process_chunk hg kv_head start chunk_len group round valid =
    let slot = slot_of round in
    (if valid
      then copy_packed_k_to_shared_l1 hg ((start * hg + kv_head) * k_dim) chunk_len ++ compute_gram
      else [])
    ++ (if is_late_round round then cross_wait (free_flag_for_slot slot) ∷ [] else [])
    ++ (if valid then commit_workspace group slot else [])
    ++ (cross_set (ready_flag_for_slot slot) ∷ [])
    ++ (if valid then set_flag fix_m ∷ [] else [])

module _ (til : TilingData) (offsets : ℕ → ℕ) (group : ℕ) where
  unfoldable pub process_round : ℕ → List Command
  unfolding process_chunk
  process_round round =
      let task = task_id til group round in
      let start = offsets (task / til.hg) in
      let end = offsets (task / til.hg + 1) in
      process_chunk til.hg (task % til.hg) start (sub32 end start) group round
        (is_valid_chunk til.t start end)

  unfoldable pub process : List Command
  unfolding init_persistent_events drain_persistent_events process_round
  process =
      init_persistent_events
      ++ for_rounds (task_count til group) 0 process_round
      ++ drain_persistent_events
