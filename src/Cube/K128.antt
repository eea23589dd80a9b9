-- ===== src/Cube/K128.antt =====
-- The class PackedGramMmadCubeStageK128.
use chunk_scaled_dot_kkt_asc.Prelude.{
  ℕ, ◌+◌, ◌*◌, ◌/◌, ◌%◌, ◌^◌, Bool, ltb, ◌==◌, if◌then◌else◌, List, [], ◌∷◌, ◌++◌,
}
use chunk_scaled_dot_kkt_asc.Prelude.Int.{sub32}
use chunk_scaled_dot_kkt_asc.Device.{
  TilingData, is_late_round, slot_of, slot_offset, ready_flag_for_slot, free_flag_for_slot,
}
use chunk_scaled_dot_kkt_asc.Schedule.{task_count, task_id}
use chunk_scaled_dot_kkt_asc.Vector.Load.{is_valid_chunk}
use chunk_scaled_dot_kkt_asc.Cube.{
  mte1_mte2, mte2_mte1, fix_m, m_fix, mte1_m, m_mte1_0, m_mte1_1, m_mte1_2, m_mte1_3, Event, Nd2Nz,
  Command, set_flag, wait_flag, clear_shared_l1, copy_k, load_l0a, load_l0b, mmad, fixpipe,
  cross_wait, cross_set, barrier_all, for_rounds,
}

abbrev pub k_dim : ℕ
k_dim = 128

abbrev pub m : ℕ
m = 64

abbrev pub n : ℕ
n = 64

abbrev pub k_step : ℕ
k_step = 64

abbrev pub k_parts : ℕ
k_parts = k_dim / k_step

abbrev pub fractal_k : ℕ
fractal_k = 16

-- Sizes of the tiles in bytes, and the capacities of their buffers.
abbrev pub shared_l1_bytes : ℕ
shared_l1_bytes = m * k_dim * 2

abbrev pub l0_stage_bytes : ℕ
l0_stage_bytes = 64 * 1024 / 2

unfoldable pub init_persistent_events : List Command
init_persistent_events = set_flag mte1_mte2 ∷ set_flag fix_m ∷ []

unfoldable pub drain_persistent_events : List Command
drain_persistent_events = wait_flag mte1_mte2 ∷ wait_flag fix_m ∷ barrier_all ∷ []

abbrev pub copy_params : (hg chunk_len : ℕ) → Nd2Nz
copy_params hg chunk_len = record {
  n_value = chunk_len % 2 ^ 16;
  d_value = k_dim % 2 ^ 16;
  src_d_value = hg * k_dim % 2 ^ 16;
  dst_nz_c0_stride = m % 2 ^ 16;
}

unfoldable pub copy_packed_k_to_shared_l1 : (hg offset chunk_len : ℕ) → List Command
copy_packed_k_to_shared_l1 hg offset chunk_len =
    (wait_flag mte1_mte2 ∷ [])
    ++ (if ltb chunk_len m then clear_shared_l1 (shared_l1_bytes / 32) ∷ [] else [])
    ++ (copy_k offset (copy_params hg chunk_len) ∷ set_flag mte2_mte1 ∷ [])

unfoldable pub load_k_part_to_l0a : (stage k_part : ℕ) → List Command
load_k_part_to_l0a stage k_part = load_l0a stage (k_part * k_step * m) ∷ []

abbrev pub block_offset : ℕ
block_offset = n * fractal_k

unfoldable pub load_k_part_to_l0b : (stage k_part : ℕ) → List Command
load_k_part_to_l0b stage k_part =
    load_l0b stage (0 * block_offset) (k_part * k_step * n + 0 * block_offset)
    ∷ load_l0b stage (1 * block_offset) (k_part * k_step * n + 1 * block_offset)
    ∷ load_l0b stage (2 * block_offset) (k_part * k_step * n + 2 * block_offset)
    ∷ load_l0b stage (3 * block_offset) (k_part * k_step * n + 3 * block_offset)
    ∷ []

unfoldable pub init_l0_events : List Command
init_l0_events = set_flag m_mte1_0 ∷ set_flag m_mte1_1 ∷ set_flag m_mte1_2 ∷ set_flag m_mte1_3 ∷ []

unfoldable pub drain_l0_events : List Command
drain_l0_events =
    wait_flag m_mte1_0 ∷ wait_flag m_mte1_1 ∷ wait_flag m_mte1_2 ∷ wait_flag m_mte1_3 ∷ []

-- L0_A_EVENT0, L0_A_EVENT1, L0_B_EVENT0 and L0_B_EVENT1 of a stage.
abbrev pub a_l0_event : ℕ → Event
a_l0_event stage = if stage == 0 then m_mte1_0 else m_mte1_1

abbrev pub b_l0_event : ℕ → Event
b_l0_event stage = if stage == 0 then m_mte1_2 else m_mte1_3

-- The stage alternates with the K part, `K_PART & 1`.
unfoldable pub compute_one_k_part : (k_part : ℕ) → List Command
unfolding load_k_part_to_l0a load_k_part_to_l0b
compute_one_k_part k_part =
    let stage = k_part % 2 in
    (wait_flag (a_l0_event stage) ∷ [])
    ++ (if k_part == 0 then wait_flag mte2_mte1 ∷ [] else [])
    ++ load_k_part_to_l0a stage k_part
    ++ (wait_flag (b_l0_event stage) ∷ [])
    ++ load_k_part_to_l0b stage k_part
    ++ (if k_part + 1 == k_parts then set_flag mte1_mte2 ∷ [] else [])
    ++ (set_flag mte1_m
        ∷ wait_flag mte1_m
        ∷ mmad stage stage (k_part == 0)
        ∷ set_flag (a_l0_event stage)
        ∷ set_flag (b_l0_event stage)
        ∷ [])

unfoldable pub compute_gram : List Command
unfolding compute_one_k_part
compute_gram =
    (wait_flag fix_m ∷ [])
    ++ compute_one_k_part 0
    ++ compute_one_k_part 1
    ++ (set_flag m_fix ∷ wait_flag m_fix ∷ [])

unfoldable pub commit_workspace : (group slot : ℕ) → List Command
commit_workspace group slot = fixpipe (slot_offset group slot) ∷ []

-- The body of the loop for a task with a given chunk.
unfoldable pub process_chunk :
    (hg kv_head start chunk_len group round : ℕ) (valid : Bool) → List Command
unfolding copy_packed_k_to_shared_l1 compute_gram commit_workspace init_l0_events drain_l0_events
process_chunk hg kv_head start chunk_len group round valid =
    let slot = slot_of round in
    init_l0_events
    ++ (if valid
        then copy_packed_k_to_shared_l1 hg ((start * hg + kv_head) * k_dim) chunk_len
          ++ compute_gram
        else [])
    ++ (if is_late_round round then cross_wait (free_flag_for_slot slot) ∷ [] else [])
    ++ (if valid then commit_workspace group slot else [])
    ++ (cross_set (ready_flag_for_slot slot) ∷ [])
    ++ (if valid then set_flag fix_m ∷ [] else [])
    ++ drain_l0_events

module _ (til : TilingData) (offsets : ℕ → ℕ) (group : ℕ) where
  unfoldable pub process_round : ℕ → List Command
  unfolding process_chunk
  process_round round =
      let task = task_id til group round in
      let start = offsets (task / til.hg) in
      let end = offsets (task / til.hg + 1) in
      process_chunk til.hg (task % til.hg) start (sub32 end start) group round
        (is_valid_chunk til.t start end)

  unfoldable pub process : List Command
  unfolding init_persistent_events drain_persistent_events process_round
  process =
      init_persistent_events
      ++ for_rounds (task_count til group) 0 process_round
      ++ drain_persistent_events
