-- ===== src/Host/BlockDim.antt =====
-- The choice of the number of MIX groups in op_host/chunk_scaled_dot_kkt_tiling.cpp.
use chunk_scaled_dot_kkt_asc.Prelude.{
  ℕ, ◌*◌, ◌/◌, Bool, not, ◌&&◌, ◌||◌, ltb, leb, ◌==◌, if◌then◌else◌, min, max,
}
use chunk_scaled_dot_kkt_asc.Prelude.Int.{i32}
use chunk_scaled_dot_kkt_asc.Host.Shapes.{Sizes}

abbrev pub default_chunk_size : ℕ
default_chunk_size = 64

abbrev pub manual_mix_core_count : ℕ
manual_mix_core_count = 20

abbrev pub group_aligned_core_count : ℕ
group_aligned_core_count = 16

abbrev pub small_task_block_dim : ℕ
small_task_block_dim = 8

abbrev pub small_task_max : ℕ
small_task_max = 32

-- 20 cores times 4 workspace slots
abbrev pub shallow_manual_task_min : ℕ
shallow_manual_task_min = manual_mix_core_count * 4

-- 20 cores times 20 tasks
abbrev pub deep_manual_task_max : ℕ
deep_manual_task_max = manual_mix_core_count * 20

abbrev pub short_manual_task_max : ℕ
short_manual_task_max = 256

abbrev pub medium_task_max : ℕ
medium_task_max = 512

unfoldable pub use_full_aligned_block_dim : (total : ℕ) → Sizes → Bool
use_full_aligned_block_dim total s =
    s.hg == 2
    && s.k_dim == 256
    && s.h / s.hg == 4
    && ltb shallow_manual_task_min total
    && leb total deep_manual_task_max
    && s.t == s.num_chunks * default_chunk_size

unfoldable pub use_group_aligned_block_dim : (total : ℕ) → Sizes → Bool
use_group_aligned_block_dim total s =
    (s.hg == group_aligned_core_count
      && s.k_dim == 128
      && (s.h / s.hg == 3 || s.h / s.hg == 4)
      && ltb shallow_manual_task_min total
      && leb total deep_manual_task_max)
    || (s.hg == 8
        && s.k_dim == 128
        && s.h / s.hg == 4
        && ltb shallow_manual_task_min total
        && leb total short_manual_task_max)
    || (s.hg == 2
        && s.k_dim == 128
        && s.h / s.hg == 4
        && ltb deep_manual_task_max total
        && leb total medium_task_max
        && not (s.t == s.num_chunks * default_chunk_size))

-- `selectedBlockDim`
unfoldable pub selected_block_dim : (aic_num : ℕ) → Sizes → ℕ
selected_block_dim aic_num s =
    let total = s.num_chunks * s.hg in
    let default_block_dim = max 1 (min aic_num total) in
    if leb total small_task_max
    then small_task_block_dim
    else if use_full_aligned_block_dim total s || use_group_aligned_block_dim total s
    then group_aligned_core_count
    else default_block_dim

-- `blockDim`, clamped to the runtime core count and cast to int32_t
unfoldable pub select_block_dim : (aic_num : ℕ) → Sizes → ℕ
unfolding selected_block_dim
select_block_dim aic_num s = i32 (max 1 (min aic_num (selected_block_dim aic_num s)))
