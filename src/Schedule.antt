-- ===== src/Schedule.antt =====
-- The task scheduler at the top of op_kernel/chunk_scaled_dot_kkt.h: which schedule a launch uses,
-- how many tasks a MIX group has, and the task of each of its rounds.
pub mod Tests
pub mod Spec
pub mod Cyclic
pub mod Local
pub mod Aligned
pub mod Partition
pub mod Balance
use chunk_scaled_dot_kkt_asc.Prelude.{
  ℕ, ◌+◌, ◌-◌, ◌*◌, ◌/◌, ◌%◌, Bool, true, false, not, ◌&&◌, ◌||◌, ltb, leb, ◌==◌, if◌then◌else◌,
}
use chunk_scaled_dot_kkt_asc.Device.{TilingData}

abbrev group_aligned_core_count : ℕ
group_aligned_core_count = 16

abbrev small_task_max : ℕ
small_task_max = 32

abbrev shallow_manual_task_min : ℕ
shallow_manual_task_min = 80

abbrev deep_manual_task_max : ℕ
deep_manual_task_max = 400

abbrev short_manual_task_max : ℕ
short_manual_task_max = 256

abbrev medium_task_max : ℕ
medium_task_max = 512

abbrev group_aligned_large_rollback : ℕ
group_aligned_large_rollback = 400

-- Its early returns in order. `hg <= 0` and `blockDim <= 0` are tests for 0 here.
unfoldable pub use_champion_group_aligned_schedule : TilingData → Bool
use_champion_group_aligned_schedule til =
    if ltb group_aligned_large_rollback til.total_task_count
    then false
    else if (not (til.num_repeat == 3) && not (til.num_repeat == 4))
        || til.hg == 0
        || til.block_dim == 0
        || not (til.block_dim % til.hg == 0)
    then false
    else if til.hg == 2
        && ltb small_task_max til.total_task_count
        && leb til.total_task_count medium_task_max
    then true
    else if not (til.block_dim == group_aligned_core_count)
    then false
    else if til.hg == 16
        && ltb shallow_manual_task_min til.total_task_count
        && leb til.total_task_count deep_manual_task_max
    then true
    else if til.hg == 8
        && til.num_repeat == 4
        && ltb shallow_manual_task_min til.total_task_count
        && leb til.total_task_count short_manual_task_max
    then true
    else false

-- The first chunk of a core among the cores of its KV group.
abbrev pub chunk_start : ℕ → ℕ → ℕ → ℕ
chunk_start num_chunks cores core =
    let chunks_per_core = num_chunks / cores in
    let extra_chunks = num_chunks - chunks_per_core * cores in
    core * chunks_per_core + (if ltb core extra_chunks then core else extra_chunks)

-- The number of chunks of a core.
abbrev pub chunk_count : ℕ → ℕ → ℕ → ℕ
chunk_count num_chunks cores core =
    let chunks_per_core = num_chunks / cores in
    let extra_chunks = num_chunks - chunks_per_core * cores in
    chunks_per_core + (if ltb core extra_chunks then 1 else 0)

-- The first ordinal of a group in the head-major task stream.
abbrev pub range_begin : ℕ → ℕ → ℕ → ℕ
range_begin total block_dim group = total * group / block_dim

unfoldable pub scheduled_task_count :
    (group total hg block_dim : ℕ) (chunk_local group_aligned : Bool) → ℕ
scheduled_task_count group total hg block_dim chunk_local group_aligned =
    if group_aligned
    then chunk_count (total / hg) (block_dim / hg) (group % (block_dim / hg))
    else if not chunk_local
    then (if leb total group then 0 else (total - 1 - group) / block_dim + 1)
    else range_begin total block_dim (group + 1) - range_begin total block_dim group

-- The task of an ordinal of the head-major stream.
abbrev pub head_major : ℕ → ℕ → ℕ → ℕ
head_major num_chunks hg ordinal =
    let kv_head_id = ordinal / num_chunks in
    let chunk_id = ordinal - kv_head_id * num_chunks in chunk_id * hg + kv_head_id

unfoldable pub scheduled_task_id :
    (group round total hg block_dim : ℕ) (chunk_local group_aligned : Bool) → ℕ
scheduled_task_id group round total hg block_dim chunk_local group_aligned =
    let num_chunks = total / hg in
    let cores = block_dim / hg in
    if group_aligned
    then (let kv_head_id = group / cores in
        let core = group - kv_head_id * cores in
        (chunk_start num_chunks cores core + round) * hg + kv_head_id)
    else if not chunk_local
    then group + round * block_dim
    else head_major num_chunks hg (range_begin total block_dim group + round)

-- The flags that both `Process` methods compute from the tiling data, and the schedule under them.
unfoldable pub chunk_local : TilingData → Bool
chunk_local til = not (use_champion_group_aligned_schedule til) && til.num_repeat == 3

unfoldable pub task_count : TilingData → ℕ → ℕ
task_count til group =
    scheduled_task_count group til.total_task_count til.hg til.block_dim (chunk_local til)
      (use_champion_group_aligned_schedule til)

unfoldable pub task_id : TilingData → ℕ → ℕ → ℕ
task_id til group round =
    scheduled_task_id group round til.total_task_count til.hg til.block_dim (chunk_local til)
      (use_champion_group_aligned_schedule til)
