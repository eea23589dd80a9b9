-- ===== src/Schedule/Partition.antt =====
-- The groups of a launch share the tasks out, whichever schedule the tiling data selects.
use chunk_scaled_dot_kkt_asc.Prelude.{ℕ, ◌*◌, ◌/◌, ◌%◌, ◌<◌, ◌≡◌, true, false, arith, Bool, refl}
use chunk_scaled_dot_kkt_asc.Prelude.Division.{digits_lem}
use chunk_scaled_dot_kkt_asc.Device.{TilingData, IsLaunch}
use chunk_scaled_dot_kkt_asc.Schedule.{
  use_champion_group_aligned_schedule, chunk_local, task_count, task_id,
}
use chunk_scaled_dot_kkt_asc.Schedule.Spec.{IsPartition, Partitions}
use chunk_scaled_dot_kkt_asc.Schedule.Cyclic.{cyclic-IsPartition}
use chunk_scaled_dot_kkt_asc.Schedule.Local.{local-IsPartition}
use chunk_scaled_dot_kkt_asc.Schedule.Aligned.{cores_pos, aligned-IsPartition}

partition_by :
    (total hg bd : ℕ) (cl ga : Bool)
    → 0 < bd
    → 0 < hg
    → total % hg ≡ 0
    → (ga ≡ true → bd % hg ≡ 0)
    → Partitions total hg bd cl ga
partition_by total hg bd false false pos hpos whole even = cyclic-IsPartition total hg bd pos
partition_by total hg bd true false pos hpos whole even =
    local-IsPartition total hg bd pos hpos (omega (arith, digits_lem hg total hpos))
partition_by total hg bd cl true pos hpos whole even =
    let cores : bd / hg * hg ≡ bd = omega (arith, digits_lem hg bd hpos, even refl) in
    aligned-IsPartition total hg bd cl (cores_pos total hg bd pos cores) hpos
      (omega (arith, digits_lem hg total hpos)) cores

-- The group-aligned schedule is chosen only where `hg` divides the number of groups.
pub aligned_divides :
    (til : TilingData) → use_champion_group_aligned_schedule til ≡ true → til.block_dim % til.hg ≡ 0
unfolding use_champion_group_aligned_schedule
aligned_divides til h = ground arith

-- Every task of a launch is the task of exactly one round of exactly one MIX group, and every
-- round of a group below `block_dim` has a task below `total_task_count`, whichever schedule the
-- tiling data selects.
pub task_id-IsPartition :
    (til : TilingData)
    → IsLaunch til
    → IsPartition til.total_task_count til.block_dim (task_count til) (task_id til)
unfolding task_count task_id
task_id-IsPartition til ok =
    partition_by til.total_task_count til.hg til.block_dim (chunk_local til)
      (use_champion_group_aligned_schedule til) ok.block_pos ok.hg_pos ok.whole
      (aligned_divides til)
