-- ===== src/Schedule/Tests.antt =====
-- Runs of the scheduler on concrete launches.
use chunk_scaled_dot_kkt_asc.Prelude.{◌+◌, ◌^◌, ◌≤◌, ◌≡◌, refl, true, arith}
use chunk_scaled_dot_kkt_asc.Device.{TilingData, IsLaunch}
use chunk_scaled_dot_kkt_asc.Schedule.{
  use_champion_group_aligned_schedule, scheduled_task_id, chunk_local, scheduled_task_count,
  task_count, task_id,
}
use chunk_scaled_dot_kkt_asc.Schedule.Spec.{IsPartition}
use chunk_scaled_dot_kkt_asc.Schedule.Partition.{task_id-IsPartition}
use chunk_scaled_dot_kkt_asc.Schedule.Balance.{task_count-balanced}

-- 40 chunks of 16 KV heads, three heads each, on 16 groups: more than 400 tasks, so chunk-local.
abbrev pub local_launch : TilingData
local_launch = record { total_task_count = 640; t = 2560; hg = 16; block_dim = 16; num_repeat = 3 }

pub local_launch-IsLaunch : IsLaunch local_launch
local_launch-IsLaunch = record { hg_pos = omega arith; block_pos = omega arith; whole = refl }

pub local_launch-few : task_count local_launch 3 ≤ 2 ^ 31
unfolding task_count scheduled_task_count use_champion_group_aligned_schedule chunk_local
local_launch-few = omega arith

-- 20 chunks of the same heads: few enough tasks for the group-aligned schedule.
abbrev pub aligned_launch : TilingData
aligned_launch = record {
  total_task_count = 320;
  t = 1280;
  hg = 16;
  block_dim = 16;
  num_repeat = 3;
}

aligned_test : use_champion_group_aligned_schedule aligned_launch ≡ true
unfolding use_champion_group_aligned_schedule
aligned_test = refl

local_test : task_id local_launch 3 2 ≡ 35
unfolding task_id chunk_local use_champion_group_aligned_schedule scheduled_task_id
local_test = refl

task_id-IsPartition_example : IsPartition 640 16 (task_count local_launch) (task_id local_launch)
task_id-IsPartition_example = task_id-IsPartition local_launch local_launch-IsLaunch

task_count-balanced_example : task_count local_launch 0 ≤ task_count local_launch 15 + 1
task_count-balanced_example =
    task_count-balanced local_launch 0 15 local_launch-IsLaunch (omega arith)
