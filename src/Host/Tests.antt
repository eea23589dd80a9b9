-- ===== src/Host/Tests.antt =====
-- Runs of the host side on concrete shapes.
use chunk_scaled_dot_kkt_asc.Prelude.{
  ℕ, ◌+◌, ◌*◌, ◌%◌, ◌≤◌, ◌≡◌, ◌⊎◌, ◌↔◌, ◌||◌, refl, true, false, none, some, [], ◌∷◌, arith,
}
use chunk_scaled_dot_kkt_asc.Prelude.Int.{pos}
use chunk_scaled_dot_kkt_asc.Device.{IsLaunch, slot_offset, kkt_elems}
use chunk_scaled_dot_kkt_asc.Schedule.{use_champion_group_aligned_schedule}
use chunk_scaled_dot_kkt_asc.Host.{
  graph_success, graph_failed, Platform, Context, Launch, tiling_of, fill_launch, tiling_func,
}
use chunk_scaled_dot_kkt_asc.Host.Shapes.{Sizes, validate_and_read_shape, infer_shape}
use chunk_scaled_dot_kkt_asc.Host.BlockDim.{
  use_full_aligned_block_dim, use_group_aligned_block_dim, select_block_dim,
}
use chunk_scaled_dot_kkt_asc.Host.Accept.{
  IsSupported, inputs_of, validate_iff, infer_shape-validated,
}
use chunk_scaled_dot_kkt_asc.Host.Policy.{policy_agrees, champion_needs}
use chunk_scaled_dot_kkt_asc.Host.Result.{
  Succeeds, launch_of, tiling_func_iff, tiling_func-failure, tiling_func-IsLaunch, workspace_slots,
}
use chunk_scaled_dot_kkt_asc.Schedule.Tests.{aligned_launch}

-- 20 chunks of 64 rows, 48 heads over 16 KV heads, K = 128.
abbrev sizes : Sizes
sizes = record { t = 1280; h = 48; hg = 16; k_dim = 128; num_chunks = 20 }

abbrev platform : Platform
platform = record { core_num_aic = 24; lib_api_workspace = 16777216 }

abbrev context : Context
context = record {
  platform = some platform;
  inputs = inputs_of sizes;
  has_tiling_data = true;
  schedule_mode_ok = true;
  block_dim_ok = true;
  has_workspaces = true;
}

abbrev nothing : Launch
nothing = record {
  tiling = record { total_task_count = 0; t = 0; hg = 0; block_dim = 0; num_repeat = 0 };
  schedule_mode = none;
  block_dim = none;
  tiling_key = none;
  workspace = none;
}

accepted : validate_and_read_shape (inputs_of sizes) ≡ some sizes
unfolding validate_and_read_shape
accepted = refl

succeeds : Succeeds context platform sizes
succeeds = record {
  platform = refl;
  cores = omega arith;
  sizes = accepted;
  tiling_data = refl;
  schedule_mode = refl;
  block_dim = refl;
  workspaces = refl;
}

-- A null workspace pointer is reported after the tiling data has been written.
no_workspace_test :
    tiling_func (record context { has_workspaces = false }) nothing
    ≡ (graph_failed, record (launch_of platform sizes) { workspace = none })
unfolding tiling_func fill_launch validate_and_read_shape select_block_dim
no_workspace_test = refl

validate_iff_example :
    (validate_and_read_shape (inputs_of sizes) ≡ some sizes)
    ↔ (IsSupported sizes × (inputs_of sizes ≡ inputs_of sizes))
validate_iff_example = validate_iff (inputs_of sizes) sizes

infer_shape-validated_example :
    infer_shape (inputs_of sizes).k (inputs_of sizes).beta true
    ≡ some (pos 1 ∷ pos 48 ∷ pos 1280 ∷ pos 64 ∷ [])
infer_shape-validated_example = infer_shape-validated (inputs_of sizes) sizes accepted

aligned_sizes :
    (use_full_aligned_block_dim (sizes.num_chunks * sizes.hg) sizes
      || use_group_aligned_block_dim (sizes.num_chunks * sizes.hg) sizes)
    ≡ true
unfolding use_full_aligned_block_dim use_group_aligned_block_dim
aligned_sizes = refl

policy_agrees_example :
    ((tiling_of platform sizes).block_dim ≡ 16)
    × (use_champion_group_aligned_schedule (tiling_of platform sizes) ≡ true)
policy_agrees_example = policy_agrees platform sizes (omega arith) (omega arith) aligned_sizes

champion_needs_example :
    ((aligned_launch.num_repeat ≡ 3) ⊎ (aligned_launch.num_repeat ≡ 4))
    × ((aligned_launch.hg ≡ 2) ⊎ (aligned_launch.hg ≡ 8) ⊎ (aligned_launch.hg ≡ 16))
    × (aligned_launch.block_dim % aligned_launch.hg ≡ 0)
    × (aligned_launch.total_task_count ≤ 400)
unfolding use_champion_group_aligned_schedule
champion_needs_example = champion_needs aligned_launch refl

tiling_func_iff_example :
    (tiling_func context nothing ≡ (graph_success, launch_of platform sizes)) ↔ (
      (p : Platform) × (s : Sizes) × Succeeds context p s
      × (launch_of platform sizes ≡ launch_of p s))
tiling_func_iff_example = tiling_func_iff context nothing (launch_of platform sizes)

tiling_func-IsLaunch_example :
    let til = (tiling_func context nothing).1.tiling in
    IsLaunch til
    × (til.num_repeat * til.hg ≡ 48)
    × (til.block_dim ≤ 24)
    × (til.total_task_count ≡ 20 * til.hg)
tiling_func-IsLaunch_example =
    tiling_func-IsLaunch context nothing platform sizes succeeds (omega arith) (omega arith)

workspace_slots_example :
    (size : ℕ) × ((tiling_func context nothing).1.workspace ≡ some size)
    × (16777216 + (slot_offset 15 1 + kkt_elems) * 4 ≤ size)
unfolding tiling_func fill_launch validate_and_read_shape select_block_dim
    use_full_aligned_block_dim use_group_aligned_block_dim
workspace_slots_example =
    workspace_slots context nothing platform sizes 15 1 succeeds (omega arith) (omega arith)
      (omega arith) (omega arith)

tiling_func-failure_example :
    ((record (launch_of platform sizes) { workspace = none }).workspace ≡ nothing.workspace)
    × ((record (launch_of platform sizes) { workspace = none } ≡ nothing)
        ⊎ ((p : Platform) × (s : Sizes) × (some platform ≡ some p)
            × (validate_and_read_shape (inputs_of sizes) ≡ some s)
            × (tiling_of platform sizes ≡ tiling_of p s)))
tiling_func-failure_example =
    tiling_func-failure (record context { has_workspaces = false }) nothing
      (record (launch_of platform sizes) { workspace = none }) no_workspace_test
