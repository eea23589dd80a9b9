-- ===== src/Host.antt =====
-- op_host/chunk_scaled_dot_kkt_tiling.cpp and op_host/chunk_scaled_dot_kkt_infershape.cpp.
-- What the framework's calls return is a field of the context; what the tiling function writes
-- through the context is the `Launch` that it returns, also when it fails half-way.
pub mod Tests
pub mod Shapes
pub mod Accept
pub mod BlockDim
pub mod Policy
pub mod Result
use chunk_scaled_dot_kkt_asc.Prelude.{
  ℕ, ◌+◌, ◌*◌, ◌/◌, ◌%◌, ◌^◌, Bool, true, false, Option, none, some, ◌==◌, if◌then◌else◌,
}
use chunk_scaled_dot_kkt_asc.Prelude.Int.{i32}
use chunk_scaled_dot_kkt_asc.Device.{TilingData}
use chunk_scaled_dot_kkt_asc.Host.Shapes.{Inputs, Sizes, validate_and_read_shape}
use chunk_scaled_dot_kkt_asc.Host.BlockDim.{select_block_dim}

pub data GraphStatus : Type 0 where
  graph_success graph_failed : GraphStatus

pub record Platform : Type 0 where
  pub core_num_aic : ℕ  -- uint32_t
  pub lib_api_workspace : ℕ

-- `gert::TilingContext`: its pointers, null or not, and whether its setters succeed.
pub record Context : Type 0 where
  pub platform : Option Platform
  pub inputs : Inputs
  pub has_tiling_data : Bool
  pub schedule_mode_ok : Bool
  pub block_dim_ok : Bool
  pub has_workspaces : Bool

-- What the tiling function writes.
pub record Launch : Type 0 where
  pub tiling : TilingData
  pub schedule_mode : Option ℕ
  pub block_dim : Option ℕ
  pub tiling_key : Option ℕ
  pub workspace : Option ℕ  -- workspaceSizes[0]

abbrev pub kkt_slot_bytes : ℕ
kkt_slot_bytes = 64 * 64 * 4

abbrev pub workspace_size : Platform → ℕ → ℕ
workspace_size p block_dim = (p.lib_api_workspace + block_dim * 2 * kkt_slot_bytes) % 2 ^ 64

-- The tiling data that a launch of the given sizes gets.
abbrev pub tiling_of : Platform → Sizes → TilingData
tiling_of p s = record {
  total_task_count = s.num_chunks * s.hg;
  t = s.t;
  hg = s.hg;
  block_dim = select_block_dim p.core_num_aic s;
  num_repeat = i32 (s.h / s.hg);
}

-- `kDim == K_128 ? … : …`
abbrev pub tiling_key_of : ℕ → ℕ
tiling_key_of k_dim = if k_dim == 128 then 0 else 1

-- The part of the tiling function from the tiling data on.
pub fill_launch : Context → Platform → Sizes → Launch → GraphStatus × Launch
fill_launch ctx p s l =
    let block_dim = select_block_dim p.core_num_aic s in
    let filled = record l { tiling = tiling_of p s } in
    let batched = record filled { schedule_mode = some 1 } in
    let keyed = record batched {
      block_dim = some block_dim;
      tiling_key = some (tiling_key_of s.k_dim);
    } in
    if ctx.has_tiling_data
    then (if ctx.schedule_mode_ok
        then (if ctx.block_dim_ok
            then (if ctx.has_workspaces
                then (graph_success, record keyed { workspace = some (workspace_size p block_dim) })
                else (graph_failed, keyed))
            else (graph_failed, batched))
        else (graph_failed, filled))
    else (graph_failed, l)

unfoldable pub tiling_func : Context → Launch → GraphStatus × Launch
unfolding fill_launch
tiling_func ctx l = elim ctx.platform [
  | none ↦ (graph_failed, l)
  | some p ↦
      let rest : GraphStatus × Launch = elim (validate_and_read_shape ctx.inputs) [
        | none ↦ (graph_failed, l)
        | some s ↦ fill_launch ctx p s l
      ] in
      if p.core_num_aic == 0 then (graph_failed, l) else rest
]
