-- ===== src/Host/Result.antt =====
-- What a successful run of the tiling function has written.
use native.Mathlib.Nat.{mul-mod_left, div-le_self, mod-eq_of_lt}
use chunk_scaled_dot_kkt_asc.Prelude.{
  ℕ, ◌+◌, ◌*◌, ◌/◌, ◌%◌, ◌^◌, ◌≤◌, ◌<◌, ◌≡◌, ◌↔◌, refl, true, some, none, arith, Option, ap, ◌⊎◌,
  inl, inr, Bool-cases, ◌||◌, not, ◌==◌,
}
use chunk_scaled_dot_kkt_asc.Prelude.Division.{digits_lem}
use chunk_scaled_dot_kkt_asc.Device.{IsLaunch, slot_count, slot_offset, kkt_elems}
use chunk_scaled_dot_kkt_asc.Host.{
  GraphStatus, graph_success, graph_failed, fill_launch, Platform, Context, Launch, workspace_size,
  tiling_of, tiling_key_of, tiling_func,
}
use chunk_scaled_dot_kkt_asc.Host.Shapes.{Sizes, validate_and_read_shape}
use chunk_scaled_dot_kkt_asc.Host.Accept.{IsSupported, validate_iff}
use chunk_scaled_dot_kkt_asc.Host.BlockDim.{select_block_dim}
use chunk_scaled_dot_kkt_asc.Host.Policy.{select_block_dim_bounds}

-- The conditions under which the tiling function succeeds.
pub record Succeeds (ctx : Context) (p : Platform) (s : Sizes) : Type 0 where
  pub platform : ctx.platform ≡ some p
  pub cores : 0 < p.core_num_aic
  pub sizes : validate_and_read_shape ctx.inputs ≡ some s
  pub tiling_data : ctx.has_tiling_data ≡ true
  pub schedule_mode : ctx.schedule_mode_ok ≡ true
  pub block_dim : ctx.block_dim_ok ≡ true
  pub workspaces : ctx.has_workspaces ≡ true

abbrev pub launch_of : Platform → Sizes → Launch
launch_of p s = record {
  tiling = tiling_of p s;
  schedule_mode = some 1;
  block_dim = some (select_block_dim p.core_num_aic s);
  tiling_key = some (tiling_key_of s.k_dim);
  workspace = some (workspace_size p (select_block_dim p.core_num_aic s));
}

success_by :
    (ctx : Context) (p : Option Platform) (s : Option Sizes) (l l' : Launch)
    → ctx.platform ≡ p
    → validate_and_read_shape ctx.inputs ≡ s
    → tiling_func ctx l ≡ (graph_success, l')
    → (q : Platform) × (z : Sizes) × Succeeds ctx q z × (l' ≡ launch_of q z)
unfolding tiling_func
success_by ctx (some p) (some s) l l' ep es h = (p, s, ground arith, ground arith)
success_by ctx none s l l' ep es h = absurd (ground arith)
success_by ctx (some p) none l l' ep es h = absurd (ground arith)

success_of :
    (ctx : Context) (l l' : Launch) (p : Platform) (s : Sizes)
    → Succeeds ctx p s
    → l' ≡ launch_of p s
    → tiling_func ctx l ≡ (graph_success, l')
unfolding tiling_func
success_of ctx l l' p s ok e = ground arith

-- The tiling function succeeds exactly if the platform is there with a positive number of cores,
-- the shapes are accepted, and the framework's calls succeed; then it has written the launch of
-- those sizes.
pub tiling_func_iff :
    (ctx : Context) (l l' : Launch)
    → (tiling_func ctx l ≡ (graph_success, l'))
      ↔ ((p : Platform) × (s : Sizes) × Succeeds ctx p s × (l' ≡ launch_of p s))
tiling_func_iff ctx l l' = (
  success_by ctx ctx.platform (validate_and_read_shape ctx.inputs) l l' refl refl,
  λ (p, s, ok, e). success_of ctx l l' p s ok e,
)

repeat_exact : (h hg : ℕ) → 0 < hg → h % hg ≡ 0 → h < 2 ^ 31 → h / hg % 2 ^ 32 * hg ≡ h
repeat_exact h hg pos whole small =
    let fits : h / hg < 2 ^ 32 = omega (arith, div-le_self h hg) in
    rw (mod-eq_of_lt fits) (omega (arith, digits_lem hg h pos))

tiling-IsLaunch :
    (p : Platform) (s : Sizes)
    → IsSupported s
    → 0 < p.core_num_aic
    → p.core_num_aic < 2 ^ 31
    → IsLaunch (tiling_of p s)
tiling-IsLaunch p s ok cores few = record {
  hg_pos = ok.hg_pos;
  block_pos = (select_block_dim_bounds p.core_num_aic s cores few).0;
  whole = mul-mod_left s.num_chunks s.hg;
}

-- When the tiling function's conditions hold, the tiling data that it writes is that of a launch on
-- which the device's schedule shares out the tasks: it stores H / Hg without loss, counts
-- chunks times Hg tasks, and asks for at most as many groups as there are cores. H and the number
-- of cores fit an int32_t.
pub tiling_func-IsLaunch :
    (ctx : Context) (l : Launch) (p : Platform) (s : Sizes)
    → Succeeds ctx p s
    → s.h < 2 ^ 31
    → p.core_num_aic < 2 ^ 31
    → let til = (tiling_func ctx l).1.tiling in
      IsLaunch til
      × (til.num_repeat * til.hg ≡ s.h)
      × (til.block_dim ≤ p.core_num_aic)
      × (til.total_task_count ≡ s.num_chunks * til.hg)
tiling_func-IsLaunch ctx l p s ok small few =
    let sup = ((validate_iff ctx.inputs s).0 ok.sizes).0 in
    rw (success_of ctx l (launch_of p s) p s ok refl) (
      tiling-IsLaunch p s sup ok.cores few,
      repeat_exact s.h s.hg sup.hg_pos sup.divides small,
      (select_block_dim_bounds p.core_num_aic s ok.cores few).1,
      refl,
    )

-- The workspace that the tiling function asks for holds, behind the system's part, both slots of
-- every group: the slot that the kernel addresses ends inside it. The system's part and the number
-- of cores are of realistic size, so that the size_t sum does not wrap.
pub workspace_slots :
    (ctx : Context) (l : Launch) (p : Platform) (s : Sizes) (group slot : ℕ)
    → Succeeds ctx p s
    → p.core_num_aic < 2 ^ 31
    → p.lib_api_workspace < 2 ^ 63
    → group < (tiling_func ctx l).1.tiling.block_dim
    → slot < slot_count
    → (size : ℕ) × ((tiling_func ctx l).1.workspace ≡ some size)
      × (p.lib_api_workspace + (slot_offset group slot + kkt_elems) * 4 ≤ size)
workspace_slots ctx l p s group slot ok few lib lt slt =
    let run = success_of ctx l (launch_of p s) p s ok refl in
    let bounds = select_block_dim_bounds p.core_num_aic s ok.cores few in
    let below : group < select_block_dim p.core_num_aic s =
      omega (arith, ap (λ (r : GraphStatus × Launch). r.1.tiling.block_dim) run) in
    (
      workspace_size p (select_block_dim p.core_num_aic s),
      ap (λ (r : GraphStatus × Launch). r.1.workspace) run,
      omega (arith, bounds),
    )

failure_by :
    (ctx : Context) (p : Option Platform) (s : Option Sizes) (l l' : Launch)
    → ctx.platform ≡ p
    → validate_and_read_shape ctx.inputs ≡ s
    → tiling_func ctx l ≡ (graph_failed, l')
    → (l'.workspace ≡ l.workspace)
      × ((l' ≡ l)
          ⊎ ((q : Platform) × (z : Sizes) × (p ≡ some q)
              × (s ≡ some z)
              × (l'.tiling ≡ tiling_of q z)))
unfolding tiling_func fill_launch
failure_by ctx (some p) (some s) l l' ep es h = (
  ground arith,
  elim (Bool-cases (p.core_num_aic == 0 || not ctx.has_tiling_data)) [
    | inl early ↦ inl (ground arith)
    | inr late ↦ inr (p, s, refl, refl, ground arith)
  ],
)
failure_by ctx none s l l' ep es h = (ground arith, inl (ground arith))
failure_by ctx (some p) none l l' ep es h = (ground arith, inl (ground arith))

-- When the tiling function fails, it has not set a workspace size; and it has either written nothing
-- at all, or the platform was there, the shapes were accepted, and the tiling data written is that
-- of the sizes read.
pub tiling_func-failure :
    (ctx : Context) (l l' : Launch)
    → tiling_func ctx l ≡ (graph_failed, l')
    → (l'.workspace ≡ l.workspace)
      × ((l' ≡ l)
          ⊎ ((p : Platform) × (s : Sizes) × (ctx.platform ≡ some p)
              × (validate_and_read_shape ctx.inputs ≡ some s)
              × (l'.tiling ≡ tiling_of p s)))
tiling_func-failure ctx l l' h =
    failure_by ctx ctx.platform (validate_and_read_shape ctx.inputs) l l' refl refl h
