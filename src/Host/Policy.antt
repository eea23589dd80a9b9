-- ===== src/Host/Policy.antt =====
-- The host's choice of the number of groups, and its agreement with the schedule that the device
-- derives from it.
use chunk_scaled_dot_kkt_asc.Prelude.{
  ℕ, ◌*◌, ◌/◌, ◌%◌, ◌^◌, ◌≤◌, ◌<◌, ◌≡◌, ◌⊎◌, true, ◌||◌, leb, arith,
}
use chunk_scaled_dot_kkt_asc.Device.{TilingData}
use chunk_scaled_dot_kkt_asc.Schedule.{use_champion_group_aligned_schedule}
use chunk_scaled_dot_kkt_asc.Host.{Platform, tiling_of}
use chunk_scaled_dot_kkt_asc.Host.Shapes.{Sizes}
use chunk_scaled_dot_kkt_asc.Host.BlockDim.{
  use_full_aligned_block_dim, use_group_aligned_block_dim, select_block_dim,
}

-- The number of groups is positive and at most the number of cores.
pub select_block_dim_bounds :
    (aic_num : ℕ) (s : Sizes)
    → 0 < aic_num
    → aic_num < 2 ^ 31
    → (0 < select_block_dim aic_num s) × (select_block_dim aic_num s ≤ aic_num)
unfolding select_block_dim
select_block_dim_bounds aic_num s pos small = omega arith

-- Where the host's policy asks for 16 groups and at least 16 cores are there, the launch has 16
-- groups.
sixteen_groups :
    (aic_num : ℕ) (s : Sizes)
    → 16 ≤ aic_num
    → aic_num < 2 ^ 31
    → (use_full_aligned_block_dim (s.num_chunks * s.hg) s
        || use_group_aligned_block_dim (s.num_chunks * s.hg) s)
      ≡ true
    → select_block_dim aic_num s ≡ 16
unfolding select_block_dim use_full_aligned_block_dim use_group_aligned_block_dim
sixteen_groups aic_num s enough small h = ground arith

-- What the two tests of the host say of the sizes.
record Chosen (total : ℕ) (s : Sizes) : Type 0 where
  many : 80 < total
  few : total ≤ 512
  repeats : (s.h / s.hg ≡ 3) ⊎ (s.h / s.hg ≡ 4)
  heads : (s.hg ≡ 16) ⊎ ((s.hg ≡ 8) × (s.h / s.hg ≡ 4) × (total ≤ 256)) ⊎ (s.hg ≡ 2)

chosen :
    (total : ℕ) (s : Sizes)
    → (use_full_aligned_block_dim total s || use_group_aligned_block_dim total s) ≡ true
    → Chosen total s
unfolding use_full_aligned_block_dim use_group_aligned_block_dim
chosen total s h = ground arith

champion_of :
    (til : TilingData)
    → (til.num_repeat ≡ 3) ⊎ (til.num_repeat ≡ 4)
    → til.block_dim ≡ 16
    → 80 < til.total_task_count
    → (til.hg ≡ 16)
      ⊎ ((til.hg ≡ 8) × (til.num_repeat ≡ 4) × (til.total_task_count ≤ 256))
      ⊎ (til.hg ≡ 2)
    → use_champion_group_aligned_schedule til ≡ leb til.total_task_count 400
unfolding use_champion_group_aligned_schedule
champion_of til r b many heads = ground arith

-- Where the host's policy picks the fixed 16 groups and 16 cores are there, the launch has 16
-- groups, and the device walks group-aligned exactly if there are at most 400 tasks: from 401 to
-- 512 tasks the host's choice for Hg = 2 meets the device's rollback.
pub policy_agrees :
    (p : Platform) (s : Sizes)
    → 16 ≤ p.core_num_aic
    → p.core_num_aic < 2 ^ 31
    → (use_full_aligned_block_dim (s.num_chunks * s.hg) s
        || use_group_aligned_block_dim (s.num_chunks * s.hg) s)
      ≡ true
    → ((tiling_of p s).block_dim ≡ 16)
      × (use_champion_group_aligned_schedule (tiling_of p s) ≡ leb (s.num_chunks * s.hg) 400)
policy_agrees p s enough small h =
    let c = chosen (s.num_chunks * s.hg) s h in
    let sixteen = sixteen_groups p.core_num_aic s enough small h in
    let exact : (tiling_of p s).num_repeat ≡ s.h / s.hg = omega (arith, c.repeats) in
    (
      sixteen,
      champion_of (tiling_of p s) (omega (arith, c.repeats, exact)) sixteen c.many
          (ground (arith, c.heads, exact)),
    )

-- The device walks group-aligned only with 3 or 4 heads per KV head, 2, 8 or 16 KV heads that
-- divide the number of groups, and at most 400 tasks.
pub champion_needs :
    (til : TilingData)
    → use_champion_group_aligned_schedule til ≡ true
    → ((til.num_repeat ≡ 3) ⊎ (til.num_repeat ≡ 4))
      × ((til.hg ≡ 2) ⊎ (til.hg ≡ 8) ⊎ (til.hg ≡ 16))
      × (til.block_dim % til.hg ≡ 0)
      × (til.total_task_count ≤ 400)
unfolding use_champion_group_aligned_schedule
champion_needs til h = ground arith
