-- ===== src/Schedule/Balance.antt =====
-- The groups of a launch have almost the same number of tasks.
use native.Mathlib.Nat.{div-mul-le_self, lt-div-mul-add, mul-le-mul_right}
use chunk_scaled_dot_kkt_asc.Prelude.{
  ℕ, ◌+◌, ◌-◌, ◌*◌, ◌≤◌, ◌<◌, ◌≡◌, true, false, arith, Bool, ap, dec_lt,
}
use chunk_scaled_dot_kkt_asc.Device.{TilingData, IsLaunch}
use chunk_scaled_dot_kkt_asc.Schedule.{
  scheduled_task_count, range_begin, chunk_local, task_count, use_champion_group_aligned_schedule,
}
use chunk_scaled_dot_kkt_asc.Schedule.Cyclic
use chunk_scaled_dot_kkt_asc.Schedule.Local
use chunk_scaled_dot_kkt_asc.Schedule.Aligned

close : (total bd d d' : ℕ) → d * bd < total + bd → total < d' * bd + bd → d ≤ d' + 1
close total bd d d' p q = elim (dec_lt (d' + 1) d) [
  | yes far ↦ absurd (omega (arith, mul-le-mul_right {m = d' + 2} {n = d} bd (omega arith)))
  | no near ↦ omega arith
]

module _ (total hg bd : ℕ) (pos : 0 < bd) where
  cyclic_balance :
      (g g' : ℕ)
      → g' < bd
      → scheduled_task_count g total hg bd false false
        ≤ scheduled_task_count g' total hg bd false false + 1
  cyclic_balance g g' lt =
      elim (dec_lt (scheduled_task_count g' total hg bd false false + 1)
        (scheduled_task_count g total hg bd false false)) [
          | yes more ↦
              let r = scheduled_task_count g' total hg bd false false in
              let there : g + (r + 1) * bd < total =
                (Cyclic.count_iff total hg bd pos g (r + 1)).0 more in
              absurd (omega (arith, (Cyclic.count_iff total hg bd pos g' r).1 (omega arith)))
          | no fine ↦ omega arith
        ]

  step_bounds :
      (g : ℕ)
      → (total < (range_begin total bd (g + 1) - range_begin total bd g) * bd + bd)
        × ((range_begin total bd (g + 1) - range_begin total bd g) * bd < total + bd)
  step_bounds g =
      let lo = range_begin total bd g in
      let hi = range_begin total bd (g + 1) in
      let e : hi ≡ lo + (hi - lo) = omega (arith, Local.begin_grows total bd pos g) in
      let scaled : hi * bd ≡ (lo + (hi - lo)) * bd = ap (λ x. x * bd) e in
      (
        omega (
          arith,
          scaled,
          div-mul-le_self (total * g) bd,
          lt-div-mul-add {a = total * (g + 1)} {b = bd} pos,
        ),
        omega (
          arith,
          scaled,
          div-mul-le_self (total * (g + 1)) bd,
          lt-div-mul-add {a = total * g} {b = bd} pos,
        ),
      )

  local_balance :
      (g g' : ℕ)
      → scheduled_task_count g total hg bd true false
        ≤ scheduled_task_count g' total hg bd true false + 1
  local_balance g g' =
      let d = range_begin total bd (g + 1) - range_begin total bd g in
      let d' = range_begin total bd (g' + 1) - range_begin total bd g' in
      omega (
        arith,
        Local.count_lem total hg bd g,
        Local.count_lem total hg bd g',
        close total bd d d' (step_bounds g).1 (step_bounds g').0,
      )

balance_by :
    (total hg bd : ℕ) (cl ga : Bool)
    → 0 < bd
    → (g g' : ℕ) → g' < bd
    → scheduled_task_count g total hg bd cl ga ≤ scheduled_task_count g' total hg bd cl ga + 1
balance_by total hg bd false false pos g g' lt = cyclic_balance total hg bd pos g g' lt
balance_by total hg bd true false pos g g' lt = local_balance total hg bd pos g g'
balance_by total hg bd cl true pos g g' lt =
    ground (arith, Aligned.count_lem total hg bd cl g, Aligned.count_lem total hg bd cl g')

-- No group has more than one task beyond what any other group of the launch has.
pub task_count-balanced :
    (til : TilingData) (g g' : ℕ)
    → IsLaunch til
    → g' < til.block_dim
    → task_count til g ≤ task_count til g' + 1
unfolding task_count
task_count-balanced til g g' ok lt =
    balance_by til.total_task_count til.hg til.block_dim (chunk_local til)
      (use_champion_group_aligned_schedule til) ok.block_pos g g' lt
