-- ===== src/Schedule/Cyclic.antt =====
-- The cyclic schedule: round `r` of group `g` is task `g + r * blockDim`.
use native.Mathlib.Nat.{le-div_iff_mul-le}
use chunk_scaled_dot_kkt_asc.Prelude.{
  ℕ, ◌+◌, ◌-◌, ◌*◌, ◌/◌, ◌%◌, ◌<◌, ◌≡◌, ◌↔◌, false, arith, ap, sym, ◌∙◌,
}
use chunk_scaled_dot_kkt_asc.Prelude.Division.{digits_unique, digits_lem}
use chunk_scaled_dot_kkt_asc.Schedule.{scheduled_task_count, scheduled_task_id}
use chunk_scaled_dot_kkt_asc.Schedule.Spec.{Partitions}

module _ (total hg bd : ℕ) where
  -- The count is exactly the number of rounds whose task exists.
  pub count_iff :
      0 < bd
      → (g r : ℕ) → (r < scheduled_task_count g total hg bd false false) ↔ (g + r * bd < total)
  unfolding scheduled_task_count
  count_iff pos g r = (
    λ h. ground (arith, (le-div_iff_mul-le {k = bd} {x = r} {y = total - 1 - g} pos).0),
    λ h. ground (arith, (le-div_iff_mul-le {k = bd} {x = r} {y = total - 1 - g} pos).1),
  )

  pub id_lem : (g r : ℕ) → scheduled_task_id g r total hg bd false false ≡ g + r * bd
  unfolding scheduled_task_id
  id_lem g r = ground arith

module _ (total hg bd : ℕ) (pos : 0 < bd) where
  cyclic_unique :
      (g r g' r' : ℕ) → g < bd → g' < bd → g + r * bd ≡ g' + r' * bd → (g ≡ g') × (r ≡ r')
  cyclic_unique g r g' r' lt lt' e =
      let (m, q) = digits_unique bd g r lt in
      let (m', q') = digits_unique bd g' r' lt' in
      let e' : r * bd + g ≡ r' * bd + g' = omega arith in
      (sym m ∙ ap (λ x. x % bd) e' ∙ m', sym q ∙ ap (λ x. x / bd) e' ∙ q')

  pub cyclic-IsPartition : Partitions total hg bd false false
  cyclic-IsPartition = record {
    inside = λ g r lt h. omega (arith, id_lem total hg bd g r, (count_iff total hg bd pos g r).0 h);
    covered = λ task lt.
        let (m, e) = digits_lem bd task pos in
        (
          task % bd,
          task / bd,
          m,
          (count_iff total hg bd pos (task % bd) (task / bd)).1 (omega arith),
          omega (arith, id_lem total hg bd (task % bd) (task / bd)),
        );
    unique = λ g r g' r' lt _ lt' _ e.
        cyclic_unique g r g' r' lt lt'
          (omega (arith, id_lem total hg bd g r, id_lem total hg bd g' r'));
  }
