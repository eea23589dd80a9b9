-- ===== src/Schedule/Spec.antt =====
-- What a schedule owes to the launch: the groups share the tasks out.
use chunk_scaled_dot_kkt_asc.Prelude.{ℕ, ◌<◌, ◌≡◌, Bool}
use chunk_scaled_dot_kkt_asc.Schedule.{scheduled_task_count, scheduled_task_id}

-- A schedule of `total` tasks over `groups` groups, group `g` having `count g` rounds.
pub record IsPartition (total groups : ℕ) (count : ℕ → ℕ) (id : ℕ → ℕ → ℕ) : Type 0 where
  pub inside : (g r : ℕ) → g < groups → r < count g → id g r < total
  pub covered :
      (task : ℕ) → task < total → (g : ℕ) × (r : ℕ) × (g < groups) × (r < count g) × (id g r ≡ task)
  pub unique :
      (g r g' r' : ℕ)
      → g < groups
      → r < count g
      → g' < groups
      → r' < count g'
      → id g r ≡ id g' r'
      → (g ≡ g') × (r ≡ r')

-- The schedule under given flags.
abbrev pub Partitions : (total hg bd : ℕ) (cl ga : Bool) → Type 0
Partitions total hg bd cl ga =
    IsPartition total bd (λ g. scheduled_task_count g total hg bd cl ga)
      (λ g r. scheduled_task_id g r total hg bd cl ga)
