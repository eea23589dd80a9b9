-- ===== src/Vector/Values/Result.antt =====
-- The output of a lane by its elements: those of its tasks have their values, and no others change.
use chunk_scaled_dot_kkt_asc.Prelude.{
  ℕ, zero, suc, ◌+◌, ◌-◌, ◌*◌, ◌/◌, ◌%◌, ◌^◌, ◌≤◌, ◌<◌, ◌≡◌, ◌∙◌, sym, true, false, Bool-cases, inl,
  inr, subst, arith, ap, List, tabulate, refl, ℕ_discrete,
}
use chunk_scaled_dot_kkt_asc.Device.{TilingData, IsLaunch}
use chunk_scaled_dot_kkt_asc.Schedule.{task_count, task_id}
use chunk_scaled_dot_kkt_asc.Schedule.Partition.{task_id-IsPartition}
use chunk_scaled_dot_kkt_asc.Vector.{fresh}
use chunk_scaled_dot_kkt_asc.Vector.Walk.{process}
use chunk_scaled_dot_kkt_asc.Vector.Turns.{Turn, turn}
use chunk_scaled_dot_kkt_asc.Vector.Values.{Arithmetic}
use chunk_scaled_dot_kkt_asc.Vector.Values.Lane.{Inputs, Lane, Hardware, execute}
use chunk_scaled_dot_kkt_asc.Vector.Values.Rows.{element}
use chunk_scaled_dot_kkt_asc.Vector.Values.Tile.{tile_value}
use chunk_scaled_dot_kkt_asc.Vector.Values.PipelineTask.{chunk_of}
use chunk_scaled_dot_kkt_asc.Vector.Values.Expected.{task_value, expected}
use chunk_scaled_dot_kkt_asc.Vector.Values.Covered.{covers, covers_unique}
use chunk_scaled_dot_kkt_asc.Vector.Values.Whole.{Starts, process-expected}

module _ (a : Arithmetic) (inputs : Inputs a) (til : TilingData) (offsets : ℕ → ℕ) (group lane : ℕ)
    (h row j : ℕ) where
  open a use {Float}

  abbrev value : (round task : ℕ) → Float
  value round task =
      tile_value a inputs til (chunk_of til offsets group round round task) h
        (row - offsets (task / til.hg)) j

  outside :
      (k round task : ℕ) (old : Float)
      → covers til offsets lane task h row ≡ false
      → task_value a inputs til offsets group lane k round task h row j old ≡ old
  unfolding task_value
  outside k round task old e = rw e refl

  within :
      (k round task : ℕ) (old : Float)
      → k ≡ round
      → covers til offsets lane task h row ≡ true
      → task_value a inputs til offsets group lane k round task h row j old ≡ value round task
  unfolding task_value
  within k round task old same e = rw (e, same) refl

  module _ (id : ℕ → ℕ) (count : ℕ) where
    abbrev turns_from : (lo n : ℕ) → List Turn
    turns_from lo n = tabulate (λ r. turn r (id r) count) lo n

    kept_by :
        (n lo k : ℕ) (old : Float)
        → ((r : ℕ) → lo ≤ r → r < lo + n → covers til offsets lane (id r) h row ≡ false)
        → expected a inputs til offsets group lane k (turns_from lo n) h row j old ≡ old
    unfolding expected
    kept_by zero lo k old none_covers = refl
    kept_by (suc n) lo k old none_covers =
        kept_by n (lo + 1) (suc k)
          (task_value a inputs til offsets group lane k lo (id lo) h row j old)
          (λ r le lt. none_covers r (omega arith) (omega arith))
        ∙ outside k lo (id lo) old (none_covers lo (omega arith) (omega arith))

    set_by :
        (n lo k r : ℕ) (old : Float)
        → k ≡ lo
        → lo ≤ r
        → r < lo + n
        → covers til offsets lane (id r) h row ≡ true
        → ((r' : ℕ) → r' < lo + n → covers til offsets lane (id r') h row ≡ true → r' ≡ r)
        → expected a inputs til offsets group lane k (turns_from lo n) h row j old ≡ value r (id r)
    unfolding expected
    set_by zero lo k r old at_lo le lt here only = absurd (omega arith)
    set_by (suc n) lo k r old at_lo le lt here only =
        let now = task_value a inputs til offsets group lane k lo (id lo) h row j old in
        elim (ℕ_discrete lo r) [
          | yes first ↦
              kept_by n (lo + 1) (suc k) now (λ r' le' lt'.
                elim (Bool-cases (covers til offsets lane (id r') h row)) [
                  | inl again ↦ absurd (omega (arith, only r' (omega arith) again))
                  | inr no_cover ↦ no_cover
                ])
              ∙ within k lo (id lo) old at_lo
                  (subst (λ x. covers til offsets lane (id x) h row ≡ true) (sym first) here)
              ∙ ap (λ x. value x (id x)) first
          | no later ↦
              set_by n (lo + 1) (suc k) r now (omega arith) (omega arith) (omega arith) here
                (λ r' lt' covered. only r' (omega arith) covered)
        ]

-- A lane of a group of a launch changes no element outside its shares of the group's tasks, if the
-- chunk offsets lie below 2^31, the sequence is shorter than 2^30, and the lane starts with empty
-- queues.
pub process-untouched :
    (a : Arithmetic) (inputs : Inputs a) (hw : Hardware a inputs) (l0 : Lane a) (til : TilingData)
    (offsets : ℕ → ℕ) (task_ratio aiv : ℕ)
    → IsLaunch til
    → aiv / task_ratio < til.block_dim
    → aiv % task_ratio < 2
    → ((i : ℕ) → offsets i < 2 ^ 31)
    → til.t * 4 < 2 ^ 32
    → Starts a l0
    → (h row j : ℕ) → row < til.t
    → j < 64
    → ((r : ℕ)
        → r < task_count til (aiv / task_ratio)
        → covers til offsets (aiv % task_ratio) (task_id til (aiv / task_ratio) r) h row ≡ false)
    → (execute a inputs hw (process til offsets task_ratio aiv fresh).1.trace l0).output
        (element til.t h row j)
      ≡ l0.output (element til.t h row j)
process-untouched a inputs hw l0 til offsets task_ratio aiv ok lt lane_lt small narrow starts h row
      j in_t col none_covers =
    let group = aiv / task_ratio in
    let lane = aiv % task_ratio in
    process-expected a inputs hw l0 til offsets task_ratio aiv ok lt lane_lt small narrow starts h
      row j in_t col
    ∙ kept_by a inputs til offsets group lane h row j (task_id til group) (task_count til group)
        (task_count til group) 0 0 (l0.output (element til.t h row j))
        (λ r le inside. none_covers r (omega arith))

-- A lane gives every element of its share of a task of its group the value of the task's tile.
pub process-tile_value :
    (a : Arithmetic) (inputs : Inputs a) (hw : Hardware a inputs) (l0 : Lane a) (til : TilingData)
    (offsets : ℕ → ℕ) (task_ratio aiv round : ℕ)
    → IsLaunch til
    → aiv / task_ratio < til.block_dim
    → aiv % task_ratio < 2
    → ((i : ℕ) → offsets i < 2 ^ 31)
    → ((i : ℕ) → offsets i ≤ offsets (i + 1))
    → til.t * 4 < 2 ^ 32
    → 0 < til.num_repeat
    → Starts a l0
    → round < task_count til (aiv / task_ratio)
    → (h row j : ℕ) → row < til.t
    → j < 64
    → covers til offsets (aiv % task_ratio) (task_id til (aiv / task_ratio) round) h row ≡ true
    → (execute a inputs hw (process til offsets task_ratio aiv fresh).1.trace l0).output
        (element til.t h row j)
      ≡ tile_value a inputs til
          (chunk_of til offsets
            (aiv / task_ratio)
            round
            round
            (task_id til (aiv / task_ratio) round))
          h
          (row - offsets (task_id til (aiv / task_ratio) round / til.hg))
          j
process-tile_value a inputs hw l0 til offsets task_ratio aiv round ok lt lane_lt small grows narrow
      pos starts inside h row j in_t col here =
    let group = aiv / task_ratio in
    let lane = aiv % task_ratio in
    let id = task_id til group in
    let count = task_count til group in
    process-expected a inputs hw l0 til offsets task_ratio aiv ok lt lane_lt small narrow starts h
      row j in_t col
    ∙ set_by a inputs til offsets group lane h row j id count count 0 0 round
        (l0.output (element til.t h row j)) refl (omega arith) (omega arith) here
        (λ r' lt' covered.
          ((task_id-IsPartition til ok).unique group r' group round lt (omega arith) lt inside (
            covers_unique til offsets lane lane (id r') (id round) h row small pos lane_lt lane_lt
              ok.hg_pos grows covered here)).1)
