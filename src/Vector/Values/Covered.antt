-- ===== src/Vector/Values/Covered.antt =====
-- The rows and heads that the tasks of a lane cover, and that no two tasks cover the same.
use chunk_scaled_dot_kkt_asc.Prelude.{
  ℕ, zero, suc, ◌+◌, ◌-◌, ◌*◌, ◌/◌, ◌%◌, ◌^◌, ◌≤◌, ◌<◌, ◌≡◌, ◌∙◌, sym, Bool, true, ◌&&◌, subst,
  arith, ap,
}
use chunk_scaled_dot_kkt_asc.Prelude.Int.{sub32}
use chunk_scaled_dot_kkt_asc.Prelude.Division.{digits_unique, digits_lem}
use chunk_scaled_dot_kkt_asc.Prelude.Ranges.{range_unique}
use chunk_scaled_dot_kkt_asc.Device.{TilingData}
use chunk_scaled_dot_kkt_asc.Vector.Load.{is_valid_chunk}
use chunk_scaled_dot_kkt_asc.Vector.Task.{share_of}
use chunk_scaled_dot_kkt_asc.Vector.Shares.{InShare}
use chunk_scaled_dot_kkt_asc.Vector.Values.Rows.{in_rows}
use chunk_scaled_dot_kkt_asc.Vector.Values.PipelineTask.{share_of_task, is_valid_task}

-- The head and the row fall to the lane's share of the task.
abbrev pub covers : TilingData → (offsets : ℕ → ℕ) → (lane task head row : ℕ) → Bool
covers til offsets lane task head row =
    let share = share_of_task til offsets lane task in
    in_rows (task % til.hg * til.num_repeat + share.first_repeat)
      (share.repeat_end - share.first_repeat) head
    && in_rows (offsets (task / til.hg) + share.row_start) share.row_count row

-- A head of the task's KV head and a row of its chunk.
record InTask (til : TilingData) (offsets : ℕ → ℕ) (task head row : ℕ) : Type 0 where
  head_from : task % til.hg * til.num_repeat ≤ head
  head_before : head < task % til.hg * til.num_repeat + til.num_repeat
  row_from : offsets (task / til.hg) ≤ row
  row_before : row < offsets (task / til.hg + 1)

share_bounds :
    (num_repeat lane chunk_len : ℕ)
    → 0 < num_repeat
    → lane < 2
    → 0 < (share_of num_repeat lane chunk_len true).row_count
    → ((share_of num_repeat lane chunk_len true).repeat_end ≤ num_repeat)
      × ((share_of num_repeat lane chunk_len true).row_start
            + (share_of num_repeat lane chunk_len true).row_count
          ≤ chunk_len)
unfolding share_of
share_bounds num_repeat zero chunk_len pos lt some_rows = (ground arith, ground arith)
share_bounds num_repeat (suc zero) chunk_len pos lt some_rows = (ground arith, ground arith)
share_bounds num_repeat (suc (suc lane)) chunk_len pos lt some_rows = absurd (omega arith)

valid_length :
    (t start end : ℕ)
    → start < 2 ^ 31
    → end < 2 ^ 31
    → is_valid_chunk t start end ≡ true
    → start + sub32 end start ≡ end
unfolding is_valid_chunk
valid_length t start end lo hi valid = ground arith

covers_valid :
    (num_repeat lane chunk_len kv start head row : ℕ) (valid : Bool)
    → (in_rows
          (kv * num_repeat + (share_of num_repeat lane chunk_len valid).first_repeat)
          ((share_of num_repeat lane chunk_len valid).repeat_end
            - (share_of num_repeat lane chunk_len valid).first_repeat)
          head
        && in_rows
            (start + (share_of num_repeat lane chunk_len valid).row_start)
            (share_of num_repeat lane chunk_len valid).row_count
            row)
      ≡ true
    → valid ≡ true
unfolding share_of
covers_valid num_repeat lane chunk_len kv start head row valid h = ground arith

module _ (til : TilingData) (offsets : ℕ → ℕ) (small : (i : ℕ) → offsets i < 2 ^ 31)
    (pos : 0 < til.num_repeat) (lane : ℕ) (lane_lt : lane < 2) where
  covers-InTask :
      (task head row : ℕ)
      → covers til offsets lane task head row ≡ true
      → InTask til offsets task head row
  covers-InTask task head row h =
      let start = offsets (task / til.hg) in
      let end = offsets (task / til.hg + 1) in
      let len = sub32 end start in
      let kv = task % til.hg in
      let valid =
        covers_valid til.num_repeat lane len kv start head row (is_valid_task til offsets task) h in
      let length =
        valid_length til.t start end (small (task / til.hg)) (small (task / til.hg + 1)) valid in
      let share = share_of til.num_repeat lane len true in
      let inside : (in_rows (kv * til.num_repeat + share.first_repeat)
              (share.repeat_end - share.first_repeat) head
            && in_rows (start + share.row_start) share.row_count row)
          ≡ true =
        subst
          (λ (v : Bool).
            (in_rows (kv * til.num_repeat + (share_of til.num_repeat lane len v).first_repeat)
                ((share_of til.num_repeat lane len v).repeat_end
                  - (share_of til.num_repeat lane len v).first_repeat)
                head
              && in_rows (start + (share_of til.num_repeat lane len v).row_start)
                  (share_of til.num_repeat lane len v).row_count row)
            ≡ true)
          valid h in
      let bounds = share_bounds til.num_repeat lane len pos lane_lt (ground arith) in
      record {
        head_from = ground arith;
        head_before = ground arith;
        row_from = ground arith;
        row_before = ground arith;
      }

-- Two tasks that cover a common element are the same, in whatever lanes.
pub covers_unique :
    (til : TilingData) (offsets : ℕ → ℕ) (lane lane' task task' head row : ℕ)
    → ((i : ℕ) → offsets i < 2 ^ 31)
    → 0 < til.num_repeat
    → lane < 2
    → lane' < 2
    → 0 < til.hg
    → ((i : ℕ) → offsets i ≤ offsets (i + 1))
    → covers til offsets lane task head row ≡ true
    → covers til offsets lane' task' head row ≡ true
    → task ≡ task'
covers_unique til offsets lane lane' task task' head row small pos lane_lt lane_lt' hg_pos grows h
      h' =
    let i = covers-InTask til offsets small pos lane lane_lt task head row h in
    let i' = covers-InTask til offsets small pos lane' lane_lt' task' head row h' in
    let kv = task % til.hg in
    let kv' = task' % til.hg in
    let q =
      digits_unique til.num_repeat (head - kv * til.num_repeat) kv
        (omega (arith, i.head_from, i.head_before)) in
    let q' =
      digits_unique til.num_repeat (head - kv' * til.num_repeat) kv'
        (omega (arith, i'.head_from, i'.head_before)) in
    let back : kv * til.num_repeat + (head - kv * til.num_repeat) ≡ head =
      omega (arith, i.head_from) in
    let back' : kv' * til.num_repeat + (head - kv' * til.num_repeat) ≡ head =
      omega (arith, i'.head_from) in
    let same_kv : kv ≡ kv' = sym q.1 ∙ ap (λ x. x / til.num_repeat) (back ∙ sym back') ∙ q'.1 in
    let same_chunk : task / til.hg ≡ task' / til.hg =
      range_unique offsets grows (task / til.hg) (task' / til.hg) row i.row_from i.row_before
        i'.row_from i'.row_before in
    omega (
      arith,
      ap (λ x. x * til.hg) same_chunk,
      digits_lem til.hg task hg_pos,
      digits_lem til.hg task' hg_pos,
    )

-- A repeat and a row of a lane's share of a valid chunk are covered, and no others.
pub InShare-covers :
    (til : TilingData) (offsets : ℕ → ℕ) (lane task repeat i : ℕ)
    → InShare (share_of_task til offsets lane task) repeat i
    → covers til offsets lane task
        (task % til.hg * til.num_repeat + repeat)
        (offsets (task / til.hg) + i)
      ≡ true
InShare-covers til offsets lane task repeat i has =
    ground (arith, has.from_first, has.before_end, has.from_row, has.before_row)

pub covers-InShare :
    (til : TilingData) (offsets : ℕ → ℕ) (lane task repeat i : ℕ)
    → covers til offsets lane task
        (task % til.hg * til.num_repeat + repeat)
        (offsets (task / til.hg) + i)
      ≡ true
    → InShare (share_of_task til offsets lane task) repeat i
covers-InShare til offsets lane task repeat i h = record {
  from_first = ground arith;
  before_end = ground arith;
  from_row = ground arith;
  before_row = ground arith;
}
