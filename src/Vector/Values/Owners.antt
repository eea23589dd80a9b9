-- ===== src/Vector/Values/Owners.antt =====
-- Which lane of which group has an element of a task.
use chunk_scaled_dot_kkt_asc.Prelude.{
  ℕ, ◌+◌, ◌*◌, ◌/◌, ◌%◌, ◌^◌, ◌≤◌, ◌<◌, ◌≡◌, ◌∙◌, sym, true, subst, arith,
}
use chunk_scaled_dot_kkt_asc.Prelude.Int.{sub32}
use chunk_scaled_dot_kkt_asc.Device.{TilingData, IsLaunch}
use chunk_scaled_dot_kkt_asc.Schedule.{task_count, task_id}
use chunk_scaled_dot_kkt_asc.Schedule.Partition.{task_id-IsPartition}
use chunk_scaled_dot_kkt_asc.Vector.Task.{share_of}
use chunk_scaled_dot_kkt_asc.Vector.Shares.{InShare, IsShared, share_of-IsShared}
use chunk_scaled_dot_kkt_asc.Vector.Values.PipelineTask.{is_valid_task, share_of_task, valid-inside}
use chunk_scaled_dot_kkt_asc.Vector.Values.Covered.{
  covers, covers_unique, InShare-covers, covers-InShare,
}

-- The group and the lane that have a task's repeat and row.
pub record Owner (til : TilingData) (offsets : ℕ → ℕ) (task repeat i : ℕ) : Type 0 where
  pub group : ℕ
  pub round : ℕ
  pub lane : ℕ
  pub group_below : group < til.block_dim
  pub round_below : round < task_count til group
  pub lane_below : lane < 2
  pub owned_task : task_id til group round ≡ task
  pub owned_share : InShare (share_of_task til offsets lane task) repeat i

-- An element of a task: a head of its KV head and a row of its chunk.
module _ (til : TilingData) (offsets : ℕ → ℕ) (ok : IsLaunch til)
    (small : (i : ℕ) → offsets i < 2 ^ 31) (grows : (i : ℕ) → offsets i ≤ offsets (i + 1))
    (pos : 0 < til.num_repeat) (task repeat i : ℕ)
    (valid : is_valid_task til offsets task ≡ true) where
  abbrev start : ℕ
  start = offsets (task / til.hg)

  abbrev chunk_len : ℕ
  chunk_len = sub32 (offsets (task / til.hg + 1)) start

  abbrev head_row : ℕ
  head_row = task % til.hg * til.num_repeat + repeat

  pub chunk_bounds : (0 < chunk_len) × (chunk_len ≤ 64) × (start + chunk_len ≤ til.t)
  chunk_bounds =
      valid-inside til.t start (offsets (task / til.hg + 1)) (small (task / til.hg))
        (small (task / til.hg + 1)) valid

  shared : IsShared (λ lane. share_of_task til offsets lane task) til.num_repeat chunk_len
  shared =
      subst
        (λ v. IsShared (λ lane. share_of til.num_repeat lane chunk_len v) til.num_repeat chunk_len)
        (sym valid) (share_of-IsShared til.num_repeat chunk_len pos chunk_bounds.1)

  pub find-Owner :
      task < til.total_task_count
      → repeat < til.num_repeat
      → i < chunk_len
      → Owner til offsets task repeat i
  find-Owner below few inside =
      let (g, r, g_lt, r_lt, e) = (task_id-IsPartition til ok).covered task below in
      let (lane, lane_lt, has) = shared.covered repeat i few inside in
      record {
        group = g;
        round = r;
        lane = lane;
        group_below = g_lt;
        round_below = r_lt;
        lane_below = lane_lt;
        owned_task = e;
        owned_share = has;
      }

  pub Owner-covers :
      (o : Owner til offsets task repeat i)
      → covers til offsets o.lane (task_id til o.group o.round) head_row (start + i) ≡ true
  Owner-covers o =
      subst (λ x. covers til offsets o.lane x head_row (start + i) ≡ true) (sym o.owned_task)
        (InShare-covers til offsets o.lane task repeat i o.owned_share)

  pub only-Owner :
      (o : Owner til offsets task repeat i) (aiv r : ℕ)
      → aiv / 2 < til.block_dim
      → r < task_count til (aiv / 2)
      → covers til offsets (aiv % 2) (task_id til (aiv / 2) r) head_row (start + i) ≡ true
      → aiv ≡ 2 * o.group + o.lane
  only-Owner o aiv r below r_lt h =
      let same_task : task_id til (aiv / 2) r ≡ task =
        covers_unique til offsets (aiv % 2) o.lane (task_id til (aiv / 2) r) task head_row
          (start + i) small pos (omega arith) o.lane_below ok.hg_pos grows h
          (InShare-covers til offsets o.lane task repeat i o.owned_share) in
      let same_group =
        ((task_id-IsPartition til ok).unique (aiv / 2) r o.group o.round below r_lt o.group_below
          o.round_below (same_task ∙ sym o.owned_task)).0 in
      let same_lane =
        shared.unique (aiv % 2) o.lane repeat i (omega arith) o.lane_below
          (covers-InShare til offsets (aiv % 2) task repeat i
            (subst (λ x. covers til offsets (aiv % 2) x head_row (start + i) ≡ true) same_task h))
          o.owned_share in
      omega (arith, same_group, same_lane)
