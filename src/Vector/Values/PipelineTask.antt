-- ===== src/Vector/Values/PipelineTask.antt =====
-- `ProcessPipelineTask`: the chunk of a task, the share of a lane, and the rows that it writes.
use chunk_scaled_dot_kkt_asc.Prelude.{
  ℕ, suc, ◌+◌, ◌*◌, ◌/◌, ◌%◌, ◌^◌, ◌≤◌, ◌<◌, ◌≡◌, Bool, true, false, arith, refl, subst,
}
use chunk_scaled_dot_kkt_asc.Prelude.Int.{sub32}
use chunk_scaled_dot_kkt_asc.Device.{TilingData, slot_of}
use chunk_scaled_dot_kkt_asc.Vector.{Vector}
use chunk_scaled_dot_kkt_asc.Vector.Load.{is_valid_chunk}
use chunk_scaled_dot_kkt_asc.Vector.Task.{Share, share_of, process_pipeline_task}
use chunk_scaled_dot_kkt_asc.Vector.Values.{Arithmetic}
use chunk_scaled_dot_kkt_asc.Vector.Values.Lane.{Inputs, Lane, Hardware}
use chunk_scaled_dot_kkt_asc.Vector.Values.Delayed.{lane}
use chunk_scaled_dot_kkt_asc.Vector.Values.Tile.{Chunk}
use chunk_scaled_dot_kkt_asc.Vector.Values.Range.{ShareFits}
use chunk_scaled_dot_kkt_asc.Vector.Values.Tasks.{Between, TaskDone, process_chunk-TaskDone}

-- The chunk of a task, in a lane that has seen `k` READYs.
abbrev pub chunk_of : TilingData → (offsets : ℕ → ℕ) → (group round k task : ℕ) → Chunk
chunk_of til offsets group round k task = record {
  round = suc k;
  group = group;
  slot = slot_of round;
  start = offsets (task / til.hg);
  chunk_len = sub32 (offsets (task / til.hg + 1)) (offsets (task / til.hg));
}

abbrev pub is_valid_task : TilingData → (offsets : ℕ → ℕ) → (task : ℕ) → Bool
is_valid_task til offsets task =
    is_valid_chunk til.t (offsets (task / til.hg)) (offsets (task / til.hg + 1))

abbrev pub share_of_task : TilingData → (offsets : ℕ → ℕ) → (lane task : ℕ) → Share
share_of_task til offsets lane task =
    share_of til.num_repeat lane (sub32 (offsets (task / til.hg + 1)) (offsets (task / til.hg)))
      (is_valid_task til offsets task)

-- A valid chunk lies inside the sequence, if its offsets are not negative.
pub valid-inside :
    (t start end : ℕ)
    → start < 2 ^ 31
    → end < 2 ^ 31
    → is_valid_chunk t start end ≡ true
    → (0 < sub32 end start) × (sub32 end start ≤ 64) × (start + sub32 end start ≤ t)
unfolding is_valid_chunk
valid-inside t start end lo hi valid = ground arith

share-rows :
    (num_repeat lane chunk_len : ℕ)
    → 0 < (share_of num_repeat lane chunk_len true).row_count
    → ((share_of num_repeat lane chunk_len true).row_start
          + (share_of num_repeat lane chunk_len true).row_count
        ≤ chunk_len)
      × ((share_of num_repeat lane chunk_len true).first_repeat + 2
            ≤ (share_of num_repeat lane chunk_len true).repeat_end
          → (share_of num_repeat lane chunk_len true).row_start ≡ 0)
unfolding share_of
share-rows num_repeat lane chunk_len some_rows = (ground arith, λ h. ground arith)

valid_share-ShareFits :
    (til : TilingData) (offsets : ℕ → ℕ) (group lane round k task : ℕ)
    → ((i : ℕ) → offsets i < 2 ^ 31)
    → til.t * 4 < 2 ^ 32
    → is_valid_task til offsets task ≡ true
    → 0 < (share_of_task til offsets lane task).row_count
    → ShareFits til (chunk_of til offsets group round k task) (share_of_task til offsets lane task)
valid_share-ShareFits til offsets group lane round k task small narrow valid some_rows =
    let start = offsets (task / til.hg) in
    let end = offsets (task / til.hg + 1) in
    let inside =
      valid-inside til.t start end (small (task / til.hg)) (small (task / til.hg + 1)) valid in
    let rows = share-rows til.num_repeat lane (sub32 end start) (
      subst (λ (v : Bool). 0 < (share_of til.num_repeat lane (sub32 end start) v).row_count) valid
        some_rows) in
    rw valid (record {
      some_rows = inside.0;
      few_rows = inside.1;
      chunk_inside = inside.2;
      narrow = narrow;
      rows_inside = rows.0;
      pairs_split = rows.1;
    })

invalid_share-rows :
    (num_repeat lane chunk_len : ℕ) (valid : Bool)
    → valid ≡ false
    → (share_of num_repeat lane chunk_len valid).row_count ≡ 0
unfolding share_of
invalid_share-rows num_repeat lane chunk_len valid e = rw e refl

-- A whole task, for a chunk of any kind.
pub process_pipeline_task-TaskDone :
    (a : Arithmetic) (inputs : Inputs a) (hw : Hardware a inputs) (til : TilingData) (l0 : Lane a)
    (offsets : ℕ → ℕ) (task group lane round : ℕ) (reuse : Bool) (k : ℕ) (s : Vector)
    → ((i : ℕ) → offsets i < 2 ^ 31)
    → til.t * 4 < 2 ^ 32
    → Between a inputs hw til l0 k s
    → TaskDone a inputs hw til l0
        (chunk_of til offsets group round k task)
        (share_of_task til offsets lane task)
        (task % til.hg)
        reuse
        s
        (process_pipeline_task til offsets task group lane round reuse s).1
unfolding process_pipeline_task
process_pipeline_task-TaskDone a inputs hw til l0 offsets task group lane round reuse k s small
      narrow before =
    process_chunk-TaskDone a inputs hw til l0 (chunk_of til offsets group round k task)
      (share_of_task til offsets lane task) (task % til.hg) reuse k (is_valid_task til offsets task)
      s (valid_share-ShareFits til offsets group lane round k task small narrow)
      (invalid_share-rows til.num_repeat lane
        (sub32 (offsets (task / til.hg + 1)) (offsets (task / til.hg)))
        (is_valid_task til offsets task))
      refl before
