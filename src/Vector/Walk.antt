-- ===== src/Vector/Walk.antt =====
-- The loops of the Vector stage over the tasks of its group, and `Process`.
-- A loop is the list of the calls that it makes, in order.
use chunk_scaled_dot_kkt_asc.Prelude.{
  ℕ, zero, suc, ◌+◌, ◌-◌, ◌*◌, ◌/◌, ◌%◌, Bool, true, false, not, ◌&&◌, ltb, leb, ◌==◌,
  if◌then◌else◌, List, [], ◌∷◌, tabulate,
}
use chunk_scaled_dot_kkt_asc.Device.{TilingData, slot_count, slot_reused}
use chunk_scaled_dot_kkt_asc.Schedule.{
  use_champion_group_aligned_schedule, chunk_start, chunk_count, range_begin, scheduled_task_count,
  scheduled_task_id,
}
use chunk_scaled_dot_kkt_asc.Vector.{M, ◌>>◌, skip}
use chunk_scaled_dot_kkt_asc.Vector.Output.{launch_ready_output, drain_all_output_slots}
use chunk_scaled_dot_kkt_asc.Vector.Load.{can_fuse_adjacent_full_chunks}
use chunk_scaled_dot_kkt_asc.Vector.Task.{process_pipeline_task, process_adjacent_full_chunk}

-- A call of `ProcessPipelineTask` or of `ProcessAdjacentFullChunkR34`.
pub data Call : Type 0 where
  single : (task round : ℕ) (will_reuse : Bool) → Call
  adjacent : (chunk kv_head round local_task_count : ℕ) → Call

module _ (til : TilingData) where
  -- `fuel` bounds the rounds; the loop ends by its own test. Of the `int32_t` localRound only the
  -- parity is used, which a wrap-around keeps.
  unfoldable pub cyclic_from : (fuel task round : ℕ) → List Call
  cyclic_from zero task round = []
  cyclic_from (suc fuel) task round =
      let rest =
        single task round (ltb (task + slot_count * til.block_dim) til.total_task_count)
        ∷ cyclic_from fuel (task + til.block_dim) (round + 1) in
      if ltb task til.total_task_count then rest else []

  unfoldable pub cyclic_calls : ℕ → List Call
  unfolding cyclic_from
  cyclic_calls group = cyclic_from (til.total_task_count + 1) group 0

  unfoldable pub group_aligned_calls : ℕ → List Call
  group_aligned_calls group =
      let count = scheduled_task_count group til.total_task_count til.hg til.block_dim false true in
      tabulate
        (λ round.
          single
            (scheduled_task_id group round til.total_task_count til.hg til.block_dim false true)
            round (ltb (round + slot_count) count))
        0 count

  module _ (offsets : ℕ → ℕ) where
    -- `while (chunkId < chunkEnd)` of one KV head. localRound is an `int32_t`: its parity gives the
    -- slot, and `slot_reused` reads it with its sign.
    unfoldable pub r3_from : (fuel chunk_end kv_head count chunk round : ℕ) → List Call
    r3_from zero chunk_end kv_head count chunk round = []
    r3_from (suc fuel) chunk_end kv_head count chunk round =
        let fused =
          adjacent chunk kv_head round count
          ∷ r3_from fuel chunk_end kv_head count (chunk + 2) (round + 2) in
        let plain =
          single (chunk * til.hg + kv_head) round (slot_reused round count)
          ∷ r3_from fuel chunk_end kv_head count (chunk + 1) (round + 1) in
        if not (ltb chunk chunk_end)
        then []
        else if ltb (chunk + 1) chunk_end && can_fuse_adjacent_full_chunks til.t offsets chunk
        then fused
        else plain

    unfoldable pub group_aligned_r3_calls : ℕ → List Call
    unfolding r3_from
    group_aligned_r3_calls group =
        let num_chunks = til.total_task_count / til.hg in
        let cores = til.block_dim / til.hg in
        let kv_head = group / cores in
        let core = group - kv_head * cores in
        let start = chunk_start num_chunks cores core in
        let count = chunk_count num_chunks cores core in
        r3_from (count + 1) (start + count) kv_head count start 0

    -- `while (ordinal < end)`, with the step to the next KV head at its end
    unfoldable pub local_from : (fuel end count ordinal kv_head chunk round : ℕ) → List Call
    local_from zero end count ordinal kv_head chunk round = []
    local_from (suc fuel) end count ordinal kv_head chunk round =
        let num_chunks = til.total_task_count / til.hg in
        let next = λ (step : ℕ).
          local_from fuel end count (ordinal + step)
            (if leb num_chunks (chunk + step) then kv_head + 1 else kv_head)
            (if leb num_chunks (chunk + step) then chunk + step - num_chunks else chunk + step)
            (round + step) in
        let fused = adjacent chunk kv_head round count ∷ next 2 in
        let plain = single (chunk * til.hg + kv_head) round (slot_reused round count) ∷ next 1 in
        if not (ltb ordinal end)
        then []
        else if ltb (ordinal + 1) end
            && ltb (chunk + 1) num_chunks
            && can_fuse_adjacent_full_chunks til.t offsets chunk
        then fused
        else plain

    unfoldable pub chunk_local_calls : ℕ → List Call
    unfolding local_from
    chunk_local_calls group =
        let num_chunks = til.total_task_count / til.hg in
        let begin = range_begin til.total_task_count til.block_dim group in
        let end = range_begin til.total_task_count til.block_dim (group + 1) in
        local_from (end - begin + 1) end (end - begin) begin (begin / num_chunks)
          (begin - begin / num_chunks * num_chunks) 0

    -- The calls of `Process`: it chooses among the four loops.
    unfoldable pub process_calls : ℕ → List Call
    process_calls group =
        if use_champion_group_aligned_schedule til
        then (if til.num_repeat == 3
            then group_aligned_r3_calls group
            else group_aligned_calls group)
        else if til.num_repeat == 3
        then chunk_local_calls group
        else cyclic_calls group

    -- Lane 0 has the first head of three, lane 1 the other two: `firstRepeat` is the lane.
    unfoldable pub perform : (group lane : ℕ) → List Call → M (Unit {0})
    perform group lane [] = skip
    perform group lane (single task round will_reuse ∷ calls) =
        process_pipeline_task til offsets task group lane round will_reuse
        >> perform group lane calls
    perform group lane (adjacent chunk kv_head round count ∷ calls) =
        process_adjacent_full_chunk til offsets (not (lane == 0)) chunk
          (kv_head * 3 + (if lane == 0 then 0 else 1)) group round count
        >> perform group lane calls

    unfoldable pub process : (task_ratio aiv : ℕ) → M (Unit {0})
    unfolding perform
    process task_ratio aiv = do
      let group = aiv / task_ratio
      perform group (aiv % task_ratio) (process_calls group)
      launch_ready_output til
      drain_all_output_slots
