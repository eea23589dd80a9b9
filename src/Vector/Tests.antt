-- ===== src/Vector/Tests.antt =====
-- Runs of the vector stage on concrete launches.
use chunk_scaled_dot_kkt_asc.Prelude.{
  ℕ, ◌*◌, ◌≡◌, some, none, arith, true, ◌<◌, ◌≤◌, ◌↔◌, ◌^◌, ◌-◌, ◌+◌, refl,
}
use chunk_scaled_dot_kkt_asc.Schedule.Tests.{local_launch, local_launch-IsLaunch, local_launch-few}
use chunk_scaled_dot_kkt_asc.Vector.{fresh}
use chunk_scaled_dot_kkt_asc.Vector.Task.{Share, share_of}
use chunk_scaled_dot_kkt_asc.Vector.Shares.{IsShared, share_of-IsShared, InBatch, batches_cover}
use chunk_scaled_dot_kkt_asc.Vector.Load.{is_valid_chunk}
use chunk_scaled_dot_kkt_asc.Vector.Output.{
  queue_delayed_single_output, queue_delayed_pair_output, queue_delayed_chunk_pair_output,
}
use chunk_scaled_dot_kkt_asc.Vector.Copies.{
  lands, launched, tile_lands, pair-lands, chunk_pair-lands,
}
use chunk_scaled_dot_kkt_asc.Vector.Values.Rows.{element, single-lands}
use chunk_scaled_dot_kkt_asc.Vector.Walk.{process_calls, process}
use chunk_scaled_dot_kkt_asc.Vector.Turns.{turns, scheduled_turns}
use chunk_scaled_dot_kkt_asc.Vector.Agreement.{turns-process_calls}
use chunk_scaled_dot_kkt_asc.Schedule.{task_count}
use chunk_scaled_dot_kkt_asc.Vector.Handshake.{before_round, follow}
use chunk_scaled_dot_kkt_asc.Vector.Handshake.Process.{process_follows}
use chunk_scaled_dot_kkt_asc.Vector.Contract.{replay, empty_slots}
use chunk_scaled_dot_kkt_asc.Vector.Contract.Process.{process_empties}
use chunk_scaled_dot_kkt_asc.Vector.Prefetch.{replay_pairs, no_pairs}
use chunk_scaled_dot_kkt_asc.Vector.Prefetch.Process.{process-no_pairs}
use chunk_scaled_dot_kkt_asc.Vector.Buffers.{all_fit, init_bytes, init_bytes_bound}
use chunk_scaled_dot_kkt_asc.Vector.Buffers.Process.{process-all_fit}

-- Chunk i starts at row 64 * i.
abbrev full_chunks : ℕ → ℕ
full_chunks i = 64 * i

turns-process_calls_example :
    turns 16 (process_calls local_launch full_chunks 3) ≡ scheduled_turns local_launch 3
turns-process_calls_example =
    turns-process_calls local_launch full_chunks 3 local_launch-IsLaunch (omega arith)
      local_launch-few

process_empties_example :
    replay (process local_launch full_chunks 2 7 fresh).1.trace ≡ some empty_slots
process_empties_example = process_empties local_launch full_chunks 2 7

process-no_pairs_example :
    replay_pairs (process local_launch full_chunks 2 7 fresh).1.trace ≡ some no_pairs
process-no_pairs_example = process-no_pairs local_launch full_chunks 2 7

process-all_fit_example : all_fit 3 (process local_launch full_chunks 2 7 fresh).1.trace ≡ true
process-all_fit_example = process-all_fit local_launch full_chunks 2 7

init_bytes_bound_example : init_bytes 3 ≤ 192 * 1024
init_bytes_bound_example = init_bytes_bound 3

-- A chunk far behind the sequence, its end a negative number, passes the test.
wrapped_chunk_test : is_valid_chunk 2560 (2 ^ 31 - 10) (2 ^ 31 + 10) ≡ true
unfolding is_valid_chunk
wrapped_chunk_test = refl

process_follows_example :
    follow 3 (task_count local_launch 3) (process local_launch full_chunks 2 7 fresh).1.trace
    ≡ some (before_round (task_count local_launch 3) (task_count local_launch 3))
process_follows_example =
    process_follows local_launch full_chunks 2 7 local_launch-IsLaunch (omega arith)
      local_launch-few

share_of-IsShared_example : IsShared (λ lane. share_of 3 lane 50 true) 3 50
share_of-IsShared_example = share_of-IsShared 3 50 (omega arith) (omega arith)

-- Three heads, so two batches, the last of one head.
abbrev three_heads : Share
three_heads = record { row_start = 0; row_count = 64; first_repeat = 1; repeat_end = 4 }

batches_cover_example : ((1 ≤ 3) × (3 < 4)) ↔ (
    (batch : ℕ) × InBatch three_heads 3 batch
    × ((other : ℕ) → InBatch three_heads 3 other → other ≡ batch))
batches_cover_example = batches_cover three_heads 3

-- Row 165 lies in rows 160 to 177 of the batch, as the sixth of them.
single-lands_example :
    lands
      (launched local_launch (queue_delayed_single_output local_launch 1 2 128 32 18 fresh).1)
      (element 2560 2 165 9)
    ≡ some (5 * 64 + 9)
single-lands_example =
    single-lands local_launch fresh 1 2 128 32 18 2 165 9 (omega arith) (omega arith) (omega arith)

pair-lands_example :
    lands
      (launched local_launch (queue_delayed_pair_output local_launch 0 1 128 4096 fresh).1)
      336000
    ≡ tile_lands local_launch 1 128 64 0 336000 (tile_lands local_launch 2 128 64 4096 336000 none)
pair-lands_example = pair-lands local_launch fresh 0 1 128 64 336000 (omega arith) (omega arith)

chunk_pair-lands_example :
    lands
      (launched local_launch (queue_delayed_chunk_pair_output local_launch 0 1 128 2 fresh).1)
      336000
    ≡ tile_lands local_launch 1 128 128 0 336000
        (tile_lands local_launch 2 128 128 8192 336000 none)
chunk_pair-lands_example = chunk_pair-lands local_launch fresh 0 1 128 2 336000 (omega arith)
