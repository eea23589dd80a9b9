-- ===== src/Pipeline/Tests.antt =====
-- Runs of a MIX group on a launch of two tasks.
use chunk_scaled_dot_kkt_asc.Prelude.{
  ℕ, zero, suc, ◌+◌, ◌*◌, ◌^◌, ◌≤◌, ◌≡◌, refl, ◌⊎◌, inl, false, Option, none, some, List, [], ◌∷◌,
  arith,
}
use chunk_scaled_dot_kkt_asc.Device.{TilingData, IsLaunch}
use chunk_scaled_dot_kkt_asc.Device.{ready_flag_for_slot, free_flag_for_slot, is_late_round}
use chunk_scaled_dot_kkt_asc.Schedule.{
  task_count, task_id, scheduled_task_count, scheduled_task_id, use_champion_group_aligned_schedule,
  chunk_local,
}
use chunk_scaled_dot_kkt_asc.Vector.Walk.{process_calls, cyclic_calls, cyclic_from, perform}
use chunk_scaled_dot_kkt_asc.Vector.Walk
use chunk_scaled_dot_kkt_asc.Vector.Output.{
  drain_all_output_slots, retire, free_output_slot, acquire_output_slot, launch_ready_output,
  launch_output, copy_ready_output, queue_delayed_single_output,
}
use chunk_scaled_dot_kkt_asc.Vector.Load.{
  is_valid_chunk, complete_kkt_load_and_release_slot, begin_load_kkt_slot,
  prefetch_gate_and_beta_batch,
}
use chunk_scaled_dot_kkt_asc.Vector.Factor.{
  prepare_head_factor, single_start, single_rows, finalize_head_with_kkt,
}
use chunk_scaled_dot_kkt_asc.Vector.Task.{
  process_pipeline_task, process_head_range, head_batch, first_batch, prefetch_next, share_of,
}
use chunk_scaled_dot_kkt_asc.Vector.Task
use chunk_scaled_dot_kkt_asc.Vector.Handshake.{Lane, in_round, loading_in}
use chunk_scaled_dot_kkt_asc.Vector.Handshake
use chunk_scaled_dot_kkt_asc.Cube.Handshake.{Aic, at_round}
use chunk_scaled_dot_kkt_asc.Cube.Handshake as AicSide
use chunk_scaled_dot_kkt_asc.Cube
use chunk_scaled_dot_kkt_asc.Cube.K128
use chunk_scaled_dot_kkt_asc.Pipeline.{
  run_cube_stage, run_vector_stage, Side, System, side_next, aic_next, Step, by_aic, by_side0,
  by_side1, start, Reach, begin, later,
}
use chunk_scaled_dot_kkt_asc.Pipeline.Safety.{reads, no_overlap, reads_current}
use chunk_scaled_dot_kkt_asc.Pipeline.Finish.{IsClear, finished_clears}
use chunk_scaled_dot_kkt_asc.Pipeline.Progress.{IsFinished, left, some_end, group_completes}

-- Two chunks of one KV head with two heads, on one group.
abbrev launch : TilingData
launch = record { total_task_count = 2; t = 128; hg = 1; block_dim = 1; num_repeat = 2 }

launch-IsLaunch : IsLaunch launch
launch-IsLaunch = record { hg_pos = omega arith; block_pos = omega arith; whole = refl }

launch-few : task_count launch 0 ≤ 2 ^ 31
unfolding task_count scheduled_task_count use_champion_group_aligned_schedule chunk_local
launch-few = omega arith

abbrev full_chunks : ℕ → ℕ
full_chunks i = 64 * i

data Core : Type 0 where
  aic aiv0 aiv1 : Core

-- The next command of a core; nothing where it is blocked or at its end.
abbrev turn_of : Core → System → System
turn_of aic s = elim (aic_next s s.aic) [ none ↦ s | some t ↦ t ]
turn_of aiv0 s = elim (side_next s.side0 s.side0.program) [
  | none ↦ s
  | some t ↦ record s { side0 = t }
]
turn_of aiv1 s = elim (side_next s.side1 s.side1.program) [
  | none ↦ s
  | some t ↦ record s { side1 = t }
]

abbrev repeat : ℕ → Core → System → System
repeat zero c s = s
repeat (suc n) c s = repeat n c (turn_of c s)

module _ (k_mode : ℕ) (til : TilingData) (offsets : ℕ → ℕ) (group : ℕ) where
  aic-Reach :
      (s : System) (o : Option System)
      → aic_next s s.aic ≡ o
      → Reach k_mode til offsets group s
      → Reach k_mode til offsets group (elim o [ none ↦ s | some t ↦ t ])
  aic-Reach s none e reach = reach
  aic-Reach s (some t) e reach = later reach (by_aic e)

  aiv0-Reach :
      (s : System) (o : Option Side)
      → side_next s.side0 s.side0.program ≡ o
      → Reach k_mode til offsets group s
      → Reach k_mode til offsets group (elim o [ none ↦ s | some t ↦ record s { side0 = t } ])
  aiv0-Reach s none e reach = reach
  aiv0-Reach s (some t) e reach = later reach (by_side0 e)

  aiv1-Reach :
      (s : System) (o : Option Side)
      → side_next s.side1 s.side1.program ≡ o
      → Reach k_mode til offsets group s
      → Reach k_mode til offsets group (elim o [ none ↦ s | some t ↦ record s { side1 = t } ])
  aiv1-Reach s none e reach = reach
  aiv1-Reach s (some t) e reach = later reach (by_side1 e)

  repeat-Reach :
      (n : ℕ) (c : Core) (s : System)
      → Reach k_mode til offsets group s
      → Reach k_mode til offsets group (repeat n c s)
  repeat-Reach zero c s reach = reach
  repeat-Reach (suc n) aic s reach = repeat-Reach n aic _ (aic-Reach s _ refl reach)
  repeat-Reach (suc n) aiv0 s reach = repeat-Reach n aiv0 _ (aiv0-Reach s _ refl reach)
  repeat-Reach (suc n) aiv1 s reach = repeat-Reach n aiv1 _ (aiv1-Reach s _ refl reach)

-- The AIC before its first write and after its whole run, and a lane in its first read.
abbrev before_write : System
before_write = repeat 38 aic (start 0 launch full_chunks 0)

abbrev produced : System
produced = repeat 100 aic (start 0 launch full_chunks 0)

abbrev reading : System
reading = repeat 12 aiv0 produced

abbrev rest_of : List Cube.Command → List Cube.Command
rest_of [] = []
rest_of (c ∷ cs) = cs

write_next : before_write.aic ≡ Cube.fixpipe 0 ∷ rest_of before_write.aic
unfolding start K128.process task_count scheduled_task_count use_champion_group_aligned_schedule
    chunk_local is_valid_chunk task_id scheduled_task_id is_late_round
write_next = refl

read_now : Handshake.follow 0 (task_count launch 0) reading.side0.past ≡ some (loading_in 2 0)
unfolding start is_late_round run_cube_stage run_vector_stage Handshake.follow ready_flag_for_slot
    free_flag_for_slot task_count task_id scheduled_task_count scheduled_task_id
    use_champion_group_aligned_schedule chunk_local process_calls cyclic_calls cyclic_from perform
    Walk.process drain_all_output_slots retire free_output_slot acquire_output_slot
    launch_ready_output launch_output copy_ready_output queue_delayed_single_output is_valid_chunk
    complete_kkt_load_and_release_slot begin_load_kkt_slot prefetch_gate_and_beta_batch
    prepare_head_factor single_start single_rows finalize_head_with_kkt process_pipeline_task
    process_head_range head_batch first_batch prefetch_next share_of Task.process_chunk K128.process
    K128.init_persistent_events K128.drain_persistent_events K128.process_round K128.process_chunk
    K128.init_l0_events K128.drain_l0_events K128.compute_gram K128.compute_one_k_part
    K128.commit_workspace K128.copy_packed_k_to_shared_l1 K128.load_k_part_to_l0a
    K128.load_k_part_to_l0b
read_now = refl

-- Some end of the group's run.
abbrev end_of_run : (t : System) × Reach 0 launch full_chunks 0 t × IsFinished t
end_of_run = some_end 0 launch full_chunks 0 launch-IsLaunch (omega arith) launch-few _ begin

no_overlap_example :
    (reads 0 (Handshake.follow 0 (task_count launch 0) before_write.side0.past) 0 ≡ false)
    × (reads 0 (Handshake.follow 0 (task_count launch 0) before_write.side1.past) 0 ≡ false)
no_overlap_example =
    no_overlap 0 launch full_chunks 0 before_write 0 (rest_of before_write.aic) launch-IsLaunch
      (omega arith) launch-few (repeat-Reach 0 launch full_chunks 0 38 aic _ begin) write_next

produced_now : AicSide.state_after 0 (task_count launch 0) reading.aic_past ≡ some (at_round 2)
unfolding start is_late_round run_cube_stage run_vector_stage Handshake.follow ready_flag_for_slot
    free_flag_for_slot task_count task_id scheduled_task_count scheduled_task_id
    use_champion_group_aligned_schedule chunk_local process_calls cyclic_calls cyclic_from perform
    Walk.process drain_all_output_slots retire free_output_slot acquire_output_slot
    launch_ready_output launch_output copy_ready_output queue_delayed_single_output is_valid_chunk
    complete_kkt_load_and_release_slot begin_load_kkt_slot prefetch_gate_and_beta_batch
    prepare_head_factor single_start single_rows finalize_head_with_kkt process_pipeline_task
    process_head_range head_batch first_batch prefetch_next share_of Task.process_chunk K128.process
    K128.init_persistent_events K128.drain_persistent_events K128.process_round K128.process_chunk
    K128.init_l0_events K128.drain_l0_events K128.compute_gram K128.compute_one_k_part
    K128.commit_workspace K128.copy_packed_k_to_shared_l1 K128.load_k_part_to_l0a
    K128.load_k_part_to_l0b
produced_now = refl

reads_current_example : (1 ≤ 2) × (2 ≤ 1 + 1) × ((2 ≤ 1) ⊎ ((at_round 2).waited ≡ false))
reads_current_example =
    reads_current 0 launch full_chunks 0 reading (at_round 2) (loading_in 2 0) launch-IsLaunch
      (omega arith) launch-few
      (repeat-Reach 0 launch full_chunks 0 12 aiv0 _
        (repeat-Reach 0 launch full_chunks 0 100 aic _ begin))
      produced_now (inl read_now) refl

group_completes_example :
    (IsFinished before_write ⊎ ((t : System) × Step before_write t))
    × ((t : System) → Step before_write t → suc (left t) ≡ left before_write)
group_completes_example =
    group_completes 0 launch full_chunks 0 before_write launch-IsLaunch (omega arith) launch-few
      (repeat-Reach 0 launch full_chunks 0 38 aic _ begin)

finished_clears_example : IsClear end_of_run.0.side0 × IsClear end_of_run.0.side1
finished_clears_example =
    finished_clears 0 launch full_chunks 0 end_of_run.0 launch-IsLaunch (omega arith) launch-few
      end_of_run.1 end_of_run.2
