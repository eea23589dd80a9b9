-- ===== src/Vector/Values/Run.antt =====
-- The whole run of a lane: the output is what the schedule asks.
use chunk_scaled_dot_kkt_asc.Prelude.{
  ℕ, suc, ◌+◌, ◌-◌, ◌*◌, ◌%◌, ◌^◌, ◌≤◌, ◌<◌, ◌≡◌, ◌∙◌, Bool, true, not, List, [], ◌∷◌, arith, refl,
  ap, sym, if◌then◌else◌, ◌==◌, subst,
}
use chunk_scaled_dot_kkt_asc.Device.{TilingData, bt}
use chunk_scaled_dot_kkt_asc.Vector.{Vector}
use chunk_scaled_dot_kkt_asc.Vector.Load.{can_fuse_adjacent_full_chunks}
use chunk_scaled_dot_kkt_asc.Vector.Task.{process_pipeline_task, process_adjacent_full_chunk}
use chunk_scaled_dot_kkt_asc.Vector.Walk.{Call, single, adjacent, perform}
use chunk_scaled_dot_kkt_asc.Vector.Turns.{turns}
use chunk_scaled_dot_kkt_asc.Vector.Values.{Arithmetic}
use chunk_scaled_dot_kkt_asc.Vector.Values.Lane.{Inputs, Lane, Hardware}
use chunk_scaled_dot_kkt_asc.Vector.Values.Delayed.{settled}
use chunk_scaled_dot_kkt_asc.Vector.Values.Fusion.{Fusable}
use chunk_scaled_dot_kkt_asc.Vector.Values.Rows.{element}
use chunk_scaled_dot_kkt_asc.Vector.Values.Tile.{Written}
use chunk_scaled_dot_kkt_asc.Vector.Values.Tasks.{Between, TaskDone}
use chunk_scaled_dot_kkt_asc.Vector.Values.PipelineTask.{
  chunk_of, share_of_task, process_pipeline_task-TaskDone,
}
use chunk_scaled_dot_kkt_asc.Vector.Values.Adjacent.{
  PairDone, PairWritten, process_adjacent-PairDone,
}
use chunk_scaled_dot_kkt_asc.Vector.Values.Expected.{
  task_value, expected, fused-chunks, full_value, full_task-value,
}

-- The waits for READY that the calls make.
abbrev pub rounds_of : List Call → ℕ
rounds_of [] = 0
rounds_of (single task round reuse ∷ calls) = suc (rounds_of calls)
rounds_of (adjacent chunk kv_head round count ∷ calls) = suc (suc (rounds_of calls))

module _ (a : Arithmetic) (inputs : Inputs a) (hw : Hardware a inputs) (til : TilingData)
    (l0 : Lane a) (offsets : ℕ → ℕ) (small : (i : ℕ) → offsets i < 2 ^ 31)
    (narrow : til.t * 4 < 2 ^ 32) (group lane : ℕ) (lane_lt : lane < 2) where
  open a use {Float}

  -- Both chunks of a pair, as two tasks.
  two_tasks :
      (chunk kv_head k round h row j : ℕ) (old : Float)
      → til.num_repeat ≡ 3
      → kv_head < til.hg
      → can_fuse_adjacent_full_chunks til.t offsets chunk ≡ true
      → task_value a inputs til offsets group lane
          (suc k)
          (round + 1)
          ((chunk + 1) * til.hg + kv_head)
          h
          row
          j
          (task_value a inputs til offsets group lane k round
            (chunk * til.hg + kv_head)
            h
            row
            j
            old)
        ≡ full_value a inputs til offsets group lane kv_head
            (offsets chunk + 64)
            (suc k)
            (round + 1)
            h
            row
            j
            (full_value a inputs til offsets group lane kv_head (offsets chunk) k round h row j old)
  two_tasks chunk kv_head k round h row j old three below fuse =
      let (e1, e2, inside) = fused-chunks a inputs til offsets group lane chunk small fuse in
      let index : chunk + 1 + 1 ≡ chunk + 2 = omega arith in
      let next : offsets (chunk + 1 + 1) ≡ offsets (chunk + 1) + 64 =
        ap offsets index ∙ omega arith in
      full_task-value a inputs til offsets group lane (chunk + 1) kv_head (suc k) (round + 1) h row
        j
        (task_value a inputs til offsets group lane k round (chunk * til.hg + kv_head) h row j old)
        lane_lt three below small next (omega arith)
      ∙ (λ i.
          full_value a inputs til offsets group lane kv_head (e1 i) (suc k) (round + 1) h row j (
            full_task-value a inputs til offsets group lane chunk kv_head k round h row j old
              lane_lt three below small e1 (omega arith) i))

  Written-task_value :
      (k round task : ℕ) (now before : ℕ → Float)
      → Written a inputs til
          (chunk_of til offsets group round k task)
          (share_of_task til offsets lane task).row_start
          (share_of_task til offsets lane task).row_count
          (task % til.hg * til.num_repeat + (share_of_task til offsets lane task).first_repeat)
          ((share_of_task til offsets lane task).repeat_end
            - (share_of_task til offsets lane task).first_repeat)
          now
          before
      → (h row j : ℕ) → row < til.t
      → j < 64
      → now (element til.t h row j)
        ≡ task_value a inputs til offsets group lane k round task h row j
            (before (element til.t h row j))
  unfolding Written task_value
  Written-task_value k round task now before written h row j in_t col = written h row j in_t col

  written-full_value :
      (start : ℕ) (inside : start + 2 * bt ≤ til.t) (kv_head k round : ℕ) (now before : ℕ → Float)
      → PairWritten a inputs hw til l0 k group round start inside narrow
          (not (lane == 0))
          (kv_head * 3 + (if lane == 0 then 0 else 1))
          now
          before
      → (h row j : ℕ) → row < til.t
      → j < 64
      → now (element til.t h row j)
        ≡ full_value a inputs til offsets group lane kv_head
            (start + 64)
            (suc k)
            (round + 1)
            h
            row
            j
            (full_value a inputs til offsets group lane kv_head start k round h row j
              (before (element til.t h row j)))
  unfolding PairWritten full_value
  written-full_value start inside kv_head k round now before written h row j in_t col =
      ground (arith, written h row j in_t col)

  -- What a run of calls does.
  pub record RunDone (k : ℕ) (calls : List Call) (s u : Vector) : Type 0 where
    pub run_written :
        (h row j : ℕ)
        → row < til.t
        → j < 64
        → settled a inputs hw til l0 u (element til.t h row j)
          ≡ expected a inputs til offsets group lane k
              (turns til.hg calls)
              h
              row
              j
              (settled a inputs hw til l0 s (element til.t h row j))
    pub run_between : Between a inputs hw til l0 (rounds_of calls + k) u

  done_with :
      (n m : ℕ) (u : Vector)
      → n ≡ m
      → Between a inputs hw til l0 n u
      → Between a inputs hw til l0 m u
  done_with n m u e between = subst (λ (x : ℕ). Between a inputs hw til l0 x u) e between

  single-RunDone :
      (task round k : ℕ) (reuse : Bool) (calls : List Call) (s u v : Vector)
      → TaskDone a inputs hw til l0
          (chunk_of til offsets group round k task)
          (share_of_task til offsets lane task)
          (task % til.hg)
          reuse
          s
          u
      → RunDone (suc k) calls u v
      → RunDone k (single task round reuse ∷ calls) s v
  unfolding expected
  single-RunDone task round k reuse calls s u v done rest = record {
    run_written = λ h row j in_t col.
        rest.run_written h row j in_t col
        ∙ ap (expected a inputs til offsets group lane (suc k) (turns til.hg calls) h row j) (
            Written-task_value k round task (settled a inputs hw til l0 u)
              (settled a inputs hw til l0 s) done.task_written h row j in_t col);
    run_between =
        done_with (rounds_of calls + suc k) (suc (rounds_of calls) + k) v (omega arith)
          rest.run_between;
  }

  adjacent-RunDone :
      (chunk kv_head round count k : ℕ) (inside : offsets chunk + 2 * bt ≤ til.t)
      (calls : List Call) (s u v : Vector)
      → til.num_repeat ≡ 3
      → kv_head < til.hg
      → can_fuse_adjacent_full_chunks til.t offsets chunk ≡ true
      → PairDone a inputs hw til l0 k group round
          (offsets chunk)
          inside
          narrow
          (not (lane == 0))
          (kv_head * 3 + (if lane == 0 then 0 else 1))
          s
          u
      → RunDone (suc (suc k)) calls u v
      → RunDone k (adjacent chunk kv_head round count ∷ calls) s v
  unfolding expected
  adjacent-RunDone chunk kv_head round count k inside calls s u v three below fuse done rest =
      record {
        run_written = λ h row j in_t col.
            let old = settled a inputs hw til l0 s (element til.t h row j) in
            rest.run_written h row j in_t col
            ∙ ap
                (expected a inputs til offsets group lane (suc (suc k)) (turns til.hg calls) h row
                  j)
                (written-full_value (offsets chunk) inside kv_head k round
                    (settled a inputs hw til l0 u) (settled a inputs hw til l0 s) done.pair_written
                    h row j in_t col
                  ∙ sym (two_tasks chunk kv_head k round h row j old three below fuse));
        run_between =
            done_with (rounds_of calls + suc (suc k)) (suc (suc (rounds_of calls)) + k) v
              (omega arith) rest.run_between;
      }

  pub perform-RunDone :
      (calls : List Call) (k : ℕ) (s : Vector)
      → Fusable til offsets calls
      → Between a inputs hw til l0 k s
      → RunDone k calls s (perform til offsets group lane calls s).1
  unfolding perform expected
  perform-RunDone [] k s fusable before = record {
    run_written = λ h row j in_t col. refl;
    run_between = done_with k (0 + k) s (omega arith) before;
  }
  perform-RunDone (single task round reuse ∷ calls) k s fusable before =
      let done =
        process_pipeline_task-TaskDone a inputs hw til l0 offsets task group lane round reuse k s
          small narrow before in
      let u = (process_pipeline_task til offsets task group lane round reuse s).1 in
      single-RunDone task round k reuse calls s u (perform til offsets group lane calls u).1 done
        (perform-RunDone calls (suc k) u fusable done.task_between)
  perform-RunDone (adjacent chunk kv_head round count ∷ calls) k s (three, below, fuse, fusable)
        before =
      let (e1, e2, inside) = fused-chunks a inputs til offsets group lane chunk small fuse in
      let head = kv_head * 3 + (if lane == 0 then 0 else 1) in
      let u =
        (process_adjacent_full_chunk til offsets (not (lane == 0)) chunk head group round count
          s).1 in
      let done =
        process_adjacent-PairDone a inputs hw til l0 k group round (offsets chunk) inside narrow
          (not (lane == 0)) head offsets chunk count s refl e1 before in
      adjacent-RunDone chunk kv_head round count k inside calls s u
        (perform til offsets group lane calls u).1 three below fuse done
        (perform-RunDone calls (suc (suc k)) u fusable done.pair_between)
