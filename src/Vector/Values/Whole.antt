-- ===== src/Vector/Values/Whole.antt =====
-- `Process` of a Vector lane: what its run leaves in the output tensor.
use Prim.Native.Nat.{bit_and}
use chunk_scaled_dot_kkt_asc.Prelude.{
  ℕ, ◌*◌, ◌/◌, ◌%◌, ◌^◌, ◌<◌, ◌≡◌, ◌∙◌, Bool, Bool-cases, inl, inr, [], refl, ap, ◌==◌, zero, suc,
  ◌+◌, tabulate,
}
use chunk_scaled_dot_kkt_asc.Device.{TilingData, IsLaunch}
use chunk_scaled_dot_kkt_asc.Schedule.{task_id, task_count}
use chunk_scaled_dot_kkt_asc.Vector.{Vector, fresh}
use chunk_scaled_dot_kkt_asc.Vector.Output.{
  slot_bit, launch_ready_output, retire, free_output_slot, drain_all_output_slots,
}
use chunk_scaled_dot_kkt_asc.Vector.Walk.{process_calls, perform, process}
use chunk_scaled_dot_kkt_asc.Vector.Turns.{scheduled_turns}
use chunk_scaled_dot_kkt_asc.Vector.Agreement.{turns-planned}
use chunk_scaled_dot_kkt_asc.Vector.Values.{Arithmetic}
use chunk_scaled_dot_kkt_asc.Vector.Values.Lane.{
  Inputs, Lane, Hardware, execute, documented, execute-documented,
}
use chunk_scaled_dot_kkt_asc.Vector.Values.Delayed.{settled, settled-none}
use chunk_scaled_dot_kkt_asc.Vector.Values.Rows.{element}
use chunk_scaled_dot_kkt_asc.Vector.Values.Tasks.{Between}
use chunk_scaled_dot_kkt_asc.Vector.Values.Expected.{expected}
use chunk_scaled_dot_kkt_asc.Vector.Values.Fusion.{process_calls-Fusable}
use chunk_scaled_dot_kkt_asc.Vector.Values.Run.{perform-RunDone}

-- A lane at the start of the kernel: no queue holds a tensor and no READY was awaited.
pub record Starts (a : Arithmetic) (l : Lane a) : Type 0 where
  pub none_queued : l.queued ≡ []
  pub none_loaded : l.loaded ≡ []
  pub none_seen : l.ready_seen ≡ 0

module _ (a : Arithmetic) (inputs : Inputs a) (hw : Hardware a inputs) (l0 : Lane a) where
  abbrev at : Vector → Lane a
  at s = documented a inputs hw s.trace l0

  retire-lane : (slot : ℕ) (s : Vector) → at (retire slot s).1 ≡ at s
  unfolding retire free_output_slot documented
  retire-lane slot s = elim (Bool-cases (bit_and s.output_slot_busy_mask (slot_bit slot) == 0)) [
    | inl idle ↦ rw idle refl
    | inr busy ↦ rw busy refl
  ]

  drain-lane : (s : Vector) → at (drain_all_output_slots s).1 ≡ at s
  unfolding drain_all_output_slots
  drain-lane s = retire-lane 1 (retire 0 s).1 ∙ retire-lane 0 s

  Starts-Between : (til : TilingData) → Starts a l0 → Between a inputs hw til l0 0 fresh
  unfolding documented
  Starts-Between til starts = record {
    between_queued = starts.none_queued;
    between_loaded = starts.none_loaded;
    between_seen = starts.none_seen;
  }

  fresh-settled : (til : TilingData) → settled a inputs hw til l0 fresh ≡ l0.output
  unfolding documented
  fresh-settled til = settled-none a inputs hw til l0 fresh refl

  process-settled :
      (til : TilingData) (offsets : ℕ → ℕ) (task_ratio aiv : ℕ)
      → (at (process til offsets task_ratio aiv fresh).1).output
        ≡ settled a inputs hw til l0
            (perform til offsets
              (aiv / task_ratio)
              (aiv % task_ratio)
              (process_calls til offsets (aiv / task_ratio))
              fresh).1
  unfolding process settled
  process-settled til offsets task_ratio aiv =
      let u =
        (perform til offsets (aiv / task_ratio) (aiv % task_ratio)
          (process_calls til offsets (aiv / task_ratio)) fresh).1 in
      ap (λ (l : Lane a). l.output) (drain-lane (launch_ready_output til u).1)

  -- It does not matter whether a turn frees its slot.
  expected_reuse :
      (til : TilingData) (offsets : ℕ → ℕ) (group lane : ℕ) (task : ℕ → ℕ) (r0 r1 : ℕ → Bool)
      → (k lo n h row j : ℕ) → (old : a.Float)
      → expected a inputs til offsets group lane k
          (tabulate (λ r. record { round = r; task = task r; reuse = r0 r }) lo n)
          h
          row
          j
          old
        ≡ expected a inputs til offsets group lane k
            (tabulate (λ r. record { round = r; task = task r; reuse = r1 r }) lo n)
            h
            row
            j
            old
  unfolding expected
  expected_reuse til offsets group lane task r0 r1 k lo zero h row j old = refl
  expected_reuse til offsets group lane task r0 r1 k lo (suc n) h row j old =
      expected_reuse til offsets group lane task r0 r1 (suc k) (lo + 1) n h row j _

-- What a lane of a group of a launch leaves in the output tensor is what the group's schedule asks:
-- turn by turn the lane's rows of the lane's heads get the values of the task's tile, whichever
-- loop, batches, fused pairs and delayed copies `Process` uses for it. The conditions: the chunk
-- offsets lie below 2^31, the sequence is shorter than 2^30, and the lane starts with empty queues.
pub process-expected :
    (a : Arithmetic) (inputs : Inputs a) (hw : Hardware a inputs) (l0 : Lane a) (til : TilingData)
    (offsets : ℕ → ℕ) (task_ratio aiv : ℕ)
    → IsLaunch til
    → aiv / task_ratio < til.block_dim
    → aiv % task_ratio < 2
    → ((i : ℕ) → offsets i < 2 ^ 31)
    → til.t * 4 < 2 ^ 32
    → Starts a l0
    → (h row j : ℕ) → row < til.t
    → j < 64
    → (execute a inputs hw (process til offsets task_ratio aiv fresh).1.trace l0).output
        (element til.t h row j)
      ≡ expected a inputs til offsets
          (aiv / task_ratio)
          (aiv % task_ratio)
          0
          (scheduled_turns til (aiv / task_ratio))
          h
          row
          j
          (l0.output (element til.t h row j))
process-expected a inputs hw l0 til offsets task_ratio aiv ok lt lane_lt small narrow starts h row j
      in_t col =
    let group = aiv / task_ratio in
    let lane = aiv % task_ratio in
    let x = element til.t h row j in
    let calls = process_calls til offsets group in
    let done =
      perform-RunDone a inputs hw til l0 offsets small narrow group lane lane_lt calls 0 fresh
        (process_calls-Fusable til offsets group ok lt)
        (Starts-Between a inputs hw l0 til starts) in
    ap (λ (l : Lane a). l.output x)
      (execute-documented a inputs hw (process til offsets task_ratio aiv fresh).1.trace l0)
    ∙ ap (λ (o : ℕ → a.Float). o x) (process-settled a inputs hw l0 til offsets task_ratio aiv)
    ∙ done.run_written h row j in_t col
    ∙ (λ i.
        expected a inputs til offsets group lane 0 (turns-planned til offsets group ok lt i) h row j
          (fresh-settled a inputs hw l0 til i x))
    ∙ expected_reuse a inputs hw l0 til offsets group lane (task_id til group) _ _ 0 0
        (task_count til group) h row j (l0.output x)
