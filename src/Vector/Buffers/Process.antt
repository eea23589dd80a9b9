-- ===== src/Vector/Buffers/Process.antt =====
-- The whole run of a Vector lane touches only elements of its buffers.
use chunk_scaled_dot_kkt_asc.Prelude.{
  ℕ, zero, suc, ◌+◌, ◌*◌, ◌/◌, ◌%◌, ◌≡◌, refl, ◌⊎◌, inl, inr, Bool, true, false, not, List, [], ◌∷◌,
  arith, ◌==◌, if◌then◌else◌, tabulate, Bool-cases, ltb,
}
use chunk_scaled_dot_kkt_asc.Device.{TilingData, slot_count}
use chunk_scaled_dot_kkt_asc.Schedule.{
  use_champion_group_aligned_schedule, scheduled_task_id, scheduled_task_count,
}
use chunk_scaled_dot_kkt_asc.Vector.{fresh}
use chunk_scaled_dot_kkt_asc.Vector.Walk.{
  Call, single, adjacent, cyclic_from, cyclic_calls, group_aligned_calls, perform, process,
  process_calls,
}
use chunk_scaled_dot_kkt_asc.Vector.Contract.Blocks.{Keeps}
use chunk_scaled_dot_kkt_asc.Vector.Buffers.{all_fit}
use chunk_scaled_dot_kkt_asc.Vector.Buffers.Blocks.{Fit, launch-Fit, drain-Fit}
use chunk_scaled_dot_kkt_asc.Vector.Buffers.Tasks.{task-Fit, adjacent-Fit}

-- No fused pair among the calls.
abbrev no_pairs : List Call → Bool
no_pairs [] = true
no_pairs (single _ _ _ ∷ calls) = no_pairs calls
no_pairs (adjacent _ _ _ _ ∷ calls) = false

module _ (til : TilingData) where
  cyclic-no_pairs : (fuel task round : ℕ) → no_pairs (cyclic_from til fuel task round) ≡ true
  unfolding cyclic_from
  cyclic-no_pairs zero task round = refl
  cyclic-no_pairs (suc fuel) task round =
      ground (arith, cyclic-no_pairs fuel (task + til.block_dim) (round + 1))

  tabulate-no_pairs :
      (task : ℕ → ℕ) (reuse : ℕ → Bool) (round n : ℕ)
      → no_pairs (tabulate (λ r. single (task r) r (reuse r)) round n) ≡ true
  tabulate-no_pairs task reuse round zero = refl
  tabulate-no_pairs task reuse round (suc n) = tabulate-no_pairs task reuse (round + 1) n

  calls-no_pairs :
      (offsets : ℕ → ℕ) (group : ℕ)
      → (til.num_repeat == 3) ≡ false
      → no_pairs (process_calls til offsets group) ≡ true
  unfolding process_calls cyclic_calls group_aligned_calls
  calls-no_pairs offsets group e = elim (Bool-cases (use_champion_group_aligned_schedule til)) [
    | inl aligned ↦
        let count =
          (scheduled_task_count group til.total_task_count til.hg til.block_dim false true) in
        rw (aligned, e)
          (tabulate-no_pairs
            (λ x. scheduled_task_id group x til.total_task_count til.hg til.block_dim false true)
            (λ x. ltb (x + slot_count) count) 0 count)
    | inr other ↦ rw (other, e) (cyclic-no_pairs (til.total_task_count + 1) group 0)
  ]

  perform-Fit :
      (offsets : ℕ → ℕ) (group lane : ℕ) (calls : List Call)
      → (til.num_repeat ≡ 3) ⊎ (no_pairs calls ≡ true)
      → Keeps (Fit til) (perform til offsets group lane calls)
  unfolding perform
  perform-Fit offsets group lane [] ok s h = h
  perform-Fit offsets group lane (single task round reuse ∷ calls) ok s h =
      perform-Fit offsets group lane calls ok _
        (task-Fit til offsets task group lane round reuse s h)
  perform-Fit offsets group lane (adjacent chunk kv_head round count ∷ calls) (inl three) s h =
      perform-Fit offsets group lane calls (inl three) _ (
        adjacent-Fit til offsets (not (lane == 0)) chunk
          (kv_head * 3 + (if lane == 0 then 0 else 1)) group round count three s h)
  perform-Fit offsets group lane (adjacent chunk kv_head round count ∷ calls) (inr none_there) s h =
      absurd (ground arith)

  fresh-Fit : Fit til fresh
  unfolding all_fit
  fresh-Fit = ground arith

-- On every tiling data and every chunk offsets, malformed ones included, every instruction and
-- every copy of a lane's run touches only elements inside the local buffers as `Init` sizes them:
-- its operands and its result begin and end in their buffers.
pub process-all_fit :
    (til : TilingData) (offsets : ℕ → ℕ) (task_ratio aiv : ℕ)
    → all_fit til.num_repeat (process til offsets task_ratio aiv fresh).1.trace ≡ true
unfolding process
process-all_fit til offsets task_ratio aiv =
    let group = aiv / task_ratio in
    let allowed : (til.num_repeat ≡ 3) ⊎ (no_pairs (process_calls til offsets group) ≡ true) =
      elim (Bool-cases (til.num_repeat == 3)) [
        | inl three ↦ inl (ground arith)
        | inr other ↦ inr (calls-no_pairs til offsets group other)
      ] in
    (drain-Fit til _ (
      launch-Fit til _ (
        perform-Fit til offsets group (aiv % task_ratio) (process_calls til offsets group) allowed
          fresh (fresh-Fit til)))).fit
