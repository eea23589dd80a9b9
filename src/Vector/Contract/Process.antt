-- ===== src/Vector/Contract/Process.antt =====
-- The whole run of a Vector lane keeps the contract of the output queue.
use chunk_scaled_dot_kkt_asc.Prelude.{
  ℕ, ◌+◌, ◌/◌, ◌%◌, ◌*◌, ◌≡◌, not, some, List, [], ◌∷◌, arith, ◌==◌, if◌then◌else◌,
}
use chunk_scaled_dot_kkt_asc.Device.{TilingData}
use chunk_scaled_dot_kkt_asc.Vector.{fresh}
use chunk_scaled_dot_kkt_asc.Vector.Walk.{Call, single, adjacent, perform, process, process_calls}
use chunk_scaled_dot_kkt_asc.Vector.Contract.{empty_slots, replay}
use chunk_scaled_dot_kkt_asc.Vector.Contract.Phases.{Idle, launch-Idle, drain_empties}
use chunk_scaled_dot_kkt_asc.Vector.Contract.Blocks.{Keeps}
use chunk_scaled_dot_kkt_asc.Vector.Contract.Tasks.{task-Idle, adjacent-Idle}

perform-Idle :
    (til : TilingData) (offsets : ℕ → ℕ) (group lane : ℕ) (calls : List Call)
    → Keeps Idle (perform til offsets group lane calls)
unfolding perform
perform-Idle til offsets group lane [] s h = h
perform-Idle til offsets group lane (single task round reuse ∷ calls) s h =
    perform-Idle til offsets group lane calls _
      (task-Idle til offsets task group lane round reuse s h)
perform-Idle til offsets group lane (adjacent chunk kv_head round count ∷ calls) s h =
    perform-Idle til offsets group lane calls _ (
      adjacent-Idle til offsets (not (lane == 0)) chunk (kv_head * 3 + (if lane == 0 then 0 else 1))
        group round count s h)

fresh-Idle : Idle fresh
unfolding replay
fresh-Idle = ground arith

-- On every tiling data and every chunk offsets, malformed ones included, a lane's run never
-- breaches the contract of the output queue, and ends with every buffer released and every copy
-- waited for: no allocation without a free buffer, no write into a tensor that is queued or being
-- copied, no release before the copy has ended.
pub process_empties :
    (til : TilingData) (offsets : ℕ → ℕ) (task_ratio aiv : ℕ)
    → replay (process til offsets task_ratio aiv fresh).1.trace ≡ some empty_slots
unfolding process
process_empties til offsets task_ratio aiv =
    let (h, done) = launch-Idle til _ (
      perform-Idle til offsets (aiv / task_ratio) (aiv % task_ratio)
        (process_calls til offsets (aiv / task_ratio)) fresh fresh-Idle) in
    drain_empties _ h done
