-- ===== src/Vector/Handshake/Process.antt =====
-- The whole run of a Vector lane goes through the protocol's rounds.
use chunk_scaled_dot_kkt_asc.Prelude.{
  ℕ, zero, suc, ◌+◌, ◌*◌, ◌/◌, ◌%◌, ◌^◌, ◌≤◌, ◌<◌, ◌≡◌, refl, subst, ltb, not, some, List, [], ◌∷◌,
  arith, ◌==◌, if◌then◌else◌, tabulate,
}
use chunk_scaled_dot_kkt_asc.Device.{TilingData, IsLaunch, slot_count, slot_reused}
use chunk_scaled_dot_kkt_asc.Schedule.{task_count, task_id}
use chunk_scaled_dot_kkt_asc.Vector.{fresh, Vector}
use chunk_scaled_dot_kkt_asc.Vector.Output.{drain_all_output_slots}
use chunk_scaled_dot_kkt_asc.Vector.Walk.{Call, single, adjacent, perform, process, process_calls}
use chunk_scaled_dot_kkt_asc.Vector.Turns.{Turn, turn, turns}
use chunk_scaled_dot_kkt_asc.Vector.Agreement.{turns-process_calls}
use chunk_scaled_dot_kkt_asc.Vector.Handshake.{before_round, follow}
use chunk_scaled_dot_kkt_asc.Vector.Handshake.Blocks.{At, Quiet, retire-Quiet, launch-Quiet}
use chunk_scaled_dot_kkt_asc.Vector.Handshake.Tasks.{task-ends, adjacent-ends}

module _ (til : TilingData) (offsets : ℕ → ℕ) (group lane count : ℕ) (id : ℕ → ℕ) where
  abbrev planned : ℕ → Turn
  planned round = turn round (id round) count

  perform-rounds :
      (calls : List Call) (n round : ℕ)
      → turns til.hg calls ≡ tabulate planned round n
      → round + n ≡ count
      → count ≤ 2 ^ 31
      → (s : Vector) → At group count (before_round count round) s
      → At group count (before_round count count) (perform til offsets group lane calls s).1
  unfolding perform
  perform-rounds [] zero round e sum few s h =
      let done : round ≡ count = omega arith in
      subst (λ r. At group count (before_round count r) s) done h
  perform-rounds [] (suc n) round e sum few s h = absurd (ground arith)
  perform-rounds (single task r reuse ∷ calls) zero round e sum few s h = absurd (ground arith)
  perform-rounds (single task r reuse ∷ calls) (suc n) round e sum few s h =
      let same : r ≡ round = ground arith in
      let flag : reuse ≡ ltb (round + slot_count) count = ground arith in
      let rest : turns til.hg calls ≡ tabulate planned (round + 1) n = ground arith in
      perform-rounds calls n (round + 1) rest (omega arith) few _
        (rw same (task-ends group count til round (omega arith) reuse flag offsets task lane s h))
  perform-rounds (adjacent chunk kv_head r tasks ∷ calls) zero round e sum few s h =
      absurd (ground arith)
  perform-rounds (adjacent chunk kv_head r tasks ∷ calls) (suc zero) round e sum few s h =
      absurd (ground arith)
  perform-rounds (adjacent chunk kv_head r tasks ∷ calls) (suc (suc n)) round e sum few s h =
      let same : r ≡ round = ground arith in
      let e0 : slot_reused round tasks ≡ ltb (round + slot_count) count = ground arith in
      let e1 : slot_reused (round + 1) tasks ≡ ltb (round + 1 + slot_count) count = ground arith in
      let rest : turns til.hg calls ≡ tabulate planned (round + 1 + 1) n = ground arith in
      perform-rounds calls n (round + 1 + 1) rest (omega arith) few _ (
        rw same (
          adjacent-ends group count til offsets (not (lane == 0)) chunk
            (kv_head * 3 + (if lane == 0 then 0 else 1)) round tasks (omega arith) e0 e1 s h))

drain-Quiet : (group count : ℕ) → Quiet group count drain_all_output_slots
unfolding drain_all_output_slots
drain-Quiet group count l s h = retire-Quiet group count 1 l _ (retire-Quiet group count 0 l s h)

fresh-At : (group count : ℕ) → At group count (before_round count 0) fresh
unfolding follow
fresh-At group count = record { follows = refl }

-- In a launch, a lane of an existing group of at most 2^31 tasks goes through exactly the rounds of
-- its group, for all chunk offsets, malformed ones included: in each it waits for READY of the
-- round's slot, reads the workspace only inside that slot and only before it gives the slot back,
-- and gives FREE once the read has ended, in exactly the rounds whose slot is used again.
pub process_follows :
    (til : TilingData) (offsets : ℕ → ℕ) (task_ratio aiv : ℕ)
    → IsLaunch til
    → aiv / task_ratio < til.block_dim
    → task_count til (aiv / task_ratio) ≤ 2 ^ 31
    → let count = task_count til (aiv / task_ratio) in
      follow (aiv / task_ratio) count (process til offsets task_ratio aiv fresh).1.trace
      ≡ some (before_round count count)
unfolding process
process_follows til offsets task_ratio aiv ok lt few =
    let group = aiv / task_ratio in
    let count = task_count til group in
    (drain-Quiet group count (before_round count count) _ (
      launch-Quiet group count til (before_round count count) _ (
        perform-rounds til offsets group (aiv % task_ratio) count (task_id til group)
          (process_calls til offsets group) count 0
          (turns-process_calls til offsets group ok lt few) (omega arith) few fresh
          (fresh-At group count)))).follows
