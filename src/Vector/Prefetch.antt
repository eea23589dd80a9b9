-- ===== src/Vector/Prefetch.antt =====
-- The contract of gQueue_ and betaQueue_ of the Vector stage, as an automaton over the commands of a
-- lane. Each queue has two buffers and holds one enqueued tensor; the two are used together. A tensor
-- is filled only between allocation and enqueueing, and read or cleared only between dequeueing and
-- release.
pub mod Blocks
pub mod Process
use chunk_scaled_dot_kkt_asc.Prelude.{
  ℕ, ◌+◌, Bool, true, false, not, ◌&&◌, ◌||◌, ltb, Option, none, some, List, [], ◌∷◌,
}
use chunk_scaled_dot_kkt_asc.Vector.{
  gate, beta, Tensor, Instr, muls_neg, brcb, compare_lt, exp, cast, mul, mul_rows, select,
  duplicate_zero, barrier, Command, vector, copy_in, copy_in_pad, alloc_gate, enque_gate,
  deque_gate, free_gate,
}
use chunk_scaled_dot_kkt_asc.Vector.Contract.{one_if}

-- The pair of tensors being filled, the enqueued pair, and the dequeued pair.
pub record Pairs : Type 0 where
  pub filling : Bool
  pub queued : Bool
  pub current : Bool

abbrev pub no_pairs : Pairs
no_pairs = record { filling = false; queued = false; current = false }

abbrev pub is_gate : Tensor → Bool
is_gate t = elim t.buffer [ gate ↦ true | beta ↦ true | _ ↦ false ]

-- The instruction reads or writes a tensor of the queues.
abbrev pub uses_gate : Instr → Bool
uses_gate (muls_neg dst src _) = is_gate dst || is_gate src
uses_gate (brcb dst src _) = is_gate dst || is_gate src
uses_gate (compare_lt dst src0 src1 _) = is_gate dst || is_gate src0 || is_gate src1
uses_gate (exp dst src _) = is_gate dst || is_gate src
uses_gate (cast dst src _) = is_gate dst || is_gate src
uses_gate (mul dst src0 src1 _) = is_gate dst || is_gate src0 || is_gate src1
uses_gate (mul_rows dst src0 src1 _) = is_gate dst || is_gate src0 || is_gate src1
uses_gate (select dst mask src _) = is_gate dst || is_gate mask || is_gate src
uses_gate (duplicate_zero dst _) = is_gate dst
uses_gate barrier = false

abbrev pub require : Bool → Pairs → Option Pairs
require true p = some p
require false p = none

-- `none` is a breach of the contract.
abbrev pub step : Command → Pairs → Option Pairs
step (vector i) p = require (not (uses_gate i) || p.current) p
step (copy_in dst _ _ _) p = require (not (is_gate dst) || p.filling) p
step (copy_in_pad dst _ _ _) p = require (not (is_gate dst) || p.filling) p
step alloc_gate p =
    require (not p.filling && ltb (one_if p.queued + one_if p.current) 2)
      (record p { filling = true })
step enque_gate p =
    require (p.filling && not p.queued) (record p { filling = false; queued = true })
step deque_gate p =
    require (p.queued && not p.current) (record p { queued = false; current = true })
step free_gate p = require p.current (record p { current = false })
step _ p = some p

abbrev pub then_step : Option Pairs → Command → Option Pairs
then_step none c = none
then_step (some p) c = step c p

-- The pairs after a trace, newest command first.
unfoldable pub replay_pairs : List Command → Option Pairs
replay_pairs [] = some no_pairs
replay_pairs (c ∷ earlier) = then_step (replay_pairs earlier) c
