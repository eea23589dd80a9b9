-- ===== src/Vector/Contract.antt =====
-- The contract of the output queue and its completion events, as an automaton over the commands of
-- a lane. The queue has two buffers and holds one enqueued tensor; a buffer is in use from its
-- allocation to its release; a tensor is written only between allocation and enqueueing and copied
-- out only after dequeueing; a kept tensor is released only after its slot's event was waited for.
pub mod Bits
pub mod Phases
pub mod Blocks
pub mod Tasks
pub mod Process
use chunk_scaled_dot_kkt_asc.Prelude.{
  ℕ, ◌+◌, Bool, true, false, not, ◌&&◌, ◌||◌, ltb, ◌==◌, if◌then◌else◌, Option, none, some, List,
  [], ◌∷◌,
}
use chunk_scaled_dot_kkt_asc.Vector.{
  Buffer, out, Tensor, Instr, muls_neg, brcb, compare_lt, exp, cast, mul, mul_rows, select,
  duplicate_zero, barrier, Command, vector, copy_out, copy_out_strided, set_output_event,
  wait_output_event, alloc_output, enque_output, deque_output, keep_output, free_output,
}

-- `kept` and `pending` by slot: the tensor stored in outputSlot0_ or outputSlot1_, and its event.
pub record Slots : Type 0 where
  pub held : Bool
  pub queued : Bool
  pub current : Bool
  pub kept0 : Bool
  pub kept1 : Bool
  pub pending0 : Bool
  pub pending1 : Bool

abbrev pub empty_slots : Slots
empty_slots = record {
  held = false;
  queued = false;
  current = false;
  kept0 = false;
  kept1 = false;
  pending0 = false;
  pending1 = false;
}

abbrev pub one_if : Bool → ℕ
one_if b = if b then 1 else 0

abbrev pub in_use : Slots → ℕ
in_use m = one_if m.held + one_if m.queued + one_if m.current + one_if m.kept0 + one_if m.kept1

abbrev pub is_out : Tensor → Bool
is_out t = elim t.buffer [ out ↦ true | _ ↦ false ]

abbrev pub writes_out : Instr → Bool
writes_out (muls_neg dst _ _) = is_out dst
writes_out (brcb dst _ _) = is_out dst
writes_out (compare_lt dst _ _ _) = is_out dst
writes_out (exp dst _ _) = is_out dst
writes_out (cast dst _ _) = is_out dst
writes_out (mul dst _ _ _) = is_out dst
writes_out (mul_rows dst _ _ _) = is_out dst
writes_out (select dst _ _ _) = is_out dst
writes_out (duplicate_zero dst _) = is_out dst
writes_out barrier = false

abbrev pub require : Bool → Slots → Option Slots
require true m = some m
require false m = none

abbrev pub keep : ℕ → Slots → Option Slots
keep slot m =
    if slot == 0
    then require (m.current && not m.kept0) (record m { current = false; kept0 = true })
    else require (m.current && not m.kept1) (record m { current = false; kept1 = true })

abbrev pub raise : ℕ → Slots → Option Slots
raise slot m =
    if slot == 0
    then require (not m.pending0) (record m { pending0 = true })
    else require (not m.pending1) (record m { pending1 = true })

abbrev pub await : ℕ → Slots → Option Slots
await slot m =
    if slot == 0
    then require m.pending0 (record m { pending0 = false })
    else require m.pending1 (record m { pending1 = false })

abbrev pub release : ℕ → Slots → Option Slots
release slot m =
    if slot == 0
    then require (m.kept0 && not m.pending0) (record m { kept0 = false })
    else require (m.kept1 && not m.pending1) (record m { kept1 = false })

-- `none` is a breach of the contract.
abbrev pub step : Command → Slots → Option Slots
step (vector i) m = require (not (writes_out i) || m.held) m
step (copy_out _ _ _) m = require m.current m
step (copy_out_strided _ _ _) m = require m.current m
step (set_output_event slot) m = raise slot m
step (wait_output_event slot) m = await slot m
step alloc_output m = require (not m.held && ltb (in_use m) 2) (record m { held = true })
step enque_output m = require (m.held && not m.queued) (record m { held = false; queued = true })
step deque_output m =
    require (m.queued && not m.current) (record m { queued = false; current = true })
step (keep_output slot) m = keep slot m
step (free_output slot) m = release slot m
step _ m = some m

abbrev pub then_step : Option Slots → Command → Option Slots
then_step none c = none
then_step (some m) c = step c m

-- The slots after a trace, newest command first.
unfoldable pub replay : List Command → Option Slots
replay [] = some empty_slots
replay (c ∷ earlier) = then_step (replay earlier) c
