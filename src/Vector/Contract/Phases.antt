-- ===== src/Vector/Contract/Phases.antt =====
-- Where a lane stands between its commands: idle, filling an output tensor, or filling one with the
-- previous batch launched; and how acquire, launch, queue and drain move between these.
use Prim.Native.Nat.{bit_and}
use chunk_scaled_dot_kkt_asc.Prelude.{
  ℕ, zero, suc, ◌-◌, ◌^◌, ◌<◌, ◌≡◌, refl, Bool, true, false, some, arith,
}
use chunk_scaled_dot_kkt_asc.Device.{TilingData}
use chunk_scaled_dot_kkt_asc.Vector.{alloc_output, enque_output, Fields, Vector, ◌>>◌, emit}
use chunk_scaled_dot_kkt_asc.Vector.Output.{
  acquire_output_slot, drain_all_output_slots, launch_ready_output, queue_delayed_single_output,
  queue_delayed_pair_output, queue_delayed_chunk_pair_output,
}
use chunk_scaled_dot_kkt_asc.Vector.Contract.{Slots, empty_slots, replay}
use chunk_scaled_dot_kkt_asc.Vector.Contract.Bits.{kept, Bits-of}

-- The slots that the fields stand for.
abbrev pub slots_of : Bool → Fields → Slots
slots_of held f = record {
  held = held;
  queued = f.ready_output_valid;
  current = false;
  kept0 = kept 0 f.output_slot_busy_mask;
  kept1 = kept 1 f.output_slot_busy_mask;
  pending0 = kept 0 f.output_slot_busy_mask;
  pending1 = kept 1 f.output_slot_busy_mask;
}

-- Between two batches.
pub record Idle (s : Vector) : Type 0 where
  pub replayed : replay s.trace ≡ some (slots_of false s.fields)
  pub mask_small : s.output_slot_busy_mask < 4
  pub next_small : s.next_output_slot < 2
  pub ready_slot : s.ready_output_valid ≡ true → s.ready_output_slot_id ≡ 1 - s.next_output_slot
  pub ready_free :
      s.ready_output_valid ≡ true → kept (1 - s.next_output_slot) s.output_slot_busy_mask ≡ false

-- Filling the tensor of slot `slot`; `held` after its allocation.
pub record Filling (held : Bool) (slot : ℕ) (s : Vector) : Type 0 where
  pub replayed : replay s.trace ≡ some (slots_of held s.fields)
  pub mask_small : s.output_slot_busy_mask < 4
  pub slot_small : slot < 2
  pub next : s.next_output_slot ≡ 1 - slot
  pub slot_free : kept slot s.output_slot_busy_mask ≡ false
  pub ready_slot : s.ready_output_valid ≡ true → s.ready_output_slot_id ≡ 1 - slot
  pub ready_free : s.ready_output_valid ≡ true → kept (1 - slot) s.output_slot_busy_mask ≡ false

retire-Idle :
    (slot : ℕ) (s : Vector)
    → Idle s
    → s.next_output_slot ≡ slot
    → Filling false slot (acquire_output_slot s).1
unfolding acquire_output_slot replay
retire-Idle zero s h e = ground (arith, (Bits-of s.output_slot_busy_mask h.mask_small).0)
retire-Idle (suc zero) s h e = ground (arith, (Bits-of s.output_slot_busy_mask h.mask_small).1)
retire-Idle (suc (suc n)) s h e = absurd (omega (arith, h.next_small))

pub acquire-Filling :
    (s : Vector) → Idle s → let (slot, s') = acquire_output_slot s in Filling false slot s'
unfolding acquire_output_slot
acquire-Filling s h = retire-Idle s.next_output_slot s h refl

-- With a slot acquired and nothing allocated at most one buffer is in use, so a second is there.
pub alloc-Filling :
    (slot : ℕ) (s : Vector) → Filling false slot s → Filling true slot (emit alloc_output s).1
unfolding replay
alloc-Filling zero s h = ground arith
alloc-Filling (suc zero) s h = ground arith
alloc-Filling (suc (suc n)) s h = absurd (omega (arith, h.slot_small))

-- A copy command that the dequeued tensor allows.
launch-Filling :
    (til : TilingData) (slot : ℕ) (s : Vector)
    → Filling true slot s
    → Filling true slot (launch_ready_output til s).1
      × ((launch_ready_output til s).1.ready_output_valid ≡ false)
unfolding launch_ready_output replay
launch-Filling til zero s h = ground (arith, (Bits-of s.output_slot_busy_mask h.mask_small).1)
launch-Filling til (suc zero) s h = ground (arith, (Bits-of s.output_slot_busy_mask h.mask_small).0)
launch-Filling til (suc (suc n)) s h = absurd (omega (arith, h.slot_small))

launch-Idle' :
    (til : TilingData) (next : ℕ) (s : Vector)
    → Idle s
    → s.next_output_slot ≡ next
    → Idle (launch_ready_output til s).1
      × ((launch_ready_output til s).1.ready_output_valid ≡ false)
unfolding launch_ready_output replay
launch-Idle' til zero s h e = ground (arith, (Bits-of s.output_slot_busy_mask h.mask_small).1)
launch-Idle' til (suc zero) s h e = ground (arith, (Bits-of s.output_slot_busy_mask h.mask_small).0)
launch-Idle' til (suc (suc n)) s h e = absurd (omega (arith, h.next_small))

pub launch-Idle :
    (til : TilingData) (s : Vector)
    → Idle s
    → Idle (launch_ready_output til s).1
      × ((launch_ready_output til s).1.ready_output_valid ≡ false)
launch-Idle til s h = launch-Idle' til s.next_output_slot s h refl

-- The previous batch is launched, so the queue can take the next.
pub record Launched (slot : ℕ) (s : Vector) : Type 0 where
  pub filling : Filling true slot s
  pub launched : s.ready_output_valid ≡ false

pub launch-Launched :
    (til : TilingData) (slot : ℕ) (s : Vector)
    → Filling true slot s
    → Launched slot (launch_ready_output til s).1
launch-Launched til slot s h =
    let (f, l) = launch-Filling til slot s h in record { filling = f; launched = l }

module _ (til : TilingData) where
  pub single-Idle :
      (slot head start row_start row_count : ℕ) (s : Vector)
      → Launched slot s
      → Idle
          ((emit enque_output
              >> queue_delayed_single_output til slot head start row_start row_count)
            s).1
  unfolding queue_delayed_single_output replay
  single-Idle zero head start row_start row_count s h = ground arith
  single-Idle (suc zero) head start row_start row_count s h = ground arith
  single-Idle (suc (suc n)) head start row_start row_count s h =
      absurd (omega (arith, h.filling.slot_small))

  pub pair-Idle :
      (slot head start active : ℕ) (s : Vector)
      → Launched slot s
      → Idle ((emit enque_output >> queue_delayed_pair_output til slot head start active) s).1
  unfolding queue_delayed_pair_output replay
  pair-Idle zero head start active s h = ground arith
  pair-Idle (suc zero) head start active s h = ground arith
  pair-Idle (suc (suc n)) head start active s h = absurd (omega (arith, h.filling.slot_small))

  pub chunk_pair-Idle :
      (slot head start heads : ℕ) (s : Vector)
      → Launched slot s
      → Idle ((emit enque_output >> queue_delayed_chunk_pair_output til slot head start heads) s).1
  unfolding queue_delayed_chunk_pair_output replay
  chunk_pair-Idle zero head start heads s h = ground arith
  chunk_pair-Idle (suc zero) head start heads s h = ground arith
  chunk_pair-Idle (suc (suc n)) head start heads s h = absurd (omega (arith, h.filling.slot_small))

-- After the last launch the drain waits for every copy and releases every tensor.
pub drain_empties :
    (s : Vector)
    → Idle s
    → s.ready_output_valid ≡ false
    → replay (drain_all_output_slots s).1.trace ≡ some empty_slots
unfolding drain_all_output_slots replay
drain_empties s h e = ground (
  arith,
  (Bits-of s.output_slot_busy_mask h.mask_small).0,
  (Bits-of s.output_slot_busy_mask h.mask_small).1,
  (Bits-of (bit_and s.output_slot_busy_mask (2 ^ 32 - 1 - 2 ^ 0)) small).1,
)
  where
    small : bit_and s.output_slot_busy_mask (2 ^ 32 - 1 - 2 ^ 0) < 4
    small = (Bits-of s.output_slot_busy_mask h.mask_small).0.cleared_small
