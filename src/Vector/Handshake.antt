-- ===== src/Vector/Handshake.antt =====
-- The lane's side of the READY and FREE protocol, as an automaton over the commands of the lane: it
-- waits for READY round by round, reads the KKT tile of the round from the round's slot only
-- between READY and FREE and into a buffer whose V_MTE2 it has waited for, waits for MTE2_V only
-- where it was set after the read, and gives FREE only after that and where the slot is used again.
pub mod Blocks
pub mod Batches
pub mod Tasks
pub mod Process
use chunk_scaled_dot_kkt_asc.Prelude.{
  ℕ, ◌+◌, ◌-◌, ◌*◌, ◌/◌, Bool, true, false, not, ◌&&◌, ltb, leb, ◌==◌, min, Option, none, some,
  List, [], ◌∷◌,
}
use chunk_scaled_dot_kkt_asc.Device.{
  kkt_elems, slot_count, slot_of, slot_offset, ready_flag_for_slot, free_flag_for_slot,
}
use chunk_scaled_dot_kkt_asc.Vector.{
  kkt_gm, mte2_v, v_mte2, PadCopy, Command, copy_in, copy_in_pad, set_event, wait_event, cross_wait,
  cross_set,
}

-- How often the lane has waited for READY and has given FREE, whether a read is in flight, whether
-- the flag of its end (MTE2_V) and that of the free buffer (V_MTE2) are set, and whether the buffer
-- was waited for since the last read.
pub record Lane : Type 0 where
  pub waits : ℕ
  pub frees : ℕ
  pub loading : Bool
  pub signalled : Bool
  pub cleared : Bool
  pub fillable : Bool

-- Between two rounds: what is to be freed has been freed.
abbrev pub before_round : (count round : ℕ) → Lane
before_round count round = record {
  waits = round;
  frees = min round (count - slot_count);
  loading = false;
  signalled = false;
  cleared = false;
  fillable = false;
}

-- In a round, after its READY.
abbrev pub in_round : (count round : ℕ) → Lane
in_round count round = record {
  waits = round + 1;
  frees = min round (count - slot_count);
  loading = false;
  signalled = false;
  cleared = false;
  fillable = false;
}

abbrev pub loading_in : (count round : ℕ) → Lane
loading_in count round = record (in_round count round) { loading = true; signalled = true }

abbrev pub require : Bool → Lane → Option Lane
require true l = some l
require false l = none

-- The elements from the first to behind the last row of a padded copy of FP32 rows.
abbrev pub padded_extent : PadCopy → ℕ
padded_extent p = p.block_count * ((p.block_len + p.src_stride) / 4)

module _ (group count : ℕ) where
  -- A read of `n` elements, inside the slot of the current round.
  abbrev pub read : (offset n : ℕ) → Lane → Option Lane
  read offset n l =
      require
        (not l.loading
          && l.fillable
          && ltb l.frees l.waits
          && leb (slot_offset group (slot_of (l.waits - 1))) offset
          && leb (offset + n) (slot_offset group (slot_of (l.waits - 1)) + kkt_elems))
        (record l { loading = true; fillable = false })

  -- `none` is a breach of the protocol.
  abbrev pub move : Command → Lane → Option Lane
  move (cross_wait flag) l =
      require
        (not l.loading
          && ltb l.waits count
          && l.frees == min l.waits (count - slot_count)
          && flag == ready_flag_for_slot (slot_of l.waits))
        (record l { waits = l.waits + 1 })
  move (cross_set flag) l =
      require
        (not l.loading
          && ltb l.frees l.waits
          && ltb (l.frees + slot_count) count
          && flag == free_flag_for_slot (slot_of l.frees))
        (record l { frees = l.frees + 1 })
  move (copy_in _ kkt_gm offset n) l = read offset n l
  move (copy_in_pad _ kkt_gm offset rows) l = read offset (padded_extent rows) l
  move (set_event mte2_v) l = require (l.loading && not l.signalled) (record l { signalled = true })
  move (wait_event mte2_v) l = require l.signalled (record l { loading = false; signalled = false })
  move (set_event v_mte2) l = require (not l.cleared) (record l { cleared = true })
  move (wait_event v_mte2) l = require l.cleared (record l { cleared = false; fillable = true })
  move _ l = some l

  abbrev pub then_move : Option Lane → Command → Option Lane
  then_move none c = none
  then_move (some l) c = move c l

  -- The lane after a trace, newest command first.
  unfoldable pub follow : List Command → Option Lane
  follow [] = some (before_round count 0)
  follow (c ∷ earlier) = then_move (follow earlier) c
