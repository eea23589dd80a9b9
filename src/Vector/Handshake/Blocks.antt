-- ===== src/Vector/Handshake/Blocks.antt =====
-- The blocks of the Vector stage that leave the protocol alone, and those that move it.
use chunk_scaled_dot_kkt_asc.Prelude.{
  ℕ, zero, suc, ◌+◌, ◌*◌, ◌≤◌, ◌<◌, ◌≡◌, Bool, false, arith, some, ltb,
}
use chunk_scaled_dot_kkt_asc.Device.{
  TilingData, row_elems, bt, slot_count, slot_of, ready_flag_for_slot,
}
use chunk_scaled_dot_kkt_asc.Vector.{
  Buffer, gate, beta, Vector, Instr, M, emit, cross_wait, alloc_output, enque_output, deque_gate,
  free_gate,
}
use chunk_scaled_dot_kkt_asc.Vector.Output.{
  retire, acquire_output_slot, launch_ready_output, launch_output, copy_ready_output,
  free_output_slot, copy_pair, copy_chunk_pair,
}
use chunk_scaled_dot_kkt_asc.Vector.Load.{
  aligned, zero_suffix, zero_heads, zero_tail_gate_and_beta_batch_suffix,
  complete_kkt_load_and_release_slot, begin_load_kkt_slot, prefetch_gate_and_beta_batch,
}
use chunk_scaled_dot_kkt_asc.Vector.Factor.{
  issue, pair_masks, pair_rows, single_start, single_rows, prepare_head_factor,
  prepare_head_pair_factor,
}
use chunk_scaled_dot_kkt_asc.Vector.Contract.Blocks.{Goes, Keeps}
use chunk_scaled_dot_kkt_asc.Vector.Handshake.{Lane, before_round, in_round, loading_in, follow}

module _ (group count : ℕ) where
  -- The protocol stands at a given state.
  pub record At (l : Lane) (s : Vector) : Type 0 where
    pub follows : follow group count s.trace ≡ some l

  -- An action without a part in the protocol.
  abbrev pub Quiet : {A : Type 0} → M A → Type 0
  Quiet m = (l : Lane) → Keeps (At l) m

  pub issue-Quiet : (i : Instr) → Quiet (issue i)
  unfolding follow
  issue-Quiet i l s h = ground arith

  pub alloc-Quiet : Quiet (emit alloc_output)
  unfolding follow
  alloc-Quiet l s h = ground arith

  pub enque-Quiet : Quiet (emit enque_output)
  unfolding follow
  enque-Quiet l s h = ground arith

  pub deque-Quiet : Quiet (emit deque_gate)
  unfolding follow
  deque-Quiet l s h = ground arith

  pub free-Quiet : Quiet (emit free_gate)
  unfolding follow
  free-Quiet l s h = ground arith

  pub retire-Quiet : (slot : ℕ) → Quiet (retire slot)
  unfolding retire free_output_slot follow
  retire-Quiet slot l s h = ground arith

  pub acquire-Quiet : Quiet acquire_output_slot
  unfolding acquire_output_slot
  acquire-Quiet l s h = record { follows = (retire-Quiet s.next_output_slot l s h).follows }

  copy-Quiet : (til : TilingData) → Quiet (copy_ready_output til)
  unfolding copy_ready_output copy_pair copy_chunk_pair follow
  copy-Quiet til l s h = ground arith

  pub launch-Quiet : (til : TilingData) → Quiet (launch_ready_output til)
  unfolding launch_ready_output launch_output copy_ready_output copy_pair copy_chunk_pair follow
  launch-Quiet til l s h = ground arith

  pub prefetch-Quiet :
      (t first_head start chunk_len heads : ℕ)
      → Quiet (prefetch_gate_and_beta_batch t first_head start chunk_len heads)
  unfolding prefetch_gate_and_beta_batch follow
  prefetch-Quiet t first_head start chunk_len heads l s h = ground arith

  suffix-Quiet :
      (b : Buffer) (row aligned_elems : ℕ) (issued : Bool)
      → Quiet (zero_suffix b row aligned_elems issued)
  unfolding follow
  suffix-Quiet b row aligned_elems issued l s h = ground arith

  zero_heads-Quiet :
      (heads head chunk_len : ℕ) (issued : Bool) → Quiet (zero_heads heads head chunk_len issued)
  unfolding zero_heads
  zero_heads-Quiet zero head chunk_len issued l s h = h
  zero_heads-Quiet (suc heads) head chunk_len issued l s h =
      let (issued_g, s_g) = zero_suffix gate (head * row_elems) (aligned chunk_len 8) issued s in
      let (issued_beta, s_beta) =
        zero_suffix beta (head * row_elems) (aligned chunk_len 16) issued_g s_g in
      zero_heads-Quiet heads (head + 1) chunk_len issued_beta l s_beta (
        suffix-Quiet beta (head * row_elems) (aligned chunk_len 16) issued_g l s_g
          (suffix-Quiet gate (head * row_elems) (aligned chunk_len 8) issued l s h))

  pub zero_tail-Quiet :
      (chunk_len heads : ℕ) → Quiet (zero_tail_gate_and_beta_batch_suffix chunk_len heads)
  unfolding zero_tail_gate_and_beta_batch_suffix follow
  zero_tail-Quiet chunk_len heads l s h =
      ground (arith, zero_heads-Quiet heads 0 chunk_len false l s h)

  module _ (til : TilingData) where
    pair_masks-Quiet : (chunk_len row_count : ℕ) → Quiet (pair_masks til chunk_len row_count)
    unfolding pair_masks follow
    pair_masks-Quiet chunk_len row_count l s h = ground arith

    pair_rows-Quiet : (row_count out0 out1 : ℕ) → Quiet (pair_rows til row_count out0 out1)
    unfolding pair_rows follow
    pair_rows-Quiet row_count out0 out1 l s h = ground arith

    single_start-Quiet : (row_start row_count : ℕ) → Quiet (single_start til row_start row_count)
    unfolding single_start follow
    single_start-Quiet row_start row_count l s h = ground arith

    single_rows-Quiet :
        (chunk_len row_start row_count out0 : ℕ)
        → Quiet (single_rows til chunk_len row_start row_count out0)
    unfolding single_rows follow
    single_rows-Quiet chunk_len row_start row_count out0 l s h = ground arith

    pub pair_factor-Quiet :
        (chunk_len row_count out0 out1 : ℕ)
        → Quiet (prepare_head_pair_factor til chunk_len row_count out0 out1)
    unfolding prepare_head_pair_factor
    pair_factor-Quiet chunk_len row_count out0 out1 l s h =
        pair_rows-Quiet row_count out0 out1 l _
          (launch-Quiet til l _ (pair_masks-Quiet chunk_len row_count l s h))

    pub factor-Quiet :
        (chunk_len row_start row_count out0 : ℕ)
        → Quiet (prepare_head_factor til chunk_len row_start row_count out0)
    unfolding prepare_head_factor
    factor-Quiet chunk_len row_start row_count out0 l s h =
        single_rows-Quiet chunk_len row_start row_count out0 l _
          (launch-Quiet til l _ (single_start-Quiet row_start row_count l s h))

  -- READY begins a round.
  pub wait-begins :
      (round : ℕ)
      → round < count
      → Goes
          (At (before_round count round))
          (At (in_round count round))
          (emit (cross_wait (ready_flag_for_slot (slot_of round))))
  unfolding follow
  wait-begins round lt s h = ground arith

  -- The read of rows of the round's tile.
  pub load-begins :
      (round chunk_len row_start row_count : ℕ)
      → chunk_len ≤ bt
      → row_start + row_count ≤ bt
      → round < count
      → Goes
          (At (in_round count round))
          (At (loading_in count round))
          (begin_load_kkt_slot group (slot_of round) chunk_len row_start row_count)
  unfolding begin_load_kkt_slot follow
  load-begins round chunk_len row_start row_count le inside lt s h = ground arith

  -- Its end, and FREE.
  pub complete-ends :
      (round : ℕ) (reuse : Bool)
      → round < count
      → reuse ≡ ltb (round + slot_count) count
      → Goes
          (At (loading_in count round))
          (At (before_round count (round + 1)))
          (complete_kkt_load_and_release_slot (slot_of round) reuse)
  unfolding complete_kkt_load_and_release_slot follow
  complete-ends round reuse lt e s h = ground arith
