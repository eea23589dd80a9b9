-- ===== src/Vector/Prefetch/Blocks.antt =====
-- The straight-line blocks of the Vector stage and what they do to the pairs of gate tensors.
use chunk_scaled_dot_kkt_asc.Prelude.{
  ℕ, zero, suc, ◌+◌, ◌*◌, ◌≡◌, Bool, true, false, some, arith, if◌then◌else◌,
}
use chunk_scaled_dot_kkt_asc.Device.{TilingData, row_elems}
use chunk_scaled_dot_kkt_asc.Vector.{
  Buffer, gate, beta, kkt, out, mul, Vector, M, emit, cross_wait, cross_set, deque_gate, free_gate,
  alloc_output, enque_output,
}
use chunk_scaled_dot_kkt_asc.Vector.Output.{
  free_output_slot, retire, acquire_output_slot, drain_all_output_slots, copy_chunk_pair, copy_pair,
  copy_ready_output, launch_output, launch_ready_output, queue_delayed_single_output,
  queue_delayed_pair_output, queue_delayed_chunk_pair_output,
}
use chunk_scaled_dot_kkt_asc.Vector.Load.{
  tensor, aligned, zero_suffix, zero_heads, zero_tail_gate_and_beta_batch_suffix,
  complete_kkt_load_and_release_slot, begin_load_kkt_slot, prefetch_gate_and_beta_batch,
}
use chunk_scaled_dot_kkt_asc.Vector.Factor.{
  issue, pair_masks, pair_rows, single_start, single_rows, prepare_head_factor,
  prepare_head_pair_factor, finalize_head_with_kkt, finalize_head_pair_with_kkt,
}
use chunk_scaled_dot_kkt_asc.Vector.Prefetch.{replay_pairs}

-- Nothing is being filled; a pair may be enqueued and a pair may be dequeued.
unfoldable pub Holds : (queued current : Bool) → Vector → Type 0
Holds queued current s =
    replay_pairs s.trace ≡ some (record { filling = false; queued = queued; current = current })

abbrev pub Goes : {A : Type 0} → (Vector → Type 0) → (Vector → Type 0) → M A → Type 0
Goes P Q m = (s : Vector) → P s → Q (m s).1

abbrev pub Keeps : {A : Type 0} → (Vector → Type 0) → M A → Type 0
Keeps P m = Goes P P m

pub choose-Goes :
    (P Q : Vector → Type 0) (b : Bool) (m n : M (Unit {0}))
    → Goes P Q m
    → Goes P Q n
    → Goes P Q (if b then m else n)
choose-Goes P Q true m n p q = p
choose-Goes P Q false m n p q = q

module _ (q c : Bool) where
  pub wait-Holds : (flag : ℕ) → Keeps (Holds q c) (emit (cross_wait flag))
  unfolding replay_pairs Holds
  wait-Holds flag s h = ground arith

  pub signal-Holds : (flag : ℕ) → Keeps (Holds q c) (emit (cross_set flag))
  unfolding replay_pairs Holds
  signal-Holds flag s h = ground arith

  pub alloc-Holds : Keeps (Holds q c) (emit alloc_output)
  unfolding replay_pairs Holds
  alloc-Holds s h = ground arith

  pub enque-Holds : Keeps (Holds q c) (emit enque_output)
  unfolding replay_pairs Holds
  enque-Holds s h = ground arith

  pub retire-Holds : (slot : ℕ) → Keeps (Holds q c) (retire slot)
  unfolding retire free_output_slot replay_pairs Holds
  retire-Holds slot s h = ground arith

  pub acquire-Holds : Keeps (Holds q c) acquire_output_slot
  unfolding acquire_output_slot Holds
  acquire-Holds s h = retire-Holds s.next_output_slot s h

  pub drain-Holds : Keeps (Holds q c) drain_all_output_slots
  unfolding drain_all_output_slots
  drain-Holds s h = retire-Holds 1 _ (retire-Holds 0 s h)

  pub launch-Holds : (til : TilingData) → Keeps (Holds q c) (launch_ready_output til)
  unfolding launch_ready_output launch_output copy_ready_output copy_pair copy_chunk_pair
      replay_pairs Holds
  launch-Holds til s h = ground arith

  pub complete-Holds :
      (slot : ℕ) (reuse : Bool) → Keeps (Holds q c) (complete_kkt_load_and_release_slot slot reuse)
  unfolding complete_kkt_load_and_release_slot replay_pairs Holds
  complete-Holds slot reuse s h = ground arith

  pub load-Holds :
      (group slot chunk_len row_start row_count : ℕ)
      → Keeps (Holds q c) (begin_load_kkt_slot group slot chunk_len row_start row_count)
  unfolding begin_load_kkt_slot replay_pairs Holds
  load-Holds group slot chunk_len row_start row_count s h = ground arith

  pub product-Holds :
      (i j n : ℕ) → Keeps (Holds q c) (issue (mul (tensor out i) (tensor kkt 0) (tensor out j) n))
  unfolding replay_pairs Holds
  product-Holds i j n s h = ground arith

  pub finalize-Holds :
      (til : TilingData) (slot head start row_start rows : ℕ)
      → Keeps (Holds q c) (finalize_head_with_kkt til slot head start row_start rows)
  unfolding finalize_head_with_kkt queue_delayed_single_output replay_pairs Holds
  finalize-Holds til slot head start row_start rows s h = ground arith

  pub finalize_pair-Holds :
      (til : TilingData) (slot head start rows : ℕ)
      → Keeps (Holds q c) (finalize_head_pair_with_kkt til slot head start rows)
  unfolding finalize_head_pair_with_kkt queue_delayed_pair_output replay_pairs Holds
  finalize_pair-Holds til slot head start rows s h = ground arith

  pub delayed_pair-Holds :
      (til : TilingData) (slot head start heads : ℕ)
      → Keeps (Holds q c) (queue_delayed_chunk_pair_output til slot head start heads)
  unfolding queue_delayed_chunk_pair_output replay_pairs Holds
  delayed_pair-Holds til slot head start heads s h = ground arith

-- A prefetch finds a free pair while at most one is in use, and none may be enqueued.
pub prefetch-Holds :
    (c : Bool) (t first_head start chunk_len heads : ℕ)
    → Goes
        (Holds false c)
        (Holds true c)
        (prefetch_gate_and_beta_batch t first_head start chunk_len heads)
unfolding prefetch_gate_and_beta_batch replay_pairs Holds
prefetch-Holds true t first_head start chunk_len heads s h = ground arith
prefetch-Holds false t first_head start chunk_len heads s h = ground arith

pub deque-Holds : Goes (Holds true false) (Holds false true) (emit deque_gate)
unfolding replay_pairs Holds
deque-Holds s h = ground arith

pub free-Holds : (q : Bool) → Goes (Holds q true) (Holds q false) (emit free_gate)
unfolding replay_pairs Holds
free-Holds q s h = ground arith

-- What reads or clears the dequeued pair.
module _ (q : Bool) where
  suffix-Holds :
      (b : Buffer) (row aligned_elems : ℕ) (issued : Bool)
      → Keeps (Holds q true) (zero_suffix b row aligned_elems issued)
  unfolding replay_pairs Holds
  suffix-Holds b row aligned_elems issued s h = ground arith

  zero_heads-Holds :
      (heads head chunk_len : ℕ) (issued : Bool)
      → Keeps (Holds q true) (zero_heads heads head chunk_len issued)
  unfolding zero_heads
  zero_heads-Holds zero head chunk_len issued s h = h
  zero_heads-Holds (suc heads) head chunk_len issued s h =
      let (issued_g, s_g) = zero_suffix gate (head * row_elems) (aligned chunk_len 8) issued s in
      let (issued_beta, s_beta) =
        zero_suffix beta (head * row_elems) (aligned chunk_len 16) issued_g s_g in
      zero_heads-Holds heads (head + 1) chunk_len issued_beta s_beta (
        suffix-Holds beta (head * row_elems) (aligned chunk_len 16) issued_g s_g
          (suffix-Holds gate (head * row_elems) (aligned chunk_len 8) issued s h))

  pub zero_tail-Holds :
      (chunk_len heads : ℕ)
      → Keeps (Holds q true) (zero_tail_gate_and_beta_batch_suffix chunk_len heads)
  unfolding zero_tail_gate_and_beta_batch_suffix replay_pairs Holds
  zero_tail-Holds chunk_len heads s h = ground (arith, zero_heads-Holds heads 0 chunk_len false s h)

  masks-Holds :
      (til : TilingData) (chunk_len rows : ℕ) → Keeps (Holds q true) (pair_masks til chunk_len rows)
  unfolding pair_masks replay_pairs Holds
  masks-Holds til chunk_len rows s h = ground arith

  pair_rows-Holds :
      (til : TilingData) (rows out0 out1 : ℕ) → Keeps (Holds q true) (pair_rows til rows out0 out1)
  unfolding pair_rows replay_pairs Holds
  pair_rows-Holds til rows out0 out1 s h = ground arith

  start-Holds :
      (til : TilingData) (row_start rows : ℕ)
      → Keeps (Holds q true) (single_start til row_start rows)
  unfolding single_start replay_pairs Holds
  start-Holds til row_start rows s h = ground arith

  rows-Holds :
      (til : TilingData) (chunk_len row_start rows out0 : ℕ)
      → Keeps (Holds q true) (single_rows til chunk_len row_start rows out0)
  unfolding single_rows replay_pairs Holds
  rows-Holds til chunk_len row_start rows out0 s h = ground arith

  pub pair_factor-Holds :
      (til : TilingData) (chunk_len rows out0 out1 : ℕ)
      → Keeps (Holds q true) (prepare_head_pair_factor til chunk_len rows out0 out1)
  unfolding prepare_head_pair_factor
  pair_factor-Holds til chunk_len rows out0 out1 s h =
      pair_rows-Holds til rows out0 out1 _
        (launch-Holds q true til _ (masks-Holds til chunk_len rows s h))

  pub factor-Holds :
      (til : TilingData) (chunk_len row_start rows out0 : ℕ)
      → Keeps (Holds q true) (prepare_head_factor til chunk_len row_start rows out0)
  unfolding prepare_head_factor
  factor-Holds til chunk_len row_start rows out0 s h =
      rows-Holds til chunk_len row_start rows out0 _
        (launch-Holds q true til _ (start-Holds til row_start rows s h))
