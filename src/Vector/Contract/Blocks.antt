-- ===== src/Vector/Contract/Blocks.antt =====
-- The straight-line blocks of the Vector stage and the phases that they keep.
use chunk_scaled_dot_kkt_asc.Prelude.{
  ℕ, zero, suc, ◌+◌, ◌*◌, ◌≡◌, refl, Bool, true, false, arith, if◌then◌else◌,
}
use chunk_scaled_dot_kkt_asc.Device.{TilingData, row_elems}
use chunk_scaled_dot_kkt_asc.Vector.{
  Buffer, gate, beta, kkt, out, mul, Vector, M, emit, cross_wait, cross_set, deque_gate, free_gate,
}
use chunk_scaled_dot_kkt_asc.Vector.Load.{
  tensor, aligned, zero_suffix, zero_heads, zero_tail_gate_and_beta_batch_suffix,
  complete_kkt_load_and_release_slot, begin_load_kkt_slot, prefetch_gate_and_beta_batch,
}
use chunk_scaled_dot_kkt_asc.Vector.Factor.{
  issue, pair_masks, pair_rows, single_start, single_rows, prepare_head_factor,
  prepare_head_pair_factor,
}
use chunk_scaled_dot_kkt_asc.Vector.Contract.{replay, is_out}
use chunk_scaled_dot_kkt_asc.Vector.Contract.Phases.{Idle, Filling, Launched, launch-Launched}

pub data Mode : Type 0 where
  idle : Mode
  filling launched : ℕ → Mode

abbrev pub Phase : Mode → Vector → Type 0
Phase idle s = Idle s
Phase (filling slot) s = Filling true slot s
Phase (launched slot) s = Launched slot s

-- An action that leads from one phase to another, and one that keeps a phase.
abbrev pub Goes : {A : Type 0} → (Vector → Type 0) → (Vector → Type 0) → M A → Type 0
Goes P Q m = (s : Vector) → P s → Q (m s).1

pub if-Goes :
    (P Q : Vector → Type 0) (b : Bool) (m n : M (Unit {0}))
    → Goes P Q m
    → Goes P Q n
    → Goes P Q (if b then m else n)
if-Goes P Q true m n p q = p
if-Goes P Q false m n p q = q

abbrev pub Keeps : {A : Type 0} → (Vector → Type 0) → M A → Type 0
Keeps P m = (s : Vector) → P s → P (m s).1

pub wait-Phase : (m : Mode) (flag : ℕ) → Keeps (Phase m) (emit (cross_wait flag))
unfolding replay
wait-Phase idle flag s h = ground arith
wait-Phase _ flag s h = ground arith

pub set-Phase : (m : Mode) (flag : ℕ) → Keeps (Phase m) (emit (cross_set flag))
unfolding replay
set-Phase idle flag s h = ground arith
set-Phase _ flag s h = ground arith

pub deque-Phase : (m : Mode) → Keeps (Phase m) (emit deque_gate)
unfolding replay
deque-Phase idle s h = ground arith
deque-Phase _ s h = ground arith

pub free-Phase : (m : Mode) → Keeps (Phase m) (emit free_gate)
unfolding replay
free-Phase idle s h = ground arith
free-Phase _ s h = ground arith

pub complete-Phase :
    (m : Mode) (slot : ℕ) (reuse : Bool)
    → Keeps (Phase m) (complete_kkt_load_and_release_slot slot reuse)
unfolding complete_kkt_load_and_release_slot replay
complete-Phase idle slot reuse s h = ground arith
complete-Phase _ slot reuse s h = ground arith

pub load-Phase :
    (m : Mode) (group slot chunk_len row_start row_count : ℕ)
    → Keeps (Phase m) (begin_load_kkt_slot group slot chunk_len row_start row_count)
unfolding begin_load_kkt_slot replay
load-Phase idle group slot chunk_len row_start row_count s h = ground arith
load-Phase _ group slot chunk_len row_start row_count s h = ground arith

pub prefetch-Phase :
    (m : Mode) (t first_head start chunk_len heads : ℕ)
    → Keeps (Phase m) (prefetch_gate_and_beta_batch t first_head start chunk_len heads)
unfolding prefetch_gate_and_beta_batch replay
prefetch-Phase idle t first_head start chunk_len heads s h = ground arith
prefetch-Phase _ t first_head start chunk_len heads s h = ground arith

suffix-Idle :
    (b : Buffer) (row aligned_elems : ℕ) (issued : Bool)
    → is_out (tensor b 0) ≡ false
    → Keeps Idle (zero_suffix b row aligned_elems issued)
unfolding replay
suffix-Idle b row aligned_elems issued inner s h = ground arith

zero_heads-Idle :
    (heads head chunk_len : ℕ) (issued : Bool) → Keeps Idle (zero_heads heads head chunk_len issued)
unfolding zero_heads replay
zero_heads-Idle zero head chunk_len issued s h = h
zero_heads-Idle (suc heads) head chunk_len issued s h =
    let (issued_g, s_g) = zero_suffix gate (head * row_elems) (aligned chunk_len 8) issued s in
    let (issued_beta, s_beta) =
      zero_suffix beta (head * row_elems) (aligned chunk_len 16) issued_g s_g in
    zero_heads-Idle heads (head + 1) chunk_len issued_beta s_beta (
      suffix-Idle beta (head * row_elems) (aligned chunk_len 16) issued_g refl s_g
        (suffix-Idle gate (head * row_elems) (aligned chunk_len 8) issued refl s h))

pub zero_tail-Idle :
    (chunk_len heads : ℕ) → Keeps Idle (zero_tail_gate_and_beta_batch_suffix chunk_len heads)
unfolding zero_tail_gate_and_beta_batch_suffix replay
zero_tail-Idle chunk_len heads s h = ground (arith, zero_heads-Idle heads 0 chunk_len false s)

module _ (til : TilingData) (slot : ℕ) where
  pair_masks-Filling :
      (chunk_len row_count : ℕ) → Keeps (Filling true slot) (pair_masks til chunk_len row_count)
  unfolding pair_masks replay
  pair_masks-Filling chunk_len row_count s h = ground arith

  pair_rows-Launched :
      (row_count out0 out1 : ℕ) → Keeps (Launched slot) (pair_rows til row_count out0 out1)
  unfolding pair_rows replay
  pair_rows-Launched row_count out0 out1 s h = ground arith

  single_start-Filling :
      (row_start row_count : ℕ) → Keeps (Filling true slot) (single_start til row_start row_count)
  unfolding single_start replay
  single_start-Filling row_start row_count s h = ground arith

  single_rows-Launched :
      (chunk_len row_start row_count out0 : ℕ)
      → Keeps (Launched slot) (single_rows til chunk_len row_start row_count out0)
  unfolding single_rows replay
  single_rows-Launched chunk_len row_start row_count out0 s h = ground arith

  pub pair_factor-Launched :
      (chunk_len row_count out0 out1 : ℕ) (s : Vector)
      → Filling true slot s
      → Launched slot (prepare_head_pair_factor til chunk_len row_count out0 out1 s).1
  unfolding prepare_head_pair_factor
  pair_factor-Launched chunk_len row_count out0 out1 s h =
      pair_rows-Launched row_count out0 out1 _
        (launch-Launched til slot _ (pair_masks-Filling chunk_len row_count s h))

  pub factor-Launched :
      (chunk_len row_start row_count out0 : ℕ) (s : Vector)
      → Filling true slot s
      → Launched slot (prepare_head_factor til chunk_len row_start row_count out0 s).1
  unfolding prepare_head_factor
  factor-Launched chunk_len row_start row_count out0 s h =
      single_rows-Launched chunk_len row_start row_count out0 _
        (launch-Launched til slot _ (single_start-Filling row_start row_count s h))

  -- A multiplication into the output tensor.
  pub mul-Launched :
      (n k c : ℕ)
      → Keeps (Launched slot) (issue (mul (tensor out n) (tensor kkt 0) (tensor out k) c))
  unfolding replay
  mul-Launched n k c s h = ground arith
