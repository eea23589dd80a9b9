-- ===== src/Vector.antt =====
-- The class ChunkScaledDotKktVectorStage of op_kernel/chunk_scaled_dot_kkt.h: its mutable fields,
-- the commands that it gives to the hardware and the library's queues, and the monad of its
-- methods. A method changes the fields and adds to the list of commands, newest first.
pub mod Tests
pub mod Output
pub mod Contract
pub mod Prefetch
pub mod Handshake
pub mod Load
pub mod Factor
pub mod Task
pub mod Shares
pub mod Copies
pub mod Buffers
pub mod Values
pub mod Walk
pub mod Turns
pub mod Agreement
use chunk_scaled_dot_kkt_asc.Prelude.{ℕ, zero, suc, ◌+◌, Bool, false, List, [], ◌∷◌}

-- The local buffers; `out` is the tensor of the output queue that is being filled or copied out.
pub data Buffer : Type 0 where
  kkt gate beta out neg_g_single neg_g_pair mask_single mask_pair scratch : Buffer

-- A tensor that begins at element `at` of a buffer.
pub record Tensor : Type 0 where
  pub buffer : Buffer
  pub at : ℕ

-- The tensors in global memory.
pub data Global : Type 0 where
  beta_gm g_gm kkt_gm : Global

-- The instructions of PIPE_V, with the operand counts that the code passes.
pub data Instr : Type 0 where
  muls_neg : (dst src : Tensor) (count : ℕ) → Instr  -- Muls(dst, src, -1.0f, count)
  brcb : (dst src : Tensor) (repeats : ℕ) → Instr  -- Brcb(dst, src, repeats, {1, 8})
  compare_lt : (dst src0 src1 : Tensor) (rows : ℕ) → Instr  -- {1, 0, 1, 1, 1, 0}, mask 64
  exp : (dst src : Tensor) (count : ℕ) → Instr
  cast : (dst src : Tensor) (count : ℕ) → Instr
  mul : (dst src0 src1 : Tensor) (count : ℕ) → Instr
  mul_rows : (dst src0 src1 : Tensor) (rows : ℕ) → Instr  -- {1, 1, 0, 8, 0, 1}, mask 64
  select : (dst mask src : Tensor) (count : ℕ) → Instr  -- scalar 0.0f where the mask is off
  duplicate_zero : (dst : Tensor) (count : ℕ) → Instr
  barrier : Instr  -- PipeBarrier<PIPE_V>

-- `DataCopyExtParams` with `DataCopyPadExtParams`: lengths and source strides in bytes,
-- destination strides in 32-byte blocks.
pub record PadCopy : Type 0 where
  pub block_count : ℕ
  pub block_len : ℕ
  pub src_stride : ℕ
  pub dst_stride : ℕ
  pub is_pad : Bool
  pub right_padding : ℕ

-- `DataCopyParams`, in 32-byte blocks.
pub record StrideCopy : Type 0 where
  pub block_count : ℕ
  pub block_len : ℕ
  pub src_stride : ℕ
  pub dst_stride : ℕ

pub data Event : Type 0 where
  v_mte2 mte2_v : Event

pub data Command : Type 0 where
  vector : Instr → Command
  copy_in : (dst : Tensor) (src : Global) (offset count : ℕ) → Command
  copy_in_pad : (dst : Tensor) (src : Global) (offset : ℕ) → PadCopy → Command
  copy_out : (offset : ℕ) (src : Tensor) (count : ℕ) → Command
  copy_out_strided : (offset : ℕ) (src : Tensor) → StrideCopy → Command
  set_event wait_event : Event → Command
  set_output_event wait_output_event : (slot : ℕ) → Command
  cross_wait cross_set : (flag : ℕ) → Command
  alloc_output enque_output deque_output : Command
  keep_output free_output : (slot : ℕ) → Command  -- outputSlot0_ or outputSlot1_
  alloc_gate enque_gate deque_gate free_gate : Command  -- gQueue_ and betaQueue_ together

-- The fields of the class that its methods change.
pub record Fields : Type 0 where
  pub output_slot_busy_mask : ℕ  -- uint32_t
  pub next_output_slot : ℕ
  pub ready_output_valid : Bool
  pub ready_output_is_pair : Bool
  pub ready_output_is_chunk_pair : Bool
  pub ready_output_slot_id : ℕ
  pub ready_first_output_offset : ℕ
  pub ready_second_output_offset : ℕ
  pub ready_active_elems : ℕ

-- The state of a method: the fields, and the commands given so far.
pub record Vector : Type 0 where
  pub fields : Fields
  pub open fields use *
  pub trace : List Command

-- What `Init` leaves in those fields.
abbrev pub fresh_fields : Fields
fresh_fields = record {
  output_slot_busy_mask = 0;
  next_output_slot = 0;
  ready_output_valid = false;
  ready_output_is_pair = false;
  ready_output_is_chunk_pair = false;
  ready_output_slot_id = 0;
  ready_first_output_offset = 0;
  ready_second_output_offset = 0;
  ready_active_elems = 0;
}

abbrev pub fresh : Vector
fresh = record { fields = fresh_fields; trace = [] }

abbrev pub M : Type 0 → Type 0
M A = Vector → A × Vector

infixl 5 ◌>>=◌ ◌>>◌
abbrev pub ◌>>=◌ : {A B : Type 0} → M A → (A → M B) → M B
◌>>=◌ m f s = let (a, s') = m s in f a s'

abbrev pub ◌>>◌ : {B : Type 0} → M (Unit {0}) → M B → M B
◌>>◌ m k s = k (m s).1

abbrev pub ret : {A : Type 0} → A → M A
ret a s = (a, s)

abbrev pub get : M Vector
get s = (s, s)

abbrev pub modify : (Fields → Fields) → M (Unit {0})
modify f s = (tt, record s { fields = f s.fields })

abbrev pub emit : Command → M (Unit {0})
emit c s = (tt, record s { trace = c ∷ s.trace })

abbrev pub skip : M (Unit {0})
skip s = (tt, s)

-- `for (k = i; k < i + n; ++k) body(k);`
abbrev pub for_range : ℕ → ℕ → (ℕ → M (Unit {0})) → M (Unit {0})
for_range zero i body = skip
for_range (suc n) i body = body i >> for_range n (i + 1) body
