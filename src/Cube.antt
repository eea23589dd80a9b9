-- ===== src/Cube.antt =====
-- The commands of the AIC lane: op_kernel/chunk_scaled_dot_kkt.h has one class for K = 256 and one
-- for K = 128, which the children model. A method is the list of the commands that it gives, in
-- order.
pub mod Tests
pub mod K256
pub mod K128
pub mod Events
pub mod Handshake
pub mod Access
pub mod Bounds
use chunk_scaled_dot_kkt_asc.Prelude.{ℕ, zero, suc, ◌+◌, Bool, List, [], ◌∷◌, ◌++◌}

-- The flags between pipelines, `HardEvent` and event id; M_MTE1 has four ids.
pub data Event : Type 0 where
  mte1_mte2 mte2_mte1 fix_m m_fix mte1_m m_mte1_0 m_mte1_1 m_mte1_2 m_mte1_3 : Event

-- `Nd2NzParams`; the fields are uint16_t.
pub record Nd2Nz : Type 0 where
  pub n_value : ℕ
  pub d_value : ℕ
  pub src_d_value : ℕ
  pub dst_nz_c0_stride : ℕ

pub data Command : Type 0 where
  set_flag wait_flag : Event → Command
  clear_shared_l1 : (blocks : ℕ) → Command  -- InitConstValue, zeros
  copy_k : (offset : ℕ) → Nd2Nz → Command  -- GM to the shared L1 tile
  load_l0a : (stage src_addr : ℕ) → Command  -- LoadData3DParamsV2, 64 rows by 64 columns
  load_l0b : (stage dst_addr src_addr : ℕ) → Command  -- LoadData2DParams, 4 fractals
  mmad : (stage_a stage_b : ℕ) (initialize_c : Bool) → Command  -- 64 x 64 x 64
  fixpipe : (offset : ℕ) → Command  -- the C tile to the workspace
  cross_wait cross_set : (flag : ℕ) → Command
  barrier_all : Command

-- `for (r = i; r < i + n; ++r)`
abbrev pub for_rounds : ℕ → ℕ → (ℕ → List Command) → List Command
for_rounds zero i body = []
for_rounds (suc n) i body = body i ++ for_rounds n (i + 1) body
