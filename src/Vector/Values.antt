-- ===== src/Vector/Values.antt =====
-- What the local buffers of a Vector lane hold, and the effect of each instruction of PIPE_V on them
-- as the framework documents it. The arithmetic of float and bfloat16_t is a parameter.
pub mod Lane
pub mod Formula
pub mod Single
pub mod Pair
pub mod Loaded
pub mod Rows
pub mod Prepared
pub mod Finished
pub mod Batch
pub mod Kept
pub mod Range
pub mod Steps
pub mod Batches
pub mod Tasks
pub mod PipelineTask
pub mod Fused
pub mod FusedFactor
pub mod Adjacent
pub mod Expected
pub mod Fusion
pub mod Covered
pub mod Run
pub mod Whole
pub mod Result
pub mod Launch
pub mod Owners
pub mod Golden
mod Tests
pub mod Computed
pub mod Tile
pub mod Opened
pub mod Delayed
use chunk_scaled_dot_kkt_asc.Prelude.{
  ℕ, ◌+◌, ◌-◌, ◌*◌, ◌/◌, ◌%◌, Bool, true, false, ◌&&◌, ltb, leb, if◌then◌else◌,
}
use chunk_scaled_dot_kkt_asc.Device.{row_elems}
use chunk_scaled_dot_kkt_asc.Vector.{
  Buffer, kkt, gate, beta, out, neg_g_single, neg_g_pair, mask_single, mask_pair, scratch, Tensor,
  Instr, muls_neg, brcb, compare_lt, exp, cast, mul, mul_rows, select, duplicate_zero, barrier,
}

-- float and bfloat16_t with the operations that the instructions apply to each element.
pub record Arithmetic : Type 1 where
  pub Float : Type 0
  pub Bfloat : Type 0
  pub zero_float : Float
  pub zero_bfloat : Bfloat
  pub times_minus_one : Float → Float
  pub expf : Float → Float
  pub times : Float → Float → Float
  pub less : Float → Float → Bool
  pub widen : Bfloat → Float

abbrev pub same : Buffer → Buffer → Bool
same kkt b = elim b [ kkt ↦ true | _ ↦ false ]
same gate b = elim b [ gate ↦ true | _ ↦ false ]
same beta b = elim b [ beta ↦ true | _ ↦ false ]
same out b = elim b [ out ↦ true | _ ↦ false ]
same neg_g_single b = elim b [ neg_g_single ↦ true | _ ↦ false ]
same neg_g_pair b = elim b [ neg_g_pair ↦ true | _ ↦ false ]
same mask_single b = elim b [ mask_single ↦ true | _ ↦ false ]
same mask_pair b = elim b [ mask_pair ↦ true | _ ↦ false ]
same scratch b = elim b [ scratch ↦ true | _ ↦ false ]

module _ (a : Arithmetic) where
  open a use {Float, Bfloat, zero_float, zero_bfloat, times_minus_one, expf, times, less, widen}

  -- `floats` and `bfloats` by element, `bits` by bit of a mask.
  pub record Memory : Type 0 where
    pub floats : Buffer → ℕ → Float
    pub bfloats : Buffer → ℕ → Bfloat
    pub bits : Buffer → ℕ → Bool

  -- `n` elements from element `at` of a buffer on are replaced.
  abbrev pub overwrite {ℓ} :
      {A : Type ℓ} → Buffer → (at n : ℕ) → (ℕ → A) → (Buffer → ℕ → A) → Buffer → ℕ → A
  overwrite buffer at n f old b j =
      if same buffer b && (leb at j && ltb j (at + n)) then f (j - at) else old b j

  abbrev pub write : Tensor → ℕ → (ℕ → Float) → Memory → Memory
  write dst n f m = record m { floats = overwrite dst.buffer dst.at n f m.floats }

  abbrev pub float_at : Memory → Tensor → ℕ → Float
  float_at m t i = m.floats t.buffer (t.at + i)

  -- Element `i` of a row operand that holds one block of eight equal elements a row.
  abbrev pub row_block : ℕ → ℕ
  row_block i = i / row_elems * 8 + i % 8

  unfoldable pub effect : Instr → Memory → Memory
  effect (muls_neg dst src n) m = write dst n (λ i. times_minus_one (float_at m src i)) m
  effect (brcb dst src repeats) m = write dst (repeats * 64) (λ i. float_at m src (i / 8)) m
  effect (compare_lt dst src0 src1 rows) m = record m {
    bits =
        overwrite dst.buffer (dst.at * 8) (rows * row_elems)
          (λ i. less (float_at m src0 (row_block i)) (float_at m src1 (i % row_elems))) m.bits;
  }
  effect (exp dst src n) m = write dst n (λ i. expf (float_at m src i)) m
  effect (cast dst src n) m = write dst n (λ i. widen (m.bfloats src.buffer (src.at + i))) m
  effect (mul dst src0 src1 n) m =
      write dst n (λ i. times (float_at m src0 i) (float_at m src1 i)) m
  effect (mul_rows dst src0 src1 rows) m =
      write dst (rows * row_elems)
        (λ i. times (float_at m src0 (i % row_elems)) (float_at m src1 (row_block i))) m
  effect (select dst mask src n) m =
      write dst n
        (λ i. if m.bits mask.buffer (mask.at * 8 + i) then float_at m src i else zero_float) m
  effect (duplicate_zero dst n) m = record m {
    floats = overwrite dst.buffer dst.at n (λ i. zero_float) m.floats;
    bfloats = overwrite dst.buffer dst.at n (λ i. zero_bfloat) m.bfloats;
  }
  effect barrier m = m
