-- ===== src/Vector/Values/Formula.antt =====
-- What the operator computes, element by element: the factor of row `i` and column `j` of a head
-- from the head's gates and betas in the chunk, and its product with the Gram matrix.
use chunk_scaled_dot_kkt_asc.Prelude.{ℕ, ◌≡◌, arith, ltb, if◌then◌else◌}
use chunk_scaled_dot_kkt_asc.Vector.Values.{Arithmetic}

module _ (a : Arithmetic) where
  open a use {Float, Bfloat, zero_float, times_minus_one, expf, times, less, widen}

  -- The factor of a column: `exp(-g_j)`, but `-g_j` behind the chunk's end, where `g_j` is 0.
  unfoldable pub column_factor : (chunk_len : ℕ) → (g : ℕ → Float) → ℕ → Float
  column_factor chunk_len g j =
      if ltb j chunk_len then expf (times_minus_one (g j)) else times_minus_one (g j)

  -- The factor of a row: `exp(g_i) * beta_i`.
  unfoldable pub row_factor : (g : ℕ → Float) → (betas : ℕ → Bfloat) → ℕ → Float
  row_factor g betas i = times (expf (g i)) (widen (betas i))

  -- Both, and 0 except where `g_i < g_j`.
  unfoldable pub factor : (chunk_len : ℕ) → (g : ℕ → Float) → (ℕ → Bfloat) → (i j : ℕ) → Float
  unfolding column_factor row_factor
  factor chunk_len g betas i j =
      if less (g i) (g j)
      then times (column_factor chunk_len g j) (row_factor g betas i)
      else zero_float

  -- It reads the gates of its row and column and the beta of its row only.
  pub factor_same :
      (chunk_len : ℕ) (g g' : ℕ → Float) (betas betas' : ℕ → Bfloat) (i j : ℕ)
      → g i ≡ g' i
      → g j ≡ g' j
      → betas i ≡ betas' i
      → factor chunk_len g betas i j ≡ factor chunk_len g' betas' i j
  unfolding factor row_factor
  factor_same chunk_len g g' betas betas' i j p q r = ground arith
