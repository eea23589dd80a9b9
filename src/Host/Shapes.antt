-- ===== src/Host/Shapes.antt =====
-- `ValidateAndReadShape` of op_host/chunk_scaled_dot_kkt_tiling.cpp, and
-- `InferShapeChunkScaledDotKkt` of op_host/chunk_scaled_dot_kkt_infershape.cpp.
use chunk_scaled_dot_kkt_asc.Prelude.{
  ℕ, suc, zero, ◌-◌, ◌%◌, Bool, true, false, not, ◌&&◌, ◌||◌, Option, none, some, List, [], ◌∷◌,
  ◌==◌, length,
}
use chunk_scaled_dot_kkt_asc.Prelude.Int.{ℤ, pos, pos_part, ◌==ℤ◌, leb_ℤ}

-- A dimension is an int64_t, and may be negative.
abbrev pub Shape : Type 0
Shape = List ℤ

-- The storage shapes that the context hands out; `none` is a null pointer.
pub record Inputs : Type 0 where
  pub k : Option Shape
  pub beta : Option Shape
  pub g_cumsum : Option Shape
  pub chunk_offsets : Option Shape

-- The values that are read; the tests before make them positive.
pub record Sizes : Type 0 where
  pub t : ℕ
  pub h : ℕ
  pub hg : ℕ
  pub k_dim : ℕ
  pub num_chunks : ℕ

-- `GetDim(i)`. It is read only below the rank; beyond it stands 0.
abbrev pub get_dim : Shape → ℕ → ℤ
get_dim [] i = pos 0
get_dim (d ∷ ds) zero = d
get_dim (d ∷ ds) (suc i) = get_dim ds i

infixl 5 ◌>>=◌ ◌>>◌
abbrev pub ◌>>=◌ : {A B : Type 0} → Option A → (A → Option B) → Option B
some a >>= f = f a
none >>= f = none

abbrev pub ◌>>◌ : {B : Type 0} → Option (Unit {0}) → Option B → Option B
m >> k = m >>= λ _. k

-- `OP_CHECK_IF(cond, …, return ge::GRAPH_FAILED)`
abbrev pub fail_if : Bool → Option (Unit {0})
fail_if true = none
fail_if false = some tt

unfoldable pub validate_and_read_shape : Inputs → Option Sizes
validate_and_read_shape inputs = do
  k ← inputs.k
  beta ← inputs.beta
  g ← inputs.g_cumsum
  offset ← inputs.chunk_offsets
  fail_if (not (length k == 4))
  fail_if (not (length beta == 3) || not (length g == 3))
  fail_if (not (length offset == 1))
  let b = get_dim k 0
  let t = get_dim k 1
  let hg = get_dim k 2
  let k_dim = get_dim k 3
  let h = get_dim beta 1
  fail_if (not (b ==ℤ pos 1))
  fail_if (leb_ℤ t (pos 0) || leb_ℤ h (pos 0) || leb_ℤ hg (pos 0))
  fail_if (not (k_dim ==ℤ pos 128) && not (k_dim ==ℤ pos 256))
  fail_if (not (pos_part h % pos_part hg == 0))
  fail_if (not (get_dim beta 0 ==ℤ b) || not (get_dim beta 2 ==ℤ t))
  fail_if (not (get_dim g 0 ==ℤ b) || not (get_dim g 1 ==ℤ h) || not (get_dim g 2 ==ℤ t))
  let offset_count = get_dim offset 0
  fail_if (not (leb_ℤ (pos 2) offset_count))
  some (record {
    t = pos_part t;
    h = pos_part h;
    hg = pos_part hg;
    k_dim = pos_part k_dim;
    num_chunks = pos_part offset_count - 1;
  })

-- `none` is GRAPH_FAILED; the output shape's pointer is the last argument's Boolean.
unfoldable pub infer_shape : Option Shape → Option Shape → Bool → Option Shape
infer_shape k beta has_output = do
  k' ← k
  beta' ← beta
  fail_if (not has_output)
  fail_if (not (length k' == 4) || not (length beta' == 3))
  some (get_dim k' 0 ∷ get_dim beta' 1 ∷ get_dim k' 1 ∷ pos 64 ∷ [])
