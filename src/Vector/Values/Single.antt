-- ===== src/Vector/Values/Single.antt =====
-- The factor of one head: what each block of instructions leaves in the local buffers.
use chunk_scaled_dot_kkt_asc.Prelude.{
  false, leb, ◌&&◌, ℕ, ◌+◌, ◌*◌, ◌%◌, ◌<◌, ◌≡◌, ltb, if◌then◌else◌, arith, refl,
}
use chunk_scaled_dot_kkt_asc.Device.{row_elems}
use chunk_scaled_dot_kkt_asc.Vector.{
  kkt, gate, beta, out, neg_g_single, mask_single, scratch, muls_neg, brcb, compare_lt, exp, cast,
  mul, mul_rows, select,
}
use chunk_scaled_dot_kkt_asc.Vector.Load.{tensor}
use chunk_scaled_dot_kkt_asc.Vector.Factor.{row_brcb_repeats}
use chunk_scaled_dot_kkt_asc.Vector.Values.{Arithmetic, Memory, effect}
use chunk_scaled_dot_kkt_asc.Vector.Values.Formula.{factor, column_factor, row_factor}

module _ (a : Arithmetic) (chunk_len row_start rows out0 : ℕ) where
  open a use {Float, zero_float, times_minus_one, expf, times, less, widen}

  unfoldable pub started : Memory a → Memory a
  unfolding effect
  started m =
      effect a (brcb (tensor scratch 0) (tensor gate row_start) (row_brcb_repeats rows))
        (effect a (muls_neg (tensor neg_g_single 0) (tensor gate 0) row_elems) m)

  unfoldable pub masked : Memory a → Memory a
  unfolding effect
  masked m =
      effect a (exp (tensor neg_g_single 0) (tensor neg_g_single 0) chunk_len)
        (effect a (compare_lt (tensor mask_single 0) (tensor scratch 0) (tensor gate 0) rows) m)

  unfoldable pub scaled : Memory a → Memory a
  unfolding effect
  scaled m = effect a (mul (tensor out out0) (tensor out out0) (tensor scratch 0) rows) (
      effect a (cast (tensor scratch 0) (tensor beta row_start) rows)
        (effect a (exp (tensor out out0) (tensor gate row_start) rows) m))

  unfoldable pub spread : Memory a → Memory a
  unfolding effect
  spread m =
      effect a
        (select (tensor out out0) (tensor mask_single 0) (tensor out out0) (rows * row_elems))
        (effect a (mul_rows (tensor out out0) (tensor neg_g_single 0) (tensor scratch 0) rows)
          (effect a (brcb (tensor scratch 0) (tensor out out0) (row_brcb_repeats rows)) m))

  started-scratch :
      (m : Memory a) (r c : ℕ)
      → r < rows
      → c < 8
      → (started m).floats scratch (r * 8 + c) ≡ m.floats gate (row_start + r)
  unfolding started
  started-scratch m r c lt small = ground (arith)

  started-neg :
      (m : Memory a) (j : ℕ)
      → j < 64
      → (started m).floats neg_g_single j ≡ times_minus_one (m.floats gate j)
  unfolding started
  started-neg m j lt = ground arith

  masked-bits :
      (m : Memory a) (r j : ℕ)
      → r < rows
      → j < 64
      → (masked m).bits mask_single (r * 64 + j)
        ≡ less (m.floats scratch (r * 8 + j % 8)) (m.floats gate j)
  unfolding masked
  masked-bits m r j lt small = ground arith

  masked-neg :
      (m : Memory a) (j : ℕ)
      → (masked m).floats neg_g_single j
        ≡ (if ltb j chunk_len then expf (m.floats neg_g_single j) else m.floats neg_g_single j)
  unfolding masked
  masked-neg m j = ground arith

  scaled-out :
      (m : Memory a) (r : ℕ)
      → r < rows
      → (scaled m).floats out (out0 + r)
        ≡ times (expf (m.floats gate (row_start + r))) (widen (m.bfloats beta (row_start + r)))
  unfolding scaled
  scaled-out m r lt = ground arith

  spread-out :
      (m : Memory a) (r j : ℕ)
      → r < rows
      → j < 64
      → (spread m).floats out (out0 + (r * 64 + j)) ≡ (
          if m.bits mask_single (r * 64 + j)
          then times (m.floats neg_g_single j) (m.floats out (out0 + r))
          else zero_float)
  unfolding spread
  spread-out m r j lt small = ground arith

  started-gates :
      (m : Memory a) → ((started m).floats gate ≡ m.floats gate) × ((started m).bfloats ≡ m.bfloats)
  unfolding started
  started-gates m = (refl, refl)

  masked-gates :
      (m : Memory a) → ((masked m).floats gate ≡ m.floats gate) × ((masked m).bfloats ≡ m.bfloats)
  unfolding masked
  masked-gates m = (refl, refl)

  scaled-rest :
      (m : Memory a)
      → ((scaled m).bits ≡ m.bits) × ((scaled m).floats neg_g_single ≡ m.floats neg_g_single)
  unfolding scaled
  scaled-rest m = (refl, refl)

  -- The blocks in the order of the code.
  unfoldable pub single_factor : Memory a → Memory a
  single_factor m = spread (scaled (masked (started m)))

  -- A single head's factor, row by row from `row_start` on, is left in the output tensor.
  pub single_factor-out :
      (m : Memory a) (r j : ℕ)
      → r < rows
      → j < 64
      → (single_factor m).floats out (out0 + (r * 64 + j))
        ≡ factor a chunk_len (m.floats gate) (m.bfloats beta) (row_start + r) j
  unfolding single_factor factor column_factor row_factor
  single_factor-out m r j lt small =
      let m1 = started m in
      let m2 = masked m1 in
      rw
        (
          spread-out (scaled m2) r j lt small,
          (scaled-rest m2).0,
          (scaled-rest m2).1,
          scaled-out m2 r lt,
          masked-bits m1 r j lt small,
          masked-neg m1 j,
          (masked-gates m1).0,
          (masked-gates m1).1,
          (started-gates m).0,
          (started-gates m).1,
          started-scratch m r (j % 8) lt (omega arith),
          started-neg m j small,
        )
        refl

  pub single_factor-kkt : (m : Memory a) → (single_factor m).floats kkt ≡ m.floats kkt
  unfolding single_factor started masked scaled spread
  single_factor-kkt m = refl

  -- Outside its tile the output tensor is as before.
  pub single_factor-outside :
      (m : Memory a) (x : ℕ)
      → (leb out0 x && ltb x (out0 + rows * 64)) ≡ false
      → (single_factor m).floats out x ≡ m.floats out x
  unfolding single_factor started masked scaled spread
  single_factor-outside m x away = ground arith
