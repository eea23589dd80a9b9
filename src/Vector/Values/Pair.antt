-- ===== src/Vector/Values/Pair.antt =====
-- The factors of two consecutive heads: what each block of instructions leaves in the local buffers.
use chunk_scaled_dot_kkt_asc.Prelude.{
  false, leb, ◌&&◌, ap, ◌∙◌, ℕ, ◌+◌, ◌*◌, ◌/◌, ◌%◌, ◌<◌, ◌≤◌, ◌≡◌, ◌==◌, ltb, if◌then◌else◌, arith,
  refl,
}
use chunk_scaled_dot_kkt_asc.Device.{row_elems, gate_head_batch}
use chunk_scaled_dot_kkt_asc.Vector.{
  kkt, gate, beta, out, neg_g_pair, mask_pair, scratch, muls_neg, brcb, compare_lt, exp, cast, mul,
  mul_rows, select,
}
use chunk_scaled_dot_kkt_asc.Vector.Load.{tensor}
use chunk_scaled_dot_kkt_asc.Vector.Factor.{
  row_brcb_repeats, scratch_head_stride, mask_head_stride_bytes,
}
use chunk_scaled_dot_kkt_asc.Vector.Values.{Arithmetic, Memory, effect}
use chunk_scaled_dot_kkt_asc.Vector.Values.Formula.{factor, column_factor, row_factor}

module _ (a : Arithmetic) (chunk_len rows out0 out1 : ℕ) where
  open a use {Float, zero_float, times_minus_one, expf, times, less, widen}

  unfoldable pub pair_started : Memory a → Memory a
  unfolding effect
  pair_started m =
      let m1 =
        effect a (muls_neg (tensor neg_g_pair 0) (tensor gate 0) (gate_head_batch * row_elems)) m in
      if rows == row_elems
      then effect a (brcb (tensor scratch 0) (tensor gate 0) (gate_head_batch * row_elems / 8)) m1
      else effect a
          (brcb (tensor scratch scratch_head_stride) (tensor gate row_elems)
            (row_brcb_repeats rows))
          (effect a (brcb (tensor scratch 0) (tensor gate 0) (row_brcb_repeats rows)) m1)

  unfoldable pub pair_masked : Memory a → Memory a
  unfolding effect
  pair_masked m =
      effect a (exp (tensor neg_g_pair row_elems) (tensor neg_g_pair row_elems) chunk_len) (
        effect a (exp (tensor neg_g_pair 0) (tensor neg_g_pair 0) chunk_len) (
          effect a
            (compare_lt (tensor mask_pair mask_head_stride_bytes)
              (tensor scratch scratch_head_stride) (tensor gate row_elems) rows)
            (effect a (compare_lt (tensor mask_pair 0) (tensor scratch 0) (tensor gate 0) rows) m)))

  unfoldable pub pair_scaled : Memory a → Memory a
  unfolding effect
  pair_scaled m =
      effect a (mul (tensor out out1) (tensor out out1) (tensor scratch row_elems) rows) (
        effect a (mul (tensor out out0) (tensor out out0) (tensor scratch 0) rows) (
          effect a (exp (tensor out out1) (tensor gate row_elems) rows) (
            effect a (exp (tensor out out0) (tensor gate 0) rows) (
              effect a (cast (tensor scratch 0) (tensor beta 0) (gate_head_batch * row_elems)) m))))

  unfoldable pub pair_spread : Memory a → Memory a
  unfolding effect
  pair_spread m =
      effect a (brcb (tensor scratch scratch_head_stride) (tensor out out1) (row_brcb_repeats rows))
        (effect a (brcb (tensor scratch 0) (tensor out out0) (row_brcb_repeats rows)) m)

  unfoldable pub pair_product : Memory a → Memory a
  unfolding effect
  pair_product m =
      effect a
        (mul_rows (tensor out out1) (tensor neg_g_pair row_elems)
          (tensor scratch scratch_head_stride) rows)
        (effect a (mul_rows (tensor out out0) (tensor neg_g_pair 0) (tensor scratch 0) rows) m)

  unfoldable pub pair_selected : Memory a → Memory a
  unfolding effect
  pair_selected m =
      effect a
        (select (tensor out out1) (tensor mask_pair mask_head_stride_bytes) (tensor out out1)
          (rows * row_elems))
        (effect a
          (select (tensor out out0) (tensor mask_pair 0) (tensor out out0) (rows * row_elems)) m)

  -- The first element of a head's tile, for the heads 0 and 1.
  abbrev pub tile_at : ℕ → ℕ
  tile_at h = if h == 0 then out0 else out1

  module _ (few : rows ≤ 64) (apart : out0 + rows * 64 ≤ out1) (h : ℕ) (two : h < 2) where
    pair_started-scratch :
        (m : Memory a) (r c : ℕ)
        → r < rows
        → c < 8
        → (pair_started m).floats scratch (h * 512 + (r * 8 + c)) ≡ m.floats gate (h * 64 + r)
    unfolding pair_started
    pair_started-scratch m r c lt small = ground arith

    pair_started-neg :
        (m : Memory a) (j : ℕ)
        → j < 64
        → (pair_started m).floats neg_g_pair (h * 64 + j)
          ≡ times_minus_one (m.floats gate (h * 64 + j))
    unfolding pair_started
    pair_started-neg m j lt = ground arith

    pair_masked-bits :
        (m : Memory a) (r j : ℕ)
        → r < rows
        → j < 64
        → (pair_masked m).bits mask_pair (h * 4096 + (r * 64 + j))
          ≡ less (m.floats scratch (h * 512 + (r * 8 + j % 8))) (m.floats gate (h * 64 + j))
    unfolding pair_masked
    pair_masked-bits m r j lt small = ground arith

    pair_masked-neg :
        (m : Memory a) (j : ℕ)
        → j < 64
        → chunk_len ≤ 64
        → (pair_masked m).floats neg_g_pair (h * 64 + j) ≡ (
            if ltb j chunk_len
            then expf (m.floats neg_g_pair (h * 64 + j))
            else m.floats neg_g_pair (h * 64 + j))
    unfolding pair_masked
    pair_masked-neg m j lt len = ground arith

    pair_scaled-out :
        (m : Memory a) (r : ℕ)
        → r < rows
        → (pair_scaled m).floats out (tile_at h + r)
          ≡ times (expf (m.floats gate (h * 64 + r))) (widen (m.bfloats beta (h * 64 + r)))
    unfolding pair_scaled
    pair_scaled-out m r lt = ground arith

    pair_spread-scratch :
        (m : Memory a) (r c : ℕ)
        → r < rows
        → c < 8
        → (pair_spread m).floats scratch (h * 512 + (r * 8 + c)) ≡ m.floats out (tile_at h + r)
    unfolding pair_spread
    pair_spread-scratch m r c lt small = ground arith

    pair_product-out :
        (m : Memory a) (r j : ℕ)
        → r < rows
        → j < 64
        → (pair_product m).floats out (tile_at h + (r * 64 + j))
          ≡ times (m.floats neg_g_pair (h * 64 + j)) (m.floats scratch (h * 512 + (r * 8 + j % 8)))
    unfolding pair_product
    pair_product-out m r j lt small = ground arith

    pair_selected-out :
        (m : Memory a) (r j : ℕ)
        → r < rows
        → j < 64
        → (pair_selected m).floats out (tile_at h + (r * 64 + j)) ≡ (
            if m.bits mask_pair (h * 4096 + (r * 64 + j))
            then m.floats out (tile_at h + (r * 64 + j))
            else zero_float)
    unfolding pair_selected
    pair_selected-out m r j lt small = ground arith

  pair_started-gates :
      (m : Memory a)
      → ((pair_started m).floats gate ≡ m.floats gate) × ((pair_started m).bfloats ≡ m.bfloats)
  unfolding pair_started
  pair_started-gates m = ground arith

  pair_masked-gates :
      (m : Memory a)
      → ((pair_masked m).floats gate ≡ m.floats gate) × ((pair_masked m).bfloats ≡ m.bfloats)
  unfolding pair_masked
  pair_masked-gates m = (refl, refl)

  pair_scaled-rest :
      (m : Memory a)
      → ((pair_scaled m).bits ≡ m.bits) × ((pair_scaled m).floats neg_g_pair ≡ m.floats neg_g_pair)
  unfolding pair_scaled
  pair_scaled-rest m = (refl, refl)

  pair_spread-rest :
      (m : Memory a)
      → ((pair_spread m).bits ≡ m.bits) × ((pair_spread m).floats neg_g_pair ≡ m.floats neg_g_pair)
  unfolding pair_spread
  pair_spread-rest m = (refl, refl)

  pair_product-bits : (m : Memory a) → (pair_product m).bits ≡ m.bits
  unfolding pair_product
  pair_product-bits m = refl

  -- The blocks in the order of the code.
  unfoldable pub pair_factor : Memory a → Memory a
  pair_factor m =
      pair_selected (pair_product (pair_spread (pair_scaled (pair_masked (pair_started m)))))

  -- The factors of both heads, whose gates and betas lie 64 elements apart, are left in their tiles.
  pub pair_factor-out :
      (m : Memory a) (h r j : ℕ)
      → h < 2
      → r < rows
      → j < 64
      → rows ≤ 64
      → chunk_len ≤ 64
      → out0 + rows * 64 ≤ out1
      → (pair_factor m).floats out (tile_at h + (r * 64 + j))
        ≡ factor a chunk_len
            (λ i. m.floats gate (h * 64 + i))
            (λ i. m.bfloats beta (h * 64 + i))
            r
            j
  unfolding pair_factor factor column_factor row_factor
  pair_factor-out m h r j two lt small few len apart =
      let m1 = pair_started m in
      let m2 = pair_masked m1 in
      let m3 = pair_scaled m2 in
      let m4 = pair_spread m3 in
      rw
        (
          pair_selected-out few apart h two (pair_product m4) r j lt small,
          pair_product-bits m4,
          pair_product-out few apart h two m4 r j lt small,
          (pair_spread-rest m3).0,
          (pair_spread-rest m3).1,
          pair_spread-scratch few apart h two m3 r (j % 8) lt (omega arith),
          (pair_scaled-rest m2).0,
          (pair_scaled-rest m2).1,
          pair_scaled-out few apart h two m2 r lt,
          pair_masked-bits few apart h two m1 r j lt small,
          pair_masked-neg few apart h two m1 j small len,
          (pair_masked-gates m1).0,
          (pair_masked-gates m1).1,
          (pair_started-gates m).0,
          (pair_started-gates m).1,
          pair_started-scratch few apart h two m r (j % 8) lt (omega arith),
          pair_started-neg few apart h two m j small,
        )
        refl

  pub pair_factor-kkt : (m : Memory a) → (pair_factor m).floats kkt ≡ m.floats kkt
  unfolding pair_factor pair_started pair_masked pair_scaled pair_spread pair_product pair_selected
  pair_factor-kkt m = ground arith

  pair_scaled-outside :
      (m : Memory a) (x : ℕ)
      → (leb out0 x && ltb x (out0 + rows * 64)) ≡ false
      → (leb out1 x && ltb x (out1 + rows * 64)) ≡ false
      → (pair_scaled m).floats out x ≡ m.floats out x
  unfolding pair_scaled
  pair_scaled-outside m x away0 away1 = ground arith

  pair_product-outside :
      (m : Memory a) (x : ℕ)
      → (leb out0 x && ltb x (out0 + rows * 64)) ≡ false
      → (leb out1 x && ltb x (out1 + rows * 64)) ≡ false
      → (pair_product m).floats out x ≡ m.floats out x
  unfolding pair_product
  pair_product-outside m x away0 away1 = ground arith

  pair_selected-outside :
      (m : Memory a) (x : ℕ)
      → (leb out0 x && ltb x (out0 + rows * 64)) ≡ false
      → (leb out1 x && ltb x (out1 + rows * 64)) ≡ false
      → (pair_selected m).floats out x ≡ m.floats out x
  unfolding pair_selected
  pair_selected-outside m x away0 away1 = ground arith

  pair_rest-out :
      (m : Memory a)
      → ((pair_started m).floats out ≡ m.floats out)
        × ((pair_masked m).floats out ≡ m.floats out)
        × ((pair_spread m).floats out ≡ m.floats out)
  unfolding pair_started pair_masked pair_spread
  pair_rest-out m = (ground arith, refl, refl)

  -- Outside its tiles the output tensor is as before.
  pub pair_factor-outside :
      (m : Memory a) (x : ℕ)
      → (leb out0 x && ltb x (out0 + rows * 64)) ≡ false
      → (leb out1 x && ltb x (out1 + rows * 64)) ≡ false
      → (pair_factor m).floats out x ≡ m.floats out x
  unfolding pair_factor
  pair_factor-outside m x away0 away1 =
      let m1 = pair_started m in
      let m2 = pair_masked m1 in
      let m3 = pair_scaled m2 in
      let m4 = pair_spread m3 in
      let at_x = λ (f : ℕ → Float). f x in
      pair_selected-outside (pair_product m4) x away0 away1
      ∙ pair_product-outside m4 x away0 away1
      ∙ ap at_x (pair_rest-out m3).2
      ∙ pair_scaled-outside m2 x away0 away1
      ∙ ap at_x (pair_rest-out m1).1
      ∙ ap at_x (pair_rest-out m).0
