-- ===== src/Vector/Values/Batch.antt =====
-- One batch of heads: from its gates and the KKT tile to the held-back output.
use chunk_scaled_dot_kkt_asc.Prelude.{
  leb, ltb, ℕ, ◌+◌, ◌-◌, ◌*◌, ◌^◌, ◌≤◌, ◌<◌, ◌≡◌, ◌⊎◌, false, [], arith, refl, if◌then◌else◌, ◌==◌,
  ==_iff, ◌&&◌, Bool-cases, inl, inr, subst,
}
use chunk_scaled_dot_kkt_asc.Device.{TilingData, kkt_elems, gate_head_batch}
use chunk_scaled_dot_kkt_asc.Vector.{Vector, M, kkt, out, gate, beta}
use chunk_scaled_dot_kkt_asc.Vector.Factor.{
  prepare_head_factor, prepare_head_pair_factor, finalize_head_with_kkt,
  finalize_head_pair_with_kkt,
}
use chunk_scaled_dot_kkt_asc.Vector.Values.{Arithmetic, Memory}
use chunk_scaled_dot_kkt_asc.Vector.Values.Formula.{factor, factor_same}
use chunk_scaled_dot_kkt_asc.Vector.Values.Lane.{Inputs, Lane, Hardware, SameKkt}
use chunk_scaled_dot_kkt_asc.Vector.Values.Delayed.{lane, Queued, settled}
use chunk_scaled_dot_kkt_asc.Vector.Values.Tile.{Written, Chunk, gram, gate_of, beta_of, tile_value}
use chunk_scaled_dot_kkt_asc.Vector.Values.Single.{
  single_factor, single_factor-out, single_factor-kkt, single_factor-outside,
}
use chunk_scaled_dot_kkt_asc.Vector.Values.Pair.{
  pair_factor, pair_factor-out, pair_factor-kkt, pair_factor-outside,
}
use chunk_scaled_dot_kkt_asc.Vector.Values.Prepared.{Prepared, prepare_single, prepare_pair}
use chunk_scaled_dot_kkt_asc.Vector.Values.Finished.{
  single_done-Queued, single_done-settled, single_done-rest, pair_done-Queued, pair_done-settled,
  pair_done-rest,
}

-- The work of a batch: one head or two, in some rows of a chunk inside the sequence. A pair is
-- computed for rows from the first one on only.
pub record Work (til : TilingData) (c : Chunk) : Type 0 where
  pub head : ℕ
  pub heads : ℕ
  pub row_start : ℕ
  pub rows : ℕ
  pub one_or_two : (heads ≡ 1) ⊎ (heads ≡ 2)
  pub split : heads ≡ 2 → row_start ≡ 0
  pub some_rows : 0 < c.chunk_len
  pub few_rows : c.chunk_len ≤ 64
  pub rows_inside : row_start + rows ≤ c.chunk_len
  pub chunk_inside : c.start + c.chunk_len ≤ til.t
  pub narrow : til.t * 4 < 2 ^ 32
  pub first_tile : ℕ
  pub second_tile : ℕ
  pub apart : first_tile + rows * 64 ≤ second_tile

module _ (a : Arithmetic) (inputs : Inputs a) (hw : Hardware a inputs) (til : TilingData)
    (l0 : Lane a) (c : Chunk) (w : Work til c) where
  open a use {Float, times}
  open w use {
    head, heads, row_start, rows, one_or_two, split, few_rows, first_tile, second_tile, apart,
  }

  abbrev at : Vector → Lane a
  at = lane a inputs hw til l0

  -- The factor of the batch, and its product.
  abbrev pub prepare : M (Unit {0})
  prepare =
      if heads == gate_head_batch
      then prepare_head_pair_factor til c.chunk_len rows first_tile second_tile
      else prepare_head_factor til c.chunk_len row_start rows first_tile

  abbrev pub finish : ℕ → M (Unit {0})
  finish slot =
      if heads == gate_head_batch
      then finalize_head_pair_with_kkt til slot head c.start rows
      else finalize_head_with_kkt til slot head c.start row_start rows

  abbrev pub factored : Memory a → Memory a
  factored m =
      if heads == gate_head_batch
      then pair_factor a c.chunk_len rows first_tile second_tile m
      else single_factor a c.chunk_len row_start rows first_tile m

  -- The first element of the tile of the batch's head `h`.
  abbrev pub held_tile : ℕ → ℕ
  held_tile h = if h == 0 then first_tile else second_tile

  -- The batch's gates and betas are in the local tensors.
  pub record GatesHeld (m : Memory a) : Type 0 where
    pub gate_held :
        (h i : ℕ)
        → h < heads
        → i < 64
        → m.floats gate (h * 64 + i) ≡ gate_of a inputs til c (head + h) i
    pub beta_held :
        (h i : ℕ)
        → h < heads
        → i < c.chunk_len
        → m.bfloats beta (h * 64 + i) ≡ beta_of a inputs til c (head + h) i

  -- So is the KKT tile.
  abbrev pub KktHeld : Memory a → Type 0
  KktHeld m =
      (r j : ℕ)
      → r < rows
      → j < 64
      → m.floats kkt (r * 64 + j) ≡ gram a inputs til c (row_start + r) j

  abbrev pub FactorHeld : Memory a → Type 0
  FactorHeld m =
      (h r j : ℕ)
      → h < heads
      → r < rows
      → j < 64
      → m.floats out (held_tile h + (r * 64 + j))
        ≡ factor a c.chunk_len (gate_of a inputs til c (head + h))
            (beta_of a inputs til c (head + h)) (row_start + r) j

  pub prepare-Prepared :
      (s : Vector)
      → Queued a inputs hw til l0 s
      → Prepared a inputs hw til l0 (factored (at s).memory) s (prepare s).1
  prepare-Prepared s q = elim (Bool-cases (heads == gate_head_batch)) [
    | inl two ↦ rw two (prepare_pair a inputs hw til l0 c.chunk_len rows first_tile second_tile s q)
    | inr one ↦ rw one (prepare_single a inputs hw til l0 c.chunk_len row_start rows first_tile s q)
  ]

  pub factored-kkt : (m : Memory a) → (factored m).floats kkt ≡ m.floats kkt
  factored-kkt m = elim (Bool-cases (heads == gate_head_batch)) [
    | inl two ↦ rw two (pair_factor-kkt a c.chunk_len rows first_tile second_tile m)
    | inr one ↦ rw one (single_factor-kkt a c.chunk_len row_start rows first_tile m)
  ]

  pair-FactorHeld :
      heads ≡ 2
      → (m : Memory a) → GatesHeld m
      → FactorHeld (pair_factor a c.chunk_len rows first_tile second_tile m)
  pair-FactorHeld two m g h r j lt small col =
      let len = c.chunk_len in
      let zero_start : row_start ≡ 0 = split two in
      let row : row_start + r ≡ r = omega arith in
      rw
        (
          pair_factor-out a len rows first_tile second_tile m h r j (omega arith) small col
              (omega arith) (omega arith) (omega arith),
          row,
        )
        (factor_same a len (λ i. m.floats gate (h * 64 + i)) (gate_of a inputs til c (head + h))
          (λ i. m.bfloats beta (h * 64 + i)) (beta_of a inputs til c (head + h)) r j
          (g.gate_held h r lt (omega arith)) (g.gate_held h j lt col)
          (g.beta_held h r lt (omega arith)))

  single-FactorHeld :
      heads ≡ 1
      → (m : Memory a) → GatesHeld m
      → FactorHeld (single_factor a c.chunk_len row_start rows first_tile m)
  single-FactorHeld one m g h r j lt small col =
      let len = c.chunk_len in
      let first : h ≡ 0 = omega arith in
      let i = row_start + r in
      let place : held_tile h ≡ first_tile = rw first refl in
      let at_i : h * 64 + i ≡ i = omega arith in
      let at_j : h * 64 + j ≡ j = omega arith in
      rw (place, single_factor-out a len row_start rows first_tile m r j small col)
        (factor_same a len (m.floats gate) (gate_of a inputs til c (head + h)) (m.bfloats beta)
          (beta_of a inputs til c (head + h)) i j
          (subst (λ (k : ℕ). m.floats gate k ≡ gate_of a inputs til c (head + h) i) at_i
            (g.gate_held h i lt (omega arith)))
          (subst (λ (k : ℕ). m.floats gate k ≡ gate_of a inputs til c (head + h) j) at_j
            (g.gate_held h j lt col))
          (subst (λ (k : ℕ). m.bfloats beta k ≡ beta_of a inputs til c (head + h) i) at_i
            (g.beta_held h i lt (omega arith))))

  pub factored-FactorHeld : (m : Memory a) → GatesHeld m → FactorHeld (factored m)
  factored-FactorHeld m g = elim (Bool-cases (heads == gate_head_batch)) [
    | inl two ↦ rw two (pair-FactorHeld ((==_iff heads 2).0 two) m g)
    | inr other ↦ rw other (single-FactorHeld (ground arith) m g)
  ]

  -- Outside the tiles the output tensor is as before.
  pub factored-outside :
      (m : Memory a) (x : ℕ)
      → (leb first_tile x && ltb x (first_tile + rows * 64)) ≡ false
      → (leb second_tile x && ltb x (second_tile + rows * 64)) ≡ false
      → (factored m).floats out x ≡ m.floats out x
  factored-outside m x away0 away1 = elim (Bool-cases (heads == gate_head_batch)) [
    | inl two ↦
        rw two (pair_factor-outside a c.chunk_len rows first_tile second_tile m x away0 away1)
    | inr one ↦ rw one (single_factor-outside a c.chunk_len row_start rows first_tile m x away0)
  ]

  -- The product of the held tile and the held factor.
  pub product-value :
      (m : Memory a) (d r j h i x : ℕ)
      → KktHeld m
      → FactorHeld m
      → d < heads
      → r < rows
      → j < 64
      → h ≡ head + d
      → i ≡ row_start + r
      → x ≡ held_tile d + (r * 64 + j)
      → times (m.floats kkt (r * 64 + j)) (m.floats out x) ≡ tile_value a inputs til c h i j
  unfolding tile_value
  product-value m d r j h i x k f lt small col at_h at_i at_x =
      rw (at_x, k r j small col, f d r j lt small col, at_h, at_i) refl

  pub finish-Written :
      (slot : ℕ) (s : Vector)
      → (at s).queued ≡ []
      → KktHeld (at s).memory
      → FactorHeld (at s).memory
      → first_tile ≡ 0
      → second_tile ≡ kkt_elems
      → Written a inputs til c row_start rows head heads
          (settled a inputs hw til l0 (finish slot s).1)
          (at s).output
  unfolding Written
  finish-Written slot s empty k f z0 z1 h row j in_t col =
      elim (Bool-cases (heads == gate_head_batch)) [
        | inl two ↦
            let both : heads ≡ 2 = (==_iff heads 2).0 two in
            let zero_start : row_start ≡ 0 = split both in
            rw
              (
                two,
                pair_done-settled a inputs hw til l0 s c.start rows empty slot head (omega arith)
                    (omega arith) h row j in_t col,
              )
              (ground (
                arith,
                product-value (at s).memory 0 (row - c.start) j h (row - c.start)
                    (0 + ((row - c.start) * 64 + j)) k f,
                product-value (at s).memory 1 (row - c.start) j h (row - c.start)
                    (kkt_elems + ((row - c.start) * 64 + j)) k f,
              ))
        | inr other ↦
            let single : heads ≡ 1 = ground arith in
            rw
              (
                other,
                single_done-settled a inputs hw til l0 s c.start rows empty slot head row_start
                    (omega arith) h row j in_t col,
              )
              (ground (
                arith,
                product-value (at s).memory 0 (row - (c.start + row_start)) j h (row - c.start)
                    (0 + ((row - (c.start + row_start)) * 64 + j)) k f,
              ))
      ]

  pub finish-Queued :
      (slot : ℕ) (s : Vector) → (at s).queued ≡ [] → Queued a inputs hw til l0 (finish slot s).1
  finish-Queued slot s empty = elim (Bool-cases (heads == gate_head_batch)) [
    | inl two ↦
        let both : heads ≡ 2 = (==_iff heads 2).0 two in
        let zero_start : row_start ≡ 0 = split both in
        rw two (
          pair_done-Queued a inputs hw til l0 s c.start rows empty slot head (omega arith)
            (omega arith))
    | inr other ↦ rw other (
        single_done-Queued a inputs hw til l0 s c.start rows empty slot head row_start
          (omega arith))
  ]

  pub finish-rest :
      (slot : ℕ) (s : Vector)
      → (at s).queued ≡ []
      → ((at (finish slot s).1).loaded ≡ (at s).loaded)
        × ((at (finish slot s).1).ready_seen ≡ (at s).ready_seen)
        × SameKkt a (at s) (at (finish slot s).1)
  finish-rest slot s empty = elim (Bool-cases (heads == gate_head_batch)) [
    | inl two ↦
        let both : heads ≡ 2 = (==_iff heads 2).0 two in
        let zero_start : row_start ≡ 0 = split both in
        rw two (
          pair_done-rest a inputs hw til l0 s c.start rows empty slot head (omega arith)
            (omega arith))
    | inr other ↦
        rw other (
          single_done-rest a inputs hw til l0 s c.start rows empty slot head row_start
            (omega arith))
  ]
