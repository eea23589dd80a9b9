-- ===== src/Vector/Values/Finished.antt =====
-- The product with the KKT tile, and the batch as the held-back one.
use chunk_scaled_dot_kkt_asc.Prelude.{
  ℕ, ◌+◌, ◌-◌, ◌*◌, ◌≤◌, ◌<◌, ◌≡◌, ◌∙◌, List, [], ◌∷◌, ◌++◌, arith, refl, ap, if◌then◌else◌, ◌==◌,
  ◌&&◌, none,
}
use chunk_scaled_dot_kkt_asc.Device.{TilingData, row_elems, kkt_elems}
use chunk_scaled_dot_kkt_asc.Vector.{Vector, kkt, out, mul, enque_output, emit, vector}
use chunk_scaled_dot_kkt_asc.Vector.Output.{queue_delayed_single_output, queue_delayed_pair_output}
use chunk_scaled_dot_kkt_asc.Vector.Load.{tensor}
use chunk_scaled_dot_kkt_asc.Vector.Factor.{finalize_head_with_kkt, finalize_head_pair_with_kkt}
use chunk_scaled_dot_kkt_asc.Vector.Copies.{tile_lands}
use chunk_scaled_dot_kkt_asc.Vector.Values.{Arithmetic, effect}
use chunk_scaled_dot_kkt_asc.Vector.Values.Lane.{Inputs, Lane, Hardware, documented, SameKkt}
use chunk_scaled_dot_kkt_asc.Vector.Values.Delayed.{
  lane, Queued, settled, single-settled, pair-settled,
}
use chunk_scaled_dot_kkt_asc.Vector.Values.Rows.{element, in_rows, tile_lands-element}

module _ (a : Arithmetic) (inputs : Inputs a) (hw : Hardware a inputs) (til : TilingData)
    (l0 : Lane a) (s : Vector) (start rows : ℕ)
    (empty : (lane a inputs hw til l0 s).queued ≡ []) where
  open a use {Float, times}

  abbrev at : Vector → Lane a
  at = lane a inputs hw til l0

  -- The product of the KKT tile and the factor in a tile of the output tensor.
  abbrev pub product : (tile_at r j : ℕ) → Float
  product tile_at r j =
      times ((at s).memory.floats kkt (r * 64 + j))
        ((at s).memory.floats out (tile_at + (r * 64 + j)))

  module _ (slot head row_start : ℕ) (below : start + row_start + rows ≤ til.t) where
    abbrev single_done : Vector
    single_done = (finalize_head_with_kkt til slot head start row_start rows s).1

    pub single_done-Queued : Queued a inputs hw til l0 single_done
    unfolding finalize_head_with_kkt documented queue_delayed_single_output
    single_done-Queued = rw empty refl

    pub single_done-settled :
        (h row j : ℕ)
        → row < til.t
        → j < 64
        → settled a inputs hw til l0 single_done (element til.t h row j) ≡ (
            if h == head && in_rows (start + row_start) rows row
            then product 0 (row - (start + row_start)) j
            else (at s).output (element til.t h row j))
    unfolding finalize_head_with_kkt documented effect
    single_done-settled h row j lt small =
        let s1 =
          (emit (vector (mul (tensor out 0) (tensor kkt 0) (tensor out 0) (rows * row_elems)))
            s).1 in
        let s2 = (emit enque_output s1).1 in
        let q : (at s2).queued ≡ (at s1).memory.floats out ∷ [] =
          ap (λ (l : List (ℕ → Float)). l ++ (at s1).memory.floats out ∷ []) empty in
        single-settled a inputs hw til l0 s2 ((at s1).memory.floats out) slot head start row_start
          rows (element til.t h row j) q
        ∙ rw (tile_lands-element til head (start + row_start) rows 0 h row j none below lt small)
            (ground arith)

    pub single_done-rest :
        ((at single_done).loaded ≡ (at s).loaded)
        × ((at single_done).ready_seen ≡ (at s).ready_seen)
        × SameKkt a (at s) (at single_done)
    unfolding finalize_head_with_kkt documented queue_delayed_single_output effect
    single_done-rest = (refl, refl, refl)

  module _ (slot first_head : ℕ) (few : rows ≤ 64) (inside : start + rows ≤ til.t) where
    abbrev pair_done : Vector
    pair_done = (finalize_head_pair_with_kkt til slot first_head start rows s).1

    pub pair_done-Queued : Queued a inputs hw til l0 pair_done
    unfolding finalize_head_pair_with_kkt documented queue_delayed_pair_output
    pair_done-Queued = rw empty refl

    pub pair_done-settled :
        (h row j : ℕ)
        → row < til.t
        → j < 64
        → settled a inputs hw til l0 pair_done (element til.t h row j) ≡ (
            if h == first_head && in_rows start rows row
            then product 0 (row - start) j
            else if h == first_head + 1 && in_rows start rows row
            then product kkt_elems (row - start) j
            else (at s).output (element til.t h row j))
    unfolding finalize_head_pair_with_kkt documented effect
    pair_done-settled h row j lt small =
        let s1 =
          (emit (vector (mul (tensor out 0) (tensor kkt 0) (tensor out 0) (rows * row_elems)))
            s).1 in
        let s2 =
          (emit
            (vector
              (mul (tensor out kkt_elems) (tensor kkt 0) (tensor out kkt_elems) (rows * row_elems)))
            s1).1 in
        let s3 = (emit enque_output s2).1 in
        let tile = (at s2).memory.floats out in
        let q : (at s3).queued ≡ tile ∷ [] = ap (λ (l : List (ℕ → Float)). l ++ tile ∷ []) empty in
        pair-settled a inputs hw til l0 s3 tile slot first_head start rows (element til.t h row j) q
          few inside
        ∙ rw
            (
              tile_lands-element til first_head start rows 0 h row j
                  (tile_lands til (first_head + 1) start rows kkt_elems (element til.t h row j)
                    none)
                  inside lt small,
              tile_lands-element til (first_head + 1) start rows kkt_elems h row j none inside lt
                  small,
            )
            (ground arith)

    pub pair_done-rest :
        ((at pair_done).loaded ≡ (at s).loaded)
        × ((at pair_done).ready_seen ≡ (at s).ready_seen)
        × SameKkt a (at s) (at pair_done)
    unfolding finalize_head_pair_with_kkt documented queue_delayed_pair_output effect
    pair_done-rest = (refl, refl, refl)
