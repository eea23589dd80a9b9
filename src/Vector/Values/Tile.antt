-- ===== src/Vector/Values/Tile.antt =====
-- The values that a chunk's tile of a head is to have, from the tensors in global memory.
use chunk_scaled_dot_kkt_asc.Prelude.{
  ℕ, ◌+◌, ◌-◌, ◌*◌, ◌<◌, ◌≡◌, ◌∙◌, ◌&&◌, ap, dec_lt, arith, ltb, if◌then◌else◌,
}
use chunk_scaled_dot_kkt_asc.Device.{TilingData, slot_offset}
use chunk_scaled_dot_kkt_asc.Vector.Values.{Arithmetic}
use chunk_scaled_dot_kkt_asc.Vector.Values.Formula.{factor}
use chunk_scaled_dot_kkt_asc.Vector.Values.Lane.{Inputs}
use chunk_scaled_dot_kkt_asc.Vector.Values.Rows.{element, in_rows}

-- A chunk with its place in the workspace; `round` is the number of READYs seen by then.
pub record Chunk : Type 0 where
  pub round : ℕ
  pub group : ℕ
  pub slot : ℕ
  pub start : ℕ
  pub chunk_len : ℕ

module _ (a : Arithmetic) (inputs : Inputs a) (til : TilingData) (c : Chunk) where
  open a use {Float, Bfloat, zero_float, times}

  -- The Gram matrix; columns behind the chunk's end are 0, and so are gates.
  abbrev pub gram : (i j : ℕ) → Float
  gram i j =
      if ltb j c.chunk_len
      then inputs.workspace c.round (slot_offset c.group c.slot + (i * 64 + j))
      else zero_float

  abbrev pub gate_of : (head i : ℕ) → Float
  gate_of head i = if ltb i c.chunk_len then inputs.g (head * til.t + (c.start + i)) else zero_float

  abbrev pub beta_of : (head i : ℕ) → Bfloat
  beta_of head i = inputs.beta_rows (head * til.t + (c.start + i))

  unfoldable pub tile_value : (head i j : ℕ) → Float
  tile_value head i j = times (gram i j) (factor a c.chunk_len (gate_of head) (beta_of head) i j)

  module _ (row_start rows : ℕ) where
    -- In the output, the rows of the heads from `first` on have their values, and all else is as
    -- before.
    unfoldable pub Written : (first count : ℕ) (now before : ℕ → Float) → Type 0
    Written first count now before =
        (h row j : ℕ)
        → row < til.t
        → j < 64
        → now (element til.t h row j) ≡ (
            if in_rows first count h && in_rows (c.start + row_start) rows row
            then tile_value h (row - c.start) j
            else before (element til.t h row j))

    pub Written-from :
        (first count : ℕ) (now before earlier : ℕ → Float)
        → ((i : ℕ) → before i ≡ earlier i)
        → Written first count now before
        → Written first count now earlier
    unfolding Written
    Written-from first count now before earlier e written h row j in_t col =
        written h row j in_t col
        ∙ ap
            (λ (x : Float).
              if in_rows first count h && in_rows (c.start + row_start) rows row
              then tile_value h (row - c.start) j
              else x)
            (e (element til.t h row j))

    pub Written-now :
        (first count : ℕ) (later now before : ℕ → Float)
        → ((i : ℕ) → later i ≡ now i)
        → Written first count now before
        → Written first count later before
    unfolding Written
    Written-now first count later now before e written h row j in_t col =
        e (element til.t h row j) ∙ written h row j in_t col

    -- Heads written in two steps, those of the second right behind those of the first.
    pub Written-append :
        (first n next m : ℕ) (now between before : ℕ → Float)
        → (0 < m → next ≡ first + n)
        → Written first n between before
        → Written next m now between
        → Written first (n + m) now before
    unfolding Written
    Written-append first n next m now between before behind p q h row j in_t col =
        elim (dec_lt 0 m) [
          | yes more ↦ let e = behind more in ground (arith, p h row j in_t col, q h row j in_t col)
          | no none_left ↦ ground (arith, p h row j in_t col, q h row j in_t col)
        ]

    pub Written-none : (first : ℕ) (now : ℕ → Float) → Written first 0 now now
    unfolding Written
    Written-none first now h row j in_t col = ground arith

pub Written-no_rows :
    (a : Arithmetic) (inputs : Inputs a) (til : TilingData) (c : Chunk) (row_start first count : ℕ)
    (now : ℕ → a.Float)
    → Written a inputs til c row_start 0 first count now now
unfolding Written
Written-no_rows a inputs til c row_start first count now h row j in_t col = ground arith
