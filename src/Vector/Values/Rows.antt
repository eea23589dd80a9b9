-- ===== src/Vector/Values/Rows.antt =====
-- The output tensor by heads, rows and columns.
use native.Mathlib.Nat.{mul-le-mul_right}
use chunk_scaled_dot_kkt_asc.Prelude.{
  ℕ, ◌+◌, ◌-◌, ◌*◌, ◌≤◌, ◌<◌, ◌≡◌, Bool, ◌&&◌, ltb, leb, ◌==◌, if◌then◌else◌, Option, none, some,
  arith, dec_lt, ◌∙◌, ap,
}
use chunk_scaled_dot_kkt_asc.Device.{TilingData}
use chunk_scaled_dot_kkt_asc.Vector.{Vector}
use chunk_scaled_dot_kkt_asc.Vector.Output.{
  launch_ready_output, launch_output, copy_ready_output, queue_delayed_single_output,
}
use chunk_scaled_dot_kkt_asc.Vector.Copies.{tile_lands, lands, launched}

-- The output element of a head's row and column.
abbrev pub element : (t head row j : ℕ) → ℕ
element t head row j = (head * t + row) * 64 + j

abbrev pub in_rows : (first rows row : ℕ) → Bool
in_rows first rows row = leb first row && ltb row (first + rows)

times_next : (t h k : ℕ) → h < k → h * t + t ≤ k * t
times_next t h k lt = omega (arith, mul-le-mul_right {m = h + 1} {n = k} t (omega arith))

-- A tile of a head's rows covers just the elements of those rows.
pub tile_lands-element :
    (til : TilingData) (head0 row0 rows from head row j : ℕ) (rest : Option ℕ)
    → row0 + rows ≤ til.t
    → row < til.t
    → j < 64
    → tile_lands til head0 row0 rows from (element til.t head row j) rest ≡ (
        if head == head0 && in_rows row0 rows row
        then some (from + ((row - row0) * 64 + j))
        else rest)
tile_lands-element til head0 row0 rows from head row j rest inside in_t small =
    elim (dec_lt head head0) [
      | yes below ↦ ground (arith, times_next til.t head head0 below)
      | no above ↦ elim (dec_lt head0 head) [
        | yes over ↦ ground (arith, times_next til.t head0 head over)
        | no under ↦ let e : head ≡ head0 = omega arith in rw e (ground arith)
      ]
    ]

-- A launched single batch of rows inside the sequence, as the output tensor's heads, rows and
-- columns see it: column `j` of a row of the batch gets column `j` of the same row of the local
-- tile, and no element of another row or another head is written.
pub single-lands :
    (til : TilingData) (s : Vector) (slot head start row_start row_count h row j : ℕ)
    → start + row_start + row_count ≤ til.t
    → row < til.t
    → j < 64
    → lands
        (launched til (queue_delayed_single_output til slot head start row_start row_count s).1)
        (element til.t h row j)
      ≡ (if h == head && in_rows (start + row_start) row_count row
          then some ((row - (start + row_start)) * 64 + j)
          else none)
unfolding queue_delayed_single_output launch_ready_output launch_output copy_ready_output
single-lands til s slot head start row_start row_count h row j inside in_t col =
    tile_lands-element til head (start + row_start) row_count 0 h row j none inside in_t col
    ∙ ap (λ x. if h == head && in_rows (start + row_start) row_count row then some x else none)
        (omega arith)
