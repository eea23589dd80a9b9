-- ===== src/Prelude/Division.antt =====
-- Quotient and remainder by a variable: a number with its digits put together and taken apart.
use native.Mathlib.Nat.{
  mul-add-div_right, mul-add-mod_self_right, mod-eq_of_lt, div-eq_of_lt, mod-lt, mod-add-div',
  div-lt_iff_lt-mul,
}
use Prim.Native.Nat.{ℕ, ◌+◌, ◌*◌, ◌/◌, ◌%◌, ◌<◌}
use mathlib.Core.Path.{◌≡◌, ◌∙◌}
use native.Mathlib.Omega.{arith}

-- A remainder below `b` and a quotient are those of the number that they make.
pub digits_unique : (b r q : ℕ) → r < b → ((q * b + r) % b ≡ r) × ((q * b + r) / b ≡ q)
digits_unique b r q lt = (
  mul-add-mod_self_right q b r ∙ mod-eq_of_lt lt,
  omega (arith, mul-add-div_right {m = b} (omega arith) q r, div-eq_of_lt lt),
)

pub digits_lem : (b x : ℕ) → 0 < b → (x % b < b) × (x / b * b + x % b ≡ x)
digits_lem b x pos = (mod-lt x pos, omega (arith, mod-add-div' x b))

-- A number below a product has a quotient below the other factor.
pub div-lt : (b n x : ℕ) → 0 < b → x < n * b → x / b < n
div-lt b n x pos lt = (div-lt_iff_lt-mul {k = b} {x = x} {y = n} pos).1 lt

-- A row below `n` and a column below `b` give an index below `n * b`.
pub index-lt : (b n r q : ℕ) → q < n → r < b → q * b + r < n * b
index-lt b n r q p h = grind arith
