-- ===== src/Prelude/Int.antt =====
-- Signed integers over the native numbers, and int32_t values as bit patterns.
use Prim.Native.Nat.{ℕ, suc, ◌+◌, ◌-◌, ◌%◌, ◌^◌}
use mathlib.Core.Bool.{Bool, not, ◌&&◌, ◌||◌}
use chunk_scaled_dot_kkt_asc.Prelude.Tests.{ltb, leb, ◌==◌}

-- `negsuc n` is -(n + 1).
pub data ℤ : Type 0 where
  pos : ℕ → ℤ
  negsuc : ℕ → ℤ

abbrev pub pos_part : ℤ → ℕ
pos_part (pos n) = n
pos_part (negsuc n) = 0

abbrev pub neg_part : ℤ → ℕ
neg_part (pos n) = 0
neg_part (negsuc n) = suc n

infix 50 ◌==ℤ◌
abbrev pub ◌==ℤ◌ : ℤ → ℤ → Bool
a ==ℤ b = pos_part a + neg_part b == pos_part b + neg_part a

abbrev pub leb_ℤ : ℤ → ℤ → Bool
leb_ℤ a b = leb (pos_part a + neg_part b) (pos_part b + neg_part a)

-- `static_cast<int32_t>`: the low 32 bits.
abbrev pub i32 : ℕ → ℕ
i32 n = n % 2 ^ 32

-- The tests and the difference of int32_t values given by their bit patterns.
abbrev pub is_neg32 : ℕ → Bool
is_neg32 w = leb (2 ^ 31) w

abbrev pub sub32 : ℕ → ℕ → ℕ
sub32 a b = (a + 2 ^ 32 - b) % 2 ^ 32

-- A signed pattern against a number that is not negative: `w <= n`.
abbrev pub leb32 : ℕ → ℕ → Bool
leb32 w n = is_neg32 w || leb w n

-- `w > 0`
abbrev pub is_pos32 : ℕ → Bool
is_pos32 w = not (is_neg32 w) && ltb 0 w
