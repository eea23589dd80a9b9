-- ===== src/Prelude/Ranges.antt =====
-- Consecutive ranges `start k ≤ x < start (k + 1)` cover an interval, each number once.
use Prim.Native.Nat.{ℕ, zero, suc, ◌+◌, ◌-◌, ◌≤◌, ◌<◌}
use mathlib.Core.Path.{◌≡◌, subst}
use native.Mathlib.Decide.{dec_lt}
use native.Mathlib.Omega.{arith}

module _ (start : ℕ → ℕ) (grows : (k : ℕ) → start k ≤ start (k + 1)) where
  pub start_mono : (d k m : ℕ) → k + d ≡ m → start k ≤ start m
  start_mono zero k m e =
      let e' : k ≡ m = omega arith in subst (λ n. start k ≤ start n) e' (omega arith)
  start_mono (suc d) k m e = omega (arith, grows k, start_mono d (k + 1) m (omega arith))

  pub find_range :
      (n x : ℕ)
      → start 0 ≤ x
      → x < start n
      → (k : ℕ) × (k < n) × (start k ≤ x) × (x < start (k + 1))
  find_range zero x lo hi = absurd (omega arith)
  find_range (suc n) x lo hi = elim (dec_lt x (start n)) [
    | yes below ↦ let (k, lt, a, b) = find_range n x lo below in (k, omega arith, a, b)
    | no above ↦
        let e : suc n ≡ n + 1 = omega arith in
        (n, omega arith, omega arith, subst (λ m. x < start m) e hi)
  ]

  range_order : (k m x : ℕ) → start m ≤ x → x < start (k + 1) → m ≤ k
  range_order k m x lo hi = elim (dec_lt k m) [
    | yes lt ↦ absurd (omega (arith, start_mono (m - (k + 1)) (k + 1) m (omega arith)))
    | no ge ↦ omega arith
  ]

  pub range_unique :
      (k m x : ℕ) → start k ≤ x → x < start (k + 1) → start m ≤ x → x < start (m + 1) → k ≡ m
  range_unique k m x a b c d = omega (arith, range_order k m x c b, range_order m k x a d)
