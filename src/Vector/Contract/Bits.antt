-- ===== src/Vector/Contract/Bits.antt =====
-- The two bits of `outputSlotBusyMask_`: clearing and setting one leaves the other alone.
use Prim.Native.Nat.{bit_and, bit_or}
use chunk_scaled_dot_kkt_asc.Prelude.{
  ℕ, zero, suc, ◌-◌, ◌^◌, ◌<◌, ◌≡◌, refl, Bool, true, false, not, ◌==◌, arith,
}
use chunk_scaled_dot_kkt_asc.Vector.Output.{slot_bit}

-- The bit of a slot, tested as the code tests it.
abbrev pub kept : ℕ → ℕ → Bool
kept slot mask = not (bit_and mask (slot_bit slot) == 0)

abbrev pub cleared : ℕ → ℕ → ℕ
cleared slot mask = bit_and mask (2 ^ 32 - 1 - slot_bit slot)

abbrev pub raised : ℕ → ℕ → ℕ
raised slot mask = bit_or mask (slot_bit slot)

pub record Bits (slot other mask : ℕ) : Type 0 where
  pub cleared_small : cleared slot mask < 4
  pub cleared_self : kept slot (cleared slot mask) ≡ false
  pub cleared_other : kept other (cleared slot mask) ≡ kept other mask
  pub raised_small : raised slot mask < 4
  pub raised_self : kept slot (raised slot mask) ≡ true
  pub raised_other : kept other (raised slot mask) ≡ kept other mask

pub Bits-of : (mask : ℕ) → mask < 4 → Bits 0 1 mask × Bits 1 0 mask
Bits-of zero lt = (
  record {
    cleared_small = omega arith;
    cleared_self = refl;
    cleared_other = refl;
    raised_small = omega arith;
    raised_self = refl;
    raised_other = refl;
  },
  record {
    cleared_small = omega arith;
    cleared_self = refl;
    cleared_other = refl;
    raised_small = omega arith;
    raised_self = refl;
    raised_other = refl;
  },
)
Bits-of (suc zero) lt = (
  record {
    cleared_small = omega arith;
    cleared_self = refl;
    cleared_other = refl;
    raised_small = omega arith;
    raised_self = refl;
    raised_other = refl;
  },
  record {
    cleared_small = omega arith;
    cleared_self = refl;
    cleared_other = refl;
    raised_small = omega arith;
    raised_self = refl;
    raised_other = refl;
  },
)
Bits-of (suc (suc zero)) lt = (
  record {
    cleared_small = omega arith;
    cleared_self = refl;
    cleared_other = refl;
    raised_small = omega arith;
    raised_self = refl;
    raised_other = refl;
  },
  record {
    cleared_small = omega arith;
    cleared_self = refl;
    cleared_other = refl;
    raised_small = omega arith;
    raised_self = refl;
    raised_other = refl;
  },
)
Bits-of (suc (suc (suc zero))) lt = (
  record {
    cleared_small = omega arith;
    cleared_self = refl;
    cleared_other = refl;
    raised_small = omega arith;
    raised_self = refl;
    raised_other = refl;
  },
  record {
    cleared_small = omega arith;
    cleared_self = refl;
    cleared_other = refl;
    raised_small = omega arith;
    raised_self = refl;
    raised_other = refl;
  },
)
Bits-of (suc (suc (suc (suc m)))) lt = absurd (omega arith)
