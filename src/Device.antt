-- ===== src/Device.antt =====
-- op_kernel/chunk_scaled_dot_kkt_tiling_data.h, and the constants and small helpers at the top of
-- op_kernel/chunk_scaled_dot_kkt.h. The fields of the tiling data are not negative on the device
-- (`Host` fills them), so they are plain numbers.
use chunk_scaled_dot_kkt_asc.Prelude.{
  ℕ, ◌+◌, ◌*◌, ◌%◌, ◌^◌, ◌<◌, ◌≡◌, Bool, not, ◌&&◌, ltb, leb, ◌==◌, if◌then◌else◌, arith,
}
use chunk_scaled_dot_kkt_asc.Prelude.Int.{i32, is_neg32}

-- `struct ChunkScaledDotKktTilingData`
pub record TilingData : Type 0 where
  pub total_task_count : ℕ  -- int64_t, numChunks * Hg
  pub t : ℕ  -- int64_t
  pub hg : ℕ  -- int64_t
  pub block_dim : ℕ  -- int32_t, the number of AIC groups
  pub num_repeat : ℕ  -- int32_t, H / Hg

abbrev pub row_elems : ℕ
row_elems = 64

abbrev pub bt : ℕ
bt = 64

abbrev pub kkt_elems : ℕ
kkt_elems = bt * bt

abbrev pub slot_count : ℕ
slot_count = 2

abbrev pub aivs_per_aic : ℕ
aivs_per_aic = 2

abbrev pub fallback_rows_per_aiv : ℕ
fallback_rows_per_aiv = 32

abbrev pub gate_head_batch : ℕ
gate_head_batch = 2

abbrev pub broadcast_scratch_elems : ℕ
broadcast_scratch_elems = gate_head_batch * row_elems * 8

-- The two READY and the two FREE counters, by slot.
unfoldable pub ready_flag_for_slot : ℕ → ℕ
ready_flag_for_slot slot = if slot == 0 then 7 else 8

unfoldable pub free_flag_for_slot : ℕ → ℕ
free_flag_for_slot slot = if slot == 0 then 9 else 10

abbrev pub min_i32 : ℕ → ℕ → ℕ
min_i32 a b = if ltb a b then a else b

-- The slot of a round, `localRound & (SLOT_COUNT - 1)`.
abbrev pub slot_of : ℕ → ℕ
slot_of round = round % slot_count

-- `static_cast<int64_t>(localRound) + SLOT_COUNT < count`. The `int32_t` localRound is the low 32
-- bits of the number of rounds before it; an increment past its range is taken to wrap around.
unfoldable pub slot_reused : (round count : ℕ) → Bool
slot_reused round count =
    if is_neg32 (i32 round)
    then ltb (i32 round + slot_count) (count + 2 ^ 32)
    else ltb (i32 round + slot_count) count

-- `localRound >= SLOT_COUNT` for the same `int32_t`.
unfoldable pub is_late_round : ℕ → Bool
is_late_round round = not (is_neg32 (i32 round)) && leb slot_count (i32 round)

-- Below 2^31 the `int32_t` is the round itself.
pub slot_reused-below :
    (round count : ℕ) → round < 2 ^ 31 → slot_reused round count ≡ ltb (round + slot_count) count
unfolding slot_reused
slot_reused-below round count lt = ground arith

pub is_late_round-below : (round : ℕ) → round < 2 ^ 31 → is_late_round round ≡ leb slot_count round
unfolding is_late_round
is_late_round-below round lt = ground arith

-- The first element of a group's slot in the workspace.
abbrev pub slot_offset : ℕ → ℕ → ℕ
slot_offset group slot = (group * slot_count + slot) * kkt_elems

-- What a launch guarantees of the tiling data: positive sizes, and whole chunks of `hg` tasks.
pub record IsLaunch (til : TilingData) : Type 0 where
  pub hg_pos : 0 < til.hg
  pub block_pos : 0 < til.block_dim
  pub whole : til.total_task_count % til.hg ≡ 0
