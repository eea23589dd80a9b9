-- ===== src/Cube/Bounds.antt =====
-- The AIC's accesses to the key tensor and to the workspace.
use native.Mathlib.Nat.{mod-eq_of_lt, mod-lt}
use chunk_scaled_dot_kkt_asc.Prelude.{
  ℕ, ◌+◌, ◌*◌, ◌/◌, ◌%◌, ◌^◌, ◌≤◌, ◌<◌, ◌≡◌, refl, Bool, true, ltb, [], ◌++◌, arith,
}
use chunk_scaled_dot_kkt_asc.Prelude.Int.{sub32}
use chunk_scaled_dot_kkt_asc.Device.{
  TilingData, IsLaunch, slot_count, slot_offset, kkt_elems, is_late_round, slot_of,
  ready_flag_for_slot, free_flag_for_slot,
}
use chunk_scaled_dot_kkt_asc.Schedule.{task_count, task_id}
use chunk_scaled_dot_kkt_asc.Schedule.Partition.{task_id-IsPartition}
use chunk_scaled_dot_kkt_asc.Prelude.Division.{div-lt, digits_lem}
use chunk_scaled_dot_kkt_asc.Vector.Load.{is_valid_chunk}
use chunk_scaled_dot_kkt_asc.Cube.{
  fixpipe, copy_k, for_rounds, wait_flag, set_flag, cross_wait, cross_set, clear_shared_l1,
  mte1_mte2, mte2_mte1, fix_m,
}
use chunk_scaled_dot_kkt_asc.Cube.K256
use chunk_scaled_dot_kkt_asc.Cube.K128
use chunk_scaled_dot_kkt_asc.Cube.Access.{
  AreInside, AreInside-append, AreInside-rounds, rows_inside, slot_inside, valid_inside,
  local-AreInside, task_list, task-AreInside, copy-AreInside,
}

module _ (t hg kv start group round block_dim : ℕ) (kv_lt : kv < hg) (group_lt : group < block_dim)
    (chunk_len : ℕ) where
  row_count : chunk_len ≤ 64 → chunk_len % 2 ^ 16 ≡ chunk_len
  row_count short = mod-eq_of_lt (omega arith)

  pitch : (p : ℕ) → p < 2 ^ 16 → p % 2 ^ 16 ≡ p
  pitch p small = mod-eq_of_lt small

  copy_256-AreInside :
      (w : ℕ)
      → hg * 256 < 2 ^ 16
      → start + chunk_len ≤ t
      → 0 < chunk_len
      → chunk_len ≤ 64
      → AreInside
          (t * hg * 256)
          w
          (K256.copy_packed_k_to_shared_l1 hg ((start * hg + kv) * 256) chunk_len)
  unfolding K256.copy_packed_k_to_shared_l1
  copy_256-AreInside w small le pos short =
      copy-AreInside (t * hg * 256) w (ltb chunk_len K256.m) (wait_flag mte1_mte2)
        (clear_shared_l1 (K256.shared_l1_bytes / 32))
        (copy_k ((start * hg + kv) * 256) (K256.copy_params hg chunk_len)) (set_flag mte2_mte1) refl
        refl
        (rw (row_count short, pitch (hg * 256) small)
          (omega (arith, rows_inside start chunk_len t hg kv le pos kv_lt)))
        refl

  chunk_256-AreInside :
      (valid : Bool)
      → hg * 256 < 2 ^ 16
      → (valid ≡ true → (start + chunk_len ≤ t) × (0 < chunk_len) × (chunk_len ≤ 64))
      → AreInside
          (t * hg * 256)
          (block_dim * slot_count * kkt_elems)
          (K256.process_chunk hg kv start chunk_len group round valid)
  unfolding K256.process_chunk K256.compute_gram K256.compute_part K256.load_k_part_to_l0a
      K256.load_k_part_to_l0b K256.commit_workspace
  chunk_256-AreInside valid small h =
      task-AreInside (t * hg * 256) (block_dim * slot_count * kkt_elems) (is_late_round round) valid
        []
        (K256.copy_packed_k_to_shared_l1 hg ((start * hg + kv) * 256) chunk_len
          ++ K256.compute_gram)
        (cross_wait (free_flag_for_slot (slot_of round)))
        (fixpipe (slot_offset group (slot_of round)))
        (cross_set (ready_flag_for_slot (slot_of round))) (set_flag fix_m) tt
        (λ v.
          AreInside-append (t * hg * 256) (block_dim * slot_count * kkt_elems)
            (K256.copy_packed_k_to_shared_l1 hg ((start * hg + kv) * 256) chunk_len)
            K256.compute_gram
            (copy_256-AreInside (block_dim * slot_count * kkt_elems) small (h v).0 (h v).1 (h v).2)
            (local-AreInside (t * hg * 256) (block_dim * slot_count * kkt_elems) K256.compute_gram
              refl))
        refl (slot_inside group (slot_of round) block_dim group_lt (omega arith)) refl refl

  copy_128-AreInside :
      (w : ℕ)
      → hg * 128 < 2 ^ 16
      → start + chunk_len ≤ t
      → 0 < chunk_len
      → chunk_len ≤ 64
      → AreInside
          (t * hg * 128)
          w
          (K128.copy_packed_k_to_shared_l1 hg ((start * hg + kv) * 128) chunk_len)
  unfolding K128.copy_packed_k_to_shared_l1
  copy_128-AreInside w small le pos short =
      copy-AreInside (t * hg * 128) w (ltb chunk_len K128.m) (wait_flag mte1_mte2)
        (clear_shared_l1 (K128.shared_l1_bytes / 32))
        (copy_k ((start * hg + kv) * 128) (K128.copy_params hg chunk_len)) (set_flag mte2_mte1) refl
        refl
        (rw (row_count short, pitch (hg * 128) small)
          (omega (arith, rows_inside start chunk_len t hg kv le pos kv_lt)))
        refl

  chunk_128-AreInside :
      (valid : Bool)
      → hg * 128 < 2 ^ 16
      → (valid ≡ true → (start + chunk_len ≤ t) × (0 < chunk_len) × (chunk_len ≤ 64))
      → AreInside
          (t * hg * 128)
          (block_dim * slot_count * kkt_elems)
          (K128.process_chunk hg kv start chunk_len group round valid)
  unfolding K128.process_chunk K128.init_l0_events K128.drain_l0_events K128.compute_gram
      K128.compute_one_k_part K128.load_k_part_to_l0a K128.load_k_part_to_l0b K128.commit_workspace
  chunk_128-AreInside valid small h =
      AreInside-append (t * hg * 128) (block_dim * slot_count * kkt_elems)
        (task_list (is_late_round round) valid K128.init_l0_events
          (K128.copy_packed_k_to_shared_l1 hg ((start * hg + kv) * 128) chunk_len
            ++ K128.compute_gram)
          (cross_wait (free_flag_for_slot (slot_of round)))
          (fixpipe (slot_offset group (slot_of round)))
          (cross_set (ready_flag_for_slot (slot_of round))) (set_flag fix_m))
        K128.drain_l0_events
        (task-AreInside (t * hg * 128) (block_dim * slot_count * kkt_elems) (is_late_round round)
          valid K128.init_l0_events
          (K128.copy_packed_k_to_shared_l1 hg ((start * hg + kv) * 128) chunk_len
            ++ K128.compute_gram)
          (cross_wait (free_flag_for_slot (slot_of round)))
          (fixpipe (slot_offset group (slot_of round)))
          (cross_set (ready_flag_for_slot (slot_of round))) (set_flag fix_m)
          (local-AreInside (t * hg * 128) (block_dim * slot_count * kkt_elems) K128.init_l0_events
            refl)
          (λ v.
            AreInside-append (t * hg * 128) (block_dim * slot_count * kkt_elems)
              (K128.copy_packed_k_to_shared_l1 hg ((start * hg + kv) * 128) chunk_len)
              K128.compute_gram
              (copy_128-AreInside (block_dim * slot_count * kkt_elems) small (h v).0 (h v).1
                (h v).2)
              (local-AreInside (t * hg * 128) (block_dim * slot_count * kkt_elems) K128.compute_gram
                refl))
          refl (slot_inside group (slot_of round) block_dim group_lt (omega arith)) refl refl)
        (local-AreInside (t * hg * 128) (block_dim * slot_count * kkt_elems) K128.drain_l0_events
          refl)

task_chunk :
    (til : TilingData) (group r : ℕ)
    → IsLaunch til
    → group < til.block_dim
    → r < task_count til group
    → task_id til group r / til.hg + 1 ≤ til.total_task_count / til.hg
task_chunk til group r ok lt r_lt =
    let whole : til.total_task_count / til.hg * til.hg ≡ til.total_task_count =
      omega (arith, digits_lem til.hg til.total_task_count ok.hg_pos, ok.whole) in
    let below : task_id til group r < til.total_task_count / til.hg * til.hg =
      omega (arith, (task_id-IsPartition til ok).inside group r lt r_lt) in
    omega
      (arith, div-lt til.hg (til.total_task_count / til.hg) (task_id til group r) ok.hg_pos below)

-- With Hg * 256 below 2^16 and no negative chunk offset, every access of the K = 256 class of a
-- group of a launch lies inside its tensor: the rows of each copy in the keys [T, Hg, 256], each
-- committed tile in the workspace of the two slots of every group.
pub process_256-AreInside :
    (til : TilingData) (offsets : ℕ → ℕ) (group : ℕ)
    → IsLaunch til
    → group < til.block_dim
    → til.hg * 256 < 2 ^ 16
    → ((i : ℕ) → i ≤ til.total_task_count / til.hg → offsets i < 2 ^ 31)
    → AreInside
        (til.t * til.hg * 256)
        (til.block_dim * slot_count * kkt_elems)
        (K256.process til offsets group)
unfolding K256.process K256.process_round K256.init_persistent_events K256.drain_persistent_events
process_256-AreInside til offsets group ok lt small signed =
    let k_size = til.t * til.hg * 256 in
    let w_size = til.block_dim * slot_count * kkt_elems in
    let body = K256.process_round til offsets group in
    let count = task_count til group in
    AreInside-append k_size w_size (K256.init_persistent_events ++ for_rounds count 0 body)
      K256.drain_persistent_events
      (AreInside-append k_size w_size K256.init_persistent_events (for_rounds count 0 body)
        (local-AreInside k_size w_size K256.init_persistent_events refl)
        (AreInside-rounds k_size w_size count body
          (λ r r_lt.
            let chunk = task_id til group r / til.hg in
            let start = offsets chunk in
            let end = offsets (chunk + 1) in
            chunk_256-AreInside til.t til.hg (task_id til group r % til.hg) start group r
              til.block_dim (mod-lt (task_id til group r) ok.hg_pos) lt (sub32 end start)
              (is_valid_chunk til.t start end) small
              (valid_inside til.t start end
                (signed (chunk + 1) (task_chunk til group r ok lt r_lt))))
          count 0 (omega arith)))
      (local-AreInside k_size w_size K256.drain_persistent_events refl)

-- With Hg * 128 below 2^16 and no negative chunk offset, every access of the K = 128 class of a
-- group of a launch lies inside its tensor: the rows of each copy in the keys [T, Hg, 128], each
-- committed tile in the workspace of the two slots of every group.
pub process_128-AreInside :
    (til : TilingData) (offsets : ℕ → ℕ) (group : ℕ)
    → IsLaunch til
    → group < til.block_dim
    → til.hg * 128 < 2 ^ 16
    → ((i : ℕ) → i ≤ til.total_task_count / til.hg → offsets i < 2 ^ 31)
    → AreInside
        (til.t * til.hg * 128)
        (til.block_dim * slot_count * kkt_elems)
        (K128.process til offsets group)
unfolding K128.process K128.process_round K128.init_persistent_events K128.drain_persistent_events
process_128-AreInside til offsets group ok lt small signed =
    let k_size = til.t * til.hg * 128 in
    let w_size = til.block_dim * slot_count * kkt_elems in
    let body = K128.process_round til offsets group in
    let count = task_count til group in
    AreInside-append k_size w_size (K128.init_persistent_events ++ for_rounds count 0 body)
      K128.drain_persistent_events
      (AreInside-append k_size w_size K128.init_persistent_events (for_rounds count 0 body)
        (local-AreInside k_size w_size K128.init_persistent_events refl)
        (AreInside-rounds k_size w_size count body
          (λ r r_lt.
            let chunk = task_id til group r / til.hg in
            let start = offsets chunk in
            let end = offsets (chunk + 1) in
            chunk_128-AreInside til.t til.hg (task_id til group r % til.hg) start group r
              til.block_dim (mod-lt (task_id til group r) ok.hg_pos) lt (sub32 end start)
              (is_valid_chunk til.t start end) small
              (valid_inside til.t start end
                (signed (chunk + 1) (task_chunk til group r ok lt r_lt))))
          count 0 (omega arith)))
      (local-AreInside k_size w_size K128.drain_persistent_events refl)
