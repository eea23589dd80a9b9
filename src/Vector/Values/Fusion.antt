-- ===== src/Vector/Values/Fusion.antt =====
-- The fused pairs that the loops of the Vector stage make: what makes each of them possible.
use chunk_scaled_dot_kkt_asc.Prelude.{
  ℕ, zero, suc, ◌+◌, ◌-◌, ◌*◌, ◌/◌, ◌≤◌, ◌<◌, ◌≡◌, Bool, true, false, ◌&&◌, ltb, leb, ◌==◌, ==_iff,
  List, [], ◌∷◌, tabulate, arith, Bool-cases, ap, inl, inr, subst, dec_lt, if◌then◌else◌,
}
use chunk_scaled_dot_kkt_asc.Prelude.Division.{digits_unique, digits_lem, div-lt}
use chunk_scaled_dot_kkt_asc.Device.{TilingData, IsLaunch, slot_count}
use chunk_scaled_dot_kkt_asc.Schedule.{
  use_champion_group_aligned_schedule, scheduled_task_count, scheduled_task_id, range_begin,
  chunk_start, chunk_count,
}
use chunk_scaled_dot_kkt_asc.Schedule.Local
use chunk_scaled_dot_kkt_asc.Schedule.Aligned.{cores_pos}
use chunk_scaled_dot_kkt_asc.Schedule.Partition.{aligned_divides}
use chunk_scaled_dot_kkt_asc.Vector.Load.{can_fuse_adjacent_full_chunks}
use chunk_scaled_dot_kkt_asc.Vector.Walk.{
  Call, single, adjacent, r3_from, local_from, cyclic_from, cyclic_calls, group_aligned_calls,
  group_aligned_r3_calls, chunk_local_calls, process_calls,
}

-- The fused pairs among the calls are pairs of full chunks of one KV head, with three heads each.
abbrev pub Fusable : TilingData → (ℕ → ℕ) → List Call → Type 0
Fusable til offsets [] = Unit
Fusable til offsets (single task round reuse ∷ calls) = Fusable til offsets calls
Fusable til offsets (adjacent chunk kv_head round count ∷ calls) =
    (til.num_repeat ≡ 3)
    × (kv_head < til.hg)
    × (can_fuse_adjacent_full_chunks til.t offsets chunk ≡ true)
    × Fusable til offsets calls

-- A step of the chunk-local loop, which may go on to the next KV head.
step_digits :
    (chunks ordinal kv_head chunk step : ℕ)
    → ordinal ≡ kv_head * chunks + chunk
    → chunk + step ≤ chunks
    → 0 < chunks
    → (ordinal + step
        ≡ (if leb chunks (chunk + step) then kv_head + 1 else kv_head) * chunks
          + (if leb chunks (chunk + step) then chunk + step - chunks else chunk + step))
      × ((if leb chunks (chunk + step) then chunk + step - chunks else chunk + step) < chunks)
step_digits chunks ordinal kv_head chunk step split le pos =
    elim (Bool-cases (leb chunks (chunk + step))) [
      | inl next ↦ rw next (ground arith, ground arith)
      | inr same ↦ rw same (ground arith, ground arith)
    ]

module _ (til : TilingData) (offsets : ℕ → ℕ) where
  singles-Fusable :
      (task : ℕ → ℕ) (reuse : ℕ → Bool) (lo n : ℕ)
      → Fusable til offsets (tabulate (λ r. single (task r) r (reuse r)) lo n)
  singles-Fusable task reuse lo zero = tt
  singles-Fusable task reuse lo (suc n) = singles-Fusable task reuse (lo + 1) n

  aligned-Fusable : (group : ℕ) → Fusable til offsets (group_aligned_calls til group)
  unfolding group_aligned_calls
  aligned-Fusable group =
      let count = scheduled_task_count group til.total_task_count til.hg til.block_dim false true in
      singles-Fusable
        (λ r. scheduled_task_id group r til.total_task_count til.hg til.block_dim false true)
        (λ r. ltb (r + slot_count) count) 0 count

  cyclic_from-Fusable :
      (fuel task round : ℕ) → Fusable til offsets (cyclic_from til fuel task round)
  unfolding cyclic_from
  cyclic_from-Fusable zero task round = tt
  cyclic_from-Fusable (suc fuel) task round = elim (Bool-cases (ltb task til.total_task_count)) [
    | inl more ↦ rw more (cyclic_from-Fusable fuel (task + til.block_dim) (round + 1))
    | inr done ↦ rw done tt
  ]

  r3_from-Fusable :
      (fuel chunk_end kv_head count chunk round : ℕ)
      → til.num_repeat ≡ 3
      → kv_head < til.hg
      → Fusable til offsets (r3_from til offsets fuel chunk_end kv_head count chunk round)
  unfolding r3_from
  r3_from-Fusable zero chunk_end kv_head count chunk round three below = tt
  r3_from-Fusable (suc fuel) chunk_end kv_head count chunk round three below =
      elim (Bool-cases (ltb chunk chunk_end)) [
        | inr done ↦ rw done tt
        | inl more ↦
            elim (Bool-cases
              (ltb (chunk + 1) chunk_end && can_fuse_adjacent_full_chunks til.t offsets chunk)) [
                | inl fuse ↦
                    rw (more, fuse)
                      (
                        three,
                        below,
                        ground arith,
                        r3_from-Fusable fuel chunk_end kv_head count (chunk + 2) (round + 2) three
                            below,
                      )
                | inr plain ↦
                    rw (more, plain)
                      (r3_from-Fusable fuel chunk_end kv_head count (chunk + 1) (round + 1) three
                        below)
              ]
      ]

  -- The chunk-local loop has `ordinal` split into head and chunk.
  module _ (end count : ℕ) (three : til.num_repeat ≡ 3) where
    abbrev chunks : ℕ
    chunks = til.total_task_count / til.hg

    local_done-Fusable :
        (fuel ordinal kv_head chunk round : ℕ)
        → end ≤ ordinal
        → Fusable til offsets (local_from til offsets fuel end count ordinal kv_head chunk round)
    unfolding local_from
    local_done-Fusable zero ordinal kv_head chunk round done = tt
    local_done-Fusable (suc fuel) ordinal kv_head chunk round done =
        let past : ltb ordinal end ≡ false = ground arith in rw past tt

    local_from-Fusable :
        (fuel ordinal kv_head chunk round : ℕ)
        → end ≤ til.hg * chunks
        → ordinal ≡ kv_head * chunks + chunk
        → chunk < chunks
        → Fusable til offsets (local_from til offsets fuel end count ordinal kv_head chunk round)
    unfolding local_from
    local_from-Fusable zero ordinal kv_head chunk round within split small = tt
    local_from-Fusable (suc fuel) ordinal kv_head chunk round within split small =
        elim (Bool-cases (ltb ordinal end)) [
          | inr done ↦ rw done tt
          | inl more ↦
              elim (Bool-cases (
                ltb (ordinal + 1) end
                && ltb (chunk + 1) chunks
                && can_fuse_adjacent_full_chunks til.t offsets chunk)) [
                  | inl fuse ↦
                      let digits =
                        step_digits chunks ordinal kv_head chunk 2 split (ground arith)
                          (omega arith) in
                      let quotient = digits_unique chunks chunk kv_head small in
                      let below : kv_head * chunks + chunk < til.hg * chunks = ground arith in
                      rw (more, fuse)
                        (
                          three,
                          subst (λ q. q < til.hg) quotient.1
                              (div-lt chunks til.hg (kv_head * chunks + chunk) (omega arith) below),
                          ground arith,
                          local_from-Fusable fuel (ordinal + 2)
                              (if leb chunks (chunk + 2) then kv_head + 1 else kv_head)
                              (if leb chunks (chunk + 2) then chunk + 2 - chunks else chunk + 2)
                              (round + 2) within digits.0 digits.1,
                        )
                  | inr plain ↦
                      let digits =
                        step_digits chunks ordinal kv_head chunk 1 split (omega arith)
                          (omega arith) in
                      rw (more, plain)
                        (local_from-Fusable fuel (ordinal + 1)
                          (if leb chunks (chunk + 1) then kv_head + 1 else kv_head)
                          (if leb chunks (chunk + 1) then chunk + 1 - chunks else chunk + 1)
                          (round + 1) within digits.0 digits.1)
                ]
        ]

  r3-Fusable :
      (group : ℕ)
      → IsLaunch til
      → use_champion_group_aligned_schedule til ≡ true
      → til.num_repeat ≡ 3
      → group < til.block_dim
      → Fusable til offsets (group_aligned_r3_calls til offsets group)
  unfolding group_aligned_r3_calls
  r3-Fusable group ok champion three lt =
      let n = til.total_task_count / til.hg in
      let cores = til.block_dim / til.hg in
      let whole : til.hg * cores ≡ til.block_dim =
        omega (arith, digits_lem til.hg til.block_dim ok.hg_pos, aligned_divides til champion) in
      let some_cores : 0 < cores =
        cores_pos til.total_task_count til.hg til.block_dim ok.block_pos (omega arith) in
      let kv_head = group / cores in
      let core = group - kv_head * cores in
      let count = chunk_count n cores core in
      r3_from-Fusable (count + 1) (chunk_start n cores core + count) kv_head count
        (chunk_start n cores core) 0 three (div-lt cores til.hg group some_cores (omega arith))

  local-Fusable :
      (group : ℕ)
      → IsLaunch til
      → til.num_repeat ≡ 3
      → group < til.block_dim
      → Fusable til offsets (chunk_local_calls til offsets group)
  unfolding chunk_local_calls
  local-Fusable group ok three lt =
      let total = til.total_task_count in
      let n = total / til.hg in
      let b = range_begin total til.block_dim group in
      let e = range_begin total til.block_dim (group + 1) in
      let whole : til.hg * n ≡ total = omega (arith, digits_lem til.hg total ok.hg_pos, ok.whole) in
      let within : e ≤ total =
        Local.begin_mono total til.hg til.block_dim ok.block_pos ok.hg_pos (omega arith) group lt in
      elim (dec_lt 0 n) [
        | yes pos ↦
            let (small, split) = digits_lem n b pos in
            local_from-Fusable e (e - b) three (e - b + 1) b (b / n) (b - b / n * n) 0 (omega arith)
              (omega arith) (omega arith)
        | no empty ↦
            local_done-Fusable e (e - b) three (e - b + 1) b (b / n) (b - b / n * n) 0
              (let none_left : n ≡ 0 = omega arith in omega (arith, ap (λ x. til.hg * x) none_left))
      ]

  pub process_calls-Fusable :
      (group : ℕ)
      → IsLaunch til
      → group < til.block_dim
      → Fusable til offsets (process_calls til offsets group)
  unfolding process_calls cyclic_calls
  process_calls-Fusable group ok lt = elim (Bool-cases (use_champion_group_aligned_schedule til)) [
    | inl champion ↦ elim (Bool-cases (til.num_repeat == 3)) [
      | inl three ↦
          rw (champion, three) (r3-Fusable group ok champion ((==_iff til.num_repeat 3).0 three) lt)
      | inr other ↦ rw (champion, other) (aligned-Fusable group)
    ]
    | inr legacy ↦ elim (Bool-cases (til.num_repeat == 3)) [
      | inl three ↦
          rw (legacy, three) (local-Fusable group ok ((==_iff til.num_repeat 3).0 three) lt)
      | inr other ↦ rw (legacy, other) (cyclic_from-Fusable (til.total_task_count + 1) group 0)
    ]
  ]
