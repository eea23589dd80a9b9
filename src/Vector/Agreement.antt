-- ===== src/Vector/Agreement.antt =====
-- The Vector lanes of a group consume the tasks that the schedule gives the group, in its order.
use native.Mathlib.Nat.{zero-mul, zero-div}
use chunk_scaled_dot_kkt_asc.Prelude.{
  ℕ, zero, suc, ◌+◌, ◌-◌, ◌*◌, ◌/◌, ◌%◌, ◌^◌, ◌≤◌, ◌<◌, ◌≡◌, refl, ap, ◌∙◌, sym, subst, Bool, true,
  false, ltb, List, [], ◌∷◌, tabulate, arith, Bool-cases, inl, inr, ◌==◌, dec_lt, if◌then◌else◌,
}
use chunk_scaled_dot_kkt_asc.Prelude.Division.{digits_lem}
use chunk_scaled_dot_kkt_asc.Device.{
  TilingData, IsLaunch, slot_count, slot_reused, slot_reused-below,
}
use chunk_scaled_dot_kkt_asc.Schedule.{
  task_count, task_id, scheduled_task_count, scheduled_task_id, use_champion_group_aligned_schedule,
  chunk_local, range_begin, chunk_start, chunk_count,
}
use chunk_scaled_dot_kkt_asc.Schedule.Cyclic
use chunk_scaled_dot_kkt_asc.Schedule.Local
use chunk_scaled_dot_kkt_asc.Schedule.Aligned.{cores_pos}
use chunk_scaled_dot_kkt_asc.Schedule.Partition.{aligned_divides}
use chunk_scaled_dot_kkt_asc.Vector.Walk.{
  local_from, single, cyclic_calls, group_aligned_calls, group_aligned_r3_calls, chunk_local_calls,
  process_calls,
}
use chunk_scaled_dot_kkt_asc.Vector.Turns.{
  Turn, is_reused, turn, turn32, turns, scheduled_turns, r3_turns, cyclic_turns, local_turns,
  count-le-total, r3_turn, cyclic_turn, local_turn,
}

tabulate_ext {ℓ} :
    {A : Type ℓ} (f g : ℕ → A) (lo n : ℕ)
    → ((r : ℕ) → f r ≡ g r)
    → tabulate f lo n ≡ tabulate g lo n
tabulate_ext f g lo zero h = refl
tabulate_ext f g lo (suc n) h = λ i. h lo i ∷ tabulate_ext f g (lo + 1) n h i

turns-tabulate :
    (hg : ℕ) (task : ℕ → ℕ) (reuse : ℕ → Bool) (lo n : ℕ)
    → turns hg (tabulate (λ r. single (task r) r (reuse r)) lo n)
      ≡ tabulate (λ r. record { round = r; task = task r; reuse = reuse r }) lo n
turns-tabulate hg task reuse lo zero = refl
turns-tabulate hg task reuse lo (suc n) = λ i.
    record { round = lo; task = task lo; reuse = reuse lo }
    ∷ turns-tabulate hg task reuse (lo + 1) n i

range_empty : (total bd k : ℕ) → total ≡ 0 → range_begin total bd k ≡ 0
range_empty total bd k e = rw (e, zero-mul, zero-div)

module _ (til : TilingData) (group : ℕ) where
  abbrev count_by : Bool → Bool → ℕ
  count_by cl ga = scheduled_task_count group til.total_task_count til.hg til.block_dim cl ga

  -- The turns of the schedule under given flags and a given test of reuse.
  abbrev turns_by : (reuse : ℕ → ℕ → Bool) → Bool → Bool → List Turn
  turns_by reuse cl ga =
      tabulate
        (λ r. record {
          round = r;
          task = scheduled_task_id group r til.total_task_count til.hg til.block_dim cl ga;
          reuse = reuse r (count_by cl ga);
        })
        0 (count_by cl ga)

  aligned_agrees : turns til.hg (group_aligned_calls til group) ≡ turns_by is_reused false true
  unfolding group_aligned_calls
  aligned_agrees =
      turns-tabulate til.hg
        (λ r. scheduled_task_id group r til.total_task_count til.hg til.block_dim false true)
        (λ r. ltb (r + slot_count) (count_by false true)) 0 (count_by false true)

  minus_zero {ℓ} : {A : Type ℓ} (f : ℕ → A) (n : ℕ) → tabulate f 0 (n - 0) ≡ tabulate f 0 n
  minus_zero f n = ap (tabulate f 0) (omega arith)

  cyclic_agrees :
      IsLaunch til → turns til.hg (cyclic_calls til group) ≡ turns_by is_reused false false
  unfolding cyclic_calls
  cyclic_agrees ok =
      let counts = Cyclic.count_iff til.total_task_count til.hg til.block_dim ok.block_pos group in
      let count = count_by false false in
      cyclic_turns til ok group count counts (til.total_task_count + 1) group 0
        (omega (arith, count-le-total til ok group count counts)) (omega arith)
      ∙ minus_zero (cyclic_turn til ok group count counts) count
      ∙ tabulate_ext _ _ 0 count (λ r.
        ap (λ x. turn r x count)
          (sym (Cyclic.id_lem til.total_task_count til.hg til.block_dim group r)))

  r3_agrees :
      (offsets : ℕ → ℕ)
      → 0 < til.block_dim / til.hg
      → turns til.hg (group_aligned_r3_calls til offsets group) ≡ turns_by slot_reused false true
  unfolding group_aligned_r3_calls scheduled_task_id scheduled_task_count
  r3_agrees offsets pos =
      let n = til.total_task_count / til.hg in
      let c = til.block_dim / til.hg in
      let kv_head = group / c in
      let core = group - kv_head * c in
      let same : core ≡ group % c = omega (arith, digits_lem c group pos) in
      let start = chunk_start n c core in
      r3_turns til offsets start (chunk_count n c core) kv_head (chunk_count n c core + 1) start 0
        (omega arith) (omega arith)
      ∙ minus_zero (r3_turn til offsets start (chunk_count n c core) kv_head) (chunk_count n c core)
      ∙ ap
          (λ k.
            tabulate (λ r. turn32 r ((start + r) * til.hg + kv_head) (chunk_count n c k)) 0
              (chunk_count n c k))
          same

  local_done :
      (offsets : ℕ → ℕ) (fuel end count ordinal kv_head chunk round : ℕ)
      → end ≤ ordinal
      → turns til.hg (local_from til offsets fuel end count ordinal kv_head chunk round) ≡ []
  unfolding local_from
  local_done offsets zero end count ordinal kv_head chunk round le = refl
  local_done offsets (suc fuel) end count ordinal kv_head chunk round le = ground arith

  local_agrees :
      (offsets : ℕ → ℕ)
      → IsLaunch til
      → group < til.block_dim
      → turns til.hg (chunk_local_calls til offsets group) ≡ turns_by slot_reused true false
  unfolding chunk_local_calls scheduled_task_count scheduled_task_id
  local_agrees offsets ok lt =
      let n = til.total_task_count / til.hg in
      let b = range_begin til.total_task_count til.block_dim group in
      let e = range_begin til.total_task_count til.block_dim (group + 1) in
      let end : b + (e - b) ≡ e =
        omega (arith, Local.begin_grows til.total_task_count til.block_dim ok.block_pos group) in
      elim (dec_lt 0 n) [
        | yes pos ↦
            let (small, split) = digits_lem n b pos in
            subst
              (λ x.
                turns til.hg
                  (local_from til offsets (e - b + 1) x (e - b) b (b / n) (b - b / n * n) 0)
                ≡ tabulate (local_turn til offsets b (e - b)) 0 (e - b - 0))
              end
              (local_turns til offsets b (e - b) (e - b + 1) b (b / n) (b - b / n * n) 0
                (omega arith) (omega arith) (omega arith) (omega arith))
            ∙ minus_zero (local_turn til offsets b (e - b)) (e - b)
        | no empty ↦
            let none_left : n ≡ 0 = omega arith in
            let nothing : til.total_task_count ≡ 0 = omega (
              arith,
              digits_lem til.hg til.total_task_count ok.hg_pos,
              ok.whole,
              ap (λ x. x * til.hg) none_left,
            ) in
            let b0 : b ≡ 0 = range_empty til.total_task_count til.block_dim group nothing in
            let e0 : e ≡ 0 = range_empty til.total_task_count til.block_dim (group + 1) nothing in
            local_done offsets (e - b + 1) e (e - b) b (b / n) (b - b / n * n) 0 (omega arith)
            ∙ sym (
                ap (tabulate (local_turn til offsets b (e - b)) 0)
                  (let z : e - b ≡ 0 = omega arith in z))
      ]

aligned_cores :
    (til : TilingData)
    → IsLaunch til
    → use_champion_group_aligned_schedule til ≡ true
    → 0 < til.block_dim / til.hg
aligned_cores til ok h =
    cores_pos til.total_task_count til.hg til.block_dim ok.block_pos
      (omega (arith, digits_lem til.hg til.block_dim ok.hg_pos, aligned_divides til h))

-- The test of reuse of the loop in use: those with a round of their own count it in an `int32_t`.
abbrev reuse_of : TilingData → ℕ → ℕ → Bool
reuse_of til = if til.num_repeat == 3 then slot_reused else is_reused

abbrev pub planned_turns : TilingData → ℕ → List Turn
planned_turns til group =
    tabulate
      (λ r. record {
        round = r;
        task = task_id til group r;
        reuse = reuse_of til r (task_count til group);
      })
      0 (task_count til group)

pub turns-planned :
    (til : TilingData) (offsets : ℕ → ℕ) (group : ℕ)
    → IsLaunch til
    → group < til.block_dim
    → turns til.hg (process_calls til offsets group) ≡ planned_turns til group
unfolding process_calls task_id task_count chunk_local
turns-planned til offsets group ok lt =
    elim (Bool-cases (use_champion_group_aligned_schedule til)) [
      | inl champion ↦ elim (Bool-cases (til.num_repeat == 3)) [
        | inl three ↦
            rw (champion, three) (r3_agrees til group offsets (aligned_cores til ok champion))
        | inr other ↦ rw (champion, other) (aligned_agrees til group)
      ]
      | inr legacy ↦ elim (Bool-cases (til.num_repeat == 3)) [
        | inl three ↦ rw (legacy, three) (local_agrees til group offsets ok lt)
        | inr other ↦ rw (legacy, other) (cyclic_agrees til group ok)
      ]
    ]

tabulate_below {ℓ} :
    {A : Type ℓ} (f g : ℕ → A) (lo n : ℕ)
    → ((r : ℕ) → r < lo + n → f r ≡ g r)
    → tabulate f lo n ≡ tabulate g lo n
tabulate_below f g lo zero h = refl
tabulate_below f g lo (suc n) h =
    λ i. h lo (omega arith) i ∷ tabulate_below f g (lo + 1) n (λ r lt. h r (omega (arith, lt))) i

reuse_of-exact :
    (til : TilingData) (r count : ℕ) → r < 2 ^ 31 → reuse_of til r count ≡ is_reused r count
reuse_of-exact til r count lt = elim (Bool-cases (til.num_repeat == 3)) [
  | inl three ↦ rw three (slot_reused-below r count lt)
  | inr other ↦ rw other refl
]

-- On every schedule the Vector lanes of a group of at most 2^31 tasks consume, round by round,
-- exactly the tasks that the schedule gives the group, a fused pair counting as the rounds of its
-- two chunks, and they free the slot of a round exactly if the group has a task two rounds later;
-- whatever the chunk offsets hold. The tiling data are those of a launch, and the group exists.
pub turns-process_calls :
    (til : TilingData) (offsets : ℕ → ℕ) (group : ℕ)
    → IsLaunch til
    → group < til.block_dim
    → task_count til group ≤ 2 ^ 31
    → turns til.hg (process_calls til offsets group) ≡ scheduled_turns til group
turns-process_calls til offsets group ok lt few =
    turns-planned til offsets group ok lt
    ∙ tabulate_below _ _ 0 (task_count til group) (λ r below i. record {
      round = r;
      task = task_id til group r;
      reuse = reuse_of-exact til r (task_count til group) (omega arith) i;
    })
