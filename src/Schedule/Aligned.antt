-- ===== src/Schedule/Aligned.antt =====
-- The group-aligned schedule: a group stays in one KV head and walks a contiguous chunk range.

use chunk_scaled_dot_kkt_asc.Prelude.{
  ℕ, ◌+◌, ◌-◌, ◌*◌, ◌/◌, ◌%◌, ◌≤◌, ◌<◌, ◌≡◌, true, arith, Bool, ap, sym, ◌∙◌,
}
use chunk_scaled_dot_kkt_asc.Prelude.Division.{digits_unique, digits_lem, div-lt, index-lt}
use chunk_scaled_dot_kkt_asc.Prelude.Ranges.{start_mono, find_range, range_unique}
use chunk_scaled_dot_kkt_asc.Schedule.{
  scheduled_task_count, scheduled_task_id, chunk_start, chunk_count,
}
use chunk_scaled_dot_kkt_asc.Schedule.Spec.{Partitions}

module _ (n c : ℕ) where
  pub chunk_start-suc : (k : ℕ) → chunk_start n c (k + 1) ≡ chunk_start n c k + chunk_count n c k
  chunk_start-suc k = ground arith

  pub chunk_start_grows : (k : ℕ) → chunk_start n c k ≤ chunk_start n c (k + 1)
  chunk_start_grows k = omega (arith, chunk_start-suc k)

  pub chunk_start_zero : chunk_start n c 0 ≡ 0
  chunk_start_zero = ground arith

  pub chunk_start_end : 0 < c → chunk_start n c c ≡ n
  chunk_start_end pos = ground (arith, digits_lem c n pos)

module _ (total hg bd : ℕ) (cl : Bool) where
  pub count_lem :
      (g : ℕ)
      → scheduled_task_count g total hg bd cl true
        ≡ chunk_count (total / hg) (bd / hg) (g % (bd / hg))
  unfolding scheduled_task_count
  count_lem g = ground arith

  pub id_lem :
      0 < bd / hg
      → (g r : ℕ)
      → scheduled_task_id g r total hg bd cl true
        ≡ (chunk_start (total / hg) (bd / hg) (g % (bd / hg)) + r) * hg + g / (bd / hg)
  unfolding scheduled_task_id
  id_lem pos g r =
      let e : g - g / (bd / hg) * (bd / hg) ≡ g % (bd / hg) =
        omega (arith, digits_lem (bd / hg) g pos) in
      ap (λ k. (chunk_start (total / hg) (bd / hg) k + r) * hg + g / (bd / hg)) e

pub cores_pos : (total hg bd : ℕ) → 0 < bd → bd / hg * hg ≡ bd → 0 < bd / hg
cores_pos total hg bd pos e = ground arith

module _ (total hg bd : ℕ) (cl : Bool) (pos : 0 < bd / hg) (hpos : 0 < hg)
    (whole : total / hg * hg ≡ total) (cores : bd / hg * hg ≡ bd) where
  abbrev core_of : ℕ → ℕ
  core_of g = g % (bd / hg)

  abbrev chunk_of : ℕ → ℕ → ℕ
  chunk_of g r = chunk_start (total / hg) (bd / hg) (core_of g) + r

  head-lt : (g : ℕ) → g < bd → g / (bd / hg) < hg
  head-lt g lt = div-lt (bd / hg) hg g pos (omega arith)

  chunk_in_range :
      (g r : ℕ)
      → r < scheduled_task_count g total hg bd cl true
      → chunk_of g r < chunk_start (total / hg) (bd / hg) (core_of g + 1)
  chunk_in_range g r h =
      omega (arith, count_lem total hg bd cl g, chunk_start-suc (total / hg) (bd / hg) (core_of g))

  chunk-lt : (g r : ℕ) → r < scheduled_task_count g total hg bd cl true → chunk_of g r < total / hg
  chunk-lt g r h =
      let (lt, _) = digits_lem (bd / hg) g pos in
      omega (
        arith,
        chunk_in_range g r h,
        start_mono (chunk_start (total / hg) (bd / hg)) (chunk_start_grows (total / hg) (bd / hg))
            (bd / hg - (core_of g + 1)) (core_of g + 1) (bd / hg) (omega arith),
        chunk_start_end (total / hg) (bd / hg) pos,
      )

  aligned_unique :
      (g r g' r' : ℕ)
      → g < bd
      → r < scheduled_task_count g total hg bd cl true
      → g' < bd
      → r' < scheduled_task_count g' total hg bd cl true
      → chunk_of g r * hg + g / (bd / hg) ≡ chunk_of g' r' * hg + g' / (bd / hg)
      → (g ≡ g') × (r ≡ r')
  aligned_unique g r g' r' lt h lt' h' e =
      let (m, q) = digits_unique hg (g / (bd / hg)) (chunk_of g r) (head-lt g lt) in
      let (m', q') = digits_unique hg (g' / (bd / hg)) (chunk_of g' r') (head-lt g' lt') in
      let chunk : chunk_of g r ≡ chunk_of g' r' = sym q ∙ ap (λ x. x / hg) e ∙ q' in
      let head : g / (bd / hg) ≡ g' / (bd / hg) = sym m ∙ ap (λ x. x % hg) e ∙ m' in
      let core : core_of g ≡ core_of g' =
        range_unique (chunk_start (total / hg) (bd / hg)) (chunk_start_grows (total / hg) (bd / hg))
          (core_of g) (core_of g') (chunk_of g r) (omega arith) (chunk_in_range g r h) (omega arith)
          (omega (arith, chunk_in_range g' r' h')) in
      (
        sym (digits_lem (bd / hg) g pos).1
            ∙ ap (λ x. x * (bd / hg) + core_of g) head
            ∙ ap (λ x. g' / (bd / hg) * (bd / hg) + x) core
            ∙ (digits_lem (bd / hg) g' pos).1,
        omega (arith, ap (chunk_start (total / hg) (bd / hg)) core),
      )

  pub aligned-IsPartition : Partitions total hg bd cl true
  aligned-IsPartition = record {
    inside = λ g r lt h. omega (
      arith,
      id_lem total hg bd cl pos g r,
      index-lt hg (total / hg) (g / (bd / hg)) (chunk_of g r) (chunk-lt g r h) (head-lt g lt),
    );
    covered = λ task lt.
        let chunk = task / hg in
        let head = task % hg in
        let clt : chunk < total / hg = div-lt hg (total / hg) task hpos (omega arith) in
        let (hlt, e) = digits_lem hg task hpos in
        let (core, corelt, lo, hi) =
          find_range (chunk_start (total / hg) (bd / hg)) (chunk_start_grows (total / hg) (bd / hg))
            (bd / hg) chunk (omega (arith, chunk_start_zero (total / hg) (bd / hg)))
            (omega (arith, chunk_start_end (total / hg) (bd / hg) pos)) in
        let g = head * (bd / hg) + core in
        let (m, q) = digits_unique (bd / hg) core head corelt in
        let start : chunk_start (total / hg) (bd / hg) (core_of g)
            ≡ chunk_start (total / hg) (bd / hg) core =
          ap (chunk_start (total / hg) (bd / hg)) m in
        (
          g,
          chunk - chunk_start (total / hg) (bd / hg) core,
          omega (arith, index-lt (bd / hg) hg core head hlt corelt),
          omega (
            arith,
            count_lem total hg bd cl g,
            ap (chunk_count (total / hg) (bd / hg)) m,
            chunk_start-suc (total / hg) (bd / hg) core,
          ),
          id_lem total hg bd cl pos g (chunk - chunk_start (total / hg) (bd / hg) core)
              ∙ ap (λ x. x * hg + g / (bd / hg)) (omega arith)
              ∙ ap (λ x. chunk * hg + x) q
              ∙ e,
        );
    unique = λ g r g' r' lt h lt' h' e.
        aligned_unique g r g' r' lt h lt' h'
          (sym (id_lem total hg bd cl pos g r) ∙ e ∙ id_lem total hg bd cl pos g' r');
  }
