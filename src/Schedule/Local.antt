-- ===== src/Schedule/Local.antt =====
-- The chunk-local schedule: a group owns a contiguous range of the head-major task stream.
use native.Mathlib.Nat.{div-mul-le_self, lt-div-mul-add, mul-div_cancel, zero-div, mul-zero}
use chunk_scaled_dot_kkt_asc.Prelude.{
  ℕ, ◌+◌, ◌-◌, ◌*◌, ◌/◌, ◌%◌, ◌≤◌, ◌<◌, ◌≡◌, true, false, arith, ap, sym, subst, ◌∙◌,
}
use chunk_scaled_dot_kkt_asc.Prelude.Division.{digits_unique, digits_lem, div-lt, index-lt}
use chunk_scaled_dot_kkt_asc.Prelude.Ranges.{start_mono, find_range, range_unique}
use chunk_scaled_dot_kkt_asc.Schedule.{
  scheduled_task_count, scheduled_task_id, range_begin, head_major,
}
use chunk_scaled_dot_kkt_asc.Schedule.Spec.{Partitions}

module _ (total bd : ℕ) (pos : 0 < bd) where
  pub begin_grows : (k : ℕ) → range_begin total bd k ≤ range_begin total bd (k + 1)
  begin_grows k = grind (arith, div-mul-le_self, lt-div-mul-add)

  pub begin_zero : range_begin total bd 0 ≡ 0
  begin_zero = omega (arith, zero-div bd, mul-zero total)

  pub begin_end : range_begin total bd bd ≡ total
  begin_end = mul-div_cancel total pos

-- The ordinal of a task in the head-major stream.
abbrev pub ordinal_of : ℕ → ℕ → ℕ → ℕ
ordinal_of n hg task = task % hg * n + task / hg

module _ (n hg : ℕ) (pos : 0 < n) where
  ordinal-chunk_head :
      (chunk head : ℕ) → head < hg → ordinal_of n hg (chunk * hg + head) ≡ head * n + chunk
  ordinal-chunk_head chunk head lt =
      rw (digits_unique hg head chunk lt).0 (rw (digits_unique hg head chunk lt).1)

  pub head_major-digits :
      (chunk head : ℕ) → chunk < n → head_major n hg (head * n + chunk) ≡ chunk * hg + head
  head_major-digits chunk head lt =
      rw (digits_unique n chunk head lt).1 (ap (λ k. k * hg + head) (omega arith))

  pub head_major_lem : (o : ℕ) → head_major n hg o ≡ o % n * hg + o / n
  head_major_lem o =
      let (lt, e) = digits_lem n o pos in
      subst (λ x. head_major n hg x ≡ o % n * hg + o / n) e (head_major-digits (o % n) (o / n) lt)

  pub head_major-lt : (o : ℕ) → o < n * hg → head_major n hg o < n * hg
  head_major-lt o lt =
      rw (head_major_lem o)
        (index-lt hg n (o / n) (o % n) (digits_lem n o pos).0 (div-lt n hg o pos (omega arith)))

  pub ordinal-head_major : (o : ℕ) → o < n * hg → ordinal_of n hg (head_major n hg o) ≡ o
  ordinal-head_major o lt = rw (head_major_lem o) (
      ordinal-chunk_head (o % n) (o / n) (div-lt n hg o pos (omega arith)) ∙ (digits_lem n o pos).1)

  pub head_major-ordinal :
      0 < hg → (task : ℕ) → task < n * hg → head_major n hg (ordinal_of n hg task) ≡ task
  head_major-ordinal hpos task lt =
      head_major-digits (task / hg) (task % hg) (div-lt hg n task hpos lt)
      ∙ (digits_lem hg task hpos).1

  pub ordinal-lt : 0 < hg → (task : ℕ) → task < n * hg → ordinal_of n hg task < n * hg
  ordinal-lt hpos task lt = omega (
    arith,
    index-lt n hg (task / hg) (task % hg) (digits_lem hg task hpos).0 (div-lt hg n task hpos lt),
  )

module _ (total hg bd : ℕ) where
  pub count_lem :
      (g : ℕ)
      → scheduled_task_count g total hg bd true false
        ≡ range_begin total bd (g + 1) - range_begin total bd g
  unfolding scheduled_task_count
  count_lem g = ground arith

  pub id_lem :
      (g r : ℕ)
      → scheduled_task_id g r total hg bd true false
        ≡ head_major (total / hg) hg (range_begin total bd g + r)
  unfolding scheduled_task_id
  id_lem g r = ground arith

module _ (total hg bd : ℕ) (pos : 0 < bd) (hpos : 0 < hg) (whole : total / hg * hg ≡ total) where
  pub begin_mono : (g : ℕ) → g < bd → range_begin total bd (g + 1) ≤ total
  begin_mono g lt = omega (
    arith,
    start_mono (range_begin total bd) (begin_grows total bd pos) (bd - (g + 1)) (g + 1) bd
        (omega arith),
    begin_end total bd pos,
  )

  local_inside :
      (g r : ℕ)
      → g < bd
      → r < scheduled_task_count g total hg bd true false
      → range_begin total bd g + r < range_begin total bd (g + 1)
  local_inside g r lt h = omega (arith, count_lem total hg bd g)

  chunks_pos : (x : ℕ) → x < total → 0 < total / hg
  chunks_pos x lt = ground arith

  local_lt :
      (g r : ℕ)
      → g < bd
      → r < scheduled_task_count g total hg bd true false
      → range_begin total bd g + r < total / hg * hg
  local_lt g r lt h = omega (arith, local_inside g r lt h, begin_mono g lt)

  local_ordinal :
      (g r : ℕ)
      → g < bd
      → r < scheduled_task_count g total hg bd true false
      → ordinal_of (total / hg) hg (scheduled_task_id g r total hg bd true false)
        ≡ range_begin total bd g + r
  local_ordinal g r lt h =
      let b = local_lt g r lt h in
      ap (ordinal_of (total / hg) hg) (id_lem total hg bd g r)
      ∙ ordinal-head_major (total / hg) hg (chunks_pos (range_begin total bd g + r) (omega arith))
          (range_begin total bd g + r) b

  pub local-IsPartition : Partitions total hg bd true false
  local-IsPartition = record {
    inside = λ g r lt h.
        let b = local_lt g r lt h in
        omega (
          arith,
          id_lem total hg bd g r,
          head_major-lt (total / hg) hg (chunks_pos (range_begin total bd g + r) (omega arith))
              (range_begin total bd g + r) b,
        );
    covered = λ task lt.
        let npos = chunks_pos task lt in
        let o = ordinal_of (total / hg) hg task in
        let olt : o < total / hg * hg = ordinal-lt (total / hg) hg npos hpos task (omega arith) in
        let (g, glt, lo, hi) =
          find_range (range_begin total bd) (begin_grows total bd pos) bd o
            (omega (arith, begin_zero total bd pos)) (omega (arith, begin_end total bd pos)) in
        (
          g,
          o - range_begin total bd g,
          glt,
          omega (arith, count_lem total hg bd g),
          id_lem total hg bd g (o - range_begin total bd g)
              ∙ ap (head_major (total / hg) hg) (omega arith)
              ∙ head_major-ordinal (total / hg) hg npos hpos task (omega arith),
        );
    unique = λ g r g' r' lt h lt' h' e.
        let o : range_begin total bd g + r ≡ range_begin total bd g' + r' =
          sym (local_ordinal g r lt h)
          ∙ ap (ordinal_of (total / hg) hg) e
          ∙ local_ordinal g' r' lt' h' in
        let same : g ≡ g' =
          range_unique (range_begin total bd) (begin_grows total bd pos) g g'
            (range_begin total bd g + r) (omega arith) (local_inside g r lt h) (omega arith)
            (omega (arith, local_inside g' r' lt' h')) in
        (same, omega (arith, ap (range_begin total bd) same));
  }
