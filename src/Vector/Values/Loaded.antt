-- ===== src/Vector/Values/Loaded.antt =====
-- What the transfers of the Vector stage leave in its local tensors.
use chunk_scaled_dot_kkt_asc.Prelude.{
  ℕ, ◌+◌, ◌-◌, ◌*◌, ◌/◌, ◌%◌, ◌^◌, ◌≤◌, ◌<◌, ◌≡◌, Bool, true, false, ◌&&◌, ltb, ◌==◌, ==_iff,
  if◌then◌else◌, [], ◌∷◌, ◌++◌, arith, refl, Bool-cases, inl, inr,
}
use chunk_scaled_dot_kkt_asc.Device.{TilingData, row_elems, slot_offset}
use chunk_scaled_dot_kkt_asc.Vector.{Vector, out, kkt, PadCopy}
use chunk_scaled_dot_kkt_asc.Vector.Load.{
  begin_load_kkt_slot, prefetch_gate_and_beta_batch, tail_rows, head_rows, row_gap, aligned,
}
use chunk_scaled_dot_kkt_asc.Vector.Values.{Arithmetic, effect, overwrite}
use chunk_scaled_dot_kkt_asc.Vector.Values.Lane.{
  Inputs, Lane, SameQueues, SameGates, Hardware, documented, pad_rows, pitch,
}
use chunk_scaled_dot_kkt_asc.Vector.Values.Delayed.{lane}

-- A row of a padded copy whose rows lie 64 elements apart.
pad_rows-row {ℓ} :
    (a : Arithmetic) {A : Type ℓ} (bytes : ℕ) (p : PadCopy) (offset : ℕ) (z : A)
    (source old : ℕ → A) (r c : ℕ)
    → pitch a bytes p ≡ 64
    → r < p.block_count
    → c < 64
    → pad_rows a bytes p offset z source old (r * 64 + c) ≡ (
        if ltb c (p.block_len / bytes)
        then source (offset + r * ((p.block_len + p.src_stride) / bytes) + c)
        else if p.is_pad && ltb c (p.block_len / bytes + p.right_padding)
        then z
        else old (r * 64 + c))
pad_rows-row a bytes p offset z source old r c e lt small =
    let d : ((r * 64 + c) / 64 ≡ r) × ((r * 64 + c) % 64 ≡ c) = (omega arith, omega arith) in
    rw (e, d.0, d.1) (ground arith)

head_index :
    (t first_head start h i : ℕ)
    → first_head * t + start + h * t + i ≡ (first_head + h) * t + (start + i)
head_index t first_head start h i = grind arith

-- The rows of the heads of a batch, which lie `t` elements apart in global memory.
module _ {ℓ} (a : Arithmetic) {A : Type ℓ} (z : A) (source old : ℕ → A)
    (t heads first_head start len : ℕ) (is_pad : Bool) (few : len ≤ 64) (in_t : len ≤ t)
    (narrow : t * 4 < 2 ^ 32) (h i : ℕ) (lt : h < heads) (small : i < 64) where
  head_rows-gate :
      pad_rows a 4
        (head_rows t heads len 4 8 is_pad)
        (first_head * t + start)
        z
        source
        old
        (h * 64 + i)
      ≡ (if ltb i len
          then source ((first_head + h) * t + (start + i))
          else if is_pad && ltb i (aligned len 8)
          then z
          else old (h * 64 + i))
  head_rows-gate =
      let stride : (len * 4 + row_gap t len 4) / 4 ≡ t = omega arith in
      let width : len * 4 / 4 ≡ len = omega arith in
      let padded : len + (aligned len 8 - len) ≡ aligned len 8 = omega arith in
      rw
        (
          pad_rows-row a 4 (head_rows t heads len 4 8 is_pad) (first_head * t + start) z source old
              h i (omega arith) lt small,
          stride,
          width,
          padded,
          head_index t first_head start h i,
        )
        refl

  head_rows-beta :
      pad_rows a 2
        (head_rows t heads len 2 16 is_pad)
        (first_head * t + start)
        z
        source
        old
        (h * 64 + i)
      ≡ (if ltb i len
          then source ((first_head + h) * t + (start + i))
          else if is_pad && ltb i (aligned len 16)
          then z
          else old (h * 64 + i))
  head_rows-beta =
      let stride : (len * 2 + row_gap t len 2) / 2 ≡ t = omega arith in
      let width : len * 2 / 2 ≡ len = omega arith in
      let padded : len + (aligned len 16 - len) ≡ aligned len 16 = omega arith in
      rw
        (
          pad_rows-row a 2 (head_rows t heads len 2 16 is_pad) (first_head * t + start) z source old
              h i (omega arith) lt small,
          stride,
          width,
          padded,
          head_index t first_head start h i,
        )
        refl

module _ (a : Arithmetic) (inputs : Inputs a) (hw : Hardware a inputs) (til : TilingData)
    (l0 : Lane a) where
  open a use {Float, Bfloat, zero_float, zero_bfloat}

  abbrev at : Vector → Lane a
  at = lane a inputs hw til l0

  module _ (s : Vector) (group slot chunk_len row_start rows : ℕ) where
    abbrev loaded_kkt : Vector
    loaded_kkt = (begin_load_kkt_slot group slot chunk_len row_start rows s).1

    -- The tile's rows, 0 behind the chunk's end.
    pub begin_load-kkt :
        (r j : ℕ)
        → r < rows
        → j < 64
        → 0 < chunk_len
        → chunk_len ≤ 64
        → (at loaded_kkt).memory.floats kkt (r * 64 + j) ≡ (
            if ltb j chunk_len
            then inputs.workspace
                (at s).ready_seen
                (slot_offset group slot + ((row_start + r) * 64 + j))
            else zero_float)
    unfolding begin_load_kkt_slot documented effect
    begin_load-kkt r j lt small pos few = elim (Bool-cases (chunk_len == row_elems)) [
      | inl full ↦ rw full (ground arith)
      | inr tail ↦ rw tail (
          rw
            (pad_rows-row a 4 (tail_rows chunk_len rows)
              (slot_offset group slot + row_start * row_elems) zero_float
              (inputs.workspace (at s).ready_seen)
              (overwrite a kkt 0 (rows * row_elems) (λ i. zero_float) (at s).memory.floats kkt) r j
              (omega arith) lt small)
            (ground arith))
    ]

    -- Nothing else of interest changes.
    pub begin_load-queues : SameQueues a (at s) (at loaded_kkt)
    unfolding begin_load_kkt_slot documented effect
    begin_load-queues = ground arith

    pub begin_load-fields : loaded_kkt.fields ≡ s.fields
    unfolding begin_load_kkt_slot
    begin_load-fields = ground arith

    pub begin_load-gates : SameGates a (at s) (at loaded_kkt)
    unfolding begin_load_kkt_slot documented effect
    begin_load-gates = ground arith

    pub begin_load-out : (at loaded_kkt).memory.floats out ≡ (at s).memory.floats out
    unfolding begin_load_kkt_slot documented effect
    begin_load-out = ground arith

  module _ (s : Vector) (first_head start chunk_len heads : ℕ) where
    abbrev prefetched : Vector
    prefetched = (prefetch_gate_and_beta_batch til.t first_head start chunk_len heads s).1

    module _ (pos : 0 < chunk_len) (few : chunk_len ≤ 64) (in_t : chunk_len ≤ til.t)
        (narrow : til.t * 4 < 2 ^ 32) (h i : ℕ) (lt : h < heads) where
      -- The batch's gates: rows of 64 elements, a row for each head; behind the chunk's end there
      -- are zeroes up to a whole block.
      pub prefetch-gates :
          i < aligned chunk_len 8
          → (at prefetched).loading.g_part (h * 64 + i) ≡ (
              if ltb i chunk_len
              then inputs.g ((first_head + h) * til.t + (start + i))
              else zero_float)
      unfolding prefetch_gate_and_beta_batch documented effect
      prefetch-gates small = elim (Bool-cases (chunk_len == row_elems)) [
        | inl full ↦
            let whole : chunk_len ≡ 64 = (==_iff chunk_len 64).0 full in
            elim (Bool-cases (heads == 1)) [
              | inl one ↦ rw (full, one) (ground (arith, head_index til.t first_head start h i))
              | inr more ↦
                  rw
                    (
                      full,
                      more,
                      head_rows-gate a zero_float inputs.g (hw.stale.stale_gates (at s)).g_part
                          til.t heads first_head start 64 false (omega arith) (omega arith) narrow h
                          i lt (omega arith),
                    )
                    (ground arith)
            ]
        | inr tail ↦
            rw
              (
                tail,
                head_rows-gate a zero_float inputs.g (hw.stale.stale_gates (at s)).g_part til.t
                    heads first_head start chunk_len true few in_t narrow h i lt (omega arith),
              )
              (ground arith)
      ]

      -- The batch's betas.
      pub prefetch-betas :
          i < chunk_len
          → (at prefetched).loading.beta_part (h * 64 + i)
            ≡ inputs.beta_rows ((first_head + h) * til.t + (start + i))
      unfolding prefetch_gate_and_beta_batch documented effect
      prefetch-betas small = elim (Bool-cases (chunk_len == row_elems)) [
        | inl full ↦
            let whole : chunk_len ≡ 64 = (==_iff chunk_len 64).0 full in
            elim (Bool-cases (heads == 1)) [
              | inl one ↦ rw (full, one) (ground (arith, head_index til.t first_head start h i))
              | inr more ↦
                  rw
                    (
                      full,
                      more,
                      head_rows-beta a zero_bfloat inputs.beta_rows
                          (hw.stale.stale_gates (at s)).beta_part til.t heads first_head start 64
                          false (omega arith) (omega arith) narrow h i lt (omega arith),
                    )
                    (ground arith)
            ]
        | inr tail ↦
            rw
              (
                tail,
                head_rows-beta a zero_bfloat inputs.beta_rows
                    (hw.stale.stale_gates (at s)).beta_part til.t heads first_head start chunk_len
                    true few in_t narrow h i lt (omega arith),
              )
              (ground arith)
      ]

    -- The new tensors are enqueued, and nothing else changes.
    pub prefetch-rest : at prefetched ≡ record (at s) {
      loading = (at prefetched).loading;
      loaded = (at s).loaded ++ (at prefetched).loading ∷ [];
    }
    unfolding prefetch_gate_and_beta_batch documented effect
    prefetch-rest = ground arith

    pub prefetch-fields : prefetched.fields ≡ s.fields
    unfolding prefetch_gate_and_beta_batch
    prefetch-fields = ground arith
