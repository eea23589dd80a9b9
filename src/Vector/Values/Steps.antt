-- ===== src/Vector/Values/Steps.antt =====
-- What one batch of a lane does, the first and the later ones.
use chunk_scaled_dot_kkt_asc.Prelude.{
  ℕ, ◌+◌, ◌*◌, ◌≤◌, ◌<◌, ◌≡◌, ◌∙◌, Bool, [], arith, refl, ap, ◌==◌, Bool-cases, inl, inr, subst,
}
use chunk_scaled_dot_kkt_asc.Device.{TilingData}
use chunk_scaled_dot_kkt_asc.Vector.{Vector}
use chunk_scaled_dot_kkt_asc.Vector.Load.{complete_kkt_load_and_release_slot}
use chunk_scaled_dot_kkt_asc.Vector.Factor.{process_head_pair_tile, process_head_tile}
use chunk_scaled_dot_kkt_asc.Vector.Task.{
  Share, batch_heads_at, prefetch_next, first_batch, later_batch,
}
use chunk_scaled_dot_kkt_asc.Vector.Values.{Arithmetic}
use chunk_scaled_dot_kkt_asc.Vector.Values.Lane.{Inputs, Lane, Hardware}
use chunk_scaled_dot_kkt_asc.Vector.Values.Delayed.{
  lane, Queued, settled, settled-same, SameReady-fields,
}
use chunk_scaled_dot_kkt_asc.Vector.Values.Tile.{Chunk, Written, Written-from}
use chunk_scaled_dot_kkt_asc.Vector.Values.Batch.{Work, prepare, finish, prepare-Prepared}
use chunk_scaled_dot_kkt_asc.Vector.Values.Kept.{
  Kept, Kept-after, Queued-same, next_output, next_output-Kept, next_output-loaded, complete-same,
}
use chunk_scaled_dot_kkt_asc.Vector.Values.Computed.{computed}
use chunk_scaled_dot_kkt_asc.Vector.Values.Range.{
  ShareFits, Before, Open, NextLoaded, NextLoaded-same, work_at, prefetch_next-Advanced,
}

module _ (a : Arithmetic) (inputs : Inputs a) (hw : Hardware a inputs) (til : TilingData)
    (l0 : Lane a) (c : Chunk) (share : Share) (fits : ShareFits til c share) (first_head : ℕ) where
  open a use {Float, zero_float}

  abbrev at : Vector → Lane a
  at = lane a inputs hw til l0

  -- What a batch does.
  pub record Step (repeat : ℕ) (s u : Vector) : Type 0 where
    pub step_written :
        Written a inputs til c share.row_start share.row_count
          (first_head + repeat)
          (batch_heads_at share repeat)
          (settled a inputs hw til l0 u)
          (settled a inputs hw til l0 s)
    pub step_before : Before a inputs hw til l0 c share fits first_head (repeat + 2) u

  batch_end :
      (repeat : ℕ) (lo : share.first_repeat ≤ repeat) (hi : repeat < share.repeat_end) (slot : ℕ)
      (s o p r : Vector)
      → Before a inputs hw til l0 c share fits first_head repeat s
      → Open a inputs hw til l0 c share fits first_head repeat lo hi s o
      → Kept a inputs hw til l0 o p
      → let z =
          (prepare a inputs hw til l0 c
            (work_at a inputs hw til l0 c share fits first_head repeat lo hi)
            p).1 in
        ((at r).memory ≡ (at z).memory)
        → ((at r).queued
            ≡ (at
                (prepare a inputs hw til l0 c
                  (work_at a inputs hw til l0 c share fits first_head repeat lo hi)
                  p).1).queued)
        → ((at r).output
            ≡ (at
                (prepare a inputs hw til l0 c
                  (work_at a inputs hw til l0 c share fits first_head repeat lo hi)
                  p).1).output)
        → ((at r).ready_seen
            ≡ (at
                (prepare a inputs hw til l0 c
                  (work_at a inputs hw til l0 c share fits first_head repeat lo hi)
                  p).1).ready_seen)
        → NextLoaded a inputs hw til l0 c share fits first_head (repeat + 2) r
        → Step repeat s
            (finish a inputs hw til l0 c
              (work_at a inputs hw til l0 c share fits first_head repeat lo hi)
              slot
              r).1
  batch_end repeat lo hi slot s o p r before opened kept em eq eo es next =
      let w = work_at a inputs hw til l0 c share fits first_head repeat lo hi in
      let u = (finish a inputs hw til l0 c w slot r).1 in
      let ready = SameReady-fields s.fields o.fields opened.open_fields in
      let done =
        computed a inputs hw til l0 c w slot o p r
          (Queued-same a inputs hw til l0 s o ready opened.open_queued before.before_queued)
          opened.open_gates
          (λ x j lt small.
            ap (λ (f : ℕ → Float). f (x * 64 + j)) opened.open_kkt ∙ before.before_kkt x j lt small)
          kept em eq eo es refl refl in
      record {
        step_written =
            Written-from a inputs til c share.row_start share.row_count (first_head + repeat)
              (batch_heads_at share repeat) (settled a inputs hw til l0 u)
              (settled a inputs hw til l0 o) (settled a inputs hw til l0 s)
              (settled-same a inputs hw til l0 s o before.before_queued ready opened.open_queued
                opened.open_output)
              done.done_written;
        step_before = record {
          before_queued = done.done_queued;
          before_kkt = λ x j lt small.
              ap (λ (f : ℕ → Float). f (x * 64 + j)) (done.done_kkt ∙ opened.open_kkt)
              ∙ before.before_kkt x j lt small;
          before_seen = done.done_seen ∙ opened.open_seen ∙ before.before_seen;
          before_next =
              NextLoaded-same a inputs hw til l0 c share fits first_head (repeat + 2) r u
                done.done_loaded next;
        };
      }

  -- The factor's block and the queues of gates.
  prepare-loaded :
      (w : Work til c) (s o p : Vector)
      → Queued a inputs hw til l0 s
      → o.fields ≡ s.fields
      → (at o).queued ≡ (at s).queued
      → Kept a inputs hw til l0 o p
      → (at (prepare a inputs hw til l0 c w p).1).loaded ≡ (at p).loaded
  prepare-loaded w s o p q e eq kept =
      (prepare-Prepared a inputs hw til l0 c w p (
        Queued-same a inputs hw til l0 o p kept.kept_ready kept.kept_queued (
          Queued-same a inputs hw til l0 s o (SameReady-fields s.fields o.fields e) eq
            q))).now_loaded

  pub first_batch-Step :
      (slot : ℕ) (reuse : Bool) (lo : share.first_repeat ≤ share.first_repeat)
      (hi : share.first_repeat < share.repeat_end) (s o : Vector)
      → Before a inputs hw til l0 c share fits first_head share.first_repeat s
      → Open a inputs hw til l0 c share fits first_head share.first_repeat lo hi s o
      → Step share.first_repeat s
          (first_batch til first_head c.start c.chunk_len share slot reuse o).1
  unfolding first_batch
  first_batch-Step slot reuse lo hi s o before opened =
      let w = work_at a inputs hw til l0 c share fits first_head share.first_repeat lo hi in
      let out_slot = (next_output a inputs hw til l0 o).0 in
      let p = (next_output a inputs hw til l0 o).1 in
      let z = (prepare a inputs hw til l0 c w p).1 in
      let y = (complete_kkt_load_and_release_slot slot reuse z).1 in
      let r = (prefetch_next til first_head c.start c.chunk_len share 0 y).1 in
      let kept = next_output-Kept a inputs hw til l0 o in
      let yz = (complete-same a inputs hw til l0 z slot reuse).0 in
      let empty : (at y).loaded ≡ [] =
        ap (λ (x : Lane a). x.loaded) yz
        ∙ prepare-loaded w s o p before.before_queued opened.open_fields opened.open_queued kept
        ∙ next_output-loaded a inputs hw til l0 o
        ∙ opened.open_loaded in
      let adv = prefetch_next-Advanced a inputs hw til l0 c share fits first_head 0 y empty in
      batch_end share.first_repeat lo hi out_slot s o p r before opened kept
        (adv.adv_memory ∙ ap (λ (x : Lane a). x.memory) yz)
        (adv.adv_queued ∙ ap (λ (x : Lane a). x.queued) yz)
        (adv.adv_output ∙ ap (λ (x : Lane a). x.output) yz)
        (adv.adv_seen ∙ ap (λ (x : Lane a). x.ready_seen) yz)
        (let e : share.first_repeat + 0 * 2 + 2 ≡ share.first_repeat + 2 = omega arith in
          subst (λ (n : ℕ). NextLoaded a inputs hw til l0 c share fits first_head n r) e
            adv.adv_next)

  later_batch-parts :
      (b : ℕ) (lo : share.first_repeat ≤ share.first_repeat + b * 2)
      (hi : share.first_repeat + b * 2 < share.repeat_end) (o : Vector)
      → let w =
          work_at a inputs hw til l0 c share fits first_head (share.first_repeat + b * 2) lo hi in
        let x = (prefetch_next til first_head c.start c.chunk_len share b o).1 in
        let (out_slot, p) = next_output a inputs hw til l0 x in
        later_batch til first_head c.start c.chunk_len share b o
        ≡ finish a inputs hw til l0 c w out_slot (prepare a inputs hw til l0 c w p).1
  unfolding later_batch process_head_pair_tile process_head_tile
  later_batch-parts b lo hi o =
      elim (Bool-cases (batch_heads_at share (share.first_repeat + b * 2) == 2)) [
        | inl two ↦ rw two refl
        | inr one ↦ rw one refl
      ]

  pub later_batch-Step :
      (b : ℕ) (lo : share.first_repeat ≤ share.first_repeat + b * 2)
      (hi : share.first_repeat + b * 2 < share.repeat_end) (s o : Vector)
      → Before a inputs hw til l0 c share fits first_head (share.first_repeat + b * 2) s
      → Open a inputs hw til l0 c share fits first_head (share.first_repeat + b * 2) lo hi s o
      → Step
          (share.first_repeat + b * 2)
          s
          (later_batch til first_head c.start c.chunk_len share b o).1
  later_batch-Step b lo hi s o before opened =
      let repeat = share.first_repeat + b * 2 in
      let w = work_at a inputs hw til l0 c share fits first_head repeat lo hi in
      let x = (prefetch_next til first_head c.start c.chunk_len share b o).1 in
      let out_slot = (next_output a inputs hw til l0 x).0 in
      let p = (next_output a inputs hw til l0 x).1 in
      let r = (prepare a inputs hw til l0 c w p).1 in
      let adv =
        prefetch_next-Advanced a inputs hw til l0 c share fits first_head b o opened.open_loaded in
      let kept : Kept a inputs hw til l0 o p =
        Kept-after a inputs hw til l0 o x p adv.adv_memory adv.adv_queued adv.adv_output
          adv.adv_seen adv.adv_fields (next_output-Kept a inputs hw til l0 x) in
      rw (later_batch-parts b lo hi o) (
        batch_end repeat lo hi out_slot s o p r before opened kept refl refl refl refl (
          NextLoaded-same a inputs hw til l0 c share fits first_head (repeat + 2) x r
            (prepare-loaded w s o p before.before_queued opened.open_fields opened.open_queued kept
              ∙ next_output-loaded a inputs hw til l0 x)
            adv.adv_next))
