-- ===== src/Vector/Values/Batches.antt =====
-- All the batches of a lane's share of a task.
use chunk_scaled_dot_kkt_asc.Prelude.{
  ℕ, zero, suc, ◌+◌, ◌-◌, ◌*◌, ◌≤◌, ◌<◌, ◌≡◌, ◌∙◌, Bool, false, [], arith, refl, ap, sym, ◌==◌,
  subst,
}
use chunk_scaled_dot_kkt_asc.Device.{TilingData}
use chunk_scaled_dot_kkt_asc.Vector.{Vector, kkt, emit, free_gate, for_range}
use chunk_scaled_dot_kkt_asc.Vector.Task.{
  Share, batch_heads_at, batch_count, first_batch, later_batch, head_batch,
}
use chunk_scaled_dot_kkt_asc.Vector.Values.{Arithmetic}
use chunk_scaled_dot_kkt_asc.Vector.Values.Lane.{Inputs, Lane, Hardware, documented}
use chunk_scaled_dot_kkt_asc.Vector.Values.Delayed.{
  lane, Queued, settled, settled-same, SameReady-fields,
}
use chunk_scaled_dot_kkt_asc.Vector.Values.Opened.{open_batch}
use chunk_scaled_dot_kkt_asc.Vector.Values.Tile.{
  Chunk, Written, Written-append, Written-now, Written-none,
}
use chunk_scaled_dot_kkt_asc.Vector.Values.Kept.{Queued-same}
use chunk_scaled_dot_kkt_asc.Vector.Values.Range.{
  ShareFits, Before, NextLoaded-same, open_batch-Open,
}
use chunk_scaled_dot_kkt_asc.Vector.Values.Steps.{Step, first_batch-Step, later_batch-Step}

module _ (a : Arithmetic) (inputs : Inputs a) (hw : Hardware a inputs) (til : TilingData)
    (l0 : Lane a) (c : Chunk) (share : Share) (fits : ShareFits til c share) (first_head : ℕ) where
  open a use {Float}

  abbrev at : Vector → Lane a
  at = lane a inputs hw til l0

  abbrev StepAt : ℕ → Vector → Vector → Type 0
  StepAt = Step a inputs hw til l0 c share fits first_head

  abbrev BeforeAt : ℕ → Vector → Type 0
  BeforeAt = Before a inputs hw til l0 c share fits first_head

  -- A last step that changes nothing.
  Step-same :
      (repeat : ℕ) (s u v : Vector)
      → at v ≡ at u
      → v.fields ≡ u.fields
      → StepAt repeat s u
      → StepAt repeat s v
  Step-same repeat s u v e f step =
      let ready = SameReady-fields u.fields v.fields f in
      let b = step.step_before in
      let q = ap (λ (x : Lane a). x.queued) e in
      record {
        step_written =
            Written-now a inputs til c share.row_start share.row_count (first_head + repeat)
              (batch_heads_at share repeat) (settled a inputs hw til l0 v)
              (settled a inputs hw til l0 u) (settled a inputs hw til l0 s)
              (settled-same a inputs hw til l0 u v b.before_queued ready q
                (ap (λ (x : Lane a). x.output) e))
              step.step_written;
        step_before = record {
          before_queued = Queued-same a inputs hw til l0 u v ready q b.before_queued;
          before_kkt = λ x j lt small.
              ap (λ (y : Lane a). y.memory.floats kkt (x * 64 + j)) e ∙ b.before_kkt x j lt small;
          before_seen = ap (λ (x : Lane a). x.ready_seen) e ∙ b.before_seen;
          before_next =
              NextLoaded-same a inputs hw til l0 c share fits first_head (repeat + 2) u v
                (ap (λ (x : Lane a). x.loaded) e) b.before_next;
        };
      }

  abbrev free : Vector → Vector
  free u = (emit free_gate u).1

  free-Step : (repeat : ℕ) (s u : Vector) → StepAt repeat s u → StepAt repeat s (free u)
  unfolding documented
  free-Step repeat s u = Step-same repeat s u (free u) refl refl

  module _ (slot : ℕ) (reuse : Bool) where
    head_batch-Step :
        (b : ℕ) (s : Vector)
        → share.first_repeat + b * 2 < share.repeat_end
        → BeforeAt (share.first_repeat + b * 2) s
        → StepAt
            (share.first_repeat + b * 2)
            s
            (head_batch til first_head c.start c.chunk_len share slot reuse b s).1
    unfolding head_batch
    head_batch-Step zero s hi before =
        let e : share.first_repeat + 0 * 2 ≡ share.first_repeat = omega arith in
        let lo : share.first_repeat ≤ share.first_repeat = omega arith in
        let below : share.first_repeat < share.repeat_end = omega arith in
        let s_before = subst (λ (n : ℕ). BeforeAt n s) e before in
        let o =
          (open_batch a inputs hw til l0 c.chunk_len (batch_heads_at share share.first_repeat)
            s).1 in
        subst
          (λ (n : ℕ). StepAt n s (
            free
              (first_batch til first_head c.start c.chunk_len share slot reuse
                (open_batch a inputs hw til l0 c.chunk_len (batch_heads_at share n) s).1).1))
          (sym e)
          (free-Step share.first_repeat s
            (first_batch til first_head c.start c.chunk_len share slot reuse o).1
            (first_batch-Step a inputs hw til l0 c share fits first_head slot reuse lo below s o
              s_before
              (open_batch-Open a inputs hw til l0 c share fits first_head share.first_repeat lo
                below s s_before.before_next)))
    head_batch-Step (suc b) s hi before =
        let repeat = share.first_repeat + suc b * 2 in
        let lo : share.first_repeat ≤ repeat = omega arith in
        let o = (open_batch a inputs hw til l0 c.chunk_len (batch_heads_at share repeat) s).1 in
        let later : (suc b == 0) ≡ false = ground arith in
        rw later (
          free-Step repeat s (later_batch til first_head c.start c.chunk_len share (suc b) o).1 (
            later_batch-Step a inputs hw til l0 c share fits first_head (suc b) lo hi s o before (
              open_batch-Open a inputs hw til l0 c share fits first_head repeat lo hi s
                before.before_next)))

    -- What a run of batches does: it writes the heads of the repeats from `repeat` on.
    pub record Batches (repeat count : ℕ) (s u : Vector) : Type 0 where
      pub batches_written :
          Written a inputs til c share.row_start share.row_count
            (first_head + repeat)
            count
            (settled a inputs hw til l0 u)
            (settled a inputs hw til l0 s)
      pub batches_queued : Queued a inputs hw til l0 u
      pub batches_loaded : (at u).loaded ≡ []
      pub batches_seen : (at u).ready_seen ≡ c.round

    pub process_batch-Batches :
        (n b : ℕ) (s : Vector)
        → b + n ≡ batch_count share
        → BeforeAt (share.first_repeat + b * 2) s
        → Batches
            (share.first_repeat + b * 2)
            (share.repeat_end - (share.first_repeat + b * 2))
            s
            (for_range n b (head_batch til first_head c.start c.chunk_len share slot reuse) s).1
    process_batch-Batches zero b s e before =
        let none_left : share.repeat_end - (share.first_repeat + b * 2) ≡ 0 = omega arith in
        record {
          batches_written = rw none_left (
              Written-none a inputs til c share.row_start share.row_count
                (first_head + (share.first_repeat + b * 2)) (settled a inputs hw til l0 s));
          batches_queued = before.before_queued;
          batches_loaded = before.before_next.next_none (omega arith);
          batches_seen = before.before_seen;
        }
    process_batch-Batches (suc n) b s e before =
        let repeat = share.first_repeat + b * 2 in
        let heads = batch_heads_at share repeat in
        let u = (head_batch til first_head c.start c.chunk_len share slot reuse b s).1 in
        let v =
          (for_range n (b + 1) (head_batch til first_head c.start c.chunk_len share slot reuse)
            u).1 in
        let step = head_batch-Step b s (omega arith) before in
        let later : share.first_repeat + (b + 1) * 2 ≡ repeat + 2 = omega arith in
        let rest = process_batch-Batches n (b + 1) u (omega arith) (rw later step.step_before) in
        let left = share.repeat_end - (share.first_repeat + (b + 1) * 2) in
        let sum : heads + left ≡ share.repeat_end - repeat = ground arith in
        record {
          batches_written =
              subst
                (λ (k : ℕ).
                  Written a inputs til c share.row_start share.row_count (first_head + repeat) k
                    (settled a inputs hw til l0 v) (settled a inputs hw til l0 s))
                sum
                (Written-append a inputs til c share.row_start share.row_count (first_head + repeat)
                  heads (first_head + (share.first_repeat + (b + 1) * 2)) left
                  (settled a inputs hw til l0 v) (settled a inputs hw til l0 u)
                  (settled a inputs hw til l0 s) (λ more. ground arith) step.step_written
                  rest.batches_written);
          batches_queued = rest.batches_queued;
          batches_loaded = rest.batches_loaded;
          batches_seen = rest.batches_seen;
        }
