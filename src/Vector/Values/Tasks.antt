-- ===== src/Vector/Values/Tasks.antt =====
-- `ProcessChunk` of a lane: the rows that it writes, whatever the chunk is.
use chunk_scaled_dot_kkt_asc.Prelude.{
  ℕ, suc, ◌+◌, ◌-◌, ◌*◌, ◌<◌, ◌≡◌, ◌∙◌, ◌⊎◌, Bool, true, false, [], arith, refl, ap, sym,
  if◌then◌else◌, Bool-cases, inl, inr, subst, ltb,
}
use chunk_scaled_dot_kkt_asc.Device.{
  TilingData, slot_offset, ready_flag_for_slot, free_flag_for_slot,
}
use chunk_scaled_dot_kkt_asc.Vector.{Vector, emit, cross_wait, cross_set, ◌>>◌, skip}
use chunk_scaled_dot_kkt_asc.Vector.Load.{begin_load_kkt_slot, prefetch_gate_and_beta_batch}
use chunk_scaled_dot_kkt_asc.Vector.Task.{
  Share, batch_heads_at, batch_count, has_work, process_head_range, process_chunk,
}
use chunk_scaled_dot_kkt_asc.Vector.Values.{Arithmetic}
use chunk_scaled_dot_kkt_asc.Vector.Values.Lane.{Inputs, Lane, Hardware, documented}
use chunk_scaled_dot_kkt_asc.Vector.Values.Delayed.{
  lane, Queued, settled, settled-same, SameReady-fields,
}
use chunk_scaled_dot_kkt_asc.Vector.Values.Loaded.{
  begin_load-kkt, begin_load-queues, begin_load-fields,
}
use chunk_scaled_dot_kkt_asc.Vector.Values.Tile.{
  Chunk, Written, Written-from, Written-now, Written-none, Written-no_rows,
}
use chunk_scaled_dot_kkt_asc.Vector.Values.Kept.{Queued-same}
use chunk_scaled_dot_kkt_asc.Vector.Values.Range.{
  ShareFits, Before, prefetch-Advanced, NextLoaded-same,
}
use chunk_scaled_dot_kkt_asc.Vector.Values.Batches.{Batches, process_batch-Batches}

module _ (a : Arithmetic) (inputs : Inputs a) (hw : Hardware a inputs) (til : TilingData)
    (l0 : Lane a) where
  open a use {Float}

  abbrev at : Vector → Lane a
  at = lane a inputs hw til l0

  -- Between two tasks, after `k` waits for READY.
  pub record Between (k : ℕ) (s : Vector) : Type 0 where
    pub between_queued : Queued a inputs hw til l0 s
    pub between_loaded : (at s).loaded ≡ []
    pub between_seen : (at s).ready_seen ≡ k

  pub wait-at :
      (flag : ℕ) (s : Vector)
      → at (emit (cross_wait flag) s).1 ≡ record (at s) { ready_seen = suc (at s).ready_seen }
  unfolding documented
  wait-at flag s = refl

  module _ (c : Chunk) (share : Share) (kv_head : ℕ) (reuse : Bool) where
    -- What a task does.
    pub record TaskDone (s u : Vector) : Type 0 where
      pub task_written :
          Written a inputs til c share.row_start share.row_count
            (kv_head * til.num_repeat + share.first_repeat)
            (share.repeat_end - share.first_repeat)
            (settled a inputs hw til l0 u)
            (settled a inputs hw til l0 s)
      pub task_between : Between c.round u

    working :
        (k : ℕ) (s : Vector)
        → ShareFits til c share
        → c.round ≡ suc k
        → Between k s
        → 0 < share.row_count
        → share.first_repeat < share.repeat_end
        → TaskDone s
            ((prefetch_gate_and_beta_batch til.t
                  (kv_head * til.num_repeat + share.first_repeat)
                  c.start
                  c.chunk_len
                  (batch_heads_at share share.first_repeat)
                >> (emit (cross_wait (ready_flag_for_slot c.slot))
                    >> (begin_load_kkt_slot c.group c.slot c.chunk_len share.row_start
                          share.row_count
                        >> process_head_range til kv_head c.start c.chunk_len share c.slot reuse)))
              s).1
    unfolding process_head_range
    working k s fits round before rows heads =
        let fh = kv_head * til.num_repeat in
        let p =
          (prefetch_gate_and_beta_batch til.t (fh + share.first_repeat) c.start c.chunk_len
            (batch_heads_at share share.first_repeat) s).1 in
        let w = (emit (cross_wait (ready_flag_for_slot c.slot)) p).1 in
        let b =
          (begin_load_kkt_slot c.group c.slot c.chunk_len share.row_start share.row_count w).1 in
        let adv =
          prefetch-Advanced a inputs hw til l0 c share fits fh share.first_repeat s
            before.between_loaded heads in
        let queues =
          begin_load-queues a inputs hw til l0 w c.group c.slot c.chunk_len share.row_start
            share.row_count in
        let wait = wait-at (ready_flag_for_slot c.slot) p in
        let seen : (at w).ready_seen ≡ c.round =
          ap (λ (x : Lane a). x.ready_seen) wait
          ∙ ap suc (adv.adv_seen ∙ before.between_seen)
          ∙ sym round in
        let fields : b.fields ≡ s.fields =
          begin_load-fields a inputs hw til l0 w c.group c.slot c.chunk_len share.row_start
            share.row_count
          ∙ adv.adv_fields in
        let ready = SameReady-fields s.fields b.fields fields in
        let eq : (at b).queued ≡ (at s).queued =
          queues.same_queued ∙ ap (λ (x : Lane a). x.queued) wait ∙ adv.adv_queued in
        let eo : (at b).output ≡ (at s).output =
          queues.same_output ∙ ap (λ (x : Lane a). x.output) wait ∙ adv.adv_output in
        let start : Before a inputs hw til l0 c share fits fh share.first_repeat b = record {
          before_queued = Queued-same a inputs hw til l0 s b ready eq before.between_queued;
          before_kkt = λ r j lt small.
              begin_load-kkt a inputs hw til l0 w c.group c.slot c.chunk_len share.row_start
                share.row_count r j lt small fits.some_rows fits.few_rows
              ∙ ap
                  (λ (n : ℕ).
                    if ltb j c.chunk_len
                    then inputs.workspace n
                        (slot_offset c.group c.slot + ((share.row_start + r) * 64 + j))
                    else a.zero_float)
                  seen;
          before_seen = queues.same_seen ∙ seen;
          before_next =
              NextLoaded-same a inputs hw til l0 c share fits fh share.first_repeat p b
                (queues.same_loaded ∙ ap (λ (x : Lane a). x.loaded) wait) adv.adv_next;
        } in
        let e : share.first_repeat ≡ share.first_repeat + 0 * 2 = omega arith in
        let u = (process_head_range til kv_head c.start c.chunk_len share c.slot reuse b).1 in
        let done =
          subst
            (λ (n : ℕ).
              Batches a inputs hw til l0 c share fits fh c.slot reuse n (share.repeat_end - n) b u)
            (sym e)
            (process_batch-Batches a inputs hw til l0 c share fits fh c.slot reuse
              (batch_count share) 0 b (omega arith)
              (subst (λ (n : ℕ). Before a inputs hw til l0 c share fits fh n b) e start)) in
        record {
          task_written =
              Written-from a inputs til c share.row_start share.row_count (fh + share.first_repeat)
                (share.repeat_end - share.first_repeat) (settled a inputs hw til l0 u)
                (settled a inputs hw til l0 b) (settled a inputs hw til l0 s)
                (settled-same a inputs hw til l0 s b before.between_queued ready eq eo)
                done.batches_written;
          task_between = record {
            between_queued = done.batches_queued;
            between_loaded = done.batches_loaded;
            between_seen = done.batches_seen;
          };
        }

    idle-at :
        (s : Vector)
        → let u =
            ((emit (cross_wait (ready_flag_for_slot c.slot))
                >> (if reuse then emit (cross_set (free_flag_for_slot c.slot)) else skip))
              s).1 in
          (at u ≡ record (at s) { ready_seen = suc (at s).ready_seen }) × (u.fields ≡ s.fields)
    unfolding documented
    idle-at s = elim (Bool-cases reuse) [ inl e ↦ rw e (refl, refl) | inr e ↦ rw e (refl, refl) ]

    -- Without work the lane waits for READY and at most signals FREE.
    idle :
        (k : ℕ) (s : Vector)
        → c.round ≡ suc k
        → Between k s
        → (share.row_count ≡ 0) ⊎ (share.repeat_end - share.first_repeat ≡ 0)
        → TaskDone s
            ((emit (cross_wait (ready_flag_for_slot c.slot))
                >> (if reuse then emit (cross_set (free_flag_for_slot c.slot)) else skip))
              s).1
    idle k s round before nothing =
        let u =
          ((emit (cross_wait (ready_flag_for_slot c.slot))
              >> (if reuse then emit (cross_set (free_flag_for_slot c.slot)) else skip))
            s).1 in
        let (e, f) = idle-at s in
        let ready = SameReady-fields s.fields u.fields f in
        let eq : (at u).queued ≡ (at s).queued = ap (λ (x : Lane a). x.queued) e in
        let same =
          settled-same a inputs hw til l0 s u before.between_queued ready eq
            (ap (λ (x : Lane a). x.output) e) in
        let first = kv_head * til.num_repeat + share.first_repeat in
        let count = share.repeat_end - share.first_repeat in
        let none_written : Written a inputs til c share.row_start share.row_count first count
            (settled a inputs hw til l0 s) (settled a inputs hw til l0 s) =
          elim nothing [
            | inl no_rows ↦ rw no_rows (
                Written-no_rows a inputs til c share.row_start first count
                  (settled a inputs hw til l0 s))
            | inr no_heads ↦ rw no_heads (
                Written-none a inputs til c share.row_start share.row_count first
                  (settled a inputs hw til l0 s))
          ] in
        record {
          task_written =
              Written-now a inputs til c share.row_start share.row_count first count
                (settled a inputs hw til l0 u) (settled a inputs hw til l0 s)
                (settled a inputs hw til l0 s) same none_written;
          task_between = record {
            between_queued = Queued-same a inputs hw til l0 s u ready eq before.between_queued;
            between_loaded = ap (λ (x : Lane a). x.loaded) e ∙ before.between_loaded;
            between_seen =
                ap (λ (x : Lane a). x.ready_seen) e ∙ ap suc before.between_seen ∙ sym round;
          };
        }

    no_work :
        (valid : Bool)
        → (valid ≡ false → share.row_count ≡ 0)
        → has_work valid share ≡ false
        → (share.row_count ≡ 0) ⊎ (share.repeat_end - share.first_repeat ≡ 0)
    no_work false idle_rows e = inl (idle_rows refl)
    no_work true idle_rows e = elim (Bool-cases (ltb 0 share.row_count)) [
      | inl some_rows ↦ inr (ground arith)
      | inr no_rows ↦ inl (ground arith)
    ]

    pub process_chunk-TaskDone :
        (k : ℕ) (valid : Bool) (s : Vector)
        → (valid ≡ true → 0 < share.row_count → ShareFits til c share)
        → (valid ≡ false → share.row_count ≡ 0)
        → c.round ≡ suc k
        → Between k s
        → TaskDone s
            (process_chunk til kv_head c.start c.chunk_len c.group c.slot valid share reuse s).1
    unfolding process_chunk
    process_chunk-TaskDone k valid s fits idle_rows round before =
        elim (Bool-cases (has_work valid share)) [
          | inl work ↦ rw work (
              working k s (fits (ground arith) (ground arith)) round before (ground arith)
                (ground arith))
          | inr rest ↦ rw rest (idle k s round before (no_work valid idle_rows rest))
        ]
