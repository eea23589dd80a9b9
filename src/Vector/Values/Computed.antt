-- ===== src/Vector/Values/Computed.antt =====
-- A batch from dequeued gates to the held-back output, whatever the lane does for the next batch
-- meanwhile.
use chunk_scaled_dot_kkt_asc.Prelude.{ℕ, ◌+◌, ◌*◌, ◌≡◌, ◌∙◌, [], ap}
use chunk_scaled_dot_kkt_asc.Device.{TilingData, kkt_elems}
use chunk_scaled_dot_kkt_asc.Vector.{Vector, kkt, out}
use chunk_scaled_dot_kkt_asc.Vector.Values.{Arithmetic, Memory}
use chunk_scaled_dot_kkt_asc.Vector.Values.Lane.{Inputs, Lane, Hardware, SameKkt}
use chunk_scaled_dot_kkt_asc.Vector.Values.Delayed.{lane, Queued, settled, settled-same}
use chunk_scaled_dot_kkt_asc.Vector.Values.Tile.{Chunk, Written, Written-from}
use chunk_scaled_dot_kkt_asc.Vector.Values.Batch.{
  Work, held_tile, prepare, finish, factored, GatesHeld, KktHeld, prepare-Prepared, factored-kkt,
  factored-FactorHeld, finish-Written, finish-Queued, finish-rest,
}
use chunk_scaled_dot_kkt_asc.Vector.Values.Kept.{Kept, Queued-same}

module _ (a : Arithmetic) (inputs : Inputs a) (hw : Hardware a inputs) (til : TilingData)
    (l0 : Lane a) (c : Chunk) (w : Work til c) where
  abbrev at : Vector → Lane a
  at = lane a inputs hw til l0

  -- The batch has its values in the settled output; `r` is the state before its last step.
  pub record BatchDone (s r u : Vector) : Type 0 where
    pub done_queued : Queued a inputs hw til l0 u
    pub done_written :
        Written a inputs til c w.row_start w.rows w.head w.heads
          (settled a inputs hw til l0 u)
          (settled a inputs hw til l0 s)
    pub done_loaded : (at u).loaded ≡ (at r).loaded
    pub done_seen : (at u).ready_seen ≡ (at s).ready_seen
    pub done_kkt : SameKkt a (at s) (at u)

  pub computed :
      (slot : ℕ) (s p r : Vector)
      → Queued a inputs hw til l0 s
      → GatesHeld a inputs hw til l0 c w (at s).memory
      → KktHeld a inputs hw til l0 c w (at s).memory
      → Kept a inputs hw til l0 s p
      → ((at r).memory ≡ (at (prepare a inputs hw til l0 c w p).1).memory)
      → ((at r).queued ≡ (at (prepare a inputs hw til l0 c w p).1).queued)
      → ((at r).output ≡ (at (prepare a inputs hw til l0 c w p).1).output)
      → ((at r).ready_seen ≡ (at (prepare a inputs hw til l0 c w p).1).ready_seen)
      → w.first_tile ≡ 0
      → w.second_tile ≡ kkt_elems
      → BatchDone s r (finish a inputs hw til l0 c w slot r).1
  computed slot s p r q g k kept same_memory same_queued same_output same_seen z0 z1 =
      let m = (at p).memory in
      let z = (prepare a inputs hw til l0 c w p).1 in
      let pr =
        prepare-Prepared a inputs hw til l0 c w p
          (Queued-same a inputs hw til l0 s p kept.kept_ready kept.kept_queued q) in
      let gm : GatesHeld a inputs hw til l0 c w m = record {
        gate_held = λ h i lt small.
            ap (λ (f : ℕ → a.Float). f (h * 64 + i)) kept.kept_gates.same_gate
            ∙ g.gate_held h i lt small;
        beta_held = λ h i lt small.
            ap (λ (f : ℕ → a.Bfloat). f (h * 64 + i)) kept.kept_gates.same_beta
            ∙ g.beta_held h i lt small;
      } in
      let rm : (at r).memory ≡ factored a inputs hw til l0 c w m = same_memory ∙ pr.now_memory in
      let kkt_same : (at r).memory.floats kkt ≡ (at s).memory.floats kkt =
        ap (λ (x : Memory a). x.floats kkt) rm
        ∙ factored-kkt a inputs hw til l0 c w m
        ∙ kept.kept_kkt in
      let empty : (at r).queued ≡ [] = same_queued ∙ pr.now_queued in
      let rest = finish-rest a inputs hw til l0 c w slot r empty in
      record {
        done_queued = finish-Queued a inputs hw til l0 c w slot r empty;
        done_written =
            Written-from a inputs til c w.row_start w.rows w.head w.heads
              (settled a inputs hw til l0 (finish a inputs hw til l0 c w slot r).1) (at r).output
              (settled a inputs hw til l0 s)
              (λ i.
                ap (λ (o : ℕ → a.Float). o i) same_output
                ∙ pr.now_output i
                ∙ settled-same a inputs hw til l0 s p q kept.kept_ready kept.kept_queued
                    kept.kept_output i)
              (finish-Written a inputs hw til l0 c w slot r empty
                (λ x j lt small. ap (λ (f : ℕ → a.Float). f (x * 64 + j)) kkt_same ∙ k x j lt small)
                (λ h x j lt small col.
                  ap
                    (λ (y : Memory a).
                      y.floats out (held_tile a inputs hw til l0 c w h + (x * 64 + j)))
                    rm
                  ∙ factored-FactorHeld a inputs hw til l0 c w m gm h x j lt small col)
                z0 z1);
        done_loaded = rest.0;
        done_seen = rest.1 ∙ same_seen ∙ pr.now_seen ∙ kept.kept_seen;
        done_kkt = rest.2 ∙ kkt_same;
      }
