-- ===== src/Vector/Values/Prepared.antt =====
-- The factor of a batch with the launch of the held-back batch amid its instructions.
use chunk_scaled_dot_kkt_asc.Prelude.{ℕ, ◌≡◌, ◌∙◌, false, [], arith, refl, ap}
use chunk_scaled_dot_kkt_asc.Device.{TilingData}
use chunk_scaled_dot_kkt_asc.Vector.{Vector, Fields, M, ◌>>◌}
use chunk_scaled_dot_kkt_asc.Vector.Output.{launch_ready_output}
use chunk_scaled_dot_kkt_asc.Vector.Factor.{
  single_start, single_rows, prepare_head_factor, pair_masks, pair_rows, prepare_head_pair_factor,
}
use chunk_scaled_dot_kkt_asc.Vector.Values.{Arithmetic, Memory}
use chunk_scaled_dot_kkt_asc.Vector.Values.Lane.{Inputs, Lane, Hardware, documented}
use chunk_scaled_dot_kkt_asc.Vector.Values.Delayed.{
  lane, Queued, settled, launch-lane, launch-valid, settled-same, SameReady-fields,
}
use chunk_scaled_dot_kkt_asc.Vector.Values.Single.{single_factor, started, masked, scaled, spread}
use chunk_scaled_dot_kkt_asc.Vector.Values.Pair.{
  pair_factor, pair_started, pair_masked, pair_scaled, pair_spread, pair_product, pair_selected,
}

module _ (a : Arithmetic) (inputs : Inputs a) (hw : Hardware a inputs) (til : TilingData)
    (l0 : Lane a) where
  open a use {Float}

  abbrev at : Vector → Lane a
  at = lane a inputs hw til l0

  -- The held-back batch is copied out, and the local buffers are `m`.
  pub record Prepared (m : Memory a) (s s' : Vector) : Type 0 where
    pub now_memory : (at s').memory ≡ m
    pub now_queued : (at s').queued ≡ []
    pub now_output : (i : ℕ) → (at s').output i ≡ settled a inputs hw til l0 s i
    pub now_loaded : (at s').loaded ≡ (at s).loaded
    pub now_seen : (at s').ready_seen ≡ (at s).ready_seen
    pub now_valid : s'.ready_output_valid ≡ false

  -- Between two blocks that change the local buffers only, a launch.
  around_launch :
      (before after : Memory a → Memory a) (first last : M (Unit {0})) (s : Vector)
      → Queued a inputs hw til l0 s
      → ((r : Vector) → at (first r).1 ≡ record (at r) { memory = before (at r).memory })
      → ((r : Vector) → at (last r).1 ≡ record (at r) { memory = after (at r).memory })
      → ((r : Vector) → (first r).1.fields ≡ r.fields)
      → ((r : Vector) → (last r).1.fields ≡ r.fields)
      → Prepared (after (before (at s).memory)) s ((first >> (launch_ready_output til >> last)) s).1
  around_launch before after first last s q f l ff lf =
      let s1 = (first s).1 in
      let s2 = (launch_ready_output til s1).1 in
      let s3 = (last s2).1 in
      let q1 : Queued a inputs hw til l0 s1 = rw (f s, ff s) q in
      let la = launch-lane a inputs hw til l0 s1 q1 in
      record {
        now_memory =
            ap (λ (x : Lane a). x.memory) (l s2)
            ∙ ap (λ (x : Lane a). after x.memory) la
            ∙ ap (λ (x : Lane a). after x.memory) (f s);
        now_queued = ap (λ (x : Lane a). x.queued) (l s2) ∙ ap (λ (x : Lane a). x.queued) la;
        now_output = λ i.
            ap (λ (x : Lane a). x.output i) (l s2)
            ∙ ap (λ (x : Lane a). x.output i) la
            ∙ settled-same a inputs hw til l0 s s1 q (SameReady-fields s.fields s1.fields (ff s))
                (ap (λ (x : Lane a). x.queued) (f s)) (ap (λ (x : Lane a). x.output) (f s)) i;
        now_loaded =
            ap (λ (x : Lane a). x.loaded) (l s2)
            ∙ ap (λ (x : Lane a). x.loaded) la
            ∙ ap (λ (x : Lane a). x.loaded) (f s);
        now_seen =
            ap (λ (x : Lane a). x.ready_seen) (l s2)
            ∙ ap (λ (x : Lane a). x.ready_seen) la
            ∙ ap (λ (x : Lane a). x.ready_seen) (f s);
        now_valid =
            ap (λ (x : Fields). x.ready_output_valid) (lf s2) ∙ launch-valid a inputs hw til l0 s1;
      }

  pub prepare_single :
      (chunk_len row_start rows out0 : ℕ) (s : Vector)
      → Queued a inputs hw til l0 s
      → Prepared
          (single_factor a chunk_len row_start rows out0 (at s).memory)
          s
          (prepare_head_factor til chunk_len row_start rows out0 s).1
  unfolding prepare_head_factor single_start single_rows single_factor started masked scaled spread
      documented
  prepare_single chunk_len row_start rows out0 s q =
      around_launch (started a chunk_len row_start rows out0)
        (λ m.
          spread a chunk_len row_start rows out0
            (scaled a chunk_len row_start rows out0 (masked a chunk_len row_start rows out0 m)))
        (single_start til row_start rows) (single_rows til chunk_len row_start rows out0) s q
        (λ r. refl) (λ r. refl) (λ r. refl) (λ r. refl)

  pub prepare_pair :
      (chunk_len rows out0 out1 : ℕ) (s : Vector)
      → Queued a inputs hw til l0 s
      → Prepared
          (pair_factor a chunk_len rows out0 out1 (at s).memory)
          s
          (prepare_head_pair_factor til chunk_len rows out0 out1 s).1
  unfolding prepare_head_pair_factor pair_masks pair_rows pair_factor pair_started pair_masked
      pair_scaled pair_spread pair_product pair_selected documented
  prepare_pair chunk_len rows out0 out1 s q =
      around_launch
        (λ m. pair_masked a chunk_len rows out0 out1 (pair_started a chunk_len rows out0 out1 m))
        (λ m. pair_selected a chunk_len rows out0 out1 (
          pair_product a chunk_len rows out0 out1
            (pair_spread a chunk_len rows out0 out1 (pair_scaled a chunk_len rows out0 out1 m))))
        (pair_masks til chunk_len rows) (pair_rows til rows out0 out1) s q (λ r. ground arith)
        (λ r. refl) (λ r. ground arith) (λ r. refl)
