-- ===== src/Vector/Values/Fused.antt =====
-- One chunk of a fused pair: the products, and its tiles in the shared output tensor.
use chunk_scaled_dot_kkt_asc.Prelude.{
  ℕ, suc, ◌+◌, ◌*◌, ◌^◌, ◌≤◌, ◌<◌, ◌≡◌, ◌∙◌, Bool, false, [], arith, refl, ap, if◌then◌else◌, ◌==◌,
  Bool-cases, inl, inr, ltb, leb, ◌&&◌,
}
use chunk_scaled_dot_kkt_asc.Device.{TilingData, row_elems, kkt_elems, ready_flag_for_slot}
use chunk_scaled_dot_kkt_asc.Vector.{
  Vector, Fields, M, kkt, out, mul, emit, cross_wait, deque_gate, free_gate, ◌>>◌, skip,
}
use chunk_scaled_dot_kkt_asc.Vector.Load.{
  tensor, begin_load_kkt_slot, prefetch_gate_and_beta_batch, complete_kkt_load_and_release_slot,
}
use chunk_scaled_dot_kkt_asc.Vector.Factor.{issue}
use chunk_scaled_dot_kkt_asc.Vector.Task.{fused_chunk}
use chunk_scaled_dot_kkt_asc.Vector.Values.{Arithmetic, Memory, effect}
use chunk_scaled_dot_kkt_asc.Vector.Values.Lane.{Inputs, Lane, Hardware, documented}
use chunk_scaled_dot_kkt_asc.Vector.Values.Delayed.{lane, settled}
use chunk_scaled_dot_kkt_asc.Vector.Values.Tile.{tile_value}
use chunk_scaled_dot_kkt_asc.Vector.Values.Batch.{
  prepare, factored, factored-FactorHeld, factored-outside, product-value,
}
use chunk_scaled_dot_kkt_asc.Vector.Values.Kept.{complete-same}
use chunk_scaled_dot_kkt_asc.Vector.Values.Tasks.{Between}
use chunk_scaled_dot_kkt_asc.Vector.Values.FusedFactor.{
  heads_of, full_chunk, full_work, fused-Factored,
}

module _ (a : Arithmetic) (inputs : Inputs a) (hw : Hardware a inputs) (til : TilingData)
    (l0 : Lane a) (k group slot start : ℕ) (inside : start + 64 ≤ til.t)
    (narrow : til.t * 4 < 2 ^ 32) (is_pair : Bool) (head out0 out1 : ℕ)
    (apart : out0 + kkt_elems ≤ out1) where
  open a use {Float, times}

  abbrev at : Vector → Lane a
  at = lane a inputs hw til l0

  -- The first element of a head's tile.
  abbrev pub tile_of : ℕ → ℕ
  tile_of h = if h == 0 then out0 else out1

  -- What a chunk of the pair does: the held-back batch is copied out, its tiles are filled, and the
  -- rest of the output tensor is as before.
  pub record FusedDone (s u : Vector) : Type 0 where
    pub fused_tiles :
        (h r j : ℕ)
        → h < heads_of is_pair
        → r < 64
        → j < 64
        → (at u).memory.floats out (tile_of h + (r * 64 + j))
          ≡ tile_value a inputs til
              (full_chunk a inputs hw til l0 k group slot start inside narrow is_pair head out0 out1
                apart)
              (head + h)
              r
              j
    pub fused_outside :
        (x : ℕ)
        → (leb out0 x && ltb x (out0 + kkt_elems)) ≡ false
        → (leb out1 x && ltb x (out1 + kkt_elems)) ≡ false
        → (at u).memory.floats out x ≡ (at s).memory.floats out x
    pub fused_queued : (at u).queued ≡ []
    pub fused_output : (i : ℕ) → (at u).output i ≡ settled a inputs hw til l0 s i
    pub fused_loaded : (at u).loaded ≡ []
    pub fused_seen : (at u).ready_seen ≡ suc k
    pub fused_valid : u.ready_output_valid ≡ false

  -- The products of the tile with the factors.
  products : M (Unit {0})
  products =
      issue (mul (tensor out out0) (tensor kkt 0) (tensor out out0) kkt_elems)
      >> ((if is_pair
            then issue (mul (tensor out out1) (tensor kkt 0) (tensor out out1) kkt_elems)
            else skip)
          >> emit free_gate)

  products-rest :
      (s : Vector)
      → ((at (products s).1).queued ≡ (at s).queued)
        × ((at (products s).1).output ≡ (at s).output)
        × ((at (products s).1).loaded ≡ (at s).loaded)
        × ((at (products s).1).ready_seen ≡ (at s).ready_seen)
        × ((products s).1.fields ≡ s.fields)
  unfolding products documented effect
  products-rest s = ground arith

  products-tiles :
      (s : Vector) (h r j : ℕ)
      → h < heads_of is_pair
      → r < 64
      → j < 64
      → (at (products s).1).memory.floats out (tile_of h + (r * 64 + j))
        ≡ times
            ((at s).memory.floats kkt (r * 64 + j))
            ((at s).memory.floats out (tile_of h + (r * 64 + j)))
  unfolding products documented effect
  products-tiles s h r j lt small col = ground arith

  products-outside :
      (s : Vector) (x : ℕ)
      → (leb out0 x && ltb x (out0 + kkt_elems)) ≡ false
      → (leb out1 x && ltb x (out1 + kkt_elems)) ≡ false
      → (at (products s).1).memory.floats out x ≡ (at s).memory.floats out x
  unfolding products documented effect
  products-outside s x away0 away1 = ground arith

  abbrev up_to_factor : M (Unit {0})
  up_to_factor =
      prefetch_gate_and_beta_batch til.t head start row_elems (heads_of is_pair)
      >> (emit (cross_wait (ready_flag_for_slot slot))
          >> (begin_load_kkt_slot group slot row_elems 0 row_elems
              >> (emit deque_gate
                  >> prepare a inputs hw til l0
                      (full_chunk a inputs hw til l0 k group slot start inside narrow is_pair head
                        out0 out1 apart)
                      (full_work a inputs hw til l0 k group slot start inside narrow is_pair head
                        out0 out1 apart))))

  fused_chunk-parts :
      (offsets : ℕ → ℕ) (reuse : Bool) (s : Vector)
      → fused_chunk til offsets is_pair head start group slot out0 out1 reuse s
        ≡ (up_to_factor >> (complete_kkt_load_and_release_slot slot reuse >> products)) s
  unfolding fused_chunk products
  fused_chunk-parts offsets reuse s = elim (Bool-cases is_pair) [
    | inl two ↦ rw two refl
    | inr one ↦ rw one refl
  ]

  pub fused_chunk-FusedDone :
      (offsets : ℕ → ℕ) (reuse : Bool) (s : Vector)
      → Between a inputs hw til l0 k s
      → FusedDone s (fused_chunk til offsets is_pair head start group slot out0 out1 reuse s).1
  fused_chunk-FusedDone offsets reuse s before =
      let z = (up_to_factor s).1 in
      let y = (complete_kkt_load_and_release_slot slot reuse z).1 in
      let u = (products y).1 in
      let f =
        fused-Factored a inputs hw til l0 k group slot start inside narrow is_pair head out0 out1
          apart s before in
      let (m, is_m, held, out_s) = f.factored_memory in
      let (yz, fy) = complete-same a inputs hw til l0 z slot reuse in
      let rest = products-rest y in
      let memory : (at y).memory
          ≡ factored a inputs hw til l0
              (full_chunk a inputs hw til l0 k group slot start inside narrow is_pair head out0 out1
                apart)
              (full_work a inputs hw til l0 k group slot start inside narrow is_pair head out0 out1
                apart)
              m =
        ap (λ (x : Lane a). x.memory) yz ∙ is_m in
      rw (fused_chunk-parts offsets reuse s) (record {
        fused_tiles = λ h r j lt small col.
            products-tiles y h r j lt small col
            ∙ product-value a inputs hw til l0
                (full_chunk a inputs hw til l0 k group slot start inside narrow is_pair head out0
                  out1 apart)
                (full_work a inputs hw til l0 k group slot start inside narrow is_pair head out0
                  out1 apart)
                (at y).memory h r j (head + h) r (tile_of h + (r * 64 + j))
                (λ x c x_small c_small.
                  ap (λ (l : Lane a). l.memory.floats kkt (x * 64 + c)) yz
                  ∙ f.factored_kkt x c x_small c_small)
                (λ h' x c h_lt x_small c_small.
                  ap (λ (n : Memory a). n.floats out (tile_of h' + (x * 64 + c))) memory
                  ∙ factored-FactorHeld a inputs hw til l0
                      (full_chunk a inputs hw til l0 k group slot start inside narrow is_pair head
                        out0 out1 apart)
                      (full_work a inputs hw til l0 k group slot start inside narrow is_pair head
                        out0 out1 apart)
                      m held h' x c h_lt x_small c_small)
                lt small col refl (omega arith) refl;
        fused_outside = λ x away0 away1.
            products-outside y x away0 away1
            ∙ ap (λ (n : Memory a). n.floats out x) memory
            ∙ factored-outside a inputs hw til l0
                (full_chunk a inputs hw til l0 k group slot start inside narrow is_pair head out0
                  out1 apart)
                (full_work a inputs hw til l0 k group slot start inside narrow is_pair head out0
                  out1 apart)
                m x away0 away1
            ∙ ap (λ (g : ℕ → Float). g x) out_s;
        fused_queued = rest.0 ∙ ap (λ (x : Lane a). x.queued) yz ∙ f.factored_queued;
        fused_output = λ i.
            ap (λ (o : ℕ → Float). o i) (rest.1 ∙ ap (λ (x : Lane a). x.output) yz)
            ∙ f.factored_output i;
        fused_loaded = rest.2 ∙ ap (λ (x : Lane a). x.loaded) yz ∙ f.factored_loaded;
        fused_seen = rest.3 ∙ ap (λ (x : Lane a). x.ready_seen) yz ∙ f.factored_seen;
        fused_valid = ap (λ (x : Fields). x.ready_output_valid) (rest.4 ∙ fy) ∙ f.factored_valid;
      })
