-- ===== src/Vector/Values/FusedFactor.antt =====
-- One chunk of a fused pair up to the products: the factors in the shared output tensor.
use chunk_scaled_dot_kkt_asc.Prelude.{
  ℕ, suc, ◌+◌, ◌*◌, ◌^◌, ◌≤◌, ◌<◌, ◌≡◌, ◌∙◌, ◌⊎◌, Bool, true, false, [], ◌∷◌, arith, refl, ap,
  if◌then◌else◌, inl, inr, ltb,
}
use chunk_scaled_dot_kkt_asc.Device.{
  TilingData, row_elems, kkt_elems, slot_offset, gate_head_batch, ready_flag_for_slot,
}
use chunk_scaled_dot_kkt_asc.Vector.{Vector, kkt, out, emit, cross_wait, deque_gate, ◌>>◌}
use chunk_scaled_dot_kkt_asc.Vector.Load.{begin_load_kkt_slot, prefetch_gate_and_beta_batch}
use chunk_scaled_dot_kkt_asc.Vector.Task.{Share}
use chunk_scaled_dot_kkt_asc.Vector.Values.{Arithmetic, Memory}
use chunk_scaled_dot_kkt_asc.Vector.Values.Lane.{Inputs, Lane, Hardware}
use chunk_scaled_dot_kkt_asc.Vector.Values.Delayed.{lane, settled, settled-same, SameReady-fields}
use chunk_scaled_dot_kkt_asc.Vector.Values.Loaded.{
  begin_load-kkt, begin_load-queues, begin_load-fields, begin_load-out, prefetch-rest,
  prefetch-fields,
}
use chunk_scaled_dot_kkt_asc.Vector.Values.Opened.{opened-gate, opened-beta, opened-rest, taken-out}
use chunk_scaled_dot_kkt_asc.Vector.Values.Tile.{Chunk, gram}
use chunk_scaled_dot_kkt_asc.Vector.Values.Batch.{
  Work, GatesHeld, prepare, prepare-Prepared, factored, factored-kkt,
}
use chunk_scaled_dot_kkt_asc.Vector.Values.Kept.{Queued-same}
use chunk_scaled_dot_kkt_asc.Vector.Values.Range.{ShareFits, prefetched-NextLoaded}
use chunk_scaled_dot_kkt_asc.Vector.Values.Tasks.{Between, wait-at}

-- The heads of a lane in a fused pair.
abbrev pub heads_of : Bool → ℕ
heads_of is_pair = if is_pair then gate_head_batch else 1

pub heads_of-one_or_two : (is_pair : Bool) → (heads_of is_pair ≡ 1) ⊎ (heads_of is_pair ≡ 2)
heads_of-one_or_two true = inr refl
heads_of-one_or_two false = inl refl

-- All rows, and as many repeats as there are heads.
abbrev whole_share : Bool → Share
whole_share is_pair = record {
  row_start = 0;
  row_count = row_elems;
  first_repeat = 0;
  repeat_end = heads_of is_pair;
}

pub record FullChunk (til : TilingData) (c : Chunk) : Type 0 where
  pub full : c.chunk_len ≡ 64
  pub full_inside : c.start + 64 ≤ til.t
  pub full_narrow : til.t * 4 < 2 ^ 32

module _ (a : Arithmetic) (inputs : Inputs a) (hw : Hardware a inputs) (til : TilingData)
    (l0 : Lane a) (k group slot start : ℕ) (inside : start + 64 ≤ til.t)
    (narrow : til.t * 4 < 2 ^ 32) (is_pair : Bool) (head out0 out1 : ℕ)
    (apart : out0 + kkt_elems ≤ out1) where
  open a use {Float, times}

  abbrev at : Vector → Lane a
  at = lane a inputs hw til l0

  abbrev pub full_chunk : Chunk
  full_chunk = record { round = suc k; group = group; slot = slot; start = start; chunk_len = 64 }

  abbrev whole_fits : ShareFits til full_chunk (whole_share is_pair)
  whole_fits = record {
    some_rows = omega arith;
    few_rows = omega arith;
    chunk_inside = inside;
    narrow = narrow;
    rows_inside = omega arith;
    pairs_split = λ _. refl;
  }

  abbrev pub full_work : Work til full_chunk
  full_work = record {
    head = head;
    heads = heads_of is_pair;
    row_start = 0;
    rows = 64;
    one_or_two = heads_of-one_or_two is_pair;
    split = λ _. refl;
    some_rows = omega arith;
    few_rows = omega arith;
    rows_inside = omega arith;
    chunk_inside = inside;
    narrow = narrow;
    first_tile = out0;
    second_tile = out1;
    apart = apart;
  }

  -- The state before the products.
  pub record Factored (s z : Vector) : Type 0 where
    pub factored_memory :
        (m : Memory a) × ((at z).memory ≡ factored a inputs hw til l0 full_chunk full_work m)
        × GatesHeld a inputs hw til l0 full_chunk full_work m
        × (m.floats out ≡ (at s).memory.floats out)
    pub factored_kkt :
        (r j : ℕ)
        → r < 64
        → j < 64
        → (at z).memory.floats kkt (r * 64 + j) ≡ gram a inputs til full_chunk (0 + r) j
    pub factored_queued : (at z).queued ≡ []
    pub factored_output : (i : ℕ) → (at z).output i ≡ settled a inputs hw til l0 s i
    pub factored_loaded : (at z).loaded ≡ []
    pub factored_seen : (at z).ready_seen ≡ suc k
    pub factored_valid : z.ready_output_valid ≡ false

  pub fused-Factored :
      (s : Vector)
      → Between a inputs hw til l0 k s
      → Factored s
          ((prefetch_gate_and_beta_batch til.t head start row_elems (heads_of is_pair)
              >> (emit (cross_wait (ready_flag_for_slot slot))
                  >> (begin_load_kkt_slot group slot row_elems 0 row_elems
                      >> (emit deque_gate >> prepare a inputs hw til l0 full_chunk full_work))))
            s).1
  fused-Factored s before =
      let heads = heads_of is_pair in
      let p = (prefetch_gate_and_beta_batch til.t head start row_elems heads s).1 in
      let w = (emit (cross_wait (ready_flag_for_slot slot)) p).1 in
      let b = (begin_load_kkt_slot group slot row_elems 0 row_elems w).1 in
      let o = (emit deque_gate b).1 in
      let z = (prepare a inputs hw til l0 full_chunk full_work o).1 in
      let pre = prefetch-rest a inputs hw til l0 s head start 64 heads in
      let (gates, l, right) =
        prefetched-NextLoaded a inputs hw til l0 full_chunk (whole_share is_pair) whole_fits head
          head heads s before.between_loaded in
      let wait = wait-at a inputs hw til l0 (ready_flag_for_slot slot) p in
      let queues = begin_load-queues a inputs hw til l0 w group slot 64 0 64 in
      let lb : (at b).loaded ≡ gates ∷ [] =
        queues.same_loaded ∙ ap (λ (x : Lane a). x.loaded) wait ∙ l in
      let rest = opened-rest a inputs hw til l0 b 64 heads gates [] lb (omega arith) in
      let fields : o.fields ≡ s.fields =
        rest.5
        ∙ begin_load-fields a inputs hw til l0 w group slot 64 0 64
        ∙ prefetch-fields a inputs hw til l0 s head start 64 heads in
      let ready = SameReady-fields s.fields o.fields fields in
      let eq : (at o).queued ≡ (at s).queued =
        rest.1
        ∙ queues.same_queued
        ∙ ap (λ (x : Lane a). x.queued) wait
        ∙ ap (λ (x : Lane a). x.queued) pre in
      let eo : (at o).output ≡ (at s).output =
        rest.2
        ∙ queues.same_output
        ∙ ap (λ (x : Lane a). x.output) wait
        ∙ ap (λ (x : Lane a). x.output) pre in
      let seen_w : (at w).ready_seen ≡ suc k =
        ap (λ (x : Lane a). x.ready_seen) wait
        ∙ ap (λ (x : Lane a). suc x.ready_seen) pre
        ∙ ap suc before.between_seen in
      let out_o : (at o).memory.floats out ≡ (at s).memory.floats out =
        taken-out a inputs hw til l0 b 64 heads gates [] lb (omega arith)
        ∙ begin_load-out a inputs hw til l0 w group slot 64 0 64
        ∙ ap (λ (x : Lane a). x.memory.floats out) wait
        ∙ ap (λ (x : Lane a). x.memory.floats out) pre in
      let held : GatesHeld a inputs hw til l0 full_chunk full_work (at o).memory = record {
        gate_held = λ h i lt small.
            opened-gate a inputs hw til l0 b 64 heads gates [] lb (omega arith) h i
              (inputs.g ((head + h) * til.t + (start + i))) lt small
              (λ near. right.g_loaded h i lt near);
        beta_held = λ h i lt small.
            opened-beta a inputs hw til l0 b 64 heads gates [] lb (omega arith) h i small
            ∙ right.beta_loaded h i lt small;
      } in
      let pr =
        prepare-Prepared a inputs hw til l0 full_chunk full_work o
          (Queued-same a inputs hw til l0 s o ready eq before.between_queued) in
      record {
        factored_memory = ((at o).memory, pr.now_memory, held, out_o);
        factored_kkt = λ r j lt small.
            ap (λ (m : Memory a). m.floats kkt (r * 64 + j)) pr.now_memory
            ∙ ap (λ (f : ℕ → Float). f (r * 64 + j))
                (factored-kkt a inputs hw til l0 full_chunk full_work (at o).memory ∙ rest.4)
            ∙ begin_load-kkt a inputs hw til l0 w group slot 64 0 64 r j lt small (omega arith)
                (omega arith)
            ∙ ap
                (λ (n : ℕ).
                  if ltb j 64
                  then inputs.workspace n (slot_offset group slot + ((0 + r) * 64 + j))
                  else a.zero_float)
                seen_w;
        factored_queued = pr.now_queued;
        factored_output = λ i.
            pr.now_output i
            ∙ settled-same a inputs hw til l0 s o before.between_queued ready eq eo i;
        factored_loaded = pr.now_loaded ∙ rest.0;
        factored_seen = pr.now_seen ∙ rest.3 ∙ queues.same_seen ∙ seen_w;
        factored_valid = pr.now_valid;
      }
