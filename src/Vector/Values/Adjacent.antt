-- ===== src/Vector/Values/Adjacent.antt =====
-- A fused pair of adjacent full chunks: the rows that it writes.
use chunk_scaled_dot_kkt_asc.Prelude.{
  ℕ, suc, ◌+◌, ◌-◌, ◌*◌, ◌^◌, ◌≤◌, ◌<◌, ◌≡◌, ◌∙◌, Bool, List, [], ◌++◌, ◌∷◌, arith, refl, ap,
  if◌then◌else◌, ◌==◌, ◌&&◌, none,
}
use chunk_scaled_dot_kkt_asc.Device.{
  TilingData, kkt_elems, bt, slot_of, slot_reused, gate_head_batch,
}
use chunk_scaled_dot_kkt_asc.Vector.{Vector, out, emit, enque_output}
use chunk_scaled_dot_kkt_asc.Vector.Output.{queue_delayed_chunk_pair_output}
use chunk_scaled_dot_kkt_asc.Vector.Copies.{tile_lands}
use chunk_scaled_dot_kkt_asc.Vector.Task.{fused_chunk, process_adjacent_full_chunk}
use chunk_scaled_dot_kkt_asc.Vector.Values.{Arithmetic}
use chunk_scaled_dot_kkt_asc.Vector.Values.Lane.{Inputs, Lane, Hardware, documented}
use chunk_scaled_dot_kkt_asc.Vector.Values.Delayed.{
  lane, settled, settled-same, settled-none, chunk_pair-settled,
}
use chunk_scaled_dot_kkt_asc.Vector.Values.Rows.{element, in_rows, tile_lands-element}
use chunk_scaled_dot_kkt_asc.Vector.Values.Tile.{Chunk, tile_value}
use chunk_scaled_dot_kkt_asc.Vector.Values.Kept.{
  Queued-same, next_output, next_output-Kept, next_output-loaded,
}
use chunk_scaled_dot_kkt_asc.Vector.Values.Tasks.{Between}
use chunk_scaled_dot_kkt_asc.Vector.Values.Fused.{FusedDone, fused_chunk-FusedDone}
use chunk_scaled_dot_kkt_asc.Vector.Values.FusedFactor.{heads_of}

module _ (a : Arithmetic) (inputs : Inputs a) (hw : Hardware a inputs) (til : TilingData)
    (l0 : Lane a) (k group round start : ℕ) (inside : start + 2 * bt ≤ til.t)
    (narrow : til.t * 4 < 2 ^ 32) (is_pair : Bool) (head : ℕ) where
  open a use {Float}

  abbrev at : Vector → Lane a
  at = lane a inputs hw til l0

  inside0 : start + 64 ≤ til.t
  inside0 = omega arith

  inside1 : start + 64 + 64 ≤ til.t
  inside1 = omega arith

  apart0 : 0 + kkt_elems ≤ 2 * kkt_elems
  apart0 = omega arith

  apart1 : kkt_elems + kkt_elems ≤ 3 * kkt_elems
  apart1 = omega arith

  -- The two chunks, and the values of their tiles.
  abbrev pub first_chunk : Chunk
  first_chunk = record {
    round = suc k;
    group = group;
    slot = slot_of round;
    start = start;
    chunk_len = 64;
  }

  abbrev pub second_chunk : Chunk
  second_chunk = record {
    round = suc (suc k);
    group = group;
    slot = slot_of (round + 1);
    start = start + 64;
    chunk_len = 64;
  }

  abbrev pub first_value : (h r j : ℕ) → Float
  first_value = tile_value a inputs til first_chunk

  abbrev pub second_value : (h r j : ℕ) → Float
  second_value = tile_value a inputs til second_chunk

  -- The output tensor holds the tiles of both chunks, a head's two tiles one after the other.
  record Tiles (s : Vector) : Type 0 where
    first_tiles :
        (d r j : ℕ)
        → d < heads_of is_pair
        → r < 64
        → j < 64
        → (at s).memory.floats out (d * (2 * kkt_elems) + (r * 64 + j)) ≡ first_value (head + d) r j
    second_tiles :
        (d r j : ℕ)
        → d < heads_of is_pair
        → r < 64
        → j < 64
        → (at s).memory.floats out (d * (2 * kkt_elems) + ((r + 64) * 64 + j))
          ≡ second_value (head + d) r j

  fused_chunk-Tiles :
      (s u v : Vector)
      → FusedDone a inputs hw til l0 k group
          (slot_of round)
          start
          inside0
          narrow
          is_pair
          head
          0
          (2 * kkt_elems)
          apart0
          s
          u
      → FusedDone a inputs hw til l0
          (suc k)
          group
          (slot_of (round + 1))
          (start + 64)
          inside1
          narrow
          is_pair
          head
          kkt_elems
          (3 * kkt_elems)
          apart1
          u
          v
      → Tiles v
  fused_chunk-Tiles s u v f g = record {
    first_tiles = λ d r j lt small col.
        let place : d * (2 * kkt_elems) + (r * 64 + j)
            ≡ (if d == 0 then 0 else 2 * kkt_elems) + (r * 64 + j) =
          ground arith in
        rw place (
          g.fused_outside ((if d == 0 then 0 else 2 * kkt_elems) + (r * 64 + j)) (ground arith)
            (ground arith)
          ∙ f.fused_tiles d r j lt small col);
    second_tiles = λ d r j lt small col.
        let place : d * (2 * kkt_elems) + ((r + 64) * 64 + j)
            ≡ (if d == 0 then kkt_elems else 3 * kkt_elems) + (r * 64 + j) =
          ground arith in
        rw place (g.fused_tiles d r j lt small col);
  }

  first_at :
      (s : Vector) (d r j h x : ℕ)
      → Tiles s
      → d < heads_of is_pair
      → r < 64
      → j < 64
      → h ≡ head + d
      → x ≡ d * (2 * kkt_elems) + (r * 64 + j)
      → (at s).memory.floats out x ≡ first_value h r j
  first_at s d r j h x tiles lt small col at_h at_x =
      rw (at_h, at_x) (tiles.first_tiles d r j lt small col)

  second_at :
      (s : Vector) (d r j h x : ℕ)
      → Tiles s
      → d < heads_of is_pair
      → r < 64
      → j < 64
      → h ≡ head + d
      → x ≡ d * (2 * kkt_elems) + ((r + 64) * 64 + j)
      → (at s).memory.floats out x ≡ second_value h r j
  second_at s d r j h x tiles lt small col at_h at_x =
      rw (at_h, at_x) (tiles.second_tiles d r j lt small col)

  -- A pair's rows and heads have their values; all else is as before.
  unfoldable pub PairWritten : (now before : ℕ → Float) → Type 0
  PairWritten now before =
      (h row j : ℕ)
      → row < til.t
      → j < 64
      → now (element til.t h row j) ≡ (
          if in_rows head (heads_of is_pair) h && in_rows start 64 row
          then first_value h (row - start) j
          else if in_rows head (heads_of is_pair) h && in_rows (start + 64) 64 row
          then second_value h (row - (start + 64)) j
          else before (element til.t h row j))

  delayed-PairWritten :
      (slot : ℕ) (s : Vector)
      → (at s).queued ≡ []
      → Tiles s
      → PairWritten
          (settled a inputs hw til l0
            (queue_delayed_chunk_pair_output til slot head start
              (heads_of is_pair)
              (emit enque_output s).1).1)
          (at s).output
  unfolding PairWritten documented
  delayed-PairWritten slot s empty tiles h row j in_t col =
      let e = (emit enque_output s).1 in
      let tile = (at s).memory.floats out in
      let x = element til.t h row j in
      let q : (at e).queued ≡ tile ∷ [] = ap (λ (l : List (ℕ → Float)). l ++ tile ∷ []) empty in
      let second = tile_lands til (head + 1) start (2 * bt) (2 * kkt_elems) x none in
      chunk_pair-settled a inputs hw til l0 e tile slot head start (heads_of is_pair) x q inside
      ∙ rw
          (
            tile_lands-element til head start (2 * bt) 0 h row j
                (if heads_of is_pair == gate_head_batch then second else none) inside in_t col,
            tile_lands-element til (head + 1) start (2 * bt) (2 * kkt_elems) h row j none inside
                in_t col,
          )
          (let r = row - start in
            let r' = row - (start + 64) in
            let x0 = 0 + (r * 64 + j) in
            let x1 = 2 * kkt_elems + (r * 64 + j) in
            ground (
              arith,
              first_at s 0 r j h x0 tiles,
              first_at s 1 r j h x1 tiles,
              second_at s 0 r' j h x0 tiles,
              second_at s 1 r' j h x1 tiles,
            ))

  PairWritten-from :
      (now before earlier : ℕ → Float)
      → ((i : ℕ) → before i ≡ earlier i)
      → PairWritten now before
      → PairWritten now earlier
  unfolding PairWritten
  PairWritten-from now before earlier e written h row j in_t col =
      let same = e (element til.t h row j) in ground (arith, written h row j in_t col)

  delayed-Between :
      (slot m : ℕ) (s : Vector)
      → (at s).queued ≡ []
      → (at s).loaded ≡ []
      → (at s).ready_seen ≡ m
      → Between a inputs hw til l0 m
          (queue_delayed_chunk_pair_output til slot head start
            (heads_of is_pair)
            (emit enque_output s).1).1
  unfolding documented queue_delayed_chunk_pair_output
  delayed-Between slot m s empty loaded seen = record {
    between_queued = rw empty refl;
    between_loaded = loaded;
    between_seen = seen;
  }

  -- What a fused pair does.
  pub record PairDone (s u : Vector) : Type 0 where
    pub pair_written : PairWritten (settled a inputs hw til l0 u) (settled a inputs hw til l0 s)
    pub pair_between : Between a inputs hw til l0 (suc (suc k)) u

  pub process_adjacent-PairDone :
      (offsets : ℕ → ℕ) (chunk count : ℕ) (s : Vector)
      → offsets chunk ≡ start
      → offsets (chunk + 1) ≡ start + 64
      → Between a inputs hw til l0 k s
      → PairDone s
          (process_adjacent_full_chunk til offsets is_pair chunk head group round count s).1
  unfolding process_adjacent_full_chunk
  process_adjacent-PairDone offsets chunk count s e0 e1 before =
      let out_slot = (next_output a inputs hw til l0 s).0 in
      let p = (next_output a inputs hw til l0 s).1 in
      let u =
        (fused_chunk til offsets is_pair head start group (slot_of round) 0 (2 * kkt_elems)
          (slot_reused round count) p).1 in
      let v =
        (fused_chunk til offsets is_pair head (start + 64) group (slot_of (round + 1)) kkt_elems
          (3 * kkt_elems) (slot_reused (round + 1) count) u).1 in
      let w =
        (queue_delayed_chunk_pair_output til out_slot head start (heads_of is_pair)
          (emit enque_output v).1).1 in
      let kept = next_output-Kept a inputs hw til l0 s in
      let p_between : Between a inputs hw til l0 k p = record {
        between_queued =
            Queued-same a inputs hw til l0 s p kept.kept_ready kept.kept_queued
              before.between_queued;
        between_loaded = next_output-loaded a inputs hw til l0 s ∙ before.between_loaded;
        between_seen = kept.kept_seen ∙ before.between_seen;
      } in
      let f =
        fused_chunk-FusedDone a inputs hw til l0 k group (slot_of round) start inside0 narrow
          is_pair head 0 (2 * kkt_elems) apart0 offsets (slot_reused round count) p p_between in
      let u_between : Between a inputs hw til l0 (suc k) u = record {
        between_queued = rw (f.fused_queued, f.fused_valid) refl;
        between_loaded = f.fused_loaded;
        between_seen = f.fused_seen;
      } in
      let g =
        fused_chunk-FusedDone a inputs hw til l0 (suc k) group (slot_of (round + 1)) (start + 64)
          inside1 narrow is_pair head kkt_elems (3 * kkt_elems) apart1 offsets
          (slot_reused (round + 1) count) u u_between in
      let tiles = fused_chunk-Tiles p u v f g in
      rw (e0, e1)
        (record {
          pair_written =
              PairWritten-from (settled a inputs hw til l0 w) (at v).output
                (settled a inputs hw til l0 s)
                (λ i.
                  g.fused_output i
                  ∙ ap (λ (o : ℕ → Float). o i) (settled-none a inputs hw til l0 u f.fused_valid)
                  ∙ f.fused_output i
                  ∙ settled-same a inputs hw til l0 s p before.between_queued kept.kept_ready
                      kept.kept_queued kept.kept_output i)
                (delayed-PairWritten out_slot v g.fused_queued tiles);
          pair_between =
              delayed-Between out_slot (suc (suc k)) v g.fused_queued g.fused_loaded g.fused_seen;
        })
