-- ===== src/Vector/Values/Delayed.antt =====
-- The held-back batch: what the output tensor holds once it is copied out.
use chunk_scaled_dot_kkt_asc.Prelude.{
  ap, sym, subst, ◌∙◌, Bool-cases, inl, inr, ℕ, ◌+◌, ◌*◌, ◌≤◌, ◌≡◌, true, false, ◌==◌,
  if◌then◌else◌, none, List, [], ◌∷◌, arith, refl,
}
use chunk_scaled_dot_kkt_asc.Device.{TilingData, row_elems, kkt_elems, bt, gate_head_batch}
use chunk_scaled_dot_kkt_asc.Vector.{Vector, Fields}
use chunk_scaled_dot_kkt_asc.Vector.Output.{
  launch_ready_output, launch_output, copy_ready_output, copy_pair, copy_chunk_pair,
  queue_delayed_single_output, queue_delayed_pair_output, queue_delayed_chunk_pair_output,
}
use chunk_scaled_dot_kkt_asc.Vector.Copies.{tile_lands}
use chunk_scaled_dot_kkt_asc.Vector.Values.{Arithmetic}
use chunk_scaled_dot_kkt_asc.Vector.Values.Lane.{Inputs, Lane, Hardware, documented, landed}

-- The fields that describe the held-back batch are as before.
pub record SameReady (f f' : Fields) : Type 0 where
  pub same_valid : f'.ready_output_valid ≡ f.ready_output_valid
  pub same_pair : f'.ready_output_is_pair ≡ f.ready_output_is_pair
  pub same_chunk_pair : f'.ready_output_is_chunk_pair ≡ f.ready_output_is_chunk_pair
  pub same_first : f'.ready_first_output_offset ≡ f.ready_first_output_offset
  pub same_second : f'.ready_second_output_offset ≡ f.ready_second_output_offset
  pub same_active : f'.ready_active_elems ≡ f.ready_active_elems

pub SameReady-fields : (f f' : Fields) → f' ≡ f → SameReady f f'
SameReady-fields f f' e = record {
  same_valid = ap (λ (x : Fields). x.ready_output_valid) e;
  same_pair = ap (λ (x : Fields). x.ready_output_is_pair) e;
  same_chunk_pair = ap (λ (x : Fields). x.ready_output_is_chunk_pair) e;
  same_first = ap (λ (x : Fields). x.ready_first_output_offset) e;
  same_second = ap (λ (x : Fields). x.ready_second_output_offset) e;
  same_active = ap (λ (x : Fields). x.ready_active_elems) e;
}

module _ (a : Arithmetic) (inputs : Inputs a) (hw : Hardware a inputs) (til : TilingData)
    (l0 : Lane a) where
  open a use {Float}

  -- The state of the lane that a method's state stands for.
  abbrev pub lane : Vector → Lane a
  lane s = documented a inputs hw s.trace l0

  -- The output tensor once the held-back batch is copied out.
  unfoldable pub settled : Vector → ℕ → Float
  settled s = (lane (launch_ready_output til s).1).output

  abbrev pub front : List (ℕ → Float) → ℕ → Float
  front [] = λ i. a.zero_float
  front (tile ∷ rest) = tile

  -- The queue holds the held-back batch and nothing else.
  abbrev pub Queued : Vector → Type 0
  Queued s = (lane s).queued ≡ (if s.ready_output_valid then front (lane s).queued ∷ [] else [])

  -- The lane after a launch.
  pub launch-lane :
      (s : Vector)
      → Queued s
      → lane (launch_ready_output til s).1 ≡ record (lane s) {
        output = settled s;
        queued = [];
        copying = (lane (launch_ready_output til s).1).copying;
      }
  unfolding settled launch_ready_output launch_output copy_ready_output copy_pair copy_chunk_pair
      documented
  launch-lane s q = elim (Bool-cases s.ready_output_valid) [
    | inl v ↦ ground arith
    | inr v ↦ rw v (ground arith)
  ]

  pub single-settled :
      (s : Vector) (tile : ℕ → Float) (slot head start row_start row_count i : ℕ)
      → (lane s).queued ≡ tile ∷ []
      → settled (queue_delayed_single_output til slot head start row_start row_count s).1 i
        ≡ landed a inputs
            (tile_lands til head (start + row_start) row_count 0 i none)
            tile
            ((lane s).output i)
  unfolding settled launch_ready_output launch_output copy_ready_output documented
      queue_delayed_single_output
  single-settled s tile slot head start row_start row_count i q = ground arith

  pub pair-settled :
      (s : Vector) (tile : ℕ → Float) (slot first_head start rows i : ℕ)
      → (lane s).queued ≡ tile ∷ []
      → rows ≤ bt
      → start + rows ≤ til.t
      → settled (queue_delayed_pair_output til slot first_head start (rows * row_elems) s).1 i
        ≡ landed a inputs
            (tile_lands til first_head start rows 0 i
              (tile_lands til (first_head + 1) start rows kkt_elems i none))
            tile
            ((lane s).output i)
  unfolding settled launch_ready_output launch_output copy_ready_output copy_pair documented
      queue_delayed_pair_output
  pair-settled s tile slot first_head start rows i q small inside = ground arith

  pub chunk_pair-settled :
      (s : Vector) (tile : ℕ → Float) (slot first_head start heads i : ℕ)
      → (lane s).queued ≡ tile ∷ []
      → start + 2 * bt ≤ til.t
      → settled (queue_delayed_chunk_pair_output til slot first_head start heads s).1 i
        ≡ landed a inputs
            (tile_lands til first_head start (2 * bt) 0 i (
              if heads == gate_head_batch
              then tile_lands til (first_head + 1) start (2 * bt) (2 * kkt_elems) i none
              else none))
            tile
            ((lane s).output i)
  unfolding settled launch_ready_output launch_output copy_ready_output copy_chunk_pair documented
      queue_delayed_chunk_pair_output
  chunk_pair-settled s tile slot first_head start heads i q inside = ground arith

  -- What the copies of a held-back batch make of the output tensor.
  copied : Fields → (tile old : ℕ → Float) → ℕ → Float
  copied f tile old =
      (documented a inputs hw (copy_ready_output til (record { fields = f; trace = [] })).1.trace
        (record l0 { copying = tile; output = old })).output

  settled-copied :
      (s : Vector) (tile : ℕ → Float) (i : ℕ)
      → s.ready_output_valid ≡ true
      → (lane s).queued ≡ tile ∷ []
      → settled s i ≡ copied s.fields tile (lane s).output i
  unfolding settled copied launch_ready_output launch_output copy_ready_output copy_pair
      copy_chunk_pair documented
  settled-copied s tile i v q = ground arith

  copied-same :
      (f f' : Fields) (tile old : ℕ → Float) (i : ℕ)
      → SameReady f f'
      → copied f' tile old i ≡ copied f tile old i
  unfolding copied copy_ready_output copy_pair copy_chunk_pair documented
  copied-same f f' tile old i e = ground arith

  -- It depends on these fields, the queue and the output tensor only.
  pub settled-same :
      (s r : Vector)
      → Queued s
      → SameReady s.fields r.fields
      → (lane r).queued ≡ (lane s).queued
      → (lane r).output ≡ (lane s).output
      → (i : ℕ) → settled r i ≡ settled s i
  unfolding settled launch_ready_output launch_output copy_ready_output copy_pair copy_chunk_pair
      documented
  settled-same s r w e q o i = elim (Bool-cases s.ready_output_valid) [
    | inl v ↦
        let tile = front (lane s).queued in
        let ws : (lane s).queued ≡ tile ∷ [] =
          subst (λ b. (lane s).queued ≡ (if b then tile ∷ [] else [])) v w in
        let wr : (lane r).queued ≡ tile ∷ [] = q ∙ ws in
        settled-copied r tile i (e.same_valid ∙ v) wr
        ∙ copied-same s.fields r.fields tile (lane r).output i e
        ∙ (λ k. copied s.fields tile (o k) i)
        ∙ sym (settled-copied s tile i v ws)
    | inr v ↦ let u : r.ready_output_valid ≡ false = e.same_valid ∙ v in rw (v, u, o) refl
  ]

  -- Without a held-back batch it is the output tensor.
  pub settled-none : (s : Vector) → s.ready_output_valid ≡ false → settled s ≡ (lane s).output
  unfolding settled launch_ready_output
  settled-none s e = rw e refl

  pub launch-valid : (s : Vector) → (launch_ready_output til s).1.ready_output_valid ≡ false
  unfolding launch_ready_output launch_output copy_ready_output copy_pair copy_chunk_pair
  launch-valid s = ground arith
