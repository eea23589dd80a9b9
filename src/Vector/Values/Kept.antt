-- ===== src/Vector/Values/Kept.antt =====
-- The steps between the computations of a batch, and what they keep.
use chunk_scaled_dot_kkt_asc.Prelude.{ℕ, ◌≡◌, ◌∙◌, Bool, arith, ap, sym}
use chunk_scaled_dot_kkt_asc.Device.{TilingData}
use chunk_scaled_dot_kkt_asc.Vector.{Vector, M, kkt, gate, beta, emit, alloc_output, ◌>>=◌}
use chunk_scaled_dot_kkt_asc.Vector.Output.{acquire_output_slot, retire, free_output_slot}
use chunk_scaled_dot_kkt_asc.Vector.Load.{complete_kkt_load_and_release_slot}
use chunk_scaled_dot_kkt_asc.Vector.Values.{Arithmetic, Memory}
use chunk_scaled_dot_kkt_asc.Vector.Values.Lane.{
  Inputs, Lane, Hardware, documented, SameKkt, SameGates,
}
use chunk_scaled_dot_kkt_asc.Vector.Values.Delayed.{lane, Queued, SameReady}

module _ (a : Arithmetic) (inputs : Inputs a) (hw : Hardware a inputs) (til : TilingData)
    (l0 : Lane a) where
  open a use {Float}

  abbrev at : Vector → Lane a
  at = lane a inputs hw til l0

  -- The held-back batch, the KKT tile and the dequeued gates are as before.
  pub record Kept (s r : Vector) : Type 0 where
    pub kept_queued : (at r).queued ≡ (at s).queued
    pub kept_output : (at r).output ≡ (at s).output
    pub kept_seen : (at r).ready_seen ≡ (at s).ready_seen
    pub kept_kkt : SameKkt a (at s) (at r)
    pub kept_gates : SameGates a (at s) (at r)
    pub kept_ready : SameReady s.fields r.fields

  -- A step before it that changes the loaded tensors only.
  pub Kept-after :
      (s r u : Vector)
      → (at r).memory ≡ (at s).memory
      → (at r).queued ≡ (at s).queued
      → (at r).output ≡ (at s).output
      → (at r).ready_seen ≡ (at s).ready_seen
      → r.fields ≡ s.fields
      → Kept r u
      → Kept s u
  Kept-after s r u em eq eo es ef kept = record {
    kept_queued = kept.kept_queued ∙ eq;
    kept_output = kept.kept_output ∙ eo;
    kept_seen = kept.kept_seen ∙ es;
    kept_kkt = kept.kept_kkt ∙ ap (λ (m : Memory a). m.floats kkt) em;
    kept_gates = record {
      same_gate = kept.kept_gates.same_gate ∙ ap (λ (m : Memory a). m.floats gate) em;
      same_beta = kept.kept_gates.same_beta ∙ ap (λ (m : Memory a). m.bfloats beta) em;
    };
    kept_ready = rw (sym ef) kept.kept_ready;
  }

  pub Queued-same :
      (s r : Vector)
      → SameReady s.fields r.fields
      → (at r).queued ≡ (at s).queued
      → Queued a inputs hw til l0 s
      → Queued a inputs hw til l0 r
  Queued-same s r e p q = rw (p, e.same_valid) q

  -- A new output tensor: its slot is retired first, and it is allocated.
  abbrev pub next_output : M ℕ
  next_output = acquire_output_slot >>= λ slot s. (slot, (emit alloc_output s).1)

  pub next_output-Kept : (s : Vector) → Kept s (next_output s).1
  unfolding acquire_output_slot retire free_output_slot documented
  next_output-Kept s = ground arith

  pub next_output-loaded : (s : Vector) → (at (next_output s).1).loaded ≡ (at s).loaded
  unfolding acquire_output_slot retire free_output_slot documented
  next_output-loaded s = ground arith

  -- The wait for the KKT tile and the release of its slot leave everything as it is.
  pub complete-same :
      (s : Vector) (slot : ℕ) (reuse : Bool)
      → (at (complete_kkt_load_and_release_slot slot reuse s).1 ≡ at s)
        × ((complete_kkt_load_and_release_slot slot reuse s).1.fields ≡ s.fields)
  unfolding complete_kkt_load_and_release_slot documented
  complete-same s slot reuse = ground arith
