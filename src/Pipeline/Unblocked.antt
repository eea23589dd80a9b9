-- ===== src/Pipeline/Unblocked.antt =====
-- The flags and queues inside the cores block no core of a MIX group for good.
use chunk_scaled_dot_kkt_asc.Prelude.{
  ℕ, ◌+◌, ◌*◌, ◌≡◌, refl, ◌∙◌, inl, inr, Bool, Bool-cases, ◌==◌, true, false, some, List, [], ◌∷◌,
  arith,
}
use chunk_scaled_dot_kkt_asc.Device.{TilingData, aivs_per_aic}
use chunk_scaled_dot_kkt_asc.Vector.Contract.Process.{process_empties}
use chunk_scaled_dot_kkt_asc.Vector.Prefetch.Process.{process-no_pairs}
use chunk_scaled_dot_kkt_asc.Cube
use chunk_scaled_dot_kkt_asc.Cube.Events.{
  run, at_start, at_end, process_256_drains, process_128_drains,
}
use chunk_scaled_dot_kkt_asc.Pipeline.{
  Side, System, aic_next, run_cube_stage, run_vector_stage, waiting_side, Step, by_aic, by_side0,
  by_side1, start, Reach, begin, later,
}
use chunk_scaled_dot_kkt_asc.Pipeline.Queues.{
  QueuesOk, run_slots, run_pairs, run_slots-reverse_onto, run_pairs-reverse_onto,
  side_next-QueuesOk,
}
use chunk_scaled_dot_kkt_asc.Pipeline.AicFlags.{FlagsOk, aic_next-FlagsOk}

pub record Unblocked (s : System) : Type 0 where
  pub queues0 : QueuesOk s.side0
  pub queues1 : QueuesOk s.side1
  pub flags_ok : FlagsOk s

same_queues :
    (s t : Side)
    → t.program ≡ s.program
    → t.slots ≡ s.slots
    → t.pairs ≡ s.pairs
    → QueuesOk s
    → QueuesOk t
same_queues s t program slots pairs ok = record {
  slots_rest = (λ i. run_slots (program i) (some (slots i))) ∙ ok.slots_rest;
  pairs_rest = (λ i. run_pairs (program i) (some (pairs i))) ∙ ok.pairs_rest;
}

-- The flags between the cores do not touch the queues.
aic_next-queues :
    (s t : System) (program : List Cube.Command)
    → aic_next s program ≡ some t
    → Unblocked s
    → QueuesOk t.side0 × QueuesOk t.side1
aic_next-queues s t [] next ok = absurd (ground arith)
aic_next-queues s t (c ∷ cs) next ok =
    let program0 : t.side0.program ≡ s.side0.program = ground arith in
    let slots0 : t.side0.slots ≡ s.side0.slots = ground arith in
    let pairs0 : t.side0.pairs ≡ s.side0.pairs = ground arith in
    let program1 : t.side1.program ≡ s.side1.program = ground arith in
    let slots1 : t.side1.slots ≡ s.side1.slots = ground arith in
    let pairs1 : t.side1.pairs ≡ s.side1.pairs = ground arith in
    (
      same_queues s.side0 t.side0 program0 slots0 pairs0 ok.queues0,
      same_queues s.side1 t.side1 program1 slots1 pairs1 ok.queues1,
    )

Step-Unblocked : (s t : System) → Step s t → Unblocked s → Unblocked t
Step-Unblocked s t (by_aic next) ok =
    let queues = aic_next-queues s t s.aic next ok in
    record {
      queues0 = queues.0;
      queues1 = queues.1;
      flags_ok = aic_next-FlagsOk s t s.aic ok.flags_ok refl next;
    }
Step-Unblocked s _ (by_side0 {t = side} next) ok =
    let f = ok.flags_ok in
    record {
      queues0 = side_next-QueuesOk s.side0 side s.side0.program ok.queues0 refl next;
      queues1 = ok.queues1;
      flags_ok = record {
        is_k128 = f.is_k128;
        state = f.state;
        flags_is = f.flags_is;
        rest = f.rest;
      };
    }
Step-Unblocked s _ (by_side1 {t = side} next) ok =
    let f = ok.flags_ok in
    record {
      queues0 = ok.queues0;
      queues1 = side_next-QueuesOk s.side1 side s.side1.program ok.queues1 refl next;
      flags_ok = record {
        is_k128 = f.is_k128;
        state = f.state;
        flags_is = f.flags_is;
        rest = f.rest;
      };
    }

module _ (k_mode : ℕ) (til : TilingData) (offsets : ℕ → ℕ) (group : ℕ) where
  start_side-QueuesOk : (aiv : ℕ) → QueuesOk (waiting_side (run_vector_stage til offsets aiv))
  unfolding run_vector_stage
  start_side-QueuesOk aiv = record {
    slots_rest =
        run_slots-reverse_onto (run_vector_stage til offsets aiv) []
        ∙ process_empties til offsets aivs_per_aic aiv;
    pairs_rest =
        run_pairs-reverse_onto (run_vector_stage til offsets aiv) []
        ∙ process-no_pairs til offsets aivs_per_aic aiv;
  }

  cube_drains :
      (is_k128 : Bool) × (run is_k128 (run_cube_stage k_mode til offsets group) at_start
        ≡ some at_end)
  unfolding run_cube_stage
  cube_drains = elim (Bool-cases (k_mode == 0)) [
    | inl k128 ↦ (true, rw k128 (process_128_drains til offsets group))
    | inr k256 ↦ (false, rw k256 (process_256_drains til offsets group))
  ]

  start-Unblocked : Unblocked (start k_mode til offsets group)
  unfolding start
  start-Unblocked = record {
    queues0 = start_side-QueuesOk (group * aivs_per_aic);
    queues1 = start_side-QueuesOk (group * aivs_per_aic + 1);
    flags_ok = record {
      is_k128 = cube_drains.0;
      state = at_start;
      flags_is = refl;
      rest = cube_drains.1;
    };
  }

  pub reach-Unblocked : (s : System) → Reach k_mode til offsets group s → Unblocked s
  reach-Unblocked s begin = start-Unblocked
  reach-Unblocked s (later {s = r} reach step) = Step-Unblocked r s step (reach-Unblocked r reach)
