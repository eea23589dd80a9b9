-- ===== src/Pipeline/Safety.antt =====
-- What the invariant gives for the runs of a MIX group.
use chunk_scaled_dot_kkt_asc.Prelude.{
  ℕ, ◌+◌, ◌-◌, ◌*◌, ◌/◌, ◌^◌, ◌≤◌, ◌<◌, ◌≡◌, refl, sym, ◌∙◌, subst, ◌⊎◌, inl, inr, Bool, true,
  false, ◌&&◌, ◌==◌, Option, none, some, List, [], ◌∷◌, arith, Bool-cases,
}
use chunk_scaled_dot_kkt_asc.Device.{
  TilingData, IsLaunch, aivs_per_aic, slot_of, slot_offset, ready_flag_for_slot, free_flag_for_slot,
}
use chunk_scaled_dot_kkt_asc.Schedule.{task_count}
use chunk_scaled_dot_kkt_asc.Vector.Handshake
use chunk_scaled_dot_kkt_asc.Vector.Handshake.{Lane, before_round}
use chunk_scaled_dot_kkt_asc.Vector.Handshake.Process.{process_follows}
use chunk_scaled_dot_kkt_asc.Cube
use chunk_scaled_dot_kkt_asc.Cube.Handshake.{
  Aic, at_round, process_128_follows, process_256_follows,
}
use chunk_scaled_dot_kkt_asc.Cube.Handshake as AicSide
use chunk_scaled_dot_kkt_asc.Pipeline.{
  Side, System, run_cube_stage, run_vector_stage, waiting_side, start, Reach, begin, later,
}
use chunk_scaled_dot_kkt_asc.Pipeline.Invariant.{
  run_on-reverse_onto, follow-none, SideOk, AicOk, Ok,
}
use chunk_scaled_dot_kkt_asc.Pipeline.Preserved.{Step-Ok}

module _ (k_mode : ℕ) (til : TilingData) (offsets : ℕ → ℕ) (group : ℕ) (ok : IsLaunch til)
    (lt : group < til.block_dim) (few : task_count til group ≤ 2 ^ 31) where
  lane_follows :
      (aiv : ℕ)
      → aiv / aivs_per_aic ≡ group
      → Handshake.follow group (task_count til group) (run_vector_stage til offsets aiv)
        ≡ some (before_round (task_count til group) (task_count til group))
  unfolding run_vector_stage
  lane_follows aiv e =
      subst
        (λ g.
          Handshake.follow g (task_count til g) (run_vector_stage til offsets aiv)
          ≡ some (before_round (task_count til g) (task_count til g)))
        e
        (process_follows til offsets aivs_per_aic aiv ok (subst (λ g. g < til.block_dim) (sym e) lt)
          (subst (λ g. task_count til g ≤ 2 ^ 31) (sym e) few))

  start_side-Ok :
      (aiv : ℕ)
      → aiv / aivs_per_aic ≡ group
      → SideOk group
          (task_count til group)
          (at_round 0)
          (waiting_side (run_vector_stage til offsets aiv))
          (before_round (task_count til group) 0)
  unfolding Handshake.follow
  start_side-Ok aiv e = record {
    at = refl;
    rest =
        run_on-reverse_onto group (task_count til group) (run_vector_stage til offsets aiv) []
        ∙ lane_follows aiv e;
    waits_le = omega arith;
    frees_le = omega arith;
    frees_count = omega arith;
    reading = λ h. absurd (ground arith);
    loaded_is = refl;
    cleared_is = refl;
    ready0 = refl;
    ready1 = refl;
    free0 = omega arith;
    free1 = omega arith;
  }

  cube_follows :
      AicSide.follow group
        (task_count til group)
        (run_cube_stage k_mode til offsets group)
        (some (at_round 0))
      ≡ some (at_round (task_count til group))
  unfolding run_cube_stage
  cube_follows = elim (Bool-cases (k_mode == 0)) [
    | inl k128 ↦ rw k128 (process_128_follows til offsets group few)
    | inr k256 ↦ rw k256 (process_256_follows til offsets group few)
  ]

  start-Ok : Ok group (task_count til group) (start k_mode til offsets group)
  unfolding start
  start-Ok = record {
    aic_at = at_round 0;
    lane0 = before_round (task_count til group) 0;
    lane1 = before_round (task_count til group) 0;
    aic_ok = record {
      at = refl;
      rest = cube_follows;
      round_le = omega arith;
      waited_late = λ h. absurd (ground arith);
      waited_before = λ h. absurd (ground arith);
    };
    side0_ok = start_side-Ok (group * aivs_per_aic) (omega arith);
    side1_ok = start_side-Ok (group * aivs_per_aic + 1) (omega arith);
  }

  pub reach-Ok : (s : System) → Reach k_mode til offsets group s → Ok group (task_count til group) s
  reach-Ok s begin = start-Ok
  reach-Ok s (later {s = r} reach step) =
      Step-Ok group (task_count til group) r s step (reach-Ok r reach)

-- Whether a lane that has given some commands has a read in flight of the slot that begins at
-- `offset`; after a breach of the protocol it may.
abbrev pub reads : (group : ℕ) → Option Lane → (offset : ℕ) → Bool
reads group none offset = true
reads group (some l) offset = l.loading && slot_offset group (slot_of (l.waits - 1)) == offset

side_apart :
    (group count : ℕ) (a : Aic) (s : Side) (l : Lane) (offset : ℕ) (past cs : List Cube.Command)
    → SideOk group count a s l
    → AicOk group count past (Cube.fixpipe offset ∷ cs) a
    → reads group (Handshake.follow group count s.past) offset ≡ false
unfolding ready_flag_for_slot free_flag_for_slot
side_apart group count a s l offset past cs side aic =
    rw side.at (ground (arith, aic.rest, follow-none group count cs))

-- In every reachable state of a MIX group with at most 2^31 tasks in a launch: when the AIC's next
-- command writes a workspace slot, neither AIV has a read of that slot in flight.
pub no_overlap :
    (k_mode : ℕ) (til : TilingData) (offsets : ℕ → ℕ) (group : ℕ) (s : System) (offset : ℕ)
    (cs : List Cube.Command)
    → IsLaunch til
    → group < til.block_dim
    → task_count til group ≤ 2 ^ 31
    → Reach k_mode til offsets group s
    → s.aic ≡ Cube.fixpipe offset ∷ cs
    → (reads group (Handshake.follow group (task_count til group) s.side0.past) offset ≡ false)
      × (reads group (Handshake.follow group (task_count til group) s.side1.past) offset ≡ false)
no_overlap k_mode til offsets group s offset cs launch lt few reach e =
    let ok = reach-Ok k_mode til offsets group launch lt few s reach in
    let count = task_count til group in
    let aic = subst (λ p. AicOk group count s.aic_past p ok.aic_at) e ok.aic_ok in
    (
      side_apart group count ok.aic_at s.side0 ok.lane0 offset s.aic_past cs ok.side0_ok aic,
      side_apart group count ok.aic_at s.side1 ok.lane1 offset s.aic_past cs ok.side1_ok aic,
    )

side_current :
    (group count : ℕ) (a b : Aic) (s : Side) (l m : Lane)
    → SideOk group count a s l
    → (a.waited ≡ true → a.round < count)
    → some a ≡ some b
    → Handshake.follow group count s.past ≡ some m
    → m.loading ≡ true
    → (m.waits ≤ b.round) × (b.round ≤ m.waits + 1) × ((b.round ≤ m.waits) ⊎ (b.waited ≡ false))
unfolding ready_flag_for_slot free_flag_for_slot
side_current group count a b s l m side late same at loading =
    let lane : some l ≡ some m = sym side.at ∙ at in
    let frees : m.frees < m.waits = ground (arith, side.reading) in
    (
      ground (arith, side.ready0, side.ready1),
      ground (arith, side.free0, side.free1),
      ground (arith, side.free0, side.free1),
    )

-- In every reachable state of a MIX group with at most 2^31 tasks in a launch, while an AIV has a
-- read of the tile of a round in flight, the AIC has announced that round with READY and has not
-- yet begun to write the slot for the round two later: it has not passed that round's wait for
-- FREE. (`waits` counts the rounds that the AIV has begun, `round` those that the AIC has
-- announced.)
pub reads_current :
    (k_mode : ℕ) (til : TilingData) (offsets : ℕ → ℕ) (group : ℕ) (s : System) (a : Aic) (l : Lane)
    → IsLaunch til
    → group < til.block_dim
    → task_count til group ≤ 2 ^ 31
    → Reach k_mode til offsets group s
    → AicSide.state_after group (task_count til group) s.aic_past ≡ some a
    → (Handshake.follow group (task_count til group) s.side0.past ≡ some l)
      ⊎ (Handshake.follow group (task_count til group) s.side1.past ≡ some l)
    → l.loading ≡ true
    → (l.waits ≤ a.round) × (a.round ≤ l.waits + 1) × ((a.round ≤ l.waits) ⊎ (a.waited ≡ false))
reads_current k_mode til offsets group s a l launch lt few reach at (inl at0) loading =
    let ok = reach-Ok k_mode til offsets group launch lt few s reach in
    side_current group (task_count til group) ok.aic_at a s.side0 ok.lane0 l ok.side0_ok
      ok.aic_ok.waited_before (sym ok.aic_ok.at ∙ at) at0 loading
reads_current k_mode til offsets group s a l launch lt few reach at (inr at1) loading =
    let ok = reach-Ok k_mode til offsets group launch lt few s reach in
    side_current group (task_count til group) ok.aic_at a s.side1 ok.lane1 l ok.side1_ok
      ok.aic_ok.waited_before (sym ok.aic_ok.at ∙ at) at1 loading
