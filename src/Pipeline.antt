-- ===== src/Pipeline.antt =====
-- A MIX group at work: one AIC and its two AIVs run their commands in any order that their flags and
-- queues allow. The entry of op_kernel/chunk_scaled_dot_kkt.cpp gives each core its program.
-- A flag of `CrossCoreSetFlag` in mode 2 is taken as the framework documents it: a counter of a
-- pair of cores, raised by a set, which on the AIC goes to both AIVs, and lowered by a wait, which
-- on the AIC needs the flag of both AIVs. A flag inside a core is set or clear, and a wait for it
-- needs it set; a command that the queues of a lane do not allow is not given. Commands of one core
-- take effect in their order.
pub mod Invariant
pub mod Sides
pub mod Queues
pub mod AicFlags
pub mod Unblocked
pub mod Preserved
pub mod Safety
pub mod Progress
pub mod Finish
pub mod Tests
use chunk_scaled_dot_kkt_asc.Prelude.{
  ℕ, ◌+◌, ◌-◌, ◌*◌, ◌≡◌, Bool, true, false, ◌==◌, if◌then◌else◌, Option, none, some, List, [], ◌∷◌,
  map,
}
use chunk_scaled_dot_kkt_asc.Device.{TilingData, aivs_per_aic}
use chunk_scaled_dot_kkt_asc.Vector.{fresh}
use chunk_scaled_dot_kkt_asc.Vector
use chunk_scaled_dot_kkt_asc.Vector.Contract.{Slots, empty_slots}
use chunk_scaled_dot_kkt_asc.Vector.Contract
use chunk_scaled_dot_kkt_asc.Vector.Prefetch.{Pairs, no_pairs}
use chunk_scaled_dot_kkt_asc.Vector.Prefetch
use chunk_scaled_dot_kkt_asc.Vector.Walk
use chunk_scaled_dot_kkt_asc.Cube
use chunk_scaled_dot_kkt_asc.Cube.Events.{Flags, no_flags, is_set, put}
use chunk_scaled_dot_kkt_asc.Cube.K256
use chunk_scaled_dot_kkt_asc.Cube.K128

-- `RunCubeStage`: the commands of the AIC for a template mode, 0 for K = 128.
unfoldable pub run_cube_stage :
    (k_mode : ℕ) → TilingData → (ℕ → ℕ) → (group : ℕ) → List Cube.Command
run_cube_stage k_mode til offsets group =
    if k_mode == 0 then K128.process til offsets group else K256.process til offsets group

-- `RunVectorStage`: the commands of an AIV, newest first; the task ratio is that of MIX 1:2.
unfoldable pub run_vector_stage : TilingData → (ℕ → ℕ) → (aiv : ℕ) → List Vector.Command
run_vector_stage til offsets aiv = (Walk.process til offsets aivs_per_aic aiv fresh).1.trace

-- An AIV: what it has still to do, what it has done, newest first, the counters of the flags
-- between the AIC and it, whether its own flags of the workspace reads are set, and its queues.
pub record Side : Type 0 where
  pub program : List Vector.Command
  pub past : List Vector.Command
  pub ready : ℕ → ℕ  -- set by the AIC
  pub free : ℕ → ℕ  -- set by the AIV
  pub loaded : Bool  -- MTE2_V
  pub cleared : Bool  -- V_MTE2
  pub slots : Slots  -- the output queue and MTE3_S
  pub pairs : Pairs  -- the queues of gates and betas

-- The AIC's commands still to be given and those given, newest first, its flags, and the two AIVs.
pub record System : Type 0 where
  pub aic : List Cube.Command
  pub aic_past : List Cube.Command
  pub flags : Flags  -- between the pipelines of the AIC
  pub side0 : Side
  pub side1 : Side

abbrev pub raise : ℕ → (ℕ → ℕ) → ℕ → ℕ
raise flag counter g = if g == flag then counter g + 1 else counter g

abbrev pub lower : ℕ → (ℕ → ℕ) → ℕ → ℕ
lower flag counter g = if g == flag then counter g - 1 else counter g

-- `none` where the queues do not allow the command yet.
abbrev pub queue_next : Option Slots → Option Pairs → Side → Option Side
queue_next none p s = none
queue_next (some m) none s = none
queue_next (some m) (some p) s = some (record s { slots = m; pairs = p })

-- `none` where the program is at its end or blocked.
abbrev pub side_next : Side → List Vector.Command → Option Side
side_next s [] = none
side_next s (Vector.cross_wait flag ∷ cs) =
    if s.ready flag == 0
    then none
    else some (record s {
      program = cs;
      past = Vector.cross_wait flag ∷ s.past;
      ready = lower flag s.ready;
    })
side_next s (Vector.cross_set flag ∷ cs) =
    some
      (record s { program = cs; past = Vector.cross_set flag ∷ s.past; free = raise flag s.free })
side_next s (Vector.set_event Vector.mte2_v ∷ cs) =
    some (record s { program = cs; past = Vector.set_event Vector.mte2_v ∷ s.past; loaded = true })
side_next s (Vector.wait_event Vector.mte2_v ∷ cs) =
    if s.loaded
    then some
        (record s { program = cs; past = Vector.wait_event Vector.mte2_v ∷ s.past; loaded = false })
    else none
side_next s (Vector.set_event Vector.v_mte2 ∷ cs) =
    some (record s { program = cs; past = Vector.set_event Vector.v_mte2 ∷ s.past; cleared = true })
side_next s (Vector.wait_event Vector.v_mte2 ∷ cs) =
    if s.cleared
    then some (record s {
      program = cs;
      past = Vector.wait_event Vector.v_mte2 ∷ s.past;
      cleared = false;
    })
    else none
side_next s (c ∷ cs) =
    queue_next (Contract.step c s.slots) (Prefetch.step c s.pairs)
      (record s { program = cs; past = c ∷ s.past })

abbrev pub aic_next : System → List Cube.Command → Option System
aic_next s [] = none
aic_next s (Cube.cross_wait flag ∷ cs) =
    if s.side0.free flag == 0
    then none
    else if s.side1.free flag == 0
    then none
    else some (record s {
      aic = cs;
      aic_past = Cube.cross_wait flag ∷ s.aic_past;
      side0 = record (s.side0) { free = lower flag s.side0.free };
      side1 = record (s.side1) { free = lower flag s.side1.free };
    })
aic_next s (Cube.cross_set flag ∷ cs) = some (record s {
  aic = cs;
  aic_past = Cube.cross_set flag ∷ s.aic_past;
  side0 = record (s.side0) { ready = raise flag s.side0.ready };
  side1 = record (s.side1) { ready = raise flag s.side1.ready };
})
aic_next s (Cube.set_flag e ∷ cs) =
    some
      (record s { aic = cs; aic_past = Cube.set_flag e ∷ s.aic_past; flags = put e true s.flags })
aic_next s (Cube.wait_flag e ∷ cs) =
    if is_set e s.flags
    then some (record s {
      aic = cs;
      aic_past = Cube.wait_flag e ∷ s.aic_past;
      flags = put e false s.flags;
    })
    else none
aic_next s (c ∷ cs) = some (record s { aic = cs; aic_past = c ∷ s.aic_past })

pub data Step (s : System) : System → Type 0 where
  by_aic : {t : System} → aic_next s s.aic ≡ some t → Step s t
  by_side0 :
      {t : Side} → side_next s.side0 s.side0.program ≡ some t → Step s (record s { side0 = t })
  by_side1 :
      {t : Side} → side_next s.side1 s.side1.program ≡ some t → Step s (record s { side1 = t })

abbrev pub reverse_onto : List Vector.Command → List Vector.Command → List Vector.Command
reverse_onto [] past = past
reverse_onto (c ∷ cs) past = reverse_onto cs (c ∷ past)

-- A core before its first command, all counters clear.
abbrev pub waiting_side : List Vector.Command → Side
waiting_side trace = record {
  program = reverse_onto trace [];
  past = [];
  ready = λ flag. 0;
  free = λ flag. 0;
  loaded = false;
  cleared = false;
  slots = empty_slots;
  pairs = no_pairs;
}

module _ (k_mode : ℕ) (til : TilingData) (offsets : ℕ → ℕ) (group : ℕ) where
  unfoldable pub start : System
  unfolding run_cube_stage run_vector_stage
  start = record {
    aic = run_cube_stage k_mode til offsets group;
    aic_past = [];
    flags = no_flags;
    side0 = waiting_side (run_vector_stage til offsets (group * aivs_per_aic));
    side1 = waiting_side (run_vector_stage til offsets (group * aivs_per_aic + 1));
  }

  pub data Reach : System → Type 0 where
    begin : Reach start
    later : {s t : System} → Reach s → Step s t → Reach t
