-- ===== src/Pipeline/Progress.antt =====
-- The runs of a MIX group end, and only with all its work done.
use chunk_scaled_dot_kkt_asc.Prelude.{
  ℕ, zero, suc, ◌+◌, ◌-◌, ◌^◌, ◌≤◌, ◌<◌, ◌≡◌, refl, sym, ◌∙◌, ap, ◌⊎◌, inl, inr, min, Option, none,
  some, List, [], ◌∷◌, length, arith,
}
use chunk_scaled_dot_kkt_asc.Device.{
  TilingData, IsLaunch, slot_count, ready_flag_for_slot, free_flag_for_slot,
}
use chunk_scaled_dot_kkt_asc.Schedule.{task_count}
use chunk_scaled_dot_kkt_asc.Vector
use chunk_scaled_dot_kkt_asc.Vector.Handshake
use chunk_scaled_dot_kkt_asc.Vector.Handshake.{Lane, before_round}
use chunk_scaled_dot_kkt_asc.Cube
use chunk_scaled_dot_kkt_asc.Cube.Handshake.{Aic}
use chunk_scaled_dot_kkt_asc.Pipeline.{
  Side, System, side_next, aic_next, Step, by_aic, by_side0, by_side1, Reach, later,
}
use chunk_scaled_dot_kkt_asc.Pipeline.Invariant.{
  run_on, run_on-none, follow-none, SideOk, AicOk, Ok,
}
use chunk_scaled_dot_kkt_asc.Pipeline.Safety.{reach-Ok}
use chunk_scaled_dot_kkt_asc.Pipeline.Queues.{QueuesOk, queues-Goes, queue_next-some}
use chunk_scaled_dot_kkt_asc.Pipeline.AicFlags.{FlagsOk, wait_flag-is_set}
use chunk_scaled_dot_kkt_asc.Pipeline.Unblocked.{Unblocked, reach-Unblocked}
use chunk_scaled_dot_kkt_asc.Vector.Contract
use chunk_scaled_dot_kkt_asc.Vector.Prefetch

pub record IsFinished (s : System) : Type 0 where
  pub aic : s.aic ≡ []
  pub side0 : s.side0.program ≡ []
  pub side1 : s.side1.program ≡ []

-- The commands that are still to be given.
abbrev pub left : System → ℕ
left s = length s.aic + length s.side0.program + length s.side1.program

module _ (group count : ℕ) (a : Aic) where
  -- A lane that cannot go on has freed all that it can, and is at its end or ahead of the AIC.
  abbrev SideRests : Side → Lane → Type 0
  SideRests s l =
      (l.frees ≡ min l.waits (count - slot_count))
      × (((s.program ≡ []) × (l.waits ≡ count)) ⊎ ((l.waits ≡ a.round) × (l.waits < count)))

  side_rests :
      (s : Side) (l : Lane) (program : List Vector.Command)
      → SideOk group count a s l
      → QueuesOk s
      → s.program ≡ program
      → side_next s program ≡ none
      → SideRests s l
  unfolding ready_flag_for_slot free_flag_for_slot
  side_rests s l [] ok queues e stuck =
      let ends : some l ≡ some (before_round count count) =
        ap (λ p. run_on group count p (some l)) (sym e) ∙ ok.rest in
      (ground arith, inl (e, ground arith))
  side_rests s l (Vector.cross_wait flag ∷ cs) ok queues e stuck =
      let runs : run_on group count cs (Handshake.move group count (Vector.cross_wait flag) l)
          ≡ some (before_round count count) =
        ap (λ p. run_on group count p (some l)) (sym e) ∙ ok.rest in
      (
        ground (arith, run_on-none group count cs),
        inr (
          ground (arith, run_on-none group count cs),
          ground (arith, run_on-none group count cs),
        ),
      )
  side_rests s l (Vector.wait_event ev ∷ cs) ok queues e stuck =
      let runs : run_on group count cs (Handshake.move group count (Vector.wait_event ev) l)
          ≡ some (before_round count count) =
        ap (λ p. run_on group count p (some l)) (sym e) ∙ ok.rest in
      absurd (ground (arith, run_on-none group count cs, ok.loaded_is, ok.cleared_is))
  side_rests s l (c ∷ cs) ok queues e stuck =
      let goes = queues-Goes s c cs queues e in
      absurd (ground (arith, goes.slots_step, goes.pairs_step))

  -- An AIC that cannot go on is at its end, or misses the FREE of a lane.
  abbrev AicRests : System → Lane → Lane → Type 0
  AicRests s l0 l1 =
      ((s.aic ≡ []) × (a.round ≡ count))
      ⊎ ((a.round < count)
          × (slot_count ≤ a.round)
          × ((l0.frees + slot_count ≡ a.round) ⊎ (l1.frees + slot_count ≡ a.round)))

  aic_rests :
      (s : System) (l0 l1 : Lane) (program : List Cube.Command)
      → AicOk group count s.aic_past program a
      → SideOk group count a s.side0 l0
      → SideOk group count a s.side1 l1
      → FlagsOk s
      → s.aic ≡ program
      → aic_next s program ≡ none
      → AicRests s l0 l1
  unfolding ready_flag_for_slot free_flag_for_slot
  aic_rests s l0 l1 [] ok ok0 ok1 flags e stuck = inl (e, ground (arith, ok.rest))
  aic_rests s l0 l1 (Cube.cross_wait flag ∷ cs) ok ok0 ok1 flags e stuck = inr (
    ground (arith, ok.rest, follow-none group count cs),
    ground (arith, ok.rest, follow-none group count cs),
    ground (arith, ok.rest, follow-none group count cs),
  )
  aic_rests s l0 l1 (Cube.wait_flag ev ∷ cs) ok ok0 ok1 flags e stuck =
      absurd (ground (arith, wait_flag-is_set s ev cs flags e))
  aic_rests s l0 l1 (c ∷ cs) ok ok0 ok1 flags e stuck = absurd (ground arith)

  -- They cannot all rest before the end.
  all_rest :
      (s : System) (l0 l1 : Lane)
      → SideRests s.side0 l0
      → SideRests s.side1 l1
      → AicRests s l0 l1
      → IsFinished s
  all_rest s l0 l1 r0 r1 r = record {
    aic = ground arith;
    side0 = ground arith;
    side1 = ground arith;
  }

next_cases : {A : Type 0} (o : Option A) → (o ≡ none) ⊎ ((x : A) × (o ≡ some x))
next_cases none = inl refl
next_cases (some x) = inr (x, refl)

progress :
    (group count : ℕ) (s : System)
    → Ok group count s
    → Unblocked s
    → IsFinished s ⊎ ((t : System) × Step s t)
progress group count s ok free = elim (next_cases (side_next s.side0 s.side0.program)) [
  | inr next ↦ inr (_, by_side0 next.1)
  | inl stuck0 ↦ elim (next_cases (side_next s.side1 s.side1.program)) [
    | inr next ↦ inr (_, by_side1 next.1)
    | inl stuck1 ↦ elim (next_cases (aic_next s s.aic)) [
      | inr next ↦ inr (_, by_aic next.1)
      | inl stuck ↦ inl (
          all_rest group count ok.aic_at s ok.lane0 ok.lane1
            (side_rests group count ok.aic_at s.side0 ok.lane0 s.side0.program ok.side0_ok
              free.queues0 refl stuck0)
            (side_rests group count ok.aic_at s.side1 ok.lane1 s.side1.program ok.side1_ok
              free.queues1 refl stuck1)
            (aic_rests group count ok.aic_at s ok.lane0 ok.lane1 s.aic ok.aic_ok ok.side0_ok
              ok.side1_ok free.flags_ok refl stuck))
    ]
  ]
]

side_shrinks :
    (s t : Side) (program : List Vector.Command)
    → s.program ≡ program
    → side_next s program ≡ some t
    → suc (length t.program) ≡ length s.program
side_shrinks s t [] e next = absurd (ground arith)
side_shrinks s t (c ∷ cs) e next = ground (
  arith,
  queue_next-some (Contract.step c s.slots) (Prefetch.step c s.pairs)
      (record s { program = cs; past = c ∷ s.past }) t,
)

aic_shrinks :
    (s t : System) (program : List Cube.Command)
    → s.aic ≡ program
    → aic_next s program ≡ some t
    → suc (left t) ≡ left s
aic_shrinks s t [] e next = absurd (ground arith)
aic_shrinks s t (c ∷ cs) e next = ground arith

Step-shrinks : (s t : System) → Step s t → suc (left t) ≡ left s
Step-shrinks s t (by_aic next) = aic_shrinks s t s.aic refl next
Step-shrinks s _ (by_side0 {t = side} next) =
    omega (arith, side_shrinks s.side0 side s.side0.program refl next)
Step-shrinks s _ (by_side1 {t = side} next) =
    omega (arith, side_shrinks s.side1 side s.side1.program refl next)

-- In every reachable state of a MIX group with at most 2^31 tasks in a launch, with valid and
-- malformed chunks alike, either all three cores have given all their commands, or some core can go
-- on; and every step leaves one command less. A core is blocked where it waits for a flag that is
-- not set, between the cores or inside one, and where a queue of a lane does not allow its command.
-- So no order of the steps deadlocks, and every run ends with all the work done.
pub group_completes :
    (k_mode : ℕ) (til : TilingData) (offsets : ℕ → ℕ) (group : ℕ) (s : System)
    → IsLaunch til
    → group < til.block_dim
    → task_count til group ≤ 2 ^ 31
    → Reach k_mode til offsets group s
    → (IsFinished s ⊎ ((t : System) × Step s t)) × ((t : System) → Step s t → suc (left t) ≡ left s)
group_completes k_mode til offsets group s launch lt few reach = (
  progress group (task_count til group) s (reach-Ok k_mode til offsets group launch lt few s reach)
      (reach-Unblocked k_mode til offsets group s reach),
  Step-shrinks s,
)

module _ (k_mode : ℕ) (til : TilingData) (offsets : ℕ → ℕ) (group : ℕ) (launch : IsLaunch til)
    (lt : group < til.block_dim) (few : task_count til group ≤ 2 ^ 31) where
  -- A run taken on to its end.
  run_out :
      (fuel : ℕ) (s : System)
      → left s ≤ fuel
      → Reach k_mode til offsets group s
      → (t : System) × Reach k_mode til offsets group t × IsFinished t
  run_out zero s le reach =
      elim (group_completes k_mode til offsets group s launch lt few reach).0 [
        | inl done ↦ (s, reach, done)
        | inr next ↦ absurd (omega (arith, Step-shrinks s next.0 next.1))
      ]
  run_out (suc fuel) s le reach =
      elim (group_completes k_mode til offsets group s launch lt few reach).0 [
        | inl done ↦ (s, reach, done)
        | inr next ↦
            run_out fuel next.0 (omega (arith, Step-shrinks s next.0 next.1)) (later reach next.1)
      ]

  pub some_end :
      (s : System)
      → Reach k_mode til offsets group s
      → (t : System) × Reach k_mode til offsets group t × IsFinished t
  some_end s reach = run_out (left s) s (omega arith) reach
