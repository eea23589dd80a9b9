-- ===== src/Pipeline/Invariant.antt =====
-- What holds of a MIX group between two commands: where each core stands in its protocol, and what
-- the counters of the flags then are.
use chunk_scaled_dot_kkt_asc.Prelude.{
  ℕ, ◌+◌, ◌-◌, ◌/◌, ◌≤◌, ◌<◌, ◌≡◌, refl, true, Option, none, some, List, [], ◌∷◌, if◌then◌else◌,
}
use chunk_scaled_dot_kkt_asc.Device.{slot_count, ready_flag_for_slot, free_flag_for_slot}
use chunk_scaled_dot_kkt_asc.Vector
use chunk_scaled_dot_kkt_asc.Vector.Handshake
use chunk_scaled_dot_kkt_asc.Vector.Handshake.{Lane, before_round}
use chunk_scaled_dot_kkt_asc.Cube
use chunk_scaled_dot_kkt_asc.Cube.Handshake.{Aic, at_round}
use chunk_scaled_dot_kkt_asc.Cube.Handshake as AicSide
use chunk_scaled_dot_kkt_asc.Pipeline.{Side, System, reverse_onto}

-- How many of the first `n` rounds use slot 0, and slot 1.
abbrev pub even_rounds : ℕ → ℕ
even_rounds n = (n + 1) / 2

abbrev pub odd_rounds : ℕ → ℕ
odd_rounds n = n / 2

-- The rounds whose slot the AIC has got back.
abbrev pub acquired : Aic → ℕ
acquired a = a.round - slot_count + (if a.waited then 1 else 0)

module _ (group count : ℕ) where
  -- The lane after a program, in order.
  abbrev pub run_on : List Vector.Command → Option Lane → Option Lane
  run_on [] l = l
  run_on (c ∷ cs) l = run_on cs (Handshake.then_move group count l c)

  -- A lane whose program completes the protocol, against an AIC at a given point.
  pub record SideOk (a : Aic) (s : Side) (l : Lane) : Type 0 where
    pub at : Handshake.follow group count s.past ≡ some l
    pub rest : run_on s.program (some l) ≡ some (before_round count count)
    pub waits_le : l.waits ≤ count
    pub frees_le : l.frees ≤ l.waits
    pub frees_count : l.frees ≤ count - slot_count
    pub reading : l.loading ≡ true → l.frees < l.waits
    pub loaded_is : s.loaded ≡ l.signalled
    pub cleared_is : s.cleared ≡ l.cleared
    pub ready0 : s.ready (ready_flag_for_slot 0) + even_rounds l.waits ≡ even_rounds a.round
    pub ready1 : s.ready (ready_flag_for_slot 1) + odd_rounds l.waits ≡ odd_rounds a.round
    pub free0 : s.free (free_flag_for_slot 0) + even_rounds (acquired a) ≡ even_rounds l.frees
    pub free1 : s.free (free_flag_for_slot 1) + odd_rounds (acquired a) ≡ odd_rounds l.frees

  pub record AicOk (past cs : List Cube.Command) (a : Aic) : Type 0 where
    pub at : AicSide.state_after group count past ≡ some a
    pub rest : AicSide.follow group count cs (some a) ≡ some (at_round count)
    pub round_le : a.round ≤ count
    pub waited_late : a.waited ≡ true → slot_count ≤ a.round
    pub waited_before : a.waited ≡ true → a.round < count

  pub record Ok (s : System) : Type 0 where
    pub aic_at : Aic
    pub lane0 : Lane
    pub lane1 : Lane
    pub aic_ok : AicOk s.aic_past s.aic aic_at
    pub side0_ok : SideOk aic_at s.side0 lane0
    pub side1_ok : SideOk aic_at s.side1 lane1

  -- Nothing follows a breach.
  pub run_on-none : (cs : List Vector.Command) → run_on cs none ≡ none
  run_on-none [] = refl
  run_on-none (c ∷ cs) = run_on-none cs

  pub follow-none : (cs : List Cube.Command) → AicSide.follow group count cs none ≡ none
  follow-none [] = refl
  follow-none (c ∷ cs) = follow-none cs

  -- A reversed trace, run, ends where following the trace does.
  pub run_on-reverse_onto :
      (trace program : List Vector.Command)
      → run_on (reverse_onto trace program) (some (before_round count 0))
        ≡ run_on program (Handshake.follow group count trace)
  unfolding Handshake.follow
  run_on-reverse_onto [] program = refl
  run_on-reverse_onto (c ∷ trace) program = run_on-reverse_onto trace (c ∷ program)
