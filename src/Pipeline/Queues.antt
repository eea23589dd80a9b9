-- ===== src/Pipeline/Queues.antt =====
-- The queues and MTE3_S flags of a lane never block it: they allow what is left of its program.
use chunk_scaled_dot_kkt_asc.Prelude.{
  ◌≡◌, refl, sym, ◌∙◌, ap, Option, none, some, List, [], ◌∷◌, arith,
}
use chunk_scaled_dot_kkt_asc.Vector
use chunk_scaled_dot_kkt_asc.Vector.Contract.{Slots, empty_slots, replay}
use chunk_scaled_dot_kkt_asc.Vector.Contract
use chunk_scaled_dot_kkt_asc.Vector.Prefetch.{Pairs, no_pairs, replay_pairs}
use chunk_scaled_dot_kkt_asc.Vector.Prefetch
use chunk_scaled_dot_kkt_asc.Pipeline.{Side, side_next, queue_next, reverse_onto}

-- The output queue, and the queues of gates and betas, after a program, in order.
abbrev pub run_slots : List Vector.Command → Option Slots → Option Slots
run_slots [] m = m
run_slots (c ∷ cs) m = run_slots cs (Contract.then_step m c)

abbrev pub run_pairs : List Vector.Command → Option Pairs → Option Pairs
run_pairs [] p = p
run_pairs (c ∷ cs) p = run_pairs cs (Prefetch.then_step p c)

pub record QueuesOk (s : Side) : Type 0 where
  pub slots_rest : run_slots s.program (some s.slots) ≡ some empty_slots
  pub pairs_rest : run_pairs s.program (some s.pairs) ≡ some no_pairs

run_slots-none : (cs : List Vector.Command) → run_slots cs none ≡ none
run_slots-none [] = refl
run_slots-none (c ∷ cs) = run_slots-none cs

run_pairs-none : (cs : List Vector.Command) → run_pairs cs none ≡ none
run_pairs-none [] = refl
run_pairs-none (c ∷ cs) = run_pairs-none cs

pub run_slots-reverse_onto :
    (trace program : List Vector.Command)
    → run_slots (reverse_onto trace program) (some empty_slots) ≡ run_slots program (replay trace)
unfolding replay
run_slots-reverse_onto [] program = refl
run_slots-reverse_onto (c ∷ trace) program = run_slots-reverse_onto trace (c ∷ program)

pub run_pairs-reverse_onto :
    (trace program : List Vector.Command)
    → run_pairs (reverse_onto trace program) (some no_pairs)
      ≡ run_pairs program (replay_pairs trace)
unfolding replay_pairs
run_pairs-reverse_onto [] program = refl
run_pairs-reverse_onto (c ∷ trace) program = run_pairs-reverse_onto trace (c ∷ program)

-- The queues allow the next command.
slots_go :
    (cs : List Vector.Command) (r : Option Slots)
    → run_slots cs r ≡ some empty_slots
    → (m : Slots) × (r ≡ some m)
slots_go cs (some m) e = (m, refl)
slots_go cs none e = absurd (ground (arith, run_slots-none cs))

pairs_go :
    (cs : List Vector.Command) (r : Option Pairs)
    → run_pairs cs r ≡ some no_pairs
    → (p : Pairs) × (r ≡ some p)
pairs_go cs (some p) e = (p, refl)
pairs_go cs none e = absurd (ground (arith, run_pairs-none cs))

-- Where they do, the lane goes on.
pub record Goes (c : Vector.Command) (s : Side) : Type 0 where
  pub slots_then : Slots
  pub pairs_then : Pairs
  pub slots_step : Contract.step c s.slots ≡ some slots_then
  pub pairs_step : Prefetch.step c s.pairs ≡ some pairs_then

pub queues-Goes :
    (s : Side) (c : Vector.Command) (cs : List Vector.Command)
    → QueuesOk s
    → s.program ≡ c ∷ cs
    → Goes c s
queues-Goes s c cs ok e =
    let slots : run_slots cs (Contract.step c s.slots) ≡ some empty_slots =
      ap (λ p. run_slots p (some s.slots)) (sym e) ∙ ok.slots_rest in
    let pairs : run_pairs cs (Prefetch.step c s.pairs) ≡ some no_pairs =
      ap (λ p. run_pairs p (some s.pairs)) (sym e) ∙ ok.pairs_rest in
    let (m, m_is) = slots_go cs _ slots in
    let (p, p_is) = pairs_go cs _ pairs in
    record { slots_then = m; pairs_then = p; slots_step = m_is; pairs_step = p_is }

-- A step that the queues allow changes them alone.
pub queue_next-some :
    (m : Option Slots) (p : Option Pairs) (s t : Side)
    → queue_next m p s ≡ some t
    → record s { slots = t.slots; pairs = t.pairs } ≡ t
queue_next-some none p s t e = absurd (ground arith)
queue_next-some (some m) none s t e = absurd (ground arith)
queue_next-some (some m) (some p) s t e = ground arith

after :
    (c : Vector.Command) (cs : List Vector.Command) (m : Option Slots) (p : Option Pairs)
    (s t : Side)
    → run_slots cs m ≡ some empty_slots
    → run_pairs cs p ≡ some no_pairs
    → s.program ≡ cs
    → queue_next m p s ≡ some t
    → QueuesOk t
after c cs none p s t slots pairs e next = absurd (ground arith)
after c cs (some m) none s t slots pairs e next = absurd (ground arith)
after c cs (some m) (some p) s t slots pairs e next = record {
  slots_rest = ground arith;
  pairs_rest = ground arith;
}

pub side_next-QueuesOk :
    (s t : Side) (program : List Vector.Command)
    → QueuesOk s
    → s.program ≡ program
    → side_next s program ≡ some t
    → QueuesOk t
side_next-QueuesOk s t [] ok e next = absurd (ground arith)
side_next-QueuesOk s t (c ∷ cs) ok e next =
    let slots : run_slots cs (Contract.step c s.slots) ≡ some empty_slots =
      ap (λ p. run_slots p (some s.slots)) (sym e) ∙ ok.slots_rest in
    let pairs : run_pairs cs (Prefetch.step c s.pairs) ≡ some no_pairs =
      ap (λ p. run_pairs p (some s.pairs)) (sym e) ∙ ok.pairs_rest in
    ground (
      arith,
      after c cs (Contract.step c s.slots) (Prefetch.step c s.pairs)
          (record s { program = cs; past = c ∷ s.past }) t slots pairs refl,
    )
