-- ===== src/Pipeline/AicFlags.antt =====
-- The flags between the pipelines of the AIC never block it: what is left of its program finds every
-- flag that it waits for set.
use chunk_scaled_dot_kkt_asc.Prelude.{
  ◌≡◌, refl, sym, ◌∙◌, ap, Bool, true, false, Option, none, some, List, [], ◌∷◌, arith,
}
use chunk_scaled_dot_kkt_asc.Cube
use chunk_scaled_dot_kkt_asc.Cube.Events.{State, at_end, allows, effect, run, is_set}
use chunk_scaled_dot_kkt_asc.Pipeline.{System, aic_next}

pub record FlagsOk (s : System) : Type 0 where
  pub is_k128 : Bool
  pub state : State
  pub flags_is : s.flags ≡ state.flags
  pub rest : run is_k128 s.aic state ≡ some at_end

allowed :
    (b : Bool) (r : Option State)
    → elim b [ true ↦ r | false ↦ none ] ≡ some at_end
    → (b ≡ true) × (r ≡ some at_end)
allowed true r e = (refl, e)
allowed false r e = absurd (ground arith)

-- The next command is allowed, and so is what follows it.
pub flags_next :
    (s : System) (c : Cube.Command) (cs : List Cube.Command) (ok : FlagsOk s)
    → s.aic ≡ c ∷ cs
    → (allows ok.is_k128 c ok.state ≡ true)
      × (run ok.is_k128 cs (effect ok.is_k128 c ok.state) ≡ some at_end)
flags_next s c cs ok e =
    allowed (allows ok.is_k128 c ok.state) _ (ap (λ p. run ok.is_k128 p ok.state) (sym e) ∙ ok.rest)

pub wait_flag-is_set :
    (s : System) (e : Cube.Event) (cs : List Cube.Command)
    → FlagsOk s
    → s.aic ≡ Cube.wait_flag e ∷ cs
    → is_set e s.flags ≡ true
wait_flag-is_set s e cs ok h =
    ap (is_set e) ok.flags_is ∙ (flags_next s (Cube.wait_flag e) cs ok h).0

pub aic_next-FlagsOk :
    (s t : System) (program : List Cube.Command)
    → FlagsOk s
    → s.aic ≡ program
    → aic_next s program ≡ some t
    → FlagsOk t
aic_next-FlagsOk s t [] ok e next = absurd (ground arith)
aic_next-FlagsOk s t (c ∷ cs) ok e next = record {
  is_k128 = ok.is_k128;
  state = effect ok.is_k128 c ok.state;
  flags_is = ground (arith, ok.flags_is);
  rest = ground (arith, flags_next s c cs ok e);
}
