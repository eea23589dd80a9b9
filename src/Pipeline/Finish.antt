-- ===== src/Pipeline/Finish.antt =====
-- The flags between the cores at the end of a run.
use chunk_scaled_dot_kkt_asc.Prelude.{ℕ, ◌^◌, ◌≤◌, ◌<◌, ◌≡◌, sym, ◌∙◌, ap, subst, some, [], arith}
use chunk_scaled_dot_kkt_asc.Device.{TilingData, IsLaunch, ready_flag_for_slot, free_flag_for_slot}
use chunk_scaled_dot_kkt_asc.Schedule.{task_count}
use chunk_scaled_dot_kkt_asc.Vector.Handshake.{Lane, before_round}
use chunk_scaled_dot_kkt_asc.Cube.Handshake.{Aic, at_round}
use chunk_scaled_dot_kkt_asc.Pipeline.{Side, System, Reach}
use chunk_scaled_dot_kkt_asc.Pipeline.Invariant.{run_on, SideOk, AicOk}
use chunk_scaled_dot_kkt_asc.Pipeline.Safety.{reach-Ok}
use chunk_scaled_dot_kkt_asc.Pipeline.Progress.{IsFinished}

-- The counters of the four flags between the AIC and a lane are clear.
abbrev pub IsClear : Side → Type 0
IsClear s =
    (s.ready (ready_flag_for_slot 0) ≡ 0)
    × (s.ready (ready_flag_for_slot 1) ≡ 0)
    × (s.free (free_flag_for_slot 0) ≡ 0)
    × (s.free (free_flag_for_slot 1) ≡ 0)

side-IsClear :
    (group count : ℕ) (a : Aic) (s : Side) (l : Lane)
    → SideOk group count a s l
    → a ≡ at_round count
    → s.program ≡ []
    → IsClear s
side-IsClear group count a s l ok e done =
    let ends : some l ≡ some (before_round count count) =
      ap (λ p. run_on group count p (some l)) (sym done) ∙ ok.rest in
    (
      ground (arith, ok.ready0),
      ground (arith, ok.ready1),
      ground (arith, ok.free0),
      ground (arith, ok.free1),
    )

-- When a run of a MIX group with at most 2^31 tasks in a launch has ended, every READY and FREE
-- counter is clear again, as it was at the start.
pub finished_clears :
    (k_mode : ℕ) (til : TilingData) (offsets : ℕ → ℕ) (group : ℕ) (s : System)
    → IsLaunch til
    → group < til.block_dim
    → task_count til group ≤ 2 ^ 31
    → Reach k_mode til offsets group s
    → IsFinished s
    → IsClear s.side0 × IsClear s.side1
finished_clears k_mode til offsets group s launch lt few reach done =
    let count = task_count til group in
    let ok = reach-Ok k_mode til offsets group launch lt few s reach in
    let aic : some ok.aic_at ≡ some (at_round count) =
      (subst (λ p. AicOk group count s.aic_past p ok.aic_at) done.aic ok.aic_ok).rest in
    let here : ok.aic_at ≡ at_round count = ground arith in
    (
      side-IsClear group count ok.aic_at s.side0 ok.lane0 ok.side0_ok here done.side0,
      side-IsClear group count ok.aic_at s.side1 ok.lane1 ok.side1_ok here done.side1,
    )
