-- ===== src/Cube/Tests.antt =====
-- Runs of the cube stage on a concrete launch.
use chunk_scaled_dot_kkt_asc.Prelude.{◌*◌, ◌^◌, ◌-◌, refl, ◌≡◌, true, false, some, arith}
use chunk_scaled_dot_kkt_asc.Device.{is_late_round}
use chunk_scaled_dot_kkt_asc.Schedule.Tests.{local_launch, local_launch-IsLaunch, local_launch-few}
use chunk_scaled_dot_kkt_asc.Cube.K256
use chunk_scaled_dot_kkt_asc.Cube.K128
use chunk_scaled_dot_kkt_asc.Cube.Access.{AreInside}
use chunk_scaled_dot_kkt_asc.Cube.Bounds.{process_256-AreInside, process_128-AreInside}
use chunk_scaled_dot_kkt_asc.Schedule.{task_count}
use chunk_scaled_dot_kkt_asc.Cube.Handshake.{
  at_round, follow, process_256_follows, process_128_follows,
}
use chunk_scaled_dot_kkt_asc.Cube.Events.{
  run, at_start, at_end, process_256_drains, process_128_drains,
}

process_256_drains_example :
    run false (K256.process local_launch (λ i. 64 * i) 3) at_start ≡ some at_end
process_256_drains_example = process_256_drains local_launch (λ i. 64 * i) 3

process_128_drains_example :
    run true (K128.process local_launch (λ i. 64 * i) 3) at_start ≡ some at_end
process_128_drains_example = process_128_drains local_launch (λ i. 64 * i) 3

process_256_follows_example :
    follow 3
      (task_count local_launch 3)
      (K256.process local_launch (λ i. 64 * i) 3)
      (some (at_round 0))
    ≡ some (at_round (task_count local_launch 3))
process_256_follows_example = process_256_follows local_launch (λ i. 64 * i) 3 local_launch-few

process_128_follows_example :
    follow 3
      (task_count local_launch 3)
      (K128.process local_launch (λ i. 64 * i) 3)
      (some (at_round 0))
    ≡ some (at_round (task_count local_launch 3))
process_128_follows_example = process_128_follows local_launch (λ i. 64 * i) 3 local_launch-few

process_256-AreInside_example :
    AreInside (2560 * 16 * 256) (16 * 2 * 4096) (K256.process local_launch (λ i. 64 * i) 3)
process_256-AreInside_example =
    process_256-AreInside local_launch (λ i. 64 * i) 3 local_launch-IsLaunch (omega arith)
      (omega arith) (λ i le. omega arith)

process_128-AreInside_example :
    AreInside (2560 * 16 * 128) (16 * 2 * 4096) (K128.process local_launch (λ i. 64 * i) 3)
process_128-AreInside_example =
    process_128-AreInside local_launch (λ i. 64 * i) 3 local_launch-IsLaunch (omega arith)
      (omega arith) (λ i le. omega arith)

-- From round 2^31 on the AIC's `int32_t` round is negative, and it does not wait for FREE.
late_round_test : is_late_round (2 ^ 31) ≡ false
unfolding is_late_round
late_round_test = refl

-- The round before is the last one in which it does.
last_round_test : is_late_round (2 ^ 31 - 1) ≡ true
unfolding is_late_round
last_round_test = refl
