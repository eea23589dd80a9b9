-- ===== src/Vector/Values/Tests.antt =====
-- Runs of Vector lanes on a concrete launch, with a toy arithmetic.
use mathlib.Core.List.{Memᴰ}
use mathlib.Core.List.Memᴰ.{head, tail}
use chunk_scaled_dot_kkt_asc.Prelude.{
  ℕ, zero, suc, ◌+◌, ◌-◌, ◌*◌, ◌/◌, ◌%◌, ◌^◌, ◌≤◌, ◌<◌, ◌≡◌, true, false, ltb, if◌then◌else◌, List,
  [], tabulate, arith, refl, ◌∙◌, ℕ_discrete,
}
use chunk_scaled_dot_kkt_asc.Prelude.Int.{sub32}
use chunk_scaled_dot_kkt_asc.Prelude.Division.{digits_unique}
use chunk_scaled_dot_kkt_asc.Schedule.{task_id}
use chunk_scaled_dot_kkt_asc.Schedule.Tests.{local_launch, local_launch-IsLaunch}
use chunk_scaled_dot_kkt_asc.Vector.{fresh, out}
use chunk_scaled_dot_kkt_asc.Vector.Load.{is_valid_chunk}
use chunk_scaled_dot_kkt_asc.Vector.Task.{share_of}
use chunk_scaled_dot_kkt_asc.Vector.Walk.{process}
use chunk_scaled_dot_kkt_asc.Vector.Turns.{scheduled_turns}
use chunk_scaled_dot_kkt_asc.Vector.Values.{Arithmetic}
use chunk_scaled_dot_kkt_asc.Vector.Values.Lane.{Inputs, Lane, Hardware, Stale, act, execute}
use chunk_scaled_dot_kkt_asc.Vector.Values.Rows.{element}
use chunk_scaled_dot_kkt_asc.Vector.Values.Tile.{tile_value}
use chunk_scaled_dot_kkt_asc.Vector.Values.PipelineTask.{chunk_of, is_valid_task, valid-inside}
use chunk_scaled_dot_kkt_asc.Vector.Values.Expected.{expected}
use chunk_scaled_dot_kkt_asc.Vector.Values.Covered.{covers}
use chunk_scaled_dot_kkt_asc.Vector.Values.Whole.{Starts, process-expected}
use chunk_scaled_dot_kkt_asc.Vector.Values.Result.{process-untouched}
use chunk_scaled_dot_kkt_asc.Vector.Values.Golden.{
  IsExact, HoldsGram, length_of, key_product, inner_product, reference_value, lane_inputs,
  compute_expected_at, run_lanes-compute_expected_at,
}
use chunk_scaled_dot_kkt_asc.Vector.Values.Launch.{run_lanes, run_lanes-tile_value}
use chunk_scaled_dot_kkt_asc.Vector.Values.Owners.{Owner}

-- Numbers that stand for their negatives, so the order is reversed.
abbrev toy : Arithmetic
toy = record {
  Float = ℕ;
  Bfloat = ℕ;
  zero_float = 0;
  zero_bfloat = 0;
  times_minus_one = λ x. 0;
  expf = λ x. 1;
  times = λ x y. x * y;
  less = λ x y. ltb y x;
  widen = λ x. x;
}

abbrev toy_inputs : Inputs toy
toy_inputs = record { g = λ i. i; beta_rows = λ i. i + 1; workspace = λ round i. i }

-- A newly allocated tensor is as the last one.
abbrev toy_hardware : Hardware toy toy_inputs
toy_hardware =
    let kept : Stale toy = record {
      stale_gates = λ l. l.loading;
      stale_out = λ l. l.memory.floats out;
    } in
    record { stale = kept; perform_command = act toy toy_inputs kept; as_documented = λ c l. refl }

abbrev toy_start : Lane toy
toy_start = record {
  memory = record { floats = λ b i. 7; bfloats = λ b i. 7; bits = λ b i. true };
  loading = record { g_part = λ i. 7; beta_part = λ i. 7 };
  loaded = [];
  queued = [];
  copying = λ i. 7;
  output = λ i. 9;
  ready_seen = 0;
}

toy-Starts : Starts toy toy_start
toy-Starts = record { none_queued = refl; none_loaded = refl; none_seen = refl }

-- Forty full chunks.
abbrev forty_chunks : ℕ → ℕ
forty_chunks i = if ltb i 40 then 64 * i else 2560

forty_chunks-small : (i : ℕ) → forty_chunks i < 2 ^ 31
forty_chunks-small i = ground arith

forty_chunks-grows : (i : ℕ) → forty_chunks i ≤ forty_chunks (i + 1)
forty_chunks-grows i = ground arith

process-expected_example :
    (execute toy toy_inputs toy_hardware
        (process local_launch forty_chunks 2 7 fresh).1.trace
        toy_start).output
      (element 2560 4 130 5)
    ≡ expected toy toy_inputs local_launch forty_chunks 3 1 0
        (scheduled_turns local_launch 3)
        4
        130
        5
        9
process-expected_example =
    process-expected toy toy_inputs toy_hardware toy_start local_launch forty_chunks 2 7
      local_launch-IsLaunch (omega arith) (omega arith) forty_chunks-small (omega arith) toy-Starts
      4 130 5 (omega arith) (omega arith)

-- Lane 1 has the second and the third of three heads.
not_head_0 : (task row : ℕ) → covers local_launch forty_chunks 1 task 0 row ≡ false
unfolding share_of
not_head_0 task row = ground arith

process-untouched_example :
    (execute toy toy_inputs toy_hardware
        (process local_launch forty_chunks 2 7 fresh).1.trace
        toy_start).output
      (element 2560 0 130 5)
    ≡ 9
process-untouched_example =
    process-untouched toy toy_inputs toy_hardware toy_start local_launch forty_chunks 2 7
      local_launch-IsLaunch (omega arith) (omega arith) forty_chunks-small (omega arith) toy-Starts
      0 130 5 (omega arith) (omega arith) (λ r lt. not_head_0 (task_id local_launch 3 r) 130)

mem_tabulate : (n lo x : ℕ) → lo ≤ x → x < lo + n → Memᴰ x (tabulate (λ y. y) lo n)
mem_tabulate zero lo x le lt = absurd (omega arith)
mem_tabulate (suc n) lo x le lt = elim (ℕ_discrete x lo) [
  | yes same ↦ head same
  | no other ↦ tail (mem_tabulate n (lo + 1) x (omega arith) (omega arith))
]

tabulate_below : (n lo x : ℕ) → Memᴰ x (tabulate (λ y. y) lo n) → x < lo + n
tabulate_below zero lo x m = elim m [ ]
tabulate_below (suc n) lo x (head e) = omega arith
tabulate_below (suc n) lo x (tail m) = let lt = tabulate_below n (lo + 1) x m in omega arith

abbrev in_order : List ℕ
in_order = tabulate (λ x. x) 0 32

valid_35 : is_valid_task local_launch forty_chunks 35 ≡ true
unfolding is_valid_chunk
valid_35 = refl

-- Repeat 1 of task 35 (chunk 2, KV head 3), row 2 and column 5.
run_lanes-tile_value_example :
    (o : Owner local_launch forty_chunks 35 1 2) × (run_lanes toy local_launch forty_chunks
        (λ aiv. toy_inputs)
        (λ aiv. toy_hardware)
        (λ aiv. toy_start)
        in_order
        (λ i. 9)
        (element 2560 (35 % 16 * 3 + 1) (forty_chunks (35 / 16) + 2) 5)
      ≡ tile_value toy toy_inputs local_launch
          (chunk_of local_launch forty_chunks o.group o.round o.round 35)
          (35 % 16 * 3 + 1)
          2
          5)
run_lanes-tile_value_example =
    run_lanes-tile_value toy local_launch forty_chunks (λ aiv. toy_inputs) (λ aiv. toy_hardware)
      (λ aiv. toy_start) local_launch-IsLaunch forty_chunks-small forty_chunks-grows (omega arith)
      (omega arith) (λ aiv. toy-Starts) in_order (λ aiv m. omega (arith, tabulate_below 32 0 aiv m))
      (λ aiv lt. mem_tabulate 32 0 aiv (omega arith) (omega arith)) 35 1 2 5 (omega arith) valid_35
      (omega arith) (omega arith) (omega arith) (λ i. 9)

toy-IsExact : IsExact toy (λ x y. x - y)
toy-IsExact = record {
  times_zero = λ x. omega arith;
  times_comm = λ x y. grind arith;
  times_assoc = λ x y z. grind arith;
  exp_minus = λ x y. refl;
  less_minus = λ x y. ground arith;
}

-- Thirty-eight full chunks, one of 38 rows, and empty ones.
abbrev tail_chunks : ℕ → ℕ
tail_chunks i = if ltb i 39 then 64 * i else 2470

tail_chunks-small : (i : ℕ) → tail_chunks i < 2 ^ 31
tail_chunks-small i = ground arith

tail_chunks-grows : (i : ℕ) → tail_chunks i ≤ tail_chunks (i + 1)
tail_chunks-grows i = ground arith

valid_611 : is_valid_task local_launch tail_chunks 611 ≡ true
unfolding is_valid_chunk
valid_611 = refl

-- 48 heads and one component a key; the keys differ, and row 7 is not row 5.
abbrev toy_product : (task i j : ℕ) → ℕ
toy_product = key_product toy (λ x y. x + y) local_launch tail_chunks 1 (λ i. i + 1)

-- The products in the rows and columns of the chunk, and 0 behind them.
abbrev tile_of : (task e : ℕ) → ℕ
tile_of task e =
    let len = length_of local_launch tail_chunks task in
    if ltb (e / 64) len
    then if ltb (e % 64) len then toy_product task (e / 64) (e % 64) else 0
    else 0

abbrev toy_workspace : ℕ → ℕ → ℕ → ℕ
toy_workspace aiv seen x = tile_of (task_id local_launch (aiv / 2) (seen - 1)) (x % 4096)

tile_of-inside :
    (task i j : ℕ)
    → is_valid_task local_launch tail_chunks task ≡ true
    → i < length_of local_launch tail_chunks task
    → j < length_of local_launch tail_chunks task
    → (i < 64) × (j < 64) × (tile_of task (i * 64 + j) ≡ toy_product task i j)
tile_of-inside task i j valid row column =
    let bounds =
      valid-inside 2560 (tail_chunks (task / 16)) (tail_chunks (task / 16 + 1))
        (tail_chunks-small (task / 16)) (tail_chunks-small (task / 16 + 1)) valid in
    let small : j < 64 = omega (arith, bounds.1) in
    let (r, q) = digits_unique 64 j i small in
    (omega (arith, bounds.1), small, rw (q, r) (ground arith))

toy-HoldsGram : HoldsGram toy local_launch tail_chunks toy_workspace toy_product
toy-HoldsGram = record {
  holds = λ group round lane i j lt r_lt l_lt valid row column.
      let task = task_id local_launch group round in
      let (above, below, inside) = tile_of-inside task i j valid row column in
      let place : ((group * 2 + round % 2) * 4096 + (i * 64 + j)) % 4096 ≡ i * 64 + j =
        omega arith in
      let owner : (2 * group + lane) / 2 ≡ group = omega arith in
      let turn : suc round - 1 ≡ round = omega arith in
      (λ k. tile_of (task_id local_launch (owner k) (turn k)) (place k)) ∙ inside;
}

abbrev gram_hardware :
    (aiv : ℕ) → Hardware toy (lane_inputs toy (λ i. i) (λ i. i + 1) toy_workspace aiv)
gram_hardware aiv =
    let kept : Stale toy = record {
      stale_gates = λ l. l.loading;
      stale_out = λ l. l.memory.floats out;
    } in
    record {
      stale = kept;
      perform_command = act toy (lane_inputs toy (λ i. i) (λ i. i + 1) toy_workspace aiv) kept;
      as_documented = λ c l. refl;
    }

run_lanes-compute_expected_at_example :
    run_lanes toy local_launch tail_chunks
      (lane_inputs toy (λ i. i) (λ i. i + 1) toy_workspace)
      gram_hardware
      (λ aiv. toy_start)
      in_order
      (λ i. 9)
      (element 2560 (611 % 16 * 3 + 1) (tail_chunks (611 / 16) + 7) 5)
    ≡ compute_expected_at toy
        (λ x y. x - y)
        (λ x y. x + y)
        2560
        48
        16
        1
        (tail_chunks (611 / 16))
        (sub32 (tail_chunks (611 / 16 + 1)) (tail_chunks (611 / 16)))
        (611 % 16 * 3 + 1)
        7
        5
        (λ i. i)
        (λ i. i + 1)
        (λ i. i + 1)
run_lanes-compute_expected_at_example =
    run_lanes-compute_expected_at toy (λ x y. x - y) local_launch tail_chunks (λ x y. x + y) 48 1
      (λ i. i) (λ i. i + 1) (λ i. i + 1) toy_workspace gram_hardware (λ aiv. toy_start) toy-IsExact
      toy-HoldsGram refl local_launch-IsLaunch tail_chunks-small tail_chunks-grows (omega arith)
      (omega arith) (λ aiv. toy-Starts) in_order (λ aiv m. omega (arith, tabulate_below 32 0 aiv m))
      (λ aiv lt. mem_tabulate 32 0 aiv (omega arith) (omega arith)) 611 1 7 5 (omega arith)
      valid_611 (omega arith) (omega arith) (omega arith) (λ i. 9)

-- Row 7 and column 5 of head 10: the beta of row 135 times the inner product.
compute_expected_at_test :
    compute_expected_at toy
      (λ x y. x - y)
      (λ x y. x + y)
      2560
      48
      16
      2
      128
      64
      10
      7
      5
      (λ i. i)
      (λ i. i + 1)
      (λ i. 3)
    ≡ 25736 * 18
unfolding compute_expected_at reference_value inner_product
compute_expected_at_test = refl
