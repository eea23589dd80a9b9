-- ===== src/Vector/Values/Golden.antt =====
-- `ComputeExpectedAt` of examples/test_aclnn_chunk_scaled_dot_kkt.cpp: the CPU reference of an element,
-- and the tile of a lane under exact arithmetic.
use native.Mathlib.Nat.{add-mul, mul_assoc}
use mathlib.Core.List.{Memᴰ}
use chunk_scaled_dot_kkt_asc.Prelude.{
  ℕ, zero, suc, ◌+◌, ◌*◌, ◌/◌, ◌%◌, ◌^◌, ◌≤◌, ◌<◌, ◌≡◌, List, refl, subst, ◌∙◌, sym, ap, true,
  Bool-cases, inl, inr, ltb, not, if◌then◌else◌, arith,
}
use chunk_scaled_dot_kkt_asc.Prelude.Int.{sub32}
use chunk_scaled_dot_kkt_asc.Prelude.Division.{digits_unique}
use chunk_scaled_dot_kkt_asc.Device.{TilingData, IsLaunch, slot_offset, slot_of}
use chunk_scaled_dot_kkt_asc.Schedule.{task_count, task_id}
use chunk_scaled_dot_kkt_asc.Vector.Values.{Arithmetic}
use chunk_scaled_dot_kkt_asc.Vector.Values.Lane.{Inputs, Lane, Hardware}
use chunk_scaled_dot_kkt_asc.Vector.Values.Formula.{factor, row_factor, column_factor}
use chunk_scaled_dot_kkt_asc.Vector.Values.Tile.{Chunk, tile_value}
use chunk_scaled_dot_kkt_asc.Vector.Values.Rows.{element}
use chunk_scaled_dot_kkt_asc.Vector.Values.PipelineTask.{chunk_of, is_valid_task}
use chunk_scaled_dot_kkt_asc.Vector.Values.Whole.{Starts}
use chunk_scaled_dot_kkt_asc.Vector.Values.Launch.{run_lanes, run_lanes-tile_value}

-- What the operations satisfy where no rounding and no overflow occurs.
pub record IsExact (a : Arithmetic) (minus : a.Float → a.Float → a.Float) : Type 0 where
  pub times_zero : (x : a.Float) → a.times x a.zero_float ≡ a.zero_float
  pub times_comm : (x y : a.Float) → a.times x y ≡ a.times y x
  pub times_assoc : (x y z : a.Float) → a.times (a.times x y) z ≡ a.times x (a.times y z)
  pub exp_minus :
      (x y : a.Float) → a.times (a.expf (a.times_minus_one y)) (a.expf x) ≡ a.expf (minus x y)
  pub less_minus : (x y : a.Float) → a.less (minus x y) a.zero_float ≡ a.less x y

module _ (a : Arithmetic) where
  open a use {Float, Bfloat, zero_float, times, widen}

  -- The sum of the products of the first `n` components of two rows.
  unfoldable pub dot_product : (plus : Float → Float → Float) (n : ℕ) (x y : ℕ → Float) → Float
  dot_product plus zero x y = zero_float
  dot_product plus (suc d) x y = plus (dot_product plus d x y) (times (x d) (y d))

  -- The key of a token and a KV head in a contiguous tensor of tokens by KV heads by `k`.
  abbrev pub key_row : (keys : ℕ → Bfloat) (hg k token kv : ℕ) → ℕ → Float
  key_row keys hg k token kv d = widen (keys (token * (hg * k) + kv * k + d))

  -- `for (d = 0; d < tc.k; ++d)`, the first `n` turns of it.
  unfoldable pub inner_product :
      (plus : Float → Float → Float) (keys : ℕ → Bfloat) (hg k kv token j n : ℕ) → Float
  inner_product plus keys hg k kv token j zero = zero_float
  inner_product plus keys hg k kv token j (suc d) =
      plus (inner_product plus keys hg k kv token j d)
        (times (widen (keys ((token * hg + kv) * k + d))) (widen (keys ((j * hg + kv) * k + d))))

  key_place : (hg k token kv : ℕ) → token * (hg * k) + kv * k ≡ (token * hg + kv) * k
  key_place hg k token kv =
      ap (λ x. x + kv * k) (sym (mul_assoc token hg k)) ∙ sym (add-mul (token * hg) kv k)

  pub inner_product-dot_product :
      (plus : Float → Float → Float) (keys : ℕ → Bfloat) (hg k kv token j n : ℕ)
      → dot_product plus n (key_row keys hg k token kv) (key_row keys hg k j kv)
        ≡ inner_product plus keys hg k kv token j n
  unfolding dot_product inner_product
  inner_product-dot_product plus keys hg k kv token j zero = refl
  inner_product-dot_product plus keys hg k kv token j (suc d) = λ i.
      plus (inner_product-dot_product plus keys hg k kv token j d i) (
        times (widen (keys (key_place hg k token kv i + d)))
          (widen (keys (key_place hg k j kv i + d))))

module _ (a : Arithmetic) (minus : a.Float → a.Float → a.Float) where
  open a use {Float, Bfloat, zero_float, expf, times, less, widen}

  -- The element of head `head`, row `i` and column `local_j` of a chunk, once the inner product `dot`
  -- of the two keys is known.
  unfoldable pub reference_value :
      (t start chunk_len head i local_j : ℕ)
      → (g : ℕ → Float) → (betas : ℕ → Bfloat) → (dot : Float) → Float
  reference_value t start chunk_len head i local_j g betas dot =
      let diff = minus (g (head * t + (start + i))) (g (head * t + (start + local_j))) in
      if not (ltb local_j chunk_len)
      then zero_float
      else if not (less diff zero_float)
      then zero_float
      else times (times (widen (betas (head * t + (start + i)))) (expf diff)) dot

  -- The chunk of the token is given by its first row and its length.
  unfoldable pub compute_expected_at :
      (plus : Float → Float → Float) (t h hg k start chunk_len head i local_j : ℕ) (g : ℕ → Float)
      (betas keys : ℕ → Bfloat)
      → Float
  compute_expected_at plus t h hg k start chunk_len head i local_j g betas keys =
      let heads_per_kv = h / hg in
      let kv = head / heads_per_kv in
      reference_value t start chunk_len head i local_j g betas
        (inner_product a plus keys hg k kv (start + i) (start + local_j) k)

  regroup :
      (exact : IsExact a minus) (d x y b : Float)
      → times d (times (expf (a.times_minus_one y)) (times (expf x) b))
        ≡ times (times b (expf (minus x y))) d
  regroup exact d x y b =
      ap (times d) (
        sym (exact.times_assoc (expf (a.times_minus_one y)) (expf x) b)
        ∙ ap (λ e. times e b) (exact.exp_minus x y)
        ∙ exact.times_comm (expf (minus x y)) b)
      ∙ exact.times_comm d (times b (expf (minus x y)))

  zero_times : IsExact a minus → (x : Float) → times zero_float x ≡ zero_float
  zero_times exact x = exact.times_comm zero_float x ∙ exact.times_zero x

-- The tile of a lane is the reference's, with the product that its workspace holds.
tile_value-reference_value :
    (a : Arithmetic) (minus : a.Float → a.Float → a.Float) (inputs : Inputs a) (til : TilingData)
    (c : Chunk) (head i j : ℕ)
    → IsExact a minus
    → i < c.chunk_len
    → tile_value a inputs til c head i j
      ≡ reference_value a minus til.t c.start c.chunk_len head i j inputs.g inputs.beta_rows
          (inputs.workspace c.round (slot_offset c.group c.slot + (i * 64 + j)))
unfolding tile_value reference_value factor row_factor column_factor
tile_value-reference_value a minus inputs til c head i j exact inside =
    let row : ltb i c.chunk_len ≡ true = ground arith in
    elim (Bool-cases (ltb j c.chunk_len)) [
      | inr behind ↦ rw (behind, tile_value) (zero_times a minus exact _)
      | inl column ↦
          let dot = inputs.workspace c.round (slot_offset c.group c.slot + (i * 64 + j)) in
          let b = a.widen (inputs.beta_rows (head * til.t + (c.start + i))) in
          let x = inputs.g (head * til.t + (c.start + i)) in
          let y = inputs.g (head * til.t + (c.start + j)) in
          elim (Bool-cases (a.less x y)) [
            | inl masked ↦
                rw (column, row, exact.less_minus x y, masked, tile_value, row_factor)
                  (regroup a minus exact dot x y b)
            | inr clear ↦
                rw (column, row, exact.less_minus x y, clear, tile_value) (exact.times_zero dot)
          ]
    ]

-- The tensors that the lanes read: `g` and `beta` are those of the operator, and each lane sees the
-- workspace in its rounds.
abbrev pub lane_inputs :
    (a : Arithmetic) (g : ℕ → a.Float) (betas : ℕ → a.Bfloat) (workspace : ℕ → ℕ → ℕ → a.Float)
    → ℕ
    → Inputs a
lane_inputs a g betas workspace aiv = record { g = g; beta_rows = betas; workspace = workspace aiv }

-- The rows of a task's chunk.
abbrev pub length_of : TilingData → (ℕ → ℕ) → ℕ → ℕ
length_of til offsets task = sub32 (offsets (task / til.hg + 1)) (offsets (task / til.hg))

-- In the round of a task with a valid chunk the slot holds the inner products of the task's keys, in
-- the rows and columns of the chunk. (In a tail chunk the AIC clears what lies behind them.)
pub record HoldsGram (a : Arithmetic) (til : TilingData) (offsets : ℕ → ℕ)
    (workspace : ℕ → ℕ → ℕ → a.Float) (dot : (task i j : ℕ) → a.Float) : Type 0 where
  pub holds :
      (group round lane i j : ℕ)
      → group < til.block_dim
      → round < task_count til group
      → lane < 2
      → is_valid_task til offsets (task_id til group round) ≡ true
      → i < length_of til offsets (task_id til group round)
      → j < length_of til offsets (task_id til group round)
      → workspace (2 * group + lane) (suc round) (slot_offset group (slot_of round) + (i * 64 + j))
        ≡ dot (task_id til group round) i j

-- Behind the chunk's end the reference does not read the product.
same_dot :
    (a : Arithmetic) (minus : a.Float → a.Float → a.Float) (t start chunk_len head i j : ℕ)
    (g : ℕ → a.Float) (betas : ℕ → a.Bfloat) (d d' : a.Float)
    → (j < chunk_len → d ≡ d')
    → reference_value a minus t start chunk_len head i j g betas d
      ≡ reference_value a minus t start chunk_len head i j g betas d'
unfolding reference_value
same_dot a minus t start chunk_len head i j g betas d d' e = elim (Bool-cases (ltb j chunk_len)) [
  | inl column ↦ rw (e (ground arith)) refl
  | inr behind ↦ rw behind refl
]

-- The inner product of two rows of a task's chunk, for the keys of its KV head.
abbrev pub key_product :
    (a : Arithmetic) (plus : a.Float → a.Float → a.Float) (til : TilingData) (offsets : ℕ → ℕ)
    (k : ℕ) (keys : ℕ → a.Bfloat)
    → (task i j : ℕ) → a.Float
key_product a plus til offsets k keys task i j =
    dot_product a plus k (key_row a keys til.hg k (offsets (task / til.hg) + i) (task % til.hg))
      (key_row a keys til.hg k (offsets (task / til.hg) + j) (task % til.hg))

-- After both Vector lanes of all groups have run one after the other, in any order, every element
-- of a valid chunk of a task, in each head of its KV head and in every column up to 63, has the
-- value of the CPU reference. The conditions: the tiling data are those of a launch, the chunk
-- offsets lie below 2^31 and do not decrease, the sequence is shorter than 2^30, a KV head has at
-- least one head, `num_repeat` is the quotient of the numbers of heads, each lane starts with empty
-- queues, the arithmetic is exact, and in each round of a valid chunk the workspace slot holds, in the
-- chunk's rows and columns, the inner products of the keys of the round's task; the other rows and
-- the slots of malformed chunks may hold anything. What the output tensor and newly allocated tensors held before does
-- not matter.
pub run_lanes-compute_expected_at :
    (a : Arithmetic) (minus : a.Float → a.Float → a.Float) (til : TilingData) (offsets : ℕ → ℕ)
    (plus : a.Float → a.Float → a.Float) (h k : ℕ) (g : ℕ → a.Float) (betas keys : ℕ → a.Bfloat)
    (workspace : ℕ → ℕ → ℕ → a.Float)
    (hw : (aiv : ℕ) → Hardware a (lane_inputs a g betas workspace aiv)) (starts : ℕ → Lane a)
    → IsExact a minus
    → HoldsGram a til offsets workspace (key_product a plus til offsets k keys)
    → h / til.hg ≡ til.num_repeat
    → IsLaunch til
    → ((i : ℕ) → offsets i < 2 ^ 31)
    → ((i : ℕ) → offsets i ≤ offsets (i + 1))
    → til.t * 4 < 2 ^ 32
    → 0 < til.num_repeat
    → ((aiv : ℕ) → Starts a (starts aiv))
    → (order : List ℕ) → ((aiv : ℕ) → Memᴰ aiv order → aiv / 2 < til.block_dim)
    → ((aiv : ℕ) → aiv / 2 < til.block_dim → Memᴰ aiv order)
    → (task repeat i j : ℕ) → task < til.total_task_count
    → is_valid_task til offsets task ≡ true
    → repeat < til.num_repeat
    → i < sub32 (offsets (task / til.hg + 1)) (offsets (task / til.hg))
    → j < 64
    → (output : ℕ → a.Float)
    → run_lanes a til offsets
        (lane_inputs a g betas workspace)
        hw
        starts
        order
        output
        (element til.t (task % til.hg * til.num_repeat + repeat) (offsets (task / til.hg) + i) j)
      ≡ compute_expected_at a minus plus til.t h til.hg k
          (offsets (task / til.hg))
          (sub32 (offsets (task / til.hg + 1)) (offsets (task / til.hg)))
          (task % til.hg * til.num_repeat + repeat)
          i
          j
          g
          betas
          keys
unfolding compute_expected_at
run_lanes-compute_expected_at a minus til offsets plus h k g betas keys workspace hw starts exact
      gram heads ok small grows narrow pos idle order all complete task repeat i j below valid few
      inside col output =
    let inputs = lane_inputs a g betas workspace in
    let (o, written) =
      run_lanes-tile_value a til offsets inputs hw starts ok small grows narrow pos idle order all
        complete task repeat i j below valid few inside col output in
    let start = offsets (task / til.hg) in
    let len = sub32 (offsets (task / til.hg + 1)) start in
    let head = task % til.hg * til.num_repeat + repeat in
    let dot = key_product a plus til offsets k keys in
    let same_kv : task % til.hg ≡ head / (h / til.hg) =
      sym (digits_unique til.num_repeat repeat (task % til.hg) few).1
      ∙ ap (λ x. head / x) (sym heads) in
    written
    ∙ tile_value-reference_value a minus (inputs (2 * o.group + o.lane)) til
        (chunk_of til offsets o.group o.round o.round task) head i j exact inside
    ∙ same_dot a minus til.t start len head i j g betas
        (workspace (2 * o.group + o.lane) (suc o.round)
          (slot_offset o.group (slot_of o.round) + (i * 64 + j)))
        (dot task i j)
        (λ lt.
          gram.holds o.group o.round o.lane i j o.group_below o.round_below o.lane_below
            (subst (λ x. is_valid_task til offsets x ≡ true) (sym o.owned_task) valid)
            (subst (λ x. i < length_of til offsets x) (sym o.owned_task) inside)
            (subst (λ x. j < length_of til offsets x) (sym o.owned_task) lt)
          ∙ ap (λ x. dot x i j) o.owned_task)
    ∙ ap (reference_value a minus til.t start len head i j g betas)
        (inner_product-dot_product a plus keys til.hg k (task % til.hg) (start + i) (start + j) k)
    ∙ (λ x.
        reference_value a minus til.t start len head i j g betas
          (inner_product a plus keys til.hg k (same_kv x) (start + i) (start + j) k))
