-- ===== src/Vector/Values/Launch.antt =====
-- All Vector lanes of a launch, in any order: what the output tensor holds after them.
use mathlib.Core.List.{Memᴰ}
use mathlib.Core.List.Memᴰ.{head, tail}
use chunk_scaled_dot_kkt_asc.Prelude.{
  ℕ, ◌+◌, ◌-◌, ◌*◌, ◌/◌, ◌%◌, ◌^◌, ◌≤◌, ◌<◌, ◌≡◌, ◌∙◌, sym, true, Bool-cases, inl, inr, subst,
  arith, ap, List, [], ◌∷◌, refl, ℕ_discrete,
}
use chunk_scaled_dot_kkt_asc.Prelude.Int.{sub32}
use chunk_scaled_dot_kkt_asc.Device.{TilingData, IsLaunch}
use chunk_scaled_dot_kkt_asc.Schedule.{task_count, task_id}
use chunk_scaled_dot_kkt_asc.Vector.{fresh}
use chunk_scaled_dot_kkt_asc.Vector.Walk.{process}
use chunk_scaled_dot_kkt_asc.Vector.Values.{Arithmetic}
use chunk_scaled_dot_kkt_asc.Vector.Values.Lane.{Inputs, Lane, Hardware, execute}
use chunk_scaled_dot_kkt_asc.Vector.Values.Rows.{element}
use chunk_scaled_dot_kkt_asc.Vector.Values.Tile.{tile_value}
use chunk_scaled_dot_kkt_asc.Vector.Values.PipelineTask.{chunk_of, is_valid_task}
use chunk_scaled_dot_kkt_asc.Vector.Values.Covered.{covers, InShare-covers}
use chunk_scaled_dot_kkt_asc.Vector.Values.Whole.{Starts}
use chunk_scaled_dot_kkt_asc.Vector.Values.Result.{process-untouched, process-tile_value}
use chunk_scaled_dot_kkt_asc.Vector.Values.Owners.{Owner, chunk_bounds, find-Owner, only-Owner}

module _ (a : Arithmetic) (til : TilingData) (offsets : ℕ → ℕ) (inputs : ℕ → Inputs a)
    (hw : (aiv : ℕ) → Hardware a (inputs aiv)) (starts : ℕ → Lane a) where
  open a use {Float}

  -- A lane, started on an output tensor.
  abbrev pub start_lane : ℕ → (ℕ → Float) → Lane a
  start_lane aiv output = record (starts aiv) { output = output }

  abbrev pub run_lane : ℕ → (ℕ → Float) → ℕ → Float
  run_lane aiv output =
      (execute a (inputs aiv) (hw aiv) (process til offsets 2 aiv fresh).1.trace
        (start_lane aiv output)).output

  -- The output tensor after the lanes have run one after the other.
  unfoldable pub run_lanes : List ℕ → (ℕ → Float) → ℕ → Float
  run_lanes [] output = output
  run_lanes (aiv ∷ rest) output = run_lanes rest (run_lane aiv output)

  -- One lane sets an element and the others leave it as it is.
  module _ (x owner : ℕ) (v : Float) (allowed : ℕ → Type 0)
      (sets : (output : ℕ → Float) → run_lane owner output x ≡ v)
      (leaves : (aiv : ℕ)
        → allowed aiv
        → (aiv ≡ owner → ⊥)
        → (output : ℕ → Float) → run_lane aiv output x ≡ output x) where
    stays :
        (order : List ℕ) (output : ℕ → Float)
        → ((aiv : ℕ) → Memᴰ aiv order → allowed aiv)
        → output x ≡ v
        → run_lanes order output x ≡ v
    unfolding run_lanes
    stays [] output all e = e
    stays (aiv ∷ rest) output all e =
        stays rest (run_lane aiv output) (λ y m. all y (tail m))
          (elim (ℕ_discrete aiv owner) [
            | yes same ↦ ap (λ y. run_lane y output x) same ∙ sets output
            | no other ↦ leaves aiv (all aiv (head refl)) other output ∙ e
          ])

    sets_once :
        (order : List ℕ) (output : ℕ → Float)
        → ((aiv : ℕ) → Memᴰ aiv order → allowed aiv)
        → Memᴰ owner order
        → run_lanes order output x ≡ v
    unfolding run_lanes
    sets_once [] output all m = elim m [ ]
    sets_once (aiv ∷ rest) output all (head e) =
        stays rest (run_lane aiv output) (λ y m. all y (tail m))
          (ap (λ y. run_lane y output x) (sym e) ∙ sets output)
    sets_once (aiv ∷ rest) output all (tail m) =
        sets_once rest (run_lane aiv output) (λ y m'. all y (tail m')) m

Owner-run_lane :
    (a : Arithmetic) (til : TilingData) (offsets : ℕ → ℕ) (inputs : ℕ → Inputs a)
    (hw : (aiv : ℕ) → Hardware a (inputs aiv)) (starts : ℕ → Lane a)
    → IsLaunch til
    → ((i : ℕ) → offsets i < 2 ^ 31)
    → ((i : ℕ) → offsets i ≤ offsets (i + 1))
    → til.t * 4 < 2 ^ 32
    → 0 < til.num_repeat
    → (task repeat i j : ℕ) (o : Owner til offsets task repeat i) (aiv : ℕ) → aiv / 2 ≡ o.group
    → aiv % 2 ≡ o.lane
    → offsets (task / til.hg) + i < til.t
    → j < 64
    → (output : ℕ → a.Float) → Starts a (start_lane a til offsets inputs hw starts aiv output)
    → run_lane a til offsets inputs hw starts aiv output
        (element til.t (task % til.hg * til.num_repeat + repeat) (offsets (task / til.hg) + i) j)
      ≡ tile_value a
          (inputs aiv)
          til
          (chunk_of til offsets o.group o.round o.round task)
          (task % til.hg * til.num_repeat + repeat)
          i
          j
Owner-run_lane a til offsets inputs hw starts ok small grows narrow pos task repeat i j o aiv g l
      in_t col output idle =
    let h = task % til.hg * til.num_repeat + repeat in
    let row = offsets (task / til.hg) + i in
    let e : task_id til (aiv / 2) o.round ≡ task =
      ap (λ x. task_id til x o.round) g ∙ o.owned_task in
    let here : covers til offsets (aiv % 2) (task_id til (aiv / 2) o.round) h row ≡ true =
      (λ k. covers til offsets (l k) (e k) h row)
      ∙ InShare-covers til offsets o.lane task repeat i o.owned_share in
    let back : row - offsets (task / til.hg) ≡ i = omega arith in
    process-tile_value a (inputs aiv) (hw aiv)
      (start_lane a til offsets inputs hw starts aiv output) til offsets 2 aiv o.round ok
      (subst (λ x. x < til.block_dim) (sym g) o.group_below) (omega arith) small grows narrow pos
      idle (subst (λ x. o.round < task_count til x) (sym g) o.round_below) h row j in_t col here
    ∙ (λ k.
        tile_value a (inputs aiv) til (chunk_of til offsets (g k) o.round o.round (e k)) h
          (row - offsets (e k / til.hg)) j)
    ∙ ap
        (λ x.
          tile_value a (inputs aiv) til (chunk_of til offsets o.group o.round o.round task) h x j)
        back

-- After both Vector lanes of all groups have run one after the other, in any order, every element
-- of a valid chunk of a task, in each head of its KV head and in every column up to 63, has the
-- value of its chunk's tile as the lane that owns it computes it, from the gates, betas and KKT
-- tile that this lane reads, in any arithmetic. The conditions: the tiling data are those of a
-- launch, the chunk offsets lie below 2^31 and do not decrease, the sequence is shorter than 2^30,
-- a KV head has at least one head, and each lane starts with empty queues.
pub run_lanes-tile_value :
    (a : Arithmetic) (til : TilingData) (offsets : ℕ → ℕ) (inputs : ℕ → Inputs a)
    (hw : (aiv : ℕ) → Hardware a (inputs aiv)) (starts : ℕ → Lane a)
    → IsLaunch til
    → ((i : ℕ) → offsets i < 2 ^ 31)
    → ((i : ℕ) → offsets i ≤ offsets (i + 1))
    → til.t * 4 < 2 ^ 32
    → 0 < til.num_repeat
    → ((aiv : ℕ) → Starts a (starts aiv))
    → (order : List ℕ) → ((aiv : ℕ) → Memᴰ aiv order → aiv / 2 < til.block_dim)
    → ((aiv : ℕ) → aiv / 2 < til.block_dim → Memᴰ aiv order)
    → (task repeat i j : ℕ) → task < til.total_task_count
    → is_valid_task til offsets task ≡ true
    → repeat < til.num_repeat
    → i < sub32 (offsets (task / til.hg + 1)) (offsets (task / til.hg))
    → j < 64
    → (output : ℕ → a.Float)
    → (o : Owner til offsets task repeat i) × (run_lanes a til offsets inputs hw starts order output
          (element til.t (task % til.hg * til.num_repeat + repeat) (offsets (task / til.hg) + i) j)
        ≡ tile_value a
            (inputs (2 * o.group + o.lane))
            til
            (chunk_of til offsets o.group o.round o.round task)
            (task % til.hg * til.num_repeat + repeat)
            i
            j)
run_lanes-tile_value a til offsets inputs hw starts ok small grows narrow pos idle order all
      complete task repeat i j below valid few inside col output =
    let o = find-Owner til offsets ok small grows pos task repeat i valid below few inside in
    let aiv = 2 * o.group + o.lane in
    let h = task % til.hg * til.num_repeat + repeat in
    let row = offsets (task / til.hg) + i in
    let bounds = chunk_bounds til offsets ok small grows pos task repeat i valid in
    let v =
      tile_value a (inputs aiv) til (chunk_of til offsets o.group o.round o.round task) h i j in
    let g : aiv / 2 ≡ o.group = omega (arith, o.lane_below) in
    let l : aiv % 2 ≡ o.lane = omega (arith, o.lane_below) in
    let started : (x : ℕ) (out : ℕ → a.Float)
        → Starts a (start_lane a til offsets inputs hw starts x out) =
      λ x out. record {
        none_queued = (idle x).none_queued;
        none_loaded = (idle x).none_loaded;
        none_seen = (idle x).none_seen;
      } in
    (
      o,
      sets_once a til offsets inputs hw starts (element til.t h row j) aiv v
          (λ x. x / 2 < til.block_dim)
          (λ out.
            Owner-run_lane a til offsets inputs hw starts ok small grows narrow pos task repeat i j
              o aiv g l (omega arith) col out (started aiv out))
          (λ x allowed other out.
            process-untouched a (inputs x) (hw x) (start_lane a til offsets inputs hw starts x out)
              til offsets 2 x ok allowed (omega arith) small narrow (started x out) h row j
              (omega arith) col
              (λ r r_lt.
                elim (Bool-cases (covers til offsets (x % 2) (task_id til (x / 2) r) h row)) [
                  | inl yes_covers ↦ absurd (
                      other (
                        only-Owner til offsets ok small grows pos task repeat i valid o x r allowed
                          r_lt yes_covers))
                  | inr no_cover ↦ no_cover
                ]))
          order output all (complete aiv (omega (arith, o.group_below))),
    )
