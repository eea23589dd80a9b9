-- ===== src/Vector/Turns.antt =====
-- The turns of a lane: in which round it consumes which task, and whether it frees the slot.
use chunk_scaled_dot_kkt_asc.Prelude.{
  ℕ, zero, suc, ◌+◌, ◌-◌, ◌*◌, ◌/◌, ◌≤◌, ◌<◌, ◌≡◌, ap, ◌∙◌, Bool, ltb, List, [], ◌∷◌, tabulate,
  arith, ◌↔◌, dec_lt,
}
use chunk_scaled_dot_kkt_asc.Device.{TilingData, IsLaunch, slot_count, slot_reused}
use chunk_scaled_dot_kkt_asc.Schedule.{task_count, task_id, head_major}
use chunk_scaled_dot_kkt_asc.Schedule.Local
use chunk_scaled_dot_kkt_asc.Vector.Walk.{Call, single, adjacent, cyclic_from, r3_from, local_from}

pub record Turn : Type 0 where
  pub round : ℕ
  pub task : ℕ
  pub reuse : Bool

-- Whether the group has a task two rounds later.
abbrev pub is_reused : (round count : ℕ) → Bool
is_reused round count = ltb (round + slot_count) count

abbrev pub turn : (round task count : ℕ) → Turn
turn round task count = record { round = round; task = task; reuse = is_reused round count }

-- A turn whose reuse the kernel finds from its `int32_t` round.
abbrev pub turn32 : (round task count : ℕ) → Turn
turn32 round task count = record { round = round; task = task; reuse = slot_reused round count }

-- A fused pair is the turns of its two chunks.
abbrev pub turns : (hg : ℕ) → List Call → List Turn
turns hg [] = []
turns hg (single task round reuse ∷ calls) =
    record { round = round; task = task; reuse = reuse } ∷ turns hg calls
turns hg (adjacent chunk kv_head round count ∷ calls) =
    turn32 round (chunk * hg + kv_head) count
    ∷ turn32 (round + 1) ((chunk + 1) * hg + kv_head) count
    ∷ turns hg calls

-- The rounds of a group in order, with the tasks of its schedule.
abbrev pub scheduled_turns : TilingData → ℕ → List Turn
scheduled_turns til group =
    tabulate (λ round. turn round (task_id til group round) (task_count til group)) 0
      (task_count til group)

module _ {A : Type 0} (f : ℕ → A) where
  pub tabulate_next :
      (c r : ℕ) → r < c → tabulate f r (c - r) ≡ f r ∷ tabulate f (r + 1) (c - (r + 1))
  tabulate_next c r lt = let e : c - r ≡ suc (c - (r + 1)) = omega arith in ap (tabulate f r) e

  pub tabulate_done : (c r : ℕ) → c ≤ r → tabulate f r (c - r) ≡ []
  tabulate_done c r le = let e : c - r ≡ 0 = omega arith in ap (tabulate f r) e

-- The loop over the chunks of one KV head, from round `round` on.
module _ (til : TilingData) (offsets : ℕ → ℕ) (start count kv_head : ℕ) where
  abbrev pub r3_turn : ℕ → Turn
  r3_turn r = turn32 r ((start + r) * til.hg + kv_head) count

  pub r3_turns :
      (fuel chunk round : ℕ)
      → count - round < fuel
      → chunk ≡ start + round
      → turns til.hg (r3_from til offsets fuel (start + count) kv_head count chunk round)
        ≡ tabulate r3_turn round (count - round)
  unfolding r3_from
  r3_turns zero chunk round lt e = absurd (omega arith)
  r3_turns (suc fuel) chunk round lt e = ground (
    arith,
    tabulate_next r3_turn count round,
    tabulate_next r3_turn count (round + 1),
    tabulate_done r3_turn count round,
    r3_turns fuel (chunk + 1) (round + 1),
    r3_turns fuel (chunk + 2) (round + 2),
  )

-- The cyclic loop, from round `round` on.
module _ (til : TilingData) (ok : IsLaunch til) (group count : ℕ)
    (counts : (r : ℕ) → (r < count) ↔ (group + r * til.block_dim < til.total_task_count)) where
  abbrev pub cyclic_turn : ℕ → Turn
  cyclic_turn r = turn r (group + r * til.block_dim) count

  cyclic_reuse :
      (round task : ℕ)
      → task ≡ group + round * til.block_dim
      → ltb (task + slot_count * til.block_dim) til.total_task_count
        ≡ ltb (round + slot_count) count
  cyclic_reuse round task e = ground (arith, (counts (round + 2)).0, (counts (round + 2)).1)

  pub cyclic_turns :
      (fuel task round : ℕ)
      → count - round < fuel
      → task ≡ group + round * til.block_dim
      → turns til.hg (cyclic_from til fuel task round) ≡ tabulate cyclic_turn round (count - round)
  unfolding cyclic_from
  cyclic_turns zero task round lt e = absurd (omega arith)
  cyclic_turns (suc fuel) task round lt e = ground (
    arith,
    (counts round).0,
    (counts round).1,
    cyclic_reuse round task e,
    tabulate_next cyclic_turn count round,
    tabulate_done cyclic_turn count round,
    cyclic_turns fuel (task + til.block_dim) (round + 1),
  )

  pub count-le-total : count ≤ til.total_task_count
  count-le-total = elim (dec_lt 0 count) [
    | yes some_round ↦ grind (arith, ok.block_pos, (counts (count - 1)).0 (omega arith))
    | no none_at_all ↦ omega arith
  ]

-- The chunk-local loop, from round `round` on; it keeps `ordinal` split into head and chunk.
module _ (til : TilingData) (offsets : ℕ → ℕ) (begin count : ℕ) where
  abbrev pub chunks : ℕ
  chunks = til.total_task_count / til.hg

  abbrev pub local_turn : ℕ → Turn
  local_turn r = turn32 r (head_major chunks til.hg (begin + r)) count

  local_task :
      (chunk kv_head o : ℕ)
      → chunk < chunks
      → o ≡ kv_head * chunks + chunk
      → head_major chunks til.hg o ≡ chunk * til.hg + kv_head
  local_task chunk kv_head o lt e =
      ap (head_major chunks til.hg) e
      ∙ Local.head_major-digits chunks til.hg (omega arith) chunk kv_head lt

  pub local_turns :
      (fuel ordinal kv_head chunk round : ℕ)
      → count - round < fuel
      → ordinal ≡ begin + round
      → ordinal ≡ kv_head * chunks + chunk
      → chunk < chunks
      → turns til.hg (local_from til offsets fuel (begin + count) count ordinal kv_head chunk round)
        ≡ tabulate local_turn round (count - round)
  unfolding local_from
  local_turns zero ordinal kv_head chunk round lt e split small = absurd (omega arith)
  local_turns (suc fuel) ordinal kv_head chunk round lt e split small = ground (
    arith,
    tabulate_next local_turn count round,
    tabulate_next local_turn count (round + 1),
    tabulate_done local_turn count round,
    local_task chunk kv_head (begin + round),
    local_task (chunk + 1) kv_head (begin + (round + 1)),
    local_turns fuel (ordinal + 1) kv_head (chunk + 1) (round + 1),
    local_turns fuel (ordinal + 1) (kv_head + 1) (chunk + 1 - chunks) (round + 1),
    local_turns fuel (ordinal + 2) kv_head (chunk + 2) (round + 2),
    local_turns fuel (ordinal + 2) (kv_head + 1) (chunk + 2 - chunks) (round + 2),
  )
