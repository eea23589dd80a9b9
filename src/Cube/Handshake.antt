-- ===== src/Cube/Handshake.antt =====
-- The AIC's side of the READY and FREE protocol, as an automaton over its commands: from the third
-- round on it waits for FREE of the round's slot before it writes there, and every round ends with
-- READY.
use chunk_scaled_dot_kkt_asc.Prelude.{
  ℕ, zero, suc, ◌+◌, ◌<◌, ◌≤◌, ◌≡◌, refl, ◌∙◌, ap, Bool, true, false, not, ◌&&◌, ◌||◌, ltb, leb,
  ◌==◌, Option, none, some, List, [], ◌∷◌, ◌++◌, arith, ◌/◌, ◌%◌, ◌^◌,
}
use chunk_scaled_dot_kkt_asc.Prelude.Int.{sub32}
use chunk_scaled_dot_kkt_asc.Device.{
  TilingData, slot_count, slot_of, slot_offset, ready_flag_for_slot, free_flag_for_slot,
  is_late_round-below,
}
use chunk_scaled_dot_kkt_asc.Schedule.{task_count, task_id}
use chunk_scaled_dot_kkt_asc.Vector.Load.{is_valid_chunk}
use chunk_scaled_dot_kkt_asc.Cube.{Command, fixpipe, cross_wait, cross_set, for_rounds}
use chunk_scaled_dot_kkt_asc.Cube.K256
use chunk_scaled_dot_kkt_asc.Cube.K128

-- The round, and whether its FREE has come.
pub record Aic : Type 0 where
  pub round : ℕ
  pub waited : Bool

abbrev pub at_round : ℕ → Aic
at_round round = record { round = round; waited = false }

abbrev pub require : Bool → Aic → Option Aic
require true a = some a
require false a = none

-- The slot of the round may be written.
abbrev pub owns_slot : (count : ℕ) → Aic → Bool
owns_slot count a = ltb a.round count && (ltb a.round slot_count || a.waited)

module _ (group count : ℕ) where
  -- `none` is a breach of the protocol.
  abbrev pub move : Command → Aic → Option Aic
  move (cross_wait flag) a =
      require
        (ltb a.round count
          && leb slot_count a.round
          && not a.waited
          && flag == free_flag_for_slot (slot_of a.round))
        (record a { waited = true })
  move (fixpipe offset) a =
      require (owns_slot count a && offset == slot_offset group (slot_of a.round)) a
  move (cross_set flag) a =
      require (owns_slot count a && flag == ready_flag_for_slot (slot_of a.round))
        (at_round (a.round + 1))
  move _ a = some a

  abbrev pub then_move : Option Aic → Command → Option Aic
  then_move none c = none
  then_move (some a) c = move c a

  -- The state after a list of commands, in order.
  abbrev pub follow : List Command → Option Aic → Option Aic
  follow [] a = a
  follow (c ∷ cs) a = follow cs (then_move a c)

  -- The state after a list of commands, newest first.
  abbrev pub state_after : List Command → Option Aic
  state_after [] = some (at_round 0)
  state_after (c ∷ earlier) = then_move (state_after earlier) c

  follow-append :
      (xs ys : List Command) (a : Option Aic) → follow (xs ++ ys) a ≡ follow ys (follow xs a)
  follow-append [] ys a = refl
  follow-append (c ∷ xs) ys a = follow-append xs ys (then_move a c)

  -- A loop whose rounds go from one round to the next.
  follow-rounds :
      (body : ℕ → List Command)
      → ((r : ℕ) → r < count → follow (body r) (some (at_round r)) ≡ some (at_round (r + 1)))
      → (n i : ℕ) → i + n ≤ count
      → follow (for_rounds n i body) (some (at_round i)) ≡ some (at_round (i + n))
  follow-rounds body h zero i le = ap (λ r. some (at_round r)) (omega arith)
  follow-rounds body h (suc n) i le =
      follow-append (body i) (for_rounds n (i + 1) body) (some (at_round i))
      ∙ ap (follow (for_rounds n (i + 1) body)) (h i (omega arith))
      ∙ follow-rounds body h n (i + 1) (omega arith)
      ∙ ap (λ r. some (at_round r)) (omega arith)

  follow-process :
      (init drain : List Command) (body : ℕ → List Command)
      → ((r : ℕ) → r < count → follow (body r) (some (at_round r)) ≡ some (at_round (r + 1)))
      → follow init (some (at_round 0)) ≡ some (at_round 0)
      → follow drain (some (at_round count)) ≡ some (at_round count)
      → follow (init ++ for_rounds count 0 body ++ drain) (some (at_round 0))
        ≡ some (at_round count)
  follow-process init drain body h e0 e1 =
      follow-append (init ++ for_rounds count 0 body) drain (some (at_round 0))
      ∙ ap (follow drain) (
          follow-append init (for_rounds count 0 body) (some (at_round 0))
          ∙ ap (follow (for_rounds count 0 body)) e0
          ∙ follow-rounds body h count 0 (omega arith)
          ∙ ap (λ r. some (at_round r)) (omega arith))
      ∙ e1

  chunk_256-rounds :
      (hg kv_head start chunk_len round : ℕ) (valid : Bool)
      → round < count
      → round < 2 ^ 31
      → follow
          (K256.process_chunk hg kv_head start chunk_len group round valid)
          (some (at_round round))
        ≡ some (at_round (round + 1))
  unfolding K256.process_chunk
  chunk_256-rounds hg kv_head start chunk_len round valid lt small =
      ground (arith, is_late_round-below round small)

  chunk_128-rounds :
      (hg kv_head start chunk_len round : ℕ) (valid : Bool)
      → round < count
      → round < 2 ^ 31
      → follow
          (K128.process_chunk hg kv_head start chunk_len group round valid)
          (some (at_round round))
        ≡ some (at_round (round + 1))
  unfolding K128.process_chunk
  chunk_128-rounds hg kv_head start chunk_len round valid lt small =
      ground (arith, is_late_round-below round small)

module _ (til : TilingData) (offsets : ℕ → ℕ) (group : ℕ) where
  round_256-rounds :
      (r : ℕ)
      → r < task_count til group
      → task_count til group ≤ 2 ^ 31
      → follow group
          (task_count til group)
          (K256.process_round til offsets group r)
          (some (at_round r))
        ≡ some (at_round (r + 1))
  unfolding K256.process_round
  round_256-rounds r lt few =
      let start = offsets (task_id til group r / til.hg) in
      let end = offsets (task_id til group r / til.hg + 1) in
      chunk_256-rounds group (task_count til group) til.hg (task_id til group r % til.hg) start
        (sub32 end start) r (is_valid_chunk til.t start end) lt (omega arith)

  round_128-rounds :
      (r : ℕ)
      → r < task_count til group
      → task_count til group ≤ 2 ^ 31
      → follow group
          (task_count til group)
          (K128.process_round til offsets group r)
          (some (at_round r))
        ≡ some (at_round (r + 1))
  unfolding K128.process_round
  round_128-rounds r lt few =
      let start = offsets (task_id til group r / til.hg) in
      let end = offsets (task_id til group r / til.hg + 1) in
      chunk_128-rounds group (task_count til group) til.hg (task_id til group r % til.hg) start
        (sub32 end start) r (is_valid_chunk til.t start end) lt (omega arith)

-- The whole run of the K = 256 class for a group of at most 2^31 tasks, for all tiling data and
-- offsets: each of its rounds, with a
-- valid chunk or without, waits for FREE of its slot from the third round on, writes the workspace
-- only at its slot and only after that, and ends with READY of its slot.
pub process_256_follows :
    (til : TilingData) (offsets : ℕ → ℕ) (group : ℕ)
    → task_count til group ≤ 2 ^ 31
    → follow group (task_count til group) (K256.process til offsets group) (some (at_round 0))
      ≡ some (at_round (task_count til group))
unfolding K256.process K256.init_persistent_events K256.drain_persistent_events
process_256_follows til offsets group few =
    follow-process group (task_count til group) K256.init_persistent_events
      K256.drain_persistent_events (K256.process_round til offsets group)
      (λ r lt. round_256-rounds til offsets group r lt few) refl refl

-- Each round of the run of the K = 128 class for a group of at most 2^31 tasks, for all tiling data
-- and offsets, waits for FREE of its
-- slot from the third round on, writes the workspace only at its slot and only after that, and ends
-- with READY of its slot.
pub process_128_follows :
    (til : TilingData) (offsets : ℕ → ℕ) (group : ℕ)
    → task_count til group ≤ 2 ^ 31
    → follow group (task_count til group) (K128.process til offsets group) (some (at_round 0))
      ≡ some (at_round (task_count til group))
unfolding K128.process K128.init_persistent_events K128.drain_persistent_events
process_128_follows til offsets group few =
    follow-process group (task_count til group) K128.init_persistent_events
      K128.drain_persistent_events (K128.process_round til offsets group)
      (λ r lt. round_128-rounds til offsets group r lt few) refl refl
