-- ===== src/Cube/Events.antt =====
-- The flags between the pipelines of the AIC as tokens, and the tiles that they hand over: a flag is
-- set only when it is clear and waited for only when it is set, and a pipeline touches a tile only
-- while the flags give it to this pipeline.
use chunk_scaled_dot_kkt_asc.Prelude.{
  ℕ, zero, suc, ◌+◌, ◌/◌, ◌%◌, ◌≡◌, refl, ◌∙◌, ap, Bool, true, false, not, ◌&&◌, Option, none, some,
  List, [], ◌∷◌, ◌++◌, arith, ◌==◌, if◌then◌else◌,
}
use chunk_scaled_dot_kkt_asc.Device.{TilingData}
use chunk_scaled_dot_kkt_asc.Schedule.{task_count, task_id}
use chunk_scaled_dot_kkt_asc.Vector.Load.{is_valid_chunk}
use chunk_scaled_dot_kkt_asc.Prelude.Int.{sub32}
use chunk_scaled_dot_kkt_asc.Cube.{
  Event, mte1_mte2, mte2_mte1, fix_m, m_fix, mte1_m, m_mte1_0, m_mte1_1, m_mte1_2, m_mte1_3,
  Command, set_flag, wait_flag, clear_shared_l1, copy_k, load_l0a, load_l0b, mmad, fixpipe,
  for_rounds,
}
use chunk_scaled_dot_kkt_asc.Cube.K256
use chunk_scaled_dot_kkt_asc.Cube.K128

-- Which flags are set.
pub record Flags : Type 0 where
  pub l1_free : Bool  -- MTE1_MTE2
  pub l1_full : Bool  -- MTE2_MTE1
  pub c_free : Bool  -- FIX_M
  pub c_full : Bool  -- M_FIX
  pub l0_full : Bool  -- MTE1_M
  pub l0_free0 : Bool  -- M_MTE1, by event id
  pub l0_free1 : Bool
  pub l0_free2 : Bool
  pub l0_free3 : Bool

abbrev pub no_flags : Flags
no_flags = record {
  l1_free = false;
  l1_full = false;
  c_free = false;
  c_full = false;
  l0_full = false;
  l0_free0 = false;
  l0_free1 = false;
  l0_free2 = false;
  l0_free3 = false;
}

-- What a pipeline may do with the tiles. L1 and C have one owner: MTE2 or the MMAD writes, MTE1 or
-- the FIXPIPE reads, and the flags between them hand the tile over.
pub record Tiles : Type 0 where
  pub l1_writing : Bool  -- MTE1_MTE2 was taken
  pub l1_filled : Bool  -- the rows were copied
  pub l1_reading : Bool  -- MTE2_MTE1 was taken
  pub c_writing : Bool  -- FIX_M was taken
  pub c_begun : Bool  -- a product was written
  pub c_reading : Bool  -- M_FIX was taken
  pub l0_loading : Bool  -- a load that MTE1_M does not cover yet
  pub l0_ready : Bool  -- MTE1_M was taken
  pub used0 : Bool  -- the MMAD read the L0 tile and M_MTE1 was not taken since
  pub used1 : Bool
  pub used2 : Bool
  pub used3 : Bool

pub record State : Type 0 where
  pub flags : Flags
  pub tiles : Tiles

abbrev no_tiles : Tiles
no_tiles = record {
  l1_writing = false;
  l1_filled = false;
  l1_reading = false;
  c_writing = false;
  c_begun = false;
  c_reading = false;
  l0_loading = false;
  l0_ready = false;
  used0 = false;
  used1 = false;
  used2 = false;
  used3 = false;
}

-- Before the first command the readers own the tiles, and after the last one the writers.
abbrev pub at_start : State
at_start = record {
  flags = no_flags;
  tiles = record no_tiles { l1_reading = true; c_reading = true };
}

abbrev pub at_end : State
at_end = record {
  flags = no_flags;
  tiles = record no_tiles { l1_writing = true; c_writing = true };
}

-- Between two tasks: the flags give the L1 tile and the C tile to their writers.
abbrev between_tasks : State
between_tasks = record {
  flags = record no_flags { l1_free = true; c_free = true };
  tiles = no_tiles;
}

abbrev pub is_set : Event → Flags → Bool
is_set mte1_mte2 f = f.l1_free
is_set mte2_mte1 f = f.l1_full
is_set fix_m f = f.c_free
is_set m_fix f = f.c_full
is_set mte1_m f = f.l0_full
is_set m_mte1_0 f = f.l0_free0
is_set m_mte1_1 f = f.l0_free1
is_set m_mte1_2 f = f.l0_free2
is_set m_mte1_3 f = f.l0_free3

abbrev pub put : Event → Bool → Flags → Flags
put mte1_mte2 b f = record f { l1_free = b }
put mte2_mte1 b f = record f { l1_full = b }
put fix_m b f = record f { c_free = b }
put m_fix b f = record f { c_full = b }
put mte1_m b f = record f { l0_full = b }
put m_mte1_0 b f = record f { l0_free0 = b }
put m_mte1_1 b f = record f { l0_free1 = b }
put m_mte1_2 b f = record f { l0_free2 = b }
put m_mte1_3 b f = record f { l0_free3 = b }

abbrev is_used : ℕ → Tiles → Bool
is_used i t =
    if i == 0 then t.used0 else if i == 1 then t.used1 else if i == 2 then t.used2 else t.used3

abbrev put_used : ℕ → Bool → Tiles → Tiles
put_used i b t =
    if i == 0
    then record t { used0 = b }
    else if i == 1
    then record t { used1 = b }
    else if i == 2
    then record t { used2 = b }
    else record t { used3 = b }

-- `is_k128`: the class has an event for each stage of L0A and of L0B, where that of K = 256 has a
-- stage for each K part and one event for all.
module _ (is_k128 : Bool) where
  -- The L0 tiles by number: in K = 128 those of L0B follow those of L0A.
  abbrev b_tile : (stage : ℕ) → ℕ
  b_tile stage = if is_k128 then stage + 2 else stage

  -- The event that frees an L0 tile.
  abbrev event_of : ℕ → Event
  event_of i =
      if not is_k128
      then m_mte1_0
      else if i == 0
      then m_mte1_0
      else if i == 1
      then m_mte1_1
      else if i == 2
      then m_mte1_2
      else m_mte1_3

  -- An L0 tile is free: nothing of it is to be read, and its event is not out.
  abbrev is_free : ℕ → State → Bool
  is_free i s = not (is_used i s.tiles) && not (is_set (event_of i) s.flags)

  -- A flag is given by the owner of the tile, and after the work that it announces.
  abbrev gives : Event → Tiles → Bool
  gives mte1_mte2 t = t.l1_reading
  gives mte2_mte1 t = t.l1_writing && t.l1_filled
  gives fix_m t = t.c_reading
  gives m_fix t = t.c_writing && t.c_begun
  gives _ t = true

  -- The L1 tile is cleared and filled by its writer and loaded from by its reader, an L0 tile is
  -- loaded only if it is free, the MMAD multiplies only tiles that MTE1_M has announced, into a C
  -- tile that it owns and that its first product and no other initializes, and the C tile is copied
  -- out only by its reader.
  abbrev pub allows : Command → State → Bool
  allows (set_flag e) s = not (is_set e s.flags) && gives e s.tiles
  allows (wait_flag e) s = is_set e s.flags
  allows (clear_shared_l1 _) s = s.tiles.l1_writing && not s.tiles.l1_filled
  allows (copy_k _ _) s = s.tiles.l1_writing && not s.tiles.l1_filled
  allows (load_l0a stage _) s = s.tiles.l1_reading && is_free stage s
  allows (load_l0b stage _ _) s = s.tiles.l1_reading && is_free (b_tile stage) s
  allows (mmad a b initialize_c) s =
      s.tiles.c_writing
      && s.tiles.l0_ready
      && not s.tiles.l0_loading
      && is_free a s
      && is_free (b_tile b) s
      && (if initialize_c then not s.tiles.c_begun else s.tiles.c_begun)
  allows (fixpipe _) s = s.tiles.c_reading
  allows _ s = true

  abbrev given : Event → Tiles → Tiles
  given mte1_mte2 t = record t { l1_reading = false }
  given mte2_mte1 t = record t { l1_writing = false; l1_filled = false }
  given fix_m t = record t { c_reading = false }
  given m_fix t = record t { c_writing = false; c_begun = false }
  given mte1_m t = record t { l0_loading = false }
  given _ t = t

  -- The one event of K = 256 frees all L0 tiles.
  abbrev freed : ℕ → Tiles → Tiles
  freed i t =
      if is_k128
      then put_used i false t
      else record t { used0 = false; used1 = false; used2 = false; used3 = false }

  abbrev taken : Event → Tiles → Tiles
  taken mte1_mte2 t = record t { l1_writing = true }
  taken mte2_mte1 t = record t { l1_reading = true }
  taken fix_m t = record t { c_writing = true }
  taken m_fix t = record t { c_reading = true }
  taken mte1_m t = record t { l0_ready = true }
  taken m_mte1_0 t = freed 0 t
  taken m_mte1_1 t = freed 1 t
  taken m_mte1_2 t = freed 2 t
  taken m_mte1_3 t = freed 3 t

  abbrev loaded : Tiles → Tiles
  loaded t = record t { l0_loading = true; l0_ready = false }

  abbrev pub effect : Command → State → State
  effect (set_flag e) s = record { flags = put e true s.flags; tiles = given e s.tiles }
  effect (wait_flag e) s = record { flags = put e false s.flags; tiles = taken e s.tiles }
  effect (copy_k _ _) s = record s { tiles = record (s.tiles) { l1_filled = true } }
  effect (load_l0a _ _) s = record s { tiles = loaded s.tiles }
  effect (load_l0b _ _ _) s = record s { tiles = loaded s.tiles }
  effect (mmad a b _) s = record s {
    tiles =
        put_used a true
          (put_used (b_tile b) true (record (s.tiles) { l0_ready = false; c_begun = true }));
  }
  effect _ s = s

  -- The state after a list of commands; `none` is a breach.
  abbrev pub run : List Command → State → Option State
  run [] s = some s
  run (c ∷ cs) s = elim (allows c s) [ true ↦ run cs (effect c s) | false ↦ none ]

  abbrev run_from : List Command → Option State → Option State
  run_from cs none = none
  run_from cs (some s) = run cs s

  run-append : (xs ys : List Command) (s : State) → run (xs ++ ys) s ≡ run_from ys (run xs s)
  run-append [] ys s = refl
  run-append (c ∷ xs) ys s = ground (arith, run-append xs ys (effect c s))

  -- A loop whose rounds lead from the state between tasks back to it does so itself.
  run-rounds :
      (body : ℕ → List Command)
      → ((r : ℕ) → run (body r) between_tasks ≡ some between_tasks)
      → (n i : ℕ) → run (for_rounds n i body) between_tasks ≡ some between_tasks
  run-rounds body h zero i = refl
  run-rounds body h (suc n) i =
      run-append (body i) (for_rounds n (i + 1) body) between_tasks
      ∙ ap (run_from (for_rounds n (i + 1) body)) (h i)
      ∙ run-rounds body h n (i + 1)

  -- The whole list: two flags set, the rounds, and the two waited for.
  run-process :
      (body : ℕ → List Command)
      → ((r : ℕ) → run (body r) between_tasks ≡ some between_tasks)
      → (n : ℕ) (drain : List Command) → run drain between_tasks ≡ some at_end
      → run (for_rounds n 0 body ++ drain) between_tasks ≡ some at_end
  run-process body h n drain e =
      run-append (for_rounds n 0 body) drain between_tasks
      ∙ ap (run_from drain) (run-rounds body h n 0)
      ∙ e

chunk_256 :
    (hg kv_head start chunk_len group round : ℕ) (valid : Bool)
    → run false (K256.process_chunk hg kv_head start chunk_len group round valid) between_tasks
      ≡ some between_tasks
unfolding K256.process_chunk
chunk_256 hg kv_head start chunk_len group round valid = ground arith

chunk_128 :
    (hg kv_head start chunk_len group round : ℕ) (valid : Bool)
    → run true (K128.process_chunk hg kv_head start chunk_len group round valid) between_tasks
      ≡ some between_tasks
unfolding K128.process_chunk
chunk_128 hg kv_head start chunk_len group round valid = ground arith

round_256 :
    (til : TilingData) (offsets : ℕ → ℕ) (group round : ℕ)
    → run false (K256.process_round til offsets group round) between_tasks ≡ some between_tasks
unfolding K256.process_round
round_256 til offsets group round =
    let start = offsets (task_id til group round / til.hg) in
    let end = offsets (task_id til group round / til.hg + 1) in
    chunk_256 til.hg (task_id til group round % til.hg) start (sub32 end start) group round
      (is_valid_chunk til.t start end)

round_128 :
    (til : TilingData) (offsets : ℕ → ℕ) (group round : ℕ)
    → run true (K128.process_round til offsets group round) between_tasks ≡ some between_tasks
unfolding K128.process_round
round_128 til offsets group round =
    let start = offsets (task_id til group round / til.hg) in
    let end = offsets (task_id til group round / til.hg + 1) in
    chunk_128 til.hg (task_id til group round % til.hg) start (sub32 end start) group round
      (is_valid_chunk til.t start end)

-- The whole run of the K = 256 class, for all tiling data and offsets, sets a flag only when it is
-- clear and waits only for one that is set, clears and fills the L1 tile only while MTE2 owns it,
-- loads from it only while MTE1 owns it, multiplies only L0 tiles that MTE1_M has announced and that
-- are not loaded again before M_MTE1, and copies the C tile out only between the M_FIX that
-- follows its products and the next FIX_M. It ends with every flag clear.
pub process_256_drains :
    (til : TilingData) (offsets : ℕ → ℕ) (group : ℕ)
    → run false (K256.process til offsets group) at_start ≡ some at_end
unfolding K256.process
process_256_drains til offsets group =
    run-process false (K256.process_round til offsets group) (round_256 til offsets group)
      (task_count til group) (K256.drain_persistent_events) refl

-- The whole run of the K = 128 class, for all tiling data and offsets, sets a flag only when it is
-- clear and waits only for one that is set, the four L0 flags that every task opens and closes
-- included, loads an L0 tile only after the tile's own M_MTE1 flag was taken, hands over the L1 and
-- the C tile like the class for K = 256, and ends with every flag clear.
pub process_128_drains :
    (til : TilingData) (offsets : ℕ → ℕ) (group : ℕ)
    → run true (K128.process til offsets group) at_start ≡ some at_end
unfolding K128.process
process_128_drains til offsets group =
    run-process true (K128.process_round til offsets group) (round_128 til offsets group)
      (task_count til group) (K128.drain_persistent_events) refl
