-- ===== src/Vector/Values/Lane.antt =====
-- The state that the commands of a Vector lane act on: the local buffers, the tensors of its queues
-- and the output tensor in global memory. The effects are those that the framework documents.
use chunk_scaled_dot_kkt_asc.Prelude.{
  ℕ, suc, ◌+◌, ◌-◌, ◌*◌, ◌/◌, ◌%◌, ◌≡◌, refl, ap, ◌∙◌, ◌&&◌, ltb, leb, if◌then◌else◌, Option, none,
  some, List, [], ◌∷◌, ◌++◌,
}
use chunk_scaled_dot_kkt_asc.Vector.{
  Buffer, kkt, gate, beta, out, Global, beta_gm, g_gm, kkt_gm, Command, vector, copy_in,
  copy_in_pad, copy_out, copy_out_strided, cross_wait, alloc_output, enque_output, deque_output,
  alloc_gate, enque_gate, deque_gate, PadCopy,
}
use chunk_scaled_dot_kkt_asc.Vector.Copies.{run_lands, blocks_land}
use chunk_scaled_dot_kkt_asc.Vector.Values.{Arithmetic, Memory, effect, same}

module _ (a : Arithmetic) where
  open a use {Float, Bfloat, zero_float, zero_bfloat}

  -- The global tensors that a lane reads. `workspace k` is the workspace while the lane is in the
  -- round that its `k`-th READY (counted from 1) opened.
  pub record Inputs : Type 0 where
    pub g : ℕ → Float
    pub beta_rows : ℕ → Bfloat
    pub workspace : ℕ → ℕ → Float

  -- A tensor of gQueue_ with its companion of betaQueue_.
  pub record Gates : Type 0 where
    pub g_part : ℕ → Float
    pub beta_part : ℕ → Bfloat

  -- In `memory`, `gate` and `beta` are the dequeued tensors and `out` is the allocated one.
  pub record Lane : Type 0 where
    pub memory : Memory a
    pub loading : Gates
    pub loaded : List Gates
    pub queued : List (ℕ → Float)
    pub copying : ℕ → Float
    pub output : ℕ → Float
    pub ready_seen : ℕ

  -- What a newly allocated tensor holds is not specified.
  pub record Stale : Type 0 where
    pub stale_gates : Lane → Gates
    pub stale_out : Lane → ℕ → Float

  -- Elements of a row in local memory, for elements of `bytes` bytes: whole 32-byte blocks and the
  -- stride behind them.
  abbrev pub pitch : (bytes : ℕ) → PadCopy → ℕ
  pitch bytes p = ((p.block_len + 31) / 32 + p.dst_stride) * (32 / bytes)

  -- Rows of `block_len` bytes, padded with zeroes on the right where `is_pad` says so.
  abbrev pub pad_rows {ℓ} :
      {A : Type ℓ} (bytes : ℕ) → PadCopy → (offset : ℕ) → A → (source old : ℕ → A) → ℕ → A
  pad_rows bytes p offset zero_value source old i =
      let row = i / pitch bytes p in
      let column = i % pitch bytes p in
      if ltb row p.block_count && ltb column (p.block_len / bytes)
      then source (offset + row * ((p.block_len + p.src_stride) / bytes) + column)
      else if p.is_pad
          && ltb row p.block_count
          && ltb column (p.block_len / bytes + p.right_padding)
      then zero_value
      else old i

  abbrev pub copy_run {ℓ} : {A : Type ℓ} → (at n offset : ℕ) → (source old : ℕ → A) → ℕ → A
  copy_run at n offset source old i =
      if leb at i && ltb i (at + n) then source (offset + (i - at)) else old i

  -- The queues, the output tensor and the round are as before.
  pub record SameQueues (l l' : Lane) : Type 0 where
    pub same_loaded : l'.loaded ≡ l.loaded
    pub same_queued : l'.queued ≡ l.queued
    pub same_output : l'.output ≡ l.output
    pub same_seen : l'.ready_seen ≡ l.ready_seen

  -- The KKT tile is as before.
  abbrev pub SameKkt : Lane → Lane → Type 0
  SameKkt l l' = l'.memory.floats kkt ≡ l.memory.floats kkt

  -- The dequeued gates and betas are as before.
  pub record SameGates (l l' : Lane) : Type 0 where
    pub same_gate : l'.memory.floats gate ≡ l.memory.floats gate
    pub same_beta : l'.memory.bfloats beta ≡ l.memory.bfloats beta

  module _ (inputs : Inputs) where
    abbrev pub float_source : Lane → Global → ℕ → Float
    float_source l g_gm = inputs.g
    float_source l kkt_gm = inputs.workspace l.ready_seen
    float_source l beta_gm = λ _. zero_float

    -- The destination of a copy from global memory: the KKT tile, or a tensor being loaded.
    abbrev pub fill_floats : Buffer → ((ℕ → Float) → ℕ → Float) → Lane → Lane
    fill_floats kkt f l = record l {
      memory = record l.memory {
        floats = λ b. if same kkt b then f (l.memory.floats kkt) else l.memory.floats b;
      };
    }
    fill_floats gate f l = record l { loading = record l.loading { g_part = f l.loading.g_part } }
    fill_floats _ f l = l

    abbrev pub fill_bfloats : ((ℕ → Bfloat) → ℕ → Bfloat) → Lane → Lane
    fill_bfloats f l = record l { loading = record l.loading { beta_part = f l.loading.beta_part } }

    abbrev pub load_run : Buffer → (at : ℕ) → Global → (offset n : ℕ) → Lane → Lane
    load_run beta at src offset n l = fill_bfloats (copy_run at n offset inputs.beta_rows) l
    load_run b at src offset n l = fill_floats b (copy_run at n offset (float_source l src)) l

    -- The padded copies of this code fill a tensor from its first element on.
    abbrev pub load_rows : Buffer → Global → (offset : ℕ) → PadCopy → Lane → Lane
    load_rows beta src offset p l =
        fill_bfloats (pad_rows 2 p offset zero_bfloat inputs.beta_rows) l
    load_rows b src offset p l =
        fill_floats b (pad_rows 4 p offset zero_float (float_source l src)) l

    abbrev pub landed : Option ℕ → (source : ℕ → Float) → Float → Float
    landed none source old = old
    landed (some k) source old = source k

    abbrev pub take_gates : List Gates → Lane → Lane
    take_gates [] l = l
    take_gates (x ∷ rest) l = record l {
      loaded = rest;
      memory = record l.memory {
        floats = λ b. if same gate b then x.g_part else l.memory.floats b;
        bfloats = λ b. if same beta b then x.beta_part else l.memory.bfloats b;
      };
    }

    abbrev pub take_output : List (ℕ → Float) → Lane → Lane
    take_output [] l = l
    take_output (x ∷ rest) l = record l { queued = rest; copying = x }

    -- The effect of a command.
    abbrev pub act : Stale → Command → Lane → Lane
    act stale (vector i) l = record l { memory = effect a i l.memory }
    act stale (copy_in dst src offset n) l = load_run dst.buffer dst.at src offset n l
    act stale (copy_in_pad dst src offset p) l = load_rows dst.buffer src offset p l
    act stale (copy_out offset src n) l = record l {
      output = λ i. landed (run_lands offset src.at n i none) l.copying (l.output i);
    }
    act stale (copy_out_strided offset src p) l = record l {
      output =
          λ i. landed (blocks_land p.block_count p offset src.at i none) l.copying (l.output i);
    }
    act stale (cross_wait flag) l = record l { ready_seen = suc l.ready_seen }
    act stale alloc_output l = record l {
      memory = record l.memory {
        floats = λ b. if same out b then stale.stale_out l else l.memory.floats b;
      };
    }
    act stale enque_output l = record l { queued = l.queued ++ l.memory.floats out ∷ [] }
    act stale deque_output l = take_output l.queued l
    act stale alloc_gate l = record l { loading = stale.stale_gates l }
    act stale enque_gate l = record l { loaded = l.loaded ++ l.loading ∷ [] }
    act stale deque_gate l = take_gates l.loaded l
    act stale _ l = l

    -- A lane's hardware and queues: they do what is documented, whatever newly allocated tensors
    -- hold.
    pub record Hardware : Type 0 where
      pub stale : Stale
      pub perform_command : Command → Lane → Lane
      pub as_documented : (c : Command) (l : Lane) → perform_command c l ≡ act stale c l

    module _ (hw : Hardware) where
      -- The state after a trace, newest command first.
      unfoldable pub execute : List Command → Lane → Lane
      execute [] l = l
      execute (c ∷ earlier) l = hw.perform_command c (execute earlier l)

      -- The same by the documented effects.
      unfoldable pub documented : List Command → Lane → Lane
      documented [] l = l
      documented (c ∷ earlier) l = act hw.stale c (documented earlier l)

      pub execute-documented : (cs : List Command) (l : Lane) → execute cs l ≡ documented cs l
      unfolding execute documented
      execute-documented [] l = refl
      execute-documented (c ∷ earlier) l =
          hw.as_documented c (execute earlier l)
          ∙ ap (act hw.stale c) (execute-documented earlier l)
