-- ===== src/Vector/Values/Range.antt =====
-- The gates that are loaded ahead for a batch, and the state before a batch.
use chunk_scaled_dot_kkt_asc.Prelude.{
  ℕ, ◌+◌, ◌-◌, ◌*◌, ◌^◌, ◌≤◌, ◌<◌, ◌≡◌, ◌∙◌, ◌⊎◌, List, [], ◌∷◌, ◌++◌, arith, refl, ap,
  if◌then◌else◌, ltb, Bool-cases, inl, inr, dec_lt,
}
use chunk_scaled_dot_kkt_asc.Device.{TilingData, kkt_elems}
use chunk_scaled_dot_kkt_asc.Vector.{Vector, kkt}
use chunk_scaled_dot_kkt_asc.Vector.Load.{aligned, prefetch_gate_and_beta_batch}
use chunk_scaled_dot_kkt_asc.Vector.Task.{Share, batch_heads_at, batch_count, prefetch_next}
use chunk_scaled_dot_kkt_asc.Vector.Values.{Arithmetic}
use chunk_scaled_dot_kkt_asc.Vector.Values.Lane.{Inputs, Lane, Hardware, Gates, SameKkt}
use chunk_scaled_dot_kkt_asc.Vector.Values.Delayed.{lane, Queued}
use chunk_scaled_dot_kkt_asc.Vector.Values.Loaded.{
  prefetch-gates, prefetch-betas, prefetch-rest, prefetch-fields,
}
use chunk_scaled_dot_kkt_asc.Vector.Values.Opened.{
  open_batch, opened-gate, opened-beta, opened-rest,
}
use chunk_scaled_dot_kkt_asc.Vector.Values.Tile.{Chunk, gram}
use chunk_scaled_dot_kkt_asc.Vector.Values.Batch.{Work, GatesHeld}

-- A lane's share of a valid chunk inside the sequence.
pub record ShareFits (til : TilingData) (c : Chunk) (share : Share) : Type 0 where
  pub some_rows : 0 < c.chunk_len
  pub few_rows : c.chunk_len ≤ 64
  pub chunk_inside : c.start + c.chunk_len ≤ til.t
  pub narrow : til.t * 4 < 2 ^ 32
  pub rows_inside : share.row_start + share.row_count ≤ c.chunk_len
  pub pairs_split : share.first_repeat + 2 ≤ share.repeat_end → share.row_start ≡ 0

pub batch_heads-one_or_two :
    (share : Share) (repeat : ℕ)
    → repeat < share.repeat_end
    → (batch_heads_at share repeat ≡ 1) ⊎ (batch_heads_at share repeat ≡ 2)
batch_heads-one_or_two share repeat lt = elim (dec_lt 1 (share.repeat_end - repeat)) [
  | yes two ↦ inr (ground arith)
  | no one ↦ inl (ground arith)
]

pub two_heads-fit :
    (share : Share) (repeat : ℕ)
    → share.first_repeat ≤ repeat
    → batch_heads_at share repeat ≡ 2
    → share.first_repeat + 2 ≤ share.repeat_end
two_heads-fit share repeat lo two = ground arith

pub few_rows-apart :
    (row_start rows chunk_len : ℕ)
    → row_start + rows ≤ chunk_len
    → chunk_len ≤ 64
    → 0 + rows * 64 ≤ kkt_elems
few_rows-apart row_start rows chunk_len inside few = omega arith

module _ (a : Arithmetic) (inputs : Inputs a) (hw : Hardware a inputs) (til : TilingData)
    (l0 : Lane a) (c : Chunk) (share : Share) (fits : ShareFits til c share) (first_head : ℕ) where
  open a use {Float, zero_float}

  abbrev at : Vector → Lane a
  at = lane a inputs hw til l0

  -- The batch that begins at a repeat.
  abbrev pub work_at :
      (repeat : ℕ) → share.first_repeat ≤ repeat → repeat < share.repeat_end → Work til c
  work_at repeat lo hi = record {
    head = first_head + repeat;
    heads = batch_heads_at share repeat;
    row_start = share.row_start;
    rows = share.row_count;
    one_or_two = batch_heads-one_or_two share repeat hi;
    split = λ two. fits.pairs_split (two_heads-fit share repeat lo two);
    some_rows = fits.some_rows;
    few_rows = fits.few_rows;
    rows_inside = fits.rows_inside;
    chunk_inside = fits.chunk_inside;
    narrow = fits.narrow;
    first_tile = 0;
    second_tile = kkt_elems;
    apart =
        few_rows-apart share.row_start share.row_count c.chunk_len fits.rows_inside fits.few_rows;
  }

  -- The loaded tensors hold the gates and betas of the heads from `head` on.
  pub record GatesLoaded (head heads : ℕ) (gates : Gates a) : Type 0 where
    pub g_loaded :
        (h i : ℕ)
        → h < heads
        → i < aligned c.chunk_len 8
        → gates.g_part (h * 64 + i) ≡ (
            if ltb i c.chunk_len then inputs.g ((head + h) * til.t + (c.start + i)) else zero_float)
    pub beta_loaded :
        (h i : ℕ)
        → h < heads
        → i < c.chunk_len
        → gates.beta_part (h * 64 + i) ≡ inputs.beta_rows ((head + h) * til.t + (c.start + i))

  -- The queues hold the tensors of the batch at `repeat`, if there is one, and nothing else.
  pub record NextLoaded (repeat : ℕ) (s : Vector) : Type 0 where
    pub next_there :
        repeat < share.repeat_end
        → (gates : Gates a) × ((at s).loaded ≡ gates ∷ [])
          × GatesLoaded (first_head + repeat) (batch_heads_at share repeat) gates
    pub next_none : share.repeat_end ≤ repeat → (at s).loaded ≡ []

  -- A prefetch changes the loaded tensors only.
  pub prefetched-NextLoaded :
      (head heads : ℕ) (s : Vector)
      → (at s).loaded ≡ []
      → let r = (prefetch_gate_and_beta_batch til.t head c.start c.chunk_len heads s).1 in
        (gates : Gates a) × ((at r).loaded ≡ gates ∷ []) × GatesLoaded head heads gates
  prefetched-NextLoaded head heads s empty =
      let r = (prefetch_gate_and_beta_batch til.t head c.start c.chunk_len heads s).1 in
      (
        (at r).loading,
        ap (λ (x : Lane a). x.loaded)
              (prefetch-rest a inputs hw til l0 s head c.start c.chunk_len heads)
            ∙ ap (λ (x : List (Gates a)). x ++ (at r).loading ∷ []) empty,
        record {
          g_loaded = λ h i lt small.
              prefetch-gates a inputs hw til l0 s head c.start c.chunk_len heads fits.some_rows
                fits.few_rows (omega arith) fits.narrow h i lt small;
          beta_loaded = λ h i lt small.
              prefetch-betas a inputs hw til l0 s head c.start c.chunk_len heads fits.some_rows
                fits.few_rows (omega arith) fits.narrow h i lt small;
        },
      )

  -- A step that changes the loaded tensors only, for the batch at `repeat`.
  pub record Advanced (repeat : ℕ) (s r : Vector) : Type 0 where
    pub adv_memory : (at r).memory ≡ (at s).memory
    pub adv_queued : (at r).queued ≡ (at s).queued
    pub adv_output : (at r).output ≡ (at s).output
    pub adv_seen : (at r).ready_seen ≡ (at s).ready_seen
    pub adv_fields : r.fields ≡ s.fields
    pub adv_next : NextLoaded repeat r

  pub prefetch-Advanced :
      (repeat : ℕ) (s : Vector)
      → (at s).loaded ≡ []
      → repeat < share.repeat_end
      → Advanced repeat s
          (prefetch_gate_and_beta_batch til.t
            (first_head + repeat)
            c.start
            c.chunk_len
            (batch_heads_at share repeat)
            s).1
  prefetch-Advanced repeat s empty lt =
      let rest =
        prefetch-rest a inputs hw til l0 s (first_head + repeat) c.start c.chunk_len
          (batch_heads_at share repeat) in
      record {
        adv_memory = ap (λ (x : Lane a). x.memory) rest;
        adv_queued = ap (λ (x : Lane a). x.queued) rest;
        adv_output = ap (λ (x : Lane a). x.output) rest;
        adv_seen = ap (λ (x : Lane a). x.ready_seen) rest;
        adv_fields =
            prefetch-fields a inputs hw til l0 s (first_head + repeat) c.start c.chunk_len
              (batch_heads_at share repeat);
        adv_next = record {
          next_there = λ _.
              prefetched-NextLoaded (first_head + repeat) (batch_heads_at share repeat) s empty;
          next_none = λ past. absurd (omega arith);
        };
      }

  pub prefetch_next-Advanced :
      (b : ℕ) (s : Vector)
      → (at s).loaded ≡ []
      → Advanced
          (share.first_repeat + b * 2 + 2)
          s
          (prefetch_next til first_head c.start c.chunk_len share b s).1
  unfolding prefetch_next
  prefetch_next-Advanced b s empty = elim (Bool-cases (ltb (b + 1) (batch_count share))) [
    | inl more ↦ rw more (prefetch-Advanced (share.first_repeat + b * 2 + 2) s empty (ground arith))
    | inr last ↦ rw last (record {
      adv_memory = refl;
      adv_queued = refl;
      adv_output = refl;
      adv_seen = refl;
      adv_fields = refl;
      adv_next = record { next_there = λ lt. absurd (ground arith); next_none = λ _. empty };
    })
  ]

  pub NextLoaded-same :
      (repeat : ℕ) (s r : Vector)
      → (at r).loaded ≡ (at s).loaded
      → NextLoaded repeat s
      → NextLoaded repeat r
  NextLoaded-same repeat s r e next = record {
    next_there = λ lt. let (gates, l, right) = next.next_there lt in (gates, e ∙ l, right);
    next_none = λ past. e ∙ next.next_none past;
  }

  -- The state before a batch, and the same with the batch's gates dequeued.
  pub record Before (repeat : ℕ) (s : Vector) : Type 0 where
    pub before_queued : Queued a inputs hw til l0 s
    pub before_kkt :
        (r j : ℕ)
        → r < share.row_count
        → j < 64
        → (at s).memory.floats kkt (r * 64 + j) ≡ gram a inputs til c (share.row_start + r) j
    pub before_seen : (at s).ready_seen ≡ c.round
    pub before_next : NextLoaded repeat s

  pub record Open (repeat : ℕ) (lo : share.first_repeat ≤ repeat) (hi : repeat < share.repeat_end)
      (s r : Vector) : Type 0 where
    pub open_gates : GatesHeld a inputs hw til l0 c (work_at repeat lo hi) (at r).memory
    pub open_loaded : (at r).loaded ≡ []
    pub open_queued : (at r).queued ≡ (at s).queued
    pub open_output : (at r).output ≡ (at s).output
    pub open_seen : (at r).ready_seen ≡ (at s).ready_seen
    pub open_kkt : SameKkt a (at s) (at r)
    pub open_fields : r.fields ≡ s.fields

  pub open_batch-Open :
      (repeat : ℕ) (lo : share.first_repeat ≤ repeat) (hi : repeat < share.repeat_end) (s : Vector)
      → NextLoaded repeat s
      → Open repeat lo hi s
          (open_batch a inputs hw til l0 c.chunk_len (batch_heads_at share repeat) s).1
  open_batch-Open repeat lo hi s next =
      let (gates, l, right) = next.next_there hi in
      let heads = batch_heads_at share repeat in
      let rest = opened-rest a inputs hw til l0 s c.chunk_len heads gates [] l fits.few_rows in
      record {
        open_gates = record {
          gate_held = λ h i lt small.
              opened-gate a inputs hw til l0 s c.chunk_len heads gates [] l fits.few_rows h i
                (inputs.g ((first_head + repeat + h) * til.t + (c.start + i))) lt small
                (λ near. right.g_loaded h i lt near);
          beta_held = λ h i lt small.
              opened-beta a inputs hw til l0 s c.chunk_len heads gates [] l fits.few_rows h i small
              ∙ right.beta_loaded h i lt small;
        };
        open_loaded = rest.0;
        open_queued = rest.1;
        open_output = rest.2;
        open_seen = rest.3;
        open_kkt = rest.4;
        open_fields = rest.5;
      }
