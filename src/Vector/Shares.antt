-- ===== src/Vector/Shares.antt =====
-- How the two lanes of a group share out the rows and heads of a task, and a lane its heads over
-- its batches.
use chunk_scaled_dot_kkt_asc.Prelude.{
  ℕ, zero, suc, ◌+◌, ◌-◌, ◌*◌, ◌/◌, ◌≤◌, ◌<◌, ◌≡◌, refl, true, arith, dec_lt, subst, sym, ◌↔◌,
  false, leb,
}
use chunk_scaled_dot_kkt_asc.Device.{bt, aivs_per_aic, gate_head_batch, min_i32}
use chunk_scaled_dot_kkt_asc.Vector.Task.{Share, share_of, batch_heads_at, batch_count}

-- A repeat of the KV head and a row of the chunk fall to a share.
pub record InShare (share : Share) (repeat row : ℕ) : Type 0 where
  pub from_first : share.first_repeat ≤ repeat
  pub before_end : repeat < share.repeat_end
  pub from_row : share.row_start ≤ row
  pub before_row : row < share.row_start + share.row_count

-- The split of the heads, and the split of the rows of a single head.
abbrev heads_split : (num_repeat lane chunk_len : ℕ) → Share
heads_split num_repeat lane chunk_len = record {
  row_start = 0;
  row_count = chunk_len;
  first_repeat = lane * num_repeat / 2;
  repeat_end = (lane + 1) * num_repeat / 2;
}

abbrev rows_split : (lane chunk_len : ℕ) → Share
rows_split lane chunk_len = record {
  row_start = lane * 32;
  row_count = min_i32 32 (chunk_len - lane * 32);
  first_repeat = 0;
  repeat_end = 1;
}

many_heads :
    (num_repeat lane chunk_len : ℕ)
    → 2 ≤ num_repeat
    → share_of num_repeat lane chunk_len true ≡ heads_split num_repeat lane chunk_len
unfolding share_of
many_heads num_repeat lane chunk_len le =
    let e : leb aivs_per_aic num_repeat ≡ true = ground arith in rw e refl

one_head :
    (num_repeat lane chunk_len : ℕ)
    → num_repeat < 2
    → share_of num_repeat lane chunk_len true ≡ rows_split lane chunk_len
unfolding share_of
one_head num_repeat lane chunk_len lt =
    let e : leb aivs_per_aic num_repeat ≡ false = ground arith in rw e refl

-- A repeat and a row of the task, exactly one lane of the two having them.
pub record IsShared (shares : ℕ → Share) (num_repeat chunk_len : ℕ) : Type 0 where
  pub inside :
      (lane repeat row : ℕ)
      → lane < aivs_per_aic
      → InShare (shares lane) repeat row
      → (repeat < num_repeat) × (row < chunk_len)
  pub covered :
      (repeat row : ℕ)
      → repeat < num_repeat
      → row < chunk_len
      → (lane : ℕ) × (lane < aivs_per_aic) × InShare (shares lane) repeat row
  pub unique :
      (lane lane' repeat row : ℕ)
      → lane < aivs_per_aic
      → lane' < aivs_per_aic
      → InShare (shares lane) repeat row
      → InShare (shares lane') repeat row
      → lane ≡ lane'

lane_end :
    (num_repeat lane repeat : ℕ)
    → lane < aivs_per_aic
    → repeat < (lane + 1) * num_repeat / 2
    → repeat < num_repeat
lane_end num_repeat zero repeat two lt = omega arith
lane_end num_repeat (suc zero) repeat two lt = omega arith
lane_end num_repeat (suc (suc lane)) repeat two lt = absurd (omega arith)

one_lane :
    (num_repeat lane lane' repeat : ℕ)
    → lane < aivs_per_aic
    → lane' < aivs_per_aic
    → lane * num_repeat / 2 ≤ repeat
    → repeat < (lane + 1) * num_repeat / 2
    → lane' * num_repeat / 2 ≤ repeat
    → repeat < (lane' + 1) * num_repeat / 2
    → lane ≡ lane'
one_lane num_repeat zero zero repeat two two' a b c d = refl
one_lane num_repeat zero (suc zero) repeat two two' a b c d = absurd (omega arith)
one_lane num_repeat (suc zero) zero repeat two two' a b c d = absurd (omega arith)
one_lane num_repeat (suc zero) (suc zero) repeat two two' a b c d = refl
one_lane num_repeat (suc (suc lane)) lane' repeat two two' a b c d = absurd (omega arith)
one_lane num_repeat lane (suc (suc lane')) repeat two two' a b c d = absurd (omega arith)

heads-IsShared :
    (num_repeat chunk_len : ℕ)
    → 2 ≤ num_repeat
    → IsShared (λ lane. heads_split num_repeat lane chunk_len) num_repeat chunk_len
heads-IsShared num_repeat chunk_len le = record {
  inside = λ lane repeat row two i.
      (lane_end num_repeat lane repeat two i.before_end, omega (arith, i.before_row));
  covered = λ repeat row lt lt'. elim (dec_lt repeat (num_repeat / 2)) [
    | yes low ↦ (
      0,
      omega arith,
      record {
        from_first = omega arith;
        before_end = omega arith;
        from_row = omega arith;
        before_row = omega arith;
      },
    )
    | no high ↦ (
      1,
      omega arith,
      record {
        from_first = omega arith;
        before_end = omega arith;
        from_row = omega arith;
        before_row = omega arith;
      },
    )
  ];
  unique = λ lane lane' repeat row two two' i j.
      one_lane num_repeat lane lane' repeat two two' i.from_first i.before_end j.from_first
        j.before_end;
}

rows-IsShared :
    (chunk_len : ℕ) → chunk_len ≤ bt → IsShared (λ lane. rows_split lane chunk_len) 1 chunk_len
rows-IsShared chunk_len le = record {
  inside = λ lane repeat row two i.
      (omega (arith, i.before_end), ground (arith, i.from_row, i.before_row));
  covered = λ repeat row lt lt'. elim (dec_lt row 32) [
    | yes low ↦ (
      0,
      omega arith,
      record {
        from_first = omega arith;
        before_end = omega arith;
        from_row = omega arith;
        before_row = ground arith;
      },
    )
    | no high ↦ (
      1,
      omega arith,
      record {
        from_first = omega arith;
        before_end = omega arith;
        from_row = omega arith;
        before_row = ground arith;
      },
    )
  ];
  unique = λ lane lane' repeat row two two' i j.
      ground (arith, i.from_row, i.before_row, j.from_row, j.before_row);
}

-- For a valid chunk of at most 64 rows the two lanes share the work of a task out: every repeat of
-- the KV head and every row of the chunk falls to exactly one lane, and no lane has a repeat or a
-- row beyond them, both where the lanes split the heads and where they split the rows.
pub share_of-IsShared :
    (num_repeat chunk_len : ℕ)
    → 0 < num_repeat
    → chunk_len ≤ bt
    → IsShared (λ lane. share_of num_repeat lane chunk_len true) num_repeat chunk_len
share_of-IsShared num_repeat chunk_len pos le = elim (dec_lt num_repeat 2) [
  | yes one ↦
      let single : 1 ≡ num_repeat = omega arith in
      let same : (λ (lane : ℕ). rows_split lane chunk_len)
          ≡ (λ lane. share_of num_repeat lane chunk_len true) =
        λ i lane. sym (one_head num_repeat lane chunk_len one) i in
      subst (λ shares. IsShared shares num_repeat chunk_len) same
        (subst (λ r. IsShared (λ lane. rows_split lane chunk_len) r chunk_len) single
          (rows-IsShared chunk_len le))
  | no many ↦
      let two : 2 ≤ num_repeat = omega arith in
      let same : (λ (lane : ℕ). heads_split num_repeat lane chunk_len)
          ≡ (λ lane. share_of num_repeat lane chunk_len true) =
        λ i lane. sym (many_heads num_repeat lane chunk_len two) i in
      subst (λ shares. IsShared shares num_repeat chunk_len) same
        (heads-IsShared num_repeat chunk_len two)
]

-- A repeat falls to a batch of a share.
abbrev pub InBatch : (share : Share) (repeat batch : ℕ) → Type 0
InBatch share repeat batch =
    (batch < batch_count share)
    × (share.first_repeat + batch * gate_head_batch ≤ repeat)
    × (repeat
        < share.first_repeat
          + batch * gate_head_batch
          + batch_heads_at share (share.first_repeat + batch * gate_head_batch))

-- A lane's batches share its heads out: a repeat is one of the share's exactly if it falls to some
-- batch, and then it falls to no other.
pub batches_cover :
    (share : Share) (repeat : ℕ)
    → ((share.first_repeat ≤ repeat) × (repeat < share.repeat_end)) ↔ (
        (batch : ℕ) × InBatch share repeat batch
        × ((other : ℕ) → InBatch share repeat other → other ≡ batch))
batches_cover share repeat = (
  λ (low, high). (
    (repeat - share.first_repeat) / 2,
    (ground arith, ground arith, ground arith),
    λ other (lt, from, to). ground arith,
  ),
  λ (batch, (lt, from, to), only). (omega arith, ground arith),
)
