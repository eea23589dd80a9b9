-- ===== src/Cube/Access.antt =====
-- Which commands of the AIC reach the key tensor and the workspace, and how far.
use chunk_scaled_dot_kkt_asc.Prelude.{
  ℕ, zero, suc, ◌+◌, ◌-◌, ◌*◌, ◌^◌, ◌≤◌, ◌<◌, ◌≡◌, refl, Bool, true, false, ◌&&◌, if◌then◌else◌,
  List, [], ◌∷◌, ◌++◌, arith, subst, sym,
}
use chunk_scaled_dot_kkt_asc.Prelude.Int.{sub32}
use chunk_scaled_dot_kkt_asc.Device.{slot_count, slot_offset, kkt_elems}
use chunk_scaled_dot_kkt_asc.Vector.Load.{is_valid_chunk}
use chunk_scaled_dot_kkt_asc.Cube.{Command, fixpipe, copy_k, for_rounds}

-- The last row's last element, and all before it, lie below `size`.
abbrev pub IsInside : (k_size workspace_size : ℕ) → Command → Type 0
IsInside k_size workspace_size (copy_k offset p) =
    offset + (p.n_value - 1) * p.src_d_value + p.d_value ≤ k_size
IsInside k_size workspace_size (fixpipe offset) = offset + kkt_elems ≤ workspace_size
IsInside k_size workspace_size _ = Unit

abbrev pub AreInside : (k_size workspace_size : ℕ) → List Command → Type 0
AreInside k w [] = Unit
AreInside k w (c ∷ cs) = IsInside k w c × AreInside k w cs

pub AreInside-append :
    (k w : ℕ) (xs ys : List Command)
    → AreInside k w xs
    → AreInside k w ys
    → AreInside k w (xs ++ ys)
AreInside-append k w [] ys h h' = h'
AreInside-append k w (c ∷ xs) ys h h' = (h.0, AreInside-append k w xs ys h.1 h')

pub AreInside-rounds :
    (k w count : ℕ) (body : ℕ → List Command)
    → ((r : ℕ) → r < count → AreInside k w (body r))
    → (n i : ℕ) → i + n ≤ count
    → AreInside k w (for_rounds n i body)
AreInside-rounds k w count body h zero i le = tt
AreInside-rounds k w count body h (suc n) i le =
    AreInside-append k w (body i) (for_rounds n (i + 1) body) (h i (omega arith))
      (AreInside-rounds k w count body h n (i + 1) (omega arith))

rows_fit :
    (start l hg kv d : ℕ) → kv < hg → (start * hg + kv) + l * hg + 1 ≤ (start + suc l + d) * hg
rows_fit start l hg kv d lt = omega arith

pub rows_inside :
    (start len t hg kv : ℕ)
    → start + len ≤ t
    → 0 < len
    → kv < hg
    → (start * hg + kv) + (len - 1) * hg + 1 ≤ t * hg
rows_inside start zero t hg kv le pos lt = absurd (omega arith)
rows_inside start (suc l) t hg kv le pos lt =
    let split : start + suc l + (t - (start + suc l)) ≡ t = omega arith in
    let same : suc l - 1 ≡ l = omega arith in
    subst (λ n. (start * hg + kv) + (suc l - 1) * hg + 1 ≤ n * hg) split
      (subst (λ m. (start * hg + kv) + m * hg + 1 ≤ (start + suc l + (t - (start + suc l))) * hg)
        (sym same) (rows_fit start l hg kv (t - (start + suc l)) lt))

pub slot_inside :
    (group slot block_dim : ℕ)
    → group < block_dim
    → slot < slot_count
    → slot_offset group slot + kkt_elems ≤ block_dim * slot_count * kkt_elems
slot_inside group slot block_dim lt lt' = omega arith

-- A chunk that passes the test, its end not being negative, lies inside the sequence.
pub valid_inside :
    (t start end : ℕ)
    → end < 2 ^ 31
    → is_valid_chunk t start end ≡ true
    → (start + sub32 end start ≤ t) × (0 < sub32 end start) × (sub32 end start ≤ 64)
unfolding is_valid_chunk
valid_inside t start end small h = (ground arith, ground arith, ground arith)

-- Commands that reach neither tensor.
abbrev is_local : Command → Bool
is_local (copy_k _ _) = false
is_local (fixpipe _) = false
is_local _ = true

abbrev are_local : List Command → Bool
are_local [] = true
are_local (c ∷ cs) = is_local c && are_local cs

local_command : (k w : ℕ) (c : Command) → is_local c ≡ true → IsInside k w c
local_command k w (copy_k offset p) h = absurd (ground arith)
local_command k w (fixpipe offset) h = absurd (ground arith)
local_command k w _ h = tt

pub local-AreInside : (k w : ℕ) (cs : List Command) → are_local cs ≡ true → AreInside k w cs
local-AreInside k w [] h = tt
local-AreInside k w (c ∷ cs) h =
    (local_command k w c (ground arith), local-AreInside k w cs (ground arith))

if-AreInside :
    (k w : ℕ) (b : Bool) (cs : List Command)
    → (b ≡ true → AreInside k w cs)
    → AreInside k w (if b then cs else [])
if-AreInside k w true cs h = h refl
if-AreInside k w false cs h = tt

-- The parts of a task.
abbrev pub task_list :
    (waits valid : Bool) (before gram : List Command) (wait commit ready done : Command)
    → List Command
task_list waits valid before gram wait commit ready done =
    before
    ++ (if valid then gram else [])
    ++ (if waits then wait ∷ [] else [])
    ++ (if valid then commit ∷ [] else [])
    ++ (ready ∷ [])
    ++ (if valid then done ∷ [] else [])

pub task-AreInside :
    (k w : ℕ) (waits valid : Bool) (before gram : List Command) (wait commit ready done : Command)
    → AreInside k w before
    → (valid ≡ true → AreInside k w gram)
    → is_local wait ≡ true
    → IsInside k w commit
    → is_local ready ≡ true
    → is_local done ≡ true
    → AreInside k w (task_list waits valid before gram wait commit ready done)
task-AreInside k w waits valid before gram wait commit ready done hb g hw hc hr hd =
    AreInside-append k w _ _
      (AreInside-append k w _ _
        (AreInside-append k w _ _
          (AreInside-append k w _ _ (AreInside-append k w _ _ hb (if-AreInside k w valid gram g))
            (if-AreInside k w waits (wait ∷ []) (λ b. (local_command k w wait hw, tt))))
          (if-AreInside k w valid (commit ∷ []) (λ b. (hc, tt))))
        (local_command k w ready hr, tt))
      (if-AreInside k w valid (done ∷ []) (λ b. (local_command k w done hd, tt)))

-- The copy of a chunk, after its wait and the clearing of a tail.
pub copy-AreInside :
    (k w : ℕ) (tail : Bool) (wait clear copy done : Command)
    → is_local wait ≡ true
    → is_local clear ≡ true
    → IsInside k w copy
    → is_local done ≡ true
    → AreInside k w ((wait ∷ []) ++ (if tail then clear ∷ [] else []) ++ (copy ∷ done ∷ []))
copy-AreInside k w tail wait clear copy done hw hc h hd =
    AreInside-append k w ((wait ∷ []) ++ (if tail then clear ∷ [] else [])) (copy ∷ done ∷ [])
      (AreInside-append k w (wait ∷ []) (if tail then clear ∷ [] else [])
        (local_command k w wait hw, tt)
        (if-AreInside k w tail (clear ∷ []) (λ b. (local_command k w clear hc, tt))))
      (h, (local_command k w done hd, tt))
