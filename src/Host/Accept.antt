-- ===== src/Host/Accept.antt =====
-- Which inputs `ValidateAndReadShape` accepts, and what it reads from them.
use chunk_scaled_dot_kkt_asc.Prelude.{
  ◌+◌, ◌%◌, ◌<◌, ◌≡◌, refl, ◌⊎◌, ◌↔◌, true, Option, none, some, [], ◌∷◌, ◌==◌, length, arith, ap,
  subst, ◌∙◌,
}
use chunk_scaled_dot_kkt_asc.Prelude.Int.{ℤ, pos}
use chunk_scaled_dot_kkt_asc.Host.Shapes.{
  Shape, Inputs, Sizes, validate_and_read_shape, infer_shape,
}

-- What the operator supports.
pub record IsSupported (s : Sizes) : Type 0 where
  pub t_pos : 0 < s.t
  pub h_pos : 0 < s.h
  pub hg_pos : 0 < s.hg
  pub k_dim_known : (s.k_dim ≡ 128) ⊎ (s.k_dim ≡ 256)
  pub divides : s.h % s.hg ≡ 0
  pub chunks_pos : 0 < s.num_chunks

-- The documented layouts [1,T,Hg,K], [1,H,T], [1,H,T] and [chunks + 1].
abbrev pub inputs_of : Sizes → Inputs
inputs_of s = record {
  k = some (pos 1 ∷ pos s.t ∷ pos s.hg ∷ pos s.k_dim ∷ []);
  beta = some (pos 1 ∷ pos s.h ∷ pos s.t ∷ []);
  g_cumsum = some (pos 1 ∷ pos s.h ∷ pos s.t ∷ []);
  chunk_offsets = some (pos (s.num_chunks + 1) ∷ []);
}

pub validate-inputs_of :
    (s : Sizes) → IsSupported s → validate_and_read_shape (inputs_of s) ≡ some s
unfolding validate_and_read_shape
validate-inputs_of s ok = ground arith

module _ (k0 k1 k2 k3 b0 b1 b2 g0 g1 g2 o0 : ℤ) where
  abbrev ranked : Inputs
  ranked = record {
    k = some (k0 ∷ k1 ∷ k2 ∷ k3 ∷ []);
    beta = some (b0 ∷ b1 ∷ b2 ∷ []);
    g_cumsum = some (g0 ∷ g1 ∷ g2 ∷ []);
    chunk_offsets = some (o0 ∷ []);
  }

  ranked-IsSupported : (s : Sizes) → validate_and_read_shape ranked ≡ some s → IsSupported s
  unfolding validate_and_read_shape
  ranked-IsSupported s h = ground arith

  ranked-inputs_of : (s : Sizes) → validate_and_read_shape ranked ≡ some s → ranked ≡ inputs_of s
  unfolding validate_and_read_shape
  ranked-inputs_of s h = ground arith

rank_one : (xs : Shape) → (length xs == 1) ≡ true → (a : ℤ) × (xs ≡ a ∷ [])
rank_one [] h = absurd (ground arith)
rank_one (a ∷ []) h = (a, refl)
rank_one (a ∷ b ∷ xs) h = absurd (ground arith)

rank_three : (xs : Shape) → (length xs == 3) ≡ true → (a b c : ℤ) × (xs ≡ a ∷ b ∷ c ∷ [])
rank_three [] h = absurd (ground arith)
rank_three (a ∷ []) h = absurd (ground arith)
rank_three (a ∷ b ∷ []) h = absurd (ground arith)
rank_three (a ∷ b ∷ c ∷ []) h = (a, b, c, refl)
rank_three (a ∷ b ∷ c ∷ d ∷ xs) h = absurd (ground arith)

rank_four : (xs : Shape) → (length xs == 4) ≡ true → (a b c d : ℤ) × (xs ≡ a ∷ b ∷ c ∷ d ∷ [])
rank_four (a ∷ xs) h = let (b, c, d, e) = rank_three xs (ground arith) in (a, b, c, d, ap (◌∷◌ a) e)
rank_four [] h = absurd (ground arith)

ranks :
    (k b g o : Shape) (s : Sizes)
    → validate_and_read_shape
        (record { k = some k; beta = some b; g_cumsum = some g; chunk_offsets = some o })
      ≡ some s
    → ((length k == 4) ≡ true)
      × ((length b == 3) ≡ true)
      × ((length g == 3) ≡ true)
      × ((length o == 1) ≡ true)
unfolding validate_and_read_shape
ranks k b g o s h = ground arith

-- A sound reading: what is accepted has the documented layout and is supported.
accepted_shapes :
    (k b g o : Shape) (s : Sizes)
    → validate_and_read_shape
        (record { k = some k; beta = some b; g_cumsum = some g; chunk_offsets = some o })
      ≡ some s
    → IsSupported s
      × (record { k = some k; beta = some b; g_cumsum = some g; chunk_offsets = some o }
          ≡ inputs_of s)
accepted_shapes k b g o s h =
    let (rk, rb, rg, ro) = ranks k b g o s h in
    let (k0, k1, k2, k3, ek) = rank_four k rk in
    let (b0, b1, b2, eb) = rank_three b rb in
    let (g0, g1, g2, eg) = rank_three g rg in
    let (o0, eo) = rank_one o ro in
    let same : record { k = some k; beta = some b; g_cumsum = some g; chunk_offsets = some o }
        ≡ ranked k0 k1 k2 k3 b0 b1 b2 g0 g1 g2 o0 =
      cc in
    let h' = subst (λ i. validate_and_read_shape i ≡ some s) same h in
    (
      ranked-IsSupported k0 k1 k2 k3 b0 b1 b2 g0 g1 g2 o0 s h',
      same ∙ ranked-inputs_of k0 k1 k2 k3 b0 b1 b2 g0 g1 g2 o0 s h',
    )

accepted_pointers :
    (k b g o : Option Shape) (s : Sizes)
    → validate_and_read_shape (record { k = k; beta = b; g_cumsum = g; chunk_offsets = o }) ≡ some s
    → IsSupported s × (record { k = k; beta = b; g_cumsum = g; chunk_offsets = o } ≡ inputs_of s)
unfolding validate_and_read_shape
accepted_pointers (some k) (some b) (some g) (some o) s h = accepted_shapes k b g o s h
accepted_pointers none b g o s h = absurd (ground arith)
accepted_pointers (some k) none g o s h = absurd (ground arith)
accepted_pointers (some k) (some b) none o s h = absurd (ground arith)
accepted_pointers (some k) (some b) (some g) none s h = absurd (ground arith)

-- The validation accepts exactly the inputs with the documented layout of some supported sizes,
-- and reads those sizes: shapes that it accepts are the layout of the sizes read, and the layout of
-- supported sizes is accepted and read back.
pub validate_iff :
    (inputs : Inputs) (s : Sizes)
    → (validate_and_read_shape inputs ≡ some s) ↔ (IsSupported s × (inputs ≡ inputs_of s))
validate_iff inputs s = (
  accepted_pointers inputs.k inputs.beta inputs.g_cumsum inputs.chunk_offsets s,
  λ h. ap validate_and_read_shape h.1 ∙ validate-inputs_of s h.0,
)

-- For the inputs that the validation accepts, the inferred output shape is [1, H, T, 64] of the
-- sizes read.
pub infer_shape-validated :
    (inputs : Inputs) (s : Sizes)
    → validate_and_read_shape inputs ≡ some s
    → infer_shape inputs.k inputs.beta true ≡ some (pos 1 ∷ pos s.h ∷ pos s.t ∷ pos 64 ∷ [])
unfolding infer_shape
infer_shape-validated inputs s h =
    let (_, e) = (validate_iff inputs s).0 h in
    rw (ap (λ (i : Inputs). i.k) e, ap (λ (i : Inputs). i.beta) e) refl
