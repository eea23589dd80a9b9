-- ===== src/Vector/Values/Opened.antt =====
-- The gates and betas of a batch once they are dequeued and the rest of each row is zeroed.
use chunk_scaled_dot_kkt_asc.Prelude.{
  ℕ, zero, suc, ◌+◌, ◌*◌, ◌≤◌, ◌<◌, ◌≡◌, ◌∙◌, Bool, false, ◌&&◌, ltb, leb, ◌==◌, if◌then◌else◌,
  List, ◌∷◌, arith, refl, ap, Bool-cases, ==_iff, dec_lt, inl, inr,
}
use chunk_scaled_dot_kkt_asc.Device.{TilingData, row_elems}
use chunk_scaled_dot_kkt_asc.Vector.{
  Vector, out, gate, beta, M, emit, deque_gate, ◌>>◌, ◌>>=◌, skip,
}
use chunk_scaled_dot_kkt_asc.Vector.Load.{
  zero_suffix, zero_heads, zero_tail_gate_and_beta_batch_suffix, aligned,
}
use chunk_scaled_dot_kkt_asc.Vector.Values.{Arithmetic, effect}
use chunk_scaled_dot_kkt_asc.Vector.Values.Lane.{
  Inputs, Lane, SameQueues, SameKkt, Hardware, documented, Gates,
}
use chunk_scaled_dot_kkt_asc.Vector.Values.Delayed.{lane}

module _ (a : Arithmetic) (inputs : Inputs a) (hw : Hardware a inputs) (til : TilingData)
    (l0 : Lane a) where
  open a use {Float, Bfloat, zero_float, zero_bfloat}

  abbrev at : Vector → Lane a
  at = lane a inputs hw til l0

  abbrev zero_one : (head chunk_len : ℕ) (issued : Bool) → M Bool
  zero_one head chunk_len issued =
      zero_suffix gate (head * row_elems) (aligned chunk_len 8) issued
      >>= zero_suffix beta (head * row_elems) (aligned chunk_len 16)

  zero_one-gate :
      (head chunk_len : ℕ) (issued : Bool) (s : Vector) (h i : ℕ)
      → i < 64
      → (at (zero_one head chunk_len issued s).1).memory.floats gate (h * 64 + i) ≡ (
          if h == head && leb (aligned chunk_len 8) i
          then zero_float
          else (at s).memory.floats gate (h * 64 + i))
  unfolding documented effect
  zero_one-gate head chunk_len issued s h i small = ground arith

  zero_one-beta :
      (head chunk_len : ℕ) (issued : Bool) (s : Vector) (h i : ℕ)
      → i < chunk_len
      → chunk_len ≤ 64
      → (at (zero_one head chunk_len issued s).1).memory.bfloats beta (h * 64 + i)
        ≡ (at s).memory.bfloats beta (h * 64 + i)
  unfolding documented effect
  zero_one-beta head chunk_len issued s h i small few = ground arith

  zero_one-rest :
      (head chunk_len : ℕ) (issued : Bool) (s : Vector)
      → SameQueues a (at s) (at (zero_one head chunk_len issued s).1)
  unfolding documented effect
  zero_one-rest head chunk_len issued s = ground arith

  zero_heads-gate :
      (heads head chunk_len : ℕ) (issued : Bool) (s : Vector) (h i : ℕ)
      → i < 64
      → (at (zero_heads heads head chunk_len issued s).1).memory.floats gate (h * 64 + i) ≡ (
          if leb head h && ltb h (head + heads) && leb (aligned chunk_len 8) i
          then zero_float
          else (at s).memory.floats gate (h * 64 + i))
  unfolding zero_heads
  zero_heads-gate zero head chunk_len issued s h i small = ground arith
  zero_heads-gate (suc heads) head chunk_len issued s h i small =
      let next = zero_one head chunk_len issued s in
      ground (
        arith,
        zero_one-gate head chunk_len issued s h i small,
        zero_heads-gate heads (head + 1) chunk_len next.0 next.1 h i small,
      )

  zero_one-kkt :
      (head chunk_len : ℕ) (issued : Bool) (s : Vector)
      → SameKkt a (at s) (at (zero_one head chunk_len issued s).1)
  unfolding documented effect
  zero_one-kkt head chunk_len issued s = ground arith

  zero_one-fields :
      (head chunk_len : ℕ) (issued : Bool) (s : Vector)
      → (zero_one head chunk_len issued s).1.fields ≡ s.fields
  zero_one-fields head chunk_len issued s = ground arith

  -- The state of a method that changes the dequeued gates and betas only.
  pub record GatesOnly (s r : Vector) : Type 0 where
    pub gates_queues : SameQueues a (at s) (at r)
    pub gates_kkt : SameKkt a (at s) (at r)
    pub gates_fields : r.fields ≡ s.fields

  pub GatesOnly-trans : (s r u : Vector) → GatesOnly s r → GatesOnly r u → GatesOnly s u
  GatesOnly-trans s r u p q = record {
    gates_queues = record {
      same_loaded = q.gates_queues.same_loaded ∙ p.gates_queues.same_loaded;
      same_queued = q.gates_queues.same_queued ∙ p.gates_queues.same_queued;
      same_output = q.gates_queues.same_output ∙ p.gates_queues.same_output;
      same_seen = q.gates_queues.same_seen ∙ p.gates_queues.same_seen;
    };
    gates_kkt = q.gates_kkt ∙ p.gates_kkt;
    gates_fields = q.gates_fields ∙ p.gates_fields;
  }

  pub GatesOnly-refl : (s : Vector) → GatesOnly s s
  GatesOnly-refl s = record {
    gates_queues = record {
      same_loaded = refl;
      same_queued = refl;
      same_output = refl;
      same_seen = refl;
    };
    gates_kkt = refl;
    gates_fields = refl;
  }

  zero_one-only :
      (head chunk_len : ℕ) (issued : Bool) (s : Vector)
      → GatesOnly s (zero_one head chunk_len issued s).1
  zero_one-only head chunk_len issued s = record {
    gates_queues = zero_one-rest head chunk_len issued s;
    gates_kkt = zero_one-kkt head chunk_len issued s;
    gates_fields = zero_one-fields head chunk_len issued s;
  }

  zero_heads-only :
      (heads head chunk_len : ℕ) (issued : Bool) (s : Vector)
      → GatesOnly s (zero_heads heads head chunk_len issued s).1
  unfolding zero_heads
  zero_heads-only zero head chunk_len issued s = GatesOnly-refl s
  zero_heads-only (suc heads) head chunk_len issued s =
      let next = zero_one head chunk_len issued s in
      GatesOnly-trans s next.1 (zero_heads (suc heads) head chunk_len issued s).1
        (zero_one-only head chunk_len issued s)
        (zero_heads-only heads (head + 1) chunk_len next.0 next.1)

  zero_heads-beta :
      (heads head chunk_len : ℕ) (issued : Bool) (s : Vector) (h i : ℕ)
      → i < chunk_len
      → chunk_len ≤ 64
      → (at (zero_heads heads head chunk_len issued s).1).memory.bfloats beta (h * 64 + i)
        ≡ (at s).memory.bfloats beta (h * 64 + i)
  unfolding zero_heads
  zero_heads-beta zero head chunk_len issued s h i small few = refl
  zero_heads-beta (suc heads) head chunk_len issued s h i small few =
      let next = zero_one head chunk_len issued s in
      zero_heads-beta heads (head + 1) chunk_len next.0 next.1 h i small few
      ∙ zero_one-beta head chunk_len issued s h i small few

  zeroed-same :
      (s : Vector) (chunk_len heads : ℕ)
      → (at (zero_tail_gate_and_beta_batch_suffix chunk_len heads s).1
          ≡ at (zero_heads heads 0 chunk_len false s).1)
        × ((zero_tail_gate_and_beta_batch_suffix chunk_len heads s).1.fields
            ≡ (zero_heads heads 0 chunk_len false s).1.fields)
  unfolding zero_tail_gate_and_beta_batch_suffix documented effect
  zeroed-same s chunk_len heads = elim (Bool-cases (zero_heads heads 0 chunk_len false s).0) [
    | inl issued ↦ rw issued (refl, refl)
    | inr none_issued ↦ rw none_issued (refl, refl)
  ]

  -- Zeroing behind the chunk's end.
  abbrev rest_zeroed : (chunk_len heads : ℕ) → M (Unit {0})
  rest_zeroed chunk_len heads =
      if chunk_len == row_elems then skip else zero_tail_gate_and_beta_batch_suffix chunk_len heads

  rest_zeroed-only :
      (s : Vector) (chunk_len heads : ℕ) → GatesOnly s (rest_zeroed chunk_len heads s).1
  rest_zeroed-only s chunk_len heads =
      let same = zeroed-same s chunk_len heads in
      let only = zero_heads-only heads 0 chunk_len false s in
      elim (Bool-cases (chunk_len == row_elems)) [
        | inl full ↦ rw full (GatesOnly-refl s)
        | inr tail ↦ rw tail (record {
          gates_queues = rw same.0 only.gates_queues;
          gates_kkt = rw same.0 only.gates_kkt;
          gates_fields = same.1 ∙ only.gates_fields;
        })
      ]

  rest_zeroed-gate :
      (s : Vector) (chunk_len heads h i : ℕ) (x : Float)
      → h < heads
      → i < 64
      → chunk_len ≤ 64
      → (i < aligned chunk_len 8
          → (at s).memory.floats gate (h * 64 + i) ≡ (if ltb i chunk_len then x else zero_float))
      → (at (rest_zeroed chunk_len heads s).1).memory.floats gate (h * 64 + i)
        ≡ (if ltb i chunk_len then x else zero_float)
  rest_zeroed-gate s chunk_len heads h i x lt small few right =
      elim (Bool-cases (chunk_len == row_elems)) [
        | inl full ↦
            let whole : chunk_len ≡ 64 = (==_iff chunk_len 64).0 full in
            rw full (right (omega arith))
        | inr tail ↦
            rw
              (
                tail,
                (zeroed-same s chunk_len heads).0,
                zero_heads-gate heads 0 chunk_len false s h i small,
              )
              (elim (dec_lt i (aligned chunk_len 8)) [
                | yes near ↦ ground (arith, right near)
                | no far ↦ ground arith
              ])
      ]

  rest_zeroed-beta :
      (s : Vector) (chunk_len heads h i : ℕ)
      → i < chunk_len
      → chunk_len ≤ 64
      → (at (rest_zeroed chunk_len heads s).1).memory.bfloats beta (h * 64 + i)
        ≡ (at s).memory.bfloats beta (h * 64 + i)
  rest_zeroed-beta s chunk_len heads h i small few = elim (Bool-cases (chunk_len == row_elems)) [
    | inl full ↦ rw full refl
    | inr tail ↦
        rw (tail, (zeroed-same s chunk_len heads).0)
          (zero_heads-beta heads 0 chunk_len false s h i small few)
  ]

  -- The next batch's tensors are taken from the queues, and the rest of their rows is zeroed.
  abbrev pub open_batch : (chunk_len heads : ℕ) → M (Unit {0})
  open_batch chunk_len heads = emit deque_gate >> rest_zeroed chunk_len heads

  module _ (s : Vector) (chunk_len heads : ℕ) (gates : Gates a) (rest : List (Gates a))
      (next : (at s).loaded ≡ gates ∷ rest) (few : chunk_len ≤ 64) where
    abbrev opened : Vector
    opened = (open_batch chunk_len heads s).1

    taken-gate :
        ((at (emit deque_gate s).1).memory.floats gate ≡ gates.g_part)
        × ((at (emit deque_gate s).1).memory.bfloats beta ≡ gates.beta_part)
    unfolding documented
    taken-gate = rw next (refl, refl)

    taken-rest :
        ((at (emit deque_gate s).1).loaded ≡ rest)
        × ((at (emit deque_gate s).1).queued ≡ (at s).queued)
        × ((at (emit deque_gate s).1).output ≡ (at s).output)
        × ((at (emit deque_gate s).1).ready_seen ≡ (at s).ready_seen)
        × SameKkt a (at s) (at (emit deque_gate s).1)
    unfolding documented
    taken-rest = rw next (refl, refl, refl, refl, refl)

    pub taken-out : (at (emit deque_gate s).1).memory.floats out ≡ (at s).memory.floats out
    unfolding documented
    taken-out = rw next refl

    pub opened-gate :
        (h i : ℕ) (x : Float)
        → h < heads
        → i < 64
        → (i < aligned chunk_len 8
            → gates.g_part (h * 64 + i) ≡ (if ltb i chunk_len then x else zero_float))
        → (at opened).memory.floats gate (h * 64 + i) ≡ (if ltb i chunk_len then x else zero_float)
    opened-gate h i x lt small right =
        rest_zeroed-gate (emit deque_gate s).1 chunk_len heads h i x lt small few
          (λ near. ap (λ (f : ℕ → Float). f (h * 64 + i)) taken-gate.0 ∙ right near)

    pub opened-beta :
        (h i : ℕ)
        → i < chunk_len
        → (at opened).memory.bfloats beta (h * 64 + i) ≡ gates.beta_part (h * 64 + i)
    opened-beta h i small =
        rest_zeroed-beta (emit deque_gate s).1 chunk_len heads h i small few
        ∙ ap (λ (f : ℕ → Bfloat). f (h * 64 + i)) taken-gate.1

    pub opened-rest :
        ((at opened).loaded ≡ rest)
        × ((at opened).queued ≡ (at s).queued)
        × ((at opened).output ≡ (at s).output)
        × ((at opened).ready_seen ≡ (at s).ready_seen)
        × SameKkt a (at s) (at opened)
        × (opened.fields ≡ s.fields)
    opened-rest =
        let taken = taken-rest in
        let only = rest_zeroed-only (emit deque_gate s).1 chunk_len heads in
        (
          only.gates_queues.same_loaded ∙ taken.0,
          only.gates_queues.same_queued ∙ taken.1,
          only.gates_queues.same_output ∙ taken.2,
          only.gates_queues.same_seen ∙ taken.3,
          only.gates_kkt ∙ taken.4,
          only.gates_fields,
        )
