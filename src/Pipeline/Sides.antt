-- ===== src/Pipeline/Sides.antt =====
-- The commands of a lane keep the invariant of its side.
use chunk_scaled_dot_kkt_asc.Prelude.{
  ℕ, ◌+◌, ◌<◌, ◌≡◌, refl, sym, ◌∙◌, ap, subst, true, Option, none, some, List, [], ◌∷◌, arith,
}
use chunk_scaled_dot_kkt_asc.Device.{ready_flag_for_slot, free_flag_for_slot}
use chunk_scaled_dot_kkt_asc.Vector
use chunk_scaled_dot_kkt_asc.Vector.Handshake
use chunk_scaled_dot_kkt_asc.Vector.Handshake.{Lane, before_round}
use chunk_scaled_dot_kkt_asc.Cube.Handshake.{Aic}
use chunk_scaled_dot_kkt_asc.Pipeline.{Side, side_next}
use chunk_scaled_dot_kkt_asc.Vector.Contract
use chunk_scaled_dot_kkt_asc.Vector.Prefetch
use chunk_scaled_dot_kkt_asc.Pipeline.Queues.{queue_next-some}
use chunk_scaled_dot_kkt_asc.Pipeline.Invariant.{run_on, run_on-none, SideOk}

module _ (group count : ℕ) where
  -- The head of a program that completes the protocol is no breach.
  side_moves :
      (c : Vector.Command) (cs : List Vector.Command) (l l' : Lane) (r : Option Lane)
      → Handshake.move group count c l ≡ r
      → run_on group count cs r ≡ some l'
      → (m : Lane) × (r ≡ some m)
  side_moves c cs l l' (some m) e h = (m, refl)
  side_moves c cs l l' none e h = absurd (ground (arith, run_on-none group count cs))

  module _ (a : Aic) (s : Side) (l : Lane) (ok : SideOk group count a s l) where
    side_wait :
        (flag : ℕ) (cs : List Vector.Command)
        → s.program ≡ Vector.cross_wait flag ∷ cs
        → (t : Side) → side_next s (Vector.cross_wait flag ∷ cs) ≡ some t
        → SideOk group count a t (record l { waits = l.waits + 1 })
    unfolding Handshake.follow ready_flag_for_slot free_flag_for_slot
    side_wait flag cs e t next =
        let runs : run_on group count cs (Handshake.move group count (Vector.cross_wait flag) l)
            ≡ some (before_round count count) =
          ap (λ p. run_on group count p (some l)) (sym e) ∙ ok.rest in
        let (m, moved) =
          side_moves (Vector.cross_wait flag) cs l (before_round count count) _ refl runs in
        record {
          at = ground arith;
          rest = ground arith;
          waits_le = ground arith;
          frees_le = ground arith;
          frees_count = ground arith;
          reading = ground arith;
          loaded_is = ground arith;
          cleared_is = ground arith;
          ready0 = ground arith;
          ready1 = ground arith;
          free0 = ground arith;
          free1 = ground arith;
        }

    side_set :
        (flag : ℕ) (cs : List Vector.Command)
        → s.program ≡ Vector.cross_set flag ∷ cs
        → (t : Side) → side_next s (Vector.cross_set flag ∷ cs) ≡ some t
        → SideOk group count a t (record l { frees = l.frees + 1 })
    unfolding Handshake.follow ready_flag_for_slot free_flag_for_slot
    side_set flag cs e t next =
        let runs : run_on group count cs (Handshake.move group count (Vector.cross_set flag) l)
            ≡ some (before_round count count) =
          ap (λ p. run_on group count p (some l)) (sym e) ∙ ok.rest in
        let (m, moved) =
          side_moves (Vector.cross_set flag) cs l (before_round count count) _ refl runs in
        record {
          at = ground arith;
          rest = ground arith;
          waits_le = ground arith;
          frees_le = ground arith;
          frees_count = ground arith;
          reading = ground arith;
          loaded_is = ground arith;
          cleared_is = ground arith;
          ready0 = ground arith;
          ready1 = ground arith;
          free0 = ground arith;
          free1 = ground arith;
        }

    -- A command that is no flag between the cores, with the lane's own flags after it.
    side_local :
        (c : Vector.Command) (cs : List Vector.Command) (m : Lane) (t : Side)
        → s.program ≡ c ∷ cs
        → Handshake.move group count c l ≡ some m
        → m.waits ≡ l.waits
        → m.frees ≡ l.frees
        → (m.loading ≡ true → l.frees < l.waits)
        → t.loaded ≡ m.signalled
        → t.cleared ≡ m.cleared
        → SideOk group count a
            (record s {
              program = cs;
              past = c ∷ s.past;
              loaded = t.loaded;
              cleared = t.cleared;
              slots = t.slots;
              pairs = t.pairs;
            })
            m
    unfolding Handshake.follow
    side_local c cs m t e moved same_waits same_frees reading same_loaded same_cleared =
        let runs : run_on group count cs (Handshake.move group count c l)
            ≡ some (before_round count count) =
          ap (λ p. run_on group count p (some l)) (sym e) ∙ ok.rest in
        record {
          at = ground arith;
          rest = ground arith;
          waits_le = ground arith;
          frees_le = ground arith;
          frees_count = ground arith;
          reading = ground arith;
          loaded_is = same_loaded;
          cleared_is = same_cleared;
          ready0 = ground arith;
          ready1 = ground arith;
          free0 = ground arith;
          free1 = ground arith;
        }

    pub side_keeps :
        (program : List Vector.Command) (t : Side)
        → s.program ≡ program
        → side_next s program ≡ some t
        → (m : Lane) × SideOk group count a t m
    side_keeps [] t e next = absurd (ground arith)
    side_keeps (Vector.cross_wait flag ∷ cs) t e next = (_, side_wait flag cs e t next)
    side_keeps (Vector.cross_set flag ∷ cs) t e next = (_, side_set flag cs e t next)
    side_keeps (c ∷ cs) t e next =
        let runs : run_on group count cs (Handshake.move group count c l)
            ≡ some (before_round count count) =
          ap (λ p. run_on group count p (some l)) (sym e) ∙ ok.rest in
        let (m, moved) = side_moves c cs l (before_round count count) _ refl runs in
        let local =
          queue_next-some (Contract.step c s.slots) (Prefetch.step c s.pairs)
            (record s { program = cs; past = c ∷ s.past }) t in
        let waits : m.waits ≡ l.waits = ground arith in
        let frees : m.frees ≡ l.frees = ground arith in
        let reading : m.loading ≡ true → l.frees < l.waits = ground (arith, ok.reading) in
        let loaded : t.loaded ≡ m.signalled = ground (arith, ok.loaded_is, local) in
        let cleared : t.cleared ≡ m.cleared = ground (arith, ok.cleared_is, local) in
        let same : record s {
          program = cs;
          past = c ∷ s.past;
          loaded = t.loaded;
          cleared = t.cleared;
          slots = t.slots;
          pairs = t.pairs;
        }
            ≡ t =
          ground (arith, local) in
        subst (λ t'. (n : Lane) × SideOk group count a t' n) same
          (m, side_local c cs m t e moved waits frees reading loaded cleared)
