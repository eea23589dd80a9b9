-- ===== src/Pipeline/Preserved.antt =====
-- Every step keeps the invariant.
use chunk_scaled_dot_kkt_asc.Prelude.{
  ℕ, ◌≡◌, refl, sym, ◌∙◌, ap, subst, false, Option, none, some, List, [], ◌∷◌, arith, ◌==◌,
}
use chunk_scaled_dot_kkt_asc.Device.{ready_flag_for_slot, free_flag_for_slot}
use chunk_scaled_dot_kkt_asc.Vector.Handshake.{Lane}
use chunk_scaled_dot_kkt_asc.Cube
use chunk_scaled_dot_kkt_asc.Cube.Handshake.{Aic, at_round}
use chunk_scaled_dot_kkt_asc.Cube.Handshake as AicSide
use chunk_scaled_dot_kkt_asc.Pipeline.{
  Side, System, aic_next, Step, by_aic, by_side0, by_side1, raise, lower,
}
use chunk_scaled_dot_kkt_asc.Pipeline.Invariant.{follow-none, SideOk, AicOk, Ok}
use chunk_scaled_dot_kkt_asc.Pipeline.Sides.{side_keeps}

module _ (group count : ℕ) where
  aic_moves :
      (c : Cube.Command) (cs : List Cube.Command) (a a' : Aic) (r : Option Aic)
      → AicSide.move group count c a ≡ r
      → AicSide.follow group count cs r ≡ some a'
      → (m : Aic) × (r ≡ some m)
  aic_moves c cs a a' (some m) e h = (m, refl)
  aic_moves c cs a a' none e h = absurd (ground (arith, follow-none group count cs))

  module _ (a m : Aic) (flag : ℕ) (past cs : List Cube.Command)
      (ok : AicOk group count past (Cube.cross_wait flag ∷ cs) a)
      (moved : AicSide.move group count (Cube.cross_wait flag) a ≡ some m) where
    aic_wait : AicOk group count (Cube.cross_wait flag ∷ past) cs m
    aic_wait = record {
      at = ground (arith, ok.at);
      rest = ground (arith, ok.rest);
      round_le = ground (arith, ok.round_le);
      waited_late = ground arith;
      waited_before = ground arith;
    }

    aic_wait-SideOk :
        (s : Side) (l : Lane)
        → SideOk group count a s l
        → (s.free flag == 0) ≡ false
        → SideOk group count m (record s { free = lower flag s.free }) l
    unfolding ready_flag_for_slot free_flag_for_slot
    aic_wait-SideOk s l side set = record {
      at = side.at;
      rest = side.rest;
      waits_le = side.waits_le;
      frees_le = side.frees_le;
      frees_count = side.frees_count;
      reading = side.reading;
      loaded_is = side.loaded_is;
      cleared_is = side.cleared_is;
      ready0 = ground arith;
      ready1 = ground arith;
      free0 = ground arith;
      free1 = ground arith;
    }

  module _ (a m : Aic) (flag : ℕ) (past cs : List Cube.Command)
      (ok : AicOk group count past (Cube.cross_set flag ∷ cs) a)
      (moved : AicSide.move group count (Cube.cross_set flag) a ≡ some m) where
    aic_set : AicOk group count (Cube.cross_set flag ∷ past) cs m
    aic_set = record {
      at = ground (arith, ok.at);
      rest = ground (arith, ok.rest);
      round_le = ground (arith, ok.round_le);
      waited_late = ground arith;
      waited_before = ground arith;
    }

    aic_set-SideOk :
        (s : Side) (l : Lane)
        → SideOk group count a s l
        → SideOk group count m (record s { ready = raise flag s.ready }) l
    unfolding ready_flag_for_slot free_flag_for_slot
    aic_set-SideOk s l side = record {
      at = side.at;
      rest = side.rest;
      waits_le = side.waits_le;
      frees_le = side.frees_le;
      frees_count = side.frees_count;
      reading = side.reading;
      loaded_is = side.loaded_is;
      cleared_is = side.cleared_is;
      ready0 = ground (arith, ok.waited_late);
      ready1 = ground (arith, ok.waited_late);
      free0 = ground (arith, ok.waited_late);
      free1 = ground (arith, ok.waited_late);
    }

  aic_keeps :
      (s : System) (program : List Cube.Command) (t : System)
      → Ok group count s
      → s.aic ≡ program
      → aic_next s program ≡ some t
      → Ok group count t
  aic_keeps s [] t ok e next = absurd (ground arith)
  aic_keeps s (Cube.cross_wait flag ∷ cs) t ok e next =
      let here : AicOk group count s.aic_past (Cube.cross_wait flag ∷ cs) ok.aic_at =
        subst (λ p. AicOk group count s.aic_past p ok.aic_at) e ok.aic_ok in
      let (m, moved) =
        aic_moves (Cube.cross_wait flag) cs ok.aic_at (at_round count) _ refl here.rest in
      let set0 : (s.side0.free flag == 0) ≡ false = ground arith in
      let set1 : (s.side1.free flag == 0) ≡ false = ground arith in
      let same : record s {
        aic = cs;
        aic_past = Cube.cross_wait flag ∷ s.aic_past;
        side0 = record (s.side0) { free = lower flag s.side0.free };
        side1 = record (s.side1) { free = lower flag s.side1.free };
      }
          ≡ t =
        ground arith in
      subst (Ok group count) same (record {
        aic_at = m;
        lane0 = ok.lane0;
        lane1 = ok.lane1;
        aic_ok = aic_wait ok.aic_at m flag s.aic_past cs here moved;
        side0_ok =
            aic_wait-SideOk ok.aic_at m flag s.aic_past cs here moved s.side0 ok.lane0 ok.side0_ok
              set0;
        side1_ok =
            aic_wait-SideOk ok.aic_at m flag s.aic_past cs here moved s.side1 ok.lane1 ok.side1_ok
              set1;
      })
  aic_keeps s (Cube.cross_set flag ∷ cs) t ok e next =
      let here : AicOk group count s.aic_past (Cube.cross_set flag ∷ cs) ok.aic_at =
        subst (λ p. AicOk group count s.aic_past p ok.aic_at) e ok.aic_ok in
      let (m, moved) =
        aic_moves (Cube.cross_set flag) cs ok.aic_at (at_round count) _ refl here.rest in
      let same : record s {
        aic = cs;
        aic_past = Cube.cross_set flag ∷ s.aic_past;
        side0 = record (s.side0) { ready = raise flag s.side0.ready };
        side1 = record (s.side1) { ready = raise flag s.side1.ready };
      }
          ≡ t =
        ground arith in
      subst (Ok group count) same (record {
        aic_at = m;
        lane0 = ok.lane0;
        lane1 = ok.lane1;
        aic_ok = aic_set ok.aic_at m flag s.aic_past cs here moved;
        side0_ok =
            aic_set-SideOk ok.aic_at m flag s.aic_past cs here moved s.side0 ok.lane0 ok.side0_ok;
        side1_ok =
            aic_set-SideOk ok.aic_at m flag s.aic_past cs here moved s.side1 ok.lane1 ok.side1_ok;
      })
  aic_keeps s (c ∷ cs) t ok e next =
      let here : AicOk group count s.aic_past (c ∷ cs) ok.aic_at =
        subst (λ p. AicOk group count s.aic_past p ok.aic_at) e ok.aic_ok in
      let (m, moved) = aic_moves c cs ok.aic_at (at_round count) _ refl here.rest in
      let stays : m ≡ ok.aic_at = ground arith in
      let same : record s { aic = cs; aic_past = c ∷ s.aic_past; flags = t.flags } ≡ t =
        ground arith in
      subst (Ok group count) same (record {
        aic_at = ok.aic_at;
        lane0 = ok.lane0;
        lane1 = ok.lane1;
        aic_ok = record {
          at = ap (λ o. AicSide.then_move group count o c) here.at ∙ moved ∙ ap some stays;
          rest = ap (AicSide.follow group count cs) (ap some (sym stays) ∙ sym moved) ∙ here.rest;
          round_le = here.round_le;
          waited_late = here.waited_late;
          waited_before = here.waited_before;
        };
        side0_ok = ok.side0_ok;
        side1_ok = ok.side1_ok;
      })

  pub Step-Ok : (s t : System) → Step s t → Ok group count s → Ok group count t
  Step-Ok s t (by_aic next) ok = aic_keeps s s.aic t ok refl next
  Step-Ok s _ (by_side0 {t = side} next) ok =
      let (m, side_ok) =
        side_keeps group count ok.aic_at s.side0 ok.lane0 ok.side0_ok s.side0.program side refl
          next in
      record {
        aic_at = ok.aic_at;
        lane0 = m;
        lane1 = ok.lane1;
        aic_ok = ok.aic_ok;
        side0_ok = side_ok;
        side1_ok = ok.side1_ok;
      }
  Step-Ok s _ (by_side1 {t = side} next) ok =
      let (m, side_ok) =
        side_keeps group count ok.aic_at s.side1 ok.lane1 ok.side1_ok s.side1.program side refl
          next in
      record {
        aic_at = ok.aic_at;
        lane1 = m;
        lane0 = ok.lane0;
        aic_ok = ok.aic_ok;
        side1_ok = side_ok;
        side0_ok = ok.side0_ok;
      }
