-- ===== src/Plant/Invariant.antt =====
-- The state machines of the whole plant between two steps.
use mathlib.Core.Path.{subst}
use circular_manu_system.Corner
use circular_manu_system.Station
use circular_manu_system.Base.{ap, false, sym, ℕ, ◌∙◌, ◌≡◌}
use circular_manu_system.Base.Lists.{In}
use circular_manu_system.Base.Quad.{Corner, get, put, put-cases, same_corner}
use circular_manu_system.Cep.{Fsm, corner_fsm, station_fsm}
use circular_manu_system.Collision.Laws.{Clear}
use circular_manu_system.Corner.{CornerCall, CornerController}
use circular_manu_system.Corner.Frame.{Elsewhere}
use circular_manu_system.Corner.Invariant.{
  approaching, asking, confirming, jammed, occupied, pulling_back, reaching_out, waiting,
}
use circular_manu_system.Events.{FusedEvent, Station}
use circular_manu_system.Machines.{
  Machines, fire_corner, fire_station, get_station, process, put_corner, put_station,
}
use circular_manu_system.Shop.{Shop, Timer}
use circular_manu_system.Station.{StationCall, StationController}

pub record Inv (m : Machines) : Type 0 where
  pub rests1 : Station.Invariant.Rests m.station1
  pub rests2 : Station.Invariant.Rests m.station2
  pub corner_rests : (k : Corner) → Corner.Invariant.Rests (get m.corners k) m.shop
  pub names : (k : Corner) → (get m.corners k).corner ≡ k
  pub clear : Clear m.shop.collision_mgr.corners_occupied

-- A corner rests as before if its two entries in the collision manager are as before.
Rests-moved :
    (c : CornerController) (s s' : Shop)
    → occupied c s' ≡ occupied c s
    → waiting c s' ≡ waiting c s
    → Corner.Invariant.Rests c s
    → Corner.Invariant.Rests c s'
Rests-moved c s s' o w (Corner.Invariant.resting st ti oc wa) =
    Corner.Invariant.resting st ti (o ∙ oc) (w ∙ wa)
Rests-moved c s s' o w (approaching t st ti ca ha oc wa) =
    approaching t st ti ca ha (o ∙ oc) (w ∙ wa)
Rests-moved c s s' o w (asking t st ti ca oc wa) = asking t st ti ca (o ∙ oc) (w ∙ wa)
Rests-moved c s s' o w (reaching_out st ti oc wa) = reaching_out st ti (o ∙ oc) (w ∙ wa)
Rests-moved c s s' o w (confirming t st ti ca ha oc wa) = confirming t st ti ca ha (o ∙ oc) (w ∙ wa)
Rests-moved c s s' o w (jammed st ti oc wa) = jammed st ti (o ∙ oc) (w ∙ wa)
Rests-moved c s s' o w (pulling_back st ti oc wa) = pulling_back st ti (o ∙ oc) (w ∙ wa)

-- The same for a step that leaves the collision manager alone.
pub Rests-shop :
    (c : CornerController) (s s' : Shop)
    → s'.collision_mgr ≡ s.collision_mgr
    → Corner.Invariant.Rests c s
    → Corner.Invariant.Rests c s'
Rests-shop c s s' e =
    Rests-moved c s s' (ap (λ m. get m.corners_occupied c.corner) e)
      (ap (λ m. get m.corners_waiting_handshake c.corner) e)

-- A station's work that leaves the collision manager alone.
put_station-Inv :
    (k : Station) (w : StationController × Shop) (m : Machines)
    → w.1.collision_mgr ≡ m.shop.collision_mgr
    → Station.Invariant.Rests w.0
    → Inv m
    → Inv (put_station k w m)
unfolding put_station
put_station-Inv Station.station1 w m e r h = record {
  rests1 = r;
  rests2 = h.rests2;
  corner_rests = λ k. Rests-shop (get m.corners k) m.shop w.1 e (h.corner_rests k);
  names = h.names;
  clear = subst (λ q. Clear q.corners_occupied) (sym e) h.clear;
}
put_station-Inv Station.station2 w m e r h = record {
  rests1 = h.rests1;
  rests2 = r;
  corner_rests = λ k. Rests-shop (get m.corners k) m.shop w.1 e (h.corner_rests k);
  names = h.names;
  clear = subst (λ q. Clear q.corners_occupied) (sym e) h.clear;
}

-- A corner's work that leaves the other corners' entries alone.
put_corner-Inv :
    (k : Corner) (w : CornerController × Shop) (m : Machines)
    → ((d : Corner) → Elsewhere k d m.shop w.1)
    → w.0.corner ≡ k
    → Corner.Invariant.Rests w.0 w.1
    → Clear w.1.collision_mgr.corners_occupied
    → Inv m
    → Inv (put_corner k w m)
unfolding put_corner
put_corner-Inv k w m away is_k r cl h = record {
  rests1 = h.rests1;
  rests2 = h.rests2;
  corner_rests = rest;
  names = named;
  clear = cl;
}
  where
    named : (d : Corner) → (get (put m.corners k w.0) d).corner ≡ d
    named d = put-cases (λ j c. c.corner ≡ j) m.corners k d w.0 is_k (λ e _. h.names e)

    rest : (d : Corner) → Corner.Invariant.Rests (get (put m.corners k w.0) d) w.1
    rest d =
        put-cases (λ j c. Corner.Invariant.Rests c w.1) m.corners k d w.0 r
          (λ e n.
            let kept = subst (λ j. Elsewhere k j m.shop w.1) (sym (h.names e)) (away e) in
            let apart = subst (λ j. same_corner k j ≡ false) (sym (h.names e)) n in
            Rests-moved (get m.corners e) m.shop w.1 (kept apart).0 (kept apart).1
              (h.corner_rests e))

pub process-Inv :
    (f : Fsm) (e : FusedEvent) (now : ℕ) (m : Machines) → Inv m → Inv (process f e now m)
unfolding process
process-Inv (station_fsm Station.station1) e now m h =
    put_station-Inv Station.station1 _ m
      (Station.Frame.process_event-collision e now m.station1 m.shop)
      (Station.Invariant.process_event-Rests e now m.station1 m.shop h.rests1) h
process-Inv (station_fsm Station.station2) e now m h =
    put_station-Inv Station.station2 _ m
      (Station.Frame.process_event-collision e now m.station2 m.shop)
      (Station.Invariant.process_event-Rests e now m.station2 m.shop h.rests2) h
process-Inv (corner_fsm k) e now m h =
    let c = get m.corners k in
    put_corner-Inv k (Corner.process_event e now (c, m.shop)) m
      (subst (λ j. (d : Corner) → Elsewhere j d m.shop (Corner.process_event e now (c, m.shop)).1)
        (h.names k) (Corner.Frame.process_event-Elsewhere e now c m.shop))
      (Corner.Frame.process_event-corner e now c m.shop ∙ h.names k)
      (Corner.Invariant.process_event-Rests e now c m.shop (h.corner_rests k))
      (Corner.Frame.process_event-Clear e now c m.shop h.clear) h

pub fire_station-Inv :
    (k : Station) (t : Timer StationCall) (now : ℕ) (m : Machines)
    → In t (get_station k m).timers
    → Inv m
    → Inv (fire_station k t now m)
unfolding fire_station
fire_station-Inv Station.station1 t now m p h =
    put_station-Inv Station.station1 _ m (Station.Frame.fire-collision t now m.station1 m.shop)
      (Station.Invariant.fire-Rests t now m.station1 m.shop p h.rests1) h
fire_station-Inv Station.station2 t now m p h =
    put_station-Inv Station.station2 _ m (Station.Frame.fire-collision t now m.station2 m.shop)
      (Station.Invariant.fire-Rests t now m.station2 m.shop p h.rests2) h

pub fire_corner-Inv :
    (k : Corner) (t : Timer CornerCall) (now : ℕ) (m : Machines)
    → In t (get m.corners k).timers
    → Inv m
    → Inv (fire_corner k t now m)
unfolding fire_corner
fire_corner-Inv k t now m p h =
    let c = get m.corners k in
    put_corner-Inv k (Corner.fire t now (c, m.shop)) m
      (subst (λ j. (d : Corner) → Elsewhere j d m.shop (Corner.fire t now (c, m.shop)).1)
        (h.names k) (Corner.Frame.fire-Elsewhere t now c m.shop))
      (Corner.Frame.fire-corner t now c m.shop ∙ h.names k)
      (Corner.Invariant.fire-Rests t now c m.shop p (h.corner_rests k))
      (Corner.Frame.fire-Clear t now c m.shop h.clear) h
