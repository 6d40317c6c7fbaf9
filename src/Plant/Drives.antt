-- ===== src/Plant/Drives.antt =====
-- The pushers' motors, against the states of the corners.
use mathlib.Core.Path.{subst}
use circular_manu_system.Corner
use circular_manu_system.Station
use circular_manu_system.Base.{Bool-cases, arith, false, inl, inr, sym, ℕ, ◌==◌, ◌∙◌, ◌≡◌}
use circular_manu_system.Base.Lists.{In}
use circular_manu_system.Base.Quad.{
  Corner, corner1, corner2, corner3, corner4, get, get-put, same_corner,
}
use circular_manu_system.Cep.{Fsm, corner_fsm, station_fsm}
use circular_manu_system.Corner.{CornerCall, CornerController}
use circular_manu_system.Corner.Apart.{IsOther, fire-Untouched, process_event-Untouched}
use circular_manu_system.Corner.Drive.{Driven, fire-Driven, process_event-Driven}
use circular_manu_system.Events.{FusedEvent, Station}
use circular_manu_system.Machines.{
  Machines, fire_corner, fire_station, get_station, process, put_corner,
}
use circular_manu_system.Plant.Invariant.{Inv, fire_corner-Inv, fire_station-Inv, process-Inv}
use circular_manu_system.Plant.Jam.{same_corner_sound}
use circular_manu_system.Shop.{Shop, Timer}
use circular_manu_system.Shop.Throttles.{Untouched}
use circular_manu_system.Station.{StationCall, StationController}
use circular_manu_system.Station.Apart.{fire-Still, process_event-Still}

motors_apart :
    (j k : Corner) → same_corner j k ≡ false → Corner.motor_num j == Corner.motor_num k ≡ false
motors_apart corner1 k h = ground arith
motors_apart corner2 k h = ground arith
motors_apart corner3 k h = ground arith
motors_apart corner4 k h = ground arith

station_apart : (k : Station) (j : Corner) → Station.motor_num k == Corner.motor_num j ≡ false
station_apart Station.station1 j = ground arith
station_apart Station.station2 j = ground arith

Untouched-Driven :
    (c : CornerController) (s s' : Shop)
    → Untouched (Corner.motor_num c.corner) s s'
    → Driven c s
    → Driven c s'
Untouched-Driven c s s' u h = record { drive = u.0 ∙ h.drive; hardware = u.1 ∙ h.hardware }

pub record Steered (k : Corner) (m : Machines) : Type 0 where
  pub inv : Inv m
  pub driven : Driven (get m.corners k) m.shop

-- Corner `k` after a step of corner `j`.
put_corner-Driven :
    (j k : Corner) (w : CornerController × Shop) (m : Machines)
    → (j ≡ k → Driven w.0 w.1)
    → (same_corner j k ≡ false → Driven (get m.corners k) w.1)
    → Driven (get (put_corner j w m).corners k) (put_corner j w m).shop
unfolding put_corner
put_corner-Driven j k w m own other = elim (Bool-cases (same_corner j k)) [
  | inl hit ↦ rw (get-put m.corners j k w.0, hit) (own (same_corner_sound j k hit))
  | inr miss ↦ rw (get-put m.corners j k w.0, miss) (other miss)
]

is_other :
    (j k : Corner) (m : Machines)
    → Inv m
    → same_corner j k ≡ false
    → IsOther (Corner.motor_num (get m.corners k).corner) (get m.corners j)
is_other j k m h apart = rw (h.names j, h.names k) (ground arith, motors_apart j k apart)

process_corner-Driven :
    (j k : Corner) (e : FusedEvent) (now : ℕ) (m : Machines)
    → Steered k m
    → Driven (get (process (corner_fsm j) e now m).corners k) (process (corner_fsm j) e now m).shop
unfolding process
process_corner-Driven j k e now m h =
    let w = Corner.process_event e now (get m.corners j, m.shop) in
    put_corner-Driven j k w m
      (λ eq.
        process_event-Driven e now (get m.corners j) m.shop
          (subst (λ i. Driven (get m.corners i) m.shop) (sym eq) h.driven))
      (λ apart.
        Untouched-Driven (get m.corners k) m.shop w.1
          (process_event-Untouched (Corner.motor_num (get m.corners k).corner) e now
            (get m.corners j) m.shop (is_other j k m h.inv apart))
          h.driven)

-- A step of a station drives no pusher.
pub process_station-Driven :
    (k : Corner) (c : StationController) (e : FusedEvent) (now : ℕ) (m : Machines)
    → Driven (get m.corners k) m.shop
    → Driven (get m.corners k) (Station.process_event e now (c, m.shop)).1
process_station-Driven k c e now m h =
    Untouched-Driven (get m.corners k) m.shop _
      (process_event-Still (Corner.motor_num (get m.corners k).corner) e now c m.shop
        (station_apart c.station (get m.corners k).corner))
      h

pub fire_station-Driven :
    (k : Corner) (c : StationController) (t : Timer StationCall) (now : ℕ) (m : Machines)
    → Driven (get m.corners k) m.shop
    → Driven (get m.corners k) (Station.fire t now (c, m.shop)).1
fire_station-Driven k c t now m h =
    Untouched-Driven (get m.corners k) m.shop _
      (fire-Still (Corner.motor_num (get m.corners k).corner) t now c m.shop
        (station_apart c.station (get m.corners k).corner))
      h

pub process-Steered :
    (k : Corner) (f : Fsm) (e : FusedEvent) (now : ℕ) (m : Machines)
    → Steered k m
    → Steered k (process f e now m)
unfolding process
process-Steered k (station_fsm Station.station1) e now m h = record {
  inv = process-Inv (station_fsm Station.station1) e now m h.inv;
  driven = process_station-Driven k m.station1 e now m h.driven;
}
process-Steered k (station_fsm Station.station2) e now m h = record {
  inv = process-Inv (station_fsm Station.station2) e now m h.inv;
  driven = process_station-Driven k m.station2 e now m h.driven;
}
process-Steered k (corner_fsm j) e now m h = record {
  inv = process-Inv (corner_fsm j) e now m h.inv;
  driven = process_corner-Driven j k e now m h;
}

pub fire_corner-Steered :
    (j k : Corner) (t : Timer CornerCall) (now : ℕ) (m : Machines)
    → In t (get m.corners j).timers
    → Steered k m
    → Steered k (fire_corner j t now m)
unfolding fire_corner
fire_corner-Steered j k t now m pending h =
    let w = Corner.fire t now (get m.corners j, m.shop) in
    record {
      inv = fire_corner-Inv j t now m pending h.inv;
      driven =
          put_corner-Driven j k w m
            (λ eq.
              fire-Driven t now (get m.corners j) m.shop pending (h.inv.corner_rests j)
                (subst (λ i. Driven (get m.corners i) m.shop) (sym eq) h.driven))
            (λ apart.
              Untouched-Driven (get m.corners k) m.shop w.1
                (fire-Untouched (Corner.motor_num (get m.corners k).corner) t now (get m.corners j)
                  m.shop (is_other j k m h.inv apart))
                h.driven);
    }

pub fire_station-Steered :
    (j : Station) (k : Corner) (t : Timer StationCall) (now : ℕ) (m : Machines)
    → In t (get_station j m).timers
    → Steered k m
    → Steered k (fire_station j t now m)
unfolding fire_station
fire_station-Steered Station.station1 k t now m pending h = record {
  inv = fire_station-Inv Station.station1 t now m pending h.inv;
  driven = fire_station-Driven k m.station1 t now m h.driven;
}
fire_station-Steered Station.station2 k t now m pending h = record {
  inv = fire_station-Inv Station.station2 t now m pending h.inv;
  driven = fire_station-Driven k m.station2 t now m h.driven;
}
