-- ===== src/Station/Frame.antt =====
-- What a step of a station leaves alone: the collision manager.
use circular_manu_system.Base.{arith, ℕ, ◌≡◌}
use circular_manu_system.Events.{FusedEvent}
use circular_manu_system.Shop.{Shop, Timer, log, set_motor, stop_motor, to_influx}
use circular_manu_system.Station.{StationCall, StationController, fire, process_event}

pub process_event-collision :
    (e : FusedEvent) (now : ℕ) (c : StationController) (s : Shop)
    → (process_event e now (c, s)).1.collision_mgr ≡ s.collision_mgr
unfolding process_event set_motor stop_motor to_influx log
process_event-collision e now c s = ground arith

pub fire-collision :
    (t : Timer StationCall) (now : ℕ) (c : StationController) (s : Shop)
    → (fire t now (c, s)).1.collision_mgr ≡ s.collision_mgr
unfolding fire set_motor stop_motor to_influx log
fire-collision t now c s = ground arith
