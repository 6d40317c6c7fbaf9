-- ===== src/Station/Apart.antt =====
-- Which motors the methods of physical_system/station_controller.py drive.
use circular_manu_system.Motors
use circular_manu_system.Station
use circular_manu_system.Base.{arith, false, ℕ, ◌==◌, ◌≡◌}
use circular_manu_system.Base.Int.{pos}
use circular_manu_system.Events.{FusedEvent}
use circular_manu_system.Shop.{Shop, Timer, log, set_motor, stop_motor, to_influx}
use circular_manu_system.Shop.Throttles.{Untouched, drive_apart}
use circular_manu_system.Station.{StationCall, StationController}

pub process_event-Still :
    (n : ℕ) (e : FusedEvent) (now : ℕ) (c : StationController) (s : Shop)
    → Station.motor_num c.station == n ≡ false
    → Untouched n s (Station.process_event e now (c, s)).1
unfolding Station.process_event to_influx log set_motor stop_motor
process_event-Still n e now c s h =
    let k = Station.motor_num c.station in
    ground (
      arith,
      drive_apart n k c.motor_speed s.motors,
      drive_apart n k (pos 0) s.motors,
      drive_apart n k c.motor_speed (Motors.stop k s.motors),
    )

pub fire-Still :
    (n : ℕ) (t : Timer StationCall) (now : ℕ) (c : StationController) (s : Shop)
    → Station.motor_num c.station == n ≡ false
    → Untouched n s (Station.fire t now (c, s)).1
unfolding Station.fire to_influx log set_motor stop_motor
fire-Still n t now c s h =
    let k = Station.motor_num c.station in
    ground (arith, drive_apart n k c.motor_speed s.motors, drive_apart n k (pos 0) s.motors)
