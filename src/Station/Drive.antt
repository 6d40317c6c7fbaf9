-- ===== src/Station/Drive.antt =====
-- Which way the motor of a station runs in each state.
use circular_manu_system.Motors
use circular_manu_system.Base.{arith, true, ℕ, ◌≡◌}
use circular_manu_system.Base.Int.{pos, ℤ}
use circular_manu_system.Events.{FusedEvent}
use circular_manu_system.Motors.{MotorController, clamp, throttle}
use circular_manu_system.Motors.Laws.{clamp_zero, reaches, set_speed_keeps, throttle-set_speed}
use circular_manu_system.Shop.{Shop, Timer, log, set_motor, stop_motor, to_influx}
use circular_manu_system.Station.{
  StationCall, StationController, StationState, advancing_to_exit, entering, exiting, fire,
  motor_num, process_event,
}

-- The throttle that goes with a state: running while a part moves, and still otherwise.
abbrev pub station_expected : StationState → ℤ → ℤ
station_expected entering speed = clamp speed
station_expected advancing_to_exit speed = clamp speed
station_expected exiting speed = clamp speed
station_expected _ speed = pos 0

pub record Runs (c : StationController) (s : Shop) : Type 0 where
  pub drive : throttle s.motors (motor_num c.station) ≡ station_expected c.state c.motor_speed
  pub hardware : reaches s.motors (motor_num c.station) ≡ true

-- The motor's own throttle after the two calls.
own_drive :
    (n : ℕ) (speed : ℤ) (m : MotorController)
    → reaches m n ≡ true
    → (throttle (Motors.drive n speed m) n ≡ clamp speed)
      × (reaches (Motors.drive n speed m) n ≡ true)
own_drive n speed m h = ground (arith, throttle-set_speed n n speed m, set_speed_keeps n speed m)

own_stop :
    (n : ℕ) (m : MotorController)
    → reaches m n ≡ true
    → (throttle (Motors.stop n m) n ≡ pos 0) × (reaches (Motors.stop n m) n ≡ true)
own_stop n m h = ground (arith, own_drive n (pos 0) m, clamp_zero)

pub process_event-Runs :
    (e : FusedEvent) (now : ℕ) (c : StationController) (s : Shop)
    → Runs c s
    → let w = process_event e now (c, s) in Runs w.0 w.1
unfolding process_event to_influx log set_motor stop_motor
process_event-Runs e now c s h =
    let k = motor_num c.station in
    ground (
      arith,
      own_drive k c.motor_speed s.motors,
      own_stop k s.motors,
      own_drive k c.motor_speed (Motors.stop k s.motors),
    )

pub fire-Runs :
    (t : Timer StationCall) (now : ℕ) (c : StationController) (s : Shop)
    → Runs c s
    → let w = fire t now (c, s) in Runs w.0 w.1
unfolding fire to_influx log set_motor stop_motor
fire-Runs t now c s h =
    let k = motor_num c.station in
    ground (arith, own_drive k c.motor_speed s.motors, own_stop k s.motors)

pub process_event-station :
    (e : FusedEvent) (now : ℕ) (c : StationController) (s : Shop)
    → (process_event e now (c, s)).0.station ≡ c.station
unfolding process_event
process_event-station e now c s = ground arith

pub fire-station :
    (t : Timer StationCall) (now : ℕ) (c : StationController) (s : Shop)
    → (fire t now (c, s)).0.station ≡ c.station
unfolding fire
fire-station t now c s = ground arith
