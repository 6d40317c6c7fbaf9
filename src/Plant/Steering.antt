-- ===== src/Plant/Steering.antt =====
-- The motors of the pushers in the runs from the start, against the states of the corners.
use mathlib.Core.Path.{subst}
use circular_manu_system.Collision
use circular_manu_system.Corner
use circular_manu_system.Logger
use circular_manu_system.Motors
use circular_manu_system.Plant
use circular_manu_system.Base.{Bool, Option, arith, false, true, ℕ, ◌<◌, ◌∙◌, ◌≡◌}
use circular_manu_system.Base.Int.{pos, ℤ}
use circular_manu_system.Base.Quad.{Corner, corner1, corner2, corner3, corner4, get}
use circular_manu_system.Cep.Keeps.{Keeps, fused_with, run_round-Keeps}
use circular_manu_system.Corner.Drive.{Driven, expected}
use circular_manu_system.Events.Names.{name}
use circular_manu_system.Influx.{InfluxDbWriter}
use circular_manu_system.Machines.{Config, calls, on_shop}
use circular_manu_system.Motors.{Hat, MotorController, drive, has_name, throttle}
use circular_manu_system.Motors.Laws.{reaches}
use circular_manu_system.Motors.Shutdown.{init_rests}
use circular_manu_system.Plant.{
  Plant, Run, Step, consume, consumes, corner_timer, here, interrupt, interrupts, monitor, monitors,
  next, poll, polls, scan_tag, scans, station_timer,
}
use circular_manu_system.Plant.Drives.{
  Steered, fire_corner-Steered, fire_station-Steered, process-Steered,
}
use circular_manu_system.Plant.Safety.{Step-Inv, calls-Inv, init-Inv, no_condition, state_of}
use circular_manu_system.Shop.{Shop, log, set_motor, to_influx}
use circular_manu_system.Shop.Throttles.{set_motor-Untouched}

calls-Steered : (k : Corner) → Keeps calls (λ e. Unit {0}) (Steered k)
unfolding on_shop to_influx log
calls-Steered k = record {
  processes = λ e part f now m l found h. process-Steered k f (fused_with e part) now m h;
  writes = λ b l m h. record {
    inv = calls-Inv.writes b l m h.inv;
    driven = record { drive = h.driven.drive; hardware = h.driven.hardware };
  };
  logs = λ part id activity now m h. record {
    inv = calls-Inv.logs part id activity now m h.inv;
    driven = record { drive = h.driven.drive; hardware = h.driven.hardware };
  };
}

pub Step-Steered :
    (k : Corner) {p q : Plant} → Step p q → Steered k p.machines → Steered k q.machines
unfolding interrupt poll scan_tag consume monitor on_shop to_influx
Step-Steered k (interrupts channel t) h = h
Step-Steered k (polls name value t is_pin) h = h
Step-Steered k (scans n simulation reading t) h = h
Step-Steered k {p} (consumes now) h =
    run_round-Keeps (calls-Steered k) now p.gpio_queue.items p.mcp_queue.items p.nfc_queue.items
      p.consumer p.machines (no_condition _) (no_condition _) (no_condition _) h
Step-Steered k {p} (monitors now on) h = record {
  inv = Step-Inv {p = p} (monitors now on) h.inv;
  driven = record { drive = h.driven.drive; hardware = h.driven.hardware };
}
Step-Steered k {p} (station_timer j t now pending) h =
    fire_station-Steered j k t now p.machines pending h
Step-Steered k {p} (corner_timer j t now pending) h =
    fire_corner-Steered j k t now p.machines pending h

pub Run-Steered : (k : Corner) {p q : Plant} → Run p q → Steered k p.machines → Steered k q.machines
Run-Steered k here h = h
Run-Steered k (next r s) h = Step-Steered k s (Run-Steered k r h)

motor_named : (k : Corner) → has_name (Corner.motor_num k) ≡ true
unfolding has_name
motor_named k = ground arith

-- A motor controller over boards that answer.
abbrev pub working_motors : (ℕ → Bool) → Hat → Hat → MotorController
working_motors faulty hat1 hat2 = Motors.init false true true faulty hat1 hat2

module _ (faulty : ℕ → Bool) (hat1 hat2 : Hat) (writer : Option InfluxDbWriter) (now : ℕ) where
  abbrev pub line_shop : Shop
  line_shop = record {
    motors = working_motors faulty hat1 hat2;
    collision_mgr = Collision.init;
    data_logger = Logger.init now;
    influx_writer = writer;
  }

  -- The two feed conveyors are started, and every other motor stands still.
  pub start_rests :
      (n : ℕ) (speed : ℤ)
      → 2 < n
      → has_name n ≡ true
      → faulty n ≡ false
      → let s = set_motor 2 speed (set_motor 1 speed line_shop) in
        (throttle s.motors n ≡ pos 0) × (reaches s.motors n ≡ true)
  start_rests n speed big named fine =
      let (still, answers) = init_rests faulty hat1 hat2 n named fine in
      let (same1, reach1) = set_motor-Untouched n 1 speed line_shop (ground arith) in
      let (same2, reach2) =
        set_motor-Untouched n 2 speed (set_motor 1 speed line_shop) (ground arith) in
      (same2 ∙ same1 ∙ still, reach2 ∙ reach1 ∙ answers)

module _ (config : Config) (faulty : ℕ → Bool) (hat1 hat2 : Hat) (writer : Option InfluxDbWriter)
    (now : ℕ) where
  abbrev pub beginning : Plant
  beginning = Plant.init config (working_motors faulty hat1 hat2) writer now

  init-Driven :
      (k : Corner)
      → faulty (Corner.motor_num k) ≡ false
      → Driven (get beginning.machines.corners k) beginning.machines.shop
  unfolding Plant.init Corner.init
  init-Driven corner1 fine =
      let (d, h) =
        start_rests faulty hat1 hat2 writer now 5 config.corner_config.conveyor_speed (ground arith)
          (motor_named corner1) fine in
      record { drive = d; hardware = h }
  init-Driven corner2 fine =
      let (d, h) =
        start_rests faulty hat1 hat2 writer now 6 config.corner_config.conveyor_speed (ground arith)
          (motor_named corner2) fine in
      record { drive = d; hardware = h }
  init-Driven corner3 fine =
      let (d, h) =
        start_rests faulty hat1 hat2 writer now 7 config.corner_config.conveyor_speed (ground arith)
          (motor_named corner3) fine in
      record { drive = d; hardware = h }
  init-Driven corner4 fine =
      let (d, h) =
        start_rests faulty hat1 hat2 writer now 8 config.corner_config.conveyor_speed (ground arith)
          (motor_named corner4) fine in
      record { drive = d; hardware = h }

  -- In every run from the start over motor boards that answer, if setting the throttle of a
  -- corner's pusher motor does not fail, that throttle is the clamped push speed while the corner
  -- is extending, the clamped opposite speed while it is retracting, and 0 in its five other
  -- states, whatever the other machines do.
  pub pusher_drive :
      {p : Plant} (k : Corner)
      → faulty (Corner.motor_num k) ≡ false
      → Run beginning p
      → throttle p.machines.shop.motors (Corner.motor_num k)
        ≡ expected (state_of p k) (get p.machines.corners k).config.push_speed
  pusher_drive {p} k fine r =
      let start : Steered k beginning.machines = record {
        inv = init-Inv config (working_motors faulty hat1 hat2) writer now;
        driven = init-Driven k fine;
      } in
      let end = Run-Steered k r start in
      subst
        (λ j.
          throttle p.machines.shop.motors (Corner.motor_num j)
          ≡ expected (state_of p k) (get p.machines.corners k).config.push_speed)
        (end.inv.names k) end.driven.drive
