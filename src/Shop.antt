-- ===== src/Shop.antt =====
-- The objects that the state machines share: `SystemManager` builds one motor controller, one
-- collision manager, one data logger and one InfluxDB writer, and hands them to every controller.
-- A `threading.Timer` that has been started and has neither fired nor been cancelled is an entry
-- of its controller's list; its callback is a method of that controller.
pub mod Throttles
use circular_manu_system.Motors
use circular_manu_system.Base.{List, Option, none, not, some, ℕ, ◌==◌}
use circular_manu_system.Base.Int.{ℤ}
use circular_manu_system.Base.Lists.{keep}
use circular_manu_system.Base.Text.{Text}
use circular_manu_system.Collision.{CollisionManager}
use circular_manu_system.Influx.{InfluxDbWriter, when_present}
use circular_manu_system.Logger.{DataLogger}
use circular_manu_system.Logger.Log.{log_event}
use circular_manu_system.Motors.{MotorController}

pub record Shop : Type 0 where
  pub motors : MotorController
  pub collision_mgr : CollisionManager
  pub data_logger : DataLogger
  pub influx_writer : Option InfluxDbWriter

-- `self.motors.set_speed(n, speed)`
unfoldable pub set_motor : ℕ → ℤ → Shop → Shop
set_motor n speed s = record s { motors = Motors.drive n speed s.motors }

unfoldable pub stop_motor : ℕ → Shop → Shop
stop_motor n s = record s { motors = Motors.stop n s.motors }

-- `self.data_logger.log_event(…)`
unfoldable pub log : Text → Text → Text → Option Text → ℕ → Shop → Shop
log part_id station_id activity tag now s =
    let (d, w) = log_event part_id station_id activity tag now s.data_logger s.influx_writer in
    record s { data_logger = d; influx_writer = w }

-- `if self.influx_writer: self.influx_writer.write_…(…)`
unfoldable pub to_influx : (InfluxDbWriter → InfluxDbWriter) → Shop → Shop
to_influx call s = record s { influx_writer = when_present call s.influx_writer }

pub record Timer (Call : Type 0) : Type 0 where
  pub handle : ℕ
  pub due : ℕ
  pub call : Call

-- `timer.cancel()`: a timer that has fired already is not in the list.
unfoldable pub cancel : {Call : Type 0} → Option ℕ → List (Timer Call) → List (Timer Call)
cancel none timers = timers
cancel (some handle) timers = keep (λ t. not (t.handle == handle)) timers
