-- ===== src/Tests.antt =====
-- Concrete runs of the modelled code, and instances of the theorems on them.
pub mod Line
pub mod Arrivals
pub mod Fusing
pub mod Machines
pub mod Records
pub mod Threads
pub mod Program
use circular_manu_system.Collision
use circular_manu_system.Logger
use circular_manu_system.Motors
use circular_manu_system.Base.{Bool, false, none, true, ℕ}
use circular_manu_system.Base.Int.{pos}
use circular_manu_system.Motors.{Hat, MotorController}
use circular_manu_system.Shop.{Shop}

abbrev pub no_fault : ℕ → Bool
no_fault n = false

abbrev pub still : Hat
still = record { motor1 = pos 0; motor2 = pos 0; motor3 = pos 0; motor4 = pos 0 }

-- A line with its three driver boards, no InfluxDB writer, at time 0.
abbrev pub motors : MotorController
motors = Motors.init false true true no_fault still still

abbrev pub shop : Shop
shop = record {
  motors = motors;
  collision_mgr = Collision.init;
  data_logger = Logger.init 0;
  influx_writer = none;
}
