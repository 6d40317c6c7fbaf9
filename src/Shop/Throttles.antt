-- ===== src/Shop/Throttles.antt =====
-- The throttles after the calls that the state machines make.
use circular_manu_system.Base.{arith, false, if◌then◌else◌, ℕ, ◌&&◌, ◌==◌, ◌≡◌}
use circular_manu_system.Base.Int.{pos, ℤ}
use circular_manu_system.Motors.{MotorController, clamp, drive, throttle}
use circular_manu_system.Motors.Laws.{reaches, set_speed_keeps, throttle-set_speed}
use circular_manu_system.Shop.{Shop, set_motor, stop_motor}

pub throttle-set_motor :
    (n k : ℕ) (speed : ℤ) (s : Shop)
    → throttle (set_motor n speed s).motors k
      ≡ (if reaches s.motors n && n == k then clamp speed else throttle s.motors k)
unfolding set_motor
throttle-set_motor n k speed s = throttle-set_speed n k speed s.motors

pub throttle-stop_motor :
    (n k : ℕ) (s : Shop)
    → throttle (stop_motor n s).motors k
      ≡ (if reaches s.motors n && n == k then pos 0 else throttle s.motors k)
unfolding stop_motor clamp
throttle-stop_motor n k s = throttle-set_speed n k (pos 0) s.motors

pub reaches-set_motor :
    (n k : ℕ) (speed : ℤ) (s : Shop) → reaches (set_motor n speed s).motors k ≡ reaches s.motors k
unfolding set_motor
reaches-set_motor n k speed s = ground (arith, set_speed_keeps n speed s.motors)

pub reaches-stop_motor :
    (n k : ℕ) (s : Shop) → reaches (stop_motor n s).motors k ≡ reaches s.motors k
unfolding stop_motor
reaches-stop_motor n k s = ground (arith, set_speed_keeps n (pos 0) s.motors)

-- A motor that a step leaves alone: its throttle, and whether it can be reached.
abbrev pub Untouched : ℕ → Shop → Shop → Type 0
Untouched n s s' =
    (throttle s'.motors n ≡ throttle s.motors n) × (reaches s'.motors n ≡ reaches s.motors n)

pub set_motor-Untouched :
    (n k : ℕ) (speed : ℤ) (s : Shop) → k == n ≡ false → Untouched n s (set_motor k speed s)
set_motor-Untouched n k speed s apart =
    ground (arith, throttle-set_motor k n speed s, reaches-set_motor k n speed s)

pub stop_motor-Untouched : (n k : ℕ) (s : Shop) → k == n ≡ false → Untouched n s (stop_motor k s)
stop_motor-Untouched n k s apart =
    ground (arith, throttle-stop_motor k n s, reaches-stop_motor k n s)

-- The same of the motor controller alone.
pub drive_apart :
    (n k : ℕ) (speed : ℤ) (m : MotorController)
    → k == n ≡ false
    → (throttle (drive k speed m) n ≡ throttle m n) × (reaches (drive k speed m) n ≡ reaches m n)
drive_apart n k speed m apart =
    ground (arith, throttle-set_speed k n speed m, set_speed_keeps k speed m)
