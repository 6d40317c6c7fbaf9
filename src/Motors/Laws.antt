-- ===== src/Motors/Laws.antt =====
-- The throttles after each call of the motor controller.
use circular_manu_system.Base.{Bool, arith, if◌then◌else◌, not, true, ℕ, ◌&&◌, ◌==◌, ◌≡◌, ◌≢◌}
use circular_manu_system.Base.Int.{pos, ℤ, ◌≤ℤ◌}
use circular_manu_system.Motors.{
  MotorController, assign, clamp, drive, full_reverse, full_speed, has_name, key_error, set_speed,
  throttle,
}

abbrev pub InRange : ℤ → Type 0
InRange speed = (full_reverse ≤ℤ speed) × (speed ≤ℤ full_speed)

pub clamp_bounds : (speed : ℤ) → InRange (clamp speed)
unfolding clamp
clamp_bounds speed = ground arith

pub clamp_inside : (speed : ℤ) → InRange speed → clamp speed ≡ speed
unfolding clamp
clamp_inside speed h = ground arith

throttle-assign :
    (n k : ℕ) (speed : ℤ) (m : MotorController)
    → has_name n ≡ true
    → throttle (assign n speed m) k ≡ (if n == k then speed else throttle m k)
unfolding throttle assign has_name
throttle-assign n k speed m h = ground arith

-- Whether a call for motor `n` reaches the hardware.
abbrev pub reaches : MotorController → ℕ → Bool
reaches m n = not m.simulation && has_name n && not (m.faulty n)

-- After a call of set_speed, on each of its branches, the throttle of the named motor is the
-- clamped speed if the call reaches the hardware, and every other throttle is what it was.
pub throttle-set_speed :
    (n k : ℕ) (speed : ℤ) (m : MotorController)
    → throttle (set_speed n speed m).0 k
      ≡ (if reaches m n && n == k then clamp speed else throttle m k)
unfolding set_speed
throttle-set_speed n k speed m = ground (arith, throttle-assign n k (clamp speed) m)

-- The name table raises a `KeyError` only in simulation, for a number with no motor.
pub set_speed_no_key_error :
    (n : ℕ) (speed : ℤ) (m : MotorController)
    → has_name n ≡ true
    → (set_speed n speed m).1 ≢ key_error
unfolding set_speed
set_speed_no_key_error n speed m h e = ground arith

assign_keeps :
    (n : ℕ) (speed : ℤ) (m : MotorController)
    → ((assign n speed m).simulation ≡ m.simulation) × ((assign n speed m).faulty ≡ m.faulty)
unfolding assign
assign_keeps n speed m = ground arith

pub set_speed_keeps :
    (n : ℕ) (speed : ℤ) (m : MotorController)
    → ((drive n speed m).simulation ≡ m.simulation) × ((drive n speed m).faulty ≡ m.faulty)
unfolding set_speed
set_speed_keeps n speed m = ground (arith, assign_keeps n (clamp speed) m)

-- If the throttle of a motor is between full reverse and full speed, it still is after any call of
-- set_speed for any motor and speed.
pub set_speed-InRange :
    (n k : ℕ) (speed : ℤ) (m : MotorController)
    → InRange (throttle m k)
    → InRange (throttle (set_speed n speed m).0 k)
set_speed-InRange n k speed m h = ground (arith, throttle-set_speed n k speed m, clamp_bounds speed)

pub clamp_zero : clamp (pos 0) ≡ pos 0
unfolding clamp
clamp_zero = ground arith
