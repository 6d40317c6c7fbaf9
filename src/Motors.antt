-- ===== src/Motors.antt =====
-- physical_system/motor_controller.py: eight motors behind two motor HATs.
-- A throttle is counted in thousandths, so the source's 1.0 is 1000.
pub mod Laws
pub mod Shutdown
use circular_manu_system.Base.{
  Bool, false, if◌then◌else◌, leb, not, suc, true, zero, ℕ, ◌&&◌, ◌==◌, ◌||◌,
}
use circular_manu_system.Base.Int.{ltb_ℤ, negsuc, pos, ℤ}

-- A `MotorKit` as the program sees it: the throttle of each of its four motors.
pub record Hat : Type 0 where
  pub motor1 : ℤ
  pub motor2 : ℤ
  pub motor3 : ℤ
  pub motor4 : ℤ

-- `faulty n` says that assigning the throttle of motor `n` raises an exception.
pub record MotorController : Type 0 where
  pub simulation : Bool
  pub hat1 : Hat
  pub hat2 : Hat
  pub faulty : ℕ → Bool

-- How a call of `set_speed` ends: with nothing to do, with the throttle assigned, with the logged
-- error of an invalid number, with the logged exception of the hardware, or with the `KeyError`
-- of `motor_names[motor_num]`.
pub data Outcome : Type 0 where
  simulated assigned invalid failed key_error : Outcome

abbrev pub full_speed : ℤ
full_speed = pos 1000

abbrev pub full_reverse : ℤ
full_reverse = negsuc 999

-- `min` and `max` on speeds, as Python has them: the first argument wins a tie.
min_speed : ℤ → ℤ → ℤ
min_speed a b = if ltb_ℤ b a then b else a

max_speed : ℤ → ℤ → ℤ
max_speed a b = if ltb_ℤ a b then b else a

-- `max(-1.0, min(1.0, speed))`
unfoldable pub clamp : ℤ → ℤ
unfolding min_speed max_speed
clamp speed = max_speed full_reverse (min_speed full_speed speed)

-- The keys of `motor_names`.
unfoldable pub has_name : ℕ → Bool
has_name n = leb 1 n && leb n 8

is_zero : ℤ → Bool
is_zero (pos zero) = true
is_zero (pos (suc n)) = false
is_zero (negsuc n) = false

-- The ladder of assignments, by motor number.
unfoldable pub assign : ℕ → ℤ → MotorController → MotorController
assign n speed m =
    if n == 1
    then record m { hat1 = record hat1 { motor1 = speed } }
    else if n == 2
    then record m { hat1 = record hat1 { motor2 = speed } }
    else if n == 3
    then record m { hat1 = record hat1 { motor3 = speed } }
    else if n == 4
    then record m { hat1 = record hat1 { motor4 = speed } }
    else if n == 5
    then record m { hat2 = record hat2 { motor1 = speed } }
    else if n == 6
    then record m { hat2 = record hat2 { motor2 = speed } }
    else if n == 7
    then record m { hat2 = record hat2 { motor3 = speed } }
    else if n == 8
    then record m { hat2 = record hat2 { motor4 = speed } }
    else m
  where
    open m use {hat1, hat2}

unfoldable pub set_speed : ℕ → ℤ → MotorController → MotorController × Outcome
unfolding clamp is_zero has_name assign
set_speed n requested m =
    let speed = clamp requested in
    if m.simulation
    then (m, if is_zero speed || has_name n then simulated else key_error)
    else if not (has_name n)
    then (m, invalid)
    else if m.faulty n
    then (m, failed)
    else (assign n speed m, assigned)

-- A call whose outcome the caller does not look at.
abbrev pub drive : ℕ → ℤ → MotorController → MotorController
drive n speed m = (set_speed n speed m).0

abbrev pub stop : ℕ → MotorController → MotorController
stop n m = drive n (pos 0) m

-- `for motor_num in range(1, 9)`, from a first number and with that many rounds left.
pub stop_from : ℕ → ℕ → MotorController → MotorController
stop_from n zero m = m
stop_from n (suc rounds) m = stop_from (suc n) rounds (stop n m)

unfoldable pub stop_all : MotorController → MotorController
unfolding stop_from
stop_all m = stop_from 1 8 m

unfoldable pub start_conveyors : ℤ → MotorController → MotorController
start_conveyors speed m = drive 2 speed (drive 1 speed m)

unfoldable pub stop_conveyors : MotorController → MotorController
stop_conveyors m = stop 2 (stop 1 m)

unfoldable pub cleanup : MotorController → MotorController
unfolding stop_all
cleanup m = stop_all m

abbrev still_hat : Hat
still_hat = record { motor1 = pos 0; motor2 = pos 0; motor3 = pos 0; motor4 = pos 0 }

-- `__init__`: `available` is `HARDWARE_AVAILABLE`, and `opened` says that both HATs answered.
unfoldable pub init : Bool → Bool → Bool → (ℕ → Bool) → Hat → Hat → MotorController
unfolding stop_all
init simulation available opened faulty hat1 hat2 =
    if simulation || not available
    then record { simulation = true; hat1 = still_hat; hat2 = still_hat; faulty = faulty }
    else if opened
    then stop_all (record { simulation = false; hat1 = hat1; hat2 = hat2; faulty = faulty })
    else record { simulation = true; hat1 = hat1; hat2 = hat2; faulty = faulty }

-- The throttle that motor `n` has; 0 where there is none.
unfoldable pub throttle : MotorController → ℕ → ℤ
throttle m n =
    if n == 1
    then m.hat1.motor1
    else if n == 2
    then m.hat1.motor2
    else if n == 3
    then m.hat1.motor3
    else if n == 4
    then m.hat1.motor4
    else if n == 5
    then m.hat2.motor1
    else if n == 6
    then m.hat2.motor2
    else if n == 7
    then m.hat2.motor3
    else if n == 8
    then m.hat2.motor4
    else pos 0
