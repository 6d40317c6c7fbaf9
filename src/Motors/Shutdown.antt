-- ===== src/Motors/Shutdown.antt =====
-- physical_system/motor_controller.py: the throttles after stop_all.
use circular_manu_system.Base.{
  Bool, arith, false, if◌then◌else◌, leb, ltb, refl, suc, true, zero, ℕ, ◌&&◌, ◌+◌, ◌≡◌,
}
use circular_manu_system.Base.Int.{pos}
use circular_manu_system.Motors.{
  Hat, MotorController, has_name, init, stop, stop_all, stop_from, throttle,
}
use circular_manu_system.Motors.Laws.{clamp_zero, reaches, set_speed_keeps, throttle-set_speed}

stop_from-throttle :
    (n rounds k : ℕ) (m : MotorController)
    → throttle (stop_from n rounds m) k
      ≡ (if reaches m k && leb n k && ltb k (n + rounds) then pos 0 else throttle m k)
unfolding stop_from
stop_from-throttle n zero k m = ground arith
stop_from-throttle n (suc rounds) k m = ground (
  arith,
  stop_from-throttle (suc n) rounds k (stop n m),
  throttle-set_speed n k (pos 0) m,
  set_speed_keeps n (pos 0) m,
  clamp_zero,
)

-- After stop_all, the throttle of every motor that a call can reach is 0, and every other throttle
-- is what it was.
pub throttle-stop_all :
    (k : ℕ) (m : MotorController)
    → throttle (stop_all m) k ≡ (if reaches m k then pos 0 else throttle m k)
unfolding stop_all has_name
throttle-stop_all k m = ground (arith, stop_from-throttle 1 8 k m)

stop_from_keeps :
    (n rounds k : ℕ) (m : MotorController) → reaches (stop_from n rounds m) k ≡ reaches m k
unfolding stop_from
stop_from_keeps n zero k m = refl
stop_from_keeps n (suc rounds) k m =
    ground (arith, stop_from_keeps (suc n) rounds k (stop n m), set_speed_keeps n (pos 0) m)

-- A controller whose boards answered starts with every motor that works at rest.
pub init_rests :
    (faulty : ℕ → Bool) (hat1 hat2 : Hat) (k : ℕ)
    → has_name k ≡ true
    → faulty k ≡ false
    → let m = init false true true faulty hat1 hat2 in (throttle m k ≡ pos 0) × (reaches m k ≡ true)
unfolding init
init_rests faulty hat1 hat2 k named fine =
    let boards : MotorController = record {
      simulation = false;
      hat1 = hat1;
      hat2 = hat2;
      faulty = faulty;
    } in
    ground (arith, throttle-stop_all k boards, stop_from_keeps 1 8 k boards)
