-- ===== src/Plant/Shutdown.antt =====
-- What `SystemManager.stop` does to the motors and the timers.
use circular_manu_system.Corner
use circular_manu_system.Machines
use circular_manu_system.Station
use circular_manu_system.Base.{==_iff, ap, arith, false, if◌then◌else◌, refl, ℕ, ◌≡◌}
use circular_manu_system.Base.Int.{pos}
use circular_manu_system.Base.Quad.{Corner, corner1, get}
use circular_manu_system.Corner.{CornerController}
use circular_manu_system.Machines.{Machines, on_shop}
use circular_manu_system.Motors.{stop_all, throttle}
use circular_manu_system.Motors.Laws.{reaches}
use circular_manu_system.Motors.Shutdown.{throttle-stop_all}
use circular_manu_system.Shop.{Shop, cancel, stop_motor}
use circular_manu_system.Shop.Throttles.{reaches-stop_motor, throttle-stop_motor}

abbrev pub stopped : Corner → Machines → CornerController
stopped k m = get (Machines.stop m).corners k

-- The corner's own entry after `stop` of all machines.
stop_timers :
    (k : Corner) (m : Machines)
    → (stopped k m).timers
      ≡ cancel
          (get m.corners k).handshake_timer
          (cancel (get m.corners k).approach_timer (get m.corners k).timers)
unfolding Machines.stop Corner.stop on_shop
stop_timers corner1 m = refl
stop_timers _ m = refl

stop_occupied : (m : Machines) → (Machines.stop m).shop.collision_mgr ≡ m.shop.collision_mgr
unfolding Machines.stop Corner.stop Station.stop on_shop stop_motor
stop_occupied m = refl

-- A motor that is stopped at rest or left alone, and reached as before.
abbrev Halts : ℕ → Shop → Shop → Type 0
Halts n s s' =
    (reaches s'.motors n ≡ reaches s.motors n)
    × (reaches s.motors n ≡ false → throttle s'.motors n ≡ throttle s.motors n)

stop_motor-Halts : (n k : ℕ) (s : Shop) → Halts n s (stop_motor k s)
stop_motor-Halts n k s =
    ground (arith, throttle-stop_motor k n s, reaches-stop_motor k n s, ==_iff k n)

Halts-then : (n : ℕ) (s s' s'' : Shop) → Halts n s s' → Halts n s' s'' → Halts n s s''
Halts-then n s s' s'' h h' = ground arith

-- The shop after the six machines have been stopped.
machines_stopped : Machines → Shop
machines_stopped m = stop_motor (Corner.motor_num m.corners.at4.corner) (
    stop_motor (Corner.motor_num m.corners.at3.corner) (
      stop_motor (Corner.motor_num m.corners.at2.corner) (
        stop_motor (Corner.motor_num m.corners.at1.corner) (
          stop_motor (Station.motor_num m.station2.station)
            (stop_motor (Station.motor_num m.station1.station) m.shop)))))

machines_stopped-Halts : (n : ℕ) (m : Machines) → Halts n m.shop (machines_stopped m)
unfolding machines_stopped
machines_stopped-Halts n m =
    let s1 = stop_motor (Station.motor_num m.station1.station) m.shop in
    let s2 = stop_motor (Station.motor_num m.station2.station) s1 in
    let s3 = stop_motor (Corner.motor_num m.corners.at1.corner) s2 in
    let s4 = stop_motor (Corner.motor_num m.corners.at2.corner) s3 in
    let s5 = stop_motor (Corner.motor_num m.corners.at3.corner) s4 in
    let both1 = Halts-then n m.shop s1 s2 (stop_motor-Halts n _ m.shop) (stop_motor-Halts n _ s1) in
    let both2 = Halts-then n s2 s3 s4 (stop_motor-Halts n _ s2) (stop_motor-Halts n _ s3) in
    let both3 =
      Halts-then n s4 s5 (machines_stopped m) (stop_motor-Halts n _ s4) (stop_motor-Halts n _ s5) in
    Halts-then n m.shop s2 (machines_stopped m) both1
      (Halts-then n s2 s4 (machines_stopped m) both2 both3)

stop_motors : (m : Machines) → (Machines.stop m).shop.motors ≡ stop_all (machines_stopped m).motors
unfolding Machines.stop Corner.stop Station.stop on_shop machines_stopped
stop_motors m = refl

throttle-stop :
    (n : ℕ) (m : Machines)
    → throttle (Machines.stop m).shop.motors n
      ≡ (if reaches m.shop.motors n then pos 0 else throttle m.shop.motors n)
throttle-stop n m = ground (
  arith,
  ap (λ q. throttle q n) (stop_motors m),
  throttle-stop_all n (machines_stopped m).motors,
  machines_stopped-Halts n m,
)

-- After the system has stopped its machines and motors, every motor that a call can reach stands
-- still and every other throttle is what it was; of a corner's timers exactly those remain that
-- neither of its two fields refers to; and the reservations and flags are what they were.
pub stop_lem :
    (n : ℕ) (k : Corner) (m : Machines)
    → (throttle (Machines.stop m).shop.motors n
        ≡ (if reaches m.shop.motors n then pos 0 else throttle m.shop.motors n))
      × ((stopped k m).timers
          ≡ cancel
              (get m.corners k).handshake_timer
              (cancel (get m.corners k).approach_timer (get m.corners k).timers))
      × ((Machines.stop m).shop.collision_mgr ≡ m.shop.collision_mgr)
stop_lem n k m = (throttle-stop n m, stop_timers k m, stop_occupied m)
