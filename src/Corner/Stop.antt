-- ===== src/Corner/Stop.antt =====
-- physical_system/corner_controller.py: stop, while the timer of a refused request runs.
use circular_manu_system.Base.{Option, [], arith, false, none, some, true, ℕ, ◌+◌, ◌<◌, ◌∷◌, ◌≡◌}
use circular_manu_system.Base.Lists.{In, keep}
use circular_manu_system.Base.Quad.{Corner}
use circular_manu_system.Collision.{request_corner}
use circular_manu_system.Corner.{
  CornerCall, CornerConfig, CornerController, fire, init, motor_num, process_event, stop,
  try_to_push,
}
use circular_manu_system.Events.{FusedEvent}
use circular_manu_system.Motors.{clamp, throttle}
use circular_manu_system.Motors.Laws.{reaches, throttle-set_speed}
use circular_manu_system.Shop.{Shop, Timer, cancel, log, set_motor, to_influx}

-- The handles of the two fields are of timers that were started before.
abbrev Below : Option ℕ → ℕ → Type 0
Below none n = Unit
Below (some h) n = h < n

pub record Fresh (c : CornerController) : Type 0 where
  pub approach_old : Below c.approach_timer c.started
  pub handshake_old : Below c.handshake_timer c.started

abbrev pub retry : ℕ → CornerController → Timer CornerCall
retry now c = record { handle = c.started; due = now + 200_000; call = CornerCall.try_push }

pub init-Fresh : (k : Corner) (config : CornerConfig) (s : Shop) → Fresh (init k config s).0
unfolding init
init-Fresh k config s = omega arith

process_event-Fresh :
    (e : FusedEvent) (now : ℕ) (c : CornerController) (s : Shop)
    → Fresh c
    → Fresh (process_event e now (c, s)).0
unfolding process_event
process_event-Fresh e now c s h = ground arith

fire-Fresh :
    (t : Timer CornerCall) (now : ℕ) (c : CornerController) (s : Shop)
    → Fresh c
    → Fresh (fire t now (c, s)).0
unfolding fire
fire-Fresh t now c s h = ground arith

stop_keeps_retry :
    (now : ℕ) (c : CornerController) (s : Shop)
    → Fresh c
    → c.timers ≡ []
    → (request_corner c.corner now s.collision_mgr).0 ≡ false
    → (stop (try_to_push now (c, s))).0.timers ≡ retry now c ∷ []
unfolding stop try_to_push cancel keep
stop_keeps_retry now c s h ti refused = ground arith

-- If a corner with no timer, whose two timer fields are of earlier timers, is refused its request
-- and is then stopped, the retry timer is still pending; and if it fires when a request is granted
-- and the motor can be reached, the pusher motor runs at the clamped push speed.
pub push_after_stop :
    (now later : ℕ) (c : CornerController) (s s' : Shop)
    → Fresh c
    → c.timers ≡ []
    → (request_corner c.corner now s.collision_mgr).0 ≡ false
    → (request_corner c.corner later s'.collision_mgr).0 ≡ true
    → reaches s'.motors (motor_num c.corner) ≡ true
    → let c' = (stop (try_to_push now (c, s))).0 in
      In (retry now c) c'.timers
      × (throttle (fire (retry now c) later (c', s')).1.motors (motor_num c.corner)
          ≡ clamp c.config.push_speed)
unfolding set_motor fire stop try_to_push to_influx log
push_after_stop now later c s s' h ti refused granted reach = (
  ground (arith, stop_keeps_retry now c s h ti refused),
  ground (
    arith,
    throttle-set_speed (motor_num c.corner) (motor_num c.corner) c.config.push_speed s'.motors,
  ),
)
