-- ===== src/Corner.antt =====
-- physical_system/corner_controller.py: the state machine of a corner's pusher.
pub mod Tables
pub mod Names
pub mod Invariant
pub mod Frame
pub mod Cycle
pub mod Stop
pub mod Drive
pub mod Apart
pub mod Status
pub use Tables.{
  CornerState, idle, final_approach, ready_to_push, extending, pushing, waiting_for_confirmation,
  retracting, CornerCall, final_approach_complete, try_push, handshake_timeout, CornerConfig,
  CornerController, motor_num, feed_motor_num, confirmation_sensor, pos_barrier, ext_barrier,
  ret_barrier,
}
unfoldable pub use Tables.{corner_id, state_value}
use circular_manu_system.Base.{
  Bool, Option, [], if◌then◌else◌, none, not, some, true, ℕ, ◌++◌, ◌+◌, ◌∷◌,
}
use circular_manu_system.Base.Int.{neg}
use circular_manu_system.Base.Quad.{Corner}
use circular_manu_system.Base.Text.{Text, codes}
use circular_manu_system.Collision.{
  CollisionManager, clear_handshake_wait, is_conveyor_safe_to_stop, release_corner, request_corner,
  set_handshake_wait,
}
use circular_manu_system.Events.{FusedEvent, same}
use circular_manu_system.Influx.{write_corner_state}
use circular_manu_system.Shop.{Shop, Timer, cancel, log, set_motor, stop_motor, to_influx}

-- A method of a controller acts on the controller and on what it shares with the others.
abbrev pub Work : Type 0
Work = CornerController × Shop

transition_to : CornerState → Work → Work
transition_to new_state (c, s) = (
  record c { state = new_state },
  to_influx (write_corner_state (corner_id c.corner) (state_value new_state)) s,
)

log_push : Text → Text → ℕ → Work → Work
log_push activity tag now (c, s) =
    (c, log (codes "UNKNOWN") (corner_id c.corner) activity (some tag) now s)

-- `Timer(delay, call).start()`, at time `now`.
start_timer : ℕ → CornerCall → ℕ → Work → Work
start_timer delay call now (c, s) = (
  record c {
    timers = c.timers ++ record { handle = c.started; due = now + delay; call = call } ∷ [];
    started = c.started + 1;
  },
  s,
)

on_feed : (ℕ → Shop → Shop) → Option ℕ → Shop → Shop
on_feed act none s = s
on_feed act (some n) s = act n s

-- `if self.is_fed_by_main_conveyor: …`
start_feed_conveyor : Work → Work
unfolding on_feed
start_feed_conveyor (c, s) =
    (c, on_feed (λ n. set_motor n c.config.conveyor_speed) (feed_motor_num c.corner) s)

stop_feed_conveyor : Work → Work
unfolding on_feed
stop_feed_conveyor (c, s) = (c, on_feed stop_motor (feed_motor_num c.corner) s)

halt_pusher : Work → Work
halt_pusher (c, s) = (c, stop_motor (motor_num c.corner) s)

-- `__init__`, which starts the conveyor that feeds the corner.
unfoldable pub init : Corner → CornerConfig → Shop → Work
unfolding start_feed_conveyor
init corner config s = start_feed_conveyor (c, s)
  where
    c : CornerController
    c = record {
      corner = corner;
      config = config;
      state = idle;
      approach_timer = none;
      handshake_timer = none;
      timers = [];
      started = 0;
    }

-- `if self.is_fed_by_main_conveyor: if not is_conveyor_safe_to_stop(…): return`
unfoldable pub may_stop_feed : Option ℕ → Shop → Bool
may_stop_feed none s = true
may_stop_feed (some n) s = is_conveyor_safe_to_stop n s.collision_mgr

start_approach : ℕ → Work → Work
unfolding start_timer
start_approach now w =
    let (c, s) = start_timer w.0.config.final_delay final_approach_complete now w in
    (record c { approach_timer = some w.0.started }, s)

handle_idle : FusedEvent → ℕ → Work → Work
unfolding may_stop_feed stop_feed_conveyor start_approach transition_to
handle_idle e now w =
    if not (same e.barrier_id (pos_barrier w.0.corner))
    then w
    else if not (may_stop_feed (feed_motor_num w.0.corner) w.1)
    then w
    else transition_to final_approach (start_approach now (stop_feed_conveyor w))

extend_pusher : ℕ → Work → Work
unfolding log_push
extend_pusher now w =
    let (c, s) = log_push (codes "PUSH_START") (codes "START") now w in
    (c, set_motor (motor_num c.corner) c.config.push_speed s)

-- `_try_push`; a refused request is made again after 0.2 s, by a timer that no field refers to.
pub try_to_push : ℕ → Work → Work
unfolding transition_to extend_pusher start_timer
try_to_push now (c, s) =
    let (granted, m) = request_corner c.corner now s.collision_mgr in
    let w : Work = (c, record s { collision_mgr = m }) in
    if granted
    then extend_pusher now (transition_to extending w)
    else start_timer 200_000 try_push now w

-- `_final_approach_complete`
complete_approach : ℕ → Work → Work
unfolding transition_to try_to_push
complete_approach now w = try_to_push now (transition_to ready_to_push w)

start_handshake : ℕ → Work → Work
unfolding start_timer
start_handshake now w =
    let (c, s) = start_timer w.0.config.handshake_timeout handshake_timeout now w in
    (record c { handshake_timer = some w.0.started }, s)

on_manager : (Corner → CollisionManager → CollisionManager) → Work → Work
on_manager act (c, s) = (c, record s { collision_mgr = act c.corner s.collision_mgr })

handle_extending : FusedEvent → ℕ → Work → Work
unfolding halt_pusher transition_to on_manager start_handshake
handle_extending e now w =
    if same e.barrier_id (ext_barrier w.0.corner)
    then transition_to waiting_for_confirmation (
        start_handshake now (on_manager set_handshake_wait (transition_to pushing (halt_pusher w))))
    else w

-- `handshake_timer.cancel()`, if there is one
cancel_handshake : Work → Work
cancel_handshake (c, s) = (record c { timers = cancel c.handshake_timer c.timers }, s)

retract_pusher : Work → Work
retract_pusher (c, s) = (c, set_motor (motor_num c.corner) (neg c.config.push_speed) s)

handle_waiting_for_confirmation : FusedEvent → ℕ → Work → Work
unfolding cancel_handshake on_manager transition_to retract_pusher
handle_waiting_for_confirmation e now w =
    if same e.barrier_id (confirmation_sensor w.0.corner)
    then retract_pusher
        (transition_to retracting (on_manager clear_handshake_wait (cancel_handshake w)))
    else w

-- `_handshake_timeout`: the jam is reported, and the corner stays locked.
time_out_handshake : Work → Work
unfolding on_manager
time_out_handshake w = on_manager clear_handshake_wait w

handle_retracting : FusedEvent → ℕ → Work → Work
unfolding halt_pusher log_push on_manager start_feed_conveyor transition_to
handle_retracting e now w =
    if same e.barrier_id (ret_barrier w.0.corner)
    then transition_to idle (
        start_feed_conveyor (
          on_manager (λ c. release_corner c now)
            (log_push (codes "PUSH_COMPLETE") (codes "FINISH") now (halt_pusher w))))
    else w

-- The handlers of three states do nothing.
dispatch : CornerState → FusedEvent → ℕ → Work → Work
unfolding handle_idle handle_extending handle_waiting_for_confirmation handle_retracting
dispatch idle e now w = handle_idle e now w
dispatch final_approach e now w = w
dispatch ready_to_push e now w = w
dispatch extending e now w = handle_extending e now w
dispatch pushing e now w = w
dispatch waiting_for_confirmation e now w = handle_waiting_for_confirmation e now w
dispatch retracting e now w = handle_retracting e now w

unfoldable pub process_event : FusedEvent → ℕ → Work → Work
unfolding dispatch
process_event e now w = dispatch w.0.state e now w

pub run_call : CornerCall → ℕ → Work → Work
unfolding complete_approach try_to_push time_out_handshake
run_call final_approach_complete now w = complete_approach now w
run_call try_push now w = try_to_push now w
run_call handshake_timeout now w = time_out_handshake w

-- The timer `t` of the controller's list fires: it leaves the list, and its callback runs.
unfoldable pub fire : Timer CornerCall → ℕ → Work → Work
unfolding run_call
fire t now (c, s) = run_call t.call now (record c { timers = cancel (some t.handle) c.timers }, s)

-- `stop` cancels the two timers that a field refers to.
unfoldable pub stop : Work → Work
unfolding halt_pusher
stop (c, s) =
    halt_pusher
      (record c { timers = cancel c.handshake_timer (cancel c.approach_timer c.timers) }, s)
