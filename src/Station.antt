-- ===== src/Station.antt =====
-- physical_system/station_controller.py: the state machine of a station.
pub mod Names
pub mod Invariant
pub mod Frame
pub mod Cycle
pub mod Apart
pub mod Drive
pub mod Status
use circular_manu_system.Base.{List, Option, [], if◌then◌else◌, none, some, ℕ, ◌++◌, ◌+◌, ◌∷◌}
use circular_manu_system.Base.Int.{neg, ℤ}
use circular_manu_system.Base.Text.{Text, codes}
use circular_manu_system.Events.{
  Barrier, FusedEvent, Station, s1_entry, s1_exit, s1_process, s2_entry, s2_exit, s2_process, same,
  station1, station2, station_number,
}
use circular_manu_system.Influx.{write_station_state}
use circular_manu_system.Shop.{Shop, Timer, cancel, log, set_motor, stop_motor, to_influx}

pub data StationState : Type 0 where
  idle entering advancing_to_process processing advancing_to_exit exiting : StationState

-- The methods that a station hands to a timer; `_exit_complete` takes the time of the exit event.
pub data StationCall : Type 0 where
  processing_complete : StationCall
  exit_complete : ℕ → StationCall

pub record StationController : Type 0 where
  pub station : Station
  pub process_time : ℕ
  pub motor_speed : ℤ
  pub state : StationState
  pub current_part : Option Text
  pub entry_timestamp : Option ℕ
  pub process_timer : Option ℕ
  pub timers : List (Timer StationCall)
  pub started : ℕ

-- `2 + station_num`
abbrev pub motor_num : Station → ℕ
motor_num s = 2 + station_number s

-- Station 2 runs in reverse.
abbrev pub direction : Station → ℤ → ℤ
direction station1 speed = speed
direction station2 speed = neg speed

unfoldable pub init : Station → ℕ → ℤ → StationController
init s process_time station_speed = record {
  station = s;
  process_time = process_time;
  motor_speed = direction s station_speed;
  state = idle;
  current_part = none;
  entry_timestamp = none;
  process_timer = none;
  timers = [];
  started = 0;
}

-- `f'S{self.station_num}_ENTRY'` and the like.
abbrev pub entry_barrier : Station → Barrier
entry_barrier station1 = s1_entry
entry_barrier station2 = s2_entry

abbrev pub process_barrier : Station → Barrier
process_barrier station1 = s1_process
process_barrier station2 = s2_process

abbrev pub exit_barrier : Station → Barrier
exit_barrier station1 = s1_exit
exit_barrier station2 = s2_exit

-- A method of a controller acts on the controller and on what it shares with the others.
abbrev pub Work : Type 0
Work = StationController × Shop

unfoldable pub station_id : Station → Text
station_id station1 = codes "S1"
station_id station2 = codes "S2"

-- `state.value`
unfoldable pub state_value : StationState → Text
state_value idle = codes "idle"
state_value entering = codes "entering"
state_value advancing_to_process = codes "advancing_to_process"
state_value processing = codes "processing"
state_value advancing_to_exit = codes "advancing_to_exit"
state_value exiting = codes "exiting"

transition_to : StationState → Work → Work
transition_to new_state (c, s) = (
  record c { state = new_state },
  to_influx (write_station_state (station_id c.station) (state_value new_state) c.current_part) s,
)

log_for : Text → Text → Option Text → ℕ → Work → Work
log_for part_id activity tag now (c, s) = (c, log part_id (station_id c.station) activity tag now s)

run_motor : Work → Work
run_motor (c, s) = (c, set_motor (motor_num c.station) c.motor_speed s)

halt_motor : Work → Work
halt_motor (c, s) = (c, stop_motor (motor_num c.station) s)

-- `Timer(delay, call).start()`, at time `now`.
start_timer : ℕ → StationCall → ℕ → Work → Work
start_timer delay call now (c, s) = (
  record c {
    timers = c.timers ++ record { handle = c.started; due = now + delay; call = call } ∷ [];
    started = c.started + 1;
  },
  s,
)

-- `self.current_part`, which is written to the log as it is; `None` becomes an empty field.
part_text : Option Text → Text
part_text none = []
part_text (some p) = p

accept_part : Text → ℕ → ℕ → Work → Work
unfolding transition_to log_for run_motor
accept_part part_id timestamp now (c, s) =
    let w : Work =
      (record c { current_part = some part_id; entry_timestamp = some timestamp }, s) in
    transition_to entering (run_motor (log_for part_id (codes "ENTER") none now w))

enter_or_refuse : Option Text → ℕ → ℕ → Work → Work
unfolding accept_part log_for
enter_or_refuse none timestamp now w =
    log_for (codes "UNKNOWN") (codes "ERROR_NO_PART_ID") none now w
enter_or_refuse (some part_id) timestamp now w = accept_part part_id timestamp now w

handle_idle : FusedEvent → ℕ → Work → Work
unfolding enter_or_refuse
handle_idle e now w =
    if same e.barrier_id (entry_barrier w.0.station)
    then enter_or_refuse e.part_id e.timestamp now w
    else w

start_processing : ℕ → Work → Work
unfolding start_timer
start_processing now w =
    let (c, s) = start_timer w.0.process_time processing_complete now w in
    (record c { process_timer = some w.0.started }, s)

handle_entering : FusedEvent → ℕ → Work → Work
unfolding halt_motor log_for part_text transition_to start_processing
handle_entering e now w =
    if same e.barrier_id (entry_barrier w.0.station)
    then w
    else if same e.barrier_id (process_barrier w.0.station)
    then start_processing now (
        transition_to processing (
          log_for (part_text w.0.current_part) (codes "PROCESS_START") (some (codes "START")) now
            (halt_motor w)))
    else w

handle_advancing_to_exit : FusedEvent → ℕ → Work → Work
unfolding halt_motor run_motor transition_to start_timer
handle_advancing_to_exit e now w =
    if same e.barrier_id (exit_barrier w.0.station)
    then start_timer 1_000_000 (exit_complete e.timestamp) now
        (transition_to exiting (run_motor (halt_motor w)))
    else w

-- The handlers of three states change nothing: the events there are jitter or unexpected.
dispatch : StationState → FusedEvent → ℕ → Work → Work
unfolding handle_idle handle_entering handle_advancing_to_exit
dispatch idle e now w = handle_idle e now w
dispatch entering e now w = handle_entering e now w
dispatch advancing_to_process e now w = w
dispatch processing e now w = w
dispatch advancing_to_exit e now w = handle_advancing_to_exit e now w
dispatch exiting e now w = w

unfoldable pub process_event : FusedEvent → ℕ → Work → Work
unfolding dispatch
process_event e now w = dispatch w.0.state e now w

-- `_processing_complete`
complete_processing : ℕ → Work → Work
unfolding log_for run_motor transition_to part_text
complete_processing now w = transition_to advancing_to_exit (
    run_motor
      (log_for (part_text w.0.current_part) (codes "PROCESS_END") (some (codes "FINISH")) now w))

-- `if self.current_part:` is false of `None` and of the empty string.
log_exit : Option Text → ℕ → Work → Work
unfolding log_for
log_exit none now w = w
log_exit (some []) now w = w
log_exit (some (c ∷ t)) now w = log_for (c ∷ t) (codes "EXIT") none now w

-- `_exit_complete`; the cycle time is only printed.
complete_exit : ℕ → ℕ → Work → Work
unfolding halt_motor log_exit transition_to
complete_exit exit_timestamp now w =
    let (c, s) = log_exit w.0.current_part now (halt_motor w) in
    transition_to idle (record c { current_part = none; entry_timestamp = none }, s)

run_call : StationCall → ℕ → Work → Work
unfolding complete_processing complete_exit
run_call processing_complete now w = complete_processing now w
run_call (exit_complete exit_timestamp) now w = complete_exit exit_timestamp now w

-- The timer `t` of the controller's list fires: it leaves the list, and its callback runs.
unfoldable pub fire : Timer StationCall → ℕ → Work → Work
unfolding run_call
fire t now (c, s) = run_call t.call now (record c { timers = cancel (some t.handle) c.timers }, s)

unfoldable pub stop : Work → Work
unfolding halt_motor
stop (c, s) = halt_motor (record c { timers = cancel c.process_timer c.timers }, s)
