-- ===== src/Tests/Program.antt =====
-- The monitoring, the set-up and the ends of the program, on a small line.
use circular_manu_system.Corner
use circular_manu_system.Motors
use circular_manu_system.Mqtt
use circular_manu_system.Nfc
use circular_manu_system.Plant
use circular_manu_system.Program
use circular_manu_system.Sensors
use circular_manu_system.System
use circular_manu_system.Base.{
  Bool, List, [], arith, false, inr, none, refl, some, true, ℕ, ◌∷◌, ◌≡◌,
}
use circular_manu_system.Base.Ending.{is_raised, left_by, raises, returns}
use circular_manu_system.Base.Int.{pos}
use circular_manu_system.Base.Lists.{length}
use circular_manu_system.Events.{Queue, SensorEvent, corner1_ext}
use circular_manu_system.Influx.{InfluxDbWriter}
use circular_manu_system.Influx.Connection.{no_client}
use circular_manu_system.Machines.{default_config}
use circular_manu_system.Motors.{clamp, throttle}
use circular_manu_system.Motors.Laws.{reaches}
use circular_manu_system.Nfc.Reader.{NfcReader, bus_failed}
use circular_manu_system.Plant.{Plant, monitor, monitoring}
use circular_manu_system.Plant.Monitoring.{monitor_lem, round_points, with_writer}
use circular_manu_system.Plant.Steering.{beginning}
use circular_manu_system.Program.{fatal_error, late_signal, program}
use circular_manu_system.Program.Abandoned.{conveyors_left_on}
use circular_manu_system.Program.Exits.{program_halts}
use circular_manu_system.Program.Refused.{polling_refused}
use circular_manu_system.Sensors.{mcp_event}
use circular_manu_system.Sensors.Edges.{Sample, falls, poll_samples, poll_samples_lem}
use circular_manu_system.Sensors.Setup.{Board, stop-init}
use circular_manu_system.Shop.{set_motor}
use circular_manu_system.System.{Spawns, System}
use circular_manu_system.System.Config.{Surroundings, missing}
use circular_manu_system.System.Starting.{Unstarted}
use circular_manu_system.System.Stopping.{Told}
use circular_manu_system.Tests.{motors, no_fault, still}
use circular_manu_system.Workers.{created, new_worker}

abbrev writer : InfluxDbWriter
writer = record { connected = true; accepting = true; points = [] }

abbrev p0 : Plant
p0 = Plant.init default_config motors (some writer) 0

monitor_lem_example :
    (monitor 5_000_000 p0
      ≡ with_writer (some (record writer { points = round_points 5_000_000 p0 })) p0)
    × (length (round_points 5_000_000 p0) ≡ 19)
unfolding Plant.init Corner.init set_motor
monitor_lem_example = monitor_lem 5_000_000 p0 writer refl refl

abbrev board : Board
board = record {
  pin_order = 17 ∷ 27 ∷ 22 ∷ 5 ∷ 6 ∷ 13 ∷ 21 ∷ 12 ∷ [];
  mode_fails = false;
  pin_fails = λ pin. false;
  expander_fails = true;
  mcp_pin_fails = λ name. false;
  thread_fails = false;
}

-- The expander is found, but its polling thread is refused.
abbrev threadless : Board
threadless = record board { expander_fails = false; thread_fails = true }

stop-init_example :
    let e = Sensors.Setup.stop (Sensors.Setup.init false true threadless) in
    (is_raised e ≡ true)
    × ((left_by e).simulation ≡ true)
    × ((left_by e).interrupts ≡ board.pin_order)
    × ((left_by e).polling ≡ some (record { phase = created; running = false; stop_event = true }))
    × (is_raised (Sensors.Setup.stop (left_by e)) ≡ false)
stop-init_example = stop-init threadless refl (ground arith) (ground arith)

abbrev samples : List Sample
samples = (false, 2) ∷ (false, 3) ∷ (true, 4) ∷ (false, 5) ∷ []

abbrev mcp_queue : Queue SensorEvent
mcp_queue = record { maxsize = 100; items = [] }

poll_samples_lem_example :
    (poll_samples corner1_ext ((true, 1) ∷ samples) Sensors.init mcp_queue).1.items
    ≡ mcp_event corner1_ext 2 ∷ mcp_event corner1_ext 5 ∷ []
unfolding Sensors.init falls
poll_samples_lem_example =
    poll_samples_lem corner1_ext true 1 samples Sensors.init mcp_queue refl (omega arith)

abbrev surroundings : Surroundings
surroundings = record {
  motors = motors;
  influx_importable = false;
  influx = (writer, no_client);
  mqtt = Mqtt.init false false false;
  board = board;
  gpio_available = true;
  nfc_available = false;
  chip1 = bus_failed;
  chip2 = bus_failed;
}

abbrev unstarted : System
unstarted = record {
  plant = beginning default_config no_fault still still none 0;
  wiring = Sensors.Setup.init false true board;
  nfc1_thread = reader_with 1;
  nfc2_thread = reader_with 2;
  cep_thread = new_worker;
  monitoring_thread = none;
  influx_client = no_client;
  mqtt = Mqtt.init false false false;
  printed = [];
}
  where
    reader_with : ℕ → NfcReader
    reader_with n = record {
      reader_num = n;
      station_id = n;
      simulation = true;
      has_chip = false;
      thread = new_worker;
    }

abbrev threads_given : Bool → Spawns
threads_given given = record { nfc1 = true; nfc2 = true; cep = given; monitoring = true }

fresh : Unstarted unstarted
fresh = record { nfc1 = refl; nfc2 = refl; cep = refl }

constructed : System.Config.init missing false surroundings 0 ≡ some unstarted
unfolding System.Config.init Plant.init Corner.init set_motor Nfc.Reader.init
constructed = refl

-- The main conveyors run from the start.
conveyor_reached : reaches unstarted.plant.machines.shop.motors 1 ≡ true
unfolding Plant.init Corner.init set_motor Motors.init Motors.set_speed
conveyor_reached = refl

program_halts_example :
    (t : System) × (program false missing surroundings 0
        (threads_given true)
        (λ p. p)
        late_signal
        20_000_000
      ≡ some (returns t))
    × (throttle t.plant.machines.shop.motors 1 ≡ pos 0)
    × Told t.cep_thread
    × Told t.nfc1_thread.thread
    × Told t.nfc2_thread.thread
program_halts_example =
    program_halts false missing surroundings 0 (threads_given true) (λ p. p) late_signal 20_000_000
      1 constructed refl refl refl refl (λ e. cc) conveyor_reached

conveyors_left_on_example :
    (t : System) × (Program.main (threads_given false) (λ p. p) fatal_error 20_000_000 unstarted
      ≡ raises t)
    × (throttle t.plant.machines.shop.motors 1 ≡ pos 500)
unfolding clamp
conveyors_left_on_example =
    conveyors_left_on default_config no_fault still still none 0 (threads_given false) (λ p. p)
      fatal_error 20_000_000 unstarted refl fresh refl (inr refl) refl

abbrev threadless_around : Surroundings
threadless_around = record surroundings { board = threadless }

abbrev threadless_system : System
threadless_system = record unstarted { wiring = Sensors.Setup.init false true threadless }

threadless_constructed :
    System.Config.init missing false threadless_around 0 ≡ some threadless_system
unfolding System.Config.init Plant.init Corner.init set_motor Nfc.Reader.init
threadless_constructed = refl

polling_refused_example :
    ((t : System) × (program false missing threadless_around 0
          (threads_given true)
          (λ p. p)
          fatal_error
          20_000_000
        ≡ some (raises t))
      × (t.plant.machines ≡ threadless_system.plant.machines))
    × ((t : System) × (program false missing threadless_around 0
            (threads_given true)
            (λ p. p)
            late_signal
            20_000_000
          ≡ some (returns t))
        × (throttle t.plant.machines.shop.motors 1 ≡ pos 0))
polling_refused_example =
    polling_refused missing threadless_around 0 (threads_given true) (λ p. p) 20_000_000 1
      threadless_constructed refl refl (ground arith) refl refl refl refl refl conveyor_reached
