-- ===== src/System.antt =====
-- physical_system/system_manager.py: SystemManager with its threads, start and stop.
-- A thread's `start` raises a RuntimeError if the operating system gives it no thread, and so does
-- `join` before `start`; what a method raises ends it where it stands.
pub mod Stopping
pub mod Config
pub mod Starting
use mathlib.Core.Option
use circular_manu_system.Influx
use circular_manu_system.Machines
use circular_manu_system.Mqtt
use circular_manu_system.Nfc
use circular_manu_system.Sensors
use circular_manu_system.Workers
use circular_manu_system.Base.{
  Bool, List, Option, [], false, if◌then◌else◌, some, true, ℕ, ◌&&◌, ◌++◌, ◌∷◌,
}
use circular_manu_system.Base.Ending.{Ending, map_ending, raises, returns, ◌>>=◌}
use circular_manu_system.Base.Int.{pos}
use circular_manu_system.Base.Text.{Text, codes}
use circular_manu_system.Cep.Statistics.{get_statistics}
use circular_manu_system.Influx.{Value, number}
use circular_manu_system.Influx.Connection.{Client}
use circular_manu_system.Logger.Kpis.{get_kpis}
use circular_manu_system.Logger.Report.{print_kpis}
use circular_manu_system.Machines.{Machines}
use circular_manu_system.Mqtt.{MqttHandler}
use circular_manu_system.Nfc.Reader.{NfcReader}
use circular_manu_system.Plant.{Plant, is_connected}
use circular_manu_system.Sensors.Setup.{Wiring}
use circular_manu_system.Workers.{Phase, Worker, can_join, can_start, created, spawn, spawned}

pub record System : Type 0 where
  pub plant : Plant
  pub wiring : Wiring
  pub nfc1_thread : NfcReader
  pub nfc2_thread : NfcReader
  pub cep_thread : Worker
  pub monitoring_thread : Option Worker
  pub influx_client : Client
  pub mqtt : MqttHandler
  pub printed : List (Text × Value)

-- To which of the four threads the operating system gives one.
pub record Spawns : Type 0 where
  pub nfc1 : Bool
  pub nfc2 : Bool
  pub cep : Bool
  pub monitoring : Bool

unfoldable pub spawn_reader : NfcReader → NfcReader
spawn_reader r = record r { thread = spawn r.thread }

start_nfc1 : Bool → System → Ending System
start_nfc1 given s =
    if given && can_start s.nfc1_thread.thread
    then returns (record s { nfc1_thread = spawn_reader s.nfc1_thread })
    else raises s

start_nfc2 : Bool → System → Ending System
start_nfc2 given s =
    if given && can_start s.nfc2_thread.thread
    then returns (record s { nfc2_thread = spawn_reader s.nfc2_thread })
    else raises s

start_cep : Bool → System → Ending System
start_cep given s =
    if given && can_start s.cep_thread
    then returns (record s { cep_thread = spawn s.cep_thread })
    else raises s

-- `_start_monitoring_thread`: the thread's field is set before it is started.
start_monitoring_thread : Bool → System → Ending System
start_monitoring_thread given s =
    if given
    then returns (record s { monitoring_thread = some (thread spawned) })
    else raises (record s { monitoring_thread = some (thread created) })
  where
    thread : Phase → Worker
    thread phase = record { phase = phase; running = true; stop_event = false }

unfoldable pub start_monitoring : Bool → System → Ending System
unfolding start_monitoring_thread
start_monitoring given s =
    if is_connected s.plant.machines.shop.influx_writer
    then start_monitoring_thread given s
    else returns s

unfoldable pub start : Spawns → System → Ending System
unfolding start_nfc1 start_nfc2 start_cep start_monitoring spawn_reader
start can s = do
  a ← start_nfc1 can.nfc1 s
  b ← start_nfc2 can.nfc2 a
  c ← start_cep can.cep b
  start_monitoring can.monitoring c

-- `join(timeout=2)`, after which the thread may still run.
join : Worker → System → Ending System
join w s = if can_join w then returns s else raises s

-- The first part of `stop`: the monitoring, which is joined only if it is alive, and the consumer.
unfoldable pub tell_consumer : System → System
tell_consumer s = record s {
  monitoring_thread = Option.map Workers.stop s.monitoring_thread;
  cep_thread = Workers.stop s.cep_thread;
}

unfoldable pub tell_readers : System → System
tell_readers s = record s {
  nfc1_thread = Nfc.Reader.stop s.nfc1_thread;
  nfc2_thread = Nfc.Reader.stop s.nfc2_thread;
}

stop_consumer : System → Ending System
unfolding join tell_consumer
stop_consumer s = join (tell_consumer s).cep_thread (tell_consumer s)

stop_readers : System → Ending System
unfolding join tell_readers
stop_readers s = do
  a ← join (tell_readers s).nfc1_thread.thread (tell_readers s)
  join a.nfc2_thread.thread a

-- The lines that `stop` prints at the end: the report of the logger, and three counters.
final_report : ℕ → System → List (Text × Value)
final_report now s =
    print_kpis (get_kpis now s.plant.machines.shop.data_logger)
    ++ (codes "Fused events", number (pos (get_statistics s.plant.consumer).fused_events))
      ∷ (codes "Orphaned GPIO", number (pos (get_statistics s.plant.consumer).orphaned_gpio))
      ∷ (codes "Ghost NFC", number (pos (get_statistics s.plant.consumer).ghost_nfc))
      ∷ []

stop_sensors : System → Ending System
stop_sensors s = map_ending (λ w. record s { wiring = w }) (Sensors.Setup.stop s.wiring)

-- `stop` of each state machine, and `stop_all` of the motors.
unfoldable pub stop_machines : System → System
stop_machines s = record s { plant = record s.plant { machines = Machines.stop s.plant.machines } }

-- The clean-up, which stops the sensors once more.
clean_up : System → Ending System
clean_up s =
    let t : System = record s { influx_client = Influx.Connection.cleanup s.influx_client } in
    map_ending (λ w. record t { wiring = w; mqtt = Mqtt.cleanup t.mqtt })
      (Sensors.Setup.cleanup t.wiring)

unfoldable pub print_report : ℕ → System → System
unfolding final_report
print_report now s = record s { printed = s.printed ++ final_report now s }

-- The report at time `now`.
unfoldable pub stop : ℕ → System → Ending System
unfolding stop_consumer stop_readers stop_sensors stop_machines clean_up print_report
stop now s = do
  a ← stop_consumer s
  b ← stop_readers a
  c ← stop_sensors b
  d ← clean_up (stop_machines c)
  returns (print_report now d)
