-- ===== src/Plant.antt =====
-- physical_system/system_manager.py: all objects wired together, the status, and the steps that the
-- threads of the running system take. A step is what one thread does between two waits: an
-- interrupt, the poll of a pin, a scan for a tag, a round of the consumer, a round of the
-- monitoring, or the callback of a timer.
pub mod Invariant
pub mod Located
pub mod Safety
pub mod Jam
pub mod Shutdown
pub mod Drives
pub mod Steering
pub mod Conveying
pub mod Monitoring
pub mod Accounted
pub mod Entry
pub mod Orphan
pub mod Push
pub mod Pushing
pub mod Handover
pub mod Stay
pub mod Leave
pub mod Interrupts
pub mod Passing
pub mod Visit
use circular_manu_system.Cep
use circular_manu_system.Collision
use circular_manu_system.Logger
use circular_manu_system.Sensors
use circular_manu_system.Base.{Bool, Option, [], false, none, some, true, ℕ, ◌≡◌}
use circular_manu_system.Base.Lists.{In, length}
use circular_manu_system.Base.Quad.{Corner, Quad, get}
use circular_manu_system.Cep.{Consumer, Stats}
use circular_manu_system.Cep.Expiry.{run_round}
use circular_manu_system.Cep.Statistics.{get_statistics, stats_items}
use circular_manu_system.Corner.{CornerCall}
use circular_manu_system.Corner.Status.{CornerStatus, corner_status}
use circular_manu_system.Events.{Barrier, NfcEvent, Queue, SensorEvent, Station, station_number}
use circular_manu_system.Events.Names.{name}
use circular_manu_system.Influx.{InfluxDbWriter, write_system_status}
use circular_manu_system.Influx.Metrics.{write_cep_stats, write_kpis}
use circular_manu_system.Logger.Kpis.{get_kpis}
use circular_manu_system.Logger.Report.{kpi_items}
use circular_manu_system.Machines.{
  Config, Machines, calls, fire_corner, fire_station, get_station, init_machines, on_shop,
}
use circular_manu_system.Motors.{MotorController}
use circular_manu_system.Nfc.{Reading, scan}
use circular_manu_system.Sensors.{SensorReader, gpio_callback, mcp_pins, poll_pin}
use circular_manu_system.Shop.{Timer, to_influx}
use circular_manu_system.Station.{StationCall}
use circular_manu_system.Station.Status.{StationStatus, station_status}

pub record Plant : Type 0 where
  pub machines : Machines
  pub consumer : Consumer
  pub sensors : SensorReader
  pub gpio_queue : Queue SensorEvent
  pub mcp_queue : Queue SensorEvent
  pub nfc_queue : Queue NfcEvent

abbrev empty_queue : {A : Type 0} → ℕ → Queue A
empty_queue n = record { maxsize = n; items = [] }

-- `SystemManager.__init__`, at time `now`, over a motor controller and an InfluxDB writer.
unfoldable pub init : Config → MotorController → Option InfluxDbWriter → ℕ → Plant
unfolding init_machines
init config motors writer now = record {
  machines = init_machines config (record {
    motors = motors;
    collision_mgr = Collision.init;
    data_logger = Logger.init now;
    influx_writer = writer;
  });
  consumer = Cep.init config.fusion_window config.expiry_timeout;
  sensors = Sensors.init;
  gpio_queue = empty_queue 100;
  mcp_queue = empty_queue 100;
  nfc_queue = empty_queue 20;
}

unfoldable pub interrupt : ℕ → ℕ → Plant → Plant
interrupt channel t p =
    let (r, q) = gpio_callback channel t p.sensors p.gpio_queue in
    record p { sensors = r; gpio_queue = q }

unfoldable pub poll : Barrier → Bool → ℕ → Plant → Plant
poll name value t p =
    let (r, q) = poll_pin name value t p.sensors p.mcp_queue in
    record p { sensors = r; mcp_queue = q }

unfoldable pub scan_tag : Station → Bool → Reading → ℕ → Plant → Plant
scan_tag k simulation reading t p = record p {
  nfc_queue = scan (station_number k) (station_number k) simulation reading t p.nfc_queue;
}

abbrev emptied : {A : Type 0} → Queue A → Queue A
emptied q = record q { items = [] }

-- A round of the loop of `CEPConsumer.run`.
unfoldable pub consume : ℕ → Plant → Plant
consume now p =
    let (c, m) =
      run_round calls now p.gpio_queue.items p.mcp_queue.items p.nfc_queue.items p.consumer
        p.machines in
    record p {
      machines = m;
      consumer = c;
      gpio_queue = emptied p.gpio_queue;
      mcp_queue = emptied p.mcp_queue;
      nfc_queue = emptied p.nfc_queue;
    }

-- `get_status`
pub record Status : Type 0 where
  pub station1 : StationStatus
  pub station2 : StationStatus
  pub corners : Quad CornerStatus
  pub cep_stats : Stats
  pub gpio_size : ℕ
  pub mcp_size : ℕ
  pub nfc_size : ℕ

unfoldable pub get_status : Plant → Status
get_status p = record {
  station1 = station_status p.machines.station1;
  station2 = station_status p.machines.station2;
  corners = record {
    at1 = corner_status p.machines.corners.at1;
    at2 = corner_status p.machines.corners.at2;
    at3 = corner_status p.machines.corners.at3;
    at4 = corner_status p.machines.corners.at4;
  };
  cep_stats = get_statistics p.consumer;
  gpio_size = length p.gpio_queue.items;
  mcp_size = length p.mcp_queue.items;
  nfc_size = length p.nfc_queue.items;
}

-- `influx_writer.write_system_status(status)`
unfoldable pub report_status : Status → InfluxDbWriter → InfluxDbWriter
report_status s =
    write_system_status s.gpio_size s.mcp_size s.nfc_size s.station1.state s.station2.state

-- What one round of the monitoring loop hands to the writer.
unfoldable pub monitoring : ℕ → Plant → InfluxDbWriter → InfluxDbWriter
unfolding report_status
monitoring now p w = write_cep_stats (stats_items (get_statistics p.consumer)) (
    report_status (get_status p)
      (write_kpis now (kpi_items (get_kpis now p.machines.shop.data_logger)) w))

unfoldable pub monitor : ℕ → Plant → Plant
monitor now p = record p { machines = on_shop (to_influx (monitoring now p)) p.machines }

-- `self.influx_writer and self.influx_writer.connected`, under which `start` starts the thread.
abbrev pub is_connected : Option InfluxDbWriter → Bool
is_connected none = false
is_connected (some w) = w.connected

pub data Step (p : Plant) : Plant → Type 0 where
  interrupts : (channel t : ℕ) → Step p (interrupt channel t p)
  polls : (name : Barrier) (value : Bool) (t : ℕ) → In name mcp_pins → Step p (poll name value t p)
  scans :
      (k : Station) (simulation : Bool) (reading : Reading) (t : ℕ)
      → Step p (scan_tag k simulation reading t p)
  consumes : (now : ℕ) → Step p (consume now p)
  monitors : (now : ℕ) → is_connected p.machines.shop.influx_writer ≡ true → Step p (monitor now p)
  station_timer :
      (k : Station) (t : Timer StationCall) (now : ℕ)
      → In t (get_station k p.machines).timers
      → Step p (record p { machines = fire_station k t now p.machines })
  corner_timer :
      (k : Corner) (t : Timer CornerCall) (now : ℕ)
      → In t (get p.machines.corners k).timers
      → Step p (record p { machines = fire_corner k t now p.machines })

-- A run of the threads, in any order and at any times.
pub data Run (p : Plant) : Plant → Type 0 where
  here : Run p p
  next : {q r : Plant} → Run p q → Step q r → Run p r
