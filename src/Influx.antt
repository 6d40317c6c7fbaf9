-- ===== src/Influx.antt =====
-- physical_system/influxdb_writer.py: the points that are handed to the InfluxDB client.
-- Connection, KPIs and statistics are in the child modules. The client is not modelled: `accepting`
-- says whether its `write` returns or raises, and every method catches what it raises.
pub mod Metrics
pub mod Connection
use circular_manu_system.Base.{
  Bool, List, Option, [], if◌then◌else◌, none, some, suc, zero, ℕ, ◌&&◌, ◌++◌, ◌+◌, ◌∷◌,
}
use circular_manu_system.Base.Int.{Ratio, negsuc, pos, ℤ}
use circular_manu_system.Base.Text.{Text, codes, text_eq}
use circular_manu_system.Events.{
  Barrier, Location, LocationType, at_conveyor, at_corner, at_station, at_unknown,
}
use circular_manu_system.Events.Names.{name}

-- The value of a field: a string, an `int`, or a `float`.
pub data Value : Type 0 where
  text : Text → Value
  number : ℤ → Value
  fraction : Ratio → Value

-- `time` is `None` where the source leaves the time stamp to the server.
pub record Point : Type 0 where
  pub measurement : Text
  pub time : Option ℕ
  pub tags : List (Text × Text)
  pub fields : List (Text × Value)

pub record InfluxDbWriter : Type 0 where
  pub connected : Bool
  pub accepting : Bool
  pub points : List Point

-- `if not self.connected: return`, and the `write` under its `try`.
unfoldable pub write : Point → InfluxDbWriter → InfluxDbWriter
write p w = if w.connected && w.accepting then record w { points = w.points ++ p ∷ [] } else w

-- `additional_fields={'cycle_time': cycle_time} if cycle_time else None`
cycle_field : Option ℤ → List (Text × Value)
cycle_field none = []
cycle_field (some (pos zero)) = []
cycle_field (some (pos (suc n))) = (codes "cycle_time", number (pos (suc n))) ∷ []
cycle_field (some (negsuc n)) = (codes "cycle_time", number (negsuc n)) ∷ []

unfoldable pub event_point : Text → Text → Text → Option ℤ → Point
unfolding cycle_field
event_point part_id station_id activity cycle_time = record {
  measurement = codes "manufacturing_events";
  time = none;
  tags = (codes "station_id", station_id) ∷ (codes "activity", activity) ∷ [];
  fields = (codes "part_id", text part_id) ∷ cycle_field cycle_time;
}

unfoldable pub write_event : Text → Text → Text → Option ℤ → InfluxDbWriter → InfluxDbWriter
write_event part_id station_id activity cycle_time w =
    write (event_point part_id station_id activity cycle_time) w

-- `{'IDLE': 0, …}.get(state, 0)`
unfoldable pub station_state_value : Text → ℕ
station_state_value state =
    if text_eq state (codes "IDLE")
    then 0
    else if text_eq state (codes "ENTERING")
    then 1
    else if text_eq state (codes "PROCESSING")
    then 2
    else if text_eq state (codes "EXITING")
    then 3
    else if text_eq state (codes "BLOCKED")
    then 4
    else 0

unfoldable pub corner_state_value : Text → ℕ
corner_state_value state =
    if text_eq state (codes "IDLE")
    then 0
    else if text_eq state (codes "FINAL_APPROACH")
    then 1
    else if text_eq state (codes "READY_TO_PUSH")
    then 2
    else if text_eq state (codes "EXTENDING")
    then 3
    else if text_eq state (codes "PUSHING")
    then 4
    else if text_eq state (codes "WAITING_FOR_CONFIRMATION")
    then 5
    else if text_eq state (codes "RETRACTING")
    then 6
    else 0

-- `if part_id:` is false of `None` and of the empty string.
part_field : Option Text → List (Text × Value)
part_field none = []
part_field (some []) = []
part_field (some (c ∷ t)) = (codes "part_id", text (c ∷ t)) ∷ []

unfoldable pub write_station_state : Text → Text → Option Text → InfluxDbWriter → InfluxDbWriter
unfolding part_field
write_station_state station_id state part_id w = write point w
  where
    point : Point
    point = record {
      measurement = codes "station_states";
      time = none;
      tags = (codes "station_id", station_id) ∷ (codes "state", state) ∷ [];
      fields =
          part_field part_id
          ++ (codes "state_value", number (pos (station_state_value state))) ∷ [];
    }

unfoldable pub write_corner_state : Text → Text → InfluxDbWriter → InfluxDbWriter
write_corner_state corner_id state w = write point w
  where
    point : Point
    point = record {
      measurement = codes "corner_states";
      time = none;
      tags = (codes "corner_id", corner_id) ∷ (codes "state", state) ∷ [];
      fields = (codes "state_value", number (pos (corner_state_value state))) ∷ [];
    }

-- `location_type` and `str(location_id)` as they are written; ids in the program have one digit.
abbrev pub type_name : LocationType → Text
type_name at_station = codes "station"
type_name at_corner = codes "corner"
type_name at_conveyor = codes "conveyor"
type_name at_unknown = codes "unknown"

abbrev pub digit : ℕ → Text
digit n = (b'0' + n) ∷ []

unfoldable pub write_sensor_event : Barrier → Location → InfluxDbWriter → InfluxDbWriter
write_sensor_event barrier l w = write point w
  where
    point : Point
    point = record {
      measurement = codes "sensor_events";
      time = none;
      tags =
          (codes "barrier_id", name barrier)
          ∷ (codes "location_type", type_name l.location_type)
          ∷ (codes "location_id", digit l.location_id)
          ∷ [];
      fields = (codes "trigger", number (pos 1)) ∷ [];
    }

-- The field `stationN_busy` of `write_system_status`: `1 if state != 'IDLE' else 0`.
unfoldable pub status_busy : Text → ℕ
status_busy state = if text_eq state (codes "IDLE") then 0 else 1

unfoldable pub write_system_status : ℕ → ℕ → ℕ → Text → Text → InfluxDbWriter → InfluxDbWriter
write_system_status gpio_size mcp_size nfc_size state1 state2 w = write point w
  where
    point : Point
    point = record {
      measurement = codes "system_status";
      time = none;
      tags = [];
      fields =
          (codes "queue_gpio", number (pos gpio_size))
          ∷ (codes "queue_mcp", number (pos mcp_size))
          ∷ (codes "queue_nfc", number (pos nfc_size))
          ∷ (codes "station1_busy", number (pos (status_busy state1)))
          ∷ (codes "station2_busy", number (pos (status_busy state2)))
          ∷ (codes "system_healthy", number (pos 1))
          ∷ [];
    }

-- A call through `if self.influx_writer:`.
abbrev pub when_present :
    (InfluxDbWriter → InfluxDbWriter) → Option InfluxDbWriter → Option InfluxDbWriter
when_present call none = none
when_present call (some w) = some (call w)
