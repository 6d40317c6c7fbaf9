-- ===== src/Station/Status.antt =====
-- physical_system/station_controller.py: get_status.
use circular_manu_system.Station
use circular_manu_system.Base.{Option, ℕ}
use circular_manu_system.Base.Text.{Text}
use circular_manu_system.Station.{StationController, state_value}

pub record StationStatus : Type 0 where
  pub station_id : Text
  pub state : Text
  pub current_part : Option Text
  pub entry_timestamp : Option ℕ

unfoldable pub station_status : StationController → StationStatus
station_status c = record {
  station_id = Station.station_id c.station;
  state = state_value c.state;
  current_part = c.current_part;
  entry_timestamp = c.entry_timestamp;
}
