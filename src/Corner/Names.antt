-- ===== src/Corner/Names.antt =====
-- What physical_system/influxdb_writer.py is told of the states of a corner, and of a station.
use circular_manu_system.Station
use circular_manu_system.Base.{refl, ◌≡◌}
use circular_manu_system.Base.Text.{text_eq}
use circular_manu_system.Corner.{CornerState, idle, state_value}
use circular_manu_system.Influx.{corner_state_value, station_state_value}
use circular_manu_system.Station.{StationState}
use circular_manu_system.Station.Names.{station_state_value-zero}

-- The number that InfluxDB is given for a corner's state is 0 in each of the seven states.
pub corner_state_value-zero : (s : CornerState) → corner_state_value (state_value s) ≡ 0
unfolding corner_state_value state_value text_eq
corner_state_value-zero idle = refl
corner_state_value-zero _ = refl

-- The number that InfluxDB is given for a station's state is 0 in each of the six states, and the
-- one for a corner's state is 0 in each of the seven.
pub state_values-zero :
    (k : StationState) (c : CornerState)
    → (station_state_value (Station.state_value k) ≡ 0) × (corner_state_value (state_value c) ≡ 0)
state_values-zero k c = (station_state_value-zero k, corner_state_value-zero c)
