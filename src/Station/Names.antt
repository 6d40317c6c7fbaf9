-- ===== src/Station/Names.antt =====
-- The strings of a station, and what InfluxDB is told of its states.
use circular_manu_system.Base.{refl, ◌≡◌}
use circular_manu_system.Base.Text.{text_eq}
use circular_manu_system.Influx.{station_state_value, status_busy}
use circular_manu_system.Station.{StationState, idle, state_value}

-- The number that InfluxDB is given for a station's state is 0 in each of the six states.
pub station_state_value-zero : (s : StationState) → station_state_value (state_value s) ≡ 0
unfolding station_state_value state_value text_eq
station_state_value-zero idle = refl
station_state_value-zero _ = refl

-- The system status calls a station busy in each of its six states, the idle one included.
pub status_busy-one : (s : StationState) → status_busy (state_value s) ≡ 1
unfolding status_busy state_value text_eq
status_busy-one idle = refl
status_busy-one _ = refl
