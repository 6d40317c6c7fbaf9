-- ===== src/Tests/Records.antt =====
-- The log and the identifiers.
use circular_manu_system.Corner
use circular_manu_system.Logger
use circular_manu_system.Mqtt
use circular_manu_system.Sensors
use circular_manu_system.Station
use circular_manu_system.Base.{List, [], arith, false, none, refl, true, ℕ, ◌∷◌, ◌≡◌}
use circular_manu_system.Base.Lists.{keep}
use circular_manu_system.Base.Quad.{Corner, get}
use circular_manu_system.Base.Text.{Text, codes}
use circular_manu_system.Corner.{extending}
use circular_manu_system.Corner.Names.{state_values-zero}
use circular_manu_system.Events.{Queue, SensorEvent, at_corner, c1_pos, from_gpio, place}
use circular_manu_system.Influx.{corner_state_value, station_state_value}
use circular_manu_system.Logger.{DataLogger}
use circular_manu_system.Logger.Counts.{InBounds, init-InBounds}
use circular_manu_system.Logger.Flow.{lap, lap_wip, point_cycle_time-none}
use circular_manu_system.Logger.History.{Agrees, init-Agrees, log_all, log_all-Agrees}
use circular_manu_system.Logger.Kpis.{get_kpis}
use circular_manu_system.Logger.Log.{logged, point_cycle_time}
use circular_manu_system.Logger.Peak.{log_all-InBounds}
use circular_manu_system.Logger.Percent.{IsPercent, get_kpis-IsPercent}
use circular_manu_system.Logger.Tag.{finish_tag, infer_tag, start_tag}
use circular_manu_system.Logger.Tag.Keywords.{HasKeyword, infer_tag_lem}
use circular_manu_system.Mqtt.{kpi_message}
use circular_manu_system.Mqtt.Sessions.{
  Call, connects, disconnects, expected_messages, play, play_lem, reports,
}
use circular_manu_system.Nfc.{hex}
use circular_manu_system.Nfc.Hex.{hex-injective}
use circular_manu_system.Parts.{get_sensor_id, get_sensor_id-hex}
use circular_manu_system.Sensors.Debounce.{Interrupt, call_all, call_all-debounced}
use circular_manu_system.Station.{processing}

abbrev fresh : DataLogger
fresh = Logger.init 0

abbrev part : Text
part = codes "P1"

log_all-Agrees_example : Agrees (log_all (lap part 10 20 30 40) fresh)
log_all-Agrees_example = log_all-Agrees (lap part 10 20 30 40) fresh (init-Agrees 0)

log_all-InBounds_example : InBounds (log_all (lap part 10 20 30 40) fresh)
log_all-InBounds_example = log_all-InBounds (lap part 10 20 30 40) fresh (init-InBounds 0)

lap_wip_example : (log_all (lap part 10 20 30 40) fresh).current_wip ≡ 1
unfolding Logger.init
lap_wip_example = lap_wip part 10 20 30 40 fresh

point_cycle_time-none_example :
    point_cycle_time part
      (codes "S1")
      (codes "EXIT")
      20
      (logged part (codes "S1") (codes "EXIT") none 20 fresh)
    ≡ none
point_cycle_time-none_example = point_cycle_time-none part (codes "S1") (codes "EXIT") none 20 fresh

infer_tag_lem_example :
    (HasKeyword (codes "Push_Complete") → infer_tag (codes "Push_Complete") ≡ finish_tag)
    × (¬ HasKeyword (codes "Push_Complete") → infer_tag (codes "Push_Complete") ≡ start_tag)
infer_tag_lem_example = infer_tag_lem (codes "Push_Complete")

abbrev uid : List ℕ
uid = 4 ∷ 161 ∷ []

hex-injective_example : uid ≡ uid
hex-injective_example = hex-injective uid uid (ground arith) (ground arith) refl

get_sensor_id-hex_example : get_sensor_id (hex uid) ≡ none
get_sensor_id-hex_example = get_sensor_id-hex uid

state_values-zero_example :
    (station_state_value (Station.state_value processing) ≡ 0)
    × (corner_state_value (Corner.state_value extending) ≡ 0)
state_values-zero_example = state_values-zero processing extending

abbrev at_corner1 : SensorEvent
at_corner1 = record {
  timestamp = 100_000;
  barrier_id = c1_pos;
  location = place at_corner 1;
  source = from_gpio;
}

abbrev full : Queue SensorEvent
full = record { maxsize = 1; items = at_corner1 ∷ [] }

-- The third interrupt is of the other channel.
abbrev bursts : List Interrupt
bursts = (21, 10_000) ∷ (21, 20_000) ∷ (12, 30_000) ∷ []

call_all-debounced_example :
    call_all bursts (Sensors.init, full) ≡ call_all ((12, 30_000) ∷ []) (Sensors.init, full)
unfolding Sensors.init keep
call_all-debounced_example = call_all-debounced 21 bursts Sensors.init full (ground arith)

get_kpis-IsPercent_example :
    let k = get_kpis 100 (log_all (lap part 10 20 30 40) fresh) in
    IsPercent k.station1_utilization
    × IsPercent k.station2_utilization
    × ((c : Corner) → IsPercent (get k.corner_utilization c))
get_kpis-IsPercent_example = get_kpis-IsPercent 0 100 (lap part 10 20 30 40) (ground arith)

abbrev session : List Call
session =
    reports (codes "wip") (codes "1")
    ∷ connects 0
    ∷ reports (codes "wip") (codes "2")
    ∷ disconnects 1
    ∷ reports (codes "wip") (codes "3")
    ∷ []

play_lem_example :
    ((play session (Mqtt.init true true true)).published
      ≡ kpi_message (codes "wip") (codes "2") ∷ [])
    × ((play session (Mqtt.init false true true)).published ≡ [])
    × ((play session (Mqtt.init true false true)).published ≡ [])
unfolding expected_messages
play_lem_example = play_lem session
