-- ===== src/Logger/Log.antt =====
-- `log_event` of the data logger, with the InfluxDB writer that it shares with the other parts.
-- The lock is held from the row to the point, so a call is one step.
use circular_manu_system.Base.{Option, [], if◌then◌else◌, is_some, none, some, ℕ, ◌&&◌, ◌++◌, ◌∷◌}
use circular_manu_system.Base.Int.{sub_ℕ, ℤ}
use circular_manu_system.Base.Lists.{lookup}
use circular_manu_system.Base.Text.{Text, codes, text_eq}
use circular_manu_system.Influx.{InfluxDbWriter, when_present, write_event}
use circular_manu_system.Logger.{
  DataLogger, Row, entry_key, update_kpis, update_realtime_metrics, which_station,
}
use circular_manu_system.Logger.Tag.{infer_tag}

unfoldable pub row : ℕ → Text → Text → Text → Text → Row
row now station_id part_id activity tag = record {
  time = now;
  station_id = station_id;
  part_id = part_id;
  activity = activity;
  tag = tag;
}

unfoldable pub or_inferred : Option Text → Text → Text
or_inferred none activity = infer_tag activity
or_inferred (some tag) activity = tag

elapsed : ℕ → Option ℕ → Option ℤ
elapsed now none = none
elapsed now (some t) = some (sub_ℕ now t)

-- The cycle time that is looked up for the point, after the metrics have been updated.
unfoldable pub point_cycle_time : Text → Text → Text → ℕ → DataLogger → Option ℤ
unfolding elapsed
point_cycle_time part_id station_id activity now d =
    if text_eq activity (codes "EXIT") && is_some (which_station station_id)
    then elapsed now (lookup (entry_key part_id station_id) d.station_entry_times)
    else none

-- The record after the row and the metrics.
unfoldable pub logged : Text → Text → Text → Option Text → ℕ → DataLogger → DataLogger
unfolding row or_inferred
logged part_id station_id activity tag now d =
    update_realtime_metrics part_id station_id activity now (
      update_kpis station_id activity (record d {
        rows = d.rows ++ row now station_id part_id activity (or_inferred tag activity) ∷ [];
      }))

unfoldable pub log_event :
    Text
    → Text
    → Text
    → Option Text
    → ℕ
    → DataLogger
    → Option InfluxDbWriter
    → DataLogger × Option InfluxDbWriter
log_event part_id station_id activity tag now d writer =
    let d' = logged part_id station_id activity tag now d in
    (
      d',
      when_present
          (write_event part_id station_id activity
            (point_cycle_time part_id station_id activity now d'))
          writer,
    )
