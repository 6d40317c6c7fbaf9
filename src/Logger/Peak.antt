-- ===== src/Logger/Peak.antt =====
-- The bounds of `Logger.Counts` over a whole history of calls of `log_event`.
use circular_manu_system.Base.{List, [], arith, ℕ, ◌++◌, ◌∷◌}
use circular_manu_system.Base.Text.{Text}
use circular_manu_system.Events.{station1, station2}
use circular_manu_system.Logger.{
  DataLogger, corner_metrics, place_metrics, station_metrics, update_realtime_metrics,
}
use circular_manu_system.Logger.Counts.{
  InBounds, enter-InBounds, exit-InBounds, update_kpis-InBounds,
}
use circular_manu_system.Logger.History.{Entry, log_all, log_entry}
use circular_manu_system.Logger.Log.{logged, or_inferred, row}

place_metrics-InBounds :
    (p id activity : Text) (now : ℕ) (d : DataLogger)
    → InBounds d
    → InBounds (place_metrics p id activity now d)
unfolding place_metrics station_metrics corner_metrics
place_metrics-InBounds p id activity now d h = ground (
  arith,
  enter-InBounds p id station1 now d h,
  enter-InBounds p id station2 now d h,
  exit-InBounds p id station1 now d h,
  exit-InBounds p id station2 now d h,
)

logged-InBounds : (e : Entry) (d : DataLogger) → InBounds d → InBounds (log_entry e d)
unfolding logged update_realtime_metrics
logged-InBounds e d h =
    let with_row : InBounds (record d {
      rows =
          d.rows
          ++ row e.time e.station_id e.part_id e.activity (or_inferred e.tag e.activity) ∷ [];
    }) =
      record { split = h.split; peak = h.peak; window1 = h.window1; window2 = h.window2 } in
    let counted = update_kpis-InBounds e.station_id e.activity _ with_row in
    place_metrics-InBounds e.part_id e.station_id e.activity e.time _ (record {
      split = counted.split;
      peak = counted.peak;
      window1 = counted.window1;
      window2 = counted.window2;
    })

-- Any list of calls of log_event keeps this: the two station counters together are at most the
-- total, the current count of parts is at most its maximum, and the two lists of cycle times have
-- at most a hundred entries.
pub log_all-InBounds : (es : List Entry) (d : DataLogger) → InBounds d → InBounds (log_all es d)
unfolding log_all
log_all-InBounds [] d h = h
log_all-InBounds (e ∷ es) d h = log_all-InBounds es (log_entry e d) (logged-InBounds e d h)
